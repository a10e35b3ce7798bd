-- ===== src/Gates/Model/Onward.antt =====
-- What a model that `model_quality_gate` of src/mathmodel_ai/mathematical/quality_gates.py passes may count on:
-- from the router of solvers/router.py, and from the unit checker of mathematical/units.py.
use math_model_ai.Base.{
  ◌≡◌, refl, sym, ap, ◌∙◌, String, Bool, true, false, ◌||◌, Option, List, [], ◌∷◌, ◌++◌, All,
  contains, contains-append, contains-unique_from, string_eq, if◌then◌else◌, ok, ◌>>=◌, >>=-of_ok,
  ok-injective, Bool-cases, inl, inr, arith,
}
use math_model_ai.Model.{UnitCheckStatus, MathematicalModel, SolverRequirements, ModelFamily}
use math_model_ai.Problem.{ProblemState}
use math_model_ai.Symbols.Registry.{from_model}
use math_model_ai.Units.Types.{Floats, UnitMessage, UnitCheckReport}
use math_model_ai.Units.Check.{is_fail, is_unknown, check_model}
use math_model_ai.Units.Check.Model.{IsConsistent, check_model_pass}
use math_model_ai.Solvers.Types.{
  SolverFamily, SolverCapability, AlgorithmPlan, RouterError, unknown_family, unknown_capability,
}
use math_model_ai.Solvers.Policy.{
  read_all, family_of_value, capability_of_value, preference, required_capabilities,
}
use math_model_ai.Gates.Types.{QualityGateStatus, QualityGateResult}
use math_model_ai.Gates.Model.{
  issue_texts, unit_warnings, model_warnings, model_result, unit_lookup, model_quality_gate,
}
use math_model_ai.Gates.Model.Accepted.{IsRead, model_quality_gate_iff}

read_all-returns :
    {B : Type 0} (read : String → Option B) (error : String → RouterError) (ss : List String)
    → All (IsRead read) ss
    → (values : List B) × (read_all read error ss ≡ ok values)
read_all-returns read error [] h = ([], refl)
read_all-returns {B = B} read error (s ∷ ss) ((b, found), h) =
    let (values, rest) = read_all-returns read error ss h in
    (b ∷ values, rw (found, read_all) (ap (λ r. r >>= λ (vs : List B). ok (b ∷ vs)) rest))

preference-returns :
    (r : SolverRequirements) (plan : AlgorithmPlan) {declared : List SolverFamily}
    → read_all family_of_value unknown_family r.preferred_solver_families ≡ ok declared
    → (families : List SolverFamily) × (preference r plan ≡ ok families)
unfolding preference
preference-returns r plan h = (_, >>=-of_ok _ h)

required_capabilities-returns :
    (family : ModelFamily) (r : SolverRequirements) {read : List SolverCapability}
    → read_all capability_of_value unknown_capability r.required_capabilities ≡ ok read
    → (capabilities : List SolverCapability) × (required_capabilities family r ≡ ok capabilities)
unfolding required_capabilities
required_capabilities-returns family r h = (_, >>=-of_ok _ h)

-- A checker that neither fails nor asks for a check passes.
passes :
    (status : UnitCheckStatus)
    → is_fail status ≡ false
    → is_unknown status ≡ false
    → status ≡ UnitCheckStatus.pass
passes UnitCheckStatus.pass h k = refl
passes UnitCheckStatus.fail h k = cc
passes UnitCheckStatus.unknown h k = cc

or_true : (b : Bool) → (b || true) ≡ true
or_true b = ground arith

module _ (F : Floats) (same_scale : F.Num → F.Num → Bool) (message : UnitMessage → String) where
  -- If `model_quality_gate` returns a result with status PASS, then the router of solvers can read the
  -- model's requirements: whatever the plan, `_preference` and `_required_capabilities` do not raise.
  pub model_quality_gate-router :
      (m : MathematicalModel F.Num) (state : ProblemState) (plan : AlgorithmPlan)
      {result : QualityGateResult}
      → model_quality_gate F same_scale message m state ≡ ok result
      → result.status ≡ QualityGateStatus.pass
      → ((families : List SolverFamily) × (preference m.solver_requirements plan ≡ ok families))
        × ((capabilities : List SolverCapability) × (required_capabilities m.model_family
                m.solver_requirements
              ≡ ok capabilities))
  model_quality_gate-router m state plan h p =
      let (report, checked, a) = (model_quality_gate_iff F same_scale message m state h).0 p in
      (
        preference-returns m.solver_requirements plan
            (read_all-returns family_of_value unknown_family _ a.families).1,
        required_capabilities-returns m.model_family m.solver_requirements
            (read_all-returns capability_of_value unknown_capability _ a.capabilities).1,
      )

  -- A report that is not certain leaves a warning.
  unknown-warned :
      (m : MathematicalModel F.Num) (state : ProblemState) (report : UnitCheckReport F.Num)
      → is_unknown report.status ≡ true
      → contains "UNIT_CHECK_REQUIRED" (model_result F same_scale message m state report).warnings
        ≡ true
  unfolding model_warnings
  unknown-warned m state report h =
      contains-unique_from "UNIT_CHECK_REQUIRED" []
        (model_warnings F same_scale message (from_model same_scale m) report) refl
        (contains-append "UNIT_CHECK_REQUIRED" (issue_texts false (from_model same_scale m).issues)
            _
          ∙ ap
              (λ b.
                contains "UNIT_CHECK_REQUIRED" (issue_texts false (from_model same_scale m).issues)
                || contains "UNIT_CHECK_REQUIRED" (
                    (if b then "UNIT_CHECK_REQUIRED" ∷ [] else [])
                    ++ unit_warnings message report.issues))
              h
          ∙ or_true
              (contains "UNIT_CHECK_REQUIRED" (issue_texts false (from_model same_scale m).issues)))

  result-of :
      (m : MathematicalModel F.Num) (state : ProblemState) {report : UnitCheckReport F.Num}
      {result : QualityGateResult}
      → check_model F (unit_lookup F same_scale message (from_model same_scale m)) m ≡ ok report
      → model_quality_gate F same_scale message m state ≡ ok result
      → model_result F same_scale message m state report ≡ result
  unfolding model_quality_gate
  result-of m state checked h = ok-injective (sym (>>=-of_ok _ checked) ∙ h)

  -- If `model_quality_gate` returns a result with status PASS and without the warning that a check of the
  -- units is required, then the model is dimensionally consistent: by the rules of dimensional analysis, with the
  -- units of the symbol registry, the two sides of every constraint, initial and boundary condition and
  -- equation have one dimension, and so has the objective, that of its declared unit where it declares one.
  pub model_quality_gate-IsConsistent :
      (m : MathematicalModel F.Num) (state : ProblemState) {result : QualityGateResult}
      → model_quality_gate F same_scale message m state ≡ ok result
      → result.status ≡ QualityGateStatus.pass
      → contains "UNIT_CHECK_REQUIRED" result.warnings ≡ false
      → IsConsistent F (unit_lookup F same_scale message (from_model same_scale m)) m
  model_quality_gate-IsConsistent m state {result = result} h p quiet =
      let (report, checked, a) = (model_quality_gate_iff F same_scale message m state h).0 p in
      let warned = unknown-warned m state report in
      let same : model_result F same_scale message m state report ≡ result =
        result-of m state checked h in
      let certain : is_unknown report.status ≡ false =
        elim (Bool-cases (is_unknown report.status)) [
          | inr known ↦ known
          | inl open_ended ↦ cc (
              sym quiet
              ∙ ap (λ (r : QualityGateResult). contains "UNIT_CHECK_REQUIRED" r.warnings) (sym same)
              ∙ warned open_ended)
        ] in
      check_model_pass F (unit_lookup F same_scale message (from_model same_scale m)) m checked
        (passes report.status a.units certain)
