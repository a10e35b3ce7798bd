-- ===== src/Gates/Model/Accepted.antt =====
-- What `model_quality_gate` of src/mathmodel_ai/mathematical/quality_gates.py passes, said of the model and of
-- the state of the problem.
use mathlib.Core.Option.{some-injective}
use math_model_ai.Base.{
  ◌≡◌, ◌↔◌, refl, sym, ap, subst, ◌∙◌, String, Bool, true, false, not, ◌||◌, Option, none, some,
  List, ◌++◌, map, all, all_iff, All, contains, is_subset, is_unique, is_empty, is_some, ◌==◌, ==→≡,
  string_eq, option_eq, option_equal_iff, ok, >>=-eq-ok, ok-injective, arith,
}
use math_model_ai.Model.{UnitCheckStatus, ParameterDefinition, MathematicalModel}
use math_model_ai.Problem.{SubProblem, ProblemState}
use math_model_ai.Symbols.Registry.{definitions_of, expressions_of, from_model}
use math_model_ai.Symbols.Registry.Register.{name}
use math_model_ai.Symbols.Registry.Validity.{AllDeclared, from_model_iff}
use math_model_ai.Symbols.Entries.{equation_key, equations_of}
use math_model_ai.Symbols.Entries.Laws.{DependsOn, equations_of_iff}
use math_model_ai.Units.Types.{Floats, UnitMessage, UnitCheckReport}
use math_model_ai.Units.Check.{is_fail, check_model}
use math_model_ai.Solvers.Policy.{family_of_value, capability_of_value}
use math_model_ai.Gates.Types.{QualityGateStatus, QualityGateResult, status_of}
use math_model_ai.Gates.Model.{
  is_optimization, required_equations, binding_resolves, has_source, model_checks, model_errors,
  unit_lookup, model_result, model_quality_gate,
}
use math_model_ai.Gates.Model.Ambiguities.{
  SettlesRefs, unresolved_critical_iff, IsSupported, unsupported_iff,
}
use math_model_ai.Gates.Checks.{both, passed, status_of_iff}
use math_model_ai.Gates.Model.Errors.{model_errors-passed}

-- A text that is read as a value.
abbrev pub IsRead : {B : Type 0} → (String → Option B) → String → Type 0
IsRead {B} read s = (b : B) × (read s ≡ some b)

read_iff :
    {B : Type 0} (read : String → Option B) (s : String) → (is_some (read s) ≡ true) ↔ IsRead read s
read_iff {B = B} read s = (λ h. under (read s) h, λ h. ap is_some h.1)
  where
    under : (o : Option B) → is_some o ≡ true → (b : B) × (o ≡ some b)
    under none h = cc
    under (some b) h = (b, refl)

implication : (a b : Bool) → (a ≡ true → b ≡ true) → (not a || b) ≡ true
implication true b h = h refl
implication false b h = refl

module _ {A : Type 0} where
  abbrev pub HasSource : ParameterDefinition A → Type 0
  HasSource p = ¬ (p.source_ref ≡ "")

  source_iff : (p : ParameterDefinition A) → (has_source p ≡ true) ↔ HasSource p
  source_iff p = (
    λ h. λ e. cc (sym h ∙ ap not ((string_eq.equal_iff p.source_ref "").1 e)),
    λ h. under (p.source_ref == "") refl h,
  )
    where
      under : (b : Bool) → (p.source_ref == "") ≡ b → HasSource p → not b ≡ true
      under true e h = absurd (h (==→≡ p.source_ref "" e))
      under false e h = refl

  -- A binding names a dataset of the project.
  abbrev pub IsBound : List String → ParameterDefinition A → Type 0
  IsBound datasets p = (d : String) → p.data_binding ≡ some d → contains d datasets ≡ true

  IsBound-iff :
      (datasets : List String) (p : ParameterDefinition A)
      → (binding_resolves datasets p ≡ true) ↔ IsBound datasets p
  IsBound-iff datasets p = under p.data_binding
    where
      under :
          (o : Option String)
          → ((elim o [ none ↦ true | some d ↦ contains d datasets ]) ≡ true)
            ↔ ((d : String) → o ≡ some d → contains d datasets ≡ true)
      under none = (λ h. λ d. λ e. cc, λ h. refl)
      under (some d) = (
        λ h. λ k. λ e. subst (λ j. contains j datasets ≡ true) (some-injective d k e) h,
        λ h. h d refl,
      )

  -- The conditions of the gate, with the status of the unit checker.
  pub record IsAccepted (m : MathematicalModel A) (state : ProblemState) (status : UnitCheckStatus)
      : Type 0 where
    pub selected : state.selected_model ≡ some m.source_selected_model_id
    pub targets :
        is_subset m.target_subproblems (map (λ (s : SubProblem). s.subproblem_id) state.subproblems)
        ≡ true
    pub variables : is_empty m.decision_variables ≡ false
    pub objective : is_optimization m.model_family ≡ true → is_some m.objective ≡ true
    pub symbols : is_unique (map name (definitions_of m)) ≡ true
    pub references : AllDeclared (definitions_of m) (expressions_of m)
    pub sources : All HasSource (m.parameters ++ m.constants)
    pub bindings : is_subset m.data_bindings state.datasets ≡ true
    pub parameter_bindings : All (IsBound state.datasets) (m.parameters ++ m.constants)
    pub equations : is_unique (map equation_key m.equations) ≡ true
    pub dependencies : All (DependsOn (map equation_key m.equations)) m.equations
    pub equation_refs : is_subset (required_equations m) (map equation_key m.equations) ≡ true
    pub units : is_fail status ≡ false
    pub ambiguities : All (SettlesRefs m state) state.subproblems
    pub assumptions : All IsSupported m.assumptions
    pub families : All (IsRead family_of_value) m.solver_requirements.preferred_solver_families
    pub capabilities : All (IsRead capability_of_value) m.solver_requirements.required_capabilities

  module _ (same_scale : A → A → Bool) (m : MathematicalModel A) (state : ProblemState)
      (status : UnitCheckStatus) where
    abbrev all_passed : Bool
    all_passed = all passed (model_checks m state (from_model same_scale m) (equations_of m) status)

    checks-IsAccepted : all_passed ≡ true → IsAccepted m state status
    unfolding model_checks
    checks-IsAccepted h = record {
      selected = sym (==→≡ (some m.source_selected_model_id) state.selected_model (ground arith));
      targets = ground arith;
      variables = ground arith;
      objective = λ o. ground arith;
      symbols = ((from_model_iff same_scale m).0 (ground arith)).0;
      references = ((from_model_iff same_scale m).0 (ground arith)).1;
      sources =
          (all_iff has_source HasSource source_iff (m.parameters ++ m.constants)).0 (ground arith);
      bindings = ground arith;
      parameter_bindings =
          (all_iff _ (IsBound state.datasets) (IsBound-iff state.datasets)
              (m.parameters ++ m.constants)).0
            (ground arith);
      equations = ((equations_of_iff m).0 (ground arith)).0;
      dependencies = ((equations_of_iff m).0 (ground arith)).1;
      equation_refs = ground arith;
      units = ground arith;
      ambiguities = (unresolved_critical_iff m state).0 (ground arith);
      assumptions = (unsupported_iff m.assumptions).0 (ground arith);
      families =
          (all_iff _ (IsRead family_of_value) (read_iff family_of_value)
              m.solver_requirements.preferred_solver_families).0
            (ground arith);
      capabilities =
          (all_iff _ (IsRead capability_of_value) (read_iff capability_of_value)
              m.solver_requirements.required_capabilities).0
            (ground arith);
    }

    IsAccepted-checks : IsAccepted m state status → all_passed ≡ true
    unfolding model_checks
    IsAccepted-checks a =
        let bound =
          all_iff _ (IsBound state.datasets) (IsBound-iff state.datasets)
            (m.parameters ++ m.constants) in
        let families =
          all_iff _ (IsRead family_of_value) (read_iff family_of_value)
            m.solver_requirements.preferred_solver_families in
        let capabilities =
          all_iff _ (IsRead capability_of_value) (read_iff capability_of_value)
            m.solver_requirements.required_capabilities in
        both (ap is_some a.selected) (
          both
            ((option_equal_iff (some m.source_selected_model_id) state.selected_model).1
              (sym a.selected))
            (both (a.targets) (
              both (ap not a.variables) (
                both
                  (implication (is_optimization m.model_family) (is_some m.objective) a.objective)
                  (both ((from_model_iff same_scale m).1 (a.symbols, a.references)) (
                    both
                      ((all_iff has_source HasSource source_iff (m.parameters ++ m.constants)).1
                        a.sources)
                      (both (both a.bindings (bound.1 a.parameter_bindings)) (
                        both ((equations_of_iff m).1 (a.equations, a.dependencies)) (
                          both (a.equation_refs) (
                            both (ap not a.units) (
                              both ((unresolved_critical_iff m state).1 a.ambiguities) (
                                both ((unsupported_iff m.assumptions).1 a.assumptions) (
                                  both
                                    (both (families.1 a.families) (capabilities.1 a.capabilities))
                                    (refl))))))))))))))

    errors_iff :
        (status_of (model_errors m state (from_model same_scale m) (equations_of m) status)
          ≡ QualityGateStatus.pass)
        ↔ IsAccepted m state status
    errors_iff =
        let empty =
          status_of_iff (model_errors m state (from_model same_scale m) (equations_of m) status) in
        let same = model_errors-passed m state (from_model same_scale m) (equations_of m) status in
        (λ h. checks-IsAccepted (sym same ∙ empty.0 h), λ a. empty.1 (same ∙ IsAccepted-checks a))

module _ (F : Floats) (same_scale : F.Num → F.Num → Bool) (message : UnitMessage → String) where
  -- If `model_quality_gate` returns a result, then its status is PASS exactly when these conditions all hold: the
  -- selected model of the state is the one that the model was made for; the subproblems that it targets are
  -- subproblems of the state; it has a decision variable; if its family is one of optimization, it has an objective;
  -- no symbol is declared twice; every symbol that its expressions refer to is declared, under its name or with an
  -- index under the name before the bracket; every parameter and constant has a source that is not empty; its data
  -- bindings are datasets of the state; the data binding of every parameter and constant, where there is one, is
  -- such a dataset; no identifier of an equation is used twice; the dependencies of every equation are equations of
  -- the model; so are the equations that its objective and its constraints name; the report of the unit checker,
  -- which returns one, does not have the status of a failure; every ambiguity that a targeted subproblem names is
  -- settled, by a resolution that is not critical, by a preferred interpretation with a confidence of at least 0.7,
  -- or by a resolution from evidence or of a human that has an interpretation; every critical assumption is
  -- supported; every preferred solver family is one that the solvers know; and so is every required capability.
  pub model_quality_gate_iff :
      (m : MathematicalModel F.Num) (state : ProblemState) {result : QualityGateResult}
      → model_quality_gate F same_scale message m state ≡ ok result
      → (result.status ≡ QualityGateStatus.pass) ↔ (
          (report : UnitCheckReport F.Num) × (check_model F
              (unit_lookup F same_scale message (from_model same_scale m))
              m
            ≡ ok report)
          × IsAccepted m state report.status)
  unfolding model_quality_gate
  model_quality_gate_iff m state {result = result} h =
      let (report, checked, rest) =
        >>=-eq-ok (check_model F (unit_lookup F same_scale message (from_model same_scale m)) m) _
          h in
      let result_is : model_result F same_scale message m state report ≡ result =
        ok-injective rest in
      let accepted = errors_iff same_scale m state report.status in
      (
        λ p. (report, checked, accepted.0 (ap (λ (r : QualityGateResult). r.status) result_is ∙ p)),
        λ a.
            ap (λ (r : QualityGateResult). r.status) (sym result_is)
            ∙ accepted.1 (
                subst (λ (r : UnitCheckReport F.Num). IsAccepted m state r.status)
                  (ok-injective (sym a.1 ∙ checked)) a.2),
      )
