-- ===== src/Gates/Solve/Laws.antt =====
-- What a solution that `solve_quality_gate` of src/mathmodel_ai/mathematical/quality_gates.py passes stands on.
use math_model_ai.Base.{
  ◌≡◌, refl, sym, ◌∙◌, String, Bool, true, false, not, ◌||◌, &&-eq-true, Option, none, some, List,
  [], ◌∷◌, map, all, all-mem, Memᴰ, is_empty, is_subset, is_some, string_eq, if◌then◌else◌, arith,
}
use math_model_ai.Base.Dict
use math_model_ai.Model.{VariableDefinition, MathematicalModel}
use math_model_ai.Evidence.Types.{
  FeasibilityReport, ResultRecord, SolverRun, ExecutionRecord, GeneratedProgram,
  EvidenceChainReport,
}
use math_model_ai.Evidence.{verify_evidence}
use math_model_ai.Evidence.Laws.{IsBacked, deduplicate_issues-is_empty, evidence_issues-IsBacked}
use math_model_ai.Gates.Types.{QualityGateStatus}
use math_model_ai.Gates.Checks.{passed, failed_checks-is_empty, status_of_iff}
use math_model_ai.Gates.Model.Errors.{append-is_empty, prefixed-is_empty}
use math_model_ai.Gates.Solve.{
  status_value, is_retry, within_tolerance, reports_feasible, solve_checks, solve_errors,
  solve_quality_gate,
}

nil-of : (xs : List String) → is_empty xs ≡ true → xs ≡ []
nil-of [] h = refl
nil-of (x ∷ xs) h = cc

not_retry : (b : Bool) (s : String) → is_empty (if b then s ∷ [] else []) ≡ true → b ≡ false
not_retry true s h = cc
not_retry false s h = refl

required : (b c : Bool) → (not b || c) ≡ true → b ≡ true → c ≡ true
required true c h e = h
required false c h e = cc

required_both : (b c d : Bool) → (not b || not c || d) ≡ true → b ≡ true → c ≡ true → d ≡ true
required_both true true d h e f = h
required_both true false d h e f = cc
required_both false c d h e f = cc

module _ {A : Type 0} (within : A → A → Bool) where
  -- A report of feasibility without a violation.
  pub record IsClean (report : Option (FeasibilityReport A)) : Type 0 where
    pub found : FeasibilityReport A
    pub given : report ≡ some found
    pub checked : found.checked ≡ true
    pub constraints : found.violated_constraints ≡ []
    pub bounds : found.bound_violations ≡ []
    pub tolerated : within_tolerance within found.tolerance found.max_constraint_violation ≡ true

  reports_feasible-IsClean :
      (report : Option (FeasibilityReport A))
      → reports_feasible within report ≡ true
      → IsClean report
  reports_feasible-IsClean none h = cc
  reports_feasible-IsClean (some f) h = record {
    found = f;
    given = refl;
    checked = ground arith;
    constraints = nil-of f.violated_constraints (ground arith);
    bounds = nil-of f.bound_violations (ground arith);
    tolerated = ground arith;
  }

  -- What a feasible solution shows.
  pub record IsFeasible (m : MathematicalModel A) (run : SolverRun A) : Type 0 where
    pub variables :
        is_subset
          (map (λ (v : VariableDefinition A). v.symbol) m.decision_variables)
          (Dict.keys run.result.variable_values)
        ≡ true
    pub objective : is_some m.objective ≡ true → is_some run.result.objective_value ≡ true
    pub report : IsClean run.result.feasibility

  module _ (close : A → A → Bool) (digest : MathematicalModel A → String) (m : MathematicalModel A)
      (result : ResultRecord A) (run : SolverRun A) (x : ExecutionRecord)
      (program : Option GeneratedProgram) where
    abbrev evidence : EvidenceChainReport
    evidence = verify_evidence close digest result (some run) (some x) (some m) program []

    solve_checks-IsFeasible :
        all passed (solve_checks within m result run x evidence) ≡ true
        → (run.result.is_feasible ≡ true → IsFeasible m run) × (evidence.valid ≡ true)
    unfolding solve_checks
    solve_checks-IsFeasible h =
        let feasible = run.result.is_feasible in
        let named : Bool =
          is_subset (map (λ (v : VariableDefinition A). v.symbol) m.decision_variables)
            (Dict.keys run.result.variable_values) in
        let has_value =
          not feasible || not (is_some m.objective) || is_some run.result.objective_value in
        let clean = reports_feasible within run.result.feasibility in
        let check_variables : (not feasible || named) ≡ true =
          all-mem passed (solve_checks within m result run x evidence)
            {a = ("key_variables_present_when_feasible", not feasible || named)} h
            (Memᴰ.tail (Memᴰ.tail (Memᴰ.tail (Memᴰ.tail (Memᴰ.tail (Memᴰ.head refl)))))) in
        let check_objective : has_value ≡ true =
          all-mem passed (solve_checks within m result run x evidence)
            {a = ("objective_present_when_feasible", has_value)} h
            (Memᴰ.tail
              (Memᴰ.tail (Memᴰ.tail (Memᴰ.tail (Memᴰ.tail (Memᴰ.tail (Memᴰ.head refl))))))) in
        let check_report : (not feasible || clean) ≡ true =
          all-mem passed (solve_checks within m result run x evidence)
            {a = ("implemented_feasibility_passes", not feasible || clean)} h
            (Memᴰ.tail (
              Memᴰ.tail (
                Memᴰ.tail (
                  Memᴰ.tail (
                    Memᴰ.tail
                      (Memᴰ.tail (Memᴰ.tail (Memᴰ.tail (Memᴰ.tail (Memᴰ.head refl)))))))))) in
        (
          λ f. record {
            variables = required feasible named check_variables f;
            objective = λ o.
                required_both feasible (is_some m.objective) (is_some run.result.objective_value)
                  check_objective f o;
            report =
                reports_feasible-IsClean run.result.feasibility
                  (required feasible clean check_report f);
          },
          all-mem passed (solve_checks within m result run x evidence)
              {a = ("evidence_integrity", evidence.valid)} h
              (Memᴰ.tail (
                Memᴰ.tail (
                  Memᴰ.tail (
                    Memᴰ.tail (
                      Memᴰ.tail (
                        Memᴰ.tail
                          (Memᴰ.tail (Memᴰ.tail (Memᴰ.tail (Memᴰ.tail (Memᴰ.head refl))))))))))),
        )

    valid-IsBacked : evidence.valid ≡ true → IsBacked close digest result run x m program
    unfolding verify_evidence
    valid-IsBacked h =
        evidence_issues-IsBacked close digest result run x m program
          (deduplicate_issues-is_empty _ h)

    solve_errors-passed :
        is_empty (solve_errors within m result run x evidence) ≡ true
        → (all passed (solve_checks within m result run x evidence) ≡ true)
          × (is_retry run.status ≡ false)
    unfolding solve_errors
    solve_errors-passed h =
        let (failed, rest) = &&-eq-true _ _ (sym (append-is_empty _ _) ∙ h) in
        let (retry, evidenced) = &&-eq-true _ _ (sym (append-is_empty _ _) ∙ rest) in
        (
          sym (failed_checks-is_empty (solve_checks within m result run x evidence))
              ∙ sym (prefixed-is_empty "SOLVE_GATE_FAIL:" _)
              ∙ failed,
          not_retry (is_retry run.status) (status_value run.status)
              (sym (prefixed-is_empty "SOLVE_GATE_FAIL:" _) ∙ retry),
        )

    -- If `solve_quality_gate` passes a solution, then its result is backed by the run, the execution, the model and
    -- the program, as a valid report of the verifier says, the run did not stop at a limit or an error, and if the
    -- solution is feasible, then every decision variable has a value, an objective of the model has one, and
    -- the feasibility was checked, with no violated constraint or bound, within the tolerance.
    pub solve_quality_gate-IsBacked :
        (solve_quality_gate within close digest m result run x program).status
          ≡ QualityGateStatus.pass
        → IsBacked close digest result run x m program
          × (is_retry run.status ≡ false)
          × (run.result.is_feasible ≡ true → IsFeasible m run)
    unfolding solve_quality_gate
    solve_quality_gate-IsBacked h =
        let (checks, settled) = solve_errors-passed ((status_of_iff _).0 h) in
        let (feasible, valid) = solve_checks-IsFeasible checks in
        (valid-IsBacked valid, settled, feasible)
