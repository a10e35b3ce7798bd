-- ===== src/Gates/Solve.antt =====
-- `solve_quality_gate` of src/mathmodel_ai/mathematical/quality_gates.py: the gate that a solution passes. The
-- verifier of evidence is the one of mathematical/evidence.py, and `within` is `<=` on floats.
pub mod Laws
mod Tests
use math_model_ai.Base.{
  String, Bool, true, false, not, ◌&&◌, ◌||◌, Option, none, some, List, [], ◌∷◌, ◌++◌, map,
  is_empty, is_subset, is_some, nat_eq, string_eq, ◌==◌, if◌then◌else◌,
}
use math_model_ai.Base.Dict
use math_model_ai.Model.{VariableDefinition, MathematicalModel}
use math_model_ai.Evidence.Types.{
  SolverStatus, optimal, feasible, infeasible, unbounded, infeasible_or_unbounded, time_limit,
  iteration_limit, numerical_error, model_invalid, solver_unavailable, execution_error, unknown,
  status_eq, SolverStatus-discrete, succeeded, execution_eq, ExecutionStatus-discrete,
  EvidenceErrorCode, objective_mismatch, status_mismatch, key_output_mismatch, result_ref_mismatch,
  model_version_mismatch, model_digest_mismatch, code_hash_mismatch, execution_failed,
  mock_execution, missing_execution, missing_model, missing_solver_run, missing_generated_program,
  solver_identity_mismatch, broken_result_chain, EvidenceIssue, FeasibilityReport, ResultRecord,
  SolverRun, ExecutionRecord, GeneratedProgram, EvidenceChainReport,
}
use math_model_ai.Evidence.{verify_evidence}
use math_model_ai.Gates.Types.{QualityGateResult, failed_checks, status_of}
use math_model_ai.Gates.Model.{prefixed}

abbrev pub status_value : SolverStatus → String
status_value optimal = "OPTIMAL"
status_value feasible = "FEASIBLE"
status_value infeasible = "INFEASIBLE"
status_value unbounded = "UNBOUNDED"
status_value infeasible_or_unbounded = "INFEASIBLE_OR_UNBOUNDED"
status_value time_limit = "TIME_LIMIT"
status_value iteration_limit = "ITERATION_LIMIT"
status_value numerical_error = "NUMERICAL_ERROR"
status_value model_invalid = "MODEL_INVALID"
status_value solver_unavailable = "SOLVER_UNAVAILABLE"
status_value execution_error = "EXECUTION_ERROR"
status_value unknown = "UNKNOWN"

abbrev pub error_value : EvidenceErrorCode → String
error_value objective_mismatch = "OBJECTIVE_MISMATCH"
error_value status_mismatch = "STATUS_MISMATCH"
error_value key_output_mismatch = "KEY_OUTPUT_MISMATCH"
error_value result_ref_mismatch = "RESULT_REF_MISMATCH"
error_value model_version_mismatch = "MODEL_VERSION_MISMATCH"
error_value model_digest_mismatch = "MODEL_DIGEST_MISMATCH"
error_value code_hash_mismatch = "CODE_HASH_MISMATCH"
error_value execution_failed = "EXECUTION_FAILED"
error_value mock_execution = "MOCK_EXECUTION"
error_value missing_execution = "MISSING_EXECUTION"
error_value missing_model = "MISSING_MODEL"
error_value missing_solver_run = "MISSING_SOLVER_RUN"
error_value missing_generated_program = "MISSING_GENERATED_PROGRAM"
error_value solver_identity_mismatch = "SOLVER_IDENTITY_MISMATCH"
error_value broken_result_chain = "BROKEN_RESULT_CHAIN"

-- `terminal_truthful` and `retry_statuses`
abbrev pub is_terminal : SolverStatus → Bool
is_terminal optimal = true
is_terminal feasible = true
is_terminal infeasible = true
is_terminal unbounded = true
is_terminal infeasible_or_unbounded = true
is_terminal _ = false

abbrev pub is_retry : SolverStatus → Bool
is_retry time_limit = true
is_retry iteration_limit = true
is_retry numerical_error = true
is_retry model_invalid = true
is_retry solver_unavailable = true
is_retry execution_error = true
is_retry unknown = true
is_retry _ = false

abbrev pub is_success : SolverStatus → Bool
is_success optimal = true
is_success feasible = true
is_success _ = false

abbrev pub error_values : List EvidenceIssue → List String
error_values [] = []
error_values (i ∷ is) = error_value i.code ∷ error_values is

module _ {A : Type 0} (within : A → A → Bool) where
  abbrev pub within_tolerance : A → Option A → Bool
  within_tolerance tolerance none = true
  within_tolerance tolerance (some v) = within v tolerance

  abbrev pub reports_feasible : Option (FeasibilityReport A) → Bool
  reports_feasible none = false
  reports_feasible (some f) =
      f.checked
      && is_empty f.violated_constraints
      && is_empty f.bound_violations
      && within_tolerance f.tolerance f.max_constraint_violation

  unfoldable pub solve_checks :
      MathematicalModel A
      → ResultRecord A
      → SolverRun A
      → ExecutionRecord
      → EvidenceChainReport
      → List (String × Bool)
  unfolding SolverStatus-discrete ExecutionStatus-discrete
  solve_checks m result run x evidence =
      let completed = x.status == succeeded in
      let is_feasible = run.result.is_feasible in
      ("canonical_solver_status", run.status == run.result.status)
      ∷ ("execution_record_matches", run.execution_ref == x.run_id)
      ∷ ("execution_is_non_mock", not x.is_mock)
      ∷ ("completed_execution_for_terminal_result", not (is_terminal run.status) || completed)
      ∷ (
        "result_schema_links",
        result.solver_run_id == run.solver_run_id
            && result.execution_record_id == x.run_id
            && result.model_id == m.model_id
            && result.model_version == m.version,
      )
      ∷ (
        "key_variables_present_when_feasible",
        not is_feasible
            || is_subset (map (λ (v : VariableDefinition A). v.symbol) m.decision_variables)
                (Dict.keys run.result.variable_values),
      )
      ∷ (
        "objective_present_when_feasible",
        not is_feasible || not (is_some m.objective) || is_some run.result.objective_value,
      )
      ∷ (
        "optimal_is_feasible",
        not (run.status == optimal) || (run.result.is_optimal && run.result.is_feasible),
      )
      ∷ ("failure_not_wrapped_as_success", not (not completed && is_success run.status))
      ∷ (
        "implemented_feasibility_passes",
        not is_feasible || reports_feasible run.result.feasibility,
      )
      ∷ ("evidence_integrity", evidence.valid)
      ∷ []

  unfoldable pub solve_errors :
      MathematicalModel A
      → ResultRecord A
      → SolverRun A
      → ExecutionRecord
      → EvidenceChainReport
      → List String
  unfolding solve_checks
  solve_errors m result run x evidence =
      prefixed "SOLVE_GATE_FAIL:" (failed_checks (solve_checks m result run x evidence))
      ++ (prefixed "SOLVE_GATE_FAIL:"
            (if is_retry run.status then status_value run.status ∷ [] else [])
          ++ prefixed "SOLVE_GATE_FAIL:" (error_values evidence.errors))

  unfoldable pub solve_quality_gate :
      (A → A → Bool)
      → (MathematicalModel A → String)
      → MathematicalModel A
      → ResultRecord A
      → SolverRun A
      → ExecutionRecord
      → Option GeneratedProgram
      → QualityGateResult
  unfolding verify_evidence solve_errors
  solve_quality_gate close digest m result run x program =
      let evidence = verify_evidence close digest result (some run) (some x) (some m) program [] in
      let errors = solve_errors m result run x evidence in
      record {
        gate = "SOLVE";
        status = status_of errors;
        checks = solve_checks m result run x evidence;
        errors = errors;
        warnings = run.result.warnings;
      }
