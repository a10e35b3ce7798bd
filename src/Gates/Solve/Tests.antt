-- ===== src/Gates/Solve/Tests.antt =====
-- The solution of the tests of `Evidence` before `solve_quality_gate`.
use math_model_ai.Base.{◌≡◌, refl, nat_beq, leb, true, false, some, string_eq}
use math_model_ai.Base.Int.{ℤ-discrete}
use math_model_ai.Evidence.Types.{
  SolverStatus-discrete, SolverName-discrete, ExecutionStatus-discrete, ExecutionOrigin-discrete,
  EvidenceErrorCode-discrete,
}
use math_model_ai.Evidence.{
  run_issues, execution_issues, program_issues, chain_issues, evidence_issues, deduplicate_issues,
  same_issue, verify_evidence,
}
use math_model_ai.Evidence.Laws.{IsBacked}
use math_model_ai.Evidence.Tests.{model, digest, result, solver_run, execution, program}
use math_model_ai.Gates.Types.{QualityGateStatus}
use math_model_ai.Gates.Solve.{is_retry, solve_checks, solve_errors, solve_quality_gate}
use math_model_ai.Gates.Solve.Laws.{IsFeasible, solve_quality_gate-IsBacked}

solution_passes :
    (solve_quality_gate leb nat_beq digest model result solver_run execution (some program)).status
    ≡ QualityGateStatus.pass
unfolding solve_quality_gate solve_errors solve_checks verify_evidence evidence_issues
    deduplicate_issues same_issue run_issues execution_issues program_issues chain_issues
    SolverStatus-discrete SolverName-discrete ExecutionStatus-discrete ExecutionOrigin-discrete
    EvidenceErrorCode-discrete ℤ-discrete
solution_passes = refl

solve_quality_gate-IsBacked_example :
    IsBacked nat_beq digest result solver_run execution model (some program)
    × (is_retry solver_run.status ≡ false)
    × (solver_run.result.is_feasible ≡ true → IsFeasible leb model solver_run)
solve_quality_gate-IsBacked_example =
    solve_quality_gate-IsBacked leb nat_beq digest model result solver_run execution (some program)
      solution_passes
