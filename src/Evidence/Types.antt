-- ===== src/Evidence/Types.antt =====
-- The records of a solution, as far as the verifier of evidence reads them: src/mathmodel_ai/schemas/results.py,
-- `SolverRun`, `SolverResult` and `SolverStatus` of schemas/solver.py, `ExecutionRecord` of
-- schemas/execution.py and `GeneratedProgram` of schemas/program.py.
use math_model_ai.Base.{ℕ, String, Bool, Option, List, Eq, eq_of_discrete}
use math_model_ai.Base.Int.{ℤ}
use math_model_ai.Base.Dict.{Dict}
use math_model_ai.Solvers.Types.{SolverName}

pub data SolverStatus : Type 0 where
  optimal feasible infeasible unbounded infeasible_or_unbounded : SolverStatus
  time_limit iteration_limit numerical_error model_invalid : SolverStatus
  solver_unavailable execution_error unknown : SolverStatus

unfoldable pub SolverStatus-discrete : Discrete SolverStatus
SolverStatus-discrete = hlevel

instance abbrev pub status_eq : Eq SolverStatus
status_eq = eq_of_discrete SolverStatus-discrete

unfoldable pub SolverName-discrete : Discrete SolverName
SolverName-discrete = hlevel

instance abbrev pub solver_eq : Eq SolverName
solver_eq = eq_of_discrete SolverName-discrete

pub data ExecutionStatus : Type 0 where
  succeeded failed timeout unavailable rejected : ExecutionStatus

unfoldable pub ExecutionStatus-discrete : Discrete ExecutionStatus
ExecutionStatus-discrete = hlevel

instance abbrev pub execution_eq : Eq ExecutionStatus
execution_eq = eq_of_discrete ExecutionStatus-discrete

pub data ExecutionOrigin : Type 0 where
  user_code deterministic_solver_adapter generated_program : ExecutionOrigin

unfoldable pub ExecutionOrigin-discrete : Discrete ExecutionOrigin
ExecutionOrigin-discrete = hlevel

instance abbrev pub origin_eq : Eq ExecutionOrigin
origin_eq = eq_of_discrete ExecutionOrigin-discrete

pub data EvidenceErrorCode : Type 0 where
  objective_mismatch status_mismatch key_output_mismatch result_ref_mismatch : EvidenceErrorCode
  model_version_mismatch model_digest_mismatch code_hash_mismatch : EvidenceErrorCode
  execution_failed mock_execution missing_execution missing_model : EvidenceErrorCode
  missing_solver_run missing_generated_program solver_identity_mismatch : EvidenceErrorCode
  broken_result_chain : EvidenceErrorCode

unfoldable pub EvidenceErrorCode-discrete : Discrete EvidenceErrorCode
EvidenceErrorCode-discrete = hlevel

instance abbrev pub error_code_eq : Eq EvidenceErrorCode
error_code_eq = eq_of_discrete EvidenceErrorCode-discrete

-- The message, one text for each place that makes an issue, is left out.
pub record EvidenceIssue : Type 0 where
  pub code : EvidenceErrorCode
  pub reference : Option String

pub record ResultRecord (A : Type 0) : Type 0 where
  pub result_id : String
  pub model_id : String
  pub model_version : ℕ
  pub model_digest : String
  pub solver_run_id : String
  pub execution_record_id : String
  pub solver : SolverName
  pub objective : Option A
  pub key_outputs : Dict String A
  pub status : SolverStatus

pub record FeasibilityReport (A : Type 0) : Type 0 where
  pub checked : Bool
  pub violated_constraints : List String
  pub bound_violations : List String
  pub max_constraint_violation : Option A
  pub tolerance : A

pub record SolverResult (A : Type 0) : Type 0 where
  pub solver_name : SolverName
  pub status : SolverStatus
  pub objective_value : Option A
  pub variable_values : Dict String A
  pub is_optimal : Bool
  pub is_feasible : Bool
  pub warnings : List String
  pub feasibility : Option (FeasibilityReport A)

pub record SolverRun (A : Type 0) : Type 0 where
  pub solver_run_id : String
  pub model_id : String
  pub model_version : ℕ
  pub model_digest : String
  pub generated_program_id : Option String
  pub execution_origin : ExecutionOrigin
  pub solver : SolverName
  pub status : SolverStatus
  pub objective : Option A
  pub result_ref : String
  pub execution_ref : String
  pub result : SolverResult A

pub record ExecutionRecord : Type 0 where
  pub run_id : String
  pub code_hash : String
  pub executed_bundle_hash : Option String
  pub execution_origin : ExecutionOrigin
  pub model_digest : Option String
  pub generated_program_id : Option String
  pub status : ExecutionStatus
  pub exit_code : Option ℤ
  pub is_mock : Bool

pub record GeneratedSourceFile : Type 0 where
  pub path : String
  pub sha256 : Option String

pub record GeneratedProgram : Type 0 where
  pub program_id : String
  pub model_id : String
  pub model_version : ℕ
  pub model_digest : String
  pub code_hash : String
  pub execution_origin : ExecutionOrigin
  pub files : List GeneratedSourceFile
  pub entrypoint : String

pub record EvidenceChainReport : Type 0 where
  pub result_id : String
  pub valid : Bool
  pub model_found : Bool
  pub solver_run_found : Bool
  pub execution_found : Bool
  pub generated_program_found : Option Bool
  pub exact_model_version : Bool
  pub model_digest_match : Bool
  pub code_hash_match : Option Bool
  pub errors : List EvidenceIssue
