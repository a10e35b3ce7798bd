-- ===== src/Evidence/Tests.antt =====
-- A result of a generated program with its evidence: the report evaluated, and the theorem of `Evidence`
-- applied to it. The floats are natural numbers.
use math_model_ai.Base.{ℕ, ◌≡◌, refl, nat_beq, String, true, false, none, some, [], ◌∷◌, string_eq}
use math_model_ai.Base.Int.{pos, ℤ-discrete}
use math_model_ai.Model.{MathematicalModel, empty_model, ModelFamily}
use math_model_ai.Solvers.Types.{SolverName}
use math_model_ai.Evidence.Types.{
  SolverStatus, SolverStatus-discrete, SolverName-discrete, ExecutionStatus,
  ExecutionStatus-discrete, ExecutionOrigin, ExecutionOrigin-discrete, EvidenceErrorCode-discrete,
  ResultRecord, SolverRun, ExecutionRecord, GeneratedProgram,
}
use math_model_ai.Evidence.{
  run_issues, execution_issues, program_issues, chain_issues, evidence_issues, deduplicate_issues,
  same_issue, verify_evidence,
}
use math_model_ai.Evidence.Laws.{IsBacked, verify_evidence-IsBacked}

abbrev pub model : MathematicalModel ℕ
model = empty_model ModelFamily.linear_programming

abbrev pub digest : MathematicalModel ℕ → String
digest m = m.model_id

abbrev pub result : ResultRecord ℕ
result = record {
  result_id = "result";
  model_id = "model";
  model_version = 1;
  model_digest = "model";
  solver_run_id = "solver_run";
  execution_record_id = "execution";
  solver = SolverName.scipy;
  objective = some 7;
  key_outputs = ("x", 3) ∷ [];
  status = SolverStatus.optimal;
}

abbrev pub solver_run : SolverRun ℕ
solver_run = record {
  solver_run_id = "solver_run";
  model_id = "model";
  model_version = 1;
  model_digest = "model";
  generated_program_id = some "program";
  execution_origin = ExecutionOrigin.generated_program;
  solver = SolverName.scipy;
  status = SolverStatus.optimal;
  objective = some 7;
  result_ref = "result";
  execution_ref = "execution";
  result = record {
    solver_name = SolverName.scipy;
    status = SolverStatus.optimal;
    objective_value = some 7;
    variable_values = ("x", 3) ∷ ("y", 4) ∷ [];
    is_optimal = true;
    is_feasible = true;
    warnings = [];
    feasibility = some (record {
      checked = true;
      violated_constraints = [];
      bound_violations = [];
      max_constraint_violation = some 0;
      tolerance = 1;
    });
  };
}

abbrev pub execution : ExecutionRecord
execution = record {
  run_id = "execution";
  code_hash = "entry";
  executed_bundle_hash = some "bundle";
  execution_origin = ExecutionOrigin.generated_program;
  model_digest = none;
  generated_program_id = some "program";
  status = ExecutionStatus.succeeded;
  exit_code = some (pos 0);
  is_mock = false;
}

abbrev pub program : GeneratedProgram
program = record {
  program_id = "program";
  model_id = "model";
  model_version = 1;
  model_digest = "model";
  code_hash = "bundle";
  execution_origin = ExecutionOrigin.generated_program;
  files =
      record { path = "src\\data.py"; sha256 = none }
      ∷ record { path = "src\\main.py"; sha256 = some "entry" }
      ∷ [];
  entrypoint = "src/main.py";
}

evidence_is_valid :
    (verify_evidence nat_beq digest result
      (some solver_run)
      (some execution)
      (some model)
      (some program)
      []).valid
    ≡ true
unfolding verify_evidence evidence_issues deduplicate_issues same_issue run_issues execution_issues
    program_issues chain_issues SolverStatus-discrete SolverName-discrete ExecutionStatus-discrete
    ExecutionOrigin-discrete EvidenceErrorCode-discrete ℤ-discrete
evidence_is_valid = refl

verify_evidence-IsBacked_example :
    (r : SolverRun ℕ) × (some solver_run ≡ some r)
    × (e : ExecutionRecord) × (some execution ≡ some e)
    × (k : MathematicalModel ℕ) × (some model ≡ some k)
    × IsBacked nat_beq digest result r e k (some program)
verify_evidence-IsBacked_example =
    verify_evidence-IsBacked nat_beq digest result (some solver_run) (some execution) (some model)
      (some program) [] evidence_is_valid
