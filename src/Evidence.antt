-- ===== src/Evidence.antt =====
-- `EvidenceIntegrityVerifier` of src/mathmodel_ai/mathematical/evidence.py. `close` is `math.isclose` with
-- the verifier's tolerances, and `digest` is `mathematical_model_digest`.
pub mod Types
pub mod Laws
pub mod Tests
use Prim.Native.Char.{code}
use math_model_ai.Base.{
  ℕ, String, Bool, true, false, not, ◌&&◌, ◌||◌, Option, none, some, List, [], ◌∷◌, ◌++◌, any, all,
  find, contains, is_empty, is_some, nat_beq, nat_eq, string_eq, option_eq, ◌==◌, if◌then◌else◌,
}
use math_model_ai.Base.Int.{pos, int_eq, ℤ-discrete}
use math_model_ai.Base.Dict
use math_model_ai.Base.Dict.{Dict}
use math_model_ai.Model.{MathematicalModel}
use math_model_ai.Evidence.Types.{
  SolverStatus, optimal, status_eq, SolverStatus-discrete, solver_eq, SolverName-discrete,
  ExecutionStatus, succeeded, execution_eq, ExecutionStatus-discrete, origin_eq,
  ExecutionOrigin-discrete, EvidenceErrorCode, objective_mismatch, status_mismatch,
  key_output_mismatch, result_ref_mismatch, model_version_mismatch, model_digest_mismatch,
  code_hash_mismatch, execution_failed, mock_execution, missing_execution, missing_model,
  missing_solver_run, missing_generated_program, solver_identity_mismatch, broken_result_chain,
  error_code_eq, EvidenceErrorCode-discrete, EvidenceIssue, ResultRecord, SolverRun,
  ExecutionRecord, GeneratedSourceFile, GeneratedProgram, EvidenceChainReport,
}

-- `if not good: issues.append(self._issue(code, ...))`
abbrev pub issue_unless : Bool → EvidenceErrorCode → List EvidenceIssue
issue_unless true code = []
issue_unless false code = record { code = code; reference = none } ∷ []

-- Equality of two paths after `replace("\\", "/")`.
abbrev pub slashed : ℕ → ℕ
slashed n = if nat_beq n 92 then 47 else n

abbrev pub same_path : String → String → Bool
same_path String.[] String.[] = true
same_path String.[] (String.◌∷◌ d t) = false
same_path (String.◌∷◌ c s) String.[] = false
same_path (String.◌∷◌ c s) (String.◌∷◌ d t) =
    nat_beq (slashed (code c)) (slashed (code d)) && same_path s t

-- `_deduplicate`, with the issues that were seen.
unfoldable pub same_issue : EvidenceIssue → EvidenceIssue → Bool
unfolding EvidenceErrorCode-discrete
same_issue a b = a.code == b.code && a.reference == b.reference

unfoldable pub deduplicate_issues : List EvidenceIssue → List EvidenceIssue → List EvidenceIssue
unfolding same_issue
deduplicate_issues seen [] = []
deduplicate_issues seen (i ∷ rest) = elim (any (same_issue i) seen) [
  | true ↦ deduplicate_issues seen rest
  | false ↦ i ∷ deduplicate_issues (i ∷ seen) rest
]

abbrev pub has_code : EvidenceErrorCode → List EvidenceIssue → Bool
has_code c issues = any (λ (i : EvidenceIssue). i.code == c) issues

abbrev pub entrypoint_of : GeneratedProgram → Option GeneratedSourceFile
entrypoint_of p = find (λ (f : GeneratedSourceFile). same_path f.path p.entrypoint) p.files

-- The entry point's hash, where there is one, is that of the executed code.
abbrev pub runs_entrypoint : String → Option GeneratedSourceFile → Bool
runs_entrypoint code_hash none = false
runs_entrypoint code_hash (some f) = f.sha256 == some code_hash

abbrev pub runs_program : Option ExecutionRecord → GeneratedProgram → Bool
runs_program none p = false
runs_program (some x) p =
    runs_entrypoint x.code_hash (entrypoint_of p)
    && some p.code_hash == x.executed_bundle_hash
    && x.generated_program_id == some p.program_id

abbrev pub same_origin : GeneratedProgram → Option ExecutionRecord → Bool
same_origin p none = true
same_origin p (some x) = p.execution_origin == x.execution_origin

abbrev pub digest_of_execution : Option ExecutionRecord → List String
digest_of_execution none = []
digest_of_execution (some x) = elim x.model_digest [ none ↦ [] | some d ↦ d ∷ [] ]

abbrev pub digest_of_program : Option GeneratedProgram → List String
digest_of_program none = []
digest_of_program (some p) = p.model_digest ∷ []

module _ {A : Type 0} (close : A → A → Bool) where
  -- `_optional_number_equal`
  abbrev pub optional_close : Option A → Option A → Bool
  optional_close none none = true
  optional_close none (some b) = false
  optional_close (some a) none = false
  optional_close (some a) (some b) = close a b

  abbrev pub output_agrees : Dict String A → String × A → Bool
  output_agrees values (key, value) = elim (Dict.lookup key values) [
    | none ↦ false
    | some v ↦ close value v
  ]

  -- `_verify_result_and_run`
  unfoldable pub run_issues : ResultRecord A → SolverRun A → List EvidenceIssue
  unfolding SolverStatus-discrete SolverName-discrete
  run_issues result run =
      issue_unless (result.solver_run_id == run.solver_run_id && run.result_ref == result.result_id)
        result_ref_mismatch
      ++ (issue_unless
            ((result.status == run.status && result.status == run.result.status)
              && (not (result.status == optimal)
                  || (run.result.is_optimal && run.result.is_feasible)))
            status_mismatch
          ++ (issue_unless (result.solver == run.solver && result.solver == run.result.solver_name)
                solver_identity_mismatch
              ++ (issue_unless
                    (optional_close result.objective run.objective
                      && optional_close result.objective run.result.objective_value)
                    objective_mismatch
                  ++ issue_unless
                      (all (output_agrees run.result.variable_values) result.key_outputs)
                      key_output_mismatch)))

module _ {A : Type 0} where
  abbrev pub on_run : (SolverRun A → Bool) → Option (SolverRun A) → Bool
  on_run test none = true
  on_run test (some run) = test run

  -- `_verify_execution`
  unfoldable pub execution_issues :
      ResultRecord A → Option (SolverRun A) → ExecutionRecord → List EvidenceIssue
  unfolding ExecutionStatus-discrete ExecutionOrigin-discrete ℤ-discrete
  execution_issues result run x =
      issue_unless
        (result.execution_record_id == x.run_id && on_run (λ r. r.execution_ref == x.run_id) run)
        broken_result_chain
      ++ (issue_unless (not x.is_mock) mock_execution
          ++ (issue_unless (x.status == succeeded && x.exit_code == some (pos 0)) execution_failed
              ++ issue_unless (on_run (λ r. r.execution_origin == x.execution_origin) run)
                  broken_result_chain))

  abbrev pub names_program : GeneratedProgram → Option (SolverRun A) → Bool
  names_program p none = false
  names_program p (some run) = run.generated_program_id == some p.program_id

  -- `_verify_program`
  unfoldable pub program_issues :
      ResultRecord A
      → Option (SolverRun A)
      → Option ExecutionRecord
      → GeneratedProgram
      → List EvidenceIssue
  unfolding ExecutionOrigin-discrete
  program_issues result run x p =
      issue_unless (names_program p run) broken_result_chain
      ++ (issue_unless (same_origin p x) broken_result_chain
          ++ (issue_unless
                (p.model_id == result.model_id && p.model_version == result.model_version)
                model_version_mismatch
              ++ issue_unless (runs_program x p) code_hash_mismatch))

  abbrev pub requires_program : Option (SolverRun A) → Bool
  requires_program none = false
  requires_program (some run) = is_some run.generated_program_id

  -- The program's part of `verify`.
  unfoldable pub chain_issues :
      ResultRecord A
      → Option (SolverRun A)
      → Option ExecutionRecord
      → Option GeneratedProgram
      → List EvidenceIssue
  unfolding program_issues
  chain_issues result run x none =
      issue_unless (not (requires_program run)) missing_generated_program
  chain_issues result run x (some p) = program_issues result run x p

  -- `exact_model_version`, of a model and a run that are there.
  abbrev pub exact_version : ResultRecord A → SolverRun A → MathematicalModel A → Bool
  exact_version result run m =
      (m.model_id == result.model_id && result.model_id == run.model_id)
      && (m.version == result.model_version && result.model_version == run.model_version)

  abbrev pub is_exact : ResultRecord A → Option (SolverRun A) → Option (MathematicalModel A) → Bool
  is_exact result (some run) (some m) = exact_version result run m
  is_exact result none _ = false
  is_exact result (some run) none = false

  -- The issue is made only where the model and the run are there.
  abbrev pub version_issues :
      ResultRecord A → Option (SolverRun A) → Option (MathematicalModel A) → List EvidenceIssue
  version_issues result (some run) (some m) =
      issue_unless (exact_version result run m) model_version_mismatch
  version_issues result none _ = []
  version_issues result (some run) none = []

  abbrev pub digest_of_run : Option (SolverRun A) → List String
  digest_of_run none = []
  digest_of_run (some run) = run.model_digest ∷ []

  -- `digest_values`
  abbrev pub digest_values :
      ResultRecord A
      → Option (SolverRun A)
      → Option ExecutionRecord
      → Option GeneratedProgram
      → List String
  digest_values result run x p =
      result.model_digest ∷ (digest_of_run run ++ (digest_of_execution x ++ digest_of_program p))

  abbrev pub digests_match :
      (MathematicalModel A → String) → Option (MathematicalModel A) → List String → Bool
  digests_match digest none values = false
  digests_match digest (some m) values = all (λ d. d == digest m) values

  abbrev pub digest_issues :
      (MathematicalModel A → String)
      → Option (MathematicalModel A)
      → List String
      → List EvidenceIssue
  digest_issues digest none values = []
  digest_issues digest (some m) values =
      issue_unless (all (λ d. d == digest m) values) model_digest_mismatch

  abbrev pub issues_of_run :
      (A → A → Bool) → ResultRecord A → Option (SolverRun A) → List EvidenceIssue
  issues_of_run close result none = []
  issues_of_run close result (some run) = run_issues close result run

  abbrev pub issues_of_execution :
      ResultRecord A → Option (SolverRun A) → Option ExecutionRecord → List EvidenceIssue
  issues_of_execution result run none = []
  issues_of_execution result run (some x) = execution_issues result run x

module _ {A : Type 0} (close : A → A → Bool) (digest : MathematicalModel A → String) where
  -- The issues of `verify`, in order.
  unfoldable pub evidence_issues :
      ResultRecord A
      → Option (SolverRun A)
      → Option ExecutionRecord
      → Option (MathematicalModel A)
      → Option GeneratedProgram
      → List EvidenceIssue
  unfolding run_issues execution_issues chain_issues
  evidence_issues result run x m p =
      issue_unless (is_some run) missing_solver_run
      ++ (issue_unless (is_some x) missing_execution
          ++ (issue_unless (is_some m) missing_model
              ++ (version_issues result run m
                  ++ (digest_issues digest m (digest_values result run x p)
                      ++ (issues_of_run close result run
                          ++ (issues_of_execution result run x ++ chain_issues result run x p))))))

  abbrev pub found_program : Option (SolverRun A) → Option GeneratedProgram → Option Bool
  found_program run p = if requires_program run then some (is_some p) else none

  -- `_verify_program` is called when there is a program.
  abbrev pub hash_match : Option ExecutionRecord → Option GeneratedProgram → Option Bool
  hash_match x none = none
  hash_match x (some p) = some (runs_program x p)

  unfoldable pub verify_evidence :
      ResultRecord A
      → Option (SolverRun A)
      → Option ExecutionRecord
      → Option (MathematicalModel A)
      → Option GeneratedProgram
      → List EvidenceIssue
      → EvidenceChainReport
  unfolding evidence_issues deduplicate_issues EvidenceErrorCode-discrete
  verify_evidence result run x m p additional =
      let unique = deduplicate_issues [] (additional ++ evidence_issues result run x m p) in
      record {
        result_id = result.result_id;
        valid = is_empty unique;
        model_found = is_some m;
        solver_run_found = is_some run;
        execution_found = is_some x;
        generated_program_found = found_program run p;
        exact_model_version = is_exact result run m && not (has_code model_version_mismatch unique);
        model_digest_match =
            digests_match digest m (digest_values result run x p)
            && not (has_code model_digest_mismatch unique);
        code_hash_match = if has_code code_hash_mismatch unique then some false else hash_match x p;
        errors = unique;
      }
