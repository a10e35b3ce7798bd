-- ===== src/Evidence/Laws.antt =====
-- What a valid report of `EvidenceIntegrityVerifier` in src/mathmodel_ai/mathematical/evidence.py stands on.
use math_model_ai.Base.{
  ◌≡◌, refl, String, Bool, true, false, not, ◌&&◌, ◌||◌, &&-eq-true, Option, none, some, List, [],
  ◌∷◌, ◌++◌, all, all_iff, All, is_empty, is_some, nat_eq, string_eq, option_eq, ◌==◌, ==→≡,
}
use math_model_ai.Base.Int.{pos, int_eq}
use math_model_ai.Model.{MathematicalModel}
use math_model_ai.Evidence.Types.{
  SolverStatus, status_eq, solver_eq, ExecutionStatus, execution_eq, origin_eq, EvidenceErrorCode,
  EvidenceIssue, ResultRecord, SolverRun, ExecutionRecord, GeneratedProgram,
}
use math_model_ai.Evidence.{
  issue_unless, deduplicate_issues, runs_program, optional_close, output_agrees, run_issues,
  execution_issues, program_issues, chain_issues, digest_values, evidence_issues, verify_evidence,
}

pub deduplicate_issues-is_empty :
    (issues : List EvidenceIssue)
    → is_empty (deduplicate_issues [] issues) ≡ true
    → is_empty issues ≡ true
unfolding deduplicate_issues
deduplicate_issues-is_empty [] h = refl
deduplicate_issues-is_empty (i ∷ issues) h = cc

append-none :
    (xs ys : List EvidenceIssue)
    → is_empty (xs ++ ys) ≡ true
    → (is_empty xs ≡ true) × (is_empty ys ≡ true)
append-none [] ys h = (refl, h)
append-none (x ∷ xs) ys h = cc

holds :
    (good : Bool) (code : EvidenceErrorCode)
    → is_empty (issue_unless good code) ≡ true
    → good ≡ true
holds true code h = refl
holds false code h = cc

-- The first check, and the issues that follow it.
next :
    (good : Bool) (code : EvidenceErrorCode) (rest : List EvidenceIssue)
    → is_empty (issue_unless good code ++ rest) ≡ true
    → (good ≡ true) × (is_empty rest ≡ true)
next good code rest h =
    let (here, there) = append-none (issue_unless good code) rest h in (holds good code here, there)

negated : (b : Bool) → not b ≡ true → b ≡ false
negated true h = cc
negated false h = refl

consequence : (b c d : Bool) → b ≡ true → (not b || (c && d)) ≡ true → (c ≡ true) × (d ≡ true)
consequence true c d e h = &&-eq-true c d h
consequence false c d e h = cc

module _ {A : Type 0} (close : A → A → Bool) (digest : MathematicalModel A → String) where
  -- What a run and its result agree on.
  pub record RunAgrees (result : ResultRecord A) (run : SolverRun A) : Type 0 where
    pub links : (result.solver_run_id ≡ run.solver_run_id) × (run.result_ref ≡ result.result_id)
    pub status : (result.status ≡ run.status) × (result.status ≡ run.result.status)
    pub optimal :
        result.status ≡ SolverStatus.optimal
        → (run.result.is_optimal ≡ true) × (run.result.is_feasible ≡ true)
    pub solver : (result.solver ≡ run.solver) × (result.solver ≡ run.result.solver_name)
    pub objective :
        (optional_close close result.objective run.objective ≡ true)
        × (optional_close close result.objective run.result.objective_value ≡ true)
    pub outputs : all (output_agrees close run.result.variable_values) result.key_outputs ≡ true

  run_issues-RunAgrees :
      (result : ResultRecord A) (run : SolverRun A)
      → is_empty (run_issues close result run) ≡ true
      → RunAgrees result run
  unfolding run_issues
  run_issues-RunAgrees result run h =
      let (links, h1) = next _ _ _ h in
      let (status, h2) = next _ _ _ h1 in
      let (solver, h3) = next _ _ _ h2 in
      let (objective, h4) = next _ _ _ h3 in
      let l = &&-eq-true _ _ links in
      let s = &&-eq-true _ _ status in
      let statuses = &&-eq-true _ _ s.0 in
      let n = &&-eq-true _ _ solver in
      record {
        links = (==→≡ _ _ l.0, ==→≡ _ _ l.1);
        status = (==→≡ _ _ statuses.0, ==→≡ _ _ statuses.1);
        optimal = λ o. consequence _ _ _ ((status_eq.equal_iff _ _).1 o) s.1;
        solver = (==→≡ _ _ n.0, ==→≡ _ _ n.1);
        objective = &&-eq-true _ _ objective;
        outputs = holds _ _ h4;
      }

  -- What an execution shows.
  pub record RunsFor (result : ResultRecord A) (run : SolverRun A) (x : ExecutionRecord)
      : Type 0 where
    pub links : (result.execution_record_id ≡ x.run_id) × (run.execution_ref ≡ x.run_id)
    pub real : x.is_mock ≡ false
    pub succeeds : (x.status ≡ ExecutionStatus.succeeded) × (x.exit_code ≡ some (pos 0))
    pub origin : run.execution_origin ≡ x.execution_origin

  execution_issues-RunsFor :
      (result : ResultRecord A) (run : SolverRun A) (x : ExecutionRecord)
      → is_empty (execution_issues result (some run) x) ≡ true
      → RunsFor result run x
  unfolding execution_issues
  execution_issues-RunsFor result run x h =
      let (links, h1) = next _ _ _ h in
      let (real, h2) = next _ _ _ h1 in
      let (succeeds, h3) = next _ _ _ h2 in
      let l = &&-eq-true _ _ links in
      let s = &&-eq-true _ _ succeeds in
      record {
        links = (==→≡ _ _ l.0, ==→≡ _ _ l.1);
        real = negated _ real;
        succeeds = (==→≡ _ _ s.0, ==→≡ _ _ s.1);
        origin = ==→≡ _ _ (holds _ _ h3);
      }

  -- The program of a run, if the run names one, is the code that was executed.
  pub data ProgramRuns (result : ResultRecord A) (run : SolverRun A) (x : ExecutionRecord)
      : Option GeneratedProgram → Type 0 where
    no_program : run.generated_program_id ≡ none → ProgramRuns result run x none
    program :
        {p : GeneratedProgram}
        → run.generated_program_id ≡ some p.program_id
        → p.execution_origin ≡ x.execution_origin
        → p.model_id ≡ result.model_id
        → p.model_version ≡ result.model_version
        → runs_program (some x) p ≡ true
        → ProgramRuns result run x (some p)

  no_id : (o : Option String) → not (is_some o) ≡ true → o ≡ none
  no_id none h = refl
  no_id (some i) h = cc

  chain_issues-ProgramRuns :
      (result : ResultRecord A) (run : SolverRun A) (x : ExecutionRecord)
      (p : Option GeneratedProgram)
      → is_empty (chain_issues result (some run) (some x) p) ≡ true
      → ProgramRuns result run x p
  unfolding chain_issues program_issues
  chain_issues-ProgramRuns result run x none h =
      ProgramRuns.no_program (no_id run.generated_program_id (holds _ _ h))
  chain_issues-ProgramRuns result run x (some p) h =
      let (named, h1) = next _ _ _ h in
      let (origin, h2) = next _ _ _ h1 in
      let (model, h3) = next _ _ _ h2 in
      let m = &&-eq-true _ _ model in
      ProgramRuns.program (==→≡ _ _ named) (==→≡ _ _ origin) (==→≡ _ _ m.0) (==→≡ _ _ m.1)
        (holds _ _ h3)

  -- The evidence of a result, with nothing missing.
  pub record IsBacked (result : ResultRecord A) (run : SolverRun A) (x : ExecutionRecord)
      (m : MathematicalModel A) (p : Option GeneratedProgram) : Type 0 where
    pub model_id : (m.model_id ≡ result.model_id) × (result.model_id ≡ run.model_id)
    pub version : (m.version ≡ result.model_version) × (result.model_version ≡ run.model_version)
    pub digests : All (λ d. d ≡ digest m) (digest_values result (some run) (some x) p)
    pub agrees : RunAgrees result run
    pub executed : RunsFor result run x
    pub program : ProgramRuns result run x p

  pub evidence_issues-IsBacked :
      (result : ResultRecord A) (run : SolverRun A) (x : ExecutionRecord) (m : MathematicalModel A)
      (p : Option GeneratedProgram)
      → is_empty (evidence_issues close digest result (some run) (some x) (some m) p) ≡ true
      → IsBacked result run x m p
  unfolding evidence_issues
  evidence_issues-IsBacked result run x m p h =
      let (exact, h1) = next _ _ _ h in
      let (matching, h2) = next _ _ _ h1 in
      let (agrees, h3) = append-none (run_issues close result run) _ h2 in
      let (executed, chain) = append-none (execution_issues result (some run) x) _ h3 in
      let e = &&-eq-true _ _ exact in
      let i = &&-eq-true _ _ e.0 in
      let v = &&-eq-true _ _ e.1 in
      record {
        model_id = (==→≡ _ _ i.0, ==→≡ _ _ i.1);
        version = (==→≡ _ _ v.0, ==→≡ _ _ v.1);
        digests =
            (all_iff (λ d. d == digest m) (λ d. d ≡ digest m)
                (λ d. string_eq.equal_iff d (digest m))
                (digest_values result (some run) (some x) p)).0
              matching;
        agrees = run_issues-RunAgrees result run agrees;
        executed = execution_issues-RunsFor result run x executed;
        program = chain_issues-ProgramRuns result run x p chain;
      }

  evidence_issues-present :
      (result : ResultRecord A) (run : Option (SolverRun A)) (x : Option ExecutionRecord)
      (m : Option (MathematicalModel A)) (p : Option GeneratedProgram)
      → is_empty (evidence_issues close digest result run x m p) ≡ true
      → (r : SolverRun A) × (run ≡ some r)
        × (e : ExecutionRecord) × (x ≡ some e)
        × (k : MathematicalModel A) × (m ≡ some k)
        × IsBacked result r e k p
  unfolding evidence_issues
  evidence_issues-present result none x m p h = cc
  evidence_issues-present result (some r) none m p h = cc
  evidence_issues-present result (some r) (some e) none p h = cc
  evidence_issues-present result (some r) (some e) (some k) p h =
      (r, refl, e, refl, k, refl, evidence_issues-IsBacked result r e k p h)

  -- If `verify` reports the evidence of a result as valid, whatever issues the caller adds, then the solver run,
  -- the execution and the model are there, they name the same model revision as the result, every recorded digest is that of the model,
  -- the run and the result refer to each other and agree on status, solver, objective and key outputs, an
  -- optimal result is optimal and feasible, the execution is the one that both name, is no mock and ended
  -- with exit code 0, and a generated program is there exactly where the run names one, and is the code that was
  -- executed.
  pub verify_evidence-IsBacked :
      (result : ResultRecord A) (run : Option (SolverRun A)) (x : Option ExecutionRecord)
      (m : Option (MathematicalModel A)) (p : Option GeneratedProgram)
      (additional : List EvidenceIssue)
      → (verify_evidence close digest result run x m p additional).valid ≡ true
      → (r : SolverRun A) × (run ≡ some r)
        × (e : ExecutionRecord) × (x ≡ some e)
        × (k : MathematicalModel A) × (m ≡ some k)
        × IsBacked result r e k p
  unfolding verify_evidence
  verify_evidence-IsBacked result run x m p additional h =
      evidence_issues-present result run x m p
        (append-none additional _ (deduplicate_issues-is_empty _ h)).1
