-- ===== src/Submission/Tests.antt =====
-- A small submission, taken through the jury, the check and the freeze.
use Prim.Native.Char.{code}
use math_model_ai.Base.{
  ◌≡◌, ◌↔◌, refl, String, Bool, true, false, none, List, [], ◌∷◌, ok, raise, string_eq, ◌&&◌, ◌||◌,
  nat_beq, Memᴰ,
}
use math_model_ai.Submission.Types.{
  ProfileVerificationStatus, RuleSeverity, RuleResultStatus, RequirementCoverageStatus,
  JurySeverity, JuryDecision, JuryDecision-discrete, decision_eq, PaperQualityStatus,
  SubmissionCheckStatus, SubmissionCheckStatus-discrete, check_status_eq, CompetitionProfile,
  RuleResult, SubmissionArtifactRole, RequirementCoverage, SubmissionCandidate, JuryFinding,
  FinalJuryDraft, FinalJuryReport, Digests, SubmissionCheckResult,
}
use math_model_ai.Submission.Jury.{
  validate_competition_profile, check_rules, decision, recompute_score, binds_candidate,
  binds_digests, judge_again, verify_report, build_report,
}
use math_model_ai.Submission.Jury.Decision.{decision_pass}
use math_model_ai.Submission.Jury.Passing.{Passes}
use math_model_ai.Submission.Jury.Report.{Vouched, verify_report_pass, verify_report-build_report}
use math_model_ai.Submission.Check.{
  ArtifactBytes, Files, is_allowed_path, rule_issues, coverage_issues, jury_issues, bytes_match,
  artifact_issues, security_issues, candidate_issues, early_issues, issues, status, names_candidate,
  holds_digests, recheck, verify,
}
use math_model_ai.Submission.Check.Laws.{Approved, verify_pass}
use math_model_ai.Submission.Corrections.{
  CorrectionScope, CorrectionScope-discrete, CorrectionPlan, InvalidationResult, CorrectionError,
  evaluate, validate_auto_fix, stages,
}
use math_model_ai.Submission.Corrections.Redone.{
  IsModelPart, IsRemodelled, IsRedone, evaluate-IsRedone,
}

abbrev pub digests : Digests
digests = record {
  profile = λ p. p.profile_id;
  candidate = λ c. c.candidate_id;
  requirement_snapshot = λ _. "requirements";
  rule_result_snapshot = λ _. "rules";
  artifact_set = λ _. "artifacts";
  report = λ r. r.report_id;
  check = λ c. c.jury_report_id;
  sha256_bytes = λ _. "hash";
  is_fixture_reference = λ _. false;
}

abbrev pub profile : CompetitionProfile
profile = record {
  profile_id = "mcm";
  version = 1;
  source_refs = "rules.pdf" ∷ [];
  verification_status = ProfileVerificationStatus.verified;
  rules =
      record {
        source_ref = "rules.pdf";
        source_location = "page 2";
        severity = RuleSeverity.blocking;
        verification_status = ProfileVerificationStatus.verified;
        is_custom_reproduction = false;
      }
      ∷ [];
  prohibited_submission_files = ".env" ∷ [];
  allowed_submission_files = "paper.pdf" ∷ [];
  reproduction_required = false;
  minimum_jury_score = 60;
  jury_weights = ("rigor", 100) ∷ [];
  require_independent_reviewer = false;
}

abbrev pub candidate : SubmissionCandidate
candidate = record {
  candidate_id = "c1";
  project_id = "p1";
  competition_profile_digest = "mcm";
  paper_id = "paper";
  paper_version = 3;
  paper_status = PaperQualityStatus.ready_for_final_jury;
  paper_manifest_hash = "manifest";
  paper_ir_hash = "ir";
  verified_model_id = "model";
  verified_model_version = 2;
  verified_model_digest = "model digest";
  verified_result_id = "result";
  phase5_verified = true;
  artifacts =
      record {
        artifact_id = "a1";
        role = SubmissionArtifactRole.paper_pdf;
        relative_path = "paper.pdf";
        size_bytes = 2;
        sha256 = "hash";
      }
      ∷ [];
}

abbrev pub rules : List RuleResult
rules =
    record {
      rule_id = "RULE-pages";
      severity = RuleSeverity.blocking;
      status = RuleResultStatus.pass;
      message = "22 pages";
    }
    ∷ []

abbrev pub coverage : List RequirementCoverage
coverage =
    record {
      requirement_id = "REQ-1";
      requirement_digest = "digest";
      subproblem_id = "Q1";
      required = true;
      status = RequirementCoverageStatus.covered;
      evidence_refs = [];
      paper_refs = "SEC-2" ∷ [];
      artifact_refs = "a1" ∷ [];
      reasons = [];
    }
    ∷ []

abbrev finding : JuryFinding
finding = record {
  finding_id = "JURY-figure";
  severity = JurySeverity.minor;
  title = "A figure lacks a unit";
  evidence_refs = [];
  paper_refs = "FIG-1" ∷ [];
  rule_refs = [];
  resolved = false;
}

abbrev draft : FinalJuryDraft
draft = record {
  dimensions = record { dimension = "rigor"; score = 80; maximum = 100 } ∷ [];
  findings = finding ∷ finding ∷ [];
  summary = "sound";
}

abbrev pub report : FinalJuryReport
report = record {
  report_id = "r1";
  project_id = "p1";
  paper_id = "paper";
  paper_version = 3;
  paper_manifest_hash = "manifest";
  paper_ir_hash = "ir";
  verified_model_id = "model";
  verified_model_version = 2;
  verified_model_digest = "model digest";
  verified_result_id = "result";
  competition_profile_id = "mcm";
  competition_profile_version = 1;
  competition_profile_digest = "mcm";
  candidate_digest = "c1";
  requirement_snapshot_digest = "requirements";
  rule_result_snapshot_digest = "rules";
  artifact_set_digest = "artifacts";
  dimensions = draft.dimensions;
  findings = finding ∷ [];
  claimed_score = 80;
  decision = JuryDecision.pass;
  summary = "sound";
  reviewer_is_mock = false;
  independent_reviewer_used = false;
  agent_run_id = none;
  report_digest = "r1";
}

decision_pass_example :
    (decision profile candidate coverage rules (finding ∷ []) 80 true false false
      ≡ JuryDecision.pass)
    ↔ Passes profile candidate coverage rules (finding ∷ []) 80 true false false
decision_pass_example =
    decision_pass profile candidate coverage rules (finding ∷ []) 80 true false false

report_verifies :
    verify_report digests report profile candidate coverage rules ≡ ok JuryDecision.pass
unfolding verify_report binds_candidate validate_competition_profile check_rules binds_digests
    judge_again recompute_score decision JuryDecision-discrete
report_verifies = refl

verify_report_pass_example : Vouched digests report profile candidate coverage rules
verify_report_pass_example =
    verify_report_pass digests report profile candidate coverage rules report_verifies

profile_is_valid : validate_competition_profile digests profile ≡ ok "mcm"
unfolding validate_competition_profile check_rules
profile_is_valid = refl

verify_report-build_report_example :
    (r : FinalJuryReport) × (build_report digests
        (λ s. s)
        "r1"
        draft
        profile
        candidate
        coverage
        rules
        false
        none
      ≡ ok r)
    × (verify_report digests r profile candidate coverage rules ≡ ok r.decision)
verify_report-build_report_example =
    verify_report-build_report digests (λ s. s) "r1" draft profile candidate coverage rules false
      none (λ x d. refl) profile_is_valid

abbrev pub files : Files
files = record {
  fnmatchcase = λ path pattern. string_eq.equal path pattern;
  with_slashes = λ s. s;
  scan = λ _ _. [];
}

abbrev pub bytes : ArtifactBytes
bytes = ("a1", 37 ∷ 80 ∷ []) ∷ []

abbrev pub check : SubmissionCheckResult
check = record {
  project_id = "p1";
  paper_id = "paper";
  paper_version = 3;
  verified_result_id = "result";
  jury_report_id = "r1";
  competition_profile_digest = "mcm";
  candidate_digest = "c1";
  requirement_snapshot_digest = "requirements";
  rule_result_snapshot_digest = "rules";
  jury_report_digest = "r1";
  status = SubmissionCheckStatus.pass;
  issues = [];
  rule_results = rules;
  requirement_coverage = coverage;
  claimed_failed_rule_count = 0;
  claimed_missing_requirement_count = 0;
  check_digest = "r1";
}

check_verifies :
    verify digests files check profile candidate coverage rules report bytes
    ≡ ok SubmissionCheckStatus.pass
unfolding verify names_candidate holds_digests issues early_issues candidate_issues rule_issues
    coverage_issues jury_issues artifact_issues bytes_match is_allowed_path security_issues recheck
    status verify_report binds_candidate validate_competition_profile check_rules binds_digests
    judge_again recompute_score decision JuryDecision-discrete SubmissionCheckStatus-discrete
check_verifies = refl

verify_pass_example : Approved digests files check profile candidate coverage rules report bytes
verify_pass_example =
    verify_pass digests files profile candidate coverage rules report bytes check check_verifies

-- `marker in component`, by the code points.
begins_with : String → String → Bool
begins_with String.[] s = true
begins_with (String.◌∷◌ c marker) String.[] = false
begins_with (String.◌∷◌ c marker) (String.◌∷◌ d s) =
    nat_beq (code c) (code d) && begins_with marker s

found_in : String → String → Bool
found_in marker String.[] = begins_with marker String.[]
found_in marker (String.◌∷◌ c s) = begins_with marker (String.◌∷◌ c s) || found_in marker s

-- A correction of a constraint, with the scope of the model.
abbrev remodelling : CorrectionPlan
remodelling = record {
  scope = CorrectionScope.model;
  affected_components = "capacity_constraint" ∷ "font" ∷ [];
  requires_model_change = true;
  requires_result_change = true;
  requires_paper_change = true;
  required_revalidation = "ROBUSTNESS" ∷ "FINAL_JURY" ∷ [];
}

abbrev remodelled : InvalidationResult
remodelled = record {
  invalidated_stages = stages CorrectionScope.model;
  jury_recheck_required = true;
  submission_dirty = true;
}

remodelling_evaluates : evaluate (λ s. s) found_in remodelling ≡ ok remodelled
unfolding evaluate CorrectionScope-discrete found_in begins_with
remodelling_evaluates = refl

evaluate-IsRedone_example : IsRedone (λ s. s) found_in remodelling remodelled
evaluate-IsRedone_example = evaluate-IsRedone (λ s. s) found_in remodelling remodelling_evaluates

capacity-IsModelPart : IsModelPart (λ s. s) found_in "capacity_constraint"
unfolding found_in begins_with
capacity-IsModelPart = IsModelPart.constraint refl

-- What follows for the constraint.
constraint_redoes_model : IsRemodelled (stages CorrectionScope.model)
constraint_redoes_model =
    let redone = evaluate-IsRedone (λ s. s) found_in remodelling remodelling_evaluates in
    redone.of_components "capacity_constraint" (Memᴰ.head refl) capacity-IsModelPart

-- The same correction as one of the data is refused.
of_data_is_refused :
    evaluate (λ s. s) found_in (record remodelling { scope = CorrectionScope.data_change })
    ≡ raise CorrectionError.must_invalidate_model
unfolding evaluate CorrectionScope-discrete found_in begins_with
of_data_is_refused = refl

abbrev plan : CorrectionPlan
plan = record {
  scope = CorrectionScope.format_only;
  affected_components = "font" ∷ "spacing" ∷ [];
  requires_model_change = false;
  requires_result_change = false;
  requires_paper_change = true;
  required_revalidation = "FINAL_JURY" ∷ [];
}

plan_is_fixable : validate_auto_fix (λ s. s) found_in plan ≡ true
unfolding validate_auto_fix CorrectionScope-discrete
plan_is_fixable = refl
