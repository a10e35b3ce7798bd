-- ===== src/Submission/Check.antt =====
-- src/mathmodel_ai/submission/checks.py, `SubmissionCheck`, and `is_allowed_path` of
-- src/mathmodel_ai/submission/rules.py. `fnmatchcase` is Python's and `with_slashes` is the replacement of
-- every backslash by a slash. `scan` is the findings of `SubmissionSecurityScanner.scan`.
pub mod Laws
use Prim.Native.String.{◌++◌ as ◌<>◌}
use math_model_ai.Base.{
  ℕ, ◌+◌, String, Bool, true, false, not, ◌&&◌, ◌||◌, Option, none, some, List, [], ◌∷◌, ◌++◌, any,
  is_empty, length, nat_beq, ◌==◌, string_eq, option_eq, if◌then◌else◌, Raise, ok, raise, ◌>>=◌,
  ◌>>◌,
}
use math_model_ai.Base.Dict
use math_model_ai.Base.Dict.{Dict}
use math_model_ai.Submission.Types.{
  RuleSeverity, RuleResultStatus, JuryDecision, JuryDecision-discrete, decision_eq,
  CompetitionProfile, RequirementCoverage, RuleResult, SubmissionArtifact, SubmissionCandidate,
  FinalJuryReport, SubmissionCheckCategory, SubmissionCheckStatus, SubmissionCheckStatus-discrete,
  check_status_eq, SubmissionCheckIssue, SubmissionCheckResult, Digests,
}
use math_model_ai.Submission.Jury.{
  ProfileError, validate_competition_profile, verify_report, is_blocking, is_fail, is_ready,
  coverage_lacks, rule_undecided,
}

-- The bytes of the artifacts, by their identifiers.
abbrev pub ArtifactBytes : Type 0
ArtifactBytes = Dict String (List ℕ)

pub record Files : Type 0 where
  pub fnmatchcase : String → String → Bool
  pub with_slashes : String → String
  pub scan : SubmissionCandidate → ArtifactBytes → List (String × String)

unfoldable pub is_allowed_path : Files → String → CompetitionProfile → Bool
is_allowed_path files path profile =
    let normalized = files.with_slashes path in
    if any (λ item. files.fnmatchcase normalized item) profile.prohibited_submission_files
    then false
    else any (λ item. files.fnmatchcase normalized item) profile.allowed_submission_files

-- `_issue`
abbrev pub issue :
    String → SubmissionCheckCategory → String → Option String → RuleSeverity → SubmissionCheckIssue
issue code category message object_ref severity = record {
  code = code;
  category = category;
  severity = severity;
  message = message;
  object_ref = object_ref;
}

abbrev pub blocking_issue :
    String → SubmissionCheckCategory → String → Option String → SubmissionCheckIssue
blocking_issue code category message object_ref =
    issue code category message object_ref RuleSeverity.blocking

-- `if test: issues.append(found)`
abbrev pub issue_if : Bool → SubmissionCheckIssue → List SubmissionCheckIssue
issue_if true found = found ∷ []
issue_if false found = []

unfoldable pub rule_issues : List RuleResult → List SubmissionCheckIssue
rule_issues [] = []
rule_issues (r ∷ rs) =
    issue_if (is_fail r.status) (
      issue (if is_blocking r.severity then "BLOCKING_RULE_FAILED" else "COMPETITION_RULE_FAILED")
        SubmissionCheckCategory.format r.message (some r.rule_id) r.severity)
    ++ rule_issues rs

unfoldable pub coverage_issues : List RequirementCoverage → List SubmissionCheckIssue
coverage_issues [] = []
coverage_issues (c ∷ cs) =
    issue_if (coverage_lacks c) (
      blocking_issue "REQUIREMENT_NOT_COVERED" SubmissionCheckCategory.problem_coverage
        "required output is not fully covered" (some c.requirement_id))
    ++ coverage_issues cs

-- `JuryDecision.value`
abbrev pub decision_value : JuryDecision → String
decision_value JuryDecision.pass = "PASS"
decision_value JuryDecision.fail = "FAIL"
decision_value JuryDecision.human_review = "HUMAN_REVIEW"
decision_value JuryDecision.recheck_required = "RECHECK_REQUIRED"

unfoldable pub jury_issues : JuryDecision → List SubmissionCheckIssue
unfolding JuryDecision-discrete
jury_issues answer = issue_if (not (answer == JuryDecision.pass)) (
    issue "FINAL_JURY_NOT_PASS" SubmissionCheckCategory.paper
      ("final jury decision is " <> decision_value answer) none
      (if answer == JuryDecision.human_review then RuleSeverity.major else RuleSeverity.blocking))

-- The bytes are there, in the registered size and with the registered hash.
unfoldable pub bytes_match : Digests → SubmissionArtifact → Option (List ℕ) → Bool
bytes_match digests artifact none = false
bytes_match digests artifact (some content) =
    nat_beq (length content) artifact.size_bytes && digests.sha256_bytes content == artifact.sha256

unfoldable pub artifact_issues :
    Digests
    → Files
    → CompetitionProfile
    → List SubmissionArtifact
    → ArtifactBytes
    → List SubmissionCheckIssue
unfolding bytes_match is_allowed_path
artifact_issues digests files profile [] bytes = []
artifact_issues digests files profile (a ∷ rest) bytes =
    issue_if (not (bytes_match digests a (Dict.lookup a.artifact_id bytes))) (
      blocking_issue "ARTIFACT_INTEGRITY_FAILED" SubmissionCheckCategory.files
        "artifact bytes do not match the registry" (some a.relative_path))
    ++ (issue_if (not (is_allowed_path files a.relative_path profile)) (
          blocking_issue "FILE_NOT_ALLOWED" SubmissionCheckCategory.files
            "file is outside the profile allow-list" (some a.relative_path))
        ++ artifact_issues digests files profile rest bytes)

unfoldable pub security_issues : List (String × String) → List SubmissionCheckIssue
security_issues [] = []
security_issues ((code, path) ∷ found) =
    blocking_issue code
      (if code == "FORBIDDEN_FILE"
        then SubmissionCheckCategory.files
        else SubmissionCheckCategory.security)
      ("submission security scan rejected " <> path) (some path)
    ∷ security_issues found

unfoldable pub candidate_issues : SubmissionCandidate → List SubmissionCheckIssue
candidate_issues candidate =
    issue_if (not candidate.phase5_verified) (
      blocking_issue "RESULT_NOT_VERIFIED" SubmissionCheckCategory.result
        "formal result is not Phase 5 VERIFIED" none)
    ++ (issue_if (not (is_ready candidate.paper_status)) (
          blocking_issue "PAPER_NOT_READY" SubmissionCheckCategory.paper
            "paper did not pass Phase 6" none)
        ++ issue_if
            (candidate.paper_manifest_hash
              == "0000000000000000000000000000000000000000000000000000000000000000")
            (blocking_issue "PAPER_MANIFEST_INVALID" SubmissionCheckCategory.manifest
              "paper manifest is invalid" none))

-- What `_issues` appends before it asks the jury.
unfoldable pub early_issues :
    SubmissionCandidate → List RequirementCoverage → List RuleResult → List SubmissionCheckIssue
unfolding candidate_issues rule_issues coverage_issues
early_issues candidate requirements rules =
    candidate_issues candidate ++ (rule_issues rules ++ coverage_issues requirements)

-- `_issues`
unfoldable pub issues :
    Digests
    → Files
    → CompetitionProfile
    → SubmissionCandidate
    → List RequirementCoverage
    → List RuleResult
    → FinalJuryReport
    → ArtifactBytes
    → Raise ProfileError (List SubmissionCheckIssue)
unfolding early_issues jury_issues artifact_issues security_issues verify_report
issues digests files profile candidate requirements rules jury bytes = do
  answer ← verify_report digests jury profile candidate requirements rules
  ok (
      early_issues candidate requirements rules
      ++ (jury_issues answer
          ++ (artifact_issues digests files profile candidate.artifacts bytes
              ++ security_issues (files.scan candidate bytes))))

-- `_status`
unfoldable pub status :
    List SubmissionCheckIssue → List RuleResult → FinalJuryReport → SubmissionCheckStatus
unfolding JuryDecision-discrete
status found rules jury =
    if jury.decision == JuryDecision.human_review || any rule_undecided rules
    then SubmissionCheckStatus.human_review
    else if any (λ i. is_blocking i.severity) found
    then SubmissionCheckStatus.fail
    else if not (is_empty found)
    then SubmissionCheckStatus.warning
    else SubmissionCheckStatus.pass

abbrev pub failed_rule_count : List RuleResult → ℕ
failed_rule_count [] = 0
failed_rule_count (r ∷ rs) = (if is_fail r.status then 1 else 0) + failed_rule_count rs

abbrev pub missing_requirement_count : List RequirementCoverage → ℕ
missing_requirement_count [] = 0
missing_requirement_count (c ∷ cs) =
    (if coverage_lacks c then 1 else 0) + missing_requirement_count cs

-- `run`
unfoldable pub run :
    Digests
    → Files
    → CompetitionProfile
    → SubmissionCandidate
    → List RequirementCoverage
    → List RuleResult
    → FinalJuryReport
    → ArtifactBytes
    → Raise ProfileError SubmissionCheckResult
unfolding issues status
run digests files profile candidate requirements rules jury bytes = do
  found ← issues digests files profile candidate requirements rules jury bytes
  profile_digest ← validate_competition_profile digests profile
  let check : SubmissionCheckResult = record {
    project_id = candidate.project_id;
    paper_id = candidate.paper_id;
    paper_version = candidate.paper_version;
    verified_result_id = candidate.verified_result_id;
    jury_report_id = jury.report_id;
    competition_profile_digest = profile_digest;
    candidate_digest = digests.candidate candidate;
    requirement_snapshot_digest = digests.requirement_snapshot requirements;
    rule_result_snapshot_digest = digests.rule_result_snapshot rules;
    jury_report_digest = digests.report jury;
    status = status found rules jury;
    issues = found;
    rule_results = rules;
    requirement_coverage = requirements;
    claimed_failed_rule_count = failed_rule_count rules;
    claimed_missing_requirement_count = missing_requirement_count requirements;
    check_digest = "0000000000000000000000000000000000000000000000000000000000000000";
  }
  ok (record check { check_digest = digests.check check })

abbrev pub category_index : SubmissionCheckCategory → ℕ
category_index SubmissionCheckCategory.problem_coverage = 0
category_index SubmissionCheckCategory.paper = 1
category_index SubmissionCheckCategory.model = 2
category_index SubmissionCheckCategory.result = 3
category_index SubmissionCheckCategory.citation = 4
category_index SubmissionCheckCategory.figure = 5
category_index SubmissionCheckCategory.table = 6
category_index SubmissionCheckCategory.code = 7
category_index SubmissionCheckCategory.data_files = 8
category_index SubmissionCheckCategory.files = 9
category_index SubmissionCheckCategory.format = 10
category_index SubmissionCheckCategory.anonymity = 11
category_index SubmissionCheckCategory.security = 12
category_index SubmissionCheckCategory.manifest = 13
category_index SubmissionCheckCategory.deadline = 14

abbrev pub severity_index : RuleSeverity → ℕ
severity_index RuleSeverity.blocking = 0
severity_index RuleSeverity.major = 1
severity_index RuleSeverity.minor = 2
severity_index RuleSeverity.info = 3

-- `expected_issues == check.issues`, field by field.
abbrev pub same_issues : List SubmissionCheckIssue → List SubmissionCheckIssue → Bool
same_issues [] [] = true
same_issues [] (y ∷ ys) = false
same_issues (x ∷ xs) [] = false
same_issues (x ∷ xs) (y ∷ ys) =
    x.code == y.code
    && nat_beq (category_index x.category) (category_index y.category)
    && nat_beq (severity_index x.severity) (severity_index y.severity)
    && x.message == y.message
    && x.object_ref == y.object_ref
    && same_issues xs ys

-- The comparisons before `validate_competition_profile` is called.
unfoldable pub names_candidate :
    SubmissionCheckResult → SubmissionCandidate → FinalJuryReport → Bool
names_candidate check candidate jury =
    check.project_id == candidate.project_id
    && check.paper_id == candidate.paper_id
    && nat_beq check.paper_version candidate.paper_version
    && check.verified_result_id == candidate.verified_result_id
    && check.jury_report_id == jury.report_id

-- The comparisons from the digest of the profile on, and those of the two counts.
unfoldable pub holds_digests :
    Digests
    → SubmissionCheckResult
    → SubmissionCandidate
    → List RequirementCoverage
    → List RuleResult
    → FinalJuryReport
    → String
    → Bool
holds_digests digests check candidate requirements rules jury profile_digest =
    check.competition_profile_digest == profile_digest
    && check.competition_profile_digest == candidate.competition_profile_digest
    && check.candidate_digest == digests.candidate candidate
    && check.requirement_snapshot_digest == digests.requirement_snapshot requirements
    && check.rule_result_snapshot_digest == digests.rule_result_snapshot rules
    && check.jury_report_digest == digests.report jury
    && nat_beq check.claimed_failed_rule_count (failed_rule_count rules)
    && nat_beq check.claimed_missing_requirement_count (missing_requirement_count requirements)

-- What `verify` answers once the expected issues are known.
unfoldable pub recheck :
    SubmissionCheckResult
    → List RuleResult
    → FinalJuryReport
    → List SubmissionCheckIssue
    → SubmissionCheckStatus
unfolding status SubmissionCheckStatus-discrete
recheck check rules jury expected =
    if not (same_issues expected check.issues)
    then SubmissionCheckStatus.fail
    else if check.status == status expected rules jury
    then status expected rules jury
    else SubmissionCheckStatus.fail

-- `verify`
unfoldable pub verify :
    Digests
    → Files
    → SubmissionCheckResult
    → CompetitionProfile
    → SubmissionCandidate
    → List RequirementCoverage
    → List RuleResult
    → FinalJuryReport
    → ArtifactBytes
    → Raise ProfileError SubmissionCheckStatus
unfolding issues names_candidate holds_digests recheck
verify digests files check profile candidate requirements rules jury bytes =
    if not (digests.check check == check.check_digest) || not (names_candidate check candidate jury)
    then ok SubmissionCheckStatus.fail
    else (validate_competition_profile digests profile >>= λ profile_digest.
        (if not (holds_digests digests check candidate requirements rules jury profile_digest)
          then ok SubmissionCheckStatus.fail
          else (issues digests files profile candidate requirements rules jury bytes >>= λ expected.
              ok (recheck check rules jury expected))))
