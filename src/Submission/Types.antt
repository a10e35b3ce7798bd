-- ===== src/Submission/Types.antt =====
-- src/mathmodel_ai/schemas/submission.py: what the jury, the check and the freeze read.
-- An identifier, a digest and a text are texts. A score is a whole number of billionths, so that the
-- tolerance of 1e-9 is one unit.
use math_model_ai.Base.{ℕ, String, Bool, Option, List, Eq, eq_of_discrete}
use math_model_ai.Base.Dict.{Dict}

pub data ProfileVerificationStatus : Type 0 where
  test_fixture verified partially_verified unverified unknown conflict : ProfileVerificationStatus

pub data RuleSeverity : Type 0 where
  blocking major minor info : RuleSeverity

pub data RuleResultStatus : Type 0 where
  pass warning fail not_evaluable human_review : RuleResultStatus

pub data RequirementCoverageStatus : Type 0 where
  covered partial missing not_applicable : RequirementCoverageStatus

pub data JurySeverity : Type 0 where
  critical major minor info : JurySeverity

pub data JuryDecision : Type 0 where
  pass fail human_review recheck_required : JuryDecision

unfoldable pub JuryDecision-discrete : Discrete JuryDecision
JuryDecision-discrete = hlevel

instance abbrev pub decision_eq : Eq JuryDecision
decision_eq = eq_of_discrete JuryDecision-discrete

pub data PaperQualityStatus : Type 0 where
  draft validating failed human_review ready_for_final_jury : PaperQualityStatus

pub data SubmissionCheckStatus : Type 0 where
  pass warning fail human_review : SubmissionCheckStatus

unfoldable pub SubmissionCheckStatus-discrete : Discrete SubmissionCheckStatus
SubmissionCheckStatus-discrete = hlevel

instance abbrev pub check_status_eq : Eq SubmissionCheckStatus
check_status_eq = eq_of_discrete SubmissionCheckStatus-discrete

-- `is_custom_reproduction` says that the rule is `CUSTOM` and its handler is `REPRODUCTION`.
pub record CompetitionRule : Type 0 where
  pub source_ref : String
  pub source_location : String
  pub severity : RuleSeverity
  pub verification_status : ProfileVerificationStatus
  pub is_custom_reproduction : Bool

pub record CompetitionProfile : Type 0 where
  pub profile_id : String
  pub version : ℕ
  pub source_refs : List String
  pub verification_status : ProfileVerificationStatus
  pub rules : List CompetitionRule
  pub prohibited_submission_files : List String
  pub allowed_submission_files : List String
  pub reproduction_required : Bool
  pub minimum_jury_score : ℕ
  pub jury_weights : Dict String ℕ
  pub require_independent_reviewer : Bool

pub record RuleResult : Type 0 where
  pub rule_id : String
  pub severity : RuleSeverity
  pub status : RuleResultStatus
  pub message : String

-- Why a requirement is not covered.
pub data CoverageReason : Type 0 where
  no_coverage_record output_absent no_bound_section no_claim_mapping : CoverageReason
  no_supported_claim no_paper_artifact : CoverageReason

pub record RequirementCoverage : Type 0 where
  pub requirement_id : String
  pub requirement_digest : String
  pub subproblem_id : String
  pub required : Bool
  pub status : RequirementCoverageStatus
  pub evidence_refs : List String
  pub paper_refs : List String
  pub artifact_refs : List String
  pub reasons : List CoverageReason

pub data SubmissionArtifactRole : Type 0 where
  paper_pdf paper_tex references figure table code data_file readme manifest package_file :
      SubmissionArtifactRole

pub record SubmissionArtifact : Type 0 where
  pub artifact_id : String
  pub role : SubmissionArtifactRole
  pub relative_path : String
  pub size_bytes : ℕ
  pub sha256 : String

pub record SubmissionCandidate : Type 0 where
  pub candidate_id : String
  pub project_id : String
  pub competition_profile_digest : String
  pub paper_id : String
  pub paper_version : ℕ
  pub paper_status : PaperQualityStatus
  pub paper_manifest_hash : String
  pub paper_ir_hash : String
  pub verified_model_id : String
  pub verified_model_version : ℕ
  pub verified_model_digest : String
  pub verified_result_id : String
  pub phase5_verified : Bool
  pub artifacts : List SubmissionArtifact

-- The texts that `_critical` fills in are read by nothing here, but for the title.
pub record JuryFinding : Type 0 where
  pub finding_id : String
  pub severity : JurySeverity
  pub title : String
  pub evidence_refs : List String
  pub paper_refs : List String
  pub rule_refs : List String
  pub resolved : Bool

pub record JuryDimensionScore : Type 0 where
  pub dimension : String
  pub score : ℕ
  pub maximum : ℕ

pub record FinalJuryDraft : Type 0 where
  pub dimensions : List JuryDimensionScore
  pub findings : List JuryFinding
  pub summary : String

pub record FinalJuryReport : Type 0 where
  pub report_id : String
  pub project_id : String
  pub paper_id : String
  pub paper_version : ℕ
  pub paper_manifest_hash : String
  pub paper_ir_hash : String
  pub verified_model_id : String
  pub verified_model_version : ℕ
  pub verified_model_digest : String
  pub verified_result_id : String
  pub competition_profile_id : String
  pub competition_profile_version : ℕ
  pub competition_profile_digest : String
  pub candidate_digest : String
  pub requirement_snapshot_digest : String
  pub rule_result_snapshot_digest : String
  pub artifact_set_digest : String
  pub dimensions : List JuryDimensionScore
  pub findings : List JuryFinding
  pub claimed_score : ℕ
  pub decision : JuryDecision
  pub summary : String
  pub reviewer_is_mock : Bool
  pub independent_reviewer_used : Bool
  pub agent_run_id : Option String
  pub report_digest : String

pub data SubmissionCheckCategory : Type 0 where
  problem_coverage paper model result citation figure table code data_files :
      SubmissionCheckCategory
  files format anonymity security manifest deadline : SubmissionCheckCategory

pub record SubmissionCheckIssue : Type 0 where
  pub code : String
  pub category : SubmissionCheckCategory
  pub severity : RuleSeverity
  pub message : String
  pub object_ref : Option String

pub record SubmissionCheckResult : Type 0 where
  pub project_id : String
  pub paper_id : String
  pub paper_version : ℕ
  pub verified_result_id : String
  pub jury_report_id : String
  pub competition_profile_digest : String
  pub candidate_digest : String
  pub requirement_snapshot_digest : String
  pub rule_result_snapshot_digest : String
  pub jury_report_digest : String
  pub status : SubmissionCheckStatus
  pub issues : List SubmissionCheckIssue
  pub rule_results : List RuleResult
  pub requirement_coverage : List RequirementCoverage
  pub claimed_failed_rule_count : ℕ
  pub claimed_missing_requirement_count : ℕ
  pub check_digest : String

-- src/mathmodel_ai/submission/integrity.py: SHA-256 over the JSON form of a record.
pub record Digests : Type 0 where
  pub profile : CompetitionProfile → String
  pub candidate : SubmissionCandidate → String
  pub requirement_snapshot : List RequirementCoverage → String
  pub rule_result_snapshot : List RuleResult → String
  pub artifact_set : List SubmissionArtifact → String
  pub report : FinalJuryReport → String
  pub check : SubmissionCheckResult → String
  pub sha256_bytes : List ℕ → String
  pub is_fixture_reference : String → Bool
