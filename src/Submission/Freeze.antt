-- ===== src/Submission/Freeze.antt =====
-- src/mathmodel_ai/submission/freeze.py, `SubmissionFreeze`. The rule engine, the coverage validator and the
-- package builder are what the coordinator was constructed with: it calls them and keeps the packages.
-- The lock lets one call at a time into the part that reads and writes the packages.
pub mod Laws
pub mod Answered
pub mod Tests
use math_model_ai.Base.{
  ℕ, String, Bool, true, false, not, ◌&&◌, ◌||◌, Option, none, some, List, ◌==◌, string_eq, nat_beq,
  if◌then◌else◌, Eq, eq_of_discrete, Raise, ok, raise, raise_if, ◌>>=◌, ◌>>◌,
}
use math_model_ai.Base.Dict
use math_model_ai.Base.Dict.{Dict}
use math_model_ai.Submission.Types.{
  JuryDecision, JuryDecision-discrete, decision_eq, CompetitionProfile, SubmissionCandidate,
  RequirementCoverage, RuleResult, SubmissionArtifact, FinalJuryReport, SubmissionCheckStatus,
  SubmissionCheckStatus-discrete, check_status_eq, SubmissionCheckResult, Digests,
}
use math_model_ai.Submission.Jury.{ProfileError, verify_report}
use math_model_ai.Submission.Check.{ArtifactBytes, Files, verify}

pub data SubmissionStatus : Type 0 where
  draft checking failed human_review ready frozen dirty : SubmissionStatus

unfoldable pub SubmissionStatus-discrete : Discrete SubmissionStatus
SubmissionStatus-discrete = hlevel

instance abbrev pub submission_status_eq : Eq SubmissionStatus
submission_status_eq = eq_of_discrete SubmissionStatus-discrete

pub data FreezeError : Type 0 where
  jury_must_pass check_must_pass different_candidate rules_changed coverage_changed : FreezeError
  jury_integrity_failed check_integrity_failed package_became_dirty : FreezeError
  invalid_profile : ProfileError → FreezeError
  collaborator_failed : String → FreezeError

-- `Paper` and `Requirement` are the paper and the problem's requirements, which are handed on unread.
pub record Collaborators (Paper Requirement Package : Type 0) : Type 0 where
  pub evaluate :
      CompetitionProfile → SubmissionCandidate → ArtifactBytes → Raise String (List RuleResult)
  pub validate :
      List Requirement → Paper → List SubmissionArtifact → Raise String (List RequirementCoverage)
  pub build :
      CompetitionProfile
      → SubmissionCandidate
      → List RequirementCoverage
      → FinalJuryReport
      → SubmissionCheckResult
      → Raise String Package
  pub verify_package : Package → Raise String SubmissionStatus

-- The arguments of `freeze`.
pub record Request (Paper Requirement : Type 0) : Type 0 where
  pub profile : CompetitionProfile
  pub candidate : SubmissionCandidate
  pub paper : Paper
  pub submission_requirements : List Requirement
  pub requirements : List RequirementCoverage
  pub rules : List RuleResult
  pub jury : FinalJuryReport
  pub check : SubmissionCheckResult
  pub artifact_bytes : ArtifactBytes

-- An exception of a callee goes through.
abbrev pub through {ℓ} :
    {E : Type 0} {A : Type ℓ} → (E → FreezeError) → Raise E A → Raise FreezeError A
through f (ok a) = ok a
through f (raise e) = raise (f e)

unfoldable pub same_candidate : SubmissionCandidate → FinalJuryReport → SubmissionCheckResult → Bool
same_candidate candidate jury check =
    jury.project_id == candidate.project_id
    && jury.paper_id == candidate.paper_id
    && nat_beq jury.paper_version candidate.paper_version
    && jury.verified_result_id == candidate.verified_result_id
    && check.project_id == candidate.project_id
    && check.paper_id == candidate.paper_id
    && nat_beq check.paper_version candidate.paper_version
    && check.verified_result_id == candidate.verified_result_id
    && check.jury_report_id == jury.report_id

-- `self._frozen[candidate.candidate_id] = package`, when one was built.
abbrev pub store :
    {Package : Type 0}
    → String
    → Dict String Package
    → Raise FreezeError Package
    → Dict String Package × Raise FreezeError Package
store id packages (ok built) = (Dict.insert id built packages, ok built)
store id packages (raise e) = (packages, raise e)

module _ {Paper Requirement Package : Type 0} (digests : Digests) (files : Files)
    (parts : Collaborators Paper Requirement Package) where
  -- `freeze` before the lock is taken: the recomputed coverage, or the first objection.
  unfoldable pub approve : Request Paper Requirement → Raise FreezeError (List RequirementCoverage)
  unfolding same_candidate verify_report verify JuryDecision-discrete SubmissionCheckStatus-discrete
  approve q = do
    raise_if (not (q.jury.decision == JuryDecision.pass)) jury_must_pass
    raise_if (not (q.check.status == SubmissionCheckStatus.pass)) check_must_pass
    raise_if (not (same_candidate q.candidate q.jury q.check)) different_candidate
    rules ← through collaborator_failed (parts.evaluate q.profile q.candidate q.artifact_bytes)
    raise_if (not (digests.rule_result_snapshot rules == digests.rule_result_snapshot q.rules))
        rules_changed
    coverage ←
        through collaborator_failed
          (parts.validate q.submission_requirements q.paper q.candidate.artifacts)
    raise_if
        (not (digests.requirement_snapshot coverage == digests.requirement_snapshot q.requirements))
        coverage_changed
    judged ←
        through invalid_profile (verify_report digests q.jury q.profile q.candidate coverage rules)
    raise_if (not (judged == JuryDecision.pass)) jury_integrity_failed
    checked ←
        through invalid_profile (
          verify digests files q.check q.profile q.candidate coverage rules q.jury q.artifact_bytes)
    raise_if (not (checked == SubmissionCheckStatus.pass)) check_integrity_failed
    ok coverage

  -- What a package already frozen for the candidate is worth.
  unfoldable pub reuse : Package → Raise FreezeError Package
  unfolding SubmissionStatus-discrete
  reuse cached = do
    answer ← through collaborator_failed (parts.verify_package cached)
    raise_if (not (answer == SubmissionStatus.frozen)) package_became_dirty
    ok cached

  -- Under the lock.
  unfoldable pub freeze_under_lock :
      Request Paper Requirement
      → List RequirementCoverage
      → Dict String Package
      → Option Package
      → Dict String Package × Raise FreezeError Package
  unfolding reuse
  freeze_under_lock q coverage packages (some cached) = (packages, reuse cached)
  freeze_under_lock q coverage packages none =
      store q.candidate.candidate_id packages
        (through collaborator_failed (parts.build q.profile q.candidate coverage q.jury q.check))

  abbrev pub continue :
      Request Paper Requirement
      → Dict String Package
      → Raise FreezeError (List RequirementCoverage)
      → Dict String Package × Raise FreezeError Package
  continue q packages (raise e) = (packages, raise e)
  continue q packages (ok coverage) =
      freeze_under_lock q coverage packages (Dict.lookup q.candidate.candidate_id packages)

  -- `freeze`
  unfoldable pub freeze :
      Request Paper Requirement
      → Dict String Package
      → Dict String Package × Raise FreezeError Package
  unfolding approve freeze_under_lock
  freeze q packages = continue q packages (approve q)
