-- ===== src/Submission/Jury.antt =====
-- src/mathmodel_ai/submission/jury.py, `FinalJuryGate`, and `validate_competition_profile` of
-- src/mathmodel_ai/submission/integrity.py.
pub mod Decision
pub mod Passing
pub mod Report
use Prim.Native.String.{◌++◌ as ◌<>◌}
use math_model_ai.Base.{
  ℕ, ◌+◌, ◌-◌, String, Bool, true, false, not, ◌&&◌, ◌||◌, Option, none, some, List, [], ◌∷◌, ◌++◌,
  map, any, all, keep, contains, is_subset, is_unique, ltb, nat_beq, ◌==◌, string_eq, nat_eq,
  if◌then◌else◌, Raise, ok, raise, raise_if, ◌>>=◌, ◌>>◌,
}
use math_model_ai.Base.Dict
use math_model_ai.Base.Dict.{Dict}
use math_model_ai.Submission.Types.{
  ProfileVerificationStatus, RuleSeverity, RuleResultStatus, RequirementCoverageStatus,
  JurySeverity, JuryDecision, JuryDecision-discrete, decision_eq, PaperQualityStatus,
  CompetitionRule, CompetitionProfile, RuleResult, RequirementCoverage, SubmissionCandidate,
  JuryFinding, JuryDimensionScore, FinalJuryDraft, FinalJuryReport, Digests,
}

-- `CompetitionProfileIntegrityError`, by its message.
pub data ProfileError : Type 0 where
  duplicated_provenance incomplete_rule_provenance : ProfileError
  blocking_source_unknown fixture_promoted unverified_blocking_rule : ProfileError
  reproduction_lacks_rule : ProfileError

abbrev pub is_blocking : RuleSeverity → Bool
is_blocking RuleSeverity.blocking = true
is_blocking _ = false

abbrev pub is_verified : ProfileVerificationStatus → Bool
is_verified ProfileVerificationStatus.verified = true
is_verified _ = false

-- The two tests that the loop makes of each rule, in this order.
unfoldable pub check_rules : List String → List CompetitionRule → Raise ProfileError (Unit {0})
check_rules refs [] = ok tt
check_rules refs (r ∷ rs) = do
  raise_if (r.source_ref == "" || r.source_location == "") incomplete_rule_provenance
  raise_if (is_blocking r.severity && not (contains r.source_ref refs)) blocking_source_unknown
  check_rules refs rs

-- `validate_competition_profile`, for a profile that meets its own schema.
unfoldable pub validate_competition_profile :
    Digests → CompetitionProfile → Raise ProfileError String
unfolding check_rules
validate_competition_profile digests profile = do
  raise_if (not (is_unique profile.source_refs)) duplicated_provenance
  check_rules profile.source_refs profile.rules
  raise_if
      (is_verified profile.verification_status
        && any digests.is_fixture_reference profile.source_refs)
      fixture_promoted
  raise_if
      (is_verified profile.verification_status
        && any (λ r. is_blocking r.severity && not (is_verified r.verification_status))
            profile.rules)
      unverified_blocking_rule
  raise_if
      (profile.reproduction_required
        && not (any (λ r. r.is_custom_reproduction && is_blocking r.severity) profile.rules))
      reproduction_lacks_rule
  ok (digests.profile profile)

abbrev pub is_covered : RequirementCoverageStatus → Bool
is_covered RequirementCoverageStatus.covered = true
is_covered _ = false

abbrev pub is_ready : PaperQualityStatus → Bool
is_ready PaperQualityStatus.ready_for_final_jury = true
is_ready _ = false

abbrev pub is_critical : JurySeverity → Bool
is_critical JurySeverity.critical = true
is_critical _ = false

abbrev pub is_fail : RuleResultStatus → Bool
is_fail RuleResultStatus.fail = true
is_fail _ = false

abbrev pub is_pass : RuleResultStatus → Bool
is_pass RuleResultStatus.pass = true
is_pass _ = false

abbrev pub is_undecided : RuleResultStatus → Bool
is_undecided RuleResultStatus.human_review = true
is_undecided RuleResultStatus.not_evaluable = true
is_undecided _ = false

-- The tests of `_decision` on one item.
abbrev pub rule_blocks : RuleResult → Bool
rule_blocks r = is_blocking r.severity && is_fail r.status

abbrev pub rule_undecided : RuleResult → Bool
rule_undecided r = is_blocking r.severity && is_undecided r.status

abbrev pub coverage_lacks : RequirementCoverage → Bool
coverage_lacks c = c.required && not (is_covered c.status)

abbrev pub finding_open : JuryFinding → Bool
finding_open f = is_critical f.severity && not f.resolved

-- `_decision`
unfoldable pub decision :
    CompetitionProfile
    → SubmissionCandidate
    → List RequirementCoverage
    → List RuleResult
    → List JuryFinding
    → ℕ
    → Bool
    → Bool
    → Bool
    → JuryDecision
decision profile candidate requirements rules findings score dimensions_valid is_mock independent =
    if not dimensions_valid || not candidate.phase5_verified
    then JuryDecision.fail
    else if not (is_ready candidate.paper_status)
    then JuryDecision.fail
    else if any rule_blocks rules
    then JuryDecision.fail
    else if any rule_undecided rules
    then JuryDecision.human_review
    else if profile.require_independent_reviewer && (is_mock || not independent)
    then JuryDecision.human_review
    else if any coverage_lacks requirements
    then JuryDecision.fail
    else if any finding_open findings
    then JuryDecision.fail
    else if ltb score profile.minimum_jury_score
    then JuryDecision.fail
    else JuryDecision.pass

-- `abs(a - b) > 1e-9`
abbrev pub differ : ℕ → ℕ → Bool
differ a b = ltb 1 ((a - b) + (b - a))

abbrev pub total_score : List JuryDimensionScore → ℕ
total_score [] = 0
total_score (d ∷ ds) = d.score + total_score ds

abbrev pub dimension_names : List JuryDimensionScore → List String
dimension_names [] = []
dimension_names (d ∷ ds) = d.dimension ∷ dimension_names ds

-- `recompute_score`. After the names are known to be the weights' the lookup finds a weight.
unfoldable pub recompute_score : List JuryDimensionScore → CompetitionProfile → ℕ × Bool
recompute_score dimensions profile =
    let names = dimension_names dimensions in
    let expected = Dict.keys profile.jury_weights in
    if not (is_unique names) || not (is_subset names expected && is_subset expected names)
    then (0, false)
    else if any (λ d. differ d.maximum (Dict.get_or d.dimension 0 profile.jury_weights)) dimensions
    then (0, false)
    else (total_score dimensions, true)

-- `status.value.lower()`
abbrev pub lower_coverage_value : RequirementCoverageStatus → String
lower_coverage_value RequirementCoverageStatus.covered = "covered"
lower_coverage_value RequirementCoverageStatus.partial = "partial"
lower_coverage_value RequirementCoverageStatus.missing = "missing"
lower_coverage_value RequirementCoverageStatus.not_applicable = "not_applicable"

-- `status.value`
abbrev pub rule_status_value : RuleResultStatus → String
rule_status_value RuleResultStatus.pass = "PASS"
rule_status_value RuleResultStatus.warning = "WARNING"
rule_status_value RuleResultStatus.fail = "FAIL"
rule_status_value RuleResultStatus.not_evaluable = "NOT_EVALUABLE"
rule_status_value RuleResultStatus.human_review = "HUMAN_REVIEW"

-- `_critical`. `safe` makes an identifier of a text: every character that is neither alphanumeric
-- nor `_` nor `-` becomes `-`.
module _ (safe : String → String) where
  unfoldable pub critical_finding :
      String → String → List String → List String → List String → JuryFinding
  critical_finding suffix title evidence paper rules = record {
    finding_id = "JURY-" <> safe suffix;
    severity = JurySeverity.critical;
    title = title;
    evidence_refs = evidence;
    paper_refs = paper;
    rule_refs = rules;
    resolved = false;
  }

  unfoldable pub coverage_findings : List RequirementCoverage → List JuryFinding
  unfolding critical_finding
  coverage_findings [] = []
  coverage_findings (c ∷ cs) =
      let rest = coverage_findings cs in
      if coverage_lacks c
      then critical_finding c.requirement_id
          ("Required output is " <> lower_coverage_value c.status) c.evidence_refs c.paper_refs []
        ∷ rest
      else rest

  unfoldable pub rule_findings : List RuleResult → List JuryFinding
  unfolding critical_finding
  rule_findings [] = []
  rule_findings (r ∷ rs) =
      let rest = rule_findings rs in
      if is_blocking r.severity && not (is_pass r.status)
      then critical_finding r.rule_id
          ("Blocking competition rule is " <> rule_status_value r.status) [] [] (r.rule_id ∷ [])
        ∷ rest
      else rest

  -- `_deterministic_findings`
  unfoldable pub deterministic_findings :
      SubmissionCandidate → List RequirementCoverage → List RuleResult → List JuryFinding
  unfolding critical_finding coverage_findings rule_findings
  deterministic_findings candidate requirements rules =
      (if candidate.phase5_verified
        then []
        else critical_finding "phase5" "Official result is not Phase 5 VERIFIED" [] [] [] ∷ [])
      ++ ((if is_ready candidate.paper_status
            then []
            else critical_finding "paper" "Paper did not pass the Phase 6 final gate" [] [] [] ∷ [])
          ++ (coverage_findings requirements ++ rule_findings rules))

-- `_deduplicate`, the first finding of each identifier, with the identifiers seen so far.
unfoldable pub deduplicate_from : List String → List JuryFinding → List JuryFinding
deduplicate_from seen [] = []
deduplicate_from seen (f ∷ fs) = elim (contains f.finding_id seen) [
  | true ↦ deduplicate_from seen fs
  | false ↦ f ∷ deduplicate_from (f.finding_id ∷ seen) fs
]

unfoldable pub deduplicate : List JuryFinding → List JuryFinding
unfolding deduplicate_from
deduplicate fs = deduplicate_from [] fs

module _ (digests : Digests) where
  -- The report before its digest: `"0" * 64` stands in for it. `report_id` is the new UUID.
  unfoldable pub undigested_report :
      (String → String)
      → String
      → FinalJuryDraft
      → CompetitionProfile
      → SubmissionCandidate
      → List RequirementCoverage
      → List RuleResult
      → Bool
      → Option String
      → String
      → FinalJuryReport
  unfolding deterministic_findings deduplicate recompute_score decision
  undigested_report safe report_id draft profile candidate requirements rules is_mock run
        profile_digest =
      let findings =
        deduplicate (deterministic_findings safe candidate requirements rules ++ draft.findings) in
      let (score, dimensions_valid) = recompute_score draft.dimensions profile in
      record {
        report_id = report_id;
        project_id = candidate.project_id;
        paper_id = candidate.paper_id;
        paper_version = candidate.paper_version;
        paper_manifest_hash = candidate.paper_manifest_hash;
        paper_ir_hash = candidate.paper_ir_hash;
        verified_model_id = candidate.verified_model_id;
        verified_model_version = candidate.verified_model_version;
        verified_model_digest = candidate.verified_model_digest;
        verified_result_id = candidate.verified_result_id;
        competition_profile_id = profile.profile_id;
        competition_profile_version = profile.version;
        competition_profile_digest = profile_digest;
        candidate_digest = digests.candidate candidate;
        requirement_snapshot_digest = digests.requirement_snapshot requirements;
        rule_result_snapshot_digest = digests.rule_result_snapshot rules;
        artifact_set_digest = digests.artifact_set candidate.artifacts;
        dimensions = draft.dimensions;
        findings = findings;
        claimed_score = score;
        decision =
            decision profile candidate requirements rules findings score dimensions_valid is_mock
              false;
        summary = draft.summary;
        reviewer_is_mock = is_mock;
        independent_reviewer_used = false;
        agent_run_id = run;
        report_digest = "0000000000000000000000000000000000000000000000000000000000000000";
      }

  -- `build_report`
  unfoldable pub build_report :
      (String → String)
      → String
      → FinalJuryDraft
      → CompetitionProfile
      → SubmissionCandidate
      → List RequirementCoverage
      → List RuleResult
      → Bool
      → Option String
      → Raise ProfileError FinalJuryReport
  unfolding undigested_report
  build_report safe report_id draft profile candidate requirements rules is_mock run = do
    profile_digest ← validate_competition_profile digests profile
    let report =
        undigested_report safe report_id draft profile candidate requirements rules is_mock run
          profile_digest
    ok (record report { report_digest = digests.report report })

  -- The comparisons before `validate_competition_profile` is called.
  unfoldable pub binds_candidate : FinalJuryReport → CompetitionProfile → SubmissionCandidate → Bool
  binds_candidate r profile candidate =
      r.project_id == candidate.project_id
      && r.paper_id == candidate.paper_id
      && nat_beq r.paper_version candidate.paper_version
      && r.verified_result_id == candidate.verified_result_id
      && r.competition_profile_id == profile.profile_id
      && nat_beq r.competition_profile_version profile.version
      && r.paper_manifest_hash == candidate.paper_manifest_hash
      && r.paper_ir_hash == candidate.paper_ir_hash
      && r.verified_model_id == candidate.verified_model_id
      && nat_beq r.verified_model_version candidate.verified_model_version
      && r.verified_model_digest == candidate.verified_model_digest

  -- The comparisons of digests, from the one of the profile on.
  unfoldable pub binds_digests :
      FinalJuryReport
      → SubmissionCandidate
      → List RequirementCoverage
      → List RuleResult
      → String
      → Bool
  binds_digests r candidate requirements rules profile_digest =
      r.competition_profile_digest == profile_digest
      && r.competition_profile_digest == candidate.competition_profile_digest
      && r.candidate_digest == digests.candidate candidate
      && r.requirement_snapshot_digest == digests.requirement_snapshot requirements
      && r.rule_result_snapshot_digest == digests.rule_result_snapshot rules
      && r.artifact_set_digest == digests.artifact_set candidate.artifacts

  -- From the recomputed score on.
  unfoldable pub judge_again :
      FinalJuryReport
      → CompetitionProfile
      → SubmissionCandidate
      → List RequirementCoverage
      → List RuleResult
      → JuryDecision
  unfolding recompute_score decision JuryDecision-discrete
  judge_again r profile candidate requirements rules =
      let (score, dimensions_valid) = recompute_score r.dimensions profile in
      let expected =
        decision profile candidate requirements rules r.findings score dimensions_valid
          r.reviewer_is_mock r.independent_reviewer_used in
      if differ score r.claimed_score
      then JuryDecision.fail
      else if r.decision == expected
      then expected
      else JuryDecision.fail

  -- `verify_report`
  unfoldable pub verify_report :
      FinalJuryReport
      → CompetitionProfile
      → SubmissionCandidate
      → List RequirementCoverage
      → List RuleResult
      → Raise ProfileError JuryDecision
  unfolding binds_candidate binds_digests judge_again
  verify_report r profile candidate requirements rules =
      if not (digests.report r == r.report_digest) || not (binds_candidate r profile candidate)
      then ok JuryDecision.fail
      else do
        profile_digest ← validate_competition_profile digests profile
        ok (
            if binds_digests r candidate requirements rules profile_digest
            then judge_again r profile candidate requirements rules
            else JuryDecision.fail)
