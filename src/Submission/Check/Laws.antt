-- ===== src/Submission/Check/Laws.antt =====
-- Checks that verify as PASS, `SubmissionCheck.verify` of src/mathmodel_ai/submission/checks.py.
use math_model_ai.Base.{
  ◌≡◌, refl, sym, ap, ◌∙◌, String, Bool, true, false, not, ◌||◌, List, [], ◌∷◌, ◌++◌, any, All,
  ◌==◌, ==→≡, string_eq, option_eq, arith, if◌then◌else◌, ||-eq-false, append-eq-nil, Raise, ok,
  ◌>>=◌, >>=-eq-ok, ok-injective,
}
use math_model_ai.Base.Dict
use math_model_ai.Submission.Types.{
  JuryDecision, decision_eq, CompetitionProfile, SubmissionCandidate, RequirementCoverage,
  RuleResult, FinalJuryReport, SubmissionArtifact, SubmissionCheckStatus, check_status_eq,
  SubmissionCheckIssue, SubmissionCheckResult, Digests,
}
use math_model_ai.Submission.Jury.{
  ProfileError, validate_competition_profile, verify_report, is_fail,
}
use math_model_ai.Submission.Jury.Decision.{not-eq-false}
use math_model_ai.Submission.Check.{
  ArtifactBytes, Files, is_allowed_path, issue_if, rule_issues, jury_issues, bytes_match,
  artifact_issues, security_issues, candidate_issues, coverage_issues, early_issues, issues, status,
  same_issues, names_candidate, holds_digests, recheck, verify,
}

-- The bytes are the registered ones, and the profile allows the path.
abbrev pub IsIntact :
    Digests → Files → CompetitionProfile → ArtifactBytes → SubmissionArtifact → Type 0
IsIntact digests files profile bytes a =
    (bytes_match digests a (Dict.lookup a.artifact_id bytes) ≡ true)
    × (is_allowed_path files a.relative_path profile ≡ true)

issue_if-nil : (test : Bool) (i : SubmissionCheckIssue) → issue_if test i ≡ [] → test ≡ false
issue_if-nil true i h = cc
issue_if-nil false i h = refl

rule_issues-nil :
    (rules : List RuleResult)
    → rule_issues rules ≡ []
    → any (λ (r : RuleResult). is_fail r.status) rules ≡ false
unfolding rule_issues
rule_issues-nil [] h = refl
rule_issues-nil (r ∷ rs) h =
    let (a, b) = append-eq-nil _ (rule_issues rs) h in rw (issue_if-nil _ _ a, rule_issues-nil rs b)

jury_issues-nil : (answer : JuryDecision) → jury_issues answer ≡ [] → answer ≡ JuryDecision.pass
unfolding jury_issues
jury_issues-nil answer h = ==→≡ _ _ (not-eq-false _ (issue_if-nil _ _ h))

artifact_issues-nil :
    (digests : Digests) (files : Files) (profile : CompetitionProfile)
    (artifacts : List SubmissionArtifact) (bytes : ArtifactBytes)
    → artifact_issues digests files profile artifacts bytes ≡ []
    → All (IsIntact digests files profile bytes) artifacts
unfolding artifact_issues
artifact_issues-nil digests files profile [] bytes h = tt
artifact_issues-nil digests files profile (a ∷ rest) bytes h =
    let (integrity, others) = append-eq-nil _ _ h in
    let (allowed, below) =
      append-eq-nil _ (artifact_issues digests files profile rest bytes) others in
    (
      (not-eq-false _ (issue_if-nil _ _ integrity), not-eq-false _ (issue_if-nil _ _ allowed)),
      artifact_issues-nil digests files profile rest bytes below,
    )

security_issues-nil : (found : List (String × String)) → security_issues found ≡ [] → found ≡ []
unfolding security_issues
security_issues-nil [] h = refl
security_issues-nil (x ∷ found) h = cc

early_issues-nil :
    (candidate : SubmissionCandidate) (requirements : List RequirementCoverage)
    (rules : List RuleResult)
    → early_issues candidate requirements rules ≡ []
    → any (λ (r : RuleResult). is_fail r.status) rules ≡ false
unfolding early_issues
early_issues-nil candidate requirements rules h =
    let (first, others) =
      append-eq-nil (candidate_issues candidate) (rule_issues rules ++ coverage_issues requirements)
        h in
    rule_issues-nil rules
      (append-eq-nil (rule_issues rules) (coverage_issues requirements) others).0

-- The status is PASS only when there is no issue.
status_pass :
    (found : List SubmissionCheckIssue) (rules : List RuleResult) (jury : FinalJuryReport)
    → status found rules jury ≡ SubmissionCheckStatus.pass
    → found ≡ []
unfolding status
status_pass [] rules jury h = refl
status_pass (i ∷ found) rules jury h = ground arith

-- What an approving check is backed by, recomputed from the candidate and the bytes.
pub record Approved (digests : Digests) (files : Files) (check : SubmissionCheckResult)
    (profile : CompetitionProfile) (candidate : SubmissionCandidate)
    (requirements : List RequirementCoverage) (rules : List RuleResult) (jury : FinalJuryReport)
    (bytes : ArtifactBytes) : Type 0 where
  pub digest_kept : check.check_digest ≡ digests.check check
  pub named : names_candidate check candidate jury ≡ true
  pub profile_digest : String
  pub profile_valid : validate_competition_profile digests profile ≡ ok profile_digest
  pub digests_held :
      holds_digests digests check candidate requirements rules jury profile_digest ≡ true
  pub jury_passes :
      verify_report digests jury profile candidate requirements rules ≡ ok JuryDecision.pass
  pub no_rule_fails : any (λ (r : RuleResult). is_fail r.status) rules ≡ false
  pub intact : All (IsIntact digests files profile bytes) candidate.artifacts
  pub nothing_scanned : files.scan candidate bytes ≡ []

module _ (digests : Digests) (files : Files) (profile : CompetitionProfile)
    (candidate : SubmissionCandidate) (requirements : List RequirementCoverage)
    (rules : List RuleResult) (jury : FinalJuryReport) (bytes : ArtifactBytes) where
  -- No issue is found only in a candidate whose jury report passes and whose files are in order.
  issues-nil :
      issues digests files profile candidate requirements rules jury bytes ≡ ok []
      → (verify_report digests jury profile candidate requirements rules ≡ ok JuryDecision.pass)
        × (any (λ (r : RuleResult). is_fail r.status) rules ≡ false)
        × All (IsIntact digests files profile bytes) candidate.artifacts
        × (files.scan candidate bytes ≡ [])
  unfolding issues
  issues-nil h =
      let (answer, judged, found) =
        >>=-eq-ok (verify_report digests jury profile candidate requirements rules) _ h in
      let early = early_issues candidate requirements rules in
      let of_files = artifact_issues digests files profile candidate.artifacts bytes in
      let scanned = security_issues (files.scan candidate bytes) in
      let (a, h1) =
        append-eq-nil early (jury_issues answer ++ (of_files ++ scanned)) (ok-injective found) in
      let (b, h2) = append-eq-nil (jury_issues answer) (of_files ++ scanned) h1 in
      let (c, d) = append-eq-nil of_files scanned h2 in
      (
        judged ∙ ap ok (jury_issues-nil answer b),
        early_issues-nil candidate requirements rules a,
        artifact_issues-nil digests files profile candidate.artifacts bytes c,
        security_issues-nil (files.scan candidate bytes) d,
      )

  recheck_pass :
      (check : SubmissionCheckResult) (expected : List SubmissionCheckIssue)
      → recheck check rules jury expected ≡ SubmissionCheckStatus.pass
      → expected ≡ []
  unfolding recheck
  recheck_pass check expected h =
      by_same (same_issues expected check.issues) (check.status == status expected rules jury) h
    where
      by_same :
          (same agrees : Bool)
          → (if not same
              then SubmissionCheckStatus.fail
              else if agrees
              then status expected rules jury
              else SubmissionCheckStatus.fail)
            ≡ SubmissionCheckStatus.pass
          → expected ≡ []
      by_same false agrees g = cc
      by_same true false g = cc
      by_same true true g = status_pass expected rules jury g

  -- A check that verifies as PASS carries its own digest, names the candidate and the jury report, has the digests
  -- of all it was made from, and comes with a jury report that verifies as PASS, no failed rule, artifacts whose
  -- bytes have the registered size and hash and whose paths the profile allows, and a clean security scan.
  pub verify_pass :
      (check : SubmissionCheckResult)
      → verify digests files check profile candidate requirements rules jury bytes
        ≡ ok SubmissionCheckStatus.pass
      → Approved digests files check profile candidate requirements rules jury bytes
  unfolding verify
  verify_pass check h =
      by_test
        (not (digests.check check == check.check_digest)
          || not (names_candidate check candidate jury))
        refl h
    where
      expecting : List SubmissionCheckIssue → Raise ProfileError SubmissionCheckStatus
      expecting expected = ok (recheck check rules jury expected)

      by_digest : String → Raise ProfileError SubmissionCheckStatus
      by_digest d =
          if not (holds_digests digests check candidate requirements rules jury d)
          then ok SubmissionCheckStatus.fail
          else (issues digests files profile candidate requirements rules jury bytes >>= expecting)

      held :
          (d : String) (test : Bool)
          → (if not test
              then ok SubmissionCheckStatus.fail
              else (issues digests files profile candidate requirements rules jury bytes
                  >>= expecting))
            ≡ ok SubmissionCheckStatus.pass
          → (test ≡ true)
            × (issues digests files profile candidate requirements rules jury bytes ≡ ok [])
      held d false g = cc
      held d true g =
          let (expected, found, answered) =
            >>=-eq-ok (issues digests files profile candidate requirements rules jury bytes) _ g in
          (refl, found ∙ ap ok (recheck_pass check expected (ok-injective answered)))

      by_test :
          (test : Bool)
          → (not (digests.check check == check.check_digest)
              || not (names_candidate check candidate jury))
            ≡ test
          → (if test
              then ok SubmissionCheckStatus.fail
              else (validate_competition_profile digests profile >>= by_digest))
            ≡ ok SubmissionCheckStatus.pass
          → Approved digests files check profile candidate requirements rules jury bytes
      by_test true e g = cc
      by_test false e g =
          let (unchanged, named) = ||-eq-false _ _ e in
          let (d, valid, answered) = >>=-eq-ok (validate_competition_profile digests profile) _ g in
          let (holds, none_found) =
            held d (holds_digests digests check candidate requirements rules jury d) answered in
          let (judged, no_fail, intact, scanned) = issues-nil none_found in
          record {
            digest_kept = sym (==→≡ _ _ (not-eq-false _ unchanged));
            named = not-eq-false _ named;
            profile_digest = d;
            profile_valid = valid;
            digests_held = holds;
            jury_passes = judged;
            no_rule_fails = no_fail;
            intact = intact;
            nothing_scanned = scanned;
          }
