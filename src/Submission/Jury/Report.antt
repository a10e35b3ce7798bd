-- ===== src/Submission/Jury/Report.antt =====
-- `verify_report` and `build_report` of src/mathmodel_ai/submission/jury.py.
use math_model_ai.Base.{
  ℕ, ◌≡◌, refl, sym, ap, ◌∙◌, String, Bool, true, false, not, ◌||◌, List, Option, ◌==◌, ==→≡,
  ==_refl, nat_beq, string_eq, arith, if◌then◌else◌, ||-eq-false, ok, ◌>>=◌, >>=-eq-ok,
  ok-injective, Bool-cases, inl, inr,
}
use math_model_ai.Submission.Types.{
  JuryDecision, decision_eq, CompetitionProfile, SubmissionCandidate, RequirementCoverage,
  RuleResult, FinalJuryDraft, FinalJuryReport, Digests,
}
use math_model_ai.Submission.Jury.{
  validate_competition_profile, decision, differ, recompute_score, binds_candidate, binds_digests,
  judge_again, verify_report, undigested_report, build_report,
}
use math_model_ai.Submission.Jury.Decision.{decision_pass, next_test, fail≢pass, not-eq-false}
use math_model_ai.Submission.Jury.Passing.{Passes}

-- What a passing report is backed by, recomputed from the candidate and not read from the report.
pub record Vouched (digests : Digests) (r : FinalJuryReport) (profile : CompetitionProfile)
    (candidate : SubmissionCandidate) (requirements : List RequirementCoverage)
    (rules : List RuleResult) : Type 0 where
  pub digest_kept : r.report_digest ≡ digests.report r
  pub bound : binds_candidate digests r profile candidate ≡ true
  pub profile_digest : String
  pub profile_valid : validate_competition_profile digests profile ≡ ok profile_digest
  pub bound_digests : binds_digests digests r candidate requirements rules profile_digest ≡ true
  pub score_kept : differ (recompute_score r.dimensions profile).0 r.claimed_score ≡ false
  pub recorded : r.decision ≡ JuryDecision.pass
  pub passes :
      Passes profile candidate requirements rules r.findings
        (recompute_score r.dimensions profile).0
        (recompute_score r.dimensions profile).1
        r.reviewer_is_mock
        r.independent_reviewer_used

module _ (digests : Digests) (r : FinalJuryReport) (profile : CompetitionProfile)
    (candidate : SubmissionCandidate) (requirements : List RequirementCoverage)
    (rules : List RuleResult) where
  judge_again_pass :
      judge_again digests r profile candidate requirements rules ≡ JuryDecision.pass
      → (differ (recompute_score r.dimensions profile).0 r.claimed_score ≡ false)
        × (r.decision ≡ JuryDecision.pass)
        × (decision profile candidate requirements rules r.findings
              (recompute_score r.dimensions profile).0
              (recompute_score r.dimensions profile).1
              r.reviewer_is_mock
              r.independent_reviewer_used
            ≡ JuryDecision.pass)
  unfolding judge_again
  judge_again_pass h =
      let (kept, rest) = next_test _ fail≢pass h in
      let (same, expected) = agreeing _ _ rest in (kept, same, expected)
    where
      agreeing :
          (recorded expected : JuryDecision)
          → (if recorded == expected then expected else JuryDecision.fail) ≡ JuryDecision.pass
          → (recorded ≡ JuryDecision.pass) × (expected ≡ JuryDecision.pass)
      agreeing recorded expected g = elim (Bool-cases (recorded == expected)) [
        | inl same ↦ let e : expected ≡ JuryDecision.pass = rw same at g in (==→≡ _ _ same ∙ e, e)
        | inr other ↦ absurd (fail≢pass (rw other at g))
      ]

  -- When everything that binds a report is in place, it is judged again.
  verify_report-judged :
      {d : String}
      → (digests.report r == r.report_digest) ≡ true
      → binds_candidate digests r profile candidate ≡ true
      → validate_competition_profile digests profile ≡ ok d
      → binds_digests digests r candidate requirements rules d ≡ true
      → verify_report digests r profile candidate requirements rules
        ≡ ok (judge_again digests r profile candidate requirements rules)
  unfolding verify_report
  verify_report-judged unchanged bound valid same = rw (unchanged, bound, valid, same)

  -- A report that verifies as PASS carries its own digest, names the candidate and the profile, has the digests of
  -- the profile, the candidate, the requirements, the rule results and the artifacts, has the score that its
  -- dimensions add up to, and meets every condition of a passing decision.
  pub verify_report_pass :
      verify_report digests r profile candidate requirements rules ≡ ok JuryDecision.pass
      → Vouched digests r profile candidate requirements rules
  unfolding verify_report
  verify_report_pass h =
      by_test
        (not (digests.report r == r.report_digest)
          || not (binds_candidate digests r profile candidate))
        refl h
    where
      answer : String → JuryDecision
      answer d =
          if binds_digests digests r candidate requirements rules d
          then judge_again digests r profile candidate requirements rules
          else JuryDecision.fail

      by_digest :
          (d : String)
          → answer d ≡ JuryDecision.pass
          → (binds_digests digests r candidate requirements rules d ≡ true)
            × (judge_again digests r profile candidate requirements rules ≡ JuryDecision.pass)
      by_digest d g = elim (Bool-cases (binds_digests digests r candidate requirements rules d)) [
        | inl same ↦ (same, rw same at g)
        | inr other ↦ absurd (fail≢pass (rw other at g))
      ]

      by_test :
          (test : Bool)
          → (not (digests.report r == r.report_digest)
              || not (binds_candidate digests r profile candidate))
            ≡ test
          → (if test
              then ok JuryDecision.fail
              else (validate_competition_profile digests profile >>= λ d. ok (answer d)))
            ≡ ok JuryDecision.pass
          → Vouched digests r profile candidate requirements rules
      by_test true e g = absurd (fail≢pass (ok-injective g))
      by_test false e g =
          let (unchanged, bound) = ||-eq-false _ _ e in
          let (d, valid, answered) = >>=-eq-ok (validate_competition_profile digests profile) _ g in
          let (same, judged) = by_digest d (ok-injective answered) in
          let (kept, recorded, expected) = judge_again_pass judged in
          record {
            digest_kept = sym (==→≡ _ _ (not-eq-false _ unchanged));
            bound = not-eq-false _ bound;
            profile_digest = d;
            profile_valid = valid;
            bound_digests = same;
            score_kept = kept;
            recorded = recorded;
            passes =
                (decision_pass profile candidate requirements rules r.findings _ _ _ _).0 expected;
          }

nat_beq_refl : (n : ℕ) → nat_beq n n ≡ true
nat_beq_refl n = ground arith

differ-same : (n : ℕ) → differ n n ≡ false
differ-same n = ground arith

module _ (digests : Digests) (safe : String → String) (report_id : String) (draft : FinalJuryDraft)
    (profile : CompetitionProfile) (candidate : SubmissionCandidate)
    (requirements : List RequirementCoverage) (rules : List RuleResult) (is_mock : Bool)
    (run : Option String) where
  abbrev undigested : FinalJuryReport
  undigested =
      undigested_report digests safe report_id draft profile candidate requirements rules is_mock
        run candidate.competition_profile_digest

  abbrev made : FinalJuryReport
  made = record undigested { report_digest = digests.report undigested }

  made-binds_candidate : binds_candidate digests made profile candidate ≡ true
  unfolding binds_candidate undigested_report
  made-binds_candidate = simp (==_refl, nat_beq_refl)

  made-binds_digests :
      binds_digests digests made candidate requirements rules candidate.competition_profile_digest
      ≡ true
  unfolding binds_digests undigested_report
  made-binds_digests = simp ==_refl

  made-judged : judge_again digests made profile candidate requirements rules ≡ made.decision
  unfolding judge_again undigested_report
  made-judged = rw (differ-same, ==_refl)

  -- A report that is built verifies as the decision it records, when the digest of a report does not read the
  -- digest field and the candidate carries the digest of the profile.
  pub verify_report-build_report :
      ((x : FinalJuryReport) (d : String)
        → digests.report (record x { report_digest = d }) ≡ digests.report x)
      → validate_competition_profile digests profile ≡ ok candidate.competition_profile_digest
      → (r : FinalJuryReport) × (build_report digests safe report_id draft profile candidate
            requirements rules is_mock run
          ≡ ok r)
        × (verify_report digests r profile candidate requirements rules ≡ ok r.decision)
  unfolding build_report
  verify_report-build_report blind valid = (
    made,
    rw valid,
    verify_report-judged digests made profile candidate requirements rules
          (rw (blind undigested (digests.report undigested)) (==_refl (digests.report undigested)))
          made-binds_candidate valid made-binds_digests
        ∙ ap ok made-judged,
  )
