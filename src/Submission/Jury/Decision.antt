-- ===== src/Submission/Jury/Decision.antt =====
-- What `_decision` of `FinalJuryGate` answers, and the findings of a report.
use mathlib.Core.Bool.{true≢false}
use math_model_ai.Base.{
  ℕ, ◌≤◌, ◌≡◌, refl, sym, ◌↔◌, String, Bool, true, false, not, ◌&&◌, ◌||◌, List, [], ◌∷◌, ◌≢◌,
  arith, ap, ◌∙◌, ◌==◌, ==→≡, ==_refl, ltb, not_ltb→le, if◌then◌else◌, contains, is_unique,
  ||-eq-false, string_eq,
}
use math_model_ai.Submission.Types.{
  JuryDecision, CompetitionProfile, SubmissionCandidate, RequirementCoverage, RuleResult,
  JuryFinding,
}
use math_model_ai.Submission.Jury.{
  decision, rule_blocks, rule_undecided, coverage_lacks, finding_open, deduplicate_from,
  deduplicate,
}
use math_model_ai.Submission.Jury.Passing.{
  IsNotFailed, IsDecided, IsMet, IsClosed, Passes, any_iff, guard_iff, same_iff, is_ready_iff,
  review_iff, rule_blocks_iff, rule_undecided_iff, coverage_lacks_iff, finding_open_iff,
}

ltb-of_le : (a b : ℕ) → b ≤ a → ltb a b ≡ false
ltb-of_le a b h = ground arith

pub not-eq-false : (a : Bool) → not a ≡ false → a ≡ true
not-eq-false a h = ground arith

pub fail≢pass : JuryDecision.fail ≢ JuryDecision.pass
fail≢pass h = cc

pub human_review≢pass : JuryDecision.human_review ≢ JuryDecision.pass
human_review≢pass h = cc

-- A test that does not pass lets the next one decide.
pub next_test :
    (test : Bool) {x y : JuryDecision}
    → x ≢ JuryDecision.pass
    → (if test then x else y) ≡ JuryDecision.pass
    → (test ≡ false) × (y ≡ JuryDecision.pass)
next_test true n h = absurd (n h)
next_test false n h = (refl, h)

module _ (profile : CompetitionProfile) (candidate : SubmissionCandidate)
    (requirements : List RequirementCoverage) (rules : List RuleResult)
    (findings : List JuryFinding) (score : ℕ) (dimensions_valid is_mock independent : Bool) where
  -- The decision is PASS exactly when nine conditions hold: the dimensions of the score are valid; the result of
  -- the candidate is verified; the paper is ready for the final jury; no blocking rule has the status FAIL; no
  -- blocking rule has the status HUMAN_REVIEW or NOT_EVALUABLE; where the profile requires an independent reviewer,
  -- the reviewer is not a mock and is independent; every required output is COVERED; every critical finding is
  -- resolved; and the score is at least the minimum of the profile.
  pub decision_pass :
      (decision profile candidate requirements rules findings score dimensions_valid is_mock
          independent
        ≡ JuryDecision.pass)
      ↔ Passes profile candidate requirements rules findings score dimensions_valid is_mock
          independent
  unfolding decision
  decision_pass = (
    λ h.
        let (a, h1) = next_test _ fail≢pass h in
        let (b, h2) = next_test _ fail≢pass h1 in
        let (c, h3) = next_test _ fail≢pass h2 in
        let (d, h4) = next_test _ human_review≢pass h3 in
        let (e, h5) = next_test _ human_review≢pass h4 in
        let (f, h6) = next_test _ fail≢pass h5 in
        let (g, h7) = next_test _ fail≢pass h6 in
        let (i, h8) = next_test _ fail≢pass h7 in
        let (u, v) = ||-eq-false _ _ a in
        record {
          valid = not-eq-false _ u;
          phase5 = not-eq-false _ v;
          ready = (is_ready_iff candidate.paper_status).0 b;
          not_failed = (any_iff rule_blocks IsNotFailed rule_blocks_iff rules).0 c;
          decided = (any_iff rule_undecided IsDecided rule_undecided_iff rules).0 d;
          reviewed = review.0 e;
          met = (any_iff coverage_lacks IsMet coverage_lacks_iff requirements).0 f;
          closed = (any_iff finding_open IsClosed finding_open_iff findings).0 g;
          enough = not_ltb→le _ _ i;
        },
    λ p. rw (
      p.valid,
      p.phase5,
      (is_ready_iff candidate.paper_status).1 p.ready,
      (any_iff rule_blocks IsNotFailed rule_blocks_iff rules).1 p.not_failed,
      (any_iff rule_undecided IsDecided rule_undecided_iff rules).1 p.decided,
      review.1 p.reviewed,
      (any_iff coverage_lacks IsMet coverage_lacks_iff requirements).1 p.met,
      (any_iff finding_open IsClosed finding_open_iff findings).1 p.closed,
      ltb-of_le _ _ p.enough,
    ),
  )
    where
      review :
          ((profile.require_independent_reviewer && (is_mock || not independent)) ≡ false)
          ↔ (profile.require_independent_reviewer ≡ true → (is_mock ≡ false) × (independent ≡ true))
      review =
          guard_iff profile.require_independent_reviewer (is_mock || not independent)
            (same_iff profile.require_independent_reviewer) (review_iff is_mock independent)

abbrev pub finding_ids : List JuryFinding → List String
finding_ids [] = []
finding_ids (f ∷ fs) = f.finding_id ∷ finding_ids fs

-- An identifier that was seen is not found again.
deduplicate_from-fresh :
    (seen : List String) (fs : List JuryFinding) (k : String)
    → contains k seen ≡ true
    → contains k (finding_ids (deduplicate_from seen fs)) ≡ false
unfolding deduplicate_from
deduplicate_from-fresh seen [] k h = refl
deduplicate_from-fresh seen (f ∷ fs) k h =
    by_seen (λ s. deduplicate_from-fresh s fs k) (contains f.finding_id seen) refl
  where
    by_seen :
        ((s : List String)
          → contains k s ≡ true
          → contains k (finding_ids (deduplicate_from s fs)) ≡ false)
        → (test : Bool) → contains f.finding_id seen ≡ test
        → contains k (finding_ids (deduplicate_from seen (f ∷ fs))) ≡ false
    by_seen ih true old = rw (old, deduplicate_from) (ih seen h)
    by_seen ih false new =
        rw (new, deduplicate_from)
          (let other : (k == f.finding_id) ≡ false = not_same (k == f.finding_id) refl in
            rw (other, ih (f.finding_id ∷ seen) (ground arith)))
      where
        not_same : (test : Bool) → (k == f.finding_id) ≡ test → test ≡ false
        not_same false e = refl
        not_same true e =
            let same : k ≡ f.finding_id = ==→≡ _ _ e in
            absurd (true≢false (sym h ∙ (ap (λ x. contains x seen) same ∙ new)))

deduplicate_from_unique :
    (seen : List String) (fs : List JuryFinding)
    → is_unique (finding_ids (deduplicate_from seen fs)) ≡ true
unfolding deduplicate_from
deduplicate_from_unique seen [] = refl
deduplicate_from_unique seen (f ∷ fs) =
    by_seen (λ s. deduplicate_from_unique s fs) (contains f.finding_id seen) refl
  where
    by_seen :
        ((s : List String) → is_unique (finding_ids (deduplicate_from s fs)) ≡ true)
        → (test : Bool) → contains f.finding_id seen ≡ test
        → is_unique (finding_ids (deduplicate_from seen (f ∷ fs))) ≡ true
    by_seen ih true old = rw (old, deduplicate_from) (ih seen)
    by_seen ih false new = rw (
      new,
      deduplicate_from,
      deduplicate_from-fresh (f.finding_id ∷ seen) fs f.finding_id (rw (==_refl f.finding_id)),
      ih (f.finding_id ∷ seen),
    )

-- The findings of a report have pairwise different identifiers.
pub deduplicate_unique : (fs : List JuryFinding) → is_unique (finding_ids (deduplicate fs)) ≡ true
unfolding deduplicate
deduplicate_unique fs = deduplicate_from_unique [] fs
