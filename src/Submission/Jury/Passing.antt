-- ===== src/Submission/Jury/Passing.antt =====
-- The conditions of a passing decision, beside the tests of `_decision` in src/mathmodel_ai/submission/jury.py.
use math_model_ai.Base.{
  ℕ, ◌≤◌, ◌≡◌, refl, ◌↔◌, Bool, true, false, not, ◌&&◌, ◌||◌, List, [], ◌∷◌, any, ◌≢◌, ||-eq-false,
  string_eq, All,
}
use math_model_ai.Submission.Types.{
  RuleSeverity, RuleResultStatus, RequirementCoverageStatus, JurySeverity, PaperQualityStatus,
  CompetitionProfile, SubmissionCandidate, RequirementCoverage, RuleResult, JuryFinding,
}
use math_model_ai.Submission.Jury.{
  is_ready, is_blocking, is_fail, is_undecided, is_covered, is_critical, rule_blocks,
  rule_undecided, coverage_lacks, finding_open,
}

-- What a passing decision asks of a rule's result, a requirement's coverage and a finding.
abbrev pub IsNotFailed : RuleResult → Type 0
IsNotFailed r = r.severity ≡ RuleSeverity.blocking → r.status ≢ RuleResultStatus.fail

abbrev pub IsDecided : RuleResult → Type 0
IsDecided r =
    r.severity ≡ RuleSeverity.blocking
    → (r.status ≢ RuleResultStatus.human_review) × (r.status ≢ RuleResultStatus.not_evaluable)

abbrev pub IsMet : RequirementCoverage → Type 0
IsMet c = c.required ≡ true → c.status ≡ RequirementCoverageStatus.covered

abbrev pub IsClosed : JuryFinding → Type 0
IsClosed f = f.severity ≡ JurySeverity.critical → f.resolved ≡ true

-- All that a passing decision asks for.
pub record Passes (profile : CompetitionProfile) (candidate : SubmissionCandidate)
    (requirements : List RequirementCoverage) (rules : List RuleResult)
    (findings : List JuryFinding) (score : ℕ) (dimensions_valid is_mock independent : Bool)
    : Type 0 where
  pub valid : dimensions_valid ≡ true
  pub phase5 : candidate.phase5_verified ≡ true
  pub ready : candidate.paper_status ≡ PaperQualityStatus.ready_for_final_jury
  pub not_failed : All IsNotFailed rules
  pub decided : All IsDecided rules
  pub reviewed :
      profile.require_independent_reviewer ≡ true → (is_mock ≡ false) × (independent ≡ true)
  pub met : All IsMet requirements
  pub closed : All IsClosed findings
  pub enough : profile.minimum_jury_score ≤ score

-- A test that no item passes, and what the items are for want of it.
pub any_iff :
    {A : Type 0} (p : A → Bool) (P : A → Type 0)
    → ((x : A) → (p x ≡ false) ↔ P x)
    → (xs : List A) → (any p xs ≡ false) ↔ All P xs
any_iff p P each [] = (λ h. tt, λ h. refl)
any_iff p P each (x ∷ xs) = (
  λ h. let (here, there) = ||-eq-false _ _ h in ((each x).0 here, (any_iff p P each xs).0 there),
  λ h. rw ((each x).1 h.0, (any_iff p P each xs).1 h.1),
)

pub guard_iff :
    {P Q : Type 0} (a b : Bool) → (a ≡ true) ↔ P → (b ≡ false) ↔ Q → ((a && b) ≡ false) ↔ (P → Q)
guard_iff true b f g = (λ h. λ p. g.0 h, λ h. g.1 (h (f.0 refl)))
guard_iff false b f g = (λ h. λ p. cc (f.1 p), λ h. refl)

pub same_iff : (b : Bool) → (b ≡ true) ↔ (b ≡ true)
same_iff b = (λ h. h, λ h. h)

not_iff : (b : Bool) → (not b ≡ false) ↔ (b ≡ true)
not_iff true = (λ h. refl, λ h. refl)
not_iff false = (λ h. cc, λ h. cc)

is_blocking_iff : (s : RuleSeverity) → (is_blocking s ≡ true) ↔ (s ≡ RuleSeverity.blocking)
is_blocking_iff RuleSeverity.blocking = (λ h. refl, λ h. refl)
is_blocking_iff RuleSeverity.major = (λ h. cc, λ h. cc)
is_blocking_iff RuleSeverity.minor = (λ h. cc, λ h. cc)
is_blocking_iff RuleSeverity.info = (λ h. cc, λ h. cc)

is_critical_iff : (s : JurySeverity) → (is_critical s ≡ true) ↔ (s ≡ JurySeverity.critical)
is_critical_iff JurySeverity.critical = (λ h. refl, λ h. refl)
is_critical_iff JurySeverity.major = (λ h. cc, λ h. cc)
is_critical_iff JurySeverity.minor = (λ h. cc, λ h. cc)
is_critical_iff JurySeverity.info = (λ h. cc, λ h. cc)

is_fail_iff : (s : RuleResultStatus) → (is_fail s ≡ false) ↔ (s ≢ RuleResultStatus.fail)
is_fail_iff RuleResultStatus.pass = (λ h. λ e. cc, λ h. refl)
is_fail_iff RuleResultStatus.warning = (λ h. λ e. cc, λ h. refl)
is_fail_iff RuleResultStatus.fail = (λ h. cc, λ h. absurd (h refl))
is_fail_iff RuleResultStatus.not_evaluable = (λ h. λ e. cc, λ h. refl)
is_fail_iff RuleResultStatus.human_review = (λ h. λ e. cc, λ h. refl)

is_undecided_iff :
    (s : RuleResultStatus)
    → (is_undecided s ≡ false)
      ↔ ((s ≢ RuleResultStatus.human_review) × (s ≢ RuleResultStatus.not_evaluable))
is_undecided_iff RuleResultStatus.pass = (λ h. (λ e. cc, λ e. cc), λ h. refl)
is_undecided_iff RuleResultStatus.warning = (λ h. (λ e. cc, λ e. cc), λ h. refl)
is_undecided_iff RuleResultStatus.fail = (λ h. (λ e. cc, λ e. cc), λ h. refl)
is_undecided_iff RuleResultStatus.not_evaluable = (λ h. cc, λ h. absurd (h.1 refl))
is_undecided_iff RuleResultStatus.human_review = (λ h. cc, λ h. absurd (h.0 refl))

is_covered_iff :
    (s : RequirementCoverageStatus)
    → (not (is_covered s) ≡ false) ↔ (s ≡ RequirementCoverageStatus.covered)
is_covered_iff RequirementCoverageStatus.covered = (λ h. refl, λ h. refl)
is_covered_iff RequirementCoverageStatus.partial = (λ h. cc, λ h. cc)
is_covered_iff RequirementCoverageStatus.missing = (λ h. cc, λ h. cc)
is_covered_iff RequirementCoverageStatus.not_applicable = (λ h. cc, λ h. cc)

pub is_ready_iff :
    (s : PaperQualityStatus)
    → (not (is_ready s) ≡ false) ↔ (s ≡ PaperQualityStatus.ready_for_final_jury)
is_ready_iff PaperQualityStatus.draft = (λ h. cc, λ h. cc)
is_ready_iff PaperQualityStatus.validating = (λ h. cc, λ h. cc)
is_ready_iff PaperQualityStatus.failed = (λ h. cc, λ h. cc)
is_ready_iff PaperQualityStatus.human_review = (λ h. cc, λ h. cc)
is_ready_iff PaperQualityStatus.ready_for_final_jury = (λ h. refl, λ h. refl)

pub review_iff :
    (is_mock independent : Bool)
    → ((is_mock || not independent) ≡ false) ↔ ((is_mock ≡ false) × (independent ≡ true))
review_iff true independent = (λ h. cc, λ h. cc h.0)
review_iff false true = (λ h. (refl, refl), λ h. refl)
review_iff false false = (λ h. cc, λ h. cc h.1)

pub rule_blocks_iff : (r : RuleResult) → (rule_blocks r ≡ false) ↔ IsNotFailed r
rule_blocks_iff r =
    guard_iff (is_blocking r.severity) (is_fail r.status) (is_blocking_iff r.severity)
      (is_fail_iff r.status)

pub rule_undecided_iff : (r : RuleResult) → (rule_undecided r ≡ false) ↔ IsDecided r
rule_undecided_iff r =
    guard_iff (is_blocking r.severity) (is_undecided r.status) (is_blocking_iff r.severity)
      (is_undecided_iff r.status)

pub coverage_lacks_iff : (c : RequirementCoverage) → (coverage_lacks c ≡ false) ↔ IsMet c
coverage_lacks_iff c =
    guard_iff c.required (not (is_covered c.status)) (same_iff c.required) (is_covered_iff c.status)

pub finding_open_iff : (f : JuryFinding) → (finding_open f ≡ false) ↔ IsClosed f
finding_open_iff f =
    guard_iff (is_critical f.severity) (not f.resolved) (is_critical_iff f.severity)
      (not_iff f.resolved)
