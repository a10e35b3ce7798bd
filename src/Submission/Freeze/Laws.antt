-- ===== src/Submission/Freeze/Laws.antt =====
-- The packages that `freeze` returns and keeps, of src/mathmodel_ai/submission/freeze.py.
use math_model_ai.Base.{
  ◌≡◌, refl, ap, ◌∙◌, subst, String, Bool, true, false, not, Option, none, some, List, ◌==◌, ==→≡,
  ==_refl, string_eq, Raise, ok, raise, raise_if, raise_if-eq-ok, >>=-eq-ok, ok-injective,
}
use math_model_ai.Base.Dict
use math_model_ai.Base.Dict.{Dict, lookup-insert}
use math_model_ai.Submission.Types.{
  JuryDecision, decision_eq, RequirementCoverage, RuleResult, SubmissionCheckStatus,
  check_status_eq, Digests,
}
use math_model_ai.Submission.Jury.{verify_report}
use math_model_ai.Submission.Jury.Decision.{not-eq-false}
use math_model_ai.Submission.Jury.Report.{Vouched, verify_report_pass}
use math_model_ai.Submission.Check.{Files, verify}
use math_model_ai.Submission.Check.Laws.{Approved, verify_pass}
use math_model_ai.Submission.Freeze.{
  SubmissionStatus, submission_status_eq, FreezeError, Collaborators, Request, through,
  same_candidate, approve, reuse, store, freeze_under_lock, continue, freeze,
}

through-eq-ok {ℓ} :
    {E : Type 0} {A : Type ℓ} (f : E → FreezeError) (m : Raise E A) {a : A}
    → through f m ≡ ok a
    → m ≡ ok a
through-eq-ok f (ok b) h = ap ok (ok-injective h)
through-eq-ok f (raise e) h = cc

module _ {Paper Requirement Package : Type 0} (digests : Digests) (files : Files)
    (parts : Collaborators Paper Requirement Package) where
  -- What the coordinator recomputed before it took the lock.
  pub record Backed (q : Request Paper Requirement) (coverage : List RequirementCoverage)
      : Type 0 where
    pub jury_passed : q.jury.decision ≡ JuryDecision.pass
    pub check_passed : q.check.status ≡ SubmissionCheckStatus.pass
    pub same : same_candidate q.candidate q.jury q.check ≡ true
    pub rules : List RuleResult
    pub evaluated : parts.evaluate q.profile q.candidate q.artifact_bytes ≡ ok rules
    pub rules_kept : digests.rule_result_snapshot rules ≡ digests.rule_result_snapshot q.rules
    pub validated :
        parts.validate q.submission_requirements q.paper q.candidate.artifacts ≡ ok coverage
    pub coverage_kept :
        digests.requirement_snapshot coverage ≡ digests.requirement_snapshot q.requirements
    pub vouched : Vouched digests q.jury q.profile q.candidate coverage rules
    pub approved :
        Approved digests files q.check q.profile q.candidate coverage rules q.jury q.artifact_bytes

  test-passed :
      (test : Bool) (e : FreezeError) {u : Unit {0}} → raise_if (not test) e ≡ ok u → test ≡ true
  test-passed test e h = not-eq-false test (raise_if-eq-ok (not test) e h)

  approve-Backed :
      (q : Request Paper Requirement) {coverage : List RequirementCoverage}
      → approve digests files parts q ≡ ok coverage
      → Backed q coverage
  unfolding approve
  approve-Backed q {coverage} h =
      let (_, t1, h1) =
        >>=-eq-ok (raise_if (not (q.jury.decision == JuryDecision.pass)) FreezeError.jury_must_pass)
          _ h in
      let (_, t2, h2) =
        >>=-eq-ok
          (raise_if (not (q.check.status == SubmissionCheckStatus.pass))
            FreezeError.check_must_pass)
          _ h1 in
      let (_, t3, h3) =
        >>=-eq-ok
          (raise_if (not (same_candidate q.candidate q.jury q.check))
            FreezeError.different_candidate)
          _ h2 in
      let (rules, t4, h4) =
        >>=-eq-ok
          (through FreezeError.collaborator_failed
            (parts.evaluate q.profile q.candidate q.artifact_bytes))
          _ h3 in
      let (_, t5, h5) =
        >>=-eq-ok
          (raise_if
            (not (digests.rule_result_snapshot rules == digests.rule_result_snapshot q.rules))
            FreezeError.rules_changed)
          _ h4 in
      let (covered, t6, h6) =
        >>=-eq-ok
          (through FreezeError.collaborator_failed
            (parts.validate q.submission_requirements q.paper q.candidate.artifacts))
          _ h5 in
      let (_, t7, h7) =
        >>=-eq-ok
          (raise_if
            (not
              (digests.requirement_snapshot covered == digests.requirement_snapshot q.requirements))
            FreezeError.coverage_changed)
          _ h6 in
      let (judged, t8, h8) =
        >>=-eq-ok
          (through FreezeError.invalid_profile
            (verify_report digests q.jury q.profile q.candidate covered rules))
          _ h7 in
      let (_, t9, h9) =
        >>=-eq-ok (raise_if (not (judged == JuryDecision.pass)) FreezeError.jury_integrity_failed) _
          h8 in
      let (checked, t10, h10) =
        >>=-eq-ok
          (through FreezeError.invalid_profile (
            verify digests files q.check q.profile q.candidate covered rules q.jury
              q.artifact_bytes))
          _ h9 in
      let (_, t11, h11) =
        >>=-eq-ok
          (raise_if (not (checked == SubmissionCheckStatus.pass))
            FreezeError.check_integrity_failed)
          _ h10 in
      let is_coverage : covered ≡ coverage = ok-injective h11 in
      subst (λ c. Backed q c) is_coverage
        (record {
          jury_passed = ==→≡ _ _ (test-passed _ _ t1);
          check_passed = ==→≡ _ _ (test-passed _ _ t2);
          same = test-passed _ _ t3;
          rules = rules;
          evaluated = through-eq-ok _ _ t4;
          rules_kept = ==→≡ _ _ (test-passed _ _ t5);
          validated = through-eq-ok _ _ t6;
          coverage_kept = ==→≡ _ _ (test-passed _ _ t7);
          vouched =
              verify_report_pass digests q.jury q.profile q.candidate covered rules
                (through-eq-ok _ _ t8 ∙ ap ok (==→≡ _ _ (test-passed _ _ t9)));
          approved =
              verify_pass digests files q.profile q.candidate covered rules q.jury q.artifact_bytes
                q.check (through-eq-ok _ _ t10 ∙ ap ok (==→≡ _ _ (test-passed _ _ t11)));
        })

  -- What was stored when `freeze` returned a package.
  lookup-store :
      (id : String) (packages : Dict String Package) (built : Raise FreezeError Package)
      {packages' : Dict String Package} {p : Package}
      → store id packages built ≡ (packages', ok p)
      → Dict.lookup id packages' ≡ some p
  lookup-store id packages (raise e) h = cc
  lookup-store id packages (ok b) {packages'} {p} h =
      let stored : Dict.insert id b packages ≡ packages' = ap (λ x. x.0) h in
      let is_p : b ≡ p = ok-injective (ap (λ x. x.1) h) in
      subst (λ d. Dict.lookup id d ≡ some p) stored
        (lookup-insert id id b packages ∙ rw (==_refl id) (ap some is_p))

  reuse-same :
      (cached : Package) {p : Package} → reuse digests files parts cached ≡ ok p → cached ≡ p
  unfolding reuse
  reuse-same cached h =
      let (answer, t1, h1) =
        >>=-eq-ok (through FreezeError.collaborator_failed (parts.verify_package cached)) _ h in
      let (_, t2, h2) =
        >>=-eq-ok
          (raise_if (not (answer == SubmissionStatus.frozen)) FreezeError.package_became_dirty) _
          h1 in
      ok-injective h2

  freeze_under_lock-stored :
      (q : Request Paper Requirement) (coverage : List RequirementCoverage)
      (packages : Dict String Package) (cached : Option Package) {packages' : Dict String Package}
      {p : Package}
      → Dict.lookup q.candidate.candidate_id packages ≡ cached
      → freeze_under_lock digests files parts q coverage packages cached ≡ (packages', ok p)
      → Dict.lookup q.candidate.candidate_id packages' ≡ some p
  unfolding freeze_under_lock
  freeze_under_lock-stored q coverage packages none e h =
      lookup-store q.candidate.candidate_id packages _ h
  freeze_under_lock-stored q coverage packages (some c) {packages'} {p} e h =
      let kept : packages ≡ packages' = ap (λ x. x.0) h in
      subst (λ d. Dict.lookup q.candidate.candidate_id d ≡ some p) kept
        (e ∙ ap some (reuse-same c (ap (λ x. x.1) h)))

  -- When `freeze` returns a package, the coordinator keeps it for the identifier of the candidate, and this
  -- request was approved: the report and the check are recorded as PASS, both name the candidate, and both verify
  -- as PASS against the rule results and the coverage that the collaborators recomputed, whose digests are those
  -- of the lists that the caller gave.
  pub freeze-Backed :
      (q : Request Paper Requirement) (packages : Dict String Package)
      {packages' : Dict String Package} {p : Package}
      → freeze digests files parts q packages ≡ (packages', ok p)
      → (coverage : List RequirementCoverage) × Backed q coverage
        × (Dict.lookup q.candidate.candidate_id packages' ≡ some p)
  unfolding freeze
  freeze-Backed q packages {packages'} {p} h = by_approval (approve digests files parts q) refl h
    where
      by_approval :
          (m : Raise FreezeError (List RequirementCoverage))
          → approve digests files parts q ≡ m
          → continue digests files parts q packages m ≡ (packages', ok p)
          → (coverage : List RequirementCoverage) × Backed q coverage
            × (Dict.lookup q.candidate.candidate_id packages' ≡ some p)
      by_approval (raise e) same g = cc
      by_approval (ok coverage) same g =
          (coverage, approve-Backed q same, freeze_under_lock-stored q coverage packages _ refl g)

  store-keeps :
      (id : String) (packages : Dict String Package) (built : Raise FreezeError Package)
      (k : String) {p : Package}
      → Dict.lookup id packages ≡ none
      → Dict.lookup k packages ≡ some p
      → Dict.lookup k (store id packages built).0 ≡ some p
  store-keeps id packages (raise e) k absent there = there
  store-keeps id packages (ok b) k {p} absent there = by_id (k == id) refl
    where
      by_id : (test : Bool) → (k == id) ≡ test → Dict.lookup k (Dict.insert id b packages) ≡ some p
      by_id true e =
          let gone : Dict.lookup k packages ≡ none =
            ap (λ x. Dict.lookup x packages) (==→≡ k id e) ∙ absent in
          cc
      by_id false e = lookup-insert k id b packages ∙ rw e there

  -- A package that the coordinator keeps stays, unchanged, whatever `freeze` is called with and whether it returns
  -- or raises.
  pub freeze-keeps :
      (q : Request Paper Requirement) (packages : Dict String Package) (k : String) {p : Package}
      → Dict.lookup k packages ≡ some p
      → Dict.lookup k (freeze digests files parts q packages).0 ≡ some p
  unfolding freeze freeze_under_lock
  freeze-keeps q packages k {p} there = by_approval (approve digests files parts q)
    where
      under_lock :
          (coverage : List RequirementCoverage) (cached : Option Package)
          → Dict.lookup q.candidate.candidate_id packages ≡ cached
          → Dict.lookup k (freeze_under_lock digests files parts q coverage packages cached).0
            ≡ some p
      under_lock coverage (some c) e = there
      under_lock coverage none e = store-keeps q.candidate.candidate_id packages _ k e there

      by_approval :
          (m : Raise FreezeError (List RequirementCoverage))
          → Dict.lookup k (continue digests files parts q packages m).0 ≡ some p
      by_approval (raise e) = there
      by_approval (ok coverage) = under_lock coverage _ refl
