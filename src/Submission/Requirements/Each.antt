-- ===== src/Submission/Requirements/Each.antt =====
-- `validate` and `from_subproblems` of src/mathmodel_ai/submission/requirements.py, over all
-- requirements.
use math_model_ai.Base.{
  ℕ, suc, ◌≡◌, refl, sym, ap, ◌∙◌, subst, String, Bool, true, List, [], ◌∷◌, ◌++◌, Memᴰ, leb,
  string_eq,
}
use math_model_ai.Base.Sort.{sort_by-mem}
use math_model_ai.Submission.Types.{
  RequirementCoverageStatus, RequirementCoverage, SubmissionArtifact,
}
use math_model_ai.Submission.Paper.{SubmissionRequirement, PaperIr}
use math_model_ai.Problem.{SubProblem}
use math_model_ai.Submission.Requirements.{
  requirements_of, requirements_of_all, from_subproblems, allowed_claim_types, cover, validate,
}
use math_model_ai.Submission.Requirements.Covered.{IsAnswered, cover-IsAnswered}

mem-append_left : {X : Type 0} {x : X} (xs ys : List X) → Memᴰ x xs → Memᴰ x (xs ++ ys)
mem-append_left [] ys m = elim m [ ]
mem-append_left (z ∷ zs) ys (Memᴰ.head e) = Memᴰ.head e
mem-append_left (z ∷ zs) ys (Memᴰ.tail m) = Memᴰ.tail (mem-append_left zs ys m)

mem-append_right : {X : Type 0} {x : X} (xs ys : List X) → Memᴰ x ys → Memᴰ x (xs ++ ys)
mem-append_right [] ys m = m
mem-append_right (z ∷ zs) ys m = Memᴰ.tail (mem-append_right zs ys m)

module _ (casefold : String → String) (occurs_in : String → String → Bool) (show : ℕ → String) where
  -- A requirement that asks for an output of a subproblem, of the claims that the output allows.
  pub record Asks (s : SubProblem) (output : String) (r : SubmissionRequirement) : Type 0 where
    pub of_subproblem : r.subproblem_id ≡ s.subproblem_id
    pub of_output : r.required_output ≡ output
    pub allows :
        r.allowed_claim_types ≡ allowed_claim_types casefold occurs_in show output s.task_types
    pub needed : r.required ≡ true

  requirements_of-Asks :
      (s : SubProblem) (output : String) (index : ℕ) (outputs : List String)
      → Memᴰ output outputs
      → (r : SubmissionRequirement) × Memᴰ r
          (requirements_of casefold occurs_in show s index outputs)
        × Asks s output r
  unfolding requirements_of
  requirements_of-Asks s output index [] m = elim m [ ]
  requirements_of-Asks s output index (o ∷ os) (Memᴰ.head e) = (
    _,
    Memᴰ.head refl,
    record {
      of_subproblem = refl;
      of_output = sym e;
      allows = ap (λ x. allowed_claim_types casefold occurs_in show x s.task_types) (sym e);
      needed = refl;
    },
  )
  requirements_of-Asks s output index (o ∷ os) (Memᴰ.tail m) =
      let (r, member, asks) = requirements_of-Asks s output (suc index) os m in
      (r, Memᴰ.tail member, asks)

  in_all :
      (s : SubProblem) (ss : List SubProblem) (r : SubmissionRequirement)
      → Memᴰ s ss
      → Memᴰ r (requirements_of casefold occurs_in show s 1 s.output_required)
      → Memᴰ r (requirements_of_all casefold occurs_in show ss)
  in_all s [] r m n = elim m [ ]
  in_all s (x ∷ xs) r (Memᴰ.head e) n = mem-append_left _ _ (
      subst
        (λ (k : SubProblem). Memᴰ r (requirements_of casefold occurs_in show k 1 k.output_required))
        e n)
  in_all s (x ∷ xs) r (Memᴰ.tail m) n =
      mem-append_right (requirements_of casefold occurs_in show x 1 x.output_required) _
        (in_all s xs r m n)

  -- For each output that a subproblem requires there is a requirement that asks for it.
  pub from_subproblems-Asks :
      (subproblems : List SubProblem) (s : SubProblem) (output : String)
      → Memᴰ s subproblems
      → Memᴰ output s.output_required
      → (r : SubmissionRequirement) × Memᴰ r (from_subproblems casefold occurs_in show subproblems)
        × Asks s output r
  unfolding from_subproblems
  from_subproblems-Asks subproblems s output m n =
      let (r, member, asks) = requirements_of-Asks s output 1 s.output_required n in
      (
        r,
        in_all s _ r
            (sort_by-mem (λ (a : SubProblem) (b : SubProblem). leb a.order b.order) subproblems m)
            member,
        asks,
      )

module _ (digest : SubmissionRequirement → String) (paper : PaperIr)
    (artifacts : List SubmissionArtifact) where
  validate-mem :
      (rs : List SubmissionRequirement) {c : RequirementCoverage}
      → Memᴰ c (validate digest rs paper artifacts)
      → (r : SubmissionRequirement) × Memᴰ r rs × (c ≡ cover digest paper artifacts r)
  unfolding validate
  validate-mem [] m = elim m [ ]
  validate-mem (r ∷ rs) (Memᴰ.head e) = (r, Memᴰ.head refl, e)
  validate-mem (r ∷ rs) (Memᴰ.tail m) =
      let (x, member, is) = validate-mem rs m in (x, Memᴰ.tail member, is)

  pub cover-mem :
      (rs : List SubmissionRequirement) {r : SubmissionRequirement}
      → Memᴰ r rs
      → Memᴰ (cover digest paper artifacts r) (validate digest rs paper artifacts)
  unfolding validate
  cover-mem [] m = elim m [ ]
  cover-mem (x ∷ rs) (Memᴰ.head e) = Memᴰ.head (ap (cover digest paper artifacts) e)
  cover-mem (x ∷ rs) (Memᴰ.tail m) = Memᴰ.tail (cover-mem rs m)

  -- If `validate` gives an entry with status COVERED, then the entry is that of a requirement with the same
  -- identifier, and that requirement is answered: its output is declared, a supported claim with evidence in a
  -- section bound to the subproblem stands for it, and a PDF of the paper is submitted.
  pub validate-IsAnswered :
      (rs : List SubmissionRequirement) (c : RequirementCoverage)
      → Memᴰ c (validate digest rs paper artifacts)
      → c.status ≡ RequirementCoverageStatus.covered
      → (r : SubmissionRequirement) × Memᴰ r rs
        × (c.requirement_id ≡ r.requirement_id)
        × IsAnswered paper artifacts r
  unfolding cover
  validate-IsAnswered rs c m h =
      let (r, member, is) = validate-mem rs m in
      (
        r,
        member,
        ap (λ (x : RequirementCoverage). x.requirement_id) is,
        cover-IsAnswered paper r digest artifacts
            (sym (ap (λ (x : RequirementCoverage). x.status) is) ∙ h),
      )
