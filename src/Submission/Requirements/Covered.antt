-- ===== src/Submission/Requirements/Covered.antt =====
-- Requirements with status COVERED, `validate` of src/mathmodel_ai/submission/requirements.py.
use math_model_ai.Base.{
  ◌≡◌, refl, sym, subst, String, Bool, true, false, not, ◌&&◌, ◌||◌, Option, none, some, List, [],
  ◌∷◌, ◌++◌, Memᴰ, arith, keep, contains, contains-mem, mem-keep, is_empty, is_some, append-eq-nil,
  Bool-cases, inl, inr, string_eq,
}
use math_model_ai.Base.Dict
use math_model_ai.Base.Dict.{Dict}
use math_model_ai.Submission.Types.{RequirementCoverageStatus, CoverageReason, SubmissionArtifact}
use math_model_ai.Submission.Paper.{
  claim_type_eq, Claim, PaperSection, SubproblemCoverageRecord, PaperIr, SubmissionRequirement,
}
use math_model_ai.Submission.Requirements.{
  is_supported, is_paper_pdf, artifact_ids, claim_dict, section_dict, declared_dict, is_bound,
  lists_claim, reason_if, valid_sections, output_claim_refs, claim_counts, valid_claims, Examined,
  examine, coverage_status, cover,
}

-- A claim that supports an output of a subproblem: it is declared for it, of an allowed type, has
-- evidence, and stands in a section of the paper that is bound to the subproblem and lists it.
pub record Supports (paper : PaperIr) (r : SubmissionRequirement) (d : SubproblemCoverageRecord)
    (c : Claim) : Type 0 where
  pub in_paper : Memᴰ c paper.claims
  pub mapped : Memᴰ c.claim_id (output_claim_refs r d)
  pub declared : Memᴰ c.claim_id d.claim_refs
  pub allowed : Memᴰ c.claim_type r.allowed_claim_types
  pub supported : is_supported c.verification_status ≡ true
  pub has_evidence : is_empty c.evidence_refs ≡ false
  pub section : PaperSection
  pub section_in_paper : Memᴰ section (paper.sections ++ paper.appendices)
  pub of_claim : section.section_id ≡ c.section_id
  pub section_declared : Memᴰ c.section_id d.section_ids
  pub bound : Memᴰ r.subproblem_id section.subproblem_refs
  pub lists : Memᴰ c.claim_id section.claim_refs

-- What answers a requirement.
pub record IsAnswered (paper : PaperIr) (artifacts : List SubmissionArtifact)
    (r : SubmissionRequirement) : Type 0 where
  pub required : r.required ≡ true
  pub declared : SubproblemCoverageRecord
  pub in_paper : Memᴰ declared paper.subproblem_coverage
  pub of_subproblem : declared.subproblem_id ≡ r.subproblem_id
  pub names_output : Memᴰ r.required_output declared.required_outputs
  pub claim : Claim
  pub supports : Supports paper r declared claim
  pub pdf : SubmissionArtifact
  pub submitted : Memᴰ pdf artifacts
  pub is_pdf : is_paper_pdf pdf.role ≡ true

reason_if-nil : (test : Bool) (r : CoverageReason) → reason_if test r ≡ [] → test ≡ false
reason_if-nil true r h = cc
reason_if-nil false r h = refl

not-eq-false : {b : Bool} → not b ≡ false → b ≡ true
not-eq-false {b} h = ground arith

empty-nil : {X : Type 0} (xs : List X) → is_empty xs ≡ true → xs ≡ []
empty-nil [] h = refl
empty-nil (x ∷ xs) h = cc

some_member : {X : Type 0} (xs : List X) → is_empty xs ≡ false → (x : X) × Memᴰ x xs
some_member [] h = cc
some_member (x ∷ xs) h = (x, Memᴰ.head refl)

some_artifact :
    (xs : List SubmissionArtifact)
    → is_empty (artifact_ids xs) ≡ false
    → (a : SubmissionArtifact) × Memᴰ a xs
some_artifact [] h = cc
some_artifact (x ∷ xs) h = (x, Memᴰ.head refl)

coverage_status-covered :
    (required is_declared : Bool) (e : Examined) (reasons : List CoverageReason)
    → coverage_status required is_declared e reasons ≡ RequirementCoverageStatus.covered
    → (required ≡ true) × (reasons ≡ [])
coverage_status-covered false is_declared e reasons h = cc
coverage_status-covered true is_declared e [] h = (refl, refl)
coverage_status-covered true is_declared e (r ∷ rs) h =
    elim (Bool-cases (is_declared && (not (is_empty e.sections) || not (is_empty e.claims)))) [
      | inl yes_partial ↦ absurd (not_partial (rw yes_partial at h))
      | inr no_partial ↦ absurd (not_missing (rw no_partial at h))
    ]
  where
    not_partial : RequirementCoverageStatus.partial ≡ RequirementCoverageStatus.covered → ⊥
    not_partial g = cc

    not_missing : RequirementCoverageStatus.missing ≡ RequirementCoverageStatus.covered → ⊥
    not_missing g = cc

all_six :
    (a b c d e f : Bool)
    → (a && b && c && d && e && f) ≡ true
    → (a ≡ true) × (b ≡ true) × (c ≡ true) × (d ≡ true) × (e ≡ true) × (f ≡ true)
all_six a b c d e f h =
    (ground arith, ground arith, ground arith, ground arith, ground arith, ground arith)

module _ (paper : PaperIr) (r : SubmissionRequirement) where
  section_of :
      (claim_id section_id : String)
      → is_bound r.subproblem_id (Dict.lookup section_id (section_dict paper)) ≡ true
      → lists_claim claim_id (Dict.lookup section_id (section_dict paper)) ≡ true
      → (s : PaperSection) × Memᴰ s (paper.sections ++ paper.appendices)
        × (s.section_id ≡ section_id)
        × Memᴰ r.subproblem_id s.subproblem_refs
        × Memᴰ claim_id s.claim_refs
  section_of claim_id section_id bound lists =
      by_entry (Dict.lookup section_id (section_dict paper)) refl bound lists
    where
      by_entry :
          (entry : Option PaperSection)
          → Dict.lookup section_id (section_dict paper) ≡ entry
          → is_bound r.subproblem_id entry ≡ true
          → lists_claim claim_id entry ≡ true
          → (s : PaperSection) × Memᴰ s (paper.sections ++ paper.appendices)
            × (s.section_id ≡ section_id)
            × Memᴰ r.subproblem_id s.subproblem_refs
            × Memᴰ claim_id s.claim_refs
      by_entry none is b l = cc
      by_entry (some s) is b l =
          let (member, key) =
            Dict.lookup-index_by ⦃e = string_eq⦄ (λ (x : PaperSection). x.section_id)
              (paper.sections ++ paper.appendices) section_id is in
          (s, member, key, contains-mem _ _ b, contains-mem _ _ l)

  claim_counts-Supports :
      (d : SubproblemCoverageRecord) (k : String) (entry : Option Claim)
      → Dict.lookup k (claim_dict paper) ≡ entry
      → Memᴰ k (output_claim_refs r d)
      → claim_counts paper r d k entry ≡ true
      → (c : Claim) × Supports paper r d c
  unfolding claim_counts
  claim_counts-Supports d k none is mapped h = cc
  claim_counts-Supports d k (some c) is mapped h =
      let (member, key) =
        Dict.lookup-index_by ⦃e = string_eq⦄ (λ (x : Claim). x.claim_id) paper.claims k is in
      let (declared, allowed, section, lists, supported, evidence) =
        all_six (contains k d.claim_refs) (contains c.claim_type r.allowed_claim_types)
          (contains c.section_id (valid_sections paper r d))
          (lists_claim k (Dict.lookup c.section_id (section_dict paper)))
          (is_supported c.verification_status) (not (is_empty c.evidence_refs)) h in
      let (section_declared, bound) =
        mem-keep (λ s. is_bound r.subproblem_id (Dict.lookup s (section_dict paper))) d.section_ids
          (contains-mem c.section_id (valid_sections paper r d) section) in
      let (s, s_member, s_key, s_bound, s_lists) = section_of k c.section_id bound lists in
      (
        c,
        record {
          in_paper = member;
          mapped = subst (λ x. Memᴰ x (output_claim_refs r d)) (sym key) mapped;
          declared =
              subst (λ x. Memᴰ x d.claim_refs) (sym key) (contains-mem k d.claim_refs declared);
          allowed = contains-mem c.claim_type r.allowed_claim_types allowed;
          supported = supported;
          has_evidence = ground arith;
          section = s;
          section_in_paper = s_member;
          of_claim = s_key;
          section_declared = section_declared;
          bound = s_bound;
          lists = subst (λ x. Memᴰ x s.claim_refs) (sym key) s_lists;
        },
      )

  some_claim :
      (d : SubproblemCoverageRecord)
      → is_empty (valid_claims paper r d) ≡ false
      → (c : Claim) × Supports paper r d c
  unfolding valid_claims
  some_claim d h =
      let (k, member) = some_member (valid_claims paper r d) h in
      let (mapped, counts) =
        mem-keep (λ x. claim_counts paper r d x (Dict.lookup x (claim_dict paper)))
          (output_claim_refs r d) member in
      claim_counts-Supports d k (Dict.lookup k (claim_dict paper)) refl mapped counts

  -- If the coverage of a requirement has status COVERED, then the requirement is required, the paper declares its
  -- output for its subproblem, some claim of the paper supports that output, and a PDF of the paper is
  -- among the artifacts.
  pub cover-IsAnswered :
      (digest : SubmissionRequirement → String) (artifacts : List SubmissionArtifact)
      → (cover digest paper artifacts r).status ≡ RequirementCoverageStatus.covered
      → IsAnswered paper artifacts r
  unfolding cover examine
  cover-IsAnswered digest artifacts h =
      by_declared (Dict.lookup r.subproblem_id (declared_dict paper)) refl h
    where
      pdfs : List SubmissionArtifact
      pdfs = keep (λ (a : SubmissionArtifact). is_paper_pdf a.role) artifacts

      not_nil : (x : CoverageReason) (xs : List CoverageReason) → x ∷ xs ≡ [] → ⊥
      not_nil x xs g = cc

      by_declared :
          (entry : Option SubproblemCoverageRecord)
          → Dict.lookup r.subproblem_id (declared_dict paper) ≡ entry
          → coverage_status r.required (is_some entry) (examine paper r entry) (
              (examine paper r entry).reasons
              ++ reason_if (is_empty (artifact_ids pdfs)) CoverageReason.no_paper_artifact)
            ≡ RequirementCoverageStatus.covered
          → IsAnswered paper artifacts r
      by_declared none is g =
          let (_, reasons) = coverage_status-covered r.required false (examine paper r none) _ g in
          absurd (
            not_nil CoverageReason.no_coverage_record
              (reason_if (is_empty (artifact_ids pdfs)) CoverageReason.no_paper_artifact) reasons)
      by_declared (some d) is g =
          let (required, reasons) =
            coverage_status-covered r.required true (examine paper r (some d)) _ g in
          let (examined, artifact) = append-eq-nil _ _ reasons in
          let (output, rest) = append-eq-nil _ _ examined in
          let (_, more) = append-eq-nil _ _ rest in
          let (_, claims) = append-eq-nil _ _ more in
          let (member, key) =
            Dict.lookup-index_by ⦃e = string_eq⦄ (λ (x : SubproblemCoverageRecord). x.subproblem_id)
              paper.subproblem_coverage r.subproblem_id is in
          let (c, supports) = some_claim d (reason_if-nil _ _ claims) in
          let (pdf, kept) = some_artifact pdfs (reason_if-nil _ _ artifact) in
          let (submitted, is_pdf) =
            mem-keep (λ (a : SubmissionArtifact). is_paper_pdf a.role) artifacts kept in
          record {
            required = required;
            declared = d;
            in_paper = member;
            of_subproblem = key;
            names_output =
                contains-mem r.required_output d.required_outputs
                  (not-eq-false (reason_if-nil _ _ output));
            claim = c;
            supports = supports;
            pdf = pdf;
            submitted = submitted;
            is_pdf = is_pdf;
          }
