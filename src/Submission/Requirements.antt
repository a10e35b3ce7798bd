-- ===== src/Submission/Requirements.antt =====
-- src/mathmodel_ai/submission/requirements.py: the requirements of a problem, and which of them a paper
-- covers by claims with evidence. `requirement_digest`, the texts of numbers and Python's `casefold` and
-- `in` on texts are parameters.
pub mod Covered
pub mod Each
pub mod Tests
use Prim.Native.String.{◌++◌ as ◌<>◌}
use math_model_ai.Base.{
  ℕ, suc, String, Bool, true, false, not, ◌&&◌, ◌||◌, Option, none, some, List, [], ◌∷◌, ◌++◌, any,
  keep, contains, unique_from, is_empty, is_some, leb, ltb, nat_beq, string_eq, if◌then◌else◌,
}
use math_model_ai.Base.Sort.{sort_by, text_leb}
use math_model_ai.Base.Dict
use math_model_ai.Base.Dict.{Dict}
use math_model_ai.Submission.Types.{
  RequirementCoverageStatus, covered, partial, missing, not_applicable, CoverageReason,
  no_coverage_record, output_absent, no_bound_section, no_claim_mapping, no_supported_claim,
  no_paper_artifact, RequirementCoverage, SubmissionArtifactRole, paper_pdf, SubmissionArtifact,
}
use math_model_ai.Submission.Paper.{
  ClaimType, factual, numeric, result, comparison, sensitivity, robustness, conclusion,
  claim_type_eq, ClaimType-discrete, ClaimVerificationStatus, supported, Claim, PaperSection,
  SubproblemCoverageRecord, PaperIr, SubmissionRequirement,
}
use math_model_ai.Problem.{
  ProblemTaskType, prediction, time_series, optimization, decision, multi_objective, network,
  evaluation, SubProblem,
}

abbrev pub is_forecast : ProblemTaskType → Bool
is_forecast prediction = true
is_forecast time_series = true
is_forecast _ = false

abbrev pub is_choice : ProblemTaskType → Bool
is_choice optimization = true
is_choice decision = true
is_choice multi_objective = true
is_choice network = true
is_choice _ = false

abbrev pub is_evaluation : ProblemTaskType → Bool
is_evaluation evaluation = true
is_evaluation _ = false

abbrev pub risk_markers : List String
risk_markers = "risk" ∷ "robust" ∷ "stability" ∷ "uncert" ∷ "风险" ∷ "稳健" ∷ "敏感" ∷ []

module _ (casefold : String → String) (occurs_in : String → String → Bool) (show : ℕ → String) where
  -- `_allowed_claim_types`
  unfoldable pub allowed_claim_types : String → List ProblemTaskType → List ClaimType
  allowed_claim_types output types =
      if any (λ marker. occurs_in marker (casefold output)) risk_markers
      then robustness ∷ sensitivity ∷ comparison ∷ conclusion ∷ []
      else if any is_forecast types
      then numeric ∷ result ∷ comparison ∷ []
      else if any is_choice types
      then result ∷ numeric ∷ comparison ∷ []
      else if any is_evaluation types
      then numeric ∷ result ∷ comparison ∷ conclusion ∷ robustness ∷ sensitivity ∷ []
      else factual ∷ numeric ∷ result ∷ comparison ∷ sensitivity ∷ robustness ∷ conclusion ∷ []

  -- The requirements of one subproblem, whose outputs are counted from `index`.
  unfoldable pub requirements_of : SubProblem → ℕ → List String → List SubmissionRequirement
  unfolding allowed_claim_types
  requirements_of s index [] = []
  requirements_of s index (output ∷ outputs) =
      record {
        requirement_id = "REQ-" <> s.subproblem_id <> "-" <> show index;
        source_text = s.original_text;
        normalized_requirement = s.normalized_goal;
        subproblem_id = s.subproblem_id;
        required_output = output;
        allowed_claim_types = allowed_claim_types output s.task_types;
        required = true;
      }
      ∷ requirements_of s (suc index) outputs

  abbrev pub requirements_of_all : List SubProblem → List SubmissionRequirement
  requirements_of_all [] = []
  requirements_of_all (s ∷ ss) = requirements_of s 1 s.output_required ++ requirements_of_all ss

  -- `RequirementRegistry.from_subproblems`
  unfoldable pub from_subproblems : List SubProblem → List SubmissionRequirement
  unfolding requirements_of
  from_subproblems subproblems =
      requirements_of_all
        (sort_by (λ (a : SubProblem) (b : SubProblem). leb a.order b.order) subproblems)

abbrev pub is_supported : ClaimVerificationStatus → Bool
is_supported supported = true
is_supported _ = false

abbrev pub is_paper_pdf : SubmissionArtifactRole → Bool
is_paper_pdf paper_pdf = true
is_paper_pdf _ = false

abbrev pub artifact_ids : List SubmissionArtifact → List String
artifact_ids [] = []
artifact_ids (a ∷ rest) = a.artifact_id ∷ artifact_ids rest

abbrev pub claim_dict : PaperIr → Dict String Claim
claim_dict paper = Dict.index_by (λ (c : Claim). c.claim_id) paper.claims

abbrev pub section_dict : PaperIr → Dict String PaperSection
section_dict paper =
    Dict.index_by (λ (s : PaperSection). s.section_id) (paper.sections ++ paper.appendices)

abbrev pub declared_dict : PaperIr → Dict String SubproblemCoverageRecord
declared_dict paper =
    Dict.index_by (λ (d : SubproblemCoverageRecord). d.subproblem_id) paper.subproblem_coverage

-- `item in sections and subproblem_id in sections[item].subproblem_refs`
abbrev pub is_bound : String → Option PaperSection → Bool
is_bound subproblem none = false
is_bound subproblem (some s) = contains subproblem s.subproblem_refs

-- `claim_id in sections[...].claim_refs`, for a section that is there.
abbrev pub lists_claim : String → Option PaperSection → Bool
lists_claim claim none = false
lists_claim claim (some s) = contains claim s.claim_refs

-- `if test: reasons.append(reason)`
abbrev pub reason_if : Bool → CoverageReason → List CoverageReason
reason_if true r = r ∷ []
reason_if false r = []

-- The claims and sections that count for a requirement, under what the paper declares.
abbrev pub valid_sections : PaperIr → SubmissionRequirement → SubproblemCoverageRecord → List String
valid_sections paper r d =
    keep (λ s. is_bound r.subproblem_id (Dict.lookup s (section_dict paper))) d.section_ids

abbrev pub output_claim_refs : SubmissionRequirement → SubproblemCoverageRecord → List String
output_claim_refs r d = Dict.get_or r.required_output [] d.output_claim_refs

-- The chain of `continue`s.
unfoldable pub claim_counts :
    PaperIr → SubmissionRequirement → SubproblemCoverageRecord → String → Option Claim → Bool
unfolding ClaimType-discrete
claim_counts paper r d claim_id none = false
claim_counts paper r d claim_id (some c) =
    contains claim_id d.claim_refs
    && contains c.claim_type r.allowed_claim_types
    && contains c.section_id (valid_sections paper r d)
    && lists_claim claim_id (Dict.lookup c.section_id (section_dict paper))
    && is_supported c.verification_status
    && not (is_empty c.evidence_refs)

unfoldable pub valid_claims :
    PaperIr → SubmissionRequirement → SubproblemCoverageRecord → List String
unfolding claim_counts
valid_claims paper r d =
    keep (λ k. claim_counts paper r d k (Dict.lookup k (claim_dict paper))) (output_claim_refs r d)

abbrev pub evidence_of_claim : Option Claim → List String
evidence_of_claim none = []
evidence_of_claim (some c) = c.evidence_refs

abbrev pub evidence_of_claims : PaperIr → List String → List String
evidence_of_claims paper [] = []
evidence_of_claims paper (k ∷ ks) =
    evidence_of_claim (Dict.lookup k (claim_dict paper)) ++ evidence_of_claims paper ks

-- What the paper declares for the subproblem of a requirement, in the end.
pub record Examined : Type 0 where
  pub reasons : List CoverageReason
  pub sections : List String
  pub claims : List String

unfoldable pub examine :
    PaperIr → SubmissionRequirement → Option SubproblemCoverageRecord → Examined
unfolding valid_claims
examine paper r none = record { reasons = no_coverage_record ∷ []; sections = []; claims = [] }
examine paper r (some d) = record {
  reasons =
      reason_if (not (contains r.required_output d.required_outputs)) output_absent
      ++ (reason_if (is_empty (valid_sections paper r d)) no_bound_section
          ++ (reason_if (is_empty (output_claim_refs r d)) no_claim_mapping
              ++ reason_if (is_empty (valid_claims paper r d)) no_supported_claim));
  sections = valid_sections paper r d;
  claims = valid_claims paper r d;
}

abbrev pub coverage_status :
    Bool → Bool → Examined → List CoverageReason → RequirementCoverageStatus
coverage_status required is_declared e reasons =
    if not required
    then not_applicable
    else if is_empty reasons
    then covered
    else if is_declared && (not (is_empty e.sections) || not (is_empty e.claims))
    then partial
    else missing

module _ (requirement_digest : SubmissionRequirement → String) where
  -- The coverage of one requirement.
  unfoldable pub cover :
      PaperIr → List SubmissionArtifact → SubmissionRequirement → RequirementCoverage
  unfolding examine unique_from
  cover paper artifacts r =
      let declared = Dict.lookup r.subproblem_id (declared_dict paper) in
      let e = examine paper r declared in
      let pdfs = artifact_ids (keep (λ (a : SubmissionArtifact). is_paper_pdf a.role) artifacts) in
      let reasons = e.reasons ++ reason_if (is_empty pdfs) no_paper_artifact in
      record {
        requirement_id = r.requirement_id;
        requirement_digest = requirement_digest r;
        subproblem_id = r.subproblem_id;
        required = r.required;
        status = coverage_status r.required (is_some declared) e reasons;
        evidence_refs = sort_by text_leb (unique_from [] (evidence_of_claims paper e.claims));
        paper_refs = e.sections ++ e.claims;
        artifact_refs = pdfs;
        reasons = reasons;
      }

  -- `RequirementCoverageValidator.validate`
  unfoldable pub validate :
      List SubmissionRequirement → PaperIr → List SubmissionArtifact → List RequirementCoverage
  unfolding cover
  validate [] paper artifacts = []
  validate (r ∷ rs) paper artifacts = cover paper artifacts r ∷ validate rs paper artifacts
