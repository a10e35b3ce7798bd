-- ===== src/Submission/Requirements/Tests.antt =====
-- A paper that answers one requirement: its coverage evaluated, and the theorems of `Requirements`
-- applied to it.
use math_model_ai.Base.{
  ℕ, ◌≡◌, refl, String, Bool, true, false, List, [], ◌∷◌, Memᴰ, unique_from, string_eq,
}
use math_model_ai.Submission.Types.{
  RequirementCoverageStatus, RequirementCoverage, SubmissionArtifactRole, SubmissionArtifact,
}
use math_model_ai.Submission.Paper.{
  ClaimType, ClaimType-discrete, ClaimVerificationStatus, PaperIr, SubmissionRequirement,
}
use math_model_ai.Problem.{ProblemTaskType, SubProblem}
use math_model_ai.Submission.Requirements.{
  from_subproblems, requirements_of, allowed_claim_types, claim_counts, valid_claims, examine,
  cover, validate,
}
use math_model_ai.Submission.Requirements.Covered.{IsAnswered}
use math_model_ai.Submission.Requirements.Each.{validate-IsAnswered}

abbrev subproblem : SubProblem
subproblem = record {
  subproblem_id = "Q1";
  order = 1;
  original_text = "How long does it take?";
  normalized_goal = "time";
  output_required = "the time" ∷ "the route" ∷ [];
  task_types = ProblemTaskType.optimization ∷ [];
  ambiguity_refs = [];
}

abbrev pub requirement : SubmissionRequirement
requirement = record {
  requirement_id = "REQ-Q1-1";
  source_text = "How long does it take?";
  normalized_requirement = "time";
  subproblem_id = "Q1";
  required_output = "the time";
  allowed_claim_types = ClaimType.result ∷ ClaimType.numeric ∷ ClaimType.comparison ∷ [];
  required = true;
}

abbrev identity : String → String
identity s = s

abbrev never : String → String → Bool
never marker text = false

abbrev digit : ℕ → String
digit n = "1"

first_requirement :
    from_subproblems identity never digit (
      record {
        subproblem_id = "Q1";
        order = 1;
        original_text = "How long does it take?";
        normalized_goal = "time";
        output_required = "the time" ∷ [];
        task_types = ProblemTaskType.optimization ∷ [];
        ambiguity_refs = [];
      }
      ∷ [])
    ≡ requirement ∷ []
unfolding from_subproblems requirements_of allowed_claim_types
first_requirement = refl

abbrev pub paper : PaperIr
paper = record {
  sections =
      record { section_id = "SEC-1"; claim_refs = "CLAIM-1" ∷ []; subproblem_refs = "Q1" ∷ [] }
      ∷ [];
  appendices = [];
  claims =
      record {
        claim_id = "CLAIM-1";
        claim_type = ClaimType.result;
        section_id = "SEC-1";
        evidence_refs = "e2" ∷ "e1" ∷ [];
        verification_status = ClaimVerificationStatus.supported;
      }
      ∷ [];
  subproblem_coverage =
      record {
        subproblem_id = "Q1";
        required_outputs = "the time" ∷ [];
        section_ids = "SEC-1" ∷ [];
        claim_refs = "CLAIM-1" ∷ [];
        output_claim_refs = ("the time", "CLAIM-1" ∷ []) ∷ [];
      }
      ∷ [];
}

abbrev artifacts : List SubmissionArtifact
artifacts =
    record {
      artifact_id = "a1";
      role = SubmissionArtifactRole.paper_pdf;
      relative_path = "paper.pdf";
      size_bytes = 2;
      sha256 = "hash";
    }
    ∷ []

abbrev pub digest : SubmissionRequirement → String
digest r = "digest"

abbrev entry : RequirementCoverage
entry = record {
  requirement_id = "REQ-Q1-1";
  requirement_digest = "digest";
  subproblem_id = "Q1";
  required = true;
  status = RequirementCoverageStatus.covered;
  evidence_refs = "e1" ∷ "e2" ∷ [];
  paper_refs = "SEC-1" ∷ "CLAIM-1" ∷ [];
  artifact_refs = "a1" ∷ [];
  reasons = [];
}

requirement_is_covered : validate digest (requirement ∷ []) paper artifacts ≡ entry ∷ []
unfolding validate cover examine valid_claims claim_counts unique_from ClaimType-discrete
requirement_is_covered = refl

entry_is_given : Memᴰ entry (validate digest (requirement ∷ []) paper artifacts)
unfolding validate cover examine valid_claims claim_counts unique_from ClaimType-discrete
entry_is_given = Memᴰ.head refl

validate-IsAnswered_example :
    (r : SubmissionRequirement) × Memᴰ r (requirement ∷ [])
    × (entry.requirement_id ≡ r.requirement_id)
    × IsAnswered paper artifacts r
validate-IsAnswered_example =
    validate-IsAnswered digest paper artifacts (requirement ∷ []) entry entry_is_given refl

-- Without a PDF the requirement is covered in part.
without_pdf : (cover digest paper [] requirement).status ≡ RequirementCoverageStatus.partial
unfolding cover examine valid_claims claim_counts unique_from ClaimType-discrete
without_pdf = refl
