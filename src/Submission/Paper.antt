-- ===== src/Submission/Paper.antt =====
-- What the coverage of requirements reads of a paper, src/mathmodel_ai/schemas/paper.py, with
-- `SubmissionRequirement` of schemas/submission.py.
use math_model_ai.Base.{String, Bool, List, Eq, eq_of_discrete}
use math_model_ai.Base.Dict.{Dict}

pub data ClaimType : Type 0 where
  factual numeric model assumption derivation result comparison sensitivity : ClaimType
  robustness literature conclusion : ClaimType

unfoldable pub ClaimType-discrete : Discrete ClaimType
ClaimType-discrete = hlevel

instance abbrev pub claim_type_eq : Eq ClaimType
claim_type_eq = eq_of_discrete ClaimType-discrete

pub data ClaimVerificationStatus : Type 0 where
  pending supported partially_supported unsupported contradicted human_review :
      ClaimVerificationStatus

pub record Claim : Type 0 where
  pub claim_id : String
  pub claim_type : ClaimType
  pub section_id : String
  pub evidence_refs : List String
  pub verification_status : ClaimVerificationStatus

pub record PaperSection : Type 0 where
  pub section_id : String
  pub claim_refs : List String
  pub subproblem_refs : List String

pub record SubproblemCoverageRecord : Type 0 where
  pub subproblem_id : String
  pub required_outputs : List String
  pub section_ids : List String
  pub claim_refs : List String
  pub output_claim_refs : Dict String (List String)

pub record PaperIr : Type 0 where
  pub sections : List PaperSection
  pub appendices : List PaperSection
  pub claims : List Claim
  pub subproblem_coverage : List SubproblemCoverageRecord

-- The fields that a new requirement sets; the others have their defaults.
pub record SubmissionRequirement : Type 0 where
  pub requirement_id : String
  pub source_text : String
  pub normalized_requirement : String
  pub subproblem_id : String
  pub required_output : String
  pub allowed_claim_types : List ClaimType
  pub required : Bool
