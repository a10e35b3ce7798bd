-- ===== src/Selection/Types.antt =====
-- The values of src/mathmodel_ai/schemas/model_selection.py that the scoring reads, and `DataAvailability`
-- of schemas/problem_analysis.py. A score is a float, so its type and operations are a parameter.
use math_model_ai.Base.{String, Bool, true, false, List, ◌≡◌, Eq, eq_of_discrete}

-- Python's floats, as far as the scoring needs them: `before` is `<`, `tenth` divides by 10, and `rounded`
-- is `round(value, 4)`.
pub record ScoreFloats : Type 1 where
  pub Num : Type 0
  pub nought : Num
  pub add : Num → Num → Num
  pub mul : Num → Num → Num
  pub tenth : Num → Num
  pub rounded : Num → Num
  pub before : Num → Num → Bool

-- How `<` behaves on floats that are not NaN.
pub record IsOrder (F : ScoreFloats) : Type 0 where
  pub asym : (a b : F.Num) → F.before a b ≡ true → F.before b a ≡ false
  pub trans : (a b c : F.Num) → F.before a b ≡ false → F.before b c ≡ false → F.before a c ≡ false

pub data DataAvailability : Type 0 where
  provided derivable external_required missing unknown : DataAvailability

pub data HardFailure : Type 0 where
  data_not_available mathematically_invalid violates_problem_requirement : HardFailure
  impossible_within_deadline not_validatable critical_assumption_unsupported : HardFailure

unfoldable pub HardFailure-discrete : Discrete HardFailure
HardFailure-discrete = hlevel

instance abbrev pub failure_eq : Eq HardFailure
failure_eq = eq_of_discrete HardFailure-discrete

-- Of a data requirement, its availability.
pub record ModelCandidate : Type 0 where
  pub candidate_id : String
  pub target_subproblems : List String
  pub data_requirements : List DataAvailability

-- The eight scores of an assessment, and the eight weights.
pub record Criteria (A : Type 0) : Type 0 where
  pub problem_fit : A
  pub data_fit : A
  pub mathematical_validity : A
  pub explainability : A
  pub validation_potential : A
  pub innovation_potential : A
  pub competition_feasibility : A
  pub computational_cost : A

pub record CandidateJuryAssessment (A : Type 0) : Type 0 where
  pub candidate_id : String
  pub criteria : Criteria A
  pub hard_failures : List HardFailure
  pub warnings : List String
  pub rationale : String

pub record JuryAssessment (A : Type 0) : Type 0 where
  pub assessments : List (CandidateJuryAssessment A)
  pub critical_risks : List String
  pub confidence : A

pub record ModelJuryWeights (A : Type 0) : Type 0 where
  pub criteria : Criteria A
  pub version : String

pub record ModelScore (A : Type 0) : Type 0 where
  pub candidate_id : String
  pub criteria : Criteria A
  pub weighted_total : A
  pub hard_failures : List HardFailure
  pub warnings : List String
  pub rationale : String
  pub eligible : Bool

-- The reason is one of two texts: that of the hard failures, where there are any.
pub record RejectedModel : Type 0 where
  pub candidate_id : String
  pub hard_failures : List HardFailure

-- The text `decision_reason` is left out.
pub record ModelSelection (A : Type 0) : Type 0 where
  pub selected_model_id : String
  pub backup_model_id : String
  pub ranking : List String
  pub score_matrix : List (ModelScore A)
  pub rejected_models : List RejectedModel
  pub critical_risks : List String
  pub confidence : A
  pub weights_version : String

-- What the scoring may raise: a `ValueError` with the identifiers that are missing and those that are
-- unknown, one for want of candidates, a `KeyError`, or the `ValidationError` of `ModelSelection`.
pub data SelectionError : Type 0 where
  coverage_mismatch : List String → List String → SelectionError
  too_few_eligible : SelectionError
  no_candidate : String → SelectionError
  same_model : SelectionError
