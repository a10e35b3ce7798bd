-- ===== src/Selection/Scoring.antt =====
-- src/mathmodel_ai/reasoning/scoring.py.
pub mod Order
pub mod Laws
use math_model_ai.Base.{
  ℕ, String, Bool, true, false, not, ◌&&◌, Option, none, some, List, [], ◌∷◌, ◌++◌, map, any, keep,
  contains, is_subset, is_empty, ltb, ◌==◌, string_eq, if◌then◌else◌, unique_from, Raise, ok, raise,
  raise_if, ◌>>=◌, ◌>>◌,
}
use math_model_ai.Base.Dict
use math_model_ai.Base.Dict.{Dict}
use math_model_ai.Base.Sort.{sort_by, text_leb}
use math_model_ai.Selection.Types.{
  ScoreFloats, DataAvailability, missing, HardFailure, data_not_available,
  violates_problem_requirement, HardFailure-discrete, failure_eq, ModelCandidate, Criteria,
  CandidateJuryAssessment, JuryAssessment, ModelJuryWeights, ModelScore, RejectedModel,
  ModelSelection, SelectionError, coverage_mismatch, too_few_eligible, no_candidate, same_model,
}

abbrev pub is_missing : DataAvailability → Bool
is_missing missing = true
is_missing _ = false

abbrev pub has_missing_required_data : ModelCandidate → Bool
has_missing_required_data c = any is_missing c.data_requirements

abbrev pub covers_required_subproblems : ModelCandidate → List String → Bool
covers_required_subproblems c required = is_subset required c.target_subproblems

abbrev pub candidate_key : ModelCandidate → String
candidate_key c = c.candidate_id

abbrev pub all_targets : List ModelCandidate → List String
all_targets [] = []
all_targets (c ∷ cs) = c.target_subproblems ++ all_targets cs

abbrev pub required_of : List ModelCandidate → Option (List String) → List String
required_of candidates none = all_targets candidates
required_of candidates (some ids) = ids

-- `sorted(left - right)`
abbrev pub sorted_difference : List String → List String → List String
sorted_difference left right =
    sort_by text_leb (keep (λ s. not (contains s right)) (unique_from [] left))

-- `if test and failure not in hard_failures: hard_failures.append(failure)`
abbrev pub append_failure : Bool → HardFailure → List HardFailure → List HardFailure
append_failure test failure failures =
    if test && not (contains failure failures) then failures ++ failure ∷ [] else failures

module _ {A : Type 0} where
  abbrev pub assessment_key : CandidateJuryAssessment A → String
  assessment_key a = a.candidate_id

  -- The hard failures that the candidate itself shows are added.
  unfoldable pub normalize :
      List String → ModelCandidate → CandidateJuryAssessment A → CandidateJuryAssessment A
  unfolding HardFailure-discrete
  normalize required c a = record a {
    hard_failures =
        append_failure (not (covers_required_subproblems c required)) violates_problem_requirement
          (append_failure (has_missing_required_data c) data_not_available a.hard_failures);
  }

  unfoldable pub normalize_all :
      List String
      → Dict String ModelCandidate
      → List (CandidateJuryAssessment A)
      → Raise SelectionError (List (CandidateJuryAssessment A))
  unfolding normalize
  normalize_all required candidates [] = ok []
  normalize_all required candidates (a ∷ rest) =
      let others = normalize_all required candidates rest in
      elim (Dict.lookup a.candidate_id candidates) [
        | none ↦ raise (no_candidate a.candidate_id)
        | some c ↦ (others >>= λ done. ok (normalize required c a ∷ done))
      ]

  abbrev pub score_key : ModelScore A → String
  score_key s = s.candidate_id

  abbrev pub is_eligible : ModelScore A → Bool
  is_eligible s = s.eligible

  abbrev pub reject : ModelScore A → RejectedModel
  reject s = record { candidate_id = s.candidate_id; hard_failures = s.hard_failures }

  -- `scores[2:]`
  abbrev pub after_two : List (ModelScore A) → List (ModelScore A)
  after_two (a ∷ b ∷ rest) = rest
  after_two _ = []

  -- The selection, from the scores in order and the eligible ones.
  unfoldable pub conclude :
      JuryAssessment A
      → ModelJuryWeights A
      → List (ModelScore A)
      → List (ModelScore A)
      → Raise SelectionError (ModelSelection A)
  conclude assessment weights scores (primary ∷ backup ∷ rest) = do
    raise_if (primary.candidate_id == backup.candidate_id) same_model
    ok (record {
      selected_model_id = primary.candidate_id;
      backup_model_id = backup.candidate_id;
      ranking = map score_key scores;
      score_matrix = scores;
      rejected_models = map reject (after_two scores);
      critical_risks = assessment.critical_risks;
      confidence = assessment.confidence;
      weights_version = weights.version;
    })
  conclude assessment weights scores _ = raise too_few_eligible

module _ (F : ScoreFloats) where
  open F use {Num}

  -- The weighted sum over `_SCORE_FIELDS`, in their order.
  unfoldable pub weighted_sum : Criteria Num → Criteria Num → Num
  weighted_sum a w =
      let term = λ (x y : Num). F.tenth (F.mul x y) in
      F.add
        (F.add
          (F.add
            (F.add
              (F.add
                (F.add
                  (F.add (F.add F.nought (term a.problem_fit w.problem_fit))
                    (term a.data_fit w.data_fit))
                  (term a.mathematical_validity w.mathematical_validity))
                (term a.explainability w.explainability))
              (term a.validation_potential w.validation_potential))
            (term a.innovation_potential w.innovation_potential))
          (term a.competition_feasibility w.competition_feasibility))
        (term a.computational_cost w.computational_cost)

  unfoldable pub calculate_score :
      CandidateJuryAssessment Num → ModelJuryWeights Num → ModelScore Num
  unfolding weighted_sum
  calculate_score a weights = record {
    candidate_id = a.candidate_id;
    criteria = a.criteria;
    weighted_total = F.rounded (weighted_sum a.criteria weights.criteria);
    hard_failures = a.hard_failures;
    warnings = a.warnings;
    rationale = a.rationale;
    eligible = is_empty a.hard_failures;
  }

  -- The order of the keys `(-eligible, -weighted_total, candidate_id)`.
  unfoldable pub ranks_before : ModelScore Num → ModelScore Num → Bool
  ranks_before a b =
      if a.eligible && not b.eligible
      then true
      else if b.eligible && not a.eligible
      then false
      else if F.before b.weighted_total a.weighted_total
      then true
      else if F.before a.weighted_total b.weighted_total
      then false
      else text_leb a.candidate_id b.candidate_id

  abbrev pub score_all :
      ModelJuryWeights Num → List (CandidateJuryAssessment Num) → List (ModelScore Num)
  score_all weights [] = []
  score_all weights (a ∷ rest) = calculate_score a weights ∷ score_all weights rest

  unfoldable pub build_model_selection :
      List ModelCandidate
      → JuryAssessment Num
      → ModelJuryWeights Num
      → Option (List String)
      → Raise SelectionError (ModelSelection Num)
  unfolding normalize_all calculate_score ranks_before conclude unique_from
  build_model_selection candidates assessment weights required_ids = do
    let required = required_of candidates required_ids
    let known = map candidate_key candidates
    let assessed = map assessment_key assessment.assessments
    raise_if (not (is_subset known assessed && is_subset assessed known))
        (coverage_mismatch (sorted_difference known assessed) (sorted_difference assessed known))
    normalized ←
        normalize_all required (Dict.index_by candidate_key candidates) assessment.assessments
    let scores = sort_by ranks_before (score_all weights normalized)
    conclude assessment weights scores (keep is_eligible scores)
