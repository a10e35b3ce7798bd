-- ===== src/Selection/Gate.antt =====
-- `select_quality_gate` of src/mathmodel_ai/reasoning/quality_gates.py. Sets of keys are lists.
pub mod Laws
use math_model_ai.Base.{
  String, Bool, true, false, not, ◌&&◌, Option, none, some, List, [], ◌∷◌, contains, is_subset,
  ◌==◌, string_eq,
}
use math_model_ai.Base.Dict
use math_model_ai.Base.Dict.{Dict}
use math_model_ai.Gates.Types.{QualityGateStatus, QualityGateResult, failed_checks, status_of}
use math_model_ai.Selection.Types.{ModelCandidate, ModelScore, ModelSelection}
use math_model_ai.Selection.Scoring.{candidate_key, covers_required_subproblems, score_key}

-- `id in candidates_by_id and covers_required_subproblems(candidates_by_id[id], required)`
abbrev pub covers_all : List String → Option ModelCandidate → Bool
covers_all required none = false
covers_all required (some c) = covers_required_subproblems c required

module _ {A : Type 0} where
  -- `score is not None and score.eligible`
  abbrev pub eligible_score : Option (ModelScore A) → Bool
  eligible_score none = false
  eligible_score (some s) = s.eligible

  unfoldable pub select_checks :
      ModelSelection A → List ModelCandidate → List String → List (String × Bool)
  select_checks selection candidates required =
      let by_id = Dict.index_by candidate_key candidates in
      let scores = Dict.index_by score_key selection.score_matrix in
      ("primary_exists", contains selection.selected_model_id (Dict.keys by_id))
      ∷ ("backup_exists", contains selection.backup_model_id (Dict.keys by_id))
      ∷ ("models_differ", not (selection.selected_model_id == selection.backup_model_id))
      ∷ ("primary_eligible", eligible_score (Dict.lookup selection.selected_model_id scores))
      ∷ ("backup_eligible", eligible_score (Dict.lookup selection.backup_model_id scores))
      ∷ (
        "primary_covers_all_subproblems",
        covers_all required (Dict.lookup selection.selected_model_id by_id),
      )
      ∷ (
        "backup_covers_all_subproblems",
        covers_all required (Dict.lookup selection.backup_model_id by_id),
      )
      ∷ (
        "all_candidates_scored",
        is_subset (Dict.keys scores) (Dict.keys by_id)
            && is_subset (Dict.keys by_id) (Dict.keys scores),
      )
      ∷ []

  unfoldable pub select_quality_gate :
      ModelSelection A → List ModelCandidate → List String → QualityGateResult
  unfolding select_checks
  select_quality_gate selection candidates required =
      let checks = select_checks selection candidates required in
      let errors = failed_checks checks in
      record {
        gate = "SELECT";
        status = status_of errors;
        checks = checks;
        errors = errors;
        warnings = selection.critical_risks;
      }
