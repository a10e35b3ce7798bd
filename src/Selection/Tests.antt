-- ===== src/Selection/Tests.antt =====
-- Three offered and their assessments: the selection evaluated, and the theorems of `Selection` applied to
-- it. The floats are natural numbers, in tenths.
use math_model_ai.Base.{
  ℕ, ◌+◌, ◌*◌, ◌≡◌, ◌≢◌, refl, String, Bool, true, false, ltb, none, List, [], ◌∷◌, Memᴰ, ok,
  string_eq, unique_from, arith,
}
use math_model_ai.Gates.Types.{QualityGateStatus}
use math_model_ai.Selection.Gate.{select_quality_gate}
use math_model_ai.Selection.Gate.Laws.{select_quality_gate-passes}
use math_model_ai.Selection.Types.{
  ScoreFloats, IsOrder, DataAvailability, HardFailure, HardFailure-discrete, ModelCandidate,
  Criteria, CandidateJuryAssessment, JuryAssessment, ModelJuryWeights, ModelScore, ModelSelection,
}
use math_model_ai.Selection.Scoring.{
  required_of, normalize, normalize_all, conclude, weighted_sum, calculate_score, ranks_before,
  build_model_selection,
}
use math_model_ai.Selection.Scoring.Laws.{
  IsFit, build_model_selection-IsFit, build_model_selection-best,
}

abbrev numbers : ScoreFloats
numbers = record {
  Num = ℕ;
  nought = 0;
  add = λ a b. a + b;
  mul = λ a b. a * b;
  tenth = λ a. a;
  rounded = λ a. a;
  before = ltb;
}

numbers-IsOrder : IsOrder numbers
numbers-IsOrder = record { asym = λ a b h. ground arith; trans = λ a b c h k. ground arith }

abbrev candidate : String → List DataAvailability → ModelCandidate
candidate id available = record {
  candidate_id = id;
  target_subproblems = "Q1" ∷ [];
  data_requirements = available;
}

abbrev evenly : ℕ → Criteria ℕ
evenly n = record {
  problem_fit = n;
  data_fit = n;
  mathematical_validity = n;
  explainability = n;
  validation_potential = n;
  innovation_potential = n;
  competition_feasibility = n;
  computational_cost = n;
}

abbrev judged : String → ℕ → CandidateJuryAssessment ℕ
judged id n = record {
  candidate_id = id;
  criteria = evenly n;
  hard_failures = [];
  warnings = [];
  rationale = "by its fit";
}

abbrev offered : List ModelCandidate
offered =
    candidate "CAND-A" []
    ∷ candidate "CAND-B" (DataAvailability.provided ∷ [])
    ∷ candidate "CAND-C" (DataAvailability.missing ∷ [])
    ∷ []

-- The jury overlooks that the third candidate lacks data.
abbrev assessment : JuryAssessment ℕ
assessment = record {
  assessments = judged "CAND-A" 6 ∷ judged "CAND-B" 8 ∷ judged "CAND-C" 9 ∷ [];
  critical_risks = [];
  confidence = 9;
}

abbrev weights : ModelJuryWeights ℕ
weights = record { criteria = evenly 1; version = "even" }

abbrev scored : String → ℕ → List HardFailure → Bool → ModelScore ℕ
scored id n failures eligible = record {
  candidate_id = id;
  criteria = evenly n;
  weighted_total = 8 * n;
  hard_failures = failures;
  warnings = [];
  rationale = "by its fit";
  eligible = eligible;
}

abbrev selection : ModelSelection ℕ
selection = record {
  selected_model_id = "CAND-B";
  backup_model_id = "CAND-A";
  ranking = "CAND-B" ∷ "CAND-A" ∷ "CAND-C" ∷ [];
  score_matrix =
      scored "CAND-B" 8 [] true
      ∷ scored "CAND-A" 6 [] true
      ∷ scored "CAND-C" 9 (HardFailure.data_not_available ∷ []) false
      ∷ [];
  rejected_models =
      record { candidate_id = "CAND-C"; hard_failures = HardFailure.data_not_available ∷ [] } ∷ [];
  critical_risks = [];
  confidence = 9;
  weights_version = "even";
}

selects : build_model_selection numbers offered assessment weights none ≡ ok selection
unfolding build_model_selection normalize_all normalize HardFailure-discrete calculate_score
    weighted_sum ranks_before conclude unique_from
selects = refl

build_model_selection-IsFit_example :
    IsFit offered assessment (required_of offered none) "CAND-B"
    × IsFit offered assessment (required_of offered none) "CAND-A"
    × (selection.selected_model_id ≢ selection.backup_model_id)
build_model_selection-IsFit_example =
    build_model_selection-IsFit numbers offered assessment weights none selects

build_model_selection-best_example :
    (s : ModelScore ℕ) × Memᴰ s selection.score_matrix
    × (s.candidate_id ≡ "CAND-B")
    × (s.eligible ≡ true)
    × ((t : ModelScore ℕ)
        → Memᴰ t selection.score_matrix
        → t.eligible ≡ true
        → ltb s.weighted_total t.weighted_total ≡ false)
build_model_selection-best_example =
    build_model_selection-best numbers offered assessment weights none numbers-IsOrder selects

select_quality_gate-passes_example :
    (select_quality_gate selection offered (required_of offered none)).status
    ≡ QualityGateStatus.pass
select_quality_gate-passes_example =
    select_quality_gate-passes numbers offered assessment weights none refl selects
