-- ===== src/Selection/Gate/Laws.antt =====
-- A selection of `build_model_selection` of src/mathmodel_ai/reasoning/scoring.py before the gate of
-- reasoning/quality_gates.py.
use mathlib.Core.Option.{some-injective}
use math_model_ai.Base.{
  ◌≡◌, refl, sym, ap, ap₂, subst, ◌∙◌, String, true, false, not, ◌&&◌, Option, some, List, [], ◌∷◌,
  map, Memᴰ, keep, mem-keep, contains, is_subset, subset-of, is_unique, is_some, unique_key,
  contains-mem_key, mem-contains_key, all-mem, contains-mem, ◌==◌, ==→≡, string_eq, ok, >>=-eq-ok,
  ok-injective, Option-cases, Bool-cases, inl, inr, arith, &&-eq-true,
}
use math_model_ai.Base.Dict
use math_model_ai.Base.Dict.{Dict}
use math_model_ai.Base.Sort.{sort_by, mem-sort_by, sort_by-mem}
use math_model_ai.Gates.Types.{QualityGateStatus}
use math_model_ai.Gates.Checks.{both, failed_checks-is_empty, status_of_iff}
use math_model_ai.Selection.Types.{
  ScoreFloats, ModelCandidate, CandidateJuryAssessment, JuryAssessment, ModelJuryWeights,
  ModelScore, ModelSelection,
}
use math_model_ai.Selection.Scoring.{
  candidate_key, required_of, assessment_key, score_key, is_eligible, normalize, normalize_all,
  calculate_score, ranks_before, score_all, build_model_selection,
}
use math_model_ai.Selection.Scoring.Laws.{
  Built, mem-normalize_all, mem-score_all, normalize-key, build_model_selection-Built,
  build_model_selection-IsFit,
}
use math_model_ai.Selection.Gate.{covers_all, eligible_score, select_checks, select_quality_gate}

-- An item of a list that is indexed by a key which tells the items apart is found under its key.
lookup_unique :
    {A : Type 0} (key : A → String) (xs : List A) {x : A}
    → ((y z : A) → Memᴰ y xs → Memᴰ z xs → key y ≡ key z → y ≡ z)
    → Memᴰ x xs
    → Dict.lookup (key x) (Dict.index_by key xs) ≡ some x
lookup_unique key xs {x} apart m =
    elim (Option-cases (Dict.lookup (key x) (Dict.index_by key xs))) [
      | inl missing ↦ cc (
          sym (ap is_some missing)
          ∙ Dict.lookup-keys (key x) (Dict.index_by key xs)
          ∙ Dict.keys-index_by key (key x) xs
          ∙ mem-contains_key key xs m)
      | inr (y, found) ↦
          let (n, p) = Dict.lookup-index_by key xs (key x) found in
          found ∙ ap some (apart y x n m p)
    ]

keys-subset :
    {A B : Type 0} (key : A → String) (other : B → String) (xs : List A) (ys : List B)
    → ((k : String) → contains k (map key xs) ≡ true → contains k (map other ys) ≡ true)
    → is_subset (Dict.keys (Dict.index_by key xs)) (Dict.keys (Dict.index_by other ys)) ≡ true
keys-subset key other xs ys h =
    subset-of (Dict.keys (Dict.index_by key xs)) (Dict.keys (Dict.index_by other ys))
      (λ k m. Dict.keys-index_by other k ys ∙ h k (sym (Dict.keys-index_by key k xs) ∙ m))

subset-at :
    (xs ys : List String) (k : String)
    → is_subset xs ys ≡ true
    → contains k xs ≡ true
    → contains k ys ≡ true
subset-at xs ys k h m = all-mem (λ x. contains x ys) xs h (contains-mem k xs m)

not_equal : (s t : String) → ¬ (s ≡ t) → (s == t) ≡ false
not_equal s t h = elim (Bool-cases (s == t)) [
  | inl same ↦ absurd (h (==→≡ s t same))
  | inr other ↦ other
]

module _ (F : ScoreFloats) (candidates : List ModelCandidate) (assessment : JuryAssessment F.Num)
    (weights : ModelJuryWeights F.Num) (required_ids : Option (List String)) where
  abbrev required : List String
  required = required_of candidates required_ids

  abbrev by_id : Dict String ModelCandidate
  by_id = Dict.index_by candidate_key candidates

  -- A score with the assessment and the candidate that it was made from.
  record Traced (s : ModelScore F.Num) : Type 0 where
    candidate : ModelCandidate
    judged : CandidateJuryAssessment F.Num
    given : Memᴰ judged assessment.assessments
    found : Dict.lookup judged.candidate_id by_id ≡ some candidate
    about : judged.candidate_id ≡ s.candidate_id
    made : s ≡ calculate_score F (normalize required candidate judged) weights

  score-key :
      (a : CandidateJuryAssessment F.Num)
      → (calculate_score F a weights).candidate_id ≡ a.candidate_id
  unfolding calculate_score
  score-key a = refl

  score-Traced :
      (normalized : List (CandidateJuryAssessment F.Num)) (s : ModelScore F.Num)
      → normalize_all required by_id assessment.assessments ≡ ok normalized
      → Memᴰ s (score_all F weights normalized)
      → Traced s
  score-Traced normalized s are m =
      let (a, n, scored) = mem-score_all F weights normalized m in
      let (c, b, given, found, from_b) =
        mem-normalize_all required by_id assessment.assessments are n in
      let made : s ≡ calculate_score F (normalize required c b) weights =
        scored ∙ ap (λ k. calculate_score F k weights) from_b in
      record {
        candidate = c;
        judged = b;
        given = given;
        found = found;
        about =
            sym (normalize-key F required c b)
            ∙ sym (score-key (normalize required c b))
            ∙ ap (λ (k : ModelScore F.Num). k.candidate_id) (sym made);
        made = made;
      }

  -- Two scores with one identifier are one score.
  scores_apart :
      is_unique (map assessment_key assessment.assessments) ≡ true
      → (s t : ModelScore F.Num) → Traced s
      → Traced t
      → s.candidate_id ≡ t.candidate_id
      → s ≡ t
  scores_apart unique s t p q same =
      let judged : p.judged ≡ q.judged =
        unique_key assessment_key assessment.assessments unique p.given q.given
          (p.about ∙ same ∙ sym q.about) in
      let candidate : p.candidate ≡ q.candidate = some-injective p.candidate q.candidate (
        sym p.found
        ∙ ap (λ (b : CandidateJuryAssessment F.Num). Dict.lookup b.candidate_id by_id) judged
        ∙ q.found) in
      p.made
      ∙ ap₂ (λ c b. calculate_score F (normalize required c b) weights) candidate judged
      ∙ sym q.made

  keys-normalize_all :
      (assessments : List (CandidateJuryAssessment F.Num))
      {done : List (CandidateJuryAssessment F.Num)}
      → normalize_all required by_id assessments ≡ ok done
      → map score_key (score_all F weights done) ≡ map assessment_key assessments
  unfolding normalize_all
  keys-normalize_all [] h = ap (λ l. map score_key (score_all F weights l)) (sym (ok-injective h))
  keys-normalize_all (b ∷ rest) h = elim (Option-cases (Dict.lookup b.candidate_id by_id)) [
    | inl unknown ↦ cc (rw (unknown, normalize_all) at h)
    | inr (c, found) ↦
        let (others, normalized, made) =
          >>=-eq-ok (normalize_all required by_id rest) _ (rw (found, normalize_all) at h) in
        ap (λ l. map score_key (score_all F weights l)) (sym (ok-injective made))
        ∙ ap₂ (λ k ks. k ∷ ks) (score-key (normalize required c b) ∙ normalize-key F required c b)
            (keys-normalize_all rest normalized)
  ]

  module _ (unique : is_unique (map assessment_key assessment.assessments) ≡ true)
      {selection : ModelSelection F.Num}
      (built : Built F candidates assessment weights required_ids selection) where
    abbrev scores : List (ModelScore F.Num)
    scores = score_all F weights built.normalized

    matrix-mem : {s : ModelScore F.Num} → Memᴰ s scores → Memᴰ s selection.score_matrix
    matrix-mem {s} m =
        subst (λ l. Memᴰ s l) built.concluded.matrix (sort_by-mem (ranks_before F) scores m)

    mem-matrix : {s : ModelScore F.Num} → Memᴰ s selection.score_matrix → Memᴰ s scores
    mem-matrix {s} m =
        mem-sort_by (ranks_before F) scores (subst (λ l. Memᴰ s l) (sym built.concluded.matrix) m)

    -- The score of an eligible one is found, and is eligible.
    eligible-found :
        (s : ModelScore F.Num) (id : String)
        → Memᴰ s (keep is_eligible (sort_by (ranks_before F) scores))
        → s.candidate_id ≡ id
        → eligible_score (Dict.lookup id (Dict.index_by score_key selection.score_matrix)) ≡ true
    eligible-found s id m named =
        let (kept, good) = mem-keep is_eligible (sort_by (ranks_before F) scores) m in
        let there = subst (λ l. Memᴰ s l) built.concluded.matrix kept in
        let apart =
          λ (y z : ModelScore F.Num) (n : Memᴰ y selection.score_matrix)
              (k : Memᴰ z selection.score_matrix) (p : y.candidate_id ≡ z.candidate_id).
            scores_apart unique y z (score-Traced built.normalized y built.are (mem-matrix n))
              (score-Traced built.normalized z built.are (mem-matrix k)) p in
        ap eligible_score (
          subst (λ k. Dict.lookup k (Dict.index_by score_key selection.score_matrix) ≡ some s) named
            (lookup_unique score_key selection.score_matrix apart there))
        ∙ good

    matrix-keys :
        (k : String)
        → contains k (map score_key selection.score_matrix) ≡ true
        → contains k (map assessment_key assessment.assessments) ≡ true
    matrix-keys k h =
        let (s, m, p) = contains-mem_key score_key k selection.score_matrix h in
        subst (λ j. contains j (map assessment_key assessment.assessments) ≡ true) p
          (subst (λ l. contains s.candidate_id l ≡ true)
            (keys-normalize_all assessment.assessments built.are)
            (mem-contains_key score_key scores (mem-matrix m)))

    keys-matrix :
        (k : String)
        → contains k (map assessment_key assessment.assessments) ≡ true
        → contains k (map score_key selection.score_matrix) ≡ true
    keys-matrix k h =
        let (s, m, p) = contains-mem_key score_key k scores (
          subst (λ l. contains k l ≡ true)
            (sym (keys-normalize_all assessment.assessments built.are)) h) in
        subst (λ j. contains j (map score_key selection.score_matrix) ≡ true) p
          (mem-contains_key score_key selection.score_matrix (matrix-mem m))

    all_scored :
        (is_subset (Dict.keys (Dict.index_by score_key selection.score_matrix)) (Dict.keys by_id)
          && is_subset
              (Dict.keys by_id)
              (Dict.keys (Dict.index_by score_key selection.score_matrix)))
        ≡ true
    all_scored =
        let (known, assessed) = &&-eq-true _ _ built.agree in
        let left =
          keys-subset score_key candidate_key selection.score_matrix candidates
            (λ k h. subset-at _ _ k assessed (matrix-keys k h)) in
        let right =
          keys-subset candidate_key score_key candidates selection.score_matrix
            (λ k h. keys-matrix k (subset-at _ _ k known h)) in
        ground (arith, left, right)

  indexed-contains :
      (id : String) {c : ModelCandidate}
      → Dict.lookup id by_id ≡ some c
      → contains id (Dict.keys by_id) ≡ true
  indexed-contains id found = sym (Dict.lookup-keys id by_id) ∙ ap is_some found

  -- A selection that `build_model_selection` returns, for assessments with pairwise different identifiers, passes
  -- `select_quality_gate` with the same candidates and the same required subproblems.
  pub select_quality_gate-passes :
      {selection : ModelSelection F.Num}
      → is_unique (map assessment_key assessment.assessments) ≡ true
      → build_model_selection F candidates assessment weights required_ids ≡ ok selection
      → (select_quality_gate selection candidates required).status ≡ QualityGateStatus.pass
  unfolding select_quality_gate select_checks
  select_quality_gate-passes {selection} unique h =
      let built = build_model_selection-Built F candidates assessment weights required_ids h in
      let done = built.concluded in
      let (first, second, differ) =
        build_model_selection-IsFit F candidates assessment weights required_ids h in
      let c1 = indexed-contains selection.selected_model_id first.indexed in
      let c2 = indexed-contains selection.backup_model_id second.indexed in
      let c3 : (selection.selected_model_id == selection.backup_model_id) ≡ false =
        not_equal selection.selected_model_id selection.backup_model_id differ in
      let c4 =
        eligible-found unique built done.primary selection.selected_model_id
          (subst (λ l. Memᴰ done.primary l) (sym done.eligible_are) (Memᴰ.head refl))
          done.selected in
      let c5 =
        eligible-found unique built done.backup selection.backup_model_id
          (subst (λ l. Memᴰ done.backup l) (sym done.eligible_are) (Memᴰ.tail (Memᴰ.head refl)))
          done.second in
      let c6 = ap (covers_all required) first.indexed ∙ first.covers in
      let c7 = ap (covers_all required) second.indexed ∙ second.covers in
      (status_of_iff _).1 (
        failed_checks-is_empty (select_checks selection candidates required)
        ∙ both c1 (
            both c2 (
              both (ap not c3)
                (both c4 (both c5 (both c6 (both c7 (both (all_scored unique built) refl))))))))
