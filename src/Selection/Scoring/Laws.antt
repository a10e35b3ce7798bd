-- ===== src/Selection/Scoring/Laws.antt =====
-- What a selection of `build_model_selection` of src/mathmodel_ai/reasoning/scoring.py stands on.
use math_model_ai.Base.{
  ◌≡◌, ◌≢◌, refl, sym, ap, subst, ◌∙◌, String, Bool, true, false, not, ◌&&◌, Option, some, List, [],
  ◌∷◌, ◌++◌, map, Memᴰ, keep, mem-keep, contains, is_subset, is_empty, ◌==◌, string_eq,
  if◌then◌else◌, ok, raise_if, raise_if-eq-ok, >>=-eq-ok, ok-injective, Option-cases, inl, inr,
  arith,
}
use math_model_ai.Base.Dict
use math_model_ai.Base.Dict.{Dict}
use math_model_ai.Base.Sort.{sort_by, mem-sort_by}
use math_model_ai.Selection.Types.{
  ScoreFloats, IsOrder, HardFailure, HardFailure-discrete, failure_eq, data_not_available,
  violates_problem_requirement, ModelCandidate, CandidateJuryAssessment, JuryAssessment,
  ModelJuryWeights, ModelScore, ModelSelection, coverage_mismatch, same_model,
}
use math_model_ai.Selection.Scoring.{
  has_missing_required_data, covers_required_subproblems, candidate_key, required_of,
  sorted_difference, append_failure, assessment_key, normalize, normalize_all, is_eligible,
  conclude, calculate_score, ranks_before, score_all, build_model_selection,
}
use math_model_ai.Selection.Scoring.Order.{sort_by-highest}

append_failure-is_empty :
    (test : Bool) (failure : HardFailure) (failures : List HardFailure)
    → is_empty (append_failure test failure failures) ≡ true
    → (test ≡ false) × (failures ≡ [])
unfolding HardFailure-discrete
append_failure-is_empty true failure [] h = cc
append_failure-is_empty false failure [] h = (refl, refl)
append_failure-is_empty test failure (f ∷ fs) h =
    absurd (under (test && not (contains failure (f ∷ fs))) h)
  where
    under : (b : Bool) → is_empty (if b then (f ∷ fs) ++ failure ∷ [] else f ∷ fs) ≡ true → ⊥
    under true g = cc
    under false g = cc

module _ {A : Type 0} where
  -- What makes a model fit to be selected, apart from its rank.
  pub record IsFit (candidates : List ModelCandidate) (assessment : JuryAssessment A)
      (required : List String) (id : String) : Type 0 where
    pub candidate : ModelCandidate
    pub listed : Memᴰ candidate candidates
    pub named : candidate.candidate_id ≡ id
    pub indexed : Dict.lookup id (Dict.index_by candidate_key candidates) ≡ some candidate
    pub has_data : has_missing_required_data candidate ≡ false
    pub covers : covers_required_subproblems candidate required ≡ true
    pub judged : CandidateJuryAssessment A
    pub given : Memᴰ judged assessment.assessments
    pub about : judged.candidate_id ≡ id
    pub no_failure : judged.hard_failures ≡ []

  normalize-eligible :
      (required : List String) (c : ModelCandidate) (a : CandidateJuryAssessment A)
      → is_empty (normalize required c a).hard_failures ≡ true
      → (has_missing_required_data c ≡ false)
        × (covers_required_subproblems c required ≡ true)
        × (a.hard_failures ≡ [])
  unfolding normalize
  normalize-eligible required c a h =
      let (covered, first) =
        append_failure-is_empty (not (covers_required_subproblems c required))
          violates_problem_requirement _ h in
      let (there, nothing) =
        append_failure-is_empty (has_missing_required_data c) data_not_available a.hard_failures
          (ap is_empty first) in
      (there, ground arith, nothing)

  -- Where a normalized assessment comes from.
  abbrev pub Origin :
      List String
      → Dict String ModelCandidate
      → List (CandidateJuryAssessment A)
      → CandidateJuryAssessment A
      → Type 0
  Origin required candidates assessments a =
      (c : ModelCandidate) × (b : CandidateJuryAssessment A) × Memᴰ b assessments
      × (Dict.lookup b.candidate_id candidates ≡ some c)
      × (a ≡ normalize required c b)

  pub mem-normalize_all :
      (required : List String) (candidates : Dict String ModelCandidate)
      (assessments : List (CandidateJuryAssessment A)) {done : List (CandidateJuryAssessment A)}
      {a : CandidateJuryAssessment A}
      → normalize_all required candidates assessments ≡ ok done
      → Memᴰ a done
      → Origin required candidates assessments a
  unfolding normalize_all
  mem-normalize_all required candidates [] {a = a} h m =
      elim (subst (λ l. Memᴰ a l) (sym (ok-injective h)) m) [ ]
  mem-normalize_all required candidates (b ∷ rest) {a = a} h m =
      elim (Option-cases (Dict.lookup b.candidate_id candidates)) [
        | inl unknown ↦ cc (rw (unknown, normalize_all) at h)
        | inr (c, found) ↦
            let (others, normalized, made) =
              >>=-eq-ok (normalize_all required candidates rest) _
                (rw (found, normalize_all) at h) in
            at_head c found (λ n. mem-normalize_all required candidates rest normalized n)
              (subst (λ l. Memᴰ a l) (sym (ok-injective made)) m)
      ]
    where
      at_head :
          {others : List (CandidateJuryAssessment A)} (c : ModelCandidate)
          → Dict.lookup b.candidate_id candidates ≡ some c
          → (Memᴰ a others → Origin required candidates rest a)
          → Memᴰ a (normalize required c b ∷ others)
          → Origin required candidates (b ∷ rest) a
      at_head c found ih (Memᴰ.head e) = (c, b, Memᴰ.head refl, found, e)
      at_head c found ih (Memᴰ.tail n) = let (d, k, m, l, e) = ih n in (d, k, Memᴰ.tail m, l, e)

  -- A selection that is concluded.
  pub record Concluded (scores eligible : List (ModelScore A)) (selection : ModelSelection A)
      : Type 0 where
    pub primary : ModelScore A
    pub backup : ModelScore A
    pub rest : List (ModelScore A)
    pub eligible_are : eligible ≡ primary ∷ backup ∷ rest
    pub selected : primary.candidate_id ≡ selection.selected_model_id
    pub second : backup.candidate_id ≡ selection.backup_model_id
    pub matrix : scores ≡ selection.score_matrix
    pub differ : (primary.candidate_id == backup.candidate_id) ≡ false

  conclude-eq-ok :
      (assessment : JuryAssessment A) (weights : ModelJuryWeights A)
      (scores eligible : List (ModelScore A)) {selection : ModelSelection A}
      → conclude assessment weights scores eligible ≡ ok selection
      → Concluded scores eligible selection
  unfolding conclude
  conclude-eq-ok assessment weights scores [] h = cc
  conclude-eq-ok assessment weights scores (p ∷ []) h = cc
  conclude-eq-ok assessment weights scores (p ∷ b ∷ rest) h =
      let (u, differ, made) =
        >>=-eq-ok (raise_if (p.candidate_id == b.candidate_id) same_model) _ h in
      let same = ok-injective made in
      record {
        primary = p;
        backup = b;
        rest = rest;
        eligible_are = refl;
        selected = ap (λ (s : ModelSelection A). s.selected_model_id) same;
        second = ap (λ (s : ModelSelection A). s.backup_model_id) same;
        matrix = ap (λ (s : ModelSelection A). s.score_matrix) same;
        differ = raise_if-eq-ok _ same_model differ;
      }

module _ (F : ScoreFloats) where
  pub mem-score_all :
      (weights : ModelJuryWeights F.Num) (assessments : List (CandidateJuryAssessment F.Num))
      {s : ModelScore F.Num}
      → Memᴰ s (score_all F weights assessments)
      → (a : CandidateJuryAssessment F.Num) × Memᴰ a assessments × (s ≡ calculate_score F a weights)
  mem-score_all weights [] m = elim m [ ]
  mem-score_all weights (a ∷ rest) (Memᴰ.head e) = (a, Memᴰ.head refl, e)
  mem-score_all weights (a ∷ rest) (Memᴰ.tail m) =
      let (b, n, e) = mem-score_all weights rest m in (b, Memᴰ.tail n, e)

  pub eligible-is_empty :
      (a : CandidateJuryAssessment F.Num) (weights : ModelJuryWeights F.Num) (s : ModelScore F.Num)
      → s ≡ calculate_score F a weights
      → s.eligible ≡ true
      → (is_empty a.hard_failures ≡ true) × (a.candidate_id ≡ s.candidate_id)
  unfolding calculate_score
  eligible-is_empty a weights s e h = (
    ap (λ (t : ModelScore F.Num). t.eligible) (sym e) ∙ h,
    ap (λ (t : ModelScore F.Num). t.candidate_id) (sym e),
  )

  pub normalize-key :
      (required : List String) (c : ModelCandidate) (a : CandidateJuryAssessment F.Num)
      → (normalize required c a).candidate_id ≡ a.candidate_id
  unfolding normalize
  normalize-key required c a = refl

  module _ (candidates : List ModelCandidate) (assessment : JuryAssessment F.Num)
      (weights : ModelJuryWeights F.Num) (required_ids : Option (List String)) where
    abbrev required : List String
    required = required_of candidates required_ids

    abbrev known : List String
    known = map candidate_key candidates

    abbrev assessed : List String
    assessed = map assessment_key assessment.assessments

    abbrev mismatch : Bool
    mismatch = not (is_subset known assessed && is_subset assessed known)

    -- A selection with the normalized assessments that it was made from.
    pub record Built (selection : ModelSelection F.Num) : Type 0 where
      pub agree : (is_subset known assessed && is_subset assessed known) ≡ true
      pub normalized : List (CandidateJuryAssessment F.Num)
      pub are :
          normalize_all required (Dict.index_by candidate_key candidates) assessment.assessments
          ≡ ok normalized
      pub concluded :
          Concluded
            (sort_by (ranks_before F) (score_all F weights normalized))
            (keep is_eligible (sort_by (ranks_before F) (score_all F weights normalized)))
            selection

    pub build_model_selection-Built :
        {selection : ModelSelection F.Num}
        → build_model_selection F candidates assessment weights required_ids ≡ ok selection
        → Built selection
    unfolding build_model_selection
    build_model_selection-Built h =
        let (u, agree, rest) =
          >>=-eq-ok
            (raise_if mismatch (
              coverage_mismatch (sorted_difference known assessed)
                (sorted_difference assessed known)))
            _ h in
        let (normalized, are, made) =
          >>=-eq-ok
            (normalize_all required (Dict.index_by candidate_key candidates) assessment.assessments)
            _ rest in
        record {
          agree = let no : mismatch ≡ false = raise_if-eq-ok mismatch _ agree in ground arith;
          normalized = normalized;
          are = are;
          concluded = conclude-eq-ok assessment weights _ _ made;
        }

    score-IsFit :
        (normalized : List (CandidateJuryAssessment F.Num)) (s : ModelScore F.Num)
        → normalize_all required (Dict.index_by candidate_key candidates) assessment.assessments
          ≡ ok normalized
        → Memᴰ s (keep is_eligible (sort_by (ranks_before F) (score_all F weights normalized)))
        → IsFit candidates assessment required s.candidate_id
    score-IsFit normalized s are m =
        let (kept, eligible) =
          mem-keep is_eligible (sort_by (ranks_before F) (score_all F weights normalized)) m in
        let (a, n, scored) =
          mem-score_all weights normalized
            (mem-sort_by (ranks_before F) (score_all F weights normalized) kept) in
        let (c, b, given, found, made) =
          mem-normalize_all required (Dict.index_by candidate_key candidates) assessment.assessments
            are n in
        let (clean, named) = eligible-is_empty a weights s scored eligible in
        let (there, covered, nothing) = normalize-eligible required c b (
          subst (λ (k : CandidateJuryAssessment F.Num). is_empty k.hard_failures ≡ true) made
            clean) in
        let (listed, key) = Dict.lookup-index_by candidate_key candidates b.candidate_id found in
        let about : b.candidate_id ≡ s.candidate_id =
          sym (normalize-key required c b)
          ∙ ap (λ (k : CandidateJuryAssessment F.Num). k.candidate_id) (sym made)
          ∙ named in
        record {
          candidate = c;
          listed = listed;
          named = key ∙ about;
          indexed =
              subst (λ k. Dict.lookup k (Dict.index_by candidate_key candidates) ≡ some c) about
                found;
          has_data = there;
          covers = covered;
          judged = b;
          given = given;
          about = about;
          no_failure = nothing;
        }

    -- If `build_model_selection` returns a selection, then the selected model and its backup have different
    -- identifiers, and each is that of a candidate which lacks no required data and covers every required
    -- subproblem, and of an assessment of the jury without a hard failure.
    pub build_model_selection-IsFit :
        {selection : ModelSelection F.Num}
        → build_model_selection F candidates assessment weights required_ids ≡ ok selection
        → IsFit candidates assessment required selection.selected_model_id
          × IsFit candidates assessment required selection.backup_model_id
          × (selection.selected_model_id ≢ selection.backup_model_id)
    build_model_selection-IsFit h =
        let built = build_model_selection-Built h in
        let done = built.concluded in
        let fit = λ (s : ModelScore F.Num). score-IsFit built.normalized s built.are in
        (
          subst (IsFit candidates assessment required) done.selected (
              fit done.primary
                (subst (λ l. Memᴰ done.primary l) (sym done.eligible_are) (Memᴰ.head refl))),
          subst (IsFit candidates assessment required) done.second (
              fit done.backup (
                subst (λ l. Memᴰ done.backup l) (sym done.eligible_are)
                  (Memᴰ.tail (Memᴰ.head refl)))),
          λ same. cc (
              sym done.differ
              ∙ (string_eq.equal_iff done.primary.candidate_id done.backup.candidate_id).1
                  (done.selected ∙ same ∙ sym done.second)),
        )

    head-is :
        (scores : List (ModelScore F.Num)) {s p : ModelScore F.Num}
        {ss ps : List (ModelScore F.Num)}
        → scores ≡ s ∷ ss
        → s.eligible ≡ true
        → keep is_eligible scores ≡ p ∷ ps
        → s ≡ p
    head-is scores {s} {p} {ss} {ps} e eligible k =
        heads (under s.eligible eligible) (sym (ap (keep is_eligible) e) ∙ k)
      where
        under :
            (b : Bool)
            → b ≡ true
            → (if b then s ∷ keep is_eligible ss else keep is_eligible ss) ≡ s ∷ keep is_eligible ss
        under b h = ap (λ t. if t then s ∷ keep is_eligible ss else keep is_eligible ss) h

        heads : {l : List (ModelScore F.Num)} → l ≡ s ∷ keep is_eligible ss → l ≡ p ∷ ps → s ≡ p
        heads g j = first (sym g ∙ j)
          where
            first : s ∷ keep is_eligible ss ≡ p ∷ ps → s ≡ p
            first q = cc

    highest :
        (order : IsOrder F) (scores sorted : List (ModelScore F.Num)) {p t : ModelScore F.Num}
        {ps : List (ModelScore F.Num)}
        → sort_by (ranks_before F) scores ≡ sorted
        → Memᴰ p sorted
        → p.eligible ≡ true
        → keep is_eligible sorted ≡ p ∷ ps
        → Memᴰ t scores
        → t.eligible ≡ true
        → F.before p.weighted_total t.weighted_total ≡ false
    highest order scores [] e m eligible k n good = elim m [ ]
    highest order scores (s ∷ ss) {p} {t} e m eligible k n good =
        let first : s.eligible ≡ true =
          (sort_by-highest F order scores e
            (mem-sort_by (ranks_before F) scores (subst (λ l. Memᴰ p l) (sym e) m)) eligible).0 in
        subst (λ (r : ModelScore F.Num). F.before r.weighted_total t.weighted_total ≡ false)
          (head-is (s ∷ ss) refl first k) (sort_by-highest F order scores e n good).1

    -- If `build_model_selection` returns a selection, then its score matrix has an eligible score of the selected
    -- model whose weighted total is not lower than that of any eligible score of the matrix, for floats whose
    -- order has the laws of the numbers.
    pub build_model_selection-best :
        (order : IsOrder F) {selection : ModelSelection F.Num}
        → build_model_selection F candidates assessment weights required_ids ≡ ok selection
        → (s : ModelScore F.Num) × Memᴰ s selection.score_matrix
          × (s.candidate_id ≡ selection.selected_model_id)
          × (s.eligible ≡ true)
          × ((t : ModelScore F.Num)
              → Memᴰ t selection.score_matrix
              → t.eligible ≡ true
              → F.before s.weighted_total t.weighted_total ≡ false)
    build_model_selection-best order {selection = selection} h =
        let built = build_model_selection-Built h in
        let done = built.concluded in
        let scores = score_all F weights built.normalized in
        let (kept, eligible) =
          mem-keep is_eligible (sort_by (ranks_before F) scores) {a = done.primary}
            (subst (λ l. Memᴰ done.primary l) (sym done.eligible_are) (Memᴰ.head refl)) in
        (
          done.primary,
          subst (λ l. Memᴰ done.primary l) done.matrix kept,
          done.selected,
          eligible,
          λ t m e.
              highest order scores (sort_by (ranks_before F) scores) refl kept eligible
                done.eligible_are
                (mem-sort_by (ranks_before F) scores (subst (λ l. Memᴰ t l) (sym done.matrix) m)) e,
        )
