-- ===== src/Selection/Scoring/Order.antt =====
-- The order of the scores in `build_model_selection` of src/mathmodel_ai/reasoning/scoring.py.
use math_model_ai.Base.{
  ◌≡◌, refl, String, Bool, true, false, not, ◌&&◌, List, ◌∷◌, Memᴰ, if◌then◌else◌, arith,
  Bool-cases, inl, inr,
}
use math_model_ai.Base.Sort.{text_leb, sort_by, sort_by-least}
use math_model_ai.Selection.Types.{ScoreFloats, IsOrder, ModelScore}
use math_model_ai.Selection.Scoring.{ranks_before}

text_leb_total : (s t : String) → text_leb s t ≡ false → text_leb t s ≡ true
text_leb_total String.[] t h = cc
text_leb_total (String.◌∷◌ c s) String.[] h = refl
text_leb_total (String.◌∷◌ c s) (String.◌∷◌ d t) h = ground (arith, text_leb_total s t)

text_leb_trans : (s t u : String) → text_leb s t ≡ true → text_leb t u ≡ true → text_leb s u ≡ true
text_leb_trans String.[] t u h k = refl
text_leb_trans (String.◌∷◌ c s) String.[] u h k = cc
text_leb_trans (String.◌∷◌ c s) (String.◌∷◌ d t) String.[] h k = cc
text_leb_trans (String.◌∷◌ c s) (String.◌∷◌ d t) (String.◌∷◌ e u) h k =
    ground (arith, text_leb_trans s t u)

-- The comparison by totals, where `ab` says that the first is lower, and `ba` that it is higher.
abbrev by_total : Bool → Bool → Bool → Bool
by_total ab ba next = if ba then true else if ab then false else next

abbrev by_eligible : Bool → Bool → Bool → Bool
by_eligible a b next = if a && not b then true else if b && not a then false else next

by_eligible_trans :
    (a b c ab bc ac : Bool)
    → (ab ≡ true → bc ≡ true → ac ≡ true)
    → by_eligible a b ab ≡ true
    → by_eligible b c bc ≡ true
    → by_eligible a c ac ≡ true
by_eligible_trans a b c ab bc ac next h k = elim (Bool-cases ac) [
  | inl yes_ac ↦ ground arith
  | inr no_ac ↦ ground (arith, next)
]

module _ (F : ScoreFloats) (order : IsOrder F) where
  by_total_trans :
      (a b c : F.Num) (ab bc ac : Bool)
      → (ab ≡ true → bc ≡ true → ac ≡ true)
      → by_total (F.before a b) (F.before b a) ab ≡ true
      → by_total (F.before b c) (F.before c b) bc ≡ true
      → by_total (F.before a c) (F.before c a) ac ≡ true
  by_total_trans a b c ab bc ac next h k = ground (
    arith,
    next,
    order.trans b c a,
    order.trans c a b,
    order.trans c b a,
    order.trans a b c,
    order.asym b a,
    order.asym c b,
  )

  ranks_before_total :
      (a b : ModelScore F.Num) → ranks_before F a b ≡ false → ranks_before F b a ≡ true
  unfolding ranks_before
  ranks_before_total a b h = ground (arith, text_leb_total a.candidate_id b.candidate_id)

  ranks_before_trans :
      (a b c : ModelScore F.Num)
      → ranks_before F a b ≡ true
      → ranks_before F b c ≡ true
      → ranks_before F a c ≡ true
  unfolding ranks_before
  ranks_before_trans a b c h k =
      by_eligible_trans a.eligible b.eligible c.eligible _ _ _
        (by_total_trans a.weighted_total b.weighted_total c.weighted_total _ _ _
          (text_leb_trans a.candidate_id b.candidate_id c.candidate_id))
        h k

  ranks_before-highest :
      (a b : ModelScore F.Num)
      → ranks_before F a b ≡ true
      → b.eligible ≡ true
      → (a.eligible ≡ true) × (F.before a.weighted_total b.weighted_total ≡ false)
  unfolding ranks_before
  ranks_before-highest a b h eligible =
      (ground arith, ground (arith, order.asym b.weighted_total a.weighted_total))

  -- The first of the sorted scores, against an eligible one.
  pub sort_by-highest :
      (scores : List (ModelScore F.Num)) {s : ModelScore F.Num} {ss : List (ModelScore F.Num)}
      {t : ModelScore F.Num}
      → sort_by (ranks_before F) scores ≡ s ∷ ss
      → Memᴰ t scores
      → t.eligible ≡ true
      → (s.eligible ≡ true) × (F.before s.weighted_total t.weighted_total ≡ false)
  sort_by-highest scores {s} {t = t} h m eligible =
      ranks_before-highest s t
        (sort_by-least (ranks_before F) ranks_before_total ranks_before_trans scores h m) eligible
