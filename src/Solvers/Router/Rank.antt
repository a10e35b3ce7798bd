-- ===== src/Solvers/Router/Rank.antt =====
-- The order of the scores in `route` of src/mathmodel_ai/solvers/router.py.
use math_model_ai.Base.{
  ℕ, ◌≡◌, Bool, true, false, List, ◌∷◌, Memᴰ, if◌then◌else◌, arith, Bool-cases, inl, inr,
}
use math_model_ai.Base.Int.{ℤ}
use math_model_ai.Base.Sort.{sort_by, sort_by-least}
use math_model_ai.Solvers.Types.{SolverFamily, SolverScore}
use math_model_ai.Solvers.Policy.{alphabetical, index_of_family}
use math_model_ai.Solvers.Router.{int_leb, int_ltb, stands_before, ranks_before}

stands_before_trans :
    (i j k x y z : ℕ)
    → stands_before i j x y ≡ true
    → stands_before j k y z ≡ true
    → stands_before i k x z ≡ true
stands_before_trans i j k x y z h g = ground arith

-- The comparison by scores, with what decides between equal ones.
abbrev by_score : ℤ → ℤ → Bool → Bool
by_score s t next = if int_ltb t s then true else if int_ltb s t then false else next

by_score_trans :
    (s t u : ℤ) (st tu su : Bool)
    → (st ≡ true → tu ≡ true → su ≡ true)
    → by_score s t st ≡ true
    → by_score t u tu ≡ true
    → by_score s u su ≡ true
by_score_trans s t u st tu su next h k = elim (Bool-cases su) [
  | inl yes_su ↦ ground arith
  | inr no_su ↦ ground (arith, next)
]

module _ (families : List SolverFamily) where
  ranks_before_total :
      (a b : SolverScore) → ranks_before families a b ≡ false → ranks_before families b a ≡ true
  unfolding ranks_before
  ranks_before_total a b h = ground arith

  ranks_before_trans :
      (a b c : SolverScore)
      → ranks_before families a b ≡ true
      → ranks_before families b c ≡ true
      → ranks_before families a c ≡ true
  unfolding ranks_before
  ranks_before_trans a b c h k =
      by_score_trans a.score b.score c.score _ _ _
        (stands_before_trans (index_of_family a.family families) (index_of_family b.family families)
          (index_of_family c.family families) (alphabetical a.family) (alphabetical b.family)
          (alphabetical c.family))
        h k

  ranks_before-score :
      (a b : SolverScore) → ranks_before families a b ≡ true → int_leb b.score a.score ≡ true
  unfolding ranks_before
  ranks_before-score a b h = ground arith

  -- The first of the sorted scores is at least each score.
  pub sort_by-highest :
      (scores : List SolverScore) {s : SolverScore} {ss : List SolverScore} {t : SolverScore}
      → sort_by (ranks_before families) scores ≡ s ∷ ss
      → Memᴰ t scores
      → int_leb t.score s.score ≡ true
  sort_by-highest scores {s} {t = t} h m =
      ranks_before-score s t
        (sort_by-least (ranks_before families) ranks_before_total ranks_before_trans scores h m)
