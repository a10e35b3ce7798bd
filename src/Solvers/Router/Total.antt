-- ===== src/Solvers/Router/Total.antt =====
-- When `route` of src/mathmodel_ai/solvers/router.py returns, and what it records of each preferred family.
use math_model_ai.Base.{
  ℕ, ◌+◌, ◌≡◌, refl, sym, ◌∙◌, subst, ◌⊎◌, inl, inr, some, List, [], ◌∷◌, Memᴰ, length,
  Option-cases, Raise, ok, >>=-of_ok,
}
use math_model_ai.Base.Sort.{sort_by, mem-sort_by, sort_by-mem}
use math_model_ai.Base.Dict
use math_model_ai.Base.Dict.{Dict}
use math_model_ai.Model.{MathematicalModel}
use math_model_ai.Solvers.Types.{
  SolverName, SolverFamily, family_eq, SolverCapability, SolverOptions, AlgorithmPlan,
  ProblemSizeThresholds, RejectionReason, SolverHardRejection, SolverScore, RouterError, BaseSolver,
  RoutedSolver,
}
use math_model_ai.Solvers.Policy.{preference, required_capabilities}
use math_model_ai.Solvers.Router.{
  Assessment, rejected, passed, assess_family, add_assessment, filter_families, ranks_before,
  decide, select, route,
}
use math_model_ai.Solvers.Router.Found.{
  Findings, Accounted, filter_families-Scored, filter_families-Accounted,
}
use math_model_ai.Solvers.Router.Choice.{steps, select-Selected}

module _ {A : Type 0} (by_family : Dict SolverFamily (BaseSolver A))
    (thresholds : ProblemSizeThresholds) (caps : Dict ℕ ℕ) (m : MathematicalModel A) where
  -- A hard filter gives an answer on a family.
  abbrev pub IsAssessed : List SolverCapability → SolverFamily → Type 0
  IsAssessed required f =
      (a : Assessment) × (assess_family by_family thresholds caps m required f ≡ ok a)

  filter_families-returns :
      (options : SolverOptions) (required : List SolverCapability) (total index : ℕ)
      (fs : List SolverFamily)
      → ((f : SolverFamily) → Memᴰ f fs → IsAssessed required f)
      → (found : Findings by_family thresholds caps m options required) × (filter_families by_family
            thresholds caps m options required total index fs
          ≡ ok found)
  unfolding filter_families
  filter_families-returns options required total index [] assessed = (([], []), refl)
  filter_families-returns options required total index (f ∷ fs) assessed =
      let (a, p) = assessed f (Memᴰ.head refl) in
      let (rest, q) =
        filter_families-returns options required total (index + 1) fs
          (λ g n. assessed g (Memᴰ.tail n)) in
      (
        add_assessment by_family thresholds caps m options total index f a rest,
        >>=-of_ok _ p ∙ >>=-of_ok _ q,
      )

  -- A family that passes has an adapter.
  passed-registered :
      (required : List SolverCapability) (f : SolverFamily) {n : SolverName}
      → assess_family by_family thresholds caps m required f ≡ ok (passed n)
      → (solver : BaseSolver A) × (Dict.lookup f by_family ≡ some solver)
  unfolding assess_family
  passed-registered required f {n} h = elim (Option-cases (Dict.lookup f by_family)) [
    | inl free ↦ absurd (not_passed (rw (free, assess_family) at h))
    | inr found ↦ found
  ]
    where
      not_passed :
          ◌≡◌ {A = Raise RouterError Assessment}
            (ok (rejected RejectionReason.not_registered))
            (ok (passed n))
          → ⊥
      not_passed g = cc

  select-returns :
      (options : SolverOptions) (families : List SolverFamily)
      (rejections : List SolverHardRejection) (s : SolverScore) (ss : List SolverScore)
      {solver : BaseSolver A}
      → Dict.lookup s.family by_family ≡ some solver
      → (r : RoutedSolver A) × (select by_family thresholds caps m options families rejections
            (s ∷ ss)
          ≡ ok r)
  unfolding select
  select-returns options families rejections s ss {solver} there = (
    decide by_family thresholds caps m options families rejections s ss solver,
    rw (there, select) refl,
  )

  -- If the preferred families and the required capabilities are read, the hard filters answer on each preferred
  -- family, and one of these families passes them, then `route` returns a solver.
  pub route-returns :
      (plan : AlgorithmPlan) (options : SolverOptions) (families : List SolverFamily)
      (required : List SolverCapability) (f : SolverFamily) (n : SolverName)
      → preference m.solver_requirements plan ≡ ok families
      → required_capabilities m.model_family m.solver_requirements ≡ ok required
      → ((g : SolverFamily) → Memᴰ g families → IsAssessed required g)
      → Memᴰ f families
      → assess_family by_family thresholds caps m required f ≡ ok (passed n)
      → (r : RoutedSolver A) × (route by_family thresholds caps m plan options ≡ ok r)
  unfolding route
  route-returns plan options families required f n p q assessed among passes =
      let (found, w) =
        filter_families-returns options required (length families) 0 families assessed in
      let (r, s) = chosen found w (sort_by (ranks_before families) found.0) refl in
      (r, >>=-of_ok _ p ∙ >>=-of_ok _ q ∙ >>=-of_ok _ w ∙ s)
    where
      one_passed :
          (found : Findings by_family thresholds caps m options required)
          → sort_by (ranks_before families) found.0 ≡ []
          → Accounted by_family thresholds caps m options required found f
          → ⊥
      one_passed found is (inl has) =
          elim (subst (λ l. Memᴰ has.score l) is
            (sort_by-mem (ranks_before families) found.0 has.scored)) [ ]
      one_passed found is (inr out) = both (sym passes ∙ out.fails)
        where
          both :
              {r : RejectionReason}
              → ◌≡◌ {A = Raise RouterError Assessment} (ok (passed n)) (ok (rejected r))
              → ⊥
          both g = cc

      chosen :
          (found : Findings by_family thresholds caps m options required)
          → filter_families by_family thresholds caps m options required
              (length families)
              0
              families
            ≡ ok found
          → (sorted : List SolverScore) → sort_by (ranks_before families) found.0 ≡ sorted
          → (r : RoutedSolver A) × (select by_family thresholds caps m options families found.1
                sorted
              ≡ ok r)
      chosen found w [] is = absurd (
          one_passed found is (
            filter_families-Accounted by_family thresholds caps m options required (length families)
              0 families w among))
      chosen found w (s ∷ ss) is =
          let member =
            mem-sort_by (ranks_before families) found.0
              (subst (λ l. Memᴰ s l) (sym is) (Memᴰ.head refl)) in
          let scored =
            filter_families-Scored by_family thresholds caps m options required (length families) 0
              families w member in
          select-returns options families found.1 s ss
            (passed-registered required s.family scored.passes).1

  -- If `route` returns, then each preferred family has a score in the decision or a rejection.
  pub route-accounted :
      (plan : AlgorithmPlan) (options : SolverOptions) {r : RoutedSolver A} (f : SolverFamily)
      → route by_family thresholds caps m plan options ≡ ok r
      → Memᴰ f r.decision.attempted_families
      → ((s : SolverScore) × Memᴰ s r.decision.scores × (s.family ≡ f))
        ⊎ ((reason : RejectionReason) × Memᴰ
              (record { family = f; reason = reason })
              r.decision.hard_rejections)
  route-accounted plan options {r} f h among =
      let st = steps by_family thresholds caps m plan options h in
      let se =
        select-Selected by_family thresholds caps m options st.families st.found.1 _ st.selects in
      let member = subst (λ l. Memᴰ f l) se.attempted among in
      elim (filter_families-Accounted by_family thresholds caps m options st.required
        (length st.families) 0 st.families st.filtered member) [
          | inl has ↦ inl (
            has.score,
            subst (λ l. Memᴰ has.score l) (sym se.all_scores)
                (sort_by-mem (ranks_before st.families) st.found.0 has.scored),
            has.of_family,
          )
          | inr out ↦ inr (
            out.reason,
            subst (λ l. Memᴰ (record { family = f; reason = out.reason }) l) (sym se.all_rejections)
                out.recorded,
          )
        ]
