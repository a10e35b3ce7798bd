-- ===== src/Solvers/Router/Choice.antt =====
-- What `route` of src/mathmodel_ai/solvers/router.py chooses.
use math_model_ai.Base.{
  ℕ, ◌≡◌, refl, sym, ap, true, ◌∙◌, subst, inl, inr, some, List, [], ◌∷◌, Memᴰ, length,
  Option-cases, Raise, ok, raise, >>=-eq-ok, ok-injective,
}
use math_model_ai.Base.Sort.{sort_by, mem-sort_by}
use math_model_ai.Base.Dict
use math_model_ai.Base.Dict.{Dict}
use math_model_ai.Model.{MathematicalModel}
use math_model_ai.Solvers.Types.{
  SolverName, SolverFamily, family_eq, SolverCapability, SolverOptions, AlgorithmPlan,
  ProblemSizeThresholds, SolverHardRejection, SolverScore, RouterError, BaseSolver, RoutedSolver,
}
use math_model_ai.Solvers.Policy.{preference, required_capabilities}
use math_model_ai.Solvers.Router.{
  passed, assess_family, filter_families, ranks_before, int_leb, decide, select, route,
}
use math_model_ai.Solvers.Router.Rank.{sort_by-highest}
use math_model_ai.Solvers.Router.Filters.{Passes, assess_solver-Passes}
use math_model_ai.Solvers.Router.Found.{Findings, filter_families-Scored}

module _ {A : Type 0} (by_family : Dict SolverFamily (BaseSolver A))
    (thresholds : ProblemSizeThresholds) (caps : Dict ℕ ℕ) (m : MathematicalModel A) where
  -- The steps of a choice: what they computed on the way.
  pub record Steps (plan : AlgorithmPlan) (options : SolverOptions) (r : RoutedSolver A)
      : Type 0 where
    pub families : List SolverFamily
    pub required : List SolverCapability
    pub found : Findings by_family thresholds caps m options required
    pub preferred : preference m.solver_requirements plan ≡ ok families
    pub demanded : required_capabilities m.model_family m.solver_requirements ≡ ok required
    pub filtered :
        filter_families by_family thresholds caps m options required (length families) 0 families
        ≡ ok found
    pub selects :
        select by_family thresholds caps m options families found.1
          (sort_by (ranks_before families) found.0)
        ≡ ok r

  pub steps :
      (plan : AlgorithmPlan) (options : SolverOptions) {r : RoutedSolver A}
      → route by_family thresholds caps m plan options ≡ ok r
      → Steps plan options r
  unfolding route
  steps plan options h =
      let (families, p, h1) = >>=-eq-ok (preference m.solver_requirements plan) _ h in
      let (required, q, h2) =
        >>=-eq-ok (required_capabilities m.model_family m.solver_requirements) _ h1 in
      let (found, w, h3) =
        >>=-eq-ok
          (filter_families by_family thresholds caps m options required (length families) 0
            families)
          _ h2 in
      record {
        families = families;
        required = required;
        found = found;
        preferred = p;
        demanded = q;
        filtered = w;
        selects = h3;
      }

  -- What `select` returns for the scores in order.
  pub record Selected (options : SolverOptions) (families : List SolverFamily)
      (rejections : List SolverHardRejection) (scores : List SolverScore) (r : RoutedSolver A)
      : Type 0 where
    pub first : SolverScore
    pub others : List SolverScore
    pub in_order : scores ≡ first ∷ others
    pub of_first : r.decision.selected_family ≡ first.family
    pub registered : Dict.lookup r.decision.selected_family by_family ≡ some r.solver
    pub all_scores : r.decision.scores ≡ scores
    pub all_rejections : r.decision.hard_rejections ≡ rejections
    pub attempted : r.decision.attempted_families ≡ families

  pub select-Selected :
      (options : SolverOptions) (families : List SolverFamily)
      (rejections : List SolverHardRejection) (scores : List SolverScore) {r : RoutedSolver A}
      → select by_family thresholds caps m options families rejections scores ≡ ok r
      → Selected options families rejections scores r
  unfolding select decide
  select-Selected options families rejections [] h = absurd (not_raised h)
    where
      not_raised :
          {r : RoutedSolver A}
          → ◌≡◌ {A = Raise RouterError (RoutedSolver A)}
              (raise (RouterError.no_solver rejections))
              (ok r)
          → ⊥
      not_raised g = cc
  select-Selected options families rejections (s ∷ ss) {r} h =
      elim (Option-cases (Dict.lookup s.family by_family)) [
        | inl free ↦ absurd (not_raised (rw (free, select) at h))
        | inr found ↦
            subst (Selected options families rejections (s ∷ ss))
              (ok-injective (rw (found.1, select) at h))
              (record {
                first = s;
                others = ss;
                in_order = refl;
                of_first = refl;
                registered = found.1;
                all_scores = refl;
                all_rejections = refl;
                attempted = refl;
              })
      ]
    where
      not_raised :
          ◌≡◌ {A = Raise RouterError (RoutedSolver A)}
            (raise (RouterError.no_adapter s.family))
            (ok r)
          → ⊥
      not_raised g = cc

  -- The score that is chosen: a highest one.
  pub record IsHighest (r : RoutedSolver A) : Type 0 where
    pub selected : SolverScore
    pub of_selected : selected.family ≡ r.decision.selected_family
    pub scored : Memᴰ selected r.decision.scores
    pub highest :
        (t : SolverScore) → Memᴰ t r.decision.scores → int_leb t.score selected.score ≡ true

  -- A choice that meets the demands of the model.
  pub record Chosen (plan : AlgorithmPlan) (r : RoutedSolver A) : Type 0 where
    pub required : List SolverCapability
    pub demanded : required_capabilities m.model_family m.solver_requirements ≡ ok required
    pub preferred : preference m.solver_requirements plan ≡ ok r.decision.attempted_families
    pub among : Memᴰ r.decision.selected_family r.decision.attempted_families
    pub registered : Dict.lookup r.decision.selected_family by_family ≡ some r.solver
    pub passes : Passes m required r.solver

  head_mem : {s : SolverScore} {ss xs : List SolverScore} → xs ≡ s ∷ ss → Memᴰ s xs
  head_mem {s} {ss} h = subst (λ l. Memᴰ s l) (sym h) (Memᴰ.head refl)

  -- The adapter that a family that passed is registered with meets the demands.
  registered-Passes :
      (required : List SolverCapability) (f : SolverFamily) (solver : BaseSolver A) {a : SolverName}
      → Dict.lookup f by_family ≡ some solver
      → assess_family by_family thresholds caps m required f ≡ ok (passed a)
      → Passes m required solver
  unfolding assess_family
  registered-Passes required f solver there h =
      (assess_solver-Passes m required f solver (rw (there, assess_family) at h)).0

  -- If `route` returns, then the solver that it returns is the adapter registered for the selected family, that
  -- family is one of the preferred ones, and the adapter has every required capability, supports the model, is
  -- available and, if the model rules out commercial solvers, is not Gurobi.
  pub route-Chosen :
      (plan : AlgorithmPlan) (options : SolverOptions) {r : RoutedSolver A}
      → route by_family thresholds caps m plan options ≡ ok r
      → Chosen plan r
  route-Chosen plan options {r} h =
      let st = steps plan options h in
      let se = select-Selected options st.families st.found.1 _ st.selects in
      let in_scores = mem-sort_by (ranks_before st.families) st.found.0 (head_mem se.in_order) in
      let scored =
        filter_families-Scored by_family thresholds caps m options st.required (length st.families)
          0 st.families st.filtered in_scores in
      record {
        required = st.required;
        demanded = st.demanded;
        preferred = st.preferred ∙ ap ok (sym se.attempted);
        among =
            subst (λ fs. Memᴰ r.decision.selected_family fs) (sym se.attempted)
              (subst (λ f. Memᴰ f st.families) (sym se.of_first) scored.preferred);
        registered = se.registered;
        passes =
            registered-Passes st.required se.first.family r.solver
              (subst (λ f. Dict.lookup f by_family ≡ some r.solver) se.of_first se.registered)
              scored.passes;
      }

  -- If `route` returns, then the score of the selected family is at least each score of the decision.
  pub route-IsHighest :
      (plan : AlgorithmPlan) (options : SolverOptions) {r : RoutedSolver A}
      → route by_family thresholds caps m plan options ≡ ok r
      → IsHighest r
  route-IsHighest plan options {r} h =
      let st = steps plan options h in
      let se = select-Selected options st.families st.found.1 _ st.selects in
      record {
        selected = se.first;
        of_selected = sym se.of_first;
        scored = head_mem (se.all_scores ∙ se.in_order);
        highest = λ t n. sort_by-highest st.families st.found.0 se.in_order (
            mem-sort_by (ranks_before st.families) st.found.0
              (subst (λ xs. Memᴰ t xs) se.all_scores n));
      }
