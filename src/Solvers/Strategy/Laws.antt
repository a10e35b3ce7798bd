-- ===== src/Solvers/Strategy/Laws.antt =====
-- What stands behind a strategy that `select` of src/mathmodel_ai/mathematical/strategy.py returns.
use math_model_ai.Base.{
  ℕ, ◌≡◌, refl, sym, ap, true, none, some, Raise, ok, raise, ok-injective, Bool-cases, inl, inr,
}
use math_model_ai.Base.Dict.{Dict}
use math_model_ai.Model.{MathematicalModel}
use math_model_ai.Solvers.Types.{
  SolverFamily, BaseSolver, AlgorithmPlan, SolverOptions, ProblemSizeThresholds, RoutedSolver,
  RouterError,
}
use math_model_ai.Solvers.Size.{resolve_options}
use math_model_ai.Solvers.Router.{route}
use math_model_ai.Solvers.Router.Choice.{Chosen, route-Chosen}
use math_model_ai.Solvers.Strategy.{
  ExecutionStrategy, SelectedExecutionStrategy, is_unavailable, after_route, select_strategy,
}

module _ {A : Type 0} (by_family : Dict SolverFamily (BaseSolver A))
    (thresholds : ProblemSizeThresholds) (caps : Dict ℕ ℕ) (m : MathematicalModel A)
    (plan : AlgorithmPlan) (options : SolverOptions) where
  -- The three ways to a strategy.
  pub data IsJustified (requested : ExecutionStrategy) (s : SelectedExecutionStrategy A)
      : Type 0 where
    as_requested :
        requested ≡ ExecutionStrategy.generated
        → s.decision.selected ≡ ExecutionStrategy.generated
        → s.routed_solver ≡ none
        → IsJustified requested s
    as_fallback :
        (e : RouterError)
        → requested ≡ ExecutionStrategy.auto
        → route by_family thresholds caps m plan options ≡ raise e
        → is_unavailable e ≡ true
        → s.decision.selected ≡ ExecutionStrategy.generated
        → s.routed_solver ≡ none
        → IsJustified requested s
    by_route :
        (r : RoutedSolver A)
        → ¬ (requested ≡ ExecutionStrategy.generated)
        → s.decision.selected ≡ ExecutionStrategy.deterministic
        → s.routed_solver ≡ some r
        → s.options ≡ r.options
        → Chosen by_family thresholds caps m plan r
        → IsJustified requested s

  after_route-raise :
      (requested : ExecutionStrategy) (resolved : SolverOptions) (e : RouterError)
      {s : SelectedExecutionStrategy A}
      → ¬ (requested ≡ ExecutionStrategy.generated)
      → route by_family thresholds caps m plan options ≡ raise e
      → after_route requested resolved (raise e) ≡ ok s
      → IsJustified requested s
  unfolding after_route
  after_route-raise ExecutionStrategy.generated resolved e other raised h = absurd (other refl)
  after_route-raise ExecutionStrategy.deterministic resolved e other raised h =
      elim (Bool-cases (is_unavailable e)) [
        | inl lacking ↦ cc (rw (lacking, after_route) at h)
        | inr broken ↦ cc (rw (broken, after_route) at h)
      ]
  after_route-raise ExecutionStrategy.auto resolved e other raised h =
      elim (Bool-cases (is_unavailable e)) [
        | inl lacking ↦
            let same = ok-injective (rw (lacking, after_route) at h) in
            IsJustified.as_fallback e refl raised lacking
              (ap (λ (t : SelectedExecutionStrategy A). t.decision.selected) (sym same))
              (ap (λ (t : SelectedExecutionStrategy A). t.routed_solver) (sym same))
        | inr broken ↦ cc (rw (broken, after_route) at h)
      ]

  after_route-IsJustified :
      (requested : ExecutionStrategy) (resolved : SolverOptions)
      (found : Raise RouterError (RoutedSolver A)) {s : SelectedExecutionStrategy A}
      → ¬ (requested ≡ ExecutionStrategy.generated)
      → route by_family thresholds caps m plan options ≡ found
      → after_route requested resolved found ≡ ok s
      → IsJustified requested s
  unfolding after_route
  after_route-IsJustified requested resolved (ok routed) other routes h =
      let same = ok-injective h in
      IsJustified.by_route routed other
        (ap (λ (t : SelectedExecutionStrategy A). t.decision.selected) (sym same))
        (ap (λ (t : SelectedExecutionStrategy A). t.routed_solver) (sym same))
        (ap (λ (t : SelectedExecutionStrategy A). t.options) (sym same))
        (route-Chosen by_family thresholds caps m plan options routes)
  after_route-IsJustified requested resolved (raise e) other raised h =
      after_route-raise requested resolved e other raised h

  -- If `select` returns, then one of three things holds. A generated program was requested and is selected,
  -- without a routed solver. Or AUTO was requested, `route` raised that no solver is available, and a
  -- generated program is selected, without a routed solver. Or the deterministic strategy is selected, a generated program was
  -- not requested, and the options are those of the routed solver, which is the adapter registered for a
  -- preferred family and meets every demand of the model.
  pub select_strategy-IsJustified :
      (requested : ExecutionStrategy) {s : SelectedExecutionStrategy A}
      → select_strategy by_family thresholds caps requested m plan options ≡ ok s
      → IsJustified requested s
  unfolding select_strategy
  select_strategy-IsJustified ExecutionStrategy.generated h =
      let same = ok-injective h in
      IsJustified.as_requested refl
        (ap (λ (t : SelectedExecutionStrategy A). t.decision.selected) (sym same))
        (ap (λ (t : SelectedExecutionStrategy A). t.routed_solver) (sym same))
  select_strategy-IsJustified ExecutionStrategy.auto h =
      after_route-IsJustified ExecutionStrategy.auto (resolve_options caps m options)
        (route by_family thresholds caps m plan options) (λ e. cc) refl h
  select_strategy-IsJustified ExecutionStrategy.deterministic h =
      after_route-IsJustified ExecutionStrategy.deterministic (resolve_options caps m options)
        (route by_family thresholds caps m plan options) (λ e. cc) refl h
