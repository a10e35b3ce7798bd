-- ===== src/Solvers/Tests.antt =====
-- A router with two adapters, of which one has no licence: its choice evaluated, and the theorems of
-- `Solvers` applied to it.
use math_model_ai.Base.{
  ℕ, ◌≡◌, refl, ap, true, false, none, some, List, [], ◌∷◌, Memᴰ, ◌⊎◌, ◌↔◌, ok, unique_from,
}
use math_model_ai.Base.Int.{pos, ◌+ℤ◌}
use math_model_ai.Base.Dict
use math_model_ai.Base.Dict.{Dict}
use math_model_ai.Expression.Syntax.{MathExpression, referenced_symbols}
use math_model_ai.Model.{
  empty_model, no_requirements, ModelFamily, VariableDomain, MathematicalModel,
}
use math_model_ai.Solvers.Strategy.{
  ExecutionStrategy, SelectedExecutionStrategy, by_adapter, after_route, select_strategy,
}
use math_model_ai.Solvers.Strategy.Laws.{IsJustified, select_strategy-IsJustified}
use math_model_ai.Solvers.Types.{
  scipy, gurobi, SolverFamily, scipy_highs, scipy_milp, gurobi_family, SolverFamily-discrete,
  family_eq, SolverCapability, SolverCapability-discrete, lp, milp, AlgorithmPlan, SolverOptions,
  ProblemSizeThresholds, RejectionReason, SolverHardRejection, SolverScore, BaseSolver,
  RoutedSolver,
}
use math_model_ai.Solvers.Size.{nonzeros_of, problem_size, runtime_budget, resolve_options}
use math_model_ai.Solvers.Size.Budget.{IsLeastLimit, resolve_options-least}
use math_model_ai.Solvers.Policy.{preference, required_capabilities, declared_preference_adjustment}
use math_model_ai.Solvers.Router.{
  passed, rejected, new_router, assess_solver, assess_family, score_of, add_assessment,
  filter_families, decide, select, ranks_before, route,
}
use math_model_ai.Solvers.Router.Adapters.{lookup-new_router}
use math_model_ai.Solvers.Router.Choice.{Chosen, IsHighest, route-Chosen, route-IsHighest}
use math_model_ai.Solvers.Router.Total.{IsAssessed, route-returns, route-accounted}

abbrev highs : BaseSolver ℕ
highs = record {
  name = scipy;
  families = scipy_highs ∷ scipy_milp ∷ [];
  capabilities = lp ∷ milp ∷ [];
  assess_support = λ m. record { supported = true; reasons = [] };
  health_check = record { available = true; reason = "installed" };
}

abbrev unlicensed : BaseSolver ℕ
unlicensed = record {
  name = gurobi;
  families = gurobi_family ∷ [];
  capabilities = lp ∷ milp ∷ [];
  assess_support = λ m. record { supported = true; reasons = [] };
  health_check = record { available = false; reason = "no licence" };
}

abbrev adapters : Dict SolverFamily (BaseSolver ℕ)
adapters = (scipy_highs, highs) ∷ (scipy_milp, highs) ∷ (gurobi_family, unlicensed) ∷ []

router_is_built : new_router (highs ∷ unlicensed ∷ []) ≡ ok adapters
unfolding new_router SolverFamily-discrete
router_is_built = refl

lookup-new_router_example :
    (Dict.lookup scipy_milp adapters ≡ some highs)
    ↔ (Memᴰ highs (highs ∷ unlicensed ∷ []) × Memᴰ scipy_milp highs.families)
lookup-new_router_example =
    lookup-new_router (highs ∷ unlicensed ∷ []) scipy_milp highs router_is_built

abbrev thresholds : ProblemSizeThresholds
thresholds = record {
  tiny = record { variables = 10; constraints = 10; nonzeros = 100 };
  small = record { variables = 100; constraints = 100; nonzeros = 2_000 };
  medium = record { variables = 1_000; constraints = 1_000; nonzeros = 100_000 };
}

abbrev caps : Dict ℕ ℕ
caps = (3, 300_000) ∷ (4, 120_000) ∷ (5, 60_000) ∷ []

abbrev model : MathematicalModel ℕ
model = record (empty_model ModelFamily.linear_programming) {
  decision_variables =
      record {
        variable_id = "VAR-1";
        symbol = "x";
        description = "amount";
        index_sets = [];
        domain = VariableDomain.integer;
        unit = none;
      }
      ∷ [];
  objective = some (record {
    objective_id = "o";
    expression = MathExpression.symbol "x";
    unit = none;
    equation_ref = "EQ-1";
  });
  constraints =
      record {
        constraint_id = "c";
        expression = MathExpression.symbol "x";
        rhs = MathExpression.constant 4;
        equation_ref = "EQ-1";
      }
      ∷ [];
  solver_requirements = record no_requirements {
    required_capabilities = "MILP" ∷ [];
    maximum_runtime = some 200_000;
    preferred_solver_families = "SCIPY_MILP" ∷ [];
  };
}

abbrev plan : AlgorithmPlan
plan = record {
  recommended_solver_family = some gurobi_family;
  alternatives = scipy_highs ∷ scipy_milp ∷ [];
}

abbrev options : SolverOptions
options = record { time_limit = none; deadline_pressure = 4 }

-- Three preferred families at a weight of 3, with 8 for a tiny model and 20 for the declared family.
abbrev of_milp : SolverScore
of_milp = record { family = scipy_milp; solver = scipy; score = pos 118 }

abbrev of_highs : SolverScore
of_highs = record { family = scipy_highs; solver = scipy; score = pos 38 }

abbrev refused : SolverHardRejection
refused = record { family = gurobi_family; reason = RejectionReason.unavailable "no licence" }

abbrev families : List SolverFamily
families = scipy_milp ∷ gurobi_family ∷ scipy_highs ∷ []

abbrev outcome : RoutedSolver ℕ
outcome =
    decide adapters thresholds caps model options families (refused ∷ []) of_milp (of_highs ∷ [])
      highs

routed : route adapters thresholds caps model plan options ≡ ok outcome
unfolding route preference required_capabilities filter_families assess_family assess_solver
    add_assessment score_of declared_preference_adjustment select decide ranks_before problem_size
    nonzeros_of referenced_symbols runtime_budget unique_from SolverFamily-discrete
    SolverCapability-discrete ◌+ℤ◌
routed = refl

route-Chosen_example : Chosen adapters thresholds caps model plan outcome
route-Chosen_example = route-Chosen adapters thresholds caps model plan options routed

route-IsHighest_example : IsHighest adapters thresholds caps model outcome
route-IsHighest_example = route-IsHighest adapters thresholds caps model plan options routed

gurobi_is_preferred : Memᴰ gurobi_family outcome.decision.attempted_families
unfolding decide
gurobi_is_preferred = Memᴰ.tail (Memᴰ.head refl)

route-accounted_example :
    ((s : SolverScore) × Memᴰ s outcome.decision.scores × (s.family ≡ gurobi_family))
    ⊎ ((reason : RejectionReason) × Memᴰ
          (record { family = gurobi_family; reason = reason })
          outcome.decision.hard_rejections)
route-accounted_example =
    route-accounted adapters thresholds caps model plan options gurobi_family routed
      gurobi_is_preferred

abbrev demanded : List SolverCapability
demanded = lp ∷ milp ∷ []

families_are_read : preference model.solver_requirements plan ≡ ok families
unfolding preference unique_from SolverFamily-discrete
families_are_read = refl

capabilities_are_read :
    required_capabilities model.model_family model.solver_requirements ≡ ok demanded
unfolding required_capabilities
capabilities_are_read = refl

milp_passes : assess_family adapters thresholds caps model demanded scipy_milp ≡ ok (passed scipy)
unfolding assess_family assess_solver SolverFamily-discrete SolverCapability-discrete
milp_passes = refl

families-IsAssessed :
    (f : SolverFamily) → Memᴰ f families → IsAssessed adapters thresholds caps model demanded f
unfolding assess_family assess_solver SolverFamily-discrete SolverCapability-discrete
families-IsAssessed scipy_highs m = (passed scipy, refl)
families-IsAssessed scipy_milp m = (passed scipy, refl)
families-IsAssessed SolverFamily.scipy_minimize m = (rejected RejectionReason.not_registered, refl)
families-IsAssessed gurobi_family m = (rejected (RejectionReason.unavailable "no licence"), refl)
families-IsAssessed SolverFamily.ortools_cp_sat m = (rejected RejectionReason.not_registered, refl)

route-returns_example :
    (r : RoutedSolver ℕ) × (route adapters thresholds caps model plan options ≡ ok r)
route-returns_example =
    route-returns adapters thresholds caps model plan options families demanded scipy_milp scipy
      families_are_read capabilities_are_read families-IsAssessed (Memᴰ.head refl) milp_passes

-- The caps of the pressures 3 and 4 are reached, and the second is below the 200 s of the model.
budget : (resolve_options caps model options).time_limit ≡ some 120_000
unfolding runtime_budget
budget = refl

resolve_options-least_example :
    IsLeastLimit caps model options (resolve_options caps model options).time_limit
resolve_options-least_example = resolve_options-least caps model options

abbrev selected : SelectedExecutionStrategy ℕ
selected = by_adapter ExecutionStrategy.auto outcome

strategy_selected :
    select_strategy adapters thresholds caps ExecutionStrategy.auto model plan options ≡ ok selected
unfolding select_strategy after_route
strategy_selected =
    ap (after_route ExecutionStrategy.auto (resolve_options caps model options)) routed

select_strategy-IsJustified_example :
    IsJustified adapters thresholds caps model plan options ExecutionStrategy.auto selected
select_strategy-IsJustified_example =
    select_strategy-IsJustified adapters thresholds caps model plan options ExecutionStrategy.auto
      strategy_selected
