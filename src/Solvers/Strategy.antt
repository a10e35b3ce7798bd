-- ===== src/Solvers/Strategy.antt =====
-- `ExecutionStrategySelector.select` of src/mathmodel_ai/mathematical/strategy.py over the values of
-- schemas/program.py: whether a model is solved by a routed adapter or by a generated program. The router is
-- the one that is given, or else the selector's own.
pub mod Laws
use math_model_ai.Base.{
  ℕ, String, Bool, true, false, Option, none, some, if◌then◌else◌, Raise, ok, raise,
}
use math_model_ai.Base.Dict.{Dict}
use math_model_ai.Model.{MathematicalModel}
use math_model_ai.Solvers.Types.{
  SolverFamily, BaseSolver, AlgorithmPlan, SolverOptions, ProblemSizeThresholds, RoutedSolver,
  RouterError, duplicate_adapter, unknown_family, unknown_capability, no_solver, empty_reason,
  no_adapter,
}
use math_model_ai.Solvers.Size.{resolve_options}
use math_model_ai.Solvers.Router.{route}

pub data ExecutionStrategy : Type 0 where
  auto deterministic generated : ExecutionStrategy

pub record ExecutionStrategyDecision : Type 0 where
  pub requested : ExecutionStrategy
  pub selected : ExecutionStrategy
  pub reason : String

pub record SelectedExecutionStrategy (A : Type 0) : Type 0 where
  pub decision : ExecutionStrategyDecision
  pub routed_solver : Option (RoutedSolver A)
  pub options : SolverOptions

-- The errors that are a `SolverUnavailableError`.
abbrev pub is_unavailable : RouterError → Bool
is_unavailable (unknown_family _) = true
is_unavailable (unknown_capability _) = true
is_unavailable (no_solver _) = true
is_unavailable _ = false

abbrev pub is_deterministic : ExecutionStrategy → Bool
is_deterministic ExecutionStrategy.deterministic = true
is_deterministic _ = false

module _ {A : Type 0} where
  abbrev pub by_program : ExecutionStrategy → String → SolverOptions → SelectedExecutionStrategy A
  by_program requested reason options = record {
    decision = record {
      requested = requested;
      selected = ExecutionStrategy.generated;
      reason = reason;
    };
    routed_solver = none;
    options = options;
  }

  abbrev pub by_adapter : ExecutionStrategy → RoutedSolver A → SelectedExecutionStrategy A
  by_adapter requested routed = record {
    decision = record {
      requested = requested;
      selected = ExecutionStrategy.deterministic;
      reason = "a compatible deterministic adapter is available and preferred";
    };
    routed_solver = some routed;
    options = routed.options;
  }

  -- What follows the call of `route`.
  unfoldable pub after_route :
      ExecutionStrategy
      → SolverOptions
      → Raise RouterError (RoutedSolver A)
      → Raise RouterError (SelectedExecutionStrategy A)
  after_route requested resolved (ok routed) = ok (by_adapter requested routed)
  after_route requested resolved (raise e) =
      if is_unavailable e
      then if is_deterministic requested
        then raise e
        else ok (
            by_program requested "no available deterministic adapter can fully consume the model"
              resolved)
      else raise e

  module _ (by_family : Dict SolverFamily (BaseSolver A)) (thresholds : ProblemSizeThresholds)
      (caps : Dict ℕ ℕ) where
    unfoldable pub select_strategy :
        ExecutionStrategy
        → MathematicalModel A
        → AlgorithmPlan
        → SolverOptions
        → Raise RouterError (SelectedExecutionStrategy A)
    unfolding after_route route
    select_strategy ExecutionStrategy.generated m plan options = ok (
        by_program ExecutionStrategy.generated
          "caller explicitly requested the generated-program strategy"
          (resolve_options caps m options))
    select_strategy requested m plan options =
        after_route requested (resolve_options caps m options)
          (route by_family thresholds caps m plan options)
