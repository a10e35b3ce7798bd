-- ===== src/Solvers/Types.antt =====
-- The values of src/mathmodel_ai/schemas/solver.py, and `BaseSolver` of src/mathmodel_ai/solvers/base.py as
-- the router sees it. A time is a number of milliseconds.
use math_model_ai.Base.{ℕ, String, Bool, Option, List, Eq, eq_of_discrete}
use math_model_ai.Base.Int.{ℤ}
use math_model_ai.Model.{MathematicalModel}

pub data SolverName : Type 0 where
  scipy gurobi ortools : SolverName

pub data SolverFamily : Type 0 where
  scipy_highs scipy_milp scipy_minimize gurobi_family ortools_cp_sat : SolverFamily

unfoldable pub SolverFamily-discrete : Discrete SolverFamily
SolverFamily-discrete = hlevel

instance abbrev pub family_eq : Eq SolverFamily
family_eq = eq_of_discrete SolverFamily-discrete

pub data SolverCapability : Type 0 where
  lp milp integer nlp binary continuous multiobjective : SolverCapability

unfoldable pub SolverCapability-discrete : Discrete SolverCapability
SolverCapability-discrete = hlevel

instance abbrev pub capability_eq : Eq SolverCapability
capability_eq = eq_of_discrete SolverCapability-discrete

pub data ProblemSizeClass : Type 0 where
  tiny small medium large : ProblemSizeClass

-- The part of `AlgorithmPlan` that the router reads.
pub record AlgorithmPlan : Type 0 where
  pub recommended_solver_family : Option SolverFamily
  pub alternatives : List SolverFamily

-- The options that the router reads or changes; it passes the others on.
pub record SolverOptions : Type 0 where
  pub time_limit : Option ℕ
  pub deadline_pressure : ℕ

pub record SolverHealth : Type 0 where
  pub available : Bool
  pub reason : String

pub record SupportAssessment : Type 0 where
  pub supported : Bool
  pub reasons : List String

pub record ProblemSize : Type 0 where
  pub classification : ProblemSizeClass
  pub number_of_variables : ℕ
  pub number_of_integer_variables : ℕ
  pub number_of_binary_variables : ℕ
  pub number_of_constraints : ℕ
  pub number_of_nonzero_coefficients : ℕ

-- One size of `ProblemSizeThresholds`.
pub record Threshold : Type 0 where
  pub variables : ℕ
  pub constraints : ℕ
  pub nonzeros : ℕ

pub record ProblemSizeThresholds : Type 0 where
  pub tiny : Threshold
  pub small : Threshold
  pub medium : Threshold

-- `SolverHardRejection`: the reason, by what it names.
pub data RejectionReason : Type 0 where
  not_registered commercial_disallowed : RejectionReason
  missing_capabilities : List SolverCapability → RejectionReason
  unsupported : List String → RejectionReason
  unavailable : String → RejectionReason

pub record SolverHardRejection : Type 0 where
  pub family : SolverFamily
  pub reason : RejectionReason

pub record SolverScore : Type 0 where
  pub family : SolverFamily
  pub solver : SolverName
  pub score : ℤ

pub record SolverRouteDecision : Type 0 where
  pub selected_solver : SolverName
  pub selected_family : SolverFamily
  pub attempted_families : List SolverFamily
  pub alternatives : List SolverFamily
  pub scores : List SolverScore
  pub hard_rejections : List SolverHardRejection
  pub problem_size : ProblemSize
  pub runtime_budget : Option ℕ
  pub fallback_used : Bool

-- `SolverUnavailableError` by its message, the `ValueError` of `__init__`, the `ValidationError` of a
-- rejection whose text is empty, and the `KeyError` of a family without an adapter.
pub data RouterError : Type 0 where
  duplicate_adapter : SolverFamily → RouterError
  unknown_family : String → RouterError
  unknown_capability : String → RouterError
  no_solver : List SolverHardRejection → RouterError
  empty_reason : SolverFamily → RouterError
  no_adapter : SolverFamily → RouterError

-- An adapter: what it declares and what it answers.
pub record BaseSolver (A : Type 0) : Type 0 where
  pub name : SolverName
  pub families : List SolverFamily
  pub capabilities : List SolverCapability
  pub assess_support : MathematicalModel A → SupportAssessment
  pub health_check : SolverHealth

pub record RoutedSolver (A : Type 0) : Type 0 where
  pub solver : BaseSolver A
  pub decision : SolverRouteDecision
  pub options : SolverOptions
