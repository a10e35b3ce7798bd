-- ===== src/Model.antt =====
-- `src/mathmodel_ai/schemas/mathematical.py`: units of measure and the mathematical model, as far as the
-- checks and the routing of solvers read them, with `ModelFamily` of schemas/model_selection.py. A dict
-- over the enumeration of dimensions is a function, since nothing depends on its order.
use math_model_ai.Base.{ℕ, String, Bool, true, false, Option, none, List, [], ◌∷◌, is_empty}
use math_model_ai.Base.Int.{ℤ}
use math_model_ai.Expression.Syntax.{MathExpression}

pub data BaseDimension : Type 0 where
  mass length time currency count energy power dimensionless : BaseDimension

unfoldable pub BaseDimension-discrete : Discrete BaseDimension
BaseDimension-discrete = hlevel

abbrev pub all_dimensions : List BaseDimension
all_dimensions = mass ∷ length ∷ time ∷ currency ∷ count ∷ energy ∷ power ∷ dimensionless ∷ []

abbrev pub Dimensions : Type 0
Dimensions = BaseDimension → Option ℤ

pub record UnitExpression (A : Type 0) : Type 0 where
  pub dimensions : Dimensions
  pub scale : A
  pub display : String
  pub unknown_units : List String

-- `is_known`
abbrev pub is_known : {A : Type 0} → UnitExpression A → Bool
is_known u = is_empty u.unknown_units

pub data UnitCheckStatus : Type 0 where
  pass fail unknown : UnitCheckStatus

pub data ModelFamily : Type 0 where
  linear_programming integer_programming mixed_integer_linear_programming : ModelFamily
  nonlinear_programming least_squares multi_objective regression statistical : ModelFamily
  time_series grey_model graph network_flow vehicle_routing markov : ModelFamily
  differential_equation dynamic_system queueing monte_carlo discrete_event : ModelFamily
  simulation clustering tree_ensemble neural_network robust_optimization : ModelFamily
  stochastic_optimization model_chain other : ModelFamily

pub data VariableDomain : Type 0 where
  continuous integer binary nonnegative_continuous nonnegative_integer : VariableDomain

pub record VariableDefinition (A : Type 0) : Type 0 where
  pub variable_id : String
  pub symbol : String
  pub description : String
  pub index_sets : List String
  pub domain : VariableDomain
  pub unit : Option (UnitExpression A)

pub record SetDefinition : Type 0 where
  pub set_id : String
  pub symbol : String
  pub description : String

pub record IndexDefinition : Type 0 where
  pub index_id : String
  pub symbol : String
  pub description : String

-- A data binding is the identifier of its dataset.
pub record ParameterDefinition (A : Type 0) : Type 0 where
  pub parameter_id : String
  pub symbol : String
  pub description : String
  pub data_binding : Option String
  pub unit : Option (UnitExpression A)
  pub source_ref : String

pub record ModelAssumption : Type 0 where
  pub assumption_id : String
  pub critical : Bool
  pub supported : Bool

pub data InterpretationResolutionStatus : Type 0 where
  resolved_from_evidence human_confirmed assumption_required unresolved :
      InterpretationResolutionStatus

pub record InterpretationResolution : Type 0 where
  pub ambiguity_id : String
  pub interpretation_id : Option String
  pub status : InterpretationResolutionStatus
  pub critical : Bool

-- A time is a number of milliseconds.
pub record SolverRequirements : Type 0 where
  pub requires_continuous : Bool
  pub requires_integer : Bool
  pub requires_binary : Bool
  pub requires_nonlinear : Bool
  pub requires_multiobjective : Bool
  pub required_capabilities : List String
  pub allow_commercial_solver : Bool
  pub maximum_runtime : Option ℕ
  pub preferred_solver_families : List String

pub record ObjectiveDefinition (A : Type 0) : Type 0 where
  pub objective_id : String
  pub expression : MathExpression A
  pub unit : Option (UnitExpression A)
  pub equation_ref : String

pub record ConstraintDefinition (A : Type 0) : Type 0 where
  pub constraint_id : String
  pub expression : MathExpression A
  pub rhs : MathExpression A
  pub equation_ref : String

pub record EquationDefinition (A : Type 0) : Type 0 where
  pub equation_id : String
  pub lhs : MathExpression A
  pub rhs : MathExpression A
  pub dependency_refs : List String

pub record MathematicalModel (A : Type 0) : Type 0 where
  pub model_id : String
  pub version : ℕ
  pub source_selected_model_id : String
  pub target_subproblems : List String
  pub model_family : ModelFamily
  pub assumptions : List ModelAssumption
  pub interpretation_resolutions : List InterpretationResolution
  pub sets : List SetDefinition
  pub indices : List IndexDefinition
  pub decision_variables : List (VariableDefinition A)
  pub state_variables : List (VariableDefinition A)
  pub derived_variables : List (VariableDefinition A)
  pub parameters : List (ParameterDefinition A)
  pub constants : List (ParameterDefinition A)
  pub objective : Option (ObjectiveDefinition A)
  pub constraints : List (ConstraintDefinition A)
  pub initial_conditions : List (ConstraintDefinition A)
  pub boundary_conditions : List (ConstraintDefinition A)
  pub equations : List (EquationDefinition A)
  pub solver_requirements : SolverRequirements
  -- The datasets that the data bindings name.
  pub data_bindings : List String

-- What a model has where nothing is declared.
abbrev pub no_requirements : SolverRequirements
no_requirements = record {
  requires_continuous = false;
  requires_integer = false;
  requires_binary = false;
  requires_nonlinear = false;
  requires_multiobjective = false;
  required_capabilities = [];
  allow_commercial_solver = true;
  maximum_runtime = none;
  preferred_solver_families = [];
}

abbrev pub empty_model : {A : Type 0} → ModelFamily → MathematicalModel A
empty_model family = record {
  model_id = "model";
  version = 1;
  source_selected_model_id = "CAND-1";
  target_subproblems = [];
  model_family = family;
  assumptions = [];
  interpretation_resolutions = [];
  sets = [];
  indices = [];
  decision_variables = [];
  state_variables = [];
  derived_variables = [];
  parameters = [];
  constants = [];
  objective = none;
  constraints = [];
  initial_conditions = [];
  boundary_conditions = [];
  equations = [];
  solver_requirements = no_requirements;
  data_bindings = [];
}
