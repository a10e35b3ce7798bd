-- ===== src/Problem.antt =====
-- What the checks read of a problem: src/mathmodel_ai/schemas/problem_analysis.py, and `ProblemState` of
-- schemas/problem_state.py. A confidence is a number of millionths.
use math_model_ai.Base.{ℕ, String, Option, List}

pub data ProblemTaskType : Type 0 where
  prediction optimization evaluation classification regression time_series : ProblemTaskType
  network simulation decision statistical_analysis dynamic_system : ProblemTaskType
  multi_objective uncertainty : ProblemTaskType

pub record SubProblem : Type 0 where
  pub subproblem_id : String
  pub order : ℕ
  pub original_text : String
  pub normalized_goal : String
  pub output_required : List String
  pub task_types : List ProblemTaskType
  pub ambiguity_refs : List String

pub record Ambiguity : Type 0 where
  pub ambiguity_id : String
  pub preferred_interpretation_id : Option String
  pub confidence : ℕ

-- A selected model and a dataset are their identifiers.
pub record ProblemState : Type 0 where
  pub subproblems : List SubProblem
  pub ambiguities : List Ambiguity
  pub selected_model : Option String
  pub datasets : List String
