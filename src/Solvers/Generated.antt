-- ===== src/Solvers/Generated.antt =====
-- `generated_decision` of src/mathmodel_ai/solvers/router.py: what is recorded when a generated program was
-- run in place of an adapter.
use math_model_ai.Base.{ℕ, String, false, none, some, [], ◌∷◌}
use math_model_ai.Base.Int.{pos}
use math_model_ai.Base.Dict.{Dict}
use math_model_ai.Model.{ModelFamily, MathematicalModel}
use math_model_ai.Solvers.Types.{
  SolverName, scipy, gurobi, ortools, SolverFamily, scipy_highs, scipy_milp, scipy_minimize,
  gurobi_family, ortools_cp_sat, SolverOptions, ProblemSizeThresholds, SolverRouteDecision,
}
use math_model_ai.Solvers.Policy.{family_of_value}
use math_model_ai.Solvers.Size.{problem_size, runtime_budget}

abbrev pub scipy_family : ModelFamily → SolverFamily
scipy_family ModelFamily.linear_programming = scipy_highs
scipy_family ModelFamily.mixed_integer_linear_programming = scipy_milp
scipy_family ModelFamily.integer_programming = scipy_milp
scipy_family _ = scipy_minimize

abbrev pub default_family : ModelFamily → SolverName → SolverFamily
default_family family gurobi = gurobi_family
default_family family ortools = ortools_cp_sat
default_family family scipy = scipy_family family

-- The target read as a family, or the family that the solver stands for.
abbrev pub generated_family : ModelFamily → SolverName → String → SolverFamily
generated_family family name target = elim (family_of_value target) [
  | none ↦ default_family family name
  | some f ↦ f
]

unfoldable pub generated_decision :
    {A : Type 0}
    → ProblemSizeThresholds
    → Dict ℕ ℕ
    → MathematicalModel A
    → SolverOptions
    → SolverName
    → String
    → SolverRouteDecision
unfolding problem_size runtime_budget
generated_decision thresholds caps m options name target =
    let family = generated_family m.model_family name target in
    record {
      selected_solver = name;
      selected_family = family;
      attempted_families = family ∷ [];
      alternatives = [];
      scores = record { family = family; solver = name; score = pos 0 } ∷ [];
      hard_rejections = [];
      problem_size = problem_size thresholds m;
      runtime_budget = runtime_budget caps m options;
      fallback_used = false;
    }
