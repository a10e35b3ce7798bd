-- ===== src/Solvers/Size.antt =====
-- `problem_size`, `_fits`, `_runtime_budget` and `resolve_options` of
-- src/mathmodel_ai/solvers/router.py.
pub mod Budget
use math_model_ai.Base.{
  ℕ, ◌+◌, min, String, Bool, true, false, ◌&&◌, Option, none, some, List, [], ◌∷◌, ◌++◌, map,
  length, keep, contains, unique_from, string_eq, leb, if◌then◌else◌,
}
use math_model_ai.Base.Dict.{Dict}
use math_model_ai.Expression.Syntax.{MathExpression, referenced_symbols}
use math_model_ai.Model.{
  VariableDomain, binary, integer, nonnegative_integer, VariableDefinition, ObjectiveDefinition,
  ConstraintDefinition, MathematicalModel,
}
use math_model_ai.Solvers.Types.{
  ProblemSizeClass, tiny, small, medium, large, SolverOptions, ProblemSize, Threshold,
  ProblemSizeThresholds,
}

abbrev pub fits : ℕ → ℕ → ℕ → Threshold → Bool
fits variables constraints nonzeros t =
    leb variables t.variables && leb constraints t.constraints && leb nonzeros t.nonzeros

abbrev pub classify : ProblemSizeThresholds → ℕ → ℕ → ℕ → ProblemSizeClass
classify t variables constraints nonzeros =
    if fits variables constraints nonzeros t.tiny
    then tiny
    else if fits variables constraints nonzeros t.small
    then small
    else if fits variables constraints nonzeros t.medium
    then medium
    else large

abbrev pub is_integer_domain : VariableDomain → Bool
is_integer_domain integer = true
is_integer_domain nonnegative_integer = true
is_integer_domain binary = true
is_integer_domain _ = false

abbrev pub is_binary : VariableDomain → Bool
is_binary binary = true
is_binary _ = false

abbrev pub constraint_expressions :
    {A : Type 0} → List (ConstraintDefinition A) → List (MathExpression A)
constraint_expressions [] = []
constraint_expressions (c ∷ cs) = c.expression ∷ c.rhs ∷ constraint_expressions cs

abbrev pub objective_expressions :
    {A : Type 0} → Option (ObjectiveDefinition A) → List (MathExpression A)
objective_expressions none = []
objective_expressions (some o) = o.expression ∷ []

-- `len(referenced_symbols(expression) & variable_symbols)`, summed over the expressions.
unfoldable pub nonzeros_of : {A : Type 0} → List String → List (MathExpression A) → ℕ
unfolding unique_from referenced_symbols
nonzeros_of symbols [] = 0
nonzeros_of symbols (e ∷ es) =
    length (unique_from [] (keep (λ s. contains s symbols) (referenced_symbols e)))
    + nonzeros_of symbols es

unfoldable pub problem_size :
    {A : Type 0} → ProblemSizeThresholds → MathematicalModel A → ProblemSize
unfolding nonzeros_of
problem_size {A} thresholds m =
    let variables = m.decision_variables in
    let symbols = map (λ (v : VariableDefinition A). v.symbol) variables in
    let nonzeros =
      nonzeros_of symbols
        (objective_expressions m.objective ++ constraint_expressions m.constraints) in
    record {
      classification = classify thresholds (length variables) (length m.constraints) nonzeros;
      number_of_variables = length variables;
      number_of_integer_variables =
          length (keep (λ (v : VariableDefinition A). is_integer_domain v.domain) variables);
      number_of_binary_variables =
          length (keep (λ (v : VariableDefinition A). is_binary v.domain) variables);
      number_of_constraints = length m.constraints;
      number_of_nonzero_coefficients = nonzeros;
    }

abbrev pub option_list : Option ℕ → List ℕ
option_list none = []
option_list (some n) = n ∷ []

-- The caps of the pressures that the deadline has reached.
abbrev pub reached_caps : ℕ → Dict ℕ ℕ → List ℕ
reached_caps pressure [] = []
reached_caps pressure ((p, cap) ∷ caps) =
    let rest = reached_caps pressure caps in if leb p pressure then cap ∷ rest else rest

-- `min(candidates) if candidates else None`
abbrev pub least : List ℕ → Option ℕ
least [] = none
least (n ∷ ns) = elim (least ns) [ none ↦ some n | some m ↦ some (min n m) ]

-- The limits on the time: of the options, of the model and of the deadline.
abbrev pub time_limits : {A : Type 0} → Dict ℕ ℕ → MathematicalModel A → SolverOptions → List ℕ
time_limits caps m options =
    option_list options.time_limit
    ++ (option_list m.solver_requirements.maximum_runtime
        ++ reached_caps options.deadline_pressure caps)

-- `_runtime_budget`
unfoldable pub runtime_budget :
    {A : Type 0} → Dict ℕ ℕ → MathematicalModel A → SolverOptions → Option ℕ
runtime_budget caps m options = least (time_limits caps m options)

abbrev pub resolve_options :
    {A : Type 0} → Dict ℕ ℕ → MathematicalModel A → SolverOptions → SolverOptions
resolve_options caps m options = record {
  time_limit = runtime_budget caps m options;
  deadline_pressure = options.deadline_pressure;
}
