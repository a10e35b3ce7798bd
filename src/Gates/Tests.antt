-- ===== src/Gates/Tests.antt =====
-- A small model with units and an indexed variable: the registries and the gate evaluated on it, and the
-- theorems of `Symbols` and `Gates` applied to it. The floats are integers, and each scale is 1.
use math_model_ai.Base.{
  ◌≡◌, refl, String, Bool, true, false, ltb, none, some, [], ◌∷◌, ok, string_eq, is_unique, All,
  map, unique_from, List,
}
use math_model_ai.Base.Dict
use math_model_ai.Base.Int.{ℤ, pos, negsuc, ℤ-discrete, int_eq}
use math_model_ai.Expression.Syntax.{MathExpression, Operands, referenced_symbols}
use math_model_ai.Model.{
  empty_model, no_requirements, ModelFamily, VariableDomain, VariableDefinition, BaseDimension,
  Dimensions, UnitExpression, MathematicalModel,
}
use math_model_ai.Problem.{ProblemTaskType, SubProblem, ProblemState}
use math_model_ai.Symbols.Types.{is_valid, SymbolKind-discrete, VariableDomain-discrete}
use math_model_ai.Symbols.Registry.{
  lookup, unit_equal, conflicting, register, register_all, from_model, validate_references,
  use_expressions, use_symbols, use_symbol, definitions_of, expressions_of, empty_registry,
}
use math_model_ai.Symbols.Registry.Register.{name, first_definition, lookup-register_all}
use math_model_ai.Symbols.Registry.Validity.{AllDeclared, from_model_iff}
use math_model_ai.Symbols.Entries.{equation_key, register_entry, register_entries, equations_of}
use math_model_ai.Symbols.Entries.Laws.{DependsOn, equations_of_iff}
use math_model_ai.Units.Types.{Floats, UnitMessage, UnitCheckReport}
use math_model_ai.Units.Algebra.{same_dimension}
use math_model_ai.Units.Check.{
  expression_unit, sum_unit, compare_all, compare_units, symbol_unit, status_from_issues,
  check_sides, check_constraints, check_equations, check_objective, check_model,
}
use math_model_ai.Units.Check.Model.{IsConsistent}
use math_model_ai.Solvers.Types.{SolverFamily, SolverCapability, AlgorithmPlan}
use math_model_ai.Solvers.Policy.{preference, required_capabilities}
use math_model_ai.Gates.Types.{QualityGateStatus, QualityGateResult}
use math_model_ai.Gates.Model.{
  unresolved_critical, model_checks, model_errors, model_warnings, unit_lookup, model_quality_gate,
}
use math_model_ai.Gates.Model.Accepted.{IsAccepted, model_quality_gate_iff}
use math_model_ai.Gates.Model.Onward.{model_quality_gate-router, model_quality_gate-IsConsistent}

abbrev positive : ℤ → Bool
positive (pos n) = ltb 0 n
positive (negsuc _) = false

abbrev integers : Floats
integers = record {
  Num = ℤ;
  unit = pos 1;
  mul = λ a b. a;
  div = λ a b. a;
  raised_to = λ a n. some a;
  is_scale = positive;
  as_integer = λ n. some n;
  show = λ n. "n";
}

abbrev same_scale : ℤ → ℤ → Bool
same_scale a b = true

abbrev message : UnitMessage → String
message _ = "a unit is not certain"

abbrev metre : UnitExpression ℤ
metre = record { dimensions = metres; scale = pos 1; display = "m"; unknown_units = [] }
  where
    metres : Dimensions
    metres BaseDimension.length = some (pos 1)
    metres _ = none

abbrev variable_of : String → List String → VariableDefinition ℤ
variable_of s index_sets = record {
  variable_id = s;
  symbol = s;
  description = "a length";
  index_sets = index_sets;
  domain = VariableDomain.continuous;
  unit = some metre;
}

abbrev x : MathExpression ℤ
x = MathExpression.symbol "x"

abbrev y1 : MathExpression ℤ
y1 = MathExpression.symbol "y[1]"

abbrev model : MathematicalModel ℤ
model = record (empty_model ModelFamily.linear_programming) {
  target_subproblems = "Q1" ∷ [];
  decision_variables = variable_of "x" [] ∷ variable_of "y" ("I" ∷ []) ∷ [];
  objective = some (record {
    objective_id = "o";
    expression = MathExpression.add (Operands.operand x (Operands.operand y1 Operands.end));
    unit = some metre;
    equation_ref = "e1";
  });
  constraints = record { constraint_id = "c"; expression = x; rhs = y1; equation_ref = "e2" } ∷ [];
  equations =
      record { equation_id = "e1"; lhs = x; rhs = y1; dependency_refs = [] }
      ∷ record { equation_id = "e2"; lhs = x; rhs = y1; dependency_refs = "e1" ∷ [] }
      ∷ [];
  solver_requirements = record no_requirements {
    required_capabilities = "LP" ∷ [];
    preferred_solver_families = "SCIPY_HIGHS" ∷ [];
  };
}

abbrev subproblem : SubProblem
subproblem = record {
  subproblem_id = "Q1";
  order = 1;
  original_text = "the least sum";
  normalized_goal = "the least sum";
  output_required = "the values" ∷ [];
  task_types = ProblemTaskType.optimization ∷ [];
  ambiguity_refs = [];
}

abbrev state : ProblemState
state = record {
  subproblems = subproblem ∷ [];
  ambiguities = [];
  selected_model = some "CAND-1";
  datasets = [];
}

model_valid : is_valid (from_model same_scale model).issues ≡ true
unfolding from_model validate_references register_all register conflicting unit_equal ℤ-discrete
    SymbolKind-discrete VariableDomain-discrete use_expressions use_symbols use_symbol lookup
    referenced_symbols
model_valid = refl

from_model_iff_example :
    (is_unique (map name (definitions_of model)) ≡ true)
    × AllDeclared (definitions_of model) (expressions_of model)
from_model_iff_example = (from_model_iff same_scale model).0 model_valid

lookup-register_all_example :
    Dict.lookup "y" (register_all same_scale (definitions_of model) empty_registry).symbols
    ≡ first_definition (definitions_of model) "y"
lookup-register_all_example = lookup-register_all same_scale (definitions_of model) "y"

equations_valid : is_valid (equations_of model).issues ≡ true
unfolding equations_of register_entries register_entry
equations_valid = refl

equations_of_iff_example :
    (is_unique (map equation_key model.equations) ≡ true)
    × All (DependsOn (map equation_key model.equations)) model.equations
equations_of_iff_example = (equations_of_iff model).0 equations_valid

-- What the gate returns.
abbrev passed : QualityGateResult
passed = record {
  gate = "MODEL";
  status = QualityGateStatus.pass;
  checks =
      ("selected_model_exists", true)
      ∷ ("selected_model_matches", true)
      ∷ ("target_subproblems_known", true)
      ∷ ("decision_variables_present", true)
      ∷ ("optimization_objective_present", true)
      ∷ ("symbol_registry_valid", true)
      ∷ ("parameter_sources_present", true)
      ∷ ("data_bindings_resolve", true)
      ∷ ("equation_registry_valid", true)
      ∷ ("required_equations_present", true)
      ∷ ("no_explicit_unit_failure", true)
      ∷ ("critical_ambiguities_resolved", true)
      ∷ ("critical_assumptions_supported", true)
      ∷ ("solver_requirements_valid", true)
      ∷ [];
  errors = [];
  warnings = [];
}

model_passes : model_quality_gate integers same_scale message model state ≡ ok passed
unfolding model_quality_gate model_errors model_warnings model_checks unresolved_critical
    unique_from from_model validate_references register_all register conflicting unit_equal
    ℤ-discrete SymbolKind-discrete VariableDomain-discrete use_expressions use_symbols use_symbol
    lookup referenced_symbols equations_of register_entries register_entry check_model
    check_objective check_constraints check_equations check_sides expression_unit sum_unit
    compare_all compare_units same_dimension symbol_unit status_from_issues
model_passes = refl

model_quality_gate_iff_example :
    (report : UnitCheckReport ℤ) × (check_model integers
        (unit_lookup integers same_scale message (from_model same_scale model))
        model
      ≡ ok report)
    × IsAccepted model state report.status
model_quality_gate_iff_example =
    (model_quality_gate_iff integers same_scale message model state model_passes).0 refl

abbrev plan : AlgorithmPlan
plan = record { recommended_solver_family = none; alternatives = [] }

model_quality_gate-router_example :
    ((families : List SolverFamily) × (preference model.solver_requirements plan ≡ ok families))
    × ((capabilities : List SolverCapability) × (required_capabilities model.model_family
            model.solver_requirements
          ≡ ok capabilities))
model_quality_gate-router_example =
    model_quality_gate-router integers same_scale message model state plan model_passes refl

model_quality_gate-IsConsistent_example :
    IsConsistent integers
      (unit_lookup integers same_scale message (from_model same_scale model))
      model
model_quality_gate-IsConsistent_example =
    model_quality_gate-IsConsistent integers same_scale message model state model_passes refl refl
