-- ===== src/Units/Check.antt =====
-- `UnitChecker` of src/mathmodel_ai/mathematical/units.py. `symbols` is the lookup in the symbol
-- registry: no definition, a definition without a unit, or its unit.
pub mod Quiet
pub mod Parts
pub mod Claims
pub mod Sound
pub mod Model
use math_model_ai.Base.{
  String, Bool, true, false, not, ◌&&◌, Option, none, some, List, [], ◌∷◌, ◌++◌, any, if◌then◌else◌,
  Raise, ok, raise, ◌>>=◌,
}
use math_model_ai.Base.Int.{ℤ}
use math_model_ai.Expression.Syntax.{
  MathExpression, constant, symbol, add, subtract, multiply, divide, power, negate, Operands, end,
  operand,
}
use math_model_ai.Model.{
  UnitExpression, is_known, UnitCheckStatus, ObjectiveDefinition, ConstraintDefinition,
  EquationDefinition, MathematicalModel,
}
use math_model_ai.Units.Types.{
  Floats, UnitError, no_operand, Context, objective_declared_unit, constraint_sides, equation_sides,
  addition_subtraction, UnitMessage, symbol_unknown, unit_unknown, cannot_compare,
  dimension_mismatch, exponent_not_integer, UnitIssue, UnitCheckReport,
}
use math_model_ai.Units.Algebra.{
  no_dimensions, has_no_dimensions, same_dimension, no_unit, multiply_units, divide_units,
  power_unit,
}

abbrev pub is_fail : UnitCheckStatus → Bool
is_fail UnitCheckStatus.fail = true
is_fail _ = false

abbrev pub is_unknown : UnitCheckStatus → Bool
is_unknown UnitCheckStatus.unknown = true
is_unknown _ = false

-- `_status_from_issues`, which `check_model` repeats.
unfoldable pub status_from_issues : List UnitIssue → UnitCheckStatus
status_from_issues issues =
    if any (λ i. is_fail i.status) issues
    then UnitCheckStatus.fail
    else if any (λ i. is_unknown i.status) issues
    then UnitCheckStatus.unknown
    else UnitCheckStatus.pass

-- `_ExpressionUnit`
pub record ExpressionUnit (A : Type 0) : Type 0 where
  pub unit : UnitExpression A
  pub status : UnitCheckStatus
  pub issues : List UnitIssue

abbrev pub unknown_issue : String → UnitMessage → UnitIssue
unknown_issue reference message = record {
  reference = reference;
  status = UnitCheckStatus.unknown;
  message = message;
}

-- `_compare_units`
unfoldable pub compare_units :
    {A : Type 0} → UnitExpression A → UnitExpression A → String → Context → List UnitIssue
unfolding same_dimension
compare_units l r reference context =
    if not (is_known l && is_known r)
    then unknown_issue reference (cannot_compare context) ∷ []
    else if not (same_dimension l r)
    then record {
      reference = reference;
      status = UnitCheckStatus.fail;
      message = dimension_mismatch context l.dimensions r.dimensions;
    }
      ∷ []
    else []

abbrev pub all_issues : {A : Type 0} → List (ExpressionUnit A) → List UnitIssue
all_issues [] = []
all_issues (c ∷ cs) = c.issues ++ all_issues cs

-- The comparisons of the operands after the first with the first.
unfoldable pub compare_all :
    {A : Type 0} → UnitExpression A → String → List (ExpressionUnit A) → List UnitIssue
unfolding compare_units
compare_all unit reference [] = []
compare_all unit reference (c ∷ cs) =
    compare_units unit c.unit reference addition_subtraction ++ compare_all unit reference cs

abbrev pub with_issues : {A : Type 0} → UnitExpression A → List UnitIssue → ExpressionUnit A
with_issues unit issues = record {
  unit = unit;
  status = status_from_issues issues;
  issues = issues;
}

-- The unit of a sum or a difference is that of its first operand.
unfoldable pub sum_unit :
    {A : Type 0} → String → List (ExpressionUnit A) → Raise UnitError (ExpressionUnit A)
unfolding compare_all status_from_issues
sum_unit reference [] = raise no_operand
sum_unit reference (c ∷ cs) =
    ok (with_issues c.unit (all_issues (c ∷ cs) ++ compare_all c.unit reference cs))

module _ (F : Floats) where
  open F use {Num}

  -- `UnitExpression(display="unknown", unknown_units=[symbol])`
  abbrev pub unknown_unit : String → UnitExpression Num
  unknown_unit s = record {
    dimensions = no_dimensions;
    scale = F.unit;
    display = "unknown";
    unknown_units = s ∷ [];
  }

  abbrev pub with_unknown : UnitExpression Num → List UnitIssue → UnitIssue → ExpressionUnit Num
  with_unknown unit issues issue = record {
    unit = unit;
    status = UnitCheckStatus.unknown;
    issues = issues ++ issue ∷ [];
  }

  -- The unit that a symbol is declared with.
  unfoldable pub symbol_unit :
      String → String → Option (Option (UnitExpression Num)) → ExpressionUnit Num
  symbol_unit reference s none =
      with_unknown (unknown_unit s) [] (unknown_issue reference (symbol_unknown s))
  symbol_unit reference s (some none) =
      with_unknown (unknown_unit s) [] (unknown_issue reference (symbol_unknown s))
  symbol_unit reference s (some (some unit)) =
      if is_known unit
      then record { unit = unit; status = UnitCheckStatus.pass; issues = [] }
      else with_unknown unit [] (unknown_issue reference (unit_unknown unit.display))

  unfoldable pub product_unit :
      UnitExpression Num → List (ExpressionUnit Num) → Raise UnitError (UnitExpression Num)
  unfolding multiply_units
  product_unit unit [] = ok unit
  product_unit unit (c ∷ cs) = do next ← multiply_units F unit c.unit; product_unit next cs

  abbrev pub integer_constant : MathExpression Num → Option ℤ
  integer_constant (constant v) = F.as_integer v
  integer_constant _ = none

  abbrev pub is_pure : UnitExpression Num → Bool
  is_pure u = is_known u && has_no_dimensions u.dimensions

  -- The unit of a power from the units of its operands and the integer that its exponent is, if any.
  unfoldable pub raised_unit :
      String
      → ExpressionUnit Num
      → ExpressionUnit Num
      → Option ℤ
      → Raise UnitError (ExpressionUnit Num)
  unfolding power_unit status_from_issues
  raised_unit reference base exponent integer =
      let issues = all_issues (base ∷ exponent ∷ []) in
      if is_pure base.unit && is_pure exponent.unit
      then ok (with_issues (no_unit F) issues)
      else elim integer [
        | none ↦ ok (with_unknown base.unit issues (unknown_issue reference exponent_not_integer))
        | some n ↦ (power_unit F base.unit n >>= λ unit. ok (with_issues unit issues))
      ]

  module _ (symbols : String → Option (Option (UnitExpression Num))) where
    module _ (reference : String) where
      -- `_expression_unit`
      unfoldable mutual
        pub expression_unit : MathExpression Num → Raise UnitError (ExpressionUnit Num)
        expression_unit (constant v) =
            ok (record { unit = no_unit F; status = UnitCheckStatus.pass; issues = [] })
        expression_unit (symbol s) = ok (symbol_unit reference s (symbols s))
        expression_unit (add es) = do cs ← operand_units es; sum_unit reference cs
        expression_unit (subtract a b) = do
          x ← expression_unit a
          y ← expression_unit b
          sum_unit reference (x ∷ y ∷ [])
        expression_unit (multiply es) = do
          cs ← operand_units es
          unit ← product_unit (no_unit F) cs
          ok (with_issues unit (all_issues cs))
        expression_unit (divide a b) = do
          x ← expression_unit a
          y ← expression_unit b
          unit ← divide_units F x.unit y.unit
          ok (with_issues unit (all_issues (x ∷ y ∷ [])))
        expression_unit (power a b) = do
          x ← expression_unit a
          y ← expression_unit b
          raised_unit reference x y (integer_constant b)
        expression_unit (negate a) = do x ← expression_unit a; ok x

        pub operand_units : Operands Num → Raise UnitError (List (ExpressionUnit Num))
        operand_units end = ok []
        operand_units (operand e es) = do c ← expression_unit e; cs ← operand_units es; ok (c ∷ cs)

      -- The issues of two sides that must agree.
      unfoldable pub check_sides :
          Context → MathExpression Num → MathExpression Num → Raise UnitError (List UnitIssue)
      unfolding expression_unit compare_units
      check_sides context a b = do
        l ← expression_unit a
        r ← expression_unit b
        ok ((l.issues ++ r.issues) ++ compare_units l.unit r.unit reference context)

    unfoldable pub check_constraints :
        List (ConstraintDefinition Num) → Raise UnitError (List UnitIssue)
    unfolding check_sides
    check_constraints [] = ok []
    check_constraints (c ∷ cs) = do
      issues ← check_sides c.constraint_id constraint_sides c.expression c.rhs
      rest ← check_constraints cs
      ok (issues ++ rest)

    unfoldable pub check_equations :
        List (EquationDefinition Num) → Raise UnitError (List UnitIssue)
    unfolding check_sides
    check_equations [] = ok []
    check_equations (e ∷ es) = do
      issues ← check_sides e.equation_id equation_sides e.lhs e.rhs
      rest ← check_equations es
      ok (issues ++ rest)

    abbrev pub compare_declared :
        ObjectiveDefinition Num → UnitExpression Num → Option (UnitExpression Num) → List UnitIssue
    compare_declared o unit none = []
    compare_declared o unit (some declared) =
        compare_units unit declared o.objective_id objective_declared_unit

    unfoldable pub check_objective :
        Option (ObjectiveDefinition Num)
        → Raise UnitError (List UnitIssue × Option (UnitExpression Num))
    unfolding expression_unit compare_units
    check_objective none = ok ([], none)
    check_objective (some o) = do
      checked ← expression_unit o.objective_id o.expression
      ok (checked.issues ++ compare_declared o checked.unit o.unit, some checked.unit)

    -- `check_model`
    unfoldable pub check_model : MathematicalModel Num → Raise UnitError (UnitCheckReport Num)
    unfolding check_objective check_constraints check_equations status_from_issues
    check_model m = do
      objective ← check_objective m.objective
      sides ← check_constraints (m.constraints ++ (m.initial_conditions ++ m.boundary_conditions))
      equations ← check_equations m.equations
      let issues = objective.0 ++ (sides ++ equations)
      ok (record {
        status = status_from_issues issues;
        issues = issues;
        objective_unit = objective.1;
      })
