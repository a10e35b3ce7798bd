-- ===== src/Units/Tests.antt =====
-- A small model with units: its check evaluated, and the theorems of `Units` applied to it. The floats
-- are integers, and each scale is 1.
use math_model_ai.Base.{
  ◌≡◌, refl, String, Bool, true, false, ltb, Option, none, some, [], ◌∷◌, ok, ◌==◌, string_eq,
  if◌then◌else◌, unique_from, Raise, raise,
}
use math_model_ai.Base.Int.{ℤ, pos, negsuc, ◌+ℤ◌, ◌-ℤ◌, ◌*ℤ◌, ℤ-discrete}
use math_model_ai.Expression.Syntax.{MathExpression, Operands}
use math_model_ai.Model.{
  empty_model, ModelFamily, BaseDimension, Dimensions, UnitExpression, UnitCheckStatus,
  MathematicalModel,
}
use math_model_ai.Units.Types.{Floats, UnitError, UnitCheckReport}
use math_model_ai.Units.Algebra.{
  no_unit, new_unit, multiply_units, divide_units, power_unit, same_dimension, without_zero,
  combined, powered, is_some_nonzero,
}
use math_model_ai.Units.Algebra.Inverse.{divide_units-multiply_units, power_unit-same_dimension}
use math_model_ai.Units.Algebra.Laws.{exponent}
use math_model_ai.Units.Check.{
  ExpressionUnit, expression_unit, sum_unit, compare_all, compare_units, product_unit, raised_unit,
  symbol_unit, status_from_issues, check_sides, check_constraints, check_equations, check_objective,
  check_model,
}
use math_model_ai.Units.Check.Model.{IsConsistent, check_model_pass}

abbrev positive : ℤ → Bool
positive (pos n) = ltb 0 n
positive (negsuc _) = false

abbrev integers : Floats
integers = record {
  Num = ℤ;
  unit = pos 1;
  mul = λ a b. a;
  div = λ a b. a;
  raised_to = λ a n. some a;
  is_scale = positive;
  as_integer = λ n. some n;
  show = λ n. "n";
}

abbrev unit_of : Dimensions → String → UnitExpression ℤ
unit_of dimensions display = record {
  dimensions = dimensions;
  scale = pos 1;
  display = display;
  unknown_units = [];
}

abbrev metre : UnitExpression ℤ
metre = unit_of metres "m"
  where
    metres : Dimensions
    metres BaseDimension.length = some (pos 1)
    metres _ = none

abbrev second : UnitExpression ℤ
second = unit_of seconds "s"
  where
    seconds : Dimensions
    seconds BaseDimension.time = some (pos 1)
    seconds _ = none

abbrev speed : UnitExpression ℤ
speed = unit_of metres_per_second "m/s"
  where
    metres_per_second : Dimensions
    metres_per_second BaseDimension.length = some (pos 1)
    metres_per_second BaseDimension.time = some (negsuc 0)
    metres_per_second _ = none

abbrev symbols : String → Option (Option (UnitExpression ℤ))
symbols s =
    if s == "x"
    then some (some metre)
    else if s == "t"
    then some (some second)
    else if s == "v"
    then some (some speed)
    else none

abbrev x : MathExpression ℤ
x = MathExpression.symbol "x"

abbrev t : MathExpression ℤ
t = MathExpression.symbol "t"

abbrev v : MathExpression ℤ
v = MathExpression.symbol "v"

abbrev pair : MathExpression ℤ → MathExpression ℤ → Operands ℤ
pair a b = Operands.operand a (Operands.operand b Operands.end)

-- `v * t`
abbrev way : MathExpression ℤ
way = MathExpression.multiply (pair v t)

-- `x ^ 2 / t`
abbrev rate : MathExpression ℤ
rate = MathExpression.divide (MathExpression.power x (MathExpression.constant (pos 2))) t

abbrev model : MathematicalModel ℤ
model = record (empty_model ModelFamily.dynamic_system) {
  objective = some (record {
    objective_id = "o";
    expression = MathExpression.add (pair way x);
    unit = some metre;
    equation_ref = "e";
  });
  constraints =
      record {
        constraint_id = "c";
        expression = rate;
        rhs = MathExpression.multiply (pair x v);
        equation_ref = "e";
      }
      ∷ [];
  initial_conditions =
      record { constraint_id = "i"; expression = x; rhs = way; equation_ref = "e" } ∷ [];
  equations =
      record { equation_id = "e"; lhs = v; rhs = MathExpression.divide x t; dependency_refs = [] }
      ∷ [];
}

abbrev returned : {A : Type 0} → Raise UnitError A → Option A
returned (ok r) = some r
returned (raise _) = none

-- The report on the model.
abbrev report : UnitCheckReport ℤ
report = record {
  status = UnitCheckStatus.pass;
  issues = [];
  objective_unit = some (record {
    dimensions = λ d. without_zero (
        combined ◌+ℤ◌ (without_zero (combined ◌+ℤ◌ none (speed.dimensions d)))
          (second.dimensions d));
    scale = pos 1;
    display = "((1)*(m/s))*(s)";
    unknown_units = [];
  });
}

model_passes : check_model integers symbols model ≡ ok report
unfolding check_model check_objective check_constraints check_equations check_sides expression_unit
    sum_unit compare_all compare_units same_dimension product_unit multiply_units divide_units
    power_unit raised_unit new_unit unique_from symbol_unit status_from_issues ◌+ℤ◌ ◌-ℤ◌ ◌*ℤ◌
    ℤ-discrete
model_passes = refl

check_model_pass_example : IsConsistent integers symbols model
check_model_pass_example = check_model_pass integers symbols model model_passes refl

-- What the checker returns for `rate`: a unit and no issue.
abbrev rate_unit : ExpressionUnit ℤ
rate_unit = record {
  unit = record {
    dimensions = λ d.
        without_zero (combined ◌-ℤ◌ (powered (pos 2) (metre.dimensions d)) (second.dimensions d));
    scale = pos 1;
    display = "((m)^n)/(s)";
    unknown_units = [];
  };
  status = UnitCheckStatus.pass;
  issues = [];
}

rate_has_unit : expression_unit integers symbols "c" rate ≡ ok rate_unit
unfolding expression_unit divide_units power_unit raised_unit new_unit unique_from symbol_unit
    status_from_issues ◌-ℤ◌ ◌*ℤ◌ ℤ-discrete
rate_has_unit = refl

-- A speed times a time, and a length divided by a time again.
abbrev speed_time : UnitExpression ℤ
speed_time = record {
  dimensions = λ d. without_zero (combined ◌+ℤ◌ (speed.dimensions d) (second.dimensions d));
  scale = pos 1;
  display = "(m/s)*(s)";
  unknown_units = [];
}

abbrev speed_again : UnitExpression ℤ
speed_again = record {
  dimensions = λ d. without_zero (combined ◌-ℤ◌ (speed_time.dimensions d) (second.dimensions d));
  scale = pos 1;
  display = "((m/s)*(s))/(s)";
  unknown_units = [];
}

product_of_units : multiply_units integers speed second ≡ ok speed_time
unfolding multiply_units new_unit unique_from ◌+ℤ◌ ℤ-discrete
product_of_units = refl

quotient_of_units : divide_units integers speed_time second ≡ ok speed_again
unfolding divide_units new_unit unique_from ◌+ℤ◌ ◌-ℤ◌ ℤ-discrete
quotient_of_units = refl

divide_units-multiply_units_example :
    exponent speed_again BaseDimension.time ≡ exponent speed BaseDimension.time
divide_units-multiply_units_example =
    divide_units-multiply_units integers speed second product_of_units quotient_of_units
      BaseDimension.time

-- `m ^ 0`
abbrev metre_to_nought : UnitExpression ℤ
metre_to_nought = record {
  dimensions = λ d. powered (pos 0) (metre.dimensions d);
  scale = pos 1;
  display = "(m)^n";
  unknown_units = [];
}

power_to_nought : power_unit integers metre (pos 0) ≡ ok metre_to_nought
unfolding power_unit new_unit ◌*ℤ◌ ℤ-discrete
power_to_nought = refl

metre_has_length : is_some_nonzero (metre.dimensions BaseDimension.length) ≡ true
unfolding ℤ-discrete
metre_has_length = refl

power_unit-same_dimension_example : same_dimension metre_to_nought (no_unit integers) ≡ false
power_unit-same_dimension_example =
    power_unit-same_dimension integers metre BaseDimension.length metre_has_length power_to_nought
