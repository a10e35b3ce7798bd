-- ===== src/Units/Types.antt =====
-- The values of src/mathmodel_ai/mathematical/units.py. A scale is a float, so its type and operations
-- are a parameter.
use math_model_ai.Base.{String, Bool, Option, List}
use math_model_ai.Base.Int.{ℤ}
use math_model_ai.Model.{Dimensions, UnitExpression, UnitCheckStatus}

-- Python's floats, as far as units need them. `raised_to` is `scale ** exponent`, or nothing where that
-- raises. `is_scale` says that a float is positive and finite. `as_integer` is `int(value)` where
-- `value.is_integer()`. `show` prints an exponent.
pub record Floats : Type 1 where
  pub Num : Type 0
  pub unit : Num
  pub mul : Num → Num → Num
  pub div : Num → Num → Num
  pub raised_to : Num → ℤ → Option Num
  pub is_scale : Num → Bool
  pub as_integer : Num → Option ℤ
  pub show : ℤ → String

-- What the checker may raise: a `ValidationError` of `UnitExpression`, an `OverflowError`, or the
-- `IndexError` of a sum without operands, which the shape of an expression rules out.
pub data UnitError : Type 0 where
  invalid_scale dimensionless_exponent overflow no_operand : UnitError

-- What is compared.
pub data Context : Type 0 where
  objective_declared_unit constraint_sides equation_sides addition_subtraction : Context

pub data UnitMessage : Type 0 where
  symbol_unknown : String → UnitMessage
  unit_unknown : String → UnitMessage
  cannot_compare : Context → UnitMessage
  dimension_mismatch : Context → Dimensions → Dimensions → UnitMessage
  exponent_not_integer : UnitMessage

pub record UnitIssue : Type 0 where
  pub reference : String
  pub status : UnitCheckStatus
  pub message : UnitMessage

pub record UnitCheckReport (A : Type 0) : Type 0 where
  pub status : UnitCheckStatus
  pub issues : List UnitIssue
  pub objective_unit : Option (UnitExpression A)
