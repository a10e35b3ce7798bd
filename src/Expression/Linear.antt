-- ===== src/Expression/Linear.antt =====
-- src/mathmodel_ai/mathematical/expressions.py: `LinearForm` and `linearize_expression`.
pub mod Meaning
pub mod Sound
use math_model_ai.Base.{
  String, Bool, true, false, not, ◌&&◌, Option, none, some, List, [], ◌∷◌, contains, string_eq,
  is_empty, if◌then◌else◌, Raise, ok, raise, ◌>>=◌,
}
use math_model_ai.Base.Dict
use math_model_ai.Base.Dict.{Dict}
use math_model_ai.Expression.Arithmetic.{Arithmetic}
use math_model_ai.Expression.Syntax.{
  ExpressionError, division_by_zero, not_scalar_nor_variable, nonlinear_product, nonlinear_division,
  nonlinear_exponent, nonlinear_power, MathExpression, constant, symbol, add, subtract, multiply,
  divide, power, negate, Operands, end, operand,
}

pub record LinearForm (A : Type 0) : Type 0 where
  pub coefficients : Dict String A
  pub constant : A

module _ (N : Arithmetic) where
  open N use {Num}

  abbrev pub constant_form : Num → LinearForm Num
  constant_form v = record { coefficients = []; constant = v }

  -- `for symbol, value in other: coefficients[symbol] = coefficients.get(symbol, 0.0) + value`
  unfoldable pub merge : Dict String Num → Dict String Num → Dict String Num
  merge d [] = d
  merge d ((s, v) ∷ other) = merge (Dict.insert s (N.add (Dict.get_or s N.nil d) v) d) other

  -- `{key: value for key, value in coefficients.items() if value != 0}`
  unfoldable pub drop_nil : Dict String Num → Dict String Num
  drop_nil [] = []
  drop_nil ((s, v) ∷ d) = let rest = drop_nil d in if N.is_nil v then rest else (s, v) ∷ rest

  unfoldable pub times : Num → Dict String Num → Dict String Num
  times factor [] = []
  times factor ((s, v) ∷ d) = (s, N.mul v factor) ∷ times factor d

  unfoldable pub plus : LinearForm Num → LinearForm Num → LinearForm Num
  unfolding merge drop_nil
  plus l r = record {
    coefficients = drop_nil (merge l.coefficients r.coefficients);
    constant = N.add l.constant r.constant;
  }

  unfoldable pub scaled : LinearForm Num → Num → LinearForm Num
  unfolding times
  scaled l factor = record {
    coefficients = times factor l.coefficients;
    constant = N.mul l.constant factor;
  }

  abbrev pub is_symbolic : LinearForm Num → Bool
  is_symbolic l = not (is_empty l.coefficients)

  abbrev pub sum_forms : LinearForm Num → List (LinearForm Num) → LinearForm Num
  sum_forms acc [] = acc
  sum_forms acc (f ∷ fs) = sum_forms (plus acc f) fs

  -- One round of the loop over the factors of a product.
  unfoldable pub multiply_by :
      LinearForm Num → LinearForm Num → Raise ExpressionError (LinearForm Num)
  unfolding scaled
  multiply_by result f =
      if is_symbolic result && is_symbolic f
      then raise nonlinear_product
      else if is_symbolic f
      then ok (scaled f result.constant)
      else ok (scaled result f.constant)

  unfoldable pub multiply_forms :
      LinearForm Num → List (LinearForm Num) → Raise ExpressionError (LinearForm Num)
  unfolding multiply_by
  multiply_forms result [] = ok result
  multiply_forms result (f ∷ fs) = do next ← multiply_by result f; multiply_forms next fs

  unfoldable pub divide_forms :
      LinearForm Num → LinearForm Num → Raise ExpressionError (LinearForm Num)
  unfolding scaled
  divide_forms numerator denominator =
      if is_symbolic denominator
      then raise nonlinear_division
      else if N.is_nil denominator.constant
      then raise division_by_zero
      else ok (scaled numerator (N.div N.unit denominator.constant))

  unfoldable pub power_forms :
      LinearForm Num → LinearForm Num → Raise ExpressionError (LinearForm Num)
  power_forms base exponent =
      if is_symbolic exponent
      then raise nonlinear_exponent
      else if N.is_nil exponent.constant
      then ok (constant_form N.unit)
      else if N.is_unit exponent.constant
      then ok base
      else raise nonlinear_power

  abbrev pub parameter_form : String → Option Num → Raise ExpressionError (LinearForm Num)
  parameter_form s none = raise (not_scalar_nor_variable s)
  parameter_form s (some v) = ok (constant_form v)

  abbrev pub symbol_form :
      List String → (String → Option Num) → String → Raise ExpressionError (LinearForm Num)
  symbol_form variables parameters s =
      if contains s variables
      then ok (record { coefficients = (s, N.unit) ∷ []; constant = N.nil })
      else parameter_form s (parameters s)

  module _ (variables : List String) (parameters : String → Option Num) where
    unfoldable mutual
      pub linearize : MathExpression Num → Raise ExpressionError (LinearForm Num)
      linearize (constant v) = ok (constant_form v)
      linearize (symbol s) = symbol_form variables parameters s
      linearize (add es) = do fs ← linearize_all es; ok (sum_forms (constant_form N.nil) fs)
      linearize (subtract a b) = do
        f ← linearize a
        g ← linearize b
        ok (plus f (scaled g (N.neg N.unit)))
      linearize (multiply es) = do fs ← linearize_all es; multiply_forms (constant_form N.unit) fs
      linearize (divide a b) = do f ← linearize a; g ← linearize b; divide_forms f g
      linearize (power a b) = do f ← linearize a; g ← linearize b; power_forms f g
      linearize (negate a) = do f ← linearize a; ok (scaled f (N.neg N.unit))

      pub linearize_all : Operands Num → Raise ExpressionError (List (LinearForm Num))
      linearize_all end = ok []
      linearize_all (operand e es) = do f ← linearize e; fs ← linearize_all es; ok (f ∷ fs)
