-- ===== src/Expression/Syntax.antt =====
-- src/mathmodel_ai/mathematical/expressions.py: `referenced_symbols` and `evaluate_expression`, over
-- the expression trees that `MathExpression.validate_shape` lets through: a constant has a value and
-- no operands, a symbol a name, negation one operand, the three binary kinds two. A sum and a product
-- have two or more; here they may have any number.
pub mod Laws
use math_model_ai.Base.{
  String, Bool, true, false, not, Option, none, some, List, [], ◌∷◌, ◌++◌, if◌then◌else◌, Raise, ok,
  raise, ◌>>=◌,
}
use math_model_ai.Expression.Arithmetic.{
  Arithmetic, PowerResult, raised, divided_by_nil, complex, real,
}

-- `ExpressionError`, by its message, and the `ZeroDivisionError` of a power that nothing catches.
pub data ExpressionError : Type 0 where
  no_value : String → ExpressionError
  division_by_zero : ExpressionError
  invalid_power : ExpressionError
  power_not_finite_real : ExpressionError
  not_scalar_nor_variable : String → ExpressionError
  nonlinear_product : ExpressionError
  nonlinear_division : ExpressionError
  nonlinear_exponent : ExpressionError
  nonlinear_power : ExpressionError
  uncaught_zero_division : ExpressionError

mutual
  pub data MathExpression (A : Type 0) : Type 0 where
    constant : A → MathExpression A
    symbol : String → MathExpression A
    add : Operands A → MathExpression A
    subtract : MathExpression A → MathExpression A → MathExpression A
    multiply : Operands A → MathExpression A
    divide : MathExpression A → MathExpression A → MathExpression A
    power : MathExpression A → MathExpression A → MathExpression A
    negate : MathExpression A → MathExpression A

  pub data Operands (A : Type 0) : Type 0 where
    end : Operands A
    operand : MathExpression A → Operands A → Operands A

-- The set of the symbols, as a list that may name one twice.
unfoldable mutual
  pub referenced_symbols : {A : Type 0} → MathExpression A → List String
  referenced_symbols (constant v) = []
  referenced_symbols (symbol s) = s ∷ []
  referenced_symbols (add es) = symbols_of es
  referenced_symbols (subtract a b) = referenced_symbols a ++ referenced_symbols b
  referenced_symbols (multiply es) = symbols_of es
  referenced_symbols (divide a b) = referenced_symbols a ++ referenced_symbols b
  referenced_symbols (power a b) = referenced_symbols a ++ referenced_symbols b
  referenced_symbols (negate a) = referenced_symbols a

  pub symbols_of : {A : Type 0} → Operands A → List String
  symbols_of end = []
  symbols_of (operand e es) = referenced_symbols e ++ symbols_of es

module _ (N : Arithmetic) where
  open N use {Num}

  -- `values[symbol]`
  abbrev pub value_of : String → Option Num → Raise ExpressionError Num
  value_of s none = raise (no_value s)
  value_of s (some v) = ok v

  abbrev pub sum_from : Num → List Num → Num
  sum_from acc [] = acc
  sum_from acc (x ∷ xs) = sum_from (N.add acc x) xs

  abbrev pub product_from : Num → List Num → Num
  product_from acc [] = acc
  product_from acc (x ∷ xs) = product_from (N.mul acc x) xs

  abbrev pub quotient : Num → Num → Raise ExpressionError Num
  quotient a b = if N.is_nil b then raise division_by_zero else ok (N.div a b)

  abbrev pub checked_power : PowerResult Num → Raise ExpressionError Num
  checked_power raised = raise invalid_power
  checked_power divided_by_nil = raise uncaught_zero_division
  checked_power complex = raise power_not_finite_real
  checked_power (real r) = if N.is_finite r then ok r else raise power_not_finite_real

  unfoldable mutual
    pub evaluate : MathExpression Num → (String → Option Num) → Raise ExpressionError Num
    evaluate (constant v) values = ok v
    evaluate (symbol s) values = value_of s (values s)
    evaluate (add es) values = do xs ← evaluate_all es values; ok (sum_from N.nil xs)
    evaluate (subtract a b) values = do x ← evaluate a values; y ← evaluate b values; ok (N.sub x y)
    evaluate (multiply es) values = do xs ← evaluate_all es values; ok (product_from N.unit xs)
    evaluate (divide a b) values = do x ← evaluate a values; y ← evaluate b values; quotient x y
    evaluate (power a b) values = do
      x ← evaluate a values
      y ← evaluate b values
      checked_power (N.power x y)
    evaluate (negate a) values = do x ← evaluate a values; ok (N.neg x)

    pub evaluate_all : Operands Num → (String → Option Num) → Raise ExpressionError (List Num)
    evaluate_all end values = ok []
    evaluate_all (operand e es) values = do
      x ← evaluate e values
      xs ← evaluate_all es values
      ok (x ∷ xs)
