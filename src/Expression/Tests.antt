-- ===== src/Expression/Tests.antt =====
-- The laws of arithmetic hold of the numbers modulo three, where expressions are evaluated.
use math_model_ai.Base.{
  ◌≡◌, refl, ap, String, Bool, true, false, Option, none, some, List, [], ◌∷◌, Memᴰ, ok, sym, ◌==◌,
  string_eq, if◌then◌else◌, arith,
}
use math_model_ai.Expression.Arithmetic.{Arithmetic, IsExact, PowerResult}
use math_model_ai.Expression.Syntax.{MathExpression, Operands, referenced_symbols, evaluate}
use math_model_ai.Expression.Syntax.Laws.{evaluate-referenced_symbols}
use math_model_ai.Expression.Linear.{
  LinearForm, merge, drop_nil, times, plus, scaled, multiply_by, multiply_forms, linearize,
}
use math_model_ai.Expression.Linear.Meaning.{meaning}
use math_model_ai.Expression.Linear.Sound.{assignment, evaluate-linearize}

data Z3 : Type 0 where
  z0 z1 z2 : Z3

abbrev plus3 : Z3 → Z3 → Z3
plus3 z0 b = b
plus3 z1 z0 = z1
plus3 z1 z1 = z2
plus3 z1 z2 = z0
plus3 z2 z0 = z2
plus3 z2 z1 = z0
plus3 z2 z2 = z1

abbrev times3 : Z3 → Z3 → Z3
times3 z0 b = z0
times3 z1 b = b
times3 z2 z0 = z0
times3 z2 z1 = z2
times3 z2 z2 = z1

abbrev neg3 : Z3 → Z3
neg3 z0 = z0
neg3 z1 = z2
neg3 z2 = z1

abbrev power3 : Z3 → Z3 → PowerResult Z3
power3 a z0 = PowerResult.real z1
power3 a z1 = PowerResult.real a
power3 a z2 = PowerResult.real (times3 a a)

abbrev is_z0 : Z3 → Bool
is_z0 z0 = true
is_z0 _ = false

abbrev is_z1 : Z3 → Bool
is_z1 z1 = true
is_z1 _ = false

-- A number other than 0 is its own inverse.
abbrev modulo_three : Arithmetic
modulo_three = record {
  Num = Z3;
  nil = z0;
  unit = z1;
  add = plus3;
  sub = λ a b. plus3 a (neg3 b);
  mul = times3;
  neg = neg3;
  div = times3;
  power = power3;
  is_nil = is_z0;
  is_unit = is_z1;
  is_finite = λ _. true;
}

modulo_three-IsExact : IsExact modulo_three
modulo_three-IsExact = record {
  add_comm = λ a b. ground arith;
  add_assoc = λ a b c. ground arith;
  add_nil = λ a. ground arith;
  mul_comm = λ a b. ground arith;
  mul_assoc = λ a b c. ground arith;
  mul_unit = λ a. ground arith;
  mul_nil = λ a. ground arith;
  mul_add = λ a b c. ground arith;
  sub_lem = λ a b. ground arith;
  neg_lem = λ a. ground arith;
  div_lem = λ a b n. refl;
  is_nil_iff = λ a. (λ h. ground arith, λ h. ground arith);
  is_unit_iff = λ a. (λ h. ground arith, λ h. ground arith);
  power_nil = λ a. refl;
  power_unit = λ a. refl;
  finite = λ a. refl;
}

-- `(x + k) * 2 - y`
abbrev expression : MathExpression Z3
expression =
    MathExpression.subtract
      (MathExpression.multiply (
        Operands.operand
          (MathExpression.add (
            Operands.operand (MathExpression.symbol "x")
              (Operands.operand (MathExpression.symbol "k") Operands.end)))
          (Operands.operand (MathExpression.constant z2) Operands.end)))
      (MathExpression.symbol "y")

abbrev variables : List String
variables = "x" ∷ "y" ∷ []

abbrev parameters : String → Option Z3
parameters _ = some z2

abbrev form : LinearForm Z3
form = record { coefficients = ("x", z2) ∷ ("y", z2) ∷ []; constant = z1 }

expression_is_linear : linearize modulo_three variables parameters expression ≡ ok form
unfolding linearize plus merge drop_nil scaled times multiply_forms multiply_by
expression_is_linear = refl

abbrev env : String → Z3
env _ = z1

evaluate-linearize_example :
    evaluate modulo_three expression (assignment variables parameters env)
    ≡ ok (meaning modulo_three env form)
evaluate-linearize_example =
    evaluate-linearize modulo_three modulo_three-IsExact env variables parameters expression
      expression_is_linear

abbrev half : MathExpression Z3
half = MathExpression.negate (MathExpression.symbol "x")

abbrev everywhere : String → Option Z3
everywhere s = some z2

abbrev only_x : String → Option Z3
only_x s = if s == "x" then some z2 else none

agree_on_half : (s : String) → Memᴰ s (referenced_symbols half) → everywhere s ≡ only_x s
unfolding referenced_symbols
agree_on_half s (Memᴰ.head e) = ap (λ t. if t == "x" then some z2 else none) (sym e)
agree_on_half s (Memᴰ.tail m) = elim m [ ]

evaluate-referenced_symbols_example :
    evaluate modulo_three half everywhere ≡ evaluate modulo_three half only_x
evaluate-referenced_symbols_example =
    evaluate-referenced_symbols modulo_three everywhere only_x half agree_on_half
