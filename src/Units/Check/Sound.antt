-- ===== src/Units/Check/Sound.antt =====
-- `_expression_unit` of src/mathmodel_ai/mathematical/units.py and the rules of dimensional analysis.
use math_model_ai.Base.{◌≡◌, refl, subst, true, Option, List, String, ok, >>=-eq-ok, ok-injective}
use math_model_ai.Expression.Syntax.{
  MathExpression, Operands, constant, symbol, add, subtract, multiply, divide, power, negate, end,
  operand,
}
use math_model_ai.Model.{UnitExpression, is_known}
use math_model_ai.Units.Types.{Floats}
use math_model_ai.Units.Algebra.{no_unit, divide_units}
use math_model_ai.Units.Algebra.Laws.{exponent}
use math_model_ai.Units.Dimension.{HasDimension}
use math_model_ai.Units.Check.{
  ExpressionUnit, all_issues, product_unit, expression_unit, operand_units,
}
use math_model_ai.Units.Check.Quiet.{Quiet, Quiet-append}
use math_model_ai.Units.Check.Parts.{Claim, returned, symbol_right}
use math_model_ai.Units.Check.Claims.{
  Claims, add_claim, difference_claim, product_claim, quotient_claim, power_claim,
}

module _ (F : Floats) (symbols : String → Option (Option (UnitExpression F.Num))) where
  module _ (reference : String) where
    mutual
      unfolding expression_unit

      expression_claim :
          (e : MathExpression F.Num) {c : ExpressionUnit F.Num}
          → expression_unit F symbols reference e ≡ ok c
          → Claim F symbols e c
      expression_claim (constant v) h =
          returned F symbols (constant v) _ h (λ _. (HasDimension.constant (λ d. refl), refl))
      expression_claim (symbol s) h =
          returned F symbols (symbol s) _ h (symbol_right F symbols reference s (symbols s) refl)
      expression_claim (add es) h =
          let (cs, p, rest) = >>=-eq-ok (operand_units F symbols reference es) _ h in
          add_claim F symbols reference es cs (operands_claim es p) rest
      expression_claim (subtract a b) h =
          let (x, p, rest) = >>=-eq-ok (expression_unit F symbols reference a) _ h in
          let (y, q, more) = >>=-eq-ok (expression_unit F symbols reference b) _ rest in
          difference_claim F symbols reference a b x y (expression_claim a p) (expression_claim b q)
            more
      expression_claim (multiply es) h =
          let (cs, p, rest) = >>=-eq-ok (operand_units F symbols reference es) _ h in
          let (u, q, more) = >>=-eq-ok (product_unit F (no_unit F) cs) _ rest in
          product_claim F symbols reference es cs u (operands_claim es p) q more
      expression_claim (divide a b) h =
          let (x, p, rest) = >>=-eq-ok (expression_unit F symbols reference a) _ h in
          let (y, q, more) = >>=-eq-ok (expression_unit F symbols reference b) _ rest in
          let (u, r, last) = >>=-eq-ok (divide_units F x.unit y.unit) _ more in
          quotient_claim F symbols reference a b x y u (expression_claim a p) (expression_claim b q)
            r last
      expression_claim (power a b) h =
          let (x, p, rest) = >>=-eq-ok (expression_unit F symbols reference a) _ h in
          let (y, q, more) = >>=-eq-ok (expression_unit F symbols reference b) _ rest in
          power_claim F symbols reference a b x y (expression_claim a p) (expression_claim b q) more
      expression_claim (negate a) h =
          let (x, p, rest) = >>=-eq-ok (expression_unit F symbols reference a) _ h in
          returned F symbols (negate a) x rest (λ quiet.
            let (has, known) = expression_claim a p quiet in (HasDimension.negate has, known))

      operands_claim :
          (es : Operands F.Num) {cs : List (ExpressionUnit F.Num)}
          → operand_units F symbols reference es ≡ ok cs
          → Claims F symbols reference es cs
      operands_claim end h =
          subst (λ xs. Claims F symbols reference end xs) (ok-injective h) (λ _. tt)
      operands_claim (operand e es) h =
          let (c, p, rest) = >>=-eq-ok (expression_unit F symbols reference e) _ h in
          let (cs, q, same) = >>=-eq-ok (operand_units F symbols reference es) _ rest in
          subst (λ xs. Claims F symbols reference (operand e es) xs) (ok-injective same)
            (λ quiet.
              let (here, there) = Quiet-append c.issues (all_issues cs) quiet in
              (expression_claim e p here, operands_claim es q there))

    -- If the checker returns for an expression and no issue fails or is unknown, then the expression has, by the
    -- rules of dimensional analysis, the dimension of the unit that the checker returned, and that unit is known.
    pub expression_unit-HasDimension :
        (e : MathExpression F.Num) {c : ExpressionUnit F.Num}
        → expression_unit F symbols reference e ≡ ok c
        → Quiet c.issues
        → HasDimension F symbols e (exponent c.unit) × (is_known c.unit ≡ true)
    expression_unit-HasDimension e h quiet = expression_claim e h quiet
