-- ===== src/Units/Check/Parts.antt =====
-- What a symbol, the operands of a sum and the factors of a product contribute to a unit.
use mathlib.Core.Path.{fun_ext}
use math_model_ai.Base.{
  ◌≡◌, refl, sym, ◌∙◌, ap, subst, Bool, true, false, Option, none, some, List, [], ◌∷◌, Bool-cases,
  inl, inr, String, Raise, ok, >>=-eq-ok, ok-injective,
}
use math_model_ai.Base.Int.{ℤ, pos, ◌+ℤ◌, +ℤ_zero, +ℤ_assoc}
use math_model_ai.Expression.Syntax.{MathExpression, Operands}
use math_model_ai.Model.{BaseDimension, UnitExpression, is_known}
use math_model_ai.Units.Types.{Floats, UnitError, Context}
use math_model_ai.Units.Algebra.{multiply_units}
use math_model_ai.Units.Algebra.Laws.{exponent, same_dimension-exponent, exponent-multiply_units}
use math_model_ai.Units.Dimension.{Dimension, HasDimension, AllHave, ProductHas}
use math_model_ai.Units.Check.{
  ExpressionUnit, compare_all, symbol_unit, product_unit, integer_constant, compare_units,
}
use math_model_ai.Units.Check.Quiet.{Quiet, Quiet-append, compare_units-Quiet}

module _ (F : Floats) (symbols : String → Option (Option (UnitExpression F.Num))) where
  pub along :
      (e : MathExpression F.Num) (α β : Dimension)
      → ((d : BaseDimension) → α d ≡ β d)
      → HasDimension F symbols e α
      → HasDimension F symbols e β
  along e α β h t = subst (λ δ. HasDimension F symbols e δ) (fun_ext h) t

  -- What the checker found is right.
  abbrev pub IsRight : MathExpression F.Num → ExpressionUnit F.Num → Type 0
  IsRight e c = HasDimension F symbols e (exponent c.unit) × (is_known c.unit ≡ true)

  abbrev pub AreRight : Operands F.Num → List (ExpressionUnit F.Num) → Type 0
  AreRight Operands.end [] = Unit
  AreRight Operands.end (c ∷ cs) = ⊥
  AreRight (Operands.operand e es) [] = ⊥
  AreRight (Operands.operand e es) (c ∷ cs) = IsRight e c × AreRight es cs

  -- The claim for a result of the checker.
  abbrev pub Claim : MathExpression F.Num → ExpressionUnit F.Num → Type 0
  Claim e c = Quiet c.issues → IsRight e c

  pub returned :
      (e : MathExpression F.Num) (x : ExpressionUnit F.Num) {c : ExpressionUnit F.Num}
      → ◌≡◌ {A = Raise UnitError (ExpressionUnit F.Num)} (ok x) (ok c)
      → Claim e x
      → Claim e c
  returned e x h claim = subst (λ y. Claim e y) (ok-injective h) claim

  pub symbol_right :
      (reference s : String) (answer : Option (Option (UnitExpression F.Num)))
      → symbols s ≡ answer
      → Claim (MathExpression.symbol s) (symbol_unit F reference s answer)
  unfolding symbol_unit
  symbol_right reference s none found quiet = cc
  symbol_right reference s (some none) found quiet = cc
  symbol_right reference s (some (some u)) found quiet = elim (Bool-cases (is_known u)) [
    | inl known ↦ rw known (HasDimension.symbol found known (λ d. refl), known)
    | inr other ↦ absurd (noisy (rw other at quiet))
  ]
    where
      noisy : ◌≡◌ {A = Bool} true false → ⊥
      noisy h = cc

  pub rest_agrees :
      (u : UnitExpression F.Num) (reference : String) (es : Operands F.Num)
      (cs : List (ExpressionUnit F.Num))
      → AreRight es cs
      → Quiet (compare_all u reference cs)
      → AllHave F symbols es (exponent u)
  unfolding compare_all
  rest_agrees u reference Operands.end [] right quiet = AllHave.end
  rest_agrees u reference Operands.end (c ∷ cs) right quiet = absurd right
  rest_agrees u reference (Operands.operand e es) [] right quiet = absurd right
  rest_agrees u reference (Operands.operand e es) (c ∷ cs) (right, others) quiet =
      let (here, there) =
        Quiet-append (compare_units u c.unit reference Context.addition_subtraction)
          (compare_all u reference cs) quiet in
      let (_, _, same) = compare_units-Quiet u c.unit reference Context.addition_subtraction here in
      AllHave.operand
        (along e (exponent c.unit) (exponent u) (λ d. sym (same_dimension-exponent u c.unit same d))
          right.0)
        (rest_agrees u reference es cs others there)

  pub product_right :
      (u : UnitExpression F.Num) (es : Operands F.Num) (cs : List (ExpressionUnit F.Num))
      {w : UnitExpression F.Num}
      → AreRight es cs
      → is_known u ≡ true
      → product_unit F u cs ≡ ok w
      → (β : Dimension) × ProductHas F symbols es β
        × ((d : BaseDimension) → exponent w d ≡ exponent u d +ℤ β d)
        × (is_known w ≡ true)
  unfolding product_unit
  product_right u Operands.end [] {w} right known h =
      let same = ok-injective h in
      (
        λ _. pos 0,
        ProductHas.one (λ d. refl),
        λ d. ap (λ x. exponent x d) (sym same) ∙ sym (+ℤ_zero (exponent u d)),
        subst (λ x. is_known x ≡ true) same known,
      )
  product_right u Operands.end (c ∷ cs) right known h = absurd right
  product_right u (Operands.operand e es) [] right known h = absurd right
  product_right u (Operands.operand e es) (c ∷ cs) (right, others) known h =
      let (next, made, rest) = >>=-eq-ok (multiply_units F u c.unit) _ h in
      let (sums, both) = exponent-multiply_units F u c.unit made in
      let (β, has, total, known') = product_right next es cs others (both known right.1) rest in
      (
        λ d. exponent c.unit d +ℤ β d,
        ProductHas.times right.0 has (λ d. refl),
        λ d.
            total d
            ∙ ap (λ x. x +ℤ β d) (sums d)
            ∙ +ℤ_assoc (exponent u d) (exponent c.unit d) (β d),
        known',
      )

  pub integer_constant-parts :
      (b : MathExpression F.Num) {n : ℤ}
      → integer_constant F b ≡ some n
      → (v : F.Num) × (b ≡ MathExpression.constant v) × (F.as_integer v ≡ some n)
  integer_constant-parts (MathExpression.constant v) h = (v, refl, h)
  integer_constant-parts _ h = cc
