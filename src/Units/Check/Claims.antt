-- ===== src/Units/Check/Claims.antt =====
-- The unit of each kind of expression, from those of its operands, in `_expression_unit` of
-- src/mathmodel_ai/mathematical/units.py.
use math_model_ai.Base.{
  ◌≡◌, refl, sym, ◌∙◌, subst, true, ◌&&◌, Option, none, some, List, [], ◌∷◌, ◌++◌, Bool-cases, inl,
  inr, &&-eq-true, String, Raise, ok, raise, ◌>>=◌, >>=-eq-ok,
}
use math_model_ai.Base.Int.{ℤ, zero_+ℤ}
use math_model_ai.Expression.Syntax.{
  MathExpression, Operands, add, subtract, multiply, divide, power, end, operand,
}
use math_model_ai.Model.{UnitExpression, is_known}
use math_model_ai.Units.Types.{Floats, UnitError, UnitMessage}
use math_model_ai.Units.Algebra.{no_unit, divide_units, power_unit}
use math_model_ai.Units.Algebra.Laws.{exponent, exponent-divide_units, exponent-power_unit}
use math_model_ai.Units.Dimension.{Dimension, HasDimension, AllHave}
use math_model_ai.Units.Check.{
  ExpressionUnit, all_issues, compare_all, with_issues, sum_unit, with_unknown, product_unit,
  unknown_issue, integer_constant, is_pure, raised_unit,
}
use math_model_ai.Units.Check.Quiet.{Quiet, Quiet-append, no_dimensions-exponent}
use math_model_ai.Units.Check.Parts.{
  along, IsRight, AreRight, Claim, returned, rest_agrees, product_right, integer_constant-parts,
}

module _ (F : Floats) (symbols : String → Option (Option (UnitExpression F.Num)))
    (reference : String) where
  -- The claim for the results of the operands.
  abbrev pub Claims : Operands F.Num → List (ExpressionUnit F.Num) → Type 0
  Claims es cs = Quiet (all_issues cs) → AreRight F symbols es cs

  pub claim_both :
      (a b : MathExpression F.Num) (x y : ExpressionUnit F.Num)
      → Claim F symbols a x
      → Claim F symbols b y
      → Quiet (all_issues (x ∷ y ∷ []))
      → IsRight F symbols a x × IsRight F symbols b y
  claim_both a b x y first second quiet =
      let (qx, rest) = Quiet-append x.issues (y.issues ++ []) quiet in
      let (qy, _) = Quiet-append y.issues [] rest in (first qx, second qy)

  sum_claim :
      (e : MathExpression F.Num) (es : Operands F.Num) (c : ExpressionUnit F.Num)
      (cs : List (ExpressionUnit F.Num)) {w : ExpressionUnit F.Num}
      → Claims (operand e es) (c ∷ cs)
      → sum_unit reference (c ∷ cs) ≡ ok w
      → Claim F symbols (add (operand e es)) w
  unfolding sum_unit
  sum_claim e es c cs claims h = returned F symbols (add (operand e es)) _ h (λ quiet.
      let (inside, between) =
        Quiet-append (all_issues (c ∷ cs)) (compare_all c.unit reference cs) quiet in
      let (right, others) = claims inside in
      (
        HasDimension.add right.0 (rest_agrees F symbols c.unit reference es cs others between),
        right.1,
      ))

  pub add_claim :
      (es : Operands F.Num) (cs : List (ExpressionUnit F.Num)) {w : ExpressionUnit F.Num}
      → Claims es cs
      → sum_unit reference cs ≡ ok w
      → Claim F symbols (add es) w
  unfolding sum_unit
  add_claim es [] claims h = absurd (not_returned h)
    where
      not_returned :
          {w : ExpressionUnit F.Num}
          → ◌≡◌ {A = Raise UnitError (ExpressionUnit F.Num)} (raise UnitError.no_operand) (ok w)
          → ⊥
      not_returned g = cc
  add_claim end (c ∷ cs) {w} claims h = returned F symbols (add end) _ h (λ quiet.
      absurd
        (claims (Quiet-append (all_issues (c ∷ cs)) (compare_all c.unit reference cs) quiet).0))
  add_claim (operand e es) (c ∷ cs) claims h = sum_claim e es c cs claims h

  pub difference_claim :
      (a b : MathExpression F.Num) (x y : ExpressionUnit F.Num) {w : ExpressionUnit F.Num}
      → Claim F symbols a x
      → Claim F symbols b y
      → sum_unit reference (x ∷ y ∷ []) ≡ ok w
      → Claim F symbols (subtract a b) w
  unfolding sum_unit compare_all
  difference_claim a b x y first second h = returned F symbols (subtract a b) _ h (λ quiet.
      let (inside, between) =
        Quiet-append (all_issues (x ∷ y ∷ [])) (compare_all x.unit reference (y ∷ [])) quiet in
      let (right_a, right_b) = claim_both a b x y first second inside in
      let agree =
        rest_agrees F symbols x.unit reference (operand b end) (y ∷ []) (right_b, tt) between in
      (HasDimension.subtract right_a.0 (only b (exponent x.unit) agree), right_a.1))
    where
      only :
          (e : MathExpression F.Num) (δ : Dimension)
          → AllHave F symbols (operand e end) δ
          → HasDimension F symbols e δ
      only e δ (AllHave.operand has _) = has

  pub product_claim :
      (es : Operands F.Num) (cs : List (ExpressionUnit F.Num)) (u : UnitExpression F.Num)
      {w : ExpressionUnit F.Num}
      → Claims es cs
      → product_unit F (no_unit F) cs ≡ ok u
      → ◌≡◌ {A = Raise UnitError (ExpressionUnit F.Num)} (ok (with_issues u (all_issues cs))) (ok w)
      → Claim F symbols (multiply es) w
  product_claim es cs u claims made h = returned F symbols (multiply es) _ h (λ quiet.
      let (β, has, total, known) =
        product_right F symbols (no_unit F) es cs (claims quiet) refl made in
      (
        along F symbols (multiply es) β (exponent u) (λ d. sym (total d ∙ zero_+ℤ (β d)))
            (HasDimension.multiply has),
        known,
      ))

  pub quotient_claim :
      (a b : MathExpression F.Num) (x y : ExpressionUnit F.Num) (u : UnitExpression F.Num)
      {w : ExpressionUnit F.Num}
      → Claim F symbols a x
      → Claim F symbols b y
      → divide_units F x.unit y.unit ≡ ok u
      → ◌≡◌ {A = Raise UnitError (ExpressionUnit F.Num)}
          (ok (with_issues u (all_issues (x ∷ y ∷ []))))
          (ok w)
      → Claim F symbols (divide a b) w
  quotient_claim a b x y u first second made h = returned F symbols (divide a b) _ h (λ quiet.
      let (right_a, right_b) = claim_both a b x y first second quiet in
      let (differences, known) = exponent-divide_units F x.unit y.unit made in
      (HasDimension.divide right_a.0 right_b.0 differences, known right_a.1 right_b.1))

  -- A power of a number, an unknown power, and a power to a constant integer.
  pub power_claim :
      (a b : MathExpression F.Num) (x y : ExpressionUnit F.Num) {w : ExpressionUnit F.Num}
      → Claim F symbols a x
      → Claim F symbols b y
      → raised_unit F reference x y (integer_constant F b) ≡ ok w
      → Claim F symbols (power a b) w
  unfolding raised_unit
  power_claim a b x y {w} first second h =
      elim (Bool-cases (is_pure F x.unit && is_pure F y.unit)) [
        | inl pure ↦ of_numbers pure (rw pure at h)
        | inr other ↦ by_integer (integer_constant F b) refl (rw other at h)
      ]
    where
      both : Quiet (all_issues (x ∷ y ∷ [])) → IsRight F symbols a x × IsRight F symbols b y
      both = claim_both a b x y first second

      of_numbers :
          (is_pure F x.unit && is_pure F y.unit) ≡ true
          → ◌≡◌ {A = Raise UnitError (ExpressionUnit F.Num)}
              (ok (with_issues (no_unit F) (all_issues (x ∷ y ∷ []))))
              (ok w)
          → Claim F symbols (power a b) w
      of_numbers pure g = returned F symbols (power a b) _ g (λ quiet.
          let (right_a, right_b) = both quiet in
          let (pure_a, pure_b) = &&-eq-true (is_pure F x.unit) (is_pure F y.unit) pure in
          let (_, none_a) = &&-eq-true (is_known x.unit) _ pure_a in
          let (_, none_b) = &&-eq-true (is_known y.unit) _ pure_b in
          (
            HasDimension.pure_power right_a.0 right_b.0 (λ d. (
              no_dimensions-exponent x.unit none_a d,
              no_dimensions-exponent y.unit none_b d,
              refl,
            )),
            refl,
          ))

      by_integer :
          (n : Option ℤ)
          → integer_constant F b ≡ n
          → (elim n [
            | none ↦ ok (
                with_unknown F x.unit
                  (all_issues (x ∷ y ∷ []))
                  (unknown_issue reference UnitMessage.exponent_not_integer))
            | some k ↦
                (power_unit F x.unit k >>= λ unit. ok (with_issues unit (all_issues (x ∷ y ∷ []))))
          ])
            ≡ ok w
          → Claim F symbols (power a b) w
      by_integer none is g =
          returned F symbols (power a b) _ g
            (λ quiet. let (_, noisy) = Quiet-append (all_issues (x ∷ y ∷ [])) _ quiet in cc)
      by_integer (some k) is g =
          let (u, made, rest) = >>=-eq-ok (power_unit F x.unit k) _ g in
          let (v, is_v, reads) = integer_constant-parts F symbols b is in
          let (multiples, known) = exponent-power_unit F x.unit k made in
          returned F symbols (power a b) _ rest (λ quiet.
            let (right_a, _) = both quiet in
            (
              subst (λ e. HasDimension F symbols (power a e) (exponent u)) (sym is_v)
                  (HasDimension.power right_a.0 reads multiples),
              known right_a.1,
            ))
