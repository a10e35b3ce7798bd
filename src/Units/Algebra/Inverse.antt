-- ===== src/Units/Algebra/Inverse.antt =====
-- Products undone by quotients, and powers to 0, of src/mathmodel_ai/mathematical/units.py.
use math_model_ai.Base.{
  ◌≡◌, sym, ap, ◌∙◌, true, false, Option, some, none, ◌==◌, ==→≡, option_eq, Bool-cases, inl, inr,
  ok,
}
use math_model_ai.Base.Int.{ℤ, pos, int_eq, ◌*ℤ◌, +ℤ_sub}
use math_model_ai.Model.{BaseDimension, Dimensions, UnitExpression}
use math_model_ai.Units.Types.{Floats}
use math_model_ai.Units.Algebra.{
  no_unit, multiply_units, divide_units, power_unit, powered, same_dimension, is_some_nonzero,
}
use math_model_ai.Units.Algebra.Laws.{
  exponent, exponent-multiply_units, exponent-divide_units, power_unit-dimensions, all-dimension,
}

-- A power to 0 keeps every key whose exponent was not 0.
powered-is_some : (e : Option ℤ) → is_some_nonzero e ≡ true → powered (pos 0) e ≡ none → ⊥
powered-is_some none h k = cc
powered-is_some (some e) h k = elim (Bool-cases (e == pos 0)) [
  | inl nought ↦ absurd (not_both (rw nought at h))
  | inr other ↦ absurd (not_none (rw other at k))
]
  where
    not_both : false ≡ true → ⊥
    not_both g = cc

    not_none : some (e *ℤ pos 0) ≡ none → ⊥
    not_none g = cc

module _ (F : Floats) where
  -- If the product of two units and the quotient of that product by the second both have a scale that
  -- is allowed, then the quotient has the exponents of the first unit.
  pub divide_units-multiply_units :
      (l r : UnitExpression F.Num) {product quotient : UnitExpression F.Num}
      → multiply_units F l r ≡ ok product
      → divide_units F product r ≡ ok quotient
      → (d : BaseDimension) → exponent quotient d ≡ exponent l d
  divide_units-multiply_units l r {product} p q d =
      let (sums, _) = exponent-multiply_units F l r p in
      let (differences, _) = exponent-divide_units F product r q in
      differences d ∙ rw (sums d) (+ℤ_sub (exponent l d) (exponent r d))

  -- If a unit has an exponent other than 0 and its power to 0 is returned, then `same_dimension` tells
  -- that power from the unit of a number.
  pub power_unit-same_dimension :
      (u : UnitExpression F.Num) (d : BaseDimension) {v : UnitExpression F.Num}
      → is_some_nonzero (u.dimensions d) ≡ true
      → power_unit F u (pos 0) ≡ ok v
      → same_dimension v (no_unit F) ≡ false
  unfolding same_dimension
  power_unit-same_dimension u d {v} nonzero h = elim (Bool-cases (same_dimension v (no_unit F))) [
    | inl same ↦ absurd (different same)
    | inr other ↦ other
  ]
    where
      different : same_dimension v (no_unit F) ≡ true → ⊥
      different same =
          let (dims, _) = power_unit-dimensions F u (pos 0) h in
          let at_d = all-dimension (λ k. v.dimensions k == (no_unit F).dimensions k) same d in
          powered-is_some (u.dimensions d) nonzero
            (sym (ap (λ (f : Dimensions). f d) dims) ∙ ==→≡ (v.dimensions d) none at_d)
