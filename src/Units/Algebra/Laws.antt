-- ===== src/Units/Algebra/Laws.antt =====
-- The exponents of products, quotients and powers of units, and what `same_dimension` decides.
use math_model_ai.Base.{
  ◌≡◌, refl, sym, ap, ◌∙◌, Bool, true, not, Option, none, some, List, [], ◌∷◌, ◌++◌, all, all-mem,
  Memᴰ, ◌==◌, ==→≡, option_eq, string_eq, Bool-cases, inl, inr, ok, raise_if, >>=-eq-ok,
  ok-injective, unique_from, String, is_empty,
}
use math_model_ai.Base.Int.{ℤ, pos, int_eq, ◌+ℤ◌, ◌-ℤ◌, ◌*ℤ◌, +ℤ_zero, -ℤ_zero, zero_*ℤ}
use math_model_ai.Model.{BaseDimension, all_dimensions, Dimensions, UnitExpression, is_known}
use math_model_ai.Units.Types.{Floats, UnitError}
use math_model_ai.Units.Algebra.{
  exponent_or, combined, without_zero, is_some_nonzero, same_dimension, new_unit, multiply_units,
  divide_units, powered, power_unit, scale_power,
}

-- The exponent of a dimension in a unit, which is 0 for a dimension that it does not name.
abbrev pub exponent : {A : Type 0} → UnitExpression A → BaseDimension → ℤ
exponent u d = exponent_or (u.dimensions d)

exponent_or-without_zero : (n : Option ℤ) → exponent_or (without_zero n) ≡ exponent_or n
exponent_or-without_zero none = refl
exponent_or-without_zero (some n) = elim (Bool-cases (n == pos 0)) [
  | inl nought ↦ rw nought (sym (==→≡ n (pos 0) nought))
  | inr other ↦ rw other
]

exponent_or-combined :
    (op : ℤ → ℤ → ℤ) (l r : Option ℤ)
    → ((x : ℤ) → op x (pos 0) ≡ x)
    → exponent_or (combined op l r) ≡ op (exponent_or l) (exponent_or r)
exponent_or-combined op l none law = sym (law (exponent_or l))
exponent_or-combined op l (some e) law = refl

exponent_or-powered : (n : ℤ) (e : Option ℤ) → exponent_or (powered n e) ≡ exponent_or e *ℤ n
exponent_or-powered n none = sym (zero_*ℤ n)
exponent_or-powered n (some e) = elim (Bool-cases (e == pos 0)) [
  | inl nought ↦ rw nought (sym (ap (λ x. x *ℤ n) (==→≡ e (pos 0) nought) ∙ zero_*ℤ n))
  | inr other ↦ rw other
]

all_there : (d : BaseDimension) → Memᴰ d all_dimensions
all_there BaseDimension.mass = Memᴰ.head refl
all_there BaseDimension.length = Memᴰ.tail (Memᴰ.head refl)
all_there BaseDimension.time = Memᴰ.tail (Memᴰ.tail (Memᴰ.head refl))
all_there BaseDimension.currency = Memᴰ.tail (Memᴰ.tail (Memᴰ.tail (Memᴰ.head refl)))
all_there BaseDimension.count = Memᴰ.tail (Memᴰ.tail (Memᴰ.tail (Memᴰ.tail (Memᴰ.head refl))))
all_there BaseDimension.energy =
    Memᴰ.tail (Memᴰ.tail (Memᴰ.tail (Memᴰ.tail (Memᴰ.tail (Memᴰ.head refl)))))
all_there BaseDimension.power =
    Memᴰ.tail (Memᴰ.tail (Memᴰ.tail (Memᴰ.tail (Memᴰ.tail (Memᴰ.tail (Memᴰ.head refl))))))
all_there BaseDimension.dimensionless =
    Memᴰ.tail
      (Memᴰ.tail (Memᴰ.tail (Memᴰ.tail (Memᴰ.tail (Memᴰ.tail (Memᴰ.tail (Memᴰ.head refl)))))))

-- A test that passes on the list of the dimensions passes on each.
pub all-dimension :
    (p : BaseDimension → Bool) → all p all_dimensions ≡ true → (d : BaseDimension) → p d ≡ true
all-dimension p h d = all-mem p all_dimensions h (all_there d)

pub same_dimension-exponent :
    {A : Type 0} (l r : UnitExpression A)
    → same_dimension l r ≡ true
    → (d : BaseDimension) → exponent l d ≡ exponent r d
unfolding same_dimension
same_dimension-exponent l r h d = ap exponent_or (
    ==→≡ (l.dimensions d) (r.dimensions d)
      (all-dimension (λ k. l.dimensions k == r.dimensions k) h d))

nothing_unknown : (xs : List String) → is_empty xs ≡ true → xs ≡ []
nothing_unknown [] h = refl
nothing_unknown (x ∷ xs) h = cc

module _ (F : Floats) where
  new_unit-parts :
      (f : Dimensions) (scale : F.Num) (display : String) (unknown : List String)
      {u : UnitExpression F.Num}
      → new_unit F f scale display unknown ≡ ok u
      → (u.dimensions ≡ f) × (u.unknown_units ≡ unknown)
  unfolding new_unit
  new_unit-parts f scale display unknown h =
      let (_, _, h1) = >>=-eq-ok (raise_if (not (F.is_scale scale)) UnitError.invalid_scale) _ h in
      let (_, _, h2) =
        >>=-eq-ok
          (raise_if (is_some_nonzero (f BaseDimension.dimensionless))
            UnitError.dimensionless_exponent)
          (λ _.
            ok (record {
              dimensions = f;
              scale = scale;
              display = display;
              unknown_units = unknown;
            }))
          h1 in
      let e = ok-injective h2 in
      (
        sym (ap (λ (x : UnitExpression F.Num). x.dimensions) e),
        sym (ap (λ (x : UnitExpression F.Num). x.unknown_units) e),
      )

  -- The unit of a product has the sum of the exponents, and is known if both units are.
  pub exponent-multiply_units :
      (l r : UnitExpression F.Num) {u : UnitExpression F.Num}
      → multiply_units F l r ≡ ok u
      → ((d : BaseDimension) → exponent u d ≡ exponent l d +ℤ exponent r d)
        × (is_known l ≡ true → is_known r ≡ true → is_known u ≡ true)
  unfolding multiply_units
  exponent-multiply_units l r h =
      let (dims, unknown) =
        new_unit-parts (λ d. without_zero (combined ◌+ℤ◌ (l.dimensions d) (r.dimensions d))) _ _
          (unique_from [] (l.unknown_units ++ r.unknown_units)) h in
      (
        λ d.
            ap (λ (f : Dimensions). exponent_or (f d)) dims
            ∙ exponent_or-without_zero (combined ◌+ℤ◌ (l.dimensions d) (r.dimensions d))
            ∙ exponent_or-combined ◌+ℤ◌ (l.dimensions d) (r.dimensions d) +ℤ_zero,
        λ a b. rw (unknown, nothing_unknown l.unknown_units a, nothing_unknown r.unknown_units b),
      )

  -- The unit of a quotient has the difference of the exponents, and is known if both units are.
  pub exponent-divide_units :
      (l r : UnitExpression F.Num) {u : UnitExpression F.Num}
      → divide_units F l r ≡ ok u
      → ((d : BaseDimension) → exponent u d ≡ exponent l d -ℤ exponent r d)
        × (is_known l ≡ true → is_known r ≡ true → is_known u ≡ true)
  unfolding divide_units
  exponent-divide_units l r h =
      let (dims, unknown) =
        new_unit-parts (λ d. without_zero (combined ◌-ℤ◌ (l.dimensions d) (r.dimensions d))) _ _
          (unique_from [] (l.unknown_units ++ r.unknown_units)) h in
      (
        λ d.
            ap (λ (f : Dimensions). exponent_or (f d)) dims
            ∙ exponent_or-without_zero (combined ◌-ℤ◌ (l.dimensions d) (r.dimensions d))
            ∙ exponent_or-combined ◌-ℤ◌ (l.dimensions d) (r.dimensions d) -ℤ_zero,
        λ a b. rw (unknown, nothing_unknown l.unknown_units a, nothing_unknown r.unknown_units b),
      )

  pub power_unit-dimensions :
      (u : UnitExpression F.Num) (n : ℤ) {v : UnitExpression F.Num}
      → power_unit F u n ≡ ok v
      → (v.dimensions ≡ (λ d. powered n (u.dimensions d))) × (v.unknown_units ≡ u.unknown_units)
  unfolding power_unit
  power_unit-dimensions u n h =
      let (scale, _, rest) = >>=-eq-ok (scale_power (F.raised_to u.scale n)) _ h in
      new_unit-parts (λ d. powered n (u.dimensions d)) _ _ u.unknown_units rest

  -- The unit of a power has the multiples of the exponents, and is known if the unit is.
  pub exponent-power_unit :
      (u : UnitExpression F.Num) (n : ℤ) {v : UnitExpression F.Num}
      → power_unit F u n ≡ ok v
      → ((d : BaseDimension) → exponent v d ≡ exponent u d *ℤ n)
        × (is_known u ≡ true → is_known v ≡ true)
  exponent-power_unit u n h =
      let (dims, unknown) = power_unit-dimensions u n h in
      (
        λ d.
            ap (λ (f : Dimensions). exponent_or (f d)) dims
            ∙ exponent_or-powered n (u.dimensions d),
        λ a. rw (unknown, nothing_unknown u.unknown_units a),
      )
