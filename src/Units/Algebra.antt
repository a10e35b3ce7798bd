-- ===== src/Units/Algebra.antt =====
-- `multiply_units`, `divide_units`, `power_unit` and `same_dimension` of
-- src/mathmodel_ai/mathematical/units.py.
pub mod Laws
pub mod Inverse
use Prim.Native.String.{◌++◌ as ◌<>◌}
use math_model_ai.Base.{
  String, Bool, true, false, not, Option, none, some, List, [], ◌∷◌, ◌++◌, all, contains, ◌==◌,
  string_eq, option_eq, if◌then◌else◌, unique_from, is_some, Raise, ok, raise, raise_if, ◌>>=◌,
  ◌>>◌,
}
use math_model_ai.Base.Int.{ℤ, pos, ℤ-discrete, int_eq, ◌+ℤ◌, ◌-ℤ◌, ◌*ℤ◌}
use math_model_ai.Model.{BaseDimension, dimensionless, all_dimensions, Dimensions, UnitExpression}
use math_model_ai.Units.Types.{Floats, UnitError, invalid_scale, dimensionless_exponent, overflow}

-- `dimensions.get(dimension, 0)`
abbrev pub exponent_or : Option ℤ → ℤ
exponent_or none = pos 0
exponent_or (some n) = n

abbrev pub no_dimensions : Dimensions
no_dimensions d = none

-- One key after the loop over the items of the right dict.
abbrev pub combined : (ℤ → ℤ → ℤ) → Option ℤ → Option ℤ → Option ℤ
combined op l none = l
combined op l (some e) = some (op (exponent_or l) e)

-- `{key: value for key, value in dimensions.items() if value}`, at one key.
abbrev pub without_zero : Option ℤ → Option ℤ
without_zero none = none
without_zero (some n) = if n == pos 0 then none else some n

abbrev pub is_some_nonzero : Option ℤ → Bool
is_some_nonzero n = is_some (without_zero n)

-- One key of the dict that `power_unit` makes: a product of 0 is kept.
abbrev pub powered : ℤ → Option ℤ → Option ℤ
powered n none = none
powered n (some e) = if e == pos 0 then none else some (e *ℤ n)

-- `unit.scale**exponent`, which raises where it is too large.
abbrev pub scale_power : {A : Type 0} → Option A → Raise UnitError A
scale_power none = raise overflow
scale_power (some scale) = ok scale

-- `not unit.dimensions`
abbrev pub has_no_dimensions : Dimensions → Bool
has_no_dimensions f = all (λ d. not (is_some (f d))) all_dimensions

-- `same_dimension`: two dicts are equal if they agree at every key.
unfoldable pub same_dimension : {A : Type 0} → UnitExpression A → UnitExpression A → Bool
unfolding ℤ-discrete
same_dimension l r = all (λ d. l.dimensions d == r.dimensions d) all_dimensions

module _ (F : Floats) where
  open F use {Num}

  -- `UnitExpression()`
  abbrev pub no_unit : UnitExpression Num
  no_unit = record { dimensions = no_dimensions; scale = F.unit; display = "1"; unknown_units = [] }

  -- A new `UnitExpression`, with the checks of its fields and of `validate_dimensions` that can fail
  -- here: the unknown units are unique.
  unfoldable pub new_unit :
      Dimensions → Num → String → List String → Raise UnitError (UnitExpression Num)
  new_unit dimensions scale display unknown_units = do
    raise_if (not (F.is_scale scale)) invalid_scale
    raise_if (is_some_nonzero (dimensions dimensionless)) dimensionless_exponent
    ok (record {
      dimensions = dimensions;
      scale = scale;
      display = display;
      unknown_units = unknown_units;
    })

  unfoldable pub multiply_units :
      UnitExpression Num → UnitExpression Num → Raise UnitError (UnitExpression Num)
  unfolding new_unit unique_from ◌+ℤ◌ ℤ-discrete
  multiply_units l r =
      new_unit (λ d. without_zero (combined ◌+ℤ◌ (l.dimensions d) (r.dimensions d)))
        (F.mul l.scale r.scale) ("(" <> l.display <> ")*(" <> r.display <> ")")
        (unique_from [] (l.unknown_units ++ r.unknown_units))

  unfoldable pub divide_units :
      UnitExpression Num → UnitExpression Num → Raise UnitError (UnitExpression Num)
  unfolding new_unit unique_from ◌-ℤ◌ ℤ-discrete
  divide_units l r =
      new_unit (λ d. without_zero (combined ◌-ℤ◌ (l.dimensions d) (r.dimensions d)))
        (F.div l.scale r.scale) ("(" <> l.display <> ")/(" <> r.display <> ")")
        (unique_from [] (l.unknown_units ++ r.unknown_units))

  unfoldable pub power_unit : UnitExpression Num → ℤ → Raise UnitError (UnitExpression Num)
  unfolding new_unit ◌*ℤ◌ ℤ-discrete
  power_unit u n = do
    scale ← scale_power (F.raised_to u.scale n)
    new_unit (λ d. powered n (u.dimensions d)) scale ("(" <> u.display <> ")^" <> F.show n)
        u.unknown_units
