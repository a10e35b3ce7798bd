-- ===== src/Expression/Arithmetic.antt =====
-- The numbers of the program. Python's floats are not part of the repository, so the type and its
-- operations are a parameter. The laws are those of exact arithmetic, which floats meet up to
-- rounding and overflow.
use math_model_ai.Base.{◌≡◌, ◌↔◌, ◌≢◌, Bool, true}

-- What `base ** exponent` comes to: an `OverflowError` or a `ValueError`, a `ZeroDivisionError`, a
-- complex number, or a real one.
pub data PowerResult {ℓ} (A : Type ℓ) : Type ℓ where
  raised : PowerResult A
  divided_by_nil : PowerResult A
  complex : PowerResult A
  real : A → PowerResult A

pub record Arithmetic : Type 1 where
  pub Num : Type 0
  pub nil : Num
  pub unit : Num
  pub add : Num → Num → Num
  pub sub : Num → Num → Num
  pub mul : Num → Num → Num
  pub neg : Num → Num
  pub div : Num → Num → Num
  pub power : Num → Num → PowerResult Num
  pub is_nil : Num → Bool
  pub is_unit : Num → Bool
  pub is_finite : Num → Bool

pub record IsExact (N : Arithmetic) : Type 0 where
  pub add_comm : (a b : N.Num) → N.add a b ≡ N.add b a
  pub add_assoc : (a b c : N.Num) → N.add (N.add a b) c ≡ N.add a (N.add b c)
  pub add_nil : (a : N.Num) → N.add a N.nil ≡ a
  pub mul_comm : (a b : N.Num) → N.mul a b ≡ N.mul b a
  pub mul_assoc : (a b c : N.Num) → N.mul (N.mul a b) c ≡ N.mul a (N.mul b c)
  pub mul_unit : (a : N.Num) → N.mul a N.unit ≡ a
  pub mul_nil : (a : N.Num) → N.mul a N.nil ≡ N.nil
  pub mul_add : (a b c : N.Num) → N.mul (N.add a b) c ≡ N.add (N.mul a c) (N.mul b c)
  pub sub_lem : (a b : N.Num) → N.sub a b ≡ N.add a (N.mul b (N.neg N.unit))
  pub neg_lem : (a : N.Num) → N.neg a ≡ N.mul a (N.neg N.unit)
  pub div_lem : (a b : N.Num) → b ≢ N.nil → N.div a b ≡ N.mul a (N.div N.unit b)
  pub is_nil_iff : (a : N.Num) → (N.is_nil a ≡ true) ↔ (a ≡ N.nil)
  pub is_unit_iff : (a : N.Num) → (N.is_unit a ≡ true) ↔ (a ≡ N.unit)
  pub power_nil : (a : N.Num) → N.power a N.nil ≡ real N.unit
  pub power_unit : (a : N.Num) → N.power a N.unit ≡ real a
  pub finite : (a : N.Num) → N.is_finite a ≡ true
