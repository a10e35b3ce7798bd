-- ===== src/Base/Int.antt =====
-- Python's integers, signed and unbounded. `negsuc n` is -(n + 1).
use Prim.Native.Nat.{ℕ, suc, ◌+◌, ◌-◌, ◌*◌}
use mathlib.Core.Path.{◌≡◌}
use native.Mathlib.Omega.{arith}
use native.Mathlib.Decide.{ℕ_discrete}
use math_model_ai.Base.Tests.{leb, if◌then◌else◌}
use math_model_ai.Base.Equality.{Eq, eq_of_discrete}

pub data ℤ : Type 0 where
  pos : ℕ → ℤ
  negsuc : ℕ → ℤ

unfoldable pub ℤ-discrete : Discrete ℤ
unfolding ℕ_discrete
ℤ-discrete = hlevel ℕ_discrete

instance abbrev pub int_eq : Eq ℤ
int_eq = eq_of_discrete ℤ-discrete

abbrev pub pos_part : ℤ → ℕ
pos_part (negsuc n) = 0
pos_part (pos n) = n

abbrev pub neg_part : ℤ → ℕ
neg_part (negsuc n) = suc n
neg_part (pos n) = 0

-- The integer that two numbers differ by.
abbrev pub difference : ℕ → ℕ → ℤ
difference m n = if leb n m then pos (m - n) else negsuc (n - m - 1)

infixl 65 ◌+ℤ◌ ◌-ℤ◌
infixl 70 ◌*ℤ◌
unfoldable pub ◌-ℤ◌ : ℤ → ℤ → ℤ
x -ℤ y = difference (pos_part x + neg_part y) (neg_part x + pos_part y)

unfoldable pub ◌+ℤ◌ : ℤ → ℤ → ℤ
x +ℤ y = difference (pos_part x + pos_part y) (neg_part x + neg_part y)

unfoldable pub ◌*ℤ◌ : ℤ → ℤ → ℤ
x *ℤ y =
    let same = pos_part x * pos_part y + neg_part x * neg_part y in
    let opposite = pos_part x * neg_part y + neg_part x * pos_part y in difference same opposite

pub +ℤ_zero : (x : ℤ) → x +ℤ pos 0 ≡ x
unfolding ◌+ℤ◌
+ℤ_zero x = ground arith

pub zero_+ℤ : (x : ℤ) → pos 0 +ℤ x ≡ x
unfolding ◌+ℤ◌
zero_+ℤ x = ground arith

pub -ℤ_zero : (x : ℤ) → x -ℤ pos 0 ≡ x
unfolding ◌-ℤ◌
-ℤ_zero x = ground arith

pub zero_*ℤ : (x : ℤ) → pos 0 *ℤ x ≡ pos 0
unfolding ◌*ℤ◌
zero_*ℤ x = ground arith

pub +ℤ_assoc : (x y z : ℤ) → x +ℤ y +ℤ z ≡ x +ℤ (y +ℤ z)
unfolding ◌+ℤ◌
+ℤ_assoc x y z = ground arith

pub +ℤ_sub : (x y : ℤ) → x +ℤ y -ℤ y ≡ x
unfolding ◌+ℤ◌ ◌-ℤ◌
+ℤ_sub x y = ground arith
