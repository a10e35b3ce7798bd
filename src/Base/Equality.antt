-- ===== src/Base/Equality.antt =====
-- Python's `==` and `in`, for every type whose equality is decided.
use Prim.Native.Nat.{ℕ}
use Prim.Native.String.{String}
use mathlib.Core.Path.{◌≡◌, refl, ap}
use mathlib.Core.Logic.{◌↔◌}
use mathlib.Core.Bool.{Bool, true, false}
use mathlib.Core.Option.{Option, none, some}
use native.Mathlib.Omega.{arith}
use text.Mathlib.Text.{◌==◌ as str_eq}
use text.Mathlib.TextEquality.{eq_iff}
use math_model_ai.Base.Tests.{nat_beq, nat_beq_iff}

pub record Eq {ℓ} (A : Type ℓ) : Type ℓ where
  pub equal : A → A → Bool
  pub equal_iff : (a b : A) → (equal a b ≡ true) ↔ (a ≡ b)

infix 50 ◌==◌
abbrev pub ◌==◌ {ℓ} : {A : Type ℓ} ⦃e : Eq A⦄ → A → A → Bool
◌==◌ ⦃e⦄ = e.equal

-- An enumeration is compared by its decision procedure.
abbrev pub decided {ℓ} : {P : Type ℓ} → Dec P → Bool
decided (yes _) = true
decided (no _) = false

pub decided_iff {ℓ} : {A : Type ℓ} (d : Discrete A) (a b : A) → (decided (d a b) ≡ true) ↔ (a ≡ b)
decided_iff d a b = elim (d a b) as (λ r. (decided r ≡ true) ↔ (a ≡ b)) [
  | yes p ↦ (λ _. p, λ _. refl)
  | no n ↦ (λ h. cc, λ p. absurd (n p))
]

abbrev pub eq_of_discrete {ℓ} : {A : Type ℓ} → Discrete A → Eq A
eq_of_discrete d = record { equal = λ a b. decided (d a b); equal_iff = decided_iff d }

instance abbrev pub nat_eq : Eq ℕ
nat_eq = record { equal = nat_beq; equal_iff = nat_beq_iff }

instance abbrev pub string_eq : Eq String
string_eq = record { equal = str_eq; equal_iff = eq_iff }

module _ {ℓ} {A : Type ℓ} ⦃e : Eq A⦄ where
  pub ==_refl : (a : A) → (a == a) ≡ true
  ==_refl a = (e.equal_iff a a).1 refl

  pub ==→≡ : (a b : A) → (a == b) ≡ true → a ≡ b
  ==→≡ a b h = (e.equal_iff a b).0 h

  abbrev pub option_equal : Option A → Option A → Bool
  option_equal none none = true
  option_equal none (some b) = false
  option_equal (some a) none = false
  option_equal (some a) (some b) = a == b

  pub option_equal_iff : (a b : Option A) → (option_equal a b ≡ true) ↔ (a ≡ b)
  option_equal_iff none none = (λ _. refl, λ _. refl)
  option_equal_iff none (some b) = (λ h. cc, λ h. cc)
  option_equal_iff (some a) none = (λ h. cc, λ h. cc)
  option_equal_iff (some a) (some b) =
      (λ h. ap some (==→≡ a b h), λ h. (e.equal_iff a b).1 (ground arith))

  instance abbrev pub option_eq : Eq (Option A)
  option_eq = record { equal = option_equal; equal_iff = option_equal_iff }

pub ==_sym : (s t : String) → (s == t) ≡ (t == s)
==_sym s t = ground (arith, eq_iff s t, eq_iff t s)
