-- ===== src/Base/Exceptions.antt =====
-- A computation that returns a value or raises an exception.
use mathlib.Core.Path.{◌≡◌, refl, ap}
use mathlib.Core.Bool.{Bool, true, false}

pub data Raise {ℓ κ} (E : Type κ) (A : Type ℓ) : Type (ℓ ⊔ κ) where
  ok : A → Raise E A
  raise : E → Raise E A

infixl 5 ◌>>=◌ ◌>>◌
abbrev pub ◌>>=◌ {ℓ ι κ} :
    {E : Type κ} {A : Type ℓ} {B : Type ι} → Raise E A → (A → Raise E B) → Raise E B
ok value >>= next = next value
raise error >>= next = raise error

abbrev pub ◌>>◌ {ℓ κ} : {E : Type κ} {B : Type ℓ} → Raise E (Unit {0}) → Raise E B → Raise E B
m >> k = m >>= λ _. k

-- `if test: raise e`
abbrev pub raise_if {κ} : {E : Type κ} → Bool → E → Raise E (Unit {0})
raise_if true e = raise e
raise_if false e = ok tt

pub raise_if-eq-ok {κ} :
    {E : Type κ} (test : Bool) (e : E) {u : Unit {0}} → raise_if test e ≡ ok u → test ≡ false
raise_if-eq-ok true e h = cc
raise_if-eq-ok false e h = refl

-- Inversion of a successful bind.
pub >>=-eq-ok {ℓ ι κ} :
    {E : Type κ} {A : Type ℓ} {B : Type ι} (first : Raise E A) (next : A → Raise E B) {b : B}
    → (first >>= next) ≡ ok b
    → (value : A) × (first ≡ ok value) × (next value ≡ ok b)
>>=-eq-ok (ok value) next returned = (value, refl, returned)
>>=-eq-ok (raise error) next returned = cc

pub ok-injective {ℓ κ} :
    {E : Type κ} {A : Type ℓ} {a b : A} → ◌≡◌ {A = Raise E A} (ok a) (ok b) → a ≡ b
ok-injective h = cc

-- A step that returned its value goes on.
pub >>=-of_ok {ℓ ι κ} :
    {E : Type κ} {A : Type ℓ} {B : Type ι} {m : Raise E A} {a : A} (f : A → Raise E B)
    → m ≡ ok a
    → (m >>= f) ≡ f a
>>=-of_ok f h = ap (λ x. x >>= f) h
