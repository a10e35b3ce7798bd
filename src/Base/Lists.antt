-- ===== src/Base/Lists.antt =====
-- Lists as Python uses them: measured by native numbers, searched, and read as sets.
use Prim.Native.Nat.{ℕ, suc}
use mathlib.Core.Path.{◌≡◌, refl, sym, ap, ◌∙◌, subst}
use mathlib.Core.Logic.{◌⊎◌, ◌↔◌, inl, inr}
use mathlib.Core.Bool.{Bool, true, false, not, ◌&&◌, ◌||◌}
use mathlib.Core.Option.{Option, none, some}
use mathlib.Core.List.{List, [], ◌∷◌, ◌++◌, map, Memᴰ}
use native.Mathlib.Omega.{arith}
use math_model_ai.Base.Tests.{if◌then◌else◌, &&-eq-true, &&_iff, Bool-cases}
use math_model_ai.Base.Equality.{Eq, ◌==◌, ==→≡}

module _ {ℓ} {A : Type ℓ} where
  abbrev pub length : List A → ℕ
  length [] = 0
  length (x ∷ xs) = suc (length xs)

  abbrev pub any : (A → Bool) → List A → Bool
  any p [] = false
  any p (x ∷ xs) = p x || any p xs

  abbrev pub all : (A → Bool) → List A → Bool
  all p [] = true
  all p (x ∷ xs) = p x && all p xs

  -- `[x for x in xs if p(x)]`
  abbrev pub keep : (A → Bool) → List A → List A
  keep p [] = []
  keep p (x ∷ xs) = let rest = keep p xs in if p x then x ∷ rest else rest

  -- The first element that passes.
  abbrev pub find : (A → Bool) → List A → Option A
  find p [] = none
  find p (x ∷ xs) = let rest = find p xs in if p x then some x else rest

  abbrev pub is_empty : List A → Bool
  is_empty [] = true
  is_empty (x ∷ xs) = false

module _ {ℓ} {A : Type ℓ} where
  pub all-mem : (p : A → Bool) (xs : List A) {a : A} → all p xs ≡ true → Memᴰ a xs → p a ≡ true
  all-mem p [] h m = elim m [ ]
  all-mem p (x ∷ xs) h (Memᴰ.head e) = subst (λ y. p y ≡ true) (sym e) (&&-eq-true _ _ h).0
  all-mem p (x ∷ xs) h (Memᴰ.tail m) = all-mem p xs (&&-eq-true _ _ h).1 m

  pub any-false_mem :
      (p : A → Bool) (xs : List A) {a : A} → any p xs ≡ false → Memᴰ a xs → p a ≡ false
  any-false_mem p [] h m = elim m [ ]
  any-false_mem p (x ∷ xs) h (Memᴰ.head e) =
      subst (λ y. p y ≡ false) (sym e) (let k : p x ≡ false = ground arith in k)
  any-false_mem p (x ∷ xs) h (Memᴰ.tail m) = any-false_mem p xs (ground arith) m

  pub append-eq-nil : (xs ys : List A) → xs ++ ys ≡ [] → (xs ≡ []) × (ys ≡ [])
  append-eq-nil [] ys h = (refl, h)
  append-eq-nil (x ∷ xs) ys h = cc

  pub find-some :
      (p : A → Bool) (xs : List A) {a : A} → find p xs ≡ some a → Memᴰ a xs × (p a ≡ true)
  find-some p [] h = cc
  find-some p (x ∷ xs) {a} h = elim (Bool-cases (p x)) [
    | inl t ↦ let e : x ≡ a = (ground arith) in (Memᴰ.head (sym e), subst (λ y. p y ≡ true) e t)
    | inr f ↦ let r = find-some p xs {a = a} (ground arith) in (Memᴰ.tail r.0, r.1)
  ]

-- A predicate holds of each element.
abbrev pub All {ℓ κ} : {A : Type ℓ} → (A → Type κ) → List A → Type κ
All P [] = Unit
All P (x ∷ xs) = P x × All P xs

pub All-mem {ℓ κ} : {A : Type ℓ} (P : A → Type κ) (xs : List A) {a : A} → All P xs → Memᴰ a xs → P a
All-mem P [] h m = elim m [ ]
All-mem P (x ∷ xs) h (Memᴰ.head e) = subst P (sym e) h.0
All-mem P (x ∷ xs) h (Memᴰ.tail m) = All-mem P xs h.1 m

module _ {ℓ} {A : Type ℓ} where
  pub mem-keep :
      (p : A → Bool) (xs : List A) {a : A} → Memᴰ a (keep p xs) → Memᴰ a xs × (p a ≡ true)
  mem-keep p [] m = elim m [ ]
  mem-keep p (x ∷ xs) {a} m = elim (Bool-cases (p x)) [
    | inl yes_x ↦ under (mem-keep p xs) yes_x (rw yes_x at m)
    | inr no_x ↦ let r = mem-keep p xs {a = a} (rw no_x at m) in (Memᴰ.tail r.0, r.1)
  ]
    where
      under :
          (Memᴰ a (keep p xs) → Memᴰ a xs × (p a ≡ true))
          → p x ≡ true
          → Memᴰ a (x ∷ keep p xs)
          → Memᴰ a (x ∷ xs) × (p a ≡ true)
      under ih h (Memᴰ.head e) = (Memᴰ.head e, subst (λ y. p y ≡ true) (sym e) h)
      under ih h (Memᴰ.tail n) = let r = ih n in (Memᴰ.tail r.0, r.1)

  pub mem-append-cases : {a : A} (xs ys : List A) → Memᴰ a (xs ++ ys) → Memᴰ a xs ⊎ Memᴰ a ys
  mem-append-cases [] ys m = inr m
  mem-append-cases (x ∷ xs) ys (Memᴰ.head e) = inl (Memᴰ.head e)
  mem-append-cases (x ∷ xs) ys (Memᴰ.tail m) = elim (mem-append-cases xs ys m) [
    | inl left ↦ inl (Memᴰ.tail left)
    | inr right ↦ inr right
  ]

  pub mem-append_left : {a : A} (xs ys : List A) → Memᴰ a xs → Memᴰ a (xs ++ ys)
  mem-append_left [] ys m = elim m [ ]
  mem-append_left (x ∷ xs) ys (Memᴰ.head e) = Memᴰ.head e
  mem-append_left (x ∷ xs) ys (Memᴰ.tail m) = Memᴰ.tail (mem-append_left xs ys m)

  pub mem-append_right : {a : A} (xs ys : List A) → Memᴰ a ys → Memᴰ a (xs ++ ys)
  mem-append_right [] ys m = m
  mem-append_right (x ∷ xs) ys m = Memᴰ.tail (mem-append_right xs ys m)

module _ {ℓ} {A : Type ℓ} ⦃e : Eq A⦄ where
  -- `a in xs`
  abbrev pub contains : A → List A → Bool
  contains a [] = false
  contains a (x ∷ xs) = a == x || contains a xs

  -- `set(xs) <= set(ys)`
  abbrev pub is_subset : List A → List A → Bool
  is_subset xs ys = all (λ x. contains x ys) xs

  -- `len(xs) == len(set(xs))`
  abbrev pub is_unique : List A → Bool
  is_unique [] = true
  is_unique (x ∷ xs) = not (contains x xs) && is_unique xs

  -- `list(dict.fromkeys(xs))`, with the items that were seen.
  unfoldable pub unique_from : List A → List A → List A
  unique_from seen [] = []
  unique_from seen (x ∷ xs) = elim (contains x seen) [
    | true ↦ unique_from seen xs
    | false ↦ x ∷ unique_from (x ∷ seen) xs
  ]

  pub contains-mem : (a : A) (xs : List A) → contains a xs ≡ true → Memᴰ a xs
  contains-mem a [] h = cc
  contains-mem a (x ∷ xs) h = elim (Bool-cases (a == x)) [
    | inl same ↦ Memᴰ.head (==→≡ a x same)
    | inr other ↦ Memᴰ.tail (contains-mem a xs (ground arith))
  ]

  pub mem-contains : {a : A} (xs : List A) → Memᴰ a xs → contains a xs ≡ true
  mem-contains [] m = elim m [ ]
  mem-contains {a} (x ∷ xs) (Memᴰ.head p) =
      let h : (a == x) ≡ true = (e.equal_iff a x).1 p in ground arith
  mem-contains (x ∷ xs) (Memᴰ.tail m) = ground (arith, mem-contains xs m)

  pub mem-unique_from : {a : A} (seen xs : List A) → Memᴰ a (unique_from seen xs) → Memᴰ a xs
  unfolding unique_from
  mem-unique_from seen [] m = elim m [ ]
  mem-unique_from {a} seen (x ∷ xs) m = elim (Bool-cases (contains x seen)) [
    | inl known ↦ Memᴰ.tail (mem-unique_from seen xs (rw (known, unique_from) at m))
    | inr fresh ↦ under (mem-unique_from (x ∷ seen) xs) (rw (fresh, unique_from) at m)
  ]
    where
      under :
          (Memᴰ a (unique_from (x ∷ seen) xs) → Memᴰ a xs)
          → Memᴰ a (x ∷ unique_from (x ∷ seen) xs)
          → Memᴰ a (x ∷ xs)
      under ih (Memᴰ.head e) = Memᴰ.head e
      under ih (Memᴰ.tail n) = Memᴰ.tail (ih n)

module _ {ℓ} {A : Type ℓ} ⦃e : Eq A⦄ where
  -- The items that were not seen are kept.
  pub contains-unique_from :
      (a : A) (seen xs : List A)
      → contains a seen ≡ false
      → contains a xs ≡ true
      → contains a (unique_from seen xs) ≡ true
  unfolding unique_from
  contains-unique_from a seen [] new h = h
  contains-unique_from a seen (x ∷ xs) new h = elim (Bool-cases (contains x seen)) [
    | inl known ↦
        rw (known, unique_from)
          (contains-unique_from a seen xs new (elim (Bool-cases (a == x)) [
            | inl same ↦
                absurd (clash (subst (λ k. contains k seen ≡ false) (==→≡ a x same) new) known)
            | inr other ↦ ground arith
          ]))
    | inr fresh ↦ elim (Bool-cases (a == x)) [
      | inl same ↦ rw (fresh, unique_from) (ground arith)
      | inr other ↦
          rw (fresh, unique_from)
            (ground (arith, contains-unique_from a (x ∷ seen) xs (ground arith) (ground arith)))
    ]
  ]
    where
      clash : {b : Bool} → b ≡ false → b ≡ true → ⊥
      clash f t = cc (sym t ∙ f)

pub any-append :
    {A : Type 0} (p : A → Bool) (xs ys : List A) → any p (xs ++ ys) ≡ (any p xs || any p ys)
any-append p [] ys = refl
any-append p (x ∷ xs) ys = ground (arith, any-append p xs ys)

pub all_iff :
    {A : Type 0} (p : A → Bool) (P : A → Type 0)
    → ((x : A) → (p x ≡ true) ↔ P x)
    → (xs : List A) → (all p xs ≡ true) ↔ All P xs
all_iff p P each [] = (λ h. tt, λ h. refl)
all_iff p P each (x ∷ xs) = &&_iff (each x) (all_iff p P each xs)

pub contains-append :
    {A : Type 0} ⦃e : Eq A⦄ (a : A) (xs ys : List A)
    → contains a (xs ++ ys) ≡ (contains a xs || contains a ys)
contains-append a [] ys = refl
contains-append a (x ∷ xs) ys = ground (arith, contains-append a xs ys)

-- Lists of items that are told apart by a key.
module _ {A : Type 0} {K : Type 0} ⦃e : Eq K⦄ (key : A → K) where
  pub contains-mem_key :
      (k : K) (xs : List A) → contains k (map key xs) ≡ true → (x : A) × Memᴰ x xs × (key x ≡ k)
  contains-mem_key k [] h = cc
  contains-mem_key k (x ∷ xs) h = elim (Bool-cases (k == key x)) [
    | inl same ↦ (x, Memᴰ.head refl, sym (==→≡ k (key x) same))
    | inr other ↦ let (y, m, p) = contains-mem_key k xs (ground arith) in (y, Memᴰ.tail m, p)
  ]

  pub mem-contains_key : {x : A} (xs : List A) → Memᴰ x xs → contains (key x) (map key xs) ≡ true
  mem-contains_key [] m = elim m [ ]
  mem-contains_key {x} (y ∷ xs) (Memᴰ.head p) =
      let same : (key x == key y) ≡ true = (e.equal_iff (key x) (key y)).1 (ap key p) in
      ground arith
  mem-contains_key (y ∷ xs) (Memᴰ.tail m) = ground (arith, mem-contains_key xs m)

  pub unique_key :
      {x y : A} (xs : List A)
      → is_unique (map key xs) ≡ true
      → Memᴰ x xs
      → Memᴰ y xs
      → key x ≡ key y
      → x ≡ y
  unique_key [] h m n p = elim m [ ]
  unique_key (z ∷ xs) h (Memᴰ.head m) (Memᴰ.head n) p = m ∙ sym n
  unique_key {x} {y} (z ∷ xs) h (Memᴰ.head m) (Memᴰ.tail n) p =
      let seen : contains (key z) (map key xs) ≡ true =
        subst (λ k. contains k (map key xs) ≡ true) (sym p ∙ ap key m) (mem-contains_key xs n) in
      cc (sym seen ∙ (let no : contains (key z) (map key xs) ≡ false = ground arith in no))
  unique_key {x} {y} (z ∷ xs) h (Memᴰ.tail m) (Memᴰ.head n) p =
      let seen : contains (key z) (map key xs) ≡ true =
        subst (λ k. contains k (map key xs) ≡ true) (p ∙ ap key n) (mem-contains_key xs m) in
      cc (sym seen ∙ (let no : contains (key z) (map key xs) ≡ false = ground arith in no))
  unique_key (z ∷ xs) h (Memᴰ.tail m) (Memᴰ.tail n) p = unique_key xs (&&-eq-true _ _ h).1 m n p

pub subset-of :
    {A : Type 0} ⦃e : Eq A⦄ (xs ys : List A)
    → ((a : A) → contains a xs ≡ true → contains a ys ≡ true)
    → is_subset xs ys ≡ true
subset-of [] ys h = refl
subset-of (x ∷ xs) ys h =
    let here = h x (mem-contains {a = x} (x ∷ xs) (Memᴰ.head refl)) in
    ground (arith, here, subset-of xs ys (λ a m. h a (ground arith)))
