-- ===== src/Base/Dict.antt =====
-- Dicts in insertion order.
use native.Mathlib.Omega.{arith}
use mathlib.Core.Path.{◌≡◌, refl, sym, ap, ◌∙◌}
use mathlib.Core.Logic.{◌⊎◌, inl, inr}
use mathlib.Core.Bool.{true, false, ◌||◌}
use mathlib.Core.Option.{Option, none, some, some-injective}
use mathlib.Core.List.{List, [], ◌∷◌, map, Memᴰ}
use math_model_ai.Base.Tests.{if◌then◌else◌, Bool-cases, is_some}
use math_model_ai.Base.Lists.{contains}
use math_model_ai.Base.Equality.{Eq, ◌==◌, ==→≡}

abbrev pub Dict {ℓ κ} : Type ℓ → Type κ → Type (ℓ ⊔ κ)
Dict K V = List (K × V)

abbrev pub keys {ℓ κ} : {K : Type ℓ} {V : Type κ} → Dict K V → List K
keys [] = []
keys ((k, _) ∷ d) = k ∷ keys d

module _ {ℓ κ} {K : Type ℓ} {V : Type κ} ⦃e : Eq K⦄ where
  -- `d.get(k)`
  abbrev pub lookup : K → Dict K V → Option V
  lookup k [] = none
  lookup k ((j, v) ∷ d) = let rest = lookup k d in if k == j then some v else rest

  -- `d[k] = v`: a known key keeps its place.
  abbrev pub insert : K → V → Dict K V → Dict K V
  insert k v [] = (k, v) ∷ []
  insert k v ((j, w) ∷ d) = if k == j then (j, v) ∷ d else (j, w) ∷ insert k v d

  -- `d.get(k, default)`
  abbrev pub get_or : K → V → Dict K V → V
  get_or k default d = elim (lookup k d) [ none ↦ default | some v ↦ v ]

  -- `{key(item): item for item in items}`, where a later item replaces an earlier one.
  abbrev pub index_from : (V → K) → Dict K V → List V → Dict K V
  index_from key d [] = d
  index_from key d (x ∷ xs) = index_from key (insert (key x) x d) xs

  abbrev pub index_by : (V → K) → List V → Dict K V
  index_by key xs = index_from key [] xs

  pub lookup-insert :
      (j k : K) (v : V) (d : Dict K V)
      → lookup j (insert k v d) ≡ (if j == k then some v else lookup j d)
  lookup-insert j k v [] = refl
  lookup-insert j k v ((i, w) ∷ d) =
      ground (arith, lookup-insert j k v d, e.equal_iff k i, e.equal_iff j k, e.equal_iff j i)

  pub get_or-same :
      (k j : K) (w default : V) (d : Dict K V) → (k == j) ≡ true → get_or k default ((j, w) ∷ d) ≡ w
  get_or-same k j w default d h = ground arith

  pub get_or-other :
      (k j : K) (w default : V) (d : Dict K V)
      → (k == j) ≡ false
      → get_or k default ((j, w) ∷ d) ≡ get_or k default d
  get_or-other k j w default d h = ground arith

  -- A lookup in an indexed list finds one of its items, under its own key.
  lookup-index_from :
      (key : V → K) (d : Dict K V) (xs : List V) (k : K) {v : V}
      → lookup k (index_from key d xs) ≡ some v
      → (Memᴰ v xs × (key v ≡ k)) ⊎ (lookup k d ≡ some v)
  lookup-index_from key d [] k h = inr h
  lookup-index_from key d (x ∷ xs) k {v} h =
      elim (lookup-index_from key (insert (key x) x d) xs k h) [
        | inl found ↦ inl (Memᴰ.tail found.0, found.1)
        | inr old ↦ elim (Bool-cases (k == key x)) [
          | inl same ↦
              let is_x : x ≡ v =
                some-injective x v (sym (rw same at (lookup-insert k (key x) x d)) ∙ old) in
              inl (Memᴰ.head (sym is_x), ap key (sym is_x) ∙ sym (==→≡ _ _ same))
          | inr other ↦ inr (sym (rw other at (lookup-insert k (key x) x d)) ∙ old)
        ]
      ]

  pub lookup-index_by :
      (key : V → K) (xs : List V) (k : K) {v : V}
      → lookup k (index_by key xs) ≡ some v
      → Memᴰ v xs × (key v ≡ k)
  lookup-index_by key xs k h = elim (lookup-index_from key [] xs k h) [
    | inl found ↦ found
    | inr nowhere ↦ cc
  ]

  -- What is found is a key, and the keys of an indexed list are those of its items.
  pub lookup-keys : (k : K) (d : Dict K V) → is_some (lookup k d) ≡ contains k (keys d)
  lookup-keys k [] = refl
  lookup-keys k ((j, v) ∷ d) = ground (arith, lookup-keys k d)

  keys-insert :
      (j k : K) (v : V) (d : Dict K V)
      → contains j (keys (insert k v d)) ≡ (contains j (keys d) || j == k)
  keys-insert j k v [] = ground arith
  keys-insert j k v ((i, w) ∷ d) =
      ground (arith, keys-insert j k v d, e.equal_iff k i, e.equal_iff j k, e.equal_iff j i)

  keys-index_from :
      (key : V → K) (j : K) (d : Dict K V) (xs : List V)
      → contains j (keys (index_from key d xs)) ≡ (contains j (keys d) || contains j (map key xs))
  keys-index_from key j d [] = ground arith
  keys-index_from key j d (x ∷ xs) =
      ground (arith, keys-index_from key j (insert (key x) x d) xs, keys-insert j (key x) x d)

  pub keys-index_by :
      (key : V → K) (j : K) (xs : List V)
      → contains j (keys (index_by key xs)) ≡ contains j (map key xs)
  keys-index_by key j xs = keys-index_from key j [] xs
