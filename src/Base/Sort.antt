-- ===== src/Base/Sort.antt =====
-- Python's `sorted`: stable, by a test that says whether the first may stand before the second.
use Prim.Native.Char.{code}
use Prim.Native.String.{String}
use math_model_ai.Base.Tests.{ltb, if◌then◌else◌, Bool-cases}
use mathlib.Core.Path.{◌≡◌, refl, sym, subst}
use mathlib.Core.Logic.{◌⊎◌, inl, inr}
use mathlib.Core.Bool.{Bool, true, false}
use mathlib.Core.List.{List, [], ◌∷◌, Memᴰ, Perm}
use mathlib.Core.List.Perm

-- `<=` on texts, by code points.
abbrev pub text_leb : String → String → Bool
text_leb String.[] t = true
text_leb (String.◌∷◌ c s) String.[] = false
text_leb (String.◌∷◌ c s) (String.◌∷◌ d t) =
    let rest = text_leb s t in
    if ltb (code c) (code d) then true else if ltb (code d) (code c) then false else rest

module _ {ℓ} {A : Type ℓ} (le : A → A → Bool) where
  -- Before the first element that it may stand before.
  abbrev pub insert_sorted : A → List A → List A
  insert_sorted x [] = x ∷ []
  insert_sorted x (y ∷ ys) =
      let rest = insert_sorted x ys in if le x y then x ∷ y ∷ ys else y ∷ rest

  abbrev pub sort_by : List A → List A
  sort_by [] = []
  sort_by (x ∷ xs) = insert_sorted x (sort_by xs)

  insert_sorted-perm : (x : A) (ys : List A) → Perm (insert_sorted x ys) (x ∷ ys)
  insert_sorted-perm x [] = Perm.refl _
  insert_sorted-perm x (y ∷ ys) = elim (Bool-cases (le x y)) [
    | inl before ↦ rw before (Perm.refl _)
    | inr after ↦ rw after (Perm.trans (Perm.cons y (insert_sorted-perm x ys)) (Perm.swap x y ys))
  ]

  pub sort_by-perm : (xs : List A) → Perm (sort_by xs) xs
  sort_by-perm [] = Perm.refl _
  sort_by-perm (x ∷ xs) =
      Perm.trans (insert_sorted-perm x (sort_by xs)) (Perm.cons x (sort_by-perm xs))

  mem-insert_sorted : {a : A} (x : A) (ys : List A) → Memᴰ a (insert_sorted x ys) → Memᴰ a (x ∷ ys)
  mem-insert_sorted x [] m = m
  mem-insert_sorted {a} x (y ∷ ys) m = elim (Bool-cases (le x y)) [
    | inl before ↦ rw before at m
    | inr after ↦ second_first (mem-insert_sorted x ys) (rw after at m)
  ]
    where
      second_first :
          (Memᴰ a (insert_sorted x ys) → Memᴰ a (x ∷ ys))
          → Memᴰ a (y ∷ insert_sorted x ys)
          → Memᴰ a (x ∷ y ∷ ys)
      second_first ih (Memᴰ.head e) = Memᴰ.tail (Memᴰ.head e)
      second_first ih (Memᴰ.tail n) = under (ih n)
        where
          under : Memᴰ a (x ∷ ys) → Memᴰ a (x ∷ y ∷ ys)
          under (Memᴰ.head e) = Memᴰ.head e
          under (Memᴰ.tail k) = Memᴰ.tail (Memᴰ.tail k)

  pub mem-sort_by : {a : A} (xs : List A) → Memᴰ a (sort_by xs) → Memᴰ a xs
  mem-sort_by [] m = m
  mem-sort_by {a} (x ∷ xs) m = in_tail (mem-sort_by xs) (mem-insert_sorted x (sort_by xs) m)
    where
      in_tail : (Memᴰ a (sort_by xs) → Memᴰ a xs) → Memᴰ a (x ∷ sort_by xs) → Memᴰ a (x ∷ xs)
      in_tail ih (Memᴰ.head e) = Memᴰ.head e
      in_tail ih (Memᴰ.tail n) = Memᴰ.tail (ih n)

  insert_sorted-mem : {a : A} (x : A) (ys : List A) → Memᴰ a (x ∷ ys) → Memᴰ a (insert_sorted x ys)
  insert_sorted-mem x [] m = m
  insert_sorted-mem {a} x (y ∷ ys) m = elim (Bool-cases (le x y)) [
    | inl before ↦ rw before m
    | inr after ↦ rw after (second_first (insert_sorted-mem x ys) m)
  ]
    where
      second_first :
          (Memᴰ a (x ∷ ys) → Memᴰ a (insert_sorted x ys))
          → Memᴰ a (x ∷ y ∷ ys)
          → Memᴰ a (y ∷ insert_sorted x ys)
      second_first ih (Memᴰ.head e) = Memᴰ.tail (ih (Memᴰ.head e))
      second_first ih (Memᴰ.tail (Memᴰ.head e)) = Memᴰ.head e
      second_first ih (Memᴰ.tail (Memᴰ.tail n)) = Memᴰ.tail (ih (Memᴰ.tail n))

  pub sort_by-mem : {a : A} (xs : List A) → Memᴰ a xs → Memᴰ a (sort_by xs)
  sort_by-mem [] m = m
  sort_by-mem (x ∷ xs) (Memᴰ.head e) = insert_sorted-mem x (sort_by xs) (Memᴰ.head e)
  sort_by-mem (x ∷ xs) (Memᴰ.tail n) =
      insert_sorted-mem x (sort_by xs) (Memᴰ.tail (sort_by-mem xs n))

  cons_not_nil : {x : A} {xs : List A} → x ∷ xs ≡ [] → ⊥
  cons_not_nil h = cc

  insert_sorted-not_nil : (x : A) (ys : List A) → insert_sorted x ys ≡ [] → ⊥
  insert_sorted-not_nil x [] h = cons_not_nil h
  insert_sorted-not_nil x (y ∷ ys) h = elim (Bool-cases (le x y)) [
    | inl before ↦ cons_not_nil (rw before at h)
    | inr after ↦ cons_not_nil (rw after at h)
  ]

  heads : {x y : A} {xs ys : List A} → x ∷ xs ≡ y ∷ ys → x ≡ y
  heads h = cc

  pub sort_by-nil : (xs : List A) → sort_by xs ≡ [] → xs ≡ []
  sort_by-nil [] h = refl
  sort_by-nil (x ∷ xs) h = absurd (insert_sorted-not_nil x (sort_by xs) h)

  -- The head of a sorted list may stand before each of its elements, for a test that is total and
  -- transitive.
  module _ (total : (a b : A) → le a b ≡ false → le b a ≡ true)
      (trans : (a b c : A) → le a b ≡ true → le b c ≡ true → le a c ≡ true) where
    itself : (a : A) → le a a ≡ true
    itself a = elim (Bool-cases (le a a)) [ inl h ↦ h | inr h ↦ total a a h ]

    -- What is known of an element that is inserted, or stands in the list already.
    abbrev Below : A → List A → A → Type ℓ
    Below x [] a = a ≡ x
    Below x (z ∷ zs) a = (a ≡ x) ⊎ (le z a ≡ true)

    insert_sorted-least :
        (x : A) (zs : List A) {y : A} {ys : List A} (a : A)
        → Below x zs a
        → insert_sorted x zs ≡ y ∷ ys
        → le y a ≡ true
    insert_sorted-least x [] a e h =
        subst (λ k. le k a ≡ true) (heads h) (subst (λ k. le x k ≡ true) (sym e) (itself x))
    insert_sorted-least x (z ∷ zs) {y} a e h = elim (Bool-cases (le x z)) [
      | inl before ↦
          subst (λ k. le k a ≡ true) (heads (rw before at h))
            (elim e [
              | inl same ↦ subst (λ k. le x k ≡ true) (sym same) (itself x)
              | inr below ↦ trans x z a before below
            ])
      | inr after ↦
          subst (λ k. le k a ≡ true) (heads (rw after at h))
            (elim e [
              | inl same ↦ subst (λ k. le z k ≡ true) (sym same) (total x z after)
              | inr below ↦ below
            ])
    ]

    sort_by-Below :
        (x : A) (xs zs : List A) {a : A}
        → sort_by xs ≡ zs
        → ((z : A) (rest : List A) → sort_by xs ≡ z ∷ rest → Memᴰ a xs → le z a ≡ true)
        → Memᴰ a (x ∷ xs)
        → Below x zs a
    sort_by-Below x xs [] e ih (Memᴰ.head s) = s
    sort_by-Below x xs [] {a} e ih (Memᴰ.tail m) =
        elim (subst (λ l. Memᴰ a l) (sort_by-nil xs e) m) [ ]
    sort_by-Below x xs (z ∷ zs) e ih (Memᴰ.head s) = inl s
    sort_by-Below x xs (z ∷ zs) e ih (Memᴰ.tail m) = inr (ih z zs e m)

    pub sort_by-least :
        (xs : List A) {y : A} {ys : List A} {a : A}
        → sort_by xs ≡ y ∷ ys
        → Memᴰ a xs
        → le y a ≡ true
    sort_by-least [] h m = elim m [ ]
    sort_by-least (x ∷ xs) {a = a} h m =
        insert_sorted-least x (sort_by xs) a
          (sort_by-Below x xs (sort_by xs) refl (λ z zs p n. sort_by-least xs p n) m) h
