-- ===== src/Symbols/Registry/Register.antt =====
-- The definitions of a `SymbolRegistry`, `register` of src/mathmodel_ai/mathematical/registry.py, against
-- the plain view of a registry: for each symbol the first definition, if any.
use mathlib.Core.Option.{some-injective}
use math_model_ai.Base.{
  ◌≡◌, refl, sym, ap, ◌∙◌, String, Bool, true, false, not, ◌&&◌, ◌||◌, Option, none, some, List, [],
  ◌∷◌, map, any, any-append, all, find, contains, is_unique, is_some, ◌==◌, ==→≡, ==_sym, string_eq,
  if◌then◌else◌, Bool-cases, Option-cases, inl, inr, arith,
}
use math_model_ai.Base.Dict
use math_model_ai.Base.Dict.{Dict}
use math_model_ai.Symbols.Types.{is_critical, is_valid, SymbolDefinition}
use math_model_ai.Symbols.Registry.{
  SymbolRegistry, empty_registry, register, register_all, repeated,
}

abbrev pub name : {A : Type 0} → SymbolDefinition A → String
name d = d.symbol

-- The first definition of a symbol.
abbrev pub first_definition :
    {A : Type 0} → List (SymbolDefinition A) → String → Option (SymbolDefinition A)
first_definition ds s = find (λ d. s == name d) ds

-- `first` if it is there, `second` otherwise.
abbrev pub or_else : {B : Type 0} → Option B → Option B → Option B
or_else none second = second
or_else (some b) second = some b

module _ {B : Type 0} where
  abbrev pub when : Bool → B → Option B
  when b x = if b then some x else none

  inserted :
      (b : Bool) (x : B) (o : Option B)
      → (b ≡ true → o ≡ none)
      → (if b then some x else o) ≡ or_else o (when b x)
  inserted true x o free = sym (ap (λ p. or_else p (some x)) (free refl))
  inserted false x none free = refl
  inserted false x (some y) free = refl

  kept : (b : Bool) (x y : B) (o : Option B) → (b ≡ true → o ≡ some y) → o ≡ or_else o (when b x)
  kept b x y (some z) known = refl
  kept true x y none known = cc (known refl)
  kept false x y none known = refl

  is_some-or_else :
      (b : Bool) (x : B) (o : Option B) → is_some (or_else o (when b x)) ≡ (is_some o || b)
  is_some-or_else true x none = refl
  is_some-or_else false x none = refl
  is_some-or_else b x (some y) = refl

  or_else-none : (o : Option B) → or_else o none ≡ o
  or_else-none none = refl
  or_else-none (some y) = refl

  or_else-when :
      (b : Bool) (x : B) (o rest : Option B)
      → or_else (or_else o (when b x)) rest ≡ or_else o (if b then some x else rest)
  or_else-when true x none rest = refl
  or_else-when false x none rest = refl
  or_else-when b x (some y) rest = refl

module _ {A : Type 0} where
  -- A definition stands under its own symbol.
  abbrev pub Keyed : Dict String (SymbolDefinition A) → Type 0
  Keyed symbols =
      (k : String) (d : SymbolDefinition A) → Dict.lookup k symbols ≡ some d → d.symbol ≡ k

  -- Whether a registry holds none of the definitions' symbols.
  abbrev free : List (SymbolDefinition A) → SymbolRegistry A → Bool
  free ds r = all (λ (d : SymbolDefinition A). not (is_some (Dict.lookup d.symbol r.symbols))) ds

  keyed_or_else :
      (s : String) (d found : SymbolDefinition A) (o : Option (SymbolDefinition A))
      → (o ≡ some found → found.symbol ≡ s)
      → or_else o (when (s == d.symbol) d) ≡ some found
      → found.symbol ≡ s
  keyed_or_else s d found (some y) old h = old h
  keyed_or_else s d found none old h = elim (Bool-cases (s == d.symbol)) [
    | inl same ↦ ap name (sym (some-injective d found (rw same at h))) ∙ sym (==→≡ s d.symbol same)
    | inr other ↦ cc (rw other at h)
  ]

module _ {A : Type 0} (same_scale : A → A → Bool) where
  lookup-register :
      (d : SymbolDefinition A) (r : SymbolRegistry A) (s : String)
      → Dict.lookup s (register same_scale d r).symbols
        ≡ or_else (Dict.lookup s r.symbols) (when (s == d.symbol) d)
  unfolding register
  lookup-register d r s = elim (Option-cases (Dict.lookup d.symbol r.symbols)) [
    | inl free ↦
        rw (free, register)
          (Dict.lookup-insert s d.symbol d r.symbols
            ∙ inserted (s == d.symbol) d (Dict.lookup s r.symbols)
                (λ h. ap (λ k. Dict.lookup k r.symbols) (==→≡ s d.symbol h) ∙ free))
    | inr (existing, found) ↦
        rw (found, register)
          (kept (s == d.symbol) d existing (Dict.lookup s r.symbols)
            (λ h. ap (λ k. Dict.lookup k r.symbols) (==→≡ s d.symbol h) ∙ found))
  ]

  -- Registering definitions one by one keeps the first of each symbol.
  lookup-register_all-from :
      (ds : List (SymbolDefinition A)) (r : SymbolRegistry A) (s : String)
      → Dict.lookup s (register_all same_scale ds r).symbols
        ≡ or_else (Dict.lookup s r.symbols) (first_definition ds s)
  unfolding register_all
  lookup-register_all-from [] r s = sym (or_else-none (Dict.lookup s r.symbols))
  lookup-register_all-from (d ∷ ds) r s =
      lookup-register_all-from ds (register same_scale d r) s
      ∙ ap (λ o. or_else o (first_definition ds s)) (lookup-register d r s)
      ∙ or_else-when (s == d.symbol) d (Dict.lookup s r.symbols) (first_definition ds s)

  -- After registering definitions in an empty registry, the registry holds for each symbol the first
  -- definition of that symbol, and nothing for a symbol without a definition.
  pub lookup-register_all :
      (ds : List (SymbolDefinition A)) (s : String)
      → Dict.lookup s (register_all same_scale ds empty_registry).symbols ≡ first_definition ds s
  lookup-register_all ds s = lookup-register_all-from ds empty_registry s

  -- The issues of a registration are critical, and there is one when the symbol is known.
  register-critical :
      (d : SymbolDefinition A) (r : SymbolRegistry A)
      → any is_critical (register same_scale d r).issues
        ≡ (any is_critical r.issues || is_some (Dict.lookup d.symbol r.symbols))
  unfolding register
  register-critical d r = elim (Option-cases (Dict.lookup d.symbol r.symbols)) [
    | inl free ↦ rw (free, register) (ground arith)
    | inr (existing, found) ↦
        rw (found, register)
          (any-append is_critical r.issues (repeated same_scale existing d ∷ []) ∙ ground arith)
  ]

  -- A symbol is free after a registration when it was and is not the symbol registered.
  free-register :
      (d : SymbolDefinition A) (r : SymbolRegistry A) (ds : List (SymbolDefinition A))
      → free ds (register same_scale d r) ≡ (free ds r && not (contains d.symbol (map name ds)))
  free-register d r [] = refl
  free-register d r (next ∷ ds) = ground (
    arith,
    free-register d r ds,
    ==_sym next.symbol d.symbol,
    ap is_some (lookup-register d r next.symbol)
        ∙ is_some-or_else (next.symbol == d.symbol) d (Dict.lookup next.symbol r.symbols),
  )

  register_all-critical-from :
      (ds : List (SymbolDefinition A)) (r : SymbolRegistry A)
      → is_valid (register_all same_scale ds r).issues
        ≡ (is_valid r.issues && (free ds r && is_unique (map name ds)))
  unfolding register_all
  register_all-critical-from [] r = ground arith
  register_all-critical-from (d ∷ ds) r = ground (
    arith,
    register_all-critical-from ds (register same_scale d r),
    free-register d r ds,
    register-critical d r,
  )

  free-empty : (ds : List (SymbolDefinition A)) → free ds empty_registry ≡ true
  free-empty [] = refl
  free-empty (d ∷ ds) = free-empty ds

  -- A registry has a critical issue when a symbol is defined twice.
  pub register_all-critical :
      (ds : List (SymbolDefinition A))
      → is_valid (register_all same_scale ds empty_registry).issues ≡ is_unique (map name ds)
  register_all-critical ds =
      register_all-critical-from ds empty_registry
      ∙ ap (λ b. b && is_unique (map name ds)) (free-empty ds)

  register-Keyed :
      (d : SymbolDefinition A) (r : SymbolRegistry A)
      → Keyed r.symbols
      → Keyed (register same_scale d r).symbols
  register-Keyed d r old k found h =
      keyed_or_else k d found (Dict.lookup k r.symbols) (old k found)
        (sym (lookup-register d r k) ∙ h)

  pub register_all-Keyed :
      (ds : List (SymbolDefinition A)) (r : SymbolRegistry A)
      → Keyed r.symbols
      → Keyed (register_all same_scale ds r).symbols
  unfolding register_all
  register_all-Keyed [] r old = old
  register_all-Keyed (d ∷ ds) r old =
      register_all-Keyed ds (register same_scale d r) (register-Keyed d r old)
