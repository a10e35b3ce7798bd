-- ===== src/Symbols/Registry/Refer.antt =====
-- The symbols that a model's expressions refer to, `validate_references` of
-- src/mathmodel_ai/mathematical/registry.py.
use mathlib.Core.Option.{some-injective}
use math_model_ai.Base.{
  ◌≡◌, refl, sym, ap, ap₂, subst, ◌∙◌, String, Bool, true, false, not, ◌&&◌, Option, some, List, [],
  ◌∷◌, ◌++◌, any, any-append, all, contains, is_some, ◌==◌, ==→≡, string_eq, if◌then◌else◌,
  Bool-cases, Option-cases, inl, inr, arith,
}
use math_model_ai.Base.Dict
use math_model_ai.Base.Dict.{Dict}
use math_model_ai.Expression.Syntax.{MathExpression, referenced_symbols}
use math_model_ai.Symbols.Types.{
  is_critical, is_valid, critical_issue, SymbolDefinition, undefined_symbol,
}
use math_model_ai.Symbols.Registry.{
  SymbolRegistry, Uses, base_symbol, lookup, refer, use_undefined, use_defined, use_symbol,
  use_symbols, use_expressions, unused_issues, is_core,
}
use math_model_ai.Symbols.Registry.Register.{Keyed}
use math_model_ai.Symbols.Registry.Lookup.{resolved, shape, defined, defined-resolved, found-entry}

module _ {A : Type 0} where
  -- What stays as it was while the references are read.
  pub record Follows (symbols : Dict String (SymbolDefinition A)) (u : Uses A) : Type 0 where
    pub keyed : Keyed u.registry.symbols
    pub shapes :
        (k : String) → shape (Dict.lookup k u.registry.symbols) ≡ shape (Dict.lookup k symbols)
    pub tracked :
        (s : String) → contains s u.undefined ≡ true → any is_critical u.registry.issues ≡ true

  defined-Follows :
      {symbols : Dict String (SymbolDefinition A)} {u : Uses A}
      → Follows symbols u
      → (s : String) → defined u.registry.symbols s ≡ defined symbols s
  defined-Follows {symbols} {u} f s =
      defined-resolved u.registry.symbols s
      ∙ ap₂ resolved (f.shapes s) (f.shapes (base_symbol s))
      ∙ sym (defined-resolved symbols s)

  abbrev marked : String → SymbolDefinition A → SymbolDefinition A
  marked reference d = record d { references = d.references ++ reference ∷ [] }

  shape-insert :
      (b : Bool) (x d : SymbolDefinition A) (o : Option (SymbolDefinition A))
      → x.indexed ≡ d.indexed
      → (b ≡ true → o ≡ some d)
      → shape (if b then some x else o) ≡ shape o
  shape-insert true x d o same at_d = ap some same ∙ sym (ap shape (at_d refl))
  shape-insert false x d o same at_d = refl

  shape-refer :
      (reference : String) (d : SymbolDefinition A) (r : SymbolRegistry A) (k : String)
      → Dict.lookup d.symbol r.symbols ≡ some d
      → shape (Dict.lookup k (refer reference d r).symbols) ≡ shape (Dict.lookup k r.symbols)
  shape-refer reference d r k entry = elim (Bool-cases (contains reference d.references)) [
    | inl known ↦ rw known refl
    | inr new ↦ rw new (
        ap shape (Dict.lookup-insert k d.symbol (marked reference d) r.symbols)
        ∙ shape-insert (k == d.symbol) (marked reference d) d (Dict.lookup k r.symbols) refl
            (λ h. ap (λ j. Dict.lookup j r.symbols) (==→≡ k d.symbol h) ∙ entry))
  ]

  keyed-insert :
      (k : String) (b : Bool) (x d : SymbolDefinition A) (o : Option (SymbolDefinition A))
      → (b ≡ true → x.symbol ≡ k)
      → (o ≡ some d → d.symbol ≡ k)
      → (if b then some x else o) ≡ some d
      → d.symbol ≡ k
  keyed-insert k true x d o new old h =
      ap (λ (y : SymbolDefinition A). y.symbol) (sym (some-injective x d h)) ∙ new refl
  keyed-insert k false x d o new old h = old h

  refer-Keyed :
      (reference : String) (d : SymbolDefinition A) (r : SymbolRegistry A)
      → Keyed r.symbols
      → Keyed (refer reference d r).symbols
  refer-Keyed reference d r keyed k e h = elim (Bool-cases (contains reference d.references)) [
    | inl known ↦ keyed k e (rw known at h)
    | inr new ↦
        keyed-insert k (k == d.symbol) (marked reference d) e (Dict.lookup k r.symbols)
          (λ same. sym (==→≡ k d.symbol same)) (keyed k e)
          (sym (Dict.lookup-insert k d.symbol (marked reference d) r.symbols) ∙ (rw new at h))
  ]

  issues-refer :
      (reference : String) (d : SymbolDefinition A) (r : SymbolRegistry A)
      → (refer reference d r).issues ≡ r.issues
  issues-refer reference d r = ground arith

  use_undefined-critical :
      {symbols : Dict String (SymbolDefinition A)} (s : String) (u : Uses A)
      → Follows symbols u
      → any is_critical (use_undefined s u).registry.issues ≡ true
  use_undefined-critical s u f = elim (Bool-cases (contains s u.undefined)) [
    | inl seen ↦ rw seen (f.tracked s seen)
    | inr new ↦ rw new (
        any-append is_critical u.registry.issues (critical_issue undefined_symbol s ∷ [])
        ∙ ground arith)
  ]

  use_undefined-symbols :
      (s : String) (u : Uses A) → (use_undefined s u).registry.symbols ≡ u.registry.symbols
  use_undefined-symbols s u = ground arith

  use_undefined-Follows :
      {symbols : Dict String (SymbolDefinition A)} (s : String) (u : Uses A)
      → Follows symbols u
      → Follows symbols (use_undefined s u)
  use_undefined-Follows {symbols} s u f = record {
    keyed = subst (λ d. Keyed d) (sym (use_undefined-symbols s u)) f.keyed;
    shapes = λ k. ap (λ d. shape (Dict.lookup k d)) (use_undefined-symbols s u) ∙ f.shapes k;
    tracked = λ t h. use_undefined-critical s u f;
  }

  use_defined-Follows :
      {symbols : Dict String (SymbolDefinition A)} (reference : String) (d : SymbolDefinition A)
      (u : Uses A)
      → Dict.lookup d.symbol u.registry.symbols ≡ some d
      → Follows symbols u
      → Follows symbols (use_defined reference d u)
  use_defined-Follows reference d u entry f = record {
    keyed = refer-Keyed reference d u.registry f.keyed;
    shapes = λ k. shape-refer reference d u.registry k entry ∙ f.shapes k;
    tracked = λ t h. ap (any is_critical) (issues-refer reference d u.registry) ∙ f.tracked t h;
  }

  use_symbol-Follows :
      {symbols : Dict String (SymbolDefinition A)} (reference s : String) (u : Uses A)
      → Follows symbols u
      → Follows symbols (use_symbol reference s u)
  unfolding use_symbol
  use_symbol-Follows {symbols} reference s u f = elim (Option-cases (lookup u.registry.symbols s)) [
    | inl nothing ↦ rw (nothing, use_symbol) (use_undefined-Follows s u f)
    | inr (d, found) ↦
        rw (found, use_symbol)
          (use_defined-Follows reference d u (found-entry u.registry.symbols s d f.keyed found) f)
  ]

  use_symbol-critical :
      {symbols : Dict String (SymbolDefinition A)} (reference s : String) (u : Uses A)
      → Follows symbols u
      → is_valid (use_symbol reference s u).registry.issues
        ≡ (is_valid u.registry.issues && defined symbols s)
  unfolding use_symbol
  use_symbol-critical {symbols} reference s u f =
      elim (Option-cases (lookup u.registry.symbols s)) [
        | inl nothing ↦
            let gone : defined symbols s ≡ false = sym (defined-Follows f s) ∙ ap is_some nothing in
            rw (nothing, use_symbol) (ground (arith, use_undefined-critical s u f))
        | inr (d, found) ↦
            let there : defined symbols s ≡ true = sym (defined-Follows f s) ∙ ap is_some found in
            rw (found, use_symbol)
              (ground (arith, ap is_valid (issues-refer reference d u.registry)))
      ]

  use_symbols-Follows :
      {symbols : Dict String (SymbolDefinition A)} (reference : String) (ss : List String)
      (u : Uses A)
      → Follows symbols u
      → Follows symbols (use_symbols reference ss u)
  unfolding use_symbols
  use_symbols-Follows reference [] u f = f
  use_symbols-Follows reference (s ∷ ss) u f =
      use_symbols-Follows reference ss (use_symbol reference s u)
        (use_symbol-Follows reference s u f)

  use_symbols-critical :
      {symbols : Dict String (SymbolDefinition A)} (reference : String) (ss : List String)
      (u : Uses A)
      → Follows symbols u
      → is_valid (use_symbols reference ss u).registry.issues
        ≡ (is_valid u.registry.issues && all (defined symbols) ss)
  unfolding use_symbols
  use_symbols-critical reference [] u f = ground arith
  use_symbols-critical reference (s ∷ ss) u f = ground (
    arith,
    use_symbols-critical reference ss (use_symbol reference s u)
        (use_symbol-Follows reference s u f),
    use_symbol-critical reference s u f,
  )

  -- Every symbol of every expression is defined.
  abbrev pub all_defined :
      Dict String (SymbolDefinition A) → List (String × MathExpression A) → Bool
  all_defined symbols [] = true
  all_defined symbols ((_, e) ∷ es) =
      all (defined symbols) (referenced_symbols e) && all_defined symbols es

  pub use_expressions-Follows :
      {symbols : Dict String (SymbolDefinition A)} (es : List (String × MathExpression A))
      (u : Uses A)
      → Follows symbols u
      → Follows symbols (use_expressions es u)
  unfolding use_expressions
  use_expressions-Follows [] u f = f
  use_expressions-Follows ((reference, e) ∷ es) u f =
      use_expressions-Follows es _ (use_symbols-Follows reference (referenced_symbols e) u f)

  pub use_expressions-critical :
      {symbols : Dict String (SymbolDefinition A)} (es : List (String × MathExpression A))
      (u : Uses A)
      → Follows symbols u
      → is_valid (use_expressions es u).registry.issues
        ≡ (is_valid u.registry.issues && all_defined symbols es)
  unfolding use_expressions
  use_expressions-critical [] u f = ground arith
  use_expressions-critical ((reference, e) ∷ es) u f = ground (
    arith,
    use_expressions-critical es _ (use_symbols-Follows reference (referenced_symbols e) u f),
    use_symbols-critical reference (referenced_symbols e) u f,
  )

  -- A symbol that is not used is no error.
  pub unused_issues-valid :
      (used : List String) (symbols : Dict String (SymbolDefinition A))
      → is_valid (unused_issues used symbols) ≡ true
  unused_issues-valid used [] = refl
  unused_issues-valid used ((s, d) ∷ rest) =
      elim (Bool-cases (is_core d.kind && not (contains s used))) [
        | inl fresh ↦ rw fresh (unused_issues-valid used rest)
        | inr other ↦ rw other (unused_issues-valid used rest)
      ]
