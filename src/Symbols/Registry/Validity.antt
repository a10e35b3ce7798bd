-- ===== src/Symbols/Registry/Validity.antt =====
-- When a `SymbolRegistry` reports a model valid, `from_model` and `report` of
-- src/mathmodel_ai/mathematical/registry.py: against the declarations and the references of the model.
use math_model_ai.Base.{
  ◌≡◌, ◌↔◌, ◌⊎◌, refl, sym, ap, ap₂, ◌∙◌, String, Bool, true, false, not, ◌&&◌, Option, none, some,
  List, [], ◌∷◌, map, any-append, all_iff, &&_iff, All, Memᴰ, contains, is_unique, find-some, ◌==◌,
  ==→≡, string_eq, Bool-cases, &&-eq-true, inl, inr, arith, subst,
}
use math_model_ai.Expression.Syntax.{MathExpression, referenced_symbols}
use math_model_ai.Model.{MathematicalModel}
use math_model_ai.Symbols.Types.{is_critical, is_valid, SymbolDefinition}
use math_model_ai.Symbols.Registry.{
  SymbolRegistry, Uses, empty_registry, base_symbol, unused_issues, use_expressions,
  validate_references, register_all, definitions_of, expressions_of, from_model,
}
use math_model_ai.Symbols.Registry.Register.{
  Keyed, name, first_definition, lookup-register_all, register_all-critical, register_all-Keyed,
}
use math_model_ai.Symbols.Registry.Lookup.{defined, defined-resolved, resolved, shape}
use math_model_ai.Symbols.Registry.Refer.{
  Follows, all_defined, use_expressions-critical, unused_issues-valid,
}

clash : {B : Type 0} (b : Bool) → b ≡ true → not b ≡ true → B
clash true h g = cc
clash false h g = cc

module _ {A : Type 0} where
  -- A symbol is declared under its own name, or, with an index, under the name before the bracket.
  abbrev pub IsDeclared : List (SymbolDefinition A) → String → Type 0
  IsDeclared ds s =
      (d : SymbolDefinition A) × Memᴰ d ds
      × ((d.symbol ≡ s) ⊎ ((d.symbol ≡ base_symbol s) × (d.indexed ≡ true)))

  -- All that a list of expressions refers to is declared.
  abbrev pub AllDeclared : List (SymbolDefinition A) → List (String × MathExpression A) → Type 0
  AllDeclared ds es =
      All (λ (entry : String × MathExpression A). All (IsDeclared ds) (referenced_symbols entry.1))
        es

  contains-name :
      (ds : List (SymbolDefinition A)) {d : SymbolDefinition A}
      → Memᴰ d ds
      → contains d.symbol (map name ds) ≡ true
  contains-name [] m = elim m [ ]
  contains-name (x ∷ ds) {d} (Memᴰ.head e) =
      let same : (d.symbol == x.symbol) ≡ true =
        (string_eq.equal_iff d.symbol x.symbol).1 (ap name e) in
      ground arith
  contains-name (x ∷ ds) (Memᴰ.tail m) = ground (arith, contains-name ds m)

  first_unique :
      (ds : List (SymbolDefinition A)) (d : SymbolDefinition A)
      → is_unique (map name ds) ≡ true
      → Memᴰ d ds
      → first_definition ds d.symbol ≡ some d
  first_unique [] d unique m = elim m [ ]
  first_unique (x ∷ ds) d unique (Memᴰ.head e) =
      let same : (d.symbol == x.symbol) ≡ true =
        (string_eq.equal_iff d.symbol x.symbol).1 (ap name e) in
      rw same (ap some (sym e))
  first_unique (x ∷ ds) d unique (Memᴰ.tail m) = elim (Bool-cases (d.symbol == x.symbol)) [
    | inl same ↦
        let seen : contains x.symbol (map name ds) ≡ true =
          subst (λ k. contains k (map name ds) ≡ true) (==→≡ d.symbol x.symbol same)
            (contains-name ds m) in
        clash (contains x.symbol (map name ds)) seen (&&-eq-true _ _ unique).0
    | inr other ↦ rw other (first_unique ds d (&&-eq-true _ _ unique).1 m)
  ]

  -- What the first definitions of a symbol and of its base say.
  IsDeclared-resolved :
      (ds : List (SymbolDefinition A)) (s : String) (own base : Option (SymbolDefinition A))
      → first_definition ds s ≡ own
      → first_definition ds (base_symbol s) ≡ base
      → resolved (shape own) (shape base) ≡ true
      → IsDeclared ds s
  IsDeclared-resolved ds s (some d) base own_found base_found h =
      let (m, same) = find-some _ ds own_found in (d, m, inl (sym (==→≡ s d.symbol same)))
  IsDeclared-resolved ds s none (some d) own_found base_found h =
      let (m, same) = find-some _ ds base_found in
      (d, m, inr (sym (==→≡ (base_symbol s) d.symbol same), h))
  IsDeclared-resolved ds s none none own_found base_found h = cc

  own-resolved :
      (d : SymbolDefinition A) (own : Option (SymbolDefinition A)) (base : Option Bool)
      → own ≡ some d
      → resolved (shape own) base ≡ true
  own-resolved d own base h = ap (λ o. resolved (shape o) base) h

  base-resolved :
      (d : SymbolDefinition A) (own : Option Bool) (base : Option (SymbolDefinition A))
      → base ≡ some d
      → d.indexed ≡ true
      → resolved own (shape base) ≡ true
  base-resolved d none base h i = ap (λ o. resolved none (shape o)) h ∙ i
  base-resolved d (some b) base h i = refl

  resolved-IsDeclared :
      (ds : List (SymbolDefinition A)) (s : String)
      → is_unique (map name ds) ≡ true
      → IsDeclared ds s
      → resolved (shape (first_definition ds s)) (shape (first_definition ds (base_symbol s)))
        ≡ true
  resolved-IsDeclared ds s unique (d, m, inl same) =
      own-resolved d _ _
        (subst (λ k. first_definition ds k ≡ some d) same (first_unique ds d unique m))
  resolved-IsDeclared ds s unique (d, m, inr (same, indexed)) =
      base-resolved d _ _
        (subst (λ k. first_definition ds k ≡ some d) same (first_unique ds d unique m)) indexed

module _ {A : Type 0} (same_scale : A → A → Bool) where
  abbrev registered : List (SymbolDefinition A) → SymbolRegistry A
  registered ds = register_all same_scale ds empty_registry

  defined-registered :
      (ds : List (SymbolDefinition A)) (s : String)
      → defined (registered ds).symbols s
        ≡ resolved (shape (first_definition ds s)) (shape (first_definition ds (base_symbol s)))
  defined-registered ds s =
      defined-resolved (registered ds).symbols s
      ∙ ap₂ (λ o p. resolved (shape o) (shape p)) (lookup-register_all same_scale ds s)
          (lookup-register_all same_scale ds (base_symbol s))

  defined_iff :
      (ds : List (SymbolDefinition A)) (s : String)
      → is_unique (map name ds) ≡ true
      → (defined (registered ds).symbols s ≡ true) ↔ IsDeclared ds s
  defined_iff ds s unique = (
    λ h. IsDeclared-resolved ds s _ _ refl refl (sym (defined-registered ds s) ∙ h),
    λ h. defined-registered ds s ∙ resolved-IsDeclared ds s unique h,
  )

  all_defined_iff :
      (ds : List (SymbolDefinition A)) (es : List (String × MathExpression A))
      → is_unique (map name ds) ≡ true
      → (all_defined (registered ds).symbols es ≡ true) ↔ AllDeclared ds es
  all_defined_iff ds [] unique = (λ h. tt, λ h. refl)
  all_defined_iff ds ((reference, e) ∷ es) unique =
      &&_iff (all_iff _ _ (λ s. defined_iff ds s unique) (referenced_symbols e))
        (all_defined_iff ds es unique)

  Follows-start :
      (r : SymbolRegistry A)
      → Keyed r.symbols
      → Follows r.symbols (record { registry = r; used = []; undefined = [] })
  Follows-start r keyed = record { keyed = keyed; shapes = λ k. refl; tracked = λ s h. cc }

  validate_references-valid :
      (m : MathematicalModel A) (r : SymbolRegistry A)
      → Keyed r.symbols
      → is_valid (validate_references m r).issues
        ≡ (is_valid r.issues && all_defined r.symbols (expressions_of m))
  unfolding validate_references
  validate_references-valid m r keyed =
      let u : Uses A =
        use_expressions (expressions_of m) (record { registry = r; used = []; undefined = [] }) in
      ground (
        arith,
        any-append is_critical u.registry.issues (unused_issues u.used u.registry.symbols),
        unused_issues-valid u.used u.registry.symbols,
        use_expressions-critical (expressions_of m)
            (record { registry = r; used = []; undefined = [] }) (Follows-start r keyed),
      )

  from_model-valid :
      (m : MathematicalModel A)
      → is_valid (from_model same_scale m).issues ≡ (
          is_unique (map name (definitions_of m))
          && all_defined (registered (definitions_of m)).symbols (expressions_of m))
  unfolding from_model
  from_model-valid m =
      validate_references-valid m (registered (definitions_of m))
        (register_all-Keyed same_scale (definitions_of m) empty_registry (λ k d h. cc))
      ∙ ap (λ b. b && all_defined (registered (definitions_of m)).symbols (expressions_of m))
          (register_all-critical same_scale (definitions_of m))

  -- The registry of a model has no critical issue exactly when no two of the model's variables, parameters,
  -- constants, sets and indices share a symbol, and every symbol that the objective, the constraints, the
  -- initial and boundary conditions and the equations refer to is declared: under its own name, or, for a
  -- symbol with a bracket, under the name before it, by a variable that has index sets.
  pub from_model_iff :
      (m : MathematicalModel A)
      → (is_valid (from_model same_scale m).issues ≡ true) ↔ (
          (is_unique (map name (definitions_of m)) ≡ true)
          × AllDeclared (definitions_of m) (expressions_of m))
  from_model_iff m = (
    λ h.
        let (unique, known) = &&-eq-true _ _ (sym (from_model-valid m) ∙ h) in
        (unique, (all_defined_iff (definitions_of m) (expressions_of m) unique).0 known),
    λ h.
        from_model-valid m
        ∙ ap₂ (λ a b. a && b) h.0
            ((all_defined_iff (definitions_of m) (expressions_of m) h.0).1 h.1),
  )
