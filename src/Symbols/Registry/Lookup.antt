-- ===== src/Symbols/Registry/Lookup.antt =====
-- What `lookup` of src/mathmodel_ai/mathematical/registry.py reads of a registry: which symbols are defined,
-- and which of them with an index.
use math_model_ai.Base.{
  ◌≡◌, refl, sym, subst, ◌∙◌, String, Bool, true, false, Option, none, some, is_some, string_eq,
  if◌then◌else◌, Option-cases, inl, inr, arith,
}
use math_model_ai.Base.Dict
use math_model_ai.Base.Dict.{Dict}
use math_model_ai.Symbols.Types.{SymbolDefinition}
use math_model_ai.Symbols.Registry.{base_symbol, indexed_only, lookup}
use math_model_ai.Symbols.Registry.Register.{Keyed}

abbrev pub resolved : Option Bool → Option Bool → Bool
resolved (some b) base = true
resolved none (some indexed) = indexed
resolved none none = false

module _ {A : Type 0} where
  -- What is said of a symbol: whether it is defined, and whether with an index.
  abbrev pub shape : Option (SymbolDefinition A) → Option Bool
  shape none = none
  shape (some d) = some d.indexed

  -- Whether the registry knows what a symbol is.
  abbrev pub defined : Dict String (SymbolDefinition A) → String → Bool
  defined symbols s = is_some (lookup symbols s)

  indexed_only-resolved :
      (o : Option (SymbolDefinition A)) → is_some (indexed_only o) ≡ resolved none (shape o)
  indexed_only-resolved none = refl
  indexed_only-resolved (some d) = ground arith

  pub defined-resolved :
      (symbols : Dict String (SymbolDefinition A)) (s : String)
      → defined symbols s
        ≡ resolved (shape (Dict.lookup s symbols)) (shape (Dict.lookup (base_symbol s) symbols))
  unfolding lookup
  defined-resolved symbols s = elim (Option-cases (Dict.lookup s symbols)) [
    | inl no_entry ↦
        rw (no_entry, lookup) (indexed_only-resolved (Dict.lookup (base_symbol s) symbols))
    | inr (d, found) ↦ rw (found, lookup) refl
  ]

  indexed_only-found :
      (o : Option (SymbolDefinition A)) (d : SymbolDefinition A)
      → indexed_only o ≡ some d
      → o ≡ some d
  indexed_only-found none d h = cc
  indexed_only-found (some e) d h = under e.indexed h
    where
      under : (b : Bool) → (if b then some e else none) ≡ some d → some e ≡ some d
      under true g = g
      under false g = cc

  entry-at :
      (symbols : Dict String (SymbolDefinition A)) (k : String) (d : SymbolDefinition A)
      → Keyed symbols
      → Dict.lookup k symbols ≡ some d
      → Dict.lookup d.symbol symbols ≡ some d
  entry-at symbols k d keyed h = subst (λ j. Dict.lookup j symbols ≡ some d) (sym (keyed k d h)) h

  -- The definition that a lookup finds stands in the dict, under its own symbol.
  pub found-entry :
      (symbols : Dict String (SymbolDefinition A)) (s : String) (d : SymbolDefinition A)
      → Keyed symbols
      → lookup symbols s ≡ some d
      → Dict.lookup d.symbol symbols ≡ some d
  unfolding lookup
  found-entry symbols s d keyed h = elim (Option-cases (Dict.lookup s symbols)) [
    | inl no_entry ↦
        entry-at symbols (base_symbol s) d keyed
          (indexed_only-found _ d (rw (no_entry, lookup) at h))
    | inr (e, found) ↦ entry-at symbols s d keyed (found ∙ (rw (found, lookup) at h))
  ]
