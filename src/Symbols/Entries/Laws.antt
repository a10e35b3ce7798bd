-- ===== src/Symbols/Entries/Laws.antt =====
-- `ParameterRegistry` and `EquationRegistry` of src/mathmodel_ai/mathematical/registry.py, against the list
-- of the entries that a model declares.
use mathlib.Core.List.{append-nil, append_assoc}
use math_model_ai.Base.{
  ◌≡◌, ◌↔◌, refl, sym, ap, ◌∙◌, String, Bool, true, false, not, ◌&&◌, List, [], ◌∷◌, ◌++◌, map,
  any-append, all, all_iff, All, contains, contains-append, ==_sym, is_subset, is_unique, string_eq,
  Bool-cases, inl, inr, arith,
}
use math_model_ai.Base.Dict
use math_model_ai.Base.Dict.{Dict}
use math_model_ai.Model.{EquationDefinition, MathematicalModel}
use math_model_ai.Symbols.Types.{
  RegistryIssueCode, duplicate_equation, is_critical, is_valid, critical_issue,
}
use math_model_ai.Symbols.Entries.{
  Entries, no_entries, register_entry, register_entries, equation_key, undefined_dependencies,
  check_dependencies, equations_of,
}

module _ {V : Type 0} where
  insert-new :
      (k : String) (v : V) (d : Dict String V)
      → contains k (Dict.keys d) ≡ false
      → Dict.insert k v d ≡ d ++ (k, v) ∷ []
  insert-new k v [] h = refl
  insert-new k v ((j, w) ∷ d) h = ground (arith, insert-new k v d)

  keys-append : (d e : Dict String V) → Dict.keys (d ++ e) ≡ Dict.keys d ++ Dict.keys e
  keys-append [] e = refl
  keys-append ((k, v) ∷ d) e = ap (λ ks. k ∷ ks) (keys-append d e)

module _ {V : Type 0} (key : V → String) (duplicate : RegistryIssueCode) where
  abbrev pairs : List V → Dict String V
  pairs [] = []
  pairs (v ∷ vs) = (key v, v) ∷ pairs vs

  -- Whether none of the keys is known.
  abbrev new : List V → Dict String V → Bool
  new vs d = all (λ v. not (contains (key v) (Dict.keys d))) vs

  register_entry-new :
      (v : V) (r : Entries V)
      → contains (key v) (Dict.keys r.entries) ≡ false
      → register_entry key duplicate v r
        ≡ record { entries = r.entries ++ (key v, v) ∷ []; issues = r.issues }
  unfolding register_entry
  register_entry-new v r h =
      rw (h, register_entry)
        (ap (λ d. record { entries = d; issues = r.issues }) (insert-new (key v) v r.entries h))

  new-append :
      (v : V) (d : Dict String V) (vs : List V)
      → new vs (d ++ (key v, v) ∷ []) ≡ (new vs d && not (contains (key v) (map key vs)))
  new-append v d [] = refl
  new-append v d (w ∷ vs) = ground (
    arith,
    new-append v d vs,
    ==_sym (key v) (key w),
    ap (contains (key w)) (keys-append d ((key v, v) ∷ []))
        ∙ contains-append (key w) (Dict.keys d) (key v ∷ []),
  )

  register_entry-known :
      (v : V) (r : Entries V)
      → contains (key v) (Dict.keys r.entries) ≡ true
      → is_valid (register_entry key duplicate v r).issues ≡ false
  unfolding register_entry
  register_entry-known v r h =
      rw (h, register_entry)
        (ground (arith, any-append is_critical r.issues (critical_issue duplicate (key v) ∷ [])))

  -- A key that is registered twice is a critical issue.
  register_entries-valid :
      (vs : List V) (r : Entries V)
      → is_valid (register_entries key duplicate vs r).issues
        ≡ (is_valid r.issues && (new vs r.entries && is_unique (map key vs)))
  unfolding register_entries
  register_entries-valid [] r = ground arith
  register_entries-valid (v ∷ vs) r = elim (Bool-cases (contains (key v) (Dict.keys r.entries))) [
    | inl known ↦ ground (
      arith,
      register_entries-valid vs (register_entry key duplicate v r),
      register_entry-known v r known,
    )
    | inr unknown ↦
        ap (λ s. is_valid (register_entries key duplicate vs s).issues)
          (register_entry-new v r unknown)
        ∙ ground (
          arith,
          register_entries-valid vs
              (record { entries = r.entries ++ (key v, v) ∷ []; issues = r.issues }),
          new-append v r.entries vs,
        )
  ]

  register_entries-entries :
      (vs : List V) (r : Entries V)
      → (new vs r.entries && is_unique (map key vs)) ≡ true
      → (register_entries key duplicate vs r).entries ≡ r.entries ++ pairs vs
  unfolding register_entries
  register_entries-entries [] r h = sym (append-nil r.entries)
  register_entries-entries (v ∷ vs) r h =
      let unknown : contains (key v) (Dict.keys r.entries) ≡ false = ground arith in
      let next : Entries V = record { entries = r.entries ++ (key v, v) ∷ []; issues = r.issues } in
      ap (λ s. (register_entries key duplicate vs s).entries) (register_entry-new v r unknown)
      ∙ register_entries-entries vs next (ground (arith, new-append v r.entries vs))
      ∙ append_assoc r.entries ((key v, v) ∷ []) (pairs vs)

  new-empty : (vs : List V) → new vs [] ≡ true
  new-empty [] = refl
  new-empty (v ∷ vs) = new-empty vs

  keys-pairs : (vs : List V) → Dict.keys (pairs vs) ≡ map key vs
  keys-pairs [] = refl
  keys-pairs (v ∷ vs) = ap (λ ks. key v ∷ ks) (keys-pairs vs)

  registered-valid :
      (vs : List V)
      → is_valid (register_entries key duplicate vs no_entries).issues ≡ is_unique (map key vs)
  registered-valid vs =
      register_entries-valid vs no_entries ∙ ap (λ b. b && is_unique (map key vs)) (new-empty vs)

  registered-entries :
      (vs : List V)
      → is_unique (map key vs) ≡ true
      → (register_entries key duplicate vs no_entries).entries ≡ pairs vs
  registered-entries vs unique =
      register_entries-entries vs no_entries
        (ap (λ b. b && is_unique (map key vs)) (new-empty vs) ∙ unique)

undefined_dependencies-valid :
    (known ds : List String) → is_valid (undefined_dependencies known ds) ≡ is_subset ds known
undefined_dependencies-valid known [] = refl
undefined_dependencies-valid known (d ∷ ds) = elim (Bool-cases (contains d known)) [
  | inl there ↦ rw there (undefined_dependencies-valid known ds)
  | inr missing ↦ rw missing refl
]

module _ {A : Type 0} where
  -- The dependencies of an equation are equations of the list.
  abbrev pub DependsOn : List String → EquationDefinition A → Type 0
  DependsOn ids e = is_subset e.dependency_refs ids ≡ true

  abbrev depends : List String → EquationDefinition A → Bool
  depends ids e = is_subset e.dependency_refs ids

  check_dependencies-valid :
      (known : List String) (es : List (EquationDefinition A))
      → is_valid (check_dependencies known (pairs equation_key duplicate_equation es))
        ≡ all (depends known) es
  check_dependencies-valid known [] = refl
  check_dependencies-valid known (e ∷ es) = ground (
    arith,
    check_dependencies-valid known es,
    undefined_dependencies-valid known e.dependency_refs,
    any-append is_critical (undefined_dependencies known e.dependency_refs)
        (check_dependencies known (pairs equation_key duplicate_equation es)),
  )

  equations_of_unique :
      (m : MathematicalModel A)
      → is_unique (map equation_key m.equations) ≡ true
      → is_valid (equations_of m).issues ≡ all (depends (map equation_key m.equations)) m.equations
  unfolding equations_of
  equations_of_unique m unique =
      let r : Entries (EquationDefinition A) =
        register_entries equation_key duplicate_equation m.equations no_entries in
      let same : r.entries ≡ pairs equation_key duplicate_equation m.equations =
        registered-entries equation_key duplicate_equation m.equations unique in
      let valid : is_valid r.issues ≡ true =
        registered-valid equation_key duplicate_equation m.equations ∙ unique in
      let checked : check_dependencies (Dict.keys r.entries) r.entries
          ≡ check_dependencies (map equation_key m.equations)
              (pairs equation_key duplicate_equation m.equations) =
        ap (λ d. check_dependencies (Dict.keys d) d) same
        ∙ ap (λ k. check_dependencies k (pairs equation_key duplicate_equation m.equations))
            (keys-pairs equation_key duplicate_equation m.equations) in
      ground (
        arith,
        any-append is_critical r.issues (check_dependencies (Dict.keys r.entries) r.entries),
        ap is_valid checked,
        check_dependencies-valid (map equation_key m.equations) m.equations,
      )

  equations_of_only_unique :
      (m : MathematicalModel A)
      → is_valid (equations_of m).issues ≡ true
      → is_unique (map equation_key m.equations) ≡ true
  unfolding equations_of
  equations_of_only_unique m h =
      let r : Entries (EquationDefinition A) =
        register_entries equation_key duplicate_equation m.equations no_entries in
      ground (
        arith,
        any-append is_critical r.issues (check_dependencies (Dict.keys r.entries) r.entries),
        registered-valid equation_key duplicate_equation m.equations,
      )

  -- The equation registry of a model has no critical issue exactly when no two equations share an
  -- identifier and each dependency of an equation is the identifier of an equation of the model.
  pub equations_of_iff :
      (m : MathematicalModel A)
      → (is_valid (equations_of m).issues ≡ true) ↔ (
          (is_unique (map equation_key m.equations) ≡ true)
          × All (DependsOn (map equation_key m.equations)) m.equations)
  equations_of_iff m = (
    λ h.
        let unique = equations_of_only_unique m h in
        (unique, (each m.equations).0 (sym (equations_of_unique m unique) ∙ h)),
    λ h. equations_of_unique m h.0 ∙ (each m.equations).1 h.1,
  )
    where
      each :
          (es : List (EquationDefinition A))
          → (all (depends (map equation_key m.equations)) es ≡ true)
            ↔ All (DependsOn (map equation_key m.equations)) es
      each es = all_iff _ _ (λ e. (λ h. h, λ h. h)) es
