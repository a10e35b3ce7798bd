-- ===== src/Symbols/Registry.antt =====
-- `SymbolRegistry` of src/mathmodel_ai/mathematical/registry.py: its dict and its issues are passed in and
-- out. Equality of scales, which are floats, is a parameter. The set of an expression's symbols is read in
-- the order of the expression.
pub mod Register
pub mod Lookup
pub mod Refer
pub mod Validity
use Prim.Native.Char.{code}
use math_model_ai.Base.{
  ℕ, String, Bool, true, false, not, ◌&&◌, ◌||◌, Option, none, some, List, [], ◌∷◌, ◌++◌, map, all,
  contains, is_empty, nat_beq, ◌==◌, string_eq, option_eq, if◌then◌else◌,
}
use math_model_ai.Base.Int.{ℤ-discrete, int_eq}
use math_model_ai.Base.Dict
use math_model_ai.Base.Dict.{Dict}
use math_model_ai.Expression.Syntax.{MathExpression, referenced_symbols}
use math_model_ai.Model.{
  all_dimensions, UnitExpression, VariableDefinition, SetDefinition, IndexDefinition,
  ParameterDefinition, ObjectiveDefinition, ConstraintDefinition, EquationDefinition,
  MathematicalModel,
}
use math_model_ai.Symbols.Types.{
  RegistryIssueCode, undefined_symbol, duplicate_symbol, conflicting_definition, unused_core_symbol,
  RegistryIssue, critical_issue, SymbolKind, variable, parameter, constant, set, index,
  SymbolKind-discrete, kind_eq, VariableDomain-discrete, domain_eq, SymbolDefinition,
}

-- The two attributes of a registry that change.
pub record SymbolRegistry (A : Type 0) : Type 0 where
  pub symbols : Dict String (SymbolDefinition A)
  pub issues : List RegistryIssue

abbrev pub empty_registry : {A : Type 0} → SymbolRegistry A
empty_registry = record { symbols = []; issues = [] }

-- `symbol.partition("[")[0]`
abbrev pub base_symbol : String → String
base_symbol String.[] = String.[]
base_symbol (String.◌∷◌ c s) =
    let rest = base_symbol s in if nat_beq (code c) 91 then String.[] else String.◌∷◌ c rest

abbrev pub strings_equal : List String → List String → Bool
strings_equal [] [] = true
strings_equal [] (y ∷ ys) = false
strings_equal (x ∷ xs) [] = false
strings_equal (x ∷ xs) (y ∷ ys) = x == y && strings_equal xs ys

abbrev pub is_core : SymbolKind → Bool
is_core variable = true
is_core parameter = true
is_core constant = true
is_core _ = false

-- The state of `validate_references`.
pub record Uses (A : Type 0) : Type 0 where
  pub registry : SymbolRegistry A
  pub used : List String
  pub undefined : List String

module _ {A : Type 0} where
  -- `lookup`
  abbrev pub indexed_only : Option (SymbolDefinition A) → Option (SymbolDefinition A)
  indexed_only none = none
  indexed_only (some d) = if d.indexed then some d else none

  unfoldable pub lookup : Dict String (SymbolDefinition A) → String → Option (SymbolDefinition A)
  lookup symbols s = elim (Dict.lookup s symbols) [
    | some d ↦ some d
    | none ↦ indexed_only (Dict.lookup (base_symbol s) symbols)
  ]

  -- `_from_variable` and `_from_parameter`, and the definitions of sets and indices.
  abbrev pub from_variable : MathematicalModel A → VariableDefinition A → SymbolDefinition A
  from_variable m v = record {
    symbol = v.symbol;
    canonical_name = v.variable_id;
    meaning = v.description;
    unit = v.unit;
    domain = some v.domain;
    kind = variable;
    owner_model = m.model_id;
    owner_version = m.version;
    first_definition = v.variable_id;
    references = [];
    indexed = not (is_empty v.index_sets);
  }

  abbrev pub from_parameter :
      MathematicalModel A → SymbolKind → ParameterDefinition A → SymbolDefinition A
  from_parameter m kind p = record {
    symbol = p.symbol;
    canonical_name = p.parameter_id;
    meaning = p.description;
    unit = p.unit;
    domain = none;
    kind = kind;
    owner_model = m.model_id;
    owner_version = m.version;
    first_definition = p.parameter_id;
    references = [];
    indexed = false;
  }

  abbrev pub from_name :
      MathematicalModel A → SymbolKind → String → String → String → SymbolDefinition A
  from_name m kind id symbol description = record {
    symbol = symbol;
    canonical_name = id;
    meaning = description;
    unit = none;
    domain = none;
    kind = kind;
    owner_model = m.model_id;
    owner_version = m.version;
    first_definition = id;
    references = [];
    indexed = false;
  }

  -- What `from_model` registers, in order.
  abbrev pub definitions_of : MathematicalModel A → List (SymbolDefinition A)
  definitions_of m =
      map (from_variable m) (m.decision_variables ++ (m.state_variables ++ m.derived_variables))
      ++ (map (from_parameter m parameter) m.parameters
          ++ (map (from_parameter m constant) m.constants
              ++ (map (λ (s : SetDefinition). from_name m set s.set_id s.symbol s.description)
                    m.sets
                  ++ map
                      (λ (i : IndexDefinition). from_name m index i.index_id i.symbol i.description)
                      m.indices)))

  -- The expressions that `validate_references` reads, with what they belong to.
  abbrev pub of_objective : Option (ObjectiveDefinition A) → List (String × MathExpression A)
  of_objective none = []
  of_objective (some o) = (o.objective_id, o.expression) ∷ []

  abbrev pub of_constraints : List (ConstraintDefinition A) → List (String × MathExpression A)
  of_constraints [] = []
  of_constraints (c ∷ cs) =
      (c.constraint_id, c.expression) ∷ (c.constraint_id, c.rhs) ∷ of_constraints cs

  abbrev pub of_equations : List (EquationDefinition A) → List (String × MathExpression A)
  of_equations [] = []
  of_equations (e ∷ es) = (e.equation_id, e.lhs) ∷ (e.equation_id, e.rhs) ∷ of_equations es

  abbrev pub expressions_of : MathematicalModel A → List (String × MathExpression A)
  expressions_of m =
      of_objective m.objective
      ++ (of_constraints (m.constraints ++ (m.initial_conditions ++ m.boundary_conditions))
          ++ of_equations m.equations)

  abbrev pub add_issue : RegistryIssue → SymbolRegistry A → SymbolRegistry A
  add_issue i r = record { symbols = r.symbols; issues = r.issues ++ i ∷ [] }

  -- `definition.references.append(reference)`, in the dict that holds the definition.
  abbrev pub refer : String → SymbolDefinition A → SymbolRegistry A → SymbolRegistry A
  refer reference d r = if contains reference d.references then r else record {
    symbols =
        Dict.insert d.symbol (record d { references = d.references ++ reference ∷ [] }) r.symbols;
    issues = r.issues;
  }

  abbrev pub use_undefined : String → Uses A → Uses A
  use_undefined s u = if contains s u.undefined then u else record {
    registry = add_issue (critical_issue undefined_symbol s) u.registry;
    used = u.used;
    undefined = s ∷ u.undefined;
  }

  abbrev pub use_defined : String → SymbolDefinition A → Uses A → Uses A
  use_defined reference d u = record {
    registry = refer reference d u.registry;
    used = d.symbol ∷ u.used;
    undefined = u.undefined;
  }

  unfoldable pub use_symbol : String → String → Uses A → Uses A
  unfolding lookup
  use_symbol reference s u = elim (lookup u.registry.symbols s) [
    | none ↦ use_undefined s u
    | some d ↦ use_defined reference d u
  ]

  -- The loops over the symbols of an expression and over the expressions.
  unfoldable pub use_symbols : String → List String → Uses A → Uses A
  unfolding use_symbol
  use_symbols reference [] u = u
  use_symbols reference (s ∷ ss) u = use_symbols reference ss (use_symbol reference s u)

  unfoldable pub use_expressions : List (String × MathExpression A) → Uses A → Uses A
  unfolding use_symbols referenced_symbols
  use_expressions [] u = u
  use_expressions ((reference, e) ∷ es) u =
      use_expressions es (use_symbols reference (referenced_symbols e) u)

  abbrev pub unused_issues : List String → Dict String (SymbolDefinition A) → List RegistryIssue
  unused_issues used [] = []
  unused_issues used ((s, d) ∷ rest) =
      let others = unused_issues used rest in
      if is_core d.kind && not (contains s used)
      then record { code = unused_core_symbol; reference = s; critical = false } ∷ others
      else others

  unfoldable pub validate_references : MathematicalModel A → SymbolRegistry A → SymbolRegistry A
  unfolding use_expressions
  validate_references m r =
      let u =
        use_expressions (expressions_of m) (record { registry = r; used = []; undefined = [] }) in
      record {
        symbols = u.registry.symbols;
        issues = u.registry.issues ++ unused_issues u.used u.registry.symbols;
      }

  module _ (same_scale : A → A → Bool) where
    -- `==` of two units: of their fields.
    unfoldable pub unit_equal : UnitExpression A → UnitExpression A → Bool
    unfolding ℤ-discrete
    unit_equal u v =
        all (λ d. u.dimensions d == v.dimensions d) all_dimensions
        && same_scale u.scale v.scale
        && u.display == v.display
        && strings_equal u.unknown_units v.unknown_units

    abbrev pub units_equal : Option (UnitExpression A) → Option (UnitExpression A) → Bool
    units_equal none none = true
    units_equal none (some v) = false
    units_equal (some u) none = false
    units_equal (some u) (some v) = unit_equal u v

    unfoldable pub conflicting : SymbolDefinition A → SymbolDefinition A → Bool
    unfolding unit_equal SymbolKind-discrete VariableDomain-discrete
    conflicting existing d =
        not (existing.kind == d.kind)
        || not (existing.meaning == d.meaning)
        || not (units_equal existing.unit d.unit)
        || not (existing.domain == d.domain)

    -- The issue of a second definition of a symbol.
    abbrev pub repeated : SymbolDefinition A → SymbolDefinition A → RegistryIssue
    repeated existing d =
        critical_issue (if conflicting existing d then conflicting_definition else duplicate_symbol)
          d.symbol

    unfoldable pub register : SymbolDefinition A → SymbolRegistry A → SymbolRegistry A
    unfolding conflicting
    register d r = elim (Dict.lookup d.symbol r.symbols) [
      | none ↦ record { symbols = Dict.insert d.symbol d r.symbols; issues = r.issues }
      | some existing ↦ add_issue (repeated existing d) r
    ]

    unfoldable pub register_all : List (SymbolDefinition A) → SymbolRegistry A → SymbolRegistry A
    unfolding register
    register_all [] r = r
    register_all (d ∷ ds) r = register_all ds (register d r)

    -- `from_model`
    unfoldable pub from_model : MathematicalModel A → SymbolRegistry A
    unfolding register_all validate_references
    from_model m = validate_references m (register_all (definitions_of m) empty_registry)
