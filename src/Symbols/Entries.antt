-- ===== src/Symbols/Entries.antt =====
-- `ParameterRegistry` and `EquationRegistry` of src/mathmodel_ai/mathematical/registry.py. The two have the
-- same `register`, which differs in the key and in the code of the issue.
pub mod Laws
use math_model_ai.Base.{
  String, Bool, true, false, Option, List, [], ◌∷◌, ◌++◌, contains, string_eq, if◌then◌else◌, ◌==◌,
}
use math_model_ai.Base.Dict
use math_model_ai.Base.Dict.{Dict}
use math_model_ai.Model.{ParameterDefinition, EquationDefinition, MathematicalModel}
use math_model_ai.Symbols.Types.{
  RegistryIssueCode, duplicate_equation, duplicate_parameter, undefined_equation_dependency,
  RegistryIssue, critical_issue,
}

pub record Entries (V : Type 0) : Type 0 where
  pub entries : Dict String V
  pub issues : List RegistryIssue

abbrev pub no_entries : {V : Type 0} → Entries V
no_entries = record { entries = []; issues = [] }

module _ {V : Type 0} (key : V → String) (duplicate : RegistryIssueCode) where
  -- `register`: a known key is an issue, and its entry stays.
  unfoldable pub register_entry : V → Entries V → Entries V
  register_entry v r =
      if contains (key v) (Dict.keys r.entries)
      then record {
        entries = r.entries;
        issues = r.issues ++ critical_issue duplicate (key v) ∷ [];
      }
      else record { entries = Dict.insert (key v) v r.entries; issues = r.issues }

  unfoldable pub register_entries : List V → Entries V → Entries V
  unfolding register_entry
  register_entries [] r = r
  register_entries (v ∷ vs) r = register_entries vs (register_entry v r)

-- The dependencies of an equation that no equation is known for.
abbrev pub undefined_dependencies : List String → List String → List RegistryIssue
undefined_dependencies known [] = []
undefined_dependencies known (d ∷ ds) =
    let rest = undefined_dependencies known ds in
    if contains d known then rest else critical_issue undefined_equation_dependency d ∷ rest

module _ {A : Type 0} where
  abbrev pub parameter_key : ParameterDefinition A → String
  parameter_key p = p.symbol

  abbrev pub equation_key : EquationDefinition A → String
  equation_key e = e.equation_id

  -- `ParameterRegistry.from_model` and `lookup`
  unfoldable pub parameters_of : MathematicalModel A → Entries (ParameterDefinition A)
  unfolding register_entries
  parameters_of m =
      register_entries parameter_key duplicate_parameter (m.parameters ++ m.constants) no_entries

  unfoldable pub lookup_parameter :
      Entries (ParameterDefinition A) → String → Option (ParameterDefinition A)
  lookup_parameter r s = Dict.lookup s r.entries

  abbrev pub check_dependencies :
      List String → Dict String (EquationDefinition A) → List RegistryIssue
  check_dependencies known [] = []
  check_dependencies known ((_, e) ∷ es) =
      undefined_dependencies known e.dependency_refs ++ check_dependencies known es

  -- `EquationRegistry.from_model` and `lookup`
  unfoldable pub equations_of : MathematicalModel A → Entries (EquationDefinition A)
  unfolding register_entries
  equations_of m =
      let r = register_entries equation_key duplicate_equation m.equations no_entries in
      record {
        entries = r.entries;
        issues = r.issues ++ check_dependencies (Dict.keys r.entries) r.entries;
      }

  unfoldable pub lookup_equation :
      Entries (EquationDefinition A) → String → Option (EquationDefinition A)
  lookup_equation r s = Dict.lookup s r.entries
