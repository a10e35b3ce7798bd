-- ===== src/Symbols/Types.antt =====
-- The values of src/mathmodel_ai/mathematical/registry.py. The texts of the messages are left out: each is
-- determined by the code and by the reference, but for the two definitions that a conflict names.
use math_model_ai.Base.{ℕ, String, Bool, true, not, Option, List, any, Eq, eq_of_discrete}
use math_model_ai.Model.{UnitExpression, VariableDomain}

pub data RegistryIssueCode : Type 0 where
  undefined_symbol duplicate_symbol conflicting_definition unused_core_symbol : RegistryIssueCode
  duplicate_equation undefined_equation_dependency duplicate_parameter : RegistryIssueCode

abbrev pub code_value : RegistryIssueCode → String
code_value RegistryIssueCode.undefined_symbol = "UNDEFINED_SYMBOL"
code_value RegistryIssueCode.duplicate_symbol = "DUPLICATE_SYMBOL"
code_value RegistryIssueCode.conflicting_definition = "CONFLICTING_DEFINITION"
code_value RegistryIssueCode.unused_core_symbol = "UNUSED_CORE_SYMBOL"
code_value RegistryIssueCode.duplicate_equation = "DUPLICATE_EQUATION"
code_value RegistryIssueCode.undefined_equation_dependency = "UNDEFINED_EQUATION_DEPENDENCY"
code_value RegistryIssueCode.duplicate_parameter = "DUPLICATE_PARAMETER"

pub record RegistryIssue : Type 0 where
  pub code : RegistryIssueCode
  pub reference : String
  pub critical : Bool

-- `RegistryReport.valid`
abbrev pub is_critical : RegistryIssue → Bool
is_critical i = i.critical

abbrev pub is_valid : List RegistryIssue → Bool
is_valid issues = not (any is_critical issues)

abbrev pub critical_issue : RegistryIssueCode → String → RegistryIssue
critical_issue code reference = record { code = code; reference = reference; critical = true }

pub data SymbolKind : Type 0 where
  variable parameter constant set index : SymbolKind

unfoldable pub SymbolKind-discrete : Discrete SymbolKind
SymbolKind-discrete = hlevel

instance abbrev pub kind_eq : Eq SymbolKind
kind_eq = eq_of_discrete SymbolKind-discrete

unfoldable pub VariableDomain-discrete : Discrete VariableDomain
VariableDomain-discrete = hlevel

instance abbrev pub domain_eq : Eq VariableDomain
domain_eq = eq_of_discrete VariableDomain-discrete

pub record SymbolDefinition (A : Type 0) : Type 0 where
  pub symbol : String
  pub canonical_name : String
  pub meaning : String
  pub unit : Option (UnitExpression A)
  pub domain : Option VariableDomain
  pub kind : SymbolKind
  pub owner_model : String
  pub owner_version : ℕ
  pub first_definition : String
  pub references : List String
  pub indexed : Bool
