-- ===== src/Gates/Model.antt =====
-- `model_quality_gate` of src/mathmodel_ai/mathematical/quality_gates.py: the gate that a mathematical model
-- passes before it is solved. Sets are lists; the set of ambiguities is read in the order in which they are
-- first named. The texts of the unit checker's messages and the equality of scales are parameters.
pub mod Ambiguities
pub mod Errors
pub mod Accepted
pub mod Onward
use Prim.Native.String.{◌++◌ as ◌<>◌}
use math_model_ai.Base.{
  ℕ, String, Bool, true, false, not, ◌&&◌, ◌||◌, Option, none, some, List, [], ◌∷◌, ◌++◌, map, all,
  keep, contains, is_subset, is_empty, is_some, leb, option_eq, string_eq, ◌==◌, unique_from,
  if◌then◌else◌, Raise, ok, raise, ◌>>=◌,
}
use math_model_ai.Base.Dict
use math_model_ai.Base.Dict.{Dict}
use math_model_ai.Model.{
  ModelFamily, UnitExpression, UnitCheckStatus, ParameterDefinition, ModelAssumption,
  InterpretationResolutionStatus, resolved_from_evidence, human_confirmed, InterpretationResolution,
  ObjectiveDefinition, ConstraintDefinition, EquationDefinition, MathematicalModel,
}
use math_model_ai.Problem.{SubProblem, Ambiguity, ProblemState}
use math_model_ai.Symbols.Types.{RegistryIssue, is_valid, code_value, SymbolDefinition}
use math_model_ai.Symbols.Registry.{SymbolRegistry, lookup, from_model}
use math_model_ai.Symbols.Entries.{Entries, equations_of, equation_key}
use math_model_ai.Units.Types.{Floats, UnitError, UnitMessage, UnitIssue, UnitCheckReport}
use math_model_ai.Units.Check.{is_fail, is_unknown, check_model}
use math_model_ai.Solvers.Policy.{family_of_value, capability_of_value}
use math_model_ai.Gates.Types.{QualityGateStatus, QualityGateResult, failed_checks, status_of}

-- `_OPTIMIZATION_FAMILIES`
abbrev pub is_optimization : ModelFamily → Bool
is_optimization ModelFamily.linear_programming = true
is_optimization ModelFamily.mixed_integer_linear_programming = true
is_optimization ModelFamily.integer_programming = true
is_optimization ModelFamily.nonlinear_programming = true
is_optimization ModelFamily.multi_objective = true
is_optimization ModelFamily.network_flow = true
is_optimization _ = false

abbrev pub is_settling : InterpretationResolutionStatus → Bool
is_settling resolved_from_evidence = true
is_settling human_confirmed = true
is_settling _ = false

-- `resolved_from_existing_evidence`, `explicitly_resolved` and `critical` of an ambiguity.
abbrev pub has_evidence : Option Ambiguity → Bool
has_evidence none = false
has_evidence (some a) = is_some a.preferred_interpretation_id && leb 700000 a.confidence

abbrev pub is_resolved : Option InterpretationResolution → Bool
is_resolved none = false
is_resolved (some r) = is_settling r.status && is_some r.interpretation_id

abbrev pub matters : Option InterpretationResolution → Bool
matters none = true
matters (some r) = r.critical

abbrev pub resolution_id : InterpretationResolution → String
resolution_id r = r.ambiguity_id

abbrev pub ambiguity_key : Ambiguity → String
ambiguity_key a = a.ambiguity_id

abbrev pub targeted_refs : List String → List SubProblem → List String
targeted_refs targets [] = []
targeted_refs targets (s ∷ ss) =
    let rest = targeted_refs targets ss in
    if contains s.subproblem_id targets then s.ambiguity_refs ++ rest else rest

abbrev pub unsupported : List ModelAssumption → List String
unsupported [] = []
unsupported (a ∷ rest) =
    let others = unsupported rest in
    if a.critical && not a.supported then a.assumption_id ∷ others else others

abbrev pub prefixed : String → List String → List String
prefixed prefix [] = []
prefixed prefix (s ∷ ss) = (prefix <> s) ∷ prefixed prefix ss

-- The critical issues of a registry, or the others, as texts.
abbrev pub issue_texts : Bool → List RegistryIssue → List String
issue_texts critical [] = []
issue_texts critical (i ∷ is) =
    let rest = issue_texts critical is in
    if (if critical then i.critical else not i.critical)
    then (code_value i.code <> (":" <> i.reference)) ∷ rest
    else rest

abbrev pub unit_warnings : (UnitMessage → String) → List UnitIssue → List String
unit_warnings message [] = []
unit_warnings message (i ∷ is) =
    let rest = unit_warnings message is in
    if is_fail i.status then rest else message i.message ∷ rest

module _ {A : Type 0} where
  abbrev pub is_unresolved : MathematicalModel A → ProblemState → String → Bool
  is_unresolved m state id =
      let resolution = Dict.lookup id (Dict.index_by resolution_id m.interpretation_resolutions) in
      let ambiguity = Dict.lookup id (Dict.index_by ambiguity_key state.ambiguities) in
      matters resolution && not (has_evidence ambiguity || is_resolved resolution)

  unfoldable pub unresolved_critical : MathematicalModel A → ProblemState → List String
  unfolding unique_from
  unresolved_critical m state =
      keep (is_unresolved m state)
        (unique_from [] (targeted_refs m.target_subproblems state.subproblems))

  abbrev pub objective_refs : Option (ObjectiveDefinition A) → List String
  objective_refs none = []
  objective_refs (some o) = o.equation_ref ∷ []

  abbrev pub required_equations : MathematicalModel A → List String
  required_equations m =
      objective_refs m.objective
      ++ map (λ (c : ConstraintDefinition A). c.equation_ref) m.constraints

  abbrev pub binding_resolves : List String → ParameterDefinition A → Bool
  binding_resolves datasets p = elim p.data_binding [ none ↦ true | some d ↦ contains d datasets ]

  abbrev pub has_source : ParameterDefinition A → Bool
  has_source p = not (p.source_ref == "")

  abbrev pub declared_unit : Option (SymbolDefinition A) → Option (Option (UnitExpression A))
  declared_unit none = none
  declared_unit (some d) = some d.unit

  -- The dict `checks`.
  unfoldable pub model_checks :
      MathematicalModel A
      → ProblemState
      → SymbolRegistry A
      → Entries (EquationDefinition A)
      → UnitCheckStatus
      → List (String × Bool)
  unfolding unresolved_critical
  model_checks m state symbols equations status =
      let parameters = m.parameters ++ m.constants in
      ("selected_model_exists", is_some state.selected_model)
      ∷ ("selected_model_matches", some m.source_selected_model_id == state.selected_model)
      ∷ (
        "target_subproblems_known",
        is_subset m.target_subproblems
            (map (λ (s : SubProblem). s.subproblem_id) state.subproblems),
      )
      ∷ ("decision_variables_present", not (is_empty m.decision_variables))
      ∷ (
        "optimization_objective_present",
        not (is_optimization m.model_family) || is_some m.objective,
      )
      ∷ ("symbol_registry_valid", is_valid symbols.issues)
      ∷ ("parameter_sources_present", all has_source parameters)
      ∷ (
        "data_bindings_resolve",
        is_subset m.data_bindings state.datasets
            && all (binding_resolves state.datasets) parameters,
      )
      ∷ ("equation_registry_valid", is_valid equations.issues)
      ∷ (
        "required_equations_present",
        is_subset (required_equations m) (map equation_key m.equations),
      )
      ∷ ("no_explicit_unit_failure", not (is_fail status))
      ∷ ("critical_ambiguities_resolved", is_empty (unresolved_critical m state))
      ∷ ("critical_assumptions_supported", is_empty (unsupported m.assumptions))
      ∷ (
        "solver_requirements_valid",
        all (λ s. is_some (family_of_value s)) m.solver_requirements.preferred_solver_families
            && all (λ s. is_some (capability_of_value s))
                m.solver_requirements.required_capabilities,
      )
      ∷ []

  unfoldable pub model_errors :
      MathematicalModel A
      → ProblemState
      → SymbolRegistry A
      → Entries (EquationDefinition A)
      → UnitCheckStatus
      → List String
  unfolding model_checks
  model_errors m state symbols equations status =
      prefixed "MODEL_GATE_FAIL:" (failed_checks (model_checks m state symbols equations status))
      ++ (prefixed "MODEL_GATE_FAIL:" (issue_texts true (symbols.issues ++ equations.issues))
          ++ (prefixed "MODEL_GATE_FAIL:UNRESOLVED_AMBIGUITY:" (unresolved_critical m state)
              ++ prefixed "MODEL_GATE_FAIL:UNSUPPORTED_CRITICAL_ASSUMPTION:"
                  (unsupported m.assumptions)))

module _ (F : Floats) (same_scale : F.Num → F.Num → Bool) (message : UnitMessage → String) where
  unfoldable pub model_warnings : SymbolRegistry F.Num → UnitCheckReport F.Num → List String
  model_warnings symbols report =
      issue_texts false symbols.issues
      ++ ((if is_unknown report.status then "UNIT_CHECK_REQUIRED" ∷ [] else [])
          ++ unit_warnings message report.issues)

  -- `UnitChecker(symbols)` looks units up in the registry.
  abbrev pub unit_lookup : SymbolRegistry F.Num → String → Option (Option (UnitExpression F.Num))
  unit_lookup symbols s = declared_unit (lookup symbols.symbols s)

  abbrev pub model_result :
      MathematicalModel F.Num → ProblemState → UnitCheckReport F.Num → QualityGateResult
  model_result m state report =
      let symbols = from_model same_scale m in
      let equations = equations_of m in
      let errors = model_errors m state symbols equations report.status in
      record {
        gate = "MODEL";
        status = status_of errors;
        checks = model_checks m state symbols equations report.status;
        errors = unique_from [] errors;
        warnings = unique_from [] (model_warnings symbols report);
      }

  -- `model_quality_gate`
  unfoldable pub model_quality_gate :
      MathematicalModel F.Num → ProblemState → Raise UnitError QualityGateResult
  unfolding model_errors model_warnings unique_from from_model equations_of check_model lookup
  model_quality_gate m state = do
    report ← check_model F (unit_lookup (from_model same_scale m)) m
    ok (model_result m state report)
