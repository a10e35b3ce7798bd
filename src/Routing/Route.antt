-- ===== src/Routing/Route.antt =====
-- src/mathmodel_ai/routing/router.py, `ModelRouter.route`, over a router's settings, the providers
-- that are available and a registry, if it has one.
pub mod Laws
use math_model_ai.Base.{
  ℕ, String, Bool, true, false, not, ◌&&◌, ◌||◌, Option, none, some, List, [], is_empty, is_some,
  if◌then◌else◌, Raise, ok, raise, ◌>>=◌,
}
use math_model_ai.Routing.Types.{
  EscalationLevel, RouteAction, TaskProfile, ModelProfile, ProviderName, Settings,
  escalation_exhausted, multi_model_review_required, registry_integrity_failure,
  default_model_absent, RouteDecision,
}
use math_model_ai.Routing.Level.{base_level}
use math_model_ai.Routing.Eligibility.{Registry, Failure}
use math_model_ai.Routing.Registry.{for_human, route_registry}
use math_model_ai.Routing.Legacy.{route_legacy}

-- `_registry_models`
abbrev pub registry_models : Option Registry → Raise Failure (List ModelProfile)
registry_models none = ok []
registry_models (some registry) = registry.list_models

-- `_configured_default_model_id`
abbrev pub configured_default_model_id : Settings → Option Registry → Raise Failure (Option String)
configured_default_model_id settings none = ok settings.default_model_id
configured_default_model_id settings (some registry) = do
  persisted ← registry.get_default_model_id
  ok (elim persisted [ none ↦ settings.default_model_id | some id ↦ some id ])

-- The errors that `route` could raise: a number that is no level's, and registry routing without a
-- registry.
pub data RouteError : Type 0 where
  invalid_level : RouteError
  registry_required : RouteError

-- The two reads of the registry under one `try`.
abbrev pub registry_answers :
    Settings → Option Registry → Raise Failure (List ModelProfile × Option String)
registry_answers settings registry = do
  models ← registry_models registry
  default ← configured_default_model_id settings registry
  ok (models, default)

module _ (digest : TaskProfile → String) (settings : Settings) (available : List ProviderName)
    (registry : Option Registry) (now : ℕ) (p : TaskProfile) (agent_name : Option String) where
  -- The call of `_route_registry`, which raises without a registry.
  abbrev pub with_registry :
      EscalationLevel
      → List ModelProfile
      → Option String
      → Option Registry
      → Raise RouteError RouteDecision
  with_registry level models default none = raise registry_required
  with_registry level models default (some r) =
      ok (route_registry digest r now p level models agent_name default)

  -- From the models and the default model on.
  unfoldable pub route_among :
      EscalationLevel → List ModelProfile → Option String → Raise RouteError RouteDecision
  unfolding for_human
  route_among level models default =
      if is_some default && is_empty models
      then ok (record (for_human digest p default_model_absent) { recommended_model = default })
      else if not (is_empty models)
          && (is_some default || is_some p.preferred_model_id || is_some agent_name)
      then with_registry level models default registry
      else ok (route_legacy digest settings available p level)

  -- For a level at which a model may be called.
  unfoldable pub route_model : EscalationLevel → Raise RouteError RouteDecision
  unfolding route_among
  route_model level = elim (registry_answers settings registry) [
    | raise _ ↦ ok (for_human digest p registry_integrity_failure)
    | ok (models, default) ↦ route_among level models default
  ]

  unfoldable pub route_at : EscalationLevel → Raise RouteError RouteDecision
  unfolding route_model
  route_at EscalationLevel.human_review = ok (for_human digest p escalation_exhausted)
  route_at EscalationLevel.multi_model_review =
      ok (record (for_human digest p multi_model_review_required) {
        level = EscalationLevel.multi_model_review;
        action = RouteAction.multi_model_review;
      })
  route_at level = route_model level

  -- `route`
  unfoldable pub route : Raise RouteError RouteDecision
  unfolding route_at
  route = elim (base_level p) [ none ↦ raise invalid_level | some level ↦ route_at level ]
