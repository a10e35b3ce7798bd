-- ===== src/Routing/Tests.antt =====
-- A task, a registry of one model, and the settings of the catalog.
use math_model_ai.Base.{
  min, ◌+◌, ◌≤◌, ◌≡◌, refl, String, true, false, Option, none, some, List, [], ◌∷◌, ok,
}
use math_model_ai.Base.Dict.{Dict}
use math_model_ai.Routing.Types.{
  TaskType, EscalationLevel, RouteAction, ProviderName, ProviderName-discrete, ReasoningEffort,
  ModelCapability, ModelCapability-discrete, CapabilityStatus, CapabilitySource, QualityTier,
  StructuredOutputStrategy, ProbeAuthenticationStatus, ProviderHealthStatus, EndpointTrustLevel,
  EndpointTrustLevel-discrete, TaskProfile, ProviderEndpoint, ModelProfile, CapabilityProbeResult,
  ModelTargetSettings, Settings, Rejection, RouteDecision,
}
use math_model_ai.Routing.Level.{
  value, of_value, task_minimum, demand_level, level_before_retries, base_level,
}
use math_model_ai.Routing.Level.Laws.{required_value, base_level_exact}
use math_model_ai.Routing.Eligibility.{
  Registry, probe_supports, is_required, prompt_fallback_allowed, capability_missing,
  missing_capabilities, trust_refused, reasons, hard_rejections,
}
use math_model_ai.Routing.Eligibility.Laws.{IsEligible, hard_rejections-IsEligible}
use math_model_ai.Routing.Registry.{
  score, remaining, candidates, attempt, choose, for_model, conclude, route_by_policy,
  route_registry,
}
use math_model_ai.Routing.Registry.Laws.{Backed, route_registry-execute}
use math_model_ai.Routing.Legacy.{target_at, route_to_target, route_legacy}
use math_model_ai.Routing.Route.{route_among, route_model, route_at, route}
use math_model_ai.Routing.Route.Laws.{IsBacked, route_total, route_execute}

abbrev task : TaskProfile
task = record {
  task_type = TaskType.formatting;
  complexity = 1;
  reasoning_requirement = 1;
  maximum_reasoning_effort = none;
  math_requirement = 0;
  coding_requirement = 0;
  multimodal_requirement = 0;
  long_context_requirement = 0;
  review_requirement = 0;
  security_risk = 0;
  blast_radius = 0;
  cost_sensitivity = 3;
  deadline_pressure = 0;
  retry_count = 1;
  minimum_level = none;
  required_capabilities = ModelCapability.text ∷ [];
  requires_json_schema = false;
  allows_prompt_json_fallback = true;
  requires_native_tools = false;
  requires_reasoning_control = false;
  minimum_context_tokens = some 1_000;
  preferred_model_id = none;
  allowed_endpoint_trust = none;
  allow_model_fallback = true;
}

abbrev digest : TaskProfile → String
digest _ = "task"

abbrev endpoint : ProviderEndpoint
endpoint = record {
  provider_id = "lab";
  protocol = "openai";
  enabled = true;
  trust_level = EndpointTrustLevel.local_endpoint;
  health_status = ProviderHealthStatus.ready;
  cooldown_until = some 5;
  config_digest = "endpoint";
}

abbrev small : ModelProfile
small = record {
  model_id = "small";
  provider_id = "lab";
  remote_model = "small-1";
  enabled = true;
  quality_tier = QualityTier.routine;
  structured_output_strategy = StructuredOutputStrategy.native_json_schema;
  reasoning_mapping = λ _. none;
  context_window = some 8_000;
  input_per_million = none;
  config_digest = "small";
}

abbrev large : ModelProfile
large = record small {
  model_id = "large";
  remote_model = "large-1";
  quality_tier = QualityTier.flagship_high;
}

abbrev probe : CapabilityProbeResult
probe = record {
  probe_id = "probe";
  capabilities =
      λ _. some (record { status = CapabilityStatus.supported; source = CapabilitySource.probed });
  authentication_status = ProbeAuthenticationStatus.pass;
  probe_digest = "probe digest";
}

abbrev registry : Registry
registry = record {
  list_models = ok (small ∷ large ∷ []);
  get_default_model_id = ok (some "small");
  get_agent_route = λ _. ok none;
  get_provider = λ _. ok endpoint;
  credential_configured = λ _. ok true;
  latest_probe = λ _. ok (some probe);
}

abbrev target : ProviderName → ModelTargetSettings
target name = record { provider = name; model = "gpt"; reasoning = ReasoningEffort.high }

abbrev settings : Settings
settings = record {
  model_catalog = record {
    fast = target ProviderName.google;
    balanced = target ProviderName.google;
    flagship_high = target ProviderName.openai;
    flagship_xhigh = target ProviderName.openai;
    flagship_max = target ProviderName.anthropic;
    multimodal = target ProviderName.google;
  };
  default_provider = ProviderName.openai;
  default_provider_model = "gpt";
  default_model_id = none;
}

-- The default model is too weak for the second try, so the other one is chosen.
abbrev rejected : Dict String (List Rejection)
rejected = ("small", Rejection.tier_below_minimum ∷ []) ∷ []

abbrev decision : RouteDecision
decision =
    for_model digest task EscalationLevel.balanced (some "small") rejected large endpoint probe

registry_route :
    route_registry digest registry 9 task EscalationLevel.balanced
      (small ∷ large ∷ [])
      (some "critic")
      (some "small")
    ≡ decision
unfolding route_registry route_by_policy conclude candidates remaining score choose attempt
    hard_rejections reasons missing_capabilities capability_missing is_required
    prompt_fallback_allowed probe_supports trust_refused EndpointTrustLevel-discrete
    ModelCapability-discrete
registry_route = refl

decision_executes : decision.action ≡ RouteAction.execute
unfolding for_model
decision_executes = refl

full_route : route digest settings [] (some registry) 9 task (some "critic") ≡ ok decision
unfolding route base_level of_value level_before_retries demand_level task_minimum route_at
    route_model route_among route_registry route_by_policy conclude candidates remaining score
    choose attempt hard_rejections reasons missing_capabilities capability_missing is_required
    prompt_fallback_allowed probe_supports trust_refused EndpointTrustLevel-discrete
    ModelCapability-discrete
full_route = refl

route_execute_example :
    (level : EscalationLevel) × (base_level task ≡ some level)
    × (value level ≤ 5)
    × IsBacked settings [] (some "critic") (some registry) 9 task level decision
route_execute_example =
    route_execute digest settings [] 9 task (some "critic") (some registry) full_route
      decision_executes

route_total_example :
    (d : RouteDecision) × (route digest settings [] (some registry) 9 task (some "critic") ≡ ok d)
route_total_example = route_total digest settings [] 9 task (some "critic") (some registry)

registry_executes :
    (route_registry digest registry 9 task EscalationLevel.balanced
      (small ∷ large ∷ [])
      (some "critic")
      (some "small")).action
    ≡ RouteAction.execute
unfolding route_registry route_by_policy conclude for_model candidates remaining score choose
    attempt hard_rejections reasons missing_capabilities capability_missing is_required
    prompt_fallback_allowed probe_supports trust_refused EndpointTrustLevel-discrete
    ModelCapability-discrete
registry_executes = refl

route_registry-execute_example :
    Backed registry 9 task EscalationLevel.balanced
      (small ∷ large ∷ [])
      (some "critic")
      (some "small")
      (route_registry digest registry 9 task EscalationLevel.balanced
        (small ∷ large ∷ [])
        (some "critic")
        (some "small"))
route_registry-execute_example =
    route_registry-execute digest registry 9 task EscalationLevel.balanced (small ∷ large ∷ [])
      (some "small") (some "critic") registry_executes

nothing_against_large :
    hard_rejections registry 9 large endpoint task EscalationLevel.balanced ≡ ok ([], some probe)
unfolding hard_rejections reasons missing_capabilities capability_missing is_required
    prompt_fallback_allowed probe_supports trust_refused EndpointTrustLevel-discrete
    ModelCapability-discrete
nothing_against_large = refl

hard_rejections-IsEligible_example :
    (current : CapabilityProbeResult) × (◌≡◌ {A = Option CapabilityProbeResult}
      (some probe)
      (some current))
    × (registry.latest_probe "large" ≡ ok (some current))
    × IsEligible registry 9 large endpoint task EscalationLevel.balanced current
hard_rejections-IsEligible_example =
    hard_rejections-IsEligible registry 9 large endpoint task EscalationLevel.balanced
      nothing_against_large

second_is_chosen :
    choose registry 9 task EscalationLevel.balanced (small ∷ large ∷ []) []
    ≡ (rejected, some (large, endpoint, probe))
unfolding choose attempt hard_rejections reasons missing_capabilities capability_missing is_required
    prompt_fallback_allowed probe_supports trust_refused EndpointTrustLevel-discrete
    ModelCapability-discrete
second_is_chosen = refl

base_level_exact_example :
    (l : EscalationLevel) × (base_level task ≡ some l)
    × (value l ≡ min (required_value task + task.retry_count) 7)
base_level_exact_example = base_level_exact task

first_level : base_level task ≡ some EscalationLevel.balanced
unfolding base_level of_value level_before_retries demand_level task_minimum
first_level = refl

later_level : base_level (record task { retry_count = 4 }) ≡ some EscalationLevel.flagship_max
unfolding base_level of_value level_before_retries demand_level task_minimum
later_level = refl

legacy_executes :
    (route_legacy digest settings (ProviderName.openai ∷ []) task EscalationLevel.balanced).action
    ≡ RouteAction.execute
unfolding route_legacy route_to_target target_at ProviderName-discrete
legacy_executes = refl
