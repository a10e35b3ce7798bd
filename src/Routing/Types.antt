-- ===== src/Routing/Types.antt =====
-- src/mathmodel_ai/routing/schemas.py, and what the router reads of
-- src/mathmodel_ai/schemas/provider_registry.py, core/types.py and core/config.py.
-- A digest, an identifier and a name are texts. A moment is a number. A price is a whole number of
-- millionths. A message is a constructor with the values that it shows.
use math_model_ai.Base.{ℕ, String, Bool, Option, List, Eq, eq_of_discrete}
use math_model_ai.Base.Dict.{Dict}

pub data TaskType : Type 0 where
  architecture_redesign mathematical_modeling model_repair sandbox_security : TaskType
  e2e_root_cause final_acceptance problem_understanding model_exploration : TaskType
  model_jury data_understanding database_architecture code_generation : TaskType
  validation red_team paper_ir citation_verification api crud parser : TaskType
  provider_adapter testing table latex refactor documentation formatting : TaskType
  cleanup other : TaskType

pub data EscalationLevel : Type 0 where
  fast balanced flagship_high flagship_xhigh flagship_max : EscalationLevel
  multi_model_review human_review : EscalationLevel

pub data RouteAction : Type 0 where
  execute multi_model_review human_review : RouteAction

pub data ProviderName : Type 0 where
  openai google anthropic mock : ProviderName

unfoldable pub ProviderName-discrete : Discrete ProviderName
ProviderName-discrete = hlevel

instance abbrev pub provider_name_eq : Eq ProviderName
provider_name_eq = eq_of_discrete ProviderName-discrete

pub data ReasoningEffort : Type 0 where
  none_effort low medium high xhigh max_effort : ReasoningEffort

pub data ModelCapability : Type 0 where
  text vision structured_output json_mode json_schema tools : ModelCapability
  streaming reasoning_control system_role developer_role : ModelCapability
  long_context usage_reporting : ModelCapability

unfoldable pub ModelCapability-discrete : Discrete ModelCapability
ModelCapability-discrete = hlevel

instance abbrev pub capability_eq : Eq ModelCapability
capability_eq = eq_of_discrete ModelCapability-discrete

pub data CapabilityStatus : Type 0 where
  supported partial unsupported unknown : CapabilityStatus

pub data CapabilitySource : Type 0 where
  builtin_verified user_declared probed unknown : CapabilitySource

pub data QualityTier : Type 0 where
  routine balanced flagship_high flagship_xhigh flagship_max : QualityTier

pub data StructuredOutputStrategy : Type 0 where
  native_json_schema json_mode prompt_json_fallback unsupported : StructuredOutputStrategy

pub data ProbeAuthenticationStatus : Type 0 where
  pass auth_failed not_configured unavailable : ProbeAuthenticationStatus

pub data ProviderHealthStatus : Type 0 where
  unconfigured ready degraded auth_failed unavailable disabled : ProviderHealthStatus

pub data EndpointTrustLevel : Type 0 where
  official_vendor user_managed_proxy local_endpoint unknown : EndpointTrustLevel

unfoldable pub EndpointTrustLevel-discrete : Discrete EndpointTrustLevel
EndpointTrustLevel-discrete = hlevel

instance abbrev pub trust_eq : Eq EndpointTrustLevel
trust_eq = eq_of_discrete EndpointTrustLevel-discrete

pub record TaskProfile : Type 0 where
  pub task_type : TaskType
  pub complexity : ℕ
  pub reasoning_requirement : ℕ
  pub maximum_reasoning_effort : Option ReasoningEffort
  pub math_requirement : ℕ
  pub coding_requirement : ℕ
  pub multimodal_requirement : ℕ
  pub long_context_requirement : ℕ
  pub review_requirement : ℕ
  pub security_risk : ℕ
  pub blast_radius : ℕ
  pub cost_sensitivity : ℕ
  pub deadline_pressure : ℕ
  pub retry_count : ℕ
  pub minimum_level : Option EscalationLevel
  pub required_capabilities : List ModelCapability
  pub requires_json_schema : Bool
  pub allows_prompt_json_fallback : Bool
  pub requires_native_tools : Bool
  pub requires_reasoning_control : Bool
  pub minimum_context_tokens : Option ℕ
  pub preferred_model_id : Option String
  pub allowed_endpoint_trust : Option (List EndpointTrustLevel)
  pub allow_model_fallback : Bool

pub record CapabilityEvidence : Type 0 where
  pub status : CapabilityStatus
  pub source : CapabilitySource

pub record ProviderEndpoint : Type 0 where
  pub provider_id : String
  pub protocol : String
  pub enabled : Bool
  pub trust_level : EndpointTrustLevel
  pub health_status : ProviderHealthStatus
  pub cooldown_until : Option ℕ
  pub config_digest : String

-- `reasoning_mapping` is read at the upper-case name of an effort.
pub record ModelProfile : Type 0 where
  pub model_id : String
  pub provider_id : String
  pub remote_model : String
  pub enabled : Bool
  pub quality_tier : QualityTier
  pub structured_output_strategy : StructuredOutputStrategy
  pub reasoning_mapping : ReasoningEffort → Option String
  pub context_window : Option ℕ
  pub input_per_million : Option ℕ
  pub config_digest : String

pub record CapabilityProbeResult : Type 0 where
  pub probe_id : String
  pub capabilities : ModelCapability → Option CapabilityEvidence
  pub authentication_status : ProbeAuthenticationStatus
  pub probe_digest : String

pub record AgentRoutePolicy : Type 0 where
  pub primary_model_id : String
  pub fallback_model_ids : List String

pub record ModelTargetSettings : Type 0 where
  pub provider : ProviderName
  pub model : String
  pub reasoning : ReasoningEffort

pub record ModelCatalogSettings : Type 0 where
  pub fast : ModelTargetSettings
  pub balanced : ModelTargetSettings
  pub flagship_high : ModelTargetSettings
  pub flagship_xhigh : ModelTargetSettings
  pub flagship_max : ModelTargetSettings
  pub multimodal : ModelTargetSettings

pub record Settings : Type 0 where
  pub model_catalog : ModelCatalogSettings
  pub default_provider : ProviderName
  pub default_provider_model : String
  pub default_model_id : Option String

-- Why a registered model is refused: the texts of `_hard_rejections` and of the loop that calls it.
pub data Rejection : Type 0 where
  mock_not_eligible : Rejection
  provider_disabled : Rejection
  model_disabled : Rejection
  credential_lookup_failed : Rejection
  credential_not_configured : Rejection
  health_is : ProviderHealthStatus → Rejection
  in_cooldown : Rejection
  tier_below_minimum : Rejection
  probe_missing_or_stale : Rejection
  authentication_is : ProbeAuthenticationStatus → Rejection
  capability_not_supported : ModelCapability → Rejection
  context_insufficient : Rejection
  trust_disallowed : Rejection
  evidence_failed_integrity : Rejection
  probe_unavailable : Rejection
  preferred_unavailable : Rejection

-- The `reason` of a decision.
pub data RouteReason : Type 0 where
  escalation_exhausted : RouteReason
  multi_model_review_required : RouteReason
  registry_integrity_failure : RouteReason
  routing_policy_integrity_failure : RouteReason
  default_model_absent : RouteReason
  preferred_model_absent : RouteReason
  no_eligible_model : Option String → RouteReason
  fallback_disabled : RouteReason
  selected_by_policy : Bool → RouteReason
  providers_unavailable : RouteReason
  selected_level : EscalationLevel → Bool → RouteReason

-- A provider is named by the enumeration or by its registered identifier.
pub data ProviderRef : Type 0 where
  builtin : ProviderName → ProviderRef
  registered : String → ProviderRef

pub data FallbackReason : Type 0 where
  rejected_because : List Rejection → FallbackReason
  catalog_provider_unavailable : FallbackReason

pub record RouteDecision : Type 0 where
  pub level : EscalationLevel
  pub action : RouteAction
  pub recommended_provider : Option ProviderRef
  pub recommended_model : Option String
  pub recommended_reasoning : Option ReasoningEffort
  pub selected_provider : Option ProviderRef
  pub selected_model : Option String
  pub selected_model_id : Option String
  pub provider_config_digest : Option String
  pub model_config_digest : Option String
  pub capability_probe_id : Option String
  pub capability_probe_digest : Option String
  pub task_profile_digest : Option String
  pub protocol : Option String
  pub endpoint_trust : Option EndpointTrustLevel
  pub structured_output_mode : Option StructuredOutputStrategy
  pub selected_reasoning : Option ReasoningEffort
  pub reasoning_effective : Option String
  pub fallback_used : Bool
  pub fallback_reason : Option FallbackReason
  pub rejected_models : Dict String (List Rejection)
  pub legacy_config_used : Bool
  pub reason : RouteReason
