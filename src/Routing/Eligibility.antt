-- ===== src/Routing/Eligibility.antt =====
-- src/mathmodel_ai/routing/router.py, `_hard_rejections` and `_probe_supports`: what rules a
-- registered model out. The registry is the interface of `ProviderModelRegistry` that the router
-- calls; each of its methods may raise. The clock is the moment `now`.
pub mod Laws
use math_model_ai.Base.{
  ℕ, ◌≤◌, min, String, Bool, true, false, not, ◌&&◌, ◌||◌, Option, none, some, List, [], ◌∷◌, ◌++◌,
  contains, ltb, leb, ◌==◌, string_eq, if◌then◌else◌, is_some, Raise, ok, raise, ◌>>=◌,
}
use math_model_ai.Routing.Types.{
  EscalationLevel, TaskProfile, ModelCapability, text, vision, structured_output, json_mode,
  json_schema, tools, streaming, reasoning_control, system_role, developer_role, long_context,
  usage_reporting, capability_eq, ModelCapability-discrete, CapabilityEvidence, CapabilityStatus,
  CapabilitySource, StructuredOutputStrategy, ProbeAuthenticationStatus, ProviderHealthStatus,
  trust_eq, EndpointTrustLevel-discrete, ProviderEndpoint, ModelProfile, CapabilityProbeResult,
  AgentRoutePolicy, Rejection, mock_not_eligible, provider_disabled, model_disabled,
  credential_lookup_failed, credential_not_configured, health_is, in_cooldown, tier_below_minimum,
  probe_missing_or_stale, authentication_is, capability_not_supported, context_insufficient,
  trust_disallowed,
}
use math_model_ai.Routing.Level.{value, tier_rank}

-- What the registry raises; the router catches it without looking inside.
pub data Failure : Type 0 where
  failure : Failure

pub record Registry : Type 0 where
  pub list_models : Raise Failure (List ModelProfile)
  pub get_default_model_id : Raise Failure (Option String)
  pub get_agent_route : String → Raise Failure (Option AgentRoutePolicy)
  pub get_provider : String → Raise Failure ProviderEndpoint
  pub credential_configured : String → Raise Failure Bool
  pub latest_probe : String → Raise Failure (Option CapabilityProbeResult)

abbrev pub is_probed : CapabilitySource → Bool
is_probed CapabilitySource.probed = true
is_probed _ = false

abbrev pub is_supported : CapabilityStatus → Bool
is_supported CapabilityStatus.supported = true
is_supported _ = false

abbrev pub is_partial : CapabilityStatus → Bool
is_partial CapabilityStatus.partial = true
is_partial _ = false

abbrev pub is_ready : ProviderHealthStatus → Bool
is_ready ProviderHealthStatus.ready = true
is_ready _ = false

abbrev pub is_pass : ProbeAuthenticationStatus → Bool
is_pass ProbeAuthenticationStatus.pass = true
is_pass _ = false

abbrev pub is_prompt_fallback : StructuredOutputStrategy → Bool
is_prompt_fallback StructuredOutputStrategy.prompt_json_fallback = true
is_prompt_fallback _ = false

abbrev pub is_structured_output : ModelCapability → Bool
is_structured_output structured_output = true
is_structured_output _ = false

-- The test of one piece of evidence, that the source makes in two places.
abbrev pub is_proven : CapabilityEvidence → Bool
is_proven e = is_probed e.source && is_supported e.status

-- `_probe_supports`
unfoldable pub probe_supports : CapabilityProbeResult → ModelCapability → Bool
probe_supports probe capability = elim (probe.capabilities capability) [
  | none ↦ false
  | some e ↦ is_proven e
]

-- `CapabilityEvidence()`
abbrev pub no_evidence : CapabilityEvidence
no_evidence = record { status = CapabilityStatus.unknown; source = CapabilitySource.unknown }

-- The members of `ModelCapability`, sorted by value.
abbrev pub sorted_capabilities : List ModelCapability
sorted_capabilities =
    developer_role ∷ json_mode ∷ json_schema ∷ long_context ∷ reasoning_control ∷ streaming
    ∷ structured_output ∷ system_role ∷ text ∷ tools ∷ usage_reporting ∷ vision ∷ []

-- What the profile adds to its own set of capabilities.
abbrev pub added_capability : TaskProfile → ModelCapability → Bool
added_capability p structured_output = true
added_capability p vision = ltb 0 p.multimodal_requirement
added_capability p json_schema = p.requires_json_schema
added_capability p tools = p.requires_native_tools
added_capability p reasoning_control = p.requires_reasoning_control
added_capability p long_context =
    is_some p.minimum_context_tokens || ltb 0 p.long_context_requirement
added_capability p _ = false

-- Membership in the set `required`.
unfoldable pub is_required : TaskProfile → ModelCapability → Bool
unfolding ModelCapability-discrete
is_required p c = contains c p.required_capabilities || added_capability p c

abbrev pub evidence_of : Option CapabilityProbeResult → ModelCapability → CapabilityEvidence
evidence_of none c = no_evidence
evidence_of (some probe) c = elim (probe.capabilities c) [ none ↦ no_evidence | some e ↦ e ]

-- The exception for structured output through the prompt.
unfoldable pub prompt_fallback_allowed :
    TaskProfile → ModelProfile → Option CapabilityProbeResult → ModelCapability → Bool
unfolding probe_supports
prompt_fallback_allowed p m none c = false
prompt_fallback_allowed p m (some probe) c =
    is_structured_output c
    && p.allows_prompt_json_fallback
    && is_prompt_fallback m.structured_output_strategy
    && probe_supports probe text
    && is_probed (evidence_of (some probe) c).source
    && is_partial (evidence_of (some probe) c).status

-- What one capability of the loop leads to.
unfoldable pub capability_missing :
    TaskProfile → ModelProfile → Option CapabilityProbeResult → ModelCapability → Bool
unfolding is_required prompt_fallback_allowed
capability_missing p m probe c =
    is_required p c
    && not (is_proven (evidence_of probe c))
    && not (prompt_fallback_allowed p m probe c)

unfoldable pub missing_capabilities :
    TaskProfile
    → ModelProfile
    → Option CapabilityProbeResult
    → List ModelCapability
    → List Rejection
unfolding capability_missing
missing_capabilities p m probe [] = []
missing_capabilities p m probe (c ∷ cs) =
    let rest = missing_capabilities p m probe cs in
    if capability_missing p m probe c then capability_not_supported c ∷ rest else rest

-- `if test: reasons.append(reason)`
abbrev pub add_if : Bool → Rejection → List Rejection
add_if true r = r ∷ []
add_if false r = []

-- A failed lookup gives two reasons, since the flag is then set to `False`.
abbrev pub credential_reasons : Raise Failure Bool → List Rejection
credential_reasons (raise _) = credential_lookup_failed ∷ credential_not_configured ∷ []
credential_reasons (ok true) = []
credential_reasons (ok false) = credential_not_configured ∷ []

abbrev pub probe_reasons : Option CapabilityProbeResult → List Rejection
probe_reasons none = probe_missing_or_stale ∷ []
probe_reasons (some probe) =
    add_if (not (is_pass probe.authentication_status))
      (authentication_is probe.authentication_status)

abbrev pub in_cooldown_at : ℕ → Option ℕ → Bool
in_cooldown_at now none = false
in_cooldown_at now (some until) = ltb now until

-- `(model.context_window or 0) < profile.minimum_context_tokens`
abbrev pub context_too_small : Option ℕ → Option ℕ → Bool
context_too_small minimum none = elim minimum [ none ↦ false | some tokens ↦ ltb 0 tokens ]
context_too_small none (some window) = false
context_too_small (some tokens) (some window) = ltb window tokens

unfoldable pub trust_refused : TaskProfile → ProviderEndpoint → Bool
unfolding EndpointTrustLevel-discrete
trust_refused p e = elim p.allowed_endpoint_trust [
  | none ↦ false
  | some allowed ↦ not (contains e.trust_level allowed)
]

module _ (registry : Registry) (now : ℕ) where
  -- The list that `_hard_rejections` fills, from the answer of `latest_probe`.
  unfoldable pub reasons :
      ModelProfile
      → ProviderEndpoint
      → TaskProfile
      → EscalationLevel
      → Option CapabilityProbeResult
      → List Rejection
  unfolding missing_capabilities trust_refused
  reasons m e p level probe =
      add_if (m.provider_id == "mock") mock_not_eligible
      ++ (add_if (not e.enabled) provider_disabled
          ++ (add_if (not m.enabled) model_disabled
              ++ (credential_reasons (registry.credential_configured e.provider_id)
                  ++ (add_if (not (is_ready e.health_status)) (health_is e.health_status)
                      ++ (add_if (in_cooldown_at now e.cooldown_until) in_cooldown
                          ++ (add_if (ltb (tier_rank m.quality_tier) (min (value level) 5))
                                tier_below_minimum
                              ++ (probe_reasons probe
                                  ++ (missing_capabilities p m probe sorted_capabilities
                                      ++ (add_if
                                            (context_too_small p.minimum_context_tokens
                                              m.context_window)
                                            context_insufficient
                                          ++ add_if (trust_refused p e) trust_disallowed)))))))))

  -- `_hard_rejections`: the reasons, and the current probe.
  unfoldable pub hard_rejections :
      ModelProfile
      → ProviderEndpoint
      → TaskProfile
      → EscalationLevel
      → Raise Failure (List Rejection × Option CapabilityProbeResult)
  unfolding reasons
  hard_rejections m e p level = do
    probe ← registry.latest_probe m.model_id
    ok (reasons m e p level probe, probe)
