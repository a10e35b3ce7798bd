-- ===== src/Routing/Registry.antt =====
-- src/mathmodel_ai/routing/router.py, `_score` and `_route_registry`: the choice among the
-- registered models. The digest of a profile is a parameter.
pub mod Choice
pub mod Fallback
pub mod Preference
pub mod Refusal
pub mod Laws
use Prim.Native.Char.{code}
use math_model_ai.Base.{
  ℕ, ◌+◌, ◌-◌, min, String, Bool, true, false, not, ◌&&◌, Option, none, some, List, [], ◌∷◌, ◌++◌,
  map, contains, keep, ltb, leb, nat_beq, ◌==◌, string_eq, option_eq, if◌then◌else◌, is_some, Raise,
  ok, raise, ◌>>=◌,
}
use math_model_ai.Base.Sort.{sort_by}
use math_model_ai.Base.Dict
use math_model_ai.Base.Dict.{Dict}
use math_model_ai.Routing.Types.{
  EscalationLevel, RouteAction, TaskProfile, ReasoningEffort, none_effort, ModelCapability,
  reasoning_control, ProviderEndpoint, ModelProfile, CapabilityProbeResult, AgentRoutePolicy,
  Rejection, evidence_failed_integrity, probe_unavailable, preferred_unavailable, RouteReason,
  routing_policy_integrity_failure, preferred_model_absent, no_eligible_model, fallback_disabled,
  selected_by_policy, registered, FallbackReason, rejected_because, RouteDecision,
}
use math_model_ai.Routing.Level.{value, tier_rank, reasoning_for_level, cap_reasoning_effort}
use math_model_ai.Routing.Eligibility.{Registry, Failure, is_proven, hard_rejections}

-- The sum of the code points of a text.
abbrev pub ord_sum : String → ℕ
ord_sum String.[] = 0
ord_sum (String.◌∷◌ c s) = code c + ord_sum s

-- `_score` is a triple of numbers that are 0 or negative: these are the three without their signs.
-- A missing price counts as 1,000,000, here in millionths.
unfoldable pub score : ModelProfile → TaskProfile → EscalationLevel → ℕ × ℕ × ℕ
score m p level =
    let tier = tier_rank m.quality_tier in
    let wanted = min (value level) 5 in
    let cost : ℕ = elim m.input_per_million [ none ↦ 1_000_000_000_000 | some price ↦ price ] in
    (
      (tier - wanted) + (wanted - tier),
      (if ltb 0 p.cost_sensitivity then cost else 0),
      ord_sum m.model_id,
    )

-- Of two scores, the first is at least the second: their absolute values the other way round.
abbrev pub score_at_least : ℕ × ℕ × ℕ → ℕ × ℕ × ℕ → Bool
score_at_least a b =
    if nat_beq a.0 b.0 then if nat_beq a.1 b.1 then leb a.2 b.2 else ltb a.1 b.1 else ltb a.0 b.0

-- `{item.model_id: item for item in models}`, where a later model replaces an earlier one.
abbrev pub by_id_from : Dict String ModelProfile → List ModelProfile → Dict String ModelProfile
by_id_from d [] = d
by_id_from d (m ∷ ms) = by_id_from (Dict.insert m.model_id m d) ms

abbrev pub by_id : List ModelProfile → Dict String ModelProfile
by_id = by_id_from []

-- `[by_id[item] for item in ordered_ids if item in by_id]`
abbrev pub known_models : Dict String ModelProfile → List String → List ModelProfile
known_models d [] = []
known_models d (k ∷ ks) =
    let rest = known_models d ks in elim (Dict.lookup k d) [ none ↦ rest | some m ↦ m ∷ rest ]

-- `first or second`: an empty text counts as none.
abbrev pub or_text : Option String → Option String → Option String
or_text none second = second
or_text (some s) second = if s == "" then second else some s

abbrev pub primary_or : Option AgentRoutePolicy → Option String → Option String
primary_or none default = default
primary_or (some policy) default = some policy.primary_model_id

abbrev pub option_list : Option String → List String
option_list none = []
option_list (some s) = s ∷ []

abbrev pub fallback_ids : Option AgentRoutePolicy → List String
fallback_ids none = []
fallback_ids (some policy) = policy.fallback_model_ids

-- The ids that come first: the preferred one, then the policy's fallbacks.
abbrev pub ordered_ids : Option String → Option AgentRoutePolicy → List String
ordered_ids preferred policy = option_list preferred ++ fallback_ids policy

-- Every other model by its score, unless a policy says which models may serve.
unfoldable pub remaining :
    TaskProfile
    → EscalationLevel
    → List ModelProfile
    → List String
    → Option AgentRoutePolicy
    → List ModelProfile
unfolding score
remaining p level models ids (some policy) = []
remaining p level models ids none =
    sort_by (λ a b. score_at_least (score a p level) (score b p level))
      (keep (λ m. not (contains m.model_id ids)) models)

unfoldable pub candidates :
    TaskProfile
    → EscalationLevel
    → List ModelProfile
    → Option String
    → Option AgentRoutePolicy
    → List ModelProfile
unfolding remaining
candidates p level models preferred policy =
    let ids = ordered_ids preferred policy in
    known_models (by_id models) ids ++ remaining p level models ids policy

pub data Attempt : Type 0 where
  refused : List Rejection → Attempt
  chosen : ProviderEndpoint → CapabilityProbeResult → Attempt

abbrev pub Selection : Type 0
Selection =
    Dict String (List Rejection) × Option (ModelProfile × ProviderEndpoint × CapabilityProbeResult)

-- What the loop makes of the reasons and the probe of one model.
abbrev pub judge :
    ProviderEndpoint → Raise Failure (List Rejection × Option CapabilityProbeResult) → Attempt
judge e (raise _) = refused (evidence_failed_integrity ∷ [])
judge e (ok (r ∷ rs, probe)) = refused (r ∷ rs)
judge e (ok ([], none)) = refused (probe_unavailable ∷ [])
judge e (ok ([], some probe)) = chosen e probe

module _ (registry : Registry) (now : ℕ) (p : TaskProfile) (level : EscalationLevel) where
  judge_at : ModelProfile → Raise Failure ProviderEndpoint → Attempt
  judge_at m (raise _) = refused (evidence_failed_integrity ∷ [])
  judge_at m (ok e) = judge e (hard_rejections registry now m e p level)

  unfoldable pub attempt : ModelProfile → Attempt
  unfolding judge_at
  attempt m = judge_at m (registry.get_provider m.provider_id)

  -- The loop over the candidates, which stops at the first that is not rejected.
  unfoldable pub choose : List ModelProfile → Dict String (List Rejection) → Selection
  unfolding attempt
  choose [] rejected = (rejected, none)
  choose (m ∷ ms) rejected = elim (attempt m) [
    | refused reasons ↦ choose ms (Dict.insert m.model_id reasons rejected)
    | chosen e probe ↦ (rejected, some (m, e, probe))
  ]

abbrev pub reasoning_supported : CapabilityProbeResult → Bool
reasoning_supported probe = elim (probe.capabilities reasoning_control) [
  | none ↦ false
  | some e ↦ is_proven e
]

abbrev pub is_none_effort : ReasoningEffort → Bool
is_none_effort none_effort = true
is_none_effort _ = false

abbrev pub is_known : List ModelProfile → Option String → Bool
is_known models none = true
is_known models (some id) = is_some (Dict.lookup id (by_id models))

-- `registry.get_agent_route(agent_name) if agent_name else None`
abbrev pub agent_policy : Registry → Option String → Raise Failure (Option AgentRoutePolicy)
agent_policy registry none = ok none
agent_policy registry (some name) = if name == "" then ok none else registry.get_agent_route name

module _ (digest : TaskProfile → String) where
  -- A `RouteDecision` with its defaults, of which a human has to judge.
  unfoldable pub for_human : TaskProfile → RouteReason → RouteDecision
  for_human p reason = record {
    level = EscalationLevel.human_review;
    action = RouteAction.human_review;
    recommended_provider = none;
    recommended_model = none;
    recommended_reasoning = none;
    selected_provider = none;
    selected_model = none;
    selected_model_id = none;
    provider_config_digest = none;
    model_config_digest = none;
    capability_probe_id = none;
    capability_probe_digest = none;
    task_profile_digest = some (digest p);
    protocol = none;
    endpoint_trust = none;
    structured_output_mode = none;
    selected_reasoning = none;
    reasoning_effective = none;
    fallback_used = false;
    fallback_reason = none;
    rejected_models = [];
    legacy_config_used = false;
    reason = reason;
  }

  -- The decision for a model that was chosen.
  unfoldable pub for_model :
      TaskProfile
      → EscalationLevel
      → Option String
      → Dict String (List Rejection)
      → ModelProfile
      → ProviderEndpoint
      → CapabilityProbeResult
      → RouteDecision
  unfolding reasoning_for_level cap_reasoning_effort
  for_model p level preferred rejected m e probe =
      let fallback = is_some preferred && not (some m.model_id == preferred) in
      let preferred_id : String = elim preferred [ none ↦ "" | some id ↦ id ] in
      let requested = cap_reasoning_effort (reasoning_for_level level) p.maximum_reasoning_effort in
      let controlled = reasoning_supported probe in
      record {
        level = level;
        action = RouteAction.execute;
        recommended_provider = some (registered e.provider_id);
        recommended_model = or_text preferred (some m.model_id);
        recommended_reasoning = some requested;
        selected_provider = some (registered e.provider_id);
        selected_model = some m.remote_model;
        selected_model_id = some m.model_id;
        provider_config_digest = some e.config_digest;
        model_config_digest = some m.config_digest;
        capability_probe_id = some probe.probe_id;
        capability_probe_digest = some probe.probe_digest;
        task_profile_digest = some (digest p);
        protocol = some e.protocol;
        endpoint_trust = some e.trust_level;
        structured_output_mode = some m.structured_output_strategy;
        selected_reasoning = if controlled then some requested else none;
        reasoning_effective =
            if controlled && not (is_none_effort requested)
            then m.reasoning_mapping requested
            else none;
        fallback_used = fallback;
        fallback_reason =
            if fallback
            then some
                (rejected_because (Dict.get_or preferred_id (preferred_unavailable ∷ []) rejected))
            else none;
        rejected_models = rejected;
        legacy_config_used = false;
        reason = selected_by_policy fallback;
      }

  -- What follows the loop.
  unfoldable pub conclude :
      TaskProfile → EscalationLevel → Option String → Selection → RouteDecision
  unfolding for_human for_model
  conclude p level preferred (rejected, none) = record (for_human p (no_eligible_model preferred)) {
    recommended_model = preferred;
    rejected_models = rejected;
  }
  conclude p level preferred (rejected, some (m, e, probe)) =
      if is_some preferred && not (some m.model_id == preferred) && not p.allow_model_fallback
      then record (for_human p fallback_disabled) {
        recommended_model = preferred;
        rejected_models = rejected;
      }
      else for_model p level preferred rejected m e probe

  module _ (registry : Registry) (now : ℕ) where
    -- From the policy of the agent, or its absence, on.
    unfoldable pub route_by_policy :
        TaskProfile
        → EscalationLevel
        → List ModelProfile
        → Option String
        → Option AgentRoutePolicy
        → RouteDecision
    unfolding conclude candidates choose
    route_by_policy p level models default policy =
        let preferred = or_text p.preferred_model_id (primary_or policy default) in
        if is_known models preferred
        then conclude p level preferred
            (choose registry now p level (candidates p level models preferred policy) [])
        else record (for_human p preferred_model_absent) { recommended_model = preferred }

    -- `_route_registry`
    unfoldable pub route_registry :
        TaskProfile
        → EscalationLevel
        → List ModelProfile
        → Option String
        → Option String
        → RouteDecision
    unfolding route_by_policy
    route_registry p level models agent_name default = elim (agent_policy registry agent_name) [
      | raise _ ↦ for_human p routing_policy_integrity_failure
      | ok policy ↦ route_by_policy p level models default policy
    ]
