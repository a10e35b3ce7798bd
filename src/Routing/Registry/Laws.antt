-- ===== src/Routing/Registry/Laws.antt =====
-- Routes among the registered models, `_route_registry` of src/mathmodel_ai/routing/router.py.
use mathlib.Core.Option.{some-injective}
use math_model_ai.Base.{
  ℕ, ◌≡◌, refl, sym, subst, String, Bool, true, false, not, ◌&&◌, Option, none, some, List, [], ◌∷◌,
  ◌++◌, Memᴰ, ◌==◌, string_eq, option_eq, if◌then◌else◌, is_some, Raise, ok, raise,
}
use math_model_ai.Base.Dict.{Dict}
use math_model_ai.Routing.Types.{
  EscalationLevel, RouteAction, TaskProfile, ProviderEndpoint, ModelProfile, CapabilityProbeResult,
  AgentRoutePolicy, Rejection, RouteReason, registered, RouteDecision,
}
use math_model_ai.Routing.Eligibility.{Registry, Failure}
use math_model_ai.Routing.Eligibility.Laws.{IsEligible, hard_rejections-IsEligible}
use math_model_ai.Routing.Registry.{
  candidates, choose, Selection, for_human, for_model, conclude, is_known, or_text, primary_or,
  agent_policy, route_by_policy, route_registry,
}
use math_model_ai.Routing.Registry.Choice.{candidates-mem, choose-some, attempt-chosen}
use math_model_ai.Routing.Registry.Preference.{Prefers, or_text-Prefers}
use math_model_ai.Routing.Registry.Fallback.{Follows, for_model-Follows, tried}

-- The decision names this model, its provider and its probe.
pub record Selects (d : RouteDecision) (level : EscalationLevel) (m : ModelProfile)
    (e : ProviderEndpoint) (probe : CapabilityProbeResult) : Type 0 where
  pub at_level : d.level ≡ level
  pub model : d.selected_model_id ≡ some m.model_id
  pub remote : d.selected_model ≡ some m.remote_model
  pub provider : d.selected_provider ≡ some (registered e.provider_id)
  pub probe_named : d.capability_probe_id ≡ some probe.probe_id
  pub from_registry : d.legacy_config_used ≡ false

module _ (registry : Registry) (now : ℕ) (p : TaskProfile) (level : EscalationLevel)
    (models : List ModelProfile) where
  -- What stands behind a decision to execute.
  abbrev pub Backed : Option String → Option String → RouteDecision → Type 0
  Backed agent_name default d =
      (m : ModelProfile) × (e : ProviderEndpoint) × (probe : CapabilityProbeResult) × Selects d
        level m e probe
      × ((preferred : Option String) × Prefers registry p agent_name default preferred
          × Follows registry now p level models d m preferred)
      × Memᴰ m models
      × (registry.get_provider m.provider_id ≡ ok e)
      × (registry.latest_probe m.model_id ≡ ok (some probe))
      × IsEligible registry now m e p level probe

module _ (digest : TaskProfile → String) where
  for_model-Selects :
      (p : TaskProfile) (level : EscalationLevel) (preferred : Option String)
      (rejected : Dict String (List Rejection)) (m : ModelProfile) (e : ProviderEndpoint)
      (probe : CapabilityProbeResult)
      → Selects (for_model digest p level preferred rejected m e probe) level m e probe
  unfolding for_model
  for_model-Selects p level preferred rejected m e probe = record {
    at_level = refl;
    model = refl;
    remote = refl;
    provider = refl;
    probe_named = refl;
    from_registry = refl;
  }

  module _ (p : TaskProfile) (level : EscalationLevel) (preferred : Option String) where
    conclude-execute :
        (s : Selection)
        → (conclude digest p level preferred s).action ≡ RouteAction.execute
        → (m : ModelProfile) × (e : ProviderEndpoint) × (probe : CapabilityProbeResult) × (s
            ≡ (s.0, some (m, e, probe)))
          × ((is_some preferred && not (some m.model_id == preferred) && not p.allow_model_fallback)
              ≡ false)
          × (conclude digest p level preferred s ≡ for_model digest p level preferred s.0 m e probe)
    unfolding conclude
    conclude-execute (rejected, none) h = cc
    conclude-execute (rejected, some (m, e, probe)) h =
        let (allowed, made_so) =
          by_test
            (is_some preferred && not (some m.model_id == preferred) && not p.allow_model_fallback)
            h in
        (m, e, probe, refl, allowed, made_so)
      where
        made : Bool → RouteDecision
        made test =
            if test
            then record (for_human digest p RouteReason.fallback_disabled) {
              recommended_model = preferred;
              rejected_models = rejected;
            }
            else for_model digest p level preferred rejected m e probe

        by_test :
            (test : Bool)
            → (made test).action ≡ RouteAction.execute
            → (test ≡ false) × (made test ≡ for_model digest p level preferred rejected m e probe)
        by_test true g = cc
        by_test false g = (refl, refl)

  module _ (registry : Registry) (now : ℕ) (p : TaskProfile) (level : EscalationLevel)
      (models : List ModelProfile) (default : Option String) where
    mem-middle :
        (before after cs : List ModelProfile) (m : ModelProfile)
        → cs ≡ before ++ (m ∷ after)
        → Memᴰ m cs
    mem-middle before after cs m e = subst (λ xs. Memᴰ m xs) (sym e) (in_middle before)
      where
        in_middle : (xs : List ModelProfile) → Memᴰ m (xs ++ (m ∷ after))
        in_middle [] = Memᴰ.head refl
        in_middle (x ∷ xs) = Memᴰ.tail (in_middle xs)

    choice-Backed :
        (agent_name preferred : Option String) (policy : Option AgentRoutePolicy)
        → is_known models preferred ≡ true
        → Prefers registry p agent_name default preferred
        → let d =
            conclude digest p level preferred
              (choose registry now p level (candidates p level models preferred policy) []) in
          d.action ≡ RouteAction.execute → Backed registry now p level models agent_name default d
    choice-Backed agent_name preferred policy known prefers h =
        let cs = candidates p level models preferred policy in
        let s = choose registry now p level cs [] in
        let (m, e, probe, same, allowed, made_so) = conclude-execute p level preferred s h in
        let selects : Selects (conclude digest p level preferred s) level m e probe =
          subst (λ d. Selects d level m e probe) (sym made_so)
            (for_model-Selects p level preferred s.0 m e probe) in
        let follows : Follows registry now p level models (conclude digest p level preferred s) m
            preferred =
          subst (λ d. Follows registry now p level models d m preferred) (sym made_so)
            (for_model-Follows digest registry now p level models preferred s.0 m e probe allowed
              (tried registry now p level models preferred policy known same)) in
        let (before, after, split, earlier, last) = choose-some registry now p level cs [] same in
        let (provider, clean) = attempt-chosen registry now p level m last in
        let (found, is_found, asked, eligible) =
          hard_rejections-IsEligible registry now m e p level clean in
        let is_probe : found ≡ probe = some-injective found probe (sym is_found) in
        (
          m,
          e,
          probe,
          selects,
          (preferred, prefers, follows),
          candidates-mem p level models preferred policy (mem-middle before after cs m split),
          provider,
          subst (λ x. registry.latest_probe m.model_id ≡ ok (some x)) is_probe asked,
          subst (λ x. IsEligible registry now m e p level x) is_probe eligible,
        )

    route_by_policy-execute :
        (agent_name : Option String) (policy : Option AgentRoutePolicy)
        → agent_policy registry agent_name ≡ ok policy
        → (route_by_policy digest registry now p level models default policy).action
          ≡ RouteAction.execute
        → Backed registry now p level models agent_name default
            (route_by_policy digest registry now p level models default policy)
    unfolding route_by_policy for_human
    route_by_policy-execute agent_name policy asked h = by_known (is_known models preferred) refl h
      where
        preferred : Option String
        preferred = or_text p.preferred_model_id (primary_or policy default)

        made : Bool → RouteDecision
        made known =
            if known
            then conclude digest p level preferred
                (choose registry now p level (candidates p level models preferred policy) [])
            else record (for_human digest p RouteReason.preferred_model_absent) {
              recommended_model = preferred;
            }

        by_known :
            (known : Bool)
            → is_known models preferred ≡ known
            → (made known).action ≡ RouteAction.execute
            → Backed registry now p level models agent_name default (made known)
        by_known true known g =
            choice-Backed agent_name preferred policy known
              (or_text-Prefers registry p agent_name default asked) g
        by_known false known g = cc

    -- If `_route_registry` decides to execute, the decision names a model that is registered, the
    -- provider and the current probe that the registry gives for it, and these meet every
    -- requirement of the task at this level. The preferred model is the one that the task names,
    -- else the primary one of the agent's policy, and without a policy the default. If the named
    -- model is the preferred one, or none is preferred, then it is the recommended one and no
    -- fallback is marked. If it is another one, then the task allows a fallback, the decision marks
    -- it and recommends the preferred model (where its name is not empty), that model is registered,
    -- was tried and was refused, and the fallback's reason is what it was refused for.
    pub route_registry-execute :
        (agent_name : Option String)
        → (route_registry digest registry now p level models agent_name default).action
          ≡ RouteAction.execute
        → Backed registry now p level models agent_name default
            (route_registry digest registry now p level models agent_name default)
    unfolding route_registry for_human
    route_registry-execute agent_name h = by_policy (agent_policy registry agent_name) refl h
      where
        made : Raise Failure (Option AgentRoutePolicy) → RouteDecision
        made answer = elim answer [
          | raise _ ↦ for_human digest p RouteReason.routing_policy_integrity_failure
          | ok policy ↦ route_by_policy digest registry now p level models default policy
        ]

        by_policy :
            (answer : Raise Failure (Option AgentRoutePolicy))
            → agent_policy registry agent_name ≡ answer
            → (made answer).action ≡ RouteAction.execute
            → Backed registry now p level models agent_name default (made answer)
        by_policy (raise _) asked g = cc
        by_policy (ok policy) asked g = route_by_policy-execute agent_name policy asked g
