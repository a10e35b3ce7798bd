-- ===== src/Routing/Eligibility/Laws.antt =====
-- The hard rejections of a model, `_hard_rejections` of src/mathmodel_ai/routing/router.py.
use math_model_ai.Base.{
  ℕ, ◌≤◌, min, ◌≡◌, refl, ◌≢◌, ◌⊎◌, inl, inr, Bool, true, false, not, Option, none, some, List, [],
  ◌∷◌, ◌&&◌, Memᴰ, arith, contains, contains-mem, ltb, not_ltb→le, ◌==◌, string_eq, Raise, ok,
  raise, >>=-eq-ok, append-eq-nil,
}
use math_model_ai.Routing.Types.{
  EscalationLevel, TaskProfile, ModelCapability, ProbeAuthenticationStatus, ProviderHealthStatus,
  trust_eq, capability_eq, ModelCapability-discrete, ProviderEndpoint, ModelProfile,
  CapabilityProbeResult, Rejection,
}
use math_model_ai.Routing.Level.{value, tier_rank}
use math_model_ai.Routing.Eligibility.{
  Registry, Failure, is_required, evidence_of, is_proven, prompt_fallback_allowed,
  capability_missing, missing_capabilities, add_if, credential_reasons, probe_reasons,
  in_cooldown_at, context_too_small, trust_refused, sorted_capabilities, is_ready, reasons,
  hard_rejections,
}

-- What the task asks of a route, field by field.
pub record IsEligible (registry : Registry) (now : ℕ) (m : ModelProfile) (e : ProviderEndpoint)
    (p : TaskProfile) (level : EscalationLevel) (probe : CapabilityProbeResult) : Type 0 where
  pub not_mock : m.provider_id ≢ "mock"
  pub provider_enabled : e.enabled ≡ true
  pub model_enabled : m.enabled ≡ true
  pub credential : registry.credential_configured e.provider_id ≡ ok true
  pub healthy : e.health_status ≡ ProviderHealthStatus.ready
  pub not_cooling : in_cooldown_at now e.cooldown_until ≡ false
  pub tier_reached : min (value level) 5 ≤ tier_rank m.quality_tier
  pub authenticated : probe.authentication_status ≡ ProbeAuthenticationStatus.pass
  pub capable :
      (c : ModelCapability)
      → (is_required p c ≡ false)
        ⊎ (is_proven (evidence_of (some probe) c) ≡ true)
        ⊎ (prompt_fallback_allowed p m (some probe) c ≡ true)
  pub context_large : context_too_small p.minimum_context_tokens m.context_window ≡ false
  pub trusted : trust_refused p e ≡ false

add_if-eq-nil : (test : Bool) (r : Rejection) → add_if test r ≡ [] → test ≡ false
add_if-eq-nil true r h = cc
add_if-eq-nil false r h = refl

credential_reasons-eq-nil :
    (answer : Raise Failure Bool) → credential_reasons answer ≡ [] → answer ≡ ok true
credential_reasons-eq-nil (raise _) h = cc
credential_reasons-eq-nil (ok true) h = refl
credential_reasons-eq-nil (ok false) h = cc

-- Without a reason for the health there is a probe, and it was authenticated.
probe_reasons-eq-nil :
    (probe : CapabilityProbeResult)
    → probe_reasons (some probe) ≡ []
    → probe.authentication_status ≡ ProbeAuthenticationStatus.pass
probe_reasons-eq-nil probe h = ground arith

missing_capabilities-eq-nil :
    (p : TaskProfile) (m : ModelProfile) (probe : Option CapabilityProbeResult)
    (cs : List ModelCapability) (c : ModelCapability)
    → missing_capabilities p m probe cs ≡ []
    → Memᴰ c cs
    → capability_missing p m probe c ≡ false
unfolding missing_capabilities
missing_capabilities-eq-nil p m probe [] c h k = elim k [ ]
missing_capabilities-eq-nil p m probe (d ∷ cs) c h (Memᴰ.head e) = ground arith
missing_capabilities-eq-nil p m probe (d ∷ cs) c h (Memᴰ.tail k) =
    missing_capabilities-eq-nil p m probe cs c (ground arith) k

all_capabilities : (c : ModelCapability) → contains c sorted_capabilities ≡ true
unfolding ModelCapability-discrete
all_capabilities ModelCapability.text = refl
all_capabilities _ = refl

capability_decided :
    (p : TaskProfile) (m : ModelProfile) (probe : CapabilityProbeResult) (c : ModelCapability)
    → capability_missing p m (some probe) c ≡ false
    → (is_required p c ≡ false)
      ⊎ (is_proven (evidence_of (some probe) c) ≡ true)
      ⊎ (prompt_fallback_allowed p m (some probe) c ≡ true)
unfolding capability_missing
capability_decided p m probe c h =
    not_all (is_required p c) (is_proven (evidence_of (some probe) c))
      (prompt_fallback_allowed p m (some probe) c) h
  where
    not_all : (a b d : Bool) → (a && not b && not d) ≡ false → (a ≡ false) ⊎ (b ≡ true) ⊎ (d ≡ true)
    not_all false b d h = inl refl
    not_all true true d h = inr (inl refl)
    not_all true false true h = inr (inr refl)
    not_all true false false h = cc

not-eq-false : (b : Bool) → not b ≡ false → b ≡ true
not-eq-false b h = ground arith

is_ready-eq : (s : ProviderHealthStatus) → not (is_ready s) ≡ false → s ≡ ProviderHealthStatus.ready
is_ready-eq s h = ground arith

module _ (registry : Registry) (now : ℕ) (m : ModelProfile) (e : ProviderEndpoint) (p : TaskProfile)
    (level : EscalationLevel) where
  reasons-none : reasons registry now m e p level none ≢ []
  unfolding reasons
  reasons-none h =
      let (_, r1) =
        append-eq-nil (add_if (m.provider_id == "mock") Rejection.mock_not_eligible) _ h in
      let (_, r2) = append-eq-nil (add_if (not e.enabled) Rejection.provider_disabled) _ r1 in
      let (_, r3) = append-eq-nil (add_if (not m.enabled) Rejection.model_disabled) _ r2 in
      let (_, r4) =
        append-eq-nil (credential_reasons (registry.credential_configured e.provider_id)) _ r3 in
      let (_, r5) = append-eq-nil (add_if (not (is_ready e.health_status)) _) _ r4 in
      let (_, r6) = append-eq-nil (add_if (in_cooldown_at now e.cooldown_until) _) _ r5 in
      let (_, r7) =
        append-eq-nil (add_if (ltb (tier_rank m.quality_tier) (min (value level) 5)) _) _ r6 in
      cc

  reasons-IsEligible :
      (probe : CapabilityProbeResult)
      → reasons registry now m e p level (some probe) ≡ []
      → IsEligible registry now m e p level probe
  unfolding reasons
  reasons-IsEligible probe h =
      let (mock, r1) =
        append-eq-nil (add_if (m.provider_id == "mock") Rejection.mock_not_eligible) _ h in
      let (provider, r2) =
        append-eq-nil (add_if (not e.enabled) Rejection.provider_disabled) _ r1 in
      let (model, r3) = append-eq-nil (add_if (not m.enabled) Rejection.model_disabled) _ r2 in
      let (credential, r4) =
        append-eq-nil (credential_reasons (registry.credential_configured e.provider_id)) _ r3 in
      let (health, r5) = append-eq-nil (add_if (not (is_ready e.health_status)) _) _ r4 in
      let (cooling, r6) = append-eq-nil (add_if (in_cooldown_at now e.cooldown_until) _) _ r5 in
      let (tier, r7) =
        append-eq-nil (add_if (ltb (tier_rank m.quality_tier) (min (value level) 5)) _) _ r6 in
      let (pass, r8) = append-eq-nil (probe_reasons (some probe)) _ r7 in
      let (capable, r9) =
        append-eq-nil (missing_capabilities p m (some probe) sorted_capabilities) _ r8 in
      let (context, trust) =
        append-eq-nil (add_if (context_too_small p.minimum_context_tokens m.context_window) _) _
          r9 in
      record {
        not_mock = λ is_mock.
            let same : (m.provider_id == "mock") ≡ true = (string_eq.equal_iff _ _).1 is_mock in
            let other : (m.provider_id == "mock") ≡ false = add_if-eq-nil _ _ mock in cc;
        provider_enabled = not-eq-false _ (add_if-eq-nil _ _ provider);
        model_enabled = not-eq-false _ (add_if-eq-nil _ _ model);
        credential = credential_reasons-eq-nil _ credential;
        healthy = is_ready-eq _ (add_if-eq-nil _ _ health);
        not_cooling = add_if-eq-nil _ _ cooling;
        tier_reached = not_ltb→le _ _ (add_if-eq-nil _ _ tier);
        authenticated = probe_reasons-eq-nil probe pass;
        capable = λ c. capability_decided p m probe c (
            missing_capabilities-eq-nil p m (some probe) sorted_capabilities c capable
              (contains-mem c sorted_capabilities (all_capabilities c)));
        context_large = add_if-eq-nil _ _ context;
        trusted = add_if-eq-nil _ _ trust;
      }

  -- If `_hard_rejections` returns no reason, it returns a current probe, and the model, its
  -- provider and that probe meet every requirement of the task.
  pub hard_rejections-IsEligible :
      {found : Option CapabilityProbeResult}
      → hard_rejections registry now m e p level ≡ ok ([], found)
      → (probe : CapabilityProbeResult) × (found ≡ some probe)
        × (registry.latest_probe m.model_id ≡ ok (some probe))
        × IsEligible registry now m e p level probe
  unfolding hard_rejections
  hard_rejections-IsEligible {found} h =
      let (answer, asked, rest) = >>=-eq-ok (registry.latest_probe m.model_id) _ h in
      by_answer answer asked (ground arith) (ground arith)
    where
      by_answer :
          (answer : Option CapabilityProbeResult)
          → registry.latest_probe m.model_id ≡ ok answer
          → reasons registry now m e p level answer ≡ []
          → found ≡ answer
          → (probe : CapabilityProbeResult) × (found ≡ some probe)
            × (registry.latest_probe m.model_id ≡ ok (some probe))
            × IsEligible registry now m e p level probe
      by_answer none asked empty same = absurd (reasons-none empty)
      by_answer (some probe) asked empty same = (probe, same, asked, reasons-IsEligible probe empty)
