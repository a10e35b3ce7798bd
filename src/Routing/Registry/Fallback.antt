-- ===== src/Routing/Registry/Fallback.antt =====
-- Why `_route_registry` of src/mathmodel_ai/routing/router.py falls back from the preferred model.
use mathlib.Core.Bool.{true≢false}
use mathlib.Core.Option.{some-injective}
use math_model_ai.Base.{
  ℕ, ◌≡◌, ◌≢◌, refl, sym, ap, ◌∙◌, subst, inl, inr, Option-cases, ==_refl, String, true, false, not,
  ◌&&◌, Option, none, some, List, [], Memᴰ, arith, ◌==◌, string_eq, option_eq, ==→≡, Bool-cases,
  is_some,
}
use math_model_ai.Base.Dict
use math_model_ai.Base.Dict.{Dict}
use math_model_ai.Routing.Types.{
  EscalationLevel, TaskProfile, ProviderEndpoint, ModelProfile, CapabilityProbeResult,
  AgentRoutePolicy, Rejection, rejected_because, RouteDecision,
}
use math_model_ai.Routing.Eligibility.{Registry}
use math_model_ai.Routing.Registry.{
  by_id, refused, attempt, candidates, choose, for_model, is_known, or_text,
}
use math_model_ai.Routing.Registry.Choice.{by_id-mem}
use math_model_ai.Routing.Registry.Refusal.{preferred-refused}

module _ (registry : Registry) (now : ℕ) (p : TaskProfile) (level : EscalationLevel)
    (models : List ModelProfile) where
  -- How a decision for a model answers what is preferred: it is the preferred model, or none is preferred, or it is
  -- a fallback from a registered model that was tried and refused.
  pub data Follows (d : RouteDecision) (m : ModelProfile) : Option String → Type 0 where
    at_will :
        d.recommended_model ≡ some m.model_id
        → d.fallback_used ≡ false
        → d.fallback_reason ≡ none
        → Follows d m none
    as_preferred :
        d.recommended_model ≡ some m.model_id
        → d.fallback_used ≡ false
        → d.fallback_reason ≡ none
        → Follows d m (some m.model_id)
    fell_back :
        {q : String} (x : ModelProfile) (reasons : List Rejection)
        → q ≢ m.model_id
        → Memᴰ x models
        → x.model_id ≡ q
        → attempt registry now p level x ≡ refused reasons
        → p.allow_model_fallback ≡ true
        → (q ≢ "" → d.recommended_model ≡ some q)
        → d.fallback_used ≡ true
        → d.fallback_reason ≡ some (rejected_because reasons)
        → Follows d m (some q)

  -- Behind a model that is preferred and was not selected stands one that was refused.
  abbrev pub IsRefused : Dict String (List Rejection) → String → Type 0
  IsRefused rejected q =
      (x : ModelProfile) × (reasons : List Rejection) × Memᴰ x models
      × (x.model_id ≡ q)
      × (attempt registry now p level x ≡ refused reasons)
      × (Dict.lookup q rejected ≡ some reasons)

known-found :
    (models : List ModelProfile) (q : String)
    → is_known models (some q) ≡ true
    → (x : ModelProfile) × (Dict.lookup q (by_id models) ≡ some x)
known-found models q h = elim (Option-cases (Dict.lookup q (by_id models))) [
  | inl absent ↦ absurd (true≢false (sym h ∙ ap is_some absent))
  | inr found ↦ found
]

get_or-recorded :
    (q : String) (default : List Rejection) (rejected : Dict String (List Rejection))
    {reasons : List Rejection}
    → Dict.lookup q rejected ≡ some reasons
    → Dict.get_or q default rejected ≡ reasons
get_or-recorded q default rejected h = rw (h, Dict.get_or)

or_text-same : (id : String) → or_text (some id) (some id) ≡ some id
or_text-same id = elim (Bool-cases (id == "")) [ inl h ↦ rw h | inr h ↦ rw h ]

or_text-own : (id : String) (second : Option String) → id ≢ "" → or_text (some id) second ≡ some id
or_text-own id second full = elim (Bool-cases (id == "")) [
  | inl h ↦ absurd (full (==→≡ id "" h))
  | inr h ↦ rw h
]

module _ (digest : TaskProfile → String) where
  pub for_model-Follows :
      (registry : Registry) (now : ℕ) (p : TaskProfile) (level : EscalationLevel)
      (models : List ModelProfile) (preferred : Option String)
      (rejected : Dict String (List Rejection)) (m : ModelProfile) (e : ProviderEndpoint)
      (probe : CapabilityProbeResult)
      → (is_some preferred && not (some m.model_id == preferred) && not p.allow_model_fallback)
        ≡ false
      → ((q : String)
          → preferred ≡ some q
          → q ≢ m.model_id
          → IsRefused registry now p level models rejected q)
      → Follows registry now p level models
          (for_model digest p level preferred rejected m e probe)
          m
          preferred
  unfolding for_model
  for_model-Follows registry now p level models none rejected m e probe h tried =
      Follows.at_will refl refl refl
  for_model-Follows registry now p level models (some q) rejected m e probe h tried =
      elim (Bool-cases (m.model_id == q)) [
        | inl same ↦
            subst
              (λ j.
                Follows registry now p level models
                  (for_model digest p level (some j) rejected m e probe) m (some j))
              (==→≡ m.model_id q same)
              (Follows.as_preferred (or_text-same m.model_id) (rw (==_refl m.model_id))
                (rw (==_refl m.model_id)))
        | inr other ↦
            let differs : q ≢ m.model_id =
              λ e. absurd (true≢false (sym (rw e (==_refl m.model_id)) ∙ other)) in
            let (x, reasons, there, named, was_refused, recorded) = tried q refl differs in
            Follows.fell_back x reasons differs there named was_refused (ground arith)
              (λ full. or_text-own q (some m.model_id) full) (rw other)
              (rw other
                (ap (λ r. some (rejected_because r)) (get_or-recorded q _ rejected recorded)))
      ]

module _ (registry : Registry) (now : ℕ) (p : TaskProfile) (level : EscalationLevel)
    (models : List ModelProfile) where
  pub tried :
      (preferred : Option String) (policy : Option AgentRoutePolicy)
      {rejected : Dict String (List Rejection)} {m : ModelProfile} {e : ProviderEndpoint}
      {probe : CapabilityProbeResult}
      → is_known models preferred ≡ true
      → choose registry now p level (candidates p level models preferred policy) []
        ≡ (rejected, some (m, e, probe))
      → (q : String) → preferred ≡ some q
      → q ≢ m.model_id
      → IsRefused registry now p level models rejected q
  tried none policy known h q e other = cc
  tried (some k) policy {rejected} {m} known h q e other =
      let is_q : k ≡ q = some-injective k q e in
      subst (λ j. IsRefused registry now p level models rejected j) is_q
        (let (x, found) = known-found models k known in
          let (there, named) = by_id-mem models k found in
          let (reasons, was_refused, recorded) =
            preferred-refused registry now p level models k policy found h
              (λ same. other (sym is_q ∙ same)) in
          (x, reasons, there, named, was_refused, recorded))
