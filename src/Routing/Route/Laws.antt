-- ===== src/Routing/Route/Laws.antt =====
-- The decisions of `ModelRouter.route`, src/mathmodel_ai/routing/router.py.
use math_model_ai.Base.{
  ℕ, ◌≤◌, ◌≡◌, refl, sym, ap, ◌∙◌, subst, ◌⊎◌, inl, inr, String, Bool, true, false, not, ◌&&◌, ◌||◌,
  Option, none, some, List, arith, is_empty, is_some, if◌then◌else◌, Raise, ok, raise, ok-injective,
  ◌>>=◌,
}
use math_model_ai.Routing.Types.{
  EscalationLevel, RouteAction, TaskProfile, ModelProfile, ProviderName, Settings, RouteReason,
  RouteDecision,
}
use math_model_ai.Routing.Level.{value, base_level}
use math_model_ai.Routing.Level.Laws.{base_level_exact}
use math_model_ai.Routing.Eligibility.{Registry, Failure}
use math_model_ai.Routing.Registry.{for_human, route_registry}
use math_model_ai.Routing.Registry.Laws.{Backed, route_registry-execute}
use math_model_ai.Routing.Legacy.{route_legacy}
use math_model_ai.Routing.Legacy.Laws.{SelectsAvailable, route_legacy-execute}
use math_model_ai.Routing.Route.{
  RouteError, registry_models, configured_default_model_id, with_registry, route_among, route_model,
  route_at, route,
}

-- Behind a decision to execute stands a registered model, or an available provider.
abbrev pub IsBacked :
    Settings
    → List ProviderName
    → Option String
    → Option Registry
    → ℕ
    → TaskProfile
    → EscalationLevel
    → RouteDecision
    → Type 0
IsBacked settings available agent_name none now p level d = SelectsAvailable available d
IsBacked settings available agent_name (some r) now p level d =
    ((models : List ModelProfile) × (default : Option String) × (r.list_models ≡ ok models)
      × (configured_default_model_id settings (some r) ≡ ok default)
      × Backed r now p level models agent_name default d)
    ⊎ SelectsAvailable available d

-- A step returns a decision, which is of use if it is to execute.
abbrev Returns : (RouteDecision → Type 0) → Raise RouteError RouteDecision → Type 0
Returns P r = (d : RouteDecision) × (r ≡ ok d) × (d.action ≡ RouteAction.execute → P d)

module _ (digest : TaskProfile → String) (settings : Settings) (available : List ProviderName)
    (now : ℕ) (p : TaskProfile) (agent_name : Option String) where
  from_settings :
      (registry : Option Registry) (level : EscalationLevel) (d : RouteDecision)
      → SelectsAvailable available d
      → IsBacked settings available agent_name registry now p level d
  from_settings none level d h = h
  from_settings (some r) level d h = inr h

  with_registry-Returns :
      (registry : Option Registry) (level : EscalationLevel) (models : List ModelProfile)
      (default : Option String)
      → registry_models registry ≡ ok models
      → configured_default_model_id settings registry ≡ ok default
      → is_empty models ≡ false
      → Returns (IsBacked settings available agent_name registry now p level) (
          with_registry digest settings available registry now p agent_name level models default
            registry)
  with_registry-Returns none level models default h hd full = ground arith
  with_registry-Returns (some r) level models default h hd full = (
    route_registry digest r now p level models agent_name default,
    refl,
    λ g. inl (
      models,
      default,
      h,
      hd,
      route_registry-execute digest r now p level models default agent_name g,
    ),
  )

  module _ (registry : Option Registry) where
    route_among-Returns :
        (level : EscalationLevel) (models : List ModelProfile) (default : Option String)
        → registry_models registry ≡ ok models
        → configured_default_model_id settings registry ≡ ok default
        → Returns
            (IsBacked settings available agent_name registry now p level)
            (route_among digest settings available registry now p agent_name level models default)
    unfolding route_among for_human
    route_among-Returns level models default h hd =
        by_default (is_some default && is_empty models) (is_empty models) refl
      where
        made : Bool → Bool → Raise RouteError RouteDecision
        made absent empty =
            if absent
            then ok (record (for_human digest p RouteReason.default_model_absent) {
              recommended_model = default;
            })
            else if not empty
                && (is_some default || is_some p.preferred_model_id || is_some agent_name)
            then with_registry digest settings available registry now p agent_name level models
                default registry
            else ok (route_legacy digest settings available p level)

        legacy :
            Returns
              (IsBacked settings available agent_name registry now p level)
              (ok (route_legacy digest settings available p level))
        legacy = (
          route_legacy digest settings available p level,
          refl,
          λ g.
              from_settings registry level _
                (route_legacy-execute digest settings available p level g).0,
        )

        by_use :
            (use_registry : Bool)
            → (is_empty models ≡ false) ⊎ (use_registry ≡ false)
            → Returns (IsBacked settings available agent_name registry now p level) (
                if use_registry
                then with_registry digest settings available registry now p agent_name level models
                    default registry
                else ok (route_legacy digest settings available p level))
        by_use true (inl full) = with_registry-Returns registry level models default h hd full
        by_use true (inr e) = cc
        by_use false e = legacy

        by_default :
            (absent empty : Bool)
            → is_empty models ≡ empty
            → Returns
                (IsBacked settings available agent_name registry now p level)
                (made absent empty)
        by_default true empty e = (
          record (for_human digest p RouteReason.default_model_absent) {
            recommended_model = default;
          },
          refl,
          λ g. cc,
        )
        by_default false true e = by_use false (inr refl)
        by_default false false e = by_use _ (inl e)

    abbrev Backs : EscalationLevel → RouteDecision → Type 0
    Backs level d =
        (value level ≤ 5) × IsBacked settings available agent_name registry now p level d

    route_model-Returns :
        (level : EscalationLevel)
        → value level ≤ 5
        → Returns
            (Backs level)
            (route_model digest settings available registry now p agent_name level)
    unfolding route_model for_human
    route_model-Returns level low = by_models (registry_models registry) refl
      where
        made : Raise Failure (List ModelProfile × Option String) → Raise RouteError RouteDecision
        made answers = elim answers [
          | raise _ ↦ ok (for_human digest p RouteReason.registry_integrity_failure)
          | ok (models, default) ↦
              route_among digest settings available registry now p agent_name level models default
        ]

        failed :
            Returns (Backs level) (ok (for_human digest p RouteReason.registry_integrity_failure))
        failed = (for_human digest p RouteReason.registry_integrity_failure, refl, λ g. cc)

        by_default :
            (models : List ModelProfile)
            → registry_models registry ≡ ok models
            → (answer : Raise Failure (Option String))
            → configured_default_model_id settings registry ≡ answer
            → Returns (Backs level) (made (answer >>= λ default. ok (models, default)))
        by_default models h (raise _) hd = failed
        by_default models h (ok default) hd =
            let (d, same, backed) = route_among-Returns level models default h hd in
            (d, same, λ g. (low, backed g))

        by_models :
            (answer : Raise Failure (List ModelProfile))
            → registry_models registry ≡ answer
            → Returns (Backs level) (
                made (
                  answer >>= λ models.
                  (configured_default_model_id settings registry >>= λ default.
                  ok (models, default))))
        by_models (raise _) h = failed
        by_models (ok models) h =
            by_default models h (configured_default_model_id settings registry) refl

    route_at-Returns :
        (level : EscalationLevel)
        → Returns (Backs level) (route_at digest settings available registry now p agent_name level)
    unfolding route_at for_human
    route_at-Returns EscalationLevel.human_review =
        (for_human digest p RouteReason.escalation_exhausted, refl, λ g. cc)
    route_at-Returns EscalationLevel.multi_model_review = (
      record (for_human digest p RouteReason.multi_model_review_required) {
        level = EscalationLevel.multi_model_review;
        action = RouteAction.multi_model_review;
      },
      refl,
      λ g. cc,
    )
    route_at-Returns EscalationLevel.fast = route_model-Returns EscalationLevel.fast (omega arith)
    route_at-Returns EscalationLevel.balanced =
        route_model-Returns EscalationLevel.balanced (omega arith)
    route_at-Returns EscalationLevel.flagship_high =
        route_model-Returns EscalationLevel.flagship_high (omega arith)
    route_at-Returns EscalationLevel.flagship_xhigh =
        route_model-Returns EscalationLevel.flagship_xhigh (omega arith)
    route_at-Returns EscalationLevel.flagship_max =
        route_model-Returns EscalationLevel.flagship_max (omega arith)

    route-Returns :
        (level : EscalationLevel)
        → base_level p ≡ some level
        → Returns (Backs level) (route digest settings available registry now p agent_name)
    unfolding route
    route-Returns level h = rw (h, route) (route_at-Returns level)

    -- `route` returns a decision on every input: it raises neither on the level nor for want of a
    -- registry, whatever the registry answers or raises.
    pub route_total :
        (d : RouteDecision) × (route digest settings available registry now p agent_name ≡ ok d)
    route_total =
        let (level, found, _) = base_level_exact p in
        let (d, same, _) = route-Returns level found in (d, same)

    -- If `route` decides to execute, then the level of the task is at most `FLAGSHIP_MAX`, and one
    -- of two things stands behind the decision. Either it names a model that is registered, with
    -- the provider and the current probe that the registry gives for it, these meet every
    -- requirement of the task at that level, and a choice other than the preferred model is marked
    -- and was allowed, the preferred model being a registered one that was tried and refused. Or it
    -- names a provider of the settings that is available.
    pub route_execute :
        {d : RouteDecision}
        → route digest settings available registry now p agent_name ≡ ok d
        → d.action ≡ RouteAction.execute
        → (level : EscalationLevel) × (base_level p ≡ some level)
          × (value level ≤ 5)
          × IsBacked settings available agent_name registry now p level d
    route_execute {d} h g =
        let (level, found, _) = base_level_exact p in
        let (d', same, backs) = route-Returns level found in
        let is_d : d' ≡ d = ok-injective (sym same ∙ h) in
        let (low, backed) =
          subst (λ x. Backs level x) is_d (backs (ap (λ (x : RouteDecision). x.action) is_d ∙ g)) in
        (level, found, low, backed)
