-- ===== src/Routing/Legacy/Laws.antt =====
-- Routes from the settings, `_route_legacy` of src/mathmodel_ai/routing/router.py.
use math_model_ai.Base.{
  ◌≡◌, refl, ap, ◌∙◌, inl, inr, String, Bool, true, false, some, List, max, Memᴰ, arith, contains,
  contains-mem, if◌then◌else◌, Bool-cases,
}
use math_model_ai.Routing.Types.{
  EscalationLevel, RouteAction, TaskProfile, ProviderName, provider_name_eq, ModelTargetSettings,
  Settings, builtin, RouteDecision,
}
use math_model_ai.Routing.Level.{value, max_level}
use math_model_ai.Routing.Level.Laws.{value-max_level}
use math_model_ai.Routing.Legacy.{target_at, route_to_target, reads_multimodal, route_legacy}

-- The provider that a decision selects can be called.
abbrev pub SelectsAvailable : List ProviderName → RouteDecision → Type 0
SelectsAvailable available d =
    (name : ProviderName) × (d.selected_provider ≡ some (builtin name)) × Memᴰ name available

module _ (digest : TaskProfile → String) (settings : Settings) (available : List ProviderName) where
  route_to_target-execute :
      (p : TaskProfile) (level : EscalationLevel) (target : ModelTargetSettings)
      → (route_to_target digest settings available p level target).action ≡ RouteAction.execute
      → SelectsAvailable available (route_to_target digest settings available p level target)
        × ((route_to_target digest settings available p level target).level ≡ level)
        × ((route_to_target digest settings available p level target).legacy_config_used ≡ true)
  unfolding route_to_target
  route_to_target-execute p level target h =
      elim (Bool-cases (contains target.provider available)) [
        | inl there ↦ rw there ((target.provider, refl, contains-mem _ available there), refl, refl)
        | inr absent ↦ elim (Bool-cases (contains settings.default_provider available)) [
          | inl there ↦
              rw (absent, there)
                ((settings.default_provider, refl, contains-mem _ available there), refl, refl)
          | inr gone ↦ absurd (ground arith)
        ]
      ]

  -- If `_route_legacy` decides to execute, then the provider that it selects is one of those that
  -- are available. The level of the decision is the one that was asked for, raised to
  -- `FLAGSHIP_XHIGH` where data is understood from images or a long context.
  pub route_legacy-execute :
      (p : TaskProfile) (level : EscalationLevel)
      → (route_legacy digest settings available p level).action ≡ RouteAction.execute
      → SelectsAvailable available (route_legacy digest settings available p level)
        × (value (route_legacy digest settings available p level).level
            ≡ (if reads_multimodal p then max (value level) 4 else value level))
        × ((route_legacy digest settings available p level).legacy_config_used ≡ true)
  unfolding route_legacy
  route_legacy-execute p level h = by_modality (reads_multimodal p) h
    where
      made : Bool → RouteDecision
      made multimodal =
          if multimodal
          then route_to_target digest settings available p
              (max_level level EscalationLevel.flagship_xhigh) settings.model_catalog.multimodal
          else route_to_target digest settings available p level (target_at settings level)

      by_modality :
          (multimodal : Bool)
          → (made multimodal).action ≡ RouteAction.execute
          → SelectsAvailable available (made multimodal)
            × (value (made multimodal).level
                ≡ (if multimodal then max (value level) 4 else value level))
            × ((made multimodal).legacy_config_used ≡ true)
      by_modality true g =
          let (selects, at, legacy) =
            route_to_target-execute p (max_level level EscalationLevel.flagship_xhigh)
              settings.model_catalog.multimodal g in
          (selects, ap value at ∙ value-max_level level EscalationLevel.flagship_xhigh, legacy)
      by_modality false g =
          let (selects, at, legacy) =
            route_to_target-execute p level (target_at settings level) g in
          (selects, ap value at, legacy)
