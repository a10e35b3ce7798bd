-- ===== src/Routing/Legacy.antt =====
-- src/mathmodel_ai/routing/router.py, `_target` and `_route_legacy`: the choice from the settings,
-- where no model is registered.
pub mod Laws
use math_model_ai.Base.{
  ◌≤◌, String, Bool, true, false, not, ◌&&◌, ◌||◌, Option, none, some, List, [], contains, ltb, leb,
  if◌then◌else◌,
}
use math_model_ai.Routing.Types.{
  TaskType, data_understanding, EscalationLevel, RouteAction, TaskProfile, provider_name_eq,
  ProviderName, ProviderName-discrete, ModelTargetSettings, Settings, builtin, FallbackReason,
  catalog_provider_unavailable, RouteReason, providers_unavailable, selected_level, RouteDecision,
}
use math_model_ai.Routing.Level.{max_level, cap_reasoning_effort}
use math_model_ai.Routing.Registry.{for_human}

-- `_target`, where a level above `FLAGSHIP_MAX` reads as that one.
unfoldable pub target_at : Settings → EscalationLevel → ModelTargetSettings
target_at settings EscalationLevel.fast = settings.model_catalog.fast
target_at settings EscalationLevel.balanced = settings.model_catalog.balanced
target_at settings EscalationLevel.flagship_high = settings.model_catalog.flagship_high
target_at settings EscalationLevel.flagship_xhigh = settings.model_catalog.flagship_xhigh
target_at settings EscalationLevel.flagship_max = settings.model_catalog.flagship_max
target_at settings EscalationLevel.multi_model_review = settings.model_catalog.flagship_max
target_at settings EscalationLevel.human_review = settings.model_catalog.flagship_max

abbrev pub is_data_understanding : TaskType → Bool
is_data_understanding data_understanding = true
is_data_understanding _ = false

abbrev pub reads_multimodal : TaskProfile → Bool
reads_multimodal p =
    is_data_understanding p.task_type
    && (ltb 0 p.multimodal_requirement || leb 4 p.long_context_requirement)

module _ (digest : TaskProfile → String) (settings : Settings) (available : List ProviderName) where
  -- The decision at a level for a target of the catalog.
  unfoldable pub route_to_target :
      TaskProfile → EscalationLevel → ModelTargetSettings → RouteDecision
  unfolding for_human cap_reasoning_effort ProviderName-discrete
  route_to_target p level target =
      let fallback = not (contains target.provider available) in
      let requested = cap_reasoning_effort target.reasoning p.maximum_reasoning_effort in
      if fallback && not (contains settings.default_provider available)
      then record (for_human digest p providers_unavailable) {
        recommended_provider = some (builtin target.provider);
        recommended_model = some target.model;
        recommended_reasoning = some requested;
        legacy_config_used = true;
      }
      else record (for_human digest p (selected_level level fallback)) {
        level = level;
        action = RouteAction.execute;
        recommended_provider = some (builtin target.provider);
        recommended_model = some target.model;
        recommended_reasoning = some requested;
        selected_provider =
            some (builtin (if fallback then settings.default_provider else target.provider));
        selected_model = some (if fallback then settings.default_provider_model else target.model);
        selected_reasoning = if fallback then none else some requested;
        fallback_used = fallback;
        fallback_reason = if fallback then some catalog_provider_unavailable else none;
        legacy_config_used = true;
      }

  -- `_route_legacy`
  unfoldable pub route_legacy : TaskProfile → EscalationLevel → RouteDecision
  unfolding route_to_target target_at
  route_legacy p level =
      if reads_multimodal p
      then route_to_target p (max_level level EscalationLevel.flagship_xhigh)
          settings.model_catalog.multimodal
      else route_to_target p level (target_at settings level)
