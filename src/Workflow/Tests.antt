-- ===== src/Workflow/Tests.antt =====
-- Runs of the state machine.
use math_model_ai.Base.{◌≡◌, ◌≢◌, refl, List, [], ◌∷◌, Memᴰ, ok, raise}
use math_model_ai.Workflow.{
  WorkflowStage, ingest, understand, explore, select, model, solve, model_repair, validate,
  sensitivity, robustness, red_team, paper, final, invalid_transition, transitions, follow,
}
use math_model_ai.Workflow.Order.{results_come_after_checks, every_stage_can_finish, way_to_final}

skipping_is_refused :
    follow ingest (understand ∷ explore ∷ paper ∷ []) ≡ raise (invalid_transition explore paper)
unfolding follow
skipping_is_refused = refl

abbrev accepted : List WorkflowStage
accepted =
    understand ∷ explore ∷ select ∷ model ∷ solve ∷ validate ∷ sensitivity ∷ robustness ∷ red_team
    ∷ model_repair ∷ solve ∷ validate ∷ sensitivity ∷ robustness ∷ red_team ∷ paper ∷ []

repair_is_accepted : follow ingest accepted ≡ ok paper
unfolding follow
repair_is_accepted = refl

results_come_after_checks_example :
    Memᴰ solve accepted
    × Memᴰ validate accepted
    × Memᴰ sensitivity accepted
    × Memᴰ robustness accepted
    × Memᴰ red_team accepted
results_come_after_checks_example = results_come_after_checks accepted paper repair_is_accepted refl

repair_has_transitions : transitions model_repair ≢ []
unfolding transitions
repair_has_transitions h = cc

every_stage_can_finish_example : follow model_repair (way_to_final model_repair) ≡ ok final
every_stage_can_finish_example = every_stage_can_finish model_repair repair_has_transitions
