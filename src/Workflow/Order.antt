-- ===== src/Workflow/Order.antt =====
-- Sequences of stages that `ensure_transition` of src/mathmodel_ai/reasoning/state_machine.py accepts.
use math_model_ai.Base.{
  ℕ, suc, ◌≤◌, ◌<◌, ◌≡◌, refl, inl, inr, Bool, true, false, List, [], ◌∷◌, Memᴰ, arith, ok, ◌≢◌,
  raise_if-eq-ok, >>=-eq-ok, contains-mem, Bool-cases, nat_beq, nat_beq_iff, all, all-mem, leb,
  leb→le, subst,
}
use math_model_ai.Workflow.{
  WorkflowStage, ingest, understand, data_stage, literature, explore, select, model, solve,
  validate, sensitivity, robustness, red_team, model_repair, paper, final_jury, submission, final,
  stage_eq, transitions, ensure_transition, follow, invalid_transition,
}

-- How far a stage is from the start. A repair goes back to the place of the model.
abbrev pub place : WorkflowStage → ℕ
place ingest = 0
place understand = 1
place explore = 2
place select = 3
place model = 4
place model_repair = 4
place solve = 5
place validate = 6
place sensitivity = 7
place robustness = 8
place red_team = 9
place paper = 10
place final_jury = 11
place submission = 12
place final = 13
place data_stage = 0
place literature = 0

-- The stages that present results: they come after the red team.
abbrev pub presents_results : WorkflowStage → Bool
presents_results paper = true
presents_results final_jury = true
presents_results submission = true
presents_results final = true
presents_results _ = false

-- One transition goes at most one place on.
place-transitions :
    (c : WorkflowStage) → all (λ t. leb (place t) (suc (place c))) (transitions c) ≡ true
unfolding transitions
place-transitions ingest = refl
place-transitions _ = refl

transition-mem :
    (c t : WorkflowStage) {u : Unit {0}} → ensure_transition c t ≡ ok u → Memᴰ t (transitions c)
unfolding ensure_transition
transition-mem c t h =
    contains-mem t _ (ground (arith, raise_if-eq-ok _ (invalid_transition c t) h))

place-step :
    (c t : WorkflowStage) {u : Unit {0}} → ensure_transition c t ≡ ok u → place t ≤ suc (place c)
place-step c t h = leb→le _ _ (all-mem _ _ (place-transitions c) (transition-mem c t h))

-- A sequence of stages goes through every place between its ends.
goes_through :
    (k : ℕ) (c : WorkflowStage) (path : List WorkflowStage) (s : WorkflowStage)
    → follow c path ≡ ok s
    → place c < k
    → k ≤ place s
    → (t : WorkflowStage) × Memᴰ t path × (place t ≡ k)
unfolding follow
goes_through k c [] s h lo hi = absurd (ground arith)
goes_through k c (t ∷ path) s h lo hi =
    let (u, step, rest) = >>=-eq-ok (ensure_transition c t) (λ _. follow t path) h in
    elim (Bool-cases (nat_beq (place t) k)) [
      | inl here ↦ (t, Memᴰ.head refl, (nat_beq_iff _ k).0 here)
      | inr other ↦
          let (v, m, e) = goes_through k t path s rest (ground (arith, place-step c t step)) hi in
          (v, Memᴰ.tail m, e)
    ]

places_before : (s : WorkflowStage) → presents_results s ≡ true → 10 ≤ place s
places_before s h = ground arith

at_place :
    (path : List WorkflowStage) (v : WorkflowStage) {t : WorkflowStage}
    → Memᴰ t path
    → t ≡ v
    → Memᴰ v path
at_place path v m e = subst (λ x. Memᴰ x path) e m

at_solve : (t : WorkflowStage) → place t ≡ place solve → t ≡ solve
at_solve t h = ground arith

at_validate : (t : WorkflowStage) → place t ≡ place validate → t ≡ validate
at_validate t h = ground arith

at_sensitivity : (t : WorkflowStage) → place t ≡ place sensitivity → t ≡ sensitivity
at_sensitivity t h = ground arith

at_robustness : (t : WorkflowStage) → place t ≡ place robustness → t ≡ robustness
at_robustness t h = ground arith

at_red_team : (t : WorkflowStage) → place t ≡ place red_team → t ≡ red_team
at_red_team t h = ground arith

module _ (path : List WorkflowStage) (s : WorkflowStage) (h : follow ingest path ≡ ok s)
    (late : presents_results s ≡ true) where
  passes :
      (v : WorkflowStage)
      → ((t : WorkflowStage) → place t ≡ place v → t ≡ v)
      → 0 < place v
      → place v ≤ 10
      → Memᴰ v path
  passes v alone lo hi =
      let (t, m, e) =
        goes_through (place v) ingest path s h lo (omega (arith, places_before s late)) in
      at_place path v m (alone t e)

  -- If the state machine accepts a sequence of stages from `INGEST`, and the last one is `PAPER`,
  -- `FINAL_JURY`, `SUBMISSION` or `FINAL`, then `SOLVE`, `VALIDATE`, `SENSITIVITY`, `ROBUSTNESS`
  -- and `RED_TEAM` are all in the sequence.
  pub results_come_after_checks :
      Memᴰ solve path
      × Memᴰ validate path
      × Memᴰ sensitivity path
      × Memᴰ robustness path
      × Memᴰ red_team path
  results_come_after_checks = (
    passes solve at_solve (omega arith) (omega arith),
    passes validate at_validate (omega arith) (omega arith),
    passes sensitivity at_sensitivity (omega arith) (omega arith),
    passes robustness at_robustness (omega arith) (omega arith),
    passes red_team at_red_team (omega arith) (omega arith),
  )

abbrev from_solve : List WorkflowStage
from_solve =
    validate ∷ sensitivity ∷ robustness ∷ red_team ∷ paper ∷ final_jury ∷ submission ∷ final ∷ []

-- A way to the end from each stage that has transitions.
pub way_to_final : WorkflowStage → List WorkflowStage
way_to_final ingest = understand ∷ explore ∷ select ∷ model ∷ solve ∷ from_solve
way_to_final understand = explore ∷ select ∷ model ∷ solve ∷ from_solve
way_to_final explore = select ∷ model ∷ solve ∷ from_solve
way_to_final select = model ∷ solve ∷ from_solve
way_to_final model = solve ∷ from_solve
way_to_final model_repair = solve ∷ from_solve
way_to_final solve = from_solve
way_to_final validate =
    sensitivity ∷ robustness ∷ red_team ∷ paper ∷ final_jury ∷ submission ∷ final ∷ []
way_to_final sensitivity = robustness ∷ red_team ∷ paper ∷ final_jury ∷ submission ∷ final ∷ []
way_to_final robustness = red_team ∷ paper ∷ final_jury ∷ submission ∷ final ∷ []
way_to_final red_team = paper ∷ final_jury ∷ submission ∷ final ∷ []
way_to_final paper = final_jury ∷ submission ∷ final ∷ []
way_to_final final_jury = submission ∷ final ∷ []
way_to_final submission = final ∷ []
way_to_final final = []
way_to_final data_stage = []
way_to_final literature = []

-- From every stage that has a transition the state machine accepts a way to `FINAL`.
pub every_stage_can_finish :
    (s : WorkflowStage) → transitions s ≢ [] → follow s (way_to_final s) ≡ ok final
unfolding follow way_to_final
every_stage_can_finish data_stage h = absurd (h refl)
every_stage_can_finish literature h = absurd (h refl)
every_stage_can_finish ingest h = refl
every_stage_can_finish _ h = refl
