-- ===== src/Submission/Corrections/Redone.antt =====
-- What `InvalidationEngine.evaluate` of src/mathmodel_ai/submission/corrections.py invalidates, beside what a plan
-- asks for.
use math_model_ai.Base.{
  ap, sym, arith, inl, inr, Memᴰ, Bool-cases, all-mem, mem-contains, ==_refl, String, Bool, true,
  false, not, ◌&&◌, ◌≡◌, refl, subst, List, [], ◌∷◌, map, any, contains, is_subset, ◌==◌, string_eq,
  ok, raise_if, >>=-eq-ok, raise_if-eq-ok, ok-injective, ==→≡, any-false_mem, contains-mem,
}
use math_model_ai.Submission.Corrections.{
  CorrectionScope, scope_eq, CorrectionPlan, InvalidationResult, CorrectionError,
  safe_format_components, model_component_markers, stages, components, touches_model, evaluate,
}

-- Everything that is computed from the model is to be done again.
pub record IsRemodelled (invalidated : List String) : Type 0 where
  pub model : Memᴰ "MODEL" invalidated
  pub solve : Memᴰ "SOLVE" invalidated
  pub validate : Memᴰ "VALIDATE" invalidated
  pub sensitivity : Memᴰ "SENSITIVITY" invalidated
  pub robustness : Memᴰ "ROBUSTNESS" invalidated
  pub red_team : Memᴰ "RED_TEAM" invalidated

module _ (normal : String → String) (occurs : String → String → Bool) where
  -- The name of a component is that of a part of the model.
  pub data IsModelPart (component : String) : Type 0 where
    equation : occurs "equation" (normal component) ≡ true → IsModelPart component
    parameter : occurs "parameter" (normal component) ≡ true → IsModelPart component
    constraint : occurs "constraint" (normal component) ≡ true → IsModelPart component
    whole : occurs "model" (normal component) ≡ true → IsModelPart component
    objective : occurs "objective" (normal component) ≡ true → IsModelPart component

  -- What a correction that is let through has invalidated.
  pub record IsRedone (plan : CorrectionPlan) (r : InvalidationResult) : Type 0 where
    pub of_components :
        (component : String)
        → Memᴰ component plan.affected_components
        → IsModelPart component
        → IsRemodelled r.invalidated_stages
    pub of_format :
        (component : String)
        → Memᴰ component plan.affected_components
        → plan.scope ≡ CorrectionScope.format_only
        → Memᴰ (normal component) safe_format_components
    pub of_model : plan.requires_model_change ≡ true → Memᴰ "MODEL" r.invalidated_stages
    pub of_result : plan.requires_result_change ≡ true → Memᴰ "SOLVE" r.invalidated_stages
    pub revalidated :
        (stage : String) → Memᴰ stage plan.required_revalidation → Memᴰ stage r.invalidated_stages
    pub after_model : Memᴰ "MODEL" r.invalidated_stages → Memᴰ "SOLVE" r.invalidated_stages
    pub after_solve : Memᴰ "SOLVE" r.invalidated_stages → Memᴰ "VALIDATE" r.invalidated_stages
    pub paper : Memᴰ "PAPER" r.invalidated_stages
    pub jury : Memᴰ "FINAL_JURY" r.invalidated_stages
    pub submission : Memᴰ "SUBMISSION" r.invalidated_stages
    pub recheck : r.jury_recheck_required ≡ true
    pub dirty : r.submission_dirty ≡ true

  last_stages :
      (s : CorrectionScope)
      → (contains "PAPER" (stages s) ≡ true)
        × (contains "FINAL_JURY" (stages s) ≡ true)
        × (contains "SUBMISSION" (stages s) ≡ true)
  last_stages CorrectionScope.format_only = (refl, refl, refl)
  last_stages CorrectionScope.paper_only = (refl, refl, refl)
  last_stages CorrectionScope.citation = (refl, refl, refl)
  last_stages CorrectionScope.artifact = (refl, refl, refl)
  last_stages CorrectionScope.code = (refl, refl, refl)
  last_stages CorrectionScope.model = (refl, refl, refl)
  last_stages CorrectionScope.data_change = (refl, refl, refl)

  next_stages :
      (s : CorrectionScope)
      → (contains "MODEL" (stages s) ≡ true → contains "SOLVE" (stages s) ≡ true)
        × (contains "SOLVE" (stages s) ≡ true → contains "VALIDATE" (stages s) ≡ true)
  next_stages CorrectionScope.format_only = (λ h. cc, λ h. cc)
  next_stages CorrectionScope.paper_only = (λ h. cc, λ h. cc)
  next_stages CorrectionScope.citation = (λ h. cc, λ h. cc)
  next_stages CorrectionScope.artifact = (λ h. cc, λ h. cc)
  next_stages CorrectionScope.code = (λ h. cc, λ h. refl)
  next_stages CorrectionScope.model = (λ h. refl, λ h. refl)
  next_stages CorrectionScope.data_change = (λ h. refl, λ h. refl)

  of_stage :
      (s : CorrectionScope) (stage : String)
      → contains stage (stages s) ≡ true
      → Memᴰ stage (stages s)
  of_stage s stage h = contains-mem stage (stages s) h

  model-IsRemodelled : IsRemodelled (stages CorrectionScope.model)
  model-IsRemodelled = record {
    model = of_stage CorrectionScope.model "MODEL" refl;
    solve = of_stage CorrectionScope.model "SOLVE" refl;
    validate = of_stage CorrectionScope.model "VALIDATE" refl;
    sensitivity = of_stage CorrectionScope.model "SENSITIVITY" refl;
    robustness = of_stage CorrectionScope.model "ROBUSTNESS" refl;
    red_team = of_stage CorrectionScope.model "RED_TEAM" refl;
  }

  not-false : (b : Bool) → not b ≡ false → b ≡ true
  not-false true h = refl
  not-false false h = cc

  -- Where a test and a demand are not both met, the test decides.
  met : (asked held : Bool) → (asked && not held) ≡ false → asked ≡ true → held ≡ true
  met true held h e = not-false held h
  met false held h e = cc

  mem-map_normal :
      (names : List String) {a : String} → Memᴰ a names → Memᴰ (normal a) (map normal names)
  mem-map_normal [] m = elim m [ ]
  mem-map_normal (n ∷ names) (Memᴰ.head e) = Memᴰ.head (ap normal e)
  mem-map_normal (n ∷ names) (Memᴰ.tail m) = Memᴰ.tail (mem-map_normal names m)

  IsModelPart-marker :
      {a : String}
      → IsModelPart a
      → any (λ marker. occurs marker (normal a)) model_component_markers ≡ true
  IsModelPart-marker (IsModelPart.equation h) = ground arith
  IsModelPart-marker (IsModelPart.parameter h) = ground arith
  IsModelPart-marker (IsModelPart.constraint h) = ground arith
  IsModelPart-marker (IsModelPart.whole h) = ground arith
  IsModelPart-marker (IsModelPart.objective h) = ground arith

  -- A correction that touches the model and is let through has the scope of the model.
  touches-scope :
      (plan : CorrectionPlan) {a : String}
      → (not (plan.scope == CorrectionScope.model)
          && touches_model normal occurs (components normal occurs plan))
        ≡ false
      → Memᴰ a plan.affected_components
      → IsModelPart a
      → plan.scope ≡ CorrectionScope.model
  touches-scope plan {a} h m part = elim (Bool-cases (plan.scope == CorrectionScope.model)) [
    | inl same ↦ ==→≡ _ _ same
    | inr other ↦
        let untouched : touches_model normal occurs (components normal occurs plan) ≡ false =
          rw other at h in
        let unmarked =
          any-false_mem
            (λ component. any (λ marker. occurs marker component) model_component_markers)
            (components normal occurs plan) untouched (mem-map_normal plan.affected_components m) in
        cc (IsModelPart-marker part)
  ]

  -- If `evaluate` lets a correction through, then these hold. If the normalised name of an affected component has a
  -- marker of the model in it, which is `equation`, `parameter`, `constraint`, `model` or `objective`, then MODEL,
  -- SOLVE, VALIDATE, SENSITIVITY, ROBUSTNESS and RED_TEAM are invalidated. If the scope is FORMAT_ONLY, then every
  -- affected component is a safe one. MODEL is invalidated where the plan changes the model, SOLVE where it changes
  -- results, and so is every stage that it wants validated again. With MODEL goes SOLVE, and with SOLVE goes
  -- VALIDATE. The paper, the jury's decision and the submission are invalidated always, the jury is to check again,
  -- and the submission is marked as changed.
  pub evaluate-IsRedone :
      (plan : CorrectionPlan) {r : InvalidationResult}
      → evaluate normal occurs plan ≡ ok r
      → IsRedone plan r
  unfolding evaluate
  evaluate-IsRedone plan {r} h =
      let (_, t1, h1) =
        >>=-eq-ok
          (raise_if
            (plan.scope == CorrectionScope.format_only
              && not (is_subset (components normal occurs plan) safe_format_components))
            CorrectionError.format_not_safe)
          _ h in
      let (_, t2, h2) =
        >>=-eq-ok
          (raise_if
            (not (plan.scope == CorrectionScope.model)
              && touches_model normal occurs (components normal occurs plan))
            CorrectionError.must_invalidate_model)
          _ h1 in
      let (_, t3, h3) =
        >>=-eq-ok
          (raise_if (plan.requires_model_change && not (contains "MODEL" (stages plan.scope)))
            CorrectionError.model_stage_missing)
          _ h2 in
      let (_, t4, h4) =
        >>=-eq-ok
          (raise_if (plan.requires_result_change && not (contains "SOLVE" (stages plan.scope)))
            CorrectionError.solve_stage_missing)
          _ h3 in
      let (_, t5, h5) =
        >>=-eq-ok
          (raise_if (plan.requires_paper_change && not (contains "PAPER" (stages plan.scope)))
            CorrectionError.paper_stage_missing)
          _ h4 in
      let (_, t6, h6) =
        >>=-eq-ok
          (raise_if (not (is_subset plan.required_revalidation (stages plan.scope)))
            CorrectionError.revalidation_exceeds)
          _ h5 in
      let (p, j, d) = last_stages plan.scope in
      let (solve, validate) = next_stages plan.scope in
      let stage = of_stage plan.scope in
      subst (λ x. IsRedone plan x) (ok-injective h6)
        (record {
          of_components = λ a. λ m. λ part.
              subst (λ k. IsRemodelled (stages k))
                (sym (touches-scope plan (raise_if-eq-ok _ _ t2) m part)) model-IsRemodelled;
          of_format = λ a. λ m. λ format. contains-mem (normal a) safe_format_components (
              all-mem (λ n. contains n safe_format_components) (components normal occurs plan)
                (met (plan.scope == CorrectionScope.format_only) _ (raise_if-eq-ok _ _ t1)
                  (rw format (==_refl CorrectionScope.format_only)))
                (mem-map_normal plan.affected_components m));
          of_model = λ asked. stage "MODEL" (met _ _ (raise_if-eq-ok _ _ t3) asked);
          of_result = λ asked. stage "SOLVE" (met _ _ (raise_if-eq-ok _ _ t4) asked);
          revalidated = λ k. λ m. stage k (
              all-mem (λ n. contains n (stages plan.scope)) plan.required_revalidation
                (not-false _ (raise_if-eq-ok _ _ t6)) m);
          after_model = λ m. stage "SOLVE" (solve (mem-contains (stages plan.scope) m));
          after_solve = λ m. stage "VALIDATE" (validate (mem-contains (stages plan.scope) m));
          paper = stage "PAPER" p;
          jury = stage "FINAL_JURY" j;
          submission = stage "SUBMISSION" d;
          recheck = refl;
          dirty = refl;
        })
