-- ===== src/Submission/Corrections/AutoFix.antt =====
-- `CorrectionWorkflow.validate_auto_fix` beside `InvalidationEngine.evaluate`, of
-- src/mathmodel_ai/submission/corrections.py.
use math_model_ai.Base.{
  String, Bool, true, false, not, ◌&&◌, ◌≡◌, refl, List, [], ◌∷◌, any, contains, is_subset, ◌==◌,
  string_eq, ok, raise, raise_if, ◌>>◌, if◌then◌else◌, ==→≡, any-false_mem, contains-mem,
  &&-eq-true,
}
use math_model_ai.Submission.Corrections.{
  CorrectionScope, scope_eq, CorrectionPlan, InvalidationResult, CorrectionError,
  safe_format_components, model_component_markers, stages, components, touches_model, evaluate,
  validate_auto_fix,
}

module _ (normal : String → String) (occurs : String → String → Bool) where
  not-true : (b : Bool) → not b ≡ true → b ≡ false
  not-true true h = cc
  not-true false h = refl

  touches-subset :
      (known names : List String)
      → touches_model normal occurs known ≡ false
      → is_subset names known ≡ true
      → touches_model normal occurs names ≡ false
  touches-subset known [] h s = refl
  touches-subset known (n ∷ names) h s =
      let (here, there) = &&-eq-true (contains n known) (is_subset names known) s in
      rw (
        any-false_mem (λ component. any (λ marker. occurs marker component) model_component_markers)
            known h (contains-mem n known here),
        touches-subset known names h there,
      )

  last_two_tests :
      (paper within : Bool) (e e' : CorrectionError) (r : InvalidationResult)
      → (raise_if (paper && false) e >> (raise_if (not within) e' >> ok r))
        ≡ (if within then ok r else raise e')
  last_two_tests true true e e' r = refl
  last_two_tests true false e e' r = refl
  last_two_tests false true e e' r = refl
  last_two_tests false false e e' r = refl

  -- A correction that may be fixed automatically is let through, and invalidates the paper, the jury's decision and
  -- the submission, unless it wants another stage validated again; provided that no marker of the model occurs
  -- in a safe component's name.
  pub validate_auto_fix-evaluate :
      (plan : CorrectionPlan)
      → touches_model normal occurs safe_format_components ≡ false
      → validate_auto_fix normal occurs plan ≡ true
      → evaluate normal occurs plan ≡ (
          if is_subset plan.required_revalidation (stages CorrectionScope.format_only)
          then ok (record {
            invalidated_stages = stages CorrectionScope.format_only;
            jury_recheck_required = true;
            submission_dirty = true;
          })
          else raise CorrectionError.revalidation_exceeds)
  unfolding evaluate validate_auto_fix
  validate_auto_fix-evaluate plan clean h =
      let (h1, safe) =
        &&-eq-true
          (plan.scope == CorrectionScope.format_only
            && not plan.requires_model_change
            && not plan.requires_result_change)
          (is_subset (components normal occurs plan) safe_format_components) h in
      let (h2, no_result) =
        &&-eq-true (plan.scope == CorrectionScope.format_only && not plan.requires_model_change)
          (not plan.requires_result_change) h1 in
      let (format, no_model) =
        &&-eq-true (plan.scope == CorrectionScope.format_only) (not plan.requires_model_change)
          h2 in
      let untouched =
        touches-subset safe_format_components (components normal occurs plan) clean safe in
      finish (==→≡ _ _ format) (not-true _ no_model) (not-true _ no_result) safe untouched
    where
      finish :
          plan.scope ≡ CorrectionScope.format_only
          → plan.requires_model_change ≡ false
          → plan.requires_result_change ≡ false
          → is_subset (components normal occurs plan) safe_format_components ≡ true
          → touches_model normal occurs (components normal occurs plan) ≡ false
          → evaluate normal occurs plan ≡ (
              if is_subset plan.required_revalidation (stages CorrectionScope.format_only)
              then ok (record {
                invalidated_stages = stages CorrectionScope.format_only;
                jury_recheck_required = true;
                submission_dirty = true;
              })
              else raise CorrectionError.revalidation_exceeds)
      finish format no_model no_result safe untouched =
          rw (format, no_model, no_result, safe, untouched)
            (last_two_tests plan.requires_paper_change _ _ _ _)
