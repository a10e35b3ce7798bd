-- ===== src/Submission/Corrections.antt =====
-- src/mathmodel_ai/submission/corrections.py: what a correction makes invalid. `normal` is
-- `item.strip().casefold().replace("-", "_")` and `occurs marker component` is `marker in component`: Python's.
pub mod AutoFix
pub mod Redone
use math_model_ai.Base.{
  ap, sym, arith, inl, inr, Memᴰ, Bool-cases, all-mem, mem-contains, ==_refl, String, Bool, true,
  false, not, ◌&&◌, ◌≡◌, refl, subst, List, [], ◌∷◌, map, any, contains, is_subset, ◌==◌, string_eq,
  Eq, eq_of_discrete, Raise, ok, raise, raise_if, ◌>>◌, >>=-eq-ok, raise_if-eq-ok, ok-injective,
  if◌then◌else◌, ==→≡, any-false_mem, contains-mem, &&-eq-true,
}

pub data CorrectionScope : Type 0 where
  format_only paper_only citation artifact code model data_change : CorrectionScope

unfoldable pub CorrectionScope-discrete : Discrete CorrectionScope
CorrectionScope-discrete = hlevel

instance abbrev pub scope_eq : Eq CorrectionScope
scope_eq = eq_of_discrete CorrectionScope-discrete

pub record CorrectionPlan : Type 0 where
  pub scope : CorrectionScope
  pub affected_components : List String
  pub requires_model_change : Bool
  pub requires_result_change : Bool
  pub requires_paper_change : Bool
  pub required_revalidation : List String

pub record InvalidationResult : Type 0 where
  pub invalidated_stages : List String
  pub jury_recheck_required : Bool
  pub submission_dirty : Bool

pub data CorrectionError : Type 0 where
  format_not_safe must_invalidate_model model_stage_missing : CorrectionError
  solve_stage_missing paper_stage_missing revalidation_exceeds : CorrectionError

abbrev pub safe_format_components : List String
safe_format_components =
    "spacing" ∷ "font" ∷ "line_break" ∷ "pagination" ∷ "filename" ∷ "reference_ordering" ∷ []

abbrev pub model_component_markers : List String
model_component_markers = "equation" ∷ "parameter" ∷ "constraint" ∷ "model" ∷ "objective" ∷ []

-- `_STAGES`
abbrev pub stages : CorrectionScope → List String
stages CorrectionScope.format_only = "PAPER" ∷ "FINAL_JURY" ∷ "SUBMISSION" ∷ []
stages CorrectionScope.paper_only = "PAPER" ∷ "FINAL_JURY" ∷ "SUBMISSION" ∷ []
stages CorrectionScope.citation = "PAPER" ∷ "FINAL_JURY" ∷ "SUBMISSION" ∷ []
stages CorrectionScope.artifact = "PAPER" ∷ "FINAL_JURY" ∷ "SUBMISSION" ∷ []
stages CorrectionScope.code = "SOLVE" ∷ "VALIDATE" ∷ "PAPER" ∷ "FINAL_JURY" ∷ "SUBMISSION" ∷ []
stages CorrectionScope.model =
    "MODEL" ∷ "SOLVE" ∷ "VALIDATE" ∷ "SENSITIVITY" ∷ "ROBUSTNESS" ∷ "RED_TEAM" ∷ "PAPER"
    ∷ "FINAL_JURY" ∷ "SUBMISSION" ∷ []
stages CorrectionScope.data_change =
    "DATA" ∷ "MODEL" ∷ "SOLVE" ∷ "VALIDATE" ∷ "PAPER" ∷ "FINAL_JURY" ∷ "SUBMISSION" ∷ []

module _ (normal : String → String) (occurs : String → String → Bool) where
  -- The normalised components: a set in the source, a list here, which the tests do not tell apart.
  abbrev pub components : CorrectionPlan → List String
  components plan = map normal plan.affected_components

  abbrev pub touches_model : List String → Bool
  touches_model names =
      any (λ component. any (λ marker. occurs marker component) model_component_markers) names

  -- `InvalidationEngine.evaluate`
  unfoldable pub evaluate : CorrectionPlan → Raise CorrectionError InvalidationResult
  unfolding CorrectionScope-discrete
  evaluate plan = do
    let invalid = stages plan.scope
    raise_if
        (plan.scope == CorrectionScope.format_only
          && not (is_subset (components plan) safe_format_components))
        format_not_safe
    raise_if (not (plan.scope == CorrectionScope.model) && touches_model (components plan))
        must_invalidate_model
    raise_if (plan.requires_model_change && not (contains "MODEL" invalid)) model_stage_missing
    raise_if (plan.requires_result_change && not (contains "SOLVE" invalid)) solve_stage_missing
    raise_if (plan.requires_paper_change && not (contains "PAPER" invalid)) paper_stage_missing
    raise_if (not (is_subset plan.required_revalidation invalid)) revalidation_exceeds
    ok (record {
      invalidated_stages = invalid;
      jury_recheck_required = true;
      submission_dirty = true;
    })

  -- `CorrectionWorkflow.validate_auto_fix`
  unfoldable pub validate_auto_fix : CorrectionPlan → Bool
  unfolding CorrectionScope-discrete
  validate_auto_fix plan =
      plan.scope == CorrectionScope.format_only
      && not plan.requires_model_change
      && not plan.requires_result_change
      && is_subset (components plan) safe_format_components
