-- ===== src/Gates/Model/Errors.antt =====
-- The errors of `model_quality_gate` of src/mathmodel_ai/mathematical/quality_gates.py, against its checks.
use math_model_ai.Base.{
  ◌≡◌, refl, ap₂, ◌∙◌, String, Bool, true, false, ◌&&◌, List, [], ◌∷◌, ◌++◌, any-append, all,
  is_empty, arith,
}
use math_model_ai.Model.{UnitCheckStatus, EquationDefinition, MathematicalModel}
use math_model_ai.Problem.{ProblemState}
use math_model_ai.Symbols.Types.{RegistryIssue, is_critical, is_valid}
use math_model_ai.Symbols.Registry.{SymbolRegistry}
use math_model_ai.Symbols.Entries.{Entries}
use math_model_ai.Gates.Checks.{passed, failed_checks-is_empty}
use math_model_ai.Gates.Model.{
  prefixed, issue_texts, unsupported, unresolved_critical, model_checks, model_errors,
}

pub append-is_empty : (xs ys : List String) → is_empty (xs ++ ys) ≡ (is_empty xs && is_empty ys)
append-is_empty [] ys = refl
append-is_empty (x ∷ xs) ys = refl

pub prefixed-is_empty :
    (prefix : String) (xs : List String) → is_empty (prefixed prefix xs) ≡ is_empty xs
prefixed-is_empty prefix [] = refl
prefixed-is_empty prefix (x ∷ xs) = refl

issue_texts-is_empty :
    (issues : List RegistryIssue) → is_empty (issue_texts true issues) ≡ is_valid issues
issue_texts-is_empty [] = refl
issue_texts-is_empty (i ∷ issues) = ground (arith, issue_texts-is_empty issues)

implied : (a b : Bool) → (a ≡ true → b ≡ true) → (a && b) ≡ a
implied true b h = h refl
implied false b h = refl

module _ {A : Type 0} (m : MathematicalModel A) (state : ProblemState) (symbols : SymbolRegistry A)
    (equations : Entries (EquationDefinition A)) (status : UnitCheckStatus) where
  abbrev details : Bool
  details =
      (is_valid symbols.issues && is_valid equations.issues)
      && (is_empty (unresolved_critical m state) && is_empty (unsupported m.assumptions))

  -- Each further error comes with a check that failed.
  details-passed :
      all passed (model_checks m state symbols equations status) ≡ true → details ≡ true
  unfolding model_checks
  details-passed h = ground arith

  -- The gate has no error exactly when all of its checks passed.
  pub model_errors-passed :
      is_empty (model_errors m state symbols equations status)
      ≡ all passed (model_checks m state symbols equations status)
  unfolding model_errors
  model_errors-passed =
      let issues : is_valid (symbols.issues ++ equations.issues)
          ≡ (is_valid symbols.issues && is_valid equations.issues) =
        ground (arith, any-append is_critical symbols.issues equations.issues) in
      let both = λ (p q : Bool). p && q in
      append-is_empty _ _
      ∙ ap₂ both
          (prefixed-is_empty "MODEL_GATE_FAIL:" _
            ∙ failed_checks-is_empty (model_checks m state symbols equations status))
          (append-is_empty _ _
            ∙ ap₂ both
                (prefixed-is_empty "MODEL_GATE_FAIL:" _
                  ∙ issue_texts-is_empty (symbols.issues ++ equations.issues)
                  ∙ issues)
                (append-is_empty _ _
                  ∙ ap₂ both (prefixed-is_empty "MODEL_GATE_FAIL:UNRESOLVED_AMBIGUITY:" _)
                      (prefixed-is_empty "MODEL_GATE_FAIL:UNSUPPORTED_CRITICAL_ASSUMPTION:" _)))
      ∙ implied _ details details-passed
