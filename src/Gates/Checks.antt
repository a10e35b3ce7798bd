-- ===== src/Gates/Checks.antt =====
-- The checks of a gate and its status, `QualityGateResult` as src/mathmodel_ai/mathematical/quality_gates.py
-- and reasoning/quality_gates.py make it.
use math_model_ai.Base.{
  ◌≡◌, ◌↔◌, refl, ap₂, String, Bool, true, ◌&&◌, List, [], ◌∷◌, all, is_empty, arith,
}
use math_model_ai.Gates.Types.{QualityGateStatus, failed_checks, status_of}

pub both : {a b : Bool} → a ≡ true → b ≡ true → (a && b) ≡ true
both h k = ap₂ (λ x y. x && y) h k

abbrev pub passed : String × Bool → Bool
passed check = check.1

pub failed_checks-is_empty :
    (cs : List (String × Bool)) → is_empty (failed_checks cs) ≡ all passed cs
failed_checks-is_empty [] = refl
failed_checks-is_empty ((name, test) ∷ cs) = ground (arith, failed_checks-is_empty cs)

pub status_of_iff :
    (errors : List String) → (status_of errors ≡ QualityGateStatus.pass) ↔ (is_empty errors ≡ true)
status_of_iff [] = (λ h. refl, λ h. refl)
status_of_iff (e ∷ errors) = (λ h. cc, λ h. cc)
