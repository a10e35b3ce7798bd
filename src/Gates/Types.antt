-- ===== src/Gates/Types.antt =====
-- `QualityGateStatus` and `QualityGateResult` of src/mathmodel_ai/schemas/quality.py. The dict of checks is
-- the list of its items: its keys are written out where it is made, and are different.
use math_model_ai.Base.{String, Bool, List, [], ◌∷◌, if◌then◌else◌}

pub data QualityGateStatus : Type 0 where
  pass retry escalate human_review : QualityGateStatus

pub record QualityGateResult : Type 0 where
  pub gate : String
  pub status : QualityGateStatus
  pub checks : List (String × Bool)
  pub errors : List String
  pub warnings : List String

-- `[name for name, passed in checks.items() if not passed]`
abbrev pub failed_checks : List (String × Bool) → List String
failed_checks [] = []
failed_checks ((name, passed) ∷ rest) =
    let others = failed_checks rest in if passed then others else name ∷ others

-- `PASS if not errors else RETRY`
abbrev pub status_of : List String → QualityGateStatus
status_of [] = QualityGateStatus.pass
status_of (_ ∷ _) = QualityGateStatus.retry
