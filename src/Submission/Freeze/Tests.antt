-- ===== src/Submission/Freeze/Tests.antt =====
-- Freezing the candidate of `Submission.Tests`: a run evaluated, and the theorems of `Freeze` applied
-- to it.
use math_model_ai.Base.{unique_from, Memᴰ, ◌≡◌, refl, String, some, List, [], ◌∷◌, ok, string_eq}
use math_model_ai.Base.Dict
use math_model_ai.Base.Dict.{Dict}
use math_model_ai.Submission.Paper.{ClaimType-discrete, PaperIr, SubmissionRequirement}
use math_model_ai.Submission.Requirements.{claim_counts, valid_claims, examine, cover, validate}
use math_model_ai.Submission.Requirements.Covered.{IsAnswered}
use math_model_ai.Submission.Requirements.Tests.{requirement, paper, digest}
use math_model_ai.Submission.Freeze.Answered.{with_validator, freeze-IsAnswered}
use math_model_ai.Submission.Types.{
  JuryDecision-discrete, decision_eq, SubmissionCheckStatus-discrete, check_status_eq,
  RequirementCoverage,
}
use math_model_ai.Submission.Jury.{
  validate_competition_profile, check_rules, decision, recompute_score, binds_candidate,
  binds_digests, judge_again, verify_report,
}
use math_model_ai.Submission.Check.{
  is_allowed_path, rule_issues, coverage_issues, jury_issues, bytes_match, artifact_issues,
  security_issues, candidate_issues, early_issues, issues, status, names_candidate, holds_digests,
  recheck, verify,
}
use math_model_ai.Submission.Freeze.{
  SubmissionStatus, Collaborators, Request, same_candidate, approve, freeze_under_lock, freeze,
}
use math_model_ai.Submission.Freeze.Laws.{Backed, freeze-Backed, freeze-keeps}
use math_model_ai.Submission.Tests.{
  digests, files, profile, candidate, coverage, rules, report, check, bytes,
}

-- The package is the identifier of the candidate.
abbrev parts : Collaborators (Unit {0}) (Unit {0}) String
parts = record {
  evaluate = λ _ _ _. ok rules;
  validate = λ _ _ _. ok coverage;
  build = λ _ c _ _ _. ok c.candidate_id;
  verify_package = λ _. ok SubmissionStatus.frozen;
}

abbrev request : Request (Unit {0}) (Unit {0})
request = record {
  profile = profile;
  candidate = candidate;
  paper = tt;
  submission_requirements = [];
  requirements = coverage;
  rules = rules;
  jury = report;
  check = check;
  artifact_bytes = bytes;
}

abbrev earlier : Dict String String
earlier = ("c0", "c0") ∷ []

abbrev later : Dict String String
later = ("c0", "c0") ∷ ("c1", "c1") ∷ []

freezes : freeze digests files parts request earlier ≡ (later, ok "c1")
unfolding freeze approve freeze_under_lock same_candidate verify names_candidate holds_digests
    issues early_issues candidate_issues rule_issues coverage_issues jury_issues artifact_issues
    bytes_match is_allowed_path security_issues recheck status verify_report binds_candidate
    validate_competition_profile check_rules binds_digests judge_again recompute_score decision
    JuryDecision-discrete SubmissionCheckStatus-discrete
freezes = refl

freeze-Backed_example :
    (recomputed : List RequirementCoverage) × Backed digests files parts request recomputed
    × (Dict.lookup "c1" later ≡ some "c1")
freeze-Backed_example = freeze-Backed digests files parts request earlier freezes

freeze-keeps_example : Dict.lookup "c0" (freeze digests files parts request earlier).0 ≡ some "c0"
freeze-keeps_example = freeze-keeps digests files parts request earlier "c0" refl

-- The same request with a paper, and the coverage validator of the source.
abbrev paper_parts : Collaborators PaperIr SubmissionRequirement String
paper_parts = record {
  evaluate = λ _ _ _. ok rules;
  validate = λ _ _ _. ok [];
  build = λ _ c _ _ _. ok c.candidate_id;
  verify_package = λ _. ok SubmissionStatus.frozen;
}

abbrev paper_request : Request PaperIr SubmissionRequirement
paper_request = record {
  profile = profile;
  candidate = candidate;
  paper = paper;
  submission_requirements = requirement ∷ [];
  requirements = coverage;
  rules = rules;
  jury = report;
  check = check;
  artifact_bytes = bytes;
}

paper_freezes :
    freeze digests files (with_validator digest paper_parts) paper_request earlier
    ≡ (later, ok "c1")
unfolding freeze approve freeze_under_lock same_candidate verify names_candidate holds_digests
    issues early_issues candidate_issues rule_issues coverage_issues jury_issues artifact_issues
    bytes_match is_allowed_path security_issues recheck status verify_report binds_candidate
    validate_competition_profile check_rules binds_digests judge_again recompute_score decision
    JuryDecision-discrete SubmissionCheckStatus-discrete validate cover examine valid_claims
    claim_counts unique_from ClaimType-discrete
paper_freezes = refl

freeze-IsAnswered_example : IsAnswered paper candidate.artifacts requirement
freeze-IsAnswered_example =
    freeze-IsAnswered digests files digest paper_parts paper_request earlier requirement
      paper_freezes (Memᴰ.head refl) refl
