-- ===== src/Submission/Freeze/Answered.antt =====
-- The coordinator of src/mathmodel_ai/submission/freeze.py with the coverage validator of
-- src/mathmodel_ai/submission/requirements.py, which its constructor makes.
use math_model_ai.Base.{◌≡◌, subst, String, true, Memᴰ, All-mem, ok, ok-injective}
use math_model_ai.Base.Dict.{Dict}
use math_model_ai.Submission.Types.{Digests}
use math_model_ai.Submission.Paper.{PaperIr, SubmissionRequirement}
use math_model_ai.Submission.Requirements.{cover, validate}
use math_model_ai.Submission.Requirements.Covered.{IsAnswered, cover-IsAnswered}
use math_model_ai.Submission.Requirements.Each.{cover-mem}
use math_model_ai.Submission.Jury.Passing.{IsMet}
use math_model_ai.Submission.Check.{Files}
use math_model_ai.Submission.Freeze.{Collaborators, Request, freeze}
use math_model_ai.Submission.Freeze.Laws.{freeze-Backed}

-- The coordinator's collaborators with `RequirementCoverageValidator` among them.
abbrev pub with_validator :
    {Package : Type 0}
    → (SubmissionRequirement → String)
    → Collaborators PaperIr SubmissionRequirement Package
    → Collaborators PaperIr SubmissionRequirement Package
with_validator digest parts = record {
  evaluate = parts.evaluate;
  validate = λ rs paper artifacts. ok (validate digest rs paper artifacts);
  build = parts.build;
  verify_package = parts.verify_package;
}

module _ {Package : Type 0} (digests : Digests) (files : Files)
    (digest : SubmissionRequirement → String)
    (parts : Collaborators PaperIr SubmissionRequirement Package) where
  -- If `freeze` returns a package, and the coverage validator of the coordinator is
  -- `RequirementCoverageValidator`, then every required requirement of the request is answered by the paper: a
  -- supported claim with evidence stands for its output, in a section bound to its subproblem.
  pub freeze-IsAnswered :
      (q : Request PaperIr SubmissionRequirement) (packages : Dict String Package)
      {packages' : Dict String Package} {p : Package} (r : SubmissionRequirement)
      → freeze digests files (with_validator digest parts) q packages ≡ (packages', ok p)
      → Memᴰ r q.submission_requirements
      → r.required ≡ true
      → IsAnswered q.paper q.candidate.artifacts r
  unfolding cover
  freeze-IsAnswered q packages r h member required =
      let (coverage, backed, _) =
        freeze-Backed digests files (with_validator digest parts) q packages h in
      let entry =
        subst (λ cs. Memᴰ (cover digest q.paper q.candidate.artifacts r) cs)
          (ok-injective backed.validated)
          (cover-mem digest q.paper q.candidate.artifacts q.submission_requirements member) in
      cover-IsAnswered q.paper r digest q.candidate.artifacts
        (All-mem IsMet coverage backed.vouched.passes.met entry required)
