-- ===== src/Submission.antt =====
-- src/mathmodel_ai/submission: what stands between a paper and a frozen submission. `Types` has the
-- records, `Jury` the final jury, `Check` the submission check, `Freeze` their coordinator and
-- `Corrections` what a correction makes invalid.
-- `Requirements` has what a paper must answer and whether it does, over the paper of `Paper`.
pub mod Types
pub mod Jury
pub mod Check
pub mod Freeze
pub mod Corrections
pub mod Paper
pub mod Requirements
pub mod Tests
