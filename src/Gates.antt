-- ===== src/Gates.antt =====
-- The quality gates of src/mathmodel_ai/mathematical/quality_gates.py, over the results of
-- schemas/quality.py.
pub mod Types
pub mod Checks
pub mod Model
pub mod Solve
mod Tests
