-- ===== src/Selection.antt =====
-- The choice of a model among the candidates: src/mathmodel_ai/reasoning/scoring.py over the values of
-- schemas/model_selection.py, and `select_quality_gate` of reasoning/quality_gates.py.
pub mod Types
pub mod Scoring
pub mod Gate
mod Tests
