-- ===== src/Units.antt =====
-- src/mathmodel_ai/mathematical/units.py: units of measure, their products, and the check that the
-- parts of a model agree in dimension. `Types` has the values, `Algebra` the operations on units,
-- `Check` the checker and `Dimension` the rules that it decides.
pub mod Types
pub mod Algebra
pub mod Dimension
pub mod Check
pub mod Tests
