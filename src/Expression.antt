-- ===== src/Expression.antt =====
-- src/mathmodel_ai/mathematical/expressions.py and `MathExpression` of
-- src/mathmodel_ai/schemas/mathematical.py: `Arithmetic` has the numbers, `Syntax` the expressions
-- and their evaluation, `Linear` the linear forms.
pub mod Arithmetic
pub mod Syntax
pub mod Linear
pub mod Tests
