-- ===== src/Solvers.antt =====
-- src/mathmodel_ai/solvers/router.py: which solver adapter a mathematical model is given to. `Types`
-- has the values of schemas/solver.py, `Size` the size class of a model and the time it is given,
-- `Policy` what a model and its plan ask for, `Router` the hard filters, the scores and the choice, and
-- `Generated` the record of a generated program, and `Strategy` the choice between the two in
-- mathematical/strategy.py.
pub mod Types
pub mod Size
pub mod Policy
pub mod Router
pub mod Generated
pub mod Strategy
pub mod Tests
