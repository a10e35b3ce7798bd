-- ===== src/Lib.antt =====
-- MathModel AI turns a competition problem into a mathematical model, solves and checks it, writes a
-- paper and freezes a submission. Language models propose; the parts below decide, and are what this
-- library models. Paths are from the repository's root, below src/mathmodel_ai.
--
-- Parts and files:
-- - Base: Python's tests, lists read as sets, dicts in insertion order, `sorted`, raised exceptions.
-- - Workflow: reasoning/state_machine.py. `ensure_transition` guards every change of a project's stage;
--   `follow` is a sequence of such changes.
-- - Routing: routing/router.py with the values of routing/schemas.py, schemas/provider_registry.py and
--   core/config.py. `Level` has `_base_level` and the reasoning efforts, `Eligibility` has
--   `_hard_rejections`, `Registry` has `_score` and `_route_registry`, `Legacy` has `_route_legacy`, and
--   `Route` has `route`.
-- - Expression: mathematical/expressions.py over the trees of schemas/mathematical.py. `Syntax` has
--   `evaluate_expression` and `referenced_symbols`, `Linear` has `LinearForm` and
--   `linearize_expression`.
-- - Units: mathematical/units.py over the units and models of schemas/mathematical.py. `Algebra` has
--   `multiply_units`, `divide_units`, `power_unit` and `same_dimension`, `Check` has `UnitChecker`, and
--   `Dimension` has the rules of dimensional analysis that the checker is compared with.
-- - Model: schemas/mathematical.py, the model that Symbols, Units, Gates and Solvers read.
-- - Problem: the part of schemas/problem_state.py and problem_analysis.py that Gates and Submission read.
-- - Symbols: mathematical/registry.py. `Registry` has `SymbolRegistry`, `Entries` have `ParameterRegistry`
--   and `EquationRegistry`. The unit checker looks units up in the first.
-- - Gates: mathematical/quality_gates.py. `Model` has `model_quality_gate`, which asks the registries and
--   the unit checker, and whose models go on to the solvers; `Solve` has `solve_quality_gate`, which asks
--   the verifier of evidence.
-- - Evidence: mathematical/evidence.py over schemas/results.py, solver.py, execution.py and program.py.
--   `verify_evidence` is `verify`.
-- - Selection: reasoning/scoring.py over schemas/model_selection.py, and `select_quality_gate` of
--   reasoning/quality_gates.py.
-- - Solvers: solvers/router.py over schemas/solver.py. `Size` has `problem_size` and `_runtime_budget`,
--   `Policy` has `_preference`, `_required_capabilities` and the score tables, `Router` has `__init__` and
--   `route`. `Strategy` has `select` of mathematical/strategy.py. An adapter of
--   solvers/base.py is a value, `BaseSolver`: what it declares and answers.
-- - Submission: submission/jury.py, checks.py, freeze.py, corrections.py and the profile check of
--   integrity.py, over schemas/submission.py. The freeze asks the check, and the check asks the jury.
--   `Requirements` has requirements.py over the paper of schemas/paper.py.
--
-- How the code is read:
-- - A raised exception is a value, `Raise`; each message is a constructor. An object that the code
--   changes is passed in and out, as the packages of `freeze` are.
-- - Identifiers, digests and texts are texts; moments are numbers. A score of the jury is a whole number
--   of billionths, a price or a confidence a whole number of millionths, a solver's time a number of
--   milliseconds, so that the code's tolerances and defaults are whole numbers.
-- - A float of an expression is a value of a parameter, `Arithmetic`. Theorems on expressions that need
--   laws name them as a hypothesis, `IsExact`, which floats meet up to rounding and overflow. Units ask
--   less of floats, `Floats`, and scores of models again, `ScoreFloats`, whose order has the laws that
--   `IsOrder` names where a theorem asks for the highest. The dict of a unit's exponents is a function, as
--   its order decides nothing.
-- - Sets are lists; each test on them is one that the order and repetitions do not change.
-- - Recursion is on the lists and the trees themselves, so no function here takes fuel.
--
-- Parameters, for code that is not in the repository or is not modelled: SHA-256 digests
-- (`Digests`, `digest`), `math.isclose`, `fnmatchcase` and the security scan (`Files`), the model registry whose methods may raise
-- (`Registry`), the rule engine, the coverage validator and the package builder (`Collaborators`),
-- the adapters of the solvers (`BaseSolver`), floats (`Arithmetic`, `Floats`, `ScoreFloats`) with the
-- equality of scales, the texts of the unit checker's messages, Python's string functions, the clock.
--
-- Not modelled: database repositories and the workflows over them, HTTP clients and routes, prompts,
-- numerical solvers and containers, text processing of papers, benchmarks, the frontend. The validators
-- of the schemas are not run on a value that is built, but for those of a unit and of a solver's rejection
-- that can fail there: a record stands for one that passed them.
pub mod Base
pub mod Workflow
pub mod Routing
pub mod Expression
pub mod Model
pub mod Problem
pub mod Symbols
pub mod Gates
pub mod Evidence
pub mod Selection
pub mod Solvers
pub mod Units
pub mod Submission
