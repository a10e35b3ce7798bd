-- ===== src/Routing.antt =====
-- src/mathmodel_ai/routing: which model a task is sent to. `Types` has the values, `Level` the
-- level of a task, `Eligibility` the hard rejections, `Registry` the choice among the registered
-- models, `Legacy` the choice from the settings, and `Route` joins them.
pub mod Types
pub mod Level
pub mod Eligibility
pub mod Registry
pub mod Legacy
pub mod Route
pub mod Tests
