-- ===== src/Symbols.antt =====
-- src/mathmodel_ai/mathematical/registry.py: the registries of a model's symbols, of its parameters and of
-- its equations.
pub mod Types
pub mod Registry
pub mod Entries
