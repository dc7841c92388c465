-- ===== src/Backend.antt =====
-- compiler/backend: the intermediate representation, its analyses and its optimizations.
pub mod Ir
pub mod Semantics
pub mod Analysis
pub mod Optimizations
