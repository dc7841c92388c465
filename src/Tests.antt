-- ===== src/Tests.antt =====
-- Runs of the definitions at concrete inputs.
pub mod Blocks
pub mod Machines
pub mod Idle
pub mod Passes
pub mod Algebra
pub mod Callables
pub mod Merge
pub mod Cfg
pub mod Copies
pub mod Folds
pub mod Jumps
pub mod Safepoints
