-- ===== src/Backend/Optimizations.antt =====
-- compiler/backend/optimizations.
pub mod TrivialCopy
pub mod DeadPure
pub mod ConstantFold
pub mod SimplifyCfg
pub mod AlgebraicSimplify
