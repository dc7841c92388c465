-- ===== src/Backend/Analysis.antt =====
-- compiler/backend/analysis.
pub mod RegSet
pub mod Cfg
pub mod Liveness
pub mod RootSlots
pub mod Safepoints
