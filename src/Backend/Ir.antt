-- ===== src/Backend/Ir.antt =====
-- compiler/backend/ir/model.py.
pub mod Ids
pub mod Ops
pub mod Types
pub mod Model
pub mod InstIds
pub mod Tokens
