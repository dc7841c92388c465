-- ===== src/Backend/Ir/Ids.antt =====
-- The identifiers of compiler/backend/ir/model.py. An ordinal is a natural number, which is what
-- `_validate_non_negative_ordinal` checks.
use niflheim.Shared.{ℕ, ◌≡◌, ◌↔◌, Bool, true, ◌&&◌, arith, Eq, ◌==◌, nat_eq, nat_beq_iff}
use niflheim.Symbols.{CallableId, callable_id_eq, callable_id_beq_iff}

pub record RegId : Type 0 where
  pub owner_id : CallableId
  pub ordinal : ℕ

pub record BlockId : Type 0 where
  pub owner_id : CallableId
  pub ordinal : ℕ

pub record InstId : Type 0 where
  pub owner_id : CallableId
  pub ordinal : ℕ

pub record DataId : Type 0 where
  pub ordinal : ℕ

unfoldable pub reg_id_beq : RegId → RegId → Bool
reg_id_beq a b = a.owner_id == b.owner_id && a.ordinal == b.ordinal

pub reg_id_beq_iff : (a b : RegId) → (reg_id_beq a b ≡ true) ↔ (a ≡ b)
unfolding reg_id_beq
reg_id_beq_iff a b =
    ground (arith, callable_id_beq_iff a.owner_id b.owner_id, nat_beq_iff a.ordinal b.ordinal)

instance abbrev pub reg_id_eq : Eq RegId
reg_id_eq = record { beq = reg_id_beq; beq_iff = reg_id_beq_iff }

unfoldable pub block_id_beq : BlockId → BlockId → Bool
block_id_beq a b = a.owner_id == b.owner_id && a.ordinal == b.ordinal

pub block_id_beq_iff : (a b : BlockId) → (block_id_beq a b ≡ true) ↔ (a ≡ b)
unfolding block_id_beq
block_id_beq_iff a b =
    ground (arith, callable_id_beq_iff a.owner_id b.owner_id, nat_beq_iff a.ordinal b.ordinal)

instance abbrev pub block_id_eq : Eq BlockId
block_id_eq = record { beq = block_id_beq; beq_iff = block_id_beq_iff }

unfoldable pub inst_id_beq : InstId → InstId → Bool
inst_id_beq a b = a.owner_id == b.owner_id && a.ordinal == b.ordinal

pub inst_id_beq_iff : (a b : InstId) → (inst_id_beq a b ≡ true) ↔ (a ≡ b)
unfolding inst_id_beq
inst_id_beq_iff a b =
    ground (arith, callable_id_beq_iff a.owner_id b.owner_id, nat_beq_iff a.ordinal b.ordinal)

instance abbrev pub inst_id_eq : Eq InstId
inst_id_eq = record { beq = inst_id_beq; beq_iff = inst_id_beq_iff }
