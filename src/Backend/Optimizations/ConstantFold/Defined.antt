-- ===== src/Backend/Optimizations/ConstantFold/Defined.antt =====
-- The registers of which something is known are among those that the blocks define.
use niflheim.Shared.{
  ◌≡◌, refl, sym, ◌∙◌, true, Option, none, some, Bool-cases, List, [], ◌∷◌, arith, elem, ◌==◌,
  nat_eq, inl, inr, beq_refl,
}
use niflheim.Shared.Dict.{lookup, erase, keys, elem-keys-insert}
use niflheim.Shared.Count.{elem-append}
use niflheim.Backend.Ir.Ids.{RegId, reg_id_eq, reg_id_beq_iff, BlockId, block_id_eq}
use niflheim.Backend.Ir.Model.{
  Constant, Instruction, const_inst, copy_inst, unary_inst, binary_inst, cast_inst, Block,
}
use niflheim.Backend.Semantics.Operands.{instruction_def_reg}
use niflheim.Backend.Analysis.Cfg.{BlockIndex}
use niflheim.Backend.Analysis.Liveness.Sound.{Within}
use niflheim.Backend.Optimizations.ConstantFold.Arith.{FloatOps}
use niflheim.Backend.Optimizations.ConstantFold.Folding.{ConstantMap}
use niflheim.Backend.Optimizations.ConstantFold.Pass.{
  forget_definition, record_constant, const_like, transfer_constant, transfer_block_constants,
}
use niflheim.Backend.Optimizations.ConstantFold.Merge.{common_constants}
use niflheim.Backend.Optimizations.ConstantFold.Incoming.{instructions_defs, blocks_defs}

keys_forgotten :
    (o : Option RegId) (a : ConstantMap) (all : List RegId)
    → Within (keys a) all
    → Within (keys (forget_definition o a)) all
unfolding forget_definition erase elem
keys_forgotten none a all h r e = h r e
keys_forgotten (some d) [] all h r e = h r e
keys_forgotten (some d) ((k, c) ∷ a) all h r e =
    ground (arith, h r, keys_forgotten (some d) a all (λ x l. h x (ground arith)) r)

keys_recorded :
    (i : Instruction) (a : ConstantMap) (all : List RegId)
    → Within (keys a) all
    → ((d : RegId) → instruction_def_reg i ≡ some d → elem d all ≡ true)
    → Within (keys (record_constant i a)) all
unfolding record_constant
keys_recorded (const_inst b d c) a all h used r e =
    ground (arith, elem-keys-insert r d c a, reg_id_beq_iff r d, used d refl, h r)
keys_recorded _ a all h used r e = h r e

const_like-def :
    (i : Instruction) (c : Constant) → instruction_def_reg (const_like i c) ≡ instruction_def_reg i
unfolding const_like
const_like-def (copy_inst b d o) c = refl
const_like-def (unary_inst b d op o) c = refl
const_like-def (binary_inst b d op l r) c = refl
const_like-def (cast_inst b d k o t trap_on_failure) c = refl
const_like-def _ c = refl

keys_transferred :
    (f : FloatOps) (i : Instruction) (o : Option Constant) (a : ConstantMap) (all : List RegId)
    → Within (keys a) all
    → ((d : RegId) → instruction_def_reg i ≡ some d → elem d all ≡ true)
    → Within (keys (transfer_constant f i o a)) all
unfolding transfer_constant
keys_transferred f i none a all h used = keys_recorded i a all h used
keys_transferred f i (some c) a all h used =
    keys_recorded (const_like i c) a all h (λ d e. used d (sym (const_like-def i c) ∙ e))

defined_first :
    (o : Option RegId) (rest : List RegId) (d : RegId)
    → o ≡ some d
    → elem d (elim o [ none ↦ rest | some x ↦ x ∷ rest ]) ≡ true
unfolding elem
defined_first none rest d e = cc
defined_first (some x) rest d e = let same : x ≡ d = cc in rw same (rw (beq_refl d) refl)

defined_later :
    (o : Option RegId) (rest : List RegId) (d : RegId)
    → elem d rest ≡ true
    → elem d (elim o [ none ↦ rest | some x ↦ x ∷ rest ]) ≡ true
unfolding elem
defined_later none rest d e = e
defined_later (some x) rest d e = ground arith

pub transfer-Within :
    (f : FloatOps) (is : List Instruction) (a : ConstantMap) (all : List RegId)
    → Within (keys a) all
    → Within (instructions_defs is) all
    → Within (keys (transfer_block_constants f is a)) all
unfolding transfer_block_constants instructions_defs
transfer-Within f [] a all h used = h
transfer-Within f (i ∷ is) a all h used =
    let o = instruction_def_reg i in
    transfer-Within f is _ all
      (keys_transferred f i _ (forget_definition o a) all (keys_forgotten o a all h)
        (λ d e. used d (defined_first o (instructions_defs is) d e)))
      (λ d e. used d (defined_later o (instructions_defs is) d e))

pub block_defs-Within :
    (id : BlockId) (index : BlockIndex) (b : Block)
    → lookup id index ≡ some b
    → Within (instructions_defs b.instructions) (blocks_defs index)
unfolding lookup blocks_defs
block_defs-Within id [] b h r l = cc
block_defs-Within id ((k, x) ∷ index) b h r l = elim (Bool-cases (id == k)) [
  | inl same ↦
      let e : x ≡ b = cc (rw same at h) in
      let l' : elem r (instructions_defs x.instructions) ≡ true = rw e l in
      ground (arith, elem-append r (instructions_defs x.instructions) (blocks_defs index))
  | inr other ↦
      let rest = block_defs-Within id index b (rw other at h) r l in
      ground (arith, elem-append r (instructions_defs x.instructions) (blocks_defs index))
]

pub common-Within :
    (f : FloatOps) (m : ConstantMap) (ms : List ConstantMap) (all : List RegId)
    → Within (keys m) all
    → Within (keys (common_constants f m ms)) all
unfolding common_constants elem
common-Within f [] ms all h r e = h r e
common-Within f ((k, c) ∷ m) ms all h r e =
    ground (arith, h r, common-Within f m ms all (λ x l. h x (ground arith)) r)
