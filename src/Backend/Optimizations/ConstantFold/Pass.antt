-- ===== src/Backend/Optimizations/ConstantFold/Pass.antt =====
-- compiler/backend/optimizations/constant_fold.py: `_fold_block`, the rewriting of one block with the
-- constants that its registers are known to hold at its start.
use niflheim.Shared.{
  ℕ, ◌+◌, Bool, true, false, ◌||◌, Option, none, some, List, [], ◌∷◌, if◌then◌else◌, ltb,
}
use niflheim.Shared.Dict.{lookup, insert, erase}
use niflheim.Backend.Ir.Ids.{RegId, reg_id_eq}
use niflheim.Backend.Ir.Model.{
  Constant, Operand, reg_operand, const_operand, Instruction, const_inst, copy_inst, unary_inst,
  binary_inst, cast_inst, Terminator, branch, return, Block,
}
use niflheim.Backend.Semantics.Operands.{instruction_def_reg}
use niflheim.Backend.Optimizations.ConstantFold.Arith.{FloatOps}
use niflheim.Backend.Optimizations.ConstantFold.Folding.{ConstantMap, folded_constant}

unfoldable pub rewrite_operand : Operand → ConstantMap → Operand × ℕ
rewrite_operand (reg_operand r) constants = elim (lookup r constants) [
  | some c ↦ (const_operand c, 1)
  | none ↦ (reg_operand r, 0)
]
rewrite_operand o constants = (o, 0)

unfoldable pub rewrite_instruction_operands : Instruction → ConstantMap → Instruction × ℕ
rewrite_instruction_operands (unary_inst b d op o) constants =
    let (o', n) = rewrite_operand o constants in (unary_inst b d op o', n)
rewrite_instruction_operands (binary_inst b d op l r) constants =
    let (l', n) = rewrite_operand l constants in
    let (r', k) = rewrite_operand r constants in (binary_inst b d op l' r', n + k)
rewrite_instruction_operands (cast_inst b d k o t trap_on_failure) constants =
    let (o', n) = rewrite_operand o constants in (cast_inst b d k o' t trap_on_failure, n)
rewrite_instruction_operands i constants = (i, 0)

unfoldable pub rewrite_terminator_operands : Terminator → ConstantMap → Terminator × ℕ
rewrite_terminator_operands (branch s c t f) constants =
    let (c', n) = rewrite_operand c constants in (branch s c' t f, n)
rewrite_terminator_operands (return s (some o)) constants =
    let (o', n) = rewrite_operand o constants in (return s (some o'), n)
rewrite_terminator_operands t constants = (t, 0)

unfoldable pub const_like : Instruction → Constant → Instruction
const_like (copy_inst b d o) c = const_inst b d c
const_like (unary_inst b d op o) c = const_inst b d c
const_like (binary_inst b d op l r) c = const_inst b d c
const_like (cast_inst b d k o t trap_on_failure) c = const_inst b d c
const_like i c = i

unfoldable pub forget_definition : Option RegId → ConstantMap → ConstantMap
forget_definition none constants = constants
forget_definition (some d) constants = erase d constants

unfoldable pub record_constant : Instruction → ConstantMap → ConstantMap
record_constant (const_inst b d c) constants = insert d c constants
record_constant i constants = constants

unfoldable pub rewritten_instruction : Instruction → ConstantMap → Instruction × Bool
rewritten_instruction i constants =
    let (i', n) = rewrite_instruction_operands i constants in
    if ltb 0 n then (i', true) else (i, false)

module _ (f : FloatOps) where
  -- What stands in place of the instruction, and whether that is something else.
  unfoldable pub fold_instruction : Instruction → ConstantMap → Instruction × Bool
  fold_instruction i constants = elim (folded_constant f i constants) [
    | some c ↦ (const_like i c, true)
    | none ↦ rewritten_instruction i constants
  ]

  -- The loop over the instructions: what they become, the constants at the end, and `changed`.
  unfoldable pub fold_instructions :
      ConstantMap → List Instruction → List Instruction × ConstantMap × Bool
  fold_instructions constants [] = ([], constants, false)
  fold_instructions constants (i ∷ is) =
      let known = forget_definition (instruction_def_reg i) constants in
      let (i', changed) = fold_instruction i known in
      let (rest, last, more) = fold_instructions (record_constant i' known) is in
      (i' ∷ rest, last, changed || more)

  unfoldable pub fold_block : Block → ConstantMap → Block × Bool
  fold_block block initial =
      let (rewritten, constants, changed) = fold_instructions initial block.instructions in
      let (t, n) = rewrite_terminator_operands block.terminator constants in
      if changed || ltb 0 n
      then (record block { instructions = rewritten; terminator = t }, true)
      else (block, false)

-- `_transfer_block_constants`: the constants at the end of a block.
module _ (f : FloatOps) where
  unfoldable pub transfer_constant : Instruction → Option Constant → ConstantMap → ConstantMap
  transfer_constant i (some c) constants = record_constant (const_like i c) constants
  transfer_constant i none constants = record_constant i constants

  unfoldable pub transfer_block_constants : List Instruction → ConstantMap → ConstantMap
  transfer_block_constants [] constants = constants
  transfer_block_constants (i ∷ is) constants =
      let known = forget_definition (instruction_def_reg i) constants in
      transfer_block_constants is (transfer_constant i (folded_constant f i known) known)
