-- ===== src/Backend/Analysis/Liveness.antt =====
-- compiler/backend/analysis/liveness.py: the registers that an instruction or a terminator reads,
-- and the transfer of live sets through a block. `instruction_def_reg` is in
-- Backend/Semantics/Operands.
pub mod Uses
pub mod Sound
pub mod Fixpoint
pub mod Growth
pub mod Missing
pub mod Rounds
pub mod Stable
pub mod Instructions
pub mod Runs
pub mod Tables
pub mod Behind
use niflheim.Shared.{Option, none, some, List, [], ◌∷◌, ◌++◌}
use niflheim.Backend.Ir.Ids.{RegId, InstId, inst_id_eq}
use niflheim.Backend.Ir.Model.{
  Operand, reg_operand, CallTarget, indirect_call, InstructionBase, Instruction, const_inst,
  copy_inst, unary_inst, binary_inst, cast_inst, type_test_inst, alloc_object_inst, field_load_inst,
  field_store_inst, array_alloc_inst, array_length_inst, array_load_inst, array_store_inst,
  array_slice_inst, array_slice_store_inst, null_check_inst, bounds_check_inst, call_inst,
  Terminator, branch, return, jump,
}
use niflheim.Backend.Semantics.Operands.{instruction_def_reg}
use niflheim.Backend.Analysis.RegSet.{RegSet, update, discard, sorted_reg_tuple}

unfoldable pub operand_use_regs : Operand → List RegId
operand_use_regs (reg_operand r) = r ∷ []
operand_use_regs _ = []

unfoldable pub call_target_operands : CallTarget → List Operand
call_target_operands (indirect_call callee) = callee ∷ []
call_target_operands _ = []

unfoldable pub used_regs : RegSet → List Operand → RegSet
used_regs s [] = s
used_regs s (o ∷ os) = used_regs (update s (operand_use_regs o)) os

unfoldable pub merge_reg_uses : List Operand → List RegId
merge_reg_uses os = sorted_reg_tuple (used_regs [] os)

unfoldable pub instruction_use_regs : Instruction → List RegId
instruction_use_regs (const_inst b d c) = []
instruction_use_regs (copy_inst b d o) = operand_use_regs o
instruction_use_regs (unary_inst b d op o) = operand_use_regs o
instruction_use_regs (cast_inst b d k o t f) = operand_use_regs o
instruction_use_regs (type_test_inst b d k o t) = operand_use_regs o
instruction_use_regs (binary_inst b d op l r) = merge_reg_uses (l ∷ r ∷ [])
instruction_use_regs (alloc_object_inst b d c e) = []
instruction_use_regs (field_load_inst b d o c n) = operand_use_regs o
instruction_use_regs (field_store_inst b o c n v) = merge_reg_uses (o ∷ v ∷ [])
instruction_use_regs (array_alloc_inst b d k n e) = operand_use_regs n
instruction_use_regs (array_length_inst b d a) = operand_use_regs a
instruction_use_regs (array_load_inst b d k a i) = merge_reg_uses (a ∷ i ∷ [])
instruction_use_regs (array_store_inst b k a i v) = merge_reg_uses (a ∷ i ∷ v ∷ [])
instruction_use_regs (array_slice_inst b d k a i j e) = merge_reg_uses (a ∷ i ∷ j ∷ [])
instruction_use_regs (array_slice_store_inst b k a i j v) = merge_reg_uses (a ∷ i ∷ j ∷ v ∷ [])
instruction_use_regs (null_check_inst b v) = operand_use_regs v
instruction_use_regs (bounds_check_inst b a i) = merge_reg_uses (a ∷ i ∷ [])
instruction_use_regs (call_inst b d t args s e) = merge_reg_uses (args ++ call_target_operands t)

unfoldable pub terminator_use_regs : Terminator → List RegId
terminator_use_regs (branch s c t f) = operand_use_regs c
terminator_use_regs (return s (some o)) = operand_use_regs o
terminator_use_regs _ = []

unfoldable pub remove_definition : Option RegId → RegSet → RegSet
remove_definition none s = s
remove_definition (some d) s = discard d s

unfoldable pub transfer_instruction_live_set : Instruction → RegSet → RegSet
transfer_instruction_live_set i live_after =
    update (remove_definition (instruction_def_reg i) live_after) (instruction_use_regs i)

unfoldable pub transfer_terminator_live_set : Terminator → RegSet → RegSet
transfer_terminator_live_set t live_out = update live_out (terminator_use_regs t)

-- The live set in front of the instructions, given the one behind them. The loop over
-- `reversed(instructions)` handles the last instruction first.
unfoldable pub instructions_live_in : List Instruction → RegSet → RegSet
instructions_live_in [] live = live
instructions_live_in (i ∷ is) live = transfer_instruction_live_set i (instructions_live_in is live)

unfoldable pub block_live_in : List Instruction → Terminator → RegSet → RegSet
block_live_in is t live_out = instructions_live_in is (transfer_terminator_live_set t live_out)
