-- ===== src/Backend/Optimizations/DeadPure.antt =====
-- compiler/backend/optimizations/dead_pure_definition_elimination.py: the pass over one block,
-- given the registers that are live behind it, and the removal of unreferenced registers.
pub mod Pure
pub mod Sound
pub mod Registers
pub mod Callable
pub mod Runs
pub mod Thins
pub mod Rounds
pub mod Ends
use niflheim.Shared.{
  ℕ, ◌+◌, String, Bool, true, false, not, ◌&&◌, Option, none, some, List, [], ◌∷◌, ◌==◌, string_eq,
  if◌then◌else◌, elem, leb, length, nat_eq, ◌-◌,
}
use niflheim.Shared.Dict.{Dict, lookup}
use niflheim.Backend.Ir.Ids.{RegId, reg_id_eq}
use niflheim.Backend.Ir.Ops.{BinaryOpKind, CastSemanticsKind}
use niflheim.Backend.Ir.Model.{
  IntTypeName, Constant, int_const, bool_const, double_const, null_const, unit_const, Operand,
  reg_operand, const_operand, Instruction, const_inst, copy_inst, unary_inst, binary_inst,
  cast_inst, type_test_inst, Block, Register, CallableDecl,
}
use niflheim.Backend.Semantics.Operands.{instruction_def_reg}
use niflheim.Backend.Analysis.RegSet.{RegSet, add, update}
use niflheim.Backend.Analysis.Liveness.{
  instruction_use_regs, terminator_use_regs, transfer_instruction_live_set,
  transfer_terminator_live_set,
}

-- `register_type_name_by_reg_id`
abbrev pub TypeNames : Type 0
TypeNames = Dict RegId String

abbrev pub int_type_name : IntTypeName → String
int_type_name IntTypeName.i64 = "i64"
int_type_name IntTypeName.u64 = "u64"
int_type_name IntTypeName.u8 = "u8"

abbrev pub constant_type_name : Constant → String
constant_type_name (double_const _) = "double"
constant_type_name (int_const t _) = int_type_name t
constant_type_name (bool_const _) = "bool"
constant_type_name null_const = "null"
constant_type_name unit_const = "unit"

unfoldable pub operand_type_name : Operand → TypeNames → Option String
operand_type_name (reg_operand r) types = lookup r types
operand_type_name (const_operand c) types = some (constant_type_name c)
operand_type_name _ types = none

abbrev pub is_double : Option String → Bool
is_double (some name) = name == "double"
is_double none = false

abbrev pub is_to_integer : CastSemanticsKind → Bool
is_to_integer CastSemanticsKind.to_integer = true
is_to_integer _ = false

unfoldable pub cast_can_have_observable_effect :
    CastSemanticsKind → Operand → Bool → TypeNames → Bool
unfolding operand_type_name
cast_can_have_observable_effect kind operand trap_on_failure types =
    if trap_on_failure
    then true
    else is_to_integer kind && is_double (operand_type_name operand types)

unfoldable pub kind_is_pure : BinaryOpKind → Bool
kind_is_pure BinaryOpKind.divide = false
kind_is_pure BinaryOpKind.remainder = false
kind_is_pure BinaryOpKind.power = false
kind_is_pure BinaryOpKind.shift_left = false
kind_is_pure BinaryOpKind.shift_right = false
kind_is_pure _ = true

unfoldable pub instruction_is_dead_eliminable : Instruction → TypeNames → Bool
instruction_is_dead_eliminable (const_inst b d c) types = true
instruction_is_dead_eliminable (copy_inst b d o) types = true
instruction_is_dead_eliminable (unary_inst b d op o) types = true
instruction_is_dead_eliminable (type_test_inst b d k o t) types = true
instruction_is_dead_eliminable (cast_inst b d k o t trap_on_failure) types =
    not (cast_can_have_observable_effect k o trap_on_failure types)
instruction_is_dead_eliminable (binary_inst b d op l r) types = kind_is_pure op.kind
instruction_is_dead_eliminable _ types = false

abbrev pub is_dead : Option RegId → RegSet → Bool
is_dead none live = false
is_dead (some d) live = not (elem d live)

-- The loop over `reversed(block.instructions)`: what is kept, the live set in front of it, and
-- the number of instructions removed.
unfoldable pub eliminate_instructions :
    TypeNames → List Instruction → RegSet → List Instruction × RegSet × ℕ
eliminate_instructions types [] live_end = ([], live_end, 0)
eliminate_instructions types (i ∷ is) live_end =
    let (kept, live, removed) = eliminate_instructions types is live_end in
    if is_dead (instruction_def_reg i) live && instruction_is_dead_eliminable i types
    then (kept, live, removed + 1)
    else (i ∷ kept, transfer_instruction_live_set i live, removed)

unfoldable pub eliminate_block : TypeNames → RegSet → Block → Block × ℕ
eliminate_block types live_out block =
    let (kept, live, removed) =
      eliminate_instructions types block.instructions
        (transfer_terminator_live_set block.terminator live_out) in
    (record block { instructions = kept }, removed)

-- `_remove_unreferenced_registers`
unfoldable pub add_definition : Option RegId → RegSet → RegSet
add_definition none s = s
add_definition (some d) s = add d s

unfoldable pub add_instruction_regs : RegSet → List Instruction → RegSet
add_instruction_regs s [] = s
add_instruction_regs s (i ∷ is) =
    add_instruction_regs
      (update (add_definition (instruction_def_reg i) s) (instruction_use_regs i)) is

unfoldable pub add_block_regs : RegSet → List Block → RegSet
add_block_regs s [] = s
add_block_regs s (b ∷ bs) =
    add_block_regs
      (update (add_instruction_regs s b.instructions) (terminator_use_regs b.terminator)) bs

unfoldable pub keep_referenced : RegSet → List Register → List Register
keep_referenced referenced [] = []
keep_referenced referenced (r ∷ rs) =
    let rest = keep_referenced referenced rs in if elem r.reg_id referenced then r ∷ rest else rest

unfoldable pub insert_register : Register → List Register → List Register
insert_register r [] = r ∷ []
insert_register r (s ∷ rs) =
    let rest = insert_register r rs in
    if leb r.reg_id.ordinal s.reg_id.ordinal then r ∷ s ∷ rs else s ∷ rest

unfoldable pub sort_registers : List Register → List Register
sort_registers [] = []
sort_registers (r ∷ rs) = insert_register r (sort_registers rs)

unfoldable pub referenced_reg_ids : CallableDecl → RegSet
referenced_reg_ids c =
    add_block_regs (add_definition c.receiver_reg (update [] c.param_regs)) c.blocks

unfoldable pub remove_unreferenced_registers : CallableDecl → CallableDecl × ℕ
remove_unreferenced_registers c =
    let kept = keep_referenced (referenced_reg_ids c) c.registers in
    let removed = length c.registers - length kept in
    if removed == 0 then (c, 0) else (record c { registers = sort_registers kept }, removed)
