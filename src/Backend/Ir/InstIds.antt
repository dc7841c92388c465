-- ===== src/Backend/Ir/InstIds.antt =====
-- compiler/backend/ir/model.py: the fields that every instruction has from `BackendInstructionBase`.
use niflheim.Backend.Ir.Ids.{InstId}
use niflheim.Backend.Ir.Model.{
  InstructionBase, Instruction, const_inst, copy_inst, unary_inst, binary_inst, cast_inst,
  type_test_inst, alloc_object_inst, field_load_inst, field_store_inst, array_alloc_inst,
  array_length_inst, array_load_inst, array_store_inst, array_slice_inst, array_slice_store_inst,
  null_check_inst, bounds_check_inst, call_inst,
}

unfoldable pub instruction_base : Instruction → InstructionBase
instruction_base (const_inst b d c) = b
instruction_base (copy_inst b d o) = b
instruction_base (unary_inst b d op o) = b
instruction_base (binary_inst b d op l r) = b
instruction_base (cast_inst b d k o t f) = b
instruction_base (type_test_inst b d k o t) = b
instruction_base (alloc_object_inst b d c e) = b
instruction_base (field_load_inst b d o c n) = b
instruction_base (field_store_inst b o c n v) = b
instruction_base (array_alloc_inst b d k n e) = b
instruction_base (array_length_inst b d a) = b
instruction_base (array_load_inst b d k a i) = b
instruction_base (array_store_inst b k a i v) = b
instruction_base (array_slice_inst b d k a i j e) = b
instruction_base (array_slice_store_inst b k a i j v) = b
instruction_base (null_check_inst b v) = b
instruction_base (bounds_check_inst b a i) = b
instruction_base (call_inst b d t args s e) = b

abbrev pub inst_id : Instruction → InstId
inst_id i = (instruction_base i).inst_id
