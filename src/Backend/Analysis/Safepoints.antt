-- ===== src/Backend/Analysis/Safepoints.antt =====
-- compiler/backend/analysis/safepoints.py: the references that are live at each instruction at which
-- the garbage collector may run, and analyze_callable_root_slots of root_slots.py, which gives them
-- slots.
pub mod Listing
pub mod Spec
pub mod Live
pub mod Slots
pub mod Apart
use niflheim.Shared.{
  ℕ, Bool, true, false, ◌||◌, Option, none, some, List, [], ◌∷◌, ◌++◌, map, if◌then◌else◌,
}
use niflheim.Shared.Dict.{Dict, lookup, insert}
use niflheim.Shared.Result.{Result, ok, err, ◌>>=◌}
use niflheim.Shared.Sorting.{sorted_by}
use niflheim.Backend.Ir.Ids.{RegId, reg_id_eq, BlockId, block_id_eq, InstId, inst_id_eq}
use niflheim.Backend.Ir.InstIds.{inst_id}
use niflheim.Backend.Ir.Types.{is_reference_type_ref}
use niflheim.Backend.Ir.Model.{
  Effects, Instruction, call_inst, alloc_object_inst, array_alloc_inst, array_slice_inst, Block,
  Register, CallableDecl,
}
use niflheim.Backend.Semantics.Operands.{instruction_def_reg}
use niflheim.Backend.Analysis.RegSet.{RegSet, update, sorted_reg_tuple}
use niflheim.Backend.Analysis.Cfg.{
  CfgError, BlockIndex, block_sort_key, build_block_index, iter_block_instructions,
}
use niflheim.Backend.Analysis.Liveness.{instruction_use_regs, remove_definition}
use niflheim.Backend.Analysis.Liveness.Fixpoint.{
  InstLiveSets, live_after, CallableLiveness, analyze_callable_liveness, inst_entry_sort_key,
  is_empty,
}
use niflheim.Backend.Analysis.RootSlots.{build_root_slot_plan_from_live_reg_sets}

-- `KeyError` where an instruction reads a register that the callable does not declare.
pub data SafepointError : Type 0 where
  cfg_error : CfgError → SafepointError
  undeclared_register : RegId → SafepointError

unfoldable pub instruction_effects : Instruction → Option Effects
instruction_effects (call_inst b d t args s e) = some e
instruction_effects (alloc_object_inst b d c e) = some e
instruction_effects (array_alloc_inst b d k n e) = some e
instruction_effects (array_slice_inst b d k a i j e) = some e
instruction_effects _ = none

unfoldable pub instruction_is_safepoint : Instruction → Bool
instruction_is_safepoint i = elim (instruction_effects i) [
  | none ↦ false
  | some e ↦ e.may_gc || e.needs_safepoint_hooks
]

unfoldable pub register_is_gc_reference : Register → Bool
register_is_gc_reference r = is_reference_type_ref r.type_ref

abbrev pub RegisterIndex : Type 0
RegisterIndex = Dict RegId Register

unfoldable pub index_registers : RegisterIndex → List Register → RegisterIndex
index_registers index [] = index
index_registers index (r ∷ rs) = index_registers (insert r.reg_id r index) rs

-- The generator over the sorted live registers.
unfoldable pub gc_references : RegisterIndex → List RegId → Result SafepointError (List RegId)
gc_references index [] = ok []
gc_references index (r ∷ rs) = elim (lookup r index) [
  | none ↦ err (undeclared_register r)
  | some register ↦ gc_references index rs >>= λ rest.
      ok (if register_is_gc_reference register then r ∷ rest else rest)
]

-- The set before it is sorted and filtered.
unfoldable pub live_across : Instruction → InstLiveSets → RegSet
live_across i table =
    remove_definition (instruction_def_reg i)
      (update (update [] (live_after table (inst_id i))) (instruction_use_regs i))

unfoldable pub safepoint_live_regs_for_instruction :
    Instruction → InstLiveSets → RegisterIndex → Result SafepointError (List RegId)
safepoint_live_regs_for_instruction i table index =
    gc_references index (sorted_reg_tuple (live_across i table))

unfoldable pub iter_blocks : BlockIndex → List Block → List Instruction
iter_blocks index [] = []
iter_blocks index (b ∷ bs) = elim (lookup b.block_id index) [
  | none ↦ iter_blocks index bs
  | some found ↦ iter_block_instructions found ++ iter_blocks index bs
]

-- `iter_callable_instructions` for all blocks, each of which the index has.
unfoldable pub iter_callable_instructions : CallableDecl → Result CfgError (List Instruction)
iter_callable_instructions c =
    build_block_index c >>= λ index. ok (iter_blocks index (sorted_by block_sort_key c.blocks))

unfoldable pub add_safepoints :
    InstLiveSets
    → RegisterIndex
    → InstLiveSets
    → List Instruction
    → Result SafepointError InstLiveSets
add_safepoints table index regs [] = ok regs
add_safepoints table index regs (i ∷ is) = elim (instruction_is_safepoint i) [
  | false ↦ add_safepoints table index regs is
  | true ↦ safepoint_live_regs_for_instruction i table index >>= λ live.
      add_safepoints table index (insert (inst_id i) live regs) is
]

abbrev pub lift : {A : Type 0} → Result CfgError A → Result SafepointError A
lift r = elim r [ ok a ↦ ok a | err e ↦ err (cfg_error e) ]

-- The liveness that is given, or that of the callable.
unfoldable pub resolved_liveness :
    CallableDecl → Option CallableLiveness → Result SafepointError CallableLiveness
resolved_liveness c none = lift (analyze_callable_liveness c)
resolved_liveness c (some liveness) = ok liveness

unfoldable pub analyze_callable_safepoints :
    CallableDecl → Option CallableLiveness → Result SafepointError InstLiveSets
analyze_callable_safepoints c given =
    if c.is_extern || is_empty c.blocks
    then ok []
    else (resolved_liveness c given >>= λ liveness. lift (iter_callable_instructions c) >>= λ is.
        add_safepoints liveness.live_after_instruction (index_registers [] c.registers) [] is
        >>= λ regs. ok (sorted_by inst_entry_sort_key regs))

abbrev pub stored_live_reg_sets : InstLiveSets → List (List RegId)
stored_live_reg_sets = map (λ entry. entry.1)

-- The tuples in the order of their sorted keys.
abbrev pub all_safepoint_live_reg_sets : InstLiveSets → List (List RegId)
all_safepoint_live_reg_sets table = stored_live_reg_sets (sorted_by inst_entry_sort_key table)

unfoldable pub analyze_callable_root_slots : InstLiveSets → Dict RegId ℕ × List (List RegId)
analyze_callable_root_slots safepoints =
    build_root_slot_plan_from_live_reg_sets (all_safepoint_live_reg_sets safepoints)
