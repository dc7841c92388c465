-- ===== src/Tests/Safepoints.antt =====
-- The theorem on safepoints at a call with two references.
use niflheim.Shared.{
  ℕ, ◌≡◌, ◌≢◌, ◌||◌, refl, true, false, none, some, List, [], ◌∷◌, elem, map, inl, inr, arith,
}
use niflheim.Shared.Result.{ok}
use niflheim.Shared.Count.{count}
use niflheim.Backend.Ir.Ids.{RegId, reg_id_eq, block_id_eq, inst_id_eq}
use niflheim.Backend.Ir.Model.{
  Instruction, call_inst, CallTarget, reg_operand, return, Block, CallableDecl, Register,
  RegisterOriginKind, Effects,
}
use niflheim.Backend.Ir.Types.{SemanticTypeKind, SemanticTypeRef, type_ref, absent, nil}
use niflheim.Backend.Semantics.Callables.{find_block}
use niflheim.Backend.Analysis.Cfg.{CallableCfg, build_predecessor_map, index_callable_cfg}
use niflheim.Backend.Analysis.Liveness.Fixpoint.{
  CallableLiveness, InstLiveSets, liveness_of_cfg, live_after, analyze_callable_liveness,
}
use niflheim.Backend.Analysis.Liveness.Tables.{HasDistinctInstIds}
use niflheim.Backend.Analysis.Safepoints.{
  resolved_liveness, analyze_callable_safepoints, iter_callable_instructions, live_across,
  safepoint_live_regs_for_instruction, index_registers, analyze_callable_root_slots,
}
use niflheim.Backend.Analysis.Safepoints.Spec.{HoldsReference, NeededAcross, reads_last}
use niflheim.Backend.Analysis.Safepoints.Apart.{analyze_callable_root_slots_apart}
use niflheim.Backend.Analysis.RootSlots.Plan.{HaveDifferentSlots}
use niflheim.Tests.Blocks.{reg, span, at, label, block, main_callable, owner}

abbrev reference_type : SemanticTypeRef
reference_type = type_ref SemanticTypeKind.reference "main::Box" "Box" none none absent nil absent

abbrev reference : ℕ → Register
reference n = record {
  reg_id = reg n;
  type_ref = reference_type;
  debug_name = "box";
  origin_kind = RegisterOriginKind.local;
  semantic_local_id = none;
  span = none;
}

abbrev collecting : Effects
collecting = record {
  reads_memory = true;
  writes_memory = true;
  may_gc = true;
  may_trap = true;
  is_noreturn = false;
  needs_safepoint_hooks = true;
}

-- A call with r1, behind which r2 is live.
abbrev call : Instruction
call =
    call_inst (at 0) none (CallTarget.direct_call owner) (reg_operand (reg 1) ∷ [])
      (record { param_types = []; return_type = none }) collecting

abbrev call_block : Block
call_block = record block {
  instructions = call ∷ [];
  terminator = return span (some (reg_operand (reg 2)));
}

abbrev calling : CallableDecl
calling = record main_callable {
  registers = reference 1 ∷ reference 2 ∷ [];
  blocks = call_block ∷ [];
}

abbrev calling_cfg : CallableCfg
calling_cfg = record {
  callable_decl = calling;
  block_by_id = (label 0, call_block) ∷ [];
  successor_by_block = (label 0, []) ∷ [];
  predecessor_by_block = build_predecessor_map ((label 0, []) ∷ []) ((label 0, call_block) ∷ []);
  reachable_ids = label 0 ∷ [];
  reverse_postorder_ids = label 0 ∷ [];
}

calling_indexed : index_callable_cfg calling ≡ ok calling_cfg
unfolding index_callable_cfg niflheim.Backend.Analysis.Cfg.build_block_index
    niflheim.Backend.Analysis.Cfg.index_blocks niflheim.Backend.Analysis.Cfg.build_successor_map
    niflheim.Backend.Analysis.Cfg.add_successors niflheim.Backend.Analysis.Cfg.successors_at
    niflheim.Backend.Analysis.Cfg.require_entry_block
    niflheim.Backend.Analysis.Cfg.reachable_block_ids niflheim.Backend.Analysis.Cfg.reachable_from
    niflheim.Backend.Analysis.Cfg.visit_stack
    niflheim.Backend.Analysis.Cfg.reverse_postorder_block_ids
    niflheim.Backend.Analysis.Cfg.reverse_postorder_from niflheim.Backend.Analysis.Cfg.visit
    niflheim.Backend.Analysis.Cfg.visit_each niflheim.Backend.Analysis.Cfg.targets_of
    niflheim.Shared.Dict.lookup niflheim.Shared.Dict.insert elem
    niflheim.Backend.Ir.Ids.block_id_beq niflheim.Symbols.callable_id_beq niflheim.Shared.list_beq
    niflheim.Shared.Sorting.sorted_by niflheim.Shared.Sorting.insert_by
calling_indexed = refl

call_listed : elem (label 0) calling_cfg.reverse_postorder_ids ≡ true
unfolding elem niflheim.Backend.Ir.Ids.block_id_beq niflheim.Symbols.callable_id_beq
    niflheim.Shared.list_beq
call_listed = refl

call_found : find_block (label 0) calling.blocks ≡ some call_block
unfolding find_block niflheim.Backend.Ir.Ids.block_id_beq niflheim.Symbols.callable_id_beq
    niflheim.Shared.list_beq
call_found = refl

calling-HasDistinctInstIds : HasDistinctInstIds calling.blocks
unfolding niflheim.Backend.Analysis.Liveness.Tables.all_inst_ids
    niflheim.Backend.Ir.InstIds.instruction_base count
calling-HasDistinctInstIds k = ground arith

abbrev safepoints : InstLiveSets
safepoints = ((at 0).inst_id, reg 1 ∷ reg 2 ∷ []) ∷ []

abbrev calling_liveness : CallableLiveness
calling_liveness = liveness_of_cfg calling_cfg

resolved : resolved_liveness calling none ≡ ok calling_liveness
unfolding resolved_liveness analyze_callable_liveness
resolved = rw calling_indexed refl

listed_instructions : iter_callable_instructions calling ≡ ok (call ∷ [])
unfolding iter_callable_instructions niflheim.Backend.Analysis.Cfg.build_block_index
    niflheim.Backend.Analysis.Cfg.index_blocks niflheim.Shared.Sorting.sorted_by
    niflheim.Shared.Sorting.insert_by niflheim.Symbols.callable_id_beq niflheim.Shared.list_beq elem
    niflheim.Backend.Analysis.Safepoints.iter_blocks niflheim.Shared.Dict.lookup
    niflheim.Shared.Dict.insert niflheim.Backend.Ir.Ids.block_id_beq
    niflheim.Backend.Analysis.Cfg.iter_block_instructions
listed_instructions = refl

live_behind_call : live_after calling_liveness.live_after_instruction (at 0).inst_id ≡ reg 2 ∷ []
unfolding niflheim.Backend.Analysis.Liveness.Fixpoint.liveness_of_cfg live_after
    niflheim.Backend.Analysis.Liveness.Fixpoint.live_sets
    niflheim.Backend.Analysis.Liveness.Fixpoint.iterate
    niflheim.Backend.Analysis.Liveness.Fixpoint.update_blocks
    niflheim.Backend.Analysis.Liveness.Fixpoint.update_found
    niflheim.Backend.Analysis.Liveness.Fixpoint.update_block
    niflheim.Backend.Analysis.Liveness.Fixpoint.set_live
    niflheim.Backend.Analysis.Liveness.Fixpoint.live_out_of
    niflheim.Backend.Analysis.Liveness.Fixpoint.live_at
    niflheim.Backend.Analysis.Liveness.Fixpoint.same_set
    niflheim.Backend.Analysis.Liveness.Fixpoint.subset
    niflheim.Backend.Analysis.Liveness.Fixpoint.blocks_uses
    niflheim.Backend.Analysis.Liveness.Fixpoint.instructions_uses
    niflheim.Backend.Analysis.Liveness.Fixpoint.add_instruction_liveness
    niflheim.Backend.Analysis.Liveness.Fixpoint.instruction_liveness
    niflheim.Backend.Analysis.Liveness.Fixpoint.update_dict
    niflheim.Backend.Analysis.Liveness.transfer_terminator_live_set
    niflheim.Backend.Analysis.Liveness.transfer_instruction_live_set
    niflheim.Backend.Analysis.Liveness.instructions_live_in
    niflheim.Backend.Analysis.Liveness.block_live_in
    niflheim.Backend.Analysis.Liveness.terminator_use_regs
    niflheim.Backend.Analysis.Liveness.instruction_use_regs
    niflheim.Backend.Analysis.Liveness.merge_reg_uses
    niflheim.Backend.Analysis.Liveness.operand_use_regs
    niflheim.Backend.Analysis.Liveness.call_target_operands
    niflheim.Backend.Analysis.Liveness.remove_definition
    niflheim.Backend.Analysis.Liveness.used_regs niflheim.Backend.Analysis.RegSet.add
    niflheim.Backend.Analysis.RegSet.insert_sorted niflheim.Backend.Analysis.RegSet.sorted_reg_tuple
    niflheim.Backend.Analysis.RegSet.update niflheim.Backend.Analysis.Cfg.targets_of
    niflheim.Shared.Dict.lookup niflheim.Shared.Dict.insert elem
    niflheim.Backend.Ir.Ids.block_id_beq niflheim.Backend.Ir.Ids.inst_id_beq
    niflheim.Backend.Ir.Ids.reg_id_beq niflheim.Symbols.callable_id_beq niflheim.Shared.list_beq
    niflheim.Shared.Sorting.sorted_by niflheim.Shared.Sorting.insert_by
    niflheim.Backend.Ir.InstIds.instruction_base
live_behind_call = refl

across : live_across call calling_liveness.live_after_instruction ≡ reg 1 ∷ reg 2 ∷ []
unfolding live_across niflheim.Backend.Analysis.Liveness.remove_definition elem
    niflheim.Backend.Analysis.RegSet.update niflheim.Backend.Analysis.Liveness.instruction_use_regs
    niflheim.Backend.Analysis.Liveness.merge_reg_uses
    niflheim.Backend.Analysis.RegSet.sorted_reg_tuple niflheim.Backend.Analysis.Liveness.used_regs
    niflheim.Backend.Analysis.Liveness.call_target_operands
    niflheim.Backend.Analysis.Liveness.operand_use_regs niflheim.Backend.Analysis.RegSet.add
    niflheim.Backend.Analysis.RegSet.insert_sorted niflheim.Symbols.callable_id_beq
    niflheim.Backend.Ir.InstIds.instruction_base niflheim.Shared.list_beq
    niflheim.Backend.Ir.Ids.reg_id_beq
across = rw live_behind_call refl

call_regs :
    safepoint_live_regs_for_instruction call calling_liveness.live_after_instruction
      (index_registers [] calling.registers)
    ≡ ok (reg 1 ∷ reg 2 ∷ [])
unfolding safepoint_live_regs_for_instruction index_registers
    niflheim.Backend.Analysis.Safepoints.gc_references
    niflheim.Backend.Analysis.RegSet.sorted_reg_tuple niflheim.Backend.Analysis.RegSet.insert_sorted
    niflheim.Shared.Dict.lookup niflheim.Shared.Dict.insert
    niflheim.Backend.Analysis.Safepoints.register_is_gc_reference
    niflheim.Backend.Ir.Types.is_reference_type_ref niflheim.Backend.Ir.Ids.reg_id_beq
    niflheim.Symbols.callable_id_beq niflheim.Shared.list_beq
call_regs = rw across refl

analyzed : analyze_callable_safepoints calling none ≡ ok safepoints
unfolding analyze_callable_safepoints niflheim.Backend.Analysis.Safepoints.add_safepoints
    niflheim.Backend.Analysis.Safepoints.instruction_is_safepoint
    niflheim.Backend.Analysis.Safepoints.instruction_effects niflheim.Shared.Dict.insert
    niflheim.Shared.Sorting.sorted_by niflheim.Shared.Sorting.insert_by
    niflheim.Backend.Ir.InstIds.instruction_base
analyzed = rw resolved (rw listed_instructions (rw call_regs refl))

-- The call reads r1, and behind it the block returns r2.
needed_1 : NeededAcross calling.blocks (reg 1) call [] call_block.terminator
needed_1 = ((λ e. cc), inl (inl refl))

needed_2 : NeededAcross calling.blocks (reg 2) call [] call_block.terminator
needed_2 = ((λ e. cc), inr (reads_last call_block.terminator (inl refl)))

holds_1 : HoldsReference (reg 1) calling.registers
unfolding elem niflheim.Backend.Ir.Ids.reg_id_beq niflheim.Symbols.callable_id_beq
    niflheim.Shared.list_beq
holds_1 = (refl, ((λ e. tt), ((λ e. tt), tt)))

holds_2 : HoldsReference (reg 2) calling.registers
unfolding elem niflheim.Backend.Ir.Ids.reg_id_beq niflheim.Symbols.callable_id_beq
    niflheim.Shared.list_beq
holds_2 = (refl, ((λ e. tt), ((λ e. tt), tt)))

analyze_callable_root_slots_apart_example :
    HaveDifferentSlots (reg 1) (reg 2) (analyze_callable_root_slots safepoints)
analyze_callable_root_slots_apart_example =
    analyze_callable_root_slots_apart calling calling_cfg safepoints (label 0) call_block [] call []
      (reg 1) (reg 2) refl calling_indexed call_listed call_found calling-HasDistinctInstIds refl
      analyzed (inl refl) needed_1 needed_2 holds_1 holds_2 (λ e. cc)
