-- ===== src/Tests/Cfg.antt =====
-- The theorems on control flow graphs, on liveness and on the passes over callables at a callable of
-- four blocks, one of which cannot be reached.
use niflheim.Shared.{
  list_beq, ℕ, ◌≡◌, ◌↔◌, ◌||◌, refl, Bool, true, false, Option, none, some, List, [], ◌∷◌, elem,
  nat_eq, map,
}
use niflheim.Shared.Dict.{lookup, insert, keys}
use niflheim.Shared.Result.{ok}
use niflheim.Shared.Count.{count, indicator}
use niflheim.Backend.Ir.Ids.{
  inst_id_eq, inst_id_beq, inst_id_beq, BlockId, block_id_eq, block_id_beq, reg_id_eq,
}
use niflheim.Backend.Ir.Model.{
  reg_operand, const_operand, unit_const, Instruction, copy_inst, const_inst, branch, jump, return,
  Terminator, Block, CallableDecl, bool_const,
}
use niflheim.Backend.Ir.InstIds.{inst_id}
use niflheim.Backend.Analysis.Cfg.{
  visit_each, visit, reverse_postorder_block_ids, visit_stack, reachable_block_ids,
  require_declared_successor, require_entry_block, successors_at, add_successors, index_blocks,
  BlockIndex, CallableCfg, BlockMap, build_block_index, build_successor_map, build_predecessor_map,
  targets_of, reachable_from, reverse_postorder_from, index_callable_cfg,
}
use niflheim.Backend.Analysis.Cfg.WellFormed.{IsWellFormed, terminator_targets}
use niflheim.Backend.Analysis.Cfg.Whole.{index_callable_cfg-IsWellFormed}
use niflheim.Backend.Analysis.Cfg.Reachable.{Reaches, reachable_from-Reaches}
use niflheim.Backend.Analysis.Cfg.Postorder.{count-reverse_postorder_from}
use niflheim.Backend.Analysis.Cfg.Predecessors.{targets_of-build_predecessor_map}
use niflheim.Tests.Blocks.{
  reg, span, at, label, block, number, units, main_callable, counting, idle,
}
use niflheim.Backend.Analysis.Liveness.Fixpoint.{liveness_of_cfg, live_at, instruction_liveness}
use niflheim.Backend.Optimizations.DeadPure.Runs.{KeepsAllDeclared}
use niflheim.Backend.Semantics.Callables.{observe, find_block, run_from}
use niflheim.Backend.Optimizations.SimplifyCfg.{eliminate_unreachable_blocks}
use niflheim.Backend.Optimizations.DeadPure.Callable.{
  eliminate_callable_once, register_type_names, eliminate_callable,
}
use niflheim.Symbols.{callable_id_beq}
use niflheim.Backend.Optimizations.SimplifyCfg.Unreachable.{run_from-eliminate_unreachable_blocks}
use niflheim.Backend.Analysis.RegSet.{sorted_reg_tuple}
use niflheim.Backend.Optimizations.SimplifyCfg.Kept.{eliminate_unreachable_blocks-IsWellFormed}
use niflheim.Backend.Optimizations.DeadPure.{remove_unreferenced_registers}
use niflheim.Backend.Analysis.Liveness.{
  instructions_live_in, block_live_in, transfer_instruction_live_set,
}
use niflheim.Backend.Optimizations.DeadPure.Ends.{
  eliminate_callable_ends, observe-eliminate_callable,
}
use niflheim.Backend.Analysis.Liveness.Instructions.{instruction_liveness_lem}
use niflheim.Backend.Analysis.Liveness.Stable.{live_in_some, analyze_callable_liveness-IsFixpoint}
use niflheim.Shared.Sorting.{sorted_by}
use niflheim.Tests.Idle.{plain_step, idle_total}
use niflheim.Backend.Semantics.{constant, step}

abbrev pub named : ℕ → List Instruction → Terminator → Block
named n is t = record block { block_id = label n; instructions = is; terminator = t }

abbrev pub setting : Instruction
setting = const_inst (at 0) (reg 0) (bool_const true)

abbrev pub dead_copy : Instruction
dead_copy = copy_inst (at 1) (reg 3) (const_operand unit_const)

abbrev pub named_0 : Block
named_0 = named 0 (setting ∷ dead_copy ∷ []) (branch span (reg_operand (reg 0)) (label 1) (label 2))

abbrev named_1 : Block
named_1 = named 1 (const_inst (at 2) (reg 1) (number 5) ∷ []) (jump span (label 2))

abbrev named_2 : Block
named_2 = named 2 [] (return span (some (reg_operand (reg 0))))

abbrev named_3 : Block
named_3 = named 3 [] (jump span (label 2))

-- Block 0 goes to 1 or 2, block 1 to 2, and nothing goes to 3. The copy into r3 is dead.
abbrev pub branching_callable : CallableDecl
branching_callable = record main_callable { blocks = named_3 ∷ named_0 ∷ named_1 ∷ named_2 ∷ [] }

abbrev edges : BlockMap
edges =
    (label 0, label 1 ∷ label 2 ∷ [])
    ∷ (label 1, label 2 ∷ [])
    ∷ (label 2, [])
    ∷ (label 3, label 2 ∷ [])
    ∷ []

abbrev order : List BlockId
order = label 0 ∷ label 1 ∷ label 2 ∷ []

abbrev pub block_index : BlockIndex
block_index = map (λ b. (b.block_id, b)) (named_0 ∷ named_1 ∷ named_2 ∷ named_3 ∷ [])

abbrev pub branching_cfg : CallableCfg
branching_cfg = record {
  callable_decl = branching_callable;
  block_by_id = block_index;
  successor_by_block = edges;
  predecessor_by_block = build_predecessor_map edges block_index;
  reachable_ids = label 2 ∷ label 1 ∷ label 0 ∷ [];
  reverse_postorder_ids = order;
}

pub indexed : index_callable_cfg branching_callable ≡ ok branching_cfg
unfolding index_callable_cfg build_block_index index_blocks build_successor_map add_successors
    successors_at require_entry_block require_declared_successor reachable_block_ids reachable_from
    visit_stack reverse_postorder_block_ids reverse_postorder_from visit visit_each targets_of
    lookup insert elem block_id_beq callable_id_beq list_beq sorted_by
    niflheim.Shared.Sorting.insert_by
indexed = refl

pub branching-IsWellFormed : IsWellFormed branching_callable
branching-IsWellFormed =
    (index_callable_cfg-IsWellFormed branching_callable refl).0 (branching_cfg, indexed)

index_callable_cfg-IsWellFormed_example :
    ((cfg : CallableCfg) × (index_callable_cfg branching_callable ≡ ok cfg))
    ↔ IsWellFormed branching_callable
index_callable_cfg-IsWellFormed_example = index_callable_cfg-IsWellFormed branching_callable refl

reachable_from-Reaches_example :
    (elem (label 2) (reachable_from edges (label 0)) ≡ true) ↔ Reaches edges (label 0) (label 2)
reachable_from-Reaches_example = reachable_from-Reaches edges (label 0) (label 2)

count-reverse_postorder_from_example :
    count (label 2) (reverse_postorder_from edges (label 0))
    ≡ indicator (elem (label 2) (reachable_from edges (label 0)))
count-reverse_postorder_from_example = count-reverse_postorder_from edges (label 0) (label 2)

declared : elem (label 2) (keys block_index) ≡ true
unfolding elem block_id_beq callable_id_beq list_beq
declared = refl

targets_of-build_predecessor_map_example :
    elem (label 3) (targets_of (build_predecessor_map edges block_index) (label 2))
    ≡ elem (label 2) (targets_of edges (label 3))
targets_of-build_predecessor_map_example =
    targets_of-build_predecessor_map edges block_index (label 3) (label 2) declared

-- The pass that drops block 3.
unreachable_dropped :
    (c' : CallableDecl) × (eliminate_unreachable_blocks branching_callable ≡ ok c')
    × IsWellFormed c'
unreachable_dropped =
    eliminate_unreachable_blocks-IsWellFormed branching_callable refl branching-IsWellFormed

eliminate_unreachable_blocks-IsWellFormed_example :
    (c' : CallableDecl) × (eliminate_unreachable_blocks branching_callable ≡ ok c')
    × IsWellFormed c'
eliminate_unreachable_blocks-IsWellFormed_example =
    eliminate_unreachable_blocks-IsWellFormed branching_callable refl branching-IsWellFormed

run_from-eliminate_unreachable_blocks_example :
    run_from counting unreachable_dropped.0.blocks 5 (label 0) units 0
    ≡ run_from counting branching_callable.blocks 5 (label 0) units 0
run_from-eliminate_unreachable_blocks_example =
    run_from-eliminate_unreachable_blocks counting branching_callable unreachable_dropped.0
      (label 0) 5 units 0 refl unreachable_dropped.1

pub listed : elem (label 0) branching_cfg.reverse_postorder_ids ≡ true
unfolding elem block_id_beq callable_id_beq list_beq
listed = refl

pub found : find_block (label 0) branching_callable.blocks ≡ some named_0
unfolding find_block block_id_beq callable_id_beq list_beq
found = refl

analyze_callable_liveness-IsFixpoint_example :
    (elem (reg 0) (live_at (liveness_of_cfg branching_cfg).live_out_by_block (label 0))
      ≡ live_in_some
          (liveness_of_cfg branching_cfg).live_in_by_block
          (reg 0)
          (terminator_targets named_0.terminator))
    × (elem (reg 0) (live_at (liveness_of_cfg branching_cfg).live_in_by_block (label 0))
        ≡ elem (reg 0) (
            block_live_in named_0.instructions named_0.terminator
              (live_at (liveness_of_cfg branching_cfg).live_out_by_block (label 0))))
analyze_callable_liveness-IsFixpoint_example =
    analyze_callable_liveness-IsFixpoint branching_callable branching_cfg (label 0) named_0 (reg 0)
      refl indexed listed found

new_instruction : elem (inst_id dead_copy) (map inst_id (setting ∷ [])) ≡ false
unfolding elem inst_id_beq callable_id_beq list_beq niflheim.Backend.Ir.InstIds.instruction_base
new_instruction = refl

instruction_liveness_lem_example :
    (lookup (inst_id dead_copy) (instruction_liveness (setting ∷ dead_copy ∷ []) []).0
      ≡ some
          (sorted_reg_tuple (transfer_instruction_live_set dead_copy (instructions_live_in [] []))))
    × (lookup (inst_id dead_copy) (instruction_liveness (setting ∷ dead_copy ∷ []) []).1
        ≡ some (sorted_reg_tuple (instructions_live_in [] [])))
    × ((instruction_liveness (setting ∷ dead_copy ∷ []) []).2
        ≡ instructions_live_in (setting ∷ dead_copy ∷ []) [])
instruction_liveness_lem_example =
    instruction_liveness_lem (setting ∷ []) dead_copy [] [] new_instruction

keeps : KeepsAllDeclared idle (register_type_names branching_callable) branching_callable.blocks
unfolding step
keeps =
    let types = register_type_names branching_callable in
    (
      tt,
      (
        (
          plain_step types setting (reg 0) (constant (bool_const true)) (λ x. x) (λ ρ w. refl),
          (plain_step types dead_copy (reg 3) (constant unit_const) (λ x. x) (λ ρ w. refl), tt),
        ),
        (
          (
            plain_step types (const_inst (at 2) (reg 1) (number 5)) (reg 1) (constant (number 5))
                (λ x. x) (λ ρ w. refl),
            tt,
          ),
          (tt, tt),
        ),
      ),
    )

eliminated :
    (current : CallableDecl) × (eliminate_callable branching_callable
      ≡ ok (remove_unreferenced_registers current).0)
    × IsWellFormed current
    × (eliminate_callable_once current ≡ ok (current, 0))
eliminated = eliminate_callable_ends branching_callable refl branching-IsWellFormed

eliminate_callable_ends_example :
    (current : CallableDecl) × (eliminate_callable branching_callable
      ≡ ok (remove_unreferenced_registers current).0)
    × IsWellFormed current
    × (eliminate_callable_once current ≡ ok (current, 0))
eliminate_callable_ends_example =
    eliminate_callable_ends branching_callable refl branching-IsWellFormed

observe-eliminate_callable_example :
    observe
      (run_from idle (remove_unreferenced_registers eliminated.0).0.blocks 5 (label 0) units 0)
    ≡ observe (run_from idle branching_callable.blocks 5 (label 0) units 0)
observe-eliminate_callable_example =
    observe-eliminate_callable idle branching_callable
      (remove_unreferenced_registers eliminated.0).0 (label 0) 5 units 0 idle_total keeps
      (λ r double. absurd double) refl eliminated.1
