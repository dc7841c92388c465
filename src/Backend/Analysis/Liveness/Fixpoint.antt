-- ===== src/Backend/Analysis/Liveness/Fixpoint.antt =====
-- `analyze_callable_liveness` of compiler/backend/analysis/liveness.py: the iteration to a fixed
-- point over the blocks of a callable, and the live sets at every instruction.
use niflheim.Shared.{
  ℕ, zero, suc, ◌+◌, ◌*◌, Bool, true, false, ◌||◌, ◌&&◌, Option, none, some, List, [], ◌∷◌, ◌++◌,
  map, elem, if◌then◌else◌, length,
}
use niflheim.Shared.Dict.{Dict, lookup, insert}
use niflheim.Shared.Result.{Result, ok, ◌>>=◌}
use niflheim.Shared.Sorting.{sorted_by}
use niflheim.Backend.Ir.Ids.{RegId, reg_id_eq, BlockId, block_id_eq, InstId, inst_id_eq}
use niflheim.Backend.Ir.Model.{Instruction, Block, CallableDecl}
use niflheim.Backend.Ir.InstIds.{inst_id}
use niflheim.Backend.Analysis.RegSet.{RegSet, update, sorted_reg_tuple}
use niflheim.Backend.Analysis.Cfg.{
  CfgError, BlockIndex, BlockMap, targets_of, CallableCfg, index_callable_cfg, block_id_sort_key,
}
use niflheim.Backend.Analysis.Liveness.{
  instruction_use_regs, terminator_use_regs, transfer_instruction_live_set,
  transfer_terminator_live_set, block_live_in,
}
use mathlib.Core.List.{reverse}

abbrev pub LiveSets : Type 0
LiveSets = Dict BlockId RegSet

-- `live[block_id]`, and `.get(block_id, ())` of the results.
unfoldable pub live_at : LiveSets → BlockId → RegSet
live_at live id = elim (lookup id live) [ none ↦ [] | some s ↦ s ]

unfoldable pub subset : RegSet → RegSet → Bool
subset [] t = true
subset (r ∷ s) t = elem r t && subset s t

-- `==` on frozensets.
unfoldable pub same_set : RegSet → RegSet → Bool
unfolding subset
same_set s t = subset s t && subset t s

-- The union of the live-in sets of the successors.
unfoldable pub live_out_of : LiveSets → List BlockId → RegSet
live_out_of live_in [] = []
live_out_of live_in (t ∷ ts) = update (live_out_of live_in ts) (live_at live_in t)

pub record LiveState : Type 0 where
  pub live_in : LiveSets
  pub live_out : LiveSets

-- `if live[block_id] != next: live[block_id] = next; changed = True`
unfoldable pub set_live : BlockId → RegSet → LiveSets → LiveSets × Bool
set_live id next live =
    if same_set (live_at live id) next then (live, false) else (insert id next live, true)

-- The body of the loop over the blocks.
unfoldable pub update_block : BlockMap → BlockId → Block → LiveState → LiveState × Bool
update_block successors id block s =
    let next_live_out = live_out_of s.live_in (targets_of successors id) in
    let next_live_in = block_live_in block.instructions block.terminator next_live_out in
    let (live_out, out_changed) = set_live id next_live_out s.live_out in
    let (live_in, in_changed) = set_live id next_live_in s.live_in in
    (record { live_in = live_in; live_out = live_out }, out_changed || in_changed)

unfoldable pub update_found : BlockMap → BlockId → Option Block → LiveState → LiveState × Bool
update_found successors id none s = (s, false)
update_found successors id (some block) s = update_block successors id block s

-- One round of `while changed`.
unfoldable pub update_blocks : BlockMap → BlockIndex → List BlockId → LiveState → LiveState × Bool
update_blocks successors index [] s = (s, false)
update_blocks successors index (id ∷ ids) s =
    let (t, changed_here) = update_found successors id (lookup id index) s in
    let (u, changed_behind) = update_blocks successors index ids t in
    (u, changed_here || changed_behind)

unfoldable pub iterate : BlockMap → BlockIndex → List BlockId → ℕ → LiveState → LiveState
iterate successors index order zero s = s
iterate successors index order (suc fuel) s =
    let (t, changed) = update_blocks successors index order s in
    elim changed [ true ↦ iterate successors index order fuel t | false ↦ t ]

-- Every register that the blocks use.
unfoldable pub instructions_uses : List Instruction → List RegId
instructions_uses [] = []
instructions_uses (i ∷ is) = instruction_use_regs i ++ instructions_uses is

unfoldable pub blocks_uses : BlockIndex → List RegId
blocks_uses [] = []
blocks_uses ((id, b) ∷ index) =
    (terminator_use_regs b.terminator ++ instructions_uses b.instructions) ++ blocks_uses index

-- Each round but the last adds a register to one of two sets of a block.
abbrev pub rounds : List BlockId → List RegId → ℕ
rounds order regs = (length regs + length regs) * length order + 1

unfoldable pub live_sets : BlockMap → BlockIndex → List BlockId → LiveState
live_sets successors index order =
    let empty : LiveSets = map (λ id. (id, [])) order in
    iterate successors index (reverse order) (rounds order (blocks_uses index))
      (record { live_in = empty; live_out = empty })

abbrev pub InstLiveSets : Type 0
InstLiveSets = Dict InstId (List RegId)

-- `instruction_live_after`
unfoldable pub live_after : InstLiveSets → InstId → List RegId
live_after table id = elim (lookup id table) [ none ↦ [] | some live ↦ live ]

-- `_block_instruction_liveness`: the sets in front of each instruction and behind it, and the set in
-- front of all.
unfoldable pub instruction_liveness :
    List Instruction → RegSet → InstLiveSets × InstLiveSets × RegSet
instruction_liveness [] live = ([], [], live)
instruction_liveness (i ∷ is) live_end =
    let (before, after, live) = instruction_liveness is live_end in
    let live_before = transfer_instruction_live_set i live in
    (
      insert (inst_id i) (sorted_reg_tuple live_before) before,
      insert (inst_id i) (sorted_reg_tuple live) after,
      live_before,
    )

-- `d.update(e)`
unfoldable pub update_dict : InstLiveSets → InstLiveSets → InstLiveSets
update_dict d [] = d
update_dict d ((k, v) ∷ e) = update_dict (insert k v d) e

-- The loop that fills the three tables of a block's instructions and terminator.
unfoldable pub add_instruction_liveness :
    BlockIndex
    → LiveSets
    → List BlockId
    → InstLiveSets × InstLiveSets × LiveSets
    → InstLiveSets × InstLiveSets × LiveSets
add_instruction_liveness index live_out [] tables = tables
add_instruction_liveness index live_out (id ∷ ids) (before, after, terminators) =
    add_instruction_liveness index live_out ids (elim (lookup id index) [
      | none ↦ (before, after, terminators)
      | some b ↦
          let (before_here, after_here, terminator_live_in) =
            instruction_liveness b.instructions
              (transfer_terminator_live_set b.terminator (live_at live_out id)) in
          (
            update_dict before before_here,
            update_dict after after_here,
            insert id (sorted_reg_tuple terminator_live_in) terminators,
          )
    ])

pub record CallableLiveness : Type 0 where
  pub callable_decl : CallableDecl
  pub live_in_by_block : LiveSets
  pub live_out_by_block : LiveSets
  pub live_before_instruction : InstLiveSets
  pub live_after_instruction : InstLiveSets
  pub live_before_terminator_by_block : LiveSets

unfoldable pub sorted_live_sets : List BlockId → LiveSets → LiveSets
sorted_live_sets order live =
    map (λ id. (id, sorted_reg_tuple (live_at live id))) (sorted_by block_id_sort_key order)

abbrev pub inst_entry_sort_key : InstId × List RegId → ℕ
inst_entry_sort_key entry = entry.0.ordinal

abbrev pub block_entry_sort_key : BlockId × List RegId → ℕ
block_entry_sort_key entry = entry.0.ordinal

unfoldable pub liveness_of_cfg : CallableCfg → CallableLiveness
liveness_of_cfg cfg =
    let order = cfg.reverse_postorder_ids in
    let s = live_sets cfg.successor_by_block cfg.block_by_id order in
    let (before, after, terminators) =
      add_instruction_liveness cfg.block_by_id s.live_out order ([], [], []) in
    record {
      callable_decl = cfg.callable_decl;
      live_in_by_block = sorted_live_sets order s.live_in;
      live_out_by_block = sorted_live_sets order s.live_out;
      live_before_instruction = sorted_by inst_entry_sort_key before;
      live_after_instruction = sorted_by inst_entry_sort_key after;
      live_before_terminator_by_block = sorted_by block_entry_sort_key terminators;
    }

abbrev pub is_empty : List Block → Bool
is_empty [] = true
is_empty _ = false

unfoldable pub analyze_callable_liveness : CallableDecl → Result CfgError CallableLiveness
analyze_callable_liveness c =
    if c.is_extern || is_empty c.blocks
    then ok (record {
      callable_decl = c;
      live_in_by_block = [];
      live_out_by_block = [];
      live_before_instruction = [];
      live_after_instruction = [];
      live_before_terminator_by_block = [];
    })
    else (index_callable_cfg c >>= λ cfg. ok (liveness_of_cfg cfg))
