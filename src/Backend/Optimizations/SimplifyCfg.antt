-- ===== src/Backend/Optimizations/SimplifyCfg.antt =====
-- compiler/backend/optimizations/simplify_cfg.py: folding of branches and forwarding through blocks
-- that only jump. A pass that changes nothing returns its argument in the source; here it returns an
-- equal one. The counts that only feed the log are left out.
pub mod Branches
pub mod Forwarding
pub mod Forwards
pub mod Redirect
pub mod Jumps
pub mod Unreachable
pub mod Kept
use niflheim.Shared.{
  ℕ, zero, suc, ◌+◌, Bool, true, false, not, ◌&&◌, ◌||◌, Option, none, some, List, [], ◌∷◌, map,
  ◌==◌, nat_eq, elem, if◌then◌else◌, length,
}
use niflheim.Shared.Dict.{Dict, lookup, insert}
use niflheim.Shared.Result.{Result, ok, ◌>>=◌}
use niflheim.Backend.Analysis.Cfg.{
  CfgError, build_block_index, build_successor_map, reachable_block_ids,
}
use niflheim.Backend.Ir.Ids.{BlockId, block_id_eq}
use niflheim.Backend.Ir.Model.{
  Constant, bool_const, Operand, const_operand, Terminator, jump, branch, Block, CallableDecl,
  Instruction,
}

-- What a terminator is replaced by, if it is.
unfoldable pub constant_branch : Terminator → Option Terminator
constant_branch (branch s (const_operand (bool_const b)) t f) = some (jump s (if b then t else f))
constant_branch _ = none

unfoldable pub same_target_branch : Terminator → Option Terminator
same_target_branch (branch s c t f) = if t == f then some (jump s t) else none
same_target_branch _ = none

abbrev pub with_terminator : Block → Option Terminator → Block
with_terminator b none = b
with_terminator b (some t) = record b { terminator = t }

abbrev pub is_empty {ℓ} : {A : Type ℓ} → List A → Bool
is_empty [] = true
is_empty _ = false

unfoldable pub fold_constant_branches : CallableDecl → CallableDecl
fold_constant_branches c =
    if c.is_extern || is_empty c.blocks
    then c
    else record c { blocks = map (λ b. with_terminator b (constant_branch b.terminator)) c.blocks }

unfoldable pub fold_same_target_branches : CallableDecl → CallableDecl
fold_same_target_branches c = if c.is_extern || is_empty c.blocks then c else record c {
  blocks = map (λ b. with_terminator b (same_target_branch b.terminator)) c.blocks;
}

-- A block and where it forwards to.
abbrev pub Targets : Type 0
Targets = Dict BlockId BlockId

abbrev pub is_entry : BlockId → Option BlockId → Bool
is_entry id none = false
is_entry id (some entry) = id == entry

abbrev pub jump_target : Terminator → Option BlockId
jump_target (jump s t) = some t
jump_target _ = none

-- The target of the block, if it is a candidate.
unfoldable pub candidate_target : Option BlockId → Block → Option BlockId
candidate_target entry b =
    if is_entry b.block_id entry || not (is_empty b.instructions)
    then none
    else elim (jump_target b.terminator) [
      | none ↦ none
      | some t ↦ if t == b.block_id then none else some t
    ]

unfoldable pub add_candidates : Option BlockId → Targets → List Block → Targets
add_candidates entry raw [] = raw
add_candidates entry raw (b ∷ bs) =
    add_candidates entry
      (elim (candidate_target entry b) [ none ↦ raw | some t ↦ insert b.block_id t raw ]) bs

-- The loop of `_resolve_forward_target`, on fuel.
unfoldable pub resolve_from : Targets → ℕ → List BlockId → BlockId → Option BlockId
resolve_from raw zero visited current = none
resolve_from raw (suc fuel) visited current = elim (lookup current raw) [
  | none ↦ some current
  | some next ↦
      let resolved = resolve_from raw fuel (current ∷ visited) next in
      if elem current visited || next == current then none else resolved
]

-- One round for each candidate, and the last look up.
unfoldable pub resolve_forward_target : BlockId → Targets → Option BlockId
resolve_forward_target id raw = resolve_from raw (length raw + 1) [] id

unfoldable pub add_resolved : Targets → Targets → List (BlockId × BlockId) → Targets
add_resolved raw resolved [] = resolved
add_resolved raw resolved ((id, _) ∷ rest) =
    add_resolved raw
      (elim (resolve_forward_target id raw) [
        | none ↦ resolved
        | some t ↦ if t == id then resolved else insert id t resolved
      ])
      rest

unfoldable pub forward_target_by_block : CallableDecl → Targets
forward_target_by_block c =
    let raw = add_candidates c.entry_block_id [] c.blocks in add_resolved raw [] raw

-- The loop of `_remap_target`, on fuel: `start` is what a cycle gives.
unfoldable pub remap_from : Targets → ℕ → BlockId → List BlockId → BlockId → BlockId
remap_from forward zero start visited current = start
remap_from forward (suc fuel) start visited current = elim (lookup current forward) [
  | none ↦ current
  | some next ↦
      let target = remap_from forward fuel start (current ∷ visited) next in
      if elem current visited then start else target
]

unfoldable pub remap_target : BlockId → Targets → BlockId
remap_target id forward = remap_from forward (length forward + 1) id [] id

unfoldable pub rewrite_terminator : Terminator → Targets → Terminator
rewrite_terminator (jump s t) forward = jump s (remap_target t forward)
rewrite_terminator (branch s c t f) forward =
    let t' = remap_target t forward in
    let f' = remap_target f forward in if t' == f' then jump s t' else branch s c t' f'
rewrite_terminator t forward = t

abbrev pub is_forwarded : BlockId → Targets → Bool
is_forwarded id forward = elim (lookup id forward) [ none ↦ false | some _ ↦ true ]

unfoldable pub forwarded_blocks : Targets → List Block → List Block
forwarded_blocks forward [] = []
forwarded_blocks forward (b ∷ bs) =
    let rest = forwarded_blocks forward bs in
    if is_forwarded b.block_id forward
    then rest
    else record b { terminator = rewrite_terminator b.terminator forward } ∷ rest

unfoldable pub simplify_trivial_jump_blocks : CallableDecl → Result CfgError CallableDecl
simplify_trivial_jump_blocks c =
    if c.is_extern || is_empty c.blocks
    then ok c
    else (build_block_index c >>= λ _.
        let forward = forward_target_by_block c in
        ok
          (if is_empty forward then c else record c { blocks = forwarded_blocks forward c.blocks }))

unfoldable pub blocks_in : List BlockId → List Block → List Block
blocks_in reachable [] = []
blocks_in reachable (b ∷ bs) =
    let rest = blocks_in reachable bs in if elem b.block_id reachable then b ∷ rest else rest

unfoldable pub eliminate_unreachable_blocks : CallableDecl → Result CfgError CallableDecl
eliminate_unreachable_blocks c = if c.is_extern || is_empty c.blocks then ok c else (do
  index ← build_block_index c
  successors ← build_successor_map c index
  reachable ← reachable_block_ids c successors index
  ok (
      if length reachable == length c.blocks
      then c
      else record c { blocks = blocks_in reachable c.blocks }))
