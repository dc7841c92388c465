-- ===== src/Backend/Analysis/Cfg.antt =====
-- compiler/backend/analysis/cfg.py: the index of the blocks of a callable, the maps of successors and
-- predecessors, the reachable blocks and their reverse postorder. An error keeps the identifiers that
-- the message of `BackendCfgError` is made from.
pub mod Index
pub mod WellFormed
pub mod Accepts
pub mod Reachable
pub mod Exits
pub mod Postorder
pub mod Predecessors
pub mod Whole
pub mod Changes
use niflheim.Shared.{
  ℕ, zero, suc, ◌+◌, Bool, true, false, not, ◌||◌, Option, none, some, List, [], ◌∷◌, ◌++◌, map,
  ◌==◌, elem, if◌then◌else◌, length,
}
use niflheim.Shared.Dict.{Dict, lookup, insert, keys}
use niflheim.Shared.Result.{Result, ok, err, ◌>>=◌, ◌>>◌, guard}
use niflheim.Shared.Sorting.{sorted_by}
use niflheim.Symbols.{CallableId, callable_id_eq}
use niflheim.Backend.Ir.Ids.{BlockId, block_id_eq}
use niflheim.Backend.Ir.Model.{
  Instruction, Terminator, jump, branch, return, trap, Block, CallableDecl,
}
use niflheim.Backend.Ir.InstIds.{inst_id}
use mathlib.Core.List.{reverse}

pub data CfgError : Type 0 where
  foreign_block duplicate_block : CallableId → BlockId → CfgError
  missing_entry : CallableId → CfgError
  undeclared_entry : CallableId → BlockId → CfgError
  undeclared_successor : CallableId → Block → BlockId → CfgError
  same_successor : CallableId → Block → CfgError

abbrev pub BlockIndex : Type 0
BlockIndex = Dict BlockId Block

abbrev pub BlockMap : Type 0
BlockMap = Dict BlockId (List BlockId)

abbrev pub block_sort_key : Block → ℕ
block_sort_key b = b.block_id.ordinal

-- `m[k]` on a map that has the key; the keys are there by `build_successor_map-closed`.
unfoldable pub targets_of : BlockMap → BlockId → List BlockId
targets_of m id = elim (lookup id m) [ none ↦ [] | some ts ↦ ts ]

unfoldable pub index_blocks : CallableId → BlockIndex → List Block → Result CfgError BlockIndex
index_blocks owner index [] = ok index
index_blocks owner index (b ∷ bs) =
    guard (b.block_id.owner_id == owner) (foreign_block owner b.block_id)
    >> (guard (not (elem b.block_id (keys index))) (duplicate_block owner b.block_id)
        >> index_blocks owner (insert b.block_id b index) bs)

unfoldable pub build_block_index : CallableDecl → Result CfgError BlockIndex
build_block_index c = index_blocks c.callable_id [] (sorted_by block_sort_key c.blocks)

unfoldable pub require_entry_block : CallableDecl → BlockIndex → Result CfgError BlockId
require_entry_block c index = elim c.entry_block_id [
  | none ↦ err (missing_entry c.callable_id)
  | some id ↦ if elem id (keys index) then ok id else err (undeclared_entry c.callable_id id)
]

unfoldable pub require_declared_successor :
    CallableId → BlockIndex → Block → BlockId → Result CfgError (Unit {0})
require_declared_successor owner index b id =
    if not (id.owner_id == owner) || not (elem id (keys index))
    then err (undeclared_successor owner b id)
    else ok tt

-- The tuple that the loop of `build_successor_map` stores for a block.
unfoldable pub successors_at :
    CallableId → BlockIndex → Block → Terminator → Result CfgError (List BlockId)
successors_at owner index b (jump s t) = do require_declared_successor owner index b t; ok (t ∷ [])
successors_at owner index b (branch s c t f) = do
  require_declared_successor owner index b t
  require_declared_successor owner index b f
  guard (not (t == f)) (same_successor owner b)
  ok (t ∷ f ∷ [])
successors_at owner index b (return s v) = ok []
successors_at owner index b (trap s k m) = ok []

unfoldable pub add_successors :
    CallableId → BlockIndex → BlockMap → List Block → Result CfgError BlockMap
add_successors owner index m [] = ok m
add_successors owner index m (b ∷ bs) = successors_at owner index b b.terminator >>= λ ts.
    add_successors owner index (insert b.block_id ts m) bs

unfoldable pub build_successor_map : CallableDecl → BlockIndex → Result CfgError BlockMap
build_successor_map c index =
    if c.is_extern
    then ok []
    else (require_entry_block c index >>= λ _.
        add_successors c.callable_id index [] (sorted_by block_sort_key c.blocks))

-- `predecessor_lists[successor_block_id].append(source_block_id)`
unfoldable pub append_source : BlockId → List BlockId → BlockMap → BlockMap
append_source source [] lists = lists
append_source source (t ∷ ts) lists =
    append_source source ts (insert t (targets_of lists t ++ source ∷ []) lists)

unfoldable pub add_predecessors : BlockMap → List BlockId → BlockMap → BlockMap
add_predecessors successors [] lists = lists
add_predecessors successors (source ∷ sources) lists =
    add_predecessors successors sources (append_source source (targets_of successors source) lists)

abbrev pub block_id_sort_key : BlockId → ℕ
block_id_sort_key id = id.ordinal

unfoldable pub build_predecessor_map : BlockMap → BlockIndex → BlockMap
build_predecessor_map successors index =
    let empty : BlockMap = map (λ b. (b.0, [])) index in
    let lists = add_predecessors successors (sorted_by block_id_sort_key (keys successors)) empty in
    map (λ id. (id, targets_of lists id)) (sorted_by block_id_sort_key (keys lists))

abbrev pub sum_lengths : BlockMap → ℕ
sum_lengths [] = 0
sum_lengths ((id, ts) ∷ m) = length ts + sum_lengths m

-- The `while stack` loop of `reachable_block_ids`, on fuel. The head of the list is the top of the
-- stack, onto which the successors are pushed in reverse.
unfoldable pub visit_stack : BlockMap → ℕ → List BlockId → List BlockId → List BlockId
visit_stack m zero reachable stack = reachable
visit_stack m (suc fuel) reachable [] = reachable
visit_stack m (suc fuel) reachable (id ∷ stack) = elim (elem id reachable) [
  | true ↦ visit_stack m fuel reachable stack
  | false ↦ visit_stack m fuel (id ∷ reachable) (targets_of m id ++ stack)
]

-- One round for the entry, one for each edge, and the last test.
unfoldable pub reachable_from : BlockMap → BlockId → List BlockId
reachable_from m entry = visit_stack m (sum_lengths m + 2) [] (entry ∷ [])

unfoldable pub reachable_block_ids :
    CallableDecl → BlockMap → BlockIndex → Result CfgError (List BlockId)
reachable_block_ids c m index =
    if c.is_extern
    then ok []
    else (require_entry_block c index >>= λ entry. ok (reachable_from m entry))

-- `visited` and `postorder` of `reverse_postorder_block_ids`.
abbrev pub Visits : Type 0
Visits = List BlockId × List BlockId

unfoldable pub visit_each : (BlockId → Visits → Visits) → List BlockId → Visits → Visits
visit_each visit [] state = state
visit_each visit (id ∷ ids) state = visit_each visit ids (visit id state)

-- The recursive `visit`, on the depth that it may reach.
unfoldable pub visit : BlockMap → ℕ → BlockId → Visits → Visits
visit m zero id state = state
visit m (suc depth) id (visited, postorder) = elim (elem id visited) [
  | true ↦ (visited, postorder)
  | false ↦
      let (visited', postorder') =
        visit_each (visit m depth) (targets_of m id) (id ∷ visited, postorder) in
      (visited', postorder' ++ id ∷ [])
]

-- A call inside `depth` others has as many blocks visited.
unfoldable pub reverse_postorder_from : BlockMap → BlockId → List BlockId
reverse_postorder_from m entry = reverse (visit m (length m + 1) entry ([], [])).1

unfoldable pub reverse_postorder_block_ids :
    CallableDecl → BlockMap → BlockIndex → Result CfgError (List BlockId)
reverse_postorder_block_ids c m index =
    if c.is_extern
    then ok []
    else (require_entry_block c index >>= λ entry. ok (reverse_postorder_from m entry))

abbrev pub instruction_sort_key : Instruction → ℕ
instruction_sort_key i = (inst_id i).ordinal

unfoldable pub iter_block_instructions : Block → List Instruction
iter_block_instructions b = sorted_by instruction_sort_key b.instructions

pub record CallableCfg : Type 0 where
  pub callable_decl : CallableDecl
  pub block_by_id : BlockIndex
  pub successor_by_block : BlockMap
  pub predecessor_by_block : BlockMap
  pub reachable_ids : List BlockId
  pub reverse_postorder_ids : List BlockId

unfoldable pub index_callable_cfg : CallableDecl → Result CfgError CallableCfg
index_callable_cfg c = do
  index ← build_block_index c
  successors ← build_successor_map c index
  reachable ← reachable_block_ids c successors index
  order ← reverse_postorder_block_ids c successors index
  ok (record {
    callable_decl = c;
    block_by_id = index;
    successor_by_block = successors;
    predecessor_by_block = build_predecessor_map successors index;
    reachable_ids = reachable;
    reverse_postorder_ids = order;
  })
