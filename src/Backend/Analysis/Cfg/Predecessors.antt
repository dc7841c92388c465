-- ===== src/Backend/Analysis/Cfg/Predecessors.antt =====
-- The map of predecessors is the converse of the map of successors.
use niflheim.Shared.{
  ◌≡◌, refl, ap, ◌∙◌, Bool, true, false, ◌||◌, ◌&&◌, List, [], ◌∷◌, ◌++◌, map, arith, ◌==◌, elem,
  if◌then◌else◌,
}
use niflheim.Shared.Dict.{lookup, insert, keys, lookup-insert, elem-keys-insert}
use niflheim.Shared.Sorting.{sorted_by}
use niflheim.Shared.Count.{count, elem_of_count, count-sorted_by, elem-append}
use niflheim.Backend.Ir.Ids.{BlockId, block_id_eq, block_id_beq_iff}
use niflheim.Backend.Analysis.Cfg.{
  BlockIndex, BlockMap, targets_of, append_source, add_predecessors, block_id_sort_key,
  build_predecessor_map,
}
use mathlib.Core.List.{map-id}

targets_of-insert :
    (b t : BlockId) (ts : List BlockId) (m : BlockMap)
    → targets_of (insert t ts m) b ≡ (if b == t then ts else targets_of m b)
unfolding targets_of
targets_of-insert b t ts m = ground (arith, lookup-insert b t ts m)

targets_of-append_source :
    (p b source : BlockId) (ts : List BlockId) (lists : BlockMap)
    → elem p (targets_of (append_source source ts lists) b)
      ≡ (elem p (targets_of lists b) || (p == source && elem b ts))
unfolding append_source elem
targets_of-append_source p b source [] lists = ground arith
targets_of-append_source p b source (t ∷ ts) lists = ground (
  arith,
  targets_of-append_source p b source ts (insert t (targets_of lists t ++ source ∷ []) lists),
  targets_of-insert b t (targets_of lists t ++ source ∷ []) lists,
  elem-append p (targets_of lists t) (source ∷ []),
  block_id_beq_iff b t,
)

targets_of-add_predecessors :
    (m : BlockMap) (p b : BlockId) (sources : List BlockId) (lists : BlockMap)
    → elem p (targets_of (add_predecessors m sources lists) b)
      ≡ (elem p (targets_of lists b) || (elem p sources && elem b (targets_of m p)))
unfolding add_predecessors elem
targets_of-add_predecessors m p b [] lists = ground arith
targets_of-add_predecessors m p b (s ∷ sources) lists = ground (
  arith,
  targets_of-add_predecessors m p b sources (append_source s (targets_of m s) lists),
  targets_of-append_source p b s (targets_of m s) lists,
  block_id_beq_iff p s,
)

append_source-keys :
    (b source : BlockId) (ts : List BlockId) (lists : BlockMap)
    → elem b (keys lists) ≡ true
    → elem b (keys (append_source source ts lists)) ≡ true
unfolding append_source
append_source-keys b source [] lists h = h
append_source-keys b source (t ∷ ts) lists h =
    let more = targets_of lists t ++ source ∷ [] in
    append_source-keys b source ts (insert t more lists)
      (ground (arith, elem-keys-insert b t more lists))

add_predecessors-keys :
    (m : BlockMap) (b : BlockId) (sources : List BlockId) (lists : BlockMap)
    → elem b (keys lists) ≡ true
    → elem b (keys (add_predecessors m sources lists)) ≡ true
unfolding add_predecessors
add_predecessors-keys m b [] lists h = h
add_predecessors-keys m b (s ∷ sources) lists h =
    add_predecessors-keys m b sources (append_source s (targets_of m s) lists)
      (append_source-keys b s (targets_of m s) lists h)

pub elem-sorted_by :
    (b : BlockId) (ids : List BlockId) → elem b (sorted_by block_id_sort_key ids) ≡ elem b ids
unfolding count
elem-sorted_by b ids =
    let counts = count-sorted_by (λ (x : BlockId). x) block_id_sort_key b ids in
    ground (
      arith,
      elem_of_count b (sorted_by block_id_sort_key ids),
      elem_of_count b ids,
      counts,
      map-id (sorted_by block_id_sort_key ids),
      map-id ids,
    )

tabulated :
    (f : BlockId → List BlockId) (b : BlockId) (ids : List BlockId)
    → targets_of (map (λ id. (id, f id)) ids) b ≡ (if elem b ids then f b else [])
unfolding targets_of lookup elem
tabulated f b [] = refl
tabulated f b (id ∷ ids) = ground (arith, tabulated f b ids, block_id_beq_iff b id)

targets_of-absent : (p : BlockId) (m : BlockMap) → elem p (keys m) ≡ false → targets_of m p ≡ []
unfolding targets_of lookup elem
targets_of-absent p [] h = refl
targets_of-absent p ((k, ts) ∷ m) h = ground (arith, targets_of-absent p m)

empty_lists : (b : BlockId) (index : BlockIndex) → targets_of (map (λ x. (x.0, [])) index) b ≡ []
unfolding targets_of lookup
empty_lists b [] = refl
empty_lists b ((k, x) ∷ index) = ground (arith, empty_lists b index)

empty_keys :
    (b : BlockId) (index : BlockIndex)
    → elem b (keys {V = List BlockId} (map (λ x. (x.0, [])) index)) ≡ elem b (keys index)
unfolding elem
empty_keys b [] = refl
empty_keys b ((k, x) ∷ index) = ap (λ (y : Bool). b == k || y) (empty_keys b index)

-- For a declared block, the map of predecessors lists exactly the blocks that have it among their
-- successors.
pub targets_of-build_predecessor_map :
    (m : BlockMap) (index : BlockIndex) (p b : BlockId)
    → elem b (keys index) ≡ true
    → elem p (targets_of (build_predecessor_map m index) b) ≡ elem b (targets_of m p)
unfolding build_predecessor_map elem
targets_of-build_predecessor_map m index p b h =
    let empty : BlockMap = map (λ x. (x.0, [])) index in
    let sources = sorted_by block_id_sort_key (keys m) in
    let lists = add_predecessors m sources empty in
    let declared : elem b (sorted_by block_id_sort_key (keys lists)) ≡ true =
      elem-sorted_by b (keys lists)
      ∙ add_predecessors-keys m b sources empty (empty_keys b index ∙ h) in
    ground (
      arith,
      declared,
      tabulated (targets_of lists) b (sorted_by block_id_sort_key (keys lists)),
      targets_of-add_predecessors m p b sources empty,
      empty_lists b index,
      elem-sorted_by p (keys m),
      targets_of-absent p m,
    )
