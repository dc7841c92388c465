-- ===== src/Backend/Analysis/Cfg/Accepts.antt =====
-- What `build_successor_map` accepts of a whole callable, and the edges that it finds.
use niflheim.Shared.{
  ◌≡◌, refl, sym, ap, ◌∙◌, true, false, Option, none, some, List, [], arith, elem,
}
use niflheim.Shared.Dict.{lookup, keys}
use niflheim.Shared.Result.{ok, ◌>>=◌, >>=-eq-ok}
use niflheim.Shared.Sorting.{sorted_by, All-sorted_by, All-of_sorted_by}
use niflheim.Shared.Count.{count-sorted_by}
use niflheim.Symbols.{callable_id_eq}
use niflheim.Backend.Ir.Ids.{BlockId, block_id_eq}
use niflheim.Backend.Ir.Model.{Block, CallableDecl}
use niflheim.Backend.Semantics.Callables.{find_block}
use niflheim.Backend.Analysis.Cfg.{
  BlockIndex, BlockMap, block_sort_key, build_block_index, require_entry_block, add_successors,
  build_successor_map, targets_of,
}
use niflheim.Backend.Analysis.Cfg.Index.{
  block_ids, find_block-sorted_by, build_block_index-Owned, build_block_index-distinct,
  elem-keys-index, build_block_index_accepts,
}
use niflheim.Backend.Analysis.Cfg.WellFormed.{
  terminator_targets, TargetsDeclared, EntryDeclared, IsWellFormed, found_targets,
  add_successors-declared, add_successors-lookup, add_successors_accepts, Owned-elem,
  All-TargetsDeclared-same,
}

pub require_entry_block-eq-ok :
    (c : CallableDecl) (index : BlockIndex) (entry : BlockId)
    → require_entry_block c index ≡ ok entry
    → (c.entry_block_id ≡ some entry) × (elem entry (keys index) ≡ true)
unfolding require_entry_block
require_entry_block-eq-ok c index entry h = ground arith

pub EntryDeclared-some :
    (c : CallableDecl) (ids : List BlockId) (entry : BlockId)
    → c.entry_block_id ≡ some entry
    → elem entry ids ≡ true
    → EntryDeclared ids c.entry_block_id
EntryDeclared-some c ids entry named h = rw named h

module _ (c : CallableDecl) (index : BlockIndex) where
  build_successor_map_local :
      c.is_extern ≡ false
      → build_successor_map c index ≡ (
          require_entry_block c index >>= λ _.
          add_successors c.callable_id index [] (sorted_by block_sort_key c.blocks))
  unfolding build_successor_map
  build_successor_map_local local = rw local

  pub require_entry_block_accepts :
      (entry : BlockId)
      → c.entry_block_id ≡ some entry
      → elem entry (keys index) ≡ true
      → require_entry_block c index ≡ ok entry
  unfolding require_entry_block
  require_entry_block_accepts entry named declared = rw named (rw declared)

  pub build_successor_map_entry :
      (m : BlockMap)
      → c.is_extern ≡ false
      → build_successor_map c index ≡ ok m
      → (entry : BlockId) × (require_entry_block c index ≡ ok entry)
  build_successor_map_entry m local h =
      let (entry, found, _) =
        >>=-eq-ok (require_entry_block c index) _ (sym (build_successor_map_local local) ∙ h) in
      (entry, found)

  -- What a successful pair of calls says of the callable.
  pub build_successor_map-eq-ok :
      (m : BlockMap)
      → c.is_extern ≡ false
      → build_block_index c ≡ ok index
      → build_successor_map c index ≡ ok m
      → IsWellFormed c
        × ((id : BlockId) → lookup id m ≡ found_targets none (find_block id c.blocks))
  unfolding lookup
  build_successor_map-eq-ok m local built h =
      let steps = sym (build_successor_map_local local) ∙ h in
      let (entry, found, added) = >>=-eq-ok (require_entry_block c index) _ steps in
      let (named, declared) = require_entry_block-eq-ok c index entry found in
      let same = elem-keys-index c index built in
      let distinct = build_block_index-distinct c index built in
      let sorted = sorted_by block_sort_key c.blocks in
      (
        record {
          owned = build_block_index-Owned c index built;
          distinct = distinct;
          entry =
              EntryDeclared-some c (block_ids c.blocks) entry named (sym (same entry) ∙ declared);
          targets = All-TargetsDeclared-same (keys index) (block_ids c.blocks) c.blocks same (
              All-of_sorted_by (λ b. TargetsDeclared (keys index) b.terminator) block_sort_key
                c.blocks (add_successors-declared c.callable_id index [] m sorted added));
        },
        λ id.
            add_successors-lookup c.callable_id index [] m sorted id added (λ k. omega (
              arith,
              distinct k,
              count-sorted_by (λ (x : Block). x.block_id) block_sort_key k c.blocks,
            ))
            ∙ ap (found_targets (lookup id [])) (find_block-sorted_by id c.blocks distinct),
      )

-- The edges out of a block are the targets of its terminator.
pub targets_of-block :
    (blocks : List Block) (m : BlockMap)
    → ((k : BlockId) → lookup k m ≡ found_targets none (find_block k blocks))
    → (id : BlockId) (b : Block) → find_block id blocks ≡ some b
    → targets_of m id ≡ terminator_targets b.terminator
unfolding targets_of
targets_of-block blocks m edges id b found = rw (edges id, targets_of) (rw found)

entry_of :
    (ids : List BlockId) (o : Option BlockId)
    → EntryDeclared ids o
    → (entry : BlockId) × (o ≡ some entry) × (elem entry ids ≡ true)
entry_of ids none h = absurd h
entry_of ids (some entry) h = (entry, refl, h)

-- A well-formed callable gets its index and its successor map.
pub IsWellFormed_accepts :
    (c : CallableDecl)
    → c.is_extern ≡ false
    → IsWellFormed c
    → (index : BlockIndex) × (m : BlockMap) × (build_block_index c ≡ ok index)
      × (build_successor_map c index ≡ ok m)
IsWellFormed_accepts c local fit =
    let (index, built) = build_block_index_accepts c fit.owned fit.distinct in
    let same = elem-keys-index c index built in
    let (entry, named, declared) = entry_of (block_ids c.blocks) c.entry_block_id fit.entry in
    let ready = require_entry_block_accepts c index entry named (same entry ∙ declared) in
    let targets =
      All-TargetsDeclared-same (block_ids c.blocks) (keys index) c.blocks (λ id. sym (same id))
        fit.targets in
    let (m, added) =
      add_successors_accepts c.callable_id index [] (sorted_by block_sort_key c.blocks)
        (λ id h. Owned-elem c.callable_id c.blocks id fit.owned (sym (same id) ∙ h))
        (All-sorted_by (λ b. TargetsDeclared (keys index) b.terminator) block_sort_key c.blocks
          targets) in
    (index, m, built, build_successor_map_local c index local ∙ rw ready added)
