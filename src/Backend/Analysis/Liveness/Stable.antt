-- ===== src/Backend/Analysis/Liveness/Stable.antt =====
-- The live sets of a callable solve the equations of liveness.
use niflheim.Shared.{
  ◌||◌, Bool, ◌*◌, ◌≡◌, refl, sym, ap, ◌∙◌, true, false, some, List, [], ◌∷◌, map, arith, elem,
  length, length-append, beq_refl,
}
use niflheim.Shared.Dict.{lookup}
use niflheim.Shared.Result.{ok}
use niflheim.Shared.Count.{count-reverse, elem_of_count}
use niflheim.Shared.Sorting.{sorted_by}
use niflheim.Backend.Ir.Ids.{RegId, reg_id_eq, BlockId, block_id_eq, block_id_beq_iff}
use niflheim.Backend.Ir.Model.{Block, CallableDecl}
use niflheim.Backend.Semantics.Callables.{find_block}
use niflheim.Backend.Analysis.RegSet.{RegSet, sorted_reg_tuple, elem-sorted_reg_tuple, elem-update}
use niflheim.Backend.Analysis.Cfg.{
  BlockIndex, BlockMap, targets_of, block_id_sort_key, CallableCfg, index_callable_cfg,
}
use niflheim.Backend.Analysis.Cfg.WellFormed.{terminator_targets}
use niflheim.Backend.Analysis.Cfg.Accepts.{targets_of-block}
use niflheim.Backend.Analysis.Cfg.Whole.{index_callable_cfg-Indexes, reverse_postorder_closed}
use niflheim.Backend.Analysis.Cfg.Predecessors.{elem-sorted_by}
use niflheim.Backend.Analysis.Liveness.{block_live_in}
use niflheim.Backend.Analysis.Liveness.Fixpoint.{
  LiveSets, LiveState, live_at, live_out_of, blocks_uses, rounds, live_sets, sorted_live_sets,
  liveness_of_cfg,
}
use niflheim.Backend.Analysis.Liveness.Growth.{block_live_in-Within}
use niflheim.Backend.Analysis.Liveness.Missing.{lack, missing}
use niflheim.Backend.Analysis.Liveness.Rounds.{IsStable, iterate-IsStable}
use mathlib.Core.List.{reverse, reverse-append}

abbrev nothing_live : List BlockId → LiveSets
nothing_live = map (λ id. (id, []))

live_at-nothing_live : (order : List BlockId) (id : BlockId) → live_at (nothing_live order) id ≡ []
unfolding live_at lookup
live_at-nothing_live [] id = refl
live_at-nothing_live (k ∷ order) id = ground (arith, live_at-nothing_live order id)

missing_all : (all : List RegId) → missing all [] ≡ length all
unfolding elem
missing_all [] = refl
missing_all (r ∷ all) = omega (arith, missing_all all)

lack_all :
    (all : List RegId) (live : LiveSets) (ids : List BlockId)
    → ((id : BlockId) → live_at live id ≡ [])
    → lack all live ids ≡ length all * length ids
lack_all all live [] h = grind arith
lack_all all live (id ∷ ids) h =
    let here : missing all (live_at live id) ≡ length all = rw (h id) (missing_all all) in
    grind (arith, lack_all all live ids h)

length-reverse : (ids : List BlockId) → length (reverse ids) ≡ length ids
length-reverse [] = refl
length-reverse (x ∷ ids) =
    rw (reverse-append (x ∷ []) ids)
      (omega (arith, length-append (reverse ids) (reverse (x ∷ [])), length-reverse ids))

elem-reverse : (ids : List BlockId) (id : BlockId) → elem id (reverse ids) ≡ elem id ids
elem-reverse ids id =
    ground (arith, elem_of_count id (reverse ids), elem_of_count id ids, count-reverse id ids)

no_elem : (s : RegSet) (r : RegId) → s ≡ [] → elem r s ≡ true → ⊥
unfolding elem
no_elem s r e h = cc (rw e at h)

-- The iteration ends with sets that solve the equations of liveness, at each block that it visits.
pub live_sets-IsStable :
    (successors : BlockMap) (index : BlockIndex) (order : List BlockId) (id : BlockId) (b : Block)
    → elem id order ≡ true
    → lookup id index ≡ some b
    → IsStable successors index (live_sets successors index order) id b
unfolding live_sets
live_sets-IsStable successors index order id b listed found =
    let empty = nothing_live order in
    let s : LiveState = record { live_in = empty; live_out = empty } in
    let none_live = live_at-nothing_live order in
    let all = blocks_uses index in
    iterate-IsStable successors index (reverse order) (rounds order all) s id b
      (record {
        ins = λ k c f r l. absurd (no_elem (live_at empty k) r (none_live k) l);
        outs = λ k r l. absurd (no_elem (live_at empty k) r (none_live k) l);
        used = λ k r l. absurd (no_elem (live_at empty k) r (none_live k) l);
      })
      (grind (arith, lack_all all empty (reverse order) none_live, length-reverse order))
      (elem-reverse order id ∙ listed) found

sorted_at :
    (live : LiveSets) (ids : List BlockId) (id : BlockId) (r : RegId)
    → elem id ids ≡ true
    → elem r (live_at (map (λ k. (k, sorted_reg_tuple (live_at live k))) ids) id)
      ≡ elem r (live_at live id)
unfolding live_at lookup elem
sorted_at live [] id r h = cc
sorted_at live (k ∷ ids) id r h = ground (
  arith,
  block_id_beq_iff id k,
  elem-sorted_reg_tuple r (live_at live k),
  sorted_at live ids id r,
)

-- The tables of the result hold the sets of the iteration.
pub elem-sorted_live_sets :
    (order : List BlockId) (live : LiveSets) (id : BlockId) (r : RegId)
    → elem id order ≡ true
    → elem r (live_at (sorted_live_sets order live) id) ≡ elem r (live_at live id)
unfolding sorted_live_sets
elem-sorted_live_sets order live id r listed =
    sorted_at live (sorted_by block_id_sort_key order) id r (elem-sorted_by id order ∙ listed)

live_out_of-same :
    (live live' : LiveSets) (ts : List BlockId) (r : RegId)
    → ((t : BlockId) → elem t ts ≡ true → elem r (live_at live t) ≡ elem r (live_at live' t))
    → elem r (live_out_of live ts) ≡ elem r (live_out_of live' ts)
unfolding live_out_of elem
live_out_of-same live live' [] r h = refl
live_out_of-same live live' (t ∷ ts) r h = ground (
  arith,
  elem-update r (live_out_of live ts) (live_at live t),
  elem-update r (live_out_of live' ts) (live_at live' t),
  h t (ground (arith, beq_refl t)),
  live_out_of-same live live' ts r (λ x e. h x (ground arith)),
)

pub block_live_in-same :
    (b : Block) (s t : RegSet)
    → ((r : RegId) → elem r s ≡ elem r t)
    → (r : RegId)
    → elem r (block_live_in b.instructions b.terminator s)
      ≡ elem r (block_live_in b.instructions b.terminator t)
block_live_in-same b s t same r =
    let left = block_live_in-Within b.instructions b.terminator s t (λ x l. sym (same x) ∙ l) r in
    let right = block_live_in-Within b.instructions b.terminator t s (λ x l. same x ∙ l) r in
    ground arith

-- Whether a register is live in front of one of the blocks.
abbrev pub live_in_some : LiveSets → RegId → List BlockId → Bool
live_in_some live r [] = false
live_in_some live r (t ∷ ts) = elem r (live_at live t) || live_in_some live r ts

pub elem-live_out_of :
    (live : LiveSets) (ts : List BlockId) (r : RegId)
    → elem r (live_out_of live ts) ≡ live_in_some live r ts
unfolding live_out_of elem
elem-live_out_of live [] r = refl
elem-live_out_of live (t ∷ ts) r =
    ground (arith, elem-update r (live_out_of live ts) (live_at live t), elem-live_out_of live ts r)

-- For a block that can be reached, a register is given as live behind the block exactly if it is given
-- as live in front of a block that the terminator leads to, and what it gives for live in front of the block
-- is the transfer of that through the block.
pub analyze_callable_liveness-IsFixpoint :
    (c : CallableDecl) (cfg : CallableCfg) (id : BlockId) (b : Block) (r : RegId)
    → c.is_extern ≡ false
    → index_callable_cfg c ≡ ok cfg
    → elem id cfg.reverse_postorder_ids ≡ true
    → find_block id c.blocks ≡ some b
    → (elem r (live_at (liveness_of_cfg cfg).live_out_by_block id)
        ≡ live_in_some (liveness_of_cfg cfg).live_in_by_block r (terminator_targets b.terminator))
      × (elem r (live_at (liveness_of_cfg cfg).live_in_by_block id)
          ≡ elem r (
              block_live_in b.instructions b.terminator
                (live_at (liveness_of_cfg cfg).live_out_by_block id)))
unfolding liveness_of_cfg
analyze_callable_liveness-IsFixpoint c cfg id b r local indexed listed found =
    let i = index_callable_cfg-Indexes c local cfg indexed in
    let order = cfg.reverse_postorder_ids in
    let m = cfg.successor_by_block in
    let s = live_sets m cfg.block_by_id order in
    let stable = live_sets-IsStable m cfg.block_by_id order id b listed (i.finds id ∙ found) in
    let targets = targets_of-block c.blocks m i.edges id b found in
    let out = λ (x : RegId). elem-sorted_live_sets order s.live_out id x listed in
    let out_next : (x : RegId)
        → elem x (live_at s.live_out id) ≡ elem x (live_out_of s.live_in (targets_of m id)) =
      stable.out_stable in
    (
      out r
          ∙ out_next r
          ∙ ap (λ (x : List BlockId). elem r (live_out_of s.live_in x)) targets
          ∙ sym (
              live_out_of-same (sorted_live_sets order s.live_in) s.live_in
                (terminator_targets b.terminator) r
                (λ t e.
                  elem-sorted_live_sets order s.live_in t r
                    (reverse_postorder_closed c cfg i id t b listed found e)))
          ∙ elem-live_out_of (sorted_live_sets order s.live_in) (terminator_targets b.terminator) r,
      elem-sorted_live_sets order s.live_in id r listed
          ∙ stable.in_stable r
          ∙ block_live_in-same b (live_out_of s.live_in (targets_of m id))
              (live_at (sorted_live_sets order s.live_out) id) (λ x. sym (out x ∙ out_next x)) r,
    )
