-- ===== src/Backend/Optimizations/SimplifyCfg/Kept.antt =====
-- Dropping unreachable blocks keeps a callable well-formed.
use niflheim.Shared.{
  ◌≤◌, ◌≡◌, ◌∙◌, subst, true, false, ◌||◌, some, List, [], ◌∷◌, arith, ◌==◌, nat_eq, elem,
  if◌then◌else◌, length, All, Bool-cases, inl, inr, beq_refl,
}
use niflheim.Shared.Result.{ok}
use niflheim.Shared.Count.{count, elem_of_count}
use niflheim.Backend.Ir.Ids.{BlockId, block_id_eq, block_id_beq_iff}
use niflheim.Backend.Ir.Model.{Terminator, jump, branch, return, trap, Block, CallableDecl}
use niflheim.Backend.Semantics.Callables.{find_block}
use niflheim.Backend.Analysis.Cfg.{reachable_block_ids, reachable_from}
use niflheim.Backend.Analysis.Cfg.Index.{block_ids, Owned, elem_of_find_block}
use niflheim.Backend.Analysis.Cfg.WellFormed.{
  IsWellFormed, terminator_targets, TargetsDeclared, EntryDeclared,
}
use niflheim.Backend.Analysis.Cfg.Accepts.{
  EntryDeclared-some, IsWellFormed_accepts, build_successor_map_entry,
}
use niflheim.Backend.Analysis.Cfg.Whole.{reachable_block_ids_local}
use niflheim.Backend.Optimizations.SimplifyCfg.{is_empty, blocks_in, eliminate_unreachable_blocks}
use niflheim.Backend.Optimizations.SimplifyCfg.Unreachable.{
  ClosedIn, Removes, eliminate_unreachable_blocks-cases, pick-count, All-blocks_in, elem-blocks_in,
}

abbrev Found : List Block → Block → Type 0
Found blocks b = find_block b.block_id blocks ≡ some b

Found-cons :
    (b : Block) (bs rest : List Block)
    → count b.block_id (block_ids bs) ≡ 0
    → All (Found bs) rest
    → All (Found (b ∷ bs)) rest
unfolding find_block
Found-cons b bs [] fresh h = tt
Found-cons b bs (x ∷ rest) fresh h = (
  ground (
    arith,
    h.0,
    block_id_beq_iff x.block_id b.block_id,
    elem_of_find_block x.block_id bs x h.0,
    elem_of_count x.block_id (block_ids bs),
  ),
  Found-cons b bs rest fresh h.1,
)

-- Blocks with different names are each found by their name.
pub All-Found : (bs : List Block) → ((k : BlockId) → count k (block_ids bs) ≤ 1) → All (Found bs) bs
unfolding find_block count
All-Found [] distinct = tt
All-Found (b ∷ bs) distinct = (
  rw (beq_refl b.block_id),
  Found-cons b bs bs (ground (arith, distinct b.block_id, beq_refl b.block_id))
      (All-Found bs (λ k. omega (arith, distinct k))),
)

TargetsDeclared-kept :
    (ids : List BlockId) (blocks : List Block) (t : Terminator)
    → ((k : BlockId) → elem k (terminator_targets t) ≡ true → elem k ids ≡ true)
    → TargetsDeclared (block_ids blocks) t
    → TargetsDeclared (block_ids (blocks_in ids blocks)) t
unfolding elem
TargetsDeclared-kept ids blocks (jump s t) inside h =
    elem-blocks_in ids blocks t (inside t (ground (arith, beq_refl t))) h
TargetsDeclared-kept ids blocks (branch s c t f) inside h = (
  elem-blocks_in ids blocks t (inside t (ground (arith, beq_refl t))) h.0,
  elem-blocks_in ids blocks f (inside f (ground (arith, beq_refl f))) h.1,
  h.2,
)
TargetsDeclared-kept ids blocks (return s v) inside h = h
TargetsDeclared-kept ids blocks (trap s k m) inside h = h

targets-blocks_in :
    (ids : List BlockId) (blocks bs : List Block)
    → ClosedIn ids blocks
    → All (Found blocks) bs
    → All (λ b. TargetsDeclared (block_ids blocks) b.terminator) bs
    → All (λ b. TargetsDeclared (block_ids (blocks_in ids blocks)) b.terminator) (blocks_in ids bs)
unfolding blocks_in
targets-blocks_in ids blocks [] closed found h = tt
targets-blocks_in ids blocks (b ∷ bs) closed found h =
    let rest = targets-blocks_in ids blocks bs closed found.1 h.1 in
    elim (Bool-cases (elem b.block_id ids)) [
      | inl kept ↦ rw kept (
        TargetsDeclared-kept ids blocks b.terminator (λ k e. closed b.block_id k b kept found.0 e)
            h.0,
        rest,
      )
      | inr dropped ↦ rw dropped rest
    ]

blocks_in-IsWellFormed :
    (c : CallableDecl) (ids : List BlockId) (entry : BlockId)
    → IsWellFormed c
    → ClosedIn ids c.blocks
    → c.entry_block_id ≡ some entry
    → elem entry ids ≡ true
    → elem entry (block_ids c.blocks) ≡ true
    → IsWellFormed (record c { blocks = blocks_in ids c.blocks })
blocks_in-IsWellFormed c ids entry fit closed named reached declared = record {
  owned = All-blocks_in (Owned c.callable_id) ids c.blocks fit.owned;
  distinct = λ id. omega (arith, pick-count ids id c.blocks, fit.distinct id);
  entry =
      EntryDeclared-some c (block_ids (blocks_in ids c.blocks)) entry named
        (elem-blocks_in ids c.blocks entry reached declared);
  targets =
      targets-blocks_in ids c.blocks c.blocks closed (All-Found c.blocks fit.distinct) fit.targets;
}

abbrev kept_blocks : CallableDecl → List BlockId → CallableDecl
kept_blocks c ids =
    if length ids == length c.blocks then c else record c { blocks = blocks_in ids c.blocks }

eliminate_unreachable_blocks_accepts :
    (c : CallableDecl)
    → (c.is_extern || is_empty c.blocks) ≡ false
    → IsWellFormed c
    → (ids : List BlockId) × (eliminate_unreachable_blocks c ≡ ok (kept_blocks c ids))
unfolding eliminate_unreachable_blocks
eliminate_unreachable_blocks_accepts c changed fit =
    let local : c.is_extern ≡ false = ground (arith, changed) in
    let (index, m, built, mapped) = IsWellFormed_accepts c local fit in
    let (entry, required) = build_successor_map_entry c index m local mapped in
    let reached : reachable_block_ids c m index ≡ ok (reachable_from m entry) =
      reachable_block_ids_local c m index local ∙ rw required in
    (
      reachable_from m entry,
      rw (changed, eliminate_unreachable_blocks) (rw built (rw mapped (rw reached))),
    )

Removes-IsWellFormed : (c c' : CallableDecl) → Removes c c' → IsWellFormed c'
Removes-IsWellFormed c c' r = rw (r.kept) (
    blocks_in-IsWellFormed c r.ids r.entry r.fit r.closed r.named r.reached
      (subst (EntryDeclared (block_ids c.blocks)) r.named r.fit.entry))

-- The pass accepts every well-formed callable that is not extern, and what it gives is well-formed.
pub eliminate_unreachable_blocks-IsWellFormed :
    (c : CallableDecl)
    → c.is_extern ≡ false
    → IsWellFormed c
    → (c' : CallableDecl) × (eliminate_unreachable_blocks c ≡ ok c') × IsWellFormed c'
unfolding eliminate_unreachable_blocks
eliminate_unreachable_blocks-IsWellFormed c local fit =
    elim (Bool-cases (c.is_extern || is_empty c.blocks)) [
      | inl skipped ↦ (c, rw (skipped, eliminate_unreachable_blocks), fit)
      | inr changed ↦
          let (ids, does) = eliminate_unreachable_blocks_accepts c changed fit in
          (
            kept_blocks c ids,
            does,
            elim (eliminate_unreachable_blocks-cases c (kept_blocks c ids) does) [
              | inl same ↦ rw same fit
              | inr r ↦ Removes-IsWellFormed c (kept_blocks c ids) r
            ],
          )
    ]
