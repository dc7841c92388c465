-- ===== src/Backend/Optimizations/SimplifyCfg/Unreachable.antt =====
-- Dropping unreachable blocks keeps the runs of a callable and its well-formedness.
use niflheim.Shared.{
  ℕ, zero, suc, ◌≤◌, ◌≡◌, refl, sym, ap, ◌∙◌, true, false, ◌||◌, none, some, List, [], ◌∷◌, arith,
  ◌==◌, nat_eq, elem, length, All, Bool-cases, Option-cases, inl, inr, ◌⊎◌,
}
use niflheim.Shared.Dict.{lookup}
use niflheim.Shared.Result.{Result, ok, >>=-eq-ok}
use niflheim.Shared.Count.{count}
use niflheim.Backend.Ir.Ids.{BlockId, block_id_eq, block_id_beq_iff}
use niflheim.Backend.Ir.Model.{Block, CallableDecl}
use niflheim.Backend.Semantics.{Registers, Machine, run, run_block}
use niflheim.Backend.Semantics.Callables.{find_block, run_from, run_found}
use niflheim.Backend.Analysis.Cfg.{
  CfgError, BlockIndex, BlockMap, build_block_index, build_successor_map, reachable_block_ids,
  reachable_from, require_entry_block,
}
use niflheim.Backend.Analysis.Cfg.Index.{block_ids}
use niflheim.Backend.Analysis.Cfg.WellFormed.{IsWellFormed, terminator_targets, found_targets}
use niflheim.Backend.Analysis.Cfg.Accepts.{
  build_successor_map-eq-ok, require_entry_block-eq-ok, targets_of-block,
}
use niflheim.Backend.Analysis.Cfg.Exits.{go_on-agree}
use niflheim.Backend.Analysis.Cfg.Whole.{reachable_block_ids_local}
use niflheim.Backend.Analysis.Cfg.Reachable.{start, edge, reachable_from-Reaches}
use niflheim.Backend.Optimizations.SimplifyCfg.{is_empty, blocks_in, eliminate_unreachable_blocks}

find_block-blocks_in :
    (reachable : List BlockId) (bs : List Block) (id : BlockId)
    → elem id reachable ≡ true
    → find_block id (blocks_in reachable bs) ≡ find_block id bs
unfolding find_block blocks_in
find_block-blocks_in reachable [] id h = refl
find_block-blocks_in reachable (b ∷ bs) id h =
    ground (arith, block_id_beq_iff id b.block_id, find_block-blocks_in reachable bs id h)

-- A set of blocks that control does not leave.
abbrev pub ClosedIn : List BlockId → List Block → Type 0
ClosedIn reachable blocks =
    (id t : BlockId) (b : Block)
    → elem id reachable ≡ true
    → find_block id blocks ≡ some b
    → elem t (terminator_targets b.terminator) ≡ true
    → elem t reachable ≡ true

module _ {W : Type 0} (m : Machine W) (reachable : List BlockId) (blocks : List Block) where
  run_from-blocks_in :
      (n : ℕ) (id : BlockId) (ρ : Registers) (w : W)
      → ClosedIn reachable blocks
      → elem id reachable ≡ true
      → run_from m (blocks_in reachable blocks) n id ρ w ≡ run_from m blocks n id ρ w
  unfolding run_from run_found run_block
  run_from-blocks_in zero id ρ w closed here = refl
  run_from-blocks_in (suc n) id ρ w closed here =
      rw (find_block-blocks_in reachable blocks id here)
        (elim (Option-cases (find_block id blocks)) [
          | inl missing ↦ rw missing
          | inr (b, found) ↦
              rw (found, run_found)
                (go_on-agree (run_from m blocks n) (run_from m (blocks_in reachable blocks) n)
                  b.terminator (run m b.instructions ρ w)
                  (λ t ρ' w' e. run_from-blocks_in n t ρ' w' closed (closed id t b here found e)))
        ])

module _ (c : CallableDecl) (m : BlockMap) (entry : BlockId)
    (edges : (id : BlockId) → lookup id m ≡ found_targets none (find_block id c.blocks)) where
  reachable_from-ClosedIn : ClosedIn (reachable_from m entry) c.blocks
  reachable_from-ClosedIn id t b here found e =
      let (sound, _) = reachable_from-Reaches m entry id in
      let (_, complete) = reachable_from-Reaches m entry t in
      complete (
        edge t (sound here)
          (ap (λ (x : List BlockId). elem t x) (targets_of-block c.blocks m edges id b found) ∙ e))

  reachable_from-entry : elem entry (reachable_from m entry) ≡ true
  reachable_from-entry = (reachable_from-Reaches m entry entry).1 start

reachable_block_ids-eq-ok :
    (c : CallableDecl) (m : BlockMap) (index : BlockIndex) (ids : List BlockId)
    → c.is_extern ≡ false
    → reachable_block_ids c m index ≡ ok ids
    → (entry : BlockId) × (c.entry_block_id ≡ some entry) × (ids ≡ reachable_from m entry)
reachable_block_ids-eq-ok c m index ids local h =
    let steps = sym (reachable_block_ids_local c m index local) ∙ h in
    let (entry, required, e) = >>=-eq-ok (require_entry_block c index) _ steps in
    (entry, (require_entry_block-eq-ok c index entry required).0, cc)

ok-injective :
    (c c' : CallableDecl) → (let r : Result CfgError CallableDecl = ok c in r) ≡ ok c' → c ≡ c'
ok-injective c c' h = cc

-- What a pass that removes blocks has found out, where it removes any.
pub record Removes (c c' : CallableDecl) : Type 0 where
  pub entry : BlockId
  pub ids : List BlockId
  pub named : c.entry_block_id ≡ some entry
  pub reached : elem entry ids ≡ true
  pub closed : ClosedIn ids c.blocks
  pub fit : IsWellFormed c
  pub kept : c' ≡ record c { blocks = blocks_in ids c.blocks }

pub eliminate_unreachable_blocks-cases :
    (c c' : CallableDecl) → eliminate_unreachable_blocks c ≡ ok c' → (c' ≡ c) ⊎ Removes c c'
unfolding eliminate_unreachable_blocks
eliminate_unreachable_blocks-cases c c' h = elim (Bool-cases (c.is_extern || is_empty c.blocks)) [
  | inl skipped ↦
      let same : ok c ≡ ok c' = rw (skipped, eliminate_unreachable_blocks) at h in inl (cc)
  | inr changed ↦
      let local : c.is_extern ≡ false = ground (arith, changed) in
      let steps = rw (changed, eliminate_unreachable_blocks) at h in
      let (index, built, steps) = >>=-eq-ok (build_block_index c) _ steps in
      let (m, mapped, steps) = >>=-eq-ok (build_successor_map c index) _ steps in
      let (ids, reached, steps) = >>=-eq-ok (reachable_block_ids c m index) _ steps in
      let (fit, edges) = build_successor_map-eq-ok c index m local built mapped in
      let (entry, named, found) = reachable_block_ids-eq-ok c m index ids local reached in
      elim (Bool-cases (length ids == length c.blocks)) [
        | inl all ↦ inl (ground arith)
        | inr some_left ↦ inr record {
          entry = entry;
          ids = ids;
          named = named;
          reached = rw found (reachable_from-entry c m entry edges);
          closed = rw found (reachable_from-ClosedIn c m entry edges);
          fit = fit;
          kept =
              ok-injective c' (record c { blocks = blocks_in ids c.blocks })
                (sym (rw some_left at steps));
        }
      ]
]

pub pick-count :
    (ids : List BlockId) (id : BlockId) (bs : List Block)
    → count id (block_ids (blocks_in ids bs)) ≤ count id (block_ids bs)
unfolding blocks_in count
pick-count ids id [] = omega arith
pick-count ids id (b ∷ bs) = ground (arith, pick-count ids id bs)

pub All-blocks_in {ℓ} :
    (P : Block → Type ℓ) (ids : List BlockId) (bs : List Block)
    → All P bs
    → All P (blocks_in ids bs)
unfolding blocks_in
All-blocks_in P ids [] h = tt
All-blocks_in P ids (b ∷ bs) h = elim (Bool-cases (elem b.block_id ids)) [
  | inl kept ↦ rw kept (h.0, All-blocks_in P ids bs h.1)
  | inr dropped ↦ rw dropped (All-blocks_in P ids bs h.1)
]

pub elem-blocks_in :
    (ids : List BlockId) (bs : List Block) (id : BlockId)
    → elem id ids ≡ true
    → elem id (block_ids bs) ≡ true
    → elem id (block_ids (blocks_in ids bs)) ≡ true
unfolding blocks_in elem
elem-blocks_in ids [] id here h = h
elem-blocks_in ids (b ∷ bs) id here h =
    ground (arith, block_id_beq_iff id b.block_id, elem-blocks_in ids bs id here)

-- A callable that the pass accepts behaves as before: every run from the entry, to every bound on the
-- number of blocks, is the same.
pub run_from-eliminate_unreachable_blocks :
    {W : Type 0} (machine : Machine W) (c c' : CallableDecl) (entry : BlockId) (n : ℕ)
    (ρ : Registers) (w : W)
    → c.entry_block_id ≡ some entry
    → eliminate_unreachable_blocks c ≡ ok c'
    → run_from machine c'.blocks n entry ρ w ≡ run_from machine c.blocks n entry ρ w
run_from-eliminate_unreachable_blocks machine c c' entry n ρ w named h =
    elim (eliminate_unreachable_blocks-cases c c' h) [
      | inl same ↦ rw same
      | inr r ↦
          let e : r.entry ≡ entry = cc (r.named) in
          rw (r.kept)
            (run_from-blocks_in machine r.ids c.blocks n entry ρ w r.closed (rw e at (r.reached)))
    ]
