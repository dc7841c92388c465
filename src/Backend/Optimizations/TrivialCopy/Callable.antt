-- ===== src/Backend/Optimizations/TrivialCopy/Callable.antt =====
-- Copy propagation keeps the runs of a callable.
use niflheim.Shared.{
  ℕ, ◌≡◌, refl, ap, Bool, true, false, ◌||◌, List, [], ◌∷◌, map, if◌then◌else◌, ltb,
}
use niflheim.Backend.Ir.Ids.{BlockId}
use niflheim.Backend.Ir.Model.{Block}
use niflheim.Backend.Semantics.{Registers, Machine}
use niflheim.Backend.Semantics.Callables.{run_from, run_from-map}
use niflheim.Backend.Optimizations.TrivialCopy.{
  rewrite_instructions, rewrite_terminator_operands, rewrite_block, rewrite_blocks,
}
use niflheim.Backend.Optimizations.TrivialCopy.Sound.{run_block-rewrite_block}

abbrev pub rewritten : Block → Block
rewritten b = (rewrite_block b).0

pub rewrite_blocks-map : (bs : List Block) → (rewrite_blocks bs).0 ≡ map rewritten bs
unfolding rewrite_blocks
rewrite_blocks-map [] = refl
rewrite_blocks-map (b ∷ bs) = ap (λ (r : List Block). rewritten b ∷ r) (rewrite_blocks-map bs)

either_name :
    (changed : Bool) (kept block : Block)
    → kept.block_id ≡ block.block_id
    → (if◌then◌else◌ {A = Block × Bool} changed (kept, true) (block, false)).0.block_id
      ≡ block.block_id
either_name true kept block h = h
either_name false kept block h = refl

pub rewritten_name : (b : Block) → (rewritten b).block_id ≡ b.block_id
unfolding rewrite_block
rewritten_name b =
    let (kept, facts, changed) = rewrite_instructions [] b.instructions in
    let (t, n) = rewrite_terminator_operands b.terminator facts in
    either_name (changed || ltb 0 n) (record b { instructions = kept; terminator = t }) b refl

-- Propagating the copies of every block keeps every run of the callable, from every block and to
-- every bound on the number of blocks.
pub run_from-rewrite_blocks :
    {W : Type 0} (m : Machine W) (blocks : List Block) (n : ℕ) (id : BlockId) (ρ : Registers)
    (w : W)
    → run_from m (rewrite_blocks blocks).0 n id ρ w ≡ run_from m blocks n id ρ w
run_from-rewrite_blocks m blocks n id ρ w =
    rw (rewrite_blocks-map blocks)
      (run_from-map m rewritten blocks n id ρ w rewritten_name (run_block-rewrite_block m))
