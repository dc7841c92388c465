-- ===== src/Backend/Optimizations/DeadPure/Thins.antt =====
-- What one round leaves of a callable: fewer instructions, and all else as it was.
use niflheim.Shared.{
  ◌+◌, ◌≡◌, refl, ◌&&◌, List, [], ◌∷◌, map, arith, nat_eq, All, Bool-cases, inl, inr, length,
}
use niflheim.Backend.Ir.Ids.{block_id_eq}
use niflheim.Backend.Ir.Model.{Instruction, Block, CallableDecl}
use niflheim.Backend.Semantics.{Machine}
use niflheim.Backend.Semantics.Operands.{instruction_def_reg}
use niflheim.Backend.Analysis.RegSet.{RegSet}
use niflheim.Backend.Analysis.Cfg.WellFormed.{IsWellFormed}
use niflheim.Backend.Analysis.Cfg.Changes.{map-IsWellFormed}
use niflheim.Backend.Analysis.Liveness.Fixpoint.{LiveSets, live_at}
use niflheim.Backend.Analysis.Liveness.{transfer_terminator_live_set}
use niflheim.Backend.Optimizations.DeadPure.{
  TypeNames, eliminate_block, eliminate_instructions, is_dead, instruction_is_dead_eliminable,
}
use niflheim.Backend.Optimizations.DeadPure.Sound.{KeepsDeclared}
use niflheim.Backend.Optimizations.DeadPure.Callable.{eliminate_blocks, count_instructions}
use niflheim.Backend.Optimizations.DeadPure.Runs.{kept_block, kept_block_name}

-- Each instruction is kept or counted as removed.
length-eliminate_instructions :
    (types : TypeNames) (is : List Instruction) (live_end : RegSet)
    → length (eliminate_instructions types is live_end).0
        + (eliminate_instructions types is live_end).2
      ≡ length is
unfolding eliminate_instructions
length-eliminate_instructions types [] live_end = omega arith
length-eliminate_instructions types (i ∷ is) live_end =
    let ih = length-eliminate_instructions types is live_end in
    elim (Bool-cases (
      is_dead (instruction_def_reg i) (eliminate_instructions types is live_end).1
      && instruction_is_dead_eliminable i types)) [
        | inl drop ↦ rw (drop, eliminate_instructions) (omega arith)
        | inr keep ↦ rw (keep, eliminate_instructions) (omega arith)
      ]

All-eliminate_instructions {ℓ} :
    (P : Instruction → Type ℓ) (types : TypeNames) (is : List Instruction) (live_end : RegSet)
    → All P is
    → All P (eliminate_instructions types is live_end).0
unfolding eliminate_instructions
All-eliminate_instructions P types [] live_end h = tt
All-eliminate_instructions P types (i ∷ is) live_end h =
    let ih = All-eliminate_instructions P types is live_end h.1 in
    elim (Bool-cases (
      is_dead (instruction_def_reg i) (eliminate_instructions types is live_end).1
      && instruction_is_dead_eliminable i types)) [
        | inl drop ↦ rw (drop, eliminate_instructions) ih
        | inr keep ↦ rw (keep, eliminate_instructions) (h.0, ih)
      ]

pub count-eliminate_blocks :
    (types : TypeNames) (live_out : LiveSets) (bs : List Block)
    → count_instructions (eliminate_blocks types live_out bs).0
        + (eliminate_blocks types live_out bs).1
      ≡ count_instructions bs
unfolding eliminate_blocks eliminate_block
count-eliminate_blocks types live_out [] = omega arith
count-eliminate_blocks types live_out (b ∷ bs) = omega (
  arith,
  count-eliminate_blocks types live_out bs,
  length-eliminate_instructions types b.instructions
      (transfer_terminator_live_set b.terminator (live_at live_out b.block_id)),
)

module _ (types : TypeNames) (live_out : LiveSets) where
  pub kept_block_declared :
      {W : Type 0} (m : Machine W) (names : TypeNames) (b : Block)
      → All (KeepsDeclared m names) b.instructions
      → All (KeepsDeclared m names) (kept_block types live_out b).instructions
  unfolding eliminate_block
  kept_block_declared m names b h =
      All-eliminate_instructions (KeepsDeclared m names) types b.instructions
        (transfer_terminator_live_set b.terminator (live_at live_out b.block_id)) h

  kept_block-terminator : (b : Block) → (kept_block types live_out b).terminator ≡ b.terminator
  unfolding eliminate_block
  kept_block-terminator b = refl

  pub kept-IsWellFormed :
      (c : CallableDecl)
      → IsWellFormed c
      → IsWellFormed (record c { blocks = map (kept_block types live_out) c.blocks })
  unfolding eliminate_block
  kept-IsWellFormed c fit =
      map-IsWellFormed (kept_block types live_out) (kept_block_name types live_out) c (λ ids b h. h)
        fit
