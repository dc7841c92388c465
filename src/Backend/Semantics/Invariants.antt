-- ===== src/Backend/Semantics/Invariants.antt =====
-- Runs of a callable whose blocks are changed where something is known of the states that arrive.
use niflheim.Shared.{ℕ, zero, suc, ◌≡◌, refl, some, List, map, Option-cases, inl, inr}
use niflheim.Backend.Ir.Ids.{BlockId}
use niflheim.Backend.Ir.Model.{Block}
use niflheim.Backend.Semantics.{
  Registers, Machine, run_block, BlockOutcome, leaves, traps_inside, goto, returned, stopped,
  confused,
}
use niflheim.Backend.Semantics.Callables.{
  find_block, find_block-map, Next, go_on, run_found, run_from,
}

go_on_same :
    {W : Type 0} (next next' : Next W) (o : BlockOutcome W)
    → ((id : BlockId) (ρ : Registers) (w : W)
        → o ≡ leaves (goto id) ρ w
        → next' id ρ w ≡ next id ρ w)
    → go_on next' o ≡ go_on next o
unfolding go_on
go_on_same next next' (leaves (goto id) ρ w) h = h id ρ w refl
go_on_same next next' (leaves (returned v) ρ w) h = refl
go_on_same next next' (leaves (stopped k) ρ w) h = refl
go_on_same next next' (leaves confused ρ w) h = refl
go_on_same next next' (traps_inside w) h = refl

module _ {W : Type 0} (m : Machine W) (change : Block → Block) (blocks : List Block)
    (P : BlockId → Registers → W → Type 0) where
  -- The changed block does what the block does, in the states that arrive at it.
  abbrev pub SameWhere : Type 0
  SameWhere =
      (id : BlockId) (b : Block) (ρ : Registers) (w : W)
      → find_block id blocks ≡ some b
      → P id ρ w
      → run_block m (change b) ρ w ≡ run_block m b ρ w

  abbrev pub KeptByBlocks : Type 0
  KeptByBlocks =
      (id t : BlockId) (b : Block) (ρ : Registers) (w : W) (ρ' : Registers) (w' : W)
      → find_block id blocks ≡ some b
      → P id ρ w
      → run_block m b ρ w ≡ leaves (goto t) ρ' w'
      → P t ρ' w'

  pub run_from-where :
      (n : ℕ) (id : BlockId) (ρ : Registers) (w : W)
      → ((b : Block) → (change b).block_id ≡ b.block_id)
      → SameWhere
      → KeptByBlocks
      → P id ρ w
      → run_from m (map change blocks) n id ρ w ≡ run_from m blocks n id ρ w
  unfolding run_from run_found
  run_from-where zero id ρ w names same kept here = refl
  run_from-where (suc n) id ρ w names same kept here =
      rw (find_block-map change blocks id names) (elim (Option-cases (find_block id blocks)) [
        | inl missing ↦ rw (missing, run_found)
        | inr (b, found) ↦
            rw (found, run_found)
              (rw (same id b ρ w found here) (
                go_on_same (run_from m blocks n) (run_from m (map change blocks) n)
                  (run_block m b ρ w)
                  (λ t ρ₁ w₁ left.
                    run_from-where n t ρ₁ w₁ names same kept
                      (kept id t b ρ w ρ₁ w₁ found here left))))
      ])
