-- ===== src/Backend/Semantics/Callables.antt =====
-- Runs of a callable through its blocks. The number of blocks that a run may pass is bounded, so that
-- a theorem on every bound speaks of runs that end and of runs that do not.
use niflheim.Shared.{
  subst, All, ℕ, zero, suc, ◌≡◌, refl, ap, ◌∙◌, Bool-cases, Option, none, some, List, [], ◌∷◌, map,
  ◌==◌, if◌then◌else◌, inl, inr,
}
use niflheim.Backend.Ir.Ids.{BlockId, block_id_eq}
use niflheim.Backend.Ir.Model.{Block}
use niflheim.Backend.Semantics.{
  false, true, Registers, Machine, Exit, goto, returned, stopped, confused, BlockOutcome, leaves,
  traps_inside, run_block,
}

unfoldable pub find_block : BlockId → List Block → Option Block
find_block id [] = none
find_block id (b ∷ bs) = if id == b.block_id then some b else find_block id bs

pub data Ending (W : Type 0) : Type 0 where
  ends : BlockOutcome W → Ending W
  -- The bound is reached at the start of this block.
  unfinished : BlockId → Registers → W → Ending W
  missing_block : BlockId → Ending W

-- What follows a block, given what follows a jump.
abbrev pub Next : Type 0 → Type 0
Next W = BlockId → Registers → W → Ending W

unfoldable pub go_on : {W : Type 0} → Next W → BlockOutcome W → Ending W
go_on next (leaves (goto id) ρ w) = next id ρ w
go_on next o = ends o

unfoldable pub run_found :
    {W : Type 0} → Machine W → Next W → BlockId → Option Block → Registers → W → Ending W
run_found m next id none ρ w = missing_block id
run_found m next id (some b) ρ w = go_on next (run_block m b ρ w)

-- A run from the start of a block, through at most as many blocks.
unfoldable pub run_from :
    {W : Type 0} → Machine W → List Block → ℕ → BlockId → Registers → W → Ending W
run_from m blocks zero id ρ w = unfinished id ρ w
run_from m blocks (suc n) id ρ w = run_found m (run_from m blocks n) id (find_block id blocks) ρ w

abbrev pub map_found : (Block → Block) → Option Block → Option Block
map_found f none = none
map_found f (some b) = some (f b)

found_here :
    (f : Block → Block) (b : Block) (id : BlockId) (rest rest' : Option Block)
    → (f b).block_id ≡ b.block_id
    → rest' ≡ map_found f rest
    → (if id == (f b).block_id then some (f b) else rest')
      ≡ map_found f (if id == b.block_id then some b else rest)
found_here f b id rest rest' name e = elim (Bool-cases (id == b.block_id)) [
  | inl here ↦
      let there : (id == (f b).block_id) ≡ true = ap (λ (x : BlockId). id == x) name ∙ here in
      rw here (rw there)
  | inr other ↦
      let there : (id == (f b).block_id) ≡ false = ap (λ (x : BlockId). id == x) name ∙ other in
      rw other (rw there e)
]

pub find_block-map :
    (f : Block → Block) (bs : List Block) (id : BlockId)
    → ((b : Block) → (f b).block_id ≡ b.block_id)
    → find_block id (map f bs) ≡ map_found f (find_block id bs)
unfolding find_block
find_block-map f [] id h = refl
find_block-map f (b ∷ bs) id h =
    found_here f b id (find_block id bs) (find_block id (map f bs)) (h b) (find_block-map f bs id h)

pub All-find_block {ℓ} :
    (P : Block → Type ℓ) (id : BlockId) (bs : List Block) (b : Block)
    → All P bs
    → find_block id bs ≡ some b
    → P b
unfolding find_block
All-find_block P id [] b h found = cc
All-find_block P id (x ∷ bs) b h found = elim (Bool-cases (id == x.block_id)) [
  | inl here ↦ let e : x ≡ b = cc (rw here at found) in subst P e h.0
  | inr other ↦ All-find_block P id bs b h.1 (rw other at found)
]

module _ {W : Type 0} (m : Machine W) (f : Block → Block) (blocks : List Block) where
  go_on-same :
      (next next' : Next W) (o : BlockOutcome W)
      → ((id : BlockId) (ρ : Registers) (w : W) → next' id ρ w ≡ next id ρ w)
      → go_on next' o ≡ go_on next o
  unfolding go_on
  go_on-same next next' (leaves (goto id) ρ w) h = h id ρ w
  go_on-same next next' (leaves (returned v) ρ w) h = refl
  go_on-same next next' (leaves (stopped k) ρ w) h = refl
  go_on-same next next' (leaves confused ρ w) h = refl
  go_on-same next next' (traps_inside w) h = refl

  run_found-map :
      (next next' : Next W) (id : BlockId) (o : Option Block) (ρ : Registers) (w : W)
      → ((b : Block) (ρ : Registers) (w : W) → run_block m (f b) ρ w ≡ run_block m b ρ w)
      → ((id : BlockId) (ρ : Registers) (w : W) → next' id ρ w ≡ next id ρ w)
      → run_found m next' id (map_found f o) ρ w ≡ run_found m next id o ρ w
  unfolding run_found
  run_found-map next next' id none ρ w same h = refl
  run_found-map next next' id (some b) ρ w same h =
      rw (same b ρ w) (go_on-same next next' (run_block m b ρ w) h)

  -- A pass that keeps the name and the meaning of every block keeps the runs of the callable.
  pub run_from-map :
      (n : ℕ) (id : BlockId) (ρ : Registers) (w : W)
      → ((b : Block) → (f b).block_id ≡ b.block_id)
      → ((b : Block) (ρ : Registers) (w : W) → run_block m (f b) ρ w ≡ run_block m b ρ w)
      → run_from m (map f blocks) n id ρ w ≡ run_from m blocks n id ρ w
  unfolding run_from
  run_from-map zero id ρ w names same = refl
  run_from-map (suc n) id ρ w names same = rw (find_block-map f blocks id names) (
      run_found-map (run_from m blocks n) (run_from m (map f blocks) n) id (find_block id blocks) ρ
        w same (λ id ρ w. run_from-map n id ρ w names same))

-- What can be seen of a run: the registers go with the callable.
pub data Seen (W : Type 0) : Type 0 where
  exits : Exit → W → Seen W
  stops_inside : W → Seen W
  goes_on : BlockId → W → Seen W
  lost : BlockId → Seen W

unfoldable pub observe_block : {W : Type 0} → BlockOutcome W → Seen W
observe_block (leaves x ρ w) = exits x w
observe_block (traps_inside w) = stops_inside w

unfoldable pub observe : {W : Type 0} → Ending W → Seen W
unfolding observe_block
observe (ends o) = observe_block o
observe (unfinished id ρ w) = goes_on id w
observe (missing_block id) = lost id
