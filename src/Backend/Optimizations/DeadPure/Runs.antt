-- ===== src/Backend/Optimizations/DeadPure/Runs.antt =====
-- One round of dead definition elimination keeps what can be seen of the runs of a callable.
use niflheim.Shared.{
  ℕ, ◌≡◌, refl, sym, ap, subst, true, false, some, List, [], ◌∷◌, map, nat_eq, elem, All,
}
use niflheim.Shared.Result.{ok}
use niflheim.Backend.Ir.Ids.{BlockId, block_id_eq, reg_id_eq}
use niflheim.Backend.Ir.Model.{Instruction, Block, CallableDecl}
use niflheim.Backend.Semantics.{
  Registers, Machine, Outcome, running, trapped, chain, step, run, run_block,
}
use niflheim.Backend.Semantics.Callables.{find_block, All-find_block, run_from, observe}
use niflheim.Backend.Analysis.Cfg.{CallableCfg, index_callable_cfg}
use niflheim.Backend.Analysis.Cfg.Index.{elem_of_find_block}
use niflheim.Backend.Analysis.Liveness.{block_live_in}
use niflheim.Backend.Analysis.Liveness.Runs.{SimulatesBlocks, run_from-simulated}
use niflheim.Backend.Analysis.Liveness.Uses.{AgreeOn}
use niflheim.Backend.Analysis.Liveness.Sound.{SimulatesBlock}
use niflheim.Backend.Analysis.Liveness.Fixpoint.{LiveSets, live_at, liveness_of_cfg}
use niflheim.Backend.Optimizations.DeadPure.{TypeNames, eliminate_block}
use niflheim.Backend.Optimizations.DeadPure.Pure.{UncheckedTotal, DoublesDeclared}
use niflheim.Backend.Optimizations.DeadPure.Sound.{KeepsDeclared, run_block-eliminate_block}
use niflheim.Backend.Optimizations.DeadPure.Callable.{eliminate_blocks}

module _ {W : Type 0} (m : Machine W) (types : TypeNames) where
  chain-running :
      (o : Outcome W) (k : Registers → W → Outcome W) (ρ' : Registers) (w' : W)
      → chain m o k ≡ running ρ' w'
      → (ρ : Registers) × (w : W) × (o ≡ running ρ w) × (k ρ w ≡ running ρ' w')
  chain-running (running ρ w) k ρ' w' h = (ρ, w, refl, h)
  chain-running (trapped w) k ρ' w' h = cc

  -- Instructions that keep doubles in declared registers do so together.
  run-DoublesDeclared :
      (is : List Instruction) (ρ : Registers) (w : W) (ρ' : Registers) (w' : W)
      → All (KeepsDeclared m types) is
      → DoublesDeclared types ρ
      → run m is ρ w ≡ running ρ' w'
      → DoublesDeclared types ρ'
  unfolding run
  run-DoublesDeclared [] ρ w ρ' w' keeps declared h =
      let same : ρ ≡ ρ' = cc in subst (DoublesDeclared types) same declared
  run-DoublesDeclared (i ∷ is) ρ w ρ' w' keeps declared h =
      let (ρ₁, w₁, here, rest) = chain-running (step m i ρ w) (run m is) ρ' w' h in
      run-DoublesDeclared is ρ₁ w₁ ρ' w' keeps.1 (keeps.0 ρ w ρ₁ w₁ declared here) rest

abbrev pub kept_block : TypeNames → LiveSets → Block → Block
kept_block types live_out b = (eliminate_block types (live_at live_out b.block_id) b).0

pub eliminate_blocks-map :
    (types : TypeNames) (live_out : LiveSets) (bs : List Block)
    → (eliminate_blocks types live_out bs).0 ≡ map (kept_block types live_out) bs
unfolding eliminate_blocks
eliminate_blocks-map types live_out [] = refl
eliminate_blocks-map types live_out (b ∷ bs) =
    ap (λ (r : List Block). kept_block types live_out b ∷ r)
      (eliminate_blocks-map types live_out bs)

pub kept_block_name :
    (types : TypeNames) (live_out : LiveSets) (b : Block)
    → (kept_block types live_out b).block_id ≡ b.block_id
unfolding eliminate_block
kept_block_name types live_out b = refl

-- What a machine must do for the removal of dead definitions from a callable.
abbrev pub KeepsAllDeclared : {W : Type 0} → Machine W → TypeNames → List Block → Type 0
KeepsAllDeclared m types = All (λ b. All (KeepsDeclared m types) b.instructions)

module _ {W : Type 0} (m : Machine W) (types : TypeNames) (total : UncheckedTotal m)
    (c : CallableDecl) (cfg : CallableCfg) (local : c.is_extern ≡ false)
    (indexed : index_callable_cfg c ≡ ok cfg) (keeps : KeepsAllDeclared m types c.blocks) where
  abbrev live_out : LiveSets
  live_out = (liveness_of_cfg cfg).live_out_by_block

  keeps_found :
      (id : BlockId) (b : Block)
      → find_block id c.blocks ≡ some b
      → All (KeepsDeclared m types) b.instructions
  keeps_found id b found =
      All-find_block (λ x. All (KeepsDeclared m types) x.instructions) id c.blocks b keeps found

  kept-SimulatesBlocks :
      SimulatesBlocks m (DoublesDeclared types) (kept_block types live_out) c cfg local indexed
  kept-SimulatesBlocks id b ρ ρ' w listed found declared agree =
      let named : b.block_id ≡ id = (elem_of_find_block id c.blocks b found).1 in
      let same = ap (live_at live_out) named in
      subst
        (λ s. SimulatesBlock s (run_block m b ρ w) (run_block m (kept_block types live_out b) ρ' w))
        same
        (run_block-eliminate_block m types (live_at live_out b.block_id) b ρ ρ' w total
          (keeps_found id b found) declared
          (subst (λ s. AgreeOn (block_live_in b.instructions b.terminator s) ρ ρ') (sym same)
            agree))

  -- From a block that can be reached, with registers that agree on what is live in front of it.
  pub run_from-kept :
      (n : ℕ) (id : BlockId) (ρ ρ' : Registers) (w : W)
      → elem id cfg.reverse_postorder_ids ≡ true
      → DoublesDeclared types ρ
      → AgreeOn (live_at (liveness_of_cfg cfg).live_in_by_block id) ρ ρ'
      → observe (run_from m (map (kept_block types live_out) c.blocks) n id ρ' w)
        ≡ observe (run_from m c.blocks n id ρ w)
  run_from-kept n id ρ ρ' w listed declared agree =
      run_from-simulated m (DoublesDeclared types) (kept_block types live_out) c cfg local indexed n
        id ρ ρ' w (kept_block_name types live_out) kept-SimulatesBlocks
        (λ id b ρ w ρ' w' found declared ran.
          run-DoublesDeclared m types b.instructions ρ w ρ' w' (keeps_found id b found) declared
            ran)
        listed declared agree
