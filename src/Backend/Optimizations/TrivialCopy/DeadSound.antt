-- ===== src/Backend/Optimizations/TrivialCopy/DeadSound.antt =====
-- Removing dead copies keeps what can be seen of the runs of a callable.
use niflheim.Shared.{
  ℕ, ◌≡◌, refl, sym, ap, ◌∙◌, true, false, some, List, [], ◌∷◌, ◌++◌, map, elem, Bool-cases, inl,
  inr, not-eq_true,
}
use niflheim.Shared.Result.{ok}
use mathlib.Core.List.{append_assoc}
use niflheim.Backend.Ir.Ids.{RegId, reg_id_eq, BlockId, block_id_eq}
use niflheim.Backend.Ir.InstIds.{inst_id}
use niflheim.Backend.Ir.Model.{Instruction, copy_inst, Terminator, Block, CallableDecl}
use niflheim.Backend.Semantics.{
  Registers, Value, value, Machine, running, write, step, run, run_block,
}
use niflheim.Backend.Semantics.Operands.{instruction_def_reg}
use niflheim.Backend.Semantics.Steps.{step-copy}
use niflheim.Backend.Semantics.Callables.{run_from, observe}
use niflheim.Backend.Analysis.RegSet.{RegSet}
use niflheim.Backend.Analysis.Cfg.{CallableCfg, index_callable_cfg}
use niflheim.Backend.Analysis.Liveness.{
  instructions_live_in, block_live_in, transfer_instruction_live_set, transfer_terminator_live_set,
}
use niflheim.Backend.Analysis.Liveness.Uses.{AgreeOn}
use niflheim.Backend.Analysis.Liveness.Sound.{
  transfer_instruction_keeps, Simulates, AgreeOn-dead_write, step-Simulates, chain-Simulates,
  finish-Simulates,
}
use niflheim.Backend.Analysis.Liveness.Fixpoint.{InstLiveSets, live_after, live_at, liveness_of_cfg}
use niflheim.Backend.Analysis.Liveness.Runs.{SimulatesBlocks, run_from-simulated}
use niflheim.Backend.Analysis.Liveness.Tables.{HasDistinctInstIds}
use niflheim.Backend.Analysis.Liveness.Behind.{live_after-block_live_in}
use niflheim.Backend.Optimizations.TrivialCopy.DeadCopies.{
  is_dead_copy, remove_from_instructions, remove_from_blocks,
}

module _ {W : Type 0} (m : Machine W) (table : InstLiveSets) where
  -- A dead copy writes a register that is not live behind it.
  dead_copy_writes :
      (i : Instruction) (ρ : Registers) (w : W)
      → is_dead_copy table i ≡ true
      → (d : RegId) × (v : Value) × (instruction_def_reg i ≡ some d)
        × (elem d (live_after table (inst_id i)) ≡ false)
        × (step m i ρ w ≡ running (write (some d) v ρ) w)
  unfolding is_dead_copy niflheim.Backend.Ir.InstIds.instruction_base
  dead_copy_writes (copy_inst b d o) ρ w h = (
    d,
    value ρ o,
    refl,
    not-eq_true (elem d (live_after table b.inst_id)) h,
    step-copy m b d o ρ w,
  )
  dead_copy_writes _ ρ w h = cc

  agree_behind :
      (i : Instruction) (d : RegId) (v : Value) (live : RegSet) (ρ ρ' : Registers)
      → instruction_def_reg i ≡ some d
      → elem d live ≡ false
      → AgreeOn (transfer_instruction_live_set i live) ρ ρ'
      → AgreeOn live (write (some d) v ρ) ρ'
  agree_behind i d v live ρ ρ' defines dead agree =
      AgreeOn-dead_write d v live ρ ρ' dead
        (λ r l. agree r (transfer_instruction_keeps i r live l (λ e. cc)))

  module _ (whole : List Instruction) (t : Terminator) (live_out : RegSet)
      (right : (before : List Instruction) (i : Instruction) (behind : List Instruction) (r : RegId)
        → whole ≡ before ++ i ∷ behind
        → elem r (live_after table (inst_id i)) ≡ elem r (block_live_in behind t live_out)) where
    remove_from_instructions_sound :
        (before is : List Instruction) (ρ ρ' : Registers) (w : W)
        → whole ≡ before ++ is
        → AgreeOn (block_live_in is t live_out) ρ ρ'
        → Simulates
            (transfer_terminator_live_set t live_out)
            (run m is ρ w)
            (run m (remove_from_instructions table is).0 ρ' w)
    unfolding remove_from_instructions run block_live_in instructions_live_in
    remove_from_instructions_sound before [] ρ ρ' w split agree = (agree, refl)
    remove_from_instructions_sound before (i ∷ is) ρ ρ' w split agree =
        let live = block_live_in is t live_out in
        let kept = (remove_from_instructions table is).0 in
        let split' : whole ≡ (before ++ i ∷ []) ++ is =
          split ∙ sym (append_assoc before (i ∷ []) is) in
        elim (Bool-cases (is_dead_copy table i)) [
          | inl dead ↦
              let (d, v, defines, unread, does) = dead_copy_writes i ρ w dead in
              rw (dead, remove_from_instructions)
                (rw does (
                  remove_from_instructions_sound (before ++ i ∷ []) is (write (some d) v ρ) ρ' w
                    split'
                    (agree_behind i d v live ρ ρ' defines (sym (right before i is d split) ∙ unread)
                      agree)))
          | inr keep ↦
              rw (keep, remove_from_instructions)
                (chain-Simulates m live (transfer_terminator_live_set t live_out) (step m i ρ w)
                  (step m i ρ' w) (run m is) (run m kept) (step-Simulates m i live ρ ρ' w agree)
                  (λ ρ₁ ρ₂ w₁ e agree₁.
                    remove_from_instructions_sound (before ++ i ∷ []) is ρ₁ ρ₂ w₁ split' agree₁))
        ]

abbrev pub without_dead_copies : InstLiveSets → Block → Block
without_dead_copies table b = record b {
  instructions = (remove_from_instructions table b.instructions).0;
}

pub remove_from_blocks-map :
    (table : InstLiveSets) (bs : List Block)
    → (remove_from_blocks table bs).0 ≡ map (without_dead_copies table) bs
unfolding remove_from_blocks
remove_from_blocks-map table [] = refl
remove_from_blocks-map table (b ∷ bs) =
    ap (λ (r : List Block). without_dead_copies table b ∷ r) (remove_from_blocks-map table bs)

module _ {W : Type 0} (m : Machine W) (c : CallableDecl) (cfg : CallableCfg)
    (local : c.is_extern ≡ false) (indexed : index_callable_cfg c ≡ ok cfg)
    (distinct : HasDistinctInstIds c.blocks) where
  abbrev table : InstLiveSets
  table = (liveness_of_cfg cfg).live_after_instruction

  copies-SimulatesBlocks :
      SimulatesBlocks m (λ ρ. Unit) (without_dead_copies table) c cfg local indexed
  unfolding run_block
  copies-SimulatesBlocks id b ρ ρ' w listed found fact agree =
      let live_out = live_at (liveness_of_cfg cfg).live_out_by_block id in
      finish-Simulates b.terminator live_out (run m b.instructions ρ w)
        (run m (remove_from_instructions table b.instructions).0 ρ' w)
        (remove_from_instructions_sound m table b.instructions b.terminator live_out
          (live_after-block_live_in c cfg id b local indexed listed found distinct) []
          b.instructions ρ ρ' w refl agree)

  -- A run from a block that can be reached shows the same without the dead copies.
  pub run_from-remove_from_blocks :
      (n : ℕ) (id : BlockId) (ρ : Registers) (w : W)
      → elem id cfg.reverse_postorder_ids ≡ true
      → observe (run_from m (remove_from_blocks table c.blocks).0 n id ρ w)
        ≡ observe (run_from m c.blocks n id ρ w)
  run_from-remove_from_blocks n id ρ w listed = rw (remove_from_blocks-map table c.blocks) (
      run_from-simulated m (λ ρ. Unit) (without_dead_copies table) c cfg local indexed n id ρ ρ w
        (λ b. refl) copies-SimulatesBlocks (λ id b ρ w ρ' w' found fact ran. tt) listed tt
        (λ r l. refl))
