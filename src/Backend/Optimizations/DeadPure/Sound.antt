-- ===== src/Backend/Optimizations/DeadPure/Sound.antt =====
-- Removing dead pure definitions keeps the meaning of a block.
use niflheim.Shared.{
  ◌≡◌, refl, true, ◌&&◌, Option, none, some, List, [], ◌∷◌, arith, elem, ◌≢◌, All, Bool-cases, inl,
  inr, not-eq_true, and-eq_true,
}
use niflheim.Backend.Ir.Ids.{RegId, reg_id_eq}
use niflheim.Backend.Ir.Model.{Instruction, Block}
use niflheim.Backend.Semantics.{Registers, Value, Machine, running, write, step, run, run_block}
use niflheim.Backend.Semantics.Operands.{instruction_def_reg}
use niflheim.Backend.Analysis.RegSet.{RegSet}
use niflheim.Backend.Analysis.Liveness.{
  instructions_live_in, block_live_in, transfer_terminator_live_set,
}
use niflheim.Backend.Analysis.Liveness.Uses.{AgreeOn}
use niflheim.Backend.Analysis.Liveness.Sound.{
  Within, transfer_instruction-Within, transfer_instruction_keeps, Simulates, SimulatesBlock,
  AgreeOn-dead_write, step-Simulates, chain-Simulates, finish-Simulates,
}
use niflheim.Backend.Optimizations.DeadPure.{
  TypeNames, is_dead, instruction_is_dead_eliminable, eliminate_instructions, eliminate_block,
}
use niflheim.Backend.Optimizations.DeadPure.Pure.{UncheckedTotal, DoublesDeclared, eliminable-pure}

-- The instruction keeps every double in a register that is declared as one.
abbrev pub KeepsDeclared : {W : Type 0} → Machine W → TypeNames → Instruction → Type 0
KeepsDeclared {W} m types i =
    (ρ : Registers) (w : W) (ρ' : Registers) (w' : W)
    → DoublesDeclared types ρ
    → step m i ρ w ≡ running ρ' w'
    → DoublesDeclared types ρ'

dead_write :
    (d : Option RegId) (v : Value) (live : RegSet) (ρ ρ' : Registers)
    → is_dead d live ≡ true
    → AgreeOn live ρ ρ'
    → AgreeOn live (write d v ρ) ρ'
dead_write none v live ρ ρ' dead h = cc
dead_write (some d) v live ρ ρ' dead h =
    AgreeOn-dead_write d v live ρ ρ' (not-eq_true (elem d live) dead) h

dead_elsewhere :
    (d : Option RegId) (r : RegId) (live : RegSet)
    → is_dead d live ≡ true
    → elem r live ≡ true
    → d ≢ some r
dead_elsewhere none r live dead l e = cc
dead_elsewhere (some d) r live dead l e = ground (arith, not-eq_true (elem d live) dead)

-- What the pass takes for live in front of the instructions lies within what the analysis does.
eliminate_instructions-Within :
    (types : TypeNames) (is : List Instruction) (live_end : RegSet)
    → Within (eliminate_instructions types is live_end).1 (instructions_live_in is live_end)
unfolding eliminate_instructions instructions_live_in
eliminate_instructions-Within types [] live_end r h = h
eliminate_instructions-Within types (i ∷ is) live_end r h =
    let (kept, live, removed) = eliminate_instructions types is live_end in
    let within = eliminate_instructions-Within types is live_end in
    elim (Bool-cases
      (is_dead (instruction_def_reg i) live && instruction_is_dead_eliminable i types)) [
        | inl drop ↦
            let (dead, pure) = and-eq_true _ _ drop in
            let l : elem r live ≡ true = rw (drop, eliminate_instructions) at h in
            transfer_instruction_keeps i r (instructions_live_in is live_end) (within r l)
              (dead_elsewhere (instruction_def_reg i) r live dead l)
        | inr keep ↦
            transfer_instruction-Within i live (instructions_live_in is live_end) within r
              (rw (keep, eliminate_instructions) at h)
      ]

module _ {W : Type 0} (m : Machine W) (total : UncheckedTotal m) (types : TypeNames) where
  eliminate_instructions_sound :
      (is : List Instruction) (live_end : RegSet) (ρ ρ' : Registers) (w : W)
      → All (KeepsDeclared m types) is
      → DoublesDeclared types ρ
      → AgreeOn (eliminate_instructions types is live_end).1 ρ ρ'
      → Simulates live_end (run m is ρ w) (run m (eliminate_instructions types is live_end).0 ρ' w)
  unfolding eliminate_instructions run
  eliminate_instructions_sound [] live_end ρ ρ' w keeps declared h = (h, refl)
  eliminate_instructions_sound (i ∷ is) live_end ρ ρ' w keeps declared h =
      let (kept, live, removed) = eliminate_instructions types is live_end in
      elim (Bool-cases
        (is_dead (instruction_def_reg i) live && instruction_is_dead_eliminable i types)) [
          | inl drop ↦
              let (dead, pure) = and-eq_true _ _ drop in
              let (v, does) = eliminable-pure m total types i ρ w declared pure in
              rw (drop, eliminate_instructions)
                (rw does (
                  eliminate_instructions_sound is live_end (write (instruction_def_reg i) v ρ) ρ' w
                    keeps.1 (keeps.0 ρ w _ w declared does)
                    (dead_write (instruction_def_reg i) v live ρ ρ' dead
                      (rw (drop, eliminate_instructions) at h))))
          | inr keep ↦
              rw (keep, eliminate_instructions)
                (chain-Simulates m live live_end (step m i ρ w) (step m i ρ' w) (run m is)
                  (run m kept)
                  (step-Simulates m i live ρ ρ' w (rw (keep, eliminate_instructions) at h))
                  (λ ρ₁ ρ₂ w₁ e agree.
                    eliminate_instructions_sound is live_end ρ₁ ρ₂ w₁ keeps.1
                      (keeps.0 ρ w ρ₁ w₁ declared e) agree))
        ]

-- From registers that agree on what the analysis takes for live in front of the block, the block
-- without its dead definitions leaves to the same place in the same world, with registers that
-- agree on the live-out set, or traps in the same world. This needs the unchecked operations to be
-- total, and doubles to be held in registers that are declared as doubles.
pub run_block-eliminate_block :
    {W : Type 0} (m : Machine W) (types : TypeNames) (live_out : RegSet) (block : Block)
    (ρ ρ' : Registers) (w : W)
    → UncheckedTotal m
    → All (KeepsDeclared m types) block.instructions
    → DoublesDeclared types ρ
    → AgreeOn (block_live_in block.instructions block.terminator live_out) ρ ρ'
    → SimulatesBlock live_out
        (run_block m block ρ w)
        (run_block m (eliminate_block types live_out block).0 ρ' w)
unfolding run_block eliminate_block block_live_in
run_block-eliminate_block m types live_out block ρ ρ' w total keeps declared agree =
    let live_end = transfer_terminator_live_set block.terminator live_out in
    finish-Simulates block.terminator live_out (run m block.instructions ρ w)
      (run m (eliminate_instructions types block.instructions live_end).0 ρ' w)
      (eliminate_instructions_sound m total types block.instructions live_end ρ ρ' w keeps declared
        (λ r l. agree r (eliminate_instructions-Within types block.instructions live_end r l)))
