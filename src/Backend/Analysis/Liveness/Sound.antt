-- ===== src/Backend/Analysis/Liveness/Sound.antt =====
-- What live sets mean: registers outside the live set in front of an instruction do not matter.
use niflheim.Shared.{
  true, ◌≡◌, refl, sym, false, Option, none, some, map, arith, ◌≢◌, ◌==◌, elem, elem-same,
  Bool-cases, inl, inr,
}
use niflheim.Backend.Ir.Ids.{reg_id_beq_iff, RegId, reg_id_eq}
use niflheim.Backend.Ir.Model.{Instruction, Terminator}
use niflheim.Backend.Semantics.{
  Registers, Value, value, Machine, Outcome, running, trapped, chain, Effect, continues, traps,
  write, effect, settle, step, BlockOutcome, leaves, traps_inside, finish,
}
use niflheim.Backend.Semantics.Operands.{operands, instruction_def_reg, skeleton}
use niflheim.Backend.Analysis.RegSet.{RegSet, update, discard, elem-update, elem-discard}
use niflheim.Backend.Analysis.Liveness.{
  instruction_use_regs, terminator_use_regs, remove_definition, transfer_instruction_live_set,
  transfer_terminator_live_set,
}
use niflheim.Backend.Analysis.Liveness.Uses.{AgreeOn, operands-AgreeOn, exit-AgreeOn}

abbrev pub Within : RegSet → RegSet → Type 0
Within s t = (r : RegId) → elem r s ≡ true → elem r t ≡ true

remove_definition-Within :
    (d : Option RegId) (s t : RegSet)
    → Within s t
    → Within (remove_definition d s) (remove_definition d t)
unfolding remove_definition
remove_definition-Within none s t h r l = h r l
remove_definition-Within (some d) s t h r l =
    ground (arith, elem-discard r d s, elem-discard r d t, h r)

-- The transfer of a larger set is larger.
pub transfer_instruction-Within :
    (i : Instruction) (s t : RegSet)
    → Within s t
    → Within (transfer_instruction_live_set i s) (transfer_instruction_live_set i t)
unfolding transfer_instruction_live_set
transfer_instruction-Within i s t h r l =
    let d = instruction_def_reg i in
    ground (
      arith,
      elem-update r (remove_definition d s) (instruction_use_regs i),
      elem-update r (remove_definition d t) (instruction_use_regs i),
      remove_definition-Within d s t h r,
    )

pub kept_by_definition :
    (d : Option RegId) (r : RegId) (s : RegSet)
    → elem r s ≡ true
    → d ≢ some r
    → elem r (remove_definition d s) ≡ true
unfolding remove_definition
kept_by_definition none r s l other = l
kept_by_definition (some d) r s l other = ground (arith, elem-discard r d s, reg_id_beq_iff r d)

-- A live register that the instruction does not define is live in front of it.
pub transfer_instruction_keeps :
    (i : Instruction) (r : RegId) (s : RegSet)
    → elem r s ≡ true
    → instruction_def_reg i ≢ some r
    → elem r (transfer_instruction_live_set i s) ≡ true
unfolding transfer_instruction_live_set
transfer_instruction_keeps i r s l other =
    let d = instruction_def_reg i in
    ground (
      arith,
      elem-update r (remove_definition d s) (instruction_use_regs i),
      kept_by_definition d r s l other,
    )

-- Both stop in the same world, or both go on in the same world with registers that agree on `s`.
abbrev pub Simulates : {W : Type 0} → RegSet → Outcome W → Outcome W → Type 0
Simulates s (running ρ w) (running ρ' w') = AgreeOn s ρ ρ' × (w ≡ w')
Simulates s (trapped w) (trapped w') = w ≡ w'
Simulates s _ _ = ⊥

abbrev pub SimulatesBlock : {W : Type 0} → RegSet → BlockOutcome W → BlockOutcome W → Type 0
SimulatesBlock s (leaves x ρ w) (leaves x' ρ' w') = (x ≡ x') × AgreeOn s ρ ρ' × (w ≡ w')
SimulatesBlock s (traps_inside w) (traps_inside w') = w ≡ w'
SimulatesBlock s _ _ = ⊥

AgreeOn-write :
    (d : Option RegId) (v : Value) (live uses : RegSet) (ρ ρ' : Registers)
    → AgreeOn (update (remove_definition d live) uses) ρ ρ'
    → AgreeOn live (write d v ρ) (write d v ρ')
unfolding remove_definition
AgreeOn-write none v live uses ρ ρ' h r l = h r (ground (arith, elem-update r live uses))
AgreeOn-write (some d) v live uses ρ ρ' h r l = elim (Bool-cases (r == d)) [
  | inl same ↦ rw same
  | inr other ↦
      rw other (h r (ground (arith, elem-update r (discard d live) uses, elem-discard r d live)))
]

-- A register outside the live set may be written at will.
pub AgreeOn-dead_write :
    (d : RegId) (v : Value) (live : RegSet) (ρ ρ' : Registers)
    → elem d live ≡ false
    → AgreeOn live ρ ρ'
    → AgreeOn live (write (some d) v ρ) ρ'
AgreeOn-dead_write d v live ρ ρ' dead h r l = elim (Bool-cases (r == d)) [
  | inl same ↦ cc (elem-same r d live same)
  | inr other ↦ rw other (h r l)
]

module _ {W : Type 0} (m : Machine W) where
  settle-Simulates :
      (d : Option RegId) (live uses : RegSet) (ρ ρ' : Registers) (e : Effect W)
      → AgreeOn (update (remove_definition d live) uses) ρ ρ'
      → Simulates live (settle m d ρ e) (settle m d ρ' e)
  settle-Simulates d live uses ρ ρ' (continues v w) h = (AgreeOn-write d v live uses ρ ρ' h, refl)
  settle-Simulates d live uses ρ ρ' (traps w) h = refl

  -- From registers that agree in front of an instruction, it has the same effect, and the
  -- registers agree behind it.
  pub step-Simulates :
      (i : Instruction) (live : RegSet) (ρ ρ' : Registers) (w : W)
      → AgreeOn (transfer_instruction_live_set i live) ρ ρ'
      → Simulates live (step m i ρ w) (step m i ρ' w)
  unfolding step transfer_instruction_live_set
  step-Simulates i live ρ ρ' w h =
      let d = instruction_def_reg i in
      let uses = instruction_use_regs i in
      let same : map (value ρ) (operands i) ≡ map (value ρ') (operands i) =
        operands-AgreeOn i ρ ρ'
          (λ r u. h r (ground (arith, elem-update r (remove_definition d live) uses))) in
      rw same (
        settle-Simulates d live uses ρ ρ' (effect m (skeleton i) (map (value ρ') (operands i)) w) h)

  -- The two runs go on from one step each.
  pub chain-Simulates :
      (live live_end : RegSet) (o o' : Outcome W) (before after : Registers → W → Outcome W)
      → Simulates live o o'
      → ((ρ ρ' : Registers) (w : W)
          → o ≡ running ρ w
          → AgreeOn live ρ ρ'
          → Simulates live_end (before ρ w) (after ρ' w))
      → Simulates live_end (chain m o before) (chain m o' after)
  chain-Simulates live live_end (running ρ w) (running ρ' w') before after h next =
      rw (sym h.1) (next ρ ρ' w refl h.0)
  chain-Simulates live live_end (trapped w) (trapped w') before after h next = h
  chain-Simulates live live_end (running ρ w) (trapped w') before after h next = absurd h
  chain-Simulates live live_end (trapped w) (running ρ' w') before after h next = absurd h

pub finish-Simulates :
    {W : Type 0} (t : Terminator) (live : RegSet) (o o' : Outcome W)
    → Simulates (transfer_terminator_live_set t live) o o'
    → SimulatesBlock live (finish t o) (finish t o')
unfolding transfer_terminator_live_set
finish-Simulates t live (running ρ w) (running ρ' w') h = (
  exit-AgreeOn t ρ ρ' (λ r u. h.0 r (ground (arith, elem-update r live (terminator_use_regs t)))),
  λ r l. h.0 r (ground (arith, elem-update r live (terminator_use_regs t))),
  h.1,
)
finish-Simulates t live (trapped w) (trapped w') h = h
finish-Simulates t live (running ρ w) (trapped w') h = h
finish-Simulates t live (trapped w) (running ρ' w') h = h
