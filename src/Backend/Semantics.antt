-- ===== src/Backend/Semantics.antt =====
-- What backend code means, as the specification that the passes are measured against. An
-- instruction reads the values of its operands and the world (memory, input and output), and then
-- traps or writes its destination. Only copies and constants have a fixed meaning here: what any
-- other instruction does is a parameter, the machine.
pub mod Operands
pub mod Steps
pub mod Callables
pub mod Invariants
use niflheim.Shared.{
  ℕ, ◌≡◌, refl, Bool, true, false, Option, none, some, List, [], ◌∷◌, map, ◌==◌, if◌then◌else◌,
}
use niflheim.Symbols.{CallableId}
use niflheim.Backend.Ir.Ids.{RegId, BlockId, DataId, reg_id_eq}
use niflheim.Backend.Ir.Model.{
  Constant, bool_const, Operand, reg_operand, const_operand, data_operand, callable_operand,
  Instruction, const_inst, copy_inst, TrapKind, Terminator, jump, branch, return, trap, Block,
}
use Operands.{operands, skeleton, instruction_def_reg}

pub data Value : Type 0 where
  constant : Constant → Value
  object : ℕ → Value
  data_address : DataId → Value
  code_address : CallableId → Value

abbrev pub Registers : Type 0
Registers = RegId → Value

abbrev pub value : Registers → Operand → Value
value ρ (reg_operand r) = ρ r
value ρ (const_operand c) = constant c
value ρ (data_operand d) = data_address d
value ρ (callable_operand f _) = code_address f

pub data Effect (W : Type 0) : Type 0 where
  continues : Value → W → Effect W
  traps : W → Effect W

pub record Machine (W : Type 0) : Type 0 where
  -- The instruction, with its operands taken out, and their values.
  pub exec : Instruction → List Value → W → Effect W

-- A state, or the world in which the program stopped.
pub data Outcome (W : Type 0) : Type 0 where
  running : Registers → W → Outcome W
  trapped : W → Outcome W

abbrev pub write : Option RegId → Value → Registers → Registers
write none v ρ = ρ
write (some d) v ρ = λ r. if r == d then v else ρ r

module _ {W : Type 0} (m : Machine W) where
  -- Copies and constants mean what they say.
  abbrev pub effect : Instruction → List Value → W → Effect W
  effect (const_inst b d c) vs w = continues (constant c) w
  effect (copy_inst b d o) (v ∷ vs) w = continues v w
  effect i vs w = m.exec i vs w

  abbrev pub settle : Option RegId → Registers → Effect W → Outcome W
  settle d ρ (continues v w) = running (write d v ρ) w
  settle d ρ (traps w) = trapped w

  unfoldable pub step : Instruction → Registers → W → Outcome W
  step i ρ w = settle (instruction_def_reg i) ρ (effect (skeleton i) (map (value ρ) (operands i)) w)

  abbrev pub chain : Outcome W → (Registers → W → Outcome W) → Outcome W
  chain (running ρ w) k = k ρ w
  chain (trapped w) k = trapped w

  unfoldable pub run : List Instruction → Registers → W → Outcome W
  run [] ρ w = running ρ w
  run (i ∷ is) ρ w = chain (step i ρ w) (run is)

-- Where control goes at the end of a block.
pub data Exit : Type 0 where
  goto : BlockId → Exit
  returned : Option Value → Exit
  stopped : TrapKind → Exit
  confused : Exit

abbrev pub take_branch : Value → BlockId → BlockId → Exit
take_branch (constant (bool_const true)) t f = goto t
take_branch (constant (bool_const false)) t f = goto f
take_branch _ t f = confused

abbrev pub exit : Registers → Terminator → Exit
exit ρ (jump _ t) = goto t
exit ρ (branch _ c t f) = take_branch (value ρ c) t f
exit ρ (return _ none) = returned none
exit ρ (return _ (some o)) = returned (some (value ρ o))
exit ρ (trap _ k _) = stopped k

pub data BlockOutcome (W : Type 0) : Type 0 where
  leaves : Exit → Registers → W → BlockOutcome W
  traps_inside : W → BlockOutcome W

abbrev pub finish : {W : Type 0} → Terminator → Outcome W → BlockOutcome W
finish t (running ρ w) = leaves (exit ρ t) ρ w
finish t (trapped w) = traps_inside w

unfoldable pub run_block : {W : Type 0} → Machine W → Block → Registers → W → BlockOutcome W
run_block m b ρ w = finish b.terminator (run m b.instructions ρ w)
