-- ===== src/Backend/Semantics/Steps.antt =====
-- Laws of the semantics that every pass uses.
use niflheim.Shared.{◌≡◌, refl, ap, Option, some, List, [], ◌∷◌, map, arith, ◌⊎◌, inl, inr}
use mathlib.Core.Path.{fun_ext}
use niflheim.Backend.Ir.Ids.{RegId, reg_id_eq, reg_id_beq_iff}
use niflheim.Backend.Ir.Model.{Operand, Instruction, InstructionBase, copy_inst}
use niflheim.Backend.Semantics.{
  Value, Registers, value, Machine, Effect, continues, traps, Outcome, running, trapped, write,
  effect, settle, step,
}
use niflheim.Backend.Semantics.Operands.{
  operands, skeleton, instruction_def_reg, map_operands, skeleton-map_operands,
  operands-map_operands, instruction_def_reg-map_operands,
}

map-map-value :
    (ρ : Registers) (f : Operand → Operand) (os : List Operand)
    → ((o : Operand) → value ρ (f o) ≡ value ρ o)
    → map (value ρ) (map f os) ≡ map (value ρ) os
map-map-value ρ f [] h = refl
map-map-value ρ f (o ∷ os) h = cc (h o, map-map-value ρ f os h)

-- Writing back the value that a register holds changes nothing.
pub write_self : (d : RegId) (ρ : Registers) → write (some d) (ρ d) ρ ≡ ρ
write_self d ρ = fun_ext λ r. ground (arith, reg_id_beq_iff r d)

pub write_same : (d : RegId) (v : Value) (ρ : Registers) → write (some d) v ρ d ≡ v
write_same d v ρ = ground (arith, reg_id_beq_iff d d)

module _ {W : Type 0} (m : Machine W) where
  -- An instruction whose operands are replaced by operands of the same value does the same.
  pub step-map_operands :
      (f : Operand → Operand) (i : Instruction) (ρ : Registers) (w : W)
      → ((o : Operand) → value ρ (f o) ≡ value ρ o)
      → step m (map_operands f i) ρ w ≡ step m i ρ w
  unfolding step
  step-map_operands f i ρ w h = cc (
    instruction_def_reg-map_operands f i,
    skeleton-map_operands f i,
    ap (map (value ρ)) (operands-map_operands f i),
    map-map-value ρ f (operands i) h,
  )

  pub step-copy :
      (b : InstructionBase) (d : RegId) (o : Operand) (ρ : Registers) (w : W)
      → step m (copy_inst b d o) ρ w ≡ running (write (some d) (value ρ o) ρ) w
  unfolding step
  step-copy b d o ρ w = refl

  settle_running :
      (d : Option RegId) (ρ : Registers) (e : Effect W) {ρ' : Registers} {w' : W}
      → settle m d ρ e ≡ running ρ' w'
      → (v : Value) × (ρ' ≡ write d v ρ)
  settle_running d ρ (continues v w) h = (v, cc)
  settle_running d ρ (traps w) h = cc

  -- A step that does not trap changes at most the register that it defines.
  pub step-running :
      (i : Instruction) (ρ : Registers) (w : W) {ρ' : Registers} {w' : W}
      → step m i ρ w ≡ running ρ' w'
      → (v : Value) × (ρ' ≡ write (instruction_def_reg i) v ρ)
  unfolding step
  step-running i ρ w h =
      settle_running (instruction_def_reg i) ρ
        (effect m (skeleton i) (map (value ρ) (operands i)) w) h

pub Outcome-cases :
    {W : Type 0} (o : Outcome W)
    → ((ρ : Registers) × (w : W) × (o ≡ running ρ w)) ⊎ ((w : W) × (o ≡ trapped w))
Outcome-cases (running ρ w) = inl (ρ, w, refl)
Outcome-cases (trapped w) = inr (w, refl)
