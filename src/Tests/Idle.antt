-- ===== src/Tests/Idle.antt =====
-- A machine that does nothing meets what the removal of dead definitions asks of machines.
use niflheim.Shared.{◌≡◌, refl, subst, some, ◌==◌, Bool-cases, inl, inr, ℕ}
use niflheim.Backend.Ir.Ids.{RegId, reg_id_eq}
use niflheim.Backend.Ir.Model.{Instruction, unit_const}
use niflheim.Backend.Semantics.{Value, constant, Registers, write, step, running}
use niflheim.Backend.Optimizations.DeadPure.{TypeNames}
use niflheim.Backend.Optimizations.DeadPure.Pure.{IsDouble, UncheckedTotal, DoublesDeclared}
use niflheim.Backend.Optimizations.DeadPure.Sound.{KeepsDeclared}
use niflheim.Tests.Blocks.{idle}

pub idle_total : UncheckedTotal idle
idle_total = record {
  unary_total = λ b d op o vs w. (constant unit_const, refl);
  type_test_total = λ b d k o t vs w. (constant unit_const, refl);
  binary_total = λ b d op l r vs w h. (constant unit_const, refl);
  cast_total = λ b d k o t v w h. (constant unit_const, refl);
}

-- A register that is written with something else than a double keeps the declarations true.
write-declared :
    (types : TypeNames) (d : RegId) (v : Value) (ρ : Registers)
    → ¬ IsDouble v
    → DoublesDeclared types ρ
    → DoublesDeclared types (write (some d) v ρ)
write-declared types d v ρ plain h r double = elim (Bool-cases (r == d)) [
  | inl same ↦ absurd (plain (rw same at double))
  | inr other ↦ h r (rw other at double)
]

-- A step that writes something else than a double keeps the declarations true.
pub plain_step :
    (types : TypeNames) (i : Instruction) (d : RegId) (v : Value)
    → ¬ IsDouble v
    → ((ρ : Registers) (w : ℕ) → step idle i ρ w ≡ running (write (some d) v ρ) w)
    → KeepsDeclared idle types i
plain_step types i d v plain does ρ w ρ' w' h e =
    let written : write (some d) v ρ ≡ ρ' = cc (does ρ w) in
    subst (DoublesDeclared types) written (write-declared types d v ρ plain h)
