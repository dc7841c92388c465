-- ===== src/Tests/Passes.antt =====
-- The theorems on compiler/backend/optimizations and compiler/backend/analysis at concrete inputs.
use niflheim.Shared.{
  subst, ◌≡◌, refl, ap, sym, ◌∙◌, ℕ, ◌+◌, Bool, true, false, Option, none, some, List, [], ◌∷◌, inl,
  inr, ◌⊎◌, ◌≢◌, All, arith, Bool-cases, ◌==◌, nat_eq,
}
use niflheim.Shared.Int.{ℤ, pos, negsuc, ◌+ℤ◌, int_pow}
use niflheim.Backend.Ir.Ids.{RegId, reg_id_eq, reg_id_beq_iff}
use niflheim.Backend.Ir.Model.{
  reg_operand, const_operand, const_inst, IntTypeName, unit_const, binary_inst, Block,
}
use niflheim.Backend.Semantics.{constant, step, run_block}
use niflheim.Backend.Analysis.RootSlots.{build_root_slot_plan_from_live_reg_sets}
use niflheim.Backend.Analysis.RootSlots.Conflicts.{together}
use niflheim.Backend.Analysis.RootSlots.Plan.{HaveDifferentSlots, build_root_slot_plan_apart}
use niflheim.Backend.Analysis.Liveness.Sound.{SimulatesBlock}
use niflheim.Backend.Optimizations.TrivialCopy.{rewrite_block}
use niflheim.Backend.Optimizations.TrivialCopy.Sound.{run_block-rewrite_block}
use niflheim.Backend.Optimizations.DeadPure.{TypeNames, eliminate_block}
use niflheim.Backend.Optimizations.DeadPure.Sound.{KeepsDeclared, run_block-eliminate_block}
use niflheim.Backend.Optimizations.ConstantFold.Arith.{
  fold_integer_binary, wrap_integer, pow_integer, int_result,
}
use niflheim.Backend.Optimizations.ConstantFold.Wrap.{
  IsWordOf, wrap_integer-IsWordOf, wrap_integer_unique, pow_integer-IsWordOf,
}
use niflheim.Backend.Optimizations.ConstantFold.Meaning.{EvalBinary}
use niflheim.Backend.Optimizations.ConstantFold.Folding.{fold_binary, fold_integer_constants}
use niflheim.Backend.Optimizations.ConstantFold.Correct.{fold_binary-EvalBinary}
use niflheim.Backend.Optimizations.ConstantFold.Known.{Computes}
use niflheim.Backend.Optimizations.ConstantFold.Pass.{
  fold_block, fold_instructions, transfer_block_constants,
}
use niflheim.Backend.Optimizations.ConstantFold.Sound.{run_block-fold_block}
use niflheim.Backend.Optimizations.ConstantFold.Transfer.{
  transfer_block_constants-fold_instructions,
}
use niflheim.Tests.Machines.{adding, adding-Computes}
use niflheim.Tests.Idle.{idle_total, plain_step}
use niflheim.Tests.Blocks.{
  at, reg, number, add_op, instructions, block, units, counting, idle, bit_floats,
}

run_block-rewrite_block_example :
    run_block counting (rewrite_block block).0 units 0 ≡ run_block counting block units 0
run_block-rewrite_block_example = run_block-rewrite_block counting block units 0

-- The types that the registers of the block are declared with.
abbrev types : TypeNames
types = (reg 0, "i64") ∷ (reg 1, "i64") ∷ (reg 2, "i64") ∷ []

together_1_2 :
    together (reg 1) (reg 2) ((reg 2 ∷ reg 1 ∷ []) ∷ [] ∷ (reg 0 ∷ reg 1 ∷ []) ∷ []) ≡ true
unfolding together niflheim.Shared.elem niflheim.Backend.Ir.Ids.reg_id_beq
    niflheim.Symbols.callable_id_beq niflheim.Shared.list_beq
together_1_2 = refl

build_root_slot_plan_apart_example : HaveDifferentSlots (reg 1) (reg 2) (
    build_root_slot_plan_from_live_reg_sets ((reg 2 ∷ reg 1 ∷ []) ∷ [] ∷ (reg 0 ∷ reg 1 ∷ []) ∷ []))
build_root_slot_plan_apart_example =
    build_root_slot_plan_apart ((reg 2 ∷ reg 1 ∷ []) ∷ [] ∷ (reg 0 ∷ reg 1 ∷ []) ∷ []) (reg 1)
      (reg 2) together_1_2

wrap_integer-IsWordOf_example :
    IsWordOf IntTypeName.u8 (pos 300) (wrap_integer (pos 300) IntTypeName.u8)
wrap_integer-IsWordOf_example = wrap_integer-IsWordOf (pos 300) IntTypeName.u8

byte_of_300 : IsWordOf IntTypeName.u8 (pos 300) (pos 44)
byte_of_300 = record { in_range = omega arith; congruent = (1, 0, omega arith) }

wrap_integer_unique_example : pos 44 ≡ wrap_integer (pos 300) IntTypeName.u8
wrap_integer_unique_example = wrap_integer_unique (pos 300) IntTypeName.u8 (pos 44) byte_of_300

pow_integer-IsWordOf_example :
    IsWordOf IntTypeName.u8 (int_pow (negsuc 2) 7) (pow_integer (negsuc 2) 7 IntTypeName.u8)
pow_integer-IsWordOf_example = pow_integer-IsWordOf (negsuc 2) 7 IntTypeName.u8

added : fold_binary bit_floats add_op (number 2) (number 3) ≡ some (number 5)
unfolding fold_binary fold_integer_constants
    niflheim.Backend.Optimizations.ConstantFold.Arith.fold_integer_binary wrap_integer
    niflheim.Shared.Int.int_and ◌+ℤ◌
added = refl

fold_binary-EvalBinary_example : EvalBinary bit_floats add_op (number 2) (number 3) (number 5)
fold_binary-EvalBinary_example =
    fold_binary-EvalBinary bit_floats add_op (number 2) (number 3) (number 5) added

transfer_block_constants-fold_instructions_example :
    transfer_block_constants bit_floats instructions []
    ≡ (fold_instructions bit_floats [] instructions).1
transfer_block_constants-fold_instructions_example =
    transfer_block_constants-fold_instructions bit_floats instructions []

-- r0 = 2; r2 = r0 + 3; return r1
abbrev dead_add : Block
dead_add = record block {
  instructions =
      const_inst (at 0) (reg 0) (number 2)
      ∷ binary_inst (at 2) (reg 2) add_op (reg_operand (reg 0)) (const_operand (number 3))
      ∷ [];
}

idle_keeps : All (KeepsDeclared idle types) dead_add.instructions
unfolding step
idle_keeps = (
  plain_step types (const_inst (at 0) (reg 0) (number 2)) (reg 0) (constant (number 2)) (λ x. x)
      (λ ρ w. refl),
  (
    plain_step types
        (binary_inst (at 2) (reg 2) add_op (reg_operand (reg 0)) (const_operand (number 3))) (reg 2)
        (constant unit_const) (λ x. x) (λ ρ w. refl),
    tt,
  ),
)

run_block-eliminate_block_example :
    SimulatesBlock []
      (run_block idle dead_add units 0)
      (run_block idle (eliminate_block types [] dead_add).0 units 0)
run_block-eliminate_block_example =
    run_block-eliminate_block idle types [] dead_add units units 0 idle_total idle_keeps
      (λ r double. absurd double) (λ r live. refl)

block-Computes : All (Computes bit_floats adding) instructions
block-Computes = (tt, (tt, (adding-Computes, (tt, tt))))

run_block-fold_block_example :
    run_block adding (fold_block bit_floats block []).0 units 0 ≡ run_block adding block units 0
run_block-fold_block_example =
    run_block-fold_block bit_floats adding block [] units 0 block-Computes tt
