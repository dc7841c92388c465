-- ===== src/Tests/Algebra.antt =====
-- The theorems on algebraic_simplify.py at concrete inputs.
use niflheim.Backend.Optimizations.AlgebraicSimplify.Callable.{
  simplify_callable, run_from-simplify_callable,
}
use niflheim.Shared.Result.{ok}
use niflheim.Backend.Optimizations.AlgebraicSimplify.Types.{HasDeclaredOperands}
use niflheim.Backend.Optimizations.DeadPure.Callable.{register_type_names}
use niflheim.Backend.Semantics.Callables.{run_from}
use niflheim.Backend.Optimizations.AlgebraicSimplify.Facts.{IsBool}
use niflheim.Backend.Optimizations.AlgebraicSimplify.Blocks.{IsSound, run_block-simplify_block}
use niflheim.Backend.Ir.Model.{CallableDecl, Block, InstructionBase}
use niflheim.Backend.Ir.Ids.{reg_id_eq}
use niflheim.Backend.Semantics.{write, running, run_block}
use niflheim.Shared.{
  All, not, subst, Bool-cases, inl, inr, ◌==◌, ℕ, ◌≡◌, refl, String, Option, some, none, List, [],
  ◌∷◌, Bool, true, false, arith,
}
use niflheim.Shared.Int.{pos}
use niflheim.Backend.Ir.Ids.{RegId}
use niflheim.Backend.Ir.Ops.{BinaryOpKind, BinaryOpFlavor}
use niflheim.Backend.Ir.Model.{
  IntTypeName, bool_const, reg_operand, const_operand, unary_inst, binary_inst,
}
use niflheim.Backend.Semantics.{Registers, constant, step}
use niflheim.Backend.Ir.Model.{copy_inst}
use niflheim.Backend.Optimizations.AlgebraicSimplify.{
  operand_mentions_reg, simplify_block, simplify_instructions, TypeNames, logical_not_op,
  simplify_binary, simplify_unary, integer_operand_type_name,
}
use niflheim.Backend.Optimizations.AlgebraicSimplify.Binary.{
  Fits, step-simplify_binary, step-simplify_unary,
}
use niflheim.Tests.Blocks.{main_callable, label, block, add_op, at, bit_floats, number, reg}
use niflheim.Tests.Machines.{adding, adding-Computes, adding-Computes_not}

abbrev types : TypeNames
types = (reg 0, "i64") ∷ []

-- Every register holds 7.
abbrev sevens : Registers
sevens = λ r. constant (number 7)

sum-Fits :
    Fits BinaryOpFlavor.integer BinaryOpKind.add
      (integer_operand_type_name (reg_operand (reg 0)) (const_operand (number 0)) types)
      (constant (number 7))
      (constant (number 0))
unfolding integer_operand_type_name
    niflheim.Backend.Optimizations.AlgebraicSimplify.operand_integer_type
    niflheim.Shared.Dict.lookup niflheim.Backend.Ir.Ids.reg_id_beq niflheim.Symbols.callable_id_beq
    niflheim.Shared.list_beq
sum-Fits = ((pos 7, refl, omega arith), (IntTypeName.i64, (pos 0, refl, omega arith), λ free. refl))

step-simplify_binary_example :
    step adding
      (simplify_binary (at 2) (reg 2) types add_op (reg_operand (reg 0)) (const_operand (number 0)))
      sevens
      0
    ≡ step adding
        (binary_inst (at 2) (reg 2) add_op (reg_operand (reg 0)) (const_operand (number 0)))
        sevens
        0
step-simplify_binary_example =
    step-simplify_binary bit_floats adding (at 2) (reg 2) types add_op (reg_operand (reg 0))
      (const_operand (number 0)) sevens 0 sum-Fits adding-Computes
      (adding-Computes_not (at 2) (reg 2) (const_operand (number 0)))
      (adding-Computes_not (at 2) (reg 2) (reg_operand (reg 0)))

-- Every register holds `false`.
abbrev falses : Registers
falses = λ r. constant (bool_const false)

step-simplify_unary_example :
    step adding
      (simplify_unary
        (at 2)
        (reg 2)
        ((reg 1, (logical_not_op, const_operand (bool_const true))) ∷ [])
        logical_not_op
        (reg_operand (reg 1)))
      falses
      0
    ≡ step adding (unary_inst (at 2) (reg 2) logical_not_op (reg_operand (reg 1))) falses 0
step-simplify_unary_example =
    step-simplify_unary bit_floats adding (at 2) (reg 2)
      ((reg 1, (logical_not_op, const_operand (bool_const true))) ∷ []) logical_not_op
      (reg_operand (reg 1)) falses 0 ((λ negation. (true, refl, refl)), tt)
      (adding-Computes_not (at 2) (reg 2) (reg_operand (reg 1)))

-- `r1 = !r1; r2 = !r1` becomes `r1 = !r1; r2 = r1`, although r2 is the old r1 and not the new one.
negated_register :
    simplify_instructions [] [] (
      unary_inst (at 0) (reg 1) logical_not_op (reg_operand (reg 1))
      ∷ unary_inst (at 1) (reg 2) logical_not_op (reg_operand (reg 1))
      ∷ [])
    ≡ unary_inst (at 0) (reg 1) logical_not_op (reg_operand (reg 1))
      ∷ copy_inst (at 1) (reg 2) (reg_operand (reg 1))
      ∷ []
unfolding simplify_instructions
    niflheim.Backend.Optimizations.AlgebraicSimplify.simplify_instruction simplify_unary
    niflheim.Backend.Optimizations.AlgebraicSimplify.negated_operand niflheim.Shared.Dict.lookup
    niflheim.Backend.Optimizations.AlgebraicSimplify.record_unary niflheim.Shared.Dict.insert
    niflheim.Backend.Optimizations.AlgebraicSimplify.invalidate_definition
    niflheim.Backend.Optimizations.AlgebraicSimplify.invalidate_unary_facts
    niflheim.Backend.Ir.Ids.reg_id_beq niflheim.Symbols.callable_id_beq niflheim.Shared.list_beq
negated_register = refl

-- Every register holds a Boolean.
abbrev Booleans : Registers → Type 0
Booleans ρ = (r : RegId) → IsBool (ρ r)

write-Booleans :
    (d : RegId) (x : Bool) (ρ : Registers)
    → Booleans ρ
    → Booleans (write (some d) (constant (bool_const x)) ρ)
write-Booleans d x ρ h r = elim (Bool-cases (r == d)) [
  | inl same ↦ (x, rw same)
  | inr other ↦ rw other (h r)
]

negation_step :
    (b : InstructionBase) (d r : RegId) (x : Bool) (ρ : Registers) (w : ℕ)
    → ρ r ≡ constant (bool_const x)
    → step adding (unary_inst b d logical_not_op (reg_operand r)) ρ w
      ≡ running (write (some d) (constant (bool_const (not x))) ρ) w
unfolding step
negation_step b d r x ρ w h =
    rw h (rw (adding-Computes_not b d (reg_operand r) (bool_const x) (bool_const (not x)) w refl))

negation-Booleans :
    (b : InstructionBase) (d r : RegId) (ρ : Registers) (w : ℕ) (ρ' : Registers) (w' : ℕ)
    → Booleans ρ
    → step adding (unary_inst b d logical_not_op (reg_operand r)) ρ w ≡ running ρ' w'
    → Booleans ρ'
negation-Booleans b d r ρ w ρ' w' h e =
    let (x, holds) = h r in
    let written : write (some d) (constant (bool_const (not x))) ρ ≡ ρ' =
      cc (negation_step b d r x ρ w holds) in
    subst Booleans written (write-Booleans d (not x) ρ h)

negation-IsSound :
    (b : InstructionBase) (d r : RegId)
    → operand_mentions_reg (reg_operand r) d ≡ false
    → IsSound bit_floats adding [] Booleans (unary_inst b d logical_not_op (reg_operand r))
negation-IsSound b d r apart = record {
  computes = adding-Computes_not b d (reg_operand r);
  computes_negations = tt;
  leaves_operands = λ negation. apart;
  fits = λ ρ h negation. h r;
  keeps = λ ρ w ρ' w' h e. negation-Booleans b d r ρ w ρ' w' h e;
}

-- r1 = !r0; r2 = !r1; return r1
abbrev double_negation : Block
double_negation = record block {
  instructions =
      unary_inst (at 0) (reg 1) logical_not_op (reg_operand (reg 0))
      ∷ unary_inst (at 1) (reg 2) logical_not_op (reg_operand (reg 1))
      ∷ [];
}

apart_0_1 : operand_mentions_reg (reg_operand (reg 0)) (reg 1) ≡ false
unfolding operand_mentions_reg niflheim.Backend.Ir.Ids.reg_id_beq niflheim.Symbols.callable_id_beq
    niflheim.Shared.list_beq
apart_0_1 = refl

apart_1_2 : operand_mentions_reg (reg_operand (reg 1)) (reg 2) ≡ false
unfolding operand_mentions_reg niflheim.Backend.Ir.Ids.reg_id_beq niflheim.Symbols.callable_id_beq
    niflheim.Shared.list_beq
apart_1_2 = refl

run_block-simplify_block_example :
    run_block adding (simplify_block double_negation []) falses 0
    ≡ run_block adding double_negation falses 0
run_block-simplify_block_example =
    run_block-simplify_block bit_floats adding double_negation [] Booleans falses 0
      (
        negation-IsSound (at 0) (reg 1) (reg 0) apart_0_1,
        (negation-IsSound (at 1) (reg 2) (reg 1) apart_1_2, tt),
      )
      (λ r. (false, refl))

abbrev negating_callable : CallableDecl
negating_callable = record main_callable { blocks = double_negation ∷ [] }

negating-IsSound :
    All
      (λ b.
        All
          (IsSound bit_floats adding (register_type_names negating_callable) Booleans)
          b.instructions)
      negating_callable.blocks
unfolding niflheim.Backend.Optimizations.DeadPure.Callable.add_type_names
negating-IsSound = (
  (
    negation-IsSound (at 0) (reg 1) (reg 0) apart_0_1,
    (negation-IsSound (at 1) (reg 2) (reg 1) apart_1_2, tt),
  ),
  tt,
)

negating-HasDeclaredOperands :
    All
      (λ b. All (HasDeclaredOperands (register_type_names negating_callable)) b.instructions)
      negating_callable.blocks
negating-HasDeclaredOperands = ((tt, (tt, tt)), tt)

run_from-simplify_callable_example :
    (c' : CallableDecl) × (simplify_callable negating_callable ≡ ok c')
    × (run_from adding c'.blocks 3 (label 0) falses 0
        ≡ run_from adding negating_callable.blocks 3 (label 0) falses 0)
run_from-simplify_callable_example =
    run_from-simplify_callable bit_floats adding negating_callable Booleans 3 (label 0) falses 0
      negating-HasDeclaredOperands negating-IsSound (λ r. (false, refl))
