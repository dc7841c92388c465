-- ===== src/Backend/Optimizations/AlgebraicSimplify/Blocks.antt =====
-- A simplified block does what the block does.
use niflheim.Shared.{
  ◌≡◌, refl, ap, ◌∙◌, Bool, true, false, not, Bool-cases, Option-cases, inl, inr, List, [], ◌∷◌,
  All, arith, if◌then◌else◌,
}
use niflheim.Shared.Int.{ℤ, pos}
use niflheim.Backend.Ir.Ids.{RegId}
use niflheim.Backend.Ir.Ops.{BinaryOpKind, BinaryOpFlavor, SemanticUnaryOp, SemanticBinaryOp}
use niflheim.Backend.Ir.Model.{
  IntTypeName, Operand, InstructionBase, Instruction, unary_inst, binary_inst, Block,
}
use niflheim.Backend.Semantics.{Registers, value, Machine, running, step, run, run_block, finish}
use niflheim.Backend.Semantics.Operands.{instruction_def_reg}
use niflheim.Backend.Semantics.Steps.{Outcome-cases}
use niflheim.Backend.Optimizations.ConstantFold.Arith.{FloatOps}
use niflheim.Backend.Optimizations.ConstantFold.Known.{Computes}
use niflheim.Backend.Optimizations.AlgebraicSimplify.{
  pos, TypeNames, UnaryFacts, is_logical_not, operand_mentions_reg, invalidate_definition,
  record_unary, negated_operand, simplify_unary, bool_constant_value, is_bool,
  integer_operand_type_name, simplify_bool_logical, compare_with, simplify_bool_comparison,
  simplify_identity, simplify_typed_integer, simplify_integer, simplify_binary,
  simplify_instruction, simplify_instructions, simplify_block, logical_not_like, all_ones,
}
use niflheim.Backend.Optimizations.AlgebraicSimplify.Facts.{IsBool}
use niflheim.Backend.Optimizations.AlgebraicSimplify.Binary.{
  Fits, FactHolds, step-simplify_binary, step-simplify_unary,
}
use niflheim.Backend.Optimizations.AlgebraicSimplify.Negations.{IsReady, record-FactHolds}

-- The operands have values of the types that the operation takes.
abbrev pub FitsOperands : TypeNames → Registers → Instruction → Type 0
FitsOperands types ρ (unary_inst b d op o) = is_logical_not op.kind ≡ true → IsBool (value ρ o)
FitsOperands types ρ (binary_inst b d op l r) =
    Fits op.flavor op.kind (integer_operand_type_name l r types) (value ρ l) (value ρ r)
FitsOperands types ρ _ = Unit

-- No logical negation and no comparison of Booleans writes a register that it reads.
abbrev pub LeavesOperands : Instruction → Type 0
LeavesOperands (unary_inst b d op o) =
    is_logical_not op.kind ≡ true → operand_mentions_reg o d ≡ false
LeavesOperands (binary_inst b d op l r) =
    op.flavor ≡ BinaryOpFlavor.bool_comparison
    → (operand_mentions_reg l d ≡ false) × (operand_mentions_reg r d ≡ false)
LeavesOperands _ = Unit

module _ (f : FloatOps) {W : Type 0} (m : Machine W) where
  -- The machine computes the instruction, and the negation of what it compares.
  abbrev pub ComputesNegations : Instruction → Type 0
  ComputesNegations (binary_inst b d op l r) =
      Computes f m (logical_not_like b d r) × Computes f m (logical_not_like b d l)
  ComputesNegations _ = Unit

  -- What the block needs of an instruction in the states that are well typed.
  pub record IsSound (types : TypeNames) (Good : Registers → Type 0) (i : Instruction)
      : Type 0 where
    pub computes : Computes f m i
    pub computes_negations : ComputesNegations i
    pub leaves_operands : LeavesOperands i
    pub fits : (ρ : Registers) → Good ρ → FitsOperands types ρ i
    pub keeps :
        (ρ : Registers) (w : W) (ρ' : Registers) (w' : W)
        → Good ρ
        → step m i ρ w ≡ running ρ' w'
        → Good ρ'

  module _ (b : InstructionBase) (d : RegId) (l r : Operand) (ρ : Registers) where
    if-IsReady :
        (test : Bool) (i j : Instruction)
        → IsReady f m ρ i
        → IsReady f m ρ j
        → IsReady f m ρ (if test then i else j)
    if-IsReady true i j hi hj = hi
    if-IsReady false i j hi hj = hj

    compare-IsReady :
        (same : Bool) (op : SemanticBinaryOp)
        → IsReady f m ρ (logical_not_like b d r)
        → IsReady f m ρ (logical_not_like b d l)
        → IsReady f m ρ (compare_with b d same op l r)
    unfolding compare_with
    compare-IsReady same op not_r not_l =
        let L = is_bool (bool_constant_value l) in
        let R = is_bool (bool_constant_value r) in
        if-IsReady (L same) _ _ tt (
          if-IsReady (R same) _ _ tt
            (if-IsReady (L (not same)) _ _ not_r (if-IsReady (R (not same)) _ _ not_l tt)))

    identity-IsReady :
        (op : SemanticBinaryOp) (z : ℤ) → IsReady f m ρ (simplify_identity b d op l r z)
    unfolding simplify_identity
    identity-IsReady op z = ground arith

    abbrev operation : BinaryOpFlavor → BinaryOpKind → SemanticBinaryOp
    operation flavor k = record { kind = k; flavor = flavor }

    logical-IsReady :
        (fl : BinaryOpFlavor) (k : BinaryOpKind)
        → IsReady f m ρ (simplify_bool_logical b d (operation fl k) l r)
    unfolding simplify_bool_logical
    logical-IsReady fl BinaryOpKind.logical_and = ground arith
    logical-IsReady fl BinaryOpKind.logical_or = ground arith
    logical-IsReady fl _ = tt

    comparison-IsReady :
        (fl : BinaryOpFlavor) (k : BinaryOpKind)
        → IsReady f m ρ (logical_not_like b d r)
        → IsReady f m ρ (logical_not_like b d l)
        → IsReady f m ρ (simplify_bool_comparison b d (operation fl k) l r)
    unfolding simplify_bool_comparison
    comparison-IsReady fl BinaryOpKind.equal not_r not_l =
        compare-IsReady true (operation fl BinaryOpKind.equal) not_r not_l
    comparison-IsReady fl BinaryOpKind.not_equal not_r not_l =
        compare-IsReady false (operation fl BinaryOpKind.not_equal) not_r not_l
    comparison-IsReady fl _ not_r not_l = tt

    typed-IsReady :
        (fl : BinaryOpFlavor) (t : IntTypeName) (k : BinaryOpKind)
        → IsReady f m ρ (simplify_typed_integer b d t (operation fl k) l r)
    unfolding simplify_typed_integer
    typed-IsReady fl t BinaryOpKind.add = identity-IsReady (operation fl BinaryOpKind.add) (pos 0)
    typed-IsReady fl t BinaryOpKind.subtract = ground arith
    typed-IsReady fl t BinaryOpKind.multiply =
        ground (arith, identity-IsReady (operation fl BinaryOpKind.multiply) (pos 1))
    typed-IsReady fl t BinaryOpKind.divide = ground arith
    typed-IsReady fl t BinaryOpKind.remainder = ground arith
    typed-IsReady fl t BinaryOpKind.power = ground arith
    typed-IsReady fl t BinaryOpKind.bitwise_and =
        ground (arith, identity-IsReady (operation fl BinaryOpKind.bitwise_and) (all_ones t))
    typed-IsReady fl t BinaryOpKind.bitwise_or =
        ground (arith, identity-IsReady (operation fl BinaryOpKind.bitwise_or) (pos 0))
    typed-IsReady fl t BinaryOpKind.bitwise_xor =
        ground (arith, identity-IsReady (operation fl BinaryOpKind.bitwise_xor) (pos 0))
    typed-IsReady fl t BinaryOpKind.shift_left = ground arith
    typed-IsReady fl t BinaryOpKind.shift_right = ground arith
    typed-IsReady fl t _ = tt

    integer-IsReady :
        (types : TypeNames) (fl : BinaryOpFlavor) (k : BinaryOpKind)
        → IsReady f m ρ (simplify_integer b d types (operation fl k) l r)
    unfolding simplify_integer
    integer-IsReady types fl k = elim (Option-cases (integer_operand_type_name l r types)) [
      | inl missing ↦ rw (missing, simplify_integer) tt
      | inr (t, found) ↦ rw (found, simplify_integer) (typed-IsReady fl t k)
    ]

    binary-IsReady :
        (types : TypeNames) (fl : BinaryOpFlavor) (k : BinaryOpKind)
        → Fits fl k (integer_operand_type_name l r types) (value ρ l) (value ρ r)
        → LeavesOperands (binary_inst b d (operation fl k) l r)
        → ComputesNegations (binary_inst b d (operation fl k) l r)
        → IsReady f m ρ (simplify_binary b d types (operation fl k) l r)
    unfolding simplify_binary
    binary-IsReady types BinaryOpFlavor.bool_logical k fits leaves computes =
        logical-IsReady BinaryOpFlavor.bool_logical k
    binary-IsReady types BinaryOpFlavor.bool_comparison k (left, right) leaves (not_r, not_l) =
        let (apart_l, apart_r) = leaves refl in
        comparison-IsReady BinaryOpFlavor.bool_comparison k (λ _. (right, apart_r, not_r))
          (λ _. (left, apart_l, not_l))
    binary-IsReady types BinaryOpFlavor.integer k fits leaves computes =
        integer-IsReady types BinaryOpFlavor.integer k
    binary-IsReady types _ k fits leaves computes = tt

  unary-IsReady :
      (b : InstructionBase) (d : RegId) (facts : UnaryFacts) (op : SemanticUnaryOp) (o : Operand)
      (ρ : Registers)
      → IsReady f m ρ (unary_inst b d op o)
      → IsReady f m ρ (simplify_unary b d facts op o)
  unfolding simplify_unary
  unary-IsReady b d facts op o ρ ready = elim (Bool-cases (is_logical_not op.kind)) [
    | inr other ↦ rw (other, simplify_unary) ready
    | inl negation ↦ elim (Option-cases (negated_operand facts o)) [
      | inl missing ↦ rw (negation, missing, simplify_unary) ready
      | inr (p, found) ↦ rw (negation, found, simplify_unary) tt
    ]
  ]

  instruction-IsReady :
      (i : Instruction) (facts : UnaryFacts) (types : TypeNames) (ρ : Registers)
      → Computes f m i
      → ComputesNegations i
      → LeavesOperands i
      → FitsOperands types ρ i
      → IsReady f m ρ (simplify_instruction i facts types)
  unfolding simplify_instruction
  instruction-IsReady (unary_inst b d op o) facts types ρ computes negations leaves fits =
      unary-IsReady b d facts op o ρ (λ negation. (fits negation, leaves negation, computes))
  instruction-IsReady (binary_inst b d op l r) facts types ρ computes negations leaves fits =
      binary-IsReady b d l r ρ types op.flavor op.kind fits leaves negations
  instruction-IsReady _ facts types ρ computes negations leaves fits = tt

  step-simplify_instruction :
      (i : Instruction) (facts : UnaryFacts) (types : TypeNames) (ρ : Registers) (w : W)
      → All (FactHolds ρ) facts
      → Computes f m i
      → ComputesNegations i
      → FitsOperands types ρ i
      → step m (simplify_instruction i facts types) ρ w ≡ step m i ρ w
  unfolding simplify_instruction
  step-simplify_instruction (unary_inst b d op o) facts types ρ w h computes negations fits =
      step-simplify_unary f m b d facts op o ρ w h computes
  step-simplify_instruction (binary_inst b d op l r) facts types ρ w h computes (not_r, not_l)
        fits =
      step-simplify_binary f m b d types op l r ρ w fits computes not_r not_l
  step-simplify_instruction _ facts types ρ w h computes negations fits = refl

  run-simplify_instructions :
      (is : List Instruction) (facts : UnaryFacts) (types : TypeNames) (Good : Registers → Type 0)
      (ρ : Registers) (w : W)
      → All (IsSound types Good) is
      → Good ρ
      → All (FactHolds ρ) facts
      → run m (simplify_instructions facts types is) ρ w ≡ run m is ρ w
  unfolding simplify_instructions run
  run-simplify_instructions [] facts types Good ρ w sound good h = refl
  run-simplify_instructions (i ∷ is) facts types Good ρ w (here, sound) good h =
      let i' = simplify_instruction i facts types in
      let same =
        step-simplify_instruction i facts types ρ w h here.computes here.computes_negations
          (here.fits ρ good) in
      rw same (elim (Outcome-cases (step m i ρ w)) [
        | inl (ρ₁, w₁, e) ↦ rw e (
            run-simplify_instructions is
              (record_unary i' (invalidate_definition facts (instruction_def_reg i'))) types Good ρ₁
              w₁ sound (here.keeps ρ w ρ₁ w₁ good e)
              (record-FactHolds f m i' facts ρ w ρ₁ w₁ h
                (instruction-IsReady i facts types ρ here.computes here.computes_negations
                  here.leaves_operands (here.fits ρ good))
                (same ∙ e)))
        | inr (w₁, e) ↦ rw e refl
      ])

-- From a well typed state, the simplified block leaves to the same place, with the same registers and
-- the same world, or traps in the same world. What is well typed is a predicate on registers: it gives
-- the operands of the block's operations the types that the operations take, and every instruction
-- keeps it. The machine computes on constants what the language says, and no logical negation and no
-- comparison of Booleans writes a register that it reads.
pub run_block-simplify_block :
    (f : FloatOps) {W : Type 0} (m : Machine W) (block : Block) (types : TypeNames)
    (Good : Registers → Type 0) (ρ : Registers) (w : W)
    → All (IsSound f m types Good) block.instructions
    → Good ρ
    → run_block m (simplify_block block types) ρ w ≡ run_block m block ρ w
unfolding run_block simplify_block
run_block-simplify_block f m block types Good ρ w sound good =
    ap (finish block.terminator)
      (run-simplify_instructions f m block.instructions [] types Good ρ w sound good tt)
