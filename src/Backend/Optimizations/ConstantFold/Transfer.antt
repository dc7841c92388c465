-- ===== src/Backend/Optimizations/ConstantFold/Transfer.antt =====
-- The data flow analysis of constant folding follows the rewriting.
use niflheim.Shared.{
  ◌≡◌, refl, sym, ap, ◌∙◌, Option-cases, Bool-cases, inl, inr, List, [], ◌∷◌, ltb,
}
use niflheim.Backend.Ir.Model.{Instruction, unary_inst, binary_inst, cast_inst}
use niflheim.Backend.Semantics.Operands.{instruction_def_reg}
use niflheim.Backend.Optimizations.ConstantFold.Arith.{FloatOps}
use niflheim.Backend.Optimizations.ConstantFold.Folding.{ConstantMap, folded_constant}
use niflheim.Backend.Optimizations.ConstantFold.Pass.{
  rewrite_instruction_operands, forget_definition, record_constant, rewritten_instruction,
  fold_instruction, fold_instructions, transfer_constant, transfer_block_constants,
}

record_operands :
    (i : Instruction) (known constants : ConstantMap)
    → record_constant (rewrite_instruction_operands i known).0 constants
      ≡ record_constant i constants
unfolding rewrite_instruction_operands record_constant
record_operands (unary_inst b d op o) known constants = refl
record_operands (binary_inst b d op l r) known constants = refl
record_operands (cast_inst b d k o t traps) known constants = refl
record_operands _ known constants = refl

record_rewritten :
    (i : Instruction) (known constants : ConstantMap)
    → record_constant (rewritten_instruction i known).0 constants ≡ record_constant i constants
unfolding rewritten_instruction
record_rewritten i known constants =
    elim (Bool-cases (ltb 0 (rewrite_instruction_operands i known).1)) [
      | inl changed ↦ rw (changed, rewritten_instruction) (record_operands i known constants)
      | inr same ↦ rw (same, rewritten_instruction)
    ]

transfer_step :
    (f : FloatOps) (i : Instruction) (known : ConstantMap)
    → transfer_constant f i (folded_constant f i known) known
      ≡ record_constant (fold_instruction f i known).0 known
unfolding transfer_constant fold_instruction
transfer_step f i known = elim (Option-cases (folded_constant f i known)) [
  | inl missing ↦
      rw (missing, transfer_constant, fold_instruction) (sym (record_rewritten i known known))
  | inr (c, found) ↦ rw (found, transfer_constant, fold_instruction)
]

-- The analysis finds at the end of a block the constants that the rewriting of the block ends with.
pub transfer_block_constants-fold_instructions :
    (f : FloatOps) (is : List Instruction) (constants : ConstantMap)
    → transfer_block_constants f is constants ≡ (fold_instructions f constants is).1
unfolding transfer_block_constants fold_instructions
transfer_block_constants-fold_instructions f [] constants = refl
transfer_block_constants-fold_instructions f (i ∷ is) constants =
    let known = forget_definition (instruction_def_reg i) constants in
    ap (transfer_block_constants f is) (transfer_step f i known)
    ∙ transfer_block_constants-fold_instructions f is
        (record_constant (fold_instruction f i known).0 known)
