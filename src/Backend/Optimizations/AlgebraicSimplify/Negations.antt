-- ===== src/Backend/Optimizations/AlgebraicSimplify/Negations.antt =====
-- The negations that `unary_by_reg` records stay true along a block.
use niflheim.Shared.{
  ◌≡◌, refl, sym, subst, ◌∙◌, true, false, not, Bool-cases, Option, some, none, inl, inr, [], ◌∷◌,
  All, ◌==◌,
}
use niflheim.Shared.Dict.{insert}
use niflheim.Backend.Ir.Ids.{RegId, reg_id_eq, reg_id_beq_iff}
use niflheim.Backend.Ir.Ops.{SemanticUnaryOp}
use niflheim.Backend.Ir.Model.{
  bool_const, Operand, reg_operand, InstructionBase, Instruction, unary_inst,
}
use niflheim.Backend.Semantics.{Value, constant, Registers, value, Machine, running, write, step}
use niflheim.Backend.Semantics.Operands.{instruction_def_reg}
use niflheim.Backend.Semantics.Steps.{step-running, write_same}
use niflheim.Backend.Optimizations.ConstantFold.Arith.{FloatOps}
use niflheim.Backend.Optimizations.ConstantFold.Meaning.{EvalUnary}
use niflheim.Backend.Optimizations.ConstantFold.Known.{Computes}
use niflheim.Backend.Optimizations.AlgebraicSimplify.{
  UnaryFacts, is_logical_not, operand_mentions_reg, invalidate_unary_facts, invalidate_definition,
  record_unary,
}
use niflheim.Backend.Optimizations.AlgebraicSimplify.Facts.{IsBool}
use niflheim.Backend.Optimizations.AlgebraicSimplify.Binary.{FactHolds, logical_not_of}

-- An operand that does not mention `d` keeps its value when `d` is written.
value-write :
    (ρ : Registers) (d : RegId) (v : Value) (o : Operand)
    → operand_mentions_reg o d ≡ false
    → value (write (some d) v ρ) o ≡ value ρ o
unfolding operand_mentions_reg
value-write ρ d v (reg_operand r) h = rw h
value-write ρ d v _ h = refl

elsewhere-FactHolds :
    (ρ : Registers) (d r : RegId) (v : Value) (op : SemanticUnaryOp) (o : Operand)
    → (r == d) ≡ false
    → operand_mentions_reg o d ≡ false
    → FactHolds ρ (r, (op, o))
    → FactHolds (write (some d) v ρ) (r, (op, o))
elsewhere-FactHolds ρ d r v op o apart unmentioned h negation =
    let (x, inner, outer) = h negation in
    let kept : write (some d) v ρ r ≡ ρ r = rw apart in
    (x, value-write ρ d v o unmentioned ∙ inner, kept ∙ outer)

invalidate-FactHolds :
    (ρ : Registers) (d : RegId) (v : Value) (facts : UnaryFacts)
    → All (FactHolds ρ) facts
    → All (FactHolds (write (some d) v ρ)) (invalidate_unary_facts facts d)
unfolding invalidate_unary_facts
invalidate-FactHolds ρ d v [] h = tt
invalidate-FactHolds ρ d v ((r, (op, o)) ∷ facts) (here, rest) = elim (Bool-cases (r == d)) [
  | inl same ↦ rw (same, invalidate_unary_facts) (invalidate-FactHolds ρ d v facts rest)
  | inr apart ↦ elim (Bool-cases (operand_mentions_reg o d)) [
    | inl mentioned ↦
        rw (apart, mentioned, invalidate_unary_facts) (invalidate-FactHolds ρ d v facts rest)
    | inr unmentioned ↦
        rw (apart, unmentioned, invalidate_unary_facts)
          (
            elsewhere-FactHolds ρ d r v op o apart unmentioned here,
            invalidate-FactHolds ρ d v facts rest,
          )
  ]
]

definition-FactHolds :
    (ρ : Registers) (d : Option RegId) (v : Value) (facts : UnaryFacts)
    → All (FactHolds ρ) facts
    → All (FactHolds (write d v ρ)) (invalidate_definition facts d)
unfolding invalidate_definition
definition-FactHolds ρ none v facts h = h
definition-FactHolds ρ (some d) v facts h = invalidate-FactHolds ρ d v facts h

insert-FactHolds :
    (ρ : Registers) (d : RegId) (fact : SemanticUnaryOp × Operand) (facts : UnaryFacts)
    → FactHolds ρ (d, fact)
    → All (FactHolds ρ) facts
    → All (FactHolds ρ) (insert d fact facts)
unfolding insert
insert-FactHolds ρ d fact [] e h = (e, tt)
insert-FactHolds ρ d fact ((j, p) ∷ facts) e (here, rest) = elim (Bool-cases (d == j)) [
  | inl same ↦
      rw (same, insert) (subst (λ i. FactHolds ρ (i, fact)) ((reg_id_beq_iff d j).0 same) e, rest)
  | inr other ↦ rw (other, insert) (here, insert-FactHolds ρ d fact facts e rest)
]

module _ (f : FloatOps) {W : Type 0} (m : Machine W) where
  -- If the instruction is a logical negation, its operand is a Boolean and not its destination.
  abbrev pub IsReady : Registers → Instruction → Type 0
  IsReady ρ (unary_inst b d op o) =
      is_logical_not op.kind ≡ true
      → IsBool (value ρ o) × (operand_mentions_reg o d ≡ false) × Computes f m (unary_inst b d op o)
  IsReady ρ _ = Unit

  negation-FactHolds :
      (b : InstructionBase) (d : RegId) (op : SemanticUnaryOp) (o : Operand) (ρ : Registers) (w : W)
      (ρ' : Registers) (w' : W)
      → IsReady ρ (unary_inst b d op o)
      → step m (unary_inst b d op o) ρ w ≡ running ρ' w'
      → FactHolds ρ' (d, (op, o))
  unfolding step
  negation-FactHolds b d op o ρ w ρ' w' ready e negation =
      let ((x, boolean), unmentioned, computes) = ready negation in
      let eval : EvalUnary f op.kind (bool_const x) (bool_const (not x)) =
        subst (λ k. EvalUnary f k (bool_const x) (bool_const (not x)))
          (sym (logical_not_of op.kind negation)) refl in
      let does : step m (unary_inst b d op o) ρ w
          ≡ running (write (some d) (constant (bool_const (not x))) ρ) w =
        rw boolean (rw (computes (bool_const x) (bool_const (not x)) w eval)) in
      let written : write (some d) (constant (bool_const (not x))) ρ ≡ ρ' = cc in
      (
        x,
        subst (λ s. value s o ≡ constant (bool_const x)) written
            (value-write ρ d (constant (bool_const (not x))) o unmentioned ∙ boolean),
        subst (λ s. s d ≡ constant (bool_const (not x))) written
            (write_same d (constant (bool_const (not x))) ρ),
      )

  -- After an instruction, what is recorded is true of the registers.
  pub record-FactHolds :
      (i : Instruction) (facts : UnaryFacts) (ρ : Registers) (w : W) (ρ' : Registers) (w' : W)
      → All (FactHolds ρ) facts
      → IsReady ρ i
      → step m i ρ w ≡ running ρ' w'
      → All (FactHolds ρ') (record_unary i (invalidate_definition facts (instruction_def_reg i)))
  unfolding record_unary
  record-FactHolds (unary_inst b d op o) facts ρ w ρ' w' h ready e =
      let (v, changed) = step-running m (unary_inst b d op o) ρ w e in
      insert-FactHolds ρ' d (op, o) (invalidate_definition facts (some d))
        (negation-FactHolds b d op o ρ w ρ' w' ready e)
        (rw changed (definition-FactHolds ρ (some d) v facts h))
  record-FactHolds i facts ρ w ρ' w' h ready e =
      let (v, changed) = step-running m i ρ w e in
      rw changed (definition-FactHolds ρ (instruction_def_reg i) v facts h)
