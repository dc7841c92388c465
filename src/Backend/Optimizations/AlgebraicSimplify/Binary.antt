-- ===== src/Backend/Optimizations/AlgebraicSimplify/Binary.antt =====
-- A simplified binary or unary instruction does what the instruction does.
use niflheim.Shared.{
  ◌≡◌, refl, sym, ap, subst, Bool, true, false, not, Bool-cases, Option, Option-cases, some, none,
  inl, inr, [], ◌∷◌, All, ◌==◌,
}
use niflheim.Shared.Dict.{lookup}
use niflheim.Backend.Ir.Ids.{RegId, reg_id_eq, reg_id_beq_iff}
use niflheim.Backend.Ir.Ops.{
  UnaryOpKind, BinaryOpKind, BinaryOpFlavor, SemanticUnaryOp, SemanticBinaryOp,
}
use niflheim.Backend.Ir.Model.{
  IntTypeName, bool_const, Operand, reg_operand, const_operand, data_operand, callable_operand,
  InstructionBase, unary_inst, binary_inst,
}
use niflheim.Backend.Semantics.{Value, constant, Registers, value, Machine, step}
use niflheim.Backend.Optimizations.ConstantFold.Arith.{FloatOps}
use niflheim.Backend.Optimizations.ConstantFold.Meaning.{EvalUnary}
use niflheim.Backend.Optimizations.ConstantFold.Known.{Computes}
use niflheim.Backend.Optimizations.AlgebraicSimplify.{
  TypeNames, UnaryFacts, is_logical_not, negated_operand, simplify_unary, integer_operand_type_name,
  simplify_integer, simplify_binary, logical_not_like,
}
use niflheim.Backend.Optimizations.AlgebraicSimplify.Facts.{IsBool, IsInt}
use niflheim.Backend.Optimizations.AlgebraicSimplify.Sound.{
  bool_logical_sound, bool_comparison_sound, copy_same,
}
use niflheim.Backend.Optimizations.AlgebraicSimplify.Integers.{IsCounted, typed_integer_sound}

-- The operands of an operation on integers: both are values of the type, but a count has its own.
abbrev pub FitsInteger : BinaryOpKind → Option IntTypeName → Value → Value → Type 0
FitsInteger k none v v' = Unit
FitsInteger k (some t) v v' = IsInt t v × ((u : IntTypeName) × IsInt u v' × (¬ IsCounted k → u ≡ t))

-- The values have the types that the operation takes.
abbrev pub Fits : BinaryOpFlavor → BinaryOpKind → Option IntTypeName → Value → Value → Type 0
Fits BinaryOpFlavor.bool_logical k t v v' = IsBool v × IsBool v'
Fits BinaryOpFlavor.bool_comparison k t v v' = IsBool v × IsBool v'
Fits BinaryOpFlavor.integer k t v v' = FitsInteger k t v v'
Fits _ k t v v' = Unit

module _ (f : FloatOps) {W : Type 0} (m : Machine W) (b : InstructionBase) (d : RegId)
    (types : TypeNames) (l r : Operand) (ρ : Registers) (w : W) where
  integer_sound :
      (k : BinaryOpKind) (o : Option IntTypeName)
      → integer_operand_type_name l r types ≡ o
      → FitsInteger k o (value ρ l) (value ρ r)
      → Computes f m (binary_inst b d (record { kind = k; flavor = BinaryOpFlavor.integer }) l r)
      → step m
          (simplify_integer b d types (record { kind = k; flavor = BinaryOpFlavor.integer }) l r)
          ρ
          w
        ≡ step m (binary_inst b d (record { kind = k; flavor = BinaryOpFlavor.integer }) l r) ρ w
  unfolding simplify_integer
  integer_sound k none e fits computes = rw (e, simplify_integer)
  integer_sound k (some t) e ((x, left, x_in), (u, (y, right, y_in), same)) computes =
      rw (e, simplify_integer)
        (typed_integer_sound f m b d l r ρ w t u x y left right x_in y_in k computes same)

  flavor_sound :
      (flavor : BinaryOpFlavor) (k : BinaryOpKind)
      → Fits flavor k (integer_operand_type_name l r types) (value ρ l) (value ρ r)
      → Computes f m (binary_inst b d (record { kind = k; flavor = flavor }) l r)
      → Computes f m (logical_not_like b d r)
      → Computes f m (logical_not_like b d l)
      → step m (simplify_binary b d types (record { kind = k; flavor = flavor }) l r) ρ w
        ≡ step m (binary_inst b d (record { kind = k; flavor = flavor }) l r) ρ w
  unfolding simplify_binary
  flavor_sound BinaryOpFlavor.bool_logical k ((x, left), (y, right)) computes not_r not_l =
      bool_logical_sound f m b d l r ρ w x y left right k computes
  flavor_sound BinaryOpFlavor.bool_comparison k ((x, left), (y, right)) computes not_r not_l =
      bool_comparison_sound f m b d l r ρ w x y left right k computes not_r not_l
  flavor_sound BinaryOpFlavor.integer k fits computes not_r not_l =
      integer_sound k (integer_operand_type_name l r types) refl fits computes
  flavor_sound _ k fits computes not_r not_l = refl

-- The simplified binary instruction takes the same step as the instruction, where its operands have
-- values of the types that the operation takes, and the machine gives on constants what the language
-- says for the instruction and for the negation of an operand.
pub step-simplify_binary :
    (f : FloatOps) {W : Type 0} (m : Machine W) (b : InstructionBase) (d : RegId)
    (types : TypeNames) (op : SemanticBinaryOp) (l r : Operand) (ρ : Registers) (w : W)
    → Fits op.flavor op.kind (integer_operand_type_name l r types) (value ρ l) (value ρ r)
    → Computes f m (binary_inst b d op l r)
    → Computes f m (logical_not_like b d r)
    → Computes f m (logical_not_like b d l)
    → step m (simplify_binary b d types op l r) ρ w ≡ step m (binary_inst b d op l r) ρ w
step-simplify_binary f m b d types op l r ρ w fits computes not_r not_l =
    flavor_sound f m b d types l r ρ w op.flavor op.kind fits computes not_r not_l

-- What `unary_by_reg` says of a register that is the logical negation of an operand.
abbrev pub FactHolds : Registers → RegId × (SemanticUnaryOp × Operand) → Type 0
FactHolds ρ fact =
    is_logical_not fact.1.0.kind ≡ true
    → (x : Bool) × (value ρ fact.1.1 ≡ constant (bool_const x))
      × (ρ fact.0 ≡ constant (bool_const (not x)))

lookup-FactHolds :
    (ρ : Registers) (facts : UnaryFacts) (r : RegId) (fact : SemanticUnaryOp × Operand)
    → All (FactHolds ρ) facts
    → lookup r facts ≡ some fact
    → FactHolds ρ (r, fact)
unfolding lookup
lookup-FactHolds ρ [] r fact h e = cc
lookup-FactHolds ρ ((j, found) ∷ facts) r fact (here, rest) e = elim (Bool-cases (r == j)) [
  | inl same ↦
      let first : found ≡ fact = cc in
      subst (λ p. FactHolds ρ (r, p)) first
        (subst (λ i. FactHolds ρ (i, found)) (sym ((reg_id_beq_iff r j).0 same)) here)
  | inr other ↦ lookup-FactHolds ρ facts r fact rest (rw (other, lookup) at e)
]

not-not : (x : Bool) → not (not x) ≡ x
not-not true = refl
not-not false = refl

pub logical_not_of : (k : UnaryOpKind) → is_logical_not k ≡ true → k ≡ UnaryOpKind.logical_not
logical_not_of UnaryOpKind.logical_not h = refl
logical_not_of _ h = cc

value-negated_operand :
    (ρ : Registers) (facts : UnaryFacts) (o p : Operand)
    → All (FactHolds ρ) facts
    → negated_operand facts o ≡ some p
    → (x : Bool) × (value ρ p ≡ constant (bool_const x))
      × (value ρ o ≡ constant (bool_const (not x)))
unfolding negated_operand
value-negated_operand ρ facts (reg_operand r) p h e = elim (Option-cases (lookup r facts)) [
  | inl missing ↦ cc
  | inr ((op, q), found) ↦ elim (Bool-cases (is_logical_not op.kind)) [
    | inl negation ↦
        let same : q ≡ p = cc in
        subst
          (λ s.
            (x : Bool) × (value ρ s ≡ constant (bool_const x))
            × (ρ r ≡ constant (bool_const (not x))))
          same (lookup-FactHolds ρ facts r (op, q) h found negation)
    | inr other ↦ cc
  ]
]
value-negated_operand ρ facts (const_operand c) p h e = cc
value-negated_operand ρ facts (data_operand c) p h e = cc
value-negated_operand ρ facts (callable_operand c t) p h e = cc

-- The simplified unary instruction takes the same step as the instruction, where the recorded
-- negations are true of the registers and the machine gives on constants what the language says.
pub step-simplify_unary :
    (f : FloatOps) {W : Type 0} (m : Machine W) (b : InstructionBase) (d : RegId)
    (facts : UnaryFacts) (op : SemanticUnaryOp) (o : Operand) (ρ : Registers) (w : W)
    → All (FactHolds ρ) facts
    → Computes f m (unary_inst b d op o)
    → step m (simplify_unary b d facts op o) ρ w ≡ step m (unary_inst b d op o) ρ w
unfolding simplify_unary step
step-simplify_unary f m b d facts op o ρ w h computes = elim (Bool-cases (is_logical_not op.kind)) [
  | inr other ↦ rw (other, simplify_unary)
  | inl negation ↦ elim (Option-cases (negated_operand facts o)) [
    | inl missing ↦ rw (negation, missing, simplify_unary)
    | inr (p, found) ↦
        let (x, inner, outer) = value-negated_operand ρ facts o p h found in
        let eval : EvalUnary f op.kind (bool_const (not x)) (bool_const x) =
          subst (λ k. EvalUnary f k (bool_const (not x)) (bool_const x))
            (sym (logical_not_of op.kind negation)) (ap bool_const (sym (not-not x))) in
        rw (negation, found, simplify_unary)
          (copy_same f m b d p (bool_const x) (unary_inst b d op o) ρ w inner
            (rw outer (rw (computes (bool_const (not x)) (bool_const x) w eval))))
  ]
]
