-- ===== src/Backend/Optimizations/DeadPure/Pure.antt =====
-- Instructions that `instruction_is_dead_eliminable` accepts do nothing but define a register.
use niflheim.Shared.{
  ◌≡◌, refl, ◌≢◌, ◌⊎◌, inl, inr, Bool, true, false, List, [], ◌∷◌, arith, Bool-cases, not-eq_true,
}
use niflheim.Shared.Dict.{lookup}
use niflheim.Backend.Ir.Ids.{RegId, reg_id_eq}
use niflheim.Backend.Ir.Ops.{
  SemanticUnaryOp, SemanticBinaryOp, BinaryOpKind, CastSemanticsKind, TypeTestSemanticsKind,
}
use niflheim.Backend.Ir.Types.{SemanticTypeRef}
use niflheim.Backend.Ir.Model.{
  int_const, bool_const, double_const, null_const, unit_const, Operand, reg_operand, const_operand,
  data_operand, callable_operand, InstructionBase, Instruction, const_inst, copy_inst, unary_inst,
  binary_inst, cast_inst, type_test_inst,
}
use niflheim.Backend.Semantics.{
  Registers, Value, constant, value, Machine, running, Effect, continues, write, step,
}
use niflheim.Backend.Semantics.Operands.{instruction_def_reg}
use niflheim.Backend.Optimizations.DeadPure.{
  TypeNames, operand_type_name, is_double, is_to_integer, cast_can_have_observable_effect,
  kind_is_pure, instruction_is_dead_eliminable,
}

-- The effect writes a value and leaves the world alone.
abbrev pub Continues : {W : Type 0} → Effect W → W → Type 0
Continues e w = (v : Value) × (e ≡ continues v w)

abbrev pub IsDouble : Value → Type 0
IsDouble (constant (double_const _)) = Unit
IsDouble _ = ⊥

-- The operators that check their operands at run time: division and remainder by zero, a negative
-- exponent, a shift count beyond the width.
abbrev pub IsChecked : BinaryOpKind → Type 0
IsChecked BinaryOpKind.divide = Unit
IsChecked BinaryOpKind.remainder = Unit
IsChecked BinaryOpKind.power = Unit
IsChecked BinaryOpKind.shift_left = Unit
IsChecked BinaryOpKind.shift_right = Unit
IsChecked _ = ⊥

-- What the language promises of the operations without a run-time check. A cast traps only if it
-- is told to check its failure, or if it turns a double into an integer.
pub record UncheckedTotal {W : Type 0} (m : Machine W) : Type 0 where
  pub unary_total :
      (b : InstructionBase) (d : RegId) (op : SemanticUnaryOp) (o : Operand) (vs : List Value)
      (w : W)
      → Continues (m.exec (unary_inst b d op o) vs w) w
  pub type_test_total :
      (b : InstructionBase) (d : RegId) (k : TypeTestSemanticsKind) (o : Operand)
      (t : SemanticTypeRef) (vs : List Value) (w : W)
      → Continues (m.exec (type_test_inst b d k o t) vs w) w
  pub binary_total :
      (b : InstructionBase) (d : RegId) (op : SemanticBinaryOp) (l r : Operand) (vs : List Value)
      (w : W)
      → ¬ IsChecked op.kind
      → Continues (m.exec (binary_inst b d op l r) vs w) w
  pub cast_total :
      (b : InstructionBase) (d : RegId) (k : CastSemanticsKind) (o : Operand) (t : SemanticTypeRef)
      (v : Value) (w : W)
      → (k ≢ CastSemanticsKind.to_integer) ⊎ (¬ IsDouble v)
      → Continues (m.exec (cast_inst b d k o t false) (v ∷ []) w) w

-- A register that holds a double is declared as one.
abbrev pub DoublesDeclared : TypeNames → Registers → Type 0
DoublesDeclared types ρ = (r : RegId) → IsDouble (ρ r) → is_double (lookup r types) ≡ true

kind_is_pure-unchecked : (k : BinaryOpKind) → kind_is_pure k ≡ true → ¬ IsChecked k
unfolding kind_is_pure
kind_is_pure-unchecked BinaryOpKind.divide h = cc
kind_is_pure-unchecked BinaryOpKind.remainder h = cc
kind_is_pure-unchecked BinaryOpKind.power h = cc
kind_is_pure-unchecked BinaryOpKind.shift_left h = cc
kind_is_pure-unchecked BinaryOpKind.shift_right h = cc
kind_is_pure-unchecked _ h = λ x. x

value-is_double :
    (types : TypeNames) (ρ : Registers) (o : Operand)
    → DoublesDeclared types ρ
    → IsDouble (value ρ o)
    → is_double (operand_type_name o types) ≡ true
unfolding operand_type_name
value-is_double types ρ (reg_operand r) h x = h r x
value-is_double types ρ (const_operand (double_const c)) h x = refl
value-is_double types ρ (const_operand (int_const t c)) h x = absurd x
value-is_double types ρ (const_operand (bool_const c)) h x = absurd x
value-is_double types ρ (const_operand null_const) h x = absurd x
value-is_double types ρ (const_operand unit_const) h x = absurd x
value-is_double types ρ (data_operand c) h x = absurd x
value-is_double types ρ (callable_operand c t) h x = absurd x

to_integer_of : (k : CastSemanticsKind) → is_to_integer k ≡ false → k ≢ CastSemanticsKind.to_integer
to_integer_of CastSemanticsKind.to_integer h e = cc
to_integer_of _ h e = cc

module _ {W : Type 0} (m : Machine W) (total : UncheckedTotal m) (types : TypeNames) where
  cast-Continues :
      (b : InstructionBase) (d : RegId) (k : CastSemanticsKind) (o : Operand) (t : SemanticTypeRef)
      (trap_on_failure : Bool) (ρ : Registers) (w : W)
      → DoublesDeclared types ρ
      → cast_can_have_observable_effect k o trap_on_failure types ≡ false
      → Continues
          (m.exec (cast_inst b d k (const_operand unit_const) t trap_on_failure) (value ρ o ∷ []) w)
          w
  unfolding cast_can_have_observable_effect
  cast-Continues b d k o t true ρ w declared h = cc
  cast-Continues b d k o t false ρ w declared h =
      total.cast_total b d k (const_operand unit_const) t (value ρ o) w
        (elim (Bool-cases (is_to_integer k)) [
          | inl converts ↦ inr (λ x. ground (arith, value-is_double types ρ o declared x))
          | inr other ↦ inl (to_integer_of k other)
        ])

  -- Such an instruction writes its destination and does nothing else.
  pub eliminable-pure :
      (i : Instruction) (ρ : Registers) (w : W)
      → DoublesDeclared types ρ
      → instruction_is_dead_eliminable i types ≡ true
      → (v : Value) × (step m i ρ w ≡ running (write (instruction_def_reg i) v ρ) w)
  unfolding step instruction_is_dead_eliminable
  eliminable-pure (const_inst b d c) ρ w declared h = (constant c, refl)
  eliminable-pure (copy_inst b d o) ρ w declared h = (value ρ o, refl)
  eliminable-pure (unary_inst b d op o) ρ w declared h =
      let (v, e) = total.unary_total b d op (const_operand unit_const) (value ρ o ∷ []) w in
      (v, rw e)
  eliminable-pure (type_test_inst b d k o t) ρ w declared h =
      let (v, e) = total.type_test_total b d k (const_operand unit_const) t (value ρ o ∷ []) w in
      (v, rw e)
  eliminable-pure (binary_inst b d op l r) ρ w declared h =
      let (v, e) =
        total.binary_total b d op (const_operand unit_const) (const_operand unit_const)
          (value ρ l ∷ value ρ r ∷ []) w (kind_is_pure-unchecked op.kind h) in
      (v, rw e)
  eliminable-pure (cast_inst b d k o t trap_on_failure) ρ w declared h =
      let (v, e) = cast-Continues b d k o t trap_on_failure ρ w declared (not-eq_true _ h) in
      (v, rw e)
  eliminable-pure _ ρ w declared h = cc
