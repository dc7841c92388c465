-- ===== src/Backend/Optimizations/AlgebraicSimplify/Integers.antt =====
-- Simplified arithmetic on integers does what the operations do.
use niflheim.Shared.{
  zero, ◌<◌, ◌≡◌, refl, sym, ap, subst, ◌∙◌, Bool, true, ◌||◌, some, ◌⊎◌, inl, inr, arith,
}
use niflheim.Shared.Int.{
  int_and, int_or, int_xor, ℤ, pos, ◌+ℤ◌, ◌-ℤ◌, ◌*ℤ◌, floor_div, floor_mod, int_pow, shift_left,
  shift_right,
}
use niflheim.Backend.Ir.Ids.{RegId}
use niflheim.Backend.Ir.Ops.{BinaryOpKind, BinaryOpFlavor, SemanticBinaryOp}
use niflheim.Backend.Ir.Model.{
  IntTypeName, i64, u64, u8, Constant, int_const, Operand, InstructionBase, Instruction,
  binary_inst,
}
use niflheim.Backend.Semantics.{constant, Registers, value, Machine, running, write, step}
use niflheim.Backend.Optimizations.ConstantFold.Arith.{FloatOps, integer_bits, wrap_integer}
use niflheim.Backend.Optimizations.ConstantFold.Wrap.{InRange, wrap_integer-IsWordOf}
use niflheim.Backend.Optimizations.ConstantFold.Meaning.{IsWord, EvalInteger}
use niflheim.Backend.Optimizations.ConstantFold.Known.{Computes}
use niflheim.Backend.Optimizations.AlgebraicSimplify.{
  all_ones, integer_constant_value, is_int, simplify_identity, absorbing, copy_left_if,
  simplify_typed_integer,
}
use niflheim.Backend.Optimizations.AlgebraicSimplify.Bitwise.{
  and_zero, zero_and, and_ones, ones_and, or_zero, zero_or, or_ones, ones_or, xor_zero, zero_xor,
  xor_same, value-same_operand,
}
use niflheim.Backend.Optimizations.AlgebraicSimplify.Facts.{
  integer_constant_known, IsWord-of, add_zero, zero_add, sub_zero, mul_zero, zero_mul, mul_one,
  one_mul, div_one, mod_one, pow_one, shift_left_zero, shift_right_zero, CanDivide-one,
}
use niflheim.Backend.Optimizations.AlgebraicSimplify.Sound.{
  or_cases, step-if, step-binary, copy_same, const_same,
}

-- The operations whose right operand is a count, of a type of its own.
abbrev pub IsCounted : BinaryOpKind → Type 0
IsCounted BinaryOpKind.power = Unit
IsCounted BinaryOpKind.shift_left = Unit
IsCounted BinaryOpKind.shift_right = Unit
IsCounted _ = ⊥

bits_positive : (t : IntTypeName) → zero < integer_bits t
bits_positive i64 = omega arith
bits_positive u64 = omega arith
bits_positive u8 = omega arith

-- The wrapped constant is the word of the result.
constant-IsWord : (t : IntTypeName) (z v : ℤ) → z ≡ v → IsWord t z (int_const t (wrap_integer v t))
constant-IsWord t z v e = (wrap_integer v t, refl, rw e (wrap_integer-IsWordOf v t))

module _ (f : FloatOps) {W : Type 0} (m : Machine W) (b : InstructionBase) (d : RegId)
    (l r : Operand) (ρ : Registers) (w : W) (t u : IntTypeName) (x y : ℤ)
    (left : value ρ l ≡ constant (int_const t x)) (right : value ρ r ≡ constant (int_const u y))
    (x_in : InRange t x) (y_in : InRange u y) where
  known_left : (z : ℤ) → is_int (integer_constant_value l) z ≡ true → x ≡ z
  known_left z h = integer_constant_known ρ l z x t h left

  known_right : (z : ℤ) → is_int (integer_constant_value r) z ≡ true → y ≡ z
  known_right z h = integer_constant_known ρ r z y u h right

  abbrev arithmetic : BinaryOpKind → SemanticBinaryOp
  arithmetic k = record { kind = k; flavor = BinaryOpFlavor.integer }

  abbrev original : BinaryOpKind → Instruction
  original k = binary_inst b d (arithmetic k) l r

  result :
      (k : BinaryOpKind) (c : Constant)
      → Computes f m (original k)
      → EvalInteger k t x y c
      → step m (original k) ρ w ≡ running (write (some d) (constant c) ρ) w
  result k c computes eval =
      step-binary f m b d (arithmetic k) l r (int_const t x) (int_const u y) c ρ w computes left
        right eval

  -- Where the test tells that the left operand is the result.
  copy_left_sound :
      (k : BinaryOpKind) (z : ℤ)
      → Computes f m (original k)
      → (y ≡ z → EvalInteger k t x y (int_const t x))
      → step m (copy_left_if b d (is_int (integer_constant_value r) z) (arithmetic k) l r) ρ w
        ≡ step m (original k) ρ w
  copy_left_sound k z computes eval =
      step-if f m (is_int (integer_constant_value r) z) _ _ (original k) ρ w
        (λ h.
          copy_same f m b d l (int_const t x) (original k) ρ w left
            (result k (int_const t x) computes (eval (known_right z h))))
        (λ _. refl)

  identity_sound :
      (k : BinaryOpKind) (z : ℤ)
      → Computes f m (original k)
      → (x ≡ z → EvalInteger k t x y (int_const u y))
      → (y ≡ z → EvalInteger k t x y (int_const t x))
      → step m (simplify_identity b d (arithmetic k) l r z) ρ w ≡ step m (original k) ρ w
  unfolding simplify_identity
  identity_sound k z computes eval_right eval_left =
      step-if f m (is_int (integer_constant_value l) z) _ _ (original k) ρ w
        (λ h.
          copy_same f m b d r (int_const u y) (original k) ρ w right
            (result k (int_const u y) computes (eval_right (known_left z h))))
        (λ _. copy_left_sound k z computes eval_left)

  absorbing_sound :
      (test : Bool) (k : BinaryOpKind) (v : ℤ) (i : Instruction)
      → Computes f m (original k)
      → (test ≡ true → EvalInteger k t x y (int_const t (wrap_integer v t)))
      → step m i ρ w ≡ step m (original k) ρ w
      → step m (absorbing b d test t v i) ρ w ≡ step m (original k) ρ w
  absorbing_sound test k v i computes eval rest =
      step-if f m test _ _ (original k) ρ w
        (λ h.
          const_same f m b d (int_const t (wrap_integer v t)) (original k) ρ w
            (result k (int_const t (wrap_integer v t)) computes (eval h)))
        (λ _. rest)

  -- The right operand is the word of a result that equals it, where the types agree.
  right-IsWord : (z : ℤ) → u ≡ t → z ≡ y → IsWord t z (int_const u y)
  right-IsWord z same e =
      subst (λ s. IsWord t z (int_const s y)) (sym same)
        (IsWord-of t z y (subst (λ s. InRange s y) same y_in) e)

  multiply_zero : (x ≡ pos 0) ⊎ (y ≡ pos 0) → x *ℤ y ≡ pos 0
  multiply_zero (inl e) = ap (λ (z : ℤ). z *ℤ y) e ∙ zero_mul y
  multiply_zero (inr e) = ap (λ (z : ℤ). x *ℤ z) e ∙ mul_zero x

  either_known :
      (z : ℤ)
      → (is_int (integer_constant_value l) z || is_int (integer_constant_value r) z) ≡ true
      → (x ≡ z) ⊎ (y ≡ z)
  either_known z h = elim (or_cases _ _ h) [
    | inl here ↦ inl (known_left z here)
    | inr there ↦ inr (known_right z there)
  ]

  and_zeros : (x ≡ pos 0) ⊎ (y ≡ pos 0) → int_and x y ≡ pos 0
  and_zeros (inl e) = ap (λ (z : ℤ). int_and z y) e ∙ zero_and y
  and_zeros (inr e) = ap (λ (z : ℤ). int_and x z) e ∙ and_zero x

  right_in : u ≡ t → InRange t y
  right_in same = subst (λ s. InRange s y) same y_in

  or_all_ones : u ≡ t → (x ≡ all_ones t) ⊎ (y ≡ all_ones t) → int_or x y ≡ all_ones t
  or_all_ones same (inl e) = ap (λ (z : ℤ). int_or z y) e ∙ ones_or t y (right_in same)
  or_all_ones same (inr e) = ap (λ (z : ℤ). int_or x z) e ∙ or_ones t x x_in

  pub typed_integer_sound :
      (k : BinaryOpKind)
      → Computes f m (original k)
      → (¬ IsCounted k → u ≡ t)
      → step m (simplify_typed_integer b d t (arithmetic k) l r) ρ w ≡ step m (original k) ρ w
  unfolding simplify_typed_integer int_pow
  typed_integer_sound BinaryOpKind.add computes same =
      identity_sound BinaryOpKind.add (pos 0) computes
        (λ e. right-IsWord (x +ℤ y) (same (λ c. c)) (ap (λ (z : ℤ). z +ℤ y) e ∙ zero_add y))
        (λ e. IsWord-of t (x +ℤ y) x x_in (ap (λ (z : ℤ). x +ℤ z) e ∙ add_zero x))
  typed_integer_sound BinaryOpKind.subtract computes same =
      copy_left_sound BinaryOpKind.subtract (pos 0) computes
        (λ e. IsWord-of t (x -ℤ y) x x_in (ap (λ (z : ℤ). x -ℤ z) e ∙ sub_zero x))
  typed_integer_sound BinaryOpKind.multiply computes same =
      absorbing_sound _ BinaryOpKind.multiply (pos 0) _ computes
        (λ h. constant-IsWord t (x *ℤ y) (pos 0) (multiply_zero (either_known (pos 0) h)))
        (identity_sound BinaryOpKind.multiply (pos 1) computes
          (λ e. right-IsWord (x *ℤ y) (same (λ c. c)) (ap (λ (z : ℤ). z *ℤ y) e ∙ one_mul y))
          (λ e. IsWord-of t (x *ℤ y) x x_in (ap (λ (z : ℤ). x *ℤ z) e ∙ mul_one x)))
  typed_integer_sound BinaryOpKind.divide computes same =
      copy_left_sound BinaryOpKind.divide (pos 1) computes (λ e. (
        rw e (CanDivide-one t x),
        IsWord-of t (floor_div x y) x x_in (ap (λ (z : ℤ). floor_div x z) e ∙ div_one x),
      ))
  typed_integer_sound BinaryOpKind.remainder computes same =
      absorbing_sound _ BinaryOpKind.remainder (pos 0) _ computes
        (λ h. (
          rw (known_right (pos 1) h) (CanDivide-one t x),
          constant-IsWord t (floor_mod x y) (pos 0)
              (ap (λ (z : ℤ). floor_mod x z) (known_right (pos 1) h) ∙ mod_one x),
        ))
        refl
  typed_integer_sound BinaryOpKind.power computes same =
      absorbing_sound _ BinaryOpKind.power (pos 1) _ computes
        (λ h. (0, known_right (pos 0) h, constant-IsWord t (pos 1) (pos 1) refl))
        (copy_left_sound BinaryOpKind.power (pos 1) computes
          (λ e. (1, e, IsWord-of t (int_pow x 1) x x_in (pow_one x))))
  typed_integer_sound BinaryOpKind.shift_left computes same =
      copy_left_sound BinaryOpKind.shift_left (pos 0) computes
        (λ e. (0, e, bits_positive t, IsWord-of t (shift_left x 0) x x_in (shift_left_zero x)))
  typed_integer_sound BinaryOpKind.shift_right computes same =
      copy_left_sound BinaryOpKind.shift_right (pos 0) computes
        (λ e. (0, e, bits_positive t, IsWord-of t (shift_right x 0) x x_in (shift_right_zero x)))
  typed_integer_sound BinaryOpKind.bitwise_and computes same =
      absorbing_sound _ BinaryOpKind.bitwise_and (pos 0) _ computes
        (λ h. constant-IsWord t (int_and x y) (pos 0) (and_zeros (either_known (pos 0) h)))
        (identity_sound BinaryOpKind.bitwise_and (all_ones t) computes
          (λ e.
            right-IsWord (int_and x y) (same (λ c. c))
              (ap (λ (z : ℤ). int_and z y) e ∙ ones_and t y (right_in (same (λ c. c)))))
          (λ e.
            IsWord-of t (int_and x y) x x_in (ap (λ (z : ℤ). int_and x z) e ∙ and_ones t x x_in)))
  typed_integer_sound BinaryOpKind.bitwise_or computes same =
      absorbing_sound _ BinaryOpKind.bitwise_or (all_ones t) _ computes
        (λ h.
          constant-IsWord t (int_or x y) (all_ones t)
            (or_all_ones (same (λ c. c)) (either_known (all_ones t) h)))
        (identity_sound BinaryOpKind.bitwise_or (pos 0) computes
          (λ e.
            right-IsWord (int_or x y) (same (λ c. c)) (ap (λ (z : ℤ). int_or z y) e ∙ zero_or y))
          (λ e. IsWord-of t (int_or x y) x x_in (ap (λ (z : ℤ). int_or x z) e ∙ or_zero x)))
  typed_integer_sound BinaryOpKind.bitwise_xor computes same =
      absorbing_sound _ BinaryOpKind.bitwise_xor (pos 0) _ computes
        (λ h. constant-IsWord t (int_xor x y) (pos 0) (
          ap (λ (z : ℤ). int_xor x z) (sym (value-same_operand ρ l r t u x y h left right))
          ∙ xor_same x))
        (identity_sound BinaryOpKind.bitwise_xor (pos 0) computes
          (λ e.
            right-IsWord (int_xor x y) (same (λ c. c)) (ap (λ (z : ℤ). int_xor z y) e ∙ zero_xor y))
          (λ e. IsWord-of t (int_xor x y) x x_in (ap (λ (z : ℤ). int_xor x z) e ∙ xor_zero x)))
  typed_integer_sound _ computes same = refl
