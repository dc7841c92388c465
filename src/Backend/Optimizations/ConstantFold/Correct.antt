-- ===== src/Backend/Optimizations/ConstantFold/Correct.antt =====
-- A folded constant is what the language says that the operation gives.
use niflheim.Shared.{
  subst, ℕ, ◌-◌, ◌^◌, ◌<◌, ◌≡◌, refl, Bool, true, false, ◌||◌, Option, none, some, arith,
  Bool-cases, Option-cases, inl, inr, leb,
}
use niflheim.Shared.Int.{
  ℤ, pos, negsuc, ltb_ℤ, int_beq, int_beq_iff, int_eq, floor_div, floor_mod, shift_left,
  shift_right,
}
use niflheim.Backend.Ir.Ops.{
  UnaryOpKind, BinaryOpKind, BinaryOpFlavor, SemanticBinaryOp, CastSemanticsKind,
}
use niflheim.Backend.Ir.Model.{
  IntTypeName, i64, u64, u8, Constant, int_const, bool_const, double_const, Double, null_const,
  unit_const,
}
use niflheim.Backend.Optimizations.ConstantFold.Arith.{
  FloatOps, integer_bits, max_shift, wrap_integer, pow_integer, signed_division_overflows,
  int_result, fold_power, fold_shift, fold_division, fold_integer_binary, fold_bool_binary,
  fold_float_binary,
}
use niflheim.Backend.Optimizations.ConstantFold.Wrap.{
  InRange, wrap_integer-IsWordOf, pow_integer-IsWordOf,
}
use niflheim.Backend.Optimizations.ConstantFold.Folding.{
  range_minimum, range_maximum, in_target_range, fold_negate_integer,
  try_truncate_double_to_integer, fold_unary, fold_integer_constants, fold_bool_constants,
  fold_float_constants, fold_binary, try_fold_cast_to_double, try_fold_cast_to_integer,
  try_fold_cast_to_bool, fold_cast_to_integer, fold_checked_cast, fold_cast,
}
use niflheim.Backend.Optimizations.ConstantFold.Meaning.{
  IsWord, Overflows, CanDivide, EvalInteger, EvalBool, EvalFloat, EvalUnary, EvalTyped, EvalBinary,
  EvalToDouble, EvalToInteger, EvalToBool, EvalCast,
}

int_result-IsWord :
    (t : IntTypeName) (z : ℤ) (c : Constant) → int_result t z ≡ some c → IsWord t z c
int_result-IsWord t z c h = (wrap_integer z t, cc, wrap_integer-IsWordOf z t)

power_result :
    (t : IntTypeName) (l r : ℤ) (c : Constant)
    → fold_power t l r ≡ some c
    → EvalInteger BinaryOpKind.power t l r c
unfolding fold_power
power_result t l (pos n) c h = (n, refl, (pow_integer l n t, cc, pow_integer-IsWordOf l n t))
power_result t l (negsuc n) c h = cc

max_shift_bits : (t : IntTypeName) → max_shift t ≡ integer_bits t
max_shift_bits i64 = refl
max_shift_bits u64 = refl
max_shift_bits u8 = refl

shift_result :
    (shift : ℤ → ℕ → ℤ) (t : IntTypeName) (l r : ℤ) (c : Constant)
    → fold_shift shift t l r ≡ some c
    → (n : ℕ) × (r ≡ pos n) × (n < integer_bits t) × IsWord t (shift l n) c
unfolding fold_shift
shift_result shift t l (negsuc n) c h = cc
shift_result shift t l (pos n) c h = elim (Bool-cases (leb (max_shift t) n)) [
  | inl large ↦ cc
  | inr small ↦ (n, refl, ground (arith, max_shift_bits t), int_result-IsWord t (shift l n) c (cc))
]

signed_division-Overflows :
    (t : IntTypeName) (l r : ℤ) → signed_division_overflows l r t ≡ false → ¬ Overflows t l r
unfolding signed_division_overflows
signed_division-Overflows t l r h (e, el, er) =
    ground (arith, e, el, er, int_beq_iff l (negsuc (2 ^ 63 - 1)), int_beq_iff r (negsuc 0))

division_result :
    (divide : ℤ → ℤ → ℤ) (t : IntTypeName) (l r : ℤ) (c : Constant)
    → fold_division divide t l r ≡ some c
    → CanDivide t l r × IsWord t (divide l r) c
unfolding fold_division
division_result divide t l r c h = elim (Bool-cases (int_beq r (pos 0))) [
  | inl divides ↦ cc
  | inr nonzero ↦ elim (Bool-cases (signed_division_overflows l r t)) [
    | inl overflows ↦ cc
    | inr fits ↦ (
      (ground (arith, int_beq_iff r (pos 0)), signed_division-Overflows t l r fits),
      int_result-IsWord t (divide l r) c (cc),
    )
  ]
]

fold_integer_binary-EvalInteger :
    (k : BinaryOpKind) (t : IntTypeName) (l r : ℤ) (c : Constant)
    → fold_integer_binary k t l r ≡ some c
    → EvalInteger k t l r c
unfolding fold_integer_binary
fold_integer_binary-EvalInteger BinaryOpKind.add t l r c h = int_result-IsWord t _ c h
fold_integer_binary-EvalInteger BinaryOpKind.subtract t l r c h = int_result-IsWord t _ c h
fold_integer_binary-EvalInteger BinaryOpKind.multiply t l r c h = int_result-IsWord t _ c h
fold_integer_binary-EvalInteger BinaryOpKind.power t l r c h = power_result t l r c h
fold_integer_binary-EvalInteger BinaryOpKind.divide t l r c h = division_result floor_div t l r c h
fold_integer_binary-EvalInteger BinaryOpKind.remainder t l r c h =
    division_result floor_mod t l r c h
fold_integer_binary-EvalInteger BinaryOpKind.bitwise_and t l r c h = int_result-IsWord t _ c h
fold_integer_binary-EvalInteger BinaryOpKind.bitwise_or t l r c h = int_result-IsWord t _ c h
fold_integer_binary-EvalInteger BinaryOpKind.bitwise_xor t l r c h = int_result-IsWord t _ c h
fold_integer_binary-EvalInteger BinaryOpKind.shift_left t l r c h =
    shift_result shift_left t l r c h
fold_integer_binary-EvalInteger BinaryOpKind.shift_right t l r c h =
    shift_result shift_right t l r c h
fold_integer_binary-EvalInteger BinaryOpKind.logical_and t l r c h = cc
fold_integer_binary-EvalInteger BinaryOpKind.logical_or t l r c h = cc
fold_integer_binary-EvalInteger _ t l r c h = cc

fold_bool_binary-EvalBool :
    (k : BinaryOpKind) (l r : Bool) (c : Constant)
    → fold_bool_binary k l r ≡ some c
    → EvalBool k l r c
unfolding fold_bool_binary
fold_bool_binary-EvalBool BinaryOpKind.equal true true c h = cc
fold_bool_binary-EvalBool BinaryOpKind.equal true false c h = cc
fold_bool_binary-EvalBool BinaryOpKind.equal false true c h = cc
fold_bool_binary-EvalBool BinaryOpKind.equal false false c h = cc
fold_bool_binary-EvalBool BinaryOpKind.not_equal true true c h = cc
fold_bool_binary-EvalBool BinaryOpKind.not_equal true false c h = cc
fold_bool_binary-EvalBool BinaryOpKind.not_equal false true c h = cc
fold_bool_binary-EvalBool BinaryOpKind.not_equal false false c h = cc
fold_bool_binary-EvalBool _ l r c h = cc

within_range :
    (t : IntTypeName) (z : ℤ)
    → (ltb_ℤ z (range_minimum t) || ltb_ℤ (range_maximum t) z) ≡ false
    → InRange t z
within_range i64 z h = ground arith
within_range u64 z h = ground arith
within_range u8 z h = ground arith

in_target-InRange :
    (t : IntTypeName) (z v : ℤ) → in_target_range t z ≡ some v → (z ≡ v) × InRange t v
in_target-InRange t z v h =
    elim (Bool-cases (ltb_ℤ z (range_minimum t) || ltb_ℤ (range_maximum t) z)) [
      | inl outside ↦ cc
      | inr inside ↦
          let same : z ≡ v = cc in (same, subst (InRange t) same (within_range t z inside))
    ]

module _ (f : FloatOps) where
  fold_float_binary-EvalFloat :
      (k : BinaryOpKind) (l r : Double) (c : Constant)
      → fold_float_binary f k l r ≡ some c
      → EvalFloat f k l r c
  unfolding fold_float_binary
  fold_float_binary-EvalFloat BinaryOpKind.divide l r c h = elim (Bool-cases (f.is_zero r)) [
    | inl zero ↦ cc
    | inr nonzero ↦ (nonzero, cc)
  ]
  fold_float_binary-EvalFloat _ l r c h = cc

  pub fold_unary-EvalUnary :
      (k : UnaryOpKind) (a c : Constant) → fold_unary f k a ≡ some c → EvalUnary f k a c
  unfolding fold_unary fold_negate_integer
  fold_unary-EvalUnary UnaryOpKind.logical_not (bool_const b) c h = cc
  fold_unary-EvalUnary UnaryOpKind.logical_not _ c h = cc
  fold_unary-EvalUnary UnaryOpKind.negate (double_const x) c h = cc
  fold_unary-EvalUnary UnaryOpKind.negate (int_const i64 v) c h = int_result-IsWord i64 _ c h
  fold_unary-EvalUnary UnaryOpKind.negate (int_const u64 v) c h = cc
  fold_unary-EvalUnary UnaryOpKind.negate (int_const u8 v) c h = cc
  fold_unary-EvalUnary UnaryOpKind.negate _ c h = cc
  fold_unary-EvalUnary UnaryOpKind.bitwise_not (int_const t v) c h = int_result-IsWord t _ c h
  fold_unary-EvalUnary UnaryOpKind.bitwise_not _ c h = cc

  integer_constants-Eval :
      (k : BinaryOpKind) (l r c : Constant)
      → fold_integer_constants f k l r ≡ some c
      → EvalTyped f BinaryOpFlavor.integer k l r c
  unfolding fold_integer_constants
  integer_constants-Eval k (int_const t l) (int_const s r) c h =
      fold_integer_binary-EvalInteger k t l r c h
  integer_constants-Eval k _ _ c h = cc

  bool_constants-Eval :
      (k : BinaryOpKind) (l r c : Constant)
      → fold_bool_constants f k l r ≡ some c
      → EvalTyped f BinaryOpFlavor.bool_logical k l r c
  unfolding fold_bool_constants
  bool_constants-Eval k (bool_const l) (bool_const r) c h = fold_bool_binary-EvalBool k l r c h
  bool_constants-Eval k _ _ c h = cc

  float_constants-Eval :
      (k : BinaryOpKind) (l r c : Constant)
      → fold_float_constants f k l r ≡ some c
      → EvalTyped f BinaryOpFlavor.float k l r c
  unfolding fold_float_constants
  float_constants-Eval k (double_const l) (double_const r) c h =
      fold_float_binary-EvalFloat k l r c h
  float_constants-Eval k _ _ c h = cc

  to_double-Eval :
      (a c : Constant)
      → fold_checked_cast f CastSemanticsKind.to_double none a ≡ some c
      → EvalToDouble f a c
  unfolding fold_checked_cast try_fold_cast_to_double
  to_double-Eval (bool_const true) c h = cc
  to_double-Eval (bool_const false) c h = cc
  to_double-Eval _ c h = cc

  to_integer-Eval :
      (t : IntTypeName) (a c : Constant)
      → fold_cast_to_integer f (some t) a ≡ some c
      → EvalToInteger f t a c
  unfolding fold_cast_to_integer try_fold_cast_to_integer try_truncate_double_to_integer
  to_integer-Eval t (double_const x) c h = elim (Option-cases (f.trunc x)) [
    | inl endless ↦ cc
    | inr (z, whole) ↦ elim (Option-cases (in_target_range t z)) [
      | inl outside ↦ cc
      | inr (v, inside) ↦ let (same, range) = in_target-InRange t z v inside in (v, cc, range, cc)
    ]
  ]
  to_integer-Eval t (bool_const true) c h = int_result-IsWord t _ c h
  to_integer-Eval t (bool_const false) c h = int_result-IsWord t _ c h
  to_integer-Eval t (int_const s v) c h = int_result-IsWord t _ c h
  to_integer-Eval t _ c h = cc

  to_bool-Eval :
      (t : Option IntTypeName) (a c : Constant)
      → fold_checked_cast f CastSemanticsKind.to_bool t a ≡ some c
      → EvalToBool f a c
  unfolding fold_checked_cast try_fold_cast_to_bool
  to_bool-Eval t (bool_const b) c h = cc
  to_bool-Eval t (double_const x) c h = cc
  to_bool-Eval t (int_const s v) c h = cc
  to_bool-Eval t null_const c h = cc
  to_bool-Eval t unit_const c h = cc

  fold_checked_cast-EvalCast :
      (k : CastSemanticsKind) (t : Option IntTypeName) (a c : Constant)
      → fold_checked_cast f k t a ≡ some c
      → EvalCast f k t a c
  unfolding fold_checked_cast fold_cast_to_integer
  fold_checked_cast-EvalCast CastSemanticsKind.identity t a c h = cc
  fold_checked_cast-EvalCast CastSemanticsKind.to_double t a c h = to_double-Eval a c h
  fold_checked_cast-EvalCast CastSemanticsKind.to_integer none a c h = cc
  fold_checked_cast-EvalCast CastSemanticsKind.to_integer (some t) a c h = to_integer-Eval t a c h
  fold_checked_cast-EvalCast CastSemanticsKind.to_bool t a c h = to_bool-Eval t a c h
  fold_checked_cast-EvalCast _ t a c h = cc

  pub fold_cast-EvalCast :
      (k : CastSemanticsKind) (traps : Bool) (t : Option IntTypeName) (a c : Constant)
      → fold_cast f k traps t a ≡ some c
      → (traps ≡ false) × EvalCast f k t a c
  unfolding fold_cast
  fold_cast-EvalCast k true t a c h = cc
  fold_cast-EvalCast k false t a c h = (refl, fold_checked_cast-EvalCast k t a c h)

  typed-Eval :
      (flavor : BinaryOpFlavor) (k : BinaryOpKind) (l r c : Constant)
      → fold_binary f (record { kind = k; flavor = flavor }) l r ≡ some c
      → EvalTyped f flavor k l r c
  unfolding fold_binary
  typed-Eval BinaryOpFlavor.bool_logical k l r c h = bool_constants-Eval k l r c h
  typed-Eval BinaryOpFlavor.bool_comparison k l r c h = bool_constants-Eval k l r c h
  typed-Eval BinaryOpFlavor.float k l r c h = float_constants-Eval k l r c h
  typed-Eval BinaryOpFlavor.float_comparison k l r c h = float_constants-Eval k l r c h
  typed-Eval _ k l r c h = integer_constants-Eval k l r c h

-- A constant that `_fold_binary` gives is the result of the operation: the word of the exact
-- result on integers, with a divisor and a shift count for which the program does not trap.
pub fold_binary-EvalBinary :
    (f : FloatOps) (op : SemanticBinaryOp) (l r c : Constant)
    → fold_binary f op l r ≡ some c
    → EvalBinary f op l r c
fold_binary-EvalBinary f op l r c h = typed-Eval f op.flavor op.kind l r c h
