-- ===== src/Backend/Optimizations/ConstantFold/Meaning.antt =====
-- What the language says that an operation on constants gives: an integer result is the word of the
-- exact result. Division and remainder round down and need a divisor other than 0, and shift counts
-- lie below the width; where these fail the program traps, and no result is given here.
use niflheim.Shared.{ℕ, ◌-◌, ◌^◌, ◌<◌, ◌≡◌, ◌≢◌, Bool, true, false, not, ◌&&◌, ◌||◌, Option, some}
use niflheim.Shared.Int.{
  ℤ, pos, negsuc, ◌+ℤ◌, ◌-ℤ◌, ◌*ℤ◌, negate, ltb_ℤ, leb_ℤ, int_beq, floor_div, floor_mod, invert,
  int_and, int_or, int_xor, shift_left, shift_right, int_pow,
}
use niflheim.Backend.Ir.Ops.{
  UnaryOpKind, BinaryOpKind, BinaryOpFlavor, SemanticBinaryOp, CastSemanticsKind,
}
use niflheim.Backend.Ir.Model.{
  IntTypeName, i64, Constant, int_const, bool_const, double_const, Double,
}
use niflheim.Backend.Optimizations.ConstantFold.Arith.{FloatOps, integer_bits}
use niflheim.Backend.Optimizations.ConstantFold.Wrap.{IsWordOf, InRange}

-- The constant is the word of `z`.
abbrev pub IsWord : IntTypeName → ℤ → Constant → Type 0
IsWord t z c = (v : ℤ) × (c ≡ int_const t v) × IsWordOf t z v

-- The one quotient that is no `i64`.
abbrev pub Overflows : IntTypeName → ℤ → ℤ → Type 0
Overflows t l r = (t ≡ i64) × (l ≡ negsuc (2 ^ 63 - 1)) × (r ≡ negsuc 0)

abbrev pub CanDivide : IntTypeName → ℤ → ℤ → Type 0
CanDivide t l r = (r ≢ pos 0) × (¬ Overflows t l r)

abbrev pub EvalInteger : BinaryOpKind → IntTypeName → ℤ → ℤ → Constant → Type 0
EvalInteger BinaryOpKind.add t l r c = IsWord t (l +ℤ r) c
EvalInteger BinaryOpKind.subtract t l r c = IsWord t (l -ℤ r) c
EvalInteger BinaryOpKind.multiply t l r c = IsWord t (l *ℤ r) c
EvalInteger BinaryOpKind.power t l r c = (n : ℕ) × (r ≡ pos n) × IsWord t (int_pow l n) c
EvalInteger BinaryOpKind.divide t l r c = CanDivide t l r × IsWord t (floor_div l r) c
EvalInteger BinaryOpKind.remainder t l r c = CanDivide t l r × IsWord t (floor_mod l r) c
EvalInteger BinaryOpKind.bitwise_and t l r c = IsWord t (int_and l r) c
EvalInteger BinaryOpKind.bitwise_or t l r c = IsWord t (int_or l r) c
EvalInteger BinaryOpKind.bitwise_xor t l r c = IsWord t (int_xor l r) c
EvalInteger BinaryOpKind.shift_left t l r c =
    (n : ℕ) × (r ≡ pos n) × (n < integer_bits t) × IsWord t (shift_left l n) c
EvalInteger BinaryOpKind.shift_right t l r c =
    (n : ℕ) × (r ≡ pos n) × (n < integer_bits t) × IsWord t (shift_right l n) c
EvalInteger BinaryOpKind.equal t l r c = c ≡ bool_const (int_beq l r)
EvalInteger BinaryOpKind.not_equal t l r c = c ≡ bool_const (not (int_beq l r))
EvalInteger BinaryOpKind.less_than t l r c = c ≡ bool_const (ltb_ℤ l r)
EvalInteger BinaryOpKind.less_equal t l r c = c ≡ bool_const (leb_ℤ l r)
EvalInteger BinaryOpKind.greater_than t l r c = c ≡ bool_const (ltb_ℤ r l)
EvalInteger BinaryOpKind.greater_equal t l r c = c ≡ bool_const (leb_ℤ r l)
EvalInteger BinaryOpKind.logical_and t l r c = ⊥
EvalInteger BinaryOpKind.logical_or t l r c = ⊥

abbrev pub bool_eq : Bool → Bool → Bool
bool_eq true b = b
bool_eq false b = not b

abbrev pub EvalBool : BinaryOpKind → Bool → Bool → Constant → Type 0
EvalBool BinaryOpKind.logical_and l r c = c ≡ bool_const (l && r)
EvalBool BinaryOpKind.logical_or l r c = c ≡ bool_const (l || r)
EvalBool BinaryOpKind.equal l r c = c ≡ bool_const (bool_eq l r)
EvalBool BinaryOpKind.not_equal l r c = c ≡ bool_const (not (bool_eq l r))
EvalBool _ l r c = ⊥

module _ (f : FloatOps) where
  abbrev pub EvalFloat : BinaryOpKind → Double → Double → Constant → Type 0
  EvalFloat BinaryOpKind.add l r c = c ≡ double_const (f.float_add l r)
  EvalFloat BinaryOpKind.subtract l r c = c ≡ double_const (f.float_sub l r)
  EvalFloat BinaryOpKind.multiply l r c = c ≡ double_const (f.float_mul l r)
  EvalFloat BinaryOpKind.divide l r c = (f.is_zero r ≡ false) × (c ≡ double_const (f.float_div l r))
  EvalFloat BinaryOpKind.equal l r c = c ≡ bool_const (f.float_eq l r)
  EvalFloat BinaryOpKind.not_equal l r c = c ≡ bool_const (not (f.float_eq l r))
  EvalFloat BinaryOpKind.less_than l r c = c ≡ bool_const (f.float_lt l r)
  EvalFloat BinaryOpKind.less_equal l r c = c ≡ bool_const (f.float_le l r)
  EvalFloat BinaryOpKind.greater_than l r c = c ≡ bool_const (f.float_lt r l)
  EvalFloat BinaryOpKind.greater_equal l r c = c ≡ bool_const (f.float_le r l)
  EvalFloat _ l r c = ⊥

  abbrev pub EvalUnary : UnaryOpKind → Constant → Constant → Type 0
  EvalUnary UnaryOpKind.logical_not (bool_const b) c = c ≡ bool_const (not b)
  EvalUnary UnaryOpKind.negate (double_const x) c = c ≡ double_const (f.float_neg x)
  EvalUnary UnaryOpKind.negate (int_const i64 v) c = IsWord i64 (negate v) c
  EvalUnary UnaryOpKind.bitwise_not (int_const t v) c = IsWord t (invert v) c
  EvalUnary _ _ c = ⊥

  abbrev pub EvalTyped : BinaryOpFlavor → BinaryOpKind → Constant → Constant → Constant → Type 0
  EvalTyped BinaryOpFlavor.bool_logical k (bool_const l) (bool_const r) c = EvalBool k l r c
  EvalTyped BinaryOpFlavor.bool_comparison k (bool_const l) (bool_const r) c = EvalBool k l r c
  EvalTyped BinaryOpFlavor.float k (double_const l) (double_const r) c = EvalFloat k l r c
  EvalTyped BinaryOpFlavor.float_comparison k (double_const l) (double_const r) c =
      EvalFloat k l r c
  EvalTyped BinaryOpFlavor.integer k (int_const t l) (int_const _ r) c = EvalInteger k t l r c
  EvalTyped BinaryOpFlavor.integer_comparison k (int_const t l) (int_const _ r) c =
      EvalInteger k t l r c
  EvalTyped BinaryOpFlavor.identity_comparison k (int_const t l) (int_const _ r) c =
      EvalInteger k t l r c
  EvalTyped _ _ _ _ c = ⊥

  abbrev pub EvalBinary : SemanticBinaryOp → Constant → Constant → Constant → Type 0
  EvalBinary op l r c = EvalTyped op.flavor op.kind l r c

  abbrev pub EvalToDouble : Constant → Constant → Type 0
  EvalToDouble (double_const x) c = c ≡ double_const x
  EvalToDouble (bool_const true) c = c ≡ double_const (f.float_of_int (pos 1))
  EvalToDouble (bool_const false) c = c ≡ double_const (f.float_of_int (pos 0))
  EvalToDouble (int_const t v) c = c ≡ double_const (f.float_of_int v)
  EvalToDouble _ c = ⊥

  -- A double is truncated, and traps outside the range of the target.
  abbrev pub EvalToInteger : IntTypeName → Constant → Constant → Type 0
  EvalToInteger t (double_const x) c =
      (v : ℤ) × (f.trunc x ≡ some v) × InRange t v × (c ≡ int_const t v)
  EvalToInteger t (bool_const true) c = IsWord t (pos 1) c
  EvalToInteger t (bool_const false) c = IsWord t (pos 0) c
  EvalToInteger t (int_const _ v) c = IsWord t v c
  EvalToInteger t _ c = ⊥

  abbrev pub EvalToBool : Constant → Constant → Type 0
  EvalToBool (bool_const b) c = c ≡ bool_const b
  EvalToBool (double_const x) c = c ≡ bool_const (not (f.is_zero x))
  EvalToBool (int_const t v) c = c ≡ bool_const (not (int_beq v (pos 0)))
  EvalToBool _ c = ⊥

  -- A cast that does not trap, to the integer type of this name, if it is one.
  abbrev pub EvalCast : CastSemanticsKind → Option IntTypeName → Constant → Constant → Type 0
  EvalCast CastSemanticsKind.identity t v c = c ≡ v
  EvalCast CastSemanticsKind.to_double t v c = EvalToDouble v c
  EvalCast CastSemanticsKind.to_integer (some t) v c = EvalToInteger t v c
  EvalCast CastSemanticsKind.to_bool t v c = EvalToBool v c
  EvalCast _ _ v c = ⊥
