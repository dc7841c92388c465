-- ===== src/Backend/Optimizations/ConstantFold/Arith.antt =====
-- compiler/backend/optimizations/constant_fold.py: arithmetic on constants.
use niflheim.Shared.{
  ℕ, ◌-◌, ◌%◌, ◌^◌, Bool, true, false, not, ◌&&◌, ◌||◌, Option, none, some, leb, if◌then◌else◌,
}
use niflheim.Shared.Int.{
  ℤ, pos, negsuc, pos_part, ◌+ℤ◌, ◌-ℤ◌, ◌*ℤ◌, ltb_ℤ, leb_ℤ, int_beq, int_eq, floor_div, floor_mod,
  int_and, int_or, int_xor, shift_left, shift_right,
}
use niflheim.Backend.Ir.Ops.{BinaryOpKind}
use niflheim.Backend.Ir.Model.{
  IntTypeName, i64, u64, u8, Constant, int_const, bool_const, Double, double_const,
}

-- `_INTEGER_MASKS`
abbrev pub integer_bits : IntTypeName → ℕ
integer_bits i64 = 64
integer_bits u64 = 64
integer_bits u8 = 8

abbrev pub integer_mask : IntTypeName → ℤ
integer_mask t = pos (2 ^ integer_bits t - 1)

abbrev pub is_i64 : IntTypeName → Bool
is_i64 i64 = true
is_i64 _ = false

abbrev pub is_u8 : IntTypeName → Bool
is_u8 u8 = true
is_u8 _ = false

unfoldable pub wrap_integer : ℤ → IntTypeName → ℤ
wrap_integer v t =
    let unsigned_value = int_and v (integer_mask t) in
    if is_i64 t
    then if ltb_ℤ unsigned_value (pos (2 ^ 63))
      then unsigned_value
      else unsigned_value -ℤ pos (2 ^ 64)
    else unsigned_value

-- `pow(base & (modulus - 1), exponent, modulus)` is a natural number below the modulus.
unfoldable pub pow_integer : ℤ → ℕ → IntTypeName → ℤ
pow_integer base exponent t =
    let modulus = 2 ^ integer_bits t in
    wrap_integer (pos (pos_part (int_and base (pos (modulus - 1))) ^ exponent % modulus)) t

unfoldable pub signed_division_overflows : ℤ → ℤ → IntTypeName → Bool
signed_division_overflows l r t =
    is_i64 t && (int_beq l (negsuc (2 ^ 63 - 1)) && int_beq r (negsuc 0))

abbrev pub int_result : IntTypeName → ℤ → Option Constant
int_result t v = some (int_const t (wrap_integer v t))

abbrev pub bool_result : Bool → Option Constant
bool_result b = some (bool_const b)

abbrev pub max_shift : IntTypeName → ℕ
max_shift t = if is_u8 t then 8 else 64

-- The shift and the power by a count that is known to be a natural number.
unfoldable pub fold_power : IntTypeName → ℤ → ℤ → Option Constant
fold_power t l (negsuc r) = none
fold_power t l (pos r) = some (int_const t (pow_integer l r t))

unfoldable pub fold_shift : (ℤ → ℕ → ℤ) → IntTypeName → ℤ → ℤ → Option Constant
fold_shift shift t l (negsuc r) = none
fold_shift shift t l (pos r) = if leb (max_shift t) r then none else int_result t (shift l r)

unfoldable pub fold_division : (ℤ → ℤ → ℤ) → IntTypeName → ℤ → ℤ → Option Constant
unfolding signed_division_overflows
fold_division divide t l r =
    if int_beq r (pos 0) || signed_division_overflows l r t then none else int_result t (divide l r)

unfoldable pub fold_integer_binary : BinaryOpKind → IntTypeName → ℤ → ℤ → Option Constant
fold_integer_binary BinaryOpKind.add t l r = int_result t (l +ℤ r)
fold_integer_binary BinaryOpKind.subtract t l r = int_result t (l -ℤ r)
fold_integer_binary BinaryOpKind.multiply t l r = int_result t (l *ℤ r)
fold_integer_binary BinaryOpKind.power t l r = fold_power t l r
fold_integer_binary BinaryOpKind.divide t l r = fold_division floor_div t l r
fold_integer_binary BinaryOpKind.remainder t l r = fold_division floor_mod t l r
fold_integer_binary BinaryOpKind.bitwise_and t l r = int_result t (int_and l r)
fold_integer_binary BinaryOpKind.bitwise_or t l r = int_result t (int_or l r)
fold_integer_binary BinaryOpKind.bitwise_xor t l r = int_result t (int_xor l r)
fold_integer_binary BinaryOpKind.shift_left t l r = fold_shift shift_left t l r
fold_integer_binary BinaryOpKind.shift_right t l r = fold_shift shift_right t l r
fold_integer_binary BinaryOpKind.equal t l r = bool_result (int_beq l r)
fold_integer_binary BinaryOpKind.not_equal t l r = bool_result (not (int_beq l r))
fold_integer_binary BinaryOpKind.less_than t l r = bool_result (ltb_ℤ l r)
fold_integer_binary BinaryOpKind.less_equal t l r = bool_result (leb_ℤ l r)
fold_integer_binary BinaryOpKind.greater_than t l r = bool_result (ltb_ℤ r l)
fold_integer_binary BinaryOpKind.greater_equal t l r = bool_result (leb_ℤ r l)
fold_integer_binary BinaryOpKind.logical_and t l r = none
fold_integer_binary BinaryOpKind.logical_or t l r = none

unfoldable pub fold_bool_binary : BinaryOpKind → Bool → Bool → Option Constant
fold_bool_binary BinaryOpKind.logical_and l r = bool_result (l && r)
fold_bool_binary BinaryOpKind.logical_or l r = bool_result (l || r)
fold_bool_binary BinaryOpKind.equal l r = bool_result (l && r || (not l && not r))
fold_bool_binary BinaryOpKind.not_equal l r = bool_result (not (l && r || (not l && not r)))
fold_bool_binary _ l r = none

-- What Python does with floats, which the program leaves to the interpreter.
pub record FloatOps : Type 0 where
  pub float_neg : Double → Double
  pub float_add : Double → Double → Double
  pub float_sub : Double → Double → Double
  pub float_mul : Double → Double → Double
  pub float_div : Double → Double → Double
  pub float_eq : Double → Double → Bool
  pub float_lt : Double → Double → Bool
  pub float_le : Double → Double → Bool
  pub is_zero : Double → Bool
  pub float_of_int : ℤ → Double
  -- `math.trunc`, of a finite value.
  pub trunc : Double → Option ℤ

module _ (f : FloatOps) where
  unfoldable pub fold_float_binary : BinaryOpKind → Double → Double → Option Constant
  fold_float_binary BinaryOpKind.add l r = some (double_const (f.float_add l r))
  fold_float_binary BinaryOpKind.subtract l r = some (double_const (f.float_sub l r))
  fold_float_binary BinaryOpKind.multiply l r = some (double_const (f.float_mul l r))
  fold_float_binary BinaryOpKind.divide l r =
      if f.is_zero r then none else some (double_const (f.float_div l r))
  fold_float_binary BinaryOpKind.equal l r = bool_result (f.float_eq l r)
  fold_float_binary BinaryOpKind.not_equal l r = bool_result (not (f.float_eq l r))
  fold_float_binary BinaryOpKind.less_than l r = bool_result (f.float_lt l r)
  fold_float_binary BinaryOpKind.less_equal l r = bool_result (f.float_le l r)
  fold_float_binary BinaryOpKind.greater_than l r = bool_result (f.float_lt r l)
  fold_float_binary BinaryOpKind.greater_equal l r = bool_result (f.float_le r l)
  fold_float_binary _ l r = none
