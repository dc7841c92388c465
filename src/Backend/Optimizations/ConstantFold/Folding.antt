-- ===== src/Backend/Optimizations/ConstantFold/Folding.antt =====
-- compiler/backend/optimizations/constant_fold.py: folding one instruction, given the registers
-- that hold known constants. The name of the destination's type, which `_fold_binary` passes on, is
-- read by nothing.
use niflheim.Shared.{
  String, Bool, true, false, not, ◌||◌, Option, none, some, if◌then◌else◌, ◌==◌, string_eq, ◌-◌,
  ◌^◌,
}
use niflheim.Shared.Dict.{Dict, lookup}
use niflheim.Shared.Int.{ℤ, pos, negsuc, negate, invert, ltb_ℤ, int_beq}
use niflheim.Backend.Ir.Ids.{RegId, reg_id_eq}
use niflheim.Backend.Ir.Ops.{
  UnaryOpKind, BinaryOpKind, BinaryOpFlavor, SemanticBinaryOp, CastSemanticsKind,
}
use niflheim.Backend.Ir.Types.{semantic_type_canonical_name}
use niflheim.Backend.Ir.Model.{
  IntTypeName, i64, u64, u8, Constant, int_const, bool_const, double_const, Double, Operand,
  reg_operand, const_operand, Instruction, copy_inst, unary_inst, binary_inst, cast_inst,
}
use niflheim.Backend.Optimizations.ConstantFold.Arith.{
  FloatOps, wrap_integer, int_result, bool_result, fold_integer_binary, fold_bool_binary,
  fold_float_binary,
}

-- `constant_by_reg`
abbrev pub ConstantMap : Type 0
ConstantMap = Dict RegId Constant

unfoldable pub resolve_constant : Operand → ConstantMap → Option Constant
resolve_constant (const_operand c) constants = some c
resolve_constant (reg_operand r) constants = lookup r constants
resolve_constant _ constants = none

-- The type names of `_INTEGER_MASKS`.
abbrev pub integer_type_of_name : String → Option IntTypeName
integer_type_of_name name =
    if name == "i64"
    then some i64
    else if name == "u64"
    then some u64
    else if name == "u8"
    then some u8
    else none

abbrev pub range_minimum : IntTypeName → ℤ
range_minimum i64 = negsuc (2 ^ 63 - 1)
range_minimum u64 = pos 0
range_minimum u8 = pos 0

abbrev pub range_maximum : IntTypeName → ℤ
range_maximum i64 = pos (2 ^ 63 - 1)
range_maximum u64 = pos (2 ^ 64 - 1)
range_maximum u8 = pos (2 ^ 8 - 1)

abbrev pub in_target_range : IntTypeName → ℤ → Option ℤ
in_target_range t v =
    if ltb_ℤ v (range_minimum t) || ltb_ℤ (range_maximum t) v then none else some v

unfoldable pub fold_negate_integer : IntTypeName → ℤ → Option Constant
fold_negate_integer i64 v = int_result i64 (negate v)
fold_negate_integer _ v = none

abbrev pub with_constant : Option Constant → (Constant → Option Constant) → Option Constant
with_constant none k = none
with_constant (some c) k = k c

module _ (f : FloatOps) where
  unfoldable pub try_truncate_double_to_integer : Double → IntTypeName → Option ℤ
  try_truncate_double_to_integer x t = elim (f.trunc x) [
    | none ↦ none
    | some v ↦ in_target_range t v
  ]

  unfoldable pub fold_unary : UnaryOpKind → Constant → Option Constant
  fold_unary UnaryOpKind.logical_not (bool_const b) = bool_result (not b)
  fold_unary UnaryOpKind.negate (double_const x) = some (double_const (f.float_neg x))
  fold_unary UnaryOpKind.negate (int_const t v) = fold_negate_integer t v
  fold_unary UnaryOpKind.bitwise_not (int_const t v) = int_result t (invert v)
  fold_unary _ _ = none

  unfoldable pub fold_integer_constants : BinaryOpKind → Constant → Constant → Option Constant
  fold_integer_constants kind (int_const t l) (int_const _ r) = fold_integer_binary kind t l r
  fold_integer_constants kind _ _ = none

  unfoldable pub fold_bool_constants : BinaryOpKind → Constant → Constant → Option Constant
  fold_bool_constants kind (bool_const l) (bool_const r) = fold_bool_binary kind l r
  fold_bool_constants kind _ _ = none

  unfoldable pub fold_float_constants : BinaryOpKind → Constant → Constant → Option Constant
  fold_float_constants kind (double_const l) (double_const r) = fold_float_binary f kind l r
  fold_float_constants kind _ _ = none

  unfoldable pub fold_binary : SemanticBinaryOp → Constant → Constant → Option Constant
  fold_binary op l r = elim op.flavor [
    | BinaryOpFlavor.bool_logical ↦ fold_bool_constants op.kind l r
    | BinaryOpFlavor.bool_comparison ↦ fold_bool_constants op.kind l r
    | BinaryOpFlavor.float ↦ fold_float_constants op.kind l r
    | BinaryOpFlavor.float_comparison ↦ fold_float_constants op.kind l r
    | _ ↦ fold_integer_constants op.kind l r
  ]

  unfoldable pub try_fold_cast_to_double : Constant → Option Double
  try_fold_cast_to_double (double_const x) = some x
  try_fold_cast_to_double (bool_const b) = some (f.float_of_int (if b then pos 1 else pos 0))
  try_fold_cast_to_double (int_const t v) = some (f.float_of_int v)
  try_fold_cast_to_double _ = none

  unfoldable pub try_fold_cast_to_integer : Constant → IntTypeName → Option ℤ
  try_fold_cast_to_integer (double_const x) t = try_truncate_double_to_integer x t
  try_fold_cast_to_integer (bool_const b) t = some (wrap_integer (if b then pos 1 else pos 0) t)
  try_fold_cast_to_integer (int_const _ v) t = some (wrap_integer v t)
  try_fold_cast_to_integer _ t = none

  unfoldable pub try_fold_cast_to_bool : Constant → Option Bool
  try_fold_cast_to_bool (bool_const b) = some b
  try_fold_cast_to_bool (double_const x) = some (not (f.is_zero x))
  try_fold_cast_to_bool (int_const t v) = some (not (int_beq v (pos 0)))
  try_fold_cast_to_bool _ = none

  unfoldable pub fold_cast_to_integer : Option IntTypeName → Constant → Option Constant
  fold_cast_to_integer none v = none
  fold_cast_to_integer (some t) v = elim (try_fold_cast_to_integer v t) [
    | none ↦ none
    | some z ↦ some (int_const t z)
  ]

  unfoldable pub fold_checked_cast :
      CastSemanticsKind → Option IntTypeName → Constant → Option Constant
  fold_checked_cast CastSemanticsKind.identity t v = some v
  fold_checked_cast CastSemanticsKind.to_double t v = elim (try_fold_cast_to_double v) [
    | none ↦ none
    | some x ↦ some (double_const x)
  ]
  fold_checked_cast CastSemanticsKind.to_integer t v = fold_cast_to_integer t v
  fold_checked_cast CastSemanticsKind.to_bool t v = elim (try_fold_cast_to_bool v) [
    | none ↦ none
    | some b ↦ some (bool_const b)
  ]
  fold_checked_cast _ t v = none

  unfoldable pub fold_cast :
      CastSemanticsKind → Bool → Option IntTypeName → Constant → Option Constant
  fold_cast kind true t v = none
  fold_cast kind false t v = fold_checked_cast kind t v

  -- The constant that the instruction is found to write: `_try_fold_instruction`, which returns
  -- `_const_like(instruction, …)` then, and the instruction itself otherwise.
  unfoldable pub folded_constant : Instruction → ConstantMap → Option Constant
  folded_constant (copy_inst b d o) constants = resolve_constant o constants
  folded_constant (unary_inst b d op o) constants =
      with_constant (resolve_constant o constants) (fold_unary op.kind)
  folded_constant (binary_inst b d op l r) constants =
      with_constant (resolve_constant l constants)
        λ x. with_constant (resolve_constant r constants) (fold_binary op x)
  folded_constant (cast_inst b d k o t trap_on_failure) constants =
      with_constant (resolve_constant o constants)
        (fold_cast k trap_on_failure (integer_type_of_name (semantic_type_canonical_name t)))
  folded_constant _ constants = none
