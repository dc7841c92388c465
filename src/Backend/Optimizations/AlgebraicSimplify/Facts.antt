-- ===== src/Backend/Optimizations/AlgebraicSimplify/Facts.antt =====
-- What the simplification of an operation takes to be true of its operands, and the arithmetic laws
-- that it uses.
use niflheim.Shared.{ℕ, ◌<◌, ◌≡◌, refl, sym, ap, ◌∙◌, Bool, true, false, arith}
use niflheim.Shared.Int.{
  ℤ, pos, negsuc, ◌+ℤ◌, ◌-ℤ◌, ◌*ℤ◌, int_beq_iff, eq_of_parts, floor_div, floor_mod, int_pow,
  shift_left, shift_right,
}
use niflheim.Shared.Int.Congruence.{Congruent-refl}
use niflheim.Backend.Ir.Model.{
  IntTypeName, i64, u64, u8, int_const, bool_const, null_const, unit_const, double_const, Operand,
  reg_operand, const_operand, data_operand, callable_operand,
}
use niflheim.Backend.Semantics.{Value, constant, Registers, value}
use niflheim.Backend.Optimizations.ConstantFold.Arith.{wrap_integer}
use niflheim.Backend.Optimizations.ConstantFold.Wrap.{
  modulus, InRange, IsWordOf, wrap_integer_unique,
}
use niflheim.Backend.Optimizations.ConstantFold.Meaning.{IsWord, CanDivide, Overflows}
use niflheim.Backend.Optimizations.AlgebraicSimplify.{
  bool_constant_value, integer_constant_value, is_bool, is_int,
}

abbrev pub IsBool : Value → Type 0
IsBool v = (b : Bool) × (v ≡ constant (bool_const b))

-- A value of the integer type.
abbrev pub IsInt : IntTypeName → Value → Type 0
IsInt t v = (z : ℤ) × (v ≡ constant (int_const t z)) × InRange t z

pub bool_constant_known :
    (ρ : Registers) (o : Operand) (b : Bool)
    → is_bool (bool_constant_value o) b ≡ true
    → value ρ o ≡ constant (bool_const b)
unfolding bool_constant_value
bool_constant_known ρ (const_operand (bool_const true)) true h = refl
bool_constant_known ρ (const_operand (bool_const true)) false h = cc
bool_constant_known ρ (const_operand (bool_const false)) true h = cc
bool_constant_known ρ (const_operand (bool_const false)) false h = refl
bool_constant_known ρ (const_operand (int_const t v)) b h = cc
bool_constant_known ρ (const_operand (double_const v)) b h = cc
bool_constant_known ρ (const_operand null_const) b h = cc
bool_constant_known ρ (const_operand unit_const) b h = cc
bool_constant_known ρ (reg_operand r) b h = cc
bool_constant_known ρ (data_operand r) b h = cc
bool_constant_known ρ (callable_operand r t) b h = cc

-- An operand that is the constant `z` has `z` for its value.
pub integer_constant_known :
    (ρ : Registers) (o : Operand) (z v : ℤ) (t : IntTypeName)
    → is_int (integer_constant_value o) z ≡ true
    → value ρ o ≡ constant (int_const t v)
    → v ≡ z
unfolding integer_constant_value
integer_constant_known ρ (const_operand (int_const s w)) z v t h e =
    let same : w ≡ v = cc in sym same ∙ (int_beq_iff w z).0 h
integer_constant_known ρ (const_operand (bool_const b)) z v t h e = cc
integer_constant_known ρ (const_operand (double_const b)) z v t h e = cc
integer_constant_known ρ (const_operand null_const) z v t h e = cc
integer_constant_known ρ (const_operand unit_const) z v t h e = cc
integer_constant_known ρ (reg_operand r) z v t h e = cc
integer_constant_known ρ (data_operand r) z v t h e = cc
integer_constant_known ρ (callable_operand r s) z v t h e = cc

-- A value of the type is its own word.
pub own_word : (t : IntTypeName) (v : ℤ) → InRange t v → IsWordOf t v v
own_word t v h = record { in_range = h; congruent = Congruent-refl (modulus t) v }

pub IsWord-of : (t : IntTypeName) (z v : ℤ) → InRange t v → z ≡ v → IsWord t z (int_const t v)
IsWord-of t z v h e = (v, refl, rw e (own_word t v h))

pub small-InRange : (t : IntTypeName) (n : ℕ) → n < 2 → InRange t (pos n)
small-InRange i64 n h = omega arith
small-InRange u64 n h = omega arith
small-InRange u8 n h = omega arith

pub wrap_small : (t : IntTypeName) (n : ℕ) → n < 2 → wrap_integer (pos n) t ≡ pos n
wrap_small t n h =
    sym (wrap_integer_unique (pos n) t (pos n) (own_word t (pos n) (small-InRange t n h)))

pub add_zero : (v : ℤ) → v +ℤ pos 0 ≡ v
unfolding ◌+ℤ◌
add_zero v = eq_of_parts (v +ℤ pos 0) v (ground arith)

pub zero_add : (v : ℤ) → pos 0 +ℤ v ≡ v
unfolding ◌+ℤ◌
zero_add v = eq_of_parts (pos 0 +ℤ v) v (ground arith)

pub sub_zero : (v : ℤ) → v -ℤ pos 0 ≡ v
unfolding ◌-ℤ◌
sub_zero v = eq_of_parts (v -ℤ pos 0) v (ground arith)

pub mul_zero : (v : ℤ) → v *ℤ pos 0 ≡ pos 0
unfolding ◌*ℤ◌
mul_zero v = eq_of_parts (v *ℤ pos 0) (pos 0) (ground arith)

pub zero_mul : (v : ℤ) → pos 0 *ℤ v ≡ pos 0
unfolding ◌*ℤ◌
zero_mul v = eq_of_parts (pos 0 *ℤ v) (pos 0) (ground arith)

pub mul_one : (v : ℤ) → v *ℤ pos 1 ≡ v
unfolding ◌*ℤ◌
mul_one v = eq_of_parts (v *ℤ pos 1) v (ground arith)

pub one_mul : (v : ℤ) → pos 1 *ℤ v ≡ v
unfolding ◌*ℤ◌
one_mul v = eq_of_parts (pos 1 *ℤ v) v (ground arith)

pub div_one : (v : ℤ) → floor_div v (pos 1) ≡ v
unfolding floor_div
div_one (pos a) = ap pos (omega arith)
div_one (negsuc a) = ap negsuc (omega arith)

pub mod_one : (v : ℤ) → floor_mod v (pos 1) ≡ pos 0
unfolding floor_mod ◌-ℤ◌
mod_one v = rw (div_one v, mul_one v, floor_mod) (eq_of_parts (v -ℤ v) (pos 0) (ground arith))

pub pow_one : (v : ℤ) → int_pow v 1 ≡ v
unfolding int_pow
pow_one v = mul_one v

pub shift_left_zero : (v : ℤ) → shift_left v 0 ≡ v
unfolding shift_left
shift_left_zero (pos a) = ap pos (omega arith)
shift_left_zero (negsuc a) = ap negsuc (omega arith)

pub shift_right_zero : (v : ℤ) → shift_right v 0 ≡ v
unfolding shift_right
shift_right_zero (pos a) = ap pos (omega arith)
shift_right_zero (negsuc a) = ap negsuc (omega arith)

pub CanDivide-one : (t : IntTypeName) (v : ℤ) → CanDivide t v (pos 1)
CanDivide-one t v = (λ e. cc, λ (over : Overflows t v (pos 1)). let (_, _, bad) = over in cc)
