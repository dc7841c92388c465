-- ===== src/Backend/Optimizations/AlgebraicSimplify/Bitwise.antt =====
-- The laws of `&`, `|` and `^` on the values of an integer type that the simplification uses.
use native.Mathlib.Nat.{mod-eq_of_lt}
use niflheim.Shared.{◌≡◌, ap, ◌∙◌, arith, true, and-eq_true}
use niflheim.Shared.Int.{ℤ, pos, negsuc, int_and, int_or, int_xor, int_beq, int_beq_iff}
use niflheim.Shared.Int.Mask.{bit_and-mask}
use niflheim.Shared.Int.Digits.{
  bit_and-zero, zero-bit_and, bit_or-zero, zero-bit_or, bit_xor-zero, zero-bit_xor, bit_xor-same,
  bit_or-ones, ones-bit_or, ones-bit_and,
}
use niflheim.Backend.Ir.Ids.{reg_id_eq, reg_id_beq_iff}
use niflheim.Backend.Ir.Model.{
  IntTypeName, i64, u64, u8, int_const, Operand, reg_operand, const_operand,
}
use niflheim.Backend.Semantics.{constant, Registers, value}
use niflheim.Backend.Optimizations.ConstantFold.Wrap.{InRange}
use niflheim.Backend.Optimizations.AlgebraicSimplify.{all_ones, same_operand, int_type_beq}

pub and_zero : (x : ℤ) → int_and x (pos 0) ≡ pos 0
unfolding int_and
and_zero (pos a) = ap pos (bit_and-zero a)
and_zero (negsuc a) = ap pos (omega arith)

pub zero_and : (y : ℤ) → int_and (pos 0) y ≡ pos 0
unfolding int_and
zero_and (pos b) = ap pos (zero-bit_and b)
zero_and (negsuc b) = ap pos (omega arith)

pub and_ones : (t : IntTypeName) (x : ℤ) → InRange t x → int_and x (all_ones t) ≡ x
unfolding int_and
and_ones i64 (pos a) h = ap pos (omega (arith, bit_and-zero a))
and_ones i64 (negsuc a) h = ap negsuc (bit_or-zero a)
and_ones u64 (pos a) h = ap pos (bit_and-mask 64 a ∙ mod-eq_of_lt (omega arith))
and_ones u64 (negsuc a) h = absurd (omega arith)
and_ones u8 (pos a) h = ap pos (bit_and-mask 8 a ∙ mod-eq_of_lt (omega arith))
and_ones u8 (negsuc a) h = absurd (omega arith)

pub ones_and : (t : IntTypeName) (y : ℤ) → InRange t y → int_and (all_ones t) y ≡ y
unfolding int_and
ones_and i64 (pos b) h = ap pos (omega (arith, zero-bit_and b))
ones_and i64 (negsuc b) h = ap negsuc (zero-bit_or b)
ones_and u64 (pos b) h = ap pos (ones-bit_and 64 b (omega arith))
ones_and u64 (negsuc b) h = absurd (omega arith)
ones_and u8 (pos b) h = ap pos (ones-bit_and 8 b (omega arith))
ones_and u8 (negsuc b) h = absurd (omega arith)

pub or_zero : (x : ℤ) → int_or x (pos 0) ≡ x
unfolding int_or
or_zero (pos a) = ap pos (bit_or-zero a)
or_zero (negsuc a) = ap negsuc (omega (arith, bit_and-zero a))

pub zero_or : (y : ℤ) → int_or (pos 0) y ≡ y
unfolding int_or
zero_or (pos b) = ap pos (zero-bit_or b)
zero_or (negsuc b) = ap negsuc (omega (arith, bit_and-zero b))

pub or_ones : (t : IntTypeName) (x : ℤ) → InRange t x → int_or x (all_ones t) ≡ all_ones t
unfolding int_or
or_ones i64 (pos a) h = ap negsuc (omega arith)
or_ones i64 (negsuc a) h = ap negsuc (bit_and-zero a)
or_ones u64 (pos a) h = ap pos (bit_or-ones 64 a (omega arith))
or_ones u64 (negsuc a) h = absurd (omega arith)
or_ones u8 (pos a) h = ap pos (bit_or-ones 8 a (omega arith))
or_ones u8 (negsuc a) h = absurd (omega arith)

pub ones_or : (t : IntTypeName) (y : ℤ) → InRange t y → int_or (all_ones t) y ≡ all_ones t
unfolding int_or
ones_or i64 (pos b) h = ap negsuc (omega arith)
ones_or i64 (negsuc b) h = ap negsuc (zero-bit_and b)
ones_or u64 (pos b) h = ap pos (ones-bit_or 64 b (omega arith))
ones_or u64 (negsuc b) h = absurd (omega arith)
ones_or u8 (pos b) h = ap pos (ones-bit_or 8 b (omega arith))
ones_or u8 (negsuc b) h = absurd (omega arith)

pub xor_zero : (x : ℤ) → int_xor x (pos 0) ≡ x
unfolding int_xor
xor_zero (pos a) = ap pos (bit_xor-zero a)
xor_zero (negsuc a) = ap negsuc (bit_xor-zero a)

pub zero_xor : (y : ℤ) → int_xor (pos 0) y ≡ y
unfolding int_xor
zero_xor (pos b) = ap pos (zero-bit_xor b)
zero_xor (negsuc b) = ap negsuc (zero-bit_xor b)

pub xor_same : (x : ℤ) → int_xor x x ≡ pos 0
unfolding int_xor
xor_same (pos a) = ap pos (bit_xor-same a)
xor_same (negsuc a) = ap pos (bit_xor-same a)

-- Operands that are the same have the same integer for their value.
pub value-same_operand :
    (ρ : Registers) (l r : Operand) (t u : IntTypeName) (x y : ℤ)
    → same_operand l r ≡ true
    → value ρ l ≡ constant (int_const t x)
    → value ρ r ≡ constant (int_const u y)
    → x ≡ y
unfolding same_operand
value-same_operand ρ (reg_operand i) (reg_operand j) t u x y h left right =
    let same : i ≡ j = (reg_id_beq_iff i j).0 h in cc
value-same_operand ρ (const_operand (int_const s v)) (const_operand (int_const s' w)) t u x y h left
      right =
    let (_, e) = and-eq_true (int_type_beq s s') (int_beq v w) h in
    let same : v ≡ w = (int_beq_iff v w).0 e in cc
value-same_operand ρ _ _ t u x y h left right = cc
