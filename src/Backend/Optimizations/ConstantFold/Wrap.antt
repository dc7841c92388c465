-- ===== src/Backend/Optimizations/ConstantFold/Wrap.antt =====
-- `_wrap_integer` gives the one value of the type that is congruent to the result.
use native.Mathlib.Nat.{div-add-mod', pow-suc, pow-zero}
use niflheim.Shared.{
  ℕ, zero, suc, ◌+◌, ◌-◌, ◌/◌, ◌%◌, ◌^◌, ◌<◌, ◌≡◌, sym, ap, subst, arith, if◌then◌else◌, Bool-cases,
  inl, inr, ltb,
}
use niflheim.Shared.Int.{ℤ, pos, negsuc, ◌-ℤ◌, ◌*ℤ◌, ◌≤ℤ◌, ◌<ℤ◌, int_pow, ltb_ℤ, eq_of_parts}
use niflheim.Shared.Int.Congruence.{
  Congruent-sym, Congruent, Congruent-trans, Congruent-int_pow, residue, int_and-mask, residue-lt,
  residue-Congruent,
}
use niflheim.Backend.Ir.Model.{IntTypeName, i64, u64, u8}
use niflheim.Backend.Optimizations.ConstantFold.Arith.{integer_bits, wrap_integer, pow_integer}

abbrev pub modulus : IntTypeName → ℕ
modulus t = 2 ^ integer_bits t

-- The values of a type.
abbrev pub InRange : IntTypeName → ℤ → Type 0
InRange i64 v = (negsuc (2 ^ 63 - 1) ≤ℤ v) × (v <ℤ pos (2 ^ 63))
InRange u64 v = (pos 0 ≤ℤ v) × (v <ℤ pos (2 ^ 64))
InRange u8 v = (pos 0 ≤ℤ v) × (v <ℤ pos (2 ^ 8))

-- `v` is the value of the type `t` that a word with the low bits of `z` stands for.
pub record IsWordOf (t : IntTypeName) (z v : ℤ) : Type 0 where
  pub in_range : InRange t v
  pub congruent : Congruent (modulus t) v z

-- An unsigned word, read as a signed one.
abbrev as_signed : ℕ → ℤ
as_signed u = if ltb_ℤ (pos u) (pos (2 ^ 63)) then pos u else pos u -ℤ pos (2 ^ 64)

signed_word :
    (u : ℕ) (z : ℤ) → u < 2 ^ 64 → Congruent (2 ^ 64) (pos u) z → IsWordOf i64 z (as_signed u)
unfolding ◌-ℤ◌
signed_word u z h (p, q, e) = elim (Bool-cases (ltb u (2 ^ 63))) [
  | inl small ↦ record { in_range = ground arith; congruent = (p, q, ground arith) }
  | inr large ↦ record { in_range = ground arith; congruent = (p + 1, q, ground arith) }
]

-- Wrapping gives a value of the type that differs from the integer by a multiple of its modulus.
pub wrap_integer-IsWordOf : (z : ℤ) (t : IntTypeName) → IsWordOf t z (wrap_integer z t)
unfolding wrap_integer
wrap_integer-IsWordOf z i64 =
    rw (int_and-mask 64 z) (signed_word (residue 64 z) z (residue-lt 64 z) (residue-Congruent 64 z))
wrap_integer-IsWordOf z u64 =
    rw (int_and-mask 64 z)
      (record { in_range = omega (arith, residue-lt 64 z); congruent = residue-Congruent 64 z })
wrap_integer-IsWordOf z u8 =
    rw (int_and-mask 8 z)
      (record { in_range = omega (arith, residue-lt 8 z); congruent = residue-Congruent 8 z })

-- Two values of a type that are congruent are equal.
word_unique :
    (t : IntTypeName) (x y : ℤ) → InRange t x → InRange t y → Congruent (modulus t) x y → x ≡ y
word_unique i64 x y hx hy (p, q, e) = eq_of_parts x y (omega arith)
word_unique u64 x y hx hy (p, q, e) = eq_of_parts x y (omega arith)
word_unique u8 x y hx hy (p, q, e) = eq_of_parts x y (omega arith)

-- The wrapped value is the only one.
pub wrap_integer_unique : (z : ℤ) (t : IntTypeName) (v : ℤ) → IsWordOf t z v → v ≡ wrap_integer z t
wrap_integer_unique z t v h =
    let wrapped = wrap_integer-IsWordOf z t in
    word_unique t v (wrap_integer z t) h.in_range wrapped.in_range (
      Congruent-trans (modulus t) v z (wrap_integer z t) h.congruent
        (Congruent-sym (modulus t) (wrap_integer z t) z wrapped.congruent))

int_pow-pos : (b n : ℕ) → int_pow (pos b) n ≡ pos (b ^ n)
unfolding int_pow ◌*ℤ◌
int_pow-pos b zero = ap pos (sym (pow-zero b))
int_pow-pos b (suc n) =
    rw (int_pow-pos b n)
      (eq_of_parts (pos b *ℤ pos (b ^ n)) (pos (b ^ suc n)) (ground (arith, pow-suc b n)))

remainder-Congruent : (m a : ℕ) → Congruent m (pos (a % m)) (pos a)
remainder-Congruent m a = (a / m, 0, omega (arith, div-add-mod' a m))

-- The power modulo the width gives the word of the power.
pub pow_integer-IsWordOf :
    (base : ℤ) (n : ℕ) (t : IntTypeName) → IsWordOf t (int_pow base n) (pow_integer base n t)
unfolding pow_integer
pow_integer-IsWordOf base n t =
    let k = integer_bits t in
    let m = modulus t in
    let u = residue k base in
    let word = wrap_integer-IsWordOf (pos (u ^ n % m)) t in
    let power =
      subst (Congruent m (pos (u ^ n % m))) (sym (int_pow-pos u n))
        (remainder-Congruent m (u ^ n)) in
    rw (int_and-mask k base) (record {
      in_range = word.in_range;
      congruent =
          Congruent-trans m (wrap_integer (pos (u ^ n % m)) t) (pos (u ^ n % m)) (int_pow base n)
            word.congruent
            (Congruent-trans m (pos (u ^ n % m)) (int_pow (pos u) n) (int_pow base n) power
              (Congruent-int_pow m (pos u) base n (residue-Congruent k base)));
    })
