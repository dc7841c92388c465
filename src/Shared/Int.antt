-- ===== src/Shared/Int.antt =====
-- Python's integers: unbounded, with floor division, two's complement bit operations and shifts.
pub mod Mask
pub mod Digits
pub mod Congruence
use Prim.Native.Nat.{bit_and, bit_or, bit_xor}
use niflheim.Shared.{
  ℕ, zero, suc, ◌+◌, ◌-◌, ◌*◌, ◌/◌, ◌^◌, ◌≤◌, ◌<◌, ◌≡◌, ◌↔◌, Bool, true, false, arith, ltb, leb,
  nat_beq, if◌then◌else◌, Eq,
}

-- `negsuc n` is -(n + 1).
pub data ℤ : Type 0 where
  pos : ℕ → ℤ
  negsuc : ℕ → ℤ

abbrev pub pos_part : ℤ → ℕ
pos_part (pos n) = n
pos_part (negsuc n) = 0

abbrev pub neg_part : ℤ → ℕ
neg_part (pos n) = 0
neg_part (negsuc n) = suc n

-- a - b, as an integer.
abbrev pub sub_ℕ : ℕ → ℕ → ℤ
sub_ℕ a b = if leb b a then pos (a - b) else negsuc (b - a - 1)

infixl 65 ◌+ℤ◌ ◌-ℤ◌
infixl 70 ◌*ℤ◌
infix 50 ◌≤ℤ◌ ◌<ℤ◌
unfoldable pub ◌+ℤ◌ : ℤ → ℤ → ℤ
a +ℤ b = sub_ℕ (pos_part a + pos_part b) (neg_part a + neg_part b)

unfoldable pub ◌-ℤ◌ : ℤ → ℤ → ℤ
a -ℤ b = sub_ℕ (pos_part a + neg_part b) (neg_part a + pos_part b)

unfoldable pub ◌*ℤ◌ : ℤ → ℤ → ℤ
a *ℤ b =
    sub_ℕ (pos_part a * pos_part b + neg_part a * neg_part b)
      (pos_part a * neg_part b + neg_part a * pos_part b)

unfoldable pub negate : ℤ → ℤ
negate a = sub_ℕ (neg_part a) (pos_part a)

abbrev pub ◌≤ℤ◌ : ℤ → ℤ → Type 0
a ≤ℤ b = pos_part a + neg_part b ≤ pos_part b + neg_part a

abbrev pub ◌<ℤ◌ : ℤ → ℤ → Type 0
a <ℤ b = pos_part a + neg_part b < pos_part b + neg_part a

abbrev pub ltb_ℤ : ℤ → ℤ → Bool
ltb_ℤ a b = ltb (pos_part a + neg_part b) (pos_part b + neg_part a)

abbrev pub leb_ℤ : ℤ → ℤ → Bool
leb_ℤ a b = leb (pos_part a + neg_part b) (pos_part b + neg_part a)

abbrev pub int_beq : ℤ → ℤ → Bool
int_beq (pos a) (pos b) = nat_beq a b
int_beq (pos a) (negsuc b) = false
int_beq (negsuc a) (pos b) = false
int_beq (negsuc a) (negsuc b) = nat_beq a b

pub int_beq_iff : (a b : ℤ) → (int_beq a b ≡ true) ↔ (a ≡ b)
int_beq_iff (pos a) (pos b) = ground arith
int_beq_iff (pos a) (negsuc b) = ground arith
int_beq_iff (negsuc a) (pos b) = ground arith
int_beq_iff (negsuc a) (negsuc b) = ground arith

instance abbrev pub int_eq : Eq ℤ
int_eq = record { beq = int_beq; beq_iff = int_beq_iff }

pub eq_of_parts : (a b : ℤ) → pos_part a + neg_part b ≡ pos_part b + neg_part a → a ≡ b
eq_of_parts a b h = ground arith

-- `a // b` and `a % b` for `b != 0`: the quotient is rounded down, the remainder has the sign
-- of the divisor.
unfoldable pub floor_div : ℤ → ℤ → ℤ
floor_div (pos a) (pos b) = pos (a / b)
floor_div (negsuc a) (pos b) = negsuc (a / b)
floor_div (pos zero) (negsuc b) = pos 0
floor_div (pos (suc a)) (negsuc b) = negsuc (a / suc b)
floor_div (negsuc a) (negsuc b) = pos (suc a / suc b)

unfoldable pub floor_mod : ℤ → ℤ → ℤ
unfolding floor_div ◌-ℤ◌ ◌*ℤ◌
floor_mod a b = a -ℤ floor_div a b *ℤ b

-- `~a`, `a & b`, `a | b`, `a ^ b` on two's complement of unbounded width.
unfoldable pub invert : ℤ → ℤ
invert (pos a) = negsuc a
invert (negsuc a) = pos a

unfoldable pub int_and : ℤ → ℤ → ℤ
int_and (pos a) (pos b) = pos (bit_and a b)
int_and (pos a) (negsuc b) = pos (a - bit_and a b)
int_and (negsuc a) (pos b) = pos (b - bit_and a b)
int_and (negsuc a) (negsuc b) = negsuc (bit_or a b)

unfoldable pub int_or : ℤ → ℤ → ℤ
int_or (pos a) (pos b) = pos (bit_or a b)
int_or (pos a) (negsuc b) = negsuc (b - bit_and b a)
int_or (negsuc a) (pos b) = negsuc (a - bit_and a b)
int_or (negsuc a) (negsuc b) = negsuc (bit_and a b)

unfoldable pub int_xor : ℤ → ℤ → ℤ
int_xor (pos a) (pos b) = pos (bit_xor a b)
int_xor (pos a) (negsuc b) = negsuc (bit_xor a b)
int_xor (negsuc a) (pos b) = negsuc (bit_xor a b)
int_xor (negsuc a) (negsuc b) = pos (bit_xor a b)

-- `a << k` and `a >> k` for `k >= 0`.
unfoldable pub shift_left : ℤ → ℕ → ℤ
shift_left (pos a) k = pos (a * 2 ^ k)
shift_left (negsuc a) k = negsuc (suc a * 2 ^ k - 1)

unfoldable pub shift_right : ℤ → ℕ → ℤ
shift_right (pos a) k = pos (a / 2 ^ k)
shift_right (negsuc a) k = negsuc (a / 2 ^ k)

-- `a ** k` for `k >= 0`.
unfoldable pub int_pow : ℤ → ℕ → ℤ
unfolding ◌*ℤ◌
int_pow a zero = pos 1
int_pow a (suc k) = a *ℤ int_pow a k
