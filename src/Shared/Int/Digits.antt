-- ===== src/Shared/Int/Digits.antt =====
-- Laws of `&`, `|` and `^` on natural numbers: with 0, with themselves, and with a number that has all
-- the digits of a width.
use Prim.Native.Nat.{
  min, max, differ, bit_and, bit_or, bit_xor, digits, bit_and-bitwise, bit_or-bitwise,
  bit_xor-bitwise,
}
use native.Mathlib.Nat.{pow-suc, one-le-pow}
use niflheim.Shared.{ℕ, zero, suc, ◌-◌, ◌/◌, ◌%◌, ◌^◌, ◌≤◌, ◌<◌, ◌≡◌, refl, ◌∙◌, arith}

digit_right_zero : (f : ℕ → ℕ → ℕ) (x : ℕ) → f 0 0 ≡ 0 → f 1 0 ≡ 1 → x < 2 → f x 0 ≡ x
digit_right_zero f zero h0 h1 h = h0
digit_right_zero f (suc zero) h0 h1 h = h1
digit_right_zero f (suc (suc x)) h0 h1 h = absurd (omega arith)

-- A digit operation for which 0 on the right changes nothing.
right_zero_digits :
    (z : ℕ → ℕ) (f : ℕ → ℕ → ℕ) (fuel a : ℕ)
    → z 0 ≡ 0
    → f 0 0 ≡ 0
    → f 1 0 ≡ 1
    → a ≤ fuel
    → digits z f fuel a 0 ≡ a
right_zero_digits z f zero zero hz h0 h1 h = hz
right_zero_digits z f (suc fuel) zero hz h0 h1 h = hz
right_zero_digits z f zero (suc a) hz h0 h1 h = absurd (omega arith)
right_zero_digits z f (suc fuel) (suc a) hz h0 h1 h =
    let rest = right_zero_digits z f fuel (suc a / 2) hz h0 h1 (omega arith) in
    let last = digit_right_zero f (suc a % 2) h0 h1 (omega arith) in rw (rest, last) (omega arith)

and_zero-digits : (fuel a : ℕ) → a ≤ fuel → digits (λ b. zero) min fuel a 0 ≡ 0
and_zero-digits zero zero h = refl
and_zero-digits (suc fuel) zero h = refl
and_zero-digits zero (suc a) h = absurd (omega arith)
and_zero-digits (suc fuel) (suc a) h =
    let rest = and_zero-digits fuel (suc a / 2) (omega arith) in omega (arith, rest)

differ_same : (x : ℕ) → differ x x ≡ 0
differ_same zero = refl
differ_same (suc x) = differ_same x

xor_same_digits : (fuel a : ℕ) → a ≤ fuel → digits (λ b. b) differ fuel a a ≡ 0
xor_same_digits zero zero h = refl
xor_same_digits (suc fuel) zero h = refl
xor_same_digits zero (suc a) h = absurd (omega arith)
xor_same_digits (suc fuel) (suc a) h =
    let rest = xor_same_digits fuel (suc a / 2) (omega arith) in rw (rest, differ_same (suc a % 2))

-- The mask of one digit more.
smaller_mask : (k a : ℕ) → a ≡ 2 ^ suc k - 1 → a / 2 ≡ 2 ^ k - 1
smaller_mask k a e = omega (arith, pow-suc 2 k, one-le-pow k 2)

odd_mask : (k a : ℕ) → a ≡ 2 ^ suc k - 1 → a % 2 ≡ 1
odd_mask k a e = omega (arith, pow-suc 2 k, one-le-pow k 2)

or_mask_digits :
    (fuel k a m : ℕ) → a ≤ fuel → a < 2 ^ k → m ≡ 2 ^ k - 1 → digits (λ b. b) max fuel a m ≡ m
or_mask_digits zero k zero m h below e = refl
or_mask_digits (suc fuel) k zero m h below e = refl
or_mask_digits zero k (suc a) m h below e = absurd (omega arith)
or_mask_digits (suc fuel) zero (suc a) m h below e = absurd (omega arith)
or_mask_digits (suc fuel) (suc k) (suc a) m h below e =
    let rest =
      or_mask_digits fuel k (suc a / 2) (m / 2) (omega arith) (omega (arith, pow-suc 2 k))
        (smaller_mask k m e) in
    omega (arith, rest, odd_mask k m e)

mask_or_digits :
    (fuel k m b : ℕ) → m ≤ fuel → b < 2 ^ k → m ≡ 2 ^ k - 1 → digits (λ b. b) max fuel m b ≡ m
mask_or_digits zero k zero b h below e = omega (arith, one-le-pow k 2)
mask_or_digits (suc fuel) k zero b h below e = omega (arith, one-le-pow k 2)
mask_or_digits zero k (suc m) b h below e = absurd (omega arith)
mask_or_digits (suc fuel) zero (suc m) b h below e = absurd (omega arith)
mask_or_digits (suc fuel) (suc k) (suc m) b h below e =
    let rest =
      mask_or_digits fuel k (suc m / 2) (b / 2) (omega arith) (omega (arith, pow-suc 2 k))
        (smaller_mask k (suc m) e) in
    omega (arith, rest, odd_mask k (suc m) e)

mask_and_digits :
    (fuel k m b : ℕ) → m ≤ fuel → b < 2 ^ k → m ≡ 2 ^ k - 1 → digits (λ b. zero) min fuel m b ≡ b
mask_and_digits zero k zero b h below e = omega (arith, one-le-pow k 2)
mask_and_digits (suc fuel) k zero b h below e = omega (arith, one-le-pow k 2)
mask_and_digits zero k (suc m) b h below e = absurd (omega arith)
mask_and_digits (suc fuel) zero (suc m) b h below e = absurd (omega arith)
mask_and_digits (suc fuel) (suc k) (suc m) b h below e =
    let rest =
      mask_and_digits fuel k (suc m / 2) (b / 2) (omega arith) (omega (arith, pow-suc 2 k))
        (smaller_mask k (suc m) e) in
    omega (arith, rest, odd_mask k (suc m) e)

pub bit_and-zero : (a : ℕ) → bit_and a 0 ≡ 0
bit_and-zero a = bit_and-bitwise a 0 ∙ and_zero-digits a a (omega arith)

pub zero-bit_and : (b : ℕ) → bit_and 0 b ≡ 0
zero-bit_and b = bit_and-bitwise 0 b

pub bit_or-zero : (a : ℕ) → bit_or a 0 ≡ a
bit_or-zero a = bit_or-bitwise a 0 ∙ right_zero_digits (λ b. b) max a a refl refl refl (omega arith)

pub zero-bit_or : (b : ℕ) → bit_or 0 b ≡ b
zero-bit_or b = bit_or-bitwise 0 b

pub bit_xor-zero : (a : ℕ) → bit_xor a 0 ≡ a
bit_xor-zero a =
    bit_xor-bitwise a 0 ∙ right_zero_digits (λ b. b) differ a a refl refl refl (omega arith)

pub zero-bit_xor : (b : ℕ) → bit_xor 0 b ≡ b
zero-bit_xor b = bit_xor-bitwise 0 b

pub bit_xor-same : (a : ℕ) → bit_xor a a ≡ 0
bit_xor-same a = bit_xor-bitwise a a ∙ xor_same_digits a a (omega arith)

-- All digits of the width, and a number of the width.
pub bit_or-ones : (k a : ℕ) → a < 2 ^ k → bit_or a (2 ^ k - 1) ≡ 2 ^ k - 1
bit_or-ones k a h =
    bit_or-bitwise a (2 ^ k - 1) ∙ or_mask_digits a k a (2 ^ k - 1) (omega arith) h refl

pub ones-bit_or : (k b : ℕ) → b < 2 ^ k → bit_or (2 ^ k - 1) b ≡ 2 ^ k - 1
ones-bit_or k b h =
    bit_or-bitwise (2 ^ k - 1) b ∙ mask_or_digits (2 ^ k - 1) k (2 ^ k - 1) b (omega arith) h refl

pub ones-bit_and : (k b : ℕ) → b < 2 ^ k → bit_and (2 ^ k - 1) b ≡ b
ones-bit_and k b h =
    bit_and-bitwise (2 ^ k - 1) b ∙ mask_and_digits (2 ^ k - 1) k (2 ^ k - 1) b (omega arith) h refl
