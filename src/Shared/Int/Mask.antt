-- ===== src/Shared/Int/Mask.antt =====
-- `a & (2 ** k - 1)` is the remainder of `a` by `2 ** k`.
use Prim.Native.Nat.{min, bit_and, digits, bit_and-bitwise}
use native.Mathlib.Nat.{
  pow-suc, one-le-pow, div-add-mod', mod-lt, mod-eq_of_lt, mul-add-mod_self_right, zero-mod,
}
use niflheim.Shared.{ℕ, zero, suc, ◌+◌, ◌-◌, ◌*◌, ◌/◌, ◌%◌, ◌^◌, ◌≤◌, ◌<◌, ◌≡◌, ap, ◌∙◌, sym, arith}

pub mod_unique : (q r m : ℕ) → r < m → (q * m + r) % m ≡ r
mod_unique q r m h = mul-add-mod_self_right q m r ∙ mod-eq_of_lt h

-- Doubling the modulus adds the lowest digit.
mod-double : (m a : ℕ) → 0 < m → a % (2 * m) ≡ (a / 2) % m * 2 + a % 2
mod-double m a h =
    let t = a / 2 in
    let digits_of_a : a ≡ t / m * (2 * m) + (t % m * 2 + a % 2) = omega (arith, div-add-mod' t m) in
    ap (λ (x : ℕ). x % (2 * m)) digits_of_a
    ∙ mod_unique (t / m) (t % m * 2 + a % 2) (2 * m) (omega (arith, mod-lt t h))

-- The digit recursion that `&` stands for, at a mask.
masked_digits : (fuel k a : ℕ) → a ≤ fuel → digits (λ b. zero) min fuel a (2 ^ k - 1) ≡ a % 2 ^ k
masked_digits zero k zero h = sym (zero-mod (2 ^ k))
masked_digits (suc fuel) k zero h = sym (zero-mod (2 ^ k))
masked_digits zero k (suc a) h = absurd (omega arith)
masked_digits (suc fuel) zero (suc a) h =
    omega (arith, masked_digits fuel zero (suc a / 2) (omega arith))
masked_digits (suc fuel) (suc k) (suc a) h =
    let smaller : (2 ^ suc k - 1) / 2 ≡ 2 ^ k - 1 = omega (arith, pow-suc 2 k, one-le-pow k 2) in
    let odd : (2 ^ suc k - 1) % 2 ≡ 1 = omega (arith, pow-suc 2 k, one-le-pow k 2) in
    let modulus : 2 ^ suc k ≡ 2 * 2 ^ k = omega (arith, pow-suc 2 k) in
    let rest = masked_digits fuel k (suc a / 2) (omega arith) in
    let doubled =
      ap (λ (m : ℕ). suc a % m) modulus
      ∙ mod-double (2 ^ k) (suc a) (omega (arith, one-le-pow k 2)) in
    rw (smaller, odd) (omega (arith, rest, doubled))

-- A mask of `k` ones keeps the `k` low digits.
pub bit_and-mask : (k a : ℕ) → bit_and a (2 ^ k - 1) ≡ a % 2 ^ k
bit_and-mask k a = bit_and-bitwise a (2 ^ k - 1) ∙ masked_digits a k a (omega arith)
