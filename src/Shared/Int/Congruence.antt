-- ===== src/Shared/Int/Congruence.antt =====
-- Congruence of integers, and the integer that a word of `k` bits stands for.
use native.Mathlib.Nat.{div-add-mod', mod-lt, one-le-pow}
use niflheim.Shared.{ℕ, zero, suc, ◌+◌, ◌-◌, ◌*◌, ◌/◌, ◌%◌, ◌^◌, ◌<◌, ◌≡◌, ap, arith}
use niflheim.Shared.Int.{ℤ, pos, negsuc, pos_part, neg_part, ◌*ℤ◌, int_pow, int_and}
use niflheim.Shared.Int.Mask.{bit_and-mask}

-- `x` and `y` differ by a multiple of `m`.
abbrev pub Congruent : ℕ → ℤ → ℤ → Type 0
Congruent m x y =
    (p : ℕ) × (q : ℕ) × (pos_part x + neg_part y + p * m ≡ pos_part y + neg_part x + q * m)

pub Congruent-refl : (m : ℕ) (x : ℤ) → Congruent m x x
Congruent-refl m x = (0, 0, omega arith)

pub Congruent-sym : (m : ℕ) (x y : ℤ) → Congruent m x y → Congruent m y x
Congruent-sym m x y (p, q, e) = (q, p, omega arith)

pub Congruent-trans : (m : ℕ) (x y z : ℤ) → Congruent m x y → Congruent m y z → Congruent m x z
Congruent-trans m x y z (p, q, e) (p', q', e') = (p + p', q + q', omega arith)

pub *ℤ_parts :
    (a b : ℤ)
    → pos_part (a *ℤ b) + (pos_part a * neg_part b + neg_part a * pos_part b)
      ≡ neg_part (a *ℤ b) + (pos_part a * pos_part b + neg_part a * neg_part b)
unfolding ◌*ℤ◌
*ℤ_parts a b = ground arith

pub Congruent-*ℤ :
    (m : ℕ) (x y x' y' : ℤ) → Congruent m x y → Congruent m x' y' → Congruent m (x *ℤ x') (y *ℤ y')
Congruent-*ℤ m x y x' y' (p, q, e) (p', q', e') =
    let xp = pos_part x in
    let xn = neg_part x in
    let yp = pos_part y' in
    let yn = neg_part y' in
    (
      xp * p' + xn * q' + yp * p + yn * q,
      xp * q' + xn * p' + yp * q + yn * p,
      omega (
        arith,
        *ℤ_parts x x',
        *ℤ_parts y y',
        ap (λ (t : ℕ). xp * t) e',
        ap (λ (t : ℕ). xn * t) e',
        ap (λ (t : ℕ). yp * t) e,
        ap (λ (t : ℕ). yn * t) e,
      ),
    )

pub Congruent-int_pow :
    (m : ℕ) (x y : ℤ) (n : ℕ) → Congruent m x y → Congruent m (int_pow x n) (int_pow y n)
unfolding int_pow
Congruent-int_pow m x y zero h = Congruent-refl m (pos 1)
Congruent-int_pow m x y (suc n) h =
    Congruent-*ℤ m x y (int_pow x n) (int_pow y n) h (Congruent-int_pow m x y n h)

-- The low `k` bits of an integer in two's complement.
abbrev pub residue : ℕ → ℤ → ℕ
residue k (pos a) = a % 2 ^ k
residue k (negsuc a) = 2 ^ k - 1 - a % 2 ^ k

pub int_and-mask : (k : ℕ) (v : ℤ) → int_and v (pos (2 ^ k - 1)) ≡ pos (residue k v)
unfolding int_and
int_and-mask k (pos a) = ap pos (bit_and-mask k a)
int_and-mask k (negsuc a) = ap (λ (x : ℕ). pos (2 ^ k - 1 - x)) (bit_and-mask k a)

pub residue-lt : (k : ℕ) (v : ℤ) → residue k v < 2 ^ k
residue-lt k (pos a) = mod-lt a (one-le-pow k 2 (omega arith))
residue-lt k (negsuc a) = omega (arith, one-le-pow k 2)

pub residue-Congruent : (k : ℕ) (v : ℤ) → Congruent (2 ^ k) (pos (residue k v)) v
residue-Congruent k (pos a) = (a / 2 ^ k, 0, omega (arith, div-add-mod' a (2 ^ k)))
residue-Congruent k (negsuc a) = (
  0,
  a / 2 ^ k + 1,
  omega (arith, div-add-mod' a (2 ^ k), mod-lt a (one-le-pow k 2 (omega arith))),
)
