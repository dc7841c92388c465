-- ===== src/Shared/Equality.antt =====
-- Python's `==` on the values that serve as keys: an interface and its instances.
use Prim.Native.Nat.{ℕ}
use Prim.Native.String.{String}
use mathlib.Core.Path.{◌≡◌, refl}
use mathlib.Core.Logic.{◌↔◌}
use mathlib.Core.Bool.{Bool, true, false, ◌&&◌, ◌||◌}
use mathlib.Core.List.{List, [], ◌∷◌}
use native.Mathlib.Omega.{arith}
use text.Mathlib.Text.{◌==◌ as str_eq}
use text.Mathlib.TextEquality.{eq_iff}
use niflheim.Shared.Tests.{nat_beq, nat_beq_iff}

-- A type whose values can be keys, and what `==` says of two of them.
pub record Eq {ℓ} (K : Type ℓ) : Type ℓ where
  pub beq : (j k : K) → Bool
  pub beq_iff : (j k : K) → (beq j k ≡ true) ↔ (j ≡ k)

pub beq_refl {ℓ} : {K : Type ℓ} ⦃e : Eq K⦄ → (k : K) → e.beq k k ≡ true
beq_refl ⦃e⦄ k = (e.beq_iff k k).1 refl

abbrev pub ◌==◌ {ℓ} : {K : Type ℓ} ⦃e : Eq K⦄ → K → K → Bool
◌==◌ {K} ⦃e⦄ j k = e.beq j k

infix 50 ◌==◌
module _ {ℓ} {K : Type ℓ} ⦃e : Eq K⦄ where
  unfoldable pub list_beq : List K → List K → Bool
  list_beq [] [] = true
  list_beq (j ∷ js) (k ∷ ks) = j == k && list_beq js ks
  list_beq _ _ = false

  pub list_beq_iff : (js ks : List K) → (list_beq js ks ≡ true) ↔ (js ≡ ks)
  unfolding list_beq
  list_beq_iff [] [] = ground arith
  list_beq_iff [] (k ∷ ks) = ground arith
  list_beq_iff (j ∷ js) [] = ground arith
  list_beq_iff (j ∷ js) (k ∷ ks) = ground (arith, e.beq_iff j k, list_beq_iff js ks)

  -- `k in ks`
  unfoldable pub elem : K → List K → Bool
  elem k [] = false
  elem k (j ∷ ks) = k == j || elem k ks

  pub elem-same : (j k : K) (ks : List K) → (j == k) ≡ true → elem j ks ≡ elem k ks
  elem-same j k ks h = rw ((e.beq_iff j k).0 h)

instance abbrev pub list_eq {ℓ} : {K : Type ℓ} ⦃e : Eq K⦄ → Eq (List K)
list_eq = record { beq = list_beq; beq_iff = list_beq_iff }

-- Numbers and strings are keys.
instance abbrev pub string_eq : Eq String
string_eq = record { beq = str_eq; beq_iff = eq_iff }

instance abbrev pub nat_eq : Eq ℕ
nat_eq = record { beq = nat_beq; beq_iff = nat_beq_iff }
