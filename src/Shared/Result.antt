-- ===== src/Shared/Result.antt =====
-- Python's exceptions as values: what a function returns, or the error that it raises.
use mathlib.Core.Path.{◌≡◌, refl}
use mathlib.Core.Bool.{Bool, true, false}

pub data Result {κ ℓ} (E : Type κ) (V : Type ℓ) : Type (ℓ ⊔ κ) where
  err : (raised : E) → Result E V
  ok : (value : V) → Result E V

-- What is sequenced behind a call is left out where the call raises an error.
infixl 5 ◌>>=◌ ◌>>◌
abbrev pub ◌>>=◌ {κ ℓ μ} :
    {E : Type κ} {V : Type ℓ} {U : Type μ} → Result E V → (V → Result E U) → Result E U
call >>= next = elim call [ err raised ↦ err raised | ok value ↦ next value ]

abbrev pub ◌>>◌ {κ ℓ} : {E : Type κ} {U : Type ℓ} → Result E (Unit {0}) → Result E U → Result E U
check >> next = elim check [ err raised ↦ err raised | ok _ ↦ next ]

-- `if not holds: raise e`
abbrev pub guard {κ} : {E : Type κ} → Bool → E → Result E (Unit {0})
guard holds e = elim holds [ true ↦ ok tt | false ↦ err e ]

module _ {κ ℓ μ} {E : Type κ} {V : Type ℓ} {U : Type μ} where
  pub >>=-eq-ok :
      (call : Result E V) (next : V → Result E U) {u : U}
      → (call >>= next) ≡ ok u
      → (v : V) × (call ≡ ok v) × (next v ≡ ok u)
  >>=-eq-ok (err raised) next h = cc
  >>=-eq-ok (ok v) next h = (v, refl, h)

module _ {κ} {E : Type κ} where
  pub guard-eq-ok : (holds : Bool) (e : E) {u : Unit {0}} → guard holds e ≡ ok u → holds ≡ true
  guard-eq-ok false e h = cc
  guard-eq-ok true e h = refl

  -- A result is one value.
  pub ok_unique {ℓ} : {V : Type ℓ} (r : Result E V) (a b : V) → r ≡ ok a → r ≡ ok b → a ≡ b
  ok_unique r a b h k = cc
