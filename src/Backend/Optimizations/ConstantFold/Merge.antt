-- ===== src/Backend/Optimizations/ConstantFold/Merge.antt =====
-- compiler/backend/optimizations/constant_fold.py: `_intersect_constant_maps`, what is known where control
-- flow joins. Python's `==` on constants compares doubles as floats: 0.0 and -0.0 are equal, although
-- they are different constants.
use niflheim.Shared.{
  ℕ, zero, suc, ◌≡◌, refl, sym, ap, subst, ◌∙◌, Bool, true, false, ◌&&◌, Bool-cases, Option,
  Option-cases, none, some, List, [], ◌∷◌, All, get_elem?, if◌then◌else◌, inl, inr, and-eq_true,
}
use niflheim.Shared.Dict.{lookup}
use niflheim.Shared.Int.{int_beq, int_beq_iff}
use niflheim.Backend.Ir.Ids.{RegId, reg_id_eq}
use niflheim.Backend.Ir.Model.{
  IntTypeName, i64, u64, u8, Constant, int_const, bool_const, double_const, null_const, unit_const,
  Double,
}
use niflheim.Backend.Semantics.{Registers, constant}
use niflheim.Backend.Optimizations.ConstantFold.Arith.{FloatOps}
use niflheim.Backend.Optimizations.ConstantFold.Folding.{ConstantMap}
use niflheim.Backend.Optimizations.ConstantFold.Meaning.{bool_eq}
use niflheim.Backend.Optimizations.ConstantFold.Known.{Holds, lookup-Holds}

abbrev pub same_int_type : IntTypeName → IntTypeName → Bool
same_int_type i64 i64 = true
same_int_type u64 u64 = true
same_int_type u8 u8 = true
same_int_type _ _ = false

module _ (f : FloatOps) where
  unfoldable pub constants_equal : Constant → Constant → Bool
  constants_equal (int_const t v) (int_const s w) = same_int_type t s && int_beq v w
  constants_equal (bool_const a) (bool_const b) = bool_eq a b
  constants_equal (double_const x) (double_const y) = f.float_eq x y
  constants_equal null_const null_const = true
  constants_equal unit_const unit_const = true
  constants_equal _ _ = false

  abbrev pub is_constant : Option Constant → Constant → Bool
  is_constant none c = false
  is_constant (some c') c = constants_equal c' c

  unfoldable pub known_in_all : RegId → Constant → List ConstantMap → Bool
  known_in_all r c [] = true
  known_in_all r c (m ∷ ms) = is_constant (lookup r m) c && known_in_all r c ms

  unfoldable pub common_constants : ConstantMap → List ConstantMap → ConstantMap
  common_constants [] ms = []
  common_constants ((r, c) ∷ m) ms =
      let rest = common_constants m ms in if known_in_all r c ms then (r, c) ∷ rest else rest

  unfoldable pub intersect_constant_maps : List ConstantMap → ConstantMap
  intersect_constant_maps [] = []
  intersect_constant_maps (m ∷ ms) = common_constants m ms

  abbrev pub IsNonZero : Constant → Type 0
  IsNonZero (double_const x) = f.is_zero x ≡ false
  IsNonZero _ = Unit

  -- Equal floats have the same bits, unless they are zero.
  abbrev pub EqualsAreSame : Type 0
  EqualsAreSame = (x y : Double) → f.float_eq x y ≡ true → f.is_zero y ≡ false → x ≡ y

  int_types_same : (t s : IntTypeName) → same_int_type t s ≡ true → t ≡ s
  int_types_same i64 i64 h = refl
  int_types_same u64 u64 h = refl
  int_types_same u8 u8 h = refl
  int_types_same _ _ h = cc

  bools_same : (a b : Bool) → bool_eq a b ≡ true → a ≡ b
  bools_same true true h = refl
  bools_same true false h = cc
  bools_same false true h = cc
  bools_same false false h = refl

  constants_same :
      (c' c : Constant) → EqualsAreSame → IsNonZero c → constants_equal c' c ≡ true → c' ≡ c
  unfolding constants_equal
  constants_same (int_const t v) (int_const s w) law nonzero h =
      let (types, values) = and-eq_true (same_int_type t s) (int_beq v w) h in
      cc (int_types_same t s types, (int_beq_iff v w).0 values)
  constants_same (bool_const a) (bool_const b) law nonzero h = ap bool_const (bools_same a b h)
  constants_same (double_const x) (double_const y) law nonzero h =
      ap double_const (law x y h nonzero)
  constants_same null_const null_const law nonzero h = refl
  constants_same unit_const unit_const law nonzero h = refl
  constants_same _ _ law nonzero h = cc

  -- A constant that is known in all maps is what the register holds, if one of the maps is true.
  known_in_all-Holds :
      (r : RegId) (c : Constant) (ms : List ConstantMap) (k : ℕ) (known : ConstantMap)
      (ρ : Registers)
      → EqualsAreSame
      → IsNonZero c
      → known_in_all r c ms ≡ true
      → get_elem? ms k ≡ some known
      → Holds ρ known
      → ρ r ≡ constant c
  unfolding known_in_all
  known_in_all-Holds r c [] k known ρ law nonzero all e h = cc
  known_in_all-Holds r c (m ∷ ms) zero known ρ law nonzero all e h =
      let (here, _) = and-eq_true (is_constant (lookup r m) c) (known_in_all r c ms) all in
      let same : m ≡ known = cc in
      elim (Option-cases (lookup r m)) [
        | inl missing ↦ cc
        | inr (c', found) ↦
            lookup-Holds ρ m r c' (subst (Holds ρ) (sym same) h) found
            ∙ ap constant (constants_same c' c law nonzero (rw found at here))
      ]
  known_in_all-Holds r c (m ∷ ms) (suc k) known ρ law nonzero all e h =
      let (_, rest) = and-eq_true (is_constant (lookup r m) c) (known_in_all r c ms) all in
      known_in_all-Holds r c ms k known ρ law nonzero rest e h

  common-Holds :
      (m : ConstantMap) (ms : List ConstantMap) (k : ℕ) (known : ConstantMap) (ρ : Registers)
      → EqualsAreSame
      → All (λ b. IsNonZero b.1) m
      → get_elem? ms k ≡ some known
      → Holds ρ known
      → Holds ρ (common_constants m ms)
  unfolding common_constants
  common-Holds [] ms k known ρ law nonzero e h = tt
  common-Holds ((r, c) ∷ m) ms k known ρ law (here, nonzero) e h =
      elim (Bool-cases (known_in_all r c ms)) [
        | inl kept ↦
            rw (kept, common_constants)
              (
                known_in_all-Holds r c ms k known ρ law here kept e h,
                common-Holds m ms k known ρ law nonzero e h,
              )
        | inr dropped ↦ rw (dropped, common_constants) (common-Holds m ms k known ρ law nonzero e h)
      ]

  first-Holds :
      (m : ConstantMap) (ms : List ConstantMap) (ρ : Registers)
      → Holds ρ m
      → Holds ρ (common_constants m ms)
  unfolding common_constants
  first-Holds [] ms ρ h = tt
  first-Holds ((r, c) ∷ m) ms ρ (here, rest) = elim (Bool-cases (known_in_all r c ms)) [
    | inl kept ↦ rw (kept, common_constants) (here, first-Holds m ms ρ rest)
    | inr dropped ↦ rw (dropped, common_constants) (first-Holds m ms ρ rest)
  ]

-- If the registers hold the constants of one of the maps that are joined, they hold those of the
-- intersection, where the first map has no double that is zero, and equal doubles other than zero
-- have the same bits.
pub intersect_constant_maps-Holds :
    (f : FloatOps) (m : ConstantMap) (ms : List ConstantMap) (k : ℕ) (known : ConstantMap)
    (ρ : Registers)
    → EqualsAreSame f
    → All (λ b. IsNonZero f b.1) m
    → get_elem? (m ∷ ms) k ≡ some known
    → Holds ρ known
    → Holds ρ (intersect_constant_maps f (m ∷ ms))
unfolding intersect_constant_maps
intersect_constant_maps-Holds f m ms zero known ρ law nonzero e h =
    let same : m ≡ known = cc in first-Holds f m ms ρ (subst (Holds ρ) (sym same) h)
intersect_constant_maps-Holds f m ms (suc k) known ρ law nonzero e h =
    common-Holds f m ms k known ρ law nonzero e h
