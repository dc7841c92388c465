-- ===== src/Backend/Optimizations/ConstantFold/Joins.antt =====
-- Intersections of larger maps of constants are larger, and a dictionary that is not equal to a
-- smaller one is longer.
use niflheim.Shared.{
  nat_beq_iff, suc, ◌≤◌, ◌<◌, ◌≡◌, refl, sym, ap, true, false, some, Option-cases, Bool-cases, List,
  [], ◌∷◌, map, arith, elem, ◌==◌, nat_eq, if◌then◌else◌, inl, inr, All, length, beq_refl,
  and-eq_true,
}
use niflheim.Shared.Dict.{lookup, keys}
use niflheim.Shared.DictOrder.{HasDistinctKeys}
use niflheim.Shared.Count.{count, elem_of_count}
use niflheim.Backend.Ir.Ids.{RegId, reg_id_eq, reg_id_beq_iff, BlockId, block_id_eq}
use niflheim.Backend.Ir.Model.{Constant}
use niflheim.Backend.Analysis.Liveness.Sound.{Within}
use niflheim.Backend.Optimizations.ConstantFold.Arith.{FloatOps}
use niflheim.Backend.Optimizations.ConstantFold.Folding.{ConstantMap}
use niflheim.Backend.Optimizations.ConstantFold.Merge.{
  is_constant, constants_equal, known_in_all, common_constants, intersect_constant_maps,
}
use niflheim.Backend.Optimizations.ConstantFold.Growth.{Extends}
use niflheim.Backend.Optimizations.ConstantFold.Incoming.{all_equal, same_constants}

lookup_of_elem :
    (r : RegId) (a : ConstantMap) → elem r (keys a) ≡ true → (c : Constant) × (lookup r a ≡ some c)
unfolding elem lookup
lookup_of_elem r [] e = cc
lookup_of_elem r ((k, c) ∷ a) e = elim (Bool-cases (r == k)) [
  | inl same ↦ (c, rw same refl)
  | inr other ↦ let (d, found) = lookup_of_elem r a (rw other at e) in (d, rw other found)
]

elem_of_lookup :
    (r : RegId) (a : ConstantMap) (c : Constant) → lookup r a ≡ some c → elem r (keys a) ≡ true
unfolding elem lookup
elem_of_lookup r [] c e = cc
elem_of_lookup r ((k, d) ∷ a) c e = elim (Bool-cases (r == k)) [
  | inl same ↦ rw same refl
  | inr other ↦ rw other (elem_of_lookup r a c (rw other at e))
]

-- A map extends another if it has its first entry, and the others.
pub Extends-keys : (a b : ConstantMap) → Extends a b → Within (keys a) (keys b)
Extends-keys a b h r e = let (c, found) = lookup_of_elem r a e in elem_of_lookup r b c (h r c found)

-- `ys` without its first `x`.
remove_first : RegId → List RegId → List RegId
remove_first x [] = []
remove_first x (y ∷ ys) = let rest = remove_first x ys in if x == y then ys else y ∷ rest

length-remove_first :
    (x : RegId) (ys : List RegId) → elem x ys ≡ true → length ys ≡ suc (length (remove_first x ys))
unfolding elem remove_first
length-remove_first x [] e = cc
length-remove_first x (y ∷ ys) e = ground (arith, length-remove_first x ys)

elem-remove_first :
    (x r : RegId) (ys : List RegId)
    → elem r ys ≡ true
    → (r == x) ≡ false
    → elem r (remove_first x ys) ≡ true
unfolding elem remove_first
elem-remove_first x r [] e other = cc
elem-remove_first x r (y ∷ ys) e other =
    ground
      (arith, reg_id_beq_iff x y, reg_id_beq_iff r y, reg_id_beq_iff r x, elem-remove_first x r ys)

-- A list without repetition whose elements lie within another is no longer than that.
pub length-Within :
    (xs ys : List RegId) → ((r : RegId) → count r xs ≤ 1) → Within xs ys → length xs ≤ length ys
unfolding count elem
length-Within [] ys distinct h = omega arith
length-Within (x ∷ xs) ys distinct h =
    let here = h x (ground (arith, beq_refl x)) in
    let rest =
      length-Within xs (remove_first x ys) (λ r. omega (arith, distinct r))
        (λ r l.
          let other : (r == x) ≡ false = ground (arith, distinct r, elem_of_count r xs) in
          elem-remove_first x r ys (h r (ground arith)) other) in
    omega (arith, rest, length-remove_first x ys here)

pub length-keys : (a : ConstantMap) → length (keys a) ≡ length a
length-keys [] = refl
length-keys ((r, c) ∷ a) = ap suc (length-keys a)

pub length-Extends : (a b : ConstantMap) → HasDistinctKeys a → Extends a b → length a ≤ length b
length-Extends a b distinct h = omega (
  arith,
  length-Within (keys a) (keys b) distinct (Extends-keys a b h),
  length-keys a,
  length-keys b,
)

module _ (f : FloatOps) where
  is_constant-Extends :
      (r : RegId) (c : Constant) (a b : ConstantMap)
      → Extends a b
      → is_constant f (lookup r a) c ≡ true
      → is_constant f (lookup r b) c ≡ true
  is_constant-Extends r c a b h e = elim (Option-cases (lookup r a)) [
    | inl missing ↦ cc
    | inr (k, found) ↦ rw (h r k found) (rw found at e)
  ]

  known_in_all-Extends :
      (r : RegId) (c : Constant) (known known' : BlockId → ConstantMap) (ps : List BlockId)
      → ((p : BlockId) → Extends (known p) (known' p))
      → known_in_all f r c (map known ps) ≡ true
      → known_in_all f r c (map known' ps) ≡ true
  unfolding known_in_all
  known_in_all-Extends r c known known' [] h e = refl
  known_in_all-Extends r c known known' (p ∷ ps) h e =
      let (here, rest) =
        and-eq_true (is_constant f (lookup r (known p)) c) (known_in_all f r c (map known ps)) e in
      rw (is_constant-Extends r c (known p) (known' p) (h p) here)
        (known_in_all-Extends r c known known' ps h rest)

  count-common :
      (m : ConstantMap) (ms : List ConstantMap) (k : RegId)
      → count k (keys (common_constants f m ms)) ≤ count k (keys m)
  unfolding common_constants count
  count-common [] ms k = omega arith
  count-common ((r, c) ∷ m) ms k = ground (arith, count-common m ms k)

  pub intersect-HasDistinctKeys :
      (known : BlockId → ConstantMap) (ps : List BlockId)
      → ((p : BlockId) → HasDistinctKeys (known p))
      → HasDistinctKeys (intersect_constant_maps f (map known ps))
  unfolding intersect_constant_maps count
  intersect-HasDistinctKeys known [] h k = omega arith
  intersect-HasDistinctKeys known (p ∷ ps) h k =
      omega (arith, h p k, count-common (known p) (map known ps) k)

  lookup-common-some :
      (m : ConstantMap) (ms : List ConstantMap) (r : RegId) (c : Constant)
      → HasDistinctKeys m
      → lookup r (common_constants f m ms) ≡ some c
      → (lookup r m ≡ some c) × (known_in_all f r c ms ≡ true)
  unfolding common_constants lookup count
  lookup-common-some [] ms r c distinct e = cc
  lookup-common-some ((k, d) ∷ m) ms r c distinct e =
      let more : HasDistinctKeys m = λ j. omega (arith, distinct j) in
      let rest = lookup-common-some m ms r c more in
      elim (Bool-cases (known_in_all f k d ms)) [
        | inl kept ↦ elim (Bool-cases (r == k)) [
          | inl same ↦
              let e' = rw (kept, same) at e in
              let reg : r ≡ k = (reg_id_beq_iff r k).0 same in
              let con : d ≡ c = cc in (rw (same, con) refl, rw (reg, sym con) kept)
          | inr other ↦ let e' = rw (kept, other) at e in let (a, b) = rest e' in (rw other a, b)
        ]
        | inr dropped ↦
            let (a, b) = rest (rw dropped at e) in
            elim (Bool-cases (r == k)) [
              | inl same ↦
                  absurd
                    (ground (arith, distinct r, elem_of_lookup r m c a, elem_of_count r (keys m)))
              | inr other ↦ (rw other a, b)
            ]
      ]

  some-lookup-common :
      (m : ConstantMap) (ms : List ConstantMap) (r : RegId) (c : Constant)
      → lookup r m ≡ some c
      → known_in_all f r c ms ≡ true
      → lookup r (common_constants f m ms) ≡ some c
  unfolding common_constants lookup
  some-lookup-common [] ms r c e all = cc
  some-lookup-common ((k, d) ∷ m) ms r c e all = elim (Bool-cases (r == k)) [
    | inl same ↦
        let reg : r ≡ k = (reg_id_beq_iff r k).0 same in
        let con : d ≡ c = cc (rw same at e) in
        let kept : known_in_all f k d ms ≡ true = rw (sym reg, con) all in
        rw (kept, common_constants) (rw (same, con) refl)
    | inr other ↦
        let rest = some-lookup-common m ms r c (rw other at e) all in
        elim (Bool-cases (known_in_all f k d ms)) [
          | inl kept ↦ rw (kept, common_constants) (rw other rest)
          | inr dropped ↦ rw (dropped, common_constants) rest
        ]
  ]

  pub intersect-Extends :
      (known known' : BlockId → ConstantMap) (ps : List BlockId)
      → ((p : BlockId) → HasDistinctKeys (known p))
      → ((p : BlockId) → Extends (known p) (known' p))
      → Extends
          (intersect_constant_maps f (map known ps))
          (intersect_constant_maps f (map known' ps))
  unfolding intersect_constant_maps
  intersect-Extends known known' [] distinct h r c e = e
  intersect-Extends known known' (p ∷ ps) distinct h r c e =
      let (here, all) = lookup-common-some (known p) (map known ps) r c (distinct p) e in
      some-lookup-common (known' p) (map known' ps) r c (h p r c here)
        (known_in_all-Extends r c known known' ps h all)

  -- A constant that is equal to itself: anything but a double that is no number.
  abbrev pub IsNumber : Constant → Type 0
  IsNumber c = constants_equal f c c ≡ true

  all_equal-Extends :
      (a b : ConstantMap)
      → All (λ e. IsNumber e.1) a
      → HasDistinctKeys a
      → Extends a b
      → all_equal f a b ≡ true
  unfolding all_equal lookup count
  all_equal-Extends [] b numbers distinct h = refl
  all_equal-Extends ((r, c) ∷ a) b (number, numbers) distinct h =
      let here : lookup r b ≡ some c = h r c (rw (beq_refl r) refl) in
      let rest =
        all_equal-Extends a b numbers (λ j. omega (arith, distinct j))
          (λ k d e. h k d (elim (Bool-cases (k == r)) [
            | inl same ↦
                absurd
                  (ground (arith, distinct k, elem_of_lookup k a d e, elem_of_count k (keys a)))
            | inr other ↦ rw other e
          ])) in
      rw here (rw number rest)

  -- A larger dictionary of numbers that is not equal is longer.
  pub longer :
      (a b : ConstantMap)
      → All (λ e. IsNumber e.1) a
      → HasDistinctKeys a
      → Extends a b
      → same_constants f a b ≡ false
      → length a < length b
  unfolding same_constants
  longer a b numbers distinct h e = ground (
    arith,
    all_equal-Extends a b numbers distinct h,
    length-Extends a b distinct h,
    nat_beq_iff (length a) (length b),
  )
