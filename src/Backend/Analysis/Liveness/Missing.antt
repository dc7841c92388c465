-- ===== src/Backend/Analysis/Liveness/Missing.antt =====
-- A measure of live sets that falls whenever one of them grows.
use niflheim.Shared.{
  ℕ, ◌+◌, ◌≤◌, ◌<◌, ◌≡◌, refl, sym, ap, ◌∙◌, true, false, List, [], ◌∷◌, arith, ◌==◌, elem,
  if◌then◌else◌, Bool-cases, inl, inr, beq_refl,
}
use niflheim.Backend.Ir.Ids.{
  RegId, reg_id_eq, reg_id_beq_iff, BlockId, block_id_eq, block_id_beq_iff,
}
use niflheim.Backend.Analysis.RegSet.{RegSet}
use niflheim.Backend.Analysis.Liveness.Sound.{Within}
use niflheim.Backend.Analysis.Liveness.Fixpoint.{LiveSets, live_at, subset, same_set, set_live}
use niflheim.Backend.Analysis.Liveness.Growth.{elem-set_live, Below}

-- How many of the registers are not in the set.
abbrev pub missing : List RegId → RegSet → ℕ
missing [] s = 0
missing (r ∷ all) s = (if elem r s then 0 else 1) + missing all s

missing_falls : (all : List RegId) (s t : RegSet) → Within s t → missing all t ≤ missing all s
missing_falls [] s t h = omega arith
missing_falls (r ∷ all) s t h = ground (arith, h r, missing_falls all s t h)

missing_strict :
    (all : List RegId) (s t : RegSet) (r : RegId)
    → Within s t
    → elem r all ≡ true
    → elem r s ≡ false
    → elem r t ≡ true
    → missing all t < missing all s
unfolding elem
missing_strict [] s t r h a old new = cc
missing_strict (x ∷ all) s t r h a old new = elim (Bool-cases (r == x)) [
  | inl same ↦
      let e : r ≡ x = (reg_id_beq_iff r x).0 same in
      let old' : elem x s ≡ false = ap (λ (y : RegId). elem y s) (sym e) ∙ old in
      let new' : elem x t ≡ true = ap (λ (y : RegId). elem y t) (sym e) ∙ new in
      ground (arith, missing_falls all s t h)
  | inr other ↦ ground (arith, h x, missing_strict all s t r h (ground arith) old new)
]

missing_not_subset :
    (all : List RegId) (s t rest : RegSet)
    → Within s t
    → Within t all
    → Within rest t
    → subset rest s ≡ false
    → missing all t < missing all s
unfolding subset elem
missing_not_subset all s t [] h u i e = cc
missing_not_subset all s t (r ∷ rest) h u i e = elim (Bool-cases (elem r s)) [
  | inl old ↦ missing_not_subset all s t rest h u (λ x l. i x (ground arith)) (ground arith)
  | inr new ↦
      let here = i r (ground (arith, beq_refl r)) in missing_strict all s t r h (u r here) new here
]

subset-Within : (s t : RegSet) → Within s t → subset s t ≡ true
unfolding subset elem
subset-Within [] t h = refl
subset-Within (r ∷ s) t h =
    ground (arith, h r (ground (arith, beq_refl r)), subset-Within s t (λ x l. h x (ground arith)))

-- A set that grows is missing fewer registers.
missing_grows :
    (all : List RegId) (s t : RegSet)
    → Within s t
    → Within t all
    → same_set s t ≡ false
    → missing all t < missing all s
unfolding same_set
missing_grows all s t h u e =
    missing_not_subset all s t t h u (λ r l. l) (ground (arith, subset-Within s t h))

-- The registers that the sets of the blocks are missing.
abbrev pub lack : List RegId → LiveSets → List BlockId → ℕ
lack all live [] = 0
lack all live (id ∷ ids) = missing all (live_at live id) + lack all live ids

pub lack_falls :
    (all : List RegId) (live live' : LiveSets) (ids : List BlockId)
    → Below live live'
    → lack all live' ids ≤ lack all live ids
lack_falls all live live' [] h = omega arith
lack_falls all live live' (id ∷ ids) h = omega (
  arith,
  missing_falls all (live_at live id) (live_at live' id) (h id),
  lack_falls all live live' ids h,
)

lack_strict :
    (all : List RegId) (live live' : LiveSets) (ids : List BlockId) (id : BlockId)
    → Below live live'
    → elem id ids ≡ true
    → missing all (live_at live' id) < missing all (live_at live id)
    → lack all live' ids < lack all live ids
unfolding elem
lack_strict all live live' [] id h e less = cc
lack_strict all live live' (x ∷ ids) id h e less = elim (Bool-cases (id == x)) [
  | inl same ↦
      let here : missing all (live_at live' x) < missing all (live_at live x) =
        rw ((block_id_beq_iff id x).0 same) at less in
      omega (arith, lack_falls all live live' ids h)
  | inr other ↦ omega (
    arith,
    missing_falls all (live_at live x) (live_at live' x) (h x),
    lack_strict all live live' ids id h (ground arith) less,
  )
]

module _ (all : List RegId) (order : List BlockId) (id : BlockId) (listed : elem id order ≡ true)
    (next : RegSet) (live : LiveSets) (larger : Within (live_at live id) next)
    (inside : Within next all) where
  pub set_live-Below : Below live (set_live id next live).0
  set_live-Below k r l =
      ground (arith, elem-set_live k id next live r, block_id_beq_iff k id, larger r)

  pub set_live-changed : (set_live id next live).1 ≡ true → same_set (live_at live id) next ≡ false
  unfolding set_live
  set_live-changed h = ground arith

  pub set_live-lack :
      (set_live id next live).1 ≡ true
      → lack all (set_live id next live).0 order < lack all live order
  set_live-lack h =
      let live' = (set_live id next live).0 in
      let larger' : Within next (live_at live' id) =
        λ r l. ground (arith, elem-set_live id id next live r, beq_refl id) in
      let fewer = missing_falls all next (live_at live' id) larger' in
      lack_strict all live live' order id set_live-Below listed
        (omega (arith, missing_grows all (live_at live id) next larger inside (set_live-changed h)))
