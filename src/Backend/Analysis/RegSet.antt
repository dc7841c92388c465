-- ===== src/Backend/Analysis/RegSet.antt =====
-- Sets of registers: Python's `set` and `frozenset` as lists, and `_sorted_reg_tuple` of
-- compiler/backend/analysis/liveness.py, which orders them by ordinal.
use niflheim.Shared.{
  ◌≡◌, refl, not, ◌&&◌, ◌||◌, List, [], ◌∷◌, arith, ◌==◌, if◌then◌else◌, leb, elem, elem-same,
}
use niflheim.Backend.Ir.Ids.{RegId, reg_id_eq, reg_id_beq_iff}

abbrev pub RegSet : Type 0
RegSet = List RegId

unfoldable pub add : RegId → RegSet → RegSet
unfolding elem
add r s = if elem r s then s else r ∷ s

-- `s.update(rs)`
unfoldable pub update : RegSet → List RegId → RegSet
update s [] = s
update s (r ∷ rs) = update (add r s) rs

-- `s.remove(d)` where `d` may be missing, and `s.discard(d)`.
unfoldable pub discard : RegId → RegSet → RegSet
discard d [] = []
discard d (r ∷ s) = let rest = discard d s in if d == r then rest else r ∷ rest

unfoldable pub insert_sorted : RegId → List RegId → List RegId
insert_sorted r [] = r ∷ []
insert_sorted r (s ∷ rs) =
    let rest = insert_sorted r rs in if leb r.ordinal s.ordinal then r ∷ s ∷ rs else s ∷ rest

-- `tuple(sorted(reg_ids, key=reg_id_sort_key))`
unfoldable pub sorted_reg_tuple : RegSet → List RegId
sorted_reg_tuple [] = []
sorted_reg_tuple (r ∷ rs) = insert_sorted r (sorted_reg_tuple rs)

pub elem-add : (x r : RegId) (s : RegSet) → elem x (add r s) ≡ (x == r || elem x s)
unfolding add
elem-add x r s = ground (arith, elem-same x r s)

pub elem-update : (x : RegId) (s rs : RegSet) → elem x (update s rs) ≡ (elem x s || elem x rs)
unfolding update elem
elem-update x s [] = ground arith
elem-update x s (r ∷ rs) = ground (arith, elem-add x r s, elem-update x (add r s) rs)

pub elem-discard : (x d : RegId) (s : RegSet) → elem x (discard d s) ≡ (not (x == d) && elem x s)
unfolding discard elem
elem-discard x d [] = ground arith
elem-discard x d (r ∷ s) =
    ground (arith, reg_id_beq_iff x d, reg_id_beq_iff d r, reg_id_beq_iff x r, elem-discard x d s)

pub elem-insert_sorted :
    (x r : RegId) (rs : List RegId) → elem x (insert_sorted r rs) ≡ (x == r || elem x rs)
unfolding insert_sorted elem
elem-insert_sorted x r [] = refl
elem-insert_sorted x r (s ∷ rs) = ground (arith, elem-insert_sorted x r rs)

pub elem-sorted_reg_tuple : (x : RegId) (s : RegSet) → elem x (sorted_reg_tuple s) ≡ elem x s
unfolding sorted_reg_tuple elem
elem-sorted_reg_tuple x [] = refl
elem-sorted_reg_tuple x (r ∷ rs) =
    ground (arith, elem-insert_sorted x r (sorted_reg_tuple rs), elem-sorted_reg_tuple x rs)
