-- ===== src/Backend/Analysis/RootSlots.antt =====
-- compiler/backend/analysis/root_slots.py: the slots of the shadow stack for the references that
-- are live at safepoints. References that are live at one safepoint get different slots.
pub mod Conflicts
pub mod Greedy
pub mod Plan
use niflheim.Shared.{
  ℕ, suc, Bool, ◌&&◌, ◌||◌, Option, none, some, List, [], ◌∷◌, ◌++◌, map, ◌==◌, nat_eq,
  if◌then◌else◌, ltb, leb, length, elem, get_elem?, set,
}
use niflheim.Shared.Dict.{Dict, lookup, insert, keys}
use niflheim.Backend.Ir.Ids.{RegId, reg_id_eq}
use niflheim.Backend.Analysis.RegSet.{RegSet, update, sorted_reg_tuple}

-- `conflict_reg_ids_by_reg`
abbrev pub ConflictMap : Type 0
ConflictMap = Dict RegId RegSet

abbrev pub or_empty : Option RegSet → RegSet
or_empty (some s) = s
or_empty none = []

-- `conflict_reg_ids_by_reg[r]`; every register that is looked up is a key.
unfoldable pub conflicts_of : ConflictMap → RegId → RegSet
conflicts_of d r = or_empty (lookup r d)

-- `other for other in live_regs if other != r`
unfoldable pub others : RegId → List RegId → List RegId
others r [] = []
others r (s ∷ live) = let rest = others r live in if s == r then rest else s ∷ rest

-- `{r: set() …}`: registers that are there already keep their place.
unfoldable pub add_keys : ConflictMap → List RegId → ConflictMap
add_keys d [] = d
add_keys d (r ∷ live) = add_keys (insert r [] d) live

unfoldable pub all_keys : ConflictMap → List (List RegId) → ConflictMap
all_keys d [] = d
all_keys d (live ∷ sets) = all_keys (add_keys d live) sets

unfoldable pub add_conflicts : List RegId → ConflictMap → List RegId → ConflictMap
add_conflicts live d [] = d
add_conflicts live d (r ∷ rs) =
    add_conflicts live (insert r (update (conflicts_of d r) (others r live)) d) rs

unfoldable pub all_conflicts : ConflictMap → List (List RegId) → ConflictMap
all_conflicts d [] = d
all_conflicts d (live ∷ sets) = all_conflicts (add_conflicts live d live) sets

unfoldable pub build_conflict_reg_ids : List (List RegId) → ConflictMap
build_conflict_reg_ids sets = all_conflicts (all_keys [] sets) sets

-- `first_safepoint_index_by_reg.setdefault(r, index)`
unfoldable pub set_defaults : ℕ → Dict RegId ℕ → List RegId → Dict RegId ℕ
set_defaults index d [] = d
set_defaults index d (r ∷ live) =
    set_defaults index (elim (lookup r d) [ some _ ↦ d | none ↦ insert r index d ]) live

unfoldable pub first_safepoint_index : ℕ → Dict RegId ℕ → List (List RegId) → Dict RegId ℕ
first_safepoint_index index d [] = d
first_safepoint_index index d (live ∷ sets) =
    first_safepoint_index (suc index) (set_defaults index d live) sets

abbrev pub or_zero : Option ℕ → ℕ
or_zero (some n) = n
or_zero none = 0

-- The order of the keys `(-len(conflicts), first safepoint, ordinal)`: `a` may stand before `b`.
unfoldable pub order_le : ConflictMap → Dict RegId ℕ → RegId → RegId → Bool
order_le conflicts first a b =
    let na = length (conflicts_of conflicts a) in
    let nb = length (conflicts_of conflicts b) in
    let fa = or_zero (lookup a first) in
    let fb = or_zero (lookup b first) in
    ltb nb na || (na == nb && (ltb fa fb || (fa == fb && leb a.ordinal b.ordinal)))

unfoldable pub insert_by : (RegId → RegId → Bool) → RegId → List RegId → List RegId
insert_by le r [] = r ∷ []
insert_by le r (s ∷ rs) = let rest = insert_by le r rs in if le r s then r ∷ s ∷ rs else s ∷ rest

unfoldable pub sort_by : (RegId → RegId → Bool) → List RegId → List RegId
sort_by le [] = []
sort_by le (r ∷ rs) = insert_by le r (sort_by le rs)

unfoldable pub order_reg_ids : ConflictMap → List (List RegId) → List RegId
order_reg_ids conflicts sets =
    sort_by (order_le conflicts (first_safepoint_index 0 [] sets)) (keys conflicts)

-- The loop over `range(slot_count)`, from `index` with `left` rounds to go.
unfoldable pub first_available_from : List ℕ → ℕ → ℕ → ℕ
first_available_from taken index ℕ.zero = index
first_available_from taken index (suc left) =
    let next = first_available_from taken (suc index) left in
    if elem index taken then next else index

unfoldable pub first_available_slot_index : List ℕ → ℕ → ℕ
first_available_slot_index taken slot_count = first_available_from taken 0 slot_count

-- `{root_slot_by_reg[c] for c in conflicts if c in root_slot_by_reg}`
unfoldable pub taken_slots : Dict RegId ℕ → RegSet → List ℕ
taken_slots slots [] = []
taken_slots slots (c ∷ cs) =
    let rest = taken_slots slots cs in elim (lookup c slots) [ some k ↦ k ∷ rest | none ↦ rest ]

pub record Slots : Type 0 where
  pub root_slot_by_reg : Dict RegId ℕ
  pub slot_reg_lists : List (List RegId)

abbrev pub append_at : List (List RegId) → ℕ → RegId → List (List RegId)
append_at lists k r = elim (get_elem? lists k) [
  | some rs ↦ set lists k (rs ++ r ∷ [])
  | none ↦ lists
]

-- One round of the loop over the ordered registers.
unfoldable pub assign_slot : ConflictMap → Slots → RegId → Slots
assign_slot conflicts s r =
    let count = length s.slot_reg_lists in
    let k =
      first_available_slot_index (taken_slots s.root_slot_by_reg (conflicts_of conflicts r))
        count in
    let lists = if k == count then s.slot_reg_lists ++ [] ∷ [] else s.slot_reg_lists in
    record {
      root_slot_by_reg = insert r k s.root_slot_by_reg;
      slot_reg_lists = append_at lists k r;
    }

unfoldable pub assign_slots : ConflictMap → Slots → List RegId → Slots
assign_slots conflicts s [] = s
assign_slots conflicts s (r ∷ rs) = assign_slots conflicts (assign_slot conflicts s r) rs

-- `tuple(sorted(set(live_regs)))` for the live sets that are not empty.
unfoldable pub order_live_reg_sets : List (List RegId) → List (List RegId)
order_live_reg_sets [] = []
order_live_reg_sets ([] ∷ sets) = order_live_reg_sets sets
order_live_reg_sets ((r ∷ live) ∷ sets) =
    sorted_reg_tuple (update [] (r ∷ live)) ∷ order_live_reg_sets sets

abbrev pub no_slots : Slots
no_slots = record { root_slot_by_reg = []; slot_reg_lists = [] }

unfoldable pub plan_of_ordered : List (List RegId) → Dict RegId ℕ × List (List RegId)
plan_of_ordered [] = ([], [])
plan_of_ordered (live ∷ sets) =
    let conflicts = build_conflict_reg_ids (live ∷ sets) in
    let s = assign_slots conflicts no_slots (order_reg_ids conflicts (live ∷ sets)) in
    (s.root_slot_by_reg, map sorted_reg_tuple s.slot_reg_lists)

unfoldable pub build_root_slot_plan_from_live_reg_sets :
    List (List RegId) → Dict RegId ℕ × List (List RegId)
build_root_slot_plan_from_live_reg_sets sets = plan_of_ordered (order_live_reg_sets sets)
