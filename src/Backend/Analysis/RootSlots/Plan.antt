-- ===== src/Backend/Analysis/RootSlots/Plan.antt =====
-- The plan as a whole: every register that is live at a safepoint has a slot, and two that are
-- live at one safepoint have different slots.
use niflheim.Shared.{
  ℕ, ◌<◌, ◌≡◌, refl, sym, ◌∙◌, ◌≢◌, ◌⊎◌, inl, inr, Bool, true, false, ◌||◌, some, List, [], ◌∷◌,
  arith, ◌==◌, elem, length, length-map, Bool-cases,
}
use niflheim.Shared.Dict.{Dict, lookup, keys, lookup-insert}
use niflheim.Backend.Ir.Ids.{RegId, reg_id_eq}
use niflheim.Backend.Analysis.RegSet.{update, sorted_reg_tuple, elem-update, elem-sorted_reg_tuple}
use niflheim.Backend.Analysis.RootSlots.{
  ConflictMap, conflicts_of, build_conflict_reg_ids, insert_by, sort_by, order_le, order_reg_ids,
  first_safepoint_index, first_available_slot_index, taken_slots, Slots, assign_slot, assign_slots,
  order_live_reg_sets, no_slots, plan_of_ordered, build_root_slot_plan_from_live_reg_sets,
}
use niflheim.Backend.Analysis.RootSlots.Conflicts.{
  together, together_sym, together_irrefl, elem-build_conflict_reg_ids, occurs,
  occurs-build_conflict_reg_ids,
}
use niflheim.Backend.Analysis.RootSlots.Greedy.{IsProper, assign_slots-IsProper}

elem-insert_by :
    (le : RegId → RegId → Bool) (x r : RegId) (rs : List RegId)
    → elem x (insert_by le r rs) ≡ (x == r || elem x rs)
unfolding insert_by elem
elem-insert_by le x r [] = refl
elem-insert_by le x r (s ∷ rs) = ground (arith, elem-insert_by le x r rs)

elem-sort_by :
    (le : RegId → RegId → Bool) (x : RegId) (rs : List RegId) → elem x (sort_by le rs) ≡ elem x rs
unfolding sort_by elem
elem-sort_by le x [] = refl
elem-sort_by le x (r ∷ rs) =
    ground (arith, elem-insert_by le x r (sort_by le rs), elem-sort_by le x rs)

abbrev HasSlot : RegId → Dict RegId ℕ → Type 0
HasSlot r slots = (k : ℕ) × (lookup r slots ≡ some k)

assign_slot-HasSlot :
    (conflicts : ConflictMap) (s : Slots) (x r : RegId)
    → ((r == x) ≡ true) ⊎ HasSlot r s.root_slot_by_reg
    → HasSlot r (assign_slot conflicts s x).root_slot_by_reg
unfolding assign_slot
assign_slot-HasSlot conflicts s x r h =
    let k =
      first_available_slot_index (taken_slots s.root_slot_by_reg (conflicts_of conflicts x))
        (length s.slot_reg_lists) in
    elim (Bool-cases (r == x)) [
      | inl same ↦ (k, rw (lookup-insert r x k s.root_slot_by_reg, same))
      | inr other ↦ elim h [
        | inl same ↦ cc
        | inr (j, e) ↦ (j, rw (lookup-insert r x k s.root_slot_by_reg, other) e)
      ]
    ]

assign_slots-HasSlot :
    (conflicts : ConflictMap) (s : Slots) (rs : List RegId) (r : RegId)
    → (elem r rs ≡ true) ⊎ HasSlot r s.root_slot_by_reg
    → HasSlot r (assign_slots conflicts s rs).root_slot_by_reg
unfolding assign_slots elem
assign_slots-HasSlot conflicts s [] r (inl h) = cc
assign_slots-HasSlot conflicts s [] r (inr h) = h
assign_slots-HasSlot conflicts s (x ∷ rs) r h =
    assign_slots-HasSlot conflicts (assign_slot conflicts s x) rs r (elim (Bool-cases (r == x)) [
      | inl same ↦ inr (assign_slot-HasSlot conflicts s x r (inl same))
      | inr other ↦ elim h [
        | inl later ↦ inl (ground arith)
        | inr old ↦ inr (assign_slot-HasSlot conflicts s x r (inr old))
      ]
    ])

no_slots-IsProper :
    (conflicts : ConflictMap)
    (symmetric : (a b : RegId)
      → elem b (conflicts_of conflicts a) ≡ elem a (conflicts_of conflicts b))
    (irreflexive : (a : RegId) → elem a (conflicts_of conflicts a) ≡ false)
    → IsProper conflicts symmetric irreflexive no_slots
unfolding lookup
no_slots-IsProper conflicts symmetric irreflexive = record {
  bounded = λ c k e. cc;
  apart = λ a b i j ea eb c. cc;
}

occurs_of_together :
    (r s : RegId) (sets : List (List RegId))
    → together r s sets ≡ true
    → (occurs r sets ≡ true) × (occurs s sets ≡ true)
unfolding together occurs
occurs_of_together r s [] h = cc
occurs_of_together r s (live ∷ sets) h = ground (arith, occurs_of_together r s sets)

abbrev assigned : List (List RegId) → Slots
assigned sets =
    let conflicts = build_conflict_reg_ids sets in
    assign_slots conflicts no_slots (order_reg_ids conflicts sets)

ordered_HasSlot :
    (r : RegId) (sets : List (List RegId))
    → occurs r sets ≡ true
    → HasSlot r (assigned sets).root_slot_by_reg
unfolding order_reg_ids
ordered_HasSlot r sets h =
    let conflicts = build_conflict_reg_ids sets in
    assign_slots-HasSlot conflicts no_slots (order_reg_ids conflicts sets) r (
      inl (
        elem-sort_by (order_le conflicts (first_safepoint_index 0 [] sets)) r (keys conflicts)
        ∙ occurs-build_conflict_reg_ids r sets h))

-- Both registers have a slot below the number of slots, and not the same one.
abbrev pub HaveDifferentSlots : RegId → RegId → Dict RegId ℕ × List (List RegId) → Type 0
HaveDifferentSlots r s plan =
    (i : ℕ) × (j : ℕ) × (lookup r plan.0 ≡ some i)
    × (lookup s plan.0 ≡ some j)
    × (i ≢ j)
    × (i < length plan.1)
    × (j < length plan.1)

plan_of_ordered_apart :
    (sets : List (List RegId)) (r s : RegId)
    → together r s sets ≡ true
    → HaveDifferentSlots r s (plan_of_ordered sets)
unfolding plan_of_ordered together
plan_of_ordered_apart [] r s h = cc
plan_of_ordered_apart (live ∷ rest) r s h =
    let sets = live ∷ rest in
    let conflicts = build_conflict_reg_ids sets in
    let related = elem-build_conflict_reg_ids sets in
    let symmetric : (a b : RegId)
        → elem b (conflicts_of conflicts a) ≡ elem a (conflicts_of conflicts b) =
      λ a b. related a b ∙ together_sym a b sets ∙ sym (related b a) in
    let irreflexive : (a : RegId) → elem a (conflicts_of conflicts a) ≡ false =
      λ a. related a a ∙ together_irrefl a sets in
    let order = order_reg_ids conflicts sets in
    let proper =
      assign_slots-IsProper conflicts symmetric irreflexive no_slots order
        (no_slots-IsProper conflicts symmetric irreflexive) in
    let (r_occurs, s_occurs) = occurs_of_together r s sets h in
    let (i, ei) = ordered_HasSlot r sets r_occurs in
    let (j, ej) = ordered_HasSlot s sets s_occurs in
    let count =
      length-map (assign_slots conflicts no_slots order).slot_reg_lists sorted_reg_tuple in
    (
      i,
      j,
      ei,
      ej,
      proper.apart r s i j ei ej (related r s ∙ h),
      rw count (proper.bounded r i ei),
      rw count (proper.bounded s j ej),
    )

-- What the plan is computed from holds the same registers together.
together-order_live_reg_sets :
    (r s : RegId) (sets : List (List RegId))
    → together r s (order_live_reg_sets sets) ≡ together r s sets
unfolding together order_live_reg_sets elem
together-order_live_reg_sets r s [] = refl
together-order_live_reg_sets r s ([] ∷ sets) = ground (arith, together-order_live_reg_sets r s sets)
together-order_live_reg_sets r s ((x ∷ live) ∷ sets) = ground (
  arith,
  together-order_live_reg_sets r s sets,
  elem-sorted_reg_tuple r (update [] (x ∷ live)),
  elem-sorted_reg_tuple s (update [] (x ∷ live)),
  elem-update r [] (x ∷ live),
  elem-update s [] (x ∷ live),
)

-- Two different registers that are live at one safepoint have root slots, different ones, below
-- the number of slots.
pub build_root_slot_plan_apart :
    (sets : List (List RegId)) (r s : RegId)
    → together r s sets ≡ true
    → HaveDifferentSlots r s (build_root_slot_plan_from_live_reg_sets sets)
unfolding build_root_slot_plan_from_live_reg_sets
build_root_slot_plan_apart sets r s h =
    plan_of_ordered_apart (order_live_reg_sets sets) r s (together-order_live_reg_sets r s sets ∙ h)
