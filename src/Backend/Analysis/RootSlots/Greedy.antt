-- ===== src/Backend/Analysis/RootSlots/Greedy.antt =====
-- The greedy assignment: a new register takes a slot that none of its conflicts has.
use niflheim.Shared.{
  nat_beq, ℕ, zero, suc, ◌+◌, ◌≤◌, ◌<◌, ◌≡◌, ◌≢◌, ◌⊎◌, inl, inr, true, false, some, List, [], ◌∷◌,
  ◌++◌, arith, nat_eq, if◌then◌else◌, elem, length, length-append, length-set, get_elem?,
  Bool-cases, Option-cases, beq_refl, nat_beq_iff,
}
use niflheim.Shared.Dict.{Dict, lookup, lookup-insert}
use niflheim.Backend.Ir.Ids.{RegId, reg_id_eq, reg_id_beq_iff}
use niflheim.Backend.Analysis.RegSet.{RegSet}
use niflheim.Backend.Analysis.RootSlots.{
  ConflictMap, conflicts_of, first_available_from, first_available_slot_index, taken_slots, Slots,
  append_at, assign_slot, assign_slots,
}

-- The result lies in the range, and is free unless it is the end of the range.
record IsFirstFree (taken : List ℕ) (index left x : ℕ) : Type 0 where
  above : index ≤ x
  below : x ≤ index + left
  free : (elem x taken ≡ false) ⊎ (x ≡ index + left)

first_available_from-IsFirstFree :
    (taken : List ℕ) (index left : ℕ)
    → IsFirstFree taken index left (first_available_from taken index left)
unfolding first_available_from
first_available_from-IsFirstFree taken index zero = record {
  above = omega arith;
  below = omega arith;
  free = inr (omega arith);
}
first_available_from-IsFirstFree taken index (suc left) =
    let next = first_available_from-IsFirstFree taken (suc index) left in
    elim (Bool-cases (elem index taken)) [
      | inl used ↦
          rw (used, first_available_from)
            (record {
              above = omega (arith, next.above);
              below = omega (arith, next.below);
              free = elim next.free [ inl free ↦ inl free | inr end ↦ inr (omega arith) ];
            })
      | inr unused ↦
          rw (unused, first_available_from)
            (record { above = omega arith; below = omega arith; free = inl unused })
    ]

abbrev Below : ℕ → List ℕ → Type 0
Below count taken = (k : ℕ) → elem k taken ≡ true → k < count

-- Where all taken slots lie below `slot_count`, the chosen one is not taken.
first_available-free :
    (taken : List ℕ) (count : ℕ)
    → Below count taken
    → (elem (first_available_slot_index taken count) taken ≡ false)
      × (first_available_slot_index taken count ≤ count)
unfolding first_available_slot_index
first_available-free taken count h =
    let f = first_available_from-IsFirstFree taken 0 count in
    let k = first_available_from taken 0 count in
    (
      elim (Bool-cases (elem k taken)) [
        | inl used ↦ absurd (elim f.free [ inl free ↦ cc | inr end ↦ omega (arith, h k used) ])
        | inr unused ↦ unused
      ],
      omega (arith, f.below),
    )

elem-taken_slots :
    (slots : Dict RegId ℕ) (cs : RegSet) (c : RegId) (k : ℕ)
    → lookup c slots ≡ some k
    → elem c cs ≡ true
    → elem k (taken_slots slots cs) ≡ true
unfolding taken_slots elem
elem-taken_slots slots [] c k e h = cc
elem-taken_slots slots (x ∷ cs) c k e h =
    ground (arith, reg_id_beq_iff c x, beq_refl k, elem-taken_slots slots cs c k e)

-- Every assigned slot exists.
abbrev Bounded : Dict RegId ℕ → ℕ → Type 0
Bounded slots count = (c : RegId) (k : ℕ) → lookup c slots ≡ some k → k < count

taken_slots-Below :
    (slots : Dict RegId ℕ) (count : ℕ) (cs : RegSet)
    → Bounded slots count
    → Below count (taken_slots slots cs)
unfolding taken_slots elem
taken_slots-Below slots count [] h k l = cc
taken_slots-Below slots count (c ∷ cs) h k l = elim (Option-cases (lookup c slots)) [
  | inl missing ↦ taken_slots-Below slots count cs h k (rw (missing, taken_slots) at l)
  | inr (j, found) ↦
      ground (arith, nat_beq_iff k j, h c j found, taken_slots-Below slots count cs h k)
]

length-append_at :
    (lists : List (List RegId)) (k : ℕ) (r : RegId) → length (append_at lists k r) ≡ length lists
length-append_at lists k r = elim (Option-cases (get_elem? lists k)) [
  | inl missing ↦ rw (missing, append_at)
  | inr (rs, found) ↦ rw (found, append_at) (length-set lists k (rs ++ r ∷ []))
]

module _ (conflicts : ConflictMap)
    (symmetric : (a b : RegId)
      → elem b (conflicts_of conflicts a) ≡ elem a (conflicts_of conflicts b))
    (irreflexive : (a : RegId) → elem a (conflicts_of conflicts a) ≡ false) where
  -- Conflicting registers have different slots.
  pub record IsProper (s : Slots) : Type 0 where
    pub bounded : Bounded s.root_slot_by_reg (length s.slot_reg_lists)
    pub apart :
        (a b : RegId) (i j : ℕ)
        → lookup a s.root_slot_by_reg ≡ some i
        → lookup b s.root_slot_by_reg ≡ some j
        → elem b (conflicts_of conflicts a) ≡ true
        → i ≢ j

  module _ (s : Slots) (r : RegId) (h : IsProper s) where
    abbrev taken : List ℕ
    taken = taken_slots s.root_slot_by_reg (conflicts_of conflicts r)

    abbrev chosen : ℕ
    chosen = first_available_slot_index taken (length s.slot_reg_lists)

    chosen_free : (elem chosen taken ≡ false) × (chosen ≤ length s.slot_reg_lists)
    chosen_free = first_available-free taken (length s.slot_reg_lists) (
        taken_slots-Below s.root_slot_by_reg (length s.slot_reg_lists) (conflicts_of conflicts r)
          h.bounded)

    -- A conflict of the new register does not have the chosen slot.
    chosen_apart :
        (b : RegId) (j : ℕ)
        → lookup b s.root_slot_by_reg ≡ some j
        → elem b (conflicts_of conflicts r) ≡ true
        → chosen ≢ j
    chosen_apart b j e c same =
        ground (
          arith,
          chosen_free,
          elem-taken_slots s.root_slot_by_reg (conflicts_of conflicts r) b j e c,
        )

    assign_slot-Bounded :
        Bounded
          (assign_slot conflicts s r).root_slot_by_reg
          (length (assign_slot conflicts s r).slot_reg_lists)
    unfolding assign_slot
    assign_slot-Bounded c k e =
        let lists =
          if nat_beq chosen (length s.slot_reg_lists)
          then s.slot_reg_lists ++ [] ∷ []
          else s.slot_reg_lists in
        ground (
          arith,
          lookup-insert c r chosen s.root_slot_by_reg,
          h.bounded c k,
          chosen_free,
          length-append_at lists chosen r,
          length-append s.slot_reg_lists ([] ∷ []),
        )

    assign_slot-apart :
        (a b : RegId) (i j : ℕ)
        → lookup a (assign_slot conflicts s r).root_slot_by_reg ≡ some i
        → lookup b (assign_slot conflicts s r).root_slot_by_reg ≡ some j
        → elem b (conflicts_of conflicts a) ≡ true
        → i ≢ j
    unfolding assign_slot
    assign_slot-apart a b i j ea eb c = ground (
      arith,
      lookup-insert a r chosen s.root_slot_by_reg,
      lookup-insert b r chosen s.root_slot_by_reg,
      reg_id_beq_iff a r,
      reg_id_beq_iff b r,
      h.apart a b i j,
      chosen_apart a i,
      chosen_apart b j,
      symmetric a b,
      irreflexive r,
    )

    assign_slot-IsProper : IsProper (assign_slot conflicts s r)
    assign_slot-IsProper = record { bounded = assign_slot-Bounded; apart = assign_slot-apart }

  pub assign_slots-IsProper :
      (s : Slots) (rs : List RegId) → IsProper s → IsProper (assign_slots conflicts s rs)
  unfolding assign_slots
  assign_slots-IsProper s [] h = h
  assign_slots-IsProper s (r ∷ rs) h =
      assign_slots-IsProper (assign_slot conflicts s r) rs (assign_slot-IsProper s r h)
