-- ===== src/Backend/Analysis/RootSlots/Conflicts.antt =====
-- The conflict map relates exactly the different registers that are live at one safepoint.
use niflheim.Shared.{
  ◌≡◌, refl, Bool, true, false, not, ◌&&◌, ◌||◌, List, [], ◌∷◌, arith, ◌==◌, elem, if◌then◌else◌,
  Bool-cases, inl, inr, beq_refl,
}
use niflheim.Shared.Dict.{lookup, insert, keys, lookup-insert, elem-keys-insert}
use niflheim.Backend.Ir.Ids.{RegId, reg_id_eq, reg_id_beq_iff}
use niflheim.Backend.Analysis.RegSet.{RegSet, update, elem-update}
use niflheim.Backend.Analysis.RootSlots.{
  ConflictMap, conflicts_of, others, add_keys, all_keys, add_conflicts, all_conflicts,
  build_conflict_reg_ids,
}

-- Some set of the list holds both registers, and they differ.
unfoldable pub together : RegId → RegId → List (List RegId) → Bool
together r s [] = false
together r s (live ∷ sets) = (elem r live && (elem s live && not (s == r))) || together r s sets

pub together_sym : (r s : RegId) (sets : List (List RegId)) → together r s sets ≡ together s r sets
unfolding together
together_sym r s [] = refl
together_sym r s (live ∷ sets) =
    ground (arith, reg_id_beq_iff r s, reg_id_beq_iff s r, together_sym r s sets)

pub together_irrefl : (r : RegId) (sets : List (List RegId)) → together r r sets ≡ false
unfolding together
together_irrefl r [] = refl
together_irrefl r (live ∷ sets) = ground (arith, beq_refl r, together_irrefl r sets)

elem-others :
    (s r : RegId) (live : List RegId) → elem s (others r live) ≡ (elem s live && not (s == r))
unfolding others elem
elem-others s r [] = refl
elem-others s r (x ∷ live) =
    ground (arith, reg_id_beq_iff x r, reg_id_beq_iff s x, reg_id_beq_iff s r, elem-others s r live)

conflicts_of-insert :
    (d : ConflictMap) (x r : RegId) (v : RegSet)
    → conflicts_of (insert x v d) r ≡ (if r == x then v else conflicts_of d r)
unfolding conflicts_of
conflicts_of-insert d x r v = elim (Bool-cases (r == x)) [
  | inl same ↦ rw (lookup-insert r x v d, same)
  | inr other ↦ rw (lookup-insert r x v d, other)
]

conflicts_of-add_conflicts :
    (live : List RegId) (d : ConflictMap) (rs : List RegId) (r s : RegId)
    → elem s (conflicts_of (add_conflicts live d rs) r)
      ≡ (elem s (conflicts_of d r) || (elem r rs && (elem s live && not (s == r))))
unfolding add_conflicts elem
conflicts_of-add_conflicts live d [] r s = ground arith
conflicts_of-add_conflicts live d (x ∷ rs) r s =
    let v = update (conflicts_of d x) (others x live) in
    ground (
      arith,
      conflicts_of-add_conflicts live (insert x v d) rs r s,
      conflicts_of-insert d x r v,
      reg_id_beq_iff r x,
      elem-update s (conflicts_of d x) (others x live),
      elem-others s x live,
    )

conflicts_of-all_conflicts :
    (d : ConflictMap) (sets : List (List RegId)) (r s : RegId)
    → elem s (conflicts_of (all_conflicts d sets) r)
      ≡ (elem s (conflicts_of d r) || together r s sets)
unfolding all_conflicts together
conflicts_of-all_conflicts d [] r s = ground arith
conflicts_of-all_conflicts d (live ∷ sets) r s = ground (
  arith,
  conflicts_of-all_conflicts (add_conflicts live d live) sets r s,
  conflicts_of-add_conflicts live d live r s,
)

abbrev Blank : ConflictMap → Type 0
Blank d = (r s : RegId) → elem s (conflicts_of d r) ≡ false

new_key-Blank :
    (d : ConflictMap) (x r s : RegId)
    → elem s (conflicts_of d r) ≡ false
    → elem s (conflicts_of (insert x [] d) r) ≡ false
unfolding elem
new_key-Blank d x r s h = ground (arith, conflicts_of-insert d x r [])

add_keys-Blank : (d : ConflictMap) (live : List RegId) → Blank d → Blank (add_keys d live)
unfolding add_keys
add_keys-Blank d [] h = h
add_keys-Blank d (x ∷ live) h =
    add_keys-Blank (insert x [] d) live (λ r s. new_key-Blank d x r s (h r s))

all_keys-Blank : (d : ConflictMap) (sets : List (List RegId)) → Blank d → Blank (all_keys d sets)
unfolding all_keys
all_keys-Blank d [] h = h
all_keys-Blank d (live ∷ sets) h = all_keys-Blank (add_keys d live) sets (add_keys-Blank d live h)

empty-Blank : Blank []
unfolding conflicts_of lookup elem
empty-Blank r s = refl

-- A register conflicts with exactly those that are live beside it at some safepoint.
pub elem-build_conflict_reg_ids :
    (sets : List (List RegId)) (r s : RegId)
    → elem s (conflicts_of (build_conflict_reg_ids sets) r) ≡ together r s sets
unfolding build_conflict_reg_ids
elem-build_conflict_reg_ids sets r s = ground (
  arith,
  conflicts_of-all_conflicts (all_keys [] sets) sets r s,
  all_keys-Blank [] sets empty-Blank r s,
)

module _ (r : RegId) where
  abbrev IsKey : ConflictMap → Type 0
  IsKey d = elem r (keys d) ≡ true

  insert-IsKey : (d : ConflictMap) (k : RegId) (v : RegSet) → IsKey d → IsKey (insert k v d)
  insert-IsKey d k v h = ground (arith, elem-keys-insert r k v d)

  add_keys-IsKey : (d : ConflictMap) (live : List RegId) → IsKey d → IsKey (add_keys d live)
  unfolding add_keys
  add_keys-IsKey d [] h = h
  add_keys-IsKey d (x ∷ live) h = add_keys-IsKey (insert x [] d) live (insert-IsKey d x [] h)

  add_keys-live :
      (d : ConflictMap) (live : List RegId) → elem r live ≡ true → IsKey (add_keys d live)
  unfolding add_keys elem
  add_keys-live d [] h = cc
  add_keys-live d (x ∷ live) h = elim (Bool-cases (r == x)) [
    | inl same ↦ add_keys-IsKey (insert x [] d) live (ground (arith, elem-keys-insert r x [] d))
    | inr other ↦ add_keys-live (insert x [] d) live (ground arith)
  ]

  all_keys-IsKey : (d : ConflictMap) (sets : List (List RegId)) → IsKey d → IsKey (all_keys d sets)
  unfolding all_keys
  all_keys-IsKey d [] h = h
  all_keys-IsKey d (live ∷ sets) h = all_keys-IsKey (add_keys d live) sets (add_keys-IsKey d live h)

  add_conflicts-IsKey :
      (live : List RegId) (d : ConflictMap) (rs : List RegId)
      → IsKey d
      → IsKey (add_conflicts live d rs)
  unfolding add_conflicts
  add_conflicts-IsKey live d [] h = h
  add_conflicts-IsKey live d (x ∷ rs) h =
      let v = update (conflicts_of d x) (others x live) in
      add_conflicts-IsKey live (insert x v d) rs (insert-IsKey d x v h)

  all_conflicts-IsKey :
      (d : ConflictMap) (sets : List (List RegId)) → IsKey d → IsKey (all_conflicts d sets)
  unfolding all_conflicts
  all_conflicts-IsKey d [] h = h
  all_conflicts-IsKey d (live ∷ sets) h =
      all_conflicts-IsKey (add_conflicts live d live) sets (add_conflicts-IsKey live d live h)

-- The register is in some set of the list.
unfoldable pub occurs : RegId → List (List RegId) → Bool
occurs r [] = false
occurs r (live ∷ sets) = elem r live || occurs r sets

all_keys-occurs :
    (r : RegId) (d : ConflictMap) (sets : List (List RegId))
    → occurs r sets ≡ true
    → IsKey r (all_keys d sets)
unfolding all_keys occurs
all_keys-occurs r d [] h = cc
all_keys-occurs r d (live ∷ sets) h = elim (Bool-cases (elem r live)) [
  | inl here ↦ all_keys-IsKey r (add_keys d live) sets (add_keys-live r d live here)
  | inr other ↦ all_keys-occurs r (add_keys d live) sets (ground arith)
]

-- Every register that is live at a safepoint is a key of the conflict map.
pub occurs-build_conflict_reg_ids :
    (r : RegId) (sets : List (List RegId))
    → occurs r sets ≡ true
    → elem r (keys (build_conflict_reg_ids sets)) ≡ true
unfolding build_conflict_reg_ids
occurs-build_conflict_reg_ids r sets h =
    all_conflicts-IsKey r (all_keys [] sets) sets (all_keys-occurs r [] sets h)
