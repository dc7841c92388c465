-- ===== src/Backend/Optimizations/ConstantFold/Invariant.antt =====
-- An invariant of the constants that are known: `_intersect_constant_maps` keeps it, and
-- `_transfer_block_constants` does if the instructions do.
use niflheim.Shared.{
  subst, ◌≡◌, sym, ap, true, Bool-cases, Option, none, some, List, [], ◌∷◌, map, arith, All, elem,
  ◌==◌, get_elem?, ℕ, zero, suc, inl, inr,
}
use niflheim.Shared.Dict.{insert, erase}
use niflheim.Backend.Ir.Ids.{
  reg_id_beq_iff, RegId, reg_id_eq, BlockId, block_id_eq, block_id_beq_iff,
}
use niflheim.Backend.Ir.Model.{Constant, Instruction}
use niflheim.Backend.Semantics.{Registers}
use niflheim.Backend.Semantics.Operands.{instruction_def_reg}
use niflheim.Backend.Optimizations.ConstantFold.Arith.{FloatOps}
use niflheim.Backend.Optimizations.ConstantFold.Folding.{ConstantMap, folded_constant}
use niflheim.Backend.Optimizations.ConstantFold.Known.{Holds}
use niflheim.Backend.Optimizations.ConstantFold.Pass.{
  forget_definition, transfer_constant, transfer_block_constants,
}
use niflheim.Backend.Optimizations.ConstantFold.Merge.{
  known_in_all, common_constants, intersect_constant_maps, IsNonZero, EqualsAreSame,
  intersect_constant_maps-Holds,
}

module _ (f : FloatOps) (P : RegId → Constant → Type 0) where
  abbrev pub AllKnown : ConstantMap → Type 0
  AllKnown = All (λ b. P b.0 b.1)

  -- What the analysis adds at the instruction satisfies the invariant, where what it knows does.
  abbrev pub KeepsKnown : Instruction → Type 0
  KeepsKnown i =
      (known : ConstantMap)
      → AllKnown known
      → AllKnown (transfer_constant f i (folded_constant f i known) known)

  pub insert-AllKnown :
      (r : RegId) (c : Constant) (known : ConstantMap)
      → P r c
      → AllKnown known
      → AllKnown (insert r c known)
  unfolding insert
  insert-AllKnown r c [] here h = (here, tt)
  insert-AllKnown r c ((j, d) ∷ known) here h = elim (Bool-cases (r == j)) [
    | inl same ↦ rw same (subst (λ k. P k c) ((reg_id_beq_iff r j).0 same) here, h.1)
    | inr other ↦ rw other (h.0, insert-AllKnown r c known here h.1)
  ]

  forget-AllKnown :
      (d : Option RegId) (known : ConstantMap)
      → AllKnown known
      → AllKnown (forget_definition d known)
  unfolding forget_definition erase
  forget-AllKnown none known h = h
  forget-AllKnown (some d) [] h = tt
  forget-AllKnown (some d) ((r, c) ∷ known) h =
      let rest = forget-AllKnown (some d) known h.1 in
      elim (Bool-cases (d == r)) [ inl same ↦ rw same rest | inr other ↦ rw other (h.0, rest) ]

  pub transfer-AllKnown :
      (is : List Instruction) (known : ConstantMap)
      → All KeepsKnown is
      → AllKnown known
      → AllKnown (transfer_block_constants f is known)
  unfolding transfer_block_constants
  transfer-AllKnown [] known keeps h = h
  transfer-AllKnown (i ∷ is) known keeps h =
      transfer-AllKnown is _ keeps.1 (keeps.0 _ (forget-AllKnown (instruction_def_reg i) known h))

  common-AllKnown :
      (m : ConstantMap) (ms : List ConstantMap) → AllKnown m → AllKnown (common_constants f m ms)
  unfolding common_constants
  common-AllKnown [] ms h = tt
  common-AllKnown ((r, c) ∷ m) ms h = elim (Bool-cases (known_in_all f r c ms)) [
    | inl kept ↦ rw (kept, common_constants) (h.0, common-AllKnown m ms h.1)
    | inr dropped ↦ rw (dropped, common_constants) (common-AllKnown m ms h.1)
  ]

  pub intersect-AllKnown :
      (known : BlockId → ConstantMap) (ps : List BlockId)
      → ((p : BlockId) → AllKnown (known p))
      → AllKnown (intersect_constant_maps f (map known ps))
  unfolding intersect_constant_maps
  intersect-AllKnown known [] h = tt
  intersect-AllKnown known (p ∷ ps) h = common-AllKnown (known p) (map known ps) (h p)

  position :
      (known : BlockId → ConstantMap) (ps : List BlockId) (p : BlockId)
      → elem p ps ≡ true
      → (k : ℕ) × (get_elem? (map known ps) k ≡ some (known p))
  unfolding elem
  position known [] p h = cc
  position known (q ∷ ps) p h = elim (Bool-cases (p == q)) [
    | inl same ↦ (zero, ap (λ (x : BlockId). some (known x)) (sym ((block_id_beq_iff p q).0 same)))
    | inr other ↦ let (k, found) = position known ps p (ground (arith, h)) in (suc k, found)
  ]

  All-IsNonZero :
      ((r : RegId) (c : Constant) → P r c → IsNonZero f c)
      → (m : ConstantMap) → AllKnown m
      → All (λ b. IsNonZero f b.1) m
  All-IsNonZero nonzero [] h = tt
  All-IsNonZero nonzero ((r, c) ∷ m) h = (nonzero r c h.0, All-IsNonZero nonzero m h.1)

  -- The constants of one predecessor are enough for the registers to hold those of all.
  pub intersect-Holds :
      (known : BlockId → ConstantMap) (ps : List BlockId) (p : BlockId) (ρ : Registers)
      → EqualsAreSame f
      → ((r : RegId) (c : Constant) → P r c → IsNonZero f c)
      → ((q : BlockId) → AllKnown (known q))
      → elem p ps ≡ true
      → Holds ρ (known p)
      → Holds ρ (intersect_constant_maps f (map known ps))
  unfolding elem
  intersect-Holds known [] p ρ law nonzero all e h = cc
  intersect-Holds known (q ∷ ps) p ρ law nonzero all e h =
      let (k, found) = position known (q ∷ ps) p e in
      intersect_constant_maps-Holds f (known q) (map known ps) k (known p) ρ law
        (All-IsNonZero nonzero (known q) (all q)) found h
