-- ===== src/Backend/Optimizations/ConstantFold/Entries.antt =====
-- The tables of constants that the iteration of constant folding keeps for the blocks.
use niflheim.Shared.Dict.{insert, lookup-insert}
use niflheim.Shared.{
  subst, ◌≡◌, false, refl, sym, List, [], ◌∷◌, map, ◌==◌, nat_eq, Bool-cases, inl, inr,
  if◌then◌else◌,
}
use niflheim.Shared.Dict.{lookup, insert, lookup-insert}
use niflheim.Backend.Ir.Ids.{BlockId, block_id_eq, block_id_beq_iff}
use niflheim.Backend.Optimizations.ConstantFold.Arith.{FloatOps}
use niflheim.Backend.Optimizations.ConstantFold.Folding.{ConstantMap}
use niflheim.Backend.Optimizations.ConstantFold.Incoming.{
  ConstantTable, constants_at, same_constants, set_constants,
}

pub constants_at-insert :
    (id k : BlockId) (constants : ConstantMap) (table : ConstantTable)
    → constants_at (insert id constants table) k
      ≡ (if k == id then constants else constants_at table k)
unfolding constants_at
constants_at-insert id k constants table = elim (Bool-cases (k == id)) [
  | inl same ↦ rw (lookup-insert k id constants table, constants_at, same)
  | inr other ↦ rw (lookup-insert k id constants table, constants_at, other)
]

-- What is true of all entries and of the new one stays true of all.
pub set_constants-keeps {ℓ} :
    (f : FloatOps) (P : BlockId → ConstantMap → Type ℓ) (id k : BlockId) (constants : ConstantMap)
    (table : ConstantTable)
    → P id constants
    → ((j : BlockId) → P j (constants_at table j))
    → P k (constants_at (set_constants f id constants table).0 k)
unfolding set_constants
set_constants-keeps f P id k constants table here h =
    elim (Bool-cases (same_constants f (constants_at table id) constants)) [
      | inl same ↦ rw (same, set_constants) (h k)
      | inr changed ↦
          rw (changed, set_constants, constants_at-insert id k constants table)
            (elim (Bool-cases (k == id)) [
              | inl mine ↦
                  rw mine (subst (λ j. P j constants) (sym ((block_id_beq_iff k id).0 mine)) here)
              | inr other ↦ rw other (h k)
            ])
    ]

pub set_constants-changed :
    (f : FloatOps) (id : BlockId) (constants : ConstantMap) (table : ConstantTable)
    → same_constants f (constants_at table id) constants ≡ false
    → (set_constants f id constants table).0 ≡ insert id constants table
unfolding set_constants
set_constants-changed f id constants table h = rw (h, set_constants) refl

pub constants_at-nothing :
    (ids : List BlockId) (k : BlockId) → constants_at (map (λ id. (id, [])) ids) k ≡ []
unfolding constants_at lookup
constants_at-nothing [] k = refl
constants_at-nothing (id ∷ ids) k = elim (Bool-cases (k == id)) [
  | inl same ↦ rw (same, constants_at, lookup)
  | inr other ↦ rw (other, constants_at, lookup) (constants_at-nothing ids k)
]
