-- ===== src/Backend/Optimizations/ConstantFold/Rising.antt =====
-- One visit of a block makes no map of constants smaller, and a change makes one longer.
use niflheim.Shared.{
  ℕ, ◌+◌, ◌≤◌, ◌<◌, ◌≡◌, refl, ap, ◌∙◌, true, false, some, Bool-cases, List, [], ◌∷◌, map, arith,
  elem, ◌==◌, nat_eq, inl, inr, All, length, beq_refl,
}
use niflheim.Shared.Dict.{lookup, keys}
use niflheim.Shared.DictOrder.{HasDistinctKeys}
use niflheim.Shared.Count.{count}
use niflheim.Backend.Ir.Ids.{RegId, reg_id_eq, BlockId, block_id_eq, block_id_beq_iff}
use niflheim.Backend.Ir.Model.{Constant, Block}
use niflheim.Backend.Analysis.Cfg.{CallableCfg, targets_of}
use niflheim.Backend.Analysis.Liveness.Sound.{Within}
use niflheim.Backend.Optimizations.ConstantFold.Arith.{FloatOps}
use niflheim.Backend.Optimizations.ConstantFold.Folding.{ConstantMap}
use niflheim.Backend.Optimizations.ConstantFold.Pass.{transfer_block_constants}
use niflheim.Backend.Optimizations.ConstantFold.Merge.{intersect_constant_maps}
use niflheim.Backend.Optimizations.ConstantFold.Growth.{Extends}
use niflheim.Backend.Optimizations.ConstantFold.Joins.{
  IsNumber, longer, length-Extends, intersect-Extends, intersect-HasDistinctKeys,
}
use niflheim.Backend.Optimizations.ConstantFold.Invariant.{AllKnown, intersect-AllKnown}
use niflheim.Backend.Optimizations.ConstantFold.Entries.{
  set_constants-keeps, set_constants-changed, constants_at-insert,
}
use niflheim.Backend.Optimizations.ConstantFold.Incoming.{
  ConstantTable, ConstantState, constants_at, is_entry, same_constants, set_constants,
  incoming_constants, blocks_defs,
}
use niflheim.Backend.Optimizations.ConstantFold.Defined.{common-Within}

module _ (f : FloatOps) (P : RegId → Constant → Type 0) (cfg : CallableCfg) where
  abbrev pub all_defs : List RegId
  all_defs = blocks_defs cfg.block_by_id

  -- A map of constants as they come up in the iteration.
  pub record IsFit (a : ConstantMap) : Type 0 where
    pub distinct : HasDistinctKeys a
    pub known : AllKnown f P a
    pub within : Within (keys a) all_defs

  pub nothing-IsFit : IsFit []
  unfolding count elem
  nothing-IsFit = record { distinct = λ k. omega arith; known = tt; within = λ r e. cc }

  abbrev pub next_in : ConstantState → BlockId → ConstantMap
  next_in s id = incoming_constants f cfg s.out_by_block id

  abbrev pub next_out : ConstantState → BlockId → Block → ConstantMap
  next_out s id b = transfer_block_constants f b.instructions (next_in s id)

  -- No map is larger than the next round makes it.
  pub record IsRising (s : ConstantState) : Type 0 where
    pub ins_fit : (id : BlockId) → IsFit (constants_at s.in_by_block id)
    pub outs_fit : (id : BlockId) → IsFit (constants_at s.out_by_block id)
    pub ins :
        (id : BlockId) (b : Block)
        → lookup id cfg.block_by_id ≡ some b
        → Extends (constants_at s.in_by_block id) (next_in s id)
    pub outs :
        (id : BlockId) (b : Block)
        → lookup id cfg.block_by_id ≡ some b
        → Extends (constants_at s.out_by_block id) (next_out s id b)

  intersect-IsFit :
      (known : BlockId → ConstantMap) (ps : List BlockId)
      → ((p : BlockId) → IsFit (known p))
      → IsFit (intersect_constant_maps f (map known ps))
  unfolding intersect_constant_maps
  intersect-IsFit known [] h = nothing-IsFit
  intersect-IsFit known (p ∷ ps) h = record {
    distinct = intersect-HasDistinctKeys f known (p ∷ ps) (λ q. (h q).distinct);
    known = intersect-AllKnown f P known (p ∷ ps) (λ q. (h q).known);
    within = common-Within f (known p) (map known ps) all_defs (h p).within;
  }

  pub next_in-IsFit : (s : ConstantState) (id : BlockId) → IsRising s → IsFit (next_in s id)
  unfolding incoming_constants
  next_in-IsFit s id up = elim (Bool-cases (is_entry id cfg.callable_decl.entry_block_id)) [
    | inl at_entry ↦ rw (at_entry, incoming_constants) nothing-IsFit
    | inr inside ↦
        rw (inside, incoming_constants)
          (intersect-IsFit (constants_at s.out_by_block) (targets_of cfg.predecessor_by_block id)
            up.outs_fit)
  ]

  -- Larger constants at the ends of the blocks give larger ones at the starts.
  pub next_in-Extends :
      (s t : ConstantState) (id : BlockId)
      → IsRising s
      → ((k : BlockId) → Extends (constants_at s.out_by_block k) (constants_at t.out_by_block k))
      → Extends (next_in s id) (next_in t id)
  unfolding incoming_constants
  next_in-Extends s t id up h = elim (Bool-cases (is_entry id cfg.callable_decl.entry_block_id)) [
    | inl at_entry ↦ rw (at_entry, incoming_constants) (λ r c e. e)
    | inr inside ↦
        rw (inside, incoming_constants)
          (intersect-Extends f (constants_at s.out_by_block) (constants_at t.out_by_block)
            (targets_of cfg.predecessor_by_block id) (λ p. (up.outs_fit p).distinct) h)
  ]

  -- The lengths of the maps of some blocks.
  abbrev pub lengths : ConstantTable → List BlockId → ℕ
  lengths table [] = 0
  lengths table (id ∷ ids) = length (constants_at table id) + lengths table ids

  lengths_rise :
      (a b : ConstantTable) (ids : List BlockId)
      → ((k : BlockId) → length (constants_at a k) ≤ length (constants_at b k))
      → lengths a ids ≤ lengths b ids
  lengths_rise a b [] h = omega arith
  lengths_rise a b (id ∷ ids) h = omega (arith, h id, lengths_rise a b ids h)

  lengths_strict :
      (a b : ConstantTable) (ids : List BlockId) (id : BlockId)
      → ((k : BlockId) → length (constants_at a k) ≤ length (constants_at b k))
      → elem id ids ≡ true
      → length (constants_at a id) < length (constants_at b id)
      → lengths a ids < lengths b ids
  unfolding elem
  lengths_strict a b [] id h e less = cc
  lengths_strict a b (k ∷ ids) id h e less = elim (Bool-cases (id == k)) [
    | inl same ↦
        let here : length (constants_at a k) < length (constants_at b k) =
          rw ((block_id_beq_iff id k).0 same) at less in
        omega (arith, lengths_rise a b ids h)
    | inr other ↦ omega (arith, h k, lengths_strict a b ids id h (rw other at e) less)
  ]

  -- What becomes of a table whose maps are fit when the map of a listed block is set to a larger one.
  module _ (numbers : (r : RegId) (c : Constant) → P r c → IsNumber f c) (order : List BlockId)
      (id : BlockId) (listed : elem id order ≡ true) (next : ConstantMap) (table : ConstantTable)
      (fit : (k : BlockId) → IsFit (constants_at table k))
      (larger : Extends (constants_at table id) next) where
    abbrev set : ConstantTable
    set = (set_constants f id next table).0

    numbers_of : (a : ConstantMap) → AllKnown f P a → All (λ e. IsNumber f e.1) a
    numbers_of [] h = tt
    numbers_of ((r, c) ∷ a) h = (numbers r c h.0, numbers_of a h.1)

    pub set-Extends : (k : BlockId) → Extends (constants_at table k) (constants_at set k)
    set-Extends k =
        set_constants-keeps f (λ j. Extends (constants_at table j)) id k next table larger
          (λ j r c e. e)

    pub set_rises : lengths table order ≤ lengths set order
    set_rises = lengths_rise table set order (λ k.
        length-Extends (constants_at table k) (constants_at set k) (fit k).distinct (set-Extends k))

    pub set_strict :
        (set_constants f id next table).1 ≡ true → lengths table order < lengths set order
    unfolding set_constants
    set_strict h =
        let changed : same_constants f (constants_at table id) next ≡ false = ground arith in
        let more =
          longer f (constants_at table id) next (numbers_of _ (fit id).known) (fit id).distinct
            larger changed in
        let stored : constants_at set id ≡ next =
          ap (λ (x : ConstantTable). constants_at x id)
            (set_constants-changed f id next table changed)
          ∙ constants_at-insert id id next table
          ∙ rw (beq_refl id) refl in
        lengths_strict table set order id
          (λ k.
            length-Extends (constants_at table k) (constants_at set k) (fit k).distinct
              (set-Extends k))
          listed (omega (arith, more, ap (λ (a : ConstantMap). length a) stored))
