-- ===== src/Backend/Optimizations/ConstantFold/Arrives.antt =====
-- What the iteration of constant folding knows at the start of a block is true whenever a run arrives
-- there: an invariant of its state.
use niflheim.Shared.{
  ℕ, zero, suc, ◌≡◌, refl, sym, ap, ◌∙◌, subst, true, false, Option, none, some, List, [], ◌∷◌, map,
  arith, nat_eq, elem, All, Bool-cases, inl, inr,
}
use niflheim.Shared.Dict.{lookup, keys}
use niflheim.Backend.Ir.Ids.{RegId, BlockId, block_id_eq, block_id_beq_iff}
use niflheim.Shared.Result.{ok, >>=-eq-ok, ok_unique}
use niflheim.Backend.Optimizations.DeadPure.{TypeNames}
use niflheim.Backend.Ir.Model.{Constant, Block, CallableDecl}
use niflheim.Backend.Semantics.{Registers, Machine, running, run}
use niflheim.Backend.Semantics.Callables.{find_block, All-find_block}
use niflheim.Backend.Analysis.Cfg.{BlockIndex, BlockMap, CallableCfg, targets_of}
use niflheim.Backend.Analysis.Cfg.Index.{lookup-eq-none}
use niflheim.Backend.Analysis.Cfg.WellFormed.{terminator_targets}
use niflheim.Backend.Analysis.Cfg.Accepts.{targets_of-block}
use niflheim.Backend.Analysis.Cfg.Predecessors.{targets_of-build_predecessor_map}
use niflheim.Backend.Analysis.Cfg.Whole.{Indexes}
use niflheim.Backend.Optimizations.ConstantFold.Arith.{FloatOps}
use niflheim.Backend.Optimizations.ConstantFold.Folding.{ConstantMap}
use niflheim.Backend.Optimizations.ConstantFold.Known.{Holds, Computes}
use niflheim.Backend.Optimizations.ConstantFold.Pass.{transfer_block_constants}
use niflheim.Backend.Optimizations.ConstantFold.Transfer.{
  transfer_block_constants-fold_instructions,
}
use niflheim.Backend.Optimizations.ConstantFold.Sound.{fold_instructions_sound}
use niflheim.Backend.Optimizations.ConstantFold.Merge.{
  EqualsAreSame, IsNonZero, intersect_constant_maps,
}
use niflheim.Backend.Optimizations.ConstantFold.Invariant.{
  AllKnown, KeepsKnown, transfer-AllKnown, intersect-AllKnown, intersect-Holds,
}
use niflheim.Backend.Optimizations.ConstantFold.Incoming.{
  round_limit, first_state, ConstantTable, read_round_types, ConstantState, constants_at, is_entry,
  incoming_constants, update_block, update_blocks, iterate, constants_of_cfg,
}
use niflheim.Backend.Optimizations.ConstantFold.Entries.{set_constants-keeps, constants_at-nothing}

-- How a run from the entry gets to the start of a block.
pub data Arrives {W : Type 0} (m : Machine W) (blocks : List Block) (entry : BlockId)
    (ρ₀ : Registers) (w₀ : W) : BlockId → Registers → W → Type 0 where
  starts : Arrives m blocks entry ρ₀ w₀ entry ρ₀ w₀
  jumps :
      (p t : BlockId) (b : Block) (ρ : Registers) (w : W) (ρ' : Registers) (w' : W)
      → Arrives m blocks entry ρ₀ w₀ p ρ w
      → find_block p blocks ≡ some b
      → run m b.instructions ρ w ≡ running ρ' w'
      → elem t (terminator_targets b.terminator) ≡ true
      → Arrives m blocks entry ρ₀ w₀ t ρ' w'

entry_has_none :
    (id entry : BlockId) (o : Option BlockId)
    → o ≡ some entry
    → is_entry id o ≡ false
    → (id ≡ entry)
    → ⊥
entry_has_none id entry (some e) named other same = ground (arith, block_id_beq_iff id e)
entry_has_none id entry none named other same = cc

indexed_key :
    (id : BlockId) (index : BlockIndex) (b : Block)
    → lookup id index ≡ some b
    → elem id (keys index) ≡ true
indexed_key id index b found = elim (Bool-cases (elem id (keys index))) [
  | inl listed ↦ listed
  | inr missing ↦ let e = lookup-eq-none id index missing in cc
]

module _ (f : FloatOps) {W : Type 0} (m : Machine W) (c : CallableDecl) (cfg : CallableCfg)
    (i : Indexes c cfg) (ρ₀ : Registers) (w₀ : W) (law : EqualsAreSame f)
    (P : RegId → Constant → Type 0) (nonzero : (r : RegId) (k : Constant) → P r k → IsNonZero f k)
    (computes : All (λ b. All (Computes f m) b.instructions) c.blocks)
    (keeps : All (λ b. All (KeepsKnown f P) b.instructions) c.blocks) where
  abbrev Here : BlockId → Registers → W → Type 0
  Here = Arrives m c.blocks i.entry ρ₀ w₀

  abbrev IsTrueAtStart : BlockId → ConstantMap → Type 0
  IsTrueAtStart id constants = (ρ : Registers) (w : W) → Here id ρ w → Holds ρ constants

  abbrev IsTrueAtEnd : BlockId → ConstantMap → Type 0
  IsTrueAtEnd id constants =
      (b : Block) (ρ : Registers) (w : W) (ρ' : Registers) (w' : W)
      → Here id ρ w
      → find_block id c.blocks ≡ some b
      → run m b.instructions ρ w ≡ running ρ' w'
      → Holds ρ' constants

  -- The invariant of the iteration.
  pub record IsRight (s : ConstantState) : Type 0 where
    pub at_start : (id : BlockId) → IsTrueAtStart id (constants_at s.in_by_block id)
    pub at_end : (id : BlockId) → IsTrueAtEnd id (constants_at s.out_by_block id)
    pub known : (id : BlockId) → AllKnown f P (constants_at s.out_by_block id)

  incoming-IsTrueAtStart :
      (s : ConstantState) (id : BlockId) (b : Block)
      → IsRight s
      → lookup id cfg.block_by_id ≡ some b
      → IsTrueAtStart id (incoming_constants f cfg s.out_by_block id)
  unfolding incoming_constants
  incoming-IsTrueAtStart s id b right found ρ w here =
      let named : cfg.callable_decl.entry_block_id ≡ some i.entry =
        ap (λ (x : CallableDecl). x.entry_block_id) i.same_callable ∙ i.named in
      elim (Bool-cases (is_entry id cfg.callable_decl.entry_block_id)) [
        | inl at_entry ↦ rw (at_entry, incoming_constants) tt
        | inr inside ↦
            rw (inside, incoming_constants)
              (joined id ρ w here
                (entry_has_none id i.entry cfg.callable_decl.entry_block_id named inside)
                (indexed_key id cfg.block_by_id b found))
      ]
    where
      joined :
          (id : BlockId) (ρ : Registers) (w : W)
          → Here id ρ w
          → (id ≡ i.entry → ⊥)
          → elem id (keys cfg.block_by_id) ≡ true
          → Holds ρ (
              intersect_constant_maps f
                (map (constants_at s.out_by_block) (targets_of cfg.predecessor_by_block id)))
      joined _ _ _ starts other listed = absurd (other refl)
      joined _ _ _ (jumps p t b ρ w ρ' w' before found ran leads) other listed =
          let edge : elem p (targets_of cfg.predecessor_by_block t) ≡ true =
            ap (λ (x : BlockMap). elem p (targets_of x t)) i.converse
            ∙ targets_of-build_predecessor_map cfg.successor_by_block cfg.block_by_id p t listed
            ∙ ap (elem t) (targets_of-block c.blocks cfg.successor_by_block i.edges p b found)
            ∙ leads in
          intersect-Holds f P (constants_at s.out_by_block) (targets_of cfg.predecessor_by_block t)
            p ρ' law nonzero right.known edge (right.at_end p b ρ w ρ' w' before found ran)

  incoming-AllKnown :
      (s : ConstantState) (id : BlockId)
      → IsRight s
      → AllKnown f P (incoming_constants f cfg s.out_by_block id)
  unfolding incoming_constants
  incoming-AllKnown s id right = elim (Bool-cases (is_entry id cfg.callable_decl.entry_block_id)) [
    | inl at_entry ↦ rw (at_entry, incoming_constants) tt
    | inr inside ↦
        rw (inside, incoming_constants)
          (intersect-AllKnown f P (constants_at s.out_by_block)
            (targets_of cfg.predecessor_by_block id) right.known)
  ]

  transfer-IsTrueAtEnd :
      (id : BlockId) (b : Block) (incoming : ConstantMap)
      → find_block id c.blocks ≡ some b
      → IsTrueAtStart id incoming
      → IsTrueAtEnd id (transfer_block_constants f b.instructions incoming)
  transfer-IsTrueAtEnd id b incoming found start b' ρ w ρ' w' here found' ran =
      let same : b' ≡ b = cc in
      let computes_here =
        All-find_block (λ x. All (Computes f m) x.instructions) id c.blocks b computes found in
      let ran' : run m b.instructions ρ w ≡ running ρ' w' =
        ap (λ (x : Block). run m x.instructions ρ w) (sym same) ∙ ran in
      let (same_run, held) =
        fold_instructions_sound f m b.instructions incoming ρ w computes_here (start ρ w here) in
      subst (Holds ρ') (sym (transfer_block_constants-fold_instructions f b.instructions incoming))
        (held ρ' w' ran')

  update_block-IsRight :
      (id : BlockId) (o : Option Block) (s : ConstantState)
      → lookup id cfg.block_by_id ≡ o
      → IsRight s
      → IsRight (update_block f cfg id o s).0
  unfolding update_block
  update_block-IsRight id none s e right = right
  update_block-IsRight id (some b) s e right =
      let found = sym (i.finds id) ∙ e in
      let incoming = incoming_constants f cfg s.out_by_block id in
      let outgoing = transfer_block_constants f b.instructions incoming in
      let start = incoming-IsTrueAtStart s id b right e in
      let keeps_here =
        All-find_block (λ x. All (KeepsKnown f P) x.instructions) id c.blocks b keeps found in
      record {
        at_start = λ k.
            set_constants-keeps f IsTrueAtStart id k incoming s.in_by_block start right.at_start;
        at_end = λ k.
            set_constants-keeps f IsTrueAtEnd id k outgoing s.out_by_block
              (transfer-IsTrueAtEnd id b incoming found start) right.at_end;
        known = λ k.
            set_constants-keeps f (λ j. AllKnown f P) id k outgoing s.out_by_block
              (transfer-AllKnown f P b.instructions incoming keeps_here
                (incoming-AllKnown s id right))
              right.known;
      }

  update_blocks-IsRight :
      (ids : List BlockId) (s : ConstantState) → IsRight s → IsRight (update_blocks f cfg ids s).0
  unfolding update_blocks
  update_blocks-IsRight [] s right = right
  update_blocks-IsRight (id ∷ ids) s right =
      update_blocks-IsRight ids _ (update_block-IsRight id (lookup id cfg.block_by_id) s refl right)

  iterate-IsRight :
      (types : TypeNames) (rounds : ℕ) (s last : ConstantState)
      → IsRight s
      → iterate f types cfg rounds s ≡ ok last
      → IsRight last
  unfolding iterate
  iterate-IsRight types zero s last right h = cc
  iterate-IsRight types (suc rounds) s last right h =
      let next = update_blocks-IsRight cfg.reverse_postorder_ids s right in
      let (_, _, rest) = >>=-eq-ok (read_round_types f types cfg cfg.reverse_postorder_ids s) _ h in
      elim (Bool-cases ((update_blocks f cfg cfg.reverse_postorder_ids s).1)) [
        | inl changed ↦ iterate-IsRight types rounds _ last next (rw changed at rest)
        | inr same ↦ subst IsRight (ok_unique _ _ last refl (rw same at rest)) next
      ]

  -- What is known at the start of a block is true where a run arrives.
  pub constants_of_cfg-IsTrueAtStart :
      (types : TypeNames) (table : ConstantTable) (id : BlockId) (ρ : Registers) (w : W)
      → constants_of_cfg f types cfg ≡ ok table
      → Here id ρ w
      → Holds ρ (constants_at table id)
  unfolding constants_of_cfg
  constants_of_cfg-IsTrueAtStart types table id ρ w h here =
      let none_known = constants_at-nothing (keys cfg.block_by_id) in
      let first : IsRight (first_state cfg) = record {
        at_start = λ k ρ w h. subst (Holds ρ) (sym (none_known k)) tt;
        at_end = λ k b ρ w ρ' w' h found ran. subst (Holds ρ') (sym (none_known k)) tt;
        known = λ k. subst (AllKnown f P) (sym (none_known k)) tt;
      } in
      let (last, ended, same) =
        >>=-eq-ok (iterate f types cfg (round_limit cfg) (first_state cfg)) _ h in
      let e : last.in_by_block ≡ table = ok_unique (ok last.in_by_block) _ table refl same in
      ap_Holds ρ id e
        ((iterate-IsRight types (round_limit cfg) _ last first ended).at_start id ρ w here)
    where
      ap_Holds :
          (ρ : Registers) (id : BlockId) {a b : ConstantTable}
          → a ≡ b
          → Holds ρ (constants_at a id)
          → Holds ρ (constants_at b id)
      ap_Holds ρ id e h = subst (λ t. Holds ρ (constants_at t id)) e h
