-- ===== src/Backend/Analysis/Liveness/Tables.antt =====
-- The table of live sets behind instructions, which `analyze_callable_liveness` joins from its blocks.
use niflheim.Shared.{
  subst, ◌≤◌, ◌≡◌, refl, sym, ap, ◌∙◌, true, false, none, some, List, [], ◌∷◌, ◌++◌, map, arith,
  ◌==◌, elem, Bool-cases, Option-cases, inl, inr,
}
use niflheim.Shared.Dict.{lookup, insert, keys, lookup-insert, elem-keys-insert}
use niflheim.Shared.DictOrder.{HasDistinctKeys, insert-HasDistinctKeys}
use niflheim.Shared.Count.{count, elem_of_count}
use niflheim.Backend.Ir.Ids.{InstId, inst_id_eq, RegId, BlockId, block_id_eq, block_id_beq_iff}
use niflheim.Backend.Ir.InstIds.{inst_id}
use niflheim.Backend.Ir.Model.{Instruction, Block}
use niflheim.Backend.Analysis.Cfg.{BlockIndex}
use niflheim.Backend.Analysis.RegSet.{RegSet, sorted_reg_tuple}
use niflheim.Backend.Analysis.Liveness.{transfer_terminator_live_set}
use niflheim.Backend.Analysis.Liveness.Fixpoint.{
  LiveSets, live_at, InstLiveSets, instruction_liveness, update_dict, add_instruction_liveness,
}

abbrev pub block_inst_ids : Block → List InstId
block_inst_ids b = map inst_id b.instructions

unfoldable pub all_inst_ids : List Block → List InstId
all_inst_ids [] = []
all_inst_ids (b ∷ bs) = block_inst_ids b ++ all_inst_ids bs

-- No two instructions of the blocks have the same identifier.
abbrev pub HasDistinctInstIds : List Block → Type 0
HasDistinctInstIds bs = (k : InstId) → count k (all_inst_ids bs) ≤ 1

update_dict-other :
    (k : InstId) (d e : InstLiveSets)
    → elem k (keys e) ≡ false
    → lookup k (update_dict d e) ≡ lookup k d
unfolding update_dict elem
update_dict-other k d [] h = refl
update_dict-other k d ((j, v) ∷ e) h =
    update_dict-other k (insert j v d) e (ground (arith, h))
    ∙ lookup-insert k j v d
    ∙ ground (arith, h)

update_dict-found :
    (k : InstId) (v : List RegId) (d e : InstLiveSets)
    → HasDistinctKeys e
    → lookup k e ≡ some v
    → lookup k (update_dict d e) ≡ some v
unfolding update_dict lookup count
update_dict-found k v d [] distinct h = cc
update_dict-found k v d ((j, w) ∷ e) distinct h = elim (Bool-cases (k == j)) [
  | inl same ↦
      let other : elem k (keys e) ≡ false = ground (arith, distinct k, elem_of_count k (keys e)) in
      update_dict-other k (insert j w d) e other ∙ lookup-insert k j w d ∙ ground (arith, h)
  | inr other ↦
      update_dict-found k v (insert j w d) e (λ i. omega (arith, distinct i)) (ground (arith, h))
]

update_dict-HasDistinctKeys :
    (d e : InstLiveSets) → HasDistinctKeys d → HasDistinctKeys (update_dict d e)
unfolding update_dict
update_dict-HasDistinctKeys d [] h = h
update_dict-HasDistinctKeys d ((j, v) ∷ e) h =
    update_dict-HasDistinctKeys (insert j v d) e (insert-HasDistinctKeys j v d h)

abbrev after_here : List Instruction → RegSet → InstLiveSets
after_here is live_end = (instruction_liveness is live_end).1

after_here-HasDistinctKeys :
    (is : List Instruction) (live_end : RegSet) → HasDistinctKeys (after_here is live_end)
unfolding instruction_liveness count
after_here-HasDistinctKeys [] live_end k = omega arith
after_here-HasDistinctKeys (i ∷ is) live_end k =
    insert-HasDistinctKeys (inst_id i) _ (after_here is live_end)
      (after_here-HasDistinctKeys is live_end) k

elem-after_here :
    (k : InstId) (is : List Instruction) (live_end : RegSet)
    → elem k (keys (after_here is live_end)) ≡ elem k (map inst_id is)
unfolding instruction_liveness elem
elem-after_here k [] live_end = refl
elem-after_here k (i ∷ is) live_end =
    elem-keys-insert k (inst_id i) _ (after_here is live_end)
    ∙ ground (arith, elem-after_here k is live_end)

abbrev Tables : Type 0
Tables = InstLiveSets × InstLiveSets × LiveSets

module _ (index : BlockIndex) (live_out : LiveSets) where
  abbrev behind_block : BlockId → Block → InstLiveSets
  behind_block id b =
      after_here b.instructions (transfer_terminator_live_set b.terminator (live_at live_out id))

  abbrev after_all : List BlockId → Tables → InstLiveSets
  after_all ids tables = (add_instruction_liveness index live_out ids tables).1

  after_all-missing :
      (x : BlockId) (ids : List BlockId) (tables : Tables)
      → lookup x index ≡ none
      → after_all (x ∷ ids) tables ≡ after_all ids tables
  unfolding add_instruction_liveness
  after_all-missing x ids (before, after, terminators) missing = rw (missing, after_all)

  after_all-found :
      (x : BlockId) (ids : List BlockId) (tables : Tables) (b : Block)
      → lookup x index ≡ some b
      → (next : Tables) × (next.1 ≡ update_dict tables.1 (behind_block x b))
        × (after_all (x ∷ ids) tables ≡ after_all ids next)
  unfolding add_instruction_liveness
  after_all-found x ids (before, after, terminators) b found =
      let live_end = transfer_terminator_live_set b.terminator (live_at live_out x) in
      let tables = instruction_liveness b.instructions live_end in
      let next : Tables = (
        update_dict before tables.0,
        update_dict after tables.1,
        insert x (sorted_reg_tuple tables.2) terminators,
      ) in
      (next, refl, rw (found, after_all))

  pub add_instruction_liveness-HasDistinctKeys :
      (ids : List BlockId) (tables : Tables)
      → HasDistinctKeys tables.1
      → HasDistinctKeys (after_all ids tables)
  unfolding add_instruction_liveness
  add_instruction_liveness-HasDistinctKeys [] tables h = h
  add_instruction_liveness-HasDistinctKeys (x ∷ ids) tables h =
      elim (Option-cases (lookup x index)) [
        | inl missing ↦
            subst HasDistinctKeys (sym (after_all-missing x ids tables missing))
              (add_instruction_liveness-HasDistinctKeys ids tables h)
        | inr (b, found) ↦
            let (next, made, goes_on) = after_all-found x ids tables b found in
            subst HasDistinctKeys (sym goes_on) (
              add_instruction_liveness-HasDistinctKeys ids next (
                subst HasDistinctKeys (sym made)
                  (update_dict-HasDistinctKeys tables.1 (behind_block x b) h)))
      ]

  module _ (k : InstId) (v : List RegId) (id : BlockId) (b : Block)
      (found : lookup id index ≡ some b) (here : lookup k (behind_block id b) ≡ some v)
      (only : (x : BlockId) (b' : Block)
        → lookup x index ≡ some b'
        → elem k (block_inst_ids b') ≡ true
        → x ≡ id) where
    entry_of_update :
        (x : BlockId) (b' : Block) (d : InstLiveSets)
        → lookup x index ≡ some b'
        → elem k (block_inst_ids b') ≡ true
        → lookup k (update_dict d (behind_block x b')) ≡ some v
    entry_of_update x b' d there mine =
        let same : x ≡ id = only x b' there mine in
        let found_there : lookup x index ≡ some b =
          ap (λ (y : BlockId). lookup y index) same ∙ found in
        let same_block : b' ≡ b = cc in
        update_dict-found k v d (behind_block x b') (after_here-HasDistinctKeys b'.instructions _) (
          ap (λ (y : BlockId). lookup k (behind_block y b')) same
          ∙ ap (λ (y : Block). lookup k (behind_block id y)) same_block
          ∙ here)

    -- An entry that the block of its instruction has made stays.
    keeps_entry :
        (ids : List BlockId) (tables : Tables)
        → lookup k tables.1 ≡ some v
        → lookup k (after_all ids tables) ≡ some v
    unfolding add_instruction_liveness
    keeps_entry [] tables h = h
    keeps_entry (x ∷ ids) tables h = elim (Option-cases (lookup x index)) [
      | inl missing ↦
          ap (lookup k) (after_all-missing x ids tables missing) ∙ keeps_entry ids tables h
      | inr (b', there) ↦
          let (next, made, goes_on) = after_all-found x ids tables b' there in
          ap (lookup k) goes_on
          ∙ keeps_entry ids next (
              ap (lookup k) made ∙ (elim (Bool-cases (elem k (block_inst_ids b'))) [
                | inl mine ↦ entry_of_update x b' tables.1 there mine
                | inr foreign ↦
                    update_dict-other k tables.1 (behind_block x b')
                      (elem-after_here k b'.instructions _ ∙ foreign)
                    ∙ h
              ]))
    ]

    pub makes_entry :
        (ids : List BlockId) (tables : Tables)
        → elem k (block_inst_ids b) ≡ true
        → elem id ids ≡ true
        → lookup k (after_all ids tables) ≡ some v
    unfolding elem
    makes_entry [] tables mine listed = cc
    makes_entry (x ∷ ids) tables mine listed = elim (Bool-cases (id == x)) [
      | inl first ↦
          let same : id ≡ x = (block_id_beq_iff id x).0 first in
          let there : lookup x index ≡ some b =
            ap (λ (y : BlockId). lookup y index) (sym same) ∙ found in
          let (next, made, goes_on) = after_all-found x ids tables b there in
          ap (lookup k) goes_on
          ∙ keeps_entry ids next (ap (lookup k) made ∙ entry_of_update x b tables.1 there mine)
      | inr later ↦ elim (Option-cases (lookup x index)) [
        | inl missing ↦
            ap (lookup k) (after_all-missing x ids tables missing)
            ∙ makes_entry ids tables mine (ground (arith, listed))
        | inr (b', there) ↦
            let (next, made, goes_on) = after_all-found x ids tables b' there in
            ap (lookup k) goes_on ∙ makes_entry ids next mine (ground (arith, listed))
      ]
    ]
