-- ===== src/Backend/Analysis/Liveness/Behind.antt =====
-- `instruction_live_after` of the result of `analyze_callable_liveness`.
use niflheim.Shared.{
  subst, ◌+◌, ◌≤◌, ◌≡◌, refl, sym, ap, ◌∙◌, true, false, some, List, [], ◌∷◌, ◌++◌, map, arith,
  ◌==◌, elem, beq_refl, Bool-cases, inl, inr,
}
use niflheim.Shared.Dict.{lookup}
use niflheim.Shared.DictOrder.{lookup-sorted_by}
use niflheim.Shared.Result.{ok}
use niflheim.Shared.Count.{count, count-append, elem-append, elem_of_count}
use niflheim.Backend.Ir.Ids.{
  InstId, inst_id_eq, RegId, reg_id_eq, BlockId, block_id_eq, block_id_beq_iff,
}
use niflheim.Backend.Ir.InstIds.{inst_id}
use niflheim.Backend.Ir.Model.{Instruction, Block, CallableDecl}
use niflheim.Backend.Semantics.Callables.{find_block}
use niflheim.Backend.Analysis.Cfg.{CallableCfg, index_callable_cfg}
use niflheim.Backend.Analysis.Cfg.Whole.{index_callable_cfg-Indexes}
use niflheim.Backend.Analysis.RegSet.{sorted_reg_tuple, elem-sorted_reg_tuple}
use niflheim.Backend.Analysis.Liveness.{transfer_terminator_live_set, block_live_in}
use niflheim.Backend.Analysis.Liveness.Fixpoint.{
  LiveSets, live_at, live_sets, InstLiveSets, instruction_liveness, live_after, inst_entry_sort_key,
  liveness_of_cfg,
}
use niflheim.Backend.Analysis.Liveness.Instructions.{instruction_liveness_lem}
use niflheim.Backend.Analysis.Liveness.Stable.{elem-sorted_live_sets, block_live_in-same}
use niflheim.Backend.Analysis.Liveness.Tables.{
  block_inst_ids, all_inst_ids, HasDistinctInstIds, add_instruction_liveness-HasDistinctKeys,
  makes_entry,
}

counted_here :
    (k : InstId) (x : BlockId) (bs : List Block) (b : Block)
    → find_block x bs ≡ some b
    → count k (block_inst_ids b) ≤ count k (all_inst_ids bs)
unfolding find_block all_inst_ids
counted_here k x [] b found = cc
counted_here k x (y ∷ bs) b found = elim (Bool-cases (x == y.block_id)) [
  | inl here ↦
      let same : y ≡ b = cc (rw here at found) in
      let here : count k (block_inst_ids y) ≡ count k (block_inst_ids b) =
        ap (λ (z : Block). count k (block_inst_ids z)) same in
      omega (arith, count-append k (block_inst_ids y) (all_inst_ids bs))
  | inr other ↦
      let rest = counted_here k x bs b (rw other at found) in
      omega (arith, count-append k (block_inst_ids y) (all_inst_ids bs))
]

count_self : (k : InstId) (ks : List InstId) → count k (k ∷ ks) ≡ 1 + count k ks
unfolding count
count_self k ks = ground (arith, beq_refl k)

map-append :
    (f : Instruction → InstId) (xs ys : List Instruction) → map f (xs ++ ys) ≡ map f xs ++ map f ys
map-append f [] ys = refl
map-append f (x ∷ xs) ys = ap (λ (r : List InstId). f x ∷ r) (map-append f xs ys)

-- Two blocks with the same instruction identifier have the same name.
only_block :
    (k : InstId) (x id : BlockId) (bs : List Block) (b b' : Block)
    → count k (all_inst_ids bs) ≤ 1
    → find_block x bs ≡ some b'
    → find_block id bs ≡ some b
    → elem k (block_inst_ids b') ≡ true
    → elem k (block_inst_ids b) ≡ true
    → x ≡ id
unfolding find_block all_inst_ids
only_block k x id [] b b' distinct there here e' e = cc
only_block k x id (y ∷ bs) b b' distinct there here e' e =
    let total = count-append k (block_inst_ids y) (all_inst_ids bs) in
    let c = elem_of_count k (block_inst_ids b) in
    let c' = elem_of_count k (block_inst_ids b') in
    elim (Bool-cases (x == y.block_id)) [
      | inl x_first ↦
          let same' : y ≡ b' = cc (rw x_first at there) in
          let n' : count k (block_inst_ids y) ≡ count k (block_inst_ids b') =
            ap (λ (z : Block). count k (block_inst_ids z)) same' in
          elim (Bool-cases (id == y.block_id)) [
            | inl id_first ↦
                (block_id_beq_iff x y.block_id).0 x_first
                ∙ sym ((block_id_beq_iff id y.block_id).0 id_first)
            | inr id_later ↦
                let more = counted_here k id bs b (rw id_later at here) in absurd (ground arith)
          ]
      | inr x_later ↦
          let more' = counted_here k x bs b' (rw x_later at there) in
          elim (Bool-cases (id == y.block_id)) [
            | inl id_first ↦
                let same : y ≡ b = cc (rw id_first at here) in
                let n : count k (block_inst_ids y) ≡ count k (block_inst_ids b) =
                  ap (λ (z : Block). count k (block_inst_ids z)) same in
                absurd (ground arith)
            | inr id_later ↦
                only_block k x id bs b b' (omega arith) (rw x_later at there) (rw id_later at here)
                  e' e
          ]
    ]

live_after_found :
    (table : InstLiveSets) (k : InstId) (live : List RegId)
    → lookup k table ≡ some live
    → live_after table k ≡ live
unfolding live_after
live_after_found table k live h = rw (h, live_after)

module _ (c : CallableDecl) (cfg : CallableCfg) (id : BlockId) (b : Block)
    (local : c.is_extern ≡ false) (indexed : index_callable_cfg c ≡ ok cfg)
    (listed : elem id cfg.reverse_postorder_ids ≡ true) (found : find_block id c.blocks ≡ some b)
    (distinct : HasDistinctInstIds c.blocks) where
  abbrev iterated : LiveSets
  iterated = (live_sets cfg.successor_by_block cfg.block_by_id cfg.reverse_postorder_ids).live_out

  looked_up :
      (before : List Instruction) (i : Instruction) (behind : List Instruction)
      → b.instructions ≡ before ++ i ∷ behind
      → lookup (inst_id i) (liveness_of_cfg cfg).live_after_instruction
        ≡ some (sorted_reg_tuple (block_live_in behind b.terminator (live_at iterated id)))
  unfolding liveness_of_cfg block_live_in elem count
  looked_up before i behind split =
      let k = inst_id i in
      let index = cfg.block_by_id in
      let finds = (index_callable_cfg-Indexes c local cfg indexed).finds in
      let here = finds id ∙ found in
      let ids : block_inst_ids b ≡ map inst_id (before ++ i ∷ behind) = ap (map inst_id) split in
      let ids' : block_inst_ids b ≡ map inst_id before ++ k ∷ map inst_id behind =
        ids ∙ map-append inst_id before (i ∷ behind) in
      let counted : count k (map inst_id before ++ k ∷ map inst_id behind) ≤ 1 =
        subst (λ (x : List InstId). count k x ≤ 1) ids'
          (omega (arith, distinct k, counted_here k id c.blocks b found)) in
      let new : elem k (map inst_id before) ≡ false = ground (
        arith,
        counted,
        count-append k (map inst_id before) (k ∷ map inst_id behind),
        count_self k (map inst_id behind),
        elem_of_count k (map inst_id before),
      ) in
      let mine : elem k (block_inst_ids b) ≡ true =
        ap (elem k) ids'
        ∙ elem-append k (map inst_id before) (k ∷ map inst_id behind)
        ∙ ground (arith, beq_refl k) in
      let live_end = transfer_terminator_live_set b.terminator (live_at iterated id) in
      let entry =
        ap (λ (x : List Instruction). lookup k (instruction_liveness x live_end).1) split
        ∙ (instruction_liveness_lem before i behind live_end new).1 in
      lookup-sorted_by inst_entry_sort_key k _ (
        add_instruction_liveness-HasDistinctKeys index iterated cfg.reverse_postorder_ids _
          (λ j. omega arith))
      ∙ makes_entry index iterated k _ id b here entry
          (λ x b' there e.
            only_block k x id c.blocks b b' (distinct k) (sym (finds x) ∙ there) found e mine)
          cfg.reverse_postorder_ids _ mine listed

  -- What is given as live behind an instruction of a block that can be reached is what is live in
  -- front of the instructions behind it, where all instructions have different identifiers.
  pub live_after-block_live_in :
      (before : List Instruction) (i : Instruction) (behind : List Instruction) (r : RegId)
      → b.instructions ≡ before ++ i ∷ behind
      → elem r (live_after (liveness_of_cfg cfg).live_after_instruction (inst_id i))
        ≡ elem r
            (block_live_in behind b.terminator (live_at (liveness_of_cfg cfg).live_out_by_block id))
  unfolding liveness_of_cfg
  live_after-block_live_in before i behind r split =
      ap (elem r) (live_after_found _ (inst_id i) _ (looked_up before i behind split))
      ∙ (elem-sorted_reg_tuple r (block_live_in behind b.terminator (live_at iterated id))
          ∙ block_live_in-same (record b { instructions = behind }) (live_at iterated id)
              (live_at (liveness_of_cfg cfg).live_out_by_block id)
              (λ x. sym (elem-sorted_live_sets cfg.reverse_postorder_ids iterated id x listed)) r)
