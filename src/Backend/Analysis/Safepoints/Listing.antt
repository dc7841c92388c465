-- ===== src/Backend/Analysis/Safepoints/Listing.antt =====
-- `iter_callable_instructions` lists the instructions of every block, each once.
use niflheim.Shared.{
  ◌+◌, ◌≤◌, ◌≡◌, refl, sym, ap, ◌∙◌, subst, true, false, some, List, [], ◌∷◌, ◌++◌, map, arith,
  ◌==◌, elem, leb, beq_refl, Bool-cases, inl, inr,
}
use niflheim.Shared.Dict.{lookup}
use niflheim.Shared.Result.{ok, >>=-eq-ok, ok_unique}
use niflheim.Shared.Sorting.{insert_by, sorted_by}
use niflheim.Shared.Members.{IsIn, IsIn-left, IsIn-right, IsIn-sorted_by, of_sorted_by}
use niflheim.Shared.Count.{count, count-append, count-sorted_by, elem_of_count}
use niflheim.Backend.Ir.Ids.{BlockId, block_id_eq, block_id_beq_iff, InstId, inst_id_eq}
use niflheim.Backend.Ir.InstIds.{inst_id}
use niflheim.Backend.Ir.Model.{Instruction, Block, CallableDecl}
use niflheim.Backend.Semantics.Callables.{find_block}
use niflheim.Backend.Analysis.Cfg.{
  BlockIndex, block_sort_key, build_block_index, instruction_sort_key, iter_block_instructions,
}
use niflheim.Backend.Analysis.Cfg.Index.{
  block_ids, build_block_index-distinct, lookup-build_block_index,
}
use niflheim.Backend.Analysis.Liveness.Tables.{block_inst_ids, all_inst_ids}
use niflheim.Backend.Analysis.Safepoints.{iter_blocks, iter_callable_instructions}

IsIn-find_block :
    (id : BlockId) (bs : List Block) (b : Block) → find_block id bs ≡ some b → IsIn b bs
unfolding find_block
IsIn-find_block id [] b h = cc
IsIn-find_block id (x ∷ bs) b h = elim (Bool-cases (id == x.block_id)) [
  | inl here ↦ inl (sym (let e : x ≡ b = cc (rw here at h) in e))
  | inr other ↦ inr (IsIn-find_block id bs b (rw other at h))
]

elem_of_IsIn : (b : Block) (bs : List Block) → IsIn b bs → elem b.block_id (block_ids bs) ≡ true
unfolding elem
elem_of_IsIn b [] h = absurd h
elem_of_IsIn b (x ∷ bs) (inl e) =
    let same = ap (λ (y : Block). y.block_id) e in
    ground (arith, block_id_beq_iff b.block_id x.block_id, same)
elem_of_IsIn b (x ∷ bs) (inr h) = ground (arith, elem_of_IsIn b bs h)

-- A block is found under its own name.
found_itself :
    (b : Block) (bs : List Block)
    → ((k : BlockId) → count k (block_ids bs) ≤ 1)
    → IsIn b bs
    → find_block b.block_id bs ≡ some b
unfolding find_block count
found_itself b [] distinct h = absurd h
found_itself b (x ∷ bs) distinct (inl e) = rw e (rw (beq_refl x.block_id) refl)
found_itself b (x ∷ bs) distinct (inr h) =
    let other : (b.block_id == x.block_id) ≡ false =
      ground (
        arith,
        distinct b.block_id,
        elem_of_IsIn b bs h,
        elem_of_count b.block_id (block_ids bs),
      ) in
    rw other (found_itself b bs (λ k. omega (arith, distinct k)) h)

map_inst_id-append :
    (xs ys : List Instruction) → map inst_id (xs ++ ys) ≡ map inst_id xs ++ map inst_id ys
map_inst_id-append [] ys = refl
map_inst_id-append (x ∷ xs) ys = ap (λ (r : List InstId). inst_id x ∷ r) (map_inst_id-append xs ys)

module _ (index : BlockIndex) where
  -- Every block is found under its name.
  abbrev AllFound : List Block → Type 0
  AllFound bs = (b : Block) → IsIn b bs → lookup b.block_id index ≡ some b

  IsIn-iter_blocks :
      (i : Instruction) (b : Block) (bs : List Block)
      → AllFound bs
      → IsIn b bs
      → IsIn i b.instructions
      → IsIn i (iter_blocks index bs)
  unfolding iter_blocks iter_block_instructions
  IsIn-iter_blocks i b [] all h here = absurd h
  IsIn-iter_blocks i b (x ∷ bs) all (inl e) here =
      rw (all x (inl refl), iter_blocks)
        (IsIn-left i _ _ (
          IsIn-sorted_by instruction_sort_key i x.instructions
            (subst (λ (y : Block). IsIn i y.instructions) e here)))
  IsIn-iter_blocks i b (x ∷ bs) all (inr h) here =
      rw (all x (inl refl), iter_blocks)
        (IsIn-right i _ _ (IsIn-iter_blocks i b bs (λ y k. all y (inr k)) h here))

  count-iter_blocks :
      (k : InstId) (bs : List Block)
      → AllFound bs
      → count k (map inst_id (iter_blocks index bs)) ≡ count k (all_inst_ids bs)
  unfolding iter_blocks iter_block_instructions all_inst_ids count
  count-iter_blocks k [] all = refl
  count-iter_blocks k (b ∷ bs) all =
      let sorted = sorted_by instruction_sort_key b.instructions in
      rw (all b (inl refl), iter_blocks)
        (ap (count k) (map_inst_id-append sorted (iter_blocks index bs))
          ∙ omega (
            arith,
            count-append k (map inst_id sorted) (map inst_id (iter_blocks index bs)),
            count-append k (block_inst_ids b) (all_inst_ids bs),
            count-sorted_by inst_id instruction_sort_key k b.instructions,
            count-iter_blocks k bs (λ y h. all y (inr h)),
          ))

count-ids-insert_by :
    (k : InstId) (b : Block) (bs : List Block)
    → count k (all_inst_ids (insert_by block_sort_key b bs))
      ≡ count k (block_inst_ids b) + count k (all_inst_ids bs)
unfolding insert_by all_inst_ids
count-ids-insert_by k b [] = count-append k (block_inst_ids b) []
count-ids-insert_by k b (x ∷ bs) = elim (Bool-cases (leb (block_sort_key b) (block_sort_key x))) [
  | inl before ↦ rw before (count-append k (block_inst_ids b) (all_inst_ids (x ∷ bs)))
  | inr behind ↦ rw behind (
      omega (
        arith,
        count-append k (block_inst_ids x) (all_inst_ids bs),
        count-append k (block_inst_ids x) (all_inst_ids (insert_by block_sort_key b bs)),
        count-ids-insert_by k b bs,
      ))
]

count-ids-sorted_by :
    (k : InstId) (bs : List Block)
    → count k (all_inst_ids (sorted_by block_sort_key bs)) ≡ count k (all_inst_ids bs)
unfolding sorted_by all_inst_ids
count-ids-sorted_by k [] = refl
count-ids-sorted_by k (b ∷ bs) = omega (
  arith,
  count-ids-insert_by k b (sorted_by block_sort_key bs),
  count-ids-sorted_by k bs,
  count-append k (block_inst_ids b) (all_inst_ids bs),
)

module _ (c : CallableDecl) (is : List Instruction)
    (lists : iter_callable_instructions c ≡ ok is) where
  listed_by :
      (index : BlockIndex) × (build_block_index c ≡ ok index)
      × (iter_blocks index (sorted_by block_sort_key c.blocks) ≡ is)
  unfolding iter_callable_instructions
  listed_by =
      let (index, built, last) = >>=-eq-ok (build_block_index c) _ lists in
      (
        index,
        built,
        ok_unique (ok (iter_blocks index (sorted_by block_sort_key c.blocks))) _ is refl last,
      )

  all_found : AllFound listed_by.0 (sorted_by block_sort_key c.blocks)
  all_found b h =
      let (index, built, same) = listed_by in
      lookup-build_block_index c index built b.block_id
      ∙ found_itself b c.blocks (build_block_index-distinct c index built)
          (of_sorted_by block_sort_key b c.blocks h)

  -- The instructions of a block are in the list.
  pub IsIn-iter_callable_instructions :
      (id : BlockId) (b : Block) (i : Instruction)
      → find_block id c.blocks ≡ some b
      → IsIn i b.instructions
      → IsIn i is
  IsIn-iter_callable_instructions id b i found h = subst (IsIn i) listed_by.2 (
      IsIn-iter_blocks listed_by.0 i b (sorted_by block_sort_key c.blocks) all_found
        (IsIn-sorted_by block_sort_key b c.blocks (IsIn-find_block id c.blocks b found)) h)

  -- An identifier is in the list as often as in the blocks.
  pub count-iter_callable_instructions :
      (k : InstId) → count k (map inst_id is) ≡ count k (all_inst_ids c.blocks)
  count-iter_callable_instructions k =
      ap (λ (x : List Instruction). count k (map inst_id x)) (sym listed_by.2)
      ∙ count-iter_blocks listed_by.0 k (sorted_by block_sort_key c.blocks) all_found
      ∙ count-ids-sorted_by k c.blocks
