-- ===== src/Backend/Analysis/Cfg/Index.antt =====
-- What `build_block_index` accepts, and what its index holds.
use niflheim.Shared.{
  ℕ, ◌+◌, ◌≤◌, ◌≡◌, refl, sym, ap, ◌∙◌, true, false, not, Option, none, some, List, [], ◌∷◌,
  beq_refl, map, arith, ◌==◌, elem, if◌then◌else◌, leb, All, Bool-cases, inl, inr, not-eq_true,
}
use niflheim.Shared.Dict.{lookup, insert, keys, lookup-insert}
use niflheim.Shared.DictOrder.{count-keys-insert}
use niflheim.Shared.Result.{ok, guard, >>=-eq-ok, guard-eq-ok}
use niflheim.Shared.Sorting.{insert_by, sorted_by, All-sorted_by, All-of_sorted_by}
use niflheim.Shared.Count.{count, indicator, elem_of_count, count-sorted_by}
use niflheim.Symbols.{CallableId, callable_id_eq, callable_id_beq_iff}
use niflheim.Backend.Ir.Ids.{BlockId, block_id_eq, block_id_beq_iff}
use niflheim.Backend.Ir.Model.{Block, CallableDecl}
use niflheim.Backend.Semantics.Callables.{find_block}
use niflheim.Backend.Analysis.Cfg.{BlockIndex, block_sort_key, index_blocks, build_block_index}

abbrev pub block_ids : List Block → List BlockId
block_ids = map (λ b. b.block_id)

abbrev pub Owned : CallableId → Block → Type 0
Owned owner b = b.block_id.owner_id ≡ owner

pub lookup-eq-none :
    (k : BlockId) (index : BlockIndex) → elem k (keys index) ≡ false → lookup k index ≡ none
unfolding lookup elem
lookup-eq-none k [] h = refl
lookup-eq-none k ((j, v) ∷ index) h = ground (arith, lookup-eq-none k index)

abbrev or_else {ℓ} : {A : Type ℓ} → Option A → Option A → Option A
or_else (some a) o = some a
or_else none o = o

or_else-none {ℓ} : {A : Type ℓ} (o : Option A) → o ≡ or_else o none
or_else-none none = refl
or_else-none (some a) = refl

module _ (owner : CallableId) where
  index_blocks_nil :
      (index index' : BlockIndex) → index_blocks owner index [] ≡ ok index' → index' ≡ index
  unfolding index_blocks
  index_blocks_nil index index' h = cc

  index_blocks_step :
      (index index' : BlockIndex) (b : Block) (bs : List Block)
      → index_blocks owner index (b ∷ bs) ≡ ok index'
      → Owned owner b
        × (elem b.block_id (keys index) ≡ false)
        × (index_blocks owner (insert b.block_id b index) bs ≡ ok index')
  unfolding index_blocks
  index_blocks_step index index' b bs h =
      let (_, owned, rest) = >>=-eq-ok (guard (b.block_id.owner_id == owner) _) _ h in
      let (_, fresh, left) = >>=-eq-ok (guard (not (elem b.block_id (keys index))) _) _ rest in
      (
        (callable_id_beq_iff b.block_id.owner_id owner).0 (guard-eq-ok _ _ owned),
        not-eq_true _ (guard-eq-ok _ _ fresh),
        left,
      )

  index_blocks-Owned :
      (index index' : BlockIndex) (bs : List Block)
      → index_blocks owner index bs ≡ ok index'
      → All (Owned owner) bs
  index_blocks-Owned index index' [] h = tt
  index_blocks-Owned index index' (b ∷ bs) h =
      let (owned, fresh, rest) = index_blocks_step index index' b bs h in
      (owned, index_blocks-Owned (insert b.block_id b index) index' bs rest)

  -- Each block adds its key.
  index_blocks-keys :
      (index index' : BlockIndex) (bs : List Block) (id : BlockId)
      → index_blocks owner index bs ≡ ok index'
      → count id (keys index') ≡ count id (keys index) + count id (block_ids bs)
  unfolding count
  index_blocks-keys index index' [] id h =
      omega (arith, ap (λ (x : BlockIndex). count id (keys x)) (index_blocks_nil index index' h))
  index_blocks-keys index index' (b ∷ bs) id h =
      let (owned, fresh, rest) = index_blocks_step index index' b bs h in
      let grown : count id (keys (insert b.block_id b index))
          ≡ count id (keys index) + indicator (id == b.block_id) =
        count-keys-insert id b.block_id b index ∙ (rw fresh) in
      omega (arith, index_blocks-keys (insert b.block_id b index) index' bs id rest)

  index_blocks-distinct :
      (index index' : BlockIndex) (bs : List Block) (id : BlockId)
      → index_blocks owner index bs ≡ ok index'
      → count id (keys index) ≤ 1
      → count id (keys index') ≤ 1
  index_blocks-distinct index index' [] id h distinct =
      omega (arith, ap (λ (x : BlockIndex). count id (keys x)) (index_blocks_nil index index' h))
  index_blocks-distinct index index' (b ∷ bs) id h distinct =
      let (owned, fresh, rest) = index_blocks_step index index' b bs h in
      index_blocks-distinct (insert b.block_id b index) index' bs id rest (
        ground (
          arith,
          fresh,
          block_id_beq_iff id b.block_id,
          count-keys-insert id b.block_id b index,
          elem_of_count b.block_id (keys index),
        ))

  index_blocks-lookup :
      (index index' : BlockIndex) (bs : List Block) (id : BlockId)
      → index_blocks owner index bs ≡ ok index'
      → lookup id index' ≡ or_else (lookup id index) (find_block id bs)
  unfolding find_block
  index_blocks-lookup index index' [] id h =
      ap (lookup id) (index_blocks_nil index index' h) ∙ or_else-none (lookup id index)
  index_blocks-lookup index index' (b ∷ bs) id h =
      let (owned, fresh, rest) = index_blocks_step index index' b bs h in
      ground (
        arith,
        fresh,
        block_id_beq_iff id b.block_id,
        lookup-eq-none b.block_id index fresh,
        lookup-insert id b.block_id b index,
        index_blocks-lookup (insert b.block_id b index) index' bs id rest,
      )

  index_blocks_accepts :
      (index : BlockIndex) (bs : List Block)
      → All (Owned owner) bs
      → ((id : BlockId) → count id (keys index) + count id (block_ids bs) ≤ 1)
      → (index' : BlockIndex) × (index_blocks owner index bs ≡ ok index')
  unfolding index_blocks count
  index_blocks_accepts index [] owned distinct = (index, refl)
  index_blocks_accepts index (b ∷ bs) owned distinct =
      let fresh : elem b.block_id (keys index) ≡ false =
        ground (
          arith,
          distinct b.block_id,
          beq_refl b.block_id,
          elem_of_count b.block_id (keys index),
        ) in
      rw ((callable_id_beq_iff b.block_id.owner_id owner).1 owned.0) (
        rw fresh (
          index_blocks_accepts (insert b.block_id b index) bs owned.1
            (λ id. ground (arith, fresh, distinct id, count-keys-insert id b.block_id b index))))

find_block-insert_by :
    (id : BlockId) (b : Block) (bs : List Block)
    → count b.block_id (block_ids bs) ≡ 0
    → find_block id (insert_by block_sort_key b bs)
      ≡ (if id == b.block_id then some b else find_block id bs)
unfolding find_block insert_by count
find_block-insert_by id b [] fresh = refl
find_block-insert_by id b (y ∷ ys) fresh =
    elim (Bool-cases (leb (block_sort_key b) (block_sort_key y))) [
      | inl before ↦ rw before
      | inr behind ↦ rw behind (
          ground (
            arith,
            block_id_beq_iff id b.block_id,
            block_id_beq_iff id y.block_id,
            block_id_beq_iff b.block_id y.block_id,
            find_block-insert_by id b ys,
          ))
    ]

-- Sorting blocks with different names does not change which block a name finds.
pub find_block-sorted_by :
    (id : BlockId) (bs : List Block)
    → ((k : BlockId) → count k (block_ids bs) ≤ 1)
    → find_block id (sorted_by block_sort_key bs) ≡ find_block id bs
unfolding find_block sorted_by count
find_block-sorted_by id [] distinct = refl
find_block-sorted_by id (b ∷ bs) distinct =
    let fresh : count b.block_id (block_ids (sorted_by block_sort_key bs)) ≡ 0 = ground (
      arith,
      distinct b.block_id,
      beq_refl b.block_id,
      count-sorted_by (λ (x : Block). x.block_id) block_sort_key b.block_id bs,
    ) in
    find_block-insert_by id b (sorted_by block_sort_key bs) fresh
    ∙ ap (λ (o : Option Block). if id == b.block_id then some b else o)
        (find_block-sorted_by id bs (λ k. omega (arith, distinct k)))

pub elem_of_find_block :
    (id : BlockId) (bs : List Block) (found : Block)
    → find_block id bs ≡ some found
    → (elem id (block_ids bs) ≡ true) × (found.block_id ≡ id)
unfolding find_block elem
elem_of_find_block id [] found h = cc
elem_of_find_block id (b ∷ bs) found h =
    ground (arith, block_id_beq_iff id b.block_id, elem_of_find_block id bs found)

module _ (c : CallableDecl) (index : BlockIndex) (built : build_block_index c ≡ ok index) where
  pub build_block_index-Owned : All (Owned c.callable_id) c.blocks
  unfolding build_block_index
  build_block_index-Owned =
      All-of_sorted_by (Owned c.callable_id) block_sort_key c.blocks
        (index_blocks-Owned c.callable_id [] index (sorted_by block_sort_key c.blocks) built)

  pub build_block_index-keys :
      (id : BlockId) → count id (keys index) ≡ count id (block_ids c.blocks)
  unfolding build_block_index count
  build_block_index-keys id = omega (
    arith,
    index_blocks-keys c.callable_id [] index (sorted_by block_sort_key c.blocks) id built,
    count-sorted_by (λ (x : Block). x.block_id) block_sort_key id c.blocks,
  )

  pub build_block_index-distinct : (id : BlockId) → count id (block_ids c.blocks) ≤ 1
  unfolding build_block_index count
  build_block_index-distinct id = omega (
    arith,
    build_block_index-keys id,
    index_blocks-distinct c.callable_id [] index (sorted_by block_sort_key c.blocks) id built,
  )

  pub elem-keys-index : (id : BlockId) → elem id (keys index) ≡ elem id (block_ids c.blocks)
  elem-keys-index id =
      elem_of_count id (keys index)
      ∙ ap (λ (n : ℕ). leb 1 n) (build_block_index-keys id)
      ∙ sym (elem_of_count id (block_ids c.blocks))

  -- The index finds the blocks that a run of the callable finds.
  pub lookup-build_block_index : (id : BlockId) → lookup id index ≡ find_block id c.blocks
  unfolding build_block_index lookup
  lookup-build_block_index id =
      index_blocks-lookup c.callable_id [] index (sorted_by block_sort_key c.blocks) id built
      ∙ find_block-sorted_by id c.blocks build_block_index-distinct

pub build_block_index_accepts :
    (c : CallableDecl)
    → All (Owned c.callable_id) c.blocks
    → ((id : BlockId) → count id (block_ids c.blocks) ≤ 1)
    → (index : BlockIndex) × (build_block_index c ≡ ok index)
unfolding build_block_index count
build_block_index_accepts c owned distinct =
    index_blocks_accepts c.callable_id [] (sorted_by block_sort_key c.blocks)
      (All-sorted_by (Owned c.callable_id) block_sort_key c.blocks owned)
      (λ id. omega (
        arith,
        distinct id,
        count-sorted_by (λ (x : Block). x.block_id) block_sort_key id c.blocks,
      ))
