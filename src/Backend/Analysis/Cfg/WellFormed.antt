-- ===== src/Backend/Analysis/Cfg/WellFormed.antt =====
-- Callables whose control flow can be followed, and what `add_successors` accepts.
use niflheim.Shared.{
  ◌≤◌, ◌≡◌, ◌≢◌, refl, sym, ap, ◌∙◌, true, false, not, Option, none, some, List, [], ◌∷◌, arith,
  ◌==◌, elem, All, Bool-cases, inl, inr,
}
use niflheim.Shared.Dict.{lookup, insert, keys, lookup-insert}
use niflheim.Shared.Result.{ok, guard, >>=-eq-ok, guard-eq-ok}
use niflheim.Shared.Count.{count}
use niflheim.Symbols.{CallableId, callable_id_eq, callable_id_beq_iff}
use niflheim.Backend.Ir.Ids.{BlockId, block_id_eq, block_id_beq_iff}
use niflheim.Backend.Ir.Model.{Terminator, jump, branch, return, trap, Block, CallableDecl}
use niflheim.Backend.Semantics.Callables.{find_block}
use niflheim.Backend.Analysis.Cfg.{
  BlockIndex, BlockMap, require_declared_successor, successors_at, add_successors,
}
use niflheim.Backend.Analysis.Cfg.Index.{block_ids, Owned}

abbrev pub terminator_targets : Terminator → List BlockId
terminator_targets (jump s t) = t ∷ []
terminator_targets (branch s c t f) = t ∷ f ∷ []
terminator_targets _ = []

abbrev pub TargetsDeclared : List BlockId → Terminator → Type 0
TargetsDeclared ids (jump s t) = elem t ids ≡ true
TargetsDeclared ids (branch s c t f) = (elem t ids ≡ true) × (elem f ids ≡ true) × (t ≢ f)
TargetsDeclared ids _ = Unit

abbrev pub EntryDeclared : List BlockId → Option BlockId → Type 0
EntryDeclared ids none = ⊥
EntryDeclared ids (some entry) = elem entry ids ≡ true

-- A callable whose control flow can be followed.
pub record IsWellFormed (c : CallableDecl) : Type 0 where
  pub owned : All (Owned c.callable_id) c.blocks
  pub distinct : (id : BlockId) → count id (block_ids c.blocks) ≤ 1
  pub entry : EntryDeclared (block_ids c.blocks) c.entry_block_id
  pub targets : All (λ b. TargetsDeclared (block_ids c.blocks) b.terminator) c.blocks

-- The entry that a map has for a block, in place of an older one.
abbrev pub found_targets : Option (List BlockId) → Option Block → Option (List BlockId)
found_targets o none = o
found_targets o (some b) = some (terminator_targets b.terminator)

module _ (owner : CallableId) (index : BlockIndex) where
  require_declared_successor-eq-ok :
      (b : Block) (id : BlockId) {u : Unit {0}}
      → require_declared_successor owner index b id ≡ ok u
      → elem id (keys index) ≡ true
  unfolding require_declared_successor
  require_declared_successor-eq-ok b id h = ground arith

  require_declared_successor_accepts :
      (b : Block) (id : BlockId)
      → id.owner_id ≡ owner
      → elem id (keys index) ≡ true
      → require_declared_successor owner index b id ≡ ok tt
  unfolding require_declared_successor
  require_declared_successor_accepts b id o h =
      rw ((callable_id_beq_iff id.owner_id owner).1 o) (rw h)

  not_same : (t f : BlockId) → not (t == f) ≡ true → t ≢ f
  not_same t f h = ground (arith, block_id_beq_iff t f)

  successors_at-eq-ok :
      (b : Block) (t : Terminator) (ts : List BlockId)
      → successors_at owner index b t ≡ ok ts
      → TargetsDeclared (keys index) t × (ts ≡ terminator_targets t)
  unfolding successors_at
  successors_at-eq-ok b (jump s t) ts h =
      let (_, declared, rest) = >>=-eq-ok (require_declared_successor owner index b t) _ h in
      (require_declared_successor-eq-ok b t declared, cc)
  successors_at-eq-ok b (branch s c t f) ts h =
      let (_, left, more) = >>=-eq-ok (require_declared_successor owner index b t) _ h in
      let (_, right, last) = >>=-eq-ok (require_declared_successor owner index b f) _ more in
      let (_, apart, rest) = >>=-eq-ok (guard (not (t == f)) _) _ last in
      (
        (
          require_declared_successor-eq-ok b t left,
          require_declared_successor-eq-ok b f right,
          not_same t f (guard-eq-ok _ _ apart),
        ),
        cc,
      )
  successors_at-eq-ok b (return s v) ts h = (tt, cc)
  successors_at-eq-ok b (trap s k m) ts h = (tt, cc)

  successors_at_accepts :
      (b : Block) (t : Terminator)
      → ((id : BlockId) → elem id (keys index) ≡ true → id.owner_id ≡ owner)
      → TargetsDeclared (keys index) t
      → successors_at owner index b t ≡ ok (terminator_targets t)
  unfolding successors_at
  successors_at_accepts b (jump s t) owned h =
      rw (require_declared_successor_accepts b t (owned t h) h)
  successors_at_accepts b (branch s c t f) owned h =
      let apart : (t == f) ≡ false = ground (arith, block_id_beq_iff t f, h.2) in
      rw (require_declared_successor_accepts b t (owned t h.0) h.0)
        (rw (require_declared_successor_accepts b f (owned f h.1) h.1) (rw apart))
  successors_at_accepts b (return s v) owned h = refl
  successors_at_accepts b (trap s k m) owned h = refl

  pub add_successors-declared :
      (m m' : BlockMap) (bs : List Block)
      → add_successors owner index m bs ≡ ok m'
      → All (λ b. TargetsDeclared (keys index) b.terminator) bs
  unfolding add_successors
  add_successors-declared m m' [] h = tt
  add_successors-declared m m' (b ∷ bs) h =
      let (ts, here, rest) = >>=-eq-ok (successors_at owner index b b.terminator) _ h in
      (
        (successors_at-eq-ok b b.terminator ts here).0,
        add_successors-declared (insert b.block_id ts m) m' bs rest,
      )

  find_block-absent :
      (id : BlockId) (bs : List Block) → count id (block_ids bs) ≡ 0 → find_block id bs ≡ none
  unfolding find_block count
  find_block-absent id [] h = refl
  find_block-absent id (b ∷ bs) h = ground (arith, find_block-absent id bs)

  pub add_successors-lookup :
      (m m' : BlockMap) (bs : List Block) (id : BlockId)
      → add_successors owner index m bs ≡ ok m'
      → ((k : BlockId) → count k (block_ids bs) ≤ 1)
      → lookup id m' ≡ found_targets (lookup id m) (find_block id bs)
  unfolding add_successors find_block count
  add_successors-lookup m m' [] id h distinct = let same : m ≡ m' = cc in ap (lookup id) (sym same)
  add_successors-lookup m m' (b ∷ bs) id h distinct =
      let (ts, here, rest) = >>=-eq-ok (successors_at owner index b b.terminator) _ h in
      let ih =
        add_successors-lookup (insert b.block_id ts m) m' bs id rest
          (λ k. omega (arith, distinct k)) in
      ih
      ∙ rw (lookup-insert id b.block_id ts m) (elim (Bool-cases (id == b.block_id)) [
        | inl same ↦
            let absent : find_block id bs ≡ none =
              find_block-absent id bs (ground (arith, distinct id)) in
            rw same (
              rw absent
                (ap (λ (x : List BlockId). some x) (successors_at-eq-ok b b.terminator ts here).1))
        | inr other ↦ rw other
      ])

  pub add_successors_accepts :
      (m : BlockMap) (bs : List Block)
      → ((id : BlockId) → elem id (keys index) ≡ true → id.owner_id ≡ owner)
      → All (λ b. TargetsDeclared (keys index) b.terminator) bs
      → (m' : BlockMap) × (add_successors owner index m bs ≡ ok m')
  unfolding add_successors
  add_successors_accepts m [] owned h = (m, refl)
  add_successors_accepts m (b ∷ bs) owned h =
      rw (successors_at_accepts b b.terminator owned h.0) (
        add_successors_accepts (insert b.block_id (terminator_targets b.terminator) m) bs owned h.1)

pub Owned-elem :
    (owner : CallableId) (bs : List Block) (id : BlockId)
    → All (Owned owner) bs
    → elem id (block_ids bs) ≡ true
    → id.owner_id ≡ owner
unfolding elem
Owned-elem owner [] id owned h = cc
Owned-elem owner (b ∷ bs) id owned h =
    ground (arith, block_id_beq_iff id b.block_id, Owned-elem owner bs id)

TargetsDeclared-same :
    (ids ids' : List BlockId) (t : Terminator)
    → ((id : BlockId) → elem id ids ≡ elem id ids')
    → TargetsDeclared ids t
    → TargetsDeclared ids' t
TargetsDeclared-same ids ids' (jump s t) same h = sym (same t) ∙ h
TargetsDeclared-same ids ids' (branch s c t f) same h =
    (sym (same t) ∙ h.0, sym (same f) ∙ h.1, h.2)
TargetsDeclared-same ids ids' (return s v) same h = h
TargetsDeclared-same ids ids' (trap s k m) same h = h

pub All-TargetsDeclared-same :
    (ids ids' : List BlockId) (bs : List Block)
    → ((id : BlockId) → elem id ids ≡ elem id ids')
    → All (λ b. TargetsDeclared ids b.terminator) bs
    → All (λ b. TargetsDeclared ids' b.terminator) bs
All-TargetsDeclared-same ids ids' [] same h = tt
All-TargetsDeclared-same ids ids' (b ∷ bs) same h = (
  TargetsDeclared-same ids ids' b.terminator same h.0,
  All-TargetsDeclared-same ids ids' bs same h.1,
)
