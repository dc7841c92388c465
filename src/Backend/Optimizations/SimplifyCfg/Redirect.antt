-- ===== src/Backend/Optimizations/SimplifyCfg/Redirect.antt =====
-- What forwarding makes of a block, and where the blocks are afterwards.
use niflheim.Shared.{
  ℕ, suc, ◌+◌, ◌≡◌, ◌≢◌, refl, ap, ◌∙◌, Bool, true, false, Bool-cases, Option-cases, none, some,
  List, [], ◌∷◌, arith, ◌==◌, elem, inl, inr, length, if◌then◌else◌,
}
use niflheim.Shared.Dict.{lookup}
use niflheim.Backend.Ir.Ids.{BlockId, block_id_eq, block_id_beq_iff}
use niflheim.Backend.Ir.Model.{Operand, Block, Terminator, jump, branch, return, trap, bool_const}
use niflheim.Backend.Semantics.{
  Registers, Value, value, constant, exit, take_branch, BlockOutcome, leaves, traps_inside, Exit,
  goto, confused,
}
use niflheim.Backend.Semantics.Callables.{find_block, map_found}
use niflheim.Backend.Optimizations.SimplifyCfg.{
  Targets, remap_from, remap_target, rewrite_terminator, is_forwarded, forwarded_blocks,
}
use niflheim.Symbols.{SourceSpan}

module _ (forward : Targets) where
  remap_from-plain :
      (n : ℕ) (start id : BlockId) (visited : List BlockId)
      → lookup id forward ≡ none
      → remap_from forward (suc n) start visited id ≡ id
  unfolding remap_from
  remap_from-plain n start id visited plain = rw (plain, remap_from)

  remap_from-step :
      (n : ℕ) (id t : BlockId)
      → lookup id forward ≡ some t
      → remap_from forward (suc n) id [] id ≡ remap_from forward n id (id ∷ []) t
  unfolding remap_from elem
  remap_from-step n id t forwarded = rw (forwarded, remap_from)

  plus_one : (n : ℕ) → n + 1 ≡ suc n
  plus_one n = omega arith

  pub remap_target-plain : (id : BlockId) → lookup id forward ≡ none → remap_target id forward ≡ id
  unfolding remap_target
  remap_target-plain id plain =
      ap (λ (n : ℕ). remap_from forward n id [] id) (plus_one (length forward))
      ∙ remap_from-plain (length forward) id id [] plain

  some_entries :
      (d : Targets) (id t : BlockId) → lookup id d ≡ some t → (k : ℕ) × (length d ≡ suc k)
  unfolding lookup
  some_entries [] id t h = cc
  some_entries (x ∷ d) id t h = (length d, refl)

  pub remap_target-forwarded :
      (id t : BlockId)
      → lookup id forward ≡ some t
      → lookup t forward ≡ none
      → remap_target id forward ≡ t
  unfolding remap_target
  remap_target-forwarded id t forwarded last =
      let (k, size) = some_entries forward id t forwarded in
      ap (λ (n : ℕ). remap_from forward n id [] id)
        (plus_one (length forward) ∙ ap (λ (n : ℕ). suc n) size)
      ∙ remap_from-step (suc k) id t forwarded
      ∙ remap_from-plain k id t (id ∷ []) last

  abbrev pub redirected : Block → Block
  redirected b = record b { terminator = rewrite_terminator b.terminator forward }

  forwarded_blocks-kept :
      (b : Block) (bs : List Block)
      → lookup b.block_id forward ≡ none
      → forwarded_blocks forward (b ∷ bs) ≡ redirected b ∷ forwarded_blocks forward bs
  unfolding forwarded_blocks
  forwarded_blocks-kept b bs kept = rw (kept, is_forwarded, forwarded_blocks) refl

  forwarded_blocks-dropped :
      (b : Block) (bs : List Block) (t : BlockId)
      → lookup b.block_id forward ≡ some t
      → forwarded_blocks forward (b ∷ bs) ≡ forwarded_blocks forward bs
  unfolding forwarded_blocks
  forwarded_blocks-dropped b bs t dropped = rw (dropped, is_forwarded, forwarded_blocks) refl

  pub find_block-forwarded_blocks :
      (id : BlockId) (bs : List Block)
      → lookup id forward ≡ none
      → find_block id (forwarded_blocks forward bs) ≡ map_found redirected (find_block id bs)
  unfolding find_block forwarded_blocks
  find_block-forwarded_blocks id [] plain = refl
  find_block-forwarded_blocks id (b ∷ bs) plain =
      let rest = find_block-forwarded_blocks id bs plain in
      elim (Option-cases (lookup b.block_id forward)) [
        | inl kept ↦ elim (Bool-cases (id == b.block_id)) [
          | inl here ↦ ap (find_block id) (forwarded_blocks-kept b bs kept) ∙ rw here refl
          | inr other ↦ ap (find_block id) (forwarded_blocks-kept b bs kept) ∙ rw other rest
        ]
        | inr (t, dropped) ↦ elim (Bool-cases (id == b.block_id)) [
          | inl here ↦
              let same = (block_id_beq_iff id b.block_id).0 here in
              let bad = ap (λ (x : BlockId). lookup x forward) same in cc
          | inr other ↦ ap (find_block id) (forwarded_blocks-dropped b bs t dropped) ∙ rw other rest
        ]
      ]

  -- Where the redirected block leaves to.
  abbrev pub remap_exit : Exit → Exit
  remap_exit (goto t) = goto (remap_target t forward)
  remap_exit x = x

  abbrev pub remap_outcome : {W : Type 0} → BlockOutcome W → BlockOutcome W
  remap_outcome (leaves x ρ w) = leaves (remap_exit x) ρ w
  remap_outcome (traps_inside w) = traps_inside w

  branch-exit :
      (v : Value) (t f t' f' : BlockId)
      → t' ≡ remap_target t forward
      → f' ≡ remap_target f forward
      → take_branch v t f ≢ confused
      → (if t' == f' then goto t' else take_branch v t' f') ≡ remap_exit (take_branch v t f)
  branch-exit (constant (bool_const true)) t f t' f' et ef settled = elim (Bool-cases (t' == f')) [
    | inl same ↦ rw same (ap goto et)
    | inr other ↦ rw other (ap goto et)
  ]
  branch-exit (constant (bool_const false)) t f t' f' et ef settled = elim (Bool-cases (t' == f')) [
    | inl same ↦ rw same (ap goto ((block_id_beq_iff t' f').0 same ∙ ef))
    | inr other ↦ rw other (ap goto ef)
  ]
  branch-exit _ t f t' f' et ef settled = absurd (settled refl)

  pub exit-rewrite_terminator :
      (ρ : Registers) (t : Terminator)
      → exit ρ t ≢ confused
      → exit ρ (rewrite_terminator t forward) ≡ remap_exit (exit ρ t)
  unfolding rewrite_terminator
  exit-rewrite_terminator ρ (jump s t) settled = refl
  exit-rewrite_terminator ρ (branch s c t f) settled =
      let t' = remap_target t forward in
      let f' = remap_target f forward in
      exit-if (t' == f') s c t' f' ∙ branch-exit (value ρ c) t f t' f' refl refl settled
    where
      exit-if :
          (b : Bool) (s : SourceSpan) (c : Operand) (t' f' : BlockId)
          → exit ρ (if b then jump s t' else branch s c t' f')
            ≡ (if b then goto t' else take_branch (value ρ c) t' f')
      exit-if true s c t' f' = refl
      exit-if false s c t' f' = refl
  exit-rewrite_terminator ρ (return s none) settled = refl
  exit-rewrite_terminator ρ (return s (some o)) settled = refl
  exit-rewrite_terminator ρ (trap s k x) settled = refl
