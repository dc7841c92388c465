-- ===== src/Backend/Optimizations/SimplifyCfg/Jumps.antt =====
-- Forwarding through blocks that only jump keeps the runs of a callable that end.
use niflheim.Shared.{
  ℕ, zero, suc, ◌≤◌, ◌≡◌, ◌≢◌, refl, sym, ap, ◌∙◌, subst, ◌||◌, Bool-cases, Option-cases, none,
  some, List, [], arith, inl, inr,
}
use niflheim.Shared.Dict.{lookup}
use niflheim.Shared.Count.{count}
use niflheim.Backend.Ir.Ids.{BlockId, block_id_eq}
use niflheim.Backend.Ir.Model.{
  Instruction, Block, CallableDecl, Terminator, jump, branch, return, trap,
}
use niflheim.Backend.Semantics.{
  Registers, Machine, Outcome, running, trapped, run, run_block, finish, BlockOutcome, leaves,
  traps_inside, Exit, goto, returned, stopped, confused,
}
use niflheim.Backend.Semantics.Callables.{find_block, ends, go_on, run_found, run_from}
use niflheim.Shared.Result.{ok}
use niflheim.Backend.Analysis.Cfg.{BlockIndex, build_block_index}
use niflheim.Backend.Analysis.Cfg.Index.{block_ids, build_block_index-distinct}
use niflheim.Backend.Optimizations.SimplifyCfg.{
  Targets, jump_target, forward_target_by_block, remap_target, rewrite_terminator, forwarded_blocks,
  simplify_trivial_jump_blocks, is_empty,
}
use niflheim.Backend.Optimizations.SimplifyCfg.Forwarding.{follow}
use niflheim.Backend.Optimizations.SimplifyCfg.Forwards.{
  raw_targets, raw_target-jumps, forward_target-LeadsTo, forward_target-entry,
}
use niflheim.Backend.Optimizations.SimplifyCfg.Redirect.{
  redirected, remap_outcome, remap_target-plain, remap_target-forwarded,
  find_block-forwarded_blocks, exit-rewrite_terminator,
}

-- No branch in it is on a value that is no Boolean.
abbrev pub IsSettled : {W : Type 0} → BlockOutcome W → Type 0
IsSettled (leaves x ρ w) = x ≢ confused
IsSettled (traps_inside w) = Unit

module _ {W : Type 0} (m : Machine W) where
  run_block-redirected :
      (forward : Targets) (b : Block) (ρ : Registers) (w : W)
      → IsSettled (run_block m b ρ w)
      → run_block m (redirected forward b) ρ w ≡ remap_outcome forward (run_block m b ρ w)
  unfolding run_block
  run_block-redirected forward b ρ w = finished (run m b.instructions ρ w)
    where
      finished :
          (o : Outcome W)
          → IsSettled (finish b.terminator o)
          → finish (rewrite_terminator b.terminator forward) o
            ≡ remap_outcome forward (finish b.terminator o)
      finished (running ρ₁ w₁) settled =
          ap (λ (x : Exit). leaves x ρ₁ w₁)
            (exit-rewrite_terminator forward ρ₁ b.terminator settled)
      finished (trapped w₁) settled = refl

  lands :
      (t : Terminator) (u : BlockId) (ρ : Registers) (w : W)
      → jump_target t ≡ some u
      → finish t (running ρ w) ≡ leaves (goto u) ρ w
  lands (jump s t) u ρ w h = let same : t ≡ u = cc in ap (λ (x : BlockId). leaves (goto x) ρ w) same
  lands (branch s c t f) u ρ w h = cc
  lands (return s none) u ρ w h = cc
  lands (return s (some o)) u ρ w h = cc
  lands (trap s k x) u ρ w h = cc

  empty_block_jumps :
      (b : Block) (u : BlockId) (ρ : Registers) (w : W)
      → b.instructions ≡ []
      → jump_target b.terminator ≡ some u
      → run_block m b ρ w ≡ leaves (goto u) ρ w
  unfolding run_block run
  empty_block_jumps b u ρ w empty jumps =
      ap (λ (is : List Instruction). finish b.terminator (run m is ρ w)) empty
      ∙ lands b.terminator u ρ w jumps

  module _ (c : CallableDecl) (distinct : (k : BlockId) → count k (block_ids c.blocks) ≤ 1) where
    -- A run that ends passes the blocks that only jump.
    skip :
        (j n : ℕ) (id t : BlockId) (ρ : Registers) (w : W) (o : BlockOutcome W)
        → follow (raw_targets c) j id ≡ some t
        → run_from m c.blocks n id ρ w ≡ ends o
        → (k : ℕ) × (k ≤ n) × (run_from m c.blocks k t ρ w ≡ ends o)
    unfolding follow run_from run_found go_on
    skip zero n id t ρ w o reached ended =
        let same : id ≡ t = cc in
        (n, omega arith, ap (λ (x : BlockId). run_from m c.blocks n x ρ w) (sym same) ∙ ended)
    skip (suc j) zero id t ρ w o reached ended = cc
    skip (suc j) (suc n) id t ρ w o reached ended =
        elim (Option-cases (lookup id (raw_targets c))) [
          | inl plain ↦ let bad = rw (plain, follow) at reached in cc
          | inr (u, next) ↦
              let (b, found, empty, jumps) = raw_target-jumps c id u distinct next in
              let ended' =
                rw (empty_block_jumps b u ρ w empty jumps) at (rw (found, run_found) at ended) in
              let (k, fewer, rest) = skip j n u t ρ w o (rw (next, follow) at reached) ended' in
              (k, omega arith, rest)
        ]

    abbrev forward : Targets
    forward = forward_target_by_block c

    -- The forwarded callable comes to the same end, through no more blocks.
    abbrev EndsToo : ℕ → BlockId → Registers → W → BlockOutcome W → Type 0
    EndsToo n id ρ w o =
        (k : ℕ) × (k ≤ n) × (run_from m (forwarded_blocks forward c.blocks) k id ρ w ≡ ends o)

    abbrev AllEndToo : ℕ → Type 0
    AllEndToo bound =
        (n : ℕ) (id : BlockId) (ρ : Registers) (w : W) (o : BlockOutcome W)
        → n ≤ bound
        → lookup id forward ≡ none
        → IsSettled o
        → run_from m c.blocks n id ρ w ≡ ends o
        → EndsToo n id ρ w o

    jump_EndsToo :
        (bound n : ℕ) (t : BlockId) (ρ : Registers) (w : W) (o : BlockOutcome W)
        → AllEndToo bound
        → n ≤ bound
        → IsSettled o
        → run_from m c.blocks n t ρ w ≡ ends o
        → EndsToo n (remap_target t forward) ρ w o
    jump_EndsToo bound n t ρ w o rest within settled ended =
        elim (Option-cases (lookup t forward)) [
          | inl plain ↦
              subst (λ x. EndsToo n x ρ w o) (sym (remap_target-plain forward t plain))
                (rest n t ρ w o within plain settled ended)
          | inr (t', forwarded) ↦
              let (leads, last) = forward_target-LeadsTo c t t' forwarded in
              let (k, fewer, ended') = skip leads.0 n t t' ρ w o leads.1 ended in
              let (k', fewer', ended'') = rest k t' ρ w o (omega arith) last settled ended' in
              subst (λ x. EndsToo n x ρ w o)
                (sym (remap_target-forwarded forward t t' forwarded last))
                (k', omega arith, ended'')
        ]

    -- After the block at the front of the run.
    block_EndsToo :
        (bound n : ℕ) (here o : BlockOutcome W)
        → AllEndToo bound
        → n ≤ bound
        → IsSettled o
        → go_on (run_from m c.blocks n) here ≡ ends o
        → IsSettled here
          × (k : ℕ) × (k ≤ n)
          × (go_on (run_from m (forwarded_blocks forward c.blocks) k) (remap_outcome forward here)
              ≡ ends o)
    unfolding go_on
    block_EndsToo bound n (leaves (goto t) ρ w) o rest within settled ended =
        let (k, fewer, ended') = jump_EndsToo bound n t ρ w o rest within settled ended in
        ((λ e. cc), k, fewer, ended')
    block_EndsToo bound n (leaves (returned v) ρ w) o rest within settled ended =
        ((λ e. cc), n, omega arith, ended)
    block_EndsToo bound n (leaves (stopped k) ρ w) o rest within settled ended =
        ((λ e. cc), n, omega arith, ended)
    block_EndsToo bound n (leaves confused ρ w) o rest within settled ended =
        let same : leaves confused ρ w ≡ o = cc in absurd (subst IsSettled (sym same) settled refl)
    block_EndsToo bound n (traps_inside w) o rest within settled ended = (tt, n, omega arith, ended)

    all_EndToo : (bound : ℕ) → AllEndToo bound
    unfolding run_from run_found
    all_EndToo bound zero id ρ w o within plain settled ended = cc
    all_EndToo zero (suc n) id ρ w o within plain settled ended = absurd (omega arith)
    all_EndToo (suc bound) (suc n) id ρ w o within plain settled ended =
        elim (Option-cases (find_block id c.blocks)) [
          | inl missing ↦ let bad = rw (missing, run_found) at ended in cc
          | inr (b, found) ↦
              let (settled_here, k, fewer, ended') =
                block_EndsToo bound n (run_block m b ρ w) o (all_EndToo bound) (omega arith) settled
                  (rw (found, run_found) at ended) in
              (
                suc k,
                omega arith,
                rw (find_block-forwarded_blocks forward id c.blocks plain) (
                    rw (found, run_found)
                      (rw (run_block-redirected forward b ρ w settled_here) ended')),
              )
        ]

-- For a callable whose blocks are accepted by `build_block_index`, the pass has a result. Where a run
-- of the callable from its entry ends, and not at a branch on a value that is no Boolean, the run of the
-- result ends in the same way, with the same registers and the same world, through no more
-- blocks. The blocks have different names.
pub run_from-simplify_trivial_jump_blocks :
    {W : Type 0} (m : Machine W) (c : CallableDecl) (index : BlockIndex) (entry : BlockId) (n : ℕ)
    (ρ : Registers) (w : W) (o : BlockOutcome W)
    → build_block_index c ≡ ok index
    → c.entry_block_id ≡ some entry
    → IsSettled o
    → run_from m c.blocks n entry ρ w ≡ ends o
    → (c' : CallableDecl) × (simplify_trivial_jump_blocks c ≡ ok c')
      × ((k : ℕ) × (k ≤ n) × (run_from m c'.blocks k entry ρ w ≡ ends o))
unfolding simplify_trivial_jump_blocks
run_from-simplify_trivial_jump_blocks m c index entry n ρ w o built named settled ended =
    let distinct = build_block_index-distinct c index built in
    elim (Bool-cases (c.is_extern || is_empty c.blocks)) [
      | inl skipped ↦ (c, rw (skipped, simplify_trivial_jump_blocks) refl, (n, omega arith, ended))
      | inr body ↦ elim (Bool-cases (is_empty (forward_target_by_block c))) [
        | inl none_forwarded ↦ (
          c,
          rw (body, simplify_trivial_jump_blocks) (rw (built, none_forwarded) refl),
          (n, omega arith, ended),
        )
        | inr some_forwarded ↦ (
          record c { blocks = forwarded_blocks (forward_target_by_block c) c.blocks },
          rw (body, simplify_trivial_jump_blocks) (rw (built, some_forwarded) refl),
          all_EndToo m c distinct n n entry ρ w o (omega arith)
              (forward_target-entry c entry distinct named) settled ended,
        )
      ]
    ]
