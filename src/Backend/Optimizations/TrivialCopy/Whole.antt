-- ===== src/Backend/Optimizations/TrivialCopy/Whole.antt =====
-- The elimination of copies over a whole callable: propagation, then the removal of dead copies.
use niflheim.Shared.{
  ℕ, ◌≡◌, refl, sym, ap, ◌∙◌, subst, false, ◌||◌, ◌==◌, some, arith, nat_eq, ltb, Bool-cases, inl,
  inr,
}
use niflheim.Shared.Result.{ok, >>=-eq-ok, ok_unique}
use niflheim.Backend.Ir.Ids.{inst_id_eq, BlockId}
use niflheim.Backend.Ir.Model.{CallableDecl}
use niflheim.Backend.Semantics.{Registers, Machine}
use niflheim.Backend.Semantics.Callables.{run_from, observe}
use niflheim.Backend.Analysis.Cfg.{index_callable_cfg}
use niflheim.Backend.Analysis.Cfg.Whole.{
  index_callable_cfg-Indexes, index_callable_cfg_accepts, elem-reverse_postorder_entry,
}
use niflheim.Backend.Analysis.Cfg.WellFormed.{IsWellFormed}
use niflheim.Backend.Analysis.Cfg.Changes.{map-IsWellFormed}
use niflheim.Backend.Analysis.Liveness.Fixpoint.{
  InstLiveSets, CallableLiveness, is_empty, analyze_callable_liveness, liveness_of_cfg,
}
use niflheim.Backend.Analysis.Liveness.Tables.{HasDistinctInstIds}
use niflheim.Backend.Optimizations.TrivialCopy.Callable.{rewritten}
use niflheim.Backend.Optimizations.TrivialCopy.DeadCopies.{
  remove_from_blocks, remove_dead_copies, rewrite_callable, eliminate_callable,
}
use niflheim.Backend.Optimizations.TrivialCopy.DeadSound.{
  without_dead_copies, remove_from_blocks-map, run_from-remove_from_blocks,
}
use niflheim.Backend.Optimizations.TrivialCopy.Rewritten.{rewrite_callable-Rewritten}

module _ {W : Type 0} (m : Machine W) (c : CallableDecl) (entry : BlockId) (n : ℕ) (ρ : Registers)
    (w : W) (named : c.entry_block_id ≡ some entry) where
  abbrev Shows : CallableDecl → CallableDecl → Type 0
  Shows c' c =
      observe (run_from m c'.blocks n entry ρ w) ≡ observe (run_from m c.blocks n entry ρ w)

  remove_dead_copies_keeps_runs :
      (pruned : CallableDecl × ℕ)
      → (c.is_extern || is_empty c.blocks) ≡ false
      → HasDistinctInstIds c.blocks
      → remove_dead_copies c ≡ ok pruned
      → Shows pruned.0 c
  unfolding remove_dead_copies analyze_callable_liveness
  remove_dead_copies_keeps_runs pruned body distinct h =
      let (liveness, analyzed, last) = >>=-eq-ok (analyze_callable_liveness c) _ h in
      let (cfg, indexed, same) =
        >>=-eq-ok (index_callable_cfg c) _ (rw (body, analyze_callable_liveness) at analyzed) in
      let local : c.is_extern ≡ false = ground arith in
      let e : liveness_of_cfg cfg ≡ liveness = cc in
      let kept = run_from-remove_from_blocks m c cfg local indexed distinct n entry ρ w (
        elem-reverse_postorder_entry c cfg (index_callable_cfg-Indexes c local cfg indexed) entry
          named) in
      let kept' : observe
            (run_from m (remove_from_blocks liveness.live_after_instruction c.blocks).0 n entry ρ w)
          ≡ observe (run_from m c.blocks n entry ρ w) =
        subst
          (λ (l : CallableLiveness).
            observe
              (run_from m (remove_from_blocks l.live_after_instruction c.blocks).0 n entry ρ w)
            ≡ observe (run_from m c.blocks n entry ρ w))
          e kept in
      elim (Bool-cases ((remove_from_blocks liveness.live_after_instruction c.blocks).1 == 0)) [
        | inl none_removed ↦
            let u : (c, 0) ≡ pruned =
              ok_unique (ok (c, 0)) (c, 0) pruned refl (rw none_removed at last) in
            subst (λ (x : CallableDecl × ℕ). Shows x.0 c) u refl
        | inr some_removed ↦
            let result : CallableDecl × ℕ = (
              record c { blocks = (remove_from_blocks liveness.live_after_instruction c.blocks).0 },
              (remove_from_blocks liveness.live_after_instruction c.blocks).1,
            ) in
            let u : result ≡ pruned =
              ok_unique (ok result) result pruned refl (rw some_removed at last) in
            subst (λ (x : CallableDecl × ℕ). Shows x.0 c) u kept'
      ]

-- The callable without its copies behaves as the callable: from the entry, through any number of
-- blocks, a run leaves in the same way with the same result, stops in the same world, or stands in
-- front of the same block in the same world, where all instructions have different identifiers.
pub eliminate_callable_keeps_runs :
    {W : Type 0} (m : Machine W) (c c' : CallableDecl) (entry : BlockId) (n : ℕ) (ρ : Registers)
    (w : W)
    → HasDistinctInstIds c.blocks
    → c.entry_block_id ≡ some entry
    → eliminate_callable c ≡ ok c'
    → observe (run_from m c'.blocks n entry ρ w) ≡ observe (run_from m c.blocks n entry ρ w)
unfolding eliminate_callable
eliminate_callable_keeps_runs m c c' entry n ρ w distinct named h =
    elim (Bool-cases (c.is_extern || is_empty c.blocks)) [
      | inl skipped ↦
          let e : c ≡ c' = ok_unique (ok c) c c' refl (rw (skipped, eliminate_callable) at h) in
          ap (λ (x : CallableDecl). observe (run_from m x.blocks n entry ρ w)) (sym e)
      | inr body ↦
          let (rewritten, changed) = rewrite_callable c in
          let first = rewrite_callable-Rewritten c in
          let steps = rw (body, eliminate_callable) at h in
          let (pruned, removed, last) = >>=-eq-ok (remove_dead_copies rewritten) _ steps in
          let body' : (rewritten.is_extern || is_empty rewritten.blocks) ≡ false =
            ground (arith, first.same_extern, first.same_empty, body) in
          let second =
            remove_dead_copies_keeps_runs m rewritten entry n ρ w (first.same_entry ∙ named) pruned
              body' (λ k. omega (arith, first.fewer_ids k, distinct k)) removed in
          elim (Bool-cases (changed || ltb 0 pruned.1)) [
            | inl some_changed ↦
                let u : pruned.0 ≡ c' =
                  ok_unique (ok pruned.0) pruned.0 c' refl (rw some_changed at last) in
                subst
                  (λ (x : CallableDecl).
                    observe (run_from m x.blocks n entry ρ w)
                    ≡ observe (run_from m c.blocks n entry ρ w))
                  u (second ∙ ap observe (first.same_runs m n entry ρ w))
            | inr unchanged ↦
                let u : c ≡ c' = ok_unique (ok c) c c' refl (rw unchanged at last) in
                ap (λ (x : CallableDecl). observe (run_from m x.blocks n entry ρ w)) (sym u)
          ]
    ]

remove_from_blocks-IsWellFormed :
    (table : InstLiveSets) (c : CallableDecl)
    → IsWellFormed c
    → IsWellFormed (record c { blocks = (remove_from_blocks table c.blocks).0 })
remove_from_blocks-IsWellFormed table c fit =
    rw (remove_from_blocks-map table c.blocks)
      (map-IsWellFormed (without_dead_copies table) (λ b. refl) c (λ ids b h. h) fit)

remove_dead_copies-IsWellFormed :
    (c : CallableDecl)
    → (c.is_extern || is_empty c.blocks) ≡ false
    → IsWellFormed c
    → (pruned : CallableDecl × ℕ) × (remove_dead_copies c ≡ ok pruned) × IsWellFormed pruned.0
unfolding remove_dead_copies analyze_callable_liveness
remove_dead_copies-IsWellFormed c body fit =
    let local : c.is_extern ≡ false = ground arith in
    let (cfg, indexed) = index_callable_cfg_accepts c local fit in
    let table = (liveness_of_cfg cfg).live_after_instruction in
    let analyzed : analyze_callable_liveness c ≡ ok (liveness_of_cfg cfg) =
      rw (body, analyze_callable_liveness) (rw indexed refl) in
    elim (Bool-cases ((remove_from_blocks table c.blocks).1 == 0)) [
      | inl none_removed ↦ ((c, 0), rw (analyzed, remove_dead_copies) (rw none_removed refl), fit)
      | inr some_removed ↦ (
        (
          record c { blocks = (remove_from_blocks table c.blocks).0 },
          (remove_from_blocks table c.blocks).1,
        ),
        rw (analyzed, remove_dead_copies) (rw some_removed refl),
        remove_from_blocks-IsWellFormed table c fit,
      )
    ]

-- The pass has a result for every well-formed callable that has blocks and is not extern, and it is
-- well-formed.
pub eliminate_callable-IsWellFormed :
    (c : CallableDecl)
    → (c.is_extern || is_empty c.blocks) ≡ false
    → IsWellFormed c
    → (c' : CallableDecl) × (eliminate_callable c ≡ ok c') × IsWellFormed c'
unfolding eliminate_callable
eliminate_callable-IsWellFormed c body fit =
    let (rewritten, changed) = rewrite_callable c in
    let first = rewrite_callable-Rewritten c in
    let body' : (rewritten.is_extern || is_empty rewritten.blocks) ≡ false =
      ground (arith, first.same_extern, first.same_empty, body) in
    let (pruned, removed, fit') =
      remove_dead_copies-IsWellFormed rewritten body' (first.still_fit fit) in
    elim (Bool-cases (changed || ltb 0 pruned.1)) [
      | inl some_changed ↦
          (pruned.0, rw (body, eliminate_callable) (rw removed (rw some_changed refl)), fit')
      | inr unchanged ↦ (c, rw (body, eliminate_callable) (rw removed (rw unchanged refl)), fit)
    ]
