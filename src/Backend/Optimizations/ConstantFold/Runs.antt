-- ===== src/Backend/Optimizations/ConstantFold/Runs.antt =====
-- Folding the constants of a callable keeps its runs.
use niflheim.Shared.{
  ◌∙◌, Bool, ℕ, ◌≡◌, refl, sym, ap, subst, false, ◌||◌, Option, some, List, [], ◌∷◌, map, arith,
  All, Bool-cases, inl, inr, ltb,
}
use niflheim.Shared.Result.{Result, ok, err, >>=-eq-ok, ok_unique}
use niflheim.Backend.Ir.Ids.{RegId, BlockId, block_id_eq}
use niflheim.Backend.Ir.Model.{Constant, Block, CallableDecl}
use niflheim.Backend.Semantics.{Registers, Machine, goto}
use niflheim.Backend.Semantics.Callables.{All-find_block, run_from}
use niflheim.Backend.Semantics.Invariants.{run_from-where}
use niflheim.Backend.Analysis.Cfg.{CallableCfg, index_callable_cfg}
use niflheim.Backend.Analysis.Cfg.Index.{elem_of_find_block}
use niflheim.Backend.Analysis.Cfg.Exits.{exit-goto}
use niflheim.Backend.Analysis.Cfg.Whole.{Indexes, index_callable_cfg-Indexes}
use niflheim.Backend.Analysis.Liveness.Runs.{run_block-leaves}
use niflheim.Backend.Analysis.Liveness.Fixpoint.{is_empty}
use niflheim.Backend.Optimizations.ConstantFold.Arith.{FloatOps}
use niflheim.Backend.Optimizations.ConstantFold.Known.{Computes}
use niflheim.Backend.Optimizations.ConstantFold.Pass.{
  fold_block, fold_instructions, rewrite_terminator_operands,
}
use niflheim.Backend.Optimizations.ConstantFold.Sound.{run_block-fold_block}
use niflheim.Backend.Optimizations.ConstantFold.Merge.{EqualsAreSame, IsNonZero}
use niflheim.Backend.Optimizations.ConstantFold.Invariant.{KeepsKnown}
use niflheim.Backend.Optimizations.ConstantFold.Incoming.{
  ConstantTable, constants_at, constants_of_cfg, incoming_constants_by_block, fold_blocks,
  fold_callable, read_types, lift,
}
use niflheim.Backend.Optimizations.DeadPure.{TypeNames}
use niflheim.Backend.Optimizations.DeadPure.Callable.{register_type_names}
use niflheim.Backend.Analysis.Cfg.{CfgError}
use niflheim.Backend.Optimizations.ConstantFold.Arrives.{
  Arrives, starts, jumps, constants_of_cfg-IsTrueAtStart,
}

abbrev pub folded : FloatOps → ConstantTable → Block → Block
folded f table b = (fold_block f b (constants_at table b.block_id)).0

pub folded_name :
    (f : FloatOps) (table : ConstantTable) (b : Block) → (folded f table b).block_id ≡ b.block_id
unfolding fold_block
folded_name f table b =
    let (rewritten, constants, changed) =
      fold_instructions f (constants_at table b.block_id) b.instructions in
    let n = (rewrite_terminator_operands b.terminator constants).1 in
    elim (Bool-cases (changed || ltb 0 n)) [
      | inl some_changed ↦ rw (some_changed, folded, fold_block) refl
      | inr same ↦ rw (same, folded, fold_block) refl
    ]

pub fold_blocks-map :
    (f : FloatOps) (types : TypeNames) (table : ConstantTable) (bs bs' : List Block)
    (changed : Bool)
    → fold_blocks f types table bs ≡ ok (bs', changed)
    → bs' ≡ map (folded f table) bs
unfolding fold_blocks
fold_blocks-map f types table [] bs' changed h = cc
fold_blocks-map f types table (b ∷ bs) bs' changed h =
    let (_, _, steps) =
      >>=-eq-ok (read_types f types b.instructions (constants_at table b.block_id)) _ h in
    let ((rest, more), ran, last) = >>=-eq-ok (fold_blocks f types table bs) _ steps in
    let kept = fold_blocks-map f types table bs rest more ran in
    let e = ok_unique _ _ (bs', changed) refl last in
    sym (ap (λ (x : List Block × Bool). x.0) e) ∙ ap (λ (r : List Block). folded f table b ∷ r) kept

module _ (f : FloatOps) {W : Type 0} (m : Machine W) (c : CallableDecl) (cfg : CallableCfg)
    (i : Indexes c cfg) (ρ₀ : Registers) (w₀ : W) (law : EqualsAreSame f)
    (P : RegId → Constant → Type 0) (nonzero : (r : RegId) (k : Constant) → P r k → IsNonZero f k)
    (computes : All (λ b. All (Computes f m) b.instructions) c.blocks)
    (keeps : All (λ b. All (KeepsKnown f P) b.instructions) c.blocks) (table : ConstantTable)
    (found_by : constants_of_cfg f (register_type_names c) cfg ≡ ok table) where
  run_from-folded :
      (n : ℕ) (id : BlockId) (ρ : Registers) (w : W)
      → Arrives m c.blocks i.entry ρ₀ w₀ id ρ w
      → run_from m (map (folded f table) c.blocks) n id ρ w ≡ run_from m c.blocks n id ρ w
  run_from-folded n id ρ w here =
      run_from-where m (folded f table) c.blocks (Arrives m c.blocks i.entry ρ₀ w₀) n id ρ w
        (folded_name f table)
        (λ id b ρ w found here.
          let named : b.block_id ≡ id = (elem_of_find_block id c.blocks b found).1 in
          let here' = subst (λ k. Arrives m c.blocks i.entry ρ₀ w₀ k ρ w) (sym named) here in
          run_block-fold_block f m b (constants_at table b.block_id) ρ w
            (All-find_block (λ x. All (Computes f m) x.instructions) id c.blocks b computes found)
            (constants_of_cfg-IsTrueAtStart f m c cfg i ρ₀ w₀ law P nonzero computes keeps
              (register_type_names c) table b.block_id ρ w found_by here'))
        (λ id t b ρ w ρ₁ w₁ found here left.
          let (ran, leads) = run_block-leaves m b ρ w (goto t) ρ₁ w₁ left in
          jumps id t b ρ w ρ₁ w₁ here found ran (exit-goto b.terminator ρ₁ t (sym leads)))
        here

lift-ok-eq : {A : Type 0} (r : Result CfgError A) (a : A) → lift r ≡ ok a → r ≡ ok a
lift-ok-eq (ok x) a h = let e = ok_unique (lift (ok x)) x a refl h in ap (λ y. ok y) e
lift-ok-eq (err e) a h = cc

-- The folded callable does from its entry what the callable does, to every bound on the number of
-- blocks, under four conditions. The machine computes on constants what the language says. Equal floats
-- other than zero have the same bits. There is an invariant of the constants that registers are known
-- to hold which no double that is zero satisfies. And every instruction keeps the invariant: what it
-- adds to constants that satisfy it satisfies it.
pub run_from-fold_callable :
    (f : FloatOps) {W : Type 0} (m : Machine W) (P : RegId → Constant → Type 0)
    (c c' : CallableDecl) (entry : BlockId) (n : ℕ) (ρ : Registers) (w : W)
    → EqualsAreSame f
    → ((r : RegId) (k : Constant) → P r k → IsNonZero f k)
    → All (λ b. All (Computes f m) b.instructions) c.blocks
    → All (λ b. All (KeepsKnown f P) b.instructions) c.blocks
    → c.entry_block_id ≡ some entry
    → fold_callable f c ≡ ok c'
    → run_from m c'.blocks n entry ρ w ≡ run_from m c.blocks n entry ρ w
unfolding fold_callable incoming_constants_by_block
run_from-fold_callable f m P c c' entry n ρ w law nonzero computes keeps named h =
    elim (Bool-cases (c.is_extern || is_empty c.blocks)) [
      | inl skipped ↦
          let e : c ≡ c' = ok_unique (ok c) c c' refl (rw (skipped, fold_callable) at h) in
          ap (λ (x : CallableDecl). run_from m x.blocks n entry ρ w) (sym e)
      | inr body ↦
          let types = register_type_names c in
          let local : c.is_extern ≡ false = ground arith in
          let steps = rw (body, fold_callable) at h in
          let (table, analyzed, steps) =
            >>=-eq-ok (incoming_constants_by_block f types c) _ steps in
          let ((blocks, changed), ran, last) =
            >>=-eq-ok (fold_blocks f types table c.blocks) _ steps in
          let (cfg, lifted, found_by) = >>=-eq-ok (lift (index_callable_cfg c)) _ analyzed in
          let i =
            index_callable_cfg-Indexes c local cfg (lift-ok-eq (index_callable_cfg c) cfg lifted) in
          let at_entry : i.entry ≡ entry = one_entry c.entry_block_id i.entry entry i.named named in
          let folding : blocks ≡ map (folded f table) c.blocks =
            fold_blocks-map f types table c.blocks blocks changed ran in
          let kept : run_from m blocks n entry ρ w ≡ run_from m c.blocks n entry ρ w =
            ap (λ (x : List Block). run_from m x n entry ρ w) folding
            ∙ run_from-folded f m c cfg i ρ w law P nonzero computes keeps table found_by n entry ρ
                w (subst (λ k. Arrives m c.blocks i.entry ρ w k ρ w) at_entry starts) in
          elim (Bool-cases changed) [
            | inl some_changed ↦
                let u = ok_unique _ _ c' refl (rw some_changed at last) in
                subst
                  (λ (x : CallableDecl).
                    run_from m x.blocks n entry ρ w ≡ run_from m c.blocks n entry ρ w)
                  u kept
            | inr same ↦
                let u : c ≡ c' = ok_unique (ok c) c c' refl (rw same at last) in
                ap (λ (x : CallableDecl). run_from m x.blocks n entry ρ w) (sym u)
          ]
    ]
  where
    one_entry : (o : Option BlockId) (a b : BlockId) → o ≡ some a → o ≡ some b → a ≡ b
    one_entry o a b h k = cc
