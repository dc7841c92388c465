-- ===== src/Backend/Optimizations/ConstantFold/Kept.antt =====
-- Folding the constants of a callable accepts and keeps well-formed callables.
use niflheim.Shared.{
  ◌≡◌, refl, sym, ◌∙◌, subst, Bool, false, ◌||◌, none, some, List, [], ◌∷◌, map, ltb, Bool-cases,
  inl, inr, arith, All,
}
use niflheim.Shared.Result.{ok}
use niflheim.Backend.Ir.Ids.{RegId, BlockId}
use niflheim.Backend.Ir.Model.{
  Constant, Terminator, jump, branch, return, trap, Block, CallableDecl,
}
use niflheim.Backend.Analysis.Cfg.WellFormed.{IsWellFormed, TargetsDeclared}
use niflheim.Backend.Analysis.Cfg.Whole.{index_callable_cfg_accepts, index_callable_cfg-Indexes}
use niflheim.Backend.Semantics.Callables.{All-find_block}
use niflheim.Backend.Optimizations.DeadPure.{TypeNames}
use niflheim.Backend.Optimizations.DeadPure.Callable.{register_type_names}
use niflheim.Backend.Optimizations.ConstantFold.Joins.{IsNumber}
use niflheim.Backend.Optimizations.ConstantFold.Invariant.{KeepsKnown}
use niflheim.Backend.Optimizations.ConstantFold.Declared.{IsDeclared, read_types-declared}
use niflheim.Backend.Optimizations.ConstantFold.Ends.{constants_of_cfg_ends}
use niflheim.Backend.Analysis.Cfg.Changes.{map-IsWellFormed}
use niflheim.Backend.Analysis.Liveness.Fixpoint.{is_empty}
use niflheim.Backend.Optimizations.ConstantFold.Arith.{FloatOps}
use niflheim.Backend.Optimizations.ConstantFold.Folding.{ConstantMap}
use niflheim.Backend.Optimizations.ConstantFold.Pass.{
  fold_block, fold_instructions, rewrite_terminator_operands,
}
use niflheim.Backend.Optimizations.ConstantFold.Incoming.{
  ConstantTable, constants_at, incoming_constants_by_block, fold_blocks, fold_callable,
}
use niflheim.Backend.Optimizations.ConstantFold.Runs.{folded, folded_name}

same_targets :
    (ids : List BlockId) (t : Terminator) (constants : ConstantMap)
    → TargetsDeclared ids t
    → TargetsDeclared ids (rewrite_terminator_operands t constants).0
unfolding rewrite_terminator_operands
same_targets ids (jump s t) constants h = h
same_targets ids (branch s c t f) constants h = h
same_targets ids (return s none) constants h = h
same_targets ids (return s (some o)) constants h = h
same_targets ids (trap s k o) constants h = h

module _ (f : FloatOps) where
  leads-folded :
      (table : ConstantTable) (ids : List BlockId) (b : Block)
      → TargetsDeclared ids b.terminator
      → TargetsDeclared ids (folded f table b).terminator
  unfolding fold_block
  leads-folded table ids b h =
      let rewritten = fold_instructions f (constants_at table b.block_id) b.instructions in
      let n = (rewrite_terminator_operands b.terminator rewritten.1).1 in
      elim (Bool-cases (rewritten.2 || ltb 0 n)) [
        | inl changed ↦
            let e : (folded f table b).terminator
                ≡ (rewrite_terminator_operands b.terminator rewritten.1).0 =
              rw (changed, folded, fold_block) refl in
            subst (TargetsDeclared ids) (sym e) (same_targets ids b.terminator rewritten.1 h)
        | inr same ↦
            let e : (folded f table b).terminator ≡ b.terminator =
              rw (same, folded, fold_block) refl in
            subst (TargetsDeclared ids) (sym e) h
      ]

  fold_blocks-declared :
      (types : TypeNames) (table : ConstantTable) (bs : List Block)
      → All (λ b. All (IsDeclared types) b.instructions) bs
      → (changed : Bool) × (fold_blocks f types table bs ≡ ok (map (folded f table) bs, changed))
  unfolding fold_blocks
  fold_blocks-declared types table [] h = (false, refl)
  fold_blocks-declared types table (b ∷ bs) (here, h) =
      let (more, rest) = fold_blocks-declared types table bs h in
      (
        (fold_block f b (constants_at table b.block_id)).1 || more,
        rw (read_types-declared f types b.instructions _ here) (rw rest refl),
      )

  folded-IsWellFormed :
      (table : ConstantTable) (c : CallableDecl)
      → IsWellFormed c
      → IsWellFormed (record c { blocks = map (folded f table) c.blocks })
  folded-IsWellFormed table c fit =
      map-IsWellFormed (folded f table) (folded_name f table) c (leads-folded table) fit

  module _ (P : RegId → Constant → Type 0) where
    incoming_constants_by_block_ends :
        (c : CallableDecl)
        → c.is_extern ≡ false
        → IsWellFormed c
        → ((r : RegId) (k : Constant) → P r k → IsNumber f k)
        → All (λ b. All (KeepsKnown f P) b.instructions) c.blocks
        → All (λ b. All (IsDeclared (register_type_names c)) b.instructions) c.blocks
        → (table : ConstantTable) × (incoming_constants_by_block f (register_type_names c) c
            ≡ ok table)
    unfolding incoming_constants_by_block
    incoming_constants_by_block_ends c local fit numbers keeps declared =
        let (cfg, indexed) = index_callable_cfg_accepts c local fit in
        let i = index_callable_cfg-Indexes c local cfg indexed in
        let (table, ended) =
          constants_of_cfg_ends f P cfg (register_type_names c) numbers (λ id b found.
            let there = sym (i.finds id) ∙ found in
            (
              All-find_block (λ x. All (KeepsKnown f P) x.instructions) id c.blocks b keeps there,
              All-find_block (λ x. All (IsDeclared (register_type_names c)) x.instructions) id
                  c.blocks b declared there,
            )) in
        (table, rw indexed ended)

    pub fold_callable-IsWellFormed :
        (c : CallableDecl)
        → (c.is_extern || is_empty c.blocks) ≡ false
        → IsWellFormed c
        → ((r : RegId) (k : Constant) → P r k → IsNumber f k)
        → All (λ b. All (KeepsKnown f P) b.instructions) c.blocks
        → All (λ b. All (IsDeclared (register_type_names c)) b.instructions) c.blocks
        → (c' : CallableDecl) × (fold_callable f c ≡ ok c') × IsWellFormed c'
    unfolding fold_callable
    fold_callable-IsWellFormed c body fit numbers keeps declared =
        let local : c.is_extern ≡ false = ground arith in
        let (table, ended) = incoming_constants_by_block_ends c local fit numbers keeps declared in
        let (changed, folded_all) =
          fold_blocks-declared (register_type_names c) table c.blocks declared in
        elim (Bool-cases changed) [
          | inl changed' ↦ (
            record c { blocks = map (folded f table) c.blocks },
            rw (body, fold_callable) (rw ended (rw folded_all (rw changed' refl))),
            folded-IsWellFormed table c fit,
          )
          | inr same ↦ (c, rw (body, fold_callable) (rw ended (rw folded_all (rw same refl))), fit)
        ]
