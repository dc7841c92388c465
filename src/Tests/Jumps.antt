-- ===== src/Tests/Jumps.antt =====
-- The theorem on simplify_trivial_jump_blocks of simplify_cfg.py at a callable with an empty block.
use niflheim.Shared.{ℕ, ◌≤◌, ◌≡◌, ◌≢◌, refl, some, none, List, [], ◌∷◌, arith}
use niflheim.Shared.Count.{count}
use niflheim.Backend.Ir.Ids.{BlockId, block_id_eq, block_id_beq_iff}
use niflheim.Backend.Ir.Model.{CallableDecl, jump, return}
use niflheim.Backend.Semantics.{BlockOutcome, leaves, returned, constant, running, write}
use niflheim.Backend.Semantics.Callables.{run_from, ends}
use niflheim.Shared.Result.{ok}
use niflheim.Backend.Analysis.Cfg.{BlockIndex, build_block_index}
use niflheim.Backend.Analysis.Cfg.Index.{block_ids, build_block_index_accepts}
use niflheim.Backend.Optimizations.SimplifyCfg.{simplify_trivial_jump_blocks}
use niflheim.Backend.Optimizations.SimplifyCfg.Jumps.{
  IsSettled, run_from-simplify_trivial_jump_blocks,
}
use niflheim.Tests.Blocks.{span, label, units, main_callable, counting}
use niflheim.Tests.Cfg.{named, setting}

-- Block 0 goes over the empty block 1 to block 2.
abbrev jumping_callable : CallableDecl
jumping_callable = record main_callable {
  blocks =
      named 0 (setting ∷ []) (jump span (label 1))
      ∷ named 1 [] (jump span (label 2))
      ∷ named 2 [] (return span none)
      ∷ [];
}

jumping_distinct : (k : BlockId) → count k (block_ids jumping_callable.blocks) ≤ 1
unfolding count
jumping_distinct k = ground (
  arith,
  block_id_beq_iff k (label 0),
  block_id_beq_iff k (label 1),
  block_id_beq_iff k (label 2),
)

jumping_index : (index : BlockIndex) × (build_block_index jumping_callable ≡ ok index)
jumping_index =
    build_block_index_accepts jumping_callable (refl, (refl, (refl, tt))) jumping_distinct

jumping_ends :
    (o : BlockOutcome ℕ) × (run_from counting jumping_callable.blocks 3 (label 0) units 0 ≡ ends o)
    × IsSettled o
unfolding run_from niflheim.Backend.Semantics.Callables.run_found
    niflheim.Backend.Semantics.Callables.find_block niflheim.Backend.Semantics.Callables.go_on
    niflheim.Backend.Semantics.run_block niflheim.Backend.Semantics.run
    niflheim.Backend.Semantics.step niflheim.Backend.Ir.Ids.block_id_beq
    niflheim.Symbols.callable_id_beq niflheim.Shared.list_beq
jumping_ends = (_, refl, (λ e. cc))

run_from-simplify_trivial_jump_blocks_example :
    (c' : CallableDecl) × (simplify_trivial_jump_blocks jumping_callable ≡ ok c')
    × ((k : ℕ) × (k ≤ 3) × (run_from counting c'.blocks k (label 0) units 0 ≡ ends jumping_ends.0))
run_from-simplify_trivial_jump_blocks_example =
    run_from-simplify_trivial_jump_blocks counting jumping_callable jumping_index.0 (label 0) 3
      units 0 jumping_ends.0 jumping_index.1 refl jumping_ends.2 jumping_ends.1
