-- ===== src/Tests/Copies.antt =====
-- The theorems on trivial_copy_elimination.py over a callable at a callable of four blocks.
use niflheim.Shared.{◌≤◌, ◌≡◌, refl, [], ◌∷◌, elem, arith}
use niflheim.Shared.Result.{ok}
use niflheim.Shared.Count.{count}
use niflheim.Backend.Ir.Ids.{InstId, inst_id_eq, inst_id_beq_iff, reg_id_eq}
use niflheim.Backend.Ir.InstIds.{inst_id}
use niflheim.Backend.Ir.Model.{CallableDecl}
use niflheim.Backend.Semantics.Callables.{run_from, observe}
use niflheim.Backend.Analysis.Cfg.WellFormed.{IsWellFormed}
use niflheim.Backend.Analysis.Liveness.{block_live_in}
use niflheim.Backend.Analysis.Liveness.Fixpoint.{liveness_of_cfg, live_at, live_after}
use niflheim.Backend.Analysis.Liveness.Tables.{HasDistinctInstIds}
use niflheim.Backend.Analysis.Liveness.Behind.{live_after-block_live_in}
use niflheim.Backend.Optimizations.TrivialCopy.DeadCopies.{eliminate_callable}
use niflheim.Backend.Optimizations.TrivialCopy.Whole.{
  eliminate_callable_keeps_runs, eliminate_callable-IsWellFormed,
}
use niflheim.Tests.Blocks.{at, reg, label, units, counting}
use niflheim.Tests.Cfg.{
  setting, dead_copy, named_0, branching_callable, branching_cfg, branching-IsWellFormed, indexed,
  listed, found,
}

three_distinct : (k : InstId) → count k ((at 0).inst_id ∷ (at 1).inst_id ∷ (at 2).inst_id ∷ []) ≤ 1
unfolding count
three_distinct k = ground (
  arith,
  inst_id_beq_iff k (at 0).inst_id,
  inst_id_beq_iff k (at 1).inst_id,
  inst_id_beq_iff k (at 2).inst_id,
)

branching-HasDistinctInstIds : HasDistinctInstIds branching_callable.blocks
unfolding niflheim.Backend.Analysis.Liveness.Tables.all_inst_ids
    niflheim.Backend.Ir.InstIds.instruction_base
branching-HasDistinctInstIds k = three_distinct k

live_after-block_live_in_example :
    elem
      (reg 3)
      (live_after (liveness_of_cfg branching_cfg).live_after_instruction (inst_id dead_copy))
    ≡ elem (reg 3) (
        block_live_in [] named_0.terminator
          (live_at (liveness_of_cfg branching_cfg).live_out_by_block (label 0)))
live_after-block_live_in_example =
    live_after-block_live_in branching_callable branching_cfg (label 0) named_0 refl indexed listed
      found branching-HasDistinctInstIds (setting ∷ []) dead_copy [] (reg 3) refl

without_copies :
    (c' : CallableDecl) × (eliminate_callable branching_callable ≡ ok c') × IsWellFormed c'
without_copies = eliminate_callable-IsWellFormed branching_callable refl branching-IsWellFormed

eliminate_callable-IsWellFormed_example :
    (c' : CallableDecl) × (eliminate_callable branching_callable ≡ ok c') × IsWellFormed c'
eliminate_callable-IsWellFormed_example =
    eliminate_callable-IsWellFormed branching_callable refl branching-IsWellFormed

eliminate_callable_keeps_runs_example :
    observe (run_from counting without_copies.0.blocks 5 (label 0) units 0)
    ≡ observe (run_from counting branching_callable.blocks 5 (label 0) units 0)
eliminate_callable_keeps_runs_example =
    eliminate_callable_keeps_runs counting branching_callable without_copies.0 (label 0) 5 units 0
      branching-HasDistinctInstIds refl without_copies.1
