-- ===== src/Backend/Optimizations/TrivialCopy/DeadCopies.antt =====
-- compiler/backend/optimizations/trivial_copy_elimination.py: `_remove_dead_copies`,
-- `_eliminate_callable` and the pass over a program.
use niflheim.Shared.{
  ℕ, ◌+◌, Bool, true, false, ◌||◌, not, List, [], ◌∷◌, ◌==◌, nat_eq, elem, if◌then◌else◌, ltb,
}
use niflheim.Shared.Result.{Result, ok, ◌>>=◌}
use niflheim.Backend.Ir.Ids.{reg_id_eq}
use niflheim.Backend.Ir.Model.{Instruction, copy_inst, Block, CallableDecl, Program}
use niflheim.Backend.Analysis.Cfg.{CfgError}
use niflheim.Backend.Analysis.Liveness.Fixpoint.{
  InstLiveSets, live_after, is_empty, analyze_callable_liveness,
}
use niflheim.Backend.Optimizations.TrivialCopy.{rewrite_blocks}

unfoldable pub is_dead_copy : InstLiveSets → Instruction → Bool
is_dead_copy table (copy_inst b d o) = not (elem d (live_after table b.inst_id))
is_dead_copy table _ = false

-- The instructions that are kept, and the number of the others.
unfoldable pub remove_from_instructions : InstLiveSets → List Instruction → List Instruction × ℕ
remove_from_instructions table [] = ([], 0)
remove_from_instructions table (i ∷ is) =
    let (kept, removed) = remove_from_instructions table is in
    if is_dead_copy table i then (kept, removed + 1) else (i ∷ kept, removed)

unfoldable pub remove_from_blocks : InstLiveSets → List Block → List Block × ℕ
remove_from_blocks table [] = ([], 0)
remove_from_blocks table (b ∷ bs) =
    let (kept, removed) = remove_from_instructions table b.instructions in
    let (rest, more) = remove_from_blocks table bs in
    (record b { instructions = kept } ∷ rest, removed + more)

unfoldable pub remove_dead_copies : CallableDecl → Result CfgError (CallableDecl × ℕ)
remove_dead_copies c = analyze_callable_liveness c >>= λ liveness.
    let (blocks, removed) = remove_from_blocks liveness.live_after_instruction c.blocks in
    ok (if removed == 0 then (c, 0) else (record c { blocks = blocks }, removed))

unfoldable pub rewrite_callable : CallableDecl → CallableDecl × Bool
rewrite_callable c =
    let (blocks, changed) = rewrite_blocks c.blocks in
    if changed then (record c { blocks = blocks }, true) else (c, false)

unfoldable pub eliminate_callable : CallableDecl → Result CfgError CallableDecl
eliminate_callable c =
    if c.is_extern || is_empty c.blocks
    then ok c
    else (let (rewritten, changed) = rewrite_callable c in
        remove_dead_copies rewritten >>= λ (pruned, removed).
        ok (if changed || ltb 0 removed then pruned else c))

unfoldable pub eliminate_callables : List CallableDecl → Result CfgError (List CallableDecl)
eliminate_callables [] = ok []
eliminate_callables (c ∷ cs) =
    eliminate_callable c >>= λ c'. eliminate_callables cs >>= λ cs'. ok (c' ∷ cs')

unfoldable pub trivial_copy_elimination : Program → Result CfgError Program
trivial_copy_elimination program = eliminate_callables program.callables >>= λ callables.
    ok (record program { callables = callables })
