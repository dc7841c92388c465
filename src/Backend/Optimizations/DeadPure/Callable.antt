-- ===== src/Backend/Optimizations/DeadPure/Callable.antt =====
-- compiler/backend/optimizations/dead_pure_definition_elimination.py: the pass over a callable, which
-- is repeated until it removes nothing.
use niflheim.Shared.{
  ℕ, zero, suc, ◌+◌, true, false, ◌||◌, List, [], ◌∷◌, ◌==◌, nat_eq, if◌then◌else◌, length,
}
use niflheim.Shared.Dict.{insert}
use niflheim.Shared.Result.{Result, ok, ◌>>=◌}
use niflheim.Backend.Ir.Ids.{reg_id_eq}
use niflheim.Backend.Ir.Types.{semantic_type_canonical_name}
use niflheim.Backend.Ir.Model.{Block, Register, CallableDecl, Program}
use niflheim.Backend.Analysis.Cfg.{CfgError}
use niflheim.Backend.Analysis.Liveness.Fixpoint.{
  LiveSets, live_at, CallableLiveness, analyze_callable_liveness, is_empty,
}
use niflheim.Backend.Optimizations.DeadPure.{
  TypeNames, eliminate_block, remove_unreferenced_registers,
}

unfoldable pub add_type_names : TypeNames → List Register → TypeNames
add_type_names types [] = types
add_type_names types (r ∷ rs) =
    add_type_names (insert r.reg_id (semantic_type_canonical_name r.type_ref) types) rs

abbrev pub register_type_names : CallableDecl → TypeNames
register_type_names c = add_type_names [] c.registers

unfoldable pub eliminate_blocks : TypeNames → LiveSets → List Block → List Block × ℕ
eliminate_blocks types live_out [] = ([], 0)
eliminate_blocks types live_out (b ∷ bs) =
    let (kept, removed) = eliminate_block types (live_at live_out b.block_id) b in
    let (rest, removed_behind) = eliminate_blocks types live_out bs in
    (kept ∷ rest, removed + removed_behind)

unfoldable pub eliminate_with : CallableDecl → CallableLiveness → CallableDecl × ℕ
eliminate_with c liveness =
    let (blocks, removed) =
      eliminate_blocks (register_type_names c) liveness.live_out_by_block c.blocks in
    if removed == 0 then (c, 0) else (record c { blocks = blocks }, removed)

unfoldable pub eliminate_callable_once : CallableDecl → Result CfgError (CallableDecl × ℕ)
eliminate_callable_once c =
    analyze_callable_liveness c >>= λ liveness. ok (eliminate_with c liveness)

abbrev pub count_instructions : List Block → ℕ
count_instructions [] = 0
count_instructions (b ∷ bs) = length b.instructions + count_instructions bs

-- The `while True` loop of `_eliminate_callable`, on fuel.
unfoldable pub eliminate_from : ℕ → CallableDecl → Result CfgError CallableDecl
eliminate_from zero current = ok current
eliminate_from (suc fuel) current = eliminate_callable_once current >>= λ once. elim (once.1 == 0) [
  | true ↦ ok current
  | false ↦ eliminate_from fuel once.0
]

-- Each round but the last removes an instruction.
unfoldable pub eliminate_callable : CallableDecl → Result CfgError CallableDecl
eliminate_callable c =
    if c.is_extern || is_empty c.blocks
    then ok c
    else (eliminate_from (count_instructions c.blocks + 1) c >>= λ current.
        ok (remove_unreferenced_registers current).0)

-- `dead_pure_definition_elimination`
unfoldable pub eliminate_callables : List CallableDecl → Result CfgError (List CallableDecl)
eliminate_callables [] = ok []
eliminate_callables (c ∷ cs) = do
  kept ← eliminate_callable c
  rest ← eliminate_callables cs
  ok (kept ∷ rest)

unfoldable pub dead_pure_definition_elimination : Program → Result CfgError Program
dead_pure_definition_elimination program =
    eliminate_callables program.callables >>= λ cs. ok (record program { callables = cs })
