-- ===== src/Tests/Callables.antt =====
-- The theorems on whole callables, on forwarded jumps and on operators at concrete inputs.
use niflheim.Backend.Optimizations.DeadPure.{remove_unreferenced_registers}
use niflheim.Backend.Optimizations.DeadPure.Registers.{
  declares, mentions, declares-remove_unreferenced_registers,
}
use niflheim.Backend.Ir.Model.{CallableDecl, Register, RegisterOriginKind}
use niflheim.Shared.{ℕ, ◌&&◌, ◌≡◌, ◌≢◌, refl, String, Option, none, some, List, [], ◌∷◌}
use niflheim.Backend.Ir.Ids.{BlockId}
use niflheim.Backend.Ir.Ops.{BinaryOpKind, SemanticBinaryOp}
use niflheim.Backend.Ir.Tokens.{
  semantic_binary_op_from_token, semantic_binary_op_from_token-binary_op_text,
}
use niflheim.Backend.Semantics.{run_block}
use niflheim.Backend.Semantics.Callables.{run_from}
use niflheim.Backend.Optimizations.TrivialCopy.{rewrite_blocks}
use niflheim.Backend.Optimizations.TrivialCopy.Callable.{run_from-rewrite_blocks}
use niflheim.Backend.Optimizations.SimplifyCfg.{
  fold_constant_branches, same_target_branch, with_terminator, resolve_forward_target, resolve_from,
}
use niflheim.Backend.Optimizations.SimplifyCfg.Branches.{
  run_from-fold_constant_branches, run_block-same_target_branch,
}
use niflheim.Backend.Optimizations.SimplifyCfg.Forwarding.{
  LeadsTo, IsCyclic, resolve_forward_target-LeadsTo, resolve_forward_target-IsCyclic,
}
use niflheim.Tests.Blocks.{
  reg, span, branching, counting, i64_type, jumps, label, main_callable, units,
}

run_from-rewrite_blocks_example :
    run_from counting (rewrite_blocks main_callable.blocks).0 5 (label 0) units 0
    ≡ run_from counting main_callable.blocks 5 (label 0) units 0
run_from-rewrite_blocks_example =
    run_from-rewrite_blocks counting main_callable.blocks 5 (label 0) units 0

run_from-fold_constant_branches_example :
    run_from counting (fold_constant_branches main_callable).blocks 5 (label 0) units 0
    ≡ run_from counting main_callable.blocks 5 (label 0) units 0
run_from-fold_constant_branches_example =
    run_from-fold_constant_branches counting main_callable 5 (label 0) units 0

run_block-same_target_branch_example :
    run_block counting
      (with_terminator
        (branching (label 1) (label 1))
        (same_target_branch (branching (label 1) (label 1)).terminator))
      units
      0
    ≡ run_block counting (branching (label 1) (label 1)) units 0
run_block-same_target_branch_example =
    run_block-same_target_branch counting (branching (label 1) (label 1)) units 0 (λ ρ w e bad. cc)

resolved : resolve_forward_target (label 0) jumps ≡ some (label 2)
unfolding resolve_forward_target resolve_from niflheim.Shared.Dict.lookup
    niflheim.Backend.Ir.Ids.block_id_beq niflheim.Symbols.callable_id_beq niflheim.Shared.list_beq
    niflheim.Shared.elem
resolved = refl

resolve_forward_target-LeadsTo_example : LeadsTo jumps (label 0) (label 2)
resolve_forward_target-LeadsTo_example =
    resolve_forward_target-LeadsTo jumps (label 0) (label 2) resolved

unresolved : resolve_forward_target (label 3) jumps ≡ none
unfolding resolve_forward_target resolve_from niflheim.Shared.Dict.lookup
    niflheim.Backend.Ir.Ids.block_id_beq niflheim.Symbols.callable_id_beq niflheim.Shared.list_beq
    niflheim.Shared.elem
unresolved = refl

resolve_forward_target-IsCyclic_example : IsCyclic jumps (label 3)
resolve_forward_target-IsCyclic_example = resolve_forward_target-IsCyclic jumps (label 3) unresolved

semantic_binary_op_from_token-binary_op_text_example :
    (op : SemanticBinaryOp) × (semantic_binary_op_from_token "**" i64_type i64_type ≡ some op)
    × (op.kind ≡ BinaryOpKind.power)
semantic_binary_op_from_token-binary_op_text_example =
    semantic_binary_op_from_token-binary_op_text BinaryOpKind.power i64_type i64_type

abbrev declared : ℕ → Register
declared n = record {
  reg_id = reg n;
  type_ref = i64_type;
  debug_name = "r";
  origin_kind = RegisterOriginKind.temp;
  semantic_local_id = none;
  span = some span;
}

-- The register 9 is declared and stands nowhere.
abbrev with_registers : CallableDecl
with_registers = record main_callable {
  registers = declared 0 ∷ declared 1 ∷ declared 2 ∷ declared 9 ∷ [];
}

declares-remove_unreferenced_registers_example :
    declares (reg 9) (remove_unreferenced_registers with_registers).0
    ≡ (declares (reg 9) with_registers && mentions (reg 9) with_registers)
declares-remove_unreferenced_registers_example =
    declares-remove_unreferenced_registers (reg 9) with_registers
