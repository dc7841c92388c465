-- ===== src/Backend/Optimizations/TrivialCopy.antt =====
-- compiler/backend/optimizations/trivial_copy_elimination.py, the rewriting of one block. The
-- counters of `_TrivialCopyStats` only feed the log; the numbers of propagated operands are kept
-- where a result depends on them.
pub mod Sound
pub mod Callable
pub mod DeadCopies
pub mod DeadSound
pub mod Rewritten
pub mod Whole
use niflheim.Shared.{
  ℕ, ◌+◌, Bool, true, false, ◌||◌, Option, none, some, List, [], ◌∷◌, ◌==◌, if◌then◌else◌, ltb,
}
use niflheim.Shared.Dict.{Dict, lookup, insert}
use niflheim.Backend.Ir.Ids.{RegId, reg_id_eq}
use niflheim.Backend.Ir.Model.{
  Operand, reg_operand, const_operand, unit_const, CallTarget, direct_call, runtime_call,
  indirect_call, virtual_call, interface_call, Instruction, const_inst, copy_inst, unary_inst,
  binary_inst, cast_inst, type_test_inst, alloc_object_inst, field_load_inst, field_store_inst,
  array_alloc_inst, array_length_inst, array_load_inst, array_store_inst, array_slice_inst,
  array_slice_store_inst, null_check_inst, bounds_check_inst, call_inst, Terminator, jump, branch,
  return, trap, Block,
}
use niflheim.Backend.Semantics.Operands.{instruction_def_reg}

-- `copy_by_reg`: a register and the operand that it is a copy of.
abbrev pub CopyFacts : Type 0
CopyFacts = Dict RegId Operand

unfoldable pub rewrite_operand : Operand → CopyFacts → Operand × ℕ
rewrite_operand (reg_operand r) facts = elim (lookup r facts) [
  | some o ↦ (o, 1)
  | none ↦ (reg_operand r, 0)
]
rewrite_operand o facts = (o, 0)

unfoldable pub rewrite_operands : List Operand → CopyFacts → List Operand × ℕ
rewrite_operands [] facts = ([], 0)
rewrite_operands (o ∷ os) facts =
    let (o', n) = rewrite_operand o facts in
    let (os', k) = rewrite_operands os facts in (o' ∷ os', n + k)

unfoldable pub rewrite_call_target : CallTarget → CopyFacts → CallTarget × ℕ
rewrite_call_target (indirect_call callee) facts =
    let (callee', n) = rewrite_operand callee facts in (indirect_call callee', n)
rewrite_call_target t facts = (t, 0)

unfoldable pub rewrite_instruction_operands : Instruction → CopyFacts → Instruction × ℕ
rewrite_instruction_operands (copy_inst b d o) facts =
    let (o', n) = rewrite_operand o facts in (copy_inst b d o', n)
rewrite_instruction_operands (unary_inst b d op o) facts =
    let (o', n) = rewrite_operand o facts in (unary_inst b d op o', n)
rewrite_instruction_operands (binary_inst b d op l r) facts =
    let (l', n) = rewrite_operand l facts in
    let (r', k) = rewrite_operand r facts in (binary_inst b d op l' r', n + k)
rewrite_instruction_operands (cast_inst b d k o t trap_on_failure) facts =
    let (o', n) = rewrite_operand o facts in (cast_inst b d k o' t trap_on_failure, n)
rewrite_instruction_operands (type_test_inst b d k o t) facts =
    let (o', n) = rewrite_operand o facts in (type_test_inst b d k o' t, n)
rewrite_instruction_operands (field_load_inst b d o c name) facts =
    let (o', n) = rewrite_operand o facts in (field_load_inst b d o' c name, n)
rewrite_instruction_operands (field_store_inst b o c name v) facts =
    let (o', n) = rewrite_operand o facts in
    let (v', k) = rewrite_operand v facts in (field_store_inst b o' c name v', n + k)
rewrite_instruction_operands (array_alloc_inst b d kind len e) facts =
    let (len', n) = rewrite_operand len facts in (array_alloc_inst b d kind len' e, n)
rewrite_instruction_operands (array_length_inst b d a) facts =
    let (a', n) = rewrite_operand a facts in (array_length_inst b d a', n)
rewrite_instruction_operands (array_load_inst b d kind a i) facts =
    let (a', n) = rewrite_operand a facts in
    let (i', k) = rewrite_operand i facts in (array_load_inst b d kind a' i', n + k)
rewrite_instruction_operands (array_store_inst b kind a i v) facts =
    let (a', n) = rewrite_operand a facts in
    let (i', k) = rewrite_operand i facts in
    let (v', l) = rewrite_operand v facts in (array_store_inst b kind a' i' v', n + k + l)
rewrite_instruction_operands (array_slice_inst b d kind a i j e) facts =
    let (a', n) = rewrite_operand a facts in
    let (i', k) = rewrite_operand i facts in
    let (j', l) = rewrite_operand j facts in (array_slice_inst b d kind a' i' j' e, n + k + l)
rewrite_instruction_operands (array_slice_store_inst b kind a i j v) facts =
    let (a', n) = rewrite_operand a facts in
    let (i', k) = rewrite_operand i facts in
    let (j', l) = rewrite_operand j facts in
    let (v', p) = rewrite_operand v facts in
    (array_slice_store_inst b kind a' i' j' v', n + k + l + p)
rewrite_instruction_operands (null_check_inst b v) facts =
    let (v', n) = rewrite_operand v facts in (null_check_inst b v', n)
rewrite_instruction_operands (bounds_check_inst b a i) facts =
    let (a', n) = rewrite_operand a facts in
    let (i', k) = rewrite_operand i facts in (bounds_check_inst b a' i', n + k)
rewrite_instruction_operands (call_inst b d t args s e) facts =
    let (args', n) = rewrite_operands args facts in
    let (t', k) = rewrite_call_target t facts in (call_inst b d t' args' s e, n + k)
rewrite_instruction_operands i facts = (i, 0)

unfoldable pub rewrite_terminator_operands : Terminator → CopyFacts → Terminator × ℕ
rewrite_terminator_operands (branch s c t f) facts =
    let (c', n) = rewrite_operand c facts in (branch s c' t f, n)
rewrite_terminator_operands (return s (some o)) facts =
    let (o', n) = rewrite_operand o facts in (return s (some o'), n)
rewrite_terminator_operands t facts = (t, 0)

unfoldable pub operand_mentions_reg : Operand → RegId → Bool
operand_mentions_reg (reg_operand r) d = r == d
operand_mentions_reg _ d = false

-- The facts of `d`, and those that copy `d`, are dropped.
unfoldable pub invalidate_copy_facts : CopyFacts → RegId → CopyFacts
unfolding operand_mentions_reg
invalidate_copy_facts [] d = []
invalidate_copy_facts ((r, o) ∷ facts) d =
    let rest = invalidate_copy_facts facts d in
    if r == d || operand_mentions_reg o d then rest else (r, o) ∷ rest

unfoldable pub invalidate_definition : CopyFacts → Option RegId → CopyFacts
invalidate_definition facts none = facts
invalidate_definition facts (some d) = invalidate_copy_facts facts d

unfoldable pub is_self_copy : Instruction → Bool
is_self_copy (copy_inst b d (reg_operand r)) = r == d
is_self_copy _ = false

unfoldable pub record_copy : Instruction → CopyFacts → CopyFacts
record_copy (copy_inst b d o) facts = insert d o facts
record_copy _ facts = facts

-- The loop over the instructions: what is kept, the facts at the end, and `changed`.
unfoldable pub rewrite_instructions :
    CopyFacts → List Instruction → List Instruction × CopyFacts × Bool
rewrite_instructions facts [] = ([], facts, false)
rewrite_instructions facts (i ∷ is) =
    let (i', n) = rewrite_instruction_operands i facts in
    let facts' = invalidate_definition facts (instruction_def_reg i') in
    let is_self = is_self_copy i' in
    let (rest, last, changed) =
      rewrite_instructions (if is_self then facts' else record_copy i' facts') is in
    if is_self then (rest, last, true) else (i' ∷ rest, last, ltb 0 n || changed)

unfoldable pub rewrite_block : Block → Block × Bool
rewrite_block block =
    let (kept, facts, changed) = rewrite_instructions [] block.instructions in
    let (t, n) = rewrite_terminator_operands block.terminator facts in
    if changed || ltb 0 n
    then (record block { instructions = kept; terminator = t }, true)
    else (block, false)

-- The loop over the blocks of `_eliminate_callable`, and whether any of them changed.
unfoldable pub rewrite_blocks : List Block → List Block × Bool
rewrite_blocks [] = ([], false)
rewrite_blocks (b ∷ bs) =
    let (b', changed) = rewrite_block b in
    let (bs', more) = rewrite_blocks bs in (b' ∷ bs', changed || more)
