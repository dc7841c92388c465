-- ===== src/Backend/Analysis/Liveness/Uses.antt =====
-- Every register that an instruction or a terminator reads is in its list of uses.
use niflheim.Shared.{
  ◌≡◌, refl, ap, ◌∙◌, true, none, some, List, [], ◌∷◌, ◌++◌, map, arith, elem, All, beq_refl,
}
use niflheim.Backend.Ir.Ids.{RegId, reg_id_eq}
use niflheim.Backend.Ir.Model.{
  Operand, reg_operand, const_operand, data_operand, callable_operand, Instruction, const_inst,
  copy_inst, unary_inst, cast_inst, type_test_inst, field_load_inst, array_alloc_inst,
  array_length_inst, null_check_inst, alloc_object_inst, call_inst, Terminator, branch, return,
  jump, trap, CallTarget, indirect_call,
}
use niflheim.Backend.Semantics.{Registers, Value, value, exit, take_branch, returned}
use niflheim.Backend.Semantics.Operands.{operands, target_operands}
use niflheim.Backend.Analysis.RegSet.{
  RegSet, update, elem-update, elem-sorted_reg_tuple, sorted_reg_tuple,
}
use niflheim.Backend.Analysis.Liveness.{
  operand_use_regs, call_target_operands, used_regs, merge_reg_uses, instruction_use_regs,
  terminator_use_regs,
}

-- The operand is no register, or one of the set.
abbrev pub Covers : RegSet → Operand → Type 0
Covers s (reg_operand r) = elem r s ≡ true
Covers s _ = Unit

pub operand_use_regs-Covers : (o : Operand) → Covers (operand_use_regs o) o
unfolding operand_use_regs elem
operand_use_regs-Covers (reg_operand r) = ground (arith, beq_refl r)
operand_use_regs-Covers _ = tt

used_regs-grows :
    (r : RegId) (s : RegSet) (os : List Operand) → elem r s ≡ true → elem r (used_regs s os) ≡ true
unfolding used_regs
used_regs-grows r s [] h = h
used_regs-grows r s (o ∷ os) h =
    used_regs-grows r (update s (operand_use_regs o)) os
      (ground (arith, elem-update r s (operand_use_regs o)))

Covers-used_regs :
    (s : RegSet) (o : Operand) (os : List Operand)
    → Covers (used_regs (update s (operand_use_regs o)) os) o
unfolding operand_use_regs elem
Covers-used_regs s (reg_operand r) os =
    used_regs-grows r (update s (r ∷ [])) os (ground (arith, elem-update r s (r ∷ []), beq_refl r))
Covers-used_regs s _ os = tt

used_regs-Covers : (s : RegSet) (os : List Operand) → All (Covers (used_regs s os)) os
unfolding used_regs
used_regs-Covers s [] = tt
used_regs-Covers s (o ∷ os) =
    (Covers-used_regs s o os, used_regs-Covers (update s (operand_use_regs o)) os)

sorted-Covers :
    (s : RegSet) (os : List Operand) → All (Covers s) os → All (Covers (sorted_reg_tuple s)) os
sorted-Covers s [] h = tt
sorted-Covers s (reg_operand r ∷ os) h = (elem-sorted_reg_tuple r s ∙ h.0, sorted-Covers s os h.1)
sorted-Covers s (const_operand c ∷ os) h = (tt, sorted-Covers s os h.1)
sorted-Covers s (data_operand c ∷ os) h = (tt, sorted-Covers s os h.1)
sorted-Covers s (callable_operand c t ∷ os) h = (tt, sorted-Covers s os h.1)

merge_reg_uses-Covers : (os : List Operand) → All (Covers (merge_reg_uses os)) os
unfolding merge_reg_uses
merge_reg_uses-Covers os = sorted-Covers (used_regs [] os) os (used_regs-Covers [] os)

same_targets : (t : CallTarget) → call_target_operands t ≡ target_operands t
unfolding call_target_operands
same_targets (indirect_call c) = refl
same_targets _ = refl

pub instruction_use_regs-Covers :
    (i : Instruction) → All (Covers (instruction_use_regs i)) (operands i)
unfolding instruction_use_regs
instruction_use_regs-Covers (call_inst b d t args s e) =
    rw (same_targets t) (merge_reg_uses-Covers (args ++ target_operands t))
instruction_use_regs-Covers (copy_inst b d o) = (operand_use_regs-Covers o, tt)
instruction_use_regs-Covers (unary_inst b d op o) = (operand_use_regs-Covers o, tt)
instruction_use_regs-Covers (cast_inst b d k o t f) = (operand_use_regs-Covers o, tt)
instruction_use_regs-Covers (type_test_inst b d k o t) = (operand_use_regs-Covers o, tt)
instruction_use_regs-Covers (field_load_inst b d o c n) = (operand_use_regs-Covers o, tt)
instruction_use_regs-Covers (array_alloc_inst b d k n e) = (operand_use_regs-Covers n, tt)
instruction_use_regs-Covers (array_length_inst b d a) = (operand_use_regs-Covers a, tt)
instruction_use_regs-Covers (null_check_inst b v) = (operand_use_regs-Covers v, tt)
instruction_use_regs-Covers (const_inst b d c) = tt
instruction_use_regs-Covers (alloc_object_inst b d c e) = tt
instruction_use_regs-Covers i = merge_reg_uses-Covers (operands i)

-- Two files of registers agree on a set.
abbrev pub AgreeOn : RegSet → Registers → Registers → Type 0
AgreeOn s ρ ρ' = (r : RegId) → elem r s ≡ true → ρ r ≡ ρ' r

value-AgreeOn :
    (s : RegSet) (ρ ρ' : Registers) (o : Operand)
    → AgreeOn s ρ ρ'
    → Covers s o
    → value ρ o ≡ value ρ' o
value-AgreeOn s ρ ρ' (reg_operand r) h c = h r c
value-AgreeOn s ρ ρ' _ h c = refl

values-AgreeOn :
    (s : RegSet) (ρ ρ' : Registers) (os : List Operand)
    → AgreeOn s ρ ρ'
    → All (Covers s) os
    → map (value ρ) os ≡ map (value ρ') os
values-AgreeOn s ρ ρ' [] h c = refl
values-AgreeOn s ρ ρ' (o ∷ os) h c =
    cc (value-AgreeOn s ρ ρ' o h c.0, values-AgreeOn s ρ ρ' os h c.1)

-- Register files that agree on the uses of an instruction give its operands the same values.
pub operands-AgreeOn :
    (i : Instruction) (ρ ρ' : Registers)
    → AgreeOn (instruction_use_regs i) ρ ρ'
    → map (value ρ) (operands i) ≡ map (value ρ') (operands i)
operands-AgreeOn i ρ ρ' h =
    values-AgreeOn (instruction_use_regs i) ρ ρ' (operands i) h (instruction_use_regs-Covers i)

pub exit-AgreeOn :
    (t : Terminator) (ρ ρ' : Registers)
    → AgreeOn (terminator_use_regs t) ρ ρ'
    → exit ρ t ≡ exit ρ' t
unfolding terminator_use_regs
exit-AgreeOn (branch s c t f) ρ ρ' h =
    ap (λ (v : Value). take_branch v t f)
      (value-AgreeOn (operand_use_regs c) ρ ρ' c h (operand_use_regs-Covers c))
exit-AgreeOn (return s (some o)) ρ ρ' h =
    ap (λ (v : Value). returned (some v))
      (value-AgreeOn (operand_use_regs o) ρ ρ' o h (operand_use_regs-Covers o))
exit-AgreeOn (return s none) ρ ρ' h = refl
exit-AgreeOn (jump s t) ρ ρ' h = refl
exit-AgreeOn (trap s k x) ρ ρ' h = refl
