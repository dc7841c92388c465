-- ===== src/Backend/Analysis/Safepoints/Spec.antt =====
-- What root slots are needed for, independently of how safepoints.py finds it out: instructions at which
-- the collector may run, registers that hold references, and registers that are read on some path.
use niflheim.Shared.{◌≡◌, ◌≢◌, true, some, List, [], ◌∷◌, map, elem, ◌⊎◌}
use niflheim.Backend.Ir.Ids.{RegId, reg_id_eq, BlockId, block_id_eq}
use niflheim.Backend.Ir.Types.{SemanticTypeKind, SemanticTypeRef, type_ref, absent, present}
use niflheim.Backend.Ir.Model.{
  Effects, Operand, reg_operand, Instruction, call_inst, alloc_object_inst, array_alloc_inst,
  array_slice_inst, Terminator, branch, return, Block, Register,
}
use niflheim.Backend.Semantics.Callables.{find_block}
use niflheim.Backend.Semantics.Operands.{operands, instruction_def_reg}
use niflheim.Backend.Analysis.Cfg.WellFormed.{terminator_targets}

abbrev pub MayCollect : Effects → Type 0
MayCollect e = (e.may_gc ≡ true) ⊎ (e.needs_safepoint_hooks ≡ true)

-- The collector may run at the instruction: it calls or allocates, and its effects say so.
abbrev pub Collects : Instruction → Type 0
Collects (call_inst b d t args s e) = MayCollect e
Collects (alloc_object_inst b d c e) = MayCollect e
Collects (array_alloc_inst b d k n e) = MayCollect e
Collects (array_slice_inst b d k a i j e) = MayCollect e
Collects _ = ⊥

abbrev pub IsReferenceKind : SemanticTypeKind → Type 0
IsReferenceKind SemanticTypeKind.reference = Unit
IsReferenceKind SemanticTypeKind.interface = Unit
IsReferenceKind _ = ⊥

-- References are objects, values of an interface and arrays.
abbrev pub IsReferenceType : SemanticTypeRef → Type 0
IsReferenceType (type_ref kind _ _ _ _ absent _ _) = IsReferenceKind kind
IsReferenceType (type_ref kind _ _ _ _ (present element) _ _) = Unit

abbrev pub HoldReferences : RegId → List Register → Type 0
HoldReferences r [] = Unit
HoldReferences r (x ∷ xs) = (x.reg_id ≡ r → IsReferenceType x.type_ref) × HoldReferences r xs

-- The register is declared, with the type of a reference.
abbrev pub HoldsReference : RegId → List Register → Type 0
HoldsReference r registers =
    (elem r (map (λ (x : Register). x.reg_id) registers) ≡ true) × HoldReferences r registers

abbrev pub Reads : RegId → List Operand → Type 0
Reads r [] = ⊥
Reads r (reg_operand x ∷ os) = (x ≡ r) ⊎ Reads r os
Reads r (_ ∷ os) = Reads r os

abbrev pub terminator_operands : Terminator → List Operand
terminator_operands (branch s o t f) = o ∷ []
terminator_operands (return s (some o)) = o ∷ []
terminator_operands _ = []

-- Some path from in front of the instructions reads the register before it is written.
pub data Needed (blocks : List Block) (r : RegId) : List Instruction → Terminator → Type 0 where
  reads_here :
      (i : Instruction) (is : List Instruction) (t : Terminator)
      → Reads r (operands i)
      → Needed blocks r (i ∷ is) t
  passes :
      (i : Instruction) (is : List Instruction) (t : Terminator)
      → instruction_def_reg i ≢ some r
      → Needed blocks r is t
      → Needed blocks r (i ∷ is) t
  reads_last : (t : Terminator) → Reads r (terminator_operands t) → Needed blocks r [] t
  leads :
      (t : Terminator) (next : BlockId) (b : Block)
      → elem next (terminator_targets t) ≡ true
      → find_block next blocks ≡ some b
      → Needed blocks r b.instructions b.terminator
      → Needed blocks r [] t

-- The register has to survive the instruction: the instruction reads it, or it is read behind it,
-- and the instruction does not write it.
abbrev pub NeededAcross : List Block → RegId → Instruction → List Instruction → Terminator → Type 0
NeededAcross blocks r i behind t =
    (instruction_def_reg i ≢ some r) × (Reads r (operands i) ⊎ Needed blocks r behind t)
