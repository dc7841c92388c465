-- ===== src/Backend/Analysis/Safepoints/Live.antt =====
-- Registers that some path reads are in the live sets of `analyze_callable_liveness`, and the tests of
-- safepoints.py accept what the specification asks for.
use niflheim.Shared.{
  ◌≡◌, refl, sym, ap, ◌∙◌, subst, true, false, ◌||◌, some, List, [], ◌∷◌, ◌++◌, map, arith, ◌==◌,
  elem, Bool-cases, inl, inr, ◌⊎◌, All,
}
use niflheim.Shared.Dict.{lookup, insert, lookup-insert}
use niflheim.Shared.Result.{ok}
use niflheim.Backend.Ir.Ids.{RegId, reg_id_eq, reg_id_beq_iff, BlockId, block_id_eq}
use niflheim.Backend.Ir.InstIds.{inst_id}
use niflheim.Backend.Ir.Types.{
  SemanticTypeKind, SemanticTypeRef, type_ref, absent, present, is_reference_type_ref,
}
use niflheim.Backend.Ir.Model.{
  Effects, Operand, reg_operand, const_operand, data_operand, callable_operand, Instruction,
  call_inst, alloc_object_inst, array_alloc_inst, array_slice_inst, Terminator, branch, return,
  Block, Register, CallableDecl,
}
use niflheim.Backend.Semantics.Callables.{find_block}
use niflheim.Backend.Semantics.Operands.{operands, instruction_def_reg}
use niflheim.Backend.Analysis.RegSet.{RegSet, update, elem-update}
use niflheim.Backend.Analysis.Cfg.{CallableCfg, index_callable_cfg}
use niflheim.Backend.Analysis.Cfg.WellFormed.{terminator_targets}
use niflheim.Backend.Analysis.Cfg.Whole.{index_callable_cfg-Indexes, reverse_postorder_closed}
use niflheim.Backend.Analysis.Liveness.{
  instruction_use_regs, terminator_use_regs, operand_use_regs, remove_definition,
  instructions_live_in, block_live_in, transfer_instruction_live_set, transfer_terminator_live_set,
}
use niflheim.Backend.Analysis.Liveness.Fixpoint.{live_at, liveness_of_cfg, live_after}
use niflheim.Backend.Analysis.Liveness.Uses.{
  Covers, instruction_use_regs-Covers, operand_use_regs-Covers,
}
use niflheim.Backend.Analysis.Liveness.Sound.{transfer_instruction_keeps, kept_by_definition}
use niflheim.Backend.Analysis.Liveness.Runs.{live_in_some-target}
use niflheim.Backend.Analysis.Liveness.Stable.{analyze_callable_liveness-IsFixpoint}
use niflheim.Backend.Analysis.Liveness.Tables.{HasDistinctInstIds}
use niflheim.Backend.Analysis.Liveness.Behind.{live_after-block_live_in}
use niflheim.Backend.Analysis.Safepoints.{
  RegisterIndex, index_registers, live_across, register_is_gc_reference, instruction_is_safepoint,
  instruction_effects,
}
use niflheim.Backend.Analysis.Safepoints.Spec.{
  MayCollect, Collects, IsReferenceType, HoldReferences, HoldsReference, Reads, terminator_operands,
  Needed, reads_here, passes, reads_last, leads, NeededAcross,
}

-- The register is declared, and holds a reference.
abbrev pub IsReference : RegisterIndex → RegId → Type 0
IsReference index r =
    (register : Register) × (lookup r index ≡ some register)
    × (register_is_gc_reference register ≡ true)

may_collect : (e : Effects) → MayCollect e → (e.may_gc || e.needs_safepoint_hooks) ≡ true
may_collect e (inl h) = rw h refl
may_collect e (inr h) = ground (arith, h)

pub Collects-safepoint : (i : Instruction) → Collects i → instruction_is_safepoint i ≡ true
unfolding instruction_is_safepoint instruction_effects
Collects-safepoint (call_inst b d t args s e) h = may_collect e h
Collects-safepoint (alloc_object_inst b d c e) h = may_collect e h
Collects-safepoint (array_alloc_inst b d k n e) h = may_collect e h
Collects-safepoint (array_slice_inst b d k a i j e) h = may_collect e h
Collects-safepoint _ h = absurd h

IsReferenceType-accepted :
    (t : SemanticTypeRef) → IsReferenceType t → is_reference_type_ref t ≡ true
unfolding is_reference_type_ref
IsReferenceType-accepted (type_ref SemanticTypeKind.reference _ _ _ _ e _ _) h = refl
IsReferenceType-accepted (type_ref SemanticTypeKind.interface _ _ _ _ e _ _) h = refl
IsReferenceType-accepted (type_ref SemanticTypeKind.primitive _ _ _ _ absent _ _) h = absurd h
IsReferenceType-accepted (type_ref SemanticTypeKind.primitive _ _ _ _ (present e) _ _) h = refl
IsReferenceType-accepted (type_ref SemanticTypeKind.null _ _ _ _ absent _ _) h = absurd h
IsReferenceType-accepted (type_ref SemanticTypeKind.null _ _ _ _ (present e) _ _) h = refl
IsReferenceType-accepted (type_ref SemanticTypeKind.callable _ _ _ _ absent _ _) h = absurd h
IsReferenceType-accepted (type_ref SemanticTypeKind.callable _ _ _ _ (present e) _ _) h = refl

IsReference-insert :
    (r : RegId) (x : Register) (index : RegisterIndex)
    → (x.reg_id ≡ r → IsReferenceType x.type_ref)
    → (r ≡ x.reg_id) ⊎ IsReference index r
    → IsReference (insert x.reg_id x index) r
unfolding register_is_gc_reference
IsReference-insert r x index holds h = elim (Bool-cases (r == x.reg_id)) [
  | inl same ↦ (
    x,
    lookup-insert r x.reg_id x index ∙ rw same refl,
    IsReferenceType-accepted x.type_ref (holds (sym ((reg_id_beq_iff r x.reg_id).0 same))),
  )
  | inr other ↦ older h other
]
  where
    older :
        (r ≡ x.reg_id) ⊎ IsReference index r
        → (r == x.reg_id) ≡ false
        → IsReference (insert x.reg_id x index) r
    older (inl e) other = absurd (ground (arith, reg_id_beq_iff r x.reg_id))
    older (inr (y, found, is_ref)) other =
        (y, lookup-insert r x.reg_id x index ∙ rw other found, is_ref)

index_registers-IsReference :
    (r : RegId) (index : RegisterIndex) (xs : List Register)
    → HoldReferences r xs
    → (elem r (map (λ (x : Register). x.reg_id) xs) ≡ true) ⊎ IsReference index r
    → IsReference (index_registers index xs) r
unfolding index_registers elem
index_registers-IsReference r index [] holds (inl e) = cc
index_registers-IsReference r index [] holds (inr h) = h
index_registers-IsReference r index (x ∷ xs) (here, holds) (inr h) =
    index_registers-IsReference r (insert x.reg_id x index) xs holds
      (inr (IsReference-insert r x index here (inr h)))
index_registers-IsReference r index (x ∷ xs) (here, holds) (inl e) =
    index_registers-IsReference r (insert x.reg_id x index) xs holds
      (elim (Bool-cases (r == x.reg_id)) [
        | inl same ↦
            inr (IsReference-insert r x index here (inl ((reg_id_beq_iff r x.reg_id).0 same)))
        | inr other ↦ inl (rw other at e)
      ])

pub HoldsReference-IsReference :
    (r : RegId) (xs : List Register) → HoldsReference r xs → IsReference (index_registers [] xs) r
HoldsReference-IsReference r xs (declared, holds) =
    index_registers-IsReference r [] xs holds (inl declared)

read_covered :
    (r : RegId) (s : RegSet) (os : List Operand) → All (Covers s) os → Reads r os → elem r s ≡ true
read_covered r s [] h reads = absurd reads
read_covered r s (reg_operand x ∷ os) h (inl e) = subst (λ y. elem y s ≡ true) e h.0
read_covered r s (reg_operand x ∷ os) h (inr reads) = read_covered r s os h.1 reads
read_covered r s (const_operand c ∷ os) h reads = read_covered r s os h.1 reads
read_covered r s (data_operand c ∷ os) h reads = read_covered r s os h.1 reads
read_covered r s (callable_operand c t ∷ os) h reads = read_covered r s os h.1 reads

-- What an instruction reads is among its uses.
pub Reads-uses :
    (r : RegId) (i : Instruction) → Reads r (operands i) → elem r (instruction_use_regs i) ≡ true
Reads-uses r i reads =
    read_covered r (instruction_use_regs i) (operands i) (instruction_use_regs-Covers i) reads

Reads-terminator :
    (r : RegId) (t : Terminator)
    → Reads r (terminator_operands t)
    → elem r (terminator_use_regs t) ≡ true
unfolding terminator_use_regs
Reads-terminator r (branch s o t f) reads =
    read_covered r (operand_use_regs o) (o ∷ []) (operand_use_regs-Covers o, tt) reads
Reads-terminator r (return s (some o)) reads =
    read_covered r (operand_use_regs o) (o ∷ []) (operand_use_regs-Covers o, tt) reads
Reads-terminator r _ reads = absurd reads

module _ (c : CallableDecl) (cfg : CallableCfg) (local : c.is_extern ≡ false)
    (indexed : index_callable_cfg c ≡ ok cfg) where
  abbrev live_out : BlockId → RegSet
  live_out = live_at (liveness_of_cfg cfg).live_out_by_block

  -- What some path reads is live, at every point of a block that can be reached.
  Needed-live :
      (r : RegId) (id : BlockId) (b : Block) (is : List Instruction) (t : Terminator)
      → elem id cfg.reverse_postorder_ids ≡ true
      → find_block id c.blocks ≡ some b
      → b.terminator ≡ t
      → Needed c.blocks r is t
      → elem r (block_live_in is t (live_out id)) ≡ true
  unfolding block_live_in instructions_live_in transfer_instruction_live_set
      transfer_terminator_live_set
  Needed-live r id b _ _ listed found e (reads_here i is t reads) =
      let d = instruction_def_reg i in
      let live = block_live_in is t (live_out id) in
      ground (
        arith,
        elem-update r (remove_definition d live) (instruction_use_regs i),
        Reads-uses r i reads,
      )
  Needed-live r id b _ _ listed found e (passes i is t other rest) =
      transfer_instruction_keeps i r (block_live_in is t (live_out id))
        (Needed-live r id b is t listed found e rest) other
  Needed-live r id b _ _ listed found e (reads_last t reads) =
      ground
        (arith, elem-update r (live_out id) (terminator_use_regs t), Reads-terminator r t reads)
  Needed-live r id b _ _ listed found e (leads t next b' target there rest) =
      let target' : elem next (terminator_targets b.terminator) ≡ true =
        ap (λ (x : Terminator). elem next (terminator_targets x)) e ∙ target in
      let listed' =
        reverse_postorder_closed c cfg (index_callable_cfg-Indexes c local cfg indexed) id next b
          listed found target' in
      let inside = Needed-live r next b' b'.instructions b'.terminator listed' there refl rest in
      let live_in = (liveness_of_cfg cfg).live_in_by_block in
      let in_front : elem r (live_at live_in next) ≡ true =
        (analyze_callable_liveness-IsFixpoint c cfg next b' r local indexed listed' there).1
        ∙ inside in
      let behind : elem r (live_out id) ≡ true =
        (analyze_callable_liveness-IsFixpoint c cfg id b r local indexed listed found).0
        ∙ live_in_some-target live_in (terminator_targets b.terminator) next r target' in_front in
      ground (arith, elem-update r (live_out id) (terminator_use_regs t))

  -- What has to survive an instruction is in its set.
  pub NeededAcross-live_across :
      (r : RegId) (id : BlockId) (b : Block) (before : List Instruction) (i : Instruction)
      (behind : List Instruction)
      → elem id cfg.reverse_postorder_ids ≡ true
      → find_block id c.blocks ≡ some b
      → HasDistinctInstIds c.blocks
      → b.instructions ≡ before ++ i ∷ behind
      → NeededAcross c.blocks r i behind b.terminator
      → elem r (live_across i (liveness_of_cfg cfg).live_after_instruction) ≡ true
  unfolding live_across elem
  NeededAcross-live_across r id b before i behind listed found distinct split (other, needed) =
      let table = (liveness_of_cfg cfg).live_after_instruction in
      let after = live_after table (inst_id i) in
      let uses = instruction_use_regs i in
      kept_by_definition (instruction_def_reg i) r (update (update [] after) uses)
        (ground
          (arith, elem-update r (update [] after) uses, elem-update r [] after, in_one needed))
        other
    where
      in_one :
          Reads r (operands i) ⊎ Needed c.blocks r behind b.terminator
          → (elem r (live_after (liveness_of_cfg cfg).live_after_instruction (inst_id i))
              || elem r (instruction_use_regs i))
            ≡ true
      in_one (inl reads) = ground (arith, Reads-uses r i reads)
      in_one (inr rest) = ground (
        arith,
        live_after-block_live_in c cfg id b local indexed listed found distinct before i behind r
            split,
        Needed-live r id b behind b.terminator listed found refl rest,
      )
