-- ===== src/Backend/Analysis/Safepoints/Apart.antt =====
-- The root slots of a callable keep apart what has to survive a collection.
use niflheim.Shared.{
  ◌≤◌, ◌≡◌, ◌≢◌, refl, sym, ap, subst, true, false, ◌||◌, none, some, List, [], ◌∷◌, ◌++◌, map,
  arith, elem, inl,
}
use niflheim.Shared.Result.{Result, ok, err, >>=-eq-ok, ok_unique}
use niflheim.Shared.Sorting.{sorted_by}
use niflheim.Shared.Count.{count}
use niflheim.Shared.Members.{IsIn, IsIn-right}
use niflheim.Backend.Ir.Ids.{RegId, BlockId, block_id_eq, inst_id_eq}
use niflheim.Backend.Ir.InstIds.{inst_id}
use niflheim.Backend.Ir.Model.{Instruction, Block, CallableDecl}
use niflheim.Backend.Semantics.Callables.{find_block}
use niflheim.Backend.Analysis.Cfg.{CfgError, CallableCfg, index_callable_cfg}
use niflheim.Backend.Analysis.Liveness.Fixpoint.{
  CallableLiveness, InstLiveSets, liveness_of_cfg, analyze_callable_liveness, inst_entry_sort_key,
  is_empty,
}
use niflheim.Backend.Analysis.Liveness.Tables.{HasDistinctInstIds}
use niflheim.Backend.Analysis.RootSlots.Plan.{HaveDifferentSlots}
use niflheim.Backend.Analysis.Safepoints.{
  lift, resolved_liveness, index_registers, iter_callable_instructions, add_safepoints,
  analyze_callable_safepoints, analyze_callable_root_slots,
}
use niflheim.Backend.Analysis.Safepoints.Spec.{Collects, HoldsReference, NeededAcross}
use niflheim.Backend.Analysis.Safepoints.Listing.{
  IsIn-iter_callable_instructions, count-iter_callable_instructions,
}
use niflheim.Backend.Analysis.Safepoints.Live.{
  Collects-safepoint, HoldsReference-IsReference, NeededAcross-live_across,
}
use niflheim.Backend.Analysis.Safepoints.Slots.{analyze_callable_root_slots_at}

lift-ok-eq : {A : Type 0} (r : Result CfgError A) (a : A) → lift r ≡ ok a → r ≡ ok a
lift-ok-eq (ok x) a h = ap ok (ok_unique (ok x) x a refl h)
lift-ok-eq (err e) a h = cc

IsIn-middle :
    (before : List Instruction) (i : Instruction) (behind is : List Instruction)
    → is ≡ before ++ i ∷ behind
    → IsIn i is
IsIn-middle before i behind is split =
    subst (IsIn i) (sym split) (IsIn-right i before (i ∷ behind) (inl refl))

no_blocks_found :
    (bs : List Block) (id : BlockId) (b : Block) → find_block id bs ≡ some b → is_empty bs ≡ false
unfolding find_block
no_blocks_found [] id b h = cc
no_blocks_found (x ∷ bs) id b h = refl

resolved_liveness-none :
    (c : CallableDecl) (cfg : CallableCfg)
    → (c.is_extern || is_empty c.blocks) ≡ false
    → index_callable_cfg c ≡ ok cfg
    → resolved_liveness c none ≡ ok (liveness_of_cfg cfg)
unfolding resolved_liveness analyze_callable_liveness
resolved_liveness-none c cfg body indexed = rw body (rw indexed refl)

-- Two different registers get different root slots if some instruction of a block that can be reached
-- may run the collector and both have to survive it: both are declared with the type of a reference,
-- the instruction writes neither, and each is read by the instruction or on some path behind it before
-- it is written. The instructions of the callable have different identifiers, and the safepoints are
-- those that are found with the liveness of the callable.
pub analyze_callable_root_slots_apart :
    (c : CallableDecl) (cfg : CallableCfg) (safepoints : InstLiveSets) (id : BlockId) (b : Block)
    (before : List Instruction) (i : Instruction) (behind : List Instruction) (r s : RegId)
    → c.is_extern ≡ false
    → index_callable_cfg c ≡ ok cfg
    → elem id cfg.reverse_postorder_ids ≡ true
    → find_block id c.blocks ≡ some b
    → HasDistinctInstIds c.blocks
    → b.instructions ≡ before ++ i ∷ behind
    → analyze_callable_safepoints c none ≡ ok safepoints
    → Collects i
    → NeededAcross c.blocks r i behind b.terminator
    → NeededAcross c.blocks s i behind b.terminator
    → HoldsReference r c.registers
    → HoldsReference s c.registers
    → r ≢ s
    → HaveDifferentSlots r s (analyze_callable_root_slots safepoints)
unfolding analyze_callable_safepoints
analyze_callable_root_slots_apart c cfg safepoints id b before i behind r s local indexed listed
      found distinct split analyzed collects needed_r needed_s ref_r ref_s apart =
    let body : (c.is_extern || is_empty c.blocks) ≡ false =
      ground (arith, local, no_blocks_found c.blocks id b found) in
    let steps = rw (body, analyze_callable_safepoints) at analyzed in
    let (liveness, resolved, steps) = >>=-eq-ok (resolved_liveness c none) _ steps in
    let same : liveness_of_cfg cfg ≡ liveness =
      ok_unique (resolved_liveness c none) (liveness_of_cfg cfg) liveness
        (resolved_liveness-none c cfg body indexed) resolved in
    let table = (liveness_of_cfg cfg).live_after_instruction in
    let index = index_registers [] c.registers in
    let (is, lifted, steps) = >>=-eq-ok (lift (iter_callable_instructions c)) _ steps in
    let lists = lift-ok-eq (iter_callable_instructions c) is lifted in
    let (regs, added, last) =
      >>=-eq-ok (add_safepoints liveness.live_after_instruction index [] is) _ steps in
    let added' : add_safepoints table index [] is ≡ ok regs =
      subst
        (λ (l : CallableLiveness). add_safepoints l.live_after_instruction index [] is ≡ ok regs)
        (sym same) added in
    let once : count (inst_id i) (map inst_id is) ≤ 1 =
      subst (λ n. n ≤ 1) (sym (count-iter_callable_instructions c is lists (inst_id i)))
        (distinct (inst_id i)) in
    let here =
      IsIn-iter_callable_instructions c is lists id b i found
        (IsIn-middle before i behind b.instructions split) in
    let live = λ (x : RegId).
      NeededAcross-live_across c cfg local indexed x id b before i behind listed found distinct
        split in
    subst (λ x. HaveDifferentSlots r s (analyze_callable_root_slots x))
      (ok_unique (ok (sorted_by inst_entry_sort_key regs)) _ safepoints refl last)
      (analyze_callable_root_slots_at table index i is regs r s here once added'
        (Collects-safepoint i collects) (live r needed_r) (live s needed_s)
        (HoldsReference-IsReference r c.registers ref_r)
        (HoldsReference-IsReference s c.registers ref_s) apart)
