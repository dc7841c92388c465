-- ===== src/Backend/Analysis/Safepoints/Slots.antt =====
-- From liveness over safepoints to root slots.
use niflheim.Shared.{
  ◌≤◌, subst, ◌≡◌, ◌≢◌, refl, sym, ap, ◌∙◌, Bool, true, false, Option, some, List, [], ◌∷◌, map,
  arith, ◌==◌, elem, if◌then◌else◌, leb, beq_refl, Bool-cases, Option-cases, inl, inr, ◌⊎◌,
}
use niflheim.Shared.Dict.{lookup, insert, lookup-insert}
use niflheim.Shared.Result.{ok, >>=-eq-ok, ok_unique}
use niflheim.Shared.Sorting.{insert_by, sorted_by}
use niflheim.Shared.Members.{IsIn}
use niflheim.Shared.Count.{count, elem_of_count}
use niflheim.Backend.Analysis.Safepoints.Live.{IsReference}
use niflheim.Backend.Ir.Ids.{RegId, reg_id_eq, reg_id_beq_iff, InstId, inst_id_eq, inst_id_beq_iff}
use niflheim.Backend.Ir.InstIds.{inst_id}
use niflheim.Backend.Ir.Model.{Instruction, Register}
use niflheim.Backend.Analysis.RegSet.{sorted_reg_tuple, elem-sorted_reg_tuple}
use niflheim.Backend.Analysis.Liveness.Fixpoint.{InstLiveSets, inst_entry_sort_key}
use niflheim.Backend.Analysis.RootSlots.Conflicts.{together}
use niflheim.Backend.Analysis.RootSlots.Plan.{HaveDifferentSlots, build_root_slot_plan_apart}
use niflheim.Backend.Analysis.Safepoints.{
  RegisterIndex, gc_references, live_across, register_is_gc_reference,
  safepoint_live_regs_for_instruction, add_safepoints, instruction_is_safepoint,
  stored_live_reg_sets, all_safepoint_live_reg_sets, analyze_callable_root_slots,
}

keep_if : Bool → RegId → List RegId → List RegId
keep_if b x rest = if b then x ∷ rest else rest

gc_references_found :
    (index : RegisterIndex) (x : RegId) (ids live : List RegId) (found : Register)
    → lookup x index ≡ some found
    → gc_references index (x ∷ ids) ≡ ok live
    → (rest : List RegId) × (gc_references index ids ≡ ok rest)
      × (keep_if (register_is_gc_reference found) x rest ≡ live)
unfolding gc_references keep_if
gc_references_found index x ids live found declared h =
    let (rest, ran, last) =
      >>=-eq-ok (gc_references index ids) _ (rw (declared, gc_references) at h) in
    (rest, ran, ok_unique (ok (keep_if (register_is_gc_reference found) x rest)) _ live refl last)

gc_references_step :
    (index : RegisterIndex) (x : RegId) (ids live : List RegId)
    → gc_references index (x ∷ ids) ≡ ok live
    → (found : Register) × (lookup x index ≡ some found)
      × ((rest : List RegId) × (gc_references index ids ≡ ok rest)
          × (keep_if (register_is_gc_reference found) x rest ≡ live))
unfolding gc_references
gc_references_step index x ids live h = elim (Option-cases (lookup x index)) [
  | inl missing ↦ cc (rw (missing, gc_references) at h)
  | inr (found, declared) ↦ (found, declared, gc_references_found index x ids live found declared h)
]

some_register : (a b : Register) → (let o : Option Register = some a in o) ≡ some b → a ≡ b
some_register a b h = cc

elem-keep_if :
    (b : Bool) (r x : RegId) (rest : List RegId)
    → (elem r rest ≡ true) ⊎ ((r ≡ x) × (b ≡ true))
    → elem r (keep_if b x rest) ≡ true
unfolding keep_if elem
elem-keep_if true r x rest (inl h) = ground arith
elem-keep_if false r x rest (inl h) = h
elem-keep_if true r x rest (inr h) = ground (arith, reg_id_beq_iff r x, h.0)
elem-keep_if false r x rest (inr h) = cc (h.1)

gc_references-elem :
    (index : RegisterIndex) (ids live : List RegId) (r : RegId)
    → gc_references index ids ≡ ok live
    → elem r ids ≡ true
    → IsReference index r
    → elem r live ≡ true
unfolding elem
gc_references-elem index [] live r h e ref = cc
gc_references-elem index (x ∷ ids) live r h e (register, declared, is_ref) =
    let (found, declared_x, (rest, ran, kept)) = gc_references_step index x ids live h in
    let is_kept = register_is_gc_reference found in
    ap (elem r) (sym kept)
    ∙ elem-keep_if is_kept r x rest (elim (Bool-cases (r == x)) [
      | inl same ↦
          let e_x : r ≡ x = (reg_id_beq_iff r x).0 same in
          let e_reg : register ≡ found =
            some_register register found
              (sym declared ∙ ap (λ (y : RegId). lookup y index) e_x ∙ declared_x) in
          inr (e_x, sym (ap register_is_gc_reference e_reg) ∙ is_ref)
      | inr other ↦
          inl (gc_references-elem index ids rest r ran (ground arith) (register, declared, is_ref))
    ])

-- An entry of the table is one of the sets of the slot plan.
together_of_lookup :
    (r s : RegId) (id : InstId) (live : List RegId) (regs : InstLiveSets)
    → lookup id regs ≡ some live
    → elem r live ≡ true
    → elem s live ≡ true
    → r ≢ s
    → together r s (stored_live_reg_sets regs) ≡ true
unfolding lookup together
together_of_lookup r s id live [] found er es apart = cc
together_of_lookup r s id live ((k, v) ∷ regs) found er es apart =
    ground (arith, reg_id_beq_iff s r, together_of_lookup r s id live regs)

together-insert_by :
    (r s : RegId) (x : InstId × List RegId) (ys : InstLiveSets)
    → together r s (stored_live_reg_sets (insert_by inst_entry_sort_key x ys))
      ≡ together r s (stored_live_reg_sets (x ∷ ys))
unfolding insert_by together
together-insert_by r s x [] = refl
together-insert_by r s x (y ∷ ys) =
    elim (Bool-cases (leb (inst_entry_sort_key x) (inst_entry_sort_key y))) [
      | inl before ↦ rw before
      | inr behind ↦ rw behind (ground (arith, together-insert_by r s x ys))
    ]

together-sorted_by :
    (r s : RegId) (regs : InstLiveSets)
    → together r s (stored_live_reg_sets (sorted_by inst_entry_sort_key regs))
      ≡ together r s (stored_live_reg_sets regs)
unfolding sorted_by together
together-sorted_by r s [] = refl
together-sorted_by r s (x ∷ regs) =
    together-insert_by r s x (sorted_by inst_entry_sort_key regs)
    ∙ ground (arith, together-sorted_by r s regs)

module _ (table : InstLiveSets) (index : RegisterIndex) where
  add_safepoints_step :
      (regs regs' : InstLiveSets) (i : Instruction) (is : List Instruction)
      → add_safepoints table index regs (i ∷ is) ≡ ok regs'
      → instruction_is_safepoint i ≡ true
      → (live : List RegId) × (safepoint_live_regs_for_instruction i table index ≡ ok live)
        × (add_safepoints table index (insert (inst_id i) live regs) is ≡ ok regs')
  unfolding add_safepoints
  add_safepoints_step regs regs' i is h safepoint =
      >>=-eq-ok (safepoint_live_regs_for_instruction i table index) _
        (rw (safepoint, add_safepoints) at h)

  add_safepoints_skip :
      (regs regs' : InstLiveSets) (i : Instruction) (is : List Instruction)
      → add_safepoints table index regs (i ∷ is) ≡ ok regs'
      → instruction_is_safepoint i ≡ false
      → add_safepoints table index regs is ≡ ok regs'
  unfolding add_safepoints
  add_safepoints_skip regs regs' i is h plain = rw (plain, add_safepoints) at h

  add_nothing : (a b : InstLiveSets) → add_safepoints table index a [] ≡ ok b → a ≡ b
  unfolding add_safepoints
  add_nothing a b e = cc

  -- Instructions with other identifiers leave an entry alone.
  add_safepoints-other :
      (regs regs' : InstLiveSets) (is : List Instruction) (id : InstId)
      → add_safepoints table index regs is ≡ ok regs'
      → elem id (map inst_id is) ≡ false
      → lookup id regs' ≡ lookup id regs
  unfolding elem
  add_safepoints-other regs regs' [] id h new = ap (lookup id) (sym (add_nothing regs regs' h))
  add_safepoints-other regs regs' (i ∷ is) id h new =
      let other : (id == inst_id i) ≡ false = ground (arith, new) in
      let rest_new : elem id (map inst_id is) ≡ false = ground (arith, new) in
      elim (Bool-cases (instruction_is_safepoint i)) [
        | inl safepoint ↦
            let (live, _, rest) = add_safepoints_step regs regs' i is h safepoint in
            add_safepoints-other (insert (inst_id i) live regs) regs' is id rest rest_new
            ∙ lookup-insert id (inst_id i) live regs
            ∙ rw other
        | inr plain ↦
            add_safepoints-other regs regs' is id (add_safepoints_skip regs regs' i is h plain)
              rest_new
      ]

  -- The entry of an instruction whose identifier is in the list once.
  add_safepoints-entry :
      (i : Instruction) (is : List Instruction) (regs regs' : InstLiveSets)
      → IsIn i is
      → count (inst_id i) (map inst_id is) ≤ 1
      → add_safepoints table index regs is ≡ ok regs'
      → instruction_is_safepoint i ≡ true
      → (live : List RegId) × (safepoint_live_regs_for_instruction i table index ≡ ok live)
        × (lookup (inst_id i) regs' ≡ some live)
  unfolding count elem
  add_safepoints-entry i [] regs regs' here once h safepoint = absurd here
  add_safepoints-entry i (x ∷ behind) regs regs' (inl e) once h safepoint =
      let added = subst (λ y. add_safepoints table index regs (y ∷ behind) ≡ ok regs') (sym e) h in
      let same = ap inst_id e in
      let new : elem (inst_id i) (map inst_id behind) ≡ false = ground (
        arith,
        once,
        inst_id_beq_iff (inst_id i) (inst_id x),
        same,
        elem_of_count (inst_id i) (map inst_id behind),
      ) in
      let (live, found, rest) = add_safepoints_step regs regs' i behind added safepoint in
      (
        live,
        found,
        add_safepoints-other (insert (inst_id i) live regs) regs' behind (inst_id i) rest new
            ∙ lookup-insert (inst_id i) (inst_id i) live regs
            ∙ rw (beq_refl (inst_id i)),
      )
  add_safepoints-entry i (x ∷ rest) regs regs' (inr there) once h safepoint =
      let fewer : count (inst_id i) (map inst_id rest) ≤ 1 = omega arith in
      elim (Bool-cases (instruction_is_safepoint x)) [
        | inl here ↦
            let (live, _, added) = add_safepoints_step regs regs' x rest h here in
            add_safepoints-entry i rest (insert (inst_id x) live regs) regs' there fewer added
              safepoint
        | inr plain ↦
            add_safepoints-entry i rest regs regs' there fewer
              (add_safepoints_skip regs regs' x rest h plain) safepoint
      ]

  -- Two references in the set of one safepoint get different slots.
  pub analyze_callable_root_slots_at :
      (i : Instruction) (is : List Instruction) (regs : InstLiveSets) (r s : RegId)
      → IsIn i is
      → count (inst_id i) (map inst_id is) ≤ 1
      → add_safepoints table index [] is ≡ ok regs
      → instruction_is_safepoint i ≡ true
      → elem r (live_across i table) ≡ true
      → elem s (live_across i table) ≡ true
      → IsReference index r
      → IsReference index s
      → r ≢ s
      → HaveDifferentSlots r s (analyze_callable_root_slots (sorted_by inst_entry_sort_key regs))
  unfolding analyze_callable_root_slots safepoint_live_regs_for_instruction
  analyze_callable_root_slots_at i is regs r s here once added safepoint live_r live_s ref_r ref_s
        apart =
      let (live, found, entry) = add_safepoints-entry i is [] regs here once added safepoint in
      let ids = sorted_reg_tuple (live_across i table) in
      let in_r =
        gc_references-elem index ids live r found
          (elem-sorted_reg_tuple r (live_across i table) ∙ live_r) ref_r in
      let in_s =
        gc_references-elem index ids live s found
          (elem-sorted_reg_tuple s (live_across i table) ∙ live_s) ref_s in
      let safepoints = sorted_by inst_entry_sort_key regs in
      build_root_slot_plan_apart (all_safepoint_live_reg_sets safepoints) r s (
        together-sorted_by r s safepoints
        ∙ together-sorted_by r s regs
        ∙ together_of_lookup r s (inst_id i) live regs entry in_r in_s apart)
