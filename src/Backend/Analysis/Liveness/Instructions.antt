-- ===== src/Backend/Analysis/Liveness/Instructions.antt =====
-- What `_block_instruction_liveness` gives for the instructions of a block.
use niflheim.Shared.{
  ◌≡◌, refl, ap, ◌∙◌, false, some, List, [], ◌∷◌, ◌++◌, map, arith, ◌==◌, elem, beq_refl,
}
use niflheim.Shared.Dict.{lookup, insert, lookup-insert}
use niflheim.Backend.Ir.Ids.{InstId, inst_id_eq, RegId}
use niflheim.Backend.Ir.InstIds.{inst_id}
use niflheim.Backend.Ir.Model.{Instruction}
use niflheim.Backend.Analysis.RegSet.{RegSet, sorted_reg_tuple}
use niflheim.Backend.Analysis.Liveness.{transfer_instruction_live_set, instructions_live_in}
use niflheim.Backend.Analysis.Liveness.Fixpoint.{InstLiveSets, instruction_liveness}

front :
    (is : List Instruction) (live_end : RegSet)
    → (instruction_liveness is live_end).2 ≡ instructions_live_in is live_end
unfolding instruction_liveness instructions_live_in
front [] live_end = refl
front (i ∷ is) live_end = ap (transfer_instruction_live_set i) (front is live_end)

lookup-insert_other :
    (j k : InstId) (v : List RegId) (d : InstLiveSets)
    → (j == k) ≡ false
    → lookup j (insert k v d) ≡ lookup j d
lookup-insert_other j k v d h = lookup-insert j k v d ∙ rw h

lookup-insert_self :
    (k : InstId) (v : List RegId) (d : InstLiveSets) → lookup k (insert k v d) ≡ some v
lookup-insert_self k v d = lookup-insert k k v d ∙ rw (beq_refl k)

-- For an instruction whose identifier no earlier instruction has, the tables hold the live set behind
-- it and its transfer through the instruction. What is given for live in front of the terminator is
-- the live set in front of the first instruction.
pub instruction_liveness_lem :
    (before : List Instruction) (i : Instruction) (behind : List Instruction) (live_end : RegSet)
    → elem (inst_id i) (map inst_id before) ≡ false
    → (lookup (inst_id i) (instruction_liveness (before ++ i ∷ behind) live_end).0
        ≡ some (
            sorted_reg_tuple
              (transfer_instruction_live_set i (instructions_live_in behind live_end))))
      × (lookup (inst_id i) (instruction_liveness (before ++ i ∷ behind) live_end).1
          ≡ some (sorted_reg_tuple (instructions_live_in behind live_end)))
      × ((instruction_liveness (before ++ i ∷ behind) live_end).2
          ≡ instructions_live_in (before ++ i ∷ behind) live_end)
unfolding instruction_liveness elem
instruction_liveness_lem [] i behind live_end new = (
  lookup-insert_self (inst_id i) _ _
      ∙ ap (λ (s : RegSet). some (sorted_reg_tuple (transfer_instruction_live_set i s)))
          (front behind live_end),
  lookup-insert_self (inst_id i) _ _
      ∙ ap (λ (s : RegSet). some (sorted_reg_tuple s)) (front behind live_end),
  front (i ∷ behind) live_end,
)
instruction_liveness_lem (x ∷ before) i behind live_end new =
    let other : (inst_id i == inst_id x) ≡ false = ground (arith, new) in
    let rest = instruction_liveness_lem before i behind live_end (ground (arith, new)) in
    (
      lookup-insert_other (inst_id i) (inst_id x) _ _ other ∙ rest.0,
      lookup-insert_other (inst_id i) (inst_id x) _ _ other ∙ rest.1,
      front (x ∷ (before ++ i ∷ behind)) live_end,
    )
