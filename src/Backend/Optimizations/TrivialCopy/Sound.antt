-- ===== src/Backend/Optimizations/TrivialCopy/Sound.antt =====
-- Copy propagation keeps the meaning of a block.
use niflheim.Shared.{
  ◌≡◌, refl, ap, sym, subst, ◌∙◌, Bool, true, false, ◌||◌, Option, none, some, List, [], ◌∷◌, map,
  arith, if◌then◌else◌, Bool-cases, Option-cases, inl, inr, All, ltb,
}
use niflheim.Shared.Dict.{lookup, insert}
use niflheim.Backend.Ir.Ids.{RegId, reg_id_eq, reg_id_beq_iff}
use niflheim.Backend.Ir.Model.{
  Operand, reg_operand, const_operand, data_operand, callable_operand, unit_const, CallTarget,
  indirect_call, Instruction, const_inst, copy_inst, call_inst, Terminator, jump, branch, return,
  trap, Block,
}
use niflheim.Backend.Semantics.{
  Value, Registers, value, Machine, Outcome, running, trapped, write, step, run, take_branch, Exit,
  exit, returned, leaves, finish, run_block,
}
use niflheim.Backend.Semantics.Operands.{instruction_def_reg, map_target, map_operands}
use niflheim.Backend.Semantics.Steps.{
  step-map_operands, step-copy, step-running, write_same, write_self, Outcome-cases,
}
use niflheim.Backend.Optimizations.TrivialCopy.{
  CopyFacts, rewrite_operand, rewrite_operands, rewrite_call_target, rewrite_instruction_operands,
  rewrite_terminator_operands, operand_mentions_reg, invalidate_copy_facts, invalidate_definition,
  is_self_copy, record_copy, rewrite_instructions, rewrite_block,
}

abbrev by_facts : CopyFacts → Operand → Operand
by_facts facts o = (rewrite_operand o facts).0

map-by_facts :
    (os : List Operand) (facts : CopyFacts)
    → (rewrite_operands os facts).0 ≡ map (by_facts facts) os
unfolding rewrite_operands
map-by_facts [] facts = refl
map-by_facts (o ∷ os) facts =
    ap (λ (r : List Operand). by_facts facts o ∷ r) (map-by_facts os facts)

map_target-by_facts :
    (t : CallTarget) (facts : CopyFacts)
    → (rewrite_call_target t facts).0 ≡ map_target (by_facts facts) t
unfolding rewrite_call_target
map_target-by_facts (indirect_call c) facts = refl
map_target-by_facts _ facts = refl

-- The rewriting replaces each operand by its fact, and nothing else.
rewrite_instruction_operands_map :
    (i : Instruction) (facts : CopyFacts)
    → (rewrite_instruction_operands i facts).0 ≡ map_operands (by_facts facts) i
unfolding rewrite_instruction_operands
rewrite_instruction_operands_map (call_inst b d t xs s e) facts =
    λ i. call_inst b d (map_target-by_facts t facts i) (map-by_facts xs facts i) s e
rewrite_instruction_operands_map _ facts = refl

-- In the registers `ρ` every fact is true.
abbrev Agrees : Registers → CopyFacts → Type 0
Agrees ρ facts = All (λ b. value ρ b.1 ≡ ρ b.0) facts

lookup-Agrees :
    (ρ : Registers) (facts : CopyFacts) (r : RegId) (o : Operand)
    → Agrees ρ facts
    → lookup r facts ≡ some o
    → value ρ o ≡ ρ r
unfolding lookup
lookup-Agrees ρ [] r o h e = cc
lookup-Agrees ρ ((j, p) ∷ facts) r o h e =
    ground (arith, reg_id_beq_iff r j, lookup-Agrees ρ facts r o h.1)

value-by_facts :
    (ρ : Registers) (facts : CopyFacts)
    → Agrees ρ facts
    → (o : Operand) → value ρ (by_facts facts o) ≡ value ρ o
unfolding rewrite_operand
value-by_facts ρ facts h (reg_operand r) = elim (Option-cases (lookup r facts)) [
  | inl missing ↦ rw (value, rewrite_operand, missing)
  | inr (o, found) ↦ rw (value, rewrite_operand, found) (lookup-Agrees ρ facts r o h found)
]
value-by_facts ρ facts h _ = refl

-- An operand that does not mention `d` keeps its value when `d` is written.
value-write :
    (ρ : Registers) (d : RegId) (v : Value) (o : Operand)
    → operand_mentions_reg o d ≡ false
    → value (write (some d) v ρ) o ≡ value ρ o
unfolding operand_mentions_reg
value-write ρ d v (reg_operand r) h = rw h
value-write ρ d v _ h = refl

invalidate-Agrees :
    (ρ : Registers) (d : RegId) (v : Value) (facts : CopyFacts)
    → Agrees ρ facts
    → Agrees (write (some d) v ρ) (invalidate_copy_facts facts d)
unfolding invalidate_copy_facts
invalidate-Agrees ρ d v [] h = tt
invalidate-Agrees ρ d v ((r, o) ∷ facts) h =
    ground (arith, value-write ρ d v o, invalidate-Agrees ρ d v facts h.1)

insert-Agrees :
    (ρ : Registers) (r : RegId) (o : Operand) (facts : CopyFacts)
    → value ρ o ≡ ρ r
    → Agrees ρ facts
    → Agrees ρ (insert r o facts)
unfolding insert
insert-Agrees ρ r o [] e h = (e, tt)
insert-Agrees ρ r o ((j, p) ∷ facts) e h =
    ground (arith, reg_id_beq_iff r j, insert-Agrees ρ r o facts e h.1)

definition-Agrees :
    (ρ : Registers) (d : Option RegId) (v : Value) (facts : CopyFacts)
    → Agrees ρ facts
    → Agrees (write d v ρ) (invalidate_definition facts d)
unfolding invalidate_definition
definition-Agrees ρ none v facts h = h
definition-Agrees ρ (some d) v facts h = invalidate-Agrees ρ d v facts h

module _ {W : Type 0} (m : Machine W) where
  self_copy_idle :
      (i : Instruction) (ρ : Registers) (w : W) → is_self_copy i ≡ true → step m i ρ w ≡ running ρ w
  unfolding is_self_copy
  self_copy_idle (copy_inst b d (reg_operand r)) ρ w h =
      ground (arith, step-copy m b d (reg_operand r) ρ w, write_self d ρ, reg_id_beq_iff r d)
  self_copy_idle (copy_inst b d (const_operand c)) ρ w h = cc
  self_copy_idle (copy_inst b d (data_operand c)) ρ w h = cc
  self_copy_idle (copy_inst b d (callable_operand c t)) ρ w h = cc
  self_copy_idle _ ρ w h = cc

  not_self_mentions :
      (b : niflheim.Backend.Ir.Model.InstructionBase) (d : RegId) (o : Operand)
      → is_self_copy (copy_inst b d o) ≡ false
      → operand_mentions_reg o d ≡ false
  unfolding is_self_copy operand_mentions_reg
  not_self_mentions b d (reg_operand r) h = h
  not_self_mentions b d _ h = refl

  step-Agrees :
      (i : Instruction) (facts : CopyFacts) (ρ : Registers) (w : W) (ρ' : Registers) (w' : W)
      → Agrees ρ facts
      → step m i ρ w ≡ running ρ' w'
      → Agrees ρ' (invalidate_definition facts (instruction_def_reg i))
  step-Agrees i facts ρ w ρ' w' h e =
      let (v, changed) = step-running m i ρ w e in
      rw changed (definition-Agrees ρ (instruction_def_reg i) v facts h)

  record-Agrees :
      (i : Instruction) (facts : CopyFacts) (ρ : Registers) (w : W) (ρ' : Registers) (w' : W)
      → Agrees ρ facts
      → step m i ρ w ≡ running ρ' w'
      → is_self_copy i ≡ false
      → Agrees ρ' (record_copy i (invalidate_definition facts (instruction_def_reg i)))
  unfolding record_copy
  record-Agrees (copy_inst b d o) facts ρ w ρ' w' h e other =
      let v = value ρ o in
      let same : value (write (some d) v ρ) o ≡ write (some d) v ρ d =
        value-write ρ d v o (not_self_mentions b d o other) ∙ sym (write_same d v ρ) in
      let written : write (some d) v ρ ≡ ρ' = cc (step-copy m b d o ρ w) in
      insert-Agrees ρ' d o (invalidate_definition facts (some d))
        (subst (λ s. value s o ≡ s d) written same)
        (step-Agrees (copy_inst b d o) facts ρ w ρ' w' h e)
  record-Agrees i facts ρ w ρ' w' h e other = step-Agrees i facts ρ w ρ' w' h e

  abbrev Keeps : Outcome W → Outcome W → CopyFacts → Type 0
  Keeps after before facts =
      (after ≡ before) × ((ρ : Registers) (w : W) → before ≡ running ρ w → Agrees ρ facts)

  rewrite_instructions_sound :
      (is : List Instruction) (facts : CopyFacts) (ρ : Registers) (w : W)
      → Agrees ρ facts
      → Keeps
          (run m (rewrite_instructions facts is).0 ρ w)
          (run m is ρ w)
          (rewrite_instructions facts is).1
  unfolding rewrite_instructions run
  rewrite_instructions_sound [] facts ρ w h = (refl, λ ρ' w' e. subst (λ s. Agrees s facts) (cc) h)
  rewrite_instructions_sound (i ∷ is) facts ρ w h =
      let i' = (rewrite_instruction_operands i facts).0 in
      let same : step m i' ρ w ≡ step m i ρ w =
        rw (rewrite_instruction_operands_map i facts)
          (step-map_operands m (by_facts facts) i ρ w (value-by_facts ρ facts h)) in
      elim (Bool-cases (is_self_copy i')) [
        | inl self ↦
            let idle = self_copy_idle i' ρ w self in
            rw (self, rewrite_instructions)
              (rw (sym same ∙ idle) (
                rewrite_instructions_sound is (invalidate_definition facts (instruction_def_reg i'))
                  ρ w (step-Agrees i' facts ρ w ρ w h idle)))
        | inr other ↦
            rw (other, rewrite_instructions)
              (rw same (elim (Outcome-cases (step m i ρ w)) [
                | inl (ρ₁, w₁, e) ↦ rw e (
                    rewrite_instructions_sound is
                      (record_copy i' (invalidate_definition facts (instruction_def_reg i'))) ρ₁ w₁
                      (record-Agrees i' facts ρ w ρ₁ w₁ h (same ∙ e) other))
                | inr (w₁, e) ↦ rw e (refl, λ ρ' w' bad. cc)
              ]))
      ]

  rewrite_terminator_sound :
      (t : Terminator) (facts : CopyFacts) (ρ : Registers)
      → Agrees ρ facts
      → exit ρ (rewrite_terminator_operands t facts).0 ≡ exit ρ t
  unfolding rewrite_terminator_operands
  rewrite_terminator_sound (branch s c t f) facts ρ h =
      ap (λ (v : Value). take_branch v t f) (value-by_facts ρ facts h c)
  rewrite_terminator_sound (return s (some o)) facts ρ h =
      ap (λ (v : Value). returned (some v)) (value-by_facts ρ facts h o)
  rewrite_terminator_sound (return s none) facts ρ h = refl
  rewrite_terminator_sound (jump s t) facts ρ h = refl
  rewrite_terminator_sound (trap s k x) facts ρ h = refl

  rewritten_finish :
      (t : Terminator) (facts : CopyFacts) (before : Outcome W)
      → ((ρ : Registers) (w : W) → before ≡ running ρ w → Agrees ρ facts)
      → finish (rewrite_terminator_operands t facts).0 before ≡ finish t before
  rewritten_finish t facts (running ρ w) h =
      ap (λ (x : Exit). leaves x ρ w) (rewrite_terminator_sound t facts ρ (h ρ w refl))
  rewritten_finish t facts (trapped w) h = refl

  either_block :
      (changed : Bool) (kept block : Block) (ρ : Registers) (w : W)
      → run_block m kept ρ w ≡ run_block m block ρ w
      → run_block m (if◌then◌else◌ {A = Block × Bool} changed (kept, true) (block, false)).0 ρ w
        ≡ run_block m block ρ w
  either_block true kept block ρ w h = h
  either_block false kept block ρ w h = refl

-- The rewritten block leaves to the same place, with the same registers and the same world, or
-- traps in the same world, from whatever state the block is entered in.
pub run_block-rewrite_block :
    {W : Type 0} (m : Machine W) (block : Block) (ρ : Registers) (w : W)
    → run_block m (rewrite_block block).0 ρ w ≡ run_block m block ρ w
unfolding run_block rewrite_block
run_block-rewrite_block m block ρ w =
    let (kept, facts, changed) = rewrite_instructions [] block.instructions in
    let (t, n) = rewrite_terminator_operands block.terminator facts in
    let (same, true_facts) = rewrite_instructions_sound m block.instructions [] ρ w tt in
    either_block m (changed || ltb 0 n) (record block { instructions = kept; terminator = t }) block
      ρ w (ap (finish t) same ∙ rewritten_finish m block.terminator facts _ true_facts)
