-- ===== src/Backend/Optimizations/DeadPure/Registers.antt =====
-- `_remove_unreferenced_registers` removes the declared registers that nothing mentions, and no other.
use niflheim.Shared.{
  ◌-◌, ◌≤◌, ◌≡◌, refl, sym, ap, ◌∙◌, Bool, false, ◌&&◌, ◌||◌, Bool-cases, Option, none, some, List,
  [], ◌∷◌, map, ◌==◌, nat_eq, nat_beq_iff, elem, elem-same, length, inl, inr, arith,
}
use niflheim.Backend.Ir.Ids.{RegId, reg_id_eq}
use niflheim.Backend.Ir.Model.{Instruction, Block, Register, CallableDecl}
use niflheim.Backend.Semantics.Operands.{instruction_def_reg}
use niflheim.Backend.Analysis.RegSet.{RegSet, update, elem-add, elem-update}
use niflheim.Backend.Analysis.Liveness.{instruction_use_regs, terminator_use_regs}
use niflheim.Backend.Optimizations.DeadPure.{
  add_definition, add_instruction_regs, add_block_regs, keep_referenced, insert_register,
  sort_registers, referenced_reg_ids, remove_unreferenced_registers,
}

abbrev pub is_some : RegId → Option RegId → Bool
is_some x none = false
is_some x (some d) = x == d

-- Whether an instruction defines or uses the register.
unfoldable pub instructions_mention : RegId → List Instruction → Bool
instructions_mention x [] = false
instructions_mention x (i ∷ is) =
    is_some x (instruction_def_reg i)
    || elem x (instruction_use_regs i)
    || instructions_mention x is

unfoldable pub blocks_mention : RegId → List Block → Bool
blocks_mention x [] = false
blocks_mention x (b ∷ bs) =
    instructions_mention x b.instructions
    || elem x (terminator_use_regs b.terminator)
    || blocks_mention x bs

-- Whether the register is a parameter or the receiver, or stands in a block.
abbrev pub mentions : RegId → CallableDecl → Bool
mentions x c = elem x c.param_regs || is_some x c.receiver_reg || blocks_mention x c.blocks

abbrev pub declares : RegId → CallableDecl → Bool
declares x c = elem x (map (λ (r : Register). r.reg_id) c.registers)

elem-add_definition :
    (x : RegId) (d : Option RegId) (s : RegSet)
    → elem x (add_definition d s) ≡ (is_some x d || elem x s)
unfolding add_definition
elem-add_definition x none s = refl
elem-add_definition x (some d) s = elem-add x d s

elem-add_instruction_regs :
    (x : RegId) (s : RegSet) (is : List Instruction)
    → elem x (add_instruction_regs s is) ≡ (elem x s || instructions_mention x is)
unfolding add_instruction_regs instructions_mention
elem-add_instruction_regs x s [] = ground arith
elem-add_instruction_regs x s (i ∷ is) =
    let s' = add_definition (instruction_def_reg i) s in
    ground (
      arith,
      elem-add_instruction_regs x (update s' (instruction_use_regs i)) is,
      elem-update x s' (instruction_use_regs i),
      elem-add_definition x (instruction_def_reg i) s,
    )

elem-add_block_regs :
    (x : RegId) (s : RegSet) (bs : List Block)
    → elem x (add_block_regs s bs) ≡ (elem x s || blocks_mention x bs)
unfolding add_block_regs blocks_mention
elem-add_block_regs x s [] = ground arith
elem-add_block_regs x s (b ∷ bs) =
    let s' = add_instruction_regs s b.instructions in
    ground (
      arith,
      elem-add_block_regs x (update s' (terminator_use_regs b.terminator)) bs,
      elem-update x s' (terminator_use_regs b.terminator),
      elem-add_instruction_regs x s b.instructions,
    )

elem-referenced_reg_ids :
    (x : RegId) (c : CallableDecl) → elem x (referenced_reg_ids c) ≡ mentions x c
unfolding referenced_reg_ids elem
elem-referenced_reg_ids x c = ground (
  arith,
  elem-add_block_regs x (add_definition c.receiver_reg (update [] c.param_regs)) c.blocks,
  elem-add_definition x c.receiver_reg (update [] c.param_regs),
  elem-update x [] c.param_regs,
)

abbrev ids : List Register → List RegId
ids = map (λ (r : Register). r.reg_id)

elem-keep_referenced :
    (x : RegId) (s : RegSet) (rs : List Register)
    → elem x (ids (keep_referenced s rs)) ≡ (elem x (ids rs) && elem x s)
unfolding keep_referenced elem
elem-keep_referenced x s [] = refl
elem-keep_referenced x s (r ∷ rs) =
    ground (arith, elem-keep_referenced x s rs, elem-same x r.reg_id s)

elem-insert_register :
    (x : RegId) (r : Register) (rs : List Register)
    → elem x (ids (insert_register r rs)) ≡ (x == r.reg_id || elem x (ids rs))
unfolding insert_register elem
elem-insert_register x r [] = refl
elem-insert_register x r (s ∷ rs) = ground (arith, elem-insert_register x r rs)

elem-sort_registers :
    (x : RegId) (rs : List Register) → elem x (ids (sort_registers rs)) ≡ elem x (ids rs)
unfolding sort_registers elem
elem-sort_registers x [] = refl
elem-sort_registers x (r ∷ rs) =
    ground (arith, elem-insert_register x r (sort_registers rs), elem-sort_registers x rs)

keep_referenced_shorter :
    (s : RegSet) (rs : List Register) → length (keep_referenced s rs) ≤ length rs
unfolding keep_referenced
keep_referenced_shorter s [] = ground arith
keep_referenced_shorter s (r ∷ rs) = ground (arith, keep_referenced_shorter s rs)

-- If as many are kept as there were, all are.
keep_referenced_all :
    (s : RegSet) (rs : List Register)
    → length rs - length (keep_referenced s rs) ≡ 0
    → keep_referenced s rs ≡ rs
unfolding keep_referenced
keep_referenced_all s [] h = refl
keep_referenced_all s (r ∷ rs) h =
    ground (arith, keep_referenced_shorter s rs, keep_referenced_all s rs)

-- A register is declared afterwards if and only if it was declared before and is mentioned: as a
-- parameter, as the receiver, or by an instruction or a terminator of a block.
pub declares-remove_unreferenced_registers :
    (x : RegId) (c : CallableDecl)
    → declares x (remove_unreferenced_registers c).0 ≡ (declares x c && mentions x c)
unfolding remove_unreferenced_registers
declares-remove_unreferenced_registers x c =
    let s = referenced_reg_ids c in
    let kept = keep_referenced s c.registers in
    let same =
      elem-keep_referenced x s c.registers
      ∙ ap (λ (t : Bool). declares x c && t) (elem-referenced_reg_ids x c) in
    elim (Bool-cases (length c.registers - length kept == 0)) [
      | inl none_removed ↦
          let all =
            keep_referenced_all s c.registers
              ((nat_beq_iff (length c.registers - length kept) 0).0 none_removed) in
          rw (none_removed, remove_unreferenced_registers)
            (sym (ap (λ (rs : List Register). elem x (ids rs)) all) ∙ same)
      | inr some_removed ↦
          rw (some_removed, remove_unreferenced_registers) (elem-sort_registers x kept ∙ same)
    ]
