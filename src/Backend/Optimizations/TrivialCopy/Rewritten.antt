-- ===== src/Backend/Optimizations/TrivialCopy/Rewritten.antt =====
-- What the propagation of copies leaves of a callable.
use niflheim.Shared.{
  ℕ, ◌≤◌, ◌≡◌, refl, sym, ap, subst, ◌||◌, ◌==◌, none, some, List, [], ◌∷◌, map, arith, nat_eq, ltb,
  Bool-cases, inl, inr,
}
use niflheim.Shared.Count.{count, indicator, count-append}
use niflheim.Backend.Ir.Ids.{InstId, inst_id_eq, BlockId}
use niflheim.Backend.Ir.InstIds.{inst_id, instruction_base}
use niflheim.Backend.Ir.Model.{
  Instruction, call_inst, Terminator, jump, branch, return, trap, Block, CallableDecl,
}
use niflheim.Backend.Semantics.{Registers, Machine}
use niflheim.Backend.Semantics.Operands.{instruction_def_reg}
use niflheim.Backend.Semantics.Callables.{run_from}
use niflheim.Backend.Analysis.Cfg.WellFormed.{IsWellFormed, TargetsDeclared}
use niflheim.Backend.Analysis.Cfg.Changes.{map-IsWellFormed}
use niflheim.Backend.Analysis.Liveness.Fixpoint.{is_empty}
use niflheim.Backend.Analysis.Liveness.Tables.{block_inst_ids, all_inst_ids}
use niflheim.Backend.Optimizations.TrivialCopy.{
  CopyFacts, rewrite_instruction_operands, invalidate_definition, is_self_copy, record_copy,
  rewrite_instructions, rewrite_terminator_operands, rewrite_block, rewrite_blocks,
}
use niflheim.Backend.Optimizations.TrivialCopy.Callable.{
  rewritten, rewritten_name, rewrite_blocks-map, run_from-rewrite_blocks,
}
use niflheim.Backend.Optimizations.TrivialCopy.DeadCopies.{rewrite_callable}

inst_id-rewrite_instruction_operands :
    (i : Instruction) (facts : CopyFacts)
    → inst_id (rewrite_instruction_operands i facts).0 ≡ inst_id i
unfolding rewrite_instruction_operands instruction_base
inst_id-rewrite_instruction_operands (call_inst b d t xs s e) facts = refl
inst_id-rewrite_instruction_operands _ facts = refl

count-rewrite_instructions :
    (k : InstId) (facts : CopyFacts) (is : List Instruction)
    → count k (map inst_id (rewrite_instructions facts is).0) ≤ count k (map inst_id is)
unfolding rewrite_instructions count
count-rewrite_instructions k facts [] = omega arith
count-rewrite_instructions k facts (i ∷ is) =
    let i' = (rewrite_instruction_operands i facts).0 in
    let facts' = invalidate_definition facts (instruction_def_reg i') in
    let same : indicator (k == inst_id i') ≡ indicator (k == inst_id i) =
      ap (λ (x : InstId). indicator (k == x)) (inst_id-rewrite_instruction_operands i facts) in
    elim (Bool-cases (is_self_copy i')) [
      | inl self ↦ rw self (omega (arith, count-rewrite_instructions k facts' is))
      | inr other ↦
          rw other (omega (arith, same, count-rewrite_instructions k (record_copy i' facts') is))
    ]

count-rewrite_block :
    (k : InstId) (b : Block)
    → count k (block_inst_ids (rewrite_block b).0) ≤ count k (block_inst_ids b)
unfolding rewrite_block
count-rewrite_block k b =
    let n =
      (rewrite_terminator_operands b.terminator (rewrite_instructions [] b.instructions).1).1 in
    elim (Bool-cases ((rewrite_instructions [] b.instructions).2 || ltb 0 n)) [
      | inl changed ↦ rw changed (count-rewrite_instructions k [] b.instructions)
      | inr same ↦ rw same (omega arith)
    ]

count-rewrite_blocks :
    (k : InstId) (bs : List Block)
    → count k (all_inst_ids (rewrite_blocks bs).0) ≤ count k (all_inst_ids bs)
unfolding rewrite_blocks all_inst_ids
count-rewrite_blocks k [] = omega arith
count-rewrite_blocks k (b ∷ bs) = omega (
  arith,
  count-append k (block_inst_ids b) (all_inst_ids bs),
  count-append k (block_inst_ids (rewrite_block b).0) (all_inst_ids (rewrite_blocks bs).0),
  count-rewrite_block k b,
  count-rewrite_blocks k bs,
)

empty-rewrite_blocks : (bs : List Block) → is_empty (rewrite_blocks bs).0 ≡ is_empty bs
unfolding rewrite_blocks
empty-rewrite_blocks [] = refl
empty-rewrite_blocks (b ∷ bs) = refl

same_targets :
    (ids : List BlockId) (t : Terminator) (facts : CopyFacts)
    → TargetsDeclared ids t
    → TargetsDeclared ids (rewrite_terminator_operands t facts).0
unfolding rewrite_terminator_operands
same_targets ids (jump s t) facts h = h
same_targets ids (branch s c t f) facts h = h
same_targets ids (return s none) facts h = h
same_targets ids (return s (some o)) facts h = h
same_targets ids (trap s k o) facts h = h

leads-rewritten :
    (ids : List BlockId) (b : Block)
    → TargetsDeclared ids b.terminator
    → TargetsDeclared ids (rewritten b).terminator
unfolding rewrite_block
leads-rewritten ids b h =
    let facts = (rewrite_instructions [] b.instructions).1 in
    let n = (rewrite_terminator_operands b.terminator facts).1 in
    elim (Bool-cases ((rewrite_instructions [] b.instructions).2 || ltb 0 n)) [
      | inl changed ↦
          let e : (rewritten b).terminator ≡ (rewrite_terminator_operands b.terminator facts).0 =
            rw (changed, rewritten, rewrite_block) refl in
          subst (TargetsDeclared ids) (sym e) (same_targets ids b.terminator facts h)
      | inr same ↦
          let e : (rewritten b).terminator ≡ b.terminator =
            rw (same, rewritten, rewrite_block) refl in
          subst (TargetsDeclared ids) (sym e) h
    ]

-- What the first half leaves of a callable.
pub record Rewritten (c c' : CallableDecl) : Type 1 where
  pub same_extern : c'.is_extern ≡ c.is_extern
  pub same_empty : is_empty c'.blocks ≡ is_empty c.blocks
  pub same_entry : c'.entry_block_id ≡ c.entry_block_id
  pub fewer_ids : (k : InstId) → count k (all_inst_ids c'.blocks) ≤ count k (all_inst_ids c.blocks)
  pub still_fit : IsWellFormed c → IsWellFormed c'
  pub same_runs :
      {W : Type 0} (m : Machine W) (n : ℕ) (id : BlockId) (ρ : Registers) (w : W)
      → run_from m c'.blocks n id ρ w ≡ run_from m c.blocks n id ρ w

pub rewrite_callable-Rewritten : (c : CallableDecl) → Rewritten c (rewrite_callable c).0
unfolding rewrite_callable
rewrite_callable-Rewritten c = elim (Bool-cases ((rewrite_blocks c.blocks).1)) [
  | inl changed ↦ rw changed (record {
    same_extern = refl;
    same_empty = empty-rewrite_blocks c.blocks;
    same_entry = refl;
    fewer_ids = λ k. count-rewrite_blocks k c.blocks;
    still_fit = λ fit.
        rw (rewrite_blocks-map c.blocks)
          (map-IsWellFormed rewritten rewritten_name c leads-rewritten fit);
    same_runs = λ m n id ρ w. run_from-rewrite_blocks m c.blocks n id ρ w;
  })
  | inr same ↦ rw same (record {
    same_extern = refl;
    same_empty = refl;
    same_entry = refl;
    fewer_ids = λ k. omega arith;
    still_fit = λ fit. fit;
    same_runs = λ m n id ρ w. refl;
  })
]
