-- ===== src/Backend/Optimizations/ConstantFold/Sound.antt =====
-- Constant folding keeps the meaning of a block.
use niflheim.Shared.{
  ◌≡◌, refl, ap, sym, subst, ◌∙◌, Bool, true, false, ◌||◌, Option, none, some, List, [], ◌∷◌,
  if◌then◌else◌, Option-cases, Bool-cases, inl, inr, All, ltb,
}
use niflheim.Backend.Ir.Ids.{reg_id_eq}
use niflheim.Backend.Ir.Types.{semantic_type_canonical_name}
use niflheim.Backend.Ir.Model.{
  Constant, Instruction, const_inst, copy_inst, unary_inst, binary_inst, cast_inst, Terminator,
  jump, branch, return, trap, Block,
}
use niflheim.Backend.Semantics.{
  Value, constant, Registers, Machine, Outcome, running, trapped, write, step, run, take_branch,
  Exit, exit, returned, leaves, finish, run_block,
}
use niflheim.Backend.Semantics.Operands.{instruction_def_reg}
use niflheim.Backend.Semantics.Steps.{step-map_operands, step-running, write_same, Outcome-cases}
use niflheim.Backend.Optimizations.ConstantFold.Arith.{FloatOps}
use niflheim.Backend.Optimizations.ConstantFold.Folding.{
  ConstantMap, resolve_constant, fold_unary, fold_binary, fold_cast, with_constant,
  integer_type_of_name, folded_constant,
}
use niflheim.Backend.Optimizations.ConstantFold.Correct.{
  fold_unary-EvalUnary, fold_binary-EvalBinary, fold_cast-EvalCast,
}
use niflheim.Backend.Optimizations.ConstantFold.Known.{
  Computes, Holds, insert-Holds, forget-Holds, forget-write-Holds, by_constants, value-by_constants,
  resolve-value,
}
use niflheim.Backend.Optimizations.ConstantFold.Pass.{
  rewrite_instruction_operands, rewrite_terminator_operands, const_like, forget_definition,
  record_constant, rewritten_instruction, fold_instruction, fold_instructions, fold_block,
}

with_constant-some :
    (o : Option Constant) (k : Constant → Option Constant) (c : Constant)
    → with_constant o k ≡ some c
    → (a : Constant) × (o ≡ some a) × (k a ≡ some c)
with_constant-some (some a) k c h = (a, refl, h)
with_constant-some none k c h = cc

module _ (f : FloatOps) {W : Type 0} (m : Machine W) where
  -- A folded instruction writes the constant.
  folded_step :
      (i : Instruction) (known : ConstantMap) (c : Constant) (ρ : Registers) (w : W)
      → Computes f m i
      → Holds ρ known
      → folded_constant f i known ≡ some c
      → step m i ρ w ≡ running (write (instruction_def_reg i) (constant c) ρ) w
  unfolding folded_constant step
  folded_step (copy_inst b d o) known c ρ w computes h e = rw (resolve-value ρ known o c h e)
  folded_step (unary_inst b d op o) known c ρ w computes h e =
      let (a, found, folded) =
        with_constant-some (resolve_constant o known) (fold_unary f op.kind) c e in
      rw (resolve-value ρ known o a h found)
        (rw (computes a c w (fold_unary-EvalUnary f op.kind a c folded)))
  folded_step (binary_inst b d op l r) known c ρ w computes h e =
      let (x, left, more) =
        with_constant-some (resolve_constant l known)
          (λ x. with_constant (resolve_constant r known) (fold_binary f op x)) c e in
      let (y, right, folded) =
        with_constant-some (resolve_constant r known) (fold_binary f op x) c more in
      rw (resolve-value ρ known l x h left, resolve-value ρ known r y h right)
        (rw (computes x y c w (fold_binary-EvalBinary f op x y c folded)))
  folded_step (cast_inst b d k o t false) known c ρ w computes h e =
      let name = integer_type_of_name (semantic_type_canonical_name t) in
      let (a, found, folded) =
        with_constant-some (resolve_constant o known) (fold_cast f k false name) c e in
      rw (resolve-value ρ known o a h found)
        (rw (computes a c w (fold_cast-EvalCast f k false name a c folded).1))
  folded_step (cast_inst b d k o t true) known c ρ w computes h e =
      let name = integer_type_of_name (semantic_type_canonical_name t) in
      let (a, found, folded) =
        with_constant-some (resolve_constant o known) (fold_cast f k true name) c e in
      let (never, _) = fold_cast-EvalCast f k true name a c folded in cc
  folded_step _ known c ρ w computes h e = cc

  step-const_like :
      (i : Instruction) (known : ConstantMap) (c : Constant) (ρ : Registers) (w : W)
      → folded_constant f i known ≡ some c
      → step m (const_like i c) ρ w ≡ running (write (instruction_def_reg i) (constant c) ρ) w
  unfolding folded_constant const_like step
  step-const_like (copy_inst b d o) known c ρ w e = refl
  step-const_like (unary_inst b d op o) known c ρ w e = refl
  step-const_like (binary_inst b d op l r) known c ρ w e = refl
  step-const_like (cast_inst b d k o t traps) known c ρ w e = refl
  step-const_like _ known c ρ w e = cc

  operands_step :
      (i : Instruction) (known : ConstantMap) (ρ : Registers) (w : W)
      → Holds ρ known
      → step m (rewrite_instruction_operands i known).0 ρ w ≡ step m i ρ w
  unfolding rewrite_instruction_operands
  operands_step (unary_inst b d op o) known ρ w h =
      step-map_operands m (by_constants known) (unary_inst b d op o) ρ w
        (value-by_constants ρ known h)
  operands_step (binary_inst b d op l r) known ρ w h =
      step-map_operands m (by_constants known) (binary_inst b d op l r) ρ w
        (value-by_constants ρ known h)
  operands_step (cast_inst b d k o t traps) known ρ w h =
      step-map_operands m (by_constants known) (cast_inst b d k o t traps) ρ w
        (value-by_constants ρ known h)
  operands_step _ known ρ w h = refl

  rewritten_step :
      (i : Instruction) (known : ConstantMap) (ρ : Registers) (w : W)
      → Holds ρ known
      → step m (rewritten_instruction i known).0 ρ w ≡ step m i ρ w
  unfolding rewritten_instruction
  rewritten_step i known ρ w h =
      elim (Bool-cases (ltb 0 (rewrite_instruction_operands i known).1)) [
        | inl changed ↦ rw (changed, rewritten_instruction) (operands_step i known ρ w h)
        | inr same ↦ rw (same, rewritten_instruction)
      ]

  -- What stands in place of an instruction does the same.
  step-fold_instruction :
      (i : Instruction) (known : ConstantMap) (ρ : Registers) (w : W)
      → Computes f m i
      → Holds ρ known
      → step m (fold_instruction f i known).0 ρ w ≡ step m i ρ w
  unfolding fold_instruction
  step-fold_instruction i known ρ w computes h = elim (Option-cases (folded_constant f i known)) [
    | inl missing ↦ rw (missing, fold_instruction) (rewritten_step i known ρ w h)
    | inr (c, found) ↦
        rw (found, fold_instruction)
          (step-const_like i known c ρ w found ∙ sym (folded_step i known c ρ w computes h found))
  ]

  operands_def :
      (i : Instruction) (known : ConstantMap)
      → instruction_def_reg (rewrite_instruction_operands i known).0 ≡ instruction_def_reg i
  unfolding rewrite_instruction_operands
  operands_def (unary_inst b d op o) known = refl
  operands_def (binary_inst b d op l r) known = refl
  operands_def (cast_inst b d k o t traps) known = refl
  operands_def _ known = refl

  const_like_def :
      (i : Instruction) (known : ConstantMap) (c : Constant)
      → folded_constant f i known ≡ some c
      → instruction_def_reg (const_like i c) ≡ instruction_def_reg i
  unfolding folded_constant const_like
  const_like_def (copy_inst b d o) known c e = refl
  const_like_def (unary_inst b d op o) known c e = refl
  const_like_def (binary_inst b d op l r) known c e = refl
  const_like_def (cast_inst b d k o t traps) known c e = refl
  const_like_def _ known c e = cc

  -- What stands in place of an instruction writes the register that the instruction writes.
  fold_instruction_def :
      (i : Instruction) (known : ConstantMap)
      → instruction_def_reg (fold_instruction f i known).0 ≡ instruction_def_reg i
  unfolding fold_instruction rewritten_instruction
  fold_instruction_def i known = elim (Option-cases (folded_constant f i known)) [
    | inl missing ↦ elim (Bool-cases (ltb 0 (rewrite_instruction_operands i known).1)) [
      | inl changed ↦
          rw (missing, fold_instruction)
            (rw (changed, rewritten_instruction) (operands_def i known))
      | inr same ↦ rw (missing, fold_instruction) (rw (same, rewritten_instruction))
    ]
    | inr (c, found) ↦ rw (found, fold_instruction) (const_like_def i known c found)
  ]

  record-Holds :
      (i : Instruction) (constants : ConstantMap) (ρ : Registers) (w : W) (ρ' : Registers) (w' : W)
      → Holds ρ constants
      → step m i ρ w ≡ running ρ' w'
      → Holds ρ' (record_constant i (forget_definition (instruction_def_reg i) constants))
  unfolding record_constant step
  record-Holds (const_inst b d c) constants ρ w ρ' w' h e =
      let written : write (some d) (constant c) ρ ≡ ρ' = cc in
      rw (sym written) (
        insert-Holds (write (some d) (constant c) ρ) d c (forget_definition (some d) constants)
          (write_same d (constant c) ρ) (forget-write-Holds ρ (some d) (constant c) constants h))
  record-Holds i constants ρ w ρ' w' h e =
      let (v, changed) = step-running m i ρ w e in
      rw changed (forget-write-Holds ρ (instruction_def_reg i) v constants h)

  abbrev pub Keeps : Outcome W → Outcome W → ConstantMap → Type 0
  Keeps after before constants =
      (after ≡ before) × ((ρ : Registers) (w : W) → before ≡ running ρ w → Holds ρ constants)

  pub fold_instructions_sound :
      (is : List Instruction) (constants : ConstantMap) (ρ : Registers) (w : W)
      → All (Computes f m) is
      → Holds ρ constants
      → Keeps
          (run m (fold_instructions f constants is).0 ρ w)
          (run m is ρ w)
          (fold_instructions f constants is).1
  unfolding fold_instructions run
  fold_instructions_sound [] constants ρ w computes h =
      (refl, λ ρ' w' e. subst (λ s. Holds s constants) (cc) h)
  fold_instructions_sound (i ∷ is) constants ρ w (here, computes) h =
      let known = forget_definition (instruction_def_reg i) constants in
      let i' = (fold_instruction f i known).0 in
      let same =
        step-fold_instruction i known ρ w here
          (forget-Holds ρ (instruction_def_reg i) constants h) in
      rw same (elim (Outcome-cases (step m i ρ w)) [
        | inl (ρ₁, w₁, e) ↦
            let held =
              subst (λ d. Holds ρ₁ (record_constant i' (forget_definition d constants)))
                (fold_instruction_def i known) (record-Holds i' constants ρ w ρ₁ w₁ h (same ∙ e)) in
            rw e (fold_instructions_sound is (record_constant i' known) ρ₁ w₁ computes held)
        | inr (w₁, e) ↦ rw e (refl, λ ρ' w' bad. cc)
      ])

  rewrite_terminator_sound :
      (t : Terminator) (constants : ConstantMap) (ρ : Registers)
      → Holds ρ constants
      → exit ρ (rewrite_terminator_operands t constants).0 ≡ exit ρ t
  unfolding rewrite_terminator_operands
  rewrite_terminator_sound (branch s c t f) constants ρ h =
      ap (λ (v : Value). take_branch v t f) (value-by_constants ρ constants h c)
  rewrite_terminator_sound (return s (some o)) constants ρ h =
      ap (λ (v : Value). returned (some v)) (value-by_constants ρ constants h o)
  rewrite_terminator_sound (return s none) constants ρ h = refl
  rewrite_terminator_sound (jump s t) constants ρ h = refl
  rewrite_terminator_sound (trap s k x) constants ρ h = refl

  rewritten_finish :
      (t : Terminator) (constants : ConstantMap) (before : Outcome W)
      → ((ρ : Registers) (w : W) → before ≡ running ρ w → Holds ρ constants)
      → finish (rewrite_terminator_operands t constants).0 before ≡ finish t before
  rewritten_finish t constants (running ρ w) h =
      ap (λ (x : Exit). leaves x ρ w) (rewrite_terminator_sound t constants ρ (h ρ w refl))
  rewritten_finish t constants (trapped w) h = refl

  either_block :
      (changed : Bool) (rewritten block : Block) (ρ : Registers) (w : W)
      → run_block m rewritten ρ w ≡ run_block m block ρ w
      → run_block m
          (if◌then◌else◌ {A = Block × Bool} changed (rewritten, true) (block, false)).0
          ρ
          w
        ≡ run_block m block ρ w
  either_block true rewritten block ρ w h = h
  either_block false rewritten block ρ w h = refl

-- From a state in which the registers hold the constants that are known at the start of the block,
-- the folded block leaves to the same place, with the same registers and the same world, or traps
-- in the same world, on every machine whose unary operations, binary operations and casts in the
-- block give on constants what the language says.
pub run_block-fold_block :
    (f : FloatOps) {W : Type 0} (m : Machine W) (block : Block) (initial : ConstantMap)
    (ρ : Registers) (w : W)
    → All (Computes f m) block.instructions
    → Holds ρ initial
    → run_block m (fold_block f block initial).0 ρ w ≡ run_block m block ρ w
unfolding run_block fold_block
run_block-fold_block f m block initial ρ w computes h =
    let (rewritten, constants, changed) = fold_instructions f initial block.instructions in
    let (t, n) = rewrite_terminator_operands block.terminator constants in
    let (same, held) = fold_instructions_sound f m block.instructions initial ρ w computes h in
    either_block f m (changed || ltb 0 n)
      (record block { instructions = rewritten; terminator = t }) block ρ w
      (ap (finish t) same ∙ rewritten_finish f m block.terminator constants _ held)
