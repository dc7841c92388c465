-- ===== src/Backend/Optimizations/AlgebraicSimplify/Callable.antt =====
-- compiler/backend/optimizations/algebraic_simplify.py: `_simplify_callable` and the pass over a program.
-- A block or a callable in which nothing changes is returned as it is, which is the same value.
use niflheim.Shared.{
  subst, ℕ, ◌≡◌, refl, ◌||◌, some, List, [], ◌∷◌, map, All, Bool-cases, inl, inr, if◌then◌else◌,
}
use niflheim.Shared.Result.{Result, ok, ◌>>=◌}
use niflheim.Backend.Ir.Ids.{BlockId}
use niflheim.Backend.Ir.Model.{Instruction, Block, CallableDecl, Program}
use niflheim.Backend.Semantics.{Registers, Machine, running, run, step, goto}
use niflheim.Backend.Semantics.Callables.{find_block, All-find_block, run_from}
use niflheim.Backend.Semantics.Steps.{Outcome-cases}
use niflheim.Backend.Semantics.Invariants.{run_from-where}
use niflheim.Backend.Analysis.Liveness.Fixpoint.{is_empty}
use niflheim.Backend.Analysis.Liveness.Runs.{run_block-leaves}
use niflheim.Backend.Optimizations.DeadPure.Callable.{register_type_names}
use niflheim.Backend.Optimizations.ConstantFold.Arith.{FloatOps}
use niflheim.Backend.Optimizations.AlgebraicSimplify.{TypeNames, simplify_block}
use niflheim.Backend.Optimizations.AlgebraicSimplify.Types.{
  SimplifyError, read_block_operand_types, HasDeclaredOperands, read_block_operand_types-declared,
}
use niflheim.Backend.Optimizations.AlgebraicSimplify.Blocks.{IsSound, run_block-simplify_block}

unfoldable pub simplify_blocks : TypeNames → List Block → Result SimplifyError (List Block)
simplify_blocks types [] = ok []
simplify_blocks types (b ∷ bs) = read_block_operand_types types b.instructions >>= λ _.
    simplify_blocks types bs >>= λ rest. ok (simplify_block b types ∷ rest)

unfoldable pub simplify_callable : CallableDecl → Result SimplifyError CallableDecl
simplify_callable c =
    if c.is_extern || is_empty c.blocks
    then ok c
    else (simplify_blocks (register_type_names c) c.blocks >>= λ blocks.
        ok (record c { blocks = blocks }))

unfoldable pub simplify_callables : List CallableDecl → Result SimplifyError (List CallableDecl)
simplify_callables [] = ok []
simplify_callables (c ∷ cs) =
    simplify_callable c >>= λ c'. simplify_callables cs >>= λ cs'. ok (c' ∷ cs')

unfoldable pub algebraic_simplify : Program → Result SimplifyError Program
algebraic_simplify program = simplify_callables program.callables >>= λ callables.
    ok (record program { callables = callables })

abbrev simplified : TypeNames → Block → Block
simplified types b = simplify_block b types

simplify_blocks-map :
    (types : TypeNames) (bs : List Block)
    → All (λ b. All (HasDeclaredOperands types) b.instructions) bs
    → simplify_blocks types bs ≡ ok (map (simplified types) bs)
unfolding simplify_blocks
simplify_blocks-map types [] h = refl
simplify_blocks-map types (b ∷ bs) (here, h) =
    rw (read_block_operand_types-declared types b.instructions here)
      (rw (simplify_blocks-map types bs h) refl)

simplified_name : (types : TypeNames) (b : Block) → (simplified types b).block_id ≡ b.block_id
unfolding simplify_block
simplified_name types b = refl

module _ (f : FloatOps) {W : Type 0} (m : Machine W) (types : TypeNames)
    (Good : Registers → Type 0) where
  run-keeps :
      (is : List Instruction) (ρ : Registers) (w : W) (ρ' : Registers) (w' : W)
      → All (IsSound f m types Good) is
      → Good ρ
      → run m is ρ w ≡ running ρ' w'
      → Good ρ'
  unfolding run
  run-keeps [] ρ w ρ' w' sound good h = let same : ρ ≡ ρ' = cc in subst Good same good
  run-keeps (i ∷ is) ρ w ρ' w' sound good h = elim (Outcome-cases (step m i ρ w)) [
    | inl (ρ₁, w₁, e) ↦
        run-keeps is ρ₁ w₁ ρ' w' sound.1 (sound.0.keeps ρ w ρ₁ w₁ good e) (rw e at h)
    | inr (w₁, e) ↦ let stuck = rw e at h in cc
  ]

-- For a callable that declares the registers which its binary operations read, the pass has a result,
-- and that does from every block what the callable does, to every bound on the number of blocks, from
-- a well typed state. What is well typed is a predicate on registers: it gives the operands of all
-- operations the types that they take, and every instruction keeps it. The machine computes on
-- constants what the language says, and no logical negation and no comparison of Booleans writes a
-- register that it reads.
pub run_from-simplify_callable :
    (f : FloatOps) {W : Type 0} (m : Machine W) (c : CallableDecl) (Good : Registers → Type 0)
    (n : ℕ) (id : BlockId) (ρ : Registers) (w : W)
    → All (λ b. All (HasDeclaredOperands (register_type_names c)) b.instructions) c.blocks
    → All (λ b. All (IsSound f m (register_type_names c) Good) b.instructions) c.blocks
    → Good ρ
    → (c' : CallableDecl) × (simplify_callable c ≡ ok c')
      × (run_from m c'.blocks n id ρ w ≡ run_from m c.blocks n id ρ w)
unfolding simplify_callable
run_from-simplify_callable f m c Good n id ρ w declared sound good =
    let types = register_type_names c in
    let sound_at : (id : BlockId) (b : Block)
        → find_block id c.blocks ≡ some b
        → All (IsSound f m types Good) b.instructions =
      λ id b found.
        All-find_block (λ x. All (IsSound f m types Good) x.instructions) id c.blocks b sound
          found in
    elim (Bool-cases (c.is_extern || is_empty c.blocks)) [
      | inl skipped ↦ (c, rw (skipped, simplify_callable) refl, refl)
      | inr body ↦ (
        record c { blocks = map (simplified types) c.blocks },
        rw (body, simplify_callable) (rw (simplify_blocks-map types c.blocks declared) refl),
        run_from-where m (simplified types) c.blocks (λ id ρ w. Good ρ) n id ρ w
            (simplified_name types)
            (λ id b ρ w found good.
              run_block-simplify_block f m b types Good ρ w (sound_at id b found) good)
            (λ id t b ρ w ρ₁ w₁ found good left.
              let (ran, leads) = run_block-leaves m b ρ w (goto t) ρ₁ w₁ left in
              run-keeps f m types Good b.instructions ρ w ρ₁ w₁ (sound_at id b found) good ran)
            good,
      )
    ]
