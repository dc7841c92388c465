-- ===== src/Backend/Optimizations/DeadPure/Ends.antt =====
-- The loop over a callable removes an instruction in each round but the last, and keeps what can be
-- seen of the runs.
use niflheim.Shared.{
  ℕ, zero, suc, ◌+◌, ◌<◌, ◌≡◌, refl, sym, ap, ◌∙◌, subst, true, false, ◌||◌, some, List, arith,
  ◌==◌, nat_eq, All, Bool-cases, inl, inr,
}
use niflheim.Shared.Result.{ok, ◌>>=◌, >>=-eq-ok, ok_unique}
use niflheim.Backend.Ir.Ids.{BlockId, block_id_eq}
use niflheim.Backend.Ir.Model.{Block, CallableDecl}
use niflheim.Backend.Semantics.{Registers, Machine}
use niflheim.Backend.Semantics.Callables.{run_from, observe}
use niflheim.Backend.Analysis.Cfg.{CallableCfg, index_callable_cfg}
use niflheim.Backend.Analysis.Cfg.WellFormed.{IsWellFormed}
use niflheim.Backend.Analysis.Cfg.Whole.{
  index_callable_cfg-Indexes, index_callable_cfg_accepts, elem-reverse_postorder_entry,
}
use niflheim.Backend.Analysis.Liveness.Fixpoint.{
  analyze_callable_liveness, liveness_of_cfg, is_empty,
}
use niflheim.Backend.Optimizations.DeadPure.{remove_unreferenced_registers}
use niflheim.Backend.Optimizations.DeadPure.Pure.{UncheckedTotal, DoublesDeclared}
use niflheim.Backend.Optimizations.DeadPure.Sound.{KeepsDeclared}
use niflheim.Backend.Optimizations.DeadPure.Callable.{
  register_type_names, eliminate_with, eliminate_callable_once, count_instructions, eliminate_from,
  eliminate_callable,
}
use niflheim.Backend.Optimizations.DeadPure.Thins.{kept_block_declared}
use niflheim.Backend.Analysis.Cfg.Changes.{All-map_blocks}
use niflheim.Backend.Optimizations.DeadPure.Runs.{kept_block, KeepsAllDeclared, run_from-kept}
use niflheim.Backend.Optimizations.DeadPure.Rounds.{
  IsBody, IsBody-local, analyze_body, Round, once_cases, Round-IsBody, Round-IsWellFormed,
  Round-count, done, thinned,
}

-- What the runs need of a callable, and what of it a round keeps.
record Behaves {W : Type 0} (m : Machine W) (c c' : CallableDecl) : Type 0 where
  same_entry : c'.entry_block_id ≡ c.entry_block_id
  same_types : register_type_names c' ≡ register_type_names c
  keeps : KeepsAllDeclared m (register_type_names c) c'.blocks
  same_runs :
      (entry : BlockId) (n : ℕ) (ρ : Registers) (w : W)
      → c.entry_block_id ≡ some entry
      → DoublesDeclared (register_type_names c) ρ
      → observe (run_from m c'.blocks n entry ρ w) ≡ observe (run_from m c.blocks n entry ρ w)

module _ {W : Type 0} (m : Machine W) (total : UncheckedTotal m) where
  Behaves-same :
      (c : CallableDecl) → KeepsAllDeclared m (register_type_names c) c.blocks → Behaves m c c
  Behaves-same c keeps = record {
    same_entry = refl;
    same_types = refl;
    keeps = keeps;
    same_runs = λ entry n ρ w named declared. refl;
  }

  Behaves-then : (a b c : CallableDecl) → Behaves m a b → Behaves m b c → Behaves m a c
  Behaves-then a b c h k = record {
    same_entry = k.same_entry ∙ h.same_entry;
    same_types = k.same_types ∙ h.same_types;
    keeps = subst (λ t. KeepsAllDeclared m t c.blocks) h.same_types k.keeps;
    same_runs = λ entry n ρ w named declared.
        k.same_runs entry n ρ w (h.same_entry ∙ named)
          (subst (λ t. DoublesDeclared t ρ) (sym h.same_types) declared)
        ∙ h.same_runs entry n ρ w named declared;
  }

  Round-Behaves :
      {c : CallableDecl} {cfg : CallableCfg} {once : CallableDecl × ℕ}
      → Round c cfg once
      → IsBody c
      → index_callable_cfg c ≡ ok cfg
      → KeepsAllDeclared m (register_type_names c) c.blocks
      → Behaves m c once.0
  Round-Behaves {c} done body indexed keeps = Behaves-same c keeps
  Round-Behaves {c} {cfg} (thinned n some_removed sum) body indexed keeps =
      let types = register_type_names c in
      let live_out = (liveness_of_cfg cfg).live_out_by_block in
      let local = IsBody-local c body in
      let i = index_callable_cfg-Indexes c local cfg indexed in
      record {
        same_entry = refl;
        same_types = refl;
        keeps =
            All-map_blocks (kept_block types live_out)
              (λ b. All (KeepsDeclared m types) b.instructions) c.blocks
              (λ b h. kept_block_declared types live_out m types b h) keeps;
        same_runs = λ entry n ρ w named declared.
            run_from-kept m types total c cfg local indexed keeps n entry ρ ρ w
              (elem-reverse_postorder_entry c cfg i entry named) declared (λ r h. refl);
      }

  eliminate_from-Behaves :
      (fuel : ℕ) (c c' : CallableDecl)
      → IsBody c
      → KeepsAllDeclared m (register_type_names c) c.blocks
      → eliminate_from fuel c ≡ ok c'
      → Behaves m c c'
  unfolding eliminate_from
  eliminate_from-Behaves zero c c' body keeps h =
      subst (Behaves m c) (ok_unique (ok c) c c' refl h) (Behaves-same c keeps)
  eliminate_from-Behaves (suc fuel) c c' body keeps h =
      let (once, ran, rest) = >>=-eq-ok (eliminate_callable_once c) _ h in
      let (cfg, indexed, round) = once_cases c once body ran in
      let first = Round-Behaves round body indexed keeps in
      elim (Bool-cases (once.1 == 0)) [
        | inl stop ↦
            subst (Behaves m c) (ok_unique (ok c) c c' refl (rw stop at rest))
              (Behaves-same c keeps)
        | inr more ↦ Behaves-then c once.0 c' first (
            eliminate_from-Behaves fuel once.0 c' (Round-IsBody round body)
              (subst (λ t. KeepsAllDeclared m t once.0.blocks) (sym first.same_types) first.keeps)
              (rw more at rest))
      ]

remove_unreferenced_registers-blocks :
    (c : CallableDecl) → (remove_unreferenced_registers c).0.blocks ≡ c.blocks
unfolding remove_unreferenced_registers
remove_unreferenced_registers-blocks c = ground arith

-- The callable without its dead definitions behaves as the callable: from the entry, through any
-- number of blocks, a run leaves in the same way with the same result, stops in the same world, or
-- stands in front of the same block in the same world. This needs the unchecked operations to be
-- total, and doubles to be held in registers that are declared as doubles.
pub observe-eliminate_callable :
    {W : Type 0} (m : Machine W) (c c' : CallableDecl) (entry : BlockId) (n : ℕ) (ρ : Registers)
    (w : W)
    → UncheckedTotal m
    → KeepsAllDeclared m (register_type_names c) c.blocks
    → DoublesDeclared (register_type_names c) ρ
    → c.entry_block_id ≡ some entry
    → eliminate_callable c ≡ ok c'
    → observe (run_from m c'.blocks n entry ρ w) ≡ observe (run_from m c.blocks n entry ρ w)
unfolding eliminate_callable
observe-eliminate_callable m c c' entry n ρ w total keeps declared named h =
    elim (Bool-cases (c.is_extern || is_empty c.blocks)) [
      | inl skipped ↦
          let e : c ≡ c' = ok_unique (ok c) c c' refl (rw (skipped, eliminate_callable) at h) in
          ap (λ (x : CallableDecl). observe (run_from m x.blocks n entry ρ w)) (sym e)
      | inr body ↦
          let steps = rw (body, eliminate_callable) at h in
          let (current, ended, last) =
            >>=-eq-ok (eliminate_from (count_instructions c.blocks + 1) c) _ steps in
          let trimmed = (remove_unreferenced_registers current).0 in
          let e : trimmed ≡ c' = ok_unique (ok trimmed) trimmed c' refl last in
          let kept : c'.blocks ≡ current.blocks =
            ap (λ (x : CallableDecl). x.blocks) (sym e)
            ∙ remove_unreferenced_registers-blocks current in
          let behaves =
            eliminate_from-Behaves m total (count_instructions c.blocks + 1) c current body keeps
              ended in
          ap (λ (x : List Block). observe (run_from m x n entry ρ w)) kept
          ∙ behaves.same_runs entry n ρ w named declared
    ]

once_accepts :
    (c : CallableDecl)
    → IsBody c
    → IsWellFormed c
    → (once : CallableDecl × ℕ) × (eliminate_callable_once c ≡ ok once)
unfolding eliminate_callable_once
once_accepts c body fit =
    let (cfg, indexed) = index_callable_cfg_accepts c (IsBody-local c body) fit in
    let analyzed : analyze_callable_liveness c ≡ ok (liveness_of_cfg cfg) =
      analyze_body c body ∙ rw indexed in
    (eliminate_with c (liveness_of_cfg cfg), rw analyzed)

once_zero :
    {c : CallableDecl} {cfg : CallableCfg} {once : CallableDecl × ℕ}
    → Round c cfg once
    → (once.1 == 0) ≡ true
    → once ≡ (c, 0)
once_zero done h = refl
once_zero (thinned n some_removed sum) h = absurd (some_removed (ground (arith, h)))

module _ (fuel : ℕ) (c : CallableDecl) (once : CallableDecl × ℕ)
    (ran : eliminate_callable_once c ≡ ok once) where
  eliminate_from-stops : (once.1 == 0) ≡ true → eliminate_from (suc fuel) c ≡ ok c
  unfolding eliminate_from
  eliminate_from-stops stop = rw (ran, ◌>>=◌) (rw stop)

  eliminate_from-continues :
      (once.1 == 0) ≡ false → eliminate_from (suc fuel) c ≡ eliminate_from fuel once.0
  unfolding eliminate_from
  eliminate_from-continues more = rw (ran, ◌>>=◌) (rw more)

-- With a round for every instruction and one more, the loop ends where nothing is left to remove.
eliminate_from-ends :
    (fuel : ℕ) (c : CallableDecl)
    → IsBody c
    → IsWellFormed c
    → count_instructions c.blocks < fuel
    → (current : CallableDecl) × (eliminate_from fuel c ≡ ok current)
      × IsWellFormed current
      × (eliminate_callable_once current ≡ ok (current, 0))
eliminate_from-ends zero c body fit enough = absurd (omega arith)
eliminate_from-ends (suc fuel) c body fit enough =
    let (once, ran) = once_accepts c body fit in
    let (cfg, indexed, round) = once_cases c once body ran in
    elim (Bool-cases (once.1 == 0)) [
      | inl stop ↦ (
        c,
        eliminate_from-stops fuel c once ran stop,
        fit,
        ran ∙ ap (λ (x : CallableDecl × ℕ). ok x) (once_zero round stop),
      )
      | inr more ↦
          let fewer = Round-count round (ground (arith, more)) in
          let (current, ended, kept, still) =
            eliminate_from-ends fuel once.0 (Round-IsBody round body) (Round-IsWellFormed round fit)
              (omega arith) in
          (current, eliminate_from-continues fuel c once ran more ∙ ended, kept, still)
    ]

-- The pass ends with a result for every well-formed callable that has blocks and is not extern: a
-- well-formed callable, in which a further round finds nothing to remove, with its unreferenced
-- registers taken away.
pub eliminate_callable_ends :
    (c : CallableDecl)
    → (c.is_extern || is_empty c.blocks) ≡ false
    → IsWellFormed c
    → (current : CallableDecl) × (eliminate_callable c
        ≡ ok (remove_unreferenced_registers current).0)
      × IsWellFormed current
      × (eliminate_callable_once current ≡ ok (current, 0))
unfolding eliminate_callable
eliminate_callable_ends c body fit =
    let (current, ended, kept, still) =
      eliminate_from-ends (count_instructions c.blocks + 1) c body fit (omega arith) in
    (current, rw (body, eliminate_callable) (rw ended), kept, still)
