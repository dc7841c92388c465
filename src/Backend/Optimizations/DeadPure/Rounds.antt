-- ===== src/Backend/Optimizations/DeadPure/Rounds.antt =====
-- The rounds of dead definition elimination, `_eliminate_callable_once`: what one leaves of a callable.
use niflheim.Shared.{
  ℕ, ◌+◌, ◌<◌, ◌≡◌, ◌≢◌, refl, sym, ap, ◌∙◌, subst, Bool, false, ◌||◌, List, [], ◌∷◌, map, arith,
  ◌==◌, nat_eq, Bool-cases, inl, inr,
}
use niflheim.Shared.Result.{ok, ◌>>=◌, >>=-eq-ok, ok_unique}
use niflheim.Backend.Ir.Ids.{block_id_eq}
use niflheim.Backend.Ir.Model.{Block, CallableDecl}
use niflheim.Backend.Analysis.Cfg.{CallableCfg, index_callable_cfg}
use niflheim.Backend.Analysis.Cfg.WellFormed.{IsWellFormed}
use niflheim.Backend.Analysis.Liveness.Fixpoint.{
  analyze_callable_liveness, liveness_of_cfg, is_empty,
}
use niflheim.Backend.Optimizations.DeadPure.Callable.{
  register_type_names, eliminate_blocks, eliminate_with, eliminate_callable_once,
  count_instructions,
}
use niflheim.Backend.Optimizations.DeadPure.Thins.{count-eliminate_blocks, kept-IsWellFormed}
use niflheim.Backend.Optimizations.DeadPure.Runs.{kept_block, eliminate_blocks-map}

-- A callable that the loop works on.
abbrev pub IsBody : CallableDecl → Type 0
IsBody c = (c.is_extern || is_empty c.blocks) ≡ false

pub IsBody-local : (c : CallableDecl) → IsBody c → c.is_extern ≡ false
IsBody-local c h = ground arith

pub analyze_body :
    (c : CallableDecl)
    → IsBody c
    → analyze_callable_liveness c ≡ (index_callable_cfg c >>= λ cfg. ok (liveness_of_cfg cfg))
unfolding analyze_callable_liveness
analyze_body c h = rw h

abbrev pub kept_of : CallableDecl → CallableCfg → Block → Block
kept_of c cfg = kept_block (register_type_names c) (liveness_of_cfg cfg).live_out_by_block

-- The two ways in which a round ends.
pub data Round (c : CallableDecl) (cfg : CallableCfg) : CallableDecl × ℕ → Type 0 where
  done : Round c cfg (c, 0)
  thinned :
      (n : ℕ)
      → n ≢ 0
      → count_instructions (map (kept_of c cfg) c.blocks) + n ≡ count_instructions c.blocks
      → Round c cfg (record c { blocks = map (kept_of c cfg) c.blocks }, n)

pub eliminate_with-Round :
    (c : CallableDecl) (cfg : CallableCfg) → Round c cfg (eliminate_with c (liveness_of_cfg cfg))
unfolding eliminate_with
eliminate_with-Round c cfg =
    let types = register_type_names c in
    let live_out = (liveness_of_cfg cfg).live_out_by_block in
    let removed = (eliminate_blocks types live_out c.blocks).1 in
    let blocks = eliminate_blocks-map types live_out c.blocks in
    elim (Bool-cases (removed == 0)) [
      | inl none_removed ↦ rw (none_removed, eliminate_with) done
      | inr some_removed ↦
          rw (some_removed, eliminate_with)
            (rw blocks (
              thinned removed (ground (arith, some_removed))
                (rw blocks at (count-eliminate_blocks types live_out c.blocks))))
    ]

pub once_cases :
    (c : CallableDecl) (once : CallableDecl × ℕ)
    → IsBody c
    → eliminate_callable_once c ≡ ok once
    → (cfg : CallableCfg) × (index_callable_cfg c ≡ ok cfg) × Round c cfg once
unfolding eliminate_callable_once
once_cases c once body h =
    let (liveness, analyzed, last) = >>=-eq-ok (analyze_callable_liveness c) _ h in
    let (cfg, indexed, same) =
      >>=-eq-ok (index_callable_cfg c) _ (sym (analyze_body c body) ∙ analyzed) in
    let e : liveness_of_cfg cfg ≡ liveness = cc in
    let r : eliminate_with c (liveness_of_cfg cfg) ≡ once =
      ap (eliminate_with c) e
      ∙ ok_unique (ok (eliminate_with c liveness)) (eliminate_with c liveness) once refl last in
    (cfg, indexed, subst (Round c cfg) r (eliminate_with-Round c cfg))

pub map_kept_empty : (f : Block → Block) (bs : List Block) → is_empty (map f bs) ≡ is_empty bs
map_kept_empty f [] = refl
map_kept_empty f (b ∷ bs) = refl

pub Round-IsBody :
    {c : CallableDecl} {cfg : CallableCfg} {once : CallableDecl × ℕ}
    → Round c cfg once
    → IsBody c
    → IsBody once.0
Round-IsBody done body = body
Round-IsBody {c} {cfg} (thinned n some_removed sum) body =
    ap (λ (x : Bool). c.is_extern || x) (map_kept_empty (kept_of c cfg) c.blocks) ∙ body

pub Round-IsWellFormed :
    {c : CallableDecl} {cfg : CallableCfg} {once : CallableDecl × ℕ}
    → Round c cfg once
    → IsWellFormed c
    → IsWellFormed once.0
Round-IsWellFormed done fit = fit
Round-IsWellFormed {c} {cfg} (thinned n some_removed sum) fit =
    kept-IsWellFormed (register_type_names c) (liveness_of_cfg cfg).live_out_by_block c fit

pub Round-count :
    {c : CallableDecl} {cfg : CallableCfg} {once : CallableDecl × ℕ}
    → Round c cfg once
    → once.1 ≢ 0
    → count_instructions once.0.blocks < count_instructions c.blocks
Round-count done some_removed = absurd (some_removed refl)
Round-count (thinned n some_removed sum) more = omega arith
