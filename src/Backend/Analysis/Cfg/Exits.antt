-- ===== src/Backend/Analysis/Cfg/Exits.antt =====
-- The control flow graph covers the runs: control leaves a block only along its edges.
use niflheim.Shared.{◌≡◌, refl, true, false, none, some, [], ◌∷◌, arith, elem}
use niflheim.Backend.Ir.Ids.{BlockId, block_id_beq_iff, block_id_eq}
use niflheim.Backend.Ir.Model.{bool_const, Terminator, jump, branch, return, trap}
use niflheim.Backend.Semantics.{
  Value, constant, value, take_branch, Registers, Outcome, running, trapped, exit, Exit, goto,
  returned, stopped, confused, leaves, finish,
}
use niflheim.Backend.Semantics.Callables.{Next, go_on}
use niflheim.Backend.Analysis.Cfg.WellFormed.{terminator_targets}

take_branch_targets :
    (v : Value) (t f id : BlockId) → take_branch v t f ≡ goto id → elem id (t ∷ f ∷ []) ≡ true
unfolding elem
take_branch_targets (constant (bool_const true)) t f id h = ground (arith, block_id_beq_iff id t)
take_branch_targets (constant (bool_const false)) t f id h = ground (arith, block_id_beq_iff id f)
take_branch_targets _ t f id h = cc

-- Control leaves a block only to a target of its terminator.
pub exit-goto :
    (t : Terminator) (ρ : Registers) (id : BlockId)
    → exit ρ t ≡ goto id
    → elem id (terminator_targets t) ≡ true
unfolding elem
exit-goto (jump s t) ρ id h = ground (arith, block_id_beq_iff id t)
exit-goto (branch s c t f) ρ id h = take_branch_targets (value ρ c) t f id h
exit-goto (return s none) ρ id h = cc
exit-goto (return s (some o)) ρ id h = cc
exit-goto (trap s k m) ρ id h = cc

module _ {W : Type 0} where
  pub go_on-agree :
      (next next' : Next W) (t : Terminator) (o : Outcome W)
      → ((id : BlockId) (ρ : Registers) (w : W)
          → elem id (terminator_targets t) ≡ true
          → next' id ρ w ≡ next id ρ w)
      → go_on next' (finish t o) ≡ go_on next (finish t o)
  unfolding go_on
  go_on-agree next next' t (trapped w) h = refl
  go_on-agree next next' t (running ρ w) h = go_on-exit (exit ρ t) (exit-goto t ρ)
    where
      go_on-exit :
          (x : Exit)
          → ((id : BlockId) → x ≡ goto id → elem id (terminator_targets t) ≡ true)
          → go_on next' (leaves x ρ w) ≡ go_on next (leaves x ρ w)
      go_on-exit (goto id) to = h id ρ w (to id refl)
      go_on-exit (returned v) to = refl
      go_on-exit (stopped k) to = refl
      go_on-exit confused to = refl
