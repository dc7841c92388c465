-- ===== src/Backend/Optimizations/SimplifyCfg/Branches.antt =====
-- Folding branches keeps the runs of a callable.
use niflheim.Shared.{
  ◌⊎◌, subst, ℕ, ◌≡◌, refl, ap, ◌≢◌, true, false, ◌||◌, Bool-cases, Option, none, some, ◌==◌, inl,
  inr,
}
use niflheim.Backend.Ir.Ids.{BlockId, block_id_eq, block_id_beq_iff}
use niflheim.Backend.Ir.Model.{
  const_operand, bool_const, Terminator, jump, branch, Block, CallableDecl,
}
use niflheim.Backend.Semantics.{
  Value, constant, value, take_branch, Registers, Machine, Outcome, running, trapped, exit, Exit,
  confused, leaves, goto, finish, run, run_block,
}
use niflheim.Backend.Semantics.Callables.{run_from, run_from-map}
use niflheim.Backend.Optimizations.SimplifyCfg.{
  constant_branch, same_target_branch, with_terminator, fold_constant_branches, is_empty,
}

exit-constant_branch :
    (t t' : Terminator) (ρ : Registers) → constant_branch t ≡ some t' → exit ρ t' ≡ exit ρ t
unfolding constant_branch
exit-constant_branch (branch s (const_operand (bool_const true)) t f) t' ρ e = cc
exit-constant_branch (branch s (const_operand (bool_const false)) t f) t' ρ e = cc
exit-constant_branch _ t' ρ e = cc

take_branch_same :
    (v : Value) (t : BlockId) → (take_branch v t t ≡ confused) ⊎ (take_branch v t t ≡ goto t)
take_branch_same (constant (bool_const true)) t = inr refl
take_branch_same (constant (bool_const false)) t = inr refl
take_branch_same _ t = inl refl

exit-same_target_branch :
    (t t' : Terminator) (ρ : Registers)
    → same_target_branch t ≡ some t'
    → exit ρ t ≢ confused
    → exit ρ t' ≡ exit ρ t
unfolding same_target_branch
exit-same_target_branch (branch s c t f) t' ρ e defined = elim (Bool-cases (t == f)) [
  | inl same ↦
      let target : t ≡ f = (block_id_beq_iff t f).0 same in
      elim (take_branch_same (value ρ c) t) [
        | inl bad ↦
            absurd (defined (subst (λ x. take_branch (value ρ c) t x ≡ confused) target bad))
        | inr taken ↦
            let kept : jump s t ≡ t' = cc in
            cc (ap (exit ρ) kept, taken, ap (λ (x : BlockId). take_branch (value ρ c) t x) target)
      ]
  | inr other ↦ cc
]
exit-same_target_branch _ t' ρ e defined = cc

finish-same :
    {W : Type 0} (t t' : Terminator) (o : Outcome W)
    → ((ρ : Registers) (w : W) → o ≡ running ρ w → exit ρ t' ≡ exit ρ t)
    → finish t' o ≡ finish t o
finish-same t t' (running ρ w) h = ap (λ (x : Exit). leaves x ρ w) (h ρ w refl)
finish-same t t' (trapped w) h = refl

-- Another terminator that takes the same exit wherever the block ends.
run_block-with_terminator :
    {W : Type 0} (m : Machine W) (b : Block) (o : Option Terminator) (ρ : Registers) (w : W)
    → ((t : Terminator) (ρ' : Registers) (w' : W)
        → o ≡ some t
        → run m b.instructions ρ w ≡ running ρ' w'
        → exit ρ' t ≡ exit ρ' b.terminator)
    → run_block m (with_terminator b o) ρ w ≡ run_block m b ρ w
unfolding run_block
run_block-with_terminator m b none ρ w h = refl
run_block-with_terminator m b (some t) ρ w h =
    finish-same b.terminator t (run m b.instructions ρ w) (λ ρ' w' ends. h t ρ' w' refl ends)

-- Where a branch has one target, and its condition is a Boolean, the block with the jump in place of
-- the branch leaves to the same place, with the same registers and the same world.
pub run_block-same_target_branch :
    {W : Type 0} (m : Machine W) (b : Block) (ρ : Registers) (w : W)
    → ((ρ' : Registers) (w' : W)
        → run m b.instructions ρ w ≡ running ρ' w'
        → exit ρ' b.terminator ≢ confused)
    → run_block m (with_terminator b (same_target_branch b.terminator)) ρ w ≡ run_block m b ρ w
run_block-same_target_branch m b ρ w defined =
    run_block-with_terminator m b (same_target_branch b.terminator) ρ w
      (λ t ρ' w' e ends. exit-same_target_branch b.terminator t ρ' e (defined ρ' w' ends))

with_terminator_name :
    (b : Block) (o : Option Terminator) → (with_terminator b o).block_id ≡ b.block_id
with_terminator_name b none = refl
with_terminator_name b (some t) = refl

-- Folding constant branches keeps every run of the callable, from every block and to every bound on
-- the number of blocks.
pub run_from-fold_constant_branches :
    {W : Type 0} (m : Machine W) (c : CallableDecl) (n : ℕ) (id : BlockId) (ρ : Registers) (w : W)
    → run_from m (fold_constant_branches c).blocks n id ρ w ≡ run_from m c.blocks n id ρ w
unfolding fold_constant_branches
run_from-fold_constant_branches m c n id ρ w =
    elim (Bool-cases (c.is_extern || is_empty c.blocks)) [
      | inl skipped ↦ rw (skipped, fold_constant_branches)
      | inr folded ↦
          rw (folded, fold_constant_branches)
            (run_from-map m (λ b. with_terminator b (constant_branch b.terminator)) c.blocks n id ρ
              w (λ b. with_terminator_name b (constant_branch b.terminator))
              (λ b ρ w.
                run_block-with_terminator m b (constant_branch b.terminator) ρ w
                  (λ t ρ' w' e ends. exit-constant_branch b.terminator t ρ' e)))
    ]
