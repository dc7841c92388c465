-- ===== src/Backend/Analysis/Liveness/Runs.antt =====
-- A pass that changes each block so that the live-out set of the analysis cannot tell keeps what can
-- be seen of the runs of a callable.
use niflheim.Shared.{
  ℕ, zero, suc, ◌≡◌, refl, sym, ap, ◌∙◌, subst, true, false, some, List, [], ◌∷◌, map, arith, ◌==◌,
  nat_eq, elem, Bool-cases, Option-cases, inl, inr,
}
use niflheim.Shared.Result.{ok}
use niflheim.Backend.Ir.Ids.{BlockId, block_id_eq, RegId, reg_id_eq, block_id_beq_iff}
use niflheim.Backend.Ir.Model.{Block, CallableDecl, Terminator}
use niflheim.Backend.Semantics.{
  Registers, Machine, Outcome, running, trapped, run, run_block, BlockOutcome, leaves, traps_inside,
  Exit, goto, returned, stopped, confused, exit, finish,
}
use niflheim.Backend.Semantics.Callables.{
  find_block, find_block-map, Next, go_on, run_found, run_from, observe,
}
use niflheim.Backend.Analysis.RegSet.{RegSet}
use niflheim.Backend.Analysis.Cfg.{CallableCfg, index_callable_cfg}
use niflheim.Backend.Analysis.Cfg.WellFormed.{terminator_targets}
use niflheim.Backend.Analysis.Cfg.Exits.{exit-goto}
use niflheim.Backend.Analysis.Cfg.Whole.{index_callable_cfg-Indexes, reverse_postorder_closed}
use niflheim.Backend.Analysis.Liveness.{block_live_in}
use niflheim.Backend.Analysis.Liveness.Uses.{AgreeOn}
use niflheim.Backend.Analysis.Liveness.Sound.{SimulatesBlock}
use niflheim.Backend.Analysis.Liveness.Fixpoint.{
  LiveSets, live_at, liveness_of_cfg, CallableLiveness,
}
use niflheim.Backend.Analysis.Liveness.Stable.{live_in_some, analyze_callable_liveness-IsFixpoint}

-- What is live in front of a successor is live behind the block.
pub live_in_some-target :
    (live : LiveSets) (ts : List BlockId) (t : BlockId) (r : RegId)
    → elem t ts ≡ true
    → elem r (live_at live t) ≡ true
    → live_in_some live r ts ≡ true
unfolding elem
live_in_some-target live [] t r e l = cc
live_in_some-target live (x ∷ ts) t r e l = elim (Bool-cases (t == x)) [
  | inl same ↦
      let l' : elem r (live_at live x) ≡ true =
        ap (λ (y : BlockId). elem r (live_at live y)) (sym ((block_id_beq_iff t x).0 same)) ∙ l in
      ground arith
  | inr other ↦ ground (arith, live_in_some-target live ts t r (ground arith) l)
]

module _ {W : Type 0} (m : Machine W) where
  finish-leaves :
      (t : Terminator) (o : Outcome W) (x : Exit) (ρ : Registers) (w : W)
      → finish t o ≡ leaves x ρ w
      → (o ≡ running ρ w) × (x ≡ exit ρ t)
  finish-leaves t (running ρ₁ w₁) x ρ w h = (cc, cc)
  finish-leaves t (trapped w₁) x ρ w h = cc

  -- What a block that is left has done.
  pub run_block-leaves :
      (b : Block) (ρ : Registers) (w : W) (x : Exit) (ρ' : Registers) (w' : W)
      → run_block m b ρ w ≡ leaves x ρ' w'
      → (run m b.instructions ρ w ≡ running ρ' w') × (x ≡ exit ρ' b.terminator)
  unfolding run_block
  run_block-leaves b ρ w x ρ' w' h = finish-leaves b.terminator (run m b.instructions ρ w) x ρ' w' h

  go_on-exit :
      (live : RegSet) (next next' : Next W) (x : Exit) (ρ ρ' : Registers) (w : W)
      → AgreeOn live ρ ρ'
      → ((id : BlockId) (ρ₁ ρ₂ : Registers) (w₁ : W)
          → leaves x ρ w ≡ leaves (goto id) ρ₁ w₁
          → AgreeOn live ρ₁ ρ₂
          → observe (next' id ρ₂ w₁) ≡ observe (next id ρ₁ w₁))
      → observe (go_on next' (leaves x ρ' w)) ≡ observe (go_on next (leaves x ρ w))
  unfolding go_on observe
  go_on-exit live next next' (goto id) ρ ρ' w agree then_same = then_same id ρ ρ' w refl agree
  go_on-exit live next next' (returned v) ρ ρ' w agree then_same = refl
  go_on-exit live next next' (stopped k) ρ ρ' w agree then_same = refl
  go_on-exit live next next' confused ρ ρ' w agree then_same = refl

  -- Two blocks that simulate one another go on alike, where what follows a jump does.
  go_on-observe :
      (live : RegSet) (next next' : Next W) (o o' : BlockOutcome W)
      → SimulatesBlock live o o'
      → ((id : BlockId) (ρ ρ' : Registers) (w : W)
          → o ≡ leaves (goto id) ρ w
          → AgreeOn live ρ ρ'
          → observe (next' id ρ' w) ≡ observe (next id ρ w))
      → observe (go_on next' o') ≡ observe (go_on next o)
  unfolding go_on observe
  go_on-observe live next next' (leaves x ρ w) (leaves x' ρ' w') h then_same =
      subst (λ y. observe (go_on next' (leaves y ρ' w')) ≡ observe (go_on next (leaves x ρ w))) h.0
        (subst (λ v. observe (go_on next' (leaves x ρ' v)) ≡ observe (go_on next (leaves x ρ w)))
          h.2 (go_on-exit live next next' x ρ ρ' w h.1 then_same))
  go_on-observe live next next' (traps_inside w) (traps_inside w') h then_same = cc
  go_on-observe live next next' (leaves x ρ w) (traps_inside w') h then_same = absurd h
  go_on-observe live next next' (traps_inside w) (leaves x' ρ' w') h then_same = absurd h

module _ {W : Type 0} (m : Machine W) (P : Registers → Type 0) (change : Block → Block)
    (c : CallableDecl) (cfg : CallableCfg) (local : c.is_extern ≡ false)
    (indexed : index_callable_cfg c ≡ ok cfg) where
  abbrev l : CallableLiveness
  l = liveness_of_cfg cfg

  live_in-block :
      (id : BlockId) (b : Block) (ρ ρ' : Registers)
      → elem id cfg.reverse_postorder_ids ≡ true
      → find_block id c.blocks ≡ some b
      → AgreeOn (live_at l.live_in_by_block id) ρ ρ'
      → AgreeOn (block_live_in b.instructions b.terminator (live_at l.live_out_by_block id)) ρ ρ'
  live_in-block id b ρ ρ' listed found agree r h =
      agree r ((analyze_callable_liveness-IsFixpoint c cfg id b r local indexed listed found).1 ∙ h)

  live_out-target :
      (id t : BlockId) (b : Block) (ρ ρ' : Registers)
      → elem id cfg.reverse_postorder_ids ≡ true
      → find_block id c.blocks ≡ some b
      → elem t (terminator_targets b.terminator) ≡ true
      → AgreeOn (live_at l.live_out_by_block id) ρ ρ'
      → AgreeOn (live_at l.live_in_by_block t) ρ ρ'
  live_out-target id t b ρ ρ' listed found e agree r h = agree r (
      (analyze_callable_liveness-IsFixpoint c cfg id b r local indexed listed found).0
      ∙ live_in_some-target l.live_in_by_block (terminator_targets b.terminator) t r e h)

  -- The changed block simulates the block, from registers that agree on what is live in front of it.
  abbrev pub SimulatesBlocks : Type 0
  SimulatesBlocks =
      (id : BlockId) (b : Block) (ρ ρ' : Registers) (w : W)
      → elem id cfg.reverse_postorder_ids ≡ true
      → find_block id c.blocks ≡ some b
      → P ρ
      → AgreeOn (block_live_in b.instructions b.terminator (live_at l.live_out_by_block id)) ρ ρ'
      → SimulatesBlock (live_at l.live_out_by_block id) (run_block m b ρ w)
          (run_block m (change b) ρ' w)

  abbrev pub KeepsFacts : Type 0
  KeepsFacts =
      (id : BlockId) (b : Block) (ρ : Registers) (w : W) (ρ' : Registers) (w' : W)
      → find_block id c.blocks ≡ some b
      → P ρ
      → run m b.instructions ρ w ≡ running ρ' w'
      → P ρ'

  -- From a block that can be reached, with registers that agree on what is live in front of it.
  pub run_from-simulated :
      (n : ℕ) (id : BlockId) (ρ ρ' : Registers) (w : W)
      → ((b : Block) → (change b).block_id ≡ b.block_id)
      → SimulatesBlocks
      → KeepsFacts
      → elem id cfg.reverse_postorder_ids ≡ true
      → P ρ
      → AgreeOn (live_at l.live_in_by_block id) ρ ρ'
      → observe (run_from m (map change c.blocks) n id ρ' w)
        ≡ observe (run_from m c.blocks n id ρ w)
  unfolding run_from run_found observe
  run_from-simulated zero id ρ ρ' w names same keeps listed fact agree = refl
  run_from-simulated (suc n) id ρ ρ' w names same keeps listed fact agree =
      rw (find_block-map change c.blocks id names) (elim (Option-cases (find_block id c.blocks)) [
        | inl missing ↦ rw (missing, run_found)
        | inr (b, found) ↦
            rw (found, run_found)
              (go_on-observe m (live_at l.live_out_by_block id) (run_from m c.blocks n)
                (run_from m (map change c.blocks) n) (run_block m b ρ w)
                (run_block m (change b) ρ' w)
                (same id b ρ ρ' w listed found fact (live_in-block id b ρ ρ' listed found agree))
                (λ t ρ₁ ρ₂ w₁ left agree₁.
                  let (ran, leads) = run_block-leaves m b ρ w (goto t) ρ₁ w₁ left in
                  let e = exit-goto b.terminator ρ₁ t (sym leads) in
                  run_from-simulated n t ρ₁ ρ₂ w₁ names same keeps
                    (reverse_postorder_closed c cfg (index_callable_cfg-Indexes c local cfg indexed)
                      id t b listed found e)
                    (keeps id b ρ w ρ₁ w₁ found fact ran)
                    (live_out-target id t b ρ₁ ρ₂ listed found e agree₁)))
      ])
