-- ===== src/Backend/Analysis/Liveness/Rounds.antt =====
-- The iteration ends at a fixed point: each round but the last adds a register to some set.
use niflheim.Shared.{
  ℕ, zero, suc, ◌+◌, ◌≤◌, ◌<◌, ◌≡◌, refl, sym, ap, ◌∙◌, subst, Bool, true, false, ◌||◌, Option,
  none, some, List, [], ◌∷◌, arith, ◌==◌, elem, Bool-cases, inl, inr, beq_refl,
}
use niflheim.Shared.Dict.{lookup}
use niflheim.Backend.Ir.Ids.{RegId, reg_id_eq, BlockId, block_id_eq, block_id_beq_iff}
use niflheim.Backend.Ir.Model.{Block}
use niflheim.Backend.Analysis.RegSet.{RegSet}
use niflheim.Backend.Analysis.Cfg.{BlockIndex, BlockMap, targets_of}
use niflheim.Backend.Analysis.Liveness.{block_live_in}
use niflheim.Backend.Analysis.Liveness.Sound.{Within}
use niflheim.Backend.Analysis.Liveness.Fixpoint.{
  LiveSets, LiveState, live_at, same_set, live_out_of, set_live, update_block, update_found,
  update_blocks, iterate, blocks_uses,
}
use niflheim.Backend.Analysis.Liveness.Growth.{
  elem-set_live, same_set-eq_true, Below, live_out_of-Within, block_live_in-Within,
  block_live_in-uses, live_out_of-uses,
}
use niflheim.Backend.Analysis.Liveness.Missing.{lack, lack_falls, set_live-Below, set_live-lack}

module _ (successors : BlockMap) (index : BlockIndex) where
  abbrev pub next_live_out : LiveState → BlockId → RegSet
  next_live_out s id = live_out_of s.live_in (targets_of successors id)

  abbrev pub next_live_in : LiveState → BlockId → Block → RegSet
  next_live_in s id b = block_live_in b.instructions b.terminator (next_live_out s id)

  -- The sets of a block are what the equations of the analysis say of the other sets.
  pub record IsStable (s : LiveState) (id : BlockId) (b : Block) : Type 0 where
    pub out_stable : (r : RegId) → elem r (live_at s.live_out id) ≡ elem r (next_live_out s id)
    pub in_stable : (r : RegId) → elem r (live_at s.live_in id) ≡ elem r (next_live_in s id b)

  -- No set is larger than the equations make it.
  pub record IsAscending (s : LiveState) : Type 0 where
    pub ins :
        (id : BlockId) (b : Block)
        → lookup id index ≡ some b
        → Within (live_at s.live_in id) (next_live_in s id b)
    pub outs : (id : BlockId) → Within (live_at s.live_out id) (next_live_out s id)
    pub used : (id : BlockId) → Within (live_at s.live_in id) (blocks_uses index)

  module _ (order : List BlockId) where
    abbrev pub total : LiveState → ℕ
    total s = lack (blocks_uses index) s.live_in order + lack (blocks_uses index) s.live_out order

    -- What visiting some of the blocks does.
    pub record Advances (ids : List BlockId) (s s' : LiveState) (changed : Bool) : Type 0 where
      pub ascending : IsAscending s'
      pub falls : total s' ≤ total s
      pub progress : changed ≡ true → total s' < total s
      pub unchanged : changed ≡ false → s' ≡ s
      pub settled :
          (id : BlockId) (b : Block)
          → changed ≡ false
          → elem id ids ≡ true
          → lookup id index ≡ some b
          → IsStable s id b

    module _ (id : BlockId) (b : Block) (s : LiveState) (listed : elem id order ≡ true)
        (found : lookup id index ≡ some b) (up : IsAscending s) where
      out_used : Within (next_live_out s id) (blocks_uses index)
      out_used = live_out_of-uses s.live_in (blocks_uses index) (targets_of successors id) up.used

      in_used : Within (next_live_in s id b) (blocks_uses index)
      in_used = block_live_in-uses id index b (next_live_out s id) found out_used

      abbrev new_in : LiveSets × Bool
      new_in = set_live id (next_live_in s id b) s.live_in

      abbrev new_out : LiveSets × Bool
      new_out = set_live id (next_live_out s id) s.live_out

      abbrev after : LiveState
      after = record { live_in = new_in.0; live_out = new_out.0 }

      live_in_larger : Below s.live_in after.live_in
      live_in_larger =
          set_live-Below (blocks_uses index) order id listed (next_live_in s id b) s.live_in
            (up.ins id b found) in_used

      live_out_larger : Below s.live_out after.live_out
      live_out_larger =
          set_live-Below (blocks_uses index) order id listed (next_live_out s id) s.live_out
            (up.outs id) out_used

      next_out_grows : (k : BlockId) → Within (next_live_out s k) (next_live_out after k)
      next_out_grows k =
          live_out_of-Within s.live_in after.live_in (targets_of successors k) live_in_larger

      after-IsAscending : IsAscending after
      after-IsAscending = record {
        ins = λ k c found_k r l.
            let grown =
              block_live_in-Within c.instructions c.terminator (next_live_out s k)
                (next_live_out after k) (next_out_grows k) r in
            elim (Bool-cases (k == id)) [
              | inl same ↦
                  let e : k ≡ id = (block_id_beq_iff k id).0 same in
                  let eb : c ≡ b = cc (ap (λ (x : BlockId). lookup x index) e) in
                  let h : elem r (next_live_in s id b) ≡ true =
                    ground (arith, elem-set_live k id (next_live_in s id b) s.live_in r) in
                  grown (
                    subst (λ x. elem r (next_live_in s x c) ≡ true) (sym e)
                      (subst (λ x. elem r (next_live_in s id x) ≡ true) (sym eb) h))
              | inr other ↦ grown (
                  up.ins k c found_k r
                    (ground (arith, elem-set_live k id (next_live_in s id b) s.live_in r)))
            ];
        outs = λ k r l. elim (Bool-cases (k == id)) [
          | inl same ↦
              let e : k ≡ id = (block_id_beq_iff k id).0 same in
              let h : elem r (next_live_out s id) ≡ true =
                ground (arith, elem-set_live k id (next_live_out s id) s.live_out r) in
              next_out_grows k r (subst (λ x. elem r (next_live_out s x) ≡ true) (sym e) h)
          | inr other ↦
              next_out_grows k r
                (up.outs k r (ground (arith, elem-set_live k id (next_live_out s id) s.live_out r)))
        ];
        used = λ k r l.
            ground
              (arith, elem-set_live k id (next_live_in s id b) s.live_in r, in_used r, up.used k r);
      }

      set_live_kept :
          (next : RegSet) (live : LiveSets)
          → (set_live id next live).1 ≡ false
          → ((set_live id next live).0 ≡ live)
            × ((r : RegId) → elem r (live_at live id) ≡ elem r next)
      unfolding set_live
      set_live_kept next live h = elim (Bool-cases (same_set (live_at live id) next)) [
        | inl same ↦ (rw (same, set_live), same_set-eq_true (live_at live id) next same)
        | inr other ↦ cc (rw (other, set_live) at h)
      ]

      fewer_in :
          new_in.1 ≡ true
          → lack (blocks_uses index) after.live_in order < lack (blocks_uses index) s.live_in order
      fewer_in =
          set_live-lack (blocks_uses index) order id listed (next_live_in s id b) s.live_in
            (up.ins id b found) in_used

      fewer_out :
          new_out.1 ≡ true
          → lack (blocks_uses index) after.live_out order
            < lack (blocks_uses index) s.live_out order
      fewer_out =
          set_live-lack (blocks_uses index) order id listed (next_live_out s id) s.live_out
            (up.outs id) out_used

      update_block-Advances :
          Advances (id ∷ []) s (update_block successors id b s).0 (update_block successors id b s).1
      unfolding update_block elem
      update_block-Advances =
          let less_in =
            lack_falls (blocks_uses index) s.live_in after.live_in order live_in_larger in
          let less_out =
            lack_falls (blocks_uses index) s.live_out after.live_out order live_out_larger in
          record {
            ascending = after-IsAscending;
            falls = omega arith;
            progress = λ h. elim (Bool-cases new_in.1) [
              | inl grew ↦ omega (arith, fewer_in grew)
              | inr kept ↦ omega (arith, fewer_out (ground arith))
            ];
            unchanged = λ h. cc (
              (set_live_kept (next_live_in s id b) s.live_in (ground arith)).0,
              (set_live_kept (next_live_out s id) s.live_out (ground arith)).0,
            );
            settled = λ k c h e found_k.
                let same : k ≡ id = (block_id_beq_iff k id).0 (ground arith) in
                let eb : b ≡ c = cc (ap (λ (x : BlockId). lookup x index) same) in
                let stable : IsStable s id b = record {
                  out_stable = (set_live_kept (next_live_out s id) s.live_out (ground arith)).1;
                  in_stable = (set_live_kept (next_live_in s id b) s.live_in (ground arith)).1;
                } in
                subst (λ x. IsStable s x c) (sym same) (subst (IsStable s id) eb stable);
          }

    update_found-Advances :
        (id : BlockId) (o : Option Block) (s : LiveState)
        → elem id order ≡ true
        → lookup id index ≡ o
        → IsAscending s
        → Advances (id ∷ []) s (update_found successors id o s).0 (update_found successors id o s).1
    unfolding update_found elem
    update_found-Advances id none s listed found up = record {
      ascending = up;
      falls = omega arith;
      progress = λ h. cc;
      unchanged = λ h. refl;
      settled = λ k c h e found_k.
          let same : k ≡ id = (block_id_beq_iff k id).0 (ground arith) in
          cc (ap (λ (x : BlockId). lookup x index) same);
    }
    update_found-Advances id (some b) s listed found up =
        update_block-Advances id b s listed found up

    Advances-then :
        (id : BlockId) (ids : List BlockId) (s t u : LiveState) (here behind : Bool)
        → Advances (id ∷ []) s t here
        → Advances ids t u behind
        → Advances (id ∷ ids) s u (here || behind)
    unfolding elem
    Advances-then id ids s t u here behind first rest = record {
      ascending = rest.ascending;
      falls = omega (arith, first.falls, rest.falls);
      progress = λ h. elim (Bool-cases here) [
        | inl grew ↦ omega (arith, first.progress grew, rest.falls)
        | inr kept ↦ omega (arith, first.falls, rest.progress (ground arith))
      ];
      unchanged = λ h. rest.unchanged (ground arith) ∙ first.unchanged (ground arith);
      settled = λ k c h e found_k. elim (Bool-cases (k == id)) [
        | inl same ↦ first.settled k c (ground arith) (ground arith) found_k
        | inr other ↦
            subst (λ x. IsStable x k c) (first.unchanged (ground arith))
              (rest.settled k c (ground arith) (ground arith) found_k)
      ];
    }

    update_blocks-Advances :
        (ids : List BlockId) (s : LiveState)
        → ((id : BlockId) → elem id ids ≡ true → elem id order ≡ true)
        → IsAscending s
        → Advances ids s
            (update_blocks successors index ids s).0
            (update_blocks successors index ids s).1
    unfolding update_blocks elem
    update_blocks-Advances [] s listed up = record {
      ascending = up;
      falls = omega arith;
      progress = λ h. cc;
      unchanged = λ h. refl;
      settled = λ k c h e found_k. cc;
    }
    update_blocks-Advances (id ∷ ids) s listed up =
        let (t, here) = update_found successors id (lookup id index) s in
        let first =
          update_found-Advances id (lookup id index) s (listed id (ground (arith, beq_refl id)))
            refl up in
        Advances-then id ids s t (update_blocks successors index ids t).0 here
          (update_blocks successors index ids t).1 first
          (update_blocks-Advances ids t (λ k e. listed k (ground arith)) first.ascending)

    -- Where each set lacks fewer registers than there are rounds, every block ends up stable.
    pub iterate-IsStable :
        (fuel : ℕ) (s : LiveState) (id : BlockId) (b : Block)
        → IsAscending s
        → total s < fuel
        → elem id order ≡ true
        → lookup id index ≡ some b
        → IsStable (iterate successors index order fuel s) id b
    unfolding iterate
    iterate-IsStable zero s id b up enough listed found = absurd (omega arith)
    iterate-IsStable (suc fuel) s id b up enough listed found =
        let t = (update_blocks successors index order s).0 in
        let round = update_blocks-Advances order s (λ k e. e) up in
        elim (Bool-cases (update_blocks successors index order s).1) [
          | inl grew ↦
              rw (grew, iterate)
                (iterate-IsStable fuel t id b round.ascending (omega (arith, round.progress grew))
                  listed found)
          | inr kept ↦
              rw (kept, iterate)
                (subst (λ x. IsStable x id b) (sym (round.unchanged kept))
                  (round.settled id b kept listed found))
        ]
