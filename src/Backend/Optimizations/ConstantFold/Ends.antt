-- ===== src/Backend/Optimizations/ConstantFold/Ends.antt =====
-- The iteration of constant folding ends: each round but the last makes a map of constants longer, and
-- no map has more entries than there are definitions.
use niflheim.Shared.{
  ℕ, zero, suc, ◌+◌, ◌*◌, ◌≤◌, ◌<◌, ◌≡◌, refl, sym, ap, subst, Bool, true, ◌||◌, Option, none, some,
  Bool-cases, List, [], ◌∷◌, arith, elem, nat_eq, inl, inr, All, length, beq_refl,
}
use niflheim.Shared.Dict.{lookup, keys}
use niflheim.Shared.Result.{ok}
use niflheim.Backend.Ir.Ids.{RegId, reg_id_eq, BlockId, block_id_eq}
use niflheim.Backend.Ir.Model.{Constant, Block}
use niflheim.Backend.Analysis.Cfg.{CallableCfg}
use niflheim.Backend.Optimizations.DeadPure.{TypeNames}
use niflheim.Backend.Optimizations.ConstantFold.Arith.{FloatOps}
use niflheim.Backend.Optimizations.ConstantFold.Folding.{ConstantMap}
use niflheim.Backend.Optimizations.ConstantFold.Declared.{IsDeclared, read_types-declared}
use niflheim.Backend.Optimizations.ConstantFold.Growth.{
  Extends, transfer-Extends, transfer-HasDistinctKeys,
}
use niflheim.Backend.Optimizations.ConstantFold.Joins.{IsNumber, length-Within, length-keys}
use niflheim.Backend.Optimizations.ConstantFold.Invariant.{KeepsKnown, transfer-AllKnown}
use niflheim.Backend.Optimizations.ConstantFold.Entries.{set_constants-keeps, constants_at-nothing}
use niflheim.Backend.Optimizations.ConstantFold.Incoming.{
  ConstantTable, ConstantState, constants_at, set_constants, update_block, update_blocks,
  read_block_types, read_round_types, iterate, first_state, nothing_known, round_limit,
  constants_of_cfg,
}
use niflheim.Backend.Optimizations.ConstantFold.Rising.{
  IsFit, IsRising, nothing-IsFit, next_in, next_out, next_in-IsFit, next_in-Extends, all_defs,
  lengths, set-Extends, set_rises, set_strict,
}
use niflheim.Backend.Optimizations.ConstantFold.Defined.{transfer-Within, block_defs-Within}

module _ (f : FloatOps) (P : RegId → Constant → Type 0) (cfg : CallableCfg) (types : TypeNames)
    (numbers : (r : RegId) (c : Constant) → P r c → IsNumber f c)
    (keeps : (id : BlockId) (b : Block)
      → lookup id cfg.block_by_id ≡ some b
      → All (KeepsKnown f P) b.instructions × All (IsDeclared types) b.instructions) where
  abbrev total : ConstantState → ℕ
  total s =
      lengths f P cfg s.in_by_block cfg.reverse_postorder_ids
      + lengths f P cfg s.out_by_block cfg.reverse_postorder_ids

  -- What visiting some of the blocks does.
  record Rises (s s' : ConstantState) (changed : Bool) : Type 0 where
    rising : IsRising f P cfg s'
    grows : total s ≤ total s'
    progress : changed ≡ true → total s < total s'

  module _ (id : BlockId) (b : Block) (s : ConstantState)
      (listed : elem id cfg.reverse_postorder_ids ≡ true)
      (found : lookup id cfg.block_by_id ≡ some b) (up : IsRising f P cfg s) where
    abbrev here_in : ConstantMap
    here_in = next_in f P cfg s id

    abbrev here_out : ConstantMap
    here_out = next_out f P cfg s id b

    abbrev after : ConstantState
    after = record {
      in_by_block = (set_constants f id here_in s.in_by_block).0;
      out_by_block = (set_constants f id here_out s.out_by_block).0;
    }

    here_in-IsFit : IsFit f P cfg here_in
    here_in-IsFit = next_in-IsFit f P cfg s id up

    here_out-IsFit : IsFit f P cfg here_out
    here_out-IsFit = record {
      distinct = transfer-HasDistinctKeys f b.instructions here_in here_in-IsFit.distinct;
      known = transfer-AllKnown f P b.instructions here_in (keeps id b found).0 here_in-IsFit.known;
      within =
          transfer-Within f b.instructions here_in (all_defs f P cfg) here_in-IsFit.within
            (block_defs-Within id cfg.block_by_id b found);
    }

    outs_grow :
        (k : BlockId) → Extends (constants_at s.out_by_block k) (constants_at after.out_by_block k)
    outs_grow =
        set-Extends f P cfg numbers cfg.reverse_postorder_ids id listed here_out s.out_by_block
          up.outs_fit (up.outs id b found)

    next_in_grows : (k : BlockId) → Extends (next_in f P cfg s k) (next_in f P cfg after k)
    next_in_grows k = next_in-Extends f P cfg s after k up outs_grow

    after-IsRising : IsRising f P cfg after
    after-IsRising = record {
      ins_fit = λ k.
          set_constants-keeps f (λ j. IsFit f P cfg) id k here_in s.in_by_block here_in-IsFit
            up.ins_fit;
      outs_fit = λ k.
          set_constants-keeps f (λ j. IsFit f P cfg) id k here_out s.out_by_block here_out-IsFit
            up.outs_fit;
      ins = λ k x there.
          set_constants-keeps f
            (λ j a.
              (y : Block) → lookup j cfg.block_by_id ≡ some y → Extends a (next_in f P cfg after j))
            id k here_in s.in_by_block (λ y e. next_in_grows id)
            (λ j y e r c h. next_in_grows j r c (up.ins j y e r c h)) x there;
      outs = λ k x there.
          set_constants-keeps f
            (λ j a.
              (y : Block)
              → lookup j cfg.block_by_id ≡ some y
              → Extends a (next_out f P cfg after j y))
            id k here_out s.out_by_block
            (λ y e.
              let same : b ≡ y = cc in
              subst (λ z. Extends here_out (next_out f P cfg after id z)) same
                (transfer-Extends f b.instructions _ _ (next_in_grows id)))
            (λ j y e r c h.
              transfer-Extends f y.instructions _ _ (next_in_grows j) r c (up.outs j y e r c h))
            x there;
    }

    update_block-Rises :
        Rises s (update_block f cfg id (some b) s).0 (update_block f cfg id (some b) s).1
    unfolding update_block
    update_block-Rises =
        let order = cfg.reverse_postorder_ids in
        let ins = up.ins id b found in
        let outs = up.outs id b found in
        let more_in =
          set_rises f P cfg numbers order id listed here_in s.in_by_block up.ins_fit ins in
        let more_out =
          set_rises f P cfg numbers order id listed here_out s.out_by_block up.outs_fit outs in
        record {
          rising = after-IsRising;
          grows = omega arith;
          progress = λ h. elim (Bool-cases (set_constants f id here_in s.in_by_block).1) [
            | inl grew ↦ omega (
              arith,
              set_strict f P cfg numbers order id listed here_in s.in_by_block up.ins_fit ins grew,
            )
            | inr kept ↦ omega (
              arith,
              set_strict f P cfg numbers order id listed here_out s.out_by_block up.outs_fit outs
                  (ground arith),
            )
          ];
        }

  update_found-Rises :
      (id : BlockId) (o : Option Block) (s : ConstantState)
      → elem id cfg.reverse_postorder_ids ≡ true
      → lookup id cfg.block_by_id ≡ o
      → IsRising f P cfg s
      → Rises s (update_block f cfg id o s).0 (update_block f cfg id o s).1
  unfolding update_block
  update_found-Rises id none s listed found up = record {
    rising = up;
    grows = omega arith;
    progress = λ h. cc;
  }
  update_found-Rises id (some b) s listed found up = update_block-Rises id b s listed found up

  Rises-then :
      (s t u : ConstantState) (here behind : Bool)
      → Rises s t here
      → Rises t u behind
      → Rises s u (here || behind)
  Rises-then s t u here behind first rest = record {
    rising = rest.rising;
    grows = omega (arith, first.grows, rest.grows);
    progress = λ h. elim (Bool-cases here) [
      | inl grew ↦ omega (arith, first.progress grew, rest.grows)
      | inr kept ↦ omega (arith, first.grows, rest.progress (ground arith))
    ];
  }

  update_blocks-Rises :
      (ids : List BlockId) (s : ConstantState)
      → ((id : BlockId) → elem id ids ≡ true → elem id cfg.reverse_postorder_ids ≡ true)
      → IsRising f P cfg s
      → Rises s (update_blocks f cfg ids s).0 (update_blocks f cfg ids s).1
  unfolding update_blocks elem
  update_blocks-Rises [] s listed up = record {
    rising = up;
    grows = omega arith;
    progress = λ h. cc;
  }
  update_blocks-Rises (id ∷ ids) s listed up =
      let o = lookup id cfg.block_by_id in
      let t = (update_block f cfg id o s).0 in
      let first = update_found-Rises id o s (listed id (ground (arith, beq_refl id))) refl up in
      Rises-then s t _ (update_block f cfg id o s).1 _ first
        (update_blocks-Rises ids t (λ k e. listed k (ground arith)) first.rising)

  read_block_types-declared :
      (id : BlockId) (o : Option Block) (s : ConstantState)
      → lookup id cfg.block_by_id ≡ o
      → read_block_types f types cfg id o s ≡ ok tt
  unfolding read_block_types
  read_block_types-declared id none s e = refl
  read_block_types-declared id (some b) s e =
      read_types-declared f types b.instructions _ (keeps id b e).1

  read_round_types-declared :
      (ids : List BlockId) (s : ConstantState) → read_round_types f types cfg ids s ≡ ok tt
  unfolding read_round_types
  read_round_types-declared [] s = refl
  read_round_types-declared (id ∷ ids) s =
      rw (read_block_types-declared id (lookup id cfg.block_by_id) s refl)
        (read_round_types-declared ids _)

  lengths_bounded :
      (table : ConstantTable) (ids : List BlockId)
      → ((k : BlockId) → IsFit f P cfg (constants_at table k))
      → lengths f P cfg table ids ≤ length (all_defs f P cfg) * length ids
  lengths_bounded table [] fit = omega arith
  lengths_bounded table (id ∷ ids) fit =
      let a = constants_at table id in
      let here : length (keys a) ≤ length (all_defs f P cfg) =
        length-Within (keys a) (all_defs f P cfg) (fit id).distinct (fit id).within in
      grind (arith, length-keys a, lengths_bounded table ids fit)

  -- With a round for every entry that the maps can still gain, and one more, the loop ends.
  iterate_ends :
      (rounds : ℕ) (s : ConstantState)
      → IsRising f P cfg s
      → (length (all_defs f P cfg) + length (all_defs f P cfg)) * length cfg.reverse_postorder_ids
        < rounds + total s
      → (last : ConstantState) × (iterate f types cfg rounds s ≡ ok last)
  unfolding iterate
  iterate_ends zero s up enough = absurd (
      grind (
        arith,
        lengths_bounded s.in_by_block cfg.reverse_postorder_ids up.ins_fit,
        lengths_bounded s.out_by_block cfg.reverse_postorder_ids up.outs_fit,
      ))
  iterate_ends (suc rounds) s up enough =
      let ids = cfg.reverse_postorder_ids in
      let round = update_blocks-Rises ids s (λ k e. e) up in
      elim (Bool-cases (update_blocks f cfg ids s).1) [
        | inl grew ↦
            let (last, ended) =
              iterate_ends rounds (update_blocks f cfg ids s).0 round.rising
                (omega (arith, round.progress grew)) in
            (last, rw (grew, iterate) (rw (read_round_types-declared ids s) ended))
        | inr kept ↦ (
          (update_blocks f cfg ids s).0,
          rw (kept, iterate) (rw (read_round_types-declared ids s) refl),
        )
      ]

  first-IsRising : IsRising f P cfg (first_state cfg)
  unfolding lookup
  first-IsRising =
      let none_known = constants_at-nothing (keys cfg.block_by_id) in
      record {
        ins_fit = λ id. subst (IsFit f P cfg) (sym (none_known id)) (nothing-IsFit f P cfg);
        outs_fit = λ id. subst (IsFit f P cfg) (sym (none_known id)) (nothing-IsFit f P cfg);
        ins = λ id b e r c h. nothing_extended id _ r c h;
        outs = λ id b e r c h. nothing_extended id _ r c h;
      }
    where
      nothing_extended :
          (id : BlockId) (a : ConstantMap) → Extends (constants_at (nothing_known cfg) id) a
      nothing_extended id a r c h =
          let e = ap (lookup r) (constants_at-nothing (keys cfg.block_by_id) id) in cc

  -- The number of rounds is enough.
  pub constants_of_cfg_ends : (table : ConstantTable) × (constants_of_cfg f types cfg ≡ ok table)
  unfolding constants_of_cfg
  constants_of_cfg_ends =
      let (last, ended) =
        iterate_ends (round_limit cfg) (first_state cfg) first-IsRising (omega arith) in
      (last.in_by_block, rw ended refl)
