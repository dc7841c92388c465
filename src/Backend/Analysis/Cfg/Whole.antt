-- ===== src/Backend/Analysis/Cfg/Whole.antt =====
-- `index_callable_cfg` accepts exactly the well-formed callables, and what its parts hold.
use niflheim.Shared.{
  ◌≡◌, ◌↔◌, refl, sym, ap, ◌∙◌, subst, true, false, Option, none, some, List, arith, elem,
}
use niflheim.Shared.Dict.{lookup}
use niflheim.Shared.Result.{ok, ◌>>=◌, >>=-eq-ok, ok_unique}
use niflheim.Shared.Count.{elem_of_count}
use niflheim.Backend.Ir.Ids.{BlockId, block_id_eq}
use niflheim.Backend.Ir.Model.{Block, CallableDecl}
use niflheim.Backend.Semantics.Callables.{find_block}
use niflheim.Backend.Analysis.Cfg.{
  BlockIndex, BlockMap, CallableCfg, build_block_index, build_successor_map, build_predecessor_map,
  require_entry_block, reachable_block_ids, reachable_from, reverse_postorder_block_ids,
  reverse_postorder_from, index_callable_cfg,
}
use niflheim.Backend.Analysis.Cfg.Index.{lookup-build_block_index}
use niflheim.Backend.Analysis.Cfg.WellFormed.{IsWellFormed, found_targets, terminator_targets}
use niflheim.Backend.Analysis.Cfg.Accepts.{
  build_successor_map-eq-ok, build_successor_map_entry, require_entry_block-eq-ok,
  IsWellFormed_accepts, targets_of-block,
}
use niflheim.Backend.Analysis.Cfg.Reachable.{Reaches, start, edge, reachable_from-Reaches}
use niflheim.Backend.Analysis.Cfg.Postorder.{count-reverse_postorder_from}

-- What the parts of an index are.
pub record Indexes (c : CallableDecl) (cfg : CallableCfg) : Type 0 where
  pub fit : IsWellFormed c
  pub entry : BlockId
  pub named : c.entry_block_id ≡ some entry
  pub same_callable : cfg.callable_decl ≡ c
  pub finds : (id : BlockId) → lookup id cfg.block_by_id ≡ find_block id c.blocks
  pub edges :
      (id : BlockId)
      → lookup id cfg.successor_by_block ≡ found_targets none (find_block id c.blocks)
  pub converse :
      cfg.predecessor_by_block ≡ build_predecessor_map cfg.successor_by_block cfg.block_by_id
  pub reached : cfg.reachable_ids ≡ reachable_from cfg.successor_by_block entry
  pub ordered : cfg.reverse_postorder_ids ≡ reverse_postorder_from cfg.successor_by_block entry

abbrev whole_cfg : CallableDecl → BlockIndex → BlockMap → List BlockId → List BlockId → CallableCfg
whole_cfg c index m ids order = record {
  callable_decl = c;
  block_by_id = index;
  successor_by_block = m;
  predecessor_by_block = build_predecessor_map m index;
  reachable_ids = ids;
  reverse_postorder_ids = order;
}

module _ (c : CallableDecl) (m : BlockMap) (index : BlockIndex) (local : c.is_extern ≡ false) where
  pub reachable_block_ids_local :
      reachable_block_ids c m index
      ≡ (require_entry_block c index >>= λ entry. ok (reachable_from m entry))
  unfolding reachable_block_ids
  reachable_block_ids_local = rw local

  pub reverse_postorder_block_ids_local :
      reverse_postorder_block_ids c m index
      ≡ (require_entry_block c index >>= λ entry. ok (reverse_postorder_from m entry))
  unfolding reverse_postorder_block_ids
  reverse_postorder_block_ids_local = rw local

module _ (c : CallableDecl) (local : c.is_extern ≡ false) where
  pub index_callable_cfg-Indexes :
      (cfg : CallableCfg) → index_callable_cfg c ≡ ok cfg → Indexes c cfg
  unfolding index_callable_cfg
  index_callable_cfg-Indexes cfg h =
      let (index, built, steps) = >>=-eq-ok (build_block_index c) _ h in
      let (m, mapped, steps) = >>=-eq-ok (build_successor_map c index) _ steps in
      let (ids, reached, steps) = >>=-eq-ok (reachable_block_ids c m index) _ steps in
      let (order, ordered, steps) = >>=-eq-ok (reverse_postorder_block_ids c m index) _ steps in
      let (fit, edges) = build_successor_map-eq-ok c index m local built mapped in
      let (entry, required) = build_successor_map_entry c index m local mapped in
      let found : reachable_block_ids c m index ≡ ok (reachable_from m entry) =
        reachable_block_ids_local c m index local ∙ rw required in
      let listed : reverse_postorder_block_ids c m index ≡ ok (reverse_postorder_from m entry) =
        reverse_postorder_block_ids_local c m index local ∙ rw required in
      let e_ids : ids ≡ reachable_from m entry =
        ok_unique _ ids (reachable_from m entry) reached found in
      let e_order : order ≡ reverse_postorder_from m entry =
        ok_unique _ order (reverse_postorder_from m entry) ordered listed in
      let whole = whole_cfg c index m ids order in
      let indexed : Indexes c whole = record {
        fit = fit;
        entry = entry;
        named = (require_entry_block-eq-ok c index entry required).0;
        same_callable = refl;
        finds = lookup-build_block_index c index built;
        edges = edges;
        converse = refl;
        reached = e_ids;
        ordered = e_order;
      } in
      subst (Indexes c) (ok_unique (ok whole) whole cfg refl steps) indexed

  pub index_callable_cfg_accepts :
      IsWellFormed c → (cfg : CallableCfg) × (index_callable_cfg c ≡ ok cfg)
  unfolding index_callable_cfg
  index_callable_cfg_accepts fit =
      let (index, m, built, mapped) = IsWellFormed_accepts c local fit in
      let (entry, required) = build_successor_map_entry c index m local mapped in
      let found : reachable_block_ids c m index ≡ ok (reachable_from m entry) =
        reachable_block_ids_local c m index local ∙ rw required in
      let listed : reverse_postorder_block_ids c m index ≡ ok (reverse_postorder_from m entry) =
        reverse_postorder_block_ids_local c m index local ∙ rw required in
      (
        whole_cfg c index m (reachable_from m entry) (reverse_postorder_from m entry),
        rw built (rw mapped (rw found (rw listed))),
      )

  -- A callable that is not extern is indexed without an error exactly if its blocks are its own and
  -- have different identifiers, its entry is declared, and its jumps and branches lead to declared
  -- blocks, a branch to two different ones.
  pub index_callable_cfg-IsWellFormed :
      ((cfg : CallableCfg) × (index_callable_cfg c ≡ ok cfg)) ↔ IsWellFormed c
  index_callable_cfg-IsWellFormed =
      (λ h. (index_callable_cfg-Indexes h.0 h.1).fit, index_callable_cfg_accepts)

-- The blocks in the order, and that control does not leave them.
module _ (c : CallableDecl) (cfg : CallableCfg) (i : Indexes c cfg) where
  pub elem-reverse_postorder :
      (id : BlockId)
      → (elem id cfg.reverse_postorder_ids ≡ true) ↔ Reaches cfg.successor_by_block i.entry id
  elem-reverse_postorder id =
      let m = cfg.successor_by_block in
      let listed : elem id cfg.reverse_postorder_ids ≡ elem id (reachable_from m i.entry) =
        rw (i.ordered) (
          ground (
            arith,
            count-reverse_postorder_from m i.entry id,
            elem_of_count id (reverse_postorder_from m i.entry),
          )) in
      let reach = reachable_from-Reaches m i.entry id in
      (λ h. reach.0 (sym listed ∙ h), λ r. listed ∙ reach.1 r)

  pub reverse_postorder_closed :
      (id t : BlockId) (b : Block)
      → elem id cfg.reverse_postorder_ids ≡ true
      → find_block id c.blocks ≡ some b
      → elem t (terminator_targets b.terminator) ≡ true
      → elem t cfg.reverse_postorder_ids ≡ true
  reverse_postorder_closed id t b h found e = (elem-reverse_postorder t).1 (
      edge t ((elem-reverse_postorder id).0 h) (
        ap (λ (x : List BlockId). elem t x)
          (targets_of-block c.blocks cfg.successor_by_block i.edges id b found)
        ∙ e))

  same_entry : (o : Option BlockId) (a b : BlockId) → o ≡ some a → o ≡ some b → a ≡ b
  same_entry o a b h k = cc

  pub elem-reverse_postorder_entry :
      (entry : BlockId)
      → c.entry_block_id ≡ some entry
      → elem entry cfg.reverse_postorder_ids ≡ true
  elem-reverse_postorder_entry entry named =
      let e : i.entry ≡ entry = same_entry c.entry_block_id i.entry entry i.named named in
      (elem-reverse_postorder entry).1
        (subst (λ x. Reaches cfg.successor_by_block i.entry x) e start)
