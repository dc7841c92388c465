-- ===== src/Backend/Analysis/Cfg/Postorder.antt =====
-- The recursive `visit` lists every reachable block once, behind all that it led to.
use niflheim.Shared.{
  ℕ, zero, suc, ◌+◌, ◌≤◌, ◌<◌, ◌≡◌, ◌≢◌, ◌↔◌, refl, sym, ap, ◌∙◌, true, false, ◌||◌, List, [], ◌∷◌,
  ◌++◌, arith, ◌==◌, elem, if◌then◌else◌, Bool-cases, List-cases, inl, inr, beq_refl, length,
}
use niflheim.Shared.Dict.{lookup}
use niflheim.Shared.Count.{count, indicator, count-append, count-reverse}
use niflheim.Backend.Ir.Ids.{BlockId, block_id_eq, block_id_beq_iff}
use niflheim.Backend.Analysis.Cfg.{
  BlockMap, Visits, targets_of, visit_each, visit, reverse_postorder_from, reachable_from,
}
use niflheim.Backend.Analysis.Cfg.Reachable.{
  Reaches, start, edge, Finds, Finds-cons, Finds-tail, closed-Reaches, reachable_from-Reaches,
}
use mathlib.Core.List.{reverse, reverse-append}

-- The keys that are not visited.
abbrev free : BlockMap → List BlockId → ℕ
free [] visited = 0
free ((k, ts) ∷ m) visited = (if elem k visited then 0 else 1) + free m visited

free_grows :
    (m : BlockMap) (visited visited' : List BlockId)
    → ((x : BlockId) → elem x visited ≡ true → elem x visited' ≡ true)
    → free m visited' ≤ free m visited
free_grows [] visited visited' h = omega arith
free_grows ((k, ts) ∷ m) visited visited' h = ground (arith, h k, free_grows m visited visited' h)

free-visit :
    (m : BlockMap) (id : BlockId) (visited : List BlockId) → free m (id ∷ visited) ≤ free m visited
unfolding elem
free-visit m id visited = free_grows m visited (id ∷ visited) (λ x h. ground arith)

-- A visit to a block with successors uses up a key.
free_falls :
    (m : BlockMap) (id : BlockId) (visited : List BlockId)
    → elem id visited ≡ false
    → targets_of m id ≢ []
    → free m (id ∷ visited) < free m visited
unfolding elem targets_of lookup
free_falls [] id visited new h = absurd (h refl)
free_falls ((k, ts) ∷ m) id visited new h = elim (Bool-cases (id == k)) [
  | inl same ↦ ground (arith, block_id_beq_iff id k, block_id_beq_iff k id, free-visit m id visited)
  | inr other ↦
      let rest : targets_of m id ≢ [] = λ e. h (rw (other, targets_of, lookup) e) in
      ground (arith, block_id_beq_iff id k, block_id_beq_iff k id, free_falls m id visited new rest)
]

free_start : (m : BlockMap) → free m [] ≡ length m
unfolding elem
free_start [] = refl
free_start ((k, ts) ∷ m) = omega (arith, free_start m)

-- What visiting the blocks of a list does to the visited blocks and the postorder.
record DoesVisit (m : BlockMap) (ids : List BlockId) (s s' : Visits) : Type 0 where
  grows : (x : BlockId) → elem x s.0 ≡ true → elem x s'.0 ≡ true
  arrives : (x : BlockId) → elem x ids ≡ true → elem x s'.0 ≡ true
  -- The postorder gets each newly visited block once.
  counted :
      (x : BlockId) → count x s'.1 + indicator (elem x s.0) ≡ count x s.1 + indicator (elem x s'.0)
  follows :
      (a b : BlockId)
      → elem a s'.0 ≡ true
      → elem b (targets_of m a) ≡ true
      → (elem a s.0 || elem b s'.0) ≡ true
  finds : (entry : BlockId) → Finds m entry s.0 → Finds m entry ids → Finds m entry s'.0

DoesVisit-nothing : (m : BlockMap) (s : Visits) → DoesVisit m [] s s
unfolding elem
DoesVisit-nothing m s = record {
  grows = λ x h. h;
  arrives = λ x h. cc;
  counted = λ x. refl;
  follows = λ a b h e. rw h;
  finds = λ entry f g. f;
}

DoesVisit-then :
    (m : BlockMap) (id : BlockId) (ids : List BlockId) (s t u : Visits)
    → DoesVisit m (id ∷ []) s t
    → DoesVisit m ids t u
    → DoesVisit m (id ∷ ids) s u
unfolding elem
DoesVisit-then m id ids s t u first rest = record {
  grows = λ x h. rest.grows x (first.grows x h);
  arrives = λ x h. ground (arith, rest.arrives x, first.arrives x, rest.grows x);
  counted = λ x. omega (arith, first.counted x, rest.counted x);
  follows = λ a b h e. ground (arith, rest.follows a b h e, first.follows a b, rest.grows b);
  finds = λ entry f g.
      let (here, others) = Finds-tail m entry id ids g in
      rest.finds entry (first.finds entry f (Finds-cons m entry id [] here (λ b h. cc))) others;
}

visit_each-DoesVisit :
    (m : BlockMap) (depth : ℕ) (go : BlockId → Visits → Visits) (ids : List BlockId) (s : Visits)
    → ((id : BlockId) (t : Visits) → free m t.0 < depth → DoesVisit m (id ∷ []) t (go id t))
    → free m s.0 < depth
    → DoesVisit m ids s (visit_each go ids s)
unfolding visit_each
visit_each-DoesVisit m depth go [] s h enough = DoesVisit-nothing m s
visit_each-DoesVisit m depth go (id ∷ ids) s h enough =
    let first = h id s enough in
    let left = free_grows m s.0 (go id s).0 first.grows in
    DoesVisit-then m id ids s (go id s) (visit_each go ids (go id s)) first
      (visit_each-DoesVisit m depth go ids (go id s) h (omega arith))

visit_targets :
    (m : BlockMap) (depth : ℕ) (go : BlockId → Visits → Visits) (id : BlockId) (s : Visits)
    → ((k : BlockId) (t : Visits) → free m t.0 < depth → DoesVisit m (k ∷ []) t (go k t))
    → (targets_of m id ≢ [] → free m s.0 < depth)
    → DoesVisit m (targets_of m id) s (visit_each go (targets_of m id) s)
unfolding visit_each
visit_targets m depth go id s h enough = elim (List-cases (targets_of m id)) [
  | inl empty ↦ rw (empty, visit_each) (DoesVisit-nothing m s)
  | inr (x, rest, e) ↦ visit_each-DoesVisit m depth go (targets_of m id) s h (enough (λ empty. cc))
]

DoesVisit-old :
    (m : BlockMap) (id : BlockId) (s : Visits) → elem id s.0 ≡ true → DoesVisit m (id ∷ []) s s
unfolding elem
DoesVisit-old m id s old = record {
  grows = λ x h. h;
  arrives = λ x h. ground (arith, block_id_beq_iff x id);
  counted = λ x. refl;
  follows = λ a b h e. rw h;
  finds = λ entry f g. f;
}

-- The block itself comes behind what its successors add.
DoesVisit-close :
    (m : BlockMap) (id : BlockId) (visited postorder : List BlockId) (s' : Visits)
    → elem id visited ≡ false
    → DoesVisit m (targets_of m id) (id ∷ visited, postorder) s'
    → DoesVisit m (id ∷ []) (visited, postorder) (s'.0, s'.1 ++ id ∷ [])
unfolding elem count
DoesVisit-close m id visited postorder s' new inner = record {
  grows = λ x h. inner.grows x (ground arith);
  arrives = λ x h. inner.grows x (ground arith);
  counted =
      λ x. ground (arith, inner.counted x, count-append x s'.1 (id ∷ []), block_id_beq_iff x id);
  follows = λ a b h e. elim (Bool-cases (a == id)) [
    | inl same ↦
        let from : elem b (targets_of m id) ≡ true =
          ap (λ (x : BlockId). elem b (targets_of m x)) (sym ((block_id_beq_iff a id).0 same))
          ∙ e in
        ground (arith, inner.arrives b from)
    | inr other ↦ ground (arith, inner.follows a b h e)
  ];
  finds = λ entry f g.
      let (here, _) = Finds-tail m entry id [] g in
      inner.finds entry (Finds-cons m entry id visited here f) (λ b h. edge b here h);
}

visit-DoesVisit :
    (m : BlockMap) (depth : ℕ) (id : BlockId) (s : Visits)
    → free m s.0 < depth
    → DoesVisit m (id ∷ []) s (visit m depth id s)
unfolding visit
visit-DoesVisit m zero id s enough = absurd (omega arith)
visit-DoesVisit m (suc depth) id (visited, postorder) enough = elim (Bool-cases (elem id visited)) [
  | inl old ↦ rw (old, visit) (DoesVisit-old m id (visited, postorder) old)
  | inr new ↦
      let s : Visits = (id ∷ visited, postorder) in
      rw (new, visit)
        (DoesVisit-close m id visited postorder (visit_each (visit m depth) (targets_of m id) s) new
          (visit_targets m depth (visit m depth) id s (visit-DoesVisit m depth)
            (λ some_target. omega (arith, free_falls m id visited new some_target))))
]

module _ (m : BlockMap) (entry : BlockId) where
  from_entry : DoesVisit m (entry ∷ []) ([], []) (visit m (length m + 1) entry ([], []))
  from_entry = visit-DoesVisit m (length m + 1) entry ([], []) (omega (arith, free_start m))

  visited_Reaches :
      (id : BlockId)
      → (elem id (visit m (length m + 1) entry ([], [])).0 ≡ true) ↔ Reaches m entry id
  unfolding elem
  visited_Reaches id = (
    from_entry.finds entry (λ b h. cc) (Finds-cons m entry entry [] start (λ b h. cc)) id,
    closed-Reaches m entry (visit m (length m + 1) entry ([], [])).0
        (from_entry.arrives entry (ground (arith, beq_refl entry)))
        (λ a b h e. ground (arith, from_entry.follows a b h e)),
  )

  -- The reverse postorder lists each reachable block once, and nothing else.
  pub count-reverse_postorder_from :
      (id : BlockId)
      → count id (reverse_postorder_from m entry) ≡ indicator (elem id (reachable_from m entry))
  unfolding reverse_postorder_from elem count
  count-reverse_postorder_from id =
      let s = visit m (length m + 1) entry ([], []) in
      let same : elem id s.0 ≡ elem id (reachable_from m entry) =
        ground (arith, visited_Reaches id, reachable_from-Reaches m entry id) in
      count-reverse id s.1 ∙ omega (arith, from_entry.counted id) ∙ ap indicator same

  -- The entry comes first.
  pub reverse_postorder_from_entry :
      (rest : List BlockId) × (reverse_postorder_from m entry ≡ entry ∷ rest)
  unfolding reverse_postorder_from visit elem
  reverse_postorder_from_entry =
      let deep : length m + 1 ≡ suc (length m) = omega arith in
      let s = visit_each (visit m (length m)) (targets_of m entry) (entry ∷ [], []) in
      rw deep (reverse s.1, reverse-append s.1 (entry ∷ []))
