-- ===== src/Backend/Analysis/Cfg/Reachable.antt =====
-- The loop over the stack finds exactly the blocks that edges lead to from the entry.
use niflheim.Shared.{
  ℕ, zero, suc, ◌+◌, ◌≤◌, ◌≡◌, ◌↔◌, refl, sym, ap, ◌∙◌, true, false, ◌||◌, List, [], ◌∷◌, ◌++◌,
  arith, ◌==◌, elem, if◌then◌else◌, Bool-cases, inl, inr, beq_refl, length, length-append,
}
use niflheim.Shared.Dict.{lookup}
use niflheim.Shared.Count.{elem-append}
use niflheim.Backend.Ir.Ids.{BlockId, block_id_eq, block_id_beq_iff}
use niflheim.Backend.Analysis.Cfg.{BlockMap, targets_of, sum_lengths, visit_stack, reachable_from}

-- The blocks to which the edges of the map lead.
pub data Reaches (m : BlockMap) (entry : BlockId) : BlockId → Type 0 where
  start : Reaches m entry entry
  edge :
      {a : BlockId} (b : BlockId)
      → Reaches m entry a
      → elem b (targets_of m a) ≡ true
      → Reaches m entry b

-- The edges out of blocks that are not visited.
abbrev unused : BlockMap → List BlockId → ℕ
unused [] visited = 0
unused ((k, ts) ∷ m) visited = (if elem k visited then 0 else length ts) + unused m visited

unused-visit :
    (m : BlockMap) (id : BlockId) (visited : List BlockId)
    → unused m (id ∷ visited) ≤ unused m visited
unfolding elem
unused-visit [] id visited = omega arith
unused-visit ((k, ts) ∷ m) id visited = ground (arith, unused-visit m id visited)

unused_falls :
    (m : BlockMap) (id : BlockId) (visited : List BlockId)
    → elem id visited ≡ false
    → unused m (id ∷ visited) + length (targets_of m id) ≤ unused m visited
unfolding elem targets_of lookup
unused_falls [] id visited h = omega arith
unused_falls ((k, ts) ∷ m) id visited h = ground (
  arith,
  block_id_beq_iff id k,
  block_id_beq_iff k id,
  unused-visit m id visited,
  unused_falls m id visited h,
)

unused_start : (m : BlockMap) → unused m [] ≡ sum_lengths m
unfolding elem
unused_start [] = refl
unused_start ((k, ts) ∷ m) = omega (arith, unused_start m)

abbrev pub Finds : BlockMap → BlockId → List BlockId → Type 0
Finds m entry ids = (id : BlockId) → elem id ids ≡ true → Reaches m entry id

-- Every edge out of a visited block leads to a visited block, or to one that waits.
abbrev pub Leads : BlockMap → List BlockId → List BlockId → Type 0
Leads m visited waiting =
    (a b : BlockId)
    → elem a visited ≡ true
    → elem b (targets_of m a) ≡ true
    → (elem b visited || elem b waiting) ≡ true

pub Finds-cons :
    (m : BlockMap) (entry id : BlockId) (ids : List BlockId)
    → Reaches m entry id
    → Finds m entry ids
    → Finds m entry (id ∷ ids)
unfolding elem
Finds-cons m entry id ids here rest b h = elim (Bool-cases (b == id)) [
  | inl same ↦ rw ((block_id_beq_iff b id).0 same) here
  | inr other ↦ rest b (ground arith)
]

Finds-push :
    (m : BlockMap) (entry id : BlockId) (stack : List BlockId)
    → Reaches m entry id
    → Finds m entry stack
    → Finds m entry (targets_of m id ++ stack)
Finds-push m entry id stack here rest b h = elim (Bool-cases (elem b (targets_of m id))) [
  | inl next ↦ edge b here next
  | inr other ↦ rest b (ground (arith, elem-append b (targets_of m id) stack))
]

pub Finds-tail :
    (m : BlockMap) (entry id : BlockId) (ids : List BlockId)
    → Finds m entry (id ∷ ids)
    → Reaches m entry id × Finds m entry ids
unfolding elem
Finds-tail m entry id ids h = (h id (ground (arith, beq_refl id)), λ b l. h b (ground arith))

visit_stack_sound :
    (m : BlockMap) (entry : BlockId) (fuel : ℕ) (visited stack : List BlockId)
    → Finds m entry visited
    → Finds m entry stack
    → Finds m entry (visit_stack m fuel visited stack)
unfolding visit_stack
visit_stack_sound m entry zero visited stack v s = v
visit_stack_sound m entry (suc fuel) visited [] v s = v
visit_stack_sound m entry (suc fuel) visited (id ∷ stack) v s =
    let (here, rest) = Finds-tail m entry id stack s in
    elim (Bool-cases (elem id visited)) [
      | inl old ↦ rw (old, visit_stack) (visit_stack_sound m entry fuel visited stack v rest)
      | inr new ↦
          rw (new, visit_stack)
            (visit_stack_sound m entry fuel (id ∷ visited) (targets_of m id ++ stack)
              (Finds-cons m entry id visited here v) (Finds-push m entry id stack here rest))
    ]

Leads-skip :
    (m : BlockMap) (id : BlockId) (visited stack : List BlockId)
    → elem id visited ≡ true
    → Leads m visited (id ∷ stack)
    → Leads m visited stack
unfolding elem
Leads-skip m id visited stack old h a b va e = ground (arith, h a b va e, block_id_beq_iff b id)

Leads-push :
    (m : BlockMap) (id : BlockId) (visited stack : List BlockId)
    → Leads m visited (id ∷ stack)
    → Leads m (id ∷ visited) (targets_of m id ++ stack)
unfolding elem
Leads-push m id visited stack h a b va e = elim (Bool-cases (a == id)) [
  | inl same ↦
      let from : elem b (targets_of m id) ≡ true =
        ap (λ (x : BlockId). elem b (targets_of m x)) (sym ((block_id_beq_iff a id).0 same)) ∙ e in
      ground (arith, elem-append b (targets_of m id) stack)
  | inr other ↦ ground (arith, h a b (ground arith) e, elem-append b (targets_of m id) stack)
]

-- With a round for every waiting block and every edge still to follow, the result holds all that was
-- visited or waiting, and the edges lead nowhere else.
visit_stack_complete :
    (m : BlockMap) (fuel : ℕ) (visited stack : List BlockId)
    → unused m visited + length stack ≤ fuel
    → Leads m visited stack
    → ((id : BlockId)
        → (elem id visited || elem id stack) ≡ true
        → elem id (visit_stack m fuel visited stack) ≡ true)
      × Leads m (visit_stack m fuel visited stack) []
unfolding visit_stack elem
visit_stack_complete m zero visited [] enough leads = (λ id h. ground arith, leads)
visit_stack_complete m zero visited (id ∷ stack) enough leads = absurd (omega arith)
visit_stack_complete m (suc fuel) visited [] enough leads = (λ id h. ground arith, leads)
visit_stack_complete m (suc fuel) visited (id ∷ stack) enough leads =
    elim (Bool-cases (elem id visited)) [
      | inl old ↦
          let (keeps, closed) =
            visit_stack_complete m fuel visited stack (omega arith)
              (Leads-skip m id visited stack old leads) in
          rw (old, visit_stack) (λ b h. keeps b (ground (arith, block_id_beq_iff b id)), closed)
      | inr new ↦
          let (keeps, closed) =
            visit_stack_complete m fuel (id ∷ visited) (targets_of m id ++ stack)
              (omega (arith, unused_falls m id visited new, length-append (targets_of m id) stack))
              (Leads-push m id visited stack leads) in
          rw (new, visit_stack)
            (λ b h. keeps b (ground (arith, elem-append b (targets_of m id) stack)), closed)
    ]

pub closed-Reaches :
    (m : BlockMap) (entry : BlockId) (ids : List BlockId)
    → elem entry ids ≡ true
    → Leads m ids []
    → {id : BlockId} → Reaches m entry id
    → elem id ids ≡ true
unfolding elem
closed-Reaches m entry ids h leads start = h
closed-Reaches m entry ids h leads (edge {a} b p e) =
    ground (arith, leads a b (closed-Reaches m entry ids h leads p) e)

-- The result of the loop over the stack holds a block exactly if edges of the successor map lead to
-- it from the entry.
pub reachable_from-Reaches :
    (m : BlockMap) (entry id : BlockId)
    → (elem id (reachable_from m entry) ≡ true) ↔ Reaches m entry id
unfolding reachable_from elem
reachable_from-Reaches m entry id =
    let (keeps, closed) =
      visit_stack_complete m (sum_lengths m + 2) [] (entry ∷ []) (omega (arith, unused_start m))
        (λ a b h e. cc) in
    (
      visit_stack_sound m entry (sum_lengths m + 2) [] (entry ∷ []) (λ b h. cc)
          (Finds-cons m entry entry [] start (λ b h. cc)) id,
      closed-Reaches m entry (visit_stack m (sum_lengths m + 2) [] (entry ∷ []))
          (keeps entry (ground (arith, beq_refl entry))) closed,
    )
