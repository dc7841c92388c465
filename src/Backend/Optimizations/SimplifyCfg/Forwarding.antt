-- ===== src/Backend/Optimizations/SimplifyCfg/Forwarding.antt =====
-- Where `_resolve_forward_target` ends: behind the last jump, or nowhere on a cycle of jumps.
use niflheim.Shared.{
  subst, ℕ, zero, suc, ◌+◌, ◌≤◌, ◌<◌, ◌≡◌, refl, sym, ap, ◌∙◌, true, false, ◌||◌, Bool-cases,
  Option, Option-cases, none, some, List, [], ◌∷◌, ◌==◌, if◌then◌else◌, inl, inr, arith, length,
  elem, All,
}
use niflheim.Shared.Dict.{lookup}
use niflheim.Backend.Ir.Ids.{BlockId, block_id_eq, block_id_beq_iff}
use niflheim.Backend.Optimizations.SimplifyCfg.{Targets, resolve_from, resolve_forward_target}

-- The block behind `n` jumps from candidate to target.
unfoldable pub follow : Targets → ℕ → BlockId → Option BlockId
follow raw zero id = some id
follow raw (suc n) id = elim (lookup id raw) [ none ↦ none | some next ↦ follow raw n next ]

-- From `a` one comes to `b` in at least one jump.
abbrev pub Precedes : Targets → BlockId → BlockId → Type 0
Precedes raw a b = (n : ℕ) × (follow raw (suc n) a ≡ some b)

-- Some jumps from `a` lead to a block that has jumps back to itself.
abbrev pub IsCyclic : Targets → BlockId → Type 0
IsCyclic raw a = (c : BlockId) × (n : ℕ) × (follow raw n a ≡ some c) × Precedes raw c c

abbrev pub LeadsTo : Targets → BlockId → BlockId → Type 0
LeadsTo raw a t = (n : ℕ) × (follow raw n a ≡ some t) × (lookup t raw ≡ none)

follow_first :
    (raw : Targets) (n : ℕ) (a b : BlockId)
    → lookup a raw ≡ some b
    → follow raw (suc n) a ≡ follow raw n b
unfolding follow
follow_first raw n a b e = rw (e, follow)

follow-snoc :
    (raw : Targets) (n : ℕ) (a b c : BlockId)
    → follow raw n a ≡ some b
    → lookup b raw ≡ some c
    → follow raw (suc n) a ≡ some c
unfolding follow
follow-snoc raw zero a b c h e = let same : a ≡ b = cc in rw same (follow_first raw zero b c e)
follow-snoc raw (suc n) a b c h e = elim (Option-cases (lookup a raw)) [
  | inl missing ↦ cc
  | inr (d, found) ↦
      let rest : follow raw n d ≡ some b = sym (follow_first raw n a d found) ∙ h in
      follow_first raw (suc n) a d found ∙ follow-snoc raw n d b c rest e
]

-- The candidates that were not visited.
unfoldable unvisited : Targets → List BlockId → ℕ
unvisited [] visited = 0
unvisited ((k, _) ∷ raw) visited =
    let rest = unvisited raw visited in if elem k visited then rest else suc rest

unvisited_grows :
    (raw : Targets) (c : BlockId) (visited : List BlockId)
    → unvisited raw (c ∷ visited) ≤ unvisited raw visited
unfolding unvisited elem
unvisited_grows [] c visited = ground arith
unvisited_grows ((k, t) ∷ raw) c visited = ground (arith, unvisited_grows raw c visited)

unvisited_visit :
    (raw : Targets) (c t : BlockId) (visited : List BlockId)
    → lookup c raw ≡ some t
    → elem c visited ≡ false
    → unvisited raw (c ∷ visited) < unvisited raw visited
unfolding unvisited elem lookup
unvisited_visit [] c t visited found new = cc
unvisited_visit ((k, s) ∷ raw) c t visited found new = ground (
  arith,
  unvisited_grows raw c visited,
  unvisited_visit raw c t visited,
  block_id_beq_iff c k,
  block_id_beq_iff k c,
)

unvisited_all : (raw : Targets) → unvisited raw [] ≤ length raw
unfolding unvisited elem
unvisited_all [] = ground arith
unvisited_all ((k, t) ∷ raw) = ground (arith, unvisited_all raw)

-- What is true at each round: every visited block precedes the one that is looked up.
abbrev Behind : Targets → List BlockId → BlockId → Type 0
Behind raw visited current = All (λ v. Precedes raw v current) visited

Behind-next :
    (raw : Targets) (visited : List BlockId) (current next : BlockId)
    → lookup current raw ≡ some next
    → Behind raw visited current
    → Behind raw visited next
Behind-next raw [] current next e h = tt
Behind-next raw (v ∷ visited) current next e ((n, p), rest) = (
  (suc n, follow-snoc raw (suc n) v current next p e),
  Behind-next raw visited current next e rest,
)

Behind-elem :
    (raw : Targets) (visited : List BlockId) (v current : BlockId)
    → elem v visited ≡ true
    → Behind raw visited current
    → Precedes raw v current
unfolding elem
Behind-elem raw [] v current e h = cc
Behind-elem raw (u ∷ visited) v current e h = elim (Bool-cases (v == u)) [
  | inl same ↦ rw ((block_id_beq_iff v u).0 same) (h.0)
  | inr other ↦ Behind-elem raw visited v current (rw other at e) h.1
]

one_jump : (raw : Targets) (a b : BlockId) → lookup a raw ≡ some b → Precedes raw a b
unfolding follow
one_jump raw a b e = (0, follow_first raw zero a b e)

IsCyclic-next :
    (raw : Targets) (a b : BlockId) → lookup a raw ≡ some b → IsCyclic raw b → IsCyclic raw a
IsCyclic-next raw a b e (c, n, p, cycle) = (c, suc n, follow_first raw n a b e ∙ p, cycle)

LeadsTo-next :
    (raw : Targets) (a b t : BlockId) → lookup a raw ≡ some b → LeadsTo raw b t → LeadsTo raw a t
LeadsTo-next raw a b t e (n, p, last) = (suc n, follow_first raw n a b e ∙ p, last)

resolve_from-LeadsTo :
    (raw : Targets) (fuel : ℕ) (visited : List BlockId) (current t : BlockId)
    → resolve_from raw fuel visited current ≡ some t
    → LeadsTo raw current t
unfolding resolve_from follow
resolve_from-LeadsTo raw zero visited current t e = cc
resolve_from-LeadsTo raw (suc fuel) visited current t e = elim (Option-cases (lookup current raw)) [
  | inl last ↦
      let same : current ≡ t = cc in (0, ap some same, subst (λ x. lookup x raw ≡ none) same last)
  | inr (next, found) ↦ elim (Bool-cases (elem current visited || next == current)) [
    | inl stopped ↦ cc
    | inr goes_on ↦
        LeadsTo-next raw current next t found
          (resolve_from-LeadsTo raw fuel (current ∷ visited) next t (cc))
  ]
]

not_below : (n : ℕ) → ¬ (n < zero)
not_below n h = omega arith

resolve_from-IsCyclic :
    (raw : Targets) (fuel : ℕ) (visited : List BlockId) (current : BlockId)
    → unvisited raw visited < fuel
    → Behind raw visited current
    → resolve_from raw fuel visited current ≡ none
    → IsCyclic raw current
unfolding resolve_from follow
resolve_from-IsCyclic raw zero visited current enough behind e =
    absurd (not_below (unvisited raw visited) enough)
resolve_from-IsCyclic raw (suc fuel) visited current enough behind e =
    elim (Option-cases (lookup current raw)) [
      | inl last ↦ cc
      | inr (next, found) ↦ elim (Bool-cases (elem current visited)) [
        | inl again ↦ (current, 0, refl, Behind-elem raw visited current current again behind)
        | inr new ↦ elim (Bool-cases (next == current)) [
          | inl self ↦ (
            current,
            0,
            refl,
            subst (Precedes raw current) ((block_id_beq_iff next current).0 self)
                (one_jump raw current next found),
          )
          | inr other ↦ IsCyclic-next raw current next found (
              resolve_from-IsCyclic raw fuel (current ∷ visited) next
                (omega (arith, unvisited_visit raw current next visited found new))
                (one_jump raw current next found, Behind-next raw visited current next found behind)
                (cc))
        ]
      ]
    ]

-- A target that is found lies behind some jumps from candidate to candidate, and is no candidate
-- itself.
pub resolve_forward_target-LeadsTo :
    (raw : Targets) (id t : BlockId) → resolve_forward_target id raw ≡ some t → LeadsTo raw id t
unfolding resolve_forward_target
resolve_forward_target-LeadsTo raw id t e = resolve_from-LeadsTo raw (length raw + 1) [] id t e

-- Where no target is found, the jumps run into a cycle: the search does not give up before.
pub resolve_forward_target-IsCyclic :
    (raw : Targets) (id : BlockId) → resolve_forward_target id raw ≡ none → IsCyclic raw id
unfolding resolve_forward_target
resolve_forward_target-IsCyclic raw id e =
    resolve_from-IsCyclic raw (length raw + 1) [] id (omega (arith, unvisited_all raw)) tt e
