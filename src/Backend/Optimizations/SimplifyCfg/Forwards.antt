-- ===== src/Backend/Optimizations/SimplifyCfg/Forwards.antt =====
-- What `_forward_target_by_block` gives: each block in it leads over empty blocks that only jump to a
-- block that is not in it.
use niflheim.Shared.{
  beq_refl, ℕ, suc, ◌+◌, ◌≤◌, ◌≡◌, ◌≢◌, ◌⊎◌, refl, sym, ap, ◌∙◌, true, false, ◌||◌, not, Bool-cases,
  Option, Option-cases, none, some, List, [], ◌∷◌, arith, ◌==◌, inl, inr, length, if◌then◌else◌,
}
use niflheim.Shared.Dict.{lookup, insert, lookup-insert}
use niflheim.Shared.Count.{count, elem_of_count}
use niflheim.Backend.Ir.Ids.{BlockId, block_id_eq, block_id_beq_iff}
use niflheim.Backend.Ir.Model.{Instruction, Block, CallableDecl}
use niflheim.Backend.Semantics.Callables.{find_block}
use niflheim.Backend.Analysis.Cfg.Index.{block_ids, elem_of_find_block}
use niflheim.Backend.Optimizations.SimplifyCfg.{
  Targets, is_entry, jump_target, candidate_target, add_candidates, resolve_from,
  resolve_forward_target, add_resolved, forward_target_by_block, is_empty,
}
use niflheim.Backend.Optimizations.SimplifyCfg.Forwarding.{LeadsTo, resolve_forward_target-LeadsTo}

inserted_here :
    (id k t u : BlockId) (d : Targets)
    → (id == k) ≡ true
    → lookup id (insert k t d) ≡ some u
    → t ≡ u
inserted_here id k t u d here h =
    let e : lookup id (insert k t d) ≡ some t = lookup-insert id k t d ∙ rw here refl in cc

inserted_elsewhere :
    (id k t u : BlockId) (d : Targets)
    → (id == k) ≡ false
    → lookup id (insert k t d) ≡ some u
    → lookup id d ≡ some u
inserted_elsewhere id k t u d other h =
    let e : lookup id (insert k t d) ≡ lookup id d = lookup-insert id k t d ∙ rw other refl in
    sym e ∙ h

no_instructions : (is : List Instruction) → is_empty is ≡ true → is ≡ []
no_instructions [] e = refl
no_instructions (x ∷ is) e = cc

add_candidates-lookup :
    (entry : Option BlockId) (raw : Targets) (bs : List Block) (id u : BlockId)
    → ((k : BlockId) → count k (block_ids bs) ≤ 1)
    → lookup id (add_candidates entry raw bs) ≡ some u
    → (lookup id raw ≡ some u)
      ⊎ ((b : Block) × (find_block id bs ≡ some b) × (candidate_target entry b ≡ some u))
unfolding add_candidates find_block count
add_candidates-lookup entry raw [] id u distinct h = inl h
add_candidates-lookup entry raw (b ∷ bs) id u distinct h =
    let rest : (k : BlockId) → count k (block_ids bs) ≤ 1 = λ k. omega (arith, distinct k) in
    elim (Option-cases (candidate_target entry b)) [
      | inl plain ↦ elim (add_candidates-lookup entry raw bs id u rest (rw plain at h)) [
        | inl old ↦ inl old
        | inr (b', found, candidate) ↦ inr (b', later b' found, candidate)
      ]
      | inr (t, candidate) ↦
          elim (add_candidates-lookup entry (insert b.block_id t raw) bs id u rest
            (rw candidate at h)) [
              | inl entered ↦ elim (Bool-cases (id == b.block_id)) [
                | inl here ↦
                    let e = inserted_here id b.block_id t u raw here entered in
                    inr (b, rw here, candidate ∙ ap some e)
                | inr other ↦ inl (inserted_elsewhere id b.block_id t u raw other entered)
              ]
              | inr (b', found, candidate') ↦ inr (b', later b' found, candidate')
            ]
    ]
  where
    later :
        (b' : Block)
        → find_block id bs ≡ some b'
        → (if id == b.block_id then some b else find_block id bs) ≡ some b'
    later b' found =
        let listed = (elem_of_find_block id bs b' found).0 in
        let other : (id == b.block_id) ≡ false =
          ground (arith, distinct id, elem_of_count id (block_ids bs)) in
        rw other found

candidate-jumps :
    (entry : Option BlockId) (b : Block) (u : BlockId)
    → candidate_target entry b ≡ some u
    → (b.instructions ≡ []) × (jump_target b.terminator ≡ some u)
unfolding candidate_target
candidate-jumps entry b u h =
    elim (Bool-cases (is_entry b.block_id entry || not (is_empty b.instructions))) [
      | inl kept ↦ let bad = rw (kept, candidate_target) at h in cc
      | inr plain ↦
          let h' = rw (plain, candidate_target) at h in
          (
            no_instructions b.instructions (ground (arith, plain)),
            target (jump_target b.terminator) h',
          )
    ]
  where
    target :
        (o : Option BlockId)
        → (elim o [ none ↦ none | some t ↦ if t == b.block_id then none else some t ]) ≡ some u
        → o ≡ some u
    target none e = cc
    target (some t) e = elim (Bool-cases (t == b.block_id)) [
      | inl self ↦ let bad = rw self at e in cc
      | inr other ↦ rw other at e
    ]

add_resolved-lookup :
    (raw resolved : Targets) (rest : List (BlockId × BlockId)) (id t : BlockId)
    → lookup id (add_resolved raw resolved rest) ≡ some t
    → (lookup id resolved ≡ some t) ⊎ ((resolve_forward_target id raw ≡ some t) × (t ≢ id))
unfolding add_resolved
add_resolved-lookup raw resolved [] id t h = inl h
add_resolved-lookup raw resolved ((k, x) ∷ rest) id t h =
    elim (Option-cases (resolve_forward_target k raw)) [
      | inl cyclic ↦ add_resolved-lookup raw resolved rest id t (rw cyclic at h)
      | inr (s, found) ↦ elim (Bool-cases (s == k)) [
        | inl self ↦ add_resolved-lookup raw resolved rest id t (rw self at (rw found at h))
        | inr other ↦
            elim (add_resolved-lookup raw (insert k s resolved) rest id t
              (rw other at (rw found at h))) [
                | inl entered ↦ elim (Bool-cases (id == k)) [
                  | inl here ↦
                      let same : id ≡ k = (block_id_beq_iff id k).0 here in
                      let e = inserted_here id k s t resolved here entered in
                      inr (
                        ap (λ (y : BlockId). resolve_forward_target y raw) same ∙ found ∙ ap some e,
                        λ (bad : t ≡ id).
                            ground (arith, block_id_beq_iff s k, other, e ∙ bad ∙ same),
                      )
                  | inr elsewhere ↦ inl (inserted_elsewhere id k s t resolved elsewhere entered)
                ]
                | inr later ↦ inr later
              ]
      ]
    ]

resolve_from-plain :
    (raw : Targets) (n : ℕ) (id : BlockId)
    → lookup id raw ≡ none
    → resolve_from raw (suc n) [] id ≡ some id
unfolding resolve_from
resolve_from-plain raw n id missing = rw (missing, resolve_from)

plus_one : (n : ℕ) → n + 1 ≡ suc n
plus_one n = omega arith

resolve-plain :
    (raw : Targets) (id : BlockId) → lookup id raw ≡ none → resolve_forward_target id raw ≡ some id
unfolding resolve_forward_target
resolve-plain raw id missing =
    ap (λ (n : ℕ). resolve_from raw n [] id) (plus_one (length raw))
    ∙ resolve_from-plain raw (length raw) id missing

-- The entries of the result.
module _ (c : CallableDecl) where
  abbrev pub raw_targets : Targets
  raw_targets = add_candidates c.entry_block_id [] c.blocks

  pub raw_target-jumps :
      (id u : BlockId)
      → ((k : BlockId) → count k (block_ids c.blocks) ≤ 1)
      → lookup id raw_targets ≡ some u
      → (b : Block) × (find_block id c.blocks ≡ some b)
        × (b.instructions ≡ [])
        × (jump_target b.terminator ≡ some u)
  unfolding lookup
  raw_target-jumps id u distinct h =
      elim (add_candidates-lookup c.entry_block_id [] c.blocks id u distinct h) [
        | inl nothing ↦ cc
        | inr (b, found, candidate) ↦
            let (empty, jumps) = candidate-jumps c.entry_block_id b u candidate in
            (b, found, empty, jumps)
      ]

  -- A block that is no candidate is not forwarded.
  pub forward_target-plain :
      (id : BlockId) → lookup id raw_targets ≡ none → lookup id (forward_target_by_block c) ≡ none
  unfolding forward_target_by_block lookup
  forward_target-plain id last = elim (Option-cases (lookup id (forward_target_by_block c))) [
    | inl plain ↦ plain
    | inr (s, forwarded) ↦ elim (add_resolved-lookup raw_targets [] raw_targets id s forwarded) [
      | inl nothing ↦ cc
      | inr (resolved, other) ↦
          let e : id ≡ s = cc (resolve-plain raw_targets id last) in absurd (other (sym e))
    ]
  ]

  pub forward_target-LeadsTo :
      (id t : BlockId)
      → lookup id (forward_target_by_block c) ≡ some t
      → LeadsTo raw_targets id t × (lookup t (forward_target_by_block c) ≡ none)
  unfolding forward_target_by_block lookup
  forward_target-LeadsTo id t h = elim (add_resolved-lookup raw_targets [] raw_targets id t h) [
    | inl nothing ↦ cc
    | inr (resolved, other) ↦
        let (n, leads, last) = resolve_forward_target-LeadsTo raw_targets id t resolved in
        ((n, leads, last), forward_target-plain t last)
  ]

  pub forward_target-entry :
      (entry : BlockId)
      → ((k : BlockId) → count k (block_ids c.blocks) ≤ 1)
      → c.entry_block_id ≡ some entry
      → lookup entry (forward_target_by_block c) ≡ none
  unfolding lookup candidate_target
  forward_target-entry entry distinct named =
      forward_target-plain entry (elim (Option-cases (lookup entry raw_targets)) [
        | inl plain ↦ plain
        | inr (u, candidate) ↦
            elim (add_candidates-lookup c.entry_block_id [] c.blocks entry u distinct candidate) [
              | inl nothing ↦ cc
              | inr (b, found, wanted) ↦
                  let name = (elem_of_find_block entry c.blocks b found).1 in
                  let bad : candidate_target c.entry_block_id b ≡ none =
                    rw named (rw name (rw (beq_refl entry, candidate_target) refl)) in
                  cc
            ]
      ])
