-- ===== src/Shared/DictOrder.antt =====
-- Dictionaries that are rebuilt in the order of their keys, `{k: d[k] for k in sorted(d)}`.
use niflheim.Shared.{
  ℕ, ◌+◌, ◌≤◌, ◌≡◌, refl, ap, ◌∙◌, Option, some, [], ◌∷◌, arith, Eq, ◌==◌, elem, beq_refl,
  if◌then◌else◌, leb, Bool-cases, inl, inr,
}
use niflheim.Shared.Dict.{Dict, lookup, insert, keys}
use niflheim.Shared.Sorting.{insert_by, sorted_by}
use niflheim.Shared.Count.{count, indicator, elem_of_count, count-sorted_by}

module _ {ℓ κ} {K : Type ℓ} {V : Type κ} ⦃e : Eq K⦄ where
  -- No key stands twice.
  abbrev pub HasDistinctKeys : Dict K V → Type ℓ
  HasDistinctKeys d = (k : K) → count k (keys d) ≤ 1

  pub count-keys-insert :
      (j k : K) (v : V) (d : Dict K V)
      → count j (keys (insert k v d))
        ≡ count j (keys d) + (if elem k (keys d) then 0 else indicator (j == k))
  unfolding insert count elem
  count-keys-insert j k v [] = ground arith
  count-keys-insert j k v ((i, w) ∷ d) = ground (arith, e.beq_iff k i, count-keys-insert j k v d)

  pub insert-HasDistinctKeys :
      (k : K) (v : V) (d : Dict K V) → HasDistinctKeys d → HasDistinctKeys (insert k v d)
  insert-HasDistinctKeys k v d h j =
      ground (arith, h j, count-keys-insert j k v d, elem_of_count k (keys d), e.beq_iff j k)

  lookup-insert_by :
      (key : K × V → ℕ) (k : K) (x : K × V) (d : Dict K V)
      → count x.0 (keys d) ≡ 0
      → lookup k (insert_by key x d) ≡ (if k == x.0 then some x.1 else lookup k d)
  unfolding lookup insert_by count
  lookup-insert_by key k x [] fresh = refl
  lookup-insert_by key k x (y ∷ d) fresh = elim (Bool-cases (leb (key x) (key y))) [
    | inl before ↦ rw before
    | inr behind ↦ rw behind (
        ground
          (arith, e.beq_iff k x.0, e.beq_iff k y.0, e.beq_iff x.0 y.0, lookup-insert_by key k x d))
  ]

  pub lookup-sorted_by :
      (key : K × V → ℕ) (k : K) (d : Dict K V)
      → HasDistinctKeys d
      → lookup k (sorted_by key d) ≡ lookup k d
  unfolding lookup sorted_by count
  lookup-sorted_by key k [] distinct = refl
  lookup-sorted_by key k (x ∷ d) distinct =
      let fresh : count x.0 (keys (sorted_by key d)) ≡ 0 =
        ground
          (arith, distinct x.0, beq_refl x.0, count-sorted_by (λ (y : K × V). y.0) key x.0 d) in
      lookup-insert_by key k x (sorted_by key d) fresh
      ∙ ap (λ (o : Option V). if k == x.0 then some x.1 else o)
          (lookup-sorted_by key k d (λ j. omega (arith, distinct j)))
