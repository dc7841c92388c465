-- ===== src/Shared/Count.antt =====
-- How often a list holds a value: the measure of sets and of orders without repetition.
use niflheim.Shared.{
  ℕ, ◌+◌, ◌≡◌, refl, Bool, true, false, ◌||◌, List, [], ◌∷◌, ◌++◌, map, arith, Eq, ◌==◌, elem, leb,
  Bool-cases, inl, inr,
}
use niflheim.Shared.Sorting.{insert_by, sorted_by}
use mathlib.Core.List.{reverse, reverse-append}

abbrev pub indicator : Bool → ℕ
indicator true = 1
indicator false = 0

module _ {κ} {K : Type κ} ⦃e : Eq K⦄ where
  unfoldable pub count : K → List K → ℕ
  count k [] = 0
  count k (j ∷ ks) = indicator (k == j) + count k ks

  pub count-append : (k : K) (xs ys : List K) → count k (xs ++ ys) ≡ count k xs + count k ys
  unfolding count
  count-append k [] ys = omega arith
  count-append k (x ∷ xs) ys = omega (arith, count-append k xs ys)

  pub elem-append : (k : K) (xs ys : List K) → elem k (xs ++ ys) ≡ (elem k xs || elem k ys)
  unfolding elem
  elem-append k [] ys = refl
  elem-append k (x ∷ xs) ys = ground (arith, elem-append k xs ys)

  pub elem_of_count : (k : K) (ks : List K) → elem k ks ≡ leb 1 (count k ks)
  unfolding elem count
  elem_of_count k [] = refl
  elem_of_count k (j ∷ ks) = ground (arith, elem_of_count k ks)

  pub count-insert_by {ℓ} :
      {A : Type ℓ} (f : A → K) (key : A → ℕ) (k : K) (x : A) (ys : List A)
      → count k (map f (insert_by key x ys)) ≡ indicator (k == f x) + count k (map f ys)
  unfolding count insert_by
  count-insert_by f key k x [] = refl
  count-insert_by f key k x (y ∷ ys) = elim (Bool-cases (leb (key x) (key y))) [
    | inl before ↦ rw before
    | inr behind ↦ rw behind (omega (arith, count-insert_by f key k x ys))
  ]

  pub count-sorted_by {ℓ} :
      {A : Type ℓ} (f : A → K) (key : A → ℕ) (k : K) (xs : List A)
      → count k (map f (sorted_by key xs)) ≡ count k (map f xs)
  unfolding count sorted_by
  count-sorted_by f key k [] = refl
  count-sorted_by f key k (x ∷ xs) =
      omega (arith, count-insert_by f key k x (sorted_by key xs), count-sorted_by f key k xs)

  pub count-reverse : (k : K) (xs : List K) → count k (reverse xs) ≡ count k xs
  unfolding count
  count-reverse k [] = refl
  count-reverse k (x ∷ xs) =
      rw (reverse-append (x ∷ []) xs)
        (omega (arith, count-append k (reverse xs) (reverse (x ∷ [])), count-reverse k xs))
