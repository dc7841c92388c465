-- ===== src/Shared/Sorting.antt =====
-- Python's stable `sorted(xs, key=…)` where the key is a number.
use niflheim.Shared.{ℕ, List, [], ◌∷◌, if◌then◌else◌, leb, All, Bool-cases, inl, inr}

module _ {ℓ} {A : Type ℓ} where
  unfoldable pub insert_by : (A → ℕ) → A → List A → List A
  insert_by key x [] = x ∷ []
  insert_by key x (y ∷ ys) =
      let rest = insert_by key x ys in if leb (key x) (key y) then x ∷ y ∷ ys else y ∷ rest

  unfoldable pub sorted_by : (A → ℕ) → List A → List A
  sorted_by key [] = []
  sorted_by key (x ∷ xs) = insert_by key x (sorted_by key xs)

module _ {ℓ κ} {A : Type ℓ} (P : A → Type κ) (key : A → ℕ) where
  All-insert_by : (x : A) (ys : List A) → P x → All P ys → All P (insert_by key x ys)
  unfolding insert_by
  All-insert_by x [] p ps = (p, tt)
  All-insert_by x (y ∷ ys) p ps = elim (Bool-cases (leb (key x) (key y))) [
    | inl before ↦ rw before (p, ps)
    | inr behind ↦ rw behind (ps.0, All-insert_by x ys p ps.1)
  ]

  pub All-sorted_by : (xs : List A) → All P xs → All P (sorted_by key xs)
  unfolding sorted_by
  All-sorted_by [] ps = tt
  All-sorted_by (x ∷ xs) ps = All-insert_by x (sorted_by key xs) ps.0 (All-sorted_by xs ps.1)

  All-of_insert_by : (x : A) (ys : List A) → All P (insert_by key x ys) → P x × All P ys
  unfolding insert_by
  All-of_insert_by x [] ps = ps
  All-of_insert_by x (y ∷ ys) ps = elim (Bool-cases (leb (key x) (key y))) [
    | inl before ↦ rw before at ps
    | inr behind ↦
        let all : All P (y ∷ insert_by key x ys) = rw behind at ps in
        let found = All-of_insert_by x ys all.1 in (found.0, (all.0, found.1))
  ]

  pub All-of_sorted_by : (xs : List A) → All P (sorted_by key xs) → All P xs
  unfolding sorted_by
  All-of_sorted_by [] ps = tt
  All-of_sorted_by (x ∷ xs) ps =
      let found = All-of_insert_by x (sorted_by key xs) ps in (found.0, All-of_sorted_by xs found.1)
