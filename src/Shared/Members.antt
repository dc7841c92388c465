-- ===== src/Shared/Members.antt =====
-- Membership in a list, and in a sorted list.
use niflheim.Shared.{ℕ, ◌≡◌, List, [], ◌∷◌, ◌++◌, leb, Bool-cases, inl, inr, ◌⊎◌}
use niflheim.Shared.Sorting.{insert_by, sorted_by}

abbrev pub IsIn : {A : Type 0} → A → List A → Type 0
IsIn a [] = ⊥
IsIn a (x ∷ xs) = (a ≡ x) ⊎ IsIn a xs

module _ {A : Type 0} where
  pub IsIn-left : (a : A) (xs ys : List A) → IsIn a xs → IsIn a (xs ++ ys)
  IsIn-left a [] ys h = absurd h
  IsIn-left a (x ∷ xs) ys (inl e) = inl e
  IsIn-left a (x ∷ xs) ys (inr h) = inr (IsIn-left a xs ys h)

  pub IsIn-right : (a : A) (xs ys : List A) → IsIn a ys → IsIn a (xs ++ ys)
  IsIn-right a [] ys h = h
  IsIn-right a (x ∷ xs) ys h = inr (IsIn-right a xs ys h)

  -- Something in the tail may be put behind another head.
  behind_head :
      (a x y : A) (ys zs : List A)
      → (IsIn a (x ∷ ys) → IsIn a zs)
      → IsIn a (x ∷ y ∷ ys)
      → IsIn a (y ∷ zs)
  behind_head a x y ys zs rest (inl e) = inr (rest (inl e))
  behind_head a x y ys zs rest (inr (inl e)) = inl e
  behind_head a x y ys zs rest (inr (inr k)) = inr (rest (inr k))

  before_head :
      (a x y : A) (ys zs : List A)
      → (IsIn a zs → IsIn a (x ∷ ys))
      → IsIn a (y ∷ zs)
      → IsIn a (x ∷ y ∷ ys)
  before_head a x y ys zs rest (inl e) = inr (inl e)
  before_head a x y ys zs rest (inr k) = swapped (rest k)
    where
      swapped : IsIn a (x ∷ ys) → IsIn a (x ∷ y ∷ ys)
      swapped (inl e) = inl e
      swapped (inr m) = inr (inr m)

  module _ (key : A → ℕ) where
    IsIn-insert_by : (a x : A) (ys : List A) → IsIn a (x ∷ ys) → IsIn a (insert_by key x ys)
    unfolding insert_by
    IsIn-insert_by a x [] h = h
    IsIn-insert_by a x (y ∷ ys) h = elim (Bool-cases (leb (key x) (key y))) [
      | inl before ↦ rw before h
      | inr behind ↦ rw behind (behind_head a x y ys (insert_by key x ys) (IsIn-insert_by a x ys) h)
    ]

    pub IsIn-sorted_by : (a : A) (xs : List A) → IsIn a xs → IsIn a (sorted_by key xs)
    unfolding sorted_by
    IsIn-sorted_by a [] h = h
    IsIn-sorted_by a (x ∷ xs) (inl e) = IsIn-insert_by a x (sorted_by key xs) (inl e)
    IsIn-sorted_by a (x ∷ xs) (inr h) =
        IsIn-insert_by a x (sorted_by key xs) (inr (IsIn-sorted_by a xs h))

    of_insert_by : (a x : A) (ys : List A) → IsIn a (insert_by key x ys) → IsIn a (x ∷ ys)
    unfolding insert_by
    of_insert_by a x [] h = h
    of_insert_by a x (y ∷ ys) h = elim (Bool-cases (leb (key x) (key y))) [
      | inl before ↦ rw before at h
      | inr behind ↦
          before_head a x y ys (insert_by key x ys) (of_insert_by a x ys) (rw behind at h)
    ]

    pub of_sorted_by : (a : A) (xs : List A) → IsIn a (sorted_by key xs) → IsIn a xs
    unfolding sorted_by
    of_sorted_by a [] h = h
    of_sorted_by a (x ∷ xs) h =
        with_tail (of_sorted_by a xs) (of_insert_by a x (sorted_by key xs) h)
      where
        with_tail :
            (IsIn a (sorted_by key xs) → IsIn a xs)
            → IsIn a (x ∷ sorted_by key xs)
            → IsIn a (x ∷ xs)
        with_tail rest (inl e) = inl e
        with_tail rest (inr m) = inr (rest m)
