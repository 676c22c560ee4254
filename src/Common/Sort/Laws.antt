-- ===== src/Common/Sort/Laws.antt =====
-- The elements of a sorted list, and its last.
use bewallet.Common.{
  ℕ, ◌≤◌, ◌≡◌, refl, inl, inr, Bool, none, some, List, [], ◌∷◌, leb, arith, In, get_last?,
  Bool-cases,
}
use bewallet.Common.Sort.{insert_sorted, sort_by}

module _ {A : Type 0} where
  pub get_last?-In : (xs : List A) (u : A) → get_last? xs ≡ some u → In u xs
  get_last?-In [] u h = cc
  get_last?-In (x ∷ []) u h = ground arith
  get_last?-In (x ∷ y ∷ xs) u h = inr (get_last?-In (y ∷ xs) u h)

  pub get_last?-none : (xs : List A) → get_last? xs ≡ none → xs ≡ []
  get_last?-none [] h = refl
  get_last?-none (x ∷ []) h = cc
  get_last?-none (x ∷ y ∷ xs) h = absurd (not_nil (get_last?-none (y ∷ xs) h))
    where
      not_nil : (y ∷ xs) ≡ [] → ⊥
      not_nil e = cc

module _ {A : Type 0} (le : A → A → Bool) where
  pub In-insert_sorted :
      (a w : A) (xs : List A)
      → (In w (a ∷ xs) → In w (insert_sorted le a xs))
        × (In w (insert_sorted le a xs) → In w (a ∷ xs))
  unfolding insert_sorted
  In-insert_sorted a w [] = (λ h. h, λ h. h)
  In-insert_sorted a w (x ∷ xs) = elim (Bool-cases (le a x)) [
    | inl before ↦ rw before (λ h. h, λ h. h)
    | inr after ↦ rw after (forth (In-insert_sorted a w xs).0, back (In-insert_sorted a w xs).1)
  ]
    where
      forth :
          (In w (a ∷ xs) → In w (insert_sorted le a xs))
          → In w (a ∷ x ∷ xs)
          → In w (x ∷ insert_sorted le a xs)
      forth ih (inl e) = inr (ih (inl e))
      forth ih (inr (inl e)) = inl e
      forth ih (inr (inr h)) = inr (ih (inr h))

      back :
          (In w (insert_sorted le a xs) → In w (a ∷ xs))
          → In w (x ∷ insert_sorted le a xs)
          → In w (a ∷ x ∷ xs)
      back ih (inl e) = inr (inl e)
      back ih (inr h) = elim (ih h) [ inl e ↦ inl e | inr k ↦ inr (inr k) ]

  pub In-sort_by :
      (w : A) (xs : List A) → (In w xs → In w (sort_by le xs)) × (In w (sort_by le xs) → In w xs)
  unfolding sort_by
  In-sort_by w [] = (λ h. h, λ h. h)
  In-sort_by w (x ∷ xs) =
      let (to, from) = In-insert_sorted x w (sort_by le xs) in
      let (ih, hi) = In-sort_by w xs in
      (
        λ h. to (elim h [ inl e ↦ inl e | inr k ↦ inr (ih k) ]),
        λ h. elim (from h) [ inl e ↦ inl e | inr k ↦ inr (hi k) ],
      )

module _ {A : Type 0} (key : A → ℕ) where
  abbrev by_key : A → A → Bool
  by_key a b = leb (key a) (key b)

  abbrev IsSorted : List A → Type 0
  IsSorted [] = Unit
  IsSorted (x ∷ xs) = ((w : A) → In w xs → key x ≤ key w) × IsSorted xs

  insert_sorted-IsSorted :
      (a : A) (xs : List A) → IsSorted xs → IsSorted (insert_sorted by_key a xs)
  unfolding insert_sorted
  insert_sorted-IsSorted a [] s = (λ w h. elim h [ ], tt)
  insert_sorted-IsSorted a (x ∷ xs) s = elim (Bool-cases (by_key a x)) [
    | inl before ↦
        rw before (λ w h. elim h [ inl e ↦ ground arith | inr k ↦ ground (arith, s.0 w k) ], s)
    | inr after ↦ rw after (
      λ w h. elim ((In-insert_sorted by_key a w xs).1 h) [ inl e ↦ ground arith | inr k ↦ s.0 w k ],
      insert_sorted-IsSorted a xs s.1,
    )
  ]

  sort_by-IsSorted : (xs : List A) → IsSorted (sort_by by_key xs)
  unfolding sort_by
  sort_by-IsSorted [] = tt
  sort_by-IsSorted (x ∷ xs) = insert_sorted-IsSorted x (sort_by by_key xs) (sort_by-IsSorted xs)

  last_is_greatest :
      (xs : List A) (u w : A) → IsSorted xs → get_last? xs ≡ some u → In w xs → key w ≤ key u
  last_is_greatest [] u w s h k = elim k [ ]
  last_is_greatest (x ∷ []) u w s h k = ground arith
  last_is_greatest (x ∷ y ∷ xs) u w s h (inl e) = ground (arith, s.0 u (get_last?-In (y ∷ xs) u h))
  last_is_greatest (x ∷ y ∷ xs) u w s h (inr k) = last_is_greatest (y ∷ xs) u w s.1 h k

  -- The last of the sorted elements is one of them, and none is greater.
  pub last-sort_by :
      (xs : List A) (u : A)
      → get_last? (sort_by (λ a b. leb (key a) (key b)) xs) ≡ some u
      → In u xs × ((w : A) → In w xs → key w ≤ key u)
  last-sort_by xs u h = (
    (In-sort_by by_key u xs).1 (get_last?-In (sort_by by_key xs) u h),
    λ w k.
        last_is_greatest (sort_by by_key xs) u w (sort_by-IsSorted xs) h
          ((In-sort_by by_key w xs).0 k),
  )
