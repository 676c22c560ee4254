-- ===== src/Common/Sort/Unique.antt =====
-- Sorting by a total order.
use bewallet.Common.{
  ◌≡◌, ◌⊎◌, refl, sym, ap, subst, ◌∙◌, inl, inr, Bool, true, false, List, [], ◌∷◌, In,
  if◌then◌else◌,
}
use bewallet.Common.Sort.{insert_sorted, sort_by}
use bewallet.Common.Sort.Laws.{In-insert_sorted, In-sort_by}

module _ {A : Type 0} where
  abbrev pub NoDup : List A → Type 0
  NoDup [] = Unit
  NoDup (x ∷ xs) = (¬ In x xs) × NoDup xs

module _ {A : Type 0} (le : A → A → Bool) where
  -- Every element goes before those behind it.
  abbrev pub Sorted : List A → Type 0
  Sorted [] = Unit
  Sorted (x ∷ xs) = ((y : A) → In y xs → le x y ≡ true) × Sorted xs

  insert_sorted-NoDup : (a : A) (xs : List A) → ¬ In a xs → NoDup xs → NoDup (insert_sorted le a xs)
  unfolding insert_sorted
  insert_sorted-NoDup a [] fresh d = (fresh, tt)
  insert_sorted-NoDup a (x ∷ xs) fresh d =
      let rest = insert_sorted-NoDup a xs (λ h. fresh (inr h)) d.1 in cases (le a x) rest
    where
      cases :
          (b : Bool)
          → NoDup (insert_sorted le a xs)
          → NoDup (if b then a ∷ x ∷ xs else x ∷ insert_sorted le a xs)
      cases true rest = (fresh, d)
      cases false rest = (
        λ h. elim ((In-insert_sorted le a x xs).1 h) [
          | inl e ↦ fresh (inl (sym e))
          | inr k ↦ d.0 k
        ],
        rest,
      )

  pub sort_by-NoDup : (xs : List A) → NoDup xs → NoDup (sort_by le xs)
  unfolding sort_by
  sort_by-NoDup [] d = tt
  sort_by-NoDup (x ∷ xs) d =
      insert_sorted-NoDup x (sort_by le xs) (λ h. d.0 ((In-sort_by le x xs).1 h))
        (sort_by-NoDup xs d.1)

  module _ (total : (x y : A) → (le x y ≡ true) ⊎ (le y x ≡ true))
      (trans : (x y z : A) → le x y ≡ true → le y z ≡ true → le x z ≡ true) where
    insert_sorted-Sorted : (a : A) (xs : List A) → Sorted xs → Sorted (insert_sorted le a xs)
    unfolding insert_sorted
    insert_sorted-Sorted a [] s = (λ y h. absurd h, tt)
    insert_sorted-Sorted a (x ∷ xs) s = cases (le a x) refl (insert_sorted-Sorted a xs s.1)
      where
        cases :
            (b : Bool)
            → le a x ≡ b
            → Sorted (insert_sorted le a xs)
            → Sorted (if b then a ∷ x ∷ xs else x ∷ insert_sorted le a xs)
        cases true e rest = (
          λ y h. elim h [
            | inl same ↦ subst (λ z. le a z ≡ true) same e
            | inr k ↦ trans a x y e (s.0 y k)
          ],
          s,
        )
        cases false e rest = (
          λ y h. elim ((In-insert_sorted le a y xs).1 h) [
            | inl same ↦ elim (total x a) [
              | inl before ↦ subst (λ z. le x z ≡ true) same before
              | inr after ↦ absurd cc
            ]
            | inr k ↦ s.0 y k
          ],
          rest,
        )

    pub sort_by-Sorted : (xs : List A) → Sorted (sort_by le xs)
    unfolding sort_by
    sort_by-Sorted [] = tt
    sort_by-Sorted (x ∷ xs) = insert_sorted-Sorted x (sort_by le xs) (sort_by-Sorted xs)

  -- Two sorted lists of the same elements are equal, if no two different elements go before each
  -- other.
  pub Sorted-unique :
      (xs ys : List A)
      → ((x y : A) → In x xs → In y xs → le x y ≡ true → le y x ≡ true → x ≡ y)
      → Sorted xs
      → Sorted ys
      → NoDup xs
      → NoDup ys
      → ((w : A) → In w xs → In w ys)
      → ((w : A) → In w ys → In w xs)
      → xs ≡ ys
  Sorted-unique [] [] anti s t d e to from = refl
  Sorted-unique [] (y ∷ ys) anti s t d e to from = elim (from y (inl refl)) [ ]
  Sorted-unique (x ∷ xs) [] anti s t d e to from = elim (to x (inl refl)) [ ]
  Sorted-unique (x ∷ xs) (y ∷ ys) anti s t d e to from =
      let same : x ≡ y = elim (to x (inl refl)) [
        | inl q ↦ sym q
        | inr h ↦ elim (from y (inl refl)) [
          | inl q ↦ q
          | inr k ↦ anti x y (inl refl) (inr k) (s.0 y k) (t.0 x h)
        ]
      ] in
      let rest : xs ≡ ys =
        Sorted-unique xs ys (λ a b h k. anti a b (inr h) (inr k)) s.1 t.1 d.1 e.1
          (λ w h. elim (to w (inr h)) [
            | inl q ↦ absurd (d.0 (subst (λ a. In a xs) (sym (same ∙ q)) h))
            | inr k ↦ k
          ])
          (λ w h. elim (from w (inr h)) [
            | inl q ↦ absurd (e.0 (subst (λ a. In a ys) (sym (sym same ∙ q)) h))
            | inr k ↦ k
          ]) in
      ap (λ l. x ∷ l) rest ∙ ap (λ a. a ∷ ys) same
