-- ===== src/Common/Lists.antt =====
-- Lists measured and indexed by native numbers, under the library's names.
use Prim.Native.Nat.{ℕ, zero, suc, ◌+◌}
use mathlib.Core.Path.{◌≡◌, refl}
use mathlib.Core.Logic.{◌⊎◌, inl, inr}
use mathlib.Core.List.{List, [], ◌∷◌, ◌++◌}
use mathlib.Core.Bool.{Bool, true, false, ◌||◌}
use mathlib.Core.Option.{Option, none, some}
use native.Mathlib.Omega.{arith}
use bewallet.Common.Tests.{if◌then◌else◌}

module _ {ℓ} {A : Type ℓ} where
  abbrev pub length : List A → ℕ
  length [] = 0
  length (x ∷ xs) = suc (length xs)

  abbrev pub get_elem? : List A → ℕ → Option A
  get_elem? [] i = none
  get_elem? (x ∷ xs) zero = some x
  get_elem? (x ∷ xs) (suc i) = get_elem? xs i

  abbrev pub set : List A → ℕ → A → List A
  set [] i v = []
  set (x ∷ xs) zero v = v ∷ xs
  set (x ∷ xs) (suc i) v = x ∷ set xs i v

  abbrev pub take : ℕ → List A → List A
  take zero xs = []
  take (suc n) [] = []
  take (suc n) (x ∷ xs) = x ∷ take n xs

  abbrev pub drop : ℕ → List A → List A
  drop zero xs = xs
  drop (suc n) [] = []
  drop (suc n) (x ∷ xs) = drop n xs

  abbrev pub replicate : ℕ → A → List A
  replicate zero a = []
  replicate (suc n) a = a ∷ replicate n a

  abbrev pub is_empty : List A → Bool
  is_empty [] = true
  is_empty (x ∷ xs) = false

  -- `Vec::last`: what `pop` returns.
  abbrev pub get_last? : List A → Option A
  get_last? [] = none
  get_last? (x ∷ []) = some x
  get_last? (x ∷ y ∷ xs) = get_last? (y ∷ xs)

  abbrev pub any : (A → Bool) → List A → Bool
  any p [] = false
  any p (x ∷ xs) = p x || any p xs

  abbrev pub filter : (A → Bool) → List A → List A
  filter p [] = []
  filter p (x ∷ xs) = let rest = filter p xs in if p x then x ∷ rest else rest

  pub length-append : (xs ys : List A) → length (xs ++ ys) ≡ length xs + length ys
  length-append [] ys = omega arith
  length-append (x ∷ xs) ys = omega (arith, length-append xs ys)

  abbrev pub All {κ} : (A → Type κ) → List A → Type κ
  All P [] = Unit
  All P (x ∷ xs) = P x × All P xs

module _ {A : Type 0} where
  -- Membership as a choice of a place, which the tactics can take apart.
  abbrev pub In : A → List A → Type 0
  In a [] = ⊥
  In a (x ∷ xs) = (x ≡ a) ⊎ In a xs

  In-keep :
      (p : A → Bool) (x w : A) (xs : List A) (q : Bool)
      → p x ≡ q
      → (In w (filter p xs) → In w xs × (p w ≡ true))
      → In w (if q then x ∷ filter p xs else filter p xs)
      → In w (x ∷ xs) × (p w ≡ true)
  In-keep p x w xs true e ih (inl same) = (inl same, rw (← same) e)
  In-keep p x w xs true e ih (inr k) = (inr (ih k).0, (ih k).1)
  In-keep p x w xs false e ih k = (inr (ih k).0, (ih k).1)

  pub In-filter : (p : A → Bool) (w : A) (xs : List A) → In w (filter p xs) → In w xs × (p w ≡ true)
  In-filter p w [] h = elim h [ ]
  In-filter p w (x ∷ xs) h = In-keep p x w xs (p x) refl (In-filter p w xs) h

  pub filter-In : (p : A → Bool) (w : A) (xs : List A) → In w xs → p w ≡ true → In w (filter p xs)
  filter-In p w [] h k = elim h [ ]
  filter-In p w (x ∷ xs) (inl same) k = let e : p x ≡ true = rw same k in rw e (inl same)
  filter-In p w (x ∷ xs) (inr h) k = kept (p x) (filter-In p w xs h k)
    where
      kept : (q : Bool) → In w (filter p xs) → In w (if q then x ∷ filter p xs else filter p xs)
      kept true r = inr r
      kept false r = r
