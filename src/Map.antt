-- ===== src/Map.antt =====
-- `HashMap` and `HashSet` as association lists. The order in which a `HashMap` is iterated is not
-- specified: code that iterates takes an `Iteration`, any order that visits each entry once.
pub mod Laws
use bewallet.Common.{
  ℕ, ◌≡◌, Bool, true, false, Option, none, some, List, [], ◌∷◌, if◌then◌else◌, PartialEq, ◌==◌,
  nat_eq,
}
use bewallet.Outcome.{Outcome, ok, ◌>>=◌}
use bewallet.Word.{Build, add_u64}

abbrev pub Map : Type 0 → Type 0 → Type 0
Map K V = List (K × V)

module _ {K : Type 0} ⦃e : PartialEq K⦄ {V : Type 0} where
  unfoldable pub get : K → Map K V → Option V
  get k [] = none
  get k ((j, v) ∷ m) = if j == k then some v else get k m

  unfoldable pub insert : K → V → Map K V → Map K V
  insert k v [] = (k, v) ∷ []
  insert k v ((j, w) ∷ m) = if j == k then (k, v) ∷ m else (j, w) ∷ insert k v m

  unfoldable pub remove : K → Map K V → Map K V
  remove k [] = []
  remove k ((j, v) ∷ m) = let rest = remove k m in if j == k then rest else (j, v) ∷ rest

  -- `extend`: later entries win.
  unfoldable pub extend : Map K V → List (K × V) → Map K V
  extend m [] = m
  extend m ((k, v) ∷ rest) = extend (insert k v m) rest

  -- No key occurs twice.
  abbrev pub Distinct : Map K V → Type 0
  Distinct [] = Unit
  Distinct ((k, v) ∷ m) = (get k m ≡ none) × Distinct m

module _ {K : Type 0} ⦃e : PartialEq K⦄ where
  -- `HashSet::contains` and `HashSet::insert`
  unfoldable pub contains : K → List K → Bool
  contains k [] = false
  contains k (j ∷ s) = if j == k then true else contains k s

  unfoldable pub set_insert : K → List K → List K
  unfolding contains
  set_insert k s = if contains k s then s else k ∷ s

  unfoldable pub set_remove : K → List K → List K
  set_remove k [] = []
  set_remove k (j ∷ s) = let rest = set_remove k s in if j == k then rest else j ∷ rest

-- Amounts by asset.
abbrev pub Amounts : Type 0
Amounts = Map ℕ ℕ

abbrev pub or_zero : Option ℕ → ℕ
or_zero none = 0
or_zero (some n) = n

-- `map.get(asset)`, or 0 where there is no entry
abbrev pub amount : ℕ → Amounts → ℕ
amount a m = or_zero (get a m)

-- `*map.entry(asset).or_insert(0) += value`
unfoldable pub entry_add : Build → Amounts → ℕ → ℕ → Outcome Amounts
entry_add b m a v = do s ← add_u64 b (amount a m) v; ok (insert a s m)

-- An order of iteration. Nothing is assumed but that each entry is visited once.
pub record IterationOf (K V : Type 0) ⦃e : PartialEq K⦄ : Type 0 where
  pub order : Map K V → List (K × V)
  pub order_get : (m : Map K V) (k : K) → Distinct m → get k (order m) ≡ get k m
  pub order_distinct : (m : Map K V) → Distinct m → Distinct (order m)

abbrev pub Iteration : Type 0
Iteration = IterationOf ℕ ℕ
