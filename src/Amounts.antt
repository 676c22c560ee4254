-- ===== src/Amounts.antt =====
-- The loops of src/transaction.rs and src/liquidex.rs that add up amounts by asset.
pub mod Laws
pub mod Sums
pub mod Shuffles
use bewallet.Common.{
  ℕ, ◌+◌, ◌<◌, ◌≡◌, Bool, true, false, Option, none, some, List, [], ◌∷◌, nat_eq, is_some,
  if◌then◌else◌, nat_beq,
}
use bewallet.Outcome.{Outcome, ok, ◌>>=◌}
use bewallet.Word.{Build, add_u64, u64_mod}
use bewallet.Map.{Amounts, Distinct, get, amount, entry_add}

-- `for x in xs { *map.entry(asset of x).or_insert(0) += value of x; }`
unfoldable pub accumulate :
    {X : Type 0} → Build → (X → Outcome (ℕ × ℕ)) → List X → Amounts → Outcome Amounts
accumulate b f [] m = ok m
accumulate b f (x ∷ xs) m = do
  (asset, value) ← f x
  m' ← entry_add b m asset value
  accumulate b f xs m'

-- `Iterator::sum::<u64>()`
unfoldable pub sum_u64 : Build → ℕ → List ℕ → Outcome ℕ
sum_u64 b acc [] = ok acc
sum_u64 b acc (v ∷ vs) = do acc' ← add_u64 b acc v; sum_u64 b acc' vs

-- The true sums, for the specifications.
unfoldable pub total : ℕ → List (ℕ × ℕ) → ℕ
total a [] = 0
total a ((asset, value) ∷ es) = (if nat_beq asset a then value else 0) + total a es

unfoldable pub sum : List ℕ → ℕ
sum [] = 0
sum (v ∷ vs) = v + sum vs

-- Is there an entry for the asset?
unfoldable pub has : ℕ → List (ℕ × ℕ) → Bool
has a [] = false
has a ((asset, value) ∷ es) = if nat_beq asset a then true else has a es

-- `m` holds the amounts of `es` on top of those of `m₀`, an entry for each asset that occurs.
pub record Holds (m₀ : Amounts) (es : List (ℕ × ℕ)) (m : Amounts) : Type 0 where
  pub distinct : Distinct m
  pub amounts : (a : ℕ) → amount a m ≡ amount a m₀ + total a es
  pub entries : (a : ℕ) → is_some (get a m) ≡ (if is_some (get a m₀) then true else has a es)

-- No amount passes what a `u64` holds.
abbrev pub Fits : Amounts → List (ℕ × ℕ) → Type 0
Fits m es = (a : ℕ) → amount a m + total a es < u64_mod

abbrev pub InRange : List (ℕ × ℕ) → Type 0
InRange es = (a : ℕ) → total a es < u64_mod
