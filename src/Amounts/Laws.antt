-- ===== src/Amounts/Laws.antt =====
-- Adding up by asset, and the true sums.
use bewallet.Common.{is_some, ℕ, ◌+◌, ◌<◌, ◌≡◌, refl, subst, ap, ◌∙◌, List, [], ◌∷◌, arith, nat_eq}
use bewallet.Outcome.{Outcome, ok, traverse, traverse-cons}
use bewallet.Word.{Build, u64_mod, add_u64_fits}
use bewallet.Map.{Amounts, Distinct, get, insert, amount, entry_add}
use bewallet.Map.Laws.{get-insert, insert-Distinct}
use bewallet.Amounts.{accumulate, sum_u64, total, sum, has, Holds, Fits, InRange}

pub entry_add-insert :
    (b : Build) (m : Amounts) (a v : ℕ)
    → amount a m + v < u64_mod
    → entry_add b m a v ≡ ok (insert a (amount a m + v) m)
unfolding entry_add
entry_add-insert b m a v h = rw (add_u64_fits b (amount a m) v h)

pub entry_add-Holds :
    (m : Amounts) (a v : ℕ) → Distinct m → Holds m ((a, v) ∷ []) (insert a (amount a m + v) m)
unfolding total has
entry_add-Holds m a v d = record {
  distinct = insert-Distinct a _ m d;
  amounts = λ c. ground (arith, get-insert a c (amount a m + v) m);
  entries = λ c. ground (arith, get-insert a c (amount a m + v) m);
}

Holds-cons :
    (m₀ m m' : Amounts) (a v : ℕ) (es : List (ℕ × ℕ))
    → Holds m₀ ((a, v) ∷ []) m
    → Holds m es m'
    → Holds m₀ ((a, v) ∷ es) m'
unfolding total has
Holds-cons m₀ m m' a v es h k = record {
  distinct = k.distinct;
  amounts = λ c. ground (arith, h.amounts c, k.amounts c);
  entries = λ c. ground (arith, h.entries c, k.entries c);
}

Holds-nil : (m : Amounts) → Distinct m → Holds m [] m
unfolding total has
Holds-nil m d = record { distinct = d; amounts = λ a. omega arith; entries = λ a. ground arith }

Fits-cons :
    (m m₁ : Amounts) (a v : ℕ) (es : List (ℕ × ℕ))
    → Holds m ((a, v) ∷ []) m₁
    → Fits m ((a, v) ∷ es)
    → Fits m₁ es
unfolding total
Fits-cons m m₁ a v es one h = λ c. ground (arith, one.amounts c, h c)

Fits-head :
    (m : Amounts) (a v : ℕ) (es : List (ℕ × ℕ)) → Fits m ((a, v) ∷ es) → amount a m + v < u64_mod
unfolding total
Fits-head m a v es h = ground (arith, h a)

module _ {X : Type 0} (b : Build) (f : X → Outcome (ℕ × ℕ)) where
  pub accumulate-Holds :
      (xs : List X) (es : List (ℕ × ℕ)) (m : Amounts)
      → traverse f xs ≡ ok es
      → Distinct m
      → Fits m es
      → (m' : Amounts) × (accumulate b f xs m ≡ ok m') × Holds m es m'
  unfolding accumulate
  accumulate-Holds [] es m p d h = (m, refl, rw (← nil) (Holds-nil m d))
    where
      nil : [] ≡ es
      nil = cc
  accumulate-Holds (x ∷ xs) es m p d h =
      let (y, ys, fx, rest, e) = traverse-cons f x xs p in
      let h' : Fits m (y ∷ ys) = subst (Fits m) e h in
      let m₁ = insert y.0 (amount y.0 m + y.1) m in
      let one : Holds m (y ∷ []) m₁ = entry_add-Holds m y.0 y.1 d in
      let (m', run, more) =
        accumulate-Holds xs ys m₁ rest one.distinct (Fits-cons m m₁ y.0 y.1 ys one h') in
      let add : entry_add b m y.0 y.1 ≡ ok m₁ =
        entry_add-insert b m y.0 y.1 (Fits-head m y.0 y.1 ys h') in
      (m', rw (fx, add) run, rw e (Holds-cons m m₁ m' y.0 y.1 ys one more))

-- The same from the empty map.
pub Holds-total :
    {es : List (ℕ × ℕ)} {m : Amounts} (a : ℕ) → Holds [] es m → amount a m ≡ total a es
unfolding get
Holds-total a h = omega (arith, h.amounts a)

pub Holds-has :
    {es : List (ℕ × ℕ)} {m : Amounts} (a : ℕ) → Holds [] es m → is_some (get a m) ≡ has a es
unfolding get
Holds-has a h = ground (arith, h.entries a)

pub InRange-tail : (e : ℕ × ℕ) (es : List (ℕ × ℕ)) → InRange (e ∷ es) → InRange es
unfolding total
InRange-tail e es h = λ a. omega (arith, h a)

pub InRange-head : (a v : ℕ) (es : List (ℕ × ℕ)) → InRange ((a, v) ∷ es) → total a es + v < u64_mod
unfolding total
InRange-head a v es h = ground (arith, h a)

pub accumulate_lem :
    {X : Type 0} (b : Build) (f : X → Outcome (ℕ × ℕ)) (xs : List X) (es : List (ℕ × ℕ))
    → traverse f xs ≡ ok es
    → InRange es
    → (m : Amounts) × (accumulate b f xs [] ≡ ok m) × Holds [] es m
unfolding get
accumulate_lem b f xs es known h = accumulate-Holds b f xs es [] known tt (λ a. omega (arith, h a))

pub sum_u64_lem :
    (b : Build) (acc : ℕ) (vs : List ℕ)
    → acc + sum vs < u64_mod
    → sum_u64 b acc vs ≡ ok (acc + sum vs)
unfolding sum_u64 sum
sum_u64_lem b acc [] h = ap ok (omega arith)
sum_u64_lem b acc (v ∷ vs) h =
    rw (add_u64_fits b acc v (omega arith))
      (sum_u64_lem b (acc + v) vs (omega arith) ∙ ap ok (omega arith))
