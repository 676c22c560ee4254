-- ===== src/Liquidex/Blind/Search.antt =====
-- src/liquidex.rs: the loop that looks for a nonce that is a public key.
use bewallet.Common.{
  ℕ, zero, suc, ◌+◌, ◌<◌, ◌≡◌, refl, subst, Option, none, some, arith, Option-cases, inl, inr,
}
use bewallet.Outcome.{Outcome, ok, >>=-eq-ok}
use bewallet.Liquidex.Blind.{search_key}

-- What a round's result makes of the loop.
abbrev decide : Option ℕ → Outcome ℕ → Outcome ℕ
decide found rest = elim found [ some pk ↦ ok pk | none ↦ rest ]

-- The round that ends the loop.
pub search_key-found :
    (candidate : ℕ → Outcome (Option ℕ)) (rounds i : ℕ) {pk : ℕ}
    → search_key candidate rounds i ≡ ok pk
    → (k : ℕ) × (candidate k ≡ ok (some pk))
unfolding search_key
search_key-found candidate zero i run = absurd cc
search_key-found candidate (suc rounds) i {pk} run =
    let (found, e, next) =
      >>=-eq-ok (candidate i) (λ found. decide found (search_key candidate rounds (i + 1))) run in
    elim (Option-cases found) [
      | inl n ↦
          search_key-found candidate rounds (i + 1)
            (subst (λ f. decide f (search_key candidate rounds (i + 1)) ≡ ok pk) n next)
      | inr (p, q) ↦
          let same : ok p ≡ ok pk =
            subst (λ f. decide f (search_key candidate rounds (i + 1)) ≡ ok pk) q next in
          (i, rw (e, q) cc)
    ]

-- The loop ends with the first key, if there are rounds enough to come to it.
pub search_key-finds :
    (candidate : ℕ → Outcome (Option ℕ)) (rounds i k : ℕ) {pk : ℕ}
    → k < rounds
    → ((j : ℕ) → j < k → candidate (i + j) ≡ ok none)
    → candidate (i + k) ≡ ok (some pk)
    → search_key candidate rounds i ≡ ok pk
unfolding search_key
search_key-finds candidate zero i k h others this = absurd (omega arith)
search_key-finds candidate (suc rounds) i zero {pk} h others this =
    let at_i : i + 0 ≡ i = omega arith in
    let same : candidate i ≡ ok (some pk) = subst (λ n. candidate n ≡ ok (some pk)) at_i this in
    rw same refl
search_key-finds candidate (suc rounds) i (suc k) {pk} h others this =
    let at_i : i + 0 ≡ i = omega arith in
    let first : candidate i ≡ ok none =
      subst (λ n. candidate n ≡ ok none) at_i (others 0 (omega arith)) in
    let rest : search_key candidate rounds (i + 1) ≡ ok pk =
      search_key-finds candidate rounds (i + 1) k (omega arith)
        (λ j l. subst (λ n. candidate n ≡ ok none) (shift i j) (others (suc j) (omega arith)))
        (subst (λ n. candidate n ≡ ok (some pk)) (shift i k) this) in
    rw first rest
  where
    shift : (a b : ℕ) → a + suc b ≡ a + 1 + b
    shift a b = omega arith

-- The same from the first round on.
pub search_key-first :
    (candidate : ℕ → Outcome (Option ℕ)) (rounds k : ℕ) {pk : ℕ}
    → k < rounds
    → ((j : ℕ) → j < k → candidate j ≡ ok none)
    → candidate k ≡ ok (some pk)
    → search_key candidate rounds 0 ≡ ok pk
search_key-first candidate rounds k {pk} h others this =
    search_key-finds candidate rounds 0 k h
      (λ j l. subst (λ n. candidate n ≡ ok none) (from_zero j) (others j l))
      (subst (λ n. candidate n ≡ ok (some pk)) (from_zero k) this)
  where
    from_zero : (n : ℕ) → n ≡ 0 + n
    from_zero n = omega arith
