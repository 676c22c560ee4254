-- ===== src/Headers/Multisig.antt =====
-- src/headers.rs: the two loops of OP_CHECKMULTISIG, and the assignments of signatures to keys.
use bewallet.Common.{
  Bool-cases, inl, inr, ℕ, ◌≤◌, ◌≡◌, refl, ◌↔◌, Bool, true, List, [], ◌∷◌, length, arith,
}
use bewallet.Headers.{inner_loop, count_verified}

module _ (verifies : ℕ → ℕ → Bool) where
  -- Each signature has a key of its own that verifies it, in the order of the keys.
  pub data Matched : List ℕ → List ℕ → Type 0 where
    done : (pubkeys : List ℕ) → Matched [] pubkeys
    take :
        {s k : ℕ} {signatures pubkeys : List ℕ}
        → verifies s k ≡ true
        → Matched signatures pubkeys
        → Matched (s ∷ signatures) (k ∷ pubkeys)
    skip :
        {s k : ℕ} {signatures pubkeys : List ℕ}
        → Matched (s ∷ signatures) pubkeys
        → Matched (s ∷ signatures) (k ∷ pubkeys)

  one_more :
      (k : ℕ) {signatures pubkeys : List ℕ}
      → Matched signatures pubkeys
      → Matched signatures (k ∷ pubkeys)
  one_more k (done pubkeys) = done (k ∷ pubkeys)
  one_more k (take h m) = skip (take h m)
  one_more k (skip m) = skip (skip m)

  one_fewer :
      {s : ℕ} {signatures pubkeys : List ℕ}
      → Matched (s ∷ signatures) pubkeys
      → Matched signatures pubkeys
  one_fewer (take {k = k} h m) = one_more k m
  one_fewer (skip {k = k} m) = one_more k (one_fewer m)

  -- The first key that fits is as good as any.
  inner_loop-Matched :
      {s : ℕ} {signatures pubkeys : List ℕ}
      → Matched (s ∷ signatures) pubkeys
      → ((inner_loop verifies s pubkeys).0 ≡ true)
        × Matched signatures (inner_loop verifies s pubkeys).1
  unfolding inner_loop
  inner_loop-Matched (take h m) = rw h (refl, m)
  inner_loop-Matched (skip {s = s} {k = k} m) = elim (Bool-cases (verifies s k)) [
    | inl hit ↦ rw hit (refl, one_fewer m)
    | inr miss ↦ rw miss (inner_loop-Matched m)
  ]

  inner_loop-found :
      (s : ℕ) (signatures pubkeys : List ℕ)
      → (inner_loop verifies s pubkeys).0 ≡ true
      → Matched signatures (inner_loop verifies s pubkeys).1
      → Matched (s ∷ signatures) pubkeys
  unfolding inner_loop
  inner_loop-found s signatures [] e m = cc
  inner_loop-found s signatures (k ∷ pubkeys) e m = elim (Bool-cases (verifies s k)) [
    | inl hit ↦ take hit (rw hit at m)
    | inr miss ↦ skip (inner_loop-found s signatures pubkeys (rw miss at e) (rw miss at m))
  ]

  count-le :
      (signatures pubkeys : List ℕ) → count_verified verifies signatures pubkeys ≤ length signatures
  unfolding count_verified
  count-le [] pubkeys = omega arith
  count-le (s ∷ signatures) pubkeys =
      ground (arith, count-le signatures (inner_loop verifies s pubkeys).1)

  count-Matched :
      (signatures pubkeys : List ℕ)
      → Matched signatures pubkeys
      → count_verified verifies signatures pubkeys ≡ length signatures
  unfolding count_verified
  count-Matched [] pubkeys m = refl
  count-Matched (s ∷ signatures) pubkeys m =
      let (found, rest) = inner_loop-Matched m in
      rw found (omega (arith, count-Matched signatures (inner_loop verifies s pubkeys).1 rest))

  Matched-count :
      (signatures pubkeys : List ℕ)
      → count_verified verifies signatures pubkeys ≡ length signatures
      → Matched signatures pubkeys
  unfolding count_verified
  Matched-count [] pubkeys h = done pubkeys
  Matched-count (s ∷ signatures) pubkeys h =
      let rest = (inner_loop verifies s pubkeys).1 in
      inner_loop-found s signatures pubkeys (ground (arith, count-le signatures rest))
        (Matched-count signatures rest (ground (arith, count-le signatures rest)))

  -- Every signature is counted exactly if the signatures can be assigned to keys in order: the
  -- loops, which never go back, miss no assignment.
  pub count_verified-Matched :
      (signatures pubkeys : List ℕ)
      → (count_verified verifies signatures pubkeys ≡ length signatures)
        ↔ Matched signatures pubkeys
  count_verified-Matched signatures pubkeys =
      (Matched-count signatures pubkeys, count-Matched signatures pubkeys)
