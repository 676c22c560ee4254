-- ===== src/Headers/Merkle.antt =====
-- src/headers.rs: what a root that matches says of the transaction that was proved.
use bewallet.Common.{
  ℕ, ◌/◌, ◌%◌, ◌≡◌, ◌≢◌, refl, sym, ◌∙◌, ◌⊎◌, inl, inr, Bool, true, false, List, [], ◌∷◌, ◌++◌,
  length, All, reverse, if◌then◌else◌, nat_beq, arith, Bool-cases, bytes_beq, bytes_beq_iff,
}
use bewallet.Outcome.{ok}
use bewallet.Store.{BlockHeader}
use bewallet.Headers.{Crypto, Verifier, compute_merkle_root, merkle_loop, verify_tx_proof}

pub append-injective :
    (xs ys : List ℕ) {us vs : List ℕ}
    → length xs ≡ length ys
    → xs ++ us ≡ ys ++ vs
    → (xs ≡ ys) × (us ≡ vs)
append-injective [] [] h e = (refl, e)
append-injective [] (y ∷ ys) h e = absurd (omega (arith, h))
append-injective (x ∷ xs) [] h e = absurd (omega (arith, h))
append-injective (x ∷ xs) (y ∷ ys) {us} {vs} h e =
    let n : length xs ≡ length ys = omega (arith, h) in
    let first : x ≡ y = cc in
    let rest : xs ++ us ≡ ys ++ vs = cc in let (a, b) = append-injective xs ys n rest in (cc, b)

-- Two inputs that the hash does not tell apart.
pub record Collision (f : List ℕ → List ℕ) : Type 0 where
  pub one : List ℕ
  pub two : List ℕ
  pub differ : one ≢ two
  pub same : f one ≡ f two

module _ (c : Crypto) (size : ℕ) (sized : (x : List ℕ) → length (c.sha256d x) ≡ size) where
  abbrev Sized : List (List ℕ) → Type 0
  Sized = All (λ h. length (reverse h) ≡ size)

  hash_equal : (a b : List ℕ) → c.sha256d a ≡ c.sha256d b → (a ≡ b) ⊎ Collision c.sha256d
  hash_equal a b e = elim (Bool-cases (bytes_beq a b)) [
    | inl y ↦ inl ((bytes_beq_iff a b).0 y)
    | inr n ↦ inr (record {
      one = a;
      two = b;
      differ = λ same. absurd (ground (arith, bytes_beq_iff a b));
      same = e;
    })
  ]

  pair_equal :
      (even : Bool) (x y g h : List ℕ)
      → length x ≡ length y
      → length g ≡ length h
      → (if even then x ++ g else g ++ x) ≡ (if even then y ++ h else h ++ y)
      → x ≡ y
  pair_equal true x y g h n m e = (append-injective x y n e).0
  pair_equal false x y g h n m e = (append-injective g h m e).1

  merkle_loop-equal :
      (pos : ℕ) (gs hs : List (List ℕ)) (x y : List ℕ)
      → length gs ≡ length hs
      → Sized gs
      → Sized hs
      → length x ≡ size
      → length y ≡ size
      → merkle_loop c gs pos x ≡ merkle_loop c hs pos y
      → (x ≡ y) ⊎ Collision c.sha256d
  unfolding merkle_loop
  merkle_loop-equal pos [] [] x y n a b sx sy e = inl e
  merkle_loop-equal pos [] (h ∷ hs) x y n a b sx sy e = absurd (omega (arith, n))
  merkle_loop-equal pos (g ∷ gs) [] x y n a b sx sy e = absurd (omega (arith, n))
  merkle_loop-equal pos (g ∷ gs) (h ∷ hs) x y n a b sx sy e =
      let even = nat_beq (pos % 2) 0 in
      let xs = if even then x ++ reverse g else reverse g ++ x in
      let ys = if even then y ++ reverse h else reverse h ++ y in
      elim (merkle_loop-equal (pos / 2) gs hs (c.sha256d xs) (c.sha256d ys) (omega (arith, n)) a.1
        b.1 (sized xs) (sized ys) e) [
          | inr k ↦ inr k
          | inl same ↦ elim (hash_equal xs ys same) [
            | inr k ↦ inr k
            | inl pairs ↦
                inl
                  (pair_equal even x y (reverse g) (reverse h) (sx ∙ sym sy) (a.0 ∙ sym b.0) pairs)
          ]
        ]

  -- Two transaction ids of the size of a hash that are proved against the same header, at the same
  -- position and by paths of the same length whose hashes have that size, are the same id, or they
  -- exhibit a collision of the hash.
  pub verify_tx_proof_unique :
      (v : Verifier) (header : BlockHeader) (pos : ℕ) (gs hs : List (List ℕ)) (x y : List ℕ)
      → length gs ≡ length hs
      → All (λ h. length (reverse h) ≡ size) gs
      → All (λ h. length (reverse h) ≡ size) hs
      → length x ≡ size
      → length y ≡ size
      → verify_tx_proof c v x gs pos header ≡ ok tt
      → verify_tx_proof c v y hs pos header ≡ ok tt
      → (x ≡ y) ⊎ Collision c.sha256d
  unfolding verify_tx_proof compute_merkle_root
  verify_tx_proof_unique v header pos gs hs x y n a b sx sy p q =
      merkle_loop-equal pos gs hs x y n a b sx sy (sym (root gs x p) ∙ root hs y q)
    where
      root :
          (ms : List (List ℕ)) (z : List ℕ)
          → verify_tx_proof c v z ms pos header ≡ ok tt
          → header.merkle_root ≡ merkle_loop c ms pos z
      root ms z h = elim (Bool-cases (bytes_beq header.merkle_root (merkle_loop c ms pos z))) [
        | inl same ↦ (bytes_beq_iff header.merkle_root (merkle_loop c ms pos z)).0 same
        | inr differ ↦ absurd (ground (arith, h, differ))
      ]
