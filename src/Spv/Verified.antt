-- ===== src/Spv/Verified.antt =====
-- src/lib.rs: what a transaction that is marked as verified has been checked for.
use bewallet.Common.{
  ℕ, ◌≡◌, ◌⊎◌, refl, sym, ap, subst, ◌∙◌, Bool, true, false, Option, none, some, List, [], ◌∷◌,
  if◌then◌else◌, nat_eq, nat_beq, nat_beq_iff, arith, Bool-cases, Option-cases, inl, inr, is_some,
  In,
}
use bewallet.Outcome.{Outcome, ok, err, panic, hang, >>=-eq-ok}
use bewallet.Map.{Map, get, insert, extend, IterationOf, Distinct}
use bewallet.Map.Laws.{get-insert, insert-Distinct, get-In}
use bewallet.Elements.{Txid}
use bewallet.Model.{SpvVerifyResult, verified, not_verified}
use bewallet.Store.{StoreMeta, BlockHeader}
use bewallet.Headers.{Crypto, Verifier, verify_tx_proof}
use bewallet.Sync.Client.{Client, GetMerkleRes}
use bewallet.Spv.{is_ok, needs_proof, is_verified, prove_loop, get_proofs}

is_ok-true : (m : Outcome (Unit {0})) → is_ok m ≡ ok true → m ≡ ok tt
unfolding is_ok
is_ok-true (ok tt) h = refl
is_ok-true (err e) h = absurd cc
is_ok-true panic h = absurd cc
is_ok-true hang h = absurd cc

get-extend :
    {V : Type 0} (k : ℕ) (m es : Map ℕ V)
    → Distinct es
    → get k (extend m es) ≡ (elim (get k es) [ none ↦ get k m | some v ↦ some v ])
unfolding get extend
get-extend k m [] d = refl
get-extend k m ((j, v) ∷ es) d =
    ground (arith, get-extend k (insert j v m) es d.1, get-insert j k v m, nat_beq_iff j k, d.0)

needs_proof-In :
    (verif : Map Txid SpvVerifyResult) (hs : List (Txid × Option ℕ)) (id : Txid) (h : ℕ)
    → In (id, h) (needs_proof verif hs)
    → In (id, some h) hs × (get id verif ≡ none)
unfolding needs_proof
needs_proof-In verif [] id h k = absurd k
needs_proof-In verif ((j, none) ∷ hs) id h k =
    let (l, n) = needs_proof-In verif hs id h k in (inr l, n)
needs_proof-In verif ((j, some g) ∷ hs) id h k =
    by_result (get j verif) refl k (needs_proof-In verif hs id h)
  where
    by_result :
        (o : Option SpvVerifyResult)
        → get j verif ≡ o
        → In
            (id, h)
            (elim o [ none ↦ (j, g) ∷ needs_proof verif hs | some _ ↦ needs_proof verif hs ])
        → (In (id, h) (needs_proof verif hs) → In (id, some h) hs × (get id verif ≡ none))
        → In (id, some h) ((j, some g) ∷ hs) × (get id verif ≡ none)
    by_result (some r) e k ih = let (l, n) = ih k in (inr l, n)
    by_result none e (inr k) ih = let (l, n) = ih k in (inr l, n)
    by_result none e (inl same) ih =
        let j_id : j ≡ id = cc in let g_h : g ≡ h = cc in (inl cc, rw (← j_id) e)

module _ (c : Crypto) (v : Verifier) (txid_bytes : Txid → List ℕ) (client : Client)
    (s : StoreMeta) where
  -- A proof from the server that holds against the stored header of the transaction's height.
  pub record Checked (id : Txid) (height : ℕ) : Type 0 where
    pub header : BlockHeader
    pub proof : GetMerkleRes
    pub stored : get height s.cache.headers ≡ some header
    pub served : client.transaction_get_merkle id height ≡ ok proof
    pub holds : verify_tx_proof c v (txid_bytes id) proof.merkle proof.pos header ≡ ok tt

  is_verified-Checked :
      (id : Txid) (height : ℕ) (proof : GetMerkleRes)
      → client.transaction_get_merkle id height ≡ ok proof
      → is_verified c v txid_bytes client s id height proof ≡ ok true
      → Checked id height
  unfolding is_verified
  is_verified-Checked id height proof served h = elim (Option-cases (get height s.cache.headers)) [
    | inl missing ↦ absurd (no (rw (is_verified, missing) at h))
    | inr (header, found) ↦ record {
      header = header;
      proof = proof;
      stored = found;
      served = served;
      holds = is_ok-true _ (rw (is_verified, found) at h);
    }
  ]
    where
      no : ok false ≡ ok true → ⊥
      no e = cc

  -- What the loop adds to the results.
  record Proved (ns : List (Txid × ℕ)) (m m' : Map Txid SpvVerifyResult) : Type 0 where
    distinct : Distinct m'
    new_verified :
        (id : Txid)
        → get id m' ≡ some verified
        → (get id m ≡ some verified) ⊎ ((h : ℕ) × In (id, h) ns × Checked id h)
    old_or_listed :
        (id : Txid)
        → is_some (get id m') ≡ true
        → (is_some (get id m) ≡ true) ⊎ ((h : ℕ) × In (id, h) ns)

  prove_loop-Proved :
      (ns : List (Txid × ℕ)) (m : Map Txid SpvVerifyResult) {m' : Map Txid SpvVerifyResult}
      → Distinct m
      → prove_loop c v txid_bytes client s ns m ≡ ok m'
      → Proved ns m m'
  unfolding prove_loop
  prove_loop-Proved [] m d h =
      subst (Proved [] m) (same h)
        (record { distinct = d; new_verified = λ id e. inl e; old_or_listed = λ id e. inl e })
    where
      same : {a b : Map Txid SpvVerifyResult} → ok a ≡ ok b → a ≡ b
      same e = cc
  prove_loop-Proved ((j, height) ∷ ns) m {m'} d h =
      let (proof, served, h₁) = >>=-eq-ok (client.transaction_get_merkle j height) _ h in
      let (is, checked, h₂) = >>=-eq-ok (is_verified c v txid_bytes client s j height proof) _ h₁ in
      let r : SpvVerifyResult = if is then verified else not_verified in
      let p = prove_loop-Proved ns (insert j r m) (insert-Distinct j r m d) h₂ in
      record {
        distinct = p.distinct;
        new_verified = λ id e. elim (p.new_verified id e) [
          | inr (k, l, good) ↦ inr (k, inr l, good)
          | inl before ↦ newly proof is served checked id before
        ];
        old_or_listed = λ id e. elim (p.old_or_listed id e) [
          | inr (k, l) ↦ inr (k, inr l)
          | inl before ↦ listed r id before
        ];
      }
    where
      newly :
          (proof : GetMerkleRes) (is : Bool)
          → client.transaction_get_merkle j height ≡ ok proof
          → is_verified c v txid_bytes client s j height proof ≡ ok is
          → (id : Txid)
          → get id (insert j (if is then verified else not_verified) m) ≡ some verified
          → (get id m ≡ some verified) ⊎ ((h : ℕ) × In (id, h) ((j, height) ∷ ns) × Checked id h)
      newly proof is served checked id e = elim (Bool-cases (nat_beq j id)) [
        | inl same ↦
            let j_id : j ≡ id = (nat_beq_iff j id).0 same in
            let marked : get id (insert j (if is then verified else not_verified) m)
                ≡ some (if is then verified else not_verified) =
              ground (arith, same, get-insert j id (if is then verified else not_verified) m) in
            let yes : is ≡ true = only_true is (sym marked ∙ e) in
            inr (
              height,
              inl (ap (λ k. (k, height)) j_id),
              subst (λ k. Checked k height) j_id
                  (is_verified-Checked j height proof served (checked ∙ ap ok yes)),
            )
        | inr differ ↦
            inl
              (ground (arith, e, differ, get-insert j id (if is then verified else not_verified) m))
      ]
        where
          only_true :
              (q : Bool)
              → ◌≡◌ {A = Option SpvVerifyResult}
                  (some (if q then verified else not_verified))
                  (some verified)
              → q ≡ true
          only_true true e = refl
          only_true false e = absurd cc

      listed :
          (r : SpvVerifyResult) (id : Txid)
          → is_some (get id (insert j r m)) ≡ true
          → (is_some (get id m) ≡ true) ⊎ ((h : ℕ) × In (id, h) ((j, height) ∷ ns))
      listed r id e = elim (Bool-cases (nat_beq j id)) [
        | inl same ↦ inr (height, inl (ap (λ k. (k, height)) ((nat_beq_iff j id).0 same)))
        | inr differ ↦ inl (ground (arith, e, differ, get-insert j id r m))
      ]

  -- Where `get_proofs` succeeds it keeps every result that was there; and a transaction that is now
  -- marked as verified and was not before is confirmed at a height whose header is stored, and the
  -- server has a proof of it that holds against that header.
  pub get_proofs-Checked :
      (heights : IterationOf Txid (Option ℕ)) {s' : StoreMeta} {n : ℕ}
      → Distinct s.cache.heights
      → get_proofs c v txid_bytes client s heights ≡ ok (s', n)
      → (id : Txid)
      → ((r : SpvVerifyResult)
          → get id s.cache.txs_verif ≡ some r
          → get id s'.cache.txs_verif ≡ some r)
        × (get id s'.cache.txs_verif ≡ some verified
            → (get id s.cache.txs_verif ≡ some verified)
              ⊎ ((h : ℕ) × (get id s.cache.heights ≡ some (some h)) × Checked id h))
  unfolding get_proofs get
  get_proofs-Checked heights {s'} d h id =
      let hs = heights.order s.cache.heights in
      let ns = needs_proof s.cache.txs_verif hs in
      let (m, run, done) = >>=-eq-ok (prove_loop c v txid_bytes client s ns []) _ h in
      let p = prove_loop-Proved ns [] tt run in
      let saved : get id s'.cache.txs_verif
          ≡ (elim (get id m) [ none ↦ get id s.cache.txs_verif | some r ↦ some r ]) =
        ap (λ (r : StoreMeta × ℕ). get id r.0.cache.txs_verif) (sym (same done))
        ∙ get-extend id s.cache.txs_verif m p.distinct in
      elim (Option-cases (get id m)) [
        | inl absent ↦
            let kept : get id s'.cache.txs_verif ≡ get id s.cache.txs_verif = rw absent at saved in
            (λ r e. kept ∙ e, λ e. inl (sym kept ∙ e))
        | inr (r, here) ↦
            let now : get id s'.cache.txs_verif ≡ some r = rw here at saved in
            (
              λ r' e. absurd (
                  fresh ns m p r here r' e (λ g l. (needs_proof-In s.cache.txs_verif hs id g l).1)),
              λ e. elim (p.new_verified id (here ∙ sym now ∙ e)) [
                | inl before ↦ absurd (nowhere before)
                | inr (g, l, good) ↦ inr (
                  g,
                  sym (heights.order_get s.cache.heights id d)
                      ∙ get-In id (some g) hs (heights.order_distinct s.cache.heights d)
                          (needs_proof-In s.cache.txs_verif hs id g l).0,
                  good,
                )
              ],
            )
      ]
    where
      nowhere : ◌≡◌ {A = Option SpvVerifyResult} (get id []) (some verified) → ⊥
      nowhere e = cc

      empty : is_some (get {V = SpvVerifyResult} id []) ≡ true → ⊥
      empty e = cc

      fresh :
          (ns : List (Txid × ℕ)) (m : Map Txid SpvVerifyResult)
          → Proved ns [] m
          → (r : SpvVerifyResult) → get id m ≡ some r
          → (r' : SpvVerifyResult) → get id s.cache.txs_verif ≡ some r'
          → ((g : ℕ) → In (id, g) ns → get id s.cache.txs_verif ≡ none)
          → ⊥
      fresh ns m p r here r' e without = elim (p.old_or_listed id (ap is_some here)) [
        | inl k ↦ empty k
        | inr (g, l) ↦ let gone = without g l in absurd cc
      ]

      same : {a b : StoreMeta × ℕ} → ok a ≡ ok b → a ≡ b
      same e = cc
