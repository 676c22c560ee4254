-- ===== src/Transaction/Balances/Exact.antt =====
-- src/transaction.rs: what `my_balance_changes` computes.
use bewallet.Common.{
  ℕ, zero, suc, ◌+◌, ◌<◌, ◌≡◌, refl, ◌^◌, false, not, Option, none, some, List, [], ◌∷◌, filter,
  length, nat_eq, arith, nat_beq, nat_beq_iff, if◌then◌else◌, ◌∙◌,
}
use bewallet.Outcome.{ok, ◌>>=◌}
use bewallet.Word.{Build}
use bewallet.Int.{
  ℤ, pos, negsuc, pos_part, neg_part, sub_ℕ, as_i64_fits, in_i64_fits, add_i64, sub_i64,
}
use bewallet.Map.{get, insert, Distinct}
use bewallet.Map.Laws.{get-insert, insert-Distinct}
use bewallet.Amounts.{total}
use bewallet.Elements.{Env, TxIn, Transaction, TxOutSecrets, Txid, AssetId, outpoint_eq}
use bewallet.Transaction.{Unblinded}
use bewallet.Transaction.Balances.{
  Balances, balance_of, change_balance, spend_loop, receive_loop, is_zero, my_balance_changes,
}

-- The assets and the values of what the wallet can unblind.
unfoldable pub secrets : List (Option TxOutSecrets) → List (ℕ × ℕ)
secrets [] = []
secrets (none ∷ os) = secrets os
secrets (some u ∷ os) = (u.asset, u.value) ∷ secrets os

unfoldable pub spent_secrets : Unblinded → List TxIn → List (Option TxOutSecrets)
spent_secrets unblinded [] = []
spent_secrets unblinded (i ∷ inputs) =
    get i.previous_output unblinded ∷ spent_secrets unblinded inputs

unfoldable pub received_secrets : Unblinded → Txid → ℕ → ℕ → List (Option TxOutSecrets)
received_secrets unblinded id zero i = []
received_secrets unblinded id (suc n) i =
    get (record { txid = id; vout = i }) unblinded ∷ received_secrets unblinded id n (i + 1)

-- `m` holds of each asset `plus` less `minus`.
record Net (plus minus : ℕ → ℕ) (m : Balances) : Type 0 where
  distinct : Distinct m
  net : (a : ℕ) → balance_of a m ≡ sub_ℕ (plus a) (minus a)

add_i64_net :
    (b : Build) (p n v : ℕ)
    → p + v < 2 ^ 63
    → n < 2 ^ 63
    → add_i64 b (sub_ℕ p n) (pos v) ≡ ok (sub_ℕ (p + v) n)
unfolding add_i64
add_i64_net b p n v h k =
    in_i64_fits b (pos_part (sub_ℕ p n) + v) (neg_part (sub_ℕ p n) + 0) (ground arith)
      (ground arith) (ground arith)
    ∙ ground arith

sub_i64_net :
    (b : Build) (p n v : ℕ)
    → p < 2 ^ 63
    → n + v < 2 ^ 63
    → sub_i64 b (sub_ℕ p n) (pos v) ≡ ok (sub_ℕ p (n + v))
unfolding sub_i64
sub_i64_net b p n v h k =
    in_i64_fits b (pos_part (sub_ℕ p n) + 0) (neg_part (sub_ℕ p n) + v) (ground arith)
      (ground arith) (ground arith)
    ∙ ground arith

insert-Net :
    (plus minus plus' minus' : ℕ → ℕ) (m : Balances) (x : ℕ)
    → Net plus minus m
    → ((a : ℕ) → nat_beq x a ≡ false → (plus a ≡ plus' a) × (minus a ≡ minus' a))
    → Net plus' minus' (insert x (sub_ℕ (plus' x) (minus' x)) m)
unfolding balance_of
insert-Net plus minus plus' minus' m x n others = record {
  distinct = insert-Distinct x (sub_ℕ (plus' x) (minus' x)) m n.distinct;
  net = λ a.
      ground
        (arith, get-insert x a (sub_ℕ (plus' x) (minus' x)) m, n.net a, others a, nat_beq_iff x a);
}

module _ (b : Build) (unblinded : Unblinded) where
  spend-Net :
      (u : TxOutSecrets) (plus minus : ℕ → ℕ) (m : Balances)
      → Net plus minus m
      → plus u.asset < 2 ^ 63
      → minus u.asset + u.value < 2 ^ 63
      → (m' : Balances) × (change_balance (sub_i64 b) (some u) m ≡ ok m')
        × Net plus (λ a. minus a + total a ((u.asset, u.value) ∷ [])) m'
  unfolding change_balance total
  spend-Net u plus minus m n h k =
      let minus' : ℕ → ℕ = λ a. minus a + total a ((u.asset, u.value) ∷ []) in
      let here : total u.asset ((u.asset, u.value) ∷ []) ≡ u.value =
        ground (arith, nat_beq_iff u.asset u.asset) in
      (
        insert u.asset (sub_ℕ (plus u.asset) (minus' u.asset)) m,
        rw
            (
              n.net u.asset,
              as_i64_fits u.value (omega arith),
              sub_i64_net b (plus u.asset) (minus u.asset) u.value h k,
              here,
            )
            refl,
        insert-Net plus minus plus minus' m u.asset n (λ a d. (refl, ground (arith, d))),
      )

  receive-Net :
      (u : TxOutSecrets) (plus minus : ℕ → ℕ) (m : Balances)
      → Net plus minus m
      → minus u.asset < 2 ^ 63
      → plus u.asset + u.value < 2 ^ 63
      → (m' : Balances) × (change_balance (add_i64 b) (some u) m ≡ ok m')
        × Net (λ a. plus a + total a ((u.asset, u.value) ∷ [])) minus m'
  unfolding change_balance total
  receive-Net u plus minus m n h k =
      let plus' : ℕ → ℕ = λ a. plus a + total a ((u.asset, u.value) ∷ []) in
      let here : total u.asset ((u.asset, u.value) ∷ []) ≡ u.value =
        ground (arith, nat_beq_iff u.asset u.asset) in
      (
        insert u.asset (sub_ℕ (plus' u.asset) (minus u.asset)) m,
        rw
            (
              n.net u.asset,
              as_i64_fits u.value (omega arith),
              add_i64_net b (plus u.asset) (minus u.asset) u.value k h,
              here,
            )
            refl,
        insert-Net plus minus plus' minus m u.asset n (λ a d. (ground (arith, d), refl)),
      )

  widen :
      (plus minus : ℕ → ℕ) {plus' minus' : ℕ → ℕ} (m : Balances)
      → Net plus minus m
      → ((a : ℕ) → (plus a ≡ plus' a) × (minus a ≡ minus' a))
      → Net plus' minus' m
  widen plus minus m n same = record {
    distinct = n.distinct;
    net = λ a. rw (← (same a).0, ← (same a).1) (n.net a);
  }

  spend_loop-Net :
      (inputs : List TxIn) (plus minus : ℕ → ℕ) (m : Balances)
      → Net plus minus m
      → ((a : ℕ) → plus a < 2 ^ 63)
      → ((a : ℕ) → minus a + total a (secrets (spent_secrets unblinded inputs)) < 2 ^ 63)
      → (m' : Balances) × (spend_loop b unblinded inputs m ≡ ok m')
        × Net plus (λ a. minus a + total a (secrets (spent_secrets unblinded inputs))) m'
  unfolding spend_loop spent_secrets secrets total
  spend_loop-Net [] plus minus m n h k = (m, refl, widen plus minus m n (λ a. (refl, omega arith)))
  spend_loop-Net (i ∷ inputs) plus minus m n h k =
      go (get i.previous_output unblinded) k (spend_loop-Net inputs plus)
    where
      go :
          (o : Option TxOutSecrets)
          → ((a : ℕ) → minus a + total a (secrets (o ∷ spent_secrets unblinded inputs)) < 2 ^ 63)
          → ((minus : ℕ → ℕ) (m : Balances)
              → Net plus minus m
              → ((a : ℕ) → plus a < 2 ^ 63)
              → ((a : ℕ) → minus a + total a (secrets (spent_secrets unblinded inputs)) < 2 ^ 63)
              → (m' : Balances) × (spend_loop b unblinded inputs m ≡ ok m')
                × Net plus (λ a. minus a + total a (secrets (spent_secrets unblinded inputs))) m')
          → (m' : Balances) × ((change_balance (sub_i64 b) o m >>= λ r.
                spend_loop b unblinded inputs r)
              ≡ ok m')
            × Net plus (λ a. minus a + total a (secrets (o ∷ spent_secrets unblinded inputs))) m'
      go none fits ih = ih minus m n h fits
      go (some u) fits ih =
          let (m', run, n') =
            spend-Net u plus minus m n (h u.asset)
              (ground (arith, fits u.asset, nat_beq_iff u.asset u.asset)) in
          let (m'', run', n'') =
            ih (λ a. minus a + total a ((u.asset, u.value) ∷ [])) m' n' h
              (λ a. ground (arith, fits a)) in
          (m'', rw run run', widen plus _ m'' n'' (λ a. (refl, ground arith)))

  receive_loop-Net :
      (id : Txid) (k i : ℕ) (plus minus : ℕ → ℕ) (m : Balances)
      → Net plus minus m
      → ((a : ℕ) → minus a < 2 ^ 63)
      → ((a : ℕ) → plus a + total a (secrets (received_secrets unblinded id k i)) < 2 ^ 63)
      → (m' : Balances) × (receive_loop b unblinded id k i m ≡ ok m')
        × Net (λ a. plus a + total a (secrets (received_secrets unblinded id k i))) minus m'
  unfolding receive_loop received_secrets secrets total
  receive_loop-Net id zero i plus minus m n h k =
      (m, refl, widen plus minus m n (λ a. (omega arith, refl)))
  receive_loop-Net id (suc k) i plus minus m n h fit =
      go (get (record { txid = id; vout = i }) unblinded) fit
        (λ p. receive_loop-Net id k (i + 1) p minus)
    where
      rest : List (Option TxOutSecrets)
      rest = received_secrets unblinded id k (i + 1)

      go :
          (o : Option TxOutSecrets)
          → ((a : ℕ) → plus a + total a (secrets (o ∷ rest)) < 2 ^ 63)
          → ((plus : ℕ → ℕ) (m : Balances)
              → Net plus minus m
              → ((a : ℕ) → minus a < 2 ^ 63)
              → ((a : ℕ) → plus a + total a (secrets rest) < 2 ^ 63)
              → (m' : Balances) × (receive_loop b unblinded id k (i + 1) m ≡ ok m')
                × Net (λ a. plus a + total a (secrets rest)) minus m')
          → (m' : Balances) × ((change_balance (add_i64 b) o m >>= λ r.
                receive_loop b unblinded id k (i + 1) r)
              ≡ ok m')
            × Net (λ a. plus a + total a (secrets (o ∷ rest))) minus m'
      go none fits ih = ih plus m n h fits
      go (some u) fits ih =
          let (m', run, n') =
            receive-Net u plus minus m n (h u.asset)
              (ground (arith, fits u.asset, nat_beq_iff u.asset u.asset)) in
          let (m'', run', n'') =
            ih (λ a. plus a + total a ((u.asset, u.value) ∷ [])) m' n' h
              (λ a. ground (arith, fits a)) in
          (m'', rw run run', widen _ minus m'' n'' (λ a. (ground arith, refl)))

get-nonzero :
    (a : ℕ) (m : Balances)
    → Distinct m
    → get a (filter (λ (e : AssetId × ℤ). not (is_zero e.1)) m)
      ≡ (if is_zero (balance_of a m) then none else some (balance_of a m))
unfolding get balance_of is_zero
get-nonzero a [] d = refl
get-nonzero a ((x, pos zero) ∷ m) d = ground (arith, get-nonzero a m d.1, nat_beq_iff x a)
get-nonzero a ((x, pos (suc n)) ∷ m) d = ground (arith, get-nonzero a m d.1)
get-nonzero a ((x, negsuc n) ∷ m) d = ground (arith, get-nonzero a m d.1)

is_zero-sub_ℕ : (p q : ℕ) → is_zero (sub_ℕ p q) ≡ nat_beq p q
unfolding is_zero
is_zero-sub_ℕ p q = ground (arith)

nonzero :
    (p q : ℕ) {z : ℤ} {o : Option ℤ}
    → z ≡ sub_ℕ p q
    → o ≡ (if is_zero z then none else some z)
    → o ≡ (if nat_beq p q then none else some (sub_ℕ p q))
nonzero p q e h = rw (e, is_zero-sub_ℕ p q) at h

-- What the transaction takes of an asset from the wallet, and what it brings.
abbrev pub spent_total : Unblinded → Transaction → AssetId → ℕ
spent_total unblinded tx a = total a (secrets (spent_secrets unblinded tx.input))

abbrev pub received_total : Env → Unblinded → Transaction → AssetId → ℕ
received_total env unblinded tx a =
    total a (secrets (received_secrets unblinded (env.txid tx) (length tx.output) 0))

-- Where what the wallet spends and receives of each asset is less than 2 ^ 63, in both builds the
-- balance changes have an entry for an asset exactly if the two differ, and the entry is what is
-- received less what is spent.
pub my_balance_changes-exact :
    (env : Env) (tx : Transaction) (unblinded : Unblinded)
    → ((a : ℕ) → spent_total unblinded tx a < 2 ^ 63)
    → ((a : ℕ) → received_total env unblinded tx a < 2 ^ 63)
    → (r : Balances) × (my_balance_changes env tx unblinded ≡ ok r)
      × ((a : ℕ)
          → get a r ≡ (
              if nat_beq (received_total env unblinded tx a) (spent_total unblinded tx a)
              then none
              else some (sub_ℕ (received_total env unblinded tx a) (spent_total unblinded tx a))))
unfolding my_balance_changes get balance_of
my_balance_changes-exact env tx unblinded spent_fits received_fits =
    let start : Net (λ _. 0) (λ _. 0) [] = record { distinct = tt; net = λ a. refl } in
    let (m, run, n) =
      spend_loop-Net env.build unblinded tx.input (λ _. 0) (λ _. 0) [] start (λ a. omega arith)
        (λ a. omega (arith, spent_fits a)) in
    let (m', run', n') =
      receive_loop-Net env.build unblinded (env.txid tx) (length tx.output) 0 (λ _. 0) _ m n
        (λ a. omega (arith, spent_fits a)) (λ a. omega (arith, received_fits a)) in
    let n'' =
      widen env.build unblinded _ _ {plus' = received_total env unblinded tx}
        {minus' = spent_total unblinded tx} m' n' (λ a. (omega arith, omega arith)) in
    (
      filter (λ (e : AssetId × ℤ). not (is_zero e.1)) m',
      rw (run, run') refl,
      λ a.
          nonzero (received_total env unblinded tx a) (spent_total unblinded tx a) (n''.net a)
            (get-nonzero a m' n''.distinct),
    )
