-- ===== src/Wallet/Funding/Ending.antt =====
-- src/interface.rs: the rounds of the loop that adds inputs.
use bewallet.Common.{
  ℕ, zero, suc, ◌+◌, ◌≤◌, ◌<◌, ◌≡◌, ◌≢◌, refl, inl, inr, false, Option, none, some, List, [], ◌∷◌,
  arith, In, length, is_empty, get_last?, if◌then◌else◌,
}
use bewallet.Outcome.{Outcome, ok, err, panic, hang, ◌>>=◌, unwrap}
use bewallet.Map.{contains, set_insert}
use bewallet.Map.Laws.{contains-set_insert}
use bewallet.Elements.{OutPoint, Transaction, outpoint_eq, outpoint_beq_iff, AssetId}
use bewallet.Transaction.{add_input}
use bewallet.Model.{UnblindedTxo}
use bewallet.Wallet.Funding.{outpoint, asset_utxos, biggest, fund}
use bewallet.Wallet.Funding.Run.{biggest-IsBiggest}

-- How many of the outputs are not used yet.
unused : List OutPoint → List UnblindedTxo → ℕ
unused used [] = 0
unused used (u ∷ utxos) = (if contains (outpoint u) used then 0 else 1) + unused used utxos

unused-insert-le :
    (p : OutPoint) (used : List OutPoint) (utxos : List UnblindedTxo)
    → unused (set_insert p used) utxos ≤ unused used utxos
unfolding unused
unused-insert-le p used [] = omega arith
unused-insert-le p used (u ∷ utxos) =
    ground (arith, contains-set_insert p (outpoint u) used, unused-insert-le p used utxos)

unused-insert-lt :
    (u : UnblindedTxo) (used : List OutPoint) (utxos : List UnblindedTxo)
    → In u utxos
    → contains (outpoint u) used ≡ false
    → unused (set_insert (outpoint u) used) utxos < unused used utxos
unfolding unused
unused-insert-lt u used [] k h = elim k [ ]
unused-insert-lt u used (w ∷ utxos) (inl e) h = rw e (
    ground (
      arith,
      contains-set_insert (outpoint u) (outpoint u) used,
      (outpoint_beq_iff (outpoint u) (outpoint u)).1 refl,
      unused-insert-le (outpoint u) used utxos,
    ))
unused-insert-lt u used (w ∷ utxos) (inr k) h =
    ground
      (arith, contains-set_insert (outpoint u) (outpoint w) used, unused-insert-lt u used utxos k h)

unused-le-length :
    (used : List OutPoint) (utxos : List UnblindedTxo) → unused used utxos ≤ length utxos
unfolding unused
unused-le-length used [] = omega arith
unused-le-length used (u ∷ utxos) = ground (arith, unused-le-length used utxos)

biggest-ends : (xs : List UnblindedTxo) → biggest xs ≢ hang
unfolding biggest
biggest-ends xs h = ground arith

module _ (needs : ℕ → Transaction → Outcome (List (AssetId × ℕ))) (utxos : List UnblindedTxo)
    (needs_ends : (round : ℕ) (tx : Transaction) → needs round tx ≢ hang) where
  fund-unused-ne-hang :
      (rounds : ℕ) (tx : Transaction) (used : List OutPoint)
      → unused used utxos < rounds
      → fund needs utxos rounds tx used ≢ hang
  unfolding fund
  fund-unused-ne-hang zero tx used h = elim h [ ]
  fund-unused-ne-hang (suc rounds) tx used h = go (needs rounds tx) refl (λ u b.
      fund-unused-ne-hang rounds (add_input tx (outpoint u)) (set_insert (outpoint u) used)
        (fewer u b))
    where
      fewer :
          (u : UnblindedTxo)
          → In u utxos × (contains (outpoint u) used ≡ false)
          → unused (set_insert (outpoint u) used) utxos < rounds
      fewer u b = omega (arith, unused-insert-lt u used utxos b.0 b.1)

      after : UnblindedTxo → Outcome Transaction
      after u = fund needs utxos rounds (add_input tx (outpoint u)) (set_insert (outpoint u) used)

      chosen :
          (asset : AssetId) (m : Outcome UnblindedTxo)
          → biggest (asset_utxos asset used utxos) ≡ m
          → ((u : UnblindedTxo)
              → In u utxos × (contains (outpoint u) used ≡ false)
              → after u ≢ hang)
          → (m >>= after) ≢ hang
      chosen asset (ok u) e ih =
          let b = biggest-IsBiggest utxos used asset u e in ih u (b.listed, b.fresh)
      chosen asset (err c) e ih = λ q. cc
      chosen asset panic e ih = λ q. cc
      chosen asset hang e ih = absurd (biggest-ends _ e)

      named :
          (o : Option (AssetId × ℕ))
          → ((u : UnblindedTxo)
              → In u utxos × (contains (outpoint u) used ≡ false)
              → after u ≢ hang)
          → (unwrap o >>= λ x. biggest (asset_utxos x.0 used utxos) >>= after) ≢ hang
      named none ih = λ q. cc
      named (some x) ih = chosen x.0 (biggest (asset_utxos x.0 used utxos)) refl ih

      go :
          (m : Outcome (List (AssetId × ℕ)))
          → needs rounds tx ≡ m
          → ((u : UnblindedTxo)
              → In u utxos × (contains (outpoint u) used ≡ false)
              → after u ≢ hang)
          → (m >>= λ missing.
              if is_empty missing
              then ok tx
              else (unwrap (get_last? missing) >>= λ x.
                  biggest (asset_utxos x.0 used utxos) >>= after))
            ≢ hang
      go (ok []) e ih = λ q. cc
      go (ok (x ∷ ms)) e ih = named (get_last? (x ∷ ms)) ih
      go (err c) e ih = λ q. cc
      go panic e ih = λ q. cc
      go hang e ih = absurd (needs_ends rounds tx e)

  -- With one round more than there are outputs the loop ends, whatever is missing, if each
  -- computation of what is missing ends.
  pub fund-ne-hang :
      (tx : Transaction) (used : List OutPoint)
      → fund needs utxos (suc (length utxos)) tx used ≢ hang
  fund-ne-hang tx used =
      fund-unused-ne-hang (suc (length utxos)) tx used (omega (arith, unused-le-length used utxos))
