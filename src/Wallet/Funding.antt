-- ===== src/Wallet/Funding.antt =====
-- src/interface.rs: the loop of `create_tx` and of `liquidex_take` that adds inputs until nothing
-- is missing. The amounts that are missing (`needs` or `liquidex_needs`) are an argument; it is
-- given the round too, since each round iterates a new `HashMap`.
pub mod Run
pub mod Ending
use bewallet.Common.{
  ℕ, zero, suc, Bool, true, false, not, ◌&&◌, ◌==◌, nat_eq, List, [], ◌∷◌, leb, is_empty, get_last?,
  filter, if◌then◌else◌,
}
use bewallet.Common.Sort.{sort_by}
use bewallet.Error.{insufficient_funds}
use bewallet.Outcome.{Outcome, ok, hang, ◌>>=◌, ok_or, unwrap}
use bewallet.Map.{contains, set_insert}
use bewallet.Elements.{OutPoint, Transaction, outpoint_eq, AssetId}
use bewallet.Transaction.{add_input}
use bewallet.Model.{UnblindedTxo}

abbrev pub outpoint : UnblindedTxo → OutPoint
outpoint u = u.txo.outpoint

-- The utxos of the asset that are not used yet.
unfoldable pub asset_utxos : AssetId → List OutPoint → List UnblindedTxo → List UnblindedTxo
asset_utxos asset used utxos =
    filter (λ (u : UnblindedTxo). u.unblinded.asset == asset && not (contains (outpoint u) used))
      utxos

-- Sort by value, upwards, and pop the last.
unfoldable pub biggest : List UnblindedTxo → Outcome UnblindedTxo
biggest utxos =
    ok_or
      (get_last? (sort_by (λ (a b : UnblindedTxo). leb a.unblinded.value b.unblinded.value) utxos))
      insufficient_funds

module _ (needs : ℕ → Transaction → Outcome (List (AssetId × ℕ))) (utxos : List UnblindedTxo) where
  unfoldable pub fund : ℕ → Transaction → List OutPoint → Outcome Transaction
  unfolding asset_utxos biggest
  fund zero tx used = hang
  fund (suc rounds) tx used = do
    missing ← needs rounds tx
    let next = (do
      (asset, _) ← unwrap (get_last? missing)
      utxo ← biggest (asset_utxos asset used utxos)
      fund rounds (add_input tx (outpoint utxo)) (set_insert (outpoint utxo) used))
    if is_empty missing then ok tx else next
