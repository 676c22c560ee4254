-- ===== src/Wallet/Coins.antt =====
-- src/interface.rs: `utxos` and `balance`.
pub mod Outputs
pub mod Exact
use bewallet.Common.{
  ℕ, ◌+◌, ◌%◌, Bool, true, false, ◌&&◌, Option, none, some, List, [], ◌∷◌, ◌++◌, if◌then◌else◌, leb,
  ltb, ◌==◌, nat_eq, nat_beq,
}
use bewallet.Common.Sort.{sort_by}
use Prim.Native.String.{◌++◌ as str_append}
use bewallet.Error.{fn_err}
use bewallet.Outcome.{Outcome, ok, ◌>>=◌, ok_or}
use bewallet.Word.{u32_mod}
use bewallet.Map.{Map, get, insert, contains, Amounts}
use bewallet.Amounts.{accumulate}
use bewallet.Elements.{OutPoint, TxOut, TxOutSecrets, Txid, AssetId, outpoint_eq}
use bewallet.Transaction.{dust_value, Unblinded}
use bewallet.Model.{UnblindedTxo, txo_new}
use bewallet.Store.{StoreMeta, spent}
use bewallet.Wallet.Context.{WalletCtx, Orders}

-- Small enough to be dust, and of the policy asset.
unfoldable pub is_dust : AssetId → TxOutSecrets → Bool
is_dust policy_asset u = ltb u.value dust_value && (u.asset == policy_asset)

-- The chain of `filter` and `filter_map` over the outputs, numbered from `vout`.
module _ (policy_asset : AssetId) (spent : List OutPoint) (unblinded : Unblinded)
    (height : Option ℕ) (id : Txid) where
  unfoldable pub tx_txos : ℕ → List TxOut → List UnblindedTxo
  unfolding is_dust
  tx_txos vout [] = []
  tx_txos vout (output ∷ outputs) =
      let outpoint : OutPoint = record { txid = id; vout = vout % u32_mod } in
      let rest = tx_txos (vout + 1) outputs in
      if contains outpoint spent then rest else elim (get outpoint unblinded) [
        | none ↦ rest
        | some u ↦
            if is_dust policy_asset u
            then rest
            else record { txo = txo_new outpoint output.script_pubkey height; unblinded = u } ∷ rest
      ]

module _ (w : WalletCtx) (s : StoreMeta) where
  -- The loop over the heights, before the sort.
  unfoldable pub txos : List (Txid × Option ℕ) → Outcome (List UnblindedTxo)
  unfolding tx_txos
  txos [] = ok []
  txos ((tx_id, height) ∷ heights) = do
    tx ← ok_or (get tx_id s.cache.all_txs) (fn_err (str_append "txos no tx " (w.txid_text tx_id)))
    rest ← txos heights
    ok (
        tx_txos w.config.policy_asset (spent s) s.cache.unblinded height (w.env.txid tx) 0 tx.output
        ++ rest)

  -- The greatest value first.
  unfoldable pub utxos : Orders → Outcome (List UnblindedTxo)
  unfolding txos
  utxos orders = do
    all ← txos (orders.heights.order s.cache.heights)
    ok (sort_by (λ (a b : UnblindedTxo). leb b.unblinded.value a.unblinded.value) all)

  unfoldable pub balance : Orders → Outcome Amounts
  unfolding utxos
  balance orders = do
    coins ← utxos orders
    accumulate w.env.build (λ (u : UnblindedTxo). ok (u.unblinded.asset, u.unblinded.value)) coins
        (insert w.config.policy_asset 0 [])
