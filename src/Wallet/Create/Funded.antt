-- ===== src/Wallet/Create/Funded.antt =====
-- src/interface.rs: the steps 2 and 3 of `create_tx` together.
use bewallet.Common.{ℕ, ◌+◌, ◌<◌, ◌^◌, ◌≡◌, subst, List, [], ◌∷◌, All, length, nat_eq, suc}
use bewallet.Outcome.{Outcome, ok, traverse}
use bewallet.Word.{u64_mod}
use bewallet.Map.{Amounts}
use bewallet.Amounts.{sum, InRange}
use bewallet.Amounts.Sums.{values}
use bewallet.Elements.{F64, Transaction, AssetId}
use bewallet.Transaction.{input_amount}
use bewallet.Transaction.Fee.{estimated_fee, estimated_changes}
use bewallet.Transaction.Fee.Exact.{TxOutLaws}
use bewallet.Transaction.Needs.{needs}
use bewallet.Transaction.Changes.{changes}
use bewallet.Model.{UnblindedTxo}
use bewallet.Store.{StoreMeta}
use bewallet.Wallet.Context.{WalletCtx, Orders}
use bewallet.Wallet.Funding.Run.{Rounds-output, Ends, Funded, fund-Ends}
use bewallet.Wallet.Create.{fund_tx, complete}
use bewallet.Wallet.Create.Outputs.{KeyLaws, Outs}
use bewallet.Wallet.Create.Completes.{Shuffles, Completed, complete-conserves}

Outs-output :
    (w : WalletCtx) (tx last : Transaction) (outs : List (ℕ × ℕ))
    → last.output ≡ tx.output
    → Outs w.env tx outs
    → Outs w.env last outs
Outs-output w tx last outs same o = record {
  amounts = rw same o.amounts;
  no_fee = rw same o.no_fee;
}

-- Where the loop of `create_tx` returns a transaction for requested outputs that are explicit,
-- positive and no fees, every output that it spends is known, and no sum overflows a `u64` nor a
-- change index 2 ^ 31, the steps after the loop succeed, in both builds and whatever the orders and
-- the shuffles. The result spends of each asset exactly what its inputs hold, the fee output
-- included, and its fee is at least the fee estimated for the inputs and at most that and 546.
pub fund_tx-complete :
    (w : WalletCtx) (s : StoreMeta) (orders : Orders) (coins : List UnblindedTxo)
    (requested tx : Transaction) (fee_rate : F64) (outs ins : List (ℕ × ℕ))
    (more_changes estimated : ℕ)
    → fund_tx w s orders fee_rate coins requested ≡ ok tx
    → KeyLaws w
    → TxOutLaws w.env
    → Shuffles orders
    → Outs w.env requested outs
    → All (λ (e : ℕ × ℕ). 0 < e.1) outs
    → traverse (input_amount w.env s.cache.all_txs s.cache.unblinded) tx.input ≡ ok ins
    → estimated_changes w.env tx s.cache.all_txs s.cache.unblinded ≡ ok more_changes
    → estimated_fee w.env tx fee_rate more_changes ≡ ok estimated
    → InRange ((w.config.policy_asset, estimated) ∷ outs)
    → sum (values ins) < u64_mod
    → ((change : Amounts)
        → changes w.env orders.inputs tx estimated w.config.policy_asset s.cache.all_txs
            s.cache.unblinded
          ≡ ok change
        → s.cache.indexes.internal + 0 + length (orders.changes.order change) < 2 ^ 31)
    → (tx' : Transaction) × (fee_val : ℕ) × (complete w s orders fee_rate tx ≡ ok (tx', fee_val))
      × Completed w s estimated tx' fee_val
unfolding fund_tx
fund_tx-complete w s orders coins requested tx fee_rate outs ins more_changes estimated funded keys
      laws shuffles o positive ins_known changes_known fee_known outs_fit ins_fit indexes_fit =
    let f : Funded missing coins requested [] tx =
      subst (Ends missing coins requested []) funded
        (fund-Ends missing coins (suc (length coins)) requested []) in
    complete-conserves w s orders (orders.rounds f.round) tx fee_rate outs ins more_changes
      estimated keys laws shuffles
      (Outs-output w requested tx outs (Rounds-output missing coins f.rounds) o) positive ins_known
      changes_known fee_known outs_fit ins_fit f.enough indexes_fit
  where
    missing : ℕ → Transaction → Outcome (List (AssetId × ℕ))
    missing round t =
        needs w.env (orders.rounds round) t fee_rate w.config.policy_asset s.cache.all_txs
          s.cache.unblinded
