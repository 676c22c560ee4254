-- ===== src/Wallet/History.antt =====
-- src/interface.rs: `list_tx` and `get_tip`.
pub mod Newest
use bewallet.Common.{
  ℕ, Bool, Option, none, some, List, if◌then◌else◌, leb, ltb, nat_beq, take, drop, nat_eq, ◌-◌,
}
use bewallet.Common.Sort.{sort_by}
use Prim.Native.String.{◌++◌ as str_append}
use bewallet.Error.{fn_err}
use bewallet.Outcome.{Outcome, ok, ◌>>=◌, ok_or, traverse}
use bewallet.Word.{u32_mod}
use bewallet.Map.{get}
use bewallet.Elements.{Txid, Asset}
use bewallet.Transaction.Fee.{fee}
use bewallet.Transaction.Balances.{my_balance_changes}
use bewallet.Model.{
  TransactionDetails, details_new, GetTransactionsOpt, SpvVerifyResult, in_progress, disabled,
}
use bewallet.Store.{StoreMeta}
use bewallet.Wallet.Context.{WalletCtx, Orders}

unfoldable pub height_or_max : Option ℕ → ℕ
height_or_max none = u32_mod - 1
height_or_max (some h) = h

-- What comes first: the unconfirmed, then the greater heights; at one height the greater ids.
unfoldable pub not_after : Txid × Option ℕ → Txid × Option ℕ → Bool
unfolding height_or_max
not_after (id, h) (id', h') =
    if nat_beq (height_or_max h') (height_or_max h)
    then leb id' id
    else ltb (height_or_max h') (height_or_max h)

unfoldable pub spv_of : Option SpvVerifyResult → SpvVerifyResult
spv_of none = in_progress
spv_of (some r) = r

module _ (w : WalletCtx) (s : StoreMeta) where
  unfoldable pub tx_details : Txid × Option ℕ → Outcome TransactionDetails
  unfolding spv_of
  tx_details (tx_id, height) = do
    tx ←
        ok_or (get tx_id s.cache.all_txs) (fn_err (str_append "list_tx no tx " (w.txid_text tx_id)))
    fee ←
        fee w.env tx s.cache.all_txs s.cache.unblinded (some (Asset.explicit w.config.policy_asset))
    balances ← my_balance_changes w.env tx s.cache.unblinded
    ok (
        details_new w.env tx balances fee height
          (if w.config.spv_enabled then spv_of (get tx_id s.cache.txs_verif) else disabled))

  unfoldable pub list_tx : Orders → GetTransactionsOpt → Outcome (List TransactionDetails)
  unfolding not_after tx_details
  list_tx orders opt =
      traverse tx_details
        (take opt.count (drop opt.first (sort_by not_after (orders.heights.order s.cache.heights))))

  unfoldable pub get_tip : ℕ × ℕ
  get_tip = s.cache.tip
