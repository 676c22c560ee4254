-- ===== src/Wallet/Create.antt =====
-- src/interface.rs: `create_tx`.
pub mod Checks
pub mod Outputs
pub mod Completes
pub mod Funded
use bewallet.Common.{
  ℕ, zero, suc, ◌+◌, ◌&&◌, Bool, true, false, not, Option, none, some, List, [], ◌∷◌, map, any,
  is_empty, length, if◌then◌else◌, leb, ◌==◌, nat_eq, nat_beq,
}
use bewallet.Error.{invalid_address, invalid_amount, empty_addressees}
use bewallet.Outcome.{Outcome, ok, ◌>>=◌, ◌>>◌, fail_if, map_err, traverse}
use bewallet.Word.{add_u32}
use bewallet.Int.{ℤ, abs_i64}
use bewallet.Map.{Map, Iteration}
use bewallet.Elements.{F64, AssetId, Asset, Transaction, empty_tx}
use bewallet.Transaction.{dust_value, add_output, add_fee_output, scramble}
use bewallet.Transaction.Fee.{estimated_fee, estimated_changes, fee}
use bewallet.Transaction.Needs.{needs}
use bewallet.Transaction.Changes.{changes}
use bewallet.Transaction.Balances.{my_balance_changes}
use bewallet.Model.{
  UnblindedTxo, Destination, CreateTransactionOpt, TransactionDetails, details_new, not_verified,
}
use bewallet.Store.{StoreMeta}
use bewallet.Wallet.Context.{WalletCtx, Orders, address_params, derive_address}
use bewallet.Wallet.Coins.{utxos}
use bewallet.Wallet.Funding.{fund}

-- The amounts of an addressee that the dust rule forbids.
unfoldable pub is_dust_amount : AssetId → Destination → Bool
is_dust_amount policy_asset d = leb d.satoshi dust_value && (d.asset == policy_asset)

module _ (w : WalletCtx) where
  -- The checks before anything is built, in their order.
  unfoldable pub check_addressees : List Destination → Outcome (Unit {0})
  unfolding address_params is_dust_amount
  check_addressees addressees = do
    fail_if
        (any (λ (d : Destination). not (nat_beq d.address.params (address_params w))) addressees)
        invalid_address
    fail_if (is_empty addressees) empty_addressees
    fail_if (any (λ (d : Destination). nat_beq d.satoshi 0) addressees) invalid_amount
    fail_if (any (is_dust_amount w.config.policy_asset) addressees) invalid_amount

  unfoldable pub fee_rate_of : Option ℕ → F64
  fee_rate_of none = w.env.f64_div (w.env.f64_of_u64 100) (w.env.f64 "1000.0")
  fee_rate_of (some rate) = w.env.f64_div (w.env.f64_of_u64 rate) (w.env.f64 "1000.0")

  -- STEP 1
  unfoldable pub add_outputs : List Destination → Transaction → Outcome Transaction
  add_outputs [] tx = ok tx
  add_outputs (out ∷ outs) tx = do
    tx' ←
        map_err (add_output w.env tx out.address out.satoshi (w.env.to_hex out.asset))
          invalid_address
    add_outputs outs tx'

  -- The outputs of STEP 3, `i` of which are added; `liquidex_take` adds them alike.
  unfoldable pub add_changes :
      StoreMeta → List (AssetId × ℕ) → ℕ → Transaction → Outcome Transaction
  unfolding derive_address
  add_changes s [] i tx = ok tx
  add_changes s ((asset, satoshi) ∷ rest) i tx = do
    next ← add_u32 w.env.build s.cache.indexes.internal i
    change_index ← add_u32 w.env.build next 1
    change_address ← derive_address w 1 change_index
    tx' ← add_output w.env tx change_address satoshi (w.env.to_hex asset)
    add_changes s rest (i + 1) tx'

  unfoldable pub abs_balances : Map AssetId ℤ → Outcome (Map AssetId ℤ)
  abs_balances = traverse (λ (e : AssetId × ℤ). abs_i64 w.env.build e.1 >>= λ v. ok (e.0, v))

  -- STEP 2, from the coins given.
  unfoldable pub fund_tx :
      StoreMeta → Orders → F64 → List UnblindedTxo → Transaction → Outcome Transaction
  fund_tx s orders fee_rate coins tx =
      fund
        (λ round tx.
          needs w.env (orders.rounds round) tx fee_rate w.config.policy_asset s.cache.all_txs
            s.cache.unblinded)
        coins (suc (length coins)) tx []

  -- From the loop over the changes to the fee output: the transaction and its fee.
  unfoldable pub finish :
      StoreMeta → Orders → List (AssetId × ℕ) → Transaction → Outcome (Transaction × ℕ)
  unfolding add_changes
  finish s orders change tx = do
    with_changes ← add_changes s change 0 tx
    let scrambled = scramble orders.shuffle_in orders.shuffle_out with_changes
    let policy_asset = some (Asset.explicit w.config.policy_asset)
    fee_val ← fee w.env scrambled s.cache.all_txs s.cache.unblinded policy_asset
    final ← add_fee_output scrambled fee_val policy_asset
    ok (final, fee_val)

  -- STEP 3, the scramble and the fee output.
  unfoldable pub complete : StoreMeta → Orders → F64 → Transaction → Outcome (Transaction × ℕ)
  unfolding finish
  complete s orders fee_rate tx = do
    more_changes ← estimated_changes w.env tx s.cache.all_txs s.cache.unblinded
    estimated ← estimated_fee w.env tx fee_rate more_changes
    change ←
        changes w.env orders.inputs tx estimated w.config.policy_asset s.cache.all_txs
          s.cache.unblinded
    finish s orders (orders.changes.order change) tx

  unfoldable pub create_tx : StoreMeta → Orders → CreateTransactionOpt → Outcome TransactionDetails
  unfolding check_addressees fee_rate_of add_outputs abs_balances fund_tx complete
  create_tx s orders opt = do
    check_addressees opt.addressees
    let fee_rate = fee_rate_of opt.fee_rate
    coins ← elim opt.utxos [ none ↦ utxos w s orders | some given ↦ ok given ]
    requested ← add_outputs opt.addressees empty_tx
    funded ← fund_tx s orders fee_rate coins requested
    (tx, fee_val) ← complete s orders fee_rate funded
    satoshi ← my_balance_changes w.env tx s.cache.unblinded
    satoshi' ← abs_balances satoshi
    ok (details_new w.env tx satoshi' fee_val none not_verified)
