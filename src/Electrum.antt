-- ===== src/Electrum.antt =====
-- src/lib.rs: `ElectrumWallet`, which the users of the crate call: it brings the store up to date from
-- the server before it asks the wallet. What goes wrong with the server is logged and dropped.
pub mod Offline
pub mod Fees
use bewallet.Common.{Bool, ℕ, Option, none, some, List, [], ◌∷◌, map, String, nat_eq}
use bewallet.Error.{Error}
use bewallet.Outcome.{Outcome, ok, err, panic, hang, ◌>>=◌, ◌>>◌}
use bewallet.Word.Bytes.{Bytes}
use bewallet.Map.{Map, Amounts, IterationOf}
use bewallet.Elements.{AssetId, Address, Txid, Transaction}
use bewallet.Network.{ElectrumUrl}
use bewallet.Model.{
  UnblindedTxo, TransactionDetails, GetTransactionsOpt, CreateTransactionOpt, SpvVerifyResult,
}
use bewallet.Store.{
  StoreMeta, BlockHeader, Derivation, liquidex_assets_insert, liquidex_assets_remove,
}
use bewallet.Headers.{Crypto, verifier_new}
use bewallet.Sync.{sync}
use bewallet.Sync.Client.{Client}
use bewallet.Spv.{try_get_fee_estimates, tip, get_proofs}
use bewallet.Liquidex.{LiquidexProposal}
use bewallet.Liquidex.Blind.{liquidex_unblind}
use bewallet.Wallet.Context.{WalletCtx, Orders, get_address}
use bewallet.Wallet.Coins.{utxos, balance}
use bewallet.Wallet.History.{list_tx, get_tip}
use bewallet.Wallet.Create.{create_tx}
use bewallet.Wallet.Mnemonic.{Bip39, sign_with_mnemonic}
use bewallet.Wallet.Swap.{Swapper, LiquidexMakeOpt, liquidex_make, liquidex_take}

-- The wallet, and what else of other crates is called.
pub record ElectrumWallet : Type 0 where
  pub swapper : Swapper
  pub derivation : Derivation
  pub crypto : Crypto
  pub txid_bytes : Txid → List ℕ
  pub block_hash : BlockHeader → ℕ
  pub build_client : ElectrumUrl → Outcome Client
  pub serialize : Transaction → Bytes
  pub transaction_broadcast_raw : ElectrumUrl → Bytes → Outcome (Unit {0})
  -- the hash of a list of texts
  pub hash : List String → ℕ

-- What differs between the calls: the bound on the rounds of a sync, the shuffle of the two chains,
-- what writing the files returns, and the order in which the heights are iterated.
pub record Chances : Type 0 where
  pub rounds : ℕ
  pub wallet_chains : List ℕ
  pub flush : Outcome (Unit {0})
  pub heights : IterationOf Txid (Option ℕ)

-- `match` of a result whose error is only logged.
unfoldable pub log_error : {A : Type 0} → Outcome A → Outcome (Unit {0})
log_error (ok a) = ok tt
log_error (err e) = ok tt
log_error panic = panic
log_error hang = hang

-- An update of the store whose error is only logged.
unfoldable pub or_keep : StoreMeta → Outcome StoreMeta → StoreMeta × Outcome (Unit {0})
or_keep s (ok s') = (s', ok tt)
or_keep s (err e) = (s, ok tt)
or_keep s panic = (s, panic)
or_keep s hang = (s, hang)

-- `if let Ok(client) = ...`
unfoldable pub if_client :
    Outcome Client
    → (Client → StoreMeta × Outcome (Unit {0}))
    → StoreMeta
    → StoreMeta × Outcome (Unit {0})
if_client (ok client) run s = run client
if_client (err e) run s = (s, ok tt)
if_client panic run s = (s, panic)
if_client hang run s = (s, hang)

module _ (n : ElectrumWallet) where
  unfoldable pub with_client :
      (Client → StoreMeta × Outcome (Unit {0})) → StoreMeta → StoreMeta × Outcome (Unit {0})
  unfolding if_client
  with_client run s = if_client (n.build_client n.swapper.w.config.electrum_url) run s

  unfoldable pub update_fee_estimates : StoreMeta → StoreMeta × Outcome (Unit {0})
  unfolding with_client or_keep
  update_fee_estimates s =
      with_client
        (λ client. or_keep s (
          try_get_fee_estimates n.swapper.w.env client >>= λ es.
          ok (record s { cache = record s.cache { fee_estimates = es } })))
        s

  unfoldable pub update_tip : StoreMeta → StoreMeta × Outcome (Unit {0})
  unfolding with_client or_keep
  update_tip s = with_client (λ client. or_keep s (tip n.block_hash client s >>= λ r. ok r.0)) s

  unfoldable pub update_spv : Chances → StoreMeta → StoreMeta × Outcome (Unit {0})
  unfolding update_tip
  update_spv ch s =
      let tipped = update_tip s in
      let proved =
        with_client
          (λ client. or_keep tipped.0 (
            get_proofs n.crypto (verifier_new n.crypto n.swapper.w.config.network) n.txid_bytes
              client tipped.0 ch.heights
            >>= λ r. ok r.0))
          tipped.0 in
      elim tipped.1 [
        | ok _ ↦ proved
        | err e ↦ (tipped.0, err e)
        | panic ↦ (tipped.0, panic)
        | hang ↦ (tipped.0, hang)
      ]

  -- `Syncer::try_liquidex_unblind` is `liquidex_unblind` with the keys of the wallet.
  unfoldable pub with_keys : Client → Client
  with_keys client = record client {
    liquidex_unblind = liquidex_unblind n.swapper.z n.swapper.c n.swapper.master_blinding;
  }

  unfoldable pub sync_store : Chances → StoreMeta → StoreMeta × Outcome (Unit {0})
  unfolding with_client log_error with_keys
  sync_store ch s =
      with_client
        (λ client.
          let r =
            sync n.swapper.w.env n.derivation (with_keys client) ch.rounds ch.wallet_chains ch.flush
              s in
          (r.0, log_error r.1))
        s

  -- `self.sync()?` and what is then asked of the wallet.
  unfoldable pub synced :
      {A : Type 0} → Chances → (StoreMeta → Outcome A) → StoreMeta → StoreMeta × Outcome A
  unfolding sync_store
  synced ch ask s = let r = sync_store ch s in (r.0, r.1 >> ask r.0)

  unfoldable pub block_status : StoreMeta → StoreMeta × Outcome (ℕ × ℕ)
  unfolding update_tip
  block_status s = let r = update_tip s in (r.0, r.1 >> ok (get_tip n.swapper.w r.0))

  unfoldable pub tx_status : Chances → Orders → StoreMeta → StoreMeta × Outcome ℕ
  unfolding synced
  tx_status ch orders = synced ch (λ s.
      list_tx n.swapper.w s orders
        (record { first = 0; count = 100; subaccount = 0; num_confs = none })
      >>= λ txs. ok (n.hash (map (λ (t : TransactionDetails). n.swapper.w.txid_text t.txid) txs)))

  unfoldable pub wallet_balance : Chances → Orders → StoreMeta → StoreMeta × Outcome Amounts
  unfolding synced
  wallet_balance ch orders = synced ch (λ s. balance n.swapper.w s orders)

  -- The address changes the store again.
  unfoldable pub address : Chances → StoreMeta → Outcome (StoreMeta × Outcome Address)
  unfolding sync_store
  address ch s = let r = sync_store ch s in r.1 >> get_address n.swapper.w r.0

  unfoldable pub transactions :
      Chances
      → Orders
      → GetTransactionsOpt
      → StoreMeta
      → StoreMeta × Outcome (List TransactionDetails)
  unfolding synced
  transactions ch orders opt = synced ch (λ s. list_tx n.swapper.w s orders opt)

  unfoldable pub wallet_utxos :
      Chances → Orders → StoreMeta → StoreMeta × Outcome (List UnblindedTxo)
  unfolding synced
  wallet_utxos ch orders = synced ch (λ s. utxos n.swapper.w s orders)

  unfoldable pub wallet_create_tx :
      Chances → Orders → CreateTransactionOpt → StoreMeta → StoreMeta × Outcome TransactionDetails
  unfolding synced
  wallet_create_tx ch orders opt = synced ch (λ s. create_tx n.swapper.w s orders opt)

  unfoldable pub sign_tx : StoreMeta → Transaction → String → Outcome Transaction
  sign_tx s tx mnemonic = sign_with_mnemonic n.swapper.b n.swapper.w.config s tx mnemonic

  unfoldable pub broadcast_tx : Transaction → Outcome (Unit {0})
  broadcast_tx tx = do
    let url = n.swapper.w.config.electrum_url
    client ← n.build_client url
    n.transaction_broadcast_raw url (n.serialize tx)

  -- `LiquiDEX` calls do not sync first.
  unfoldable pub wallet_liquidex_make :
      StoreMeta → LiquidexMakeOpt → String → Outcome (StoreMeta × Outcome LiquidexProposal)
  unfolding liquidex_make
  wallet_liquidex_make s opt mnemonic = liquidex_make n.swapper s opt mnemonic

  unfoldable pub wallet_liquidex_take :
      StoreMeta → Orders → LiquidexProposal → String → Outcome (StoreMeta × Outcome Transaction)
  unfolding liquidex_take
  wallet_liquidex_take s orders proposal mnemonic =
      liquidex_take n.swapper s orders proposal mnemonic

  -- With what writing the file of the assets returns.
  unfoldable pub wallet_assets_insert :
      Outcome (Unit {0}) → StoreMeta → AssetId → StoreMeta × Outcome Bool
  unfolding liquidex_assets_insert
  wallet_assets_insert flush s asset = liquidex_assets_insert flush s asset

  unfoldable pub wallet_assets_remove :
      Outcome (Unit {0}) → StoreMeta → AssetId → StoreMeta × Outcome Bool
  unfolding liquidex_assets_remove
  wallet_assets_remove flush s asset = liquidex_assets_remove flush s asset
