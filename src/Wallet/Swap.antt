-- ===== src/Wallet/Swap.antt =====
-- src/interface.rs: `liquidex_make` and `liquidex_take`. `get_address` stores the next index before
-- anything else can fail, so both return the store with their result.
pub mod Proofs
pub mod TakeBlind
pub mod Offers
pub mod Maker
pub mod Extends
pub mod Taken
pub mod Recovered
pub mod TakenOuts
pub mod Balances
pub mod Settled
use bewallet.Common.{
  ℕ, zero, suc, Bool, true, false, Option, none, some, List, [], ◌∷◌, ◌++◌, length, get_elem?, any,
  if◌then◌else◌, set, String, ◌==◌, nat_eq, bytes_eq,
}
use bewallet.Error.{generic}
use bewallet.Outcome.{Outcome, ok, ◌>>=◌, ok_or, unwrap}
use bewallet.Word.Bytes.{Bytes}
use bewallet.Map.{get}
use bewallet.Elements.{
  F64, Txid, AssetId, Asset, Value, OutPoint, Address, TxOutSecrets, Transaction, empty_tx,
  default_out, outpoint_eq,
}
use bewallet.Transaction.{add_input, add_output}
use bewallet.Transaction.Fee.{estimated_fee}
use bewallet.Model.{UnblindedTxo}
use bewallet.Store.{StoreMeta}
use bewallet.Liquidex.{
  Zkp, LiquidexProposal, proposal_new, transaction, verify_output_commitment, get_input,
  liquidex_needs, liquidex_estimated_changes, liquidex_changes, liquidex_fee,
}
use bewallet.Liquidex.Blind.{Cipher, liquidex_blind}
use bewallet.Wallet.Context.{WalletCtx, Orders, get_address}
use bewallet.Wallet.Coins.{utxos}
use bewallet.Wallet.Funding.{fund}
use bewallet.Wallet.Create.{add_changes}
use bewallet.Wallet.Mnemonic.{Bip39, mnemonic2xprv}
use bewallet.Wallet.Sign.{
  spent_output, internal_sign_elements, put_signature, sighash_single_plus_anyone_can_pay,
  liquidex_take_sign, sign_input,
}
use bewallet.Wallet.Swap.Proofs.{Prover}
use bewallet.Wallet.Swap.TakeBlind.{liquidex_take_blind}

pub record LiquidexMakeOpt : Type 0 where
  pub utxo : OutPoint
  pub asset_id : AssetId
  pub rate : F64

-- The texts are parsed by the crate `elements`.
unfoldable pub liquidex_make_opt_new :
    (String → Outcome Txid)
    → (String → Outcome AssetId)
    → (txid : String) (vout : ℕ) (asset_id : String) (rate : F64) → Outcome LiquidexMakeOpt
liquidex_make_opt_new txid_from_str asset_from_str txid vout asset_id rate = do
  parsed ← txid_from_str txid
  asset ← asset_from_str asset_id
  ok (record { utxo = record { txid = parsed; vout = vout }; asset_id = asset; rate = rate })

-- The wallet, and what swaps need besides.
pub record Swapper : Type 0 where
  pub w : WalletCtx
  pub z : Zkp
  pub c : Cipher
  pub p : Prover
  pub b : Bip39
  pub master_blinding : Bytes
  -- the random bytes of the rounds of `liquidex_blind`, and the bound on their number
  pub random : ℕ → Bytes
  pub rounds : ℕ

module _ (k : Swapper) where
  -- The maker's transaction before it is signed, with the secrets of its output.
  unfoldable pub make_unsigned :
      StoreMeta
      → LiquidexMakeOpt
      → Outcome Address
      → Outcome (TxOutSecrets × Transaction × TxOutSecrets)
  make_unsigned s opt to = do
    address ← to
    unblinded_input ←
        ok_or (get opt.utxo s.cache.unblinded) (generic "cannot find unblinded values")
    let env = k.w.env
    let receive_value = env.f64_to_u64 (env.f64_mul opt.rate (env.f64_of_u64 unblinded_input.value))
    tx ←
        add_output env (add_input empty_tx opt.utxo) address receive_value (env.to_hex opt.asset_id)
    (blinded, unblinded_output) ← liquidex_blind k.z k.c k.master_blinding k.random k.rounds tx
    ok (unblinded_input, blinded, unblinded_output)

  -- The same, signed.
  unfoldable pub make_signed :
      StoreMeta
      → LiquidexMakeOpt
      → String
      → Outcome Address
      → Outcome (TxOutSecrets × Transaction × TxOutSecrets)
  unfolding make_unsigned
  make_signed s opt mnemonic to = do
    (unblinded_input, tx, unblinded_output) ← make_unsigned s opt to
    input ← unwrap (get_elem? tx.input 0)
    (out, derivation_path) ← spent_output s input
    xprv ← mnemonic2xprv k.b mnemonic k.w.config
    (script_sig, witness) ←
        internal_sign_elements (k.b.signer xprv) tx 0 derivation_path out.value
          (some sighash_single_plus_anyone_can_pay)
    let signed = record tx { input = set tx.input 0 (put_signature input script_sig witness) }
    ok (unblinded_input, signed, unblinded_output)

  unfoldable pub make_proposal :
      StoreMeta → LiquidexMakeOpt → String → Outcome Address → Outcome LiquidexProposal
  unfolding make_signed
  make_proposal s opt mnemonic to = do
    (unblinded_input, tx, unblinded_output) ← make_signed s opt mnemonic to
    ok (proposal_new k.z tx unblinded_input unblinded_output)

  unfoldable pub liquidex_make :
      StoreMeta → LiquidexMakeOpt → String → Outcome (StoreMeta × Outcome LiquidexProposal)
  unfolding make_proposal
  liquidex_make s opt mnemonic = do
    (s', address) ← get_address k.w s
    ok (s', make_proposal s' opt mnemonic address)

  -- The taker's coins: those used already are the maker's own input, if the wallet is its maker.
  unfoldable pub used_at_first : List UnblindedTxo → OutPoint → List OutPoint
  used_at_first coins input_outpoint =
      if any (λ (u : UnblindedTxo). u.txo.outpoint == input_outpoint) coins
      then input_outpoint ∷ []
      else []

  -- `satoshi/byte`
  abbrev pub take_fee_rate : F64
  take_fee_rate = k.w.env.f64 "0.1"

module _ (k : Swapper) (s : StoreMeta) (orders : Orders)
    (maker_input maker_output : TxOutSecrets) where
  -- The loop that adds inputs.
  unfoldable pub take_fund : Transaction → Outcome Transaction
  unfolding used_at_first
  take_fund tx = do
    coins ← utxos k.w s orders
    input ← unwrap (get_elem? tx.input 0)
    fund
        (λ round t.
          liquidex_needs k.w.env maker_input maker_output t s.cache.unblinded (orders.rounds round)
            (take_fee_rate k) k.w.config.policy_asset)
        coins (suc (length coins)) tx (used_at_first k coins input.previous_output)

  -- The change outputs and the fee output.
  unfoldable pub take_balance : Transaction → Outcome Transaction
  take_balance tx = do
    let env = k.w.env
    let policy_asset = k.w.config.policy_asset
    more_changes ← liquidex_estimated_changes env maker_input maker_output tx s.cache.unblinded
    estimated ← estimated_fee env tx (take_fee_rate k) more_changes
    changes ←
        liquidex_changes env maker_input maker_output tx s.cache.unblinded orders.inputs estimated
          policy_asset
    with_changes ← add_changes k.w s (orders.changes.order changes) 0 tx
    fee_value ←
        liquidex_fee env maker_input maker_output with_changes s.cache.unblinded policy_asset
    let fee_output = record default_out {
      asset = Asset.explicit policy_asset;
      value = Value.explicit fee_value;
    }
    ok (record with_changes { output = with_changes.output ++ fee_output ∷ [] })

  unfoldable pub take_tx : Transaction → String → Outcome Address → Outcome Transaction
  unfolding take_fund take_balance
  take_tx tx mnemonic to = do
    address ← to
    with_output ← add_output k.w.env tx address maker_input.value (k.w.env.to_hex maker_input.asset)
    funded ← take_fund with_output
    balanced ← take_balance funded
    blinded ←
        liquidex_take_blind k.w.env k.z k.c k.p k.master_blinding maker_input maker_output
          s.cache.unblinded balanced
    xprv ← mnemonic2xprv k.b mnemonic k.w.config
    liquidex_take_sign (k.b.signer xprv) s blinded

module _ (k : Swapper) where
  unfoldable pub liquidex_take :
      StoreMeta → Orders → LiquidexProposal → String → Outcome (StoreMeta × Outcome Transaction)
  unfolding take_tx
  liquidex_take s orders proposal mnemonic = do
    tx ← transaction k.z proposal
    maker_output ← verify_output_commitment k.z proposal
    maker_input ← get_input proposal
    (s', address) ← get_address k.w s
    ok (s', take_tx k s' orders maker_input maker_output tx mnemonic address)
