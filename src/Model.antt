-- ===== src/Model.antt =====
-- src/model.rs: the values that the wallet hands to its user.
use bewallet.Common.{ℕ, String, Option, List}
use bewallet.Error.{invalid_address}
use bewallet.Outcome.{Outcome, ok, ◌>>=◌, map_err}
use bewallet.Map.{Map}
use bewallet.Elements.{Env, OutPoint, Script, AssetId, Transaction, TxOutSecrets, Address, Txid}
use bewallet.Int.{ℤ}

pub record Txo : Type 0 where
  pub outpoint : OutPoint
  pub script_pubkey : Script
  pub height : Option ℕ

abbrev pub txo_new : OutPoint → Script → Option ℕ → Txo
txo_new outpoint script_pubkey height = record {
  outpoint = outpoint;
  script_pubkey = script_pubkey;
  height = height;
}

pub record UnblindedTxo : Type 0 where
  pub txo : Txo
  pub unblinded : TxOutSecrets

pub data SpvVerifyResult : Type 0 where
  in_progress verified not_verified disabled : SpvVerifyResult

pub as_i32 : SpvVerifyResult → ℕ
as_i32 in_progress = 0
as_i32 verified = 1
as_i32 not_verified = 2
as_i32 disabled = 3

pub spv_display : SpvVerifyResult → String
spv_display in_progress = "in_progress"
spv_display verified = "verified"
spv_display not_verified = "not_verified"
spv_display disabled = "disabled"

-- The field `txid` holds the id and not its text.
pub record TransactionDetails : Type 0 where
  pub transaction : Transaction
  pub txid : Txid
  pub balances : Map AssetId ℤ
  pub fee : ℕ
  pub height : Option ℕ
  pub spv_verified : SpvVerifyResult

unfoldable pub details_new :
    Env → Transaction → Map AssetId ℤ → ℕ → Option ℕ → SpvVerifyResult → TransactionDetails
details_new env transaction balances fee height spv_verified = record {
  transaction = transaction;
  txid = env.txid transaction;
  balances = balances;
  fee = fee;
  height = height;
  spv_verified = spv_verified;
}

pub record Destination : Type 0 where
  pub address : Address
  pub satoshi : ℕ
  pub asset : AssetId

-- `Address::from_str` is an argument.
pub destination_new : Env → (String → Outcome Address) → String → ℕ → String → Outcome Destination
destination_new env address_from_str address satoshi asset = do
  address' ← map_err (address_from_str address) invalid_address
  asset' ← env.from_hex asset
  ok (record { address = address'; satoshi = satoshi; asset = asset' })

pub record CreateTransactionOpt : Type 0 where
  pub addressees : List Destination
  pub fee_rate : Option ℕ
  pub utxos : Option (List UnblindedTxo)

pub record GetTransactionsOpt : Type 0 where
  pub first : ℕ
  pub count : ℕ
  pub subaccount : ℕ
  pub num_confs : Option ℕ
