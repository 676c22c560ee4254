-- ===== src/Sync/Client.antt =====
-- What src/lib.rs calls of the Electrum client and of other crates.
use bewallet.Common.{ℕ, List}
use bewallet.Outcome.{Outcome}
use bewallet.Int.{ℤ}
use bewallet.Elements.{F64, Script, Txid, Transaction, TxOut, TxOutSecrets, AssetId}
use bewallet.Store.{BlockHeader}

pub record GetHistoryRes : Type 0 where
  pub height : ℤ
  pub tx_hash : Txid

pub record GetMerkleRes : Type 0 where
  pub merkle : List (List ℕ)
  pub pos : ℕ

-- Raw bytes are opaque lists.
pub record Client : Type 0 where
  pub batch_script_get_history : List Script → Outcome (List (List GetHistoryRes))
  pub batch_transaction_get_raw : List Txid → Outcome (List (List ℕ))
  pub batch_block_header_raw : List ℕ → Outcome (List (List ℕ))
  pub block_headers_subscribe_raw : Outcome (ℕ × List ℕ)
  pub transaction_get_merkle : Txid → ℕ → Outcome GetMerkleRes
  pub relay_fee : Outcome F64
  pub batch_estimate_fee : List ℕ → Outcome (List F64)
  pub deserialize_tx : List ℕ → Outcome Transaction
  pub deserialize_header : List ℕ → Outcome BlockHeader
  -- the iteration of a set of numbers
  pub set_order : List ℕ → List ℕ
  -- `TxOut::unblind` with the key of the output's script; `liquidex_unblind` of an output
  pub unblind : TxOut → Outcome TxOutSecrets
  pub liquidex_unblind : Transaction → ℕ → List AssetId → Outcome TxOutSecrets
