-- ===== src/Transaction.antt =====
-- src/transaction.rs: the changes to a transaction, and what the wallet knows of its inputs.
pub mod Fee
pub mod Needs
pub mod Changes
pub mod Balances
use bewallet.Common.{
  ℕ, ◌+◌, ◌≡◌, Option, none, some, List, [], ◌∷◌, ◌++◌, map, String, false, nat_eq,
}
use bewallet.Error.{generic, invalid_address}
use bewallet.Outcome.{Outcome, ok, ◌>>=◌, ok_or, unwrap}
use bewallet.Map.{Map, get}
use bewallet.Elements.{
  Env, OutPoint, Asset, Value, Nonce, TxIn, TxOut, Transaction, TxOutSecrets, Address, Txid,
  AssetId, default_in_witness, default_out_witness, default_out, outpoint_eq,
}

abbrev pub dust_value : ℕ
dust_value = 546

abbrev pub default_surjectionproof_size : ℕ
default_surjectionproof_size = 135

abbrev pub default_rangeproof_size : ℕ
default_rangeproof_size = 4174

abbrev pub Unblinded : Type 0
Unblinded = Map OutPoint TxOutSecrets

abbrev pub Txs : Type 0
Txs = Map Txid Transaction

unfoldable pub strip_witness : Transaction → Transaction
strip_witness tx = record tx {
  input = map (λ (i : TxIn). record i { witness = default_in_witness }) tx.input;
  output = map (λ (o : TxOut). record o { witness = default_out_witness }) tx.output;
}

unfoldable pub add_input : Transaction → OutPoint → Transaction
add_input tx outpoint = record tx {
  input =
      tx.input
      ++ record {
        previous_output = outpoint;
        is_pegin = false;
        has_issuance = false;
        script_sig = [];
        sequence = 0xffff_fffe;
        asset_issuance = none;
        witness = default_in_witness;
      }
        ∷ [];
}

-- The two results of `SliceRandom::shuffle` are arguments.
unfoldable pub scramble :
    (List TxIn → List TxIn) → (List TxOut → List TxOut) → Transaction → Transaction
scramble shuffle_in shuffle_out tx = record tx {
  input = shuffle_in tx.input;
  output = shuffle_out tx.output;
}

unfoldable pub add_fee_output : Transaction → ℕ → Option Asset → Outcome Transaction
add_fee_output tx value policy_asset = do
  policy ← ok_or policy_asset (generic "Missing policy asset")
  ok (record tx {
    output = tx.output ++ record default_out { asset = policy; value = Value.explicit value } ∷ [];
  })

module _ (env : Env) where
  open env use {txid, to_hex, from_hex, script_pubkey}

  unfoldable pub add_output : Transaction → Address → ℕ → String → Outcome Transaction
  add_output tx address value asset_hex = do
    blinding_pubkey ← ok_or address.blinding_pubkey invalid_address
    asset_id ← from_hex asset_hex
    ok (record tx {
      output =
          tx.output
          ++ record {
            asset = Asset.explicit asset_id;
            value = Value.explicit value;
            nonce = Nonce.confidential blinding_pubkey;
            script_pubkey = script_pubkey address;
            witness = default_out_witness;
          }
            ∷ [];
    })

  unfoldable pub get_output_satoshi : Transaction → ℕ → Unblinded → Outcome ℕ
  get_output_satoshi tx vout all_unblinded = do
    secrets ← unwrap (get (record { txid = txid tx; vout = vout }) all_unblinded)
    ok secrets.value

  unfoldable pub get_output_asset : Transaction → ℕ → Unblinded → Option AssetId
  get_output_asset tx vout all_unblinded =
      elim (get (record { txid = txid tx; vout = vout }) all_unblinded) [
        | some unblinded ↦ some unblinded.asset
        | none ↦ none
      ]

  unfoldable pub get_output_asset_hex : Transaction → ℕ → Unblinded → Option String
  unfolding get_output_asset
  get_output_asset_hex tx vout all_unblinded = elim (get_output_asset tx vout all_unblinded) [
    | none ↦ none
    | some a ↦ some (to_hex a)
  ]

  unfoldable pub get_previous_output_value : Txs → OutPoint → Unblinded → Outcome (Option ℕ)
  unfolding get_output_satoshi
  get_previous_output_value txs outpoint all_unblinded = elim (get outpoint.txid txs) [
    | none ↦ ok none
    | some tx ↦ get_output_satoshi tx outpoint.vout all_unblinded >>= λ v. ok (some v)
  ]

  unfoldable pub get_previous_output_asset : Txs → OutPoint → Unblinded → Outcome (Option AssetId)
  unfolding get_output_asset
  get_previous_output_asset txs outpoint all_unblinded = elim (get outpoint.txid txs) [
    | none ↦ ok none
    | some tx ↦ unwrap (get_output_asset tx outpoint.vout all_unblinded) >>= λ a. ok (some a)
  ]

  -- The first statement of the source computes the asset and drops it; it can only panic.
  unfoldable pub get_previous_output_asset_hex :
      Txs → OutPoint → Unblinded → Outcome (Option String)
  unfolding get_previous_output_asset get_output_asset_hex
  get_previous_output_asset_hex txs outpoint all_unblinded = do
    _ ← get_previous_output_asset txs outpoint all_unblinded
    elim (get outpoint.txid txs) [
      | none ↦ ok none
      | some tx ↦ unwrap (get_output_asset_hex tx outpoint.vout all_unblinded) >>= λ a. ok (some a)
    ]

  -- The asset and the value of the output that an input spends, as the loops of `needs` and
  -- `changes` read them.
  unfoldable pub input_amount : Txs → Unblinded → TxIn → Outcome (ℕ × ℕ)
  unfolding get_previous_output_asset get_previous_output_value
  input_amount all_txs unblinded input = do
    asset ← get_previous_output_asset all_txs input.previous_output unblinded
    asset' ← unwrap asset
    value ← get_previous_output_value all_txs input.previous_output unblinded
    value' ← unwrap value
    ok (asset', value')

explicit_amount : Asset → Value → Outcome (ℕ × ℕ)
explicit_amount (Asset.explicit asset) (Value.explicit value) = ok (asset, value)
explicit_amount _ _ = Outcome.panic

-- `match (output.asset, output.value)`, with the panic of its last case.
unfoldable pub output_amount : TxOut → Outcome (ℕ × ℕ)
unfolding explicit_amount
output_amount output = explicit_amount output.asset output.value
