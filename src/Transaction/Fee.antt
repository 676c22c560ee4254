-- ===== src/Transaction/Fee.antt =====
-- src/transaction.rs: `estimated_fee`, `estimated_changes` and `fee`.
pub mod Known
pub mod Exact
use bewallet.Common.{
  ℕ, zero, suc, ◌+◌, ◌*◌, ◌%◌, ◌≡◌, Bool, true, false, ◌&&◌, Option, none, some, List, [], ◌∷◌,
  ◌++◌, map, String, length, replicate, is_empty, filter, any, if◌then◌else◌, ◌==◌, string_eq,
}
use bewallet.Error.{generic}
use bewallet.Outcome.{Outcome, ok, ◌>>=◌, ok_or, unwrap}
use bewallet.Word.{sub_u64}
use bewallet.Map.{set_insert}
use bewallet.Amounts.{sum_u64}
use bewallet.Elements.{
  Env, F64, Asset, Value, Nonce, TxIn, TxOut, Transaction, TxInWitness, default_in_witness,
  default_out_witness, default_out, asset_eq,
}
use bewallet.Transaction.{
  Txs, Unblinded, default_surjectionproof_size, default_rangeproof_size, get_previous_output_value,
  get_previous_output_asset_hex,
}

module _ (env : Env) where
  open env use {
    build, get_weight, is_fee, minimum_value, witness_is_empty, generator_from_slice,
    commitment_from_slice, pubkey_from_slice, f64, f64_of_u64, f64_mul, f64_div, f64_to_u64,
  }

  mock_generator : Outcome ℕ
  mock_generator = unwrap (generator_from_slice (10 ∷ replicate 32 2))

  mock_pedersen_commitment : Outcome ℕ
  mock_pedersen_commitment = unwrap (commitment_from_slice (8 ∷ replicate 32 2))

  mock_pubkey : Outcome ℕ
  mock_pubkey = unwrap (pubkey_from_slice (replicate 33 2))

  -- A signature of 72 bytes and a key of 33, and the redeem script of 23.
  mock_signature : TxIn → TxIn
  mock_signature input =
      if witness_is_empty input.witness && is_empty input.script_sig
      then record input {
        witness = record default_in_witness {
          script_witness = replicate 72 0 ∷ replicate 33 0 ∷ [];
        };
        script_sig = replicate 23 0;
      }
      else input

  mock_change : ℕ → ℕ → ℕ → TxOut
  mock_change generator commitment pubkey = record default_out {
    asset = Asset.confidential generator;
    value = Value.confidential commitment;
    nonce = Nonce.confidential pubkey;
    script_pubkey = replicate 23 0;
  }

  -- The three mocks are called for each change output. Where there is none, none is called.
  mock_changes : ℕ → Outcome (List TxOut)
  unfolding mock_change mock_generator mock_pedersen_commitment mock_pubkey
  mock_changes zero = ok []
  mock_changes (suc n) = do
    generator ← mock_generator
    commitment ← mock_pedersen_commitment
    pubkey ← mock_pubkey
    rest ← mock_changes n
    ok (mock_change generator commitment pubkey ∷ rest)

  -- `usize` products of a length and a constant do not overflow for lists that fit in memory.
  fee_of_dummy : Transaction → F64 → List TxOut → ℕ
  unfolding mock_signature
  fee_of_dummy tx fee_rate changes =
      let outputs = tx.output ++ changes in
      let proofs_size = (default_surjectionproof_size + default_rangeproof_size) * length outputs in
      let dummy = record tx {
        input = map mock_signature tx.input;
        output = outputs ++ default_out ∷ [];
      } in
      let vbytes = f64_div (f64_of_u64 (get_weight dummy + proofs_size)) (f64 "4.0") in
      f64_to_u64 (f64_mul (f64_mul vbytes fee_rate) (f64 "1.03"))

  unfoldable pub estimated_fee : Transaction → F64 → ℕ → Outcome ℕ
  unfolding mock_changes fee_of_dummy
  estimated_fee tx fee_rate more_changes = do
    changes ← mock_changes more_changes
    ok (fee_of_dummy tx fee_rate changes)

  input_assets : List TxIn → Txs → Unblinded → List String → Outcome (List String)
  input_assets [] all_txs unblinded different_assets = ok different_assets
  input_assets (input ∷ inputs) all_txs unblinded different_assets = do
    hex ← get_previous_output_asset_hex env all_txs input.previous_output unblinded
    asset_hex ← unwrap hex
    input_assets inputs all_txs unblinded (set_insert asset_hex different_assets)

  -- The length as a `u8`: it wraps at 256 assets.
  unfoldable pub estimated_changes : Transaction → Txs → Unblinded → Outcome ℕ
  unfolding input_assets
  estimated_changes tx all_txs unblinded = do
    different_assets ← input_assets tx.input all_txs unblinded []
    ok (if is_empty different_assets then 0 else length different_assets % 256)

  -- `filter_map` keeps the values of the inputs whose transaction is known.
  pub previous_values : List TxIn → Txs → Unblinded → Outcome (List ℕ)
  previous_values [] all_txs all_unblinded = ok []
  previous_values (i ∷ inputs) all_txs all_unblinded = do
    value ← get_previous_output_value env all_txs i.previous_output all_unblinded
    rest ← previous_values inputs all_txs all_unblinded
    ok (elim value [ none ↦ rest | some v ↦ v ∷ rest ])

  explicit_fee : Transaction → Option Asset → Outcome ℕ
  explicit_fee tx policy_asset = do
    policy ← ok_or policy_asset (generic "Missing policy asset")
    sum_u64 build 0
        (map minimum_value (filter (λ (o : TxOut). policy == o.asset) (filter is_fee tx.output)))

  implicit_fee : Transaction → Txs → Unblinded → Outcome ℕ
  unfolding previous_values
  implicit_fee tx all_txs all_unblinded = do
    sum_outputs ← sum_u64 build 0 (map minimum_value tx.output)
    values ← previous_values tx.input all_txs all_unblinded
    sum_inputs ← sum_u64 build 0 values
    sub_u64 build sum_inputs sum_outputs

  unfoldable pub fee : Transaction → Txs → Unblinded → Option Asset → Outcome ℕ
  unfolding explicit_fee implicit_fee
  fee tx all_txs all_unblinded policy_asset =
      if any is_fee tx.output
      then explicit_fee tx policy_asset
      else implicit_fee tx all_txs all_unblinded
