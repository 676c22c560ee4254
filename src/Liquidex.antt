-- ===== src/Liquidex.antt =====
-- src/liquidex.rs: swap proposals, and what the taker of one has to add.
pub mod Blind
pub mod Exact
pub mod Committed
use bewallet.Common.{
  ℕ, zero, suc, ◌+◌, ◌%◌, Bool, true, false, not, ◌&&◌, ◌||◌, Option, none, some, List, [], ◌∷◌,
  any, length, get_elem?, String, if◌then◌else◌, nat_eq, nat_beq,
}
use bewallet.Error.{generic}
use bewallet.Outcome.{Outcome, ok, err, ◌>>=◌, ◌>>◌, fail_if, assert, unwrap}
use bewallet.Word.{Build, sub_u64}
use bewallet.Map.{Amounts, Iteration, get}
use bewallet.Amounts.{accumulate}
use bewallet.Elements.{
  Env, F64, AssetId, Asset, Value, TxIn, TxOut, TxOutSecrets, Transaction, outpoint_eq,
}
use bewallet.Transaction.{Unblinded, output_amount}
use bewallet.Transaction.Fee.{estimated_fee}
use bewallet.Transaction.Needs.{missing_amounts}
use bewallet.Transaction.Changes.{change_amounts}

-- `TxOutSecrets` under other names.
pub record LiquidexTxOutSecrets : Type 0 where
  pub asset : AssetId
  pub asset_blinder : ℕ
  pub amount : ℕ
  pub amount_blinder : ℕ

unfoldable pub to_txoutsecrets : LiquidexTxOutSecrets → TxOutSecrets
to_txoutsecrets l = record {
  asset = l.asset;
  asset_bf = l.asset_blinder;
  value = l.amount;
  value_bf = l.amount_blinder;
}

unfoldable pub from_txoutsecrets : TxOutSecrets → LiquidexTxOutSecrets
from_txoutsecrets t = record {
  asset = t.asset;
  asset_blinder = t.asset_bf;
  amount = t.value;
  amount_blinder = t.value_bf;
}

pub record LiquidexProposal : Type 0 where
  pub version : ℕ
  pub tx : String
  pub inputs : List LiquidexTxOutSecrets
  pub outputs : List LiquidexTxOutSecrets

-- The encoding of transactions as text, `Generator::new_blinded` and `PedersenCommitment::new`.
pub record Zkp : Type 0 where
  pub tx_to_hex : Transaction → String
  pub tx_from_hex : String → Outcome Transaction
  pub new_blinded : AssetId → ℕ → ℕ
  pub commitment : ℕ → ℕ → ℕ → ℕ

module _ (z : Zkp) where
  unfoldable pub proposal_new : Transaction → TxOutSecrets → TxOutSecrets → LiquidexProposal
  unfolding from_txoutsecrets
  proposal_new tx input output = record {
    version = 0;
    tx = z.tx_to_hex tx;
    inputs = from_txoutsecrets input ∷ [];
    outputs = from_txoutsecrets output ∷ [];
  }

  unfoldable pub transaction : LiquidexProposal → Outcome Transaction
  transaction p = z.tx_from_hex p.tx

  -- The commitments of an output that is blinded.
  unfoldable pub commitments : Asset → Value → Outcome (ℕ × ℕ)
  commitments (Asset.confidential generator) (Value.confidential pedersen) =
      ok (generator, pedersen)
  commitments _ _ = err (generic "LiquiDEX error unexpected outputs")

  unfoldable pub verify_output_commitment : LiquidexProposal → Outcome TxOutSecrets
  unfolding transaction commitments to_txoutsecrets
  verify_output_commitment p = do
    tx ← transaction p
    fail_if
        (not (nat_beq (length tx.input) 1)
          || not (nat_beq (length tx.output) 1)
          || not (nat_beq (length p.inputs) 1)
          || not (nat_beq (length p.outputs) 1))
        (generic "LiquiDEX error")
    stated ← unwrap (get_elem? p.outputs 0)
    let output = to_txoutsecrets stated
    out ← unwrap (get_elem? tx.output 0)
    (tx_asset_generator, tx_value_commitment) ← commitments out.asset out.value
    let asset_generator = z.new_blinded output.asset output.asset_bf
    let value_commitment = z.commitment output.value output.value_bf asset_generator
    fail_if
        (not (nat_beq asset_generator tx_asset_generator)
          || not (nat_beq value_commitment tx_value_commitment))
        (generic "LiquiDEX error unexpected commitments")
    ok output

unfoldable pub get_input : LiquidexProposal → Outcome TxOutSecrets
unfolding to_txoutsecrets
get_input p = do
  fail_if (not (nat_beq (length p.inputs) 1)) (generic "LiquiDEX error unexpected inputs")
  input ← unwrap (get_elem? p.inputs 0)
  ok (to_txoutsecrets input)

abbrev pub enumerate {ℓ} : {A : Type ℓ} → ℕ → List A → List (ℕ × A)
enumerate i [] = []
enumerate i (x ∷ xs) = (i, x) ∷ enumerate (i + 1) xs

-- The first output and the first input are the maker's, whose secrets the proposal states.
unfoldable pub taken_output : TxOutSecrets → ℕ × TxOut → Outcome (ℕ × ℕ)
taken_output maker_output (idx, output) =
    if nat_beq idx 0 then ok (maker_output.asset, maker_output.value) else output_amount output

unfoldable pub taken_input : TxOutSecrets → Unblinded → ℕ × TxIn → Outcome (ℕ × ℕ)
taken_input maker_input unblinded (idx, input) =
    let known = (do
      secrets ← unwrap (get input.previous_output unblinded)
      ok (secrets.asset, secrets.value)) in
    if nat_beq idx 0 then ok (maker_input.asset, maker_input.value) else known

module _ (b : Build) where
  unfoldable pub outputs : TxOutSecrets → Transaction → Outcome Amounts
  unfolding taken_output
  outputs maker_output tx = accumulate b (taken_output maker_output) (enumerate 0 tx.output) []

  unfoldable pub inputs : TxOutSecrets → Transaction → Unblinded → Outcome Amounts
  unfolding taken_input
  inputs maker_input tx unblinded =
      accumulate b (taken_input maker_input unblinded) (enumerate 0 tx.input) []

module _ (env : Env) (maker_input maker_output : TxOutSecrets) (tx : Transaction)
    (unblinded : Unblinded) where
  unfoldable pub liquidex_estimated_changes : Outcome ℕ
  unfolding inputs
  liquidex_estimated_changes = do i ← inputs env.build maker_input tx unblinded; ok (length i % 256)

  unfoldable pub liquidex_needs : Iteration → F64 → AssetId → Outcome (List (AssetId × ℕ))
  unfolding outputs inputs liquidex_estimated_changes
  liquidex_needs iteration fee_rate policy_asset = do
    o ← outputs env.build maker_output tx
    i ← inputs env.build maker_input tx unblinded
    more_changes ← liquidex_estimated_changes
    fee ← estimated_fee env tx fee_rate more_changes
    missing_amounts env.build iteration policy_asset fee o i

  unfoldable pub liquidex_changes : Iteration → ℕ → AssetId → Outcome Amounts
  unfolding outputs inputs
  liquidex_changes iteration estimated_fee policy_asset = do
    o ← outputs env.build maker_output tx
    i ← inputs env.build maker_input tx unblinded
    change_amounts env.build iteration policy_asset estimated_fee i o

  unfoldable pub liquidex_fee : AssetId → Outcome ℕ
  unfolding outputs inputs
  liquidex_fee policy_asset = do
    assert (not (any env.is_fee tx.output))
    o ← outputs env.build maker_output tx
    i ← inputs env.build maker_input tx unblinded
    in_policy ← unwrap (get policy_asset i)
    out_policy ← unwrap (get policy_asset o)
    sub_u64 env.build in_policy out_policy
