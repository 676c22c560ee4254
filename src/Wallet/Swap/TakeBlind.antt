-- ===== src/Wallet/Swap/TakeBlind.antt =====
-- src/interface.rs: `liquidex_take_blind`, which blinds the outputs of a swap: the maker's gets its
-- proofs, and each of the others is blinded, but the fee.
pub mod Outputs
pub mod Kept
use bewallet.Common.{
  ℕ, zero, suc, ◌+◌, ◌%◌, Bool, true, false, Option, none, some, List, [], ◌∷◌, ◌++◌, length, take,
  map, drop, get_last?, ltb, nat_beq, if◌then◌else◌, nat_eq,
}
use bewallet.Error.{generic}
use bewallet.Outcome.{Outcome, ok, panic, ◌>>=◌, ◌>>◌, fail_if, ok_or, unwrap, traverse}
use bewallet.Word.{sub_u64}
use bewallet.Word.Bytes.{Bytes, copy_from_slice, slice_to}
use bewallet.Map.{get}
use bewallet.Elements.{
  Env, AssetId, Asset, Value, Nonce, Script, TxIn, TxOut, TxOutSecrets, Transaction, outpoint_eq,
}
use bewallet.Transaction.{Unblinded}
use bewallet.Blinders.{derive_blinder}
use bewallet.Liquidex.{Zkp, enumerate}
use bewallet.Liquidex.Blind.{Cipher}
use bewallet.Wallet.Swap.Proofs.{CommitmentSecrets, Domain, Prover, prove_maker, blind_explicit}

-- The secrets that the loop over the inputs collects.
unfoldable pub input_secret : TxOutSecrets → Unblinded → ℕ × TxIn → Outcome TxOutSecrets
input_secret maker_input unblinded (idx, input) =
    if nat_beq idx 0
    then ok maker_input
    else ok_or (get input.previous_output unblinded) (generic "cannot find unblinded values")

abbrev pub to_secrets : TxOutSecrets → CommitmentSecrets
to_secrets u = record { value = u.value; value_blinder = u.value_bf; asset_blinder = u.asset_bf }

-- What the loop over the outputs shares.
pub record Round : Type 0 where
  pub env : Env
  pub z : Zkp
  pub c : Cipher
  pub p : Prover
  pub master_blinding : Bytes
  pub maker_output : TxOutSecrets
  pub out_num : ℕ
  pub hash_prevouts : Bytes
  pub domain : Domain
  pub in_secrets : List CommitmentSecrets

-- The match on the index, the value, the asset and the nonce.
unfoldable pub blind_unless_fee :
    Round
    → ℕ
    → Value
    → Asset
    → Nonce
    → List CommitmentSecrets
    → TxOut
    → Outcome (TxOut × List CommitmentSecrets)
unfolding prove_maker blind_explicit
blind_unless_fee r zero (Value.confidential _) (Asset.confidential _) (Nonce.confidential pk)
      out_secrets output =
    prove_maker r.env r.z r.c r.p r.master_blinding r.domain r.maker_output pk out_secrets output
blind_unless_fee r i (Value.explicit value) (Asset.explicit asset) (Nonce.confidential pk)
      out_secrets output =
    blind_explicit r.env r.z r.c r.p r.master_blinding i r.out_num r.hash_prevouts r.domain
      r.in_secrets out_secrets asset value pk output
blind_unless_fee r i _ _ _ out_secrets output = panic

unfoldable pub blind_step :
    Round → ℕ → List CommitmentSecrets → TxOut → Outcome (TxOut × List CommitmentSecrets)
unfolding blind_unless_fee
blind_step r i out_secrets output =
    let blinded = blind_unless_fee r i output.value output.asset output.nonce out_secrets output in
    if r.env.is_fee output then ok (output, out_secrets) else blinded

-- The loop over the outputs, from the index given on.
unfoldable pub blind_loop : Round → ℕ → List CommitmentSecrets → List TxOut → Outcome (List TxOut)
unfolding blind_step
blind_loop r i out_secrets [] = ok []
blind_loop r i out_secrets (output ∷ outputs) = do
  (blinded, out_secrets') ← blind_step r i out_secrets output
  rest ← blind_loop r (i + 1) out_secrets' outputs
  ok (blinded ∷ rest)

module _ (env : Env) (z : Zkp) (c : Cipher) (p : Prover) (master_blinding : Bytes) where
  -- What is fixed before the loop over the outputs.
  abbrev pub round_of : TxOutSecrets → List TxOutSecrets → Transaction → Round
  round_of maker_output secrets tx = record {
    env = env;
    z = z;
    c = c;
    p = p;
    master_blinding = master_blinding;
    maker_output = maker_output;
    out_num = length tx.output;
    hash_prevouts = p.hash_prevouts tx;
    domain =
        map (λ (u : TxOutSecrets). (z.new_blinded u.asset u.asset_bf, u.asset, u.asset_bf)) secrets;
    in_secrets = map to_secrets secrets;
  }

  unfoldable pub liquidex_take_blind :
      TxOutSecrets → TxOutSecrets → Unblinded → Transaction → Outcome Transaction
  unfolding input_secret blind_loop
  liquidex_take_blind maker_input maker_output unblinded tx = do
    secrets ← traverse (input_secret maker_input unblinded) (enumerate 0 tx.input)
    outputs ← blind_loop (round_of maker_output secrets tx) 0 [] tx.output
    ok (record tx { output = outputs })
