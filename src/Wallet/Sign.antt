-- ===== src/Wallet/Sign.antt =====
-- src/interface.rs: signing and blinding. Keys, hashes, signatures and the blinding of the crate
-- are arguments.
pub mod Unsigned
use bewallet.Common.{
  ℕ, zero, suc, ◌+◌, ◌-◌, Option, none, some, List, [], ◌∷◌, ◌++◌, length, get_elem?, set, map,
  nat_eq, bytes_eq,
}
use bewallet.Error.{generic}
use bewallet.Outcome.{Outcome, ok, ◌>>=◌, ok_or, unwrap, traverse}
use bewallet.Map.{get}
use bewallet.Elements.{Script, Value, TxIn, TxOut, TxOutSecrets, Transaction, outpoint_eq}
use bewallet.Store.{StoreMeta, DerivationPath}

pub record Signer : Type 0 where
  -- `xprv.derive_priv(path).unwrap()`, the key itself
  pub derive_priv : DerivationPath → Outcome ℕ
  pub public_key : ℕ → ℕ
  pub p2pkh_script : ℕ → Script
  pub segwitv0_sighash : Transaction → ℕ → Script → Value → ℕ → List ℕ
  -- the signature in DER
  pub sign : List ℕ → ℕ → List ℕ
  pub p2shwpkh_script_sig : ℕ → Script
  pub key_bytes : ℕ → List ℕ
  -- the blinding of the PSET with the spent outputs and their secrets, where each output's
  -- blinding key is its nonce and its blinder the first input; and the transaction extracted
  pub blind_last : Transaction → List TxOut → List TxOutSecrets → Outcome Transaction

abbrev pub sighash_all : ℕ
sighash_all = 1

abbrev pub sighash_single_plus_anyone_can_pay : ℕ
sighash_single_plus_anyone_can_pay = 131

unfoldable pub or_all : Option ℕ → ℕ
or_all none = sighash_all
or_all (some t) = t

module _ (g : Signer) where
  unfoldable pub internal_sign_elements :
      Transaction → ℕ → DerivationPath → Value → Option ℕ → Outcome (Script × List (List ℕ))
  unfolding or_all
  internal_sign_elements tx input_index derivation_path value sighash_type = do
    private_key ← g.derive_priv derivation_path
    let public_key = g.public_key private_key
    let script_code = g.p2pkh_script public_key
    let message = g.segwitv0_sighash tx input_index script_code value (or_all sighash_type)
    let signature = g.sign message private_key ++ or_all sighash_type ∷ []
    ok (g.p2shwpkh_script_sig public_key, signature ∷ g.key_bytes public_key ∷ [])

-- The output that an input spends, and the path of its script.
unfoldable pub spent_output : StoreMeta → TxIn → Outcome (TxOut × DerivationPath)
spent_output s input = do
  prev_tx ← ok_or (get input.previous_output.txid s.cache.all_txs) (generic "expected tx")
  out ← unwrap (get_elem? prev_tx.output input.previous_output.vout)
  path ← ok_or (get out.script_pubkey s.cache.paths) (generic "can't find derivation path")
  ok (out, path)

unfoldable pub put_signature : TxIn → Script → List (List ℕ) → TxIn
put_signature input script_sig witness = record input {
  script_sig = script_sig;
  witness = record input.witness { script_witness = witness };
}

module _ (g : Signer) (s : StoreMeta) where
  unfoldable pub sign_input : ℕ → Option ℕ → Transaction → Outcome Transaction
  unfolding internal_sign_elements spent_output put_signature
  sign_input i sighash_type tx = do
    input ← unwrap (get_elem? tx.input i)
    (out, path) ← spent_output s input
    (script_sig, witness) ← internal_sign_elements g tx i path out.value sighash_type
    ok (record tx { input = set tx.input i (put_signature input script_sig witness) })

  -- `for i in 0..tx.input.len()`, with the rounds that are left.
  unfoldable pub sign_loop : ℕ → ℕ → Transaction → Outcome Transaction
  unfolding sign_input
  sign_loop zero i tx = ok tx
  sign_loop (suc n) i tx = do tx' ← sign_input i none tx; sign_loop n (i + 1) tx'

  blind_input : TxIn → Outcome (TxOut × TxOutSecrets)
  blind_input input = do
    unblinded ←
        ok_or (get input.previous_output s.cache.unblinded) (generic "cannot find unblinded values")
    prev_tx ← ok_or (get input.previous_output.txid s.cache.all_txs) (generic "expected tx")
    txout ← unwrap (get_elem? prev_tx.output input.previous_output.vout)
    ok (txout, unblinded)

  unfoldable pub blind_tx : Transaction → Outcome Transaction
  unfolding blind_input
  blind_tx tx = do
    spent ← traverse blind_input tx.input
    g.blind_last tx (map (λ (e : TxOut × TxOutSecrets). e.0) spent)
        (map (λ (e : TxOut × TxOutSecrets). e.1) spent)

  unfoldable pub sign_with_xprv : Transaction → Outcome Transaction
  unfolding blind_tx sign_loop
  sign_with_xprv tx = do blinded ← blind_tx tx; sign_loop (length blinded.input) 0 blinded

  -- `for i in 1..tx.input.len()`: the first input is the maker's, who has signed it.
  unfoldable pub liquidex_take_sign : Transaction → Outcome Transaction
  unfolding sign_loop
  liquidex_take_sign tx = sign_loop (length tx.input - 1) 1 tx
