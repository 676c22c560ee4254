-- ===== src/Transaction/Fee/Known.antt =====
-- src/transaction.rs: the fee functions where the inputs are known.
use bewallet.Common.{
  ℕ, zero, suc, ◌≡◌, refl, some, List, [], ◌∷◌, arith, nat_eq, String, replicate, is_empty, map,
  length, ◌%◌, if◌then◌else◌, string_eq,
}
use bewallet.Outcome.{ok, traverse, traverse-cons}
use bewallet.Map.{set_insert}
use bewallet.Elements.{Env, TxIn, TxOut, Transaction, outpoint_eq}
use bewallet.Transaction.{
  Txs, Unblinded, input_amount, get_previous_output_asset_hex, get_previous_output_value,
}
use bewallet.Transaction.Fee.{
  estimated_fee, estimated_changes, input_assets, mock_changes, mock_change, fee_of_dummy,
  previous_values,
}

-- The bytes of the mocks are a generator, a commitment and a key: `from_slice` accepts them.
pub record MocksParse (env : Env) : Type 0 where
  pub generator : ℕ
  pub generator_parses : env.generator_from_slice (10 ∷ replicate 32 2) ≡ some generator
  pub commitment : ℕ
  pub commitment_parses : env.commitment_from_slice (8 ∷ replicate 32 2) ≡ some commitment
  pub pubkey : ℕ
  pub pubkey_parses : env.pubkey_from_slice (replicate 33 2) ≡ some pubkey

module _ (env : Env) where
  mock_changes_total : MocksParse env → (n : ℕ) → (r : List TxOut) × (mock_changes env n ≡ ok r)
  unfolding mock_changes
  mock_changes_total p zero = ([], refl)
  mock_changes_total p (suc n) =
      let (rest, run) = mock_changes_total p n in
      (
        mock_change env p.generator p.commitment p.pubkey ∷ rest,
        rw (p.generator_parses, p.commitment_parses, p.pubkey_parses, run),
      )

  pub estimated_fee_total :
      MocksParse env
      → (tx : Transaction) (rate n : ℕ) → (fee : ℕ) × (estimated_fee env tx rate n ≡ ok fee)
  unfolding estimated_fee
  estimated_fee_total p tx rate n =
      let (changes, run) = mock_changes_total p n in (fee_of_dummy env tx rate changes, rw run)

  -- An input whose amount is known has its asset known in hexadecimal too.
  hex_known :
      (txs : Txs) (unblinded : Unblinded) (i : TxIn) (e : ℕ × ℕ)
      → input_amount env txs unblinded i ≡ ok e
      → get_previous_output_asset_hex env txs i.previous_output unblinded
        ≡ ok (some (env.to_hex e.0))
  unfolding input_amount get_previous_output_asset_hex
  hex_known txs unblinded i e h = ground arith

  input_assets_total :
      (inputs : List TxIn) (txs : Txs) (unblinded : Unblinded) (ins : List (ℕ × ℕ))
      (seen : List String)
      → traverse (input_amount env txs unblinded) inputs ≡ ok ins
      → (r : List String) × (input_assets env inputs txs unblinded seen ≡ ok r)
  unfolding input_assets
  input_assets_total [] txs unblinded ins seen h = (seen, refl)
  input_assets_total (i ∷ inputs) txs unblinded ins seen h =
      let (e, es, here, rest, _) = traverse-cons (input_amount env txs unblinded) i inputs h in
      let (r, run) =
        input_assets_total inputs txs unblinded es (set_insert (env.to_hex e.0) seen) rest in
      (r, rw (hex_known txs unblinded i e here) run)

  -- The count of changes is known where every spent output is.
  pub estimated_changes_total :
      (tx : Transaction) (txs : Txs) (unblinded : Unblinded) (ins : List (ℕ × ℕ))
      → traverse (input_amount env txs unblinded) tx.input ≡ ok ins
      → (n : ℕ) × (estimated_changes env tx txs unblinded ≡ ok n)
  unfolding estimated_changes
  estimated_changes_total tx txs unblinded ins h =
      let (r, run) = input_assets_total tx.input txs unblinded ins [] h in
      (if is_empty r then 0 else length r % 256, rw run)

  -- An input whose amount is known gives its value.
  value_known :
      (txs : Txs) (unblinded : Unblinded) (i : TxIn) (e : ℕ × ℕ)
      → input_amount env txs unblinded i ≡ ok e
      → get_previous_output_value env txs i.previous_output unblinded ≡ ok (some e.1)
  unfolding input_amount get_previous_output_value
  value_known txs unblinded i e h = ground arith

  pub previous_values-amounts :
      (inputs : List TxIn) (txs : Txs) (unblinded : Unblinded) (ins : List (ℕ × ℕ))
      → traverse (input_amount env txs unblinded) inputs ≡ ok ins
      → previous_values env inputs txs unblinded ≡ ok (map (λ e. e.1) ins)
  unfolding previous_values
  previous_values-amounts [] txs unblinded ins h = ground arith
  previous_values-amounts (i ∷ inputs) txs unblinded ins h =
      let (e, es, here, rest, same) = traverse-cons (input_amount env txs unblinded) i inputs h in
      rw (
        value_known txs unblinded i e here,
        previous_values-amounts inputs txs unblinded es rest,
        same,
      )
