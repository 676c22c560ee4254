-- ===== src/Transaction/Fee/Exact.antt =====
-- src/transaction.rs: what `fee` returns.
use bewallet.Common.{
  ℕ, ◌≡◌, refl, ◌<◌, ◌-◌, ◌≤◌, true, false, Option, some, List, [], ◌∷◌, ◌++◌, arith, map, ap, ◌∙◌,
  filter, any, ◌≢◌, nat_beq_iff,
}
use bewallet.Outcome.{ok, ◌>>=◌, traverse, traverse-cons}
use bewallet.Word.{u64_mod, sub_u64_fits}
use bewallet.Amounts.{sum}
use bewallet.Amounts.Laws.{sum_u64_lem}
use bewallet.Amounts.Sums.{values}
use bewallet.Elements.{Env, TxOut, Transaction, Asset, Value, default_out, asset_eq, AssetId}
use bewallet.Transaction.{Txs, Unblinded, input_amount, output_amount, add_fee_output}
use bewallet.Transaction.Fee.{fee}
use bewallet.Transaction.Fee.Known.{previous_values-amounts}

-- What `elements` documents of an output: the minimum of an explicit value is the value, and an
-- output is a fee if its asset and value are explicit and its script is empty.
pub record TxOutLaws (env : Env) : Type 0 where
  pub explicit_minimum : (o : TxOut) (v : ℕ) → o.value ≡ Value.explicit v → env.minimum_value o ≡ v
  pub fee_form :
      (a v : ℕ)
      → env.is_fee (record default_out { asset = Asset.explicit a; value = Value.explicit v })
        ≡ true
  pub with_script : (o : TxOut) → o.script_pubkey ≢ [] → env.is_fee o ≡ false

explicit_value : (o : TxOut) (e : ℕ × ℕ) → output_amount o ≡ ok e → o.value ≡ Value.explicit e.1
unfolding output_amount
explicit_value o e h = ground arith

module _ (env : Env) (laws : TxOutLaws env) where
  minimum-amounts :
      (outputs : List TxOut) (outs : List (ℕ × ℕ))
      → traverse output_amount outputs ≡ ok outs
      → map env.minimum_value outputs ≡ values outs
  minimum-amounts [] outs h = ground arith
  minimum-amounts (o ∷ outputs) outs h =
      let (e, es, here, rest, same) = traverse-cons output_amount o outputs h in
      rw same (
        ground (
          arith,
          explicit_value o e here,
          laws.explicit_minimum o e.1,
          minimum-amounts outputs es rest,
        ))

  no_fee_filter :
      (outputs : List TxOut) → any env.is_fee outputs ≡ false → filter env.is_fee outputs ≡ []
  no_fee_filter [] h = refl
  no_fee_filter (o ∷ outputs) h = ground (arith, no_fee_filter outputs)

  no_fee_filter-append :
      (outputs : List TxOut) (o : TxOut)
      → any env.is_fee outputs ≡ false
      → env.is_fee o ≡ true
      → (any env.is_fee (outputs ++ o ∷ []) ≡ true)
        × (filter env.is_fee (outputs ++ o ∷ []) ≡ o ∷ [])
  no_fee_filter-append [] o h k = ground arith
  no_fee_filter-append (x ∷ outputs) o h k = ground (arith, no_fee_filter-append outputs o)

  -- Without a fee output, where every output is explicit and every spent output known, the sums
  -- fit a `u64` and the inputs cover the outputs, the fee is what the inputs have over the outputs,
  -- all assets together.
  pub fee-implicit :
      (tx : Transaction) (all_txs : Txs) (unblinded : Unblinded) (policy_asset : Option Asset)
      (outs ins : List (ℕ × ℕ))
      → any env.is_fee tx.output ≡ false
      → traverse output_amount tx.output ≡ ok outs
      → traverse (input_amount env all_txs unblinded) tx.input ≡ ok ins
      → sum (values ins) < u64_mod
      → sum (values outs) ≤ sum (values ins)
      → fee env tx all_txs unblinded policy_asset ≡ ok (sum (values ins) - sum (values outs))
  unfolding fee
  fee-implicit tx all_txs unblinded policy_asset outs ins no_fee outs_known ins_known fits covers =
      rw
        (
          no_fee,
          minimum-amounts tx.output outs outs_known,
          sum_u64_lem env.build 0 (values outs) (omega arith),
          previous_values-amounts env tx.input all_txs unblinded ins ins_known,
          sum_u64_lem env.build 0 (values ins) (omega arith),
        )
        (sub_u64_fits env.build _ _ (omega arith) (omega arith) ∙ ap ok (omega arith))

  -- The fee of a transaction without a fee output to which `add_fee_output` has added a fee that
  -- fits a `u64` is that fee.
  pub fee-add_fee_output :
      (tx : Transaction) (all_txs : Txs) (unblinded : Unblinded) (policy_asset : AssetId)
      (value : ℕ)
      → any env.is_fee tx.output ≡ false
      → value < u64_mod
      → (add_fee_output tx value (some (Asset.explicit policy_asset)) >>= λ tx'.
          fee env tx' all_txs unblinded (some (Asset.explicit policy_asset)))
        ≡ ok value
  unfolding fee add_fee_output sum
  fee-add_fee_output tx all_txs unblinded policy_asset value no_fee fits =
      let o = record default_out {
        asset = Asset.explicit policy_asset;
        value = Value.explicit value;
      } in
      let (has_fee, only) =
        no_fee_filter-append tx.output o no_fee (laws.fee_form policy_asset value) in
      rw
        (
          has_fee,
          only,
          (nat_beq_iff policy_asset policy_asset).1 refl,
          laws.explicit_minimum o value refl,
        )
        (sum_u64_lem env.build 0 (value ∷ []) (omega arith) ∙ ap ok (omega arith))
