-- ===== src/Tests/Blinding.antt =====
-- src/liquidex.rs, src/utils.rs and src/interface.rs: the blinding of the swap of Tests/Exchange.
use bewallet.Common.{
  ℕ, ◌+◌, ◌<◌, ◌^◌, ◌≡◌, refl, true, some, List, [], ◌∷◌, ◌++◌, get_elem?, In, inl, inr, arith,
  nat_eq, length, sym, subst, ◌∙◌,
}
use bewallet.Outcome.{panic, ok, ok_inj, traverse}
use bewallet.Map.{Amounts}
use bewallet.Amounts.{InRange, total, has}
use bewallet.Word.Bytes.{Bytes}
use bewallet.Elements.{Asset, Value, Nonce, Transaction, TxIn, TxOut}
use bewallet.Transaction.Fee.{estimated_fee}
use bewallet.Liquidex.{
  enumerate, taken_output, taken_input, liquidex_changes, liquidex_needs,
  liquidex_estimated_changes, verify_output_commitment,
}
use bewallet.Liquidex.Committed.{Commits}
use bewallet.Liquidex.Blind.{
  liquidex_blind, liquidex_unblind, liquidex_aes_nonce, candidate_key, liquidex_aes_key,
  liquidex_derive_asset_blinder,
}
use bewallet.Liquidex.Blind.Laws.{Derives, commit_to}
use bewallet.Liquidex.Blind.Blinded.{liquidex_blind-succeeds}
use bewallet.Liquidex.Blind.Recovered.{KeepsFirst, liquidex_unblind-liquidex_blind}
use bewallet.Liquidex.Blind.Opened.{liquidex_unblind-Commits}
use bewallet.Wallet.Swap.{take_fund, take_balance}
use bewallet.Wallet.Swap.TakeBlind.{liquidex_take_blind}
use bewallet.Wallet.Swap.TakeBlind.Kept.{Steps, liquidex_take_blind-Steps}
use bewallet.Wallet.Swap.TakenOuts.{TakenOuts}
use bewallet.Wallet.Swap.Balances.{Settles}
use bewallet.Wallet.Swap.Settled.{take_fund-Settles}
use bewallet.Tests.World.{env, env_laws, secrets, spend, pay, unblinded, in_order}
use bewallet.Tests.Wallets.{orders, key_laws}
use bewallet.Tests.Crates.{cipher, prover, laws}
use bewallet.Tests.Exchange.{
  zkp, swapper, offer, offer_in, offer_out, asked, final, given, taken_out, fee_out, proposal,
}

-- The offer before it is blinded.
abbrev plain_out : TxOut
plain_out = record offer_out {
  asset = Asset.explicit 1;
  value = Value.explicit 300;
  nonce = Nonce.confidential 7;
}

abbrev plain : Transaction
plain = record offer { input = spend 1 ∷ []; output = plain_out ∷ [] }

plain-Derives : Derives cipher (4 ∷ []) (spend 1).previous_output plain_out asked
unfolding bewallet.Liquidex.Blind.liquidex_derive_asset_blinder
    bewallet.Liquidex.Blind.liquidex_derive_value_blinder bewallet.Blinders.derive_blinder
plain-Derives = record { asset = refl; value = refl; asset_blinder = refl; value_blinder = refl }

plain-nonce :
    liquidex_aes_nonce cipher
      (4 ∷ [])
      (spend 1).previous_output
      (Asset.confidential 6)
      (Value.confidential 306)
      (1 ∷ [])
    ≡ ok (0 ∷ 0 ∷ 0 ∷ 0 ∷ 0 ∷ 0 ∷ 0 ∷ 0 ∷ 0 ∷ 0 ∷ 0 ∷ 0 ∷ [])
unfolding liquidex_aes_nonce
plain-nonce = refl

plain-key :
    candidate_key cipher
      (liquidex_aes_key cipher (4 ∷ []) (1 ∷ []))
      (0 ∷ 0 ∷ 0 ∷ 0 ∷ 0 ∷ 0 ∷ 0 ∷ 0 ∷ 0 ∷ 0 ∷ 0 ∷ 0 ∷ [])
      300
      (swapper.random 0)
    ≡ ok (some 0)
unfolding candidate_key bewallet.Word.Bytes.to_le_bytes
plain-key = refl

liquidex_blind-succeeds_example :
    liquidex_blind zkp cipher (4 ∷ []) swapper.random 1 plain
    ≡ ok (record plain { output = commit_to zkp asked 0 plain_out ∷ [] }, asked)
liquidex_blind-succeeds_example =
    liquidex_blind-succeeds zkp cipher laws (4 ∷ []) swapper.random 1 plain (spend 1) plain_out
      asked (0 ∷ 0 ∷ 0 ∷ 0 ∷ 0 ∷ 0 ∷ 0 ∷ 0 ∷ 0 ∷ 0 ∷ 0 ∷ 0 ∷ []) 0 0 refl refl plain-Derives
      plain-nonce (omega arith) (λ j h. absurd (omega (arith, h))) plain-key

plain-blinded :
    liquidex_blind zkp cipher (4 ∷ []) swapper.random 1 plain
    ≡ ok (record plain { output = offer_out ∷ [] }, asked)
unfolding liquidex_blind bewallet.Word.Bytes.to_le_bytes bewallet.Blinders.derive_blinder
plain-blinded = refl

final-KeepsFirst : KeepsFirst (record plain { output = offer_out ∷ [] }) final
final-KeepsFirst = record {
  input = offer_in;
  spent = spend 1;
  out = taken_out 6 306 0 1;
  made = offer_out;
  input_at = refl;
  spent_at = refl;
  out_at = refl;
  made_at = refl;
  outpoint = refl;
  output = refl;
}

liquidex_unblind-liquidex_blind_example :
    liquidex_unblind zkp cipher (4 ∷ []) final 0 (2 ∷ 1 ∷ []) ≡ ok asked
liquidex_unblind-liquidex_blind_example =
    liquidex_unblind-liquidex_blind zkp cipher laws (4 ∷ []) swapper.random 1 plain
      (record plain { output = offer_out ∷ [] }) final asked (2 ∷ 1 ∷ []) plain-blinded
      final-KeepsFirst (omega arith) (inr (inl refl)) (λ a h e. omega (arith, e))

final-unblinded : liquidex_unblind zkp cipher (4 ∷ []) final 0 (2 ∷ 1 ∷ []) ≡ ok asked
unfolding liquidex_unblind bewallet.Word.Bytes.from_le_bytes bewallet.Blinders.derive_blinder
final-unblinded = refl

liquidex_unblind-Commits_example :
    (out : TxOut) × (input : TxIn) × (get_elem? final.output 0 ≡ some out)
    × (get_elem? final.input 0 ≡ some input)
    × In asked.asset (2 ∷ 1 ∷ [])
    × Commits zkp out asked
    × (liquidex_derive_asset_blinder cipher (4 ∷ []) input.previous_output ≡ ok 5)
liquidex_unblind-Commits_example =
    liquidex_unblind-Commits zkp cipher laws (4 ∷ []) final 0 (2 ∷ 1 ∷ []) final-unblinded

-- The swap with its inputs and the taker's output.
abbrev funded : Transaction
funded = record offer { input = offer_in ∷ spend 0 ∷ []; output = offer_out ∷ pay 2 50 ∷ [] }

abbrev funded_outs : List (ℕ × ℕ)
funded_outs = (1, 300) ∷ (2, 50) ∷ []

abbrev funded_ins : List (ℕ × ℕ)
funded_ins = (2, 50) ∷ (1, 1000) ∷ []

funded_ins_known :
    traverse (taken_input (secrets 2 50) unblinded) (enumerate 0 funded.input) ≡ ok funded_ins
unfolding taken_input bewallet.Map.get
funded_ins_known = refl

funded_ins_fit : InRange funded_ins
unfolding total
funded_ins_fit a = ground arith

funded_outs_fit : InRange ((1, 17) ∷ funded_outs)
unfolding total
funded_outs_fit a = ground arith

funded_changes : liquidex_estimated_changes env (secrets 2 50) asked funded unblinded ≡ ok 2
unfolding liquidex_estimated_changes bewallet.Amounts.accumulate bewallet.Map.entry_add
    bewallet.Word.add_u64 bewallet.Map.get bewallet.Map.insert
funded_changes = refl

funded_fee : estimated_fee env funded 1 2 ≡ ok 17
unfolding estimated_fee
funded_fee = refl

funded_change :
    liquidex_changes env (secrets 2 50) asked funded unblinded in_order 17 1 ≡ ok ((1, 683) ∷ [])
unfolding liquidex_changes bewallet.Amounts.accumulate bewallet.Map.entry_add bewallet.Word.add_u64
    bewallet.Map.get bewallet.Map.insert bewallet.Transaction.output_amount
    bewallet.Transaction.Changes.change_amounts bewallet.Word.sub_u64
    bewallet.Transaction.Changes.add_change bewallet.Map.remove
funded_change = refl

funded_room :
    (change : Amounts)
    → liquidex_changes env (secrets 2 50) asked funded unblinded in_order 17 1 ≡ ok change
    → (0 + 0 + length change < 2 ^ 31) × (has 1 (funded_outs ++ change) ≡ true)
unfolding has
funded_room change h =
    subst (λ (c : Amounts). (0 + 0 + length c < 2 ^ 31) × (has 1 (funded_outs ++ c) ≡ true))
      (ok_inj (sym funded_change ∙ h)) (omega arith, refl)

-- The swap before the loop adds the coin of 1000.
abbrev taken_first : Transaction
taken_first = record funded { input = offer_in ∷ [] }

funded_by_loop : take_fund swapper (given 2) orders (secrets 2 50) asked taken_first ≡ ok funded
unfolding take_fund bewallet.Wallet.Coins.utxos bewallet.Map.get bewallet.Wallet.Funding.fund
    liquidex_needs bewallet.Amounts.accumulate bewallet.Map.entry_add bewallet.Word.add_u64
    bewallet.Transaction.output_amount bewallet.Map.insert estimated_fee
    bewallet.Transaction.Needs.missing_amounts bewallet.Map.remove bewallet.Common.Sort.sort_by
    bewallet.Map.contains bewallet.Store.spent bewallet.Transaction.add_input
funded_by_loop = refl

taken_first-TakenOuts : TakenOuts env asked taken_first funded_outs
unfolding taken_output bewallet.Transaction.output_amount
taken_first-TakenOuts = record { amounts = refl; no_fee = refl; has_maker = omega arith }

take_fund-Settles_example :
    (tx' : Transaction) × (take_balance swapper (given 2) orders (secrets 2 50) asked funded
      ≡ ok tx')
    × Settles swapper (given 2) (secrets 2 50) asked 17 tx'
take_fund-Settles_example =
    take_fund-Settles swapper (given 2) orders (secrets 2 50) asked taken_first funded funded_outs
      funded_ins 2 17 funded_by_loop key_laws env_laws taken_first-TakenOuts
      (omega arith, (omega arith, tt)) funded_ins_known funded_ins_fit (omega arith) funded_changes
      funded_fee funded_outs_fit funded_room

abbrev balanced : Transaction
balanced = record funded { output = offer_out ∷ pay 2 50 ∷ pay 1 683 ∷ fee_out ∷ [] }

abbrev blinded_pay : ℕ → ℕ → ℕ → TxOut
blinded_pay generator commitment key = taken_out generator commitment key 5

abbrev blinded : Transaction
blinded = record balanced {
  output = taken_out 6 306 0 1 ∷ blinded_pay 9 57 1 ∷ blinded_pay 8 692 2 ∷ fee_out ∷ [];
}

balanced-blinded :
    liquidex_take_blind env zkp cipher prover (4 ∷ []) (secrets 2 50) asked unblinded balanced
    ≡ ok blinded
unfolding liquidex_take_blind bewallet.Blinders.derive_blinder bewallet.Map.get
    bewallet.Word.sub_u64
balanced-blinded = refl

liquidex_take_blind-Steps_example :
    (blinded.input ≡ balanced.input)
    × Steps env zkp cipher (4 ∷ []) (1 ∷ []) 0 balanced.output blinded.output
liquidex_take_blind-Steps_example =
    liquidex_take_blind-Steps env zkp cipher laws prover (4 ∷ []) (secrets 2 50) asked unblinded
      balanced balanced-blinded

-- A proposal whose output has commitments and no key as its nonce is accepted, and the blinding
-- panics on it.
abbrev no_nonce : TxOut
no_nonce = record offer_out { nonce = Nonce.null }

no_nonce-accepted :
    verify_output_commitment
      (record zkp { tx_from_hex = λ s. ok (record offer { output = no_nonce ∷ [] }) })
      proposal
    ≡ ok asked
unfolding verify_output_commitment
no_nonce-accepted = refl

no_nonce-panics :
    liquidex_take_blind env zkp cipher prover
      (4 ∷ [])
      (secrets 2 50)
      asked
      unblinded
      (record balanced { output = no_nonce ∷ pay 2 50 ∷ pay 1 683 ∷ fee_out ∷ [] })
    ≡ panic
unfolding liquidex_take_blind bewallet.Map.get
no_nonce-panics = refl
