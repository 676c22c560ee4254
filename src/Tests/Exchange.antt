-- ===== src/Tests/Exchange.antt =====
-- src/interface.rs and src/liquidex.rs, at a wallet that offers its 50 of asset 2 for 300 of asset 1
-- and takes its own proposal.
use bewallet.Common.{
  ℕ, zero, suc, ◌+◌, ◌-◌, ◌≡◌, refl, ap, sym, subst, Bool, true, bytes_beq_iff, Option, none, some,
  List, [], ◌∷◌, ◌++◌, length, length-append, get_elem?, In, inl, inr, ◌∙◌, ◌<◌, ◌^◌, take,
  replicate, arith, bytes_eq, ◌==◌, if◌then◌else◌, String, false,
}
use bewallet.Outcome.{Outcome, ok, ok_inj}
use bewallet.Word.Bytes.{Bytes}
use bewallet.Elements.{
  Address, Asset, Value, Nonce, Transaction, F64, AssetId, TxIn, TxOut, TxOutSecrets,
  default_out_witness, default_out,
}
use bewallet.Store.{StoreMeta}
use bewallet.Blinders.{Mac}
use bewallet.Liquidex.{Zkp, LiquidexProposal, transaction, verify_output_commitment}
use bewallet.Liquidex.Blind.{Cipher, liquidex_unblind}
use bewallet.Wallet.Context.{derive_address}
use bewallet.Wallet.Mnemonic.{Bip39}
use bewallet.Wallet.Swap.{Swapper, LiquidexMakeOpt, liquidex_make, liquidex_take, make_signed}
use bewallet.Wallet.Swap.Maker.{Proposes, Parses, liquidex_make-Proposes}
use bewallet.Wallet.Swap.Taken.{liquidex_take-first}
use bewallet.Wallet.Swap.Recovered.{liquidex_unblind-liquidex_take}
use bewallet.Liquidex.Blind.Recovered.{KeepsFirst}
use bewallet.Tests.World.{env, secrets, hex_round_trip, point, spend}
use bewallet.Tests.Wallets.{wallet, orders, paths_store, signed}
use bewallet.Tests.Crates.{cipher, prover, bip39, laws}

-- The maker's transaction, as it is signed.
abbrev pub offer_in : TxIn
offer_in = record (spend 1) {
  script_sig = 2 ∷ [];
  witness = record { script_witness = (1 ∷ 131 ∷ []) ∷ (3 ∷ []) ∷ []; other = [] };
}

abbrev pub offer_out : TxOut
offer_out = record {
  asset = Asset.confidential 6;
  value = Value.confidential 306;
  nonce = Nonce.confidential 0;
  script_pubkey = 1 ∷ [];
  witness = default_out_witness;
}

abbrev pub offer : Transaction
offer = record { version = 2; lock_time = 0; input = offer_in ∷ []; output = offer_out ∷ [] }

abbrev pub asked : TxOutSecrets
asked = record { asset = 1; asset_bf = 5; value = 300; value_bf = 6 }

abbrev pub zkp : Zkp
zkp = record {
  tx_to_hex = λ t. "00";
  tx_from_hex = λ s. ok offer;
  new_blinded = λ a bf. a + bf;
  commitment = λ v bf g. v + bf;
}

abbrev pub swapper : Swapper
swapper = record {
  w = wallet;
  z = zkp;
  c = cipher;
  p = prover;
  b = bip39;
  master_blinding = 4 ∷ [];
  random = λ i. replicate 8 0;
  rounds = 1;
}

abbrev pub opt : LiquidexMakeOpt
opt = record { utxo = point 1; asset_id = 1; rate = 300000 }

abbrev pub proposal : LiquidexProposal
proposal = record {
  version = 0;
  tx = "00";
  inputs = record { asset = 2; asset_blinder = 0; amount = 50; amount_blinder = 0 } ∷ [];
  outputs = record { asset = 1; asset_blinder = 5; amount = 300; amount_blinder = 6 } ∷ [];
}

-- The store after one and after two addresses were given out.
abbrev pub given : ℕ → StoreMeta
given n = record paths_store {
  cache = record paths_store.cache { indexes = record { external = n; internal = 0 } };
}

made : liquidex_make swapper paths_store opt "words" ≡ ok (given 1, ok proposal)
unfolding liquidex_make bewallet.Wallet.Context.get_address bewallet.Word.add_u32 bewallet.Map.get
    bewallet.Transaction.add_output bewallet.Liquidex.Blind.liquidex_blind
    bewallet.Transaction.add_input bewallet.Blinders.derive_blinder bewallet.Word.Bytes.to_le_bytes
    bewallet.Wallet.Sign.spent_output bewallet.Wallet.Mnemonic.mnemonic2xprv
    bewallet.Wallet.Sign.internal_sign_elements bewallet.Liquidex.proposal_new
made = refl

abbrev pub taken_out : ℕ → ℕ → ℕ → ℕ → TxOut
taken_out generator commitment key script = record {
  asset = Asset.confidential generator;
  value = Value.confidential commitment;
  nonce = Nonce.confidential key;
  script_pubkey = script ∷ [];
  witness = record { surjection_proof = some 8; rangeproof = some 7 };
}

abbrev pub fee_out : TxOut
fee_out = record default_out { asset = Asset.explicit 1; value = Value.explicit 17 }

-- 50 of asset 2 to the taker, 683 of asset 1 as change, and a fee of 17.
abbrev pub final : Transaction
final = record {
  version = 2;
  lock_time = 0;
  input = offer_in ∷ signed 0 ∷ [];
  output = taken_out 6 306 0 1 ∷ taken_out 9 57 1 2 ∷ taken_out 8 692 2 1 ∷ fee_out ∷ [];
}

taken : liquidex_take swapper (given 1) orders proposal "words" ≡ ok (given 2, ok final)
unfolding liquidex_take bewallet.Liquidex.transaction bewallet.Liquidex.verify_output_commitment
    bewallet.Liquidex.get_input bewallet.Wallet.Context.get_address bewallet.Word.add_u32
    bewallet.Transaction.add_output bewallet.Wallet.Coins.utxos bewallet.Map.get
    bewallet.Wallet.Funding.fund bewallet.Liquidex.liquidex_needs bewallet.Amounts.accumulate
    bewallet.Map.entry_add bewallet.Word.add_u64 bewallet.Transaction.output_amount
    bewallet.Map.insert bewallet.Transaction.Fee.estimated_fee
    bewallet.Transaction.Needs.missing_amounts bewallet.Map.remove bewallet.Common.Sort.sort_by
    bewallet.Map.contains bewallet.Map.set_insert bewallet.Transaction.add_input
    bewallet.Store.spent bewallet.Transaction.Changes.change_amounts bewallet.Word.sub_u64
    bewallet.Transaction.Changes.add_change bewallet.Blinders.derive_blinder
    bewallet.Liquidex.liquidex_changes bewallet.Liquidex.liquidex_fee
    bewallet.Liquidex.liquidex_estimated_changes bewallet.Wallet.Create.add_changes
    bewallet.Wallet.Swap.TakeBlind.liquidex_take_blind bewallet.Wallet.Sign.liquidex_take_sign
    bewallet.Wallet.Mnemonic.mnemonic2xprv
taken = refl

offer-signed :
    make_signed swapper (given 1) opt "words" (derive_address wallet 0 1)
    ≡ ok (secrets 2 50, offer, asked)
unfolding make_signed bewallet.Wallet.Context.derive_address bewallet.Map.get
    bewallet.Transaction.add_output bewallet.Liquidex.Blind.liquidex_blind
    bewallet.Transaction.add_input bewallet.Blinders.derive_blinder bewallet.Word.Bytes.to_le_bytes
    bewallet.Wallet.Sign.spent_output bewallet.Wallet.Mnemonic.mnemonic2xprv
    bewallet.Wallet.Sign.internal_sign_elements bewallet.Wallet.Sign.put_signature
offer-signed = refl

swap-Parses : Parses swapper paths_store opt "words"
unfolding bewallet.Wallet.Context.get_address bewallet.Word.add_u32
swap-Parses s' to got offered asked' t run =
    let same : (given 1, derive_address wallet 0 1) ≡ (s', to) = ok_inj got in
    let run' : make_signed swapper (given 1) opt "words" (derive_address wallet 0 1)
        ≡ ok (offered, t, asked') =
      subst
        (λ (r : StoreMeta × Outcome Address).
          make_signed swapper r.0 opt "words" r.1 ≡ ok (offered, t, asked'))
        (sym same) run in
    ap (λ (r : TxOutSecrets × Transaction × TxOutSecrets). ok r.1)
      (ok_inj (sym offer-signed ∙ run'))

liquidex_make-Proposes_example : Proposes swapper (given 1) opt proposal
liquidex_make-Proposes_example =
    liquidex_make-Proposes swapper laws hex_round_trip paths_store opt "words" swap-Parses made

liquidex_take-first_example :
    (tx : Transaction) × (transaction zkp proposal ≡ ok tx)
    × (get_elem? final.input 0 ≡ get_elem? tx.input 0)
    × KeepsFirst tx final
liquidex_take-first_example =
    liquidex_take-first swapper laws (given 1) orders proposal "words" taken

casts : (x : F64) → env.f64_to_u64 x < 2 ^ 64
casts x = omega arith

generators :
    (bf : ℕ) (a b : AssetId)
    → In a (2 ∷ 1 ∷ [])
    → In b (2 ∷ 1 ∷ [])
    → zkp.new_blinded a bf ≡ zkp.new_blinded b bf
    → a ≡ b
generators bf a b h k e = omega (arith, e)

liquidex_unblind-liquidex_take_example :
    (s : TxOutSecrets) × (verify_output_commitment zkp proposal ≡ ok s)
    × (s.asset ≡ opt.asset_id)
    × (liquidex_unblind zkp cipher (4 ∷ []) final 0 (2 ∷ 1 ∷ []) ≡ ok s)
liquidex_unblind-liquidex_take_example =
    liquidex_unblind-liquidex_take swapper laws hex_round_trip swapper paths_store (given 1) opt
      orders "words" "words" (2 ∷ 1 ∷ []) refl laws swap-Parses made taken casts (inr (inl refl))
      generators
