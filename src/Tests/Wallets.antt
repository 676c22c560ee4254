-- ===== src/Tests/Wallets.antt =====
-- src/interface.rs, at a wallet that holds two coins.
use mathlib.Core.List.Permᴰ
use bewallet.Common.{
  get_elem?, ℕ, zero, suc, ◌+◌, ◌<◌, ◌≤◌, ◌^◌, ◌≡◌, ◌≢◌, ◌↔◌, ◌∙◌, refl, subst, sym, ap, Bool, true,
  false, Option, none, some, List, [], ◌∷◌, All, In, length, map, is_empty, arith, nat_eq, nat_beq,
  if◌then◌else◌, is_some, ◌==◌, any, String,
}
use bewallet.Outcome.{Outcome, ok, hang, traverse}
use bewallet.Word.{u64_mod}
use bewallet.Map.{get, Distinct, amount, set_insert, Amounts}
use bewallet.Amounts.{total, has, InRange, sum}
use bewallet.Elements.{Transaction, AssetId}
use bewallet.Transaction.{input_amount, output_amount, get_previous_output_asset_hex}
use bewallet.Transaction.Needs.{needs}
use bewallet.Transaction.Changes.{changes}
use bewallet.Transaction.Fee.{estimated_changes, estimated_fee}
use bewallet.Network.{Config, liquid, plaintext}
use bewallet.Model.{UnblindedTxo, txo_new, Destination}
use bewallet.Store.{StoreMeta, cache_default, store_default, spent}
use bewallet.Wallet.Context.{Keys, Orders, WalletCtx}
use bewallet.Wallet.Coins.{utxos, balance}
use bewallet.Wallet.Coins.Exact.{LiveCoin, utxos-LiveCoin, coin_amounts, balance-total}
use bewallet.Wallet.Funding.{fund}
use bewallet.Wallet.Funding.Run.{Ends, fund-Ends}
use bewallet.Wallet.Funding.Ending.{fund-ne-hang}
use bewallet.Wallet.Create.Funded.{fund_tx-complete}
use bewallet.Wallet.Create.{complete, fund_tx, check_addressees}
use bewallet.Wallet.Create.Checks.{Payable, check_addressees-Payable}
use bewallet.Wallet.Create.Outputs.{KeyLaws, Outs}
use bewallet.Wallet.Create.Completes.{Shuffles, Completed}
use bewallet.Wallet.Sign.{liquidex_take_sign, Signer, sign_with_xprv, blind_tx}
use bewallet.Wallet.Sign.Unsigned.{unsigned, sign_with_xprv-unsigned}
use bewallet.Elements.{TxIn, default_in_witness}
use bewallet.Tests.World.{
  env, spend, env_laws, hex_round_trip, in_order, heights_in_order, all_txs, unblinded, payment,
  secrets, point,
}

abbrev pub keys : Keys
keys = record {
  derive_pub = λ chain index. ok index;
  p2shwpkh_script = λ k. k ∷ [];
  derive_blinding_key = λ s. 8;
  from_secret_key = λ k. k;
  p2shwpkh = λ k b p. record { params = p; payload = k; blinding_pubkey = b };
  params_liquid = 1;
  params_elements = 2;
}

abbrev pub config : Config
config = record {
  network = liquid;
  policy_asset = 1;
  electrum_url = plaintext "localhost";
  spv_enabled = true;
}

abbrev pub wallet : WalletCtx
wallet = record { env = env; config = config; keys = keys; txid_text = λ id. "7" }

abbrev pub orders : Orders
orders = record {
  rounds = λ n. in_order;
  inputs = in_order;
  changes = in_order;
  heights = heights_in_order;
  shuffle_in = λ l. l;
  shuffle_out = λ l. l;
}

abbrev pub store : StoreMeta
store = record {
  cache = record cache_default {
    all_txs = all_txs;
    unblinded = unblinded;
    heights = (7, some 100) ∷ [];
  };
  store = store_default;
}

pub key_laws : KeyLaws wallet
key_laws = record {
  derives = λ chain index h. (index, refl);
  blinding = λ k b p. refl;
  script = λ k b p e. cc;
  hex = hex_round_trip;
}

shuffles : Shuffles orders
shuffles = record { ins = λ xs. Permᴰ.refl xs; outs = λ xs. Permᴰ.refl xs }

payment-Outs : Outs env payment ((2, 20) ∷ [])
unfolding output_amount
payment-Outs = record { amounts = refl; no_fee = refl }

payment_positive : All (λ (e : ℕ × ℕ). 0 < e.1) ((2, 20) ∷ [])
payment_positive = (omega arith, tt)

payment_ins :
    traverse (input_amount env all_txs unblinded) payment.input ≡ ok ((1, 1000) ∷ (2, 50) ∷ [])
unfolding input_amount get
payment_ins = refl

payment_changes : estimated_changes env payment all_txs unblinded ≡ ok 2
unfolding estimated_changes get_previous_output_asset_hex get set_insert
payment_changes = refl

payment_fee : estimated_fee env payment 1 2 ≡ ok 13
unfolding estimated_fee
payment_fee = refl

payment_fits : InRange ((1, 13) ∷ (2, 20) ∷ [])
unfolding total
payment_fits a = ground arith

payment_sum : sum (1000 ∷ 50 ∷ []) < u64_mod
unfolding sum
payment_sum = omega arith

payment_funded : needs env in_order payment 1 1 all_txs unblinded ≡ ok []
unfolding needs bewallet.Amounts.accumulate output_amount bewallet.Map.entry_add
    bewallet.Word.add_u64 get input_amount bewallet.Map.insert estimated_changes
    get_previous_output_asset_hex estimated_fee set_insert bewallet.Map.remove
payment_funded = refl

payment_change : changes env in_order payment 13 1 all_txs unblinded ≡ ok ((1, 987) ∷ (2, 30) ∷ [])
unfolding changes bewallet.Amounts.accumulate output_amount bewallet.Map.entry_add
    bewallet.Word.add_u64 get input_amount bewallet.Map.insert bewallet.Word.sub_u64
    bewallet.Transaction.Changes.add_change bewallet.Map.remove
payment_change = refl

payment_indexes :
    (change : Amounts)
    → changes env in_order payment 13 1 all_txs unblinded ≡ ok change
    → 0 + 0 + length change < 2 ^ 31
payment_indexes change h =
    let is : (1, 987) ∷ (2, 30) ∷ [] ≡ change = ok_inj (sym payment_change ∙ h) in
    subst (λ c. 0 + 0 + length c < 2 ^ 31) is (omega arith)
  where
    ok_inj : {a b : Amounts} → ok a ≡ ok b → a ≡ b
    ok_inj e = cc

abbrev coin : ℕ → ℕ → ℕ → UnblindedTxo
coin n asset value = record {
  txo = txo_new (point n) (9 ∷ []) (some 100);
  unblinded = secrets asset value;
}

abbrev request : Transaction
request = record payment { input = [] }

abbrev payment_needs : ℕ → Transaction → Outcome (List (AssetId × ℕ))
payment_needs round tx = needs env in_order tx 1 1 all_txs unblinded

payment_made : fund_tx wallet store orders 1 (coin 0 1 1000 ∷ coin 1 2 50 ∷ []) request ≡ ok payment
unfolding fund_tx fund needs bewallet.Amounts.accumulate output_amount bewallet.Map.entry_add
    bewallet.Word.add_u64 get estimated_changes estimated_fee bewallet.Map.insert
    bewallet.Map.remove bewallet.Common.Sort.sort_by bewallet.Map.contains
    bewallet.Transaction.add_input input_amount get_previous_output_asset_hex set_insert
payment_made = refl

request-Outs : Outs env request ((2, 20) ∷ [])
unfolding output_amount
request-Outs = record { amounts = refl; no_fee = refl }

fund_tx-complete_example :
    (tx' : Transaction) × (fee_val : ℕ) × (complete wallet store orders 1 payment
      ≡ ok (tx', fee_val))
    × Completed wallet store 13 tx' fee_val
fund_tx-complete_example =
    fund_tx-complete wallet store orders (coin 0 1 1000 ∷ coin 1 2 50 ∷ []) request payment 1
      ((2, 20) ∷ []) ((1, 1000) ∷ (2, 50) ∷ []) 2 13 payment_made key_laws env_laws shuffles
      request-Outs payment_positive payment_ins payment_changes payment_fee payment_fits payment_sum
      payment_indexes

fund-Ends_example :
    Ends payment_needs
      (coin 0 1 1000 ∷ coin 1 2 50 ∷ [])
      request
      []
      (fund payment_needs (coin 0 1 1000 ∷ coin 1 2 50 ∷ []) 3 request [])
fund-Ends_example = fund-Ends payment_needs (coin 0 1 1000 ∷ coin 1 2 50 ∷ []) 3 request []

-- 5 of asset 1 are missing until there is an input.
abbrev one_input : ℕ → Transaction → Outcome (List (AssetId × ℕ))
one_input round tx = ok (if is_empty tx.input then (1, 5) ∷ [] else [])

fund-ne-hang_example : fund one_input (coin 0 1 1000 ∷ coin 1 2 50 ∷ []) 3 request [] ≢ hang
fund-ne-hang_example =
    fund-ne-hang one_input (coin 0 1 1000 ∷ coin 1 2 50 ∷ []) (λ round tx q. cc) request []

abbrev payee : Destination
payee = record {
  address = record { params = 1; payload = 5; blinding_pubkey = some 4 };
  satoshi = 20;
  asset = 2;
}

check_addressees-Payable_example :
    (check_addressees wallet (payee ∷ []) ≡ ok tt)
    ↔ ((payee ∷ [] ≢ []) × All (Payable wallet) (payee ∷ []))
check_addressees-Payable_example = check_addressees-Payable wallet (payee ∷ [])

heights-Distinct : Distinct store.cache.heights
unfolding get
heights-Distinct = (refl, tt)

live_stored :
    (id : ℕ) (h : Option ℕ)
    → get id store.cache.heights ≡ some h
    → is_some (get id store.cache.all_txs) ≡ true
unfolding get
live_stored id h e = ground arith

utxos-LiveCoin_example :
    (r : List UnblindedTxo) × (utxos wallet store orders ≡ ok r)
    × ((u : UnblindedTxo) → In u r ↔ LiveCoin wallet store u)
utxos-LiveCoin_example = utxos-LiveCoin wallet store orders heights-Distinct live_stored

coins_known : utxos wallet store orders ≡ ok (coin 0 1 1000 ∷ coin 1 2 50 ∷ [])
unfolding utxos get bewallet.Common.Sort.sort_by bewallet.Map.contains spent
coins_known = refl

coins_fit : InRange (coin_amounts (coin 0 1 1000 ∷ coin 1 2 50 ∷ []))
unfolding total
coins_fit a = ground arith

balance-total_example :
    (m : Amounts) × (balance wallet store orders ≡ ok m)
    × ((a : AssetId) → amount a m ≡ total a (coin_amounts (coin 0 1 1000 ∷ coin 1 2 50 ∷ [])))
    × ((a : AssetId)
        → is_some (get a m)
          ≡ (if 1 == a then true else has a (coin_amounts (coin 0 1 1000 ∷ coin 1 2 50 ∷ []))))
balance-total_example =
    balance-total wallet store orders (coin 0 1 1000 ∷ coin 1 2 50 ∷ []) coins_known coins_fit

-- Every key signs with the one byte 1, and nothing needs blinding.
abbrev pub signer : Signer
signer = record {
  derive_priv = λ path. ok 1;
  public_key = λ k. k;
  p2pkh_script = λ k. k ∷ [];
  segwitv0_sighash = λ tx i script value t. i ∷ [];
  sign = λ message key. 1 ∷ [];
  p2shwpkh_script_sig = λ k. 2 ∷ [];
  key_bytes = λ k. 3 ∷ [];
  blind_last = λ tx spent secrets. ok tx;
}

abbrev pub paths_store : StoreMeta
paths_store = record store {
  cache = record store.cache { paths = (9 ∷ [], record { chain = 0; index = 4 }) ∷ [] };
}

abbrev pub signed : ℕ → TxIn
signed n = record (spend n) {
  script_sig = 2 ∷ [];
  witness = record default_in_witness { script_witness = (1 ∷ 1 ∷ []) ∷ (3 ∷ []) ∷ [] };
}

payment-signed :
    sign_with_xprv signer paths_store payment
    ≡ ok (record payment { input = signed 0 ∷ signed 1 ∷ [] })
unfolding sign_with_xprv get
payment-signed = refl

sign_with_xprv-unsigned_example :
    (blinded : Transaction) × (blind_tx signer paths_store payment ≡ ok blinded)
    × (unsigned (record payment { input = signed 0 ∷ signed 1 ∷ [] }) ≡ unsigned blinded)
sign_with_xprv-unsigned_example = sign_with_xprv-unsigned signer paths_store payment payment-signed

-- The first input is the maker's and is signed already.
abbrev taken : Transaction
taken = record payment { input = signed 3 ∷ spend 1 ∷ [] }

taken-signed :
    liquidex_take_sign signer paths_store taken
    ≡ ok (record payment { input = signed 3 ∷ signed 1 ∷ [] })
unfolding liquidex_take_sign get
taken-signed = refl
