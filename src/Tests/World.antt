-- ===== src/Tests/World.antt =====
-- A small world for the examples: the functions of the other crates, made concrete.
use Prim.Native.String.{[] as []ˢ, ◌∷◌ as ◌∷ˢ◌}
use bewallet.Common.{
  ℕ, zero, suc, ◌/◌, ◌%◌, ◌^◌, ◌≡◌, ◌≢◌, refl, ap, Bool, true, false, ◌&&◌, Option, none, some,
  List, [], ◌∷◌, is_empty, String, nat_eq,
}
use bewallet.Outcome.{ok}
use bewallet.Word.{debug}
use bewallet.Map.{Iteration, IterationOf}
use bewallet.Elements.{
  Env, Asset, Value, Nonce, TxOut, TxIn, Transaction, OutPoint, TxOutSecrets, Address,
  default_out_witness, default_in_witness,
}
use bewallet.Transaction.{Txs, Unblinded}
use bewallet.Transaction.Fee.Exact.{TxOutLaws}

abbrev pub is_explicit : Asset → Value → Bool
is_explicit (Asset.explicit _) (Value.explicit _) = true
is_explicit _ _ = false

abbrev pub least : Value → ℕ
least (Value.explicit v) = v
least _ = 0

-- The text of an asset is that many signs.
abbrev pub hex_of : ℕ → String
hex_of zero = []ˢ
hex_of (suc n) = "0" ∷ˢ hex_of n

abbrev pub size : String → ℕ
size []ˢ = 0
size (c ∷ˢ s) = suc (size s)

-- A transaction's id is its lock time; the estimated fee is a thousandth of the weight.
abbrev pub env : Env
env = record {
  build = debug;
  txid = λ (tx : Transaction). tx.lock_time;
  get_weight = λ tx. 400;
  is_fee = λ (o : TxOut). is_empty o.script_pubkey && is_explicit o.asset o.value;
  minimum_value = λ (o : TxOut). least o.value;
  witness_is_empty = λ w. true;
  script_pubkey = λ (a : Address). a.payload ∷ [];
  to_hex = hex_of;
  from_hex = λ s. ok (size s);
  generator_from_slice = λ bytes. some 1;
  commitment_from_slice = λ bytes. some 2;
  pubkey_from_slice = λ bytes. some 3;
  f64 = λ s. 1;
  f64_of_u64 = λ n. n;
  f64_mul = λ a b. a;
  f64_div = λ a b. a;
  f64_to_u64 = λ a. a / 1000 % 2 ^ 64;
}

size-hex_of : (a : ℕ) → size (hex_of a) ≡ a
size-hex_of zero = refl
size-hex_of (suc n) = ap suc (size-hex_of n)

pub hex_round_trip : (a : ℕ) → env.from_hex (env.to_hex a) ≡ ok a
hex_round_trip a = ap ok (size-hex_of a)

pub env_laws : TxOutLaws env
env_laws = record {
  explicit_minimum = λ o v e. ap least e;
  fee_form = λ a v. refl;
  with_script = λ o n. scripted (o.script_pubkey) n _;
}
  where
    scripted : (s : List ℕ) → s ≢ [] → (q : Bool) → (is_empty s && q) ≡ false
    scripted [] n q = absurd (n refl)
    scripted (x ∷ s) n q = refl

abbrev pub in_order : Iteration
in_order = record { order = λ m. m; order_get = λ m k d. refl; order_distinct = λ m d. d }

abbrev pub heights_in_order : IterationOf ℕ (Option ℕ)
heights_in_order = record { order = λ m. m; order_get = λ m k d. refl; order_distinct = λ m d. d }

-- Asset 1 is the policy asset. The wallet has received 1000 of it and 50 of asset 2.
abbrev pub point : ℕ → OutPoint
point n = record { txid = 7; vout = n }

abbrev pub secrets : ℕ → ℕ → TxOutSecrets
secrets asset value = record { asset = asset; asset_bf = 0; value = value; value_bf = 0 }

abbrev pub received_out : TxOut
received_out = record {
  asset = Asset.confidential 1;
  value = Value.confidential 2;
  nonce = Nonce.confidential 3;
  script_pubkey = 9 ∷ [];
  witness = default_out_witness;
}

abbrev pub received_tx : Transaction
received_tx = record {
  version = 2;
  lock_time = 7;
  input = [];
  output = received_out ∷ received_out ∷ [];
}

abbrev pub all_txs : Txs
all_txs = (7, received_tx) ∷ []

abbrev pub unblinded : Unblinded
unblinded = (point 0, secrets 1 1000) ∷ (point 1, secrets 2 50) ∷ []

abbrev pub spend : ℕ → TxIn
spend n = record {
  previous_output = point n;
  is_pegin = false;
  has_issuance = false;
  script_sig = [];
  sequence = 0xffff_fffe;
  asset_issuance = none;
  witness = default_in_witness;
}

abbrev pub pay : ℕ → ℕ → TxOut
pay asset value = record {
  asset = Asset.explicit asset;
  value = Value.explicit value;
  nonce = Nonce.confidential 4;
  script_pubkey = 5 ∷ [];
  witness = default_out_witness;
}

-- It pays 20 of asset 2, and spends both coins.
abbrev pub payment : Transaction
payment = record {
  version = 2;
  lock_time = 0;
  input = spend 0 ∷ spend 1 ∷ [];
  output = pay 2 20 ∷ [];
}
