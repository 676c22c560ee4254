-- ===== src/Elements.antt =====
-- The data of the crate `elements` as the code builds and reads it, and the functions of that and
-- of other crates that the code calls, which are parameters. Hashes, keys, commitments, blinding
-- factors and scripts' owners are opaque numbers; scripts are bytes; an `f64` is its bit pattern.
use bewallet.Common.{
  ℕ, String, ◌≡◌, ◌↔◌, Bool, true, false, ◌&&◌, Option, none, List, [], arith, PartialEq, nat_beq,
}
use bewallet.Outcome.{Outcome}
use bewallet.Word.{Build}

abbrev pub Script : Type 0
Script = List ℕ

abbrev pub AssetId : Type 0
AssetId = ℕ

abbrev pub Txid : Type 0
Txid = ℕ

abbrev pub F64 : Type 0
F64 = ℕ

pub record OutPoint : Type 0 where
  pub txid : Txid
  pub vout : ℕ

pub data Asset : Type 0 where
  null : Asset
  explicit : AssetId → Asset
  confidential : ℕ → Asset

pub data Value : Type 0 where
  null : Value
  explicit : ℕ → Value
  confidential : ℕ → Value

pub data Nonce : Type 0 where
  null : Nonce
  explicit : ℕ → Nonce
  confidential : ℕ → Nonce

-- `other` stands for the fields that the code never names.
pub record TxInWitness : Type 0 where
  pub script_witness : List (List ℕ)
  pub other : List (List ℕ)

pub record TxOutWitness : Type 0 where
  pub surjection_proof : Option ℕ
  pub rangeproof : Option ℕ

pub record TxIn : Type 0 where
  pub previous_output : OutPoint
  pub is_pegin : Bool
  pub has_issuance : Bool
  pub script_sig : Script
  pub sequence : ℕ
  pub asset_issuance : Option ℕ
  pub witness : TxInWitness

pub record TxOut : Type 0 where
  pub asset : Asset
  pub value : Value
  pub nonce : Nonce
  pub script_pubkey : Script
  pub witness : TxOutWitness

pub record Transaction : Type 0 where
  pub version : ℕ
  pub lock_time : ℕ
  pub input : List TxIn
  pub output : List TxOut

pub record TxOutSecrets : Type 0 where
  pub asset : AssetId
  pub asset_bf : ℕ
  pub value : ℕ
  pub value_bf : ℕ

pub record Address : Type 0 where
  pub params : ℕ
  pub payload : ℕ
  pub blinding_pubkey : Option ℕ

-- The `Default` values.
abbrev pub default_in_witness : TxInWitness
default_in_witness = record { script_witness = []; other = [] }

abbrev pub default_out_witness : TxOutWitness
default_out_witness = record { surjection_proof = none; rangeproof = none }

abbrev pub default_out : TxOut
default_out = record {
  asset = Asset.null;
  value = Value.null;
  nonce = Nonce.null;
  script_pubkey = [];
  witness = default_out_witness;
}

abbrev pub empty_tx : Transaction
empty_tx = record { version = 2; lock_time = 0; input = []; output = [] }

abbrev pub outpoint_beq : OutPoint → OutPoint → Bool
outpoint_beq p q = nat_beq p.txid q.txid && nat_beq p.vout q.vout

pub outpoint_beq_iff : (p q : OutPoint) → (outpoint_beq p q ≡ true) ↔ (p ≡ q)
outpoint_beq_iff p q = ground arith

instance abbrev pub outpoint_eq : PartialEq OutPoint
outpoint_eq = record { eq = outpoint_beq; eq_law = outpoint_beq_iff }

abbrev pub asset_beq : Asset → Asset → Bool
asset_beq Asset.null Asset.null = true
asset_beq (Asset.explicit a) (Asset.explicit b) = nat_beq a b
asset_beq (Asset.confidential a) (Asset.confidential b) = nat_beq a b
asset_beq _ _ = false

pub asset_beq_iff : (a b : Asset) → (asset_beq a b ≡ true) ↔ (a ≡ b)
asset_beq_iff Asset.null b = ground arith
asset_beq_iff (Asset.explicit a) b = ground arith
asset_beq_iff (Asset.confidential a) b = ground arith

instance abbrev pub asset_eq : PartialEq Asset
asset_eq = record { eq = asset_beq; eq_law = asset_beq_iff }

-- What the code calls and does not implement, and the build that it is compiled in.
pub record Env : Type 0 where
  pub build : Build
  -- `Transaction::txid`, `get_weight`; `TxOut::is_fee`, `minimum_value`; `TxInWitness::is_empty`
  pub txid : Transaction → Txid
  pub get_weight : Transaction → ℕ
  pub is_fee : TxOut → Bool
  pub minimum_value : TxOut → ℕ
  pub witness_is_empty : TxInWitness → Bool
  pub script_pubkey : Address → Script
  -- `AssetId::to_hex` and `from_hex`
  pub to_hex : AssetId → String
  pub from_hex : String → Outcome AssetId
  -- `Generator`, `PedersenCommitment` and `PublicKey::from_slice`
  pub generator_from_slice : List ℕ → Option ℕ
  pub commitment_from_slice : List ℕ → Option ℕ
  pub pubkey_from_slice : List ℕ → Option ℕ
  -- `f64`: a literal by its text, `u64 as f64`, `*`, `/`, and `f64 as u64`
  pub f64 : String → F64
  pub f64_of_u64 : ℕ → F64
  pub f64_mul : F64 → F64 → F64
  pub f64_div : F64 → F64 → F64
  pub f64_to_u64 : F64 → ℕ
