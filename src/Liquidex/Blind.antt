-- ===== src/Liquidex/Blind.antt =====
-- src/liquidex.rs: the blinding of the maker's output and its unblinding. The hashes, the cipher
-- and the encodings of keys and commitments are arguments, with the errors that `?` makes of theirs.
pub mod Laws
pub mod Search
pub mod Blinded
pub mod Recovered
pub mod Opened
use bewallet.Common.{
  ℕ, zero, suc, ◌+◌, Bool, true, false, not, ◌||◌, Option, none, some, List, [], ◌∷◌, ◌++◌, length,
  get_elem?, set, take, drop, ltb, if◌then◌else◌, nat_beq, is_some,
}
use bewallet.Error.{generic}
use bewallet.Outcome.{Outcome, ok, err, panic, hang, ◌>>=◌, ◌>>◌, fail_if, ok_or, unwrap}
use bewallet.Word.Bytes.{Bytes, to_le_bytes, from_le_bytes, copy_from_slice, slice_to}
use bewallet.Elements.{
  AssetId, Asset, Value, Nonce, OutPoint, Script, TxOut, TxOutSecrets, Transaction,
}
use bewallet.Blinders.{Mac, derive_blinder}
use bewallet.Liquidex.{Zkp}

pub record Cipher : Type 0 where
  pub mac : Mac
  pub sha256 : Bytes → Bytes
  pub sha256d : Bytes → Bytes
  -- `consensus_encode` of an outpoint
  pub outpoint_bytes : OutPoint → Bytes
  -- a tweak as bytes, and `from_slice` of the two kinds of blinding factor
  pub tweak_bytes : ℕ → Bytes
  pub asset_bf_from_slice : Bytes → Outcome ℕ
  pub value_bf_from_slice : Bytes → Outcome ℕ
  -- `serialize` of generators, commitments and public keys, and `PublicKey::from_slice`
  pub generator_bytes : ℕ → Bytes
  pub commitment_bytes : ℕ → Bytes
  pub pubkey_bytes : ℕ → Bytes
  pub pubkey_from_slice : Bytes → Option ℕ
  -- `from_commitment` and `commitment` of `Asset`, `Value` and `Nonce`
  pub asset_from_commitment : Bytes → Outcome Asset
  pub value_from_commitment : Bytes → Outcome Value
  pub nonce_from_commitment : Bytes → Outcome Nonce
  pub asset_commitment : Asset → Option ℕ
  pub value_commitment : Value → Option ℕ
  pub nonce_commitment : Nonce → Option ℕ
  -- AES-GCM-SIV of a key, a nonce and a text, with no associated data
  pub encrypt : Bytes → Bytes → Bytes → Outcome Bytes
  pub decrypt : Bytes → Bytes → Bytes → Outcome Bytes

-- b"liquidex_aes_key"
abbrev key_tag : Bytes
key_tag =
    108 ∷ 105 ∷ 113 ∷ 117 ∷ 105 ∷ 100 ∷ 101 ∷ 120 ∷ 95 ∷ 97 ∷ 101 ∷ 115 ∷ 95 ∷ 107 ∷ 101 ∷ 121 ∷ []

-- b"liquidex_aes_nonce"
abbrev nonce_tag : Bytes
nonce_tag =
    108 ∷ 105 ∷ 113 ∷ 117 ∷ 105 ∷ 100 ∷ 101 ∷ 120 ∷ 95 ∷ 97 ∷ 101 ∷ 115 ∷ 95 ∷ 110 ∷ 111 ∷ 110 ∷ 99
    ∷ 101 ∷ []

abbrev pub u32_max : ℕ
u32_max = 0xffff_ffff

-- `matches!` of a confidential asset and value.
abbrev pub both_confidential : Asset → Value → Bool
both_confidential (Asset.confidential _) (Value.confidential _) = true
both_confidential _ _ = false

abbrev pub is_blinded : Asset → Value → Nonce → Bool
is_blinded (Asset.confidential _) (Value.confidential _) (Nonce.confidential _) = true
is_blinded _ _ _ = false

-- The asset and the value of an output that is not blinded.
unfoldable pub explicit_output : Asset → Value → Outcome (AssetId × ℕ)
explicit_output (Asset.explicit asset) (Value.explicit value) = ok (asset, value)
explicit_output _ _ = err (generic "Unexpected LiquiDEX maker transaction")

module _ (c : Cipher) (master_blinding_key : Bytes) where
  unfoldable pub liquidex_derive_blinder : OutPoint → Bool → Outcome ℕ
  liquidex_derive_blinder previous_outpoint is_asset_blinder =
      let hash_prevout = c.sha256d (c.outpoint_bytes previous_outpoint) in
      derive_blinder c.mac master_blinding_key hash_prevout u32_max is_asset_blinder

  unfoldable pub liquidex_derive_asset_blinder : OutPoint → Outcome ℕ
  unfolding liquidex_derive_blinder
  liquidex_derive_asset_blinder previous_outpoint = do
    blinder ← liquidex_derive_blinder previous_outpoint true
    c.asset_bf_from_slice (c.tweak_bytes blinder)

  unfoldable pub liquidex_derive_value_blinder : OutPoint → Outcome ℕ
  unfolding liquidex_derive_blinder
  liquidex_derive_value_blinder previous_outpoint = do
    blinder ← liquidex_derive_blinder previous_outpoint false
    c.value_bf_from_slice (c.tweak_bytes blinder)

  unfoldable pub liquidex_aes_key : Script → Bytes
  liquidex_aes_key script = c.sha256 (key_tag ++ master_blinding_key ++ script)

  unfoldable pub liquidex_aes_nonce : OutPoint → Asset → Value → Script → Outcome Bytes
  liquidex_aes_nonce previous_outpoint asset value script = do
    fail_if (not (both_confidential asset value)) (generic "Asset and Value must be confidential")
    generator ← unwrap (c.asset_commitment asset)
    commitment ← unwrap (c.value_commitment value)
    let hash = c.sha256 (
        nonce_tag
        ++ master_blinding_key
        ++ c.outpoint_bytes previous_outpoint
        ++ c.generator_bytes generator
        ++ c.commitment_bytes commitment
        ++ script)
    slice_to 12 hash

-- One round of the loop: the text with the bytes that the generator of random numbers gives, and
-- the candidate's key if it is one.
unfoldable pub candidate_key : Cipher → Bytes → Bytes → ℕ → Bytes → Outcome (Option ℕ)
candidate_key c key nonce value random = do
  text ← c.encrypt key nonce (to_le_bytes 8 value ++ random)
  body ← copy_from_slice 32 text
  ok (c.pubkey_from_slice (2 ∷ body))

-- The loop until a candidate is a key, from round `i` on and with the rounds that are left.
unfoldable pub search_key : (ℕ → Outcome (Option ℕ)) → ℕ → ℕ → Outcome ℕ
search_key candidate zero i = hang
search_key candidate (suc rounds) i =
    let rest = search_key candidate rounds (i + 1) in
    candidate i >>= λ found. elim found [ some pk ↦ ok pk | none ↦ rest ]

-- The first of the candidates with that generator.
unfoldable pub find_asset : Zkp → ℕ → ℕ → List AssetId → Option AssetId
find_asset z asset_blinder generator [] = none
find_asset z asset_blinder generator (candidate ∷ assets) =
    if nat_beq (z.new_blinded candidate asset_blinder) generator
    then some candidate
    else find_asset z asset_blinder generator assets

-- The key of the loop, as the nonce of the output; `random` gives the bytes of each round.
module _ (c : Cipher) (master_blinding_key : Bytes) (random : ℕ → Bytes) (rounds : ℕ) where
  unfoldable pub hide_value : OutPoint → Asset → Value → Script → ℕ → Outcome Nonce
  unfolding liquidex_aes_key liquidex_aes_nonce candidate_key search_key
  hide_value previous_output asset commitment script value = do
    let key = liquidex_aes_key c master_blinding_key script
    aes_nonce ← liquidex_aes_nonce c master_blinding_key previous_output asset commitment script
    pk ← search_key (λ i. candidate_key c key aes_nonce value (random i)) rounds 0
    c.nonce_from_commitment (c.pubkey_bytes pk)

module _ (z : Zkp) (c : Cipher) where
  -- The commitments to an asset and to a value, under their blinders.
  unfoldable pub commit_output : TxOutSecrets → Outcome (Asset × Value)
  commit_output s = do
    let asset_generator = z.new_blinded s.asset s.asset_bf
    let value_commitment = z.commitment s.value s.value_bf asset_generator
    asset ← c.asset_from_commitment (c.generator_bytes asset_generator)
    value ← c.value_from_commitment (c.commitment_bytes value_commitment)
    ok (asset, value)

module _ (c : Cipher) (master_blinding_key : Bytes) where
  -- The secrets of the output.
  unfoldable pub derive_secrets : OutPoint → TxOut → Outcome TxOutSecrets
  unfolding explicit_output liquidex_derive_asset_blinder liquidex_derive_value_blinder
  derive_secrets previous_output out = do
    (asset, value) ← explicit_output out.asset out.value
    asset_blinder ← liquidex_derive_asset_blinder c master_blinding_key previous_output
    value_blinder ← liquidex_derive_value_blinder c master_blinding_key previous_output
    ok (record { asset = asset; asset_bf = asset_blinder; value = value; value_bf = value_blinder })

module _ (z : Zkp) (c : Cipher) (master_blinding_key : Bytes) where
  -- The output blinded, and its secrets.
  unfoldable pub blind_output :
      (random : ℕ → Bytes) (rounds : ℕ) → OutPoint → TxOut → Outcome (TxOut × TxOutSecrets)
  unfolding derive_secrets commit_output hide_value
  blind_output random rounds previous_output out = do
    secrets ← derive_secrets c master_blinding_key previous_output out
    (asset, value) ← commit_output z c secrets
    nonce ←
        hide_value c master_blinding_key random rounds previous_output asset value out.script_pubkey
          secrets.value
    ok (record out { asset = asset; value = value; nonce = nonce }, secrets)

  -- The transaction that the call leaves in `tx`, and its result.
  unfoldable pub liquidex_blind :
      (random : ℕ → Bytes) (rounds : ℕ) → Transaction → Outcome (Transaction × TxOutSecrets)
  unfolding blind_output
  liquidex_blind random rounds tx = do
    fail_if (not (nat_beq (length tx.input) 1) || not (nat_beq (length tx.output) 1))
        (generic "Unexpected LiquiDEX maker transaction num in/out")
    out ← unwrap (get_elem? tx.output 0)
    input ← unwrap (get_elem? tx.input 0)
    (blinded, secrets) ← blind_output random rounds input.previous_output out
    ok (record tx { output = set tx.output 0 blinded }, secrets)

module _ (c : Cipher) (master_blinding_key : Bytes) where
  -- The value that the nonce of an output hides.
  unfoldable pub decrypt_value : OutPoint → TxOut → Outcome ℕ
  unfolding liquidex_aes_key liquidex_aes_nonce
  decrypt_value previous_output out = do
    let key = liquidex_aes_key c master_blinding_key out.script_pubkey
    aes_nonce ←
        liquidex_aes_nonce c master_blinding_key previous_output out.asset out.value
          out.script_pubkey
    pk ← unwrap (c.nonce_commitment out.nonce)
    text ← c.decrypt key aes_nonce (drop 1 (c.pubkey_bytes pk))
    value_bytes ← slice_to 8 text
    ok (from_le_bytes value_bytes)

module _ (z : Zkp) (c : Cipher) (master_blinding_key : Bytes) where
  unfoldable pub unblind_output : OutPoint → TxOut → List AssetId → Outcome TxOutSecrets
  unfolding decrypt_value find_asset liquidex_derive_asset_blinder liquidex_derive_value_blinder
  unblind_output previous_output out assets = do
    fail_if (not (is_blinded out.asset out.value out.nonce)) (generic "LiquiDEX error 2")
    asset_blinder ← liquidex_derive_asset_blinder c master_blinding_key previous_output
    value_blinder ← liquidex_derive_value_blinder c master_blinding_key previous_output
    value ← decrypt_value c master_blinding_key previous_output out
    tx_asset_generator ← unwrap (c.asset_commitment out.asset)
    tx_value_commitment ← unwrap (c.value_commitment out.value)
    fail_if
        (not (nat_beq (z.commitment value value_blinder tx_asset_generator) tx_value_commitment))
        (generic "LiquiDEX error value commitment")
    asset ←
        ok_or (find_asset z asset_blinder tx_asset_generator assets)
          (generic "LiquiDEX error asset not found")
    ok (record { asset = asset; asset_bf = asset_blinder; value = value; value_bf = value_blinder })

  -- `assets` in the order in which the set is iterated.
  unfoldable pub liquidex_unblind : Transaction → ℕ → List AssetId → Outcome TxOutSecrets
  unfolding unblind_output
  liquidex_unblind tx vout assets = do
    fail_if (ltb (length tx.output) (vout + 1) || ltb (length tx.input) (vout + 1))
        (generic "LiquiDEX error 1")
    out ← unwrap (get_elem? tx.output vout)
    input ← unwrap (get_elem? tx.input vout)
    unblind_output input.previous_output out assets
