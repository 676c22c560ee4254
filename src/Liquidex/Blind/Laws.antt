-- ===== src/Liquidex/Blind/Laws.antt =====
-- src/liquidex.rs: what the blinding relies on of the encodings and of the cipher, and what it is
-- for an output to be the blinding of another.
use bewallet.Common.{◌≡◌, some, length, ℕ}
use bewallet.Outcome.{ok}
use bewallet.Word.Bytes.{Bytes}
use bewallet.Elements.{Asset, Value, Nonce, OutPoint, Script, TxOut, TxOutSecrets}
use bewallet.Liquidex.{Zkp}
use bewallet.Liquidex.Committed.{Commits}
use bewallet.Liquidex.Blind.{
  Cipher, liquidex_derive_asset_blinder, liquidex_derive_value_blinder, liquidex_aes_key,
  liquidex_aes_nonce, candidate_key,
}

pub record CipherLaws (c : Cipher) : Type 0 where
  -- what is serialised parses to itself, and `commitment` reads it
  pub asset_parses :
      (g : ℕ) → c.asset_from_commitment (c.generator_bytes g) ≡ ok (Asset.confidential g)
  pub value_parses :
      (p : ℕ) → c.value_from_commitment (c.commitment_bytes p) ≡ ok (Value.confidential p)
  pub nonce_parses :
      (k : ℕ) → c.nonce_from_commitment (c.pubkey_bytes k) ≡ ok (Nonce.confidential k)
  pub asset_commits : (g : ℕ) → c.asset_commitment (Asset.confidential g) ≡ some g
  pub value_commits : (p : ℕ) → c.value_commitment (Value.confidential p) ≡ some p
  pub nonce_commits : (k : ℕ) → c.nonce_commitment (Nonce.confidential k) ≡ some k
  -- 33 bytes that parse to a key are its serialisation
  pub pubkey_bytes_of :
      (bytes : Bytes) (k : ℕ)
      → length bytes ≡ 33
      → c.pubkey_from_slice bytes ≡ some k
      → c.pubkey_bytes k ≡ bytes
  pub decrypts :
      (key nonce text cipher_text : Bytes)
      → c.encrypt key nonce text ≡ ok cipher_text
      → c.decrypt key nonce cipher_text ≡ ok text

-- An output with the commitments to the secrets and a key as its nonce.
abbrev pub commit_to : Zkp → TxOutSecrets → ℕ → TxOut → TxOut
commit_to z s pk out =
    let g = z.new_blinded s.asset s.asset_bf in
    record out {
      asset = Asset.confidential g;
      value = Value.confidential (z.commitment s.value s.value_bf g);
      nonce = Nonce.confidential pk;
    }

-- The nonce is a key whose bytes encrypt the value.
pub record Hides (c : Cipher) (master_blinding_key : Bytes) (previous_output : OutPoint)
    (asset : Asset) (commitment : Value) (script : Script) (value : ℕ) (nonce : Nonce)
    : Type 0 where
  pub aes_nonce : Bytes
  pub aes_nonce_of :
      liquidex_aes_nonce c master_blinding_key previous_output asset commitment script
      ≡ ok aes_nonce
  pub pk : ℕ
  pub random : Bytes
  pub keyed :
      candidate_key c (liquidex_aes_key c master_blinding_key script) aes_nonce value random
      ≡ ok (some pk)
  pub is_key : nonce ≡ Nonce.confidential pk

module _ (c : Cipher) (master_blinding_key : Bytes) where
  -- `s` are the asset and the value of `out`, with the blinders that are derived of the outpoint.
  pub record Derives (previous_output : OutPoint) (out : TxOut) (s : TxOutSecrets) : Type 0 where
    pub asset : out.asset ≡ Asset.explicit s.asset
    pub value : out.value ≡ Value.explicit s.value
    pub asset_blinder :
        liquidex_derive_asset_blinder c master_blinding_key previous_output ≡ ok s.asset_bf
    pub value_blinder :
        liquidex_derive_value_blinder c master_blinding_key previous_output ≡ ok s.value_bf

module _ (z : Zkp) (c : Cipher) (master_blinding_key : Bytes) where
  -- `blinded` is `out` with commitments to its secrets, and its value hidden in the nonce.
  pub record Blinds (previous_output : OutPoint) (out blinded : TxOut) (s : TxOutSecrets)
      : Type 0 where
    pub derives : Derives c master_blinding_key previous_output out s
    pub commits : Commits z blinded s
    pub script : blinded.script_pubkey ≡ out.script_pubkey
    pub witness : blinded.witness ≡ out.witness
    pub hides :
        Hides c master_blinding_key previous_output blinded.asset blinded.value
          blinded.script_pubkey s.value blinded.nonce
