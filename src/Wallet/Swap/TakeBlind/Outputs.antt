-- ===== src/Wallet/Swap/TakeBlind/Outputs.antt =====
-- src/interface.rs: the maker's output with its proofs, and an output that is blinded.
use bewallet.Common.{ℕ, ◌≡◌, refl, sym, ap, subst, ◌∙◌, true, some, List, nat_eq}
use bewallet.Outcome.{ok, >>=-eq-ok, ok_inj}
use bewallet.Word.Bytes.{Bytes}
use bewallet.Elements.{AssetId, Asset, Value, Nonce, TxOut, TxOutSecrets}
use bewallet.Blinders.{derive_blinder}
use bewallet.Liquidex.{Zkp}
use bewallet.Liquidex.Committed.{Commits}
use bewallet.Liquidex.Blind.{Cipher}
use bewallet.Liquidex.Blind.Laws.{CipherLaws}
use bewallet.Wallet.Swap.Proofs.{
  CommitmentSecrets, Proven, prove, put_proofs, prove_maker, blind_explicit, choose_value_blinder,
  make_shared_secret,
}
use bewallet.Wallet.Swap.TakeBlind.{Round}

-- A blinded output with new proofs.
pub record Reproven (out out' : TxOut) : Type 0 where
  pub generator : ℕ
  pub commitment : ℕ
  pub blinded_asset : out.asset ≡ Asset.confidential generator
  pub blinded_value : out.value ≡ Value.confidential commitment
  pub surjection_proof : ℕ
  pub rangeproof : ℕ
  pub kept : out' ≡ record out {
    witness = record { surjection_proof = some surjection_proof; rangeproof = some rangeproof };
  }

-- An output that is blinded: it commits to its asset and its value, is to the same script, and has
-- proofs; its asset blinder is that of its index.
pub record Blinded (z : Zkp) (c : Cipher) (master_blinding hash_prevouts : Bytes) (i : ℕ)
    (out out' : TxOut) : Type 0 where
  pub secrets : TxOutSecrets
  pub asset : out.asset ≡ Asset.explicit secrets.asset
  pub value : out.value ≡ Value.explicit secrets.value
  pub asset_blinder :
      derive_blinder c.mac master_blinding hash_prevouts i true ≡ ok secrets.asset_bf
  pub commits : Commits z out' secrets
  pub key : ℕ
  pub nonce : out'.nonce ≡ Nonce.confidential key
  pub script : out'.script_pubkey ≡ out.script_pubkey
  pub surjection_proof : ℕ
  pub has_surjection_proof : out'.witness.surjection_proof ≡ some surjection_proof
  pub rangeproof : ℕ
  pub has_rangeproof : out'.witness.rangeproof ≡ some rangeproof

module _ (r : Round) (laws : CipherLaws r.c) where
  pub prove_maker-Reproven :
      (g p pk : ℕ) (out_secrets : List CommitmentSecrets) (out : TxOut)
      {result : TxOut × List CommitmentSecrets}
      → out.asset ≡ Asset.confidential g
      → out.value ≡ Value.confidential p
      → prove_maker r.env r.z r.c r.p r.master_blinding r.domain r.maker_output pk out_secrets out
        ≡ ok result
      → Reproven out result.0
  unfolding prove_maker put_proofs
  prove_maker-Reproven g p pk out_secrets out is_asset is_value run =
      let (shared, _, h₁) = >>=-eq-ok (make_shared_secret r.c r.p pk (r.p.secret_key 0)) _ run in
      let (q, _, done) =
        >>=-eq-ok
          (prove r.env r.z r.c r.p r.master_blinding 0 r.domain out.script_pubkey shared
            r.maker_output.asset r.maker_output.asset_bf r.maker_output.value
            r.maker_output.value_bf)
          _ h₁ in
      record {
        generator = g;
        commitment = p;
        blinded_asset = is_asset;
        blinded_value = is_value;
        surjection_proof = q.surjectionproof;
        rangeproof = q.rangeproof;
        kept = sym (ap (λ x. x.0) (ok_inj done));
      }

  prove-commits :
      (i : ℕ) (out : TxOut) (shared : ℕ) (t : TxOutSecrets) {q : Proven}
      → prove r.env r.z r.c r.p r.master_blinding i r.domain out.script_pubkey shared t.asset
          t.asset_bf t.value t.value_bf
        ≡ ok q
      → (q.generator ≡ r.z.new_blinded t.asset t.asset_bf)
        × (q.commitment ≡ r.z.commitment t.value t.value_bf (r.z.new_blinded t.asset t.asset_bf))
  unfolding prove
  prove-commits i out shared t run =
      let (rangeproof, _, h₁) = >>=-eq-ok (r.p.rangeproof _) _ run in
      let (surjectionproof, _, done) = >>=-eq-ok (r.p.surjectionproof _ _ _ _) _ h₁ in
      (sym (ap (λ x. x.generator) (ok_inj done)), sym (ap (λ x. x.commitment) (ok_inj done)))

  pub blind_explicit-Blinded :
      (i : ℕ) (asset : AssetId) (value pk : ℕ) (out_secrets : List CommitmentSecrets) (out : TxOut)
      {result : TxOut × List CommitmentSecrets}
      → out.asset ≡ Asset.explicit asset
      → out.value ≡ Value.explicit value
      → blind_explicit r.env r.z r.c r.p r.master_blinding i r.out_num r.hash_prevouts r.domain
          r.in_secrets out_secrets asset value pk out
        ≡ ok result
      → Blinded r.z r.c r.master_blinding r.hash_prevouts i out result.0
  unfolding blind_explicit put_proofs
  blind_explicit-Blinded i asset value pk out_secrets out {result} is_asset is_value run =
      let sender = r.p.from_secret_key (r.p.secret_key i) in
      let (shared, _, h₁) = >>=-eq-ok (make_shared_secret r.c r.p pk (r.p.secret_key i)) _ run in
      let (asset_bf, derived, h₂) =
        >>=-eq-ok (derive_blinder r.c.mac r.master_blinding r.hash_prevouts i true) _ h₁ in
      let ((value_bf, out_secrets'), _, h₃) =
        >>=-eq-ok
          (choose_value_blinder r.env r.z r.c r.p r.master_blinding i r.out_num r.hash_prevouts
            r.in_secrets out_secrets value asset_bf)
          _ h₂ in
      let t : TxOutSecrets = record {
        asset = asset;
        asset_bf = asset_bf;
        value = value;
        value_bf = value_bf;
      } in
      let (q, proven, h₄) =
        >>=-eq-ok
          (prove r.env r.z r.c r.p r.master_blinding i r.domain out.script_pubkey shared asset
            asset_bf value value_bf)
          _ h₃ in
      let (generates, opens) = prove-commits i out shared t proven in
      let (nonce, nonce_is, h₅) =
        >>=-eq-ok (r.c.nonce_from_commitment (r.c.pubkey_bytes sender)) _ h₄ in
      let (blinded_asset, asset_is, h₆) =
        >>=-eq-ok (r.c.asset_from_commitment (r.c.generator_bytes q.generator)) _ h₅ in
      let (blinded_value, value_is, done) =
        >>=-eq-ok (r.c.value_from_commitment (r.c.commitment_bytes q.commitment)) _ h₆ in
      subst (Blinded r.z r.c r.master_blinding r.hash_prevouts i out)
        (ap (λ (x : TxOut × List CommitmentSecrets). x.0) (ok_inj done))
        (record {
          secrets = t;
          asset = is_asset;
          value = is_value;
          asset_blinder = derived;
          commits = record {
            asset =
                ok_inj (sym asset_is ∙ laws.asset_parses q.generator)
                ∙ ap Asset.confidential generates;
            value =
                ok_inj (sym value_is ∙ laws.value_parses q.commitment)
                ∙ ap Value.confidential opens;
          };
          key = sender;
          nonce = ok_inj (sym nonce_is ∙ laws.nonce_parses sender);
          script = refl;
          surjection_proof = q.surjectionproof;
          has_surjection_proof = refl;
          rangeproof = q.rangeproof;
          has_rangeproof = refl;
        })
