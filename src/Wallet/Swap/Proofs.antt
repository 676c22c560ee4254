-- ===== src/Wallet/Swap/Proofs.antt =====
-- src/interface.rs: the messages and the shared secrets of range proofs, and the blinding of one
-- output of a swap. The curve, the proofs and the generator of random numbers are arguments; the
-- errors are those that `?` makes of the crates' own.
use bewallet.Common.{
  ℕ, ◌%◌, Bool, true, false, Option, some, List, [], ◌∷◌, ◌++◌, length, take, drop, get_last?, ltb,
  nat_beq, if◌then◌else◌, nat_eq,
}
use bewallet.Error.{generic}
use bewallet.Outcome.{Outcome, ok, ◌>>=◌, ◌>>◌, fail_if, unwrap}
use bewallet.Word.{sub_u64}
use bewallet.Word.Bytes.{Bytes, copy_from_slice, slice_to}
use bewallet.Elements.{Env, AssetId, Script, TxOut, TxOutSecrets, Transaction, outpoint_eq}
use bewallet.Blinders.{derive_blinder}
use bewallet.Liquidex.{Zkp}
use bewallet.Liquidex.Blind.{Cipher}

-- `CommitmentSecrets`
pub record CommitmentSecrets : Type 0 where
  pub value : ℕ
  pub value_blinder : ℕ
  pub asset_blinder : ℕ

-- An entry of the domain of a surjection proof: the generator, the tag and the asset blinder.
abbrev pub Domain : Type 0
Domain = List (ℕ × AssetId × ℕ)

-- The arguments of `RangeProof::new`.
pub record RangeProofArgs : Type 0 where
  pub min_value : ℕ
  pub commitment : ℕ
  pub value : ℕ
  pub value_blinder : ℕ
  pub message : Bytes
  pub additional : Script
  pub shared_secret : ℕ
  pub exp : ℕ
  pub min_bits : ℕ
  pub generator : ℕ

pub record Prover : Type 0 where
  -- `SecretKey::new` for the output of that index, and `PublicKey::from_secret_key`
  pub secret_key : ℕ → ℕ
  pub from_secret_key : ℕ → ℕ
  -- the coordinates of the shared point, and `SecretKey::from_slice`
  pub shared_point : ℕ → ℕ → Bytes × Bytes
  pub secret_key_from_slice : Bytes → Option ℕ
  pub rangeproof : RangeProofArgs → Outcome ℕ
  -- of the output of that index, which fixes the random numbers, an asset and its blinder
  pub surjectionproof : ℕ → AssetId → ℕ → Domain → Outcome ℕ
  -- `compute_adaptive_blinding_factor` of a value, an asset blinder, and the secrets of the inputs
  -- and of the other outputs
  pub adaptive : ℕ → ℕ → List CommitmentSecrets → List CommitmentSecrets → ℕ
  pub is_provably_unspendable : Script → Bool
  pub hash_prevouts : Transaction → Bytes
  -- the 32 bytes of an asset, and `from_slice`
  pub asset_bytes : AssetId → Bytes
  pub asset_from_slice : Bytes → Outcome AssetId

module _ (c : Cipher) (p : Prover) where
  -- Two arrays of 32 bytes, one behind the other.
  unfoldable pub make_rangeproof_message : AssetId → ℕ → Bytes
  make_rangeproof_message asset bf = p.asset_bytes asset ++ c.tweak_bytes bf

  unfoldable pub parse_rangeproof_message : Bytes → Outcome (AssetId × ℕ)
  parse_rangeproof_message message = do
    fail_if (ltb (length message) 64) (generic "Unexpected rangeproof message")
    asset ← p.asset_from_slice (take 32 message)
    asset_blinder ← c.mac.tweak_from_slice (take 32 (drop 32 message))
    ok (asset, asset_blinder)

  -- The compressed form of the shared point, hashed.
  unfoldable pub make_shared_secret : ℕ → ℕ → Outcome ℕ
  make_shared_secret pk sk = do
    let (x, y) = p.shared_point pk sk
    last ← unwrap (get_last? y)
    body ← copy_from_slice 32 x
    let dh_secret = (if nat_beq (last % 2) 0 then 2 else 3) ∷ body
    bytes ← slice_to 32 (c.sha256d dh_secret)
    unwrap (p.secret_key_from_slice bytes)

-- What an output is blinded with, besides its blinders.
pub record Proven : Type 0 where
  pub rangeproof : ℕ
  pub surjectionproof : ℕ
  pub generator : ℕ
  pub commitment : ℕ

module _ (env : Env) (z : Zkp) (c : Cipher) (p : Prover) (master_blinding : Bytes) where
  -- The commitments and the proofs of an output, alike for the maker's and for the others.
  unfoldable pub prove : ℕ → Domain → Script → ℕ → AssetId → ℕ → ℕ → ℕ → Outcome Proven
  unfolding make_rangeproof_message
  prove i domain script shared_secret asset asset_blinder value value_blinder = do
    let generator = z.new_blinded asset asset_blinder
    let commitment = z.commitment value value_blinder generator
    let min_value = if p.is_provably_unspendable script then 0 else 1
    let message = make_rangeproof_message c p asset asset_blinder
    rangeproof ← p.rangeproof (record {
      min_value = min_value;
      commitment = commitment;
      value = value;
      value_blinder = value_blinder;
      message = message;
      additional = script;
      shared_secret = shared_secret;
      exp = 0;
      min_bits = 52;
      generator = generator;
    })
    surjectionproof ← p.surjectionproof i asset asset_blinder domain
    ok (record {
      rangeproof = rangeproof;
      surjectionproof = surjectionproof;
      generator = generator;
      commitment = commitment;
    })

  unfoldable pub put_proofs : TxOut → Proven → TxOut
  put_proofs output q = record output {
    witness = record { surjection_proof = some q.surjectionproof; rangeproof = some q.rangeproof };
  }

  -- The value blinder of an output, and the secrets of the outputs so far: the last output before
  -- the fee takes the one that balances the transaction.
  unfoldable pub choose_value_blinder :
      ℕ
      → ℕ
      → Bytes
      → List CommitmentSecrets
      → List CommitmentSecrets
      → ℕ
      → ℕ
      → Outcome (ℕ × List CommitmentSecrets)
  choose_value_blinder i out_num hash_prevouts in_secrets out_secrets value asset_blinder = do
    bound ← sub_u64 env.build out_num 2
    let derived : Outcome (ℕ × List CommitmentSecrets) = (do
      value_blinder ← derive_blinder c.mac master_blinding hash_prevouts i false
      let secret : CommitmentSecrets = record {
        value = value;
        value_blinder = value_blinder;
        asset_blinder = asset_blinder;
      }
      ok (value_blinder, out_secrets ++ secret ∷ []))
    let last : Outcome (ℕ × List CommitmentSecrets) =
        ok (p.adaptive value asset_blinder in_secrets out_secrets, out_secrets)
    (if ltb i bound then derived else last)

  -- The maker's output, which is blinded already.
  unfoldable pub prove_maker :
      Domain
      → TxOutSecrets
      → ℕ
      → List CommitmentSecrets
      → TxOut
      → Outcome (TxOut × List CommitmentSecrets)
  unfolding make_shared_secret prove put_proofs
  prove_maker domain maker_output receiver out_secrets output = do
    shared_secret ← make_shared_secret c p receiver (p.secret_key 0)
    let secret : CommitmentSecrets = record {
      value = maker_output.value;
      value_blinder = maker_output.value_bf;
      asset_blinder = maker_output.asset_bf;
    }
    q ←
        prove 0 domain output.script_pubkey shared_secret maker_output.asset maker_output.asset_bf
          maker_output.value maker_output.value_bf
    ok (put_proofs output q, out_secrets ++ secret ∷ [])

  unfoldable pub blind_explicit :
      ℕ
      → ℕ
      → Bytes
      → Domain
      → List CommitmentSecrets
      → List CommitmentSecrets
      → AssetId
      → ℕ
      → ℕ
      → TxOut
      → Outcome (TxOut × List CommitmentSecrets)
  unfolding make_shared_secret prove put_proofs choose_value_blinder
  blind_explicit i out_num hash_prevouts domain in_secrets out_secrets asset value receiver output =
      do
        let sender_sk = p.secret_key i
        let sender_pk = p.from_secret_key sender_sk
        shared_secret ← make_shared_secret c p receiver sender_sk
        asset_blinder ← derive_blinder c.mac master_blinding hash_prevouts i true
        (value_blinder, out_secrets') ←
            choose_value_blinder i out_num hash_prevouts in_secrets out_secrets value asset_blinder
        q ←
            prove i domain output.script_pubkey shared_secret asset asset_blinder value
              value_blinder
        nonce ← c.nonce_from_commitment (c.pubkey_bytes sender_pk)
        blinded_asset ← c.asset_from_commitment (c.generator_bytes q.generator)
        blinded_value ← c.value_from_commitment (c.commitment_bytes q.commitment)
        ok (
          put_proofs (record output { nonce = nonce; asset = blinded_asset; value = blinded_value })
              q,
          out_secrets',
        )
