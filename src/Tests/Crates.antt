-- ===== src/Tests/Crates.antt =====
-- What the swaps call of other crates, made concrete.
use bewallet.Common.{
  ℕ, zero, suc, ◌-◌, ◌≡◌, refl, ap, sym, Bool, true, bytes_beq_iff, Option, none, some, [], ◌∷◌,
  ◌++◌, length, length-append, ◌∙◌, take, replicate, arith, bytes_eq, ◌==◌, if◌then◌else◌, false,
}
use bewallet.Outcome.{ok, ok_inj}
use bewallet.Word.Bytes.{Bytes}
use bewallet.Elements.{Asset, Value, Nonce}
use bewallet.Blinders.{Mac}
use bewallet.Liquidex.Blind.{Cipher}
use bewallet.Liquidex.Blind.Laws.{CipherLaws}
use bewallet.Wallet.Mnemonic.{Bip39}
use bewallet.Wallet.Swap.Proofs.{Prover}
use bewallet.Tests.Wallets.{signer}

abbrev pub mac : Mac
mac = record { hmac_sha256 = λ key message. message; tweak_from_slice = λ bytes. ok (length bytes) }

-- The one string of 33 bytes that is a key: 300 in little endian, and 24 zeros.
abbrev pub key_zero : Bytes
key_zero = 2 ∷ 44 ∷ 1 ∷ replicate 30 0

abbrev pub key_bytes : ℕ → Bytes
key_bytes zero = key_zero
key_bytes (suc n) = n ∷ []

abbrev pub key_of : Bytes → ℕ
key_of (n ∷ []) = suc n
key_of _ = 0

abbrev pub first_byte : Bytes → ℕ
first_byte [] = 0
first_byte (n ∷ bytes) = n

abbrev pub asset_commitment : Asset → Option ℕ
asset_commitment (Asset.confidential g) = some g
asset_commitment _ = none

abbrev pub value_commitment : Value → Option ℕ
value_commitment (Value.confidential p) = some p
value_commitment _ = none

abbrev pub nonce_commitment : Nonce → Option ℕ
nonce_commitment (Nonce.confidential k) = some k
nonce_commitment _ = none

-- The cipher adds a tag of 16 zeros.
abbrev pub cipher : Cipher
cipher = record {
  mac = mac;
  sha256 = λ m. replicate 32 0;
  sha256d = λ m. replicate 32 1;
  outpoint_bytes = λ p. [];
  tweak_bytes = λ t. t ∷ [];
  asset_bf_from_slice = λ bytes. ok 5;
  value_bf_from_slice = λ bytes. ok 6;
  generator_bytes = λ g. g ∷ [];
  commitment_bytes = λ p. p ∷ [];
  pubkey_bytes = key_bytes;
  pubkey_from_slice = λ bytes. if bytes == key_zero then some 0 else none;
  asset_from_commitment = λ bytes. ok (Asset.confidential (first_byte bytes));
  value_from_commitment = λ bytes. ok (Value.confidential (first_byte bytes));
  nonce_from_commitment = λ bytes. ok (Nonce.confidential (key_of bytes));
  asset_commitment = asset_commitment;
  value_commitment = value_commitment;
  nonce_commitment = nonce_commitment;
  encrypt = λ key nonce text. ok (text ++ replicate 16 0);
  decrypt = λ key nonce text. ok (take (length text - 16) text);
}

abbrev pub prover : Prover
prover = record {
  secret_key = λ i. i;
  from_secret_key = λ sk. sk;
  shared_point = λ pk sk. (replicate 32 pk, sk ∷ []);
  secret_key_from_slice = λ bytes. some 3;
  rangeproof = λ args. ok 7;
  surjectionproof = λ i asset bf domain. ok 8;
  adaptive = λ value bf ins outs. 9;
  is_provably_unspendable = λ script. false;
  hash_prevouts = λ tx. 1 ∷ [];
  asset_bytes = λ a. a ∷ [];
  asset_from_slice = λ bytes. ok (first_byte bytes);
}

abbrev pub bip39 : Bip39
bip39 = record {
  parse_in = λ words. ok 0;
  to_seed = λ words passphrase. [];
  new_master = λ seed. ok 0;
  account_path = λ coin. ok coin;
  derive_priv = λ xprv path. ok path;
  signer = λ xprv. signer;
}

pub laws : CipherLaws cipher
laws = record {
  asset_parses = λ g. refl;
  value_parses = λ p. refl;
  nonce_parses = key_parses;
  asset_commits = λ g. refl;
  value_commits = λ p. refl;
  nonce_commits = λ k. refl;
  pubkey_bytes_of = one_key;
  decrypts = λ key nonce text c e. decrypts text c e;
}
  where
    key_parses : (k : ℕ) → cipher.nonce_from_commitment (key_bytes k) ≡ ok (Nonce.confidential k)
    key_parses zero = refl
    key_parses (suc k) = refl

    one_key :
        (bytes : Bytes) (k : ℕ)
        → length bytes ≡ 33
        → (if bytes == key_zero then some 0 else none) ≡ some k
        → key_bytes k ≡ bytes
    one_key bytes k h e = found (bytes == key_zero) refl k e
      where
        found :
            (b : Bool)
            → (bytes == key_zero) ≡ b
            → (k : ℕ) → (if b then some 0 else none) ≡ some k
            → key_bytes k ≡ bytes
        found true e zero f = sym ((bytes_beq_iff bytes key_zero).0 e)
        found true e (suc k) f = absurd cc
        found false e k f = absurd cc

    take-append : (xs ys : Bytes) → take (length xs) (xs ++ ys) ≡ xs
    take-append [] [] = refl
    take-append [] (y ∷ ys) = refl
    take-append (x ∷ xs) ys = ap (λ l. x ∷ l) (take-append xs ys)

    decrypts :
        (text c : Bytes)
        → ok (text ++ replicate 16 0) ≡ ok c
        → ok (take (length c - 16) c) ≡ ok text
    decrypts text c e =
        let tag : Bytes = replicate 16 0 in
        let size : length (text ++ tag) - 16 ≡ length text =
          omega (arith, length-append text tag) in
        let whole : take (length (text ++ tag) - 16) (text ++ tag) ≡ text =
          ap (λ n. take n (text ++ tag)) size ∙ take-append text tag in
        ap ok (ap (λ l. take (length l - 16) l) (sym (ok_inj e)) ∙ whole)
