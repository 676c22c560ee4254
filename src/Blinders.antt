-- ===== src/Blinders.antt =====
-- src/utils.rs: the blinders of an output, from the hash of the spent outpoints. The hashes and the
-- parser of tweaks are arguments.
use bewallet.Common.{ℕ, ◌/◌, ◌%◌, ◌^◌, ◌<◌, ◌≡◌, refl, arith, Bool, true, false, [], ◌∷◌}
use bewallet.Outcome.{Outcome}
use bewallet.Word.Bytes.{Bytes}

pub record Mac : Type 0 where
  -- of a key and a message, a digest
  pub hmac_sha256 : Bytes → Bytes → Bytes
  pub tweak_from_slice : Bytes → Outcome ℕ

-- `b'A'` and `b'V'`
abbrev start : Bool → ℕ
start true = 65
start false = 86

-- The start, "BF", and the index of the output in big endian.
unfoldable pub blinder_message : ℕ → Bool → Bytes
blinder_message vout is_asset_blinder =
    start is_asset_blinder
    ∷ 66
    ∷ 70
    ∷ vout / 2 ^ 24 % 256
    ∷ vout / 2 ^ 16 % 256
    ∷ vout / 2 ^ 8 % 256
    ∷ vout % 256
    ∷ []

unfoldable pub derive_blinder : Mac → Bytes → Bytes → ℕ → Bool → Outcome ℕ
unfolding blinder_message
derive_blinder mac master_blinding_key hash_prevouts vout is_asset_blinder =
    let key2 = mac.hmac_sha256 master_blinding_key hash_prevouts in
    let blinder = mac.hmac_sha256 key2 (blinder_message vout is_asset_blinder) in
    mac.tweak_from_slice blinder

index_injective :
    (v w : ℕ)
    → v < 2 ^ 32
    → w < 2 ^ 32
    → v / 2 ^ 24 % 256 ≡ w / 2 ^ 24 % 256
    → v / 2 ^ 16 % 256 ≡ w / 2 ^ 16 % 256
    → v / 2 ^ 8 % 256 ≡ w / 2 ^ 8 % 256
    → v % 256 ≡ w % 256
    → v ≡ w
index_injective v w h k e₁ e₂ e₃ e₄ = omega arith

kind_injective : (a b : Bool) → start a ≡ start b → a ≡ b
kind_injective true true e = refl
kind_injective true false e = absurd (omega arith)
kind_injective false true e = absurd (omega arith)
kind_injective false false e = refl

-- The messages from which the blinders of one transaction are derived differ for different outputs,
-- and for the asset and the value of one output.
blinder_message-injective :
    (v w : ℕ) (a b : Bool)
    → v < 2 ^ 32
    → w < 2 ^ 32
    → blinder_message v a ≡ blinder_message w b
    → (v ≡ w) × (a ≡ b)
unfolding blinder_message
blinder_message-injective v w a b h k e =
    let e₁ : v / 2 ^ 24 % 256 ≡ w / 2 ^ 24 % 256 = cc in
    let e₂ : v / 2 ^ 16 % 256 ≡ w / 2 ^ 16 % 256 = cc in
    let e₃ : v / 2 ^ 8 % 256 ≡ w / 2 ^ 8 % 256 = cc in
    let e₄ : v % 256 ≡ w % 256 = cc in
    let same : start a ≡ start b = cc in
    (index_injective v w h k e₁ e₂ e₃ e₄, kind_injective a b same)
