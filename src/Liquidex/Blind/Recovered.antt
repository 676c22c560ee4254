-- ===== src/Liquidex/Blind/Recovered.antt =====
-- src/liquidex.rs: the secrets of the maker's output, hidden and recovered.
use bewallet.Common.{
  ℕ, zero, suc, ◌+◌, ◌<◌, ◌^◌, ◌≡◌, length-append, refl, sym, ap, subst, ◌∙◌, some, arith, List, [],
  ◌∷◌, ◌++◌, length, get_elem?, ◌||◌, nat_beq, nat_beq_iff, In, inl, inr, ltb, leb, if◌then◌else◌,
  false≢true, true, false, Bool,
}
use bewallet.Outcome.{ok, >>=-eq-ok, ok_inj}
use bewallet.Word.Bytes.{
  Bytes, to_le_bytes, from_le_bytes-to_le_bytes, take-to_le_bytes, length-to_le_bytes,
  copy_from_slice,
}
use bewallet.Elements.{
  AssetId, Asset, Value, Nonce, OutPoint, TxIn, TxOut, TxOutSecrets, Transaction,
}
use bewallet.Liquidex.{Zkp}
use bewallet.Liquidex.Blind.{
  Cipher, liquidex_aes_key, candidate_key, find_asset, decrypt_value, unblind_output,
  liquidex_unblind, liquidex_blind,
}
use bewallet.Liquidex.Blind.Laws.{CipherLaws, Hides, Blinds}
use bewallet.Liquidex.Blind.Blinded.{liquidex_blind-Blinds}

-- What a round's key hides.
candidate_key-encrypt :
    (c : Cipher) (key nonce : Bytes) (value : ℕ) (random : Bytes) {pk : ℕ}
    → candidate_key c key nonce value random ≡ ok (some pk)
    → (text : Bytes) × (c.encrypt key nonce (to_le_bytes 8 value ++ random) ≡ ok text)
      × (length text ≡ 32)
      × (c.pubkey_from_slice (2 ∷ text) ≡ some pk)
unfolding candidate_key
candidate_key-encrypt c key nonce value random run =
    let (text, encrypted, h₁) = >>=-eq-ok (c.encrypt key nonce _) _ run in
    let (body, copied, h₂) = >>=-eq-ok (copy_from_slice 32 text) _ h₁ in
    let (sized, same) = copy_from_slice-same 32 text copied in
    (text, encrypted, sized, ap (λ b. c.pubkey_from_slice (2 ∷ b)) (sym same) ∙ ok_inj h₂)
  where
    copy_from_slice-same :
        (n : ℕ) (bytes : Bytes) {b : Bytes}
        → copy_from_slice n bytes ≡ ok b
        → (length bytes ≡ n) × (b ≡ bytes)
    copy_from_slice-same n bytes h = ground arith

find_asset-finds :
    (z : Zkp) (bf : ℕ) (asset : AssetId) (assets : List AssetId)
    → In asset assets
    → ((other : AssetId)
        → In other assets
        → z.new_blinded other bf ≡ z.new_blinded asset bf
        → other ≡ asset)
    → find_asset z bf (z.new_blinded asset bf) assets ≡ some asset
unfolding find_asset
find_asset-finds z bf asset [] h distinct = elim h [ ]
find_asset-finds z bf asset (a ∷ assets) h distinct =
    first (nat_beq (z.new_blinded a bf) (z.new_blinded asset bf)) refl
      (λ k. find_asset-finds z bf asset assets k (λ other l e. distinct other (inr l) e)) h
  where
    first :
        (q : Bool)
        → nat_beq (z.new_blinded a bf) (z.new_blinded asset bf) ≡ q
        → (In asset assets → find_asset z bf (z.new_blinded asset bf) assets ≡ some asset)
        → In asset (a ∷ assets)
        → (if q then some a else find_asset z bf (z.new_blinded asset bf) assets) ≡ some asset
    first true e ih k = ap some (distinct a (inl refl) ((nat_beq_iff (z.new_blinded a bf) _).0 e))
    first false e ih (inl same) = absurd (
        false≢true
          (sym e ∙ (nat_beq_iff (z.new_blinded a bf) _).1 (ap (λ x. z.new_blinded x bf) same)))
    first false e ih (inr k) = ih k

module _ (c : Cipher) (laws : CipherLaws c) (master_blinding_key : Bytes) where
  decrypt_value-Hides :
      (previous_output : OutPoint) (out : TxOut) (value : ℕ)
      → Hides c master_blinding_key previous_output out.asset out.value out.script_pubkey value
          out.nonce
      → value < 256 ^ 8
      → decrypt_value c master_blinding_key previous_output out ≡ ok value
  unfolding decrypt_value
  decrypt_value-Hides previous_output out value h fits =
      let key = liquidex_aes_key c master_blinding_key out.script_pubkey in
      let (text, encrypted, sized, parsed) =
        candidate_key-encrypt c key h.aes_nonce value h.random h.keyed in
      let bytes : c.pubkey_bytes h.pk ≡ 2 ∷ text =
        laws.pubkey_bytes_of (2 ∷ text) h.pk (omega (arith, sized)) parsed in
      let plain = to_le_bytes 8 value ++ h.random in
      let size : length plain ≡ 8 + length h.random =
        length-append (to_le_bytes 8 value) h.random
        ∙ ap (λ n. n + length h.random) (length-to_le_bytes 8 value) in
      let long : leb 8 (length plain) ≡ true = rw size (ground arith) in
      rw
        (
          h.aes_nonce_of,
          h.is_key,
          laws.nonce_commits h.pk,
          bytes,
          laws.decrypts key h.aes_nonce plain text encrypted,
          long,
          take-to_le_bytes 8 value h.random,
          from_le_bytes-to_le_bytes 8 value fits,
        )
        refl

module _ (z : Zkp) (c : Cipher) (laws : CipherLaws c) (master_blinding_key : Bytes) where
  unblind_output-Blinds :
      (previous_output : OutPoint) (out blinded final : TxOut) (s : TxOutSecrets)
      (assets : List AssetId)
      → Blinds z c master_blinding_key previous_output out blinded s
      → final ≡ record blinded { witness = final.witness }
      → s.value < 2 ^ 64
      → In s.asset assets
      → ((other : AssetId)
          → In other assets
          → z.new_blinded other s.asset_bf ≡ z.new_blinded s.asset s.asset_bf
          → other ≡ s.asset)
      → unblind_output z c master_blinding_key previous_output final assets ≡ ok s
  unfolding unblind_output
  unblind_output-Blinds previous_output out blinded final s assets b same fits known distinct =
      let g = z.new_blinded s.asset s.asset_bf in
      let p = z.commitment s.value s.value_bf g in
      let is_asset : final.asset ≡ Asset.confidential g =
        ap (λ o. o.asset) same ∙ b.commits.asset in
      let is_value : final.value ≡ Value.confidential p =
        ap (λ o. o.value) same ∙ b.commits.value in
      let is_key : final.nonce ≡ Nonce.confidential b.hides.pk =
        ap (λ o. o.nonce) same ∙ b.hides.is_key in
      let hides : Hides c master_blinding_key previous_output final.asset final.value
          final.script_pubkey s.value final.nonce =
        subst
          (λ o.
            Hides c master_blinding_key previous_output o.asset o.value o.script_pubkey s.value
              o.nonce)
          (sym same) b.hides in
      let value : decrypt_value c master_blinding_key previous_output final ≡ ok s.value =
        decrypt_value-Hides c laws master_blinding_key previous_output final s.value hides
          (omega (arith, fits)) in
      rw
        (
          value,
          is_asset,
          is_value,
          is_key,
          b.derives.asset_blinder,
          b.derives.value_blinder,
          laws.asset_commits g,
          laws.value_commits p,
          (nat_beq_iff p p).1 refl,
          find_asset-finds z s.asset_bf s.asset assets known distinct,
        )
        refl

-- `final` keeps the first input and output of a transaction, but for signatures and proofs.
pub record KeepsFirst (tx final : Transaction) : Type 0 where
  pub input : TxIn
  pub spent : TxIn
  pub out : TxOut
  pub made : TxOut
  pub input_at : get_elem? final.input 0 ≡ some input
  pub spent_at : get_elem? tx.input 0 ≡ some spent
  pub out_at : get_elem? final.output 0 ≡ some out
  pub made_at : get_elem? tx.output 0 ≡ some made
  pub outpoint : input.previous_output ≡ spent.previous_output
  pub output : out ≡ record made { witness = out.witness }

in_bounds : {A : Type 0} (xs : List A) (i : ℕ) {x : A} → get_elem? xs i ≡ some x → i < length xs
in_bounds [] i h = absurd cc
in_bounds (x ∷ xs) zero h = omega arith
in_bounds (x ∷ xs) (suc i) h = omega (arith, in_bounds xs i h)

some_inj : {A : Type 0} {a b : A} → some a ≡ some b → a ≡ b
some_inj e = cc

module _ (z : Zkp) (c : Cipher) (laws : CipherLaws c) (master_blinding_key : Bytes) where
  unblinds_at :
      (tx : Transaction) (vout : ℕ) (out : TxOut) (input : TxIn) (assets : List AssetId)
      → get_elem? tx.output vout ≡ some out
      → get_elem? tx.input vout ≡ some input
      → liquidex_unblind z c master_blinding_key tx vout assets
        ≡ unblind_output z c master_blinding_key input.previous_output out assets
  unfolding liquidex_unblind
  unblinds_at tx vout out input assets out_at input_at =
      let fits : (ltb (length tx.output) (vout + 1) || ltb (length tx.input) (vout + 1)) ≡ false =
        ground (arith, in_bounds tx.output vout out_at, in_bounds tx.input vout input_at) in
      rw (fits, out_at, input_at) refl

  -- What `liquidex_blind` hides, `liquidex_unblind` recovers with the same key, from any
  -- transaction whose first output and input are those of the proposal but for the proofs and the
  -- signature, if the value is a `u64`, the asset is among those looked for, and no other of these
  -- has the same generator.
  -- The encodings of commitments and keys are assumed to parse to what was encoded.
  -- What is encrypted is assumed to decrypt.
  pub liquidex_unblind-liquidex_blind :
      (random : ℕ → Bytes) (rounds : ℕ) (tx made final : Transaction) (s : TxOutSecrets)
      (assets : List AssetId)
      → liquidex_blind z c master_blinding_key random rounds tx ≡ ok (made, s)
      → KeepsFirst made final
      → s.value < 2 ^ 64
      → In s.asset assets
      → ((other : AssetId)
          → In other assets
          → z.new_blinded other s.asset_bf ≡ z.new_blinded s.asset s.asset_bf
          → other ≡ s.asset)
      → liquidex_unblind z c master_blinding_key final 0 assets ≡ ok s
  liquidex_unblind-liquidex_blind random rounds tx made final s assets run k fits known distinct =
      let (input, out, blinded, inputs, outputs, made_is, b) =
        liquidex_blind-Blinds z c laws master_blinding_key random rounds tx run in
      let is_out : k.made ≡ blinded =
        some_inj (sym k.made_at ∙ ap (λ (t : Transaction). get_elem? t.output 0) made_is) in
      let is_in : k.spent ≡ input = some_inj (
        sym k.spent_at
        ∙ ap (λ (t : Transaction). get_elem? t.input 0) made_is
        ∙ ap (λ l. get_elem? l 0) inputs) in
      let outpoint : input.previous_output ≡ k.input.previous_output =
        sym (k.outpoint ∙ ap (λ i. i.previous_output) is_in) in
      let b' : Blinds z c master_blinding_key k.input.previous_output out k.made s =
        subst (λ o. Blinds z c master_blinding_key o out k.made s) outpoint
          (subst (λ o. Blinds z c master_blinding_key input.previous_output out o s) (sym is_out)
            b) in
      unblinds_at final 0 k.out k.input assets k.out_at k.input_at
      ∙ unblind_output-Blinds z c laws master_blinding_key k.input.previous_output out k.made k.out
          s assets b' k.output fits known distinct
