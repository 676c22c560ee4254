-- ===== src/Liquidex/Blind/Opened.antt =====
-- src/liquidex.rs: the secrets that `liquidex_unblind` returns, and the commitments.
use bewallet.Common.{
  ℕ, ◌+◌, ◌≡◌, refl, sym, ap, subst, ◌∙◌, Option, none, some, arith, List, [], ◌∷◌, length,
  get_elem?, not, ◌||◌, nat_beq, nat_beq_iff, In, inl, inr, ltb, if◌then◌else◌, true, false, Bool,
}
use bewallet.Error.{Error, generic}
use bewallet.Outcome.{ok, fail_if, unwrap, ok_or, >>=-eq-ok, ok_inj}
use bewallet.Word.Bytes.{Bytes}
use bewallet.Elements.{
  AssetId, Asset, Value, Nonce, OutPoint, TxIn, TxOut, TxOutSecrets, Transaction,
}
use bewallet.Liquidex.{Zkp}
use bewallet.Liquidex.Committed.{Commits}
use bewallet.Liquidex.Blind.{
  Cipher, find_asset, decrypt_value, unblind_output, liquidex_unblind,
  liquidex_derive_asset_blinder, liquidex_derive_value_blinder, is_blinded,
}
use bewallet.Liquidex.Blind.Laws.{CipherLaws}

some_inj : {A : Type 0} {a b : A} → some a ≡ some b → a ≡ b
some_inj e = cc

unwrap-some : {A : Type 0} (o : Option A) {a : A} → unwrap o ≡ ok a → o ≡ some a
unwrap-some none h = absurd cc
unwrap-some (some b) h = cc

find_asset_sound :
    (z : Zkp) (bf generator : ℕ) (assets : List AssetId) {asset : AssetId}
    → find_asset z bf generator assets ≡ some asset
    → In asset assets × (z.new_blinded asset bf ≡ generator)
unfolding find_asset
find_asset_sound z bf generator [] h = absurd cc
find_asset_sound z bf generator (a ∷ assets) {asset} h =
    first (nat_beq (z.new_blinded a bf) generator) refl (find_asset_sound z bf generator assets) h
  where
    first :
        (q : Bool)
        → nat_beq (z.new_blinded a bf) generator ≡ q
        → (find_asset z bf generator assets ≡ some asset
            → In asset assets × (z.new_blinded asset bf ≡ generator))
        → (if q then some a else find_asset z bf generator assets) ≡ some asset
        → In asset (a ∷ assets) × (z.new_blinded asset bf ≡ generator)
    first true e ih k =
        let same : a ≡ asset = cc in
        let is_it = (nat_beq_iff (z.new_blinded a bf) generator).0 e in
        (inl same, ap (λ x. z.new_blinded x bf) (sym same) ∙ is_it)
    first false e ih k = (inr (ih k).0, (ih k).1)

ok_or-some : {A : Type 0} (o : Option A) (e : Error) {a : A} → ok_or o e ≡ ok a → o ≡ some a
ok_or-some none e h = absurd cc
ok_or-some (some b) e h = cc

checked_equal : (a b : ℕ) (e : Error) {u : Unit {0}} → fail_if (not (nat_beq a b)) e ≡ ok u → a ≡ b
checked_equal a b e h = ground arith

is_blinded-shape :
    (a : Asset) (v : Value) (n : Nonce) (e : Error) {u : Unit {0}}
    → fail_if (not (is_blinded a v n)) e ≡ ok u
    → (g : ℕ) × (p : ℕ) × (a ≡ Asset.confidential g) × (v ≡ Value.confidential p)
is_blinded-shape Asset.null v n e h = absurd cc
is_blinded-shape (Asset.explicit a) v n e h = absurd cc
is_blinded-shape (Asset.confidential g) Value.null n e h = absurd cc
is_blinded-shape (Asset.confidential g) (Value.explicit v) n e h = absurd cc
is_blinded-shape (Asset.confidential g) (Value.confidential p) n e h = (g, p, refl, refl)

module _ (z : Zkp) (c : Cipher) (laws : CipherLaws c) (master_blinding_key : Bytes) where
  unblind_output-Commits :
      (previous_output : OutPoint) (out : TxOut) (assets : List AssetId) {s : TxOutSecrets}
      → unblind_output z c master_blinding_key previous_output out assets ≡ ok s
      → In s.asset assets
        × Commits z out s
        × (liquidex_derive_asset_blinder c master_blinding_key previous_output ≡ ok s.asset_bf)
  unfolding unblind_output
  unblind_output-Commits previous_output out assets {s} run =
      let (_, blinded, h₁) = >>=-eq-ok (fail_if _ _) _ run in
      let (g, p, is_asset, is_value) = is_blinded-shape out.asset out.value out.nonce _ blinded in
      let (asset_bf, derived, h₂) =
        >>=-eq-ok (liquidex_derive_asset_blinder c master_blinding_key previous_output) _ h₁ in
      let (value_bf, _, h₃) =
        >>=-eq-ok (liquidex_derive_value_blinder c master_blinding_key previous_output) _ h₂ in
      let (value, _, h₄) =
        >>=-eq-ok (decrypt_value c master_blinding_key previous_output out) _ h₃ in
      let (generator, g_is, h₅) = >>=-eq-ok (unwrap (c.asset_commitment out.asset)) _ h₄ in
      let (commitment, p_is, h₆) = >>=-eq-ok (unwrap (c.value_commitment out.value)) _ h₅ in
      let (_, checked, h₇) = >>=-eq-ok (fail_if _ _) _ h₆ in
      let (asset, found, done) =
        >>=-eq-ok (ok_or (find_asset z asset_bf generator assets) _) _ h₇ in
      let same_g : g ≡ generator =
        some_inj (
          sym (laws.asset_commits g) ∙ ap c.asset_commitment (sym is_asset) ∙ unwrap-some _ g_is) in
      let same_p : p ≡ commitment =
        some_inj (
          sym (laws.value_commits p) ∙ ap c.value_commitment (sym is_value) ∙ unwrap-some _ p_is) in
      let opens = checked_equal (z.commitment value value_bf generator) commitment _ checked in
      let (known, generates) =
        find_asset_sound z asset_bf generator assets (ok_or-some _ _ found) in
      subst
        (λ (t : TxOutSecrets).
          In t.asset assets
          × Commits z out t
          × (liquidex_derive_asset_blinder c master_blinding_key previous_output ≡ ok t.asset_bf))
        (ok_inj done)
        (
          known,
          record {
            asset = is_asset ∙ ap Asset.confidential (same_g ∙ sym generates);
            value =
                is_value
                ∙ ap Value.confidential
                    (same_p ∙ sym opens ∙ ap (z.commitment value value_bf) (sym generates));
          },
          derived,
        )

module _ (z : Zkp) (c : Cipher) (laws : CipherLaws c) (master_blinding_key : Bytes) where
  -- Secrets that `liquidex_unblind` returns for an output are the opening of its two commitments,
  -- for an asset among those looked for, with the asset blinder that is derived of the outpoint
  -- that the input of the same index spends.
  -- The encodings of commitments and keys are assumed to parse to what was encoded.
  pub liquidex_unblind-Commits :
      (tx : Transaction) (vout : ℕ) (assets : List AssetId) {s : TxOutSecrets}
      → liquidex_unblind z c master_blinding_key tx vout assets ≡ ok s
      → (out : TxOut) × (input : TxIn) × (get_elem? tx.output vout ≡ some out)
        × (get_elem? tx.input vout ≡ some input)
        × In s.asset assets
        × Commits z out s
        × (liquidex_derive_asset_blinder c master_blinding_key input.previous_output
            ≡ ok s.asset_bf)
  unfolding liquidex_unblind
  liquidex_unblind-Commits tx vout assets {s} run =
      let (_, _, h₁) =
        >>=-eq-ok
          (fail_if (ltb (length tx.output) (vout + 1) || ltb (length tx.input) (vout + 1))
            (generic "LiquiDEX error 1"))
          _ run in
      let (out, out_at, h₂) = >>=-eq-ok (unwrap (get_elem? tx.output vout)) _ h₁ in
      let (input, input_at, h₃) = >>=-eq-ok (unwrap (get_elem? tx.input vout)) _ h₂ in
      let opened =
        unblind_output-Commits z c laws master_blinding_key input.previous_output out assets h₃ in
      (
        out,
        input,
        unwrap-some (get_elem? tx.output vout) out_at,
        unwrap-some (get_elem? tx.input vout) input_at,
        opened.0,
        opened.1,
        opened.2,
      )
