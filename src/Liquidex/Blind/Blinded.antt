-- ===== src/Liquidex/Blind/Blinded.antt =====
-- src/liquidex.rs: what `liquidex_blind` makes of the maker's output, and how it ends.
use bewallet.Common.{
  ℕ, ◌<◌, ◌≡◌, refl, sym, ap, subst, ◌∙◌, Option, none, some, arith, List, [], ◌∷◌, length,
  get_elem?, set, not, ◌||◌, nat_beq,
}
use bewallet.Error.{Error}
use bewallet.Outcome.{Outcome, ok, fail_if, unwrap, >>=-eq-ok, ok_inj}
use bewallet.Word.Bytes.{Bytes}
use bewallet.Elements.{
  Asset, Value, Nonce, OutPoint, Script, TxIn, TxOut, TxOutSecrets, Transaction,
}
use bewallet.Liquidex.{Zkp}
use bewallet.Liquidex.Blind.{
  Cipher, explicit_output, liquidex_derive_asset_blinder, liquidex_derive_value_blinder,
  liquidex_aes_key, liquidex_aes_nonce, candidate_key, search_key, hide_value, commit_output,
  derive_secrets, blind_output, liquidex_blind,
}
use bewallet.Liquidex.Blind.Laws.{CipherLaws, commit_to, Hides, Derives, Blinds}
use bewallet.Liquidex.Blind.Search.{search_key-found, search_key-first}

explicit_output-explicit :
    (a : Asset) (v : Value) {asset value : ℕ}
    → explicit_output a v ≡ ok (asset, value)
    → (a ≡ Asset.explicit asset) × (v ≡ Value.explicit value)
unfolding explicit_output
explicit_output-explicit Asset.null v h = absurd cc
explicit_output-explicit (Asset.confidential g) v h = absurd cc
explicit_output-explicit (Asset.explicit a) Value.null h = absurd cc
explicit_output-explicit (Asset.explicit a) (Value.confidential p) h = absurd cc
explicit_output-explicit (Asset.explicit a) (Value.explicit v) h = (cc, cc)

commit_output-commits :
    (z : Zkp) (c : Cipher) (laws : CipherLaws c) (s : TxOutSecrets)
    → commit_output z c s
      ≡ ok (
        Asset.confidential (z.new_blinded s.asset s.asset_bf),
        Value.confidential (z.commitment s.value s.value_bf (z.new_blinded s.asset s.asset_bf)),
      )
unfolding commit_output
commit_output-commits z c laws s = rw (laws.asset_parses _, laws.value_parses _) refl

single : {A : Type 0} (xs : List A) → length xs ≡ 1 → (x : A) × (xs ≡ x ∷ [])
single [] h = absurd (omega arith)
single (x ∷ []) h = (x, refl)
single (x ∷ y ∷ xs) h = absurd (omega arith)

-- The first check passes for one input and one output only.
counts :
    (inputs outputs : ℕ) (e : Error) {u : Unit {0}}
    → fail_if (not (nat_beq inputs 1) || not (nat_beq outputs 1)) e ≡ ok u
    → (inputs ≡ 1) × (outputs ≡ 1)
counts inputs outputs e h = ground arith

module _ (c : Cipher) (laws : CipherLaws c) (master_blinding_key : Bytes) (random : ℕ → Bytes)
    (rounds : ℕ) where
  hide_value-Hides :
      (previous_output : OutPoint) (asset : Asset) (commitment : Value) (script : Script)
      (value : ℕ) {nonce : Nonce}
      → hide_value c master_blinding_key random rounds previous_output asset commitment script value
        ≡ ok nonce
      → Hides c master_blinding_key previous_output asset commitment script value nonce
  unfolding hide_value
  hide_value-Hides previous_output asset commitment script value run =
      let key = liquidex_aes_key c master_blinding_key script in
      let (aes_nonce, aes_nonce_of, h₁) =
        >>=-eq-ok (liquidex_aes_nonce c master_blinding_key previous_output asset commitment script)
          _ run in
      let candidate : ℕ → Outcome (Option ℕ) =
        λ i. candidate_key c key aes_nonce value (random i) in
      let (pk, searched, h₂) = >>=-eq-ok (search_key candidate rounds 0) _ h₁ in
      let (k, keyed) = search_key-found candidate rounds 0 searched in
      record {
        aes_nonce = aes_nonce;
        aes_nonce_of = aes_nonce_of;
        pk = pk;
        random = random k;
        keyed = keyed;
        is_key = ok_inj (sym h₂ ∙ laws.nonce_parses pk);
      }

module _ (c : Cipher) (master_blinding_key : Bytes) where
  derive_secrets-Derives :
      (previous_output : OutPoint) (out : TxOut) {s : TxOutSecrets}
      → derive_secrets c master_blinding_key previous_output out ≡ ok s
      → Derives c master_blinding_key previous_output out s
  unfolding derive_secrets
  derive_secrets-Derives previous_output out {s} run =
      let ((asset, value), explicit, h₁) = >>=-eq-ok (explicit_output out.asset out.value) _ run in
      let (asset_bf, asset_blinder, h₂) =
        >>=-eq-ok (liquidex_derive_asset_blinder c master_blinding_key previous_output) _ h₁ in
      let (value_bf, value_blinder, h₃) =
        >>=-eq-ok (liquidex_derive_value_blinder c master_blinding_key previous_output) _ h₂ in
      let (is_asset, is_value) = explicit_output-explicit out.asset out.value explicit in
      subst (Derives c master_blinding_key previous_output out) (ok_inj h₃) (record {
        asset = is_asset;
        value = is_value;
        asset_blinder = asset_blinder;
        value_blinder = value_blinder;
      })

module _ (z : Zkp) (c : Cipher) (laws : CipherLaws c) (master_blinding_key : Bytes)
    (random : ℕ → Bytes) (rounds : ℕ) where
  blind_output-Blinds :
      (previous_output : OutPoint) (out : TxOut) {blinded : TxOut} {s : TxOutSecrets}
      → blind_output z c master_blinding_key random rounds previous_output out ≡ ok (blinded, s)
      → Blinds z c master_blinding_key previous_output out blinded s
  unfolding blind_output
  blind_output-Blinds previous_output out {blinded} {s} run =
      let (t, derived, h₁) =
        >>=-eq-ok (derive_secrets c master_blinding_key previous_output out) _ run in
      let ((asset, value), committed, h₂) = >>=-eq-ok (commit_output z c t) _ h₁ in
      let (nonce, hidden, done) =
        >>=-eq-ok
          (hide_value c master_blinding_key random rounds previous_output asset value
            out.script_pubkey t.value)
          _ h₂ in
      let commitments = ok_inj (sym committed ∙ commit_output-commits z c laws t) in
      subst (λ r. Blinds z c master_blinding_key previous_output out r.0 r.1) (ok_inj done)
        (record {
          derives = derive_secrets-Derives c master_blinding_key previous_output out derived;
          commits = record { asset = ap (λ r. r.0) commitments; value = ap (λ r. r.1) commitments };
          script = refl;
          witness = refl;
          hides =
              hide_value-Hides c laws master_blinding_key random rounds previous_output asset value
                out.script_pubkey t.value hidden;
        })

  -- A transaction that `liquidex_blind` returns is the one that it was given, which has one input
  -- and one output, with that output blinded: it commits to the secrets returned, which are its
  -- asset and its value under blinders derived of the outpoint that is spent, and its nonce hides
  -- the value.
  pub liquidex_blind-Blinds :
      (tx : Transaction) {tx' : Transaction} {s : TxOutSecrets}
      → liquidex_blind z c master_blinding_key random rounds tx ≡ ok (tx', s)
      → (input : TxIn) × (out : TxOut) × (blinded : TxOut) × (tx.input ≡ input ∷ [])
        × (tx.output ≡ out ∷ [])
        × (tx' ≡ record tx { output = blinded ∷ [] })
        × Blinds z c master_blinding_key input.previous_output out blinded s
  unfolding liquidex_blind
  liquidex_blind-Blinds tx {tx'} {s} run =
      let (_, counted, h₁) = >>=-eq-ok (fail_if _ _) _ run in
      let (one_input, one_output) = counts (length tx.input) (length tx.output) _ counted in
      let (input, inputs) = single tx.input one_input in
      let (out, outputs) = single tx.output one_output in
      let (o, o_is, h₂) = >>=-eq-ok (unwrap (get_elem? tx.output 0)) _ h₁ in
      let (i, i_is, h₃) = >>=-eq-ok (unwrap (get_elem? tx.input 0)) _ h₂ in
      let ((blinded, t), blinds, done) =
        >>=-eq-ok (blind_output z c master_blinding_key random rounds i.previous_output o) _ h₃ in
      let at_input : unwrap (get_elem? (input ∷ []) 0) ≡ ok i =
        subst (λ l. unwrap (get_elem? l 0) ≡ ok i) inputs i_is in
      let at_out : unwrap (get_elem? (out ∷ []) 0) ≡ ok o =
        subst (λ l. unwrap (get_elem? l 0) ≡ ok o) outputs o_is in
      let is_set : set tx.output 0 blinded ≡ blinded ∷ [] = ap (λ l. set l 0 blinded) outputs in
      (
        i,
        o,
        blinded,
        inputs ∙ ap (λ x. x ∷ []) (ok_inj at_input),
        outputs ∙ ap (λ x. x ∷ []) (ok_inj at_out),
        sym (ap (λ r. r.0) (ok_inj done)) ∙ ap (λ l. record tx { output = l }) is_set,
        subst (λ q. Blinds z c master_blinding_key i.previous_output o blinded q)
            (ap (λ r. r.1) (ok_inj done)) (blind_output-Blinds i.previous_output o blinds),
      )

  -- On a transaction with one input and one output that is not blinded, `liquidex_blind` ends and
  -- succeeds, with the commitments to the secrets in that output and the key of a round as its
  -- nonce, if the blinders and the nonce can be derived and the first round whose bytes are a
  -- public key is within the bound.
  pub liquidex_blind-succeeds :
      (tx : Transaction) (input : TxIn) (out : TxOut) (s : TxOutSecrets) (aes_nonce : Bytes)
      (k pk : ℕ)
      → tx.input ≡ input ∷ []
      → tx.output ≡ out ∷ []
      → Derives c master_blinding_key input.previous_output out s
      → liquidex_aes_nonce c master_blinding_key input.previous_output
          (commit_to z s pk out).asset
          (commit_to z s pk out).value
          out.script_pubkey
        ≡ ok aes_nonce
      → k < rounds
      → ((j : ℕ)
          → j < k
          → candidate_key c
              (liquidex_aes_key c master_blinding_key out.script_pubkey)
              aes_nonce
              s.value
              (random j)
            ≡ ok none)
      → candidate_key c
          (liquidex_aes_key c master_blinding_key out.script_pubkey)
          aes_nonce
          s.value
          (random k)
        ≡ ok (some pk)
      → liquidex_blind z c master_blinding_key random rounds tx
        ≡ ok (record tx { output = commit_to z s pk out ∷ [] }, s)
  unfolding liquidex_blind blind_output derive_secrets hide_value explicit_output
  liquidex_blind-succeeds tx input out s aes_nonce k pk one_input one_output d nonce_of h others
        this =
      let candidate : ℕ → Outcome (Option ℕ) = λ i.
        candidate_key c (liquidex_aes_key c master_blinding_key out.script_pubkey) aes_nonce s.value
          (random i) in
      let found : search_key candidate rounds 0 ≡ ok pk =
        search_key-first candidate rounds k h others this in
      rw
        (
          one_input,
          one_output,
          d.asset,
          d.value,
          d.asset_blinder,
          d.value_blinder,
          commit_output-commits z c laws s,
          nonce_of,
          found,
          laws.nonce_parses pk,
        )
        refl
