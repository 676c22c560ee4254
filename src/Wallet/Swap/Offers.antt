-- ===== src/Wallet/Swap/Offers.antt =====
-- src/interface.rs: the maker's transaction before it is signed.
use bewallet.Common.{ℕ, ◌≡◌, refl, sym, ap, subst, ◌∙◌, Option, none, some, [], ◌∷◌, nat_eq}
use bewallet.Error.{Error}
use bewallet.Outcome.{Outcome, ok, >>=-eq-ok, ok_inj, ok_or}
use bewallet.Map.{get}
use bewallet.Elements.{
  Env, AssetId, Asset, Value, Address, OutPoint, TxIn, TxOut, TxOutSecrets, Transaction, empty_tx,
  outpoint_eq,
}
use bewallet.Transaction.{add_input, add_output}
use bewallet.Store.{StoreMeta}
use bewallet.Liquidex.Committed.{Commits}
use bewallet.Liquidex.Blind.{liquidex_blind}
use bewallet.Liquidex.Blind.Laws.{CipherLaws}
use bewallet.Liquidex.Blind.Blinded.{liquidex_blind-Blinds}
use bewallet.Wallet.Swap.{Swapper, LiquidexMakeOpt, make_unsigned}

-- The maker's transaction spends a known output of the wallet, and its one output commits to the
-- asset and the value that are asked.
pub record Offers (k : Swapper) (s : StoreMeta) (opt : LiquidexMakeOpt) (offered : TxOutSecrets)
    (made : Transaction) (asked : TxOutSecrets) : Type 0 where
  pub offered_known : get opt.utxo s.cache.unblinded ≡ some offered
  pub asked_asset : asked.asset ≡ opt.asset_id
  pub asked_value :
      asked.value ≡ k.w.env.f64_to_u64 (k.w.env.f64_mul opt.rate (k.w.env.f64_of_u64 offered.value))
  pub plain : Transaction
  pub blinds : liquidex_blind k.z k.c k.master_blinding k.random k.rounds plain ≡ ok (made, asked)
  pub made_in : TxIn
  pub inputs : made.input ≡ made_in ∷ []
  pub spends : made_in.previous_output ≡ opt.utxo
  pub blinded : TxOut
  pub outputs : made.output ≡ blinded ∷ []
  pub commits : Commits k.z blinded asked

ok_or-some : {A : Type 0} (o : Option A) (e : Error) {a : A} → ok_or o e ≡ ok a → o ≡ some a
ok_or-some none e h = absurd cc
ok_or-some (some b) e h = cc

-- The transaction before it is blinded.
record Plain (utxo : OutPoint) (asset : AssetId) (value : ℕ) (plain : Transaction) : Type 0 where
  plain_in : TxIn
  plain_out : TxOut
  inputs : plain.input ≡ plain_in ∷ []
  outputs : plain.output ≡ plain_out ∷ []
  spends : plain_in.previous_output ≡ utxo
  is_asset : plain_out.asset ≡ Asset.explicit asset
  is_value : plain_out.value ≡ Value.explicit value

add_output-Plain :
    (env : Env)
    → ((a : AssetId) → env.from_hex (env.to_hex a) ≡ ok a)
    → (utxo : OutPoint) (asset : AssetId) (value : ℕ) (to : Address) {plain : Transaction}
    → add_output env (add_input empty_tx utxo) to value (env.to_hex asset) ≡ ok plain
    → Plain utxo asset value plain
unfolding add_output add_input
add_output-Plain env hex utxo asset value to run =
    let (b, _, h₁) = >>=-eq-ok (ok_or to.blinding_pubkey _) _ run in
    let (id, parsed, done) = >>=-eq-ok (env.from_hex (env.to_hex asset)) _ h₁ in
    let same : id ≡ asset = ok_inj (sym parsed ∙ hex asset) in
    subst (Plain utxo asset value) (ok_inj done) (record {
      plain_in = _;
      plain_out = _;
      inputs = refl;
      outputs = refl;
      spends = refl;
      is_asset = ap Asset.explicit same;
      is_value = refl;
    })

module _ (k : Swapper) (laws : CipherLaws k.c)
    (hex : (a : AssetId) → k.w.env.from_hex (k.w.env.to_hex a) ≡ ok a) where
  liquidex_blind-Offers :
      (s : StoreMeta) (opt : LiquidexMakeOpt) (offered : TxOutSecrets) (plain made : Transaction)
      (asked : TxOutSecrets)
      → get opt.utxo s.cache.unblinded ≡ some offered
      → Plain opt.utxo opt.asset_id
          (k.w.env.f64_to_u64 (k.w.env.f64_mul opt.rate (k.w.env.f64_of_u64 offered.value)))
          plain
      → liquidex_blind k.z k.c k.master_blinding k.random k.rounds plain ≡ ok (made, asked)
      → Offers k s opt offered made asked
  liquidex_blind-Offers s opt offered plain made asked known q blinds =
      let (input, out, blinded, inputs, outputs, made_is, b) =
        liquidex_blind-Blinds k.z k.c laws k.master_blinding k.random k.rounds plain blinds in
      let is_in : input ≡ q.plain_in = cons_inj (sym inputs ∙ q.inputs) in
      let is_out : out ≡ q.plain_out = cons_inj (sym outputs ∙ q.outputs) in
      record {
        offered_known = known;
        asked_asset = explicit_inj (sym b.derives.asset ∙ ap (λ o. o.asset) is_out ∙ q.is_asset);
        asked_value = value_inj (sym b.derives.value ∙ ap (λ o. o.value) is_out ∙ q.is_value);
        plain = plain;
        blinds = blinds;
        made_in = input;
        inputs = ap (λ (t : Transaction). t.input) made_is ∙ inputs;
        spends = ap (λ i. i.previous_output) is_in ∙ q.spends;
        blinded = blinded;
        outputs = ap (λ (t : Transaction). t.output) made_is;
        commits = b.commits;
      }
    where
      cons_inj : {A : Type 0} {a b : A} → a ∷ [] ≡ b ∷ [] → a ≡ b
      cons_inj e = cc

      explicit_inj : {a b : AssetId} → Asset.explicit a ≡ Asset.explicit b → a ≡ b
      explicit_inj e = cc

      value_inj : {a b : ℕ} → Value.explicit a ≡ Value.explicit b → a ≡ b
      value_inj e = cc

  pub make_unsigned-Offers :
      (s : StoreMeta) (opt : LiquidexMakeOpt) (to : Outcome Address) {offered asked : TxOutSecrets}
      {made : Transaction}
      → make_unsigned k s opt to ≡ ok (offered, made, asked)
      → Offers k s opt offered made asked
  unfolding make_unsigned
  make_unsigned-Offers s opt to {offered} {asked} {made} run =
      let env = k.w.env in
      let (address, _, h₁) = >>=-eq-ok to _ run in
      let (secrets, known, h₂) = >>=-eq-ok (ok_or (get opt.utxo s.cache.unblinded) _) _ h₁ in
      let value = env.f64_to_u64 (env.f64_mul opt.rate (env.f64_of_u64 secrets.value)) in
      let (plain, added, h₃) =
        >>=-eq-ok
          (add_output env (add_input empty_tx opt.utxo) address value (env.to_hex opt.asset_id)) _
          h₂ in
      let ((m, u), blinds, done) =
        >>=-eq-ok (liquidex_blind k.z k.c k.master_blinding k.random k.rounds plain) _ h₃ in
      subst (λ (r : TxOutSecrets × Transaction × TxOutSecrets). Offers k s opt r.0 r.1 r.2)
        (ok_inj done)
        (liquidex_blind-Offers s opt secrets plain m u
          (ok_or-some (get opt.utxo s.cache.unblinded) _ known)
          (add_output-Plain env hex opt.utxo opt.asset_id value address added) blinds)
