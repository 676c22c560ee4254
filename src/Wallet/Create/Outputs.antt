-- ===== src/Wallet/Create/Outputs.antt =====
-- src/interface.rs: the outputs that `create_tx` adds for the change.
use mathlib.Core.List.{append_assoc, append-nil}
use bewallet.Common.{
  ℕ, ◌+◌, ◌<◌, ◌^◌, ◌≡◌, ◌≢◌, refl, sym, ap, subst, ◌∙◌, Bool, false, Option, some, List, [], ◌∷◌,
  ◌++◌, any, length, arith,
}
use bewallet.Outcome.{Outcome, ok, traverse, traverse-cons}
use bewallet.Word.{add_u32_fits}
use bewallet.Elements.{Env, Asset, Value, Nonce, default_out_witness, TxOut, Transaction}
use bewallet.Transaction.{add_output, output_amount}
use bewallet.Transaction.Fee.Exact.{TxOutLaws}
use bewallet.Store.{StoreMeta}
use bewallet.Wallet.Context.{WalletCtx, derive_address, address_params}
use bewallet.Wallet.Create.{add_changes}

-- What the crates document: keys are derived at every index that is not hardened, an address keeps
-- the blinding key that it is made with and has a script, and the text of an asset parses to it.
pub record KeyLaws (w : WalletCtx) : Type 0 where
  pub derives :
      (chain index : ℕ) → index < 2 ^ 31 → (k : ℕ) × (w.keys.derive_pub chain index ≡ ok k)
  pub blinding : (k : ℕ) (b : Option ℕ) (p : ℕ) → (w.keys.p2shwpkh k b p).blinding_pubkey ≡ b
  pub script : (k : ℕ) (b : Option ℕ) (p : ℕ) → w.env.script_pubkey (w.keys.p2shwpkh k b p) ≢ []
  pub hex : (a : ℕ) → w.env.from_hex (w.env.to_hex a) ≡ ok a

pub traverse-snoc :
    {A B : Type 0} (f : A → Outcome B) (xs : List A) (z : A) {ys : List B} {y : B}
    → traverse f xs ≡ ok ys
    → f z ≡ ok y
    → traverse f (xs ++ z ∷ []) ≡ ok (ys ++ y ∷ [])
traverse-snoc f [] z {ys} {y} h k = let e : [] ≡ ys = cc in rw k (ap (λ l. ok (l ++ y ∷ [])) e)
traverse-snoc f (x ∷ xs) z h k =
    let (w, ws, fx, run, same) = traverse-cons f x xs h in
    rw (fx, traverse-snoc f xs z run k, same) refl

pub any-snoc :
    {A : Type 0} (p : A → Bool) (xs : List A) (z : A)
    → any p xs ≡ false
    → p z ≡ false
    → any p (xs ++ z ∷ []) ≡ false
any-snoc p [] z h k = rw k refl
any-snoc p (x ∷ xs) z h k = ground (arith, any-snoc p xs z)

-- Explicit outputs of these amounts, none of which is a fee.
pub record Outs (env : Env) (tx : Transaction) (outs : List (ℕ × ℕ)) : Type 0 where
  pub amounts : traverse output_amount tx.output ≡ ok outs
  pub no_fee : any env.is_fee tx.output ≡ false

module _ (w : WalletCtx) (keys : KeyLaws w) (laws : TxOutLaws w.env) where
  add_output-Outs :
      (tx : Transaction) (outs : List (ℕ × ℕ)) (a v k p b : ℕ)
      → Outs w.env tx outs
      → (tx' : Transaction) × (add_output w.env tx (w.keys.p2shwpkh k (some b) p) v (w.env.to_hex a)
          ≡ ok tx')
        × (tx'.input ≡ tx.input)
        × Outs w.env tx' (outs ++ (a, v) ∷ [])
  unfolding add_output output_amount
  add_output-Outs tx outs a v k p b o =
      let address = w.keys.p2shwpkh k (some b) p in
      let out : TxOut = record {
        asset = Asset.explicit a;
        value = Value.explicit v;
        nonce = Nonce.confidential b;
        script_pubkey = w.env.script_pubkey address;
        witness = default_out_witness;
      } in
      (
        record tx { output = tx.output ++ out ∷ [] },
        rw (keys.blinding k (some b) p, keys.hex a) refl,
        refl,
        record {
          amounts = traverse-snoc output_amount tx.output out o.amounts refl;
          no_fee =
              any-snoc w.env.is_fee tx.output out o.no_fee
                (laws.with_script out (keys.script k (some b) p));
        },
      )

  -- The change outputs are added one after another, and the inputs stay.
  pub add_changes-Outs :
      (s : StoreMeta) (es : List (ℕ × ℕ)) (i : ℕ) (tx : Transaction) (outs : List (ℕ × ℕ))
      → s.cache.indexes.internal + i + length es < 2 ^ 31
      → Outs w.env tx outs
      → (tx' : Transaction) × (add_changes w s es i tx ≡ ok tx')
        × (tx'.input ≡ tx.input)
        × Outs w.env tx' (outs ++ es)
  unfolding add_changes derive_address
  add_changes-Outs s [] i tx outs h o =
      (tx, refl, refl, subst (Outs w.env tx) (sym (append-nil outs)) o)
  add_changes-Outs s ((a, v) ∷ es) i tx outs h o =
      let index = s.cache.indexes.internal + i + 1 in
      let (k, derived) = keys.derives 1 index (omega (arith, h)) in
      let b = w.keys.from_secret_key (w.keys.derive_blinding_key (w.keys.p2shwpkh_script k)) in
      let (tx₁, run, same, o₁) = add_output-Outs tx outs a v k (address_params w) b o in
      let (tx', run', same', o') =
        add_changes-Outs s es (i + 1) tx₁ (outs ++ (a, v) ∷ []) (omega (arith, h)) o₁ in
      (
        tx',
        rw
            (
              add_u32_fits w.env.build s.cache.indexes.internal i (omega (arith, h)),
              add_u32_fits w.env.build (s.cache.indexes.internal + i) 1 (omega (arith, h)),
              derived,
              run,
            )
            run',
        same' ∙ same,
        subst (Outs w.env tx') (append_assoc outs ((a, v) ∷ []) es) o',
      )
