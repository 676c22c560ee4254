-- ===== src/Wallet/Swap/TakenOuts.antt =====
-- src/interface.rs: the outputs that `liquidex_take` adds behind the maker's.
use mathlib.Core.List.{append_assoc, append-nil}
use bewallet.Common.{
  ℕ, suc, ◌+◌, ◌<◌, ◌^◌, ◌≡◌, refl, sym, ap, subst, ◌∙◌, false, some, List, [], ◌∷◌, ◌++◌, any,
  length, arith, nat_eq, nat_beq,
}
use bewallet.Outcome.{ok, traverse}
use bewallet.Word.{add_u32_fits}
use bewallet.Elements.{
  Env, Asset, Value, Nonce, TxOut, TxOutSecrets, Transaction, default_out_witness,
}
use bewallet.Transaction.{add_output, output_amount}
use bewallet.Transaction.Fee.Exact.{TxOutLaws}
use bewallet.Store.{StoreMeta}
use bewallet.Wallet.Context.{WalletCtx, address_params, derive_address}
use bewallet.Liquidex.{enumerate, taken_output}
use bewallet.Wallet.Create.{add_changes}
use bewallet.Wallet.Create.Outputs.{KeyLaws, traverse-snoc, any-snoc}

-- The amounts of the outputs, the first being the maker's, and none of them a fee.
pub record TakenOuts (env : Env) (maker_output : TxOutSecrets) (tx : Transaction)
    (outs : List (ℕ × ℕ)) : Type 0 where
  pub amounts : traverse (taken_output maker_output) (enumerate 0 tx.output) ≡ ok outs
  pub no_fee : any env.is_fee tx.output ≡ false
  pub has_maker : 0 < length tx.output

enumerate-snoc :
    {A : Type 0} (i : ℕ) (xs : List A) (x : A)
    → enumerate i (xs ++ x ∷ []) ≡ enumerate i xs ++ (i + length xs, x) ∷ []
enumerate-snoc i [] x = let e : i ≡ i + 0 = omega arith in ap (λ n. (n, x) ∷ []) e
enumerate-snoc i (y ∷ xs) x =
    let e : i + 1 + length xs ≡ i + suc (length xs) = omega arith in
    ap (λ l. (i, y) ∷ l)
      (enumerate-snoc (i + 1) xs x ∙ ap (λ n. enumerate (i + 1) xs ++ (n, x) ∷ []) e)

pub taken_output-snoc :
    (maker_output : TxOutSecrets) (xs : List TxOut) (x : TxOut) {ys : List (ℕ × ℕ)} {y : ℕ × ℕ}
    → 0 < length xs
    → traverse (taken_output maker_output) (enumerate 0 xs) ≡ ok ys
    → output_amount x ≡ ok y
    → traverse (taken_output maker_output) (enumerate 0 (xs ++ x ∷ [])) ≡ ok (ys ++ y ∷ [])
unfolding taken_output
taken_output-snoc maker_output xs x h run this =
    let behind : nat_beq (0 + length xs) 0 ≡ false = ground arith in
    ap (traverse (taken_output maker_output)) (enumerate-snoc 0 xs x)
    ∙ traverse-snoc (taken_output maker_output) (enumerate 0 xs) (0 + length xs, x) run
        (rw behind this)

module _ (w : WalletCtx) (keys : KeyLaws w) (laws : TxOutLaws w.env)
    (maker_output : TxOutSecrets) where
  add_output-TakenOuts :
      (tx : Transaction) (outs : List (ℕ × ℕ)) (a v k p b : ℕ)
      → TakenOuts w.env maker_output tx outs
      → (tx' : Transaction) × (add_output w.env tx (w.keys.p2shwpkh k (some b) p) v (w.env.to_hex a)
          ≡ ok tx')
        × (tx'.input ≡ tx.input)
        × TakenOuts w.env maker_output tx' (outs ++ (a, v) ∷ [])
  unfolding add_output output_amount
  add_output-TakenOuts tx outs a v k p b o =
      let address = w.keys.p2shwpkh k (some b) p in
      let out : TxOut = record {
        asset = Asset.explicit a;
        value = Value.explicit v;
        nonce = Nonce.confidential b;
        script_pubkey = w.env.script_pubkey address;
        witness = default_out_witness;
      } in
      (
        record tx { output = tx.output ++ out ∷ [] },
        rw (keys.blinding k (some b) p, keys.hex a) refl,
        refl,
        record {
          amounts = taken_output-snoc maker_output tx.output out o.has_maker o.amounts refl;
          no_fee =
              any-snoc w.env.is_fee tx.output out o.no_fee
                (laws.with_script out (keys.script k (some b) p));
          has_maker = longer tx.output out;
        },
      )
    where
      longer : {A : Type 0} (xs : List A) (x : A) → 0 < length (xs ++ x ∷ [])
      longer [] x = omega arith
      longer (y ∷ xs) x = omega arith

  pub add_changes-TakenOuts :
      (s : StoreMeta) (es : List (ℕ × ℕ)) (i : ℕ) (tx : Transaction) (outs : List (ℕ × ℕ))
      → s.cache.indexes.internal + i + length es < 2 ^ 31
      → TakenOuts w.env maker_output tx outs
      → (tx' : Transaction) × (add_changes w s es i tx ≡ ok tx')
        × (tx'.input ≡ tx.input)
        × TakenOuts w.env maker_output tx' (outs ++ es)
  unfolding add_changes derive_address
  add_changes-TakenOuts s [] i tx outs h o =
      (tx, refl, refl, subst (TakenOuts w.env maker_output tx) (sym (append-nil outs)) o)
  add_changes-TakenOuts s ((a, v) ∷ es) i tx outs h o =
      let index = s.cache.indexes.internal + i + 1 in
      let (k, derived) = keys.derives 1 index (omega (arith, h)) in
      let b = w.keys.from_secret_key (w.keys.derive_blinding_key (w.keys.p2shwpkh_script k)) in
      let (tx₁, run, same, o₁) = add_output-TakenOuts tx outs a v k (address_params w) b o in
      let (tx', run', same', o') =
        add_changes-TakenOuts s es (i + 1) tx₁ (outs ++ (a, v) ∷ []) (omega (arith, h)) o₁ in
      (
        tx',
        rw
            (
              add_u32_fits w.env.build s.cache.indexes.internal i (omega (arith, h)),
              add_u32_fits w.env.build (s.cache.indexes.internal + i) 1 (omega (arith, h)),
              derived,
              run,
            )
            run',
        same' ∙ same,
        subst (TakenOuts w.env maker_output tx') (append_assoc outs ((a, v) ∷ []) es) o',
      )
