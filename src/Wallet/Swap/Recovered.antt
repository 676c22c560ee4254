-- ===== src/Wallet/Swap/Recovered.antt =====
-- src/interface.rs: the maker's output in the transaction of whoever takes its proposal.
use bewallet.Common.{
  ℕ, ◌<◌, ◌^◌, ◌≡◌, sym, ap, subst, ◌∙◌, some, List, get_elem?, String, In, nat_eq,
}
use bewallet.Outcome.{ok, ok_inj}
use bewallet.Elements.{F64, AssetId, TxOutSecrets, Transaction, outpoint_eq}
use bewallet.Store.{StoreMeta}
use bewallet.Liquidex.{LiquidexProposal, transaction, verify_output_commitment}
use bewallet.Liquidex.Blind.{liquidex_unblind}
use bewallet.Liquidex.Blind.Laws.{CipherLaws}
use bewallet.Liquidex.Blind.Recovered.{KeepsFirst, liquidex_unblind-liquidex_blind}
use bewallet.Wallet.Context.{Orders}
use bewallet.Wallet.Swap.{Swapper, LiquidexMakeOpt, liquidex_make, liquidex_take}
use bewallet.Wallet.Swap.Taken.{liquidex_take-first}
use bewallet.Wallet.Swap.Maker.{Parses, liquidex_make-Proposes}

some_inj : {A : Type 0} {a b : A} → some a ≡ some b → a ≡ b
some_inj e = cc

module _ (k : Swapper) (laws : CipherLaws k.c)
    (hex : (a : AssetId) → k.w.env.from_hex (k.w.env.to_hex a) ≡ ok a) where
  -- Whoever takes a proposal that `liquidex_make` returned, with the same crates, the maker's
  -- `liquidex_unblind` recovers the secrets of its output from the taker's transaction, those of
  -- the asset that was asked, if that is among the assets looked for and these have different
  -- generators under one blinder. A cast of a float gives a `u64`.
  -- The encodings of commitments and keys are assumed to parse to what was encoded. What is
  -- encrypted is assumed to decrypt, and the text of an asset and that of the signed transaction to parse.
  pub liquidex_unblind-liquidex_take :
      (taker : Swapper) (s s₂ : StoreMeta) (opt : LiquidexMakeOpt) (orders : Orders)
      (mnemonic taker_mnemonic : String) (assets : List AssetId) {s' s₃ : StoreMeta}
      {p : LiquidexProposal} {final : Transaction}
      → taker.z ≡ k.z
      → CipherLaws taker.c
      → Parses k s opt mnemonic
      → liquidex_make k s opt mnemonic ≡ ok (s', ok p)
      → liquidex_take taker s₂ orders p taker_mnemonic ≡ ok (s₃, ok final)
      → ((x : F64) → k.w.env.f64_to_u64 x < 2 ^ 64)
      → In opt.asset_id assets
      → ((bf : ℕ) (a b : AssetId)
          → In a assets
          → In b assets
          → k.z.new_blinded a bf ≡ k.z.new_blinded b bf
          → a ≡ b)
      → (asked : TxOutSecrets) × (verify_output_commitment k.z p ≡ ok asked)
        × (asked.asset ≡ opt.asset_id)
        × (liquidex_unblind k.z k.c k.master_blinding final 0 assets ≡ ok asked)
  liquidex_unblind-liquidex_take taker s s₂ opt orders mnemonic taker_mnemonic assets {s'} {s₃} {p}
        {final} same_z taker_laws parse make take fits listed distinct =
      let q = liquidex_make-Proposes k laws hex s opt mnemonic parse make in
      let g = q.signs in
      let o = g.offers in
      let (tx, parsed, _, f) =
        liquidex_take-first taker taker_laws s₂ orders p taker_mnemonic take in
      let same_tx : tx ≡ q.tx = ok_inj (sym parsed ∙ ap (λ z. transaction z p) same_z ∙ q.parses) in
      let spent_is : f.spent ≡ g.signed_in = some_inj (
        sym f.spent_at
        ∙ ap (λ (t : Transaction). get_elem? t.input 0) same_tx
        ∙ ap (λ l. get_elem? l 0) g.inputs) in
      let first : KeepsFirst g.made final = record {
        input = f.input;
        spent = o.made_in;
        out = f.out;
        made = f.made;
        input_at = f.input_at;
        spent_at = ap (λ l. get_elem? l 0) o.inputs;
        out_at = f.out_at;
        made_at =
            sym (
              ap (λ (t : Transaction). get_elem? t.output 0) same_tx
              ∙ ap (λ l. get_elem? l 0) g.outputs)
            ∙ f.made_at;
        outpoint = f.outpoint ∙ ap (λ i. i.previous_output) spent_is ∙ g.spends ∙ sym o.spends;
        output = f.output;
      } in
      let listed' : In q.asked.asset assets = subst (λ a. In a assets) (sym o.asked_asset) listed in
      (
        q.asked,
        q.verifies,
        o.asked_asset,
        liquidex_unblind-liquidex_blind k.z k.c laws k.master_blinding k.random k.rounds o.plain
            g.made final q.asked assets o.blinds first
            (subst (λ n. n < 2 ^ 64) (sym o.asked_value) (fits _)) listed'
            (λ a h e. distinct q.asked.asset_bf a q.asked.asset h listed' e),
      )
