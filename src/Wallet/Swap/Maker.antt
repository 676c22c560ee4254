-- ===== src/Wallet/Swap/Maker.antt =====
-- src/interface.rs: what `liquidex_make` proposes.
use bewallet.Common.{
  ℕ, ◌≡◌, refl, sym, ap, subst, ◌∙◌, some, List, [], ◌∷◌, get_elem?, length, set, String, nat_eq,
}
use bewallet.Outcome.{Outcome, ok, >>=-eq-ok, ok_inj, unwrap}
use bewallet.Elements.{AssetId, Address, TxIn, TxOutSecrets, Transaction, Script, outpoint_eq}
use bewallet.Store.{StoreMeta}
use bewallet.Liquidex.{
  LiquidexProposal, proposal_new, transaction, verify_output_commitment, get_input,
}
use bewallet.Liquidex.Committed.{proposal_new-verifies}
use bewallet.Liquidex.Blind.Laws.{CipherLaws}
use bewallet.Wallet.Context.{get_address}
use bewallet.Wallet.Mnemonic.{mnemonic2xprv}
use bewallet.Wallet.Sign.{
  spent_output, internal_sign_elements, put_signature, sighash_single_plus_anyone_can_pay,
}
use bewallet.Wallet.Swap.{
  Swapper, LiquidexMakeOpt, make_unsigned, make_signed, make_proposal, liquidex_make,
}
use bewallet.Wallet.Swap.Offers.{Offers, make_unsigned-Offers}

-- `tx` is the maker's transaction with a signature.
pub record Signs (k : Swapper) (s : StoreMeta) (opt : LiquidexMakeOpt) (offered : TxOutSecrets)
    (tx : Transaction) (asked : TxOutSecrets) : Type 0 where
  pub made : Transaction
  pub offers : Offers k s opt offered made asked
  pub signed_in : TxIn
  pub inputs : tx.input ≡ signed_in ∷ []
  pub spends : signed_in.previous_output ≡ opt.utxo
  pub outputs : tx.output ≡ made.output

-- The proposal's transaction is signed, and a taker accepts it and reads the secrets.
pub record Proposes (k : Swapper) (s : StoreMeta) (opt : LiquidexMakeOpt) (p : LiquidexProposal)
    : Type 0 where
  pub offered : TxOutSecrets
  pub asked : TxOutSecrets
  pub tx : Transaction
  pub signs : Signs k s opt offered tx asked
  pub parses : transaction k.z p ≡ ok tx
  pub verifies : verify_output_commitment k.z p ≡ ok asked
  pub states : get_input p ≡ ok offered

-- The text of the transaction that the maker signs parses to it.
abbrev pub Parses : Swapper → StoreMeta → LiquidexMakeOpt → String → Type 0
Parses k s opt mnemonic =
    (s' : StoreMeta) (to : Outcome Address)
    → get_address k.w s ≡ ok (s', to)
    → (offered asked : TxOutSecrets) (t : Transaction)
    → make_signed k s' opt mnemonic to ≡ ok (offered, t, asked)
    → k.z.tx_from_hex (k.z.tx_to_hex t) ≡ ok t

module _ (k : Swapper) (laws : CipherLaws k.c)
    (hex : (a : AssetId) → k.w.env.from_hex (k.w.env.to_hex a) ≡ ok a) where
  put_signature-Signs :
      (s : StoreMeta) (opt : LiquidexMakeOpt) (offered asked : TxOutSecrets) (made : Transaction)
      (input : TxIn) (script_sig : Script) (witness : List (List ℕ))
      → Offers k s opt offered made asked
      → unwrap (get_elem? made.input 0) ≡ ok input
      → Signs k s opt offered
          (record made { input = set made.input 0 (put_signature input script_sig witness) })
          asked
  unfolding put_signature
  put_signature-Signs s opt offered asked made input script_sig witness o input_at =
      let signed_in = put_signature input script_sig witness in
      let is_in : input ≡ o.made_in =
        ok_inj (sym input_at ∙ ap (λ l. unwrap (get_elem? l 0)) o.inputs) in
      record {
        made = made;
        offers = o;
        signed_in = signed_in;
        inputs = ap (λ l. set l 0 signed_in) o.inputs;
        spends = ap (λ i. i.previous_output) is_in ∙ o.spends;
        outputs = refl;
      }

  -- The transaction is signed, and nothing else of it has changed.
  make_signed-Signs :
      (s : StoreMeta) (opt : LiquidexMakeOpt) (mnemonic : String) (to : Outcome Address)
      {offered asked : TxOutSecrets} {signed : Transaction}
      → make_signed k s opt mnemonic to ≡ ok (offered, signed, asked)
      → Signs k s opt offered signed asked
  unfolding make_signed
  make_signed-Signs s opt mnemonic to {offered} {asked} {signed} run =
      let ((offered', made, asked'), unsigned, h₁) = >>=-eq-ok (make_unsigned k s opt to) _ run in
      let (input, input_at, h₂) = >>=-eq-ok (unwrap (get_elem? made.input 0)) _ h₁ in
      let ((out, path), _, h₃) = >>=-eq-ok (spent_output s input) _ h₂ in
      let (xprv, _, h₄) = >>=-eq-ok (mnemonic2xprv k.b mnemonic k.w.config) _ h₃ in
      let ((script_sig, witness), _, done) =
        >>=-eq-ok
          (internal_sign_elements (k.b.signer xprv) made 0 path out.value
            (some sighash_single_plus_anyone_can_pay))
          _ h₄ in
      subst (λ (r : TxOutSecrets × Transaction × TxOutSecrets). Signs k s opt r.0 r.1 r.2)
        (ok_inj done)
        (put_signature-Signs s opt offered' asked' made input script_sig witness
          (make_unsigned-Offers k laws hex s opt to unsigned) input_at)

  make_proposal-Proposes :
      (s : StoreMeta) (opt : LiquidexMakeOpt) (mnemonic : String) (to : Outcome Address)
      {p : LiquidexProposal}
      → ((offered asked : TxOutSecrets) (t : Transaction)
          → make_signed k s opt mnemonic to ≡ ok (offered, t, asked)
          → k.z.tx_from_hex (k.z.tx_to_hex t) ≡ ok t)
      → make_proposal k s opt mnemonic to ≡ ok p
      → Proposes k s opt p
  unfolding make_proposal transaction proposal_new
  make_proposal-Proposes s opt mnemonic to {p} parse run =
      let ((offered, signed, asked), signs, done) =
        >>=-eq-ok (make_signed k s opt mnemonic to) _ run in
      let q = make_signed-Signs s opt mnemonic to signs in
      let parses = parse offered asked signed signs in
      let (verifies, states) =
        proposal_new-verifies k.z signed offered asked q.offers.blinded parses (ap length q.inputs)
          (q.outputs ∙ q.offers.outputs) q.offers.commits in
      subst (Proposes k s opt) (ok_inj done) (record {
        offered = offered;
        asked = asked;
        tx = signed;
        signs = q;
        parses = parses;
        verifies = verifies;
        states = states;
      })

  -- A proposal that `liquidex_make` returns offers the output that was chosen, which the wallet
  -- knows, for the asset that was chosen and the value at the rate: its transaction spends that
  -- output, its one output commits to the secrets of that asset and value, and a taker accepts it
  -- and reads these secrets and those of the input. The text of the signed transaction is assumed
  -- to parse to it, and that of an asset too.
  -- The encodings of commitments and keys are assumed to parse to what was encoded.
  pub liquidex_make-Proposes :
      (s : StoreMeta) (opt : LiquidexMakeOpt) (mnemonic : String) {s' : StoreMeta}
      {p : LiquidexProposal}
      → Parses k s opt mnemonic
      → liquidex_make k s opt mnemonic ≡ ok (s', ok p)
      → Proposes k s' opt p
  unfolding liquidex_make
  liquidex_make-Proposes s opt mnemonic {s'} {p} parse run =
      let ((s₁, address), got, done) = >>=-eq-ok (get_address k.w s) _ run in
      let made : make_proposal k s₁ opt mnemonic address ≡ ok p = ap (λ r. r.1) (ok_inj done) in
      subst (λ t. Proposes k t opt p) (ap (λ r. r.0) (ok_inj done))
        (make_proposal-Proposes s₁ opt mnemonic address (parse s₁ address got) made)
