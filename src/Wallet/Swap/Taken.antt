-- ===== src/Wallet/Swap/Taken.antt =====
-- src/interface.rs: the maker's input and output in a swap that is taken.
use bewallet.Common.{
  ℕ, ◌≡◌, refl, sym, ap, subst, ◌∙◌, some, List, [], ◌∷◌, ◌++◌, get_elem?, length, String, arith,
}
use bewallet.Outcome.{Outcome, ok, >>=-eq-ok, ok_inj}
use bewallet.Elements.{Env, Asset, Address, TxIn, TxOut, TxOutSecrets, Transaction}
use bewallet.Transaction.{add_output}
use bewallet.Store.{StoreMeta}
use bewallet.Liquidex.{Zkp, LiquidexProposal, transaction, verify_output_commitment, get_input}
use bewallet.Word.Bytes.{Bytes}
use bewallet.Liquidex.Committed.{verify_output_commitment-Accepted}
use bewallet.Liquidex.Blind.{Cipher}
use bewallet.Liquidex.Blind.Laws.{CipherLaws}
use bewallet.Liquidex.Blind.Recovered.{KeepsFirst}
use bewallet.Wallet.Context.{Orders, get_address}
use bewallet.Wallet.Mnemonic.{mnemonic2xprv}
use bewallet.Wallet.Sign.Unsigned.{liquidex_take_sign-first}
use bewallet.Wallet.Swap.{Swapper, take_fund, take_balance, take_tx, liquidex_take}
use bewallet.Wallet.Swap.TakeBlind.{liquidex_take_blind}
use bewallet.Wallet.Swap.TakeBlind.Kept.{Step, fee, maker, other, Steps, liquidex_take_blind-Steps}
use bewallet.Wallet.Swap.Extends.{
  Extends, Extends-trans, add_output-Extends, take_fund-Extends, take_balance-Extends,
}

first_kept :
    {A : Type 0} (xs ys : List A) {x : A}
    → get_elem? xs 0 ≡ some x
    → get_elem? (xs ++ ys) 0 ≡ some x
first_kept [] ys h = absurd cc
first_kept (z ∷ xs) ys h = h

-- An accepted proposal has one input and one output, which is blinded.
pub record OneBlinded (tx : Transaction) : Type 0 where
  pub input : TxIn
  pub out : TxOut
  pub generator : ℕ
  pub inputs : tx.input ≡ input ∷ []
  pub outputs : tx.output ≡ out ∷ []
  pub blinded : out.asset ≡ Asset.confidential generator

single : {A : Type 0} (xs : List A) → length xs ≡ 1 → (x : A) × (xs ≡ x ∷ [])
single [] h = absurd (omega arith)
single (x ∷ []) h = (x, refl)
single (x ∷ y ∷ xs) h = absurd (omega arith)

pub verify_output_commitment-OneBlinded :
    (z : Zkp) (p : LiquidexProposal) (tx : Transaction) {s : TxOutSecrets}
    → transaction z p ≡ ok tx
    → verify_output_commitment z p ≡ ok s
    → OneBlinded tx
unfolding transaction
verify_output_commitment-OneBlinded z p tx {s} parsed run =
    let q = (verify_output_commitment-Accepted z p s).0 run in
    let (input, inputs) = single q.tx.input q.one_input in
    subst OneBlinded (ok_inj (sym q.parses ∙ parsed)) (record {
      input = input;
      out = q.out;
      generator = z.new_blinded s.asset s.asset_bf;
      inputs = inputs;
      outputs = q.one_output;
      blinded = q.commits.asset;
    })

module _ {env : Env} {z : Zkp} {c : Cipher} {master_blinding hash_prevouts : Bytes} where
  Step-kept :
      {i : ℕ} {out out' : TxOut} {g : ℕ}
      → Step env z c master_blinding hash_prevouts i out out'
      → out.asset ≡ Asset.confidential g
      → out' ≡ record out { witness = out'.witness }
  Step-kept (fee i out e) h = refl
  Step-kept (maker out out' plain r) h =
      subst (λ (o : TxOut). o ≡ record out { witness = o.witness }) (sym r.kept) refl
  Step-kept (other i out out' plain b) h = let e = b.asset in absurd cc

module _ (env : Env) (z : Zkp) (c : Cipher) (master_blinding hash_prevouts : Bytes) where
  Steps-first :
      (out : TxOut) (outs outs' : List TxOut) {g : ℕ}
      → Steps env z c master_blinding hash_prevouts 0 (out ∷ outs) outs'
      → out.asset ≡ Asset.confidential g
      → (out' : TxOut) × (get_elem? outs' 0 ≡ some out')
        × (out' ≡ record out { witness = out'.witness })
  Steps-first out outs [] steps h = elim steps [ ]
  Steps-first out outs (out' ∷ outs') steps h = (out', refl, Step-kept steps.0 h)

module _ (k : Swapper) (laws : CipherLaws k.c) where
  take_tx-first :
      (s : StoreMeta) (orders : Orders) (maker_input maker_output : TxOutSecrets) (tx : Transaction)
      (mnemonic : String) (to : Outcome Address) {final : Transaction}
      → OneBlinded tx
      → take_tx k s orders maker_input maker_output tx mnemonic to ≡ ok final
      → (get_elem? final.input 0 ≡ get_elem? tx.input 0) × KeepsFirst tx final
  unfolding take_tx
  take_tx-first s orders maker_input maker_output tx mnemonic to {final} one run =
      let env = k.w.env in
      let (address, _, h₁) = >>=-eq-ok to _ run in
      let (with_output, added, h₂) =
        >>=-eq-ok (add_output env tx address maker_input.value (env.to_hex maker_input.asset)) _
          h₁ in
      let (funded, funds, h₃) =
        >>=-eq-ok (take_fund k s orders maker_input maker_output with_output) _ h₂ in
      let (balanced, balances, h₄) =
        >>=-eq-ok (take_balance k s orders maker_input maker_output funded) _ h₃ in
      let (blinded, blinds, h₅) =
        >>=-eq-ok
          (liquidex_take_blind env k.z k.c k.p k.master_blinding maker_input maker_output
            s.cache.unblinded balanced)
          _ h₄ in
      let (xprv, _, signs) = >>=-eq-ok (mnemonic2xprv k.b mnemonic k.w.config) _ h₅ in
      let e : Extends tx balanced =
        Extends-trans
          (Extends-trans
            (add_output-Extends env tx address maker_input.value (env.to_hex maker_input.asset)
              added)
            (take_fund-Extends k s orders maker_input maker_output with_output funds))
          (take_balance-Extends k s orders maker_input maker_output funded balances) in
      let (same_inputs, steps) =
        liquidex_take_blind-Steps env k.z k.c laws k.p k.master_blinding maker_input maker_output
          s.cache.unblinded balanced blinds in
      let (same_first, same_unsigned) =
        liquidex_take_sign-first (k.b.signer xprv) s blinded signs in
      let same_outputs : final.output ≡ blinded.output =
        ap (λ (t : Transaction). t.output) same_unsigned in
      let outputs : balanced.output ≡ one.out ∷ e.outs =
        e.output ∙ ap (λ l. l ++ e.outs) one.outputs in
      let (out', out_at, kept) =
        Steps-first env k.z k.c k.master_blinding (k.p.hash_prevouts balanced) one.out e.outs
          blinded.output
          (subst
            (λ l.
              Steps env k.z k.c k.master_blinding (k.p.hash_prevouts balanced) 0 l blinded.output)
            outputs steps)
          one.blinded in
      let input_at : get_elem? tx.input 0 ≡ some one.input = ap (λ l. get_elem? l 0) one.inputs in
      let final_at : get_elem? final.input 0 ≡ some one.input =
        same_first
        ∙ ap (λ l. get_elem? l 0) (same_inputs ∙ e.input)
        ∙ first_kept tx.input e.ins input_at in
      (
        final_at ∙ sym input_at,
        record {
          input = one.input;
          spent = one.input;
          out = out';
          made = one.out;
          input_at = final_at;
          spent_at = input_at;
          out_at = ap (λ l. get_elem? l 0) same_outputs ∙ out_at;
          made_at = ap (λ l. get_elem? l 0) one.outputs;
          outpoint = refl;
          output = kept;
        },
      )

  -- A transaction that `liquidex_take` returns has the proposal's input as its first, with the
  -- maker's signature, and the proposal's output as its first, but for the proofs of that output.
  -- The encodings of commitments and keys are assumed to parse to what was encoded.
  pub liquidex_take-first :
      (s : StoreMeta) (orders : Orders) (proposal : LiquidexProposal) (mnemonic : String)
      {s' : StoreMeta} {final : Transaction}
      → liquidex_take k s orders proposal mnemonic ≡ ok (s', ok final)
      → (tx : Transaction) × (transaction k.z proposal ≡ ok tx)
        × (get_elem? final.input 0 ≡ get_elem? tx.input 0)
        × KeepsFirst tx final
  unfolding liquidex_take
  liquidex_take-first s orders proposal mnemonic {s'} {final} run =
      let (tx, parsed, h₁) = >>=-eq-ok (transaction k.z proposal) _ run in
      let (maker_output, verified, h₂) = >>=-eq-ok (verify_output_commitment k.z proposal) _ h₁ in
      let (maker_input, _, h₃) = >>=-eq-ok (get_input proposal) _ h₂ in
      let ((s₁, address), _, done) = >>=-eq-ok (get_address k.w s) _ h₃ in
      let one = verify_output_commitment-OneBlinded k.z proposal tx parsed verified in
      let taken : take_tx k s₁ orders maker_input maker_output tx mnemonic address ≡ ok final =
        ap (λ r. r.1) (ok_inj done) in
      let first = take_tx-first s₁ orders maker_input maker_output tx mnemonic address one taken in
      (tx, parsed, first.0, first.1)
