-- ===== src/Wallet/Sign/Unsigned.antt =====
-- src/interface.rs: what signing leaves of a transaction.
use bewallet.Common.{
  arith, ℕ, zero, suc, ◌+◌, ◌-◌, ◌≡◌, refl, sym, ap, ◌∙◌, Option, none, some, List, [], ◌∷◌, map,
  length, get_elem?, set,
}
use bewallet.Outcome.{ok, >>=-eq-ok, unwrap}
use bewallet.Elements.{TxIn, Transaction, Script}
use bewallet.Store.{StoreMeta}
use bewallet.Wallet.Sign.{
  Signer, put_signature, sign_input, sign_loop, spent_output, internal_sign_elements,
  sign_with_xprv, blind_tx, liquidex_take_sign,
}

-- A transaction without the signatures of its inputs.
abbrev pub unsign : TxIn → TxIn
unsign input = record input {
  script_sig = [];
  witness = record input.witness { script_witness = [] };
}

abbrev pub unsigned : Transaction → Transaction
unsigned tx = record tx { input = map unsign tx.input }

set-unsign :
    (inputs : List TxIn) (i : ℕ) (input : TxIn) (script_sig : Script) (witness : List (List ℕ))
    → get_elem? inputs i ≡ some input
    → map unsign (set inputs i (put_signature input script_sig witness)) ≡ map unsign inputs
unfolding put_signature
set-unsign [] i input script_sig witness h = refl
set-unsign (x ∷ inputs) zero input script_sig witness h = let same : x ≡ input = cc in rw same refl
set-unsign (x ∷ inputs) (suc i) input script_sig witness h =
    ap (λ l. unsign x ∷ l) (set-unsign inputs i input script_sig witness h)

unwrap-some : {A : Type 0} (o : Option A) {a : A} → unwrap o ≡ ok a → o ≡ some a
unwrap-some none h = absurd cc
unwrap-some (some b) h = cc

module _ (g : Signer) (s : StoreMeta) where
  sign_input-unsigned :
      (i : ℕ) (t : Option ℕ) (tx : Transaction) {tx' : Transaction}
      → sign_input g s i t tx ≡ ok tx'
      → unsigned tx' ≡ unsigned tx
  unfolding sign_input
  sign_input-unsigned i t tx h =
      let (input, found, h₁) = >>=-eq-ok (unwrap (get_elem? tx.input i)) _ h in
      let ((out, path), _, h₂) = >>=-eq-ok (spent_output s input) _ h₁ in
      let ((script_sig, witness), _, h₃) =
        >>=-eq-ok (internal_sign_elements g tx i path out.value t) _ h₂ in
      let same =
        set-unsign tx.input i input script_sig witness (unwrap-some (get_elem? tx.input i) found) in
      ap unsigned (sym (ok_inj h₃)) ∙ ap (λ l. record tx { input = l }) same
    where
      ok_inj : {a b : Transaction} → ok a ≡ ok b → a ≡ b
      ok_inj e = cc

  sign_loop-unsigned :
      (n i : ℕ) (tx : Transaction) {tx' : Transaction}
      → sign_loop g s n i tx ≡ ok tx'
      → unsigned tx' ≡ unsigned tx
  unfolding sign_loop
  sign_loop-unsigned zero i tx h = cc
  sign_loop-unsigned (suc n) i tx h =
      let (tx₁, run, rest) = >>=-eq-ok (sign_input g s i none tx) _ h in
      sign_loop-unsigned n (i + 1) tx₁ rest ∙ sign_input-unsigned i none tx run

  -- A transaction that `sign_with_xprv` returns is the blinded one but for the signatures of its
  -- inputs: the same outpoints, sequences, outputs and lock time.
  pub sign_with_xprv-unsigned :
      (tx : Transaction) {tx' : Transaction}
      → sign_with_xprv g s tx ≡ ok tx'
      → (blinded : Transaction) × (blind_tx g s tx ≡ ok blinded) × (unsigned tx' ≡ unsigned blinded)
  unfolding sign_with_xprv
  sign_with_xprv-unsigned tx h =
      let (blinded, run, rest) = >>=-eq-ok (blind_tx g s tx) _ h in
      (blinded, run, sign_loop-unsigned (length blinded.input) 0 blinded rest)

  sign_input-first :
      (i : ℕ) (t : Option ℕ) (tx : Transaction) {tx' : Transaction}
      → sign_input g s (suc i) t tx ≡ ok tx'
      → get_elem? tx'.input 0 ≡ get_elem? tx.input 0
  unfolding sign_input
  sign_input-first i t tx h =
      let (input, found, h₁) = >>=-eq-ok (unwrap (get_elem? tx.input (suc i))) _ h in
      let ((out, path), _, h₂) = >>=-eq-ok (spent_output s input) _ h₁ in
      let ((script_sig, witness), _, h₃) =
        >>=-eq-ok (internal_sign_elements g tx (suc i) path out.value t) _ h₂ in
      ap (λ (x : Transaction). get_elem? x.input 0) (sym (ok_inj h₃))
      ∙ first tx.input (put_signature input script_sig witness)
    where
      ok_inj : {a b : Transaction} → ok a ≡ ok b → a ≡ b
      ok_inj e = cc

      first :
          (inputs : List TxIn) (v : TxIn) → get_elem? (set inputs (suc i) v) 0 ≡ get_elem? inputs 0
      first [] v = refl
      first (x ∷ inputs) v = refl

  sign_loop-first :
      (n i : ℕ) (tx : Transaction) {tx' : Transaction}
      → sign_loop g s n (i + 1) tx ≡ ok tx'
      → get_elem? tx'.input 0 ≡ get_elem? tx.input 0
  unfolding sign_loop
  sign_loop-first zero i tx h = cc
  sign_loop-first (suc n) i tx h =
      let (tx₁, run, rest) = >>=-eq-ok (sign_input g s (i + 1) none tx) _ h in
      let is : i + 1 ≡ suc i = omega arith in
      sign_loop-first n (i + 1) tx₁ rest ∙ sign_input-first i none tx (rw is at run)

  -- A transaction that `liquidex_take_sign` returns has the first input of the one that it was
  -- given, with the maker's signature, and differs from it in signatures only.
  pub liquidex_take_sign-first :
      (tx : Transaction) {tx' : Transaction}
      → liquidex_take_sign g s tx ≡ ok tx'
      → (get_elem? tx'.input 0 ≡ get_elem? tx.input 0) × (unsigned tx' ≡ unsigned tx)
  unfolding liquidex_take_sign
  liquidex_take_sign-first tx h = (
    sign_loop-first (length tx.input - 1) 0 tx h,
    sign_loop-unsigned (length tx.input - 1) 1 tx h,
  )
