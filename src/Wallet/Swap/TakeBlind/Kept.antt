-- ===== src/Wallet/Swap/TakeBlind/Kept.antt =====
-- src/interface.rs: what `liquidex_take_blind` makes of each output.
use bewallet.Common.{
  ℕ, zero, ◌+◌, ◌≡◌, refl, sym, ap, subst, Bool, true, false, List, [], ◌∷◌, nat_eq, if◌then◌else◌,
}
use bewallet.Outcome.{ok, >>=-eq-ok, ok_inj, traverse}
use bewallet.Word.Bytes.{Bytes}
use bewallet.Elements.{Asset, Value, Nonce, TxOut, TxOutSecrets, Transaction, Env}
use bewallet.Transaction.{Unblinded}
use bewallet.Liquidex.{Zkp, enumerate}
use bewallet.Liquidex.Blind.{Cipher}
use bewallet.Liquidex.Blind.Laws.{CipherLaws}
use bewallet.Wallet.Swap.Proofs.{CommitmentSecrets, Prover}
use bewallet.Wallet.Swap.TakeBlind.{
  Round, input_secret, blind_unless_fee, blind_step, blind_loop, liquidex_take_blind, round_of,
}
use bewallet.Wallet.Swap.TakeBlind.Outputs.{
  Reproven, Blinded, prove_maker-Reproven, blind_explicit-Blinded,
}

-- The three cases of an output: a fee stays as it is, and no other does.
pub data Step (env : Env) (z : Zkp) (c : Cipher) (master_blinding hash_prevouts : Bytes)
    : ℕ → TxOut → TxOut → Type 0 where
  fee :
      (i : ℕ) (out : TxOut)
      → env.is_fee out ≡ true
      → Step env z c master_blinding hash_prevouts i out out
  maker :
      (out out' : TxOut)
      → env.is_fee out ≡ false
      → Reproven out out'
      → Step env z c master_blinding hash_prevouts 0 out out'
  other :
      (i : ℕ) (out out' : TxOut)
      → env.is_fee out ≡ false
      → Blinded z c master_blinding hash_prevouts i out out'
      → Step env z c master_blinding hash_prevouts i out out'

module _ (env : Env) (z : Zkp) (c : Cipher) (master_blinding hash_prevouts : Bytes) where
  abbrev pub Steps : ℕ → List TxOut → List TxOut → Type 0
  Steps i [] [] = Unit
  Steps i (o ∷ os) (o' ∷ os') =
      Step env z c master_blinding hash_prevouts i o o' × Steps (i + 1) os os'
  Steps i _ _ = ⊥

module _ (r : Round) (laws : CipherLaws r.c) where
  abbrev StepOf : ℕ → TxOut → TxOut → Type 0
  StepOf i out out' = Step r.env r.z r.c r.master_blinding r.hash_prevouts i out out'

  blind_unless_fee-Step :
      (i : ℕ) (v : Value) (a : Asset) (n : Nonce) (out_secrets : List CommitmentSecrets)
      (out : TxOut) {result : TxOut × List CommitmentSecrets}
      → out.value ≡ v
      → out.asset ≡ a
      → r.env.is_fee out ≡ false
      → blind_unless_fee r i v a n out_secrets out ≡ ok result
      → StepOf i out result.0
  unfolding blind_unless_fee
  blind_unless_fee-Step zero (Value.confidential p) (Asset.confidential g) (Nonce.confidential pk)
        out_secrets out {result} is_value is_asset plain run =
      maker out result.0 plain
        (prove_maker-Reproven r laws g p pk out_secrets out is_asset is_value run)
  blind_unless_fee-Step i (Value.explicit v) (Asset.explicit a) (Nonce.confidential pk) out_secrets
        out {result} is_value is_asset plain run =
      other i out result.0 plain
        (blind_explicit-Blinded r laws i a v pk out_secrets out is_asset is_value run)
  blind_unless_fee-Step i v a n out_secrets out is_value is_asset plain run = absurd cc

  blind_step-Step :
      (i : ℕ) (out_secrets : List CommitmentSecrets) (out : TxOut)
      {result : TxOut × List CommitmentSecrets}
      → blind_step r i out_secrets out ≡ ok result
      → StepOf i out result.0
  unfolding blind_step
  blind_step-Step i out_secrets out {result} run =
      cases (r.env.is_fee out) refl
        (blind_unless_fee-Step i out.value out.asset out.nonce out_secrets out refl refl) run
    where
      cases :
          (b : Bool)
          → r.env.is_fee out ≡ b
          → (r.env.is_fee out ≡ false
              → blind_unless_fee r i out.value out.asset out.nonce out_secrets out ≡ ok result
              → StepOf i out result.0)
          → (if b
              then ok (out, out_secrets)
              else blind_unless_fee r i out.value out.asset out.nonce out_secrets out)
            ≡ ok result
          → StepOf i out result.0
      cases true e k h = subst (StepOf i out) (ap (λ x. x.0) (ok_inj h)) (fee i out e)
      cases false e k h = k e h

  blind_loop-Steps :
      (i : ℕ) (out_secrets : List CommitmentSecrets) (outs : List TxOut) {outs' : List TxOut}
      → blind_loop r i out_secrets outs ≡ ok outs'
      → Steps r.env r.z r.c r.master_blinding r.hash_prevouts i outs outs'
  unfolding blind_loop
  blind_loop-Steps i out_secrets [] run =
      subst (Steps r.env r.z r.c r.master_blinding r.hash_prevouts i []) (ok_inj run) tt
  blind_loop-Steps i out_secrets (out ∷ outs) run =
      let ((blinded, out_secrets'), first, h₁) = >>=-eq-ok (blind_step r i out_secrets out) _ run in
      let (rest, others, done) = >>=-eq-ok (blind_loop r (i + 1) out_secrets' outs) _ h₁ in
      subst (Steps r.env r.z r.c r.master_blinding r.hash_prevouts i (out ∷ outs)) (ok_inj done)
        (blind_step-Step i out_secrets out first, blind_loop-Steps (i + 1) out_secrets' outs others)

module _ (env : Env) (z : Zkp) (c : Cipher) (laws : CipherLaws c) (p : Prover)
    (master_blinding : Bytes) where
  -- `liquidex_take_blind` keeps the inputs, every fee output, and the number and order of the
  -- outputs. Of the others, a first output that is blinded already gets new proofs and keeps the rest; each other
  -- output commits to its asset and its value, the asset under the blinder of its index, is to the
  -- same script, and has a key as its nonce and both proofs.
  -- The encodings of commitments and keys are assumed to parse to what was encoded.
  pub liquidex_take_blind-Steps :
      (maker_input maker_output : TxOutSecrets) (unblinded : Unblinded) (tx : Transaction)
      {tx' : Transaction}
      → liquidex_take_blind env z c p master_blinding maker_input maker_output unblinded tx ≡ ok tx'
      → (tx'.input ≡ tx.input)
        × Steps env z c master_blinding (p.hash_prevouts tx) 0 tx.output tx'.output
  unfolding liquidex_take_blind
  liquidex_take_blind-Steps maker_input maker_output unblinded tx {tx'} run =
      let (secrets, _, h₁) =
        >>=-eq-ok (traverse (input_secret maker_input unblinded) (enumerate 0 tx.input)) _ run in
      let r = round_of env z c p master_blinding maker_output secrets tx in
      let (outputs, looped, done) = >>=-eq-ok (blind_loop r 0 [] tx.output) _ h₁ in
      (
        sym (ap (λ (t : Transaction). t.input) (ok_inj done)),
        subst (Steps env z c master_blinding (p.hash_prevouts tx) 0 tx.output)
            (ap (λ (t : Transaction). t.output) (ok_inj done))
            (blind_loop-Steps r laws 0 [] tx.output looped),
      )
