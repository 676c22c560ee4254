-- ===== src/Liquidex/Committed.antt =====
-- src/liquidex.rs: which proposals `verify_output_commitment` accepts.
use bewallet.Common.{
  ℕ, ◌↔◌, List, get_elem?, not, ◌||◌, nat_beq, sym, ap, subst, ◌∙◌, arith, ◌≡◌, refl, [], ◌∷◌,
  length, nat_beq_iff,
}
use bewallet.Error.{Error}
use bewallet.Outcome.{ok, ok_inj, >>=-eq-ok, fail_if, unwrap}
use bewallet.Elements.{Asset, Value, TxOut, TxOutSecrets, Transaction}
use bewallet.Liquidex.{
  Zkp, LiquidexProposal, LiquidexTxOutSecrets, to_txoutsecrets, from_txoutsecrets, transaction,
  commitments, proposal_new, verify_output_commitment, get_input,
}

module _ (z : Zkp) where
  -- The output is blinded, and its commitments are those of the secrets.
  pub record Commits (out : TxOut) (s : TxOutSecrets) : Type 0 where
    pub asset : out.asset ≡ Asset.confidential (z.new_blinded s.asset s.asset_bf)
    pub value :
        out.value
        ≡ Value.confidential (z.commitment s.value s.value_bf (z.new_blinded s.asset s.asset_bf))

  -- What a proposal is accepted for, with the secrets `s`: its transaction has one input and one
  -- output, it states the secrets of one input and of one output, and `s` are these, to which the
  -- output commits.
  pub record Accepted (p : LiquidexProposal) (s : TxOutSecrets) : Type 0 where
    pub tx : Transaction
    pub out : TxOut
    pub stated : LiquidexTxOutSecrets
    pub parses : z.tx_from_hex p.tx ≡ ok tx
    pub one_input : length tx.input ≡ 1
    pub one_output : tx.output ≡ out ∷ []
    pub one_offered : length p.inputs ≡ 1
    pub one_stated : p.outputs ≡ stated ∷ []
    pub secrets : s ≡ record {
      asset = stated.asset;
      asset_bf = stated.asset_blinder;
      value = stated.amount;
      value_bf = stated.amount_blinder;
    }
    pub commits : Commits out s

  commitments-confidential :
      (a : Asset) (v : Value) {r : ℕ × ℕ}
      → commitments z a v ≡ ok r
      → (a ≡ Asset.confidential r.0) × (v ≡ Value.confidential r.1)
  unfolding commitments
  commitments-confidential Asset.null v h = absurd cc
  commitments-confidential (Asset.explicit a) v h = absurd cc
  commitments-confidential (Asset.confidential g) Value.null h = absurd cc
  commitments-confidential (Asset.confidential g) (Value.explicit v) h = absurd cc
  commitments-confidential (Asset.confidential g) (Value.confidential p) h =
      let e : (g, p) ≡ _ = ok_inj h in
      (ap (λ x. Asset.confidential x.0) e, ap (λ x. Value.confidential x.1) e)

  counts :
      (inputs outputs ins outs : ℕ) (e : Error) {u : Unit {0}}
      → fail_if
          (not (nat_beq inputs 1)
            || not (nat_beq outputs 1)
            || not (nat_beq ins 1)
            || not (nat_beq outs 1))
          e
        ≡ ok u
      → (inputs ≡ 1) × (outputs ≡ 1) × (ins ≡ 1) × (outs ≡ 1)
  counts inputs outputs ins outs e h = ground arith

  compares :
      (g h p q : ℕ) (e : Error) {u : Unit {0}}
      → fail_if (not (nat_beq g h) || not (nat_beq p q)) e ≡ ok u
      → (g ≡ h) × (p ≡ q)
  compares g h p q e run = ground arith

  only :
      {A : Type 0} (xs : List A) {x : A}
      → length xs ≡ 1
      → unwrap (get_elem? xs 0) ≡ ok x
      → xs ≡ x ∷ []
  only [] h e = absurd (omega arith)
  only (y ∷ []) h e = ap (λ z. z ∷ []) (ok_inj e)
  only (y ∷ w ∷ xs) h e = absurd (omega arith)

  verify_output_commitment-accepts :
      (p : LiquidexProposal) (s : TxOutSecrets) → verify_output_commitment z p ≡ ok s → Accepted p s
  unfolding verify_output_commitment transaction to_txoutsecrets
  verify_output_commitment-accepts p s run =
      let (tx, parses, h₁) = >>=-eq-ok (z.tx_from_hex p.tx) _ run in
      let (_, counted, h₂) = >>=-eq-ok (fail_if _ _) _ h₁ in
      let (stated, stated_at, h₃) = >>=-eq-ok (unwrap (get_elem? p.outputs 0)) _ h₂ in
      let (out, out_at, h₄) = >>=-eq-ok (unwrap (get_elem? tx.output 0)) _ h₃ in
      let (both, confidential, h₅) = >>=-eq-ok (commitments z out.asset out.value) _ h₄ in
      let (_, compared, done) = >>=-eq-ok (fail_if _ _) _ h₅ in
      let (one_input, one_output, one_offered, one_stated) =
        counts (length tx.input) (length tx.output) (length p.inputs) (length p.outputs) _
          counted in
      let t = to_txoutsecrets stated in
      let g = z.new_blinded t.asset t.asset_bf in
      let (generates, opens) =
        compares g both.0 (z.commitment t.value t.value_bf g) both.1 _ compared in
      let (is_asset, is_value) = commitments-confidential out.asset out.value confidential in
      let same : t ≡ s = ok_inj done in
      record {
        tx = tx;
        out = out;
        stated = stated;
        parses = parses;
        one_input = one_input;
        one_output = only tx.output one_output out_at;
        one_offered = one_offered;
        one_stated = only p.outputs one_stated stated_at;
        secrets = sym same;
        commits = subst (Commits out) same (record {
          asset = is_asset ∙ ap Asset.confidential (sym generates);
          value = is_value ∙ ap Value.confidential (sym opens);
        });
      }

  Accepted-verifies :
      (p : LiquidexProposal) (s : TxOutSecrets) → Accepted p s → verify_output_commitment z p ≡ ok s
  unfolding verify_output_commitment transaction to_txoutsecrets
  Accepted-verifies p s q =
      let t = to_txoutsecrets q.stated in
      let c : Commits q.out t = subst (Commits q.out) q.secrets q.commits in
      let g = z.new_blinded t.asset t.asset_bf in
      let v = z.commitment t.value t.value_bf g in
      subst (λ u. verify_output_commitment z p ≡ ok u) (sym q.secrets)
        (rw
          (
            q.parses,
            q.one_input,
            q.one_output,
            q.one_offered,
            q.one_stated,
            c.asset,
            c.value,
            (nat_beq_iff g g).1 refl,
            (nat_beq_iff v v).1 refl,
          )
          refl)

  -- A proposal is accepted, and with which secrets, exactly if its transaction parses, has one input
  -- and one output, the proposal states the secrets of one input and of one output, and the output
  -- is blinded with the two commitments to the secrets that are stated of it.
  pub verify_output_commitment-Accepted :
      (p : LiquidexProposal) (s : TxOutSecrets)
      → (verify_output_commitment z p ≡ ok s) ↔ Accepted p s
  verify_output_commitment-Accepted p s =
      (verify_output_commitment-accepts p s, Accepted-verifies p s)

  -- A proposal made of a transaction with one input and one blinded output to whose secrets the
  -- output commits is accepted, and gives back the secrets of the input and of the output, if the
  -- text of a transaction parses to it.
  pub proposal_new-verifies :
      (tx : Transaction) (input output : TxOutSecrets) (out : TxOut)
      → z.tx_from_hex (z.tx_to_hex tx) ≡ ok tx
      → length tx.input ≡ 1
      → tx.output ≡ out ∷ []
      → Commits out output
      → (verify_output_commitment z (proposal_new z tx input output) ≡ ok output)
        × (get_input (proposal_new z tx input output) ≡ ok input)
  unfolding proposal_new from_txoutsecrets get_input to_txoutsecrets
  proposal_new-verifies tx input output out parses one_input one_output c = (
    Accepted-verifies (proposal_new z tx input output) output (record {
      tx = tx;
      out = out;
      stated = from_txoutsecrets output;
      parses = parses;
      one_input = one_input;
      one_output = one_output;
      one_offered = refl;
      one_stated = refl;
      secrets = refl;
      commits = c;
    }),
    refl,
  )
