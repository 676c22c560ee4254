-- ===== src/Wallet/Swap/Balances.antt =====
-- src/interface.rs: the change and the fee of a swap that is taken.
use bewallet.Common.{
  ℕ, ◌+◌, ◌-◌, ◌<◌, ◌≤◌, ◌^◌, ◌≡◌, refl, sym, ap, ◌∙◌, true, ◌&&◌, List, [], ◌∷◌, ◌++◌, length,
  arith, nat_eq, nat_beq_iff, All,
}
use bewallet.Outcome.{ok, traverse, ok_inj}
use bewallet.Map.{Amounts, Iteration, amount, or_zero, get}
use bewallet.Amounts.{total, has, InRange}
use bewallet.Amounts.Laws.{InRange-tail}
use bewallet.Amounts.Sums.{total-append, total-Distinct, has-total, has-positive}
use bewallet.Elements.{Asset, Value, TxOut, TxOutSecrets, Transaction, default_out}
use bewallet.Transaction.{output_amount, dust_value}
use bewallet.Transaction.Fee.{estimated_fee}
use bewallet.Transaction.Fee.Exact.{TxOutLaws}
use bewallet.Transaction.Needs.Exact.{fee_of}
use bewallet.Transaction.Changes.Loop.{change, due}
use bewallet.Transaction.Changes.Loop
use bewallet.Store.{StoreMeta}
use bewallet.Wallet.Context.{Orders}
use bewallet.Liquidex.{
  enumerate, taken_output, taken_input, liquidex_needs, liquidex_estimated_changes,
  liquidex_changes, liquidex_fee,
}
use bewallet.Liquidex.Exact.{liquidex_needs-IsMissing, liquidex_changes-exact, liquidex_fee-left}
use bewallet.Wallet.Create.{add_changes}
use bewallet.Wallet.Create.Outputs.{KeyLaws}
use bewallet.Wallet.Create.Completes.{left_over, left_over-bounds, balanced}
use bewallet.Wallet.Swap.{Swapper, take_balance, take_fee_rate}
use bewallet.Wallet.Swap.TakenOuts.{TakenOuts, taken_output-snoc, add_changes-TakenOuts}

-- The transaction spends of each asset what it is given, the maker's part as the proposal states
-- it and the fee output included, and the fee is the estimated one with at most the dust that is
-- not worth a change output.
pub record Settles (k : Swapper) (s : StoreMeta) (maker_input maker_output : TxOutSecrets)
    (estimated : ℕ) (tx : Transaction) : Type 0 where
  pub outs : List (ℕ × ℕ)
  pub ins : List (ℕ × ℕ)
  pub fee : ℕ
  pub outs_known :
      traverse (taken_output maker_output) (enumerate 0 tx.output)
      ≡ ok (outs ++ (k.w.config.policy_asset, fee) ∷ [])
  pub ins_known :
      traverse (taken_input maker_input s.cache.unblinded) (enumerate 0 tx.input) ≡ ok ins
  pub conserves : (a : ℕ) → total a (outs ++ (k.w.config.policy_asset, fee) ∷ []) ≡ total a ins
  pub at_least : estimated ≤ fee
  pub at_most : fee ≤ estimated + dust_value

take_balance-ok :
    (k : Swapper) (s : StoreMeta) (orders : Orders) (maker_input maker_output : TxOutSecrets)
    (tx : Transaction) (more_changes estimated fee : ℕ) (change : Amounts)
    (with_changes : Transaction)
    → liquidex_estimated_changes k.w.env maker_input maker_output tx s.cache.unblinded
      ≡ ok more_changes
    → estimated_fee k.w.env tx (take_fee_rate k) more_changes ≡ ok estimated
    → liquidex_changes k.w.env maker_input maker_output tx s.cache.unblinded orders.inputs estimated
        k.w.config.policy_asset
      ≡ ok change
    → add_changes k.w s (orders.changes.order change) 0 tx ≡ ok with_changes
    → liquidex_fee k.w.env maker_input maker_output with_changes s.cache.unblinded
        k.w.config.policy_asset
      ≡ ok fee
    → take_balance k s orders maker_input maker_output tx
      ≡ ok (record with_changes {
        output =
            with_changes.output
            ++ record default_out {
              asset = Asset.explicit k.w.config.policy_asset;
              value = Value.explicit fee;
            }
              ∷ [];
      })
unfolding take_balance
take_balance-ok k s orders maker_input maker_output tx more_changes estimated fee change
      with_changes changes_known fee_known run added fee_run =
    rw (changes_known, fee_known, run, added, fee_run) refl

module _ (k : Swapper) (keys : KeyLaws k.w) (laws : TxOutLaws k.w.env) (s : StoreMeta)
    (orders : Orders) (maker_input maker_output : TxOutSecrets) (tx : Transaction)
    (outs ins : List (ℕ × ℕ)) (o : TakenOuts k.w.env maker_output tx outs)
    (ins_known : traverse (taken_input maker_input s.cache.unblinded) (enumerate 0 tx.input)
      ≡ ok ins)
    (ins_fit : InRange ins) where
  settles :
      (estimated : ℕ) (es : List (ℕ × ℕ))
      → 0 < estimated
      → ((a : ℕ) → (total a outs + fee_of k.w.config.policy_asset estimated a) - total a ins ≡ 0)
      → ((a : ℕ)
          → total a es ≡ change k.w.config.policy_asset estimated a (total a ins - total a outs))
      → s.cache.indexes.internal + 0 + length es < 2 ^ 31
      → has k.w.config.policy_asset (outs ++ es) ≡ true
      → (tx₁ : Transaction) × (f : ℕ) × (add_changes k.w s es 0 tx ≡ ok tx₁)
        × (liquidex_fee k.w.env maker_input maker_output tx₁ s.cache.unblinded
              k.w.config.policy_asset
            ≡ ok f)
        × Settles k s maker_input maker_output estimated (record tx₁ {
          output =
              tx₁.output
              ++ record default_out {
                asset = Asset.explicit k.w.config.policy_asset;
                value = Value.explicit f;
              }
                ∷ [];
        })
  unfolding total output_amount
  settles estimated es some_fee nothing_missing back indexes_fit has_policy =
      let policy = k.w.config.policy_asset in
      let (tx₁, added, same, o₁) =
        add_changes-TakenOuts k.w keys laws maker_output s es 0 tx outs indexes_fit o in
      let f = left_over policy estimated outs ins es nothing_missing back in
      let bounds = left_over-bounds policy estimated outs ins es nothing_missing back in
      let all = balanced policy estimated outs ins es nothing_missing back in
      let known₁ : traverse (taken_input maker_input s.cache.unblinded) (enumerate 0 tx₁.input)
          ≡ ok ins =
        ap (λ l. traverse (taken_input maker_input s.cache.unblinded) (enumerate 0 l)) same
        ∙ ins_known in
      let in_policy : has policy ins ≡ true =
        ground (arith, has-total policy ins, nothing_missing policy, nat_beq_iff policy policy) in
      let range : InRange (outs ++ es) = λ a. omega (arith, all a, ins_fit a) in
      let left =
        liquidex_fee-left k.w.env maker_input maker_output tx₁ s.cache.unblinded policy (outs ++ es)
          ins o₁.amounts known₁ ins_fit o₁.no_fee range (omega (arith, all policy)) in
      let both : (has policy ins && has policy (outs ++ es)) ≡ true =
        rw (in_policy, has_policy) refl in
      let fee_run : liquidex_fee k.w.env maker_input maker_output tx₁ s.cache.unblinded policy
          ≡ ok f =
        rw both at left in
      let out : TxOut = record default_out {
        asset = Asset.explicit policy;
        value = Value.explicit f;
      } in
      (
        tx₁,
        f,
        added,
        fee_run,
        record {
          outs = outs ++ es;
          ins = ins;
          fee = f;
          outs_known = taken_output-snoc maker_output tx₁.output out o₁.has_maker o₁.amounts refl;
          ins_known = known₁;
          conserves = λ a. omega (arith, total-append a (outs ++ es) ((policy, f) ∷ []), all a);
          at_least = bounds.0;
          at_most = bounds.1;
        },
      )

  -- The change and the fee output of a transaction to which nothing is missing.
  pub take_balance-Settles :
      (iteration : Iteration) (more_changes estimated : ℕ)
      → All (λ (e : ℕ × ℕ). 0 < e.1) outs
      → 0 < estimated
      → liquidex_estimated_changes k.w.env maker_input maker_output tx s.cache.unblinded
        ≡ ok more_changes
      → estimated_fee k.w.env tx (take_fee_rate k) more_changes ≡ ok estimated
      → InRange ((k.w.config.policy_asset, estimated) ∷ outs)
      → liquidex_needs k.w.env maker_input maker_output tx s.cache.unblinded iteration
          (take_fee_rate k)
          k.w.config.policy_asset
        ≡ ok []
      → ((change : Amounts)
          → liquidex_changes k.w.env maker_input maker_output tx s.cache.unblinded orders.inputs
              estimated k.w.config.policy_asset
            ≡ ok change
          → (s.cache.indexes.internal + 0 + length (orders.changes.order change) < 2 ^ 31)
            × (has k.w.config.policy_asset (outs ++ orders.changes.order change) ≡ true))
      → (tx' : Transaction) × (take_balance k s orders maker_input maker_output tx ≡ ok tx')
        × Settles k s maker_input maker_output estimated tx'
  unfolding get output_amount
  take_balance-Settles iteration more_changes estimated positive some_fee changes_known fee_known
        outs_fit funded enough =
      let policy = k.w.config.policy_asset in
      let (r, run, m) =
        liquidex_needs-IsMissing k.w.env maker_input maker_output tx s.cache.unblinded policy outs
          ins o.amounts ins_known ins_fit iteration (take_fee_rate k) more_changes estimated
          changes_known fee_known outs_fit in
      let empty : [] ≡ r = ok_inj (sym funded ∙ run) in
      let nothing_missing : (a : ℕ) → (total a outs + fee_of policy estimated a) - total a ins ≡ 0 =
        λ a. sym (m.exact a) ∙ ap (amount a) (sym empty) in
      let (change, run', d, exact) =
        liquidex_changes-exact k.w.env maker_input maker_output tx s.cache.unblinded policy outs ins
          o.amounts ins_known ins_fit orders.inputs estimated
          (InRange-tail (policy, estimated) outs outs_fit) (λ a h. omega (arith, nothing_missing a))
          (λ a h.
            ground (arith, nothing_missing a, has-total a ins, has-positive a outs positive)) in
      let es = orders.changes.order change in
      let back : (a : ℕ)
          → total a es ≡ Loop.change policy estimated a (total a ins - total a outs) =
        λ a.
          total-Distinct a es (orders.changes.order_distinct change d)
          ∙ ap or_zero (orders.changes.order_get change a d)
          ∙ exact a in
      let (indexes_fit, has_policy) = enough change run' in
      let (tx₁, f, added, fee_run, settled) =
        settles estimated es some_fee nothing_missing back indexes_fit has_policy in
      (
        _,
        take_balance-ok k s orders maker_input maker_output tx more_changes estimated f change tx₁
            changes_known fee_known run' added fee_run,
        settled,
      )
