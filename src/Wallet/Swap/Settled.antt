-- ===== src/Wallet/Swap/Settled.antt =====
-- src/interface.rs: the loop of `liquidex_take` and the change and the fee after it, together.
use bewallet.Common.{
  ℕ, suc, ◌+◌, ◌<◌, ◌^◌, ◌≡◌, sym, subst, true, List, [], ◌∷◌, ◌++◌, All, length, get_elem?, nat_eq,
}
use bewallet.Outcome.{Outcome, ok, traverse, unwrap, >>=-eq-ok}
use bewallet.Map.{Amounts}
use bewallet.Amounts.{has, InRange}
use bewallet.Elements.{Env, AssetId, TxOutSecrets, Transaction, OutPoint}
use bewallet.Transaction.Fee.{estimated_fee}
use bewallet.Transaction.Fee.Exact.{TxOutLaws}
use bewallet.Store.{StoreMeta}
use bewallet.Wallet.Context.{Orders}
use bewallet.Wallet.Coins.{utxos}
use bewallet.Wallet.Create.Outputs.{KeyLaws}
use bewallet.Wallet.Funding.Run.{Rounds-output, Ends, Funded, fund-Ends}
use bewallet.Liquidex.{
  enumerate, taken_input, liquidex_needs, liquidex_estimated_changes, liquidex_changes,
}
use bewallet.Wallet.Swap.{Swapper, take_fund, take_balance, take_fee_rate, used_at_first}
use bewallet.Wallet.Swap.TakenOuts.{TakenOuts}
use bewallet.Wallet.Swap.Balances.{Settles, take_balance-Settles}

TakenOuts-output :
    (env : Env) (maker_output : TxOutSecrets) (tx last : Transaction) (outs : List (ℕ × ℕ))
    → last.output ≡ tx.output
    → TakenOuts env maker_output tx outs
    → TakenOuts env maker_output last outs
TakenOuts-output env maker_output tx last outs same o = record {
  amounts = rw same o.amounts;
  no_fee = rw same o.no_fee;
  has_maker = subst (λ l. 0 < length l) (sym same) o.has_maker;
}

module _ (k : Swapper) (s : StoreMeta) (orders : Orders)
    (maker_input maker_output : TxOutSecrets) where
  abbrev missing : ℕ → Transaction → Outcome (List (AssetId × ℕ))
  missing round t =
      liquidex_needs k.w.env maker_input maker_output t s.cache.unblinded (orders.rounds round)
        (take_fee_rate k) k.w.config.policy_asset

  -- What the loop leaves: the outputs as they were, and nothing missing in a last round.
  record Enough (tx last : Transaction) : Type 0 where
    same : last.output ≡ tx.output
    round : ℕ
    enough : missing round last ≡ ok []

  take_fund-Enough :
      (tx last : Transaction)
      → take_fund k s orders maker_input maker_output tx ≡ ok last
      → Enough tx last
  unfolding take_fund
  take_fund-Enough tx last run =
      let (coins, _, h₁) = >>=-eq-ok (utxos k.w s orders) _ run in
      let (input, _, funded) = >>=-eq-ok (unwrap (get_elem? tx.input 0)) _ h₁ in
      let used : List OutPoint = used_at_first k coins input.previous_output in
      let f : Funded missing coins tx used last =
        subst (Ends missing coins tx used) funded
          (fund-Ends missing coins (suc (length coins)) tx used) in
      record { same = Rounds-output missing coins f.rounds; round = f.round; enough = f.enough }

  -- Where the loop of `liquidex_take` returns a transaction for outputs that are explicit, positive
  -- and no fees but the maker's, every output that it spends is known, the estimated fee is positive, some output or change is of
  -- the policy asset, and no sum overflows a `u64` nor a change index 2 ^ 31: the change and the
  -- fee output are added without an error or a panic, in both builds and whatever the orders. The
  -- result spends of each asset exactly what its inputs hold, and its fee is at least the fee
  -- estimated for the inputs and at most that and 546. The keys of the change are assumed to derive,
  -- and an output with a script is assumed to be no fee.
  pub take_fund-Settles :
      (tx last : Transaction) (outs ins : List (ℕ × ℕ)) (more_changes estimated : ℕ)
      → take_fund k s orders maker_input maker_output tx ≡ ok last
      → KeyLaws k.w
      → TxOutLaws k.w.env
      → TakenOuts k.w.env maker_output tx outs
      → All (λ (e : ℕ × ℕ). 0 < e.1) outs
      → traverse (taken_input maker_input s.cache.unblinded) (enumerate 0 last.input) ≡ ok ins
      → InRange ins
      → 0 < estimated
      → liquidex_estimated_changes k.w.env maker_input maker_output last s.cache.unblinded
        ≡ ok more_changes
      → estimated_fee k.w.env last (take_fee_rate k) more_changes ≡ ok estimated
      → InRange ((k.w.config.policy_asset, estimated) ∷ outs)
      → ((change : Amounts)
          → liquidex_changes k.w.env maker_input maker_output last s.cache.unblinded orders.inputs
              estimated k.w.config.policy_asset
            ≡ ok change
          → (s.cache.indexes.internal + 0 + length (orders.changes.order change) < 2 ^ 31)
            × (has k.w.config.policy_asset (outs ++ orders.changes.order change) ≡ true))
      → (tx' : Transaction) × (take_balance k s orders maker_input maker_output last ≡ ok tx')
        × Settles k s maker_input maker_output estimated tx'
  take_fund-Settles tx last outs ins more_changes estimated run keys laws o positive ins_known
        ins_fit some_fee changes_known fee_known outs_fit enough =
      let f = take_fund-Enough tx last run in
      take_balance-Settles k keys laws s orders maker_input maker_output last outs ins
        (TakenOuts-output k.w.env maker_output tx last outs f.same o) ins_known ins_fit
        (orders.rounds f.round) more_changes estimated positive some_fee changes_known fee_known
        outs_fit f.enough enough
