-- ===== src/Liquidex/Exact.antt =====
-- src/liquidex.rs: what the taker has to add, gets back, and pays as the fee.
use bewallet.Common.{
  ℕ, ◌+◌, ◌-◌, ◌≤◌, ◌≡◌, refl, true, false, ◌&&◌, Option, none, some, List, [], ◌∷◌, any, length,
  is_some, arith, nat_eq, if◌then◌else◌, ◌%◌,
}
use bewallet.Outcome.{ok, panic, ◌>>=◌, unwrap, traverse}
use bewallet.Word.{sub_u64, sub_u64_fits}
use bewallet.Map.{Amounts, Iteration, Distinct, get, amount, or_zero}
use bewallet.Amounts.{accumulate, total, has, InRange}
use bewallet.Amounts.Laws.{accumulate_lem, InRange-tail, Holds-total, Holds-has}
use bewallet.Elements.{Env, F64, AssetId, TxOutSecrets, Transaction}
use bewallet.Transaction.{Unblinded}
use bewallet.Transaction.Fee.{estimated_fee}
use bewallet.Transaction.Needs.Exact.{IsMissing, missing_amounts-IsMissing}
use bewallet.Transaction.Changes.Loop.{change, due}
use bewallet.Transaction.Changes.Exact.{change_amounts-IsChange}
use bewallet.Liquidex.{
  enumerate, taken_output, taken_input, outputs, inputs, liquidex_estimated_changes, liquidex_needs,
  liquidex_changes, liquidex_fee,
}

counts :
    (env : Env) (maker_input maker_output : TxOutSecrets) (tx : Transaction) (unblinded : Unblinded)
    (i : Amounts) {n : ℕ}
    → accumulate env.build (taken_input maker_input unblinded) (enumerate 0 tx.input) [] ≡ ok i
    → liquidex_estimated_changes env maker_input maker_output tx unblinded ≡ ok n
    → length i % 256 ≡ n
unfolding liquidex_estimated_changes
counts env maker_input maker_output tx unblinded i {n} run h =
    let e : ok (length i % 256) ≡ ok n = rw run at h in cc

module _ (env : Env) (maker_input maker_output : TxOutSecrets) (tx : Transaction)
    (unblinded : Unblinded) (policy_asset : AssetId) (outs ins : List (ℕ × ℕ))
    (outs_known : traverse (taken_output maker_output) (enumerate 0 tx.output) ≡ ok outs)
    (ins_known : traverse (taken_input maker_input unblinded) (enumerate 0 tx.input) ≡ ok ins)
    (ins_fit : InRange ins) where
  -- Where the amounts of the taken transaction are known, the maker's by the proposal, and no sum
  -- of an asset overflows a `u64`, `liquidex_needs` lists exactly what is missing of each asset,
  -- the estimated fee included, whatever the order of iteration.
  pub liquidex_needs-IsMissing :
      (iteration : Iteration) (fee_rate : F64) (more_changes fee : ℕ)
      → liquidex_estimated_changes env maker_input maker_output tx unblinded ≡ ok more_changes
      → estimated_fee env tx fee_rate more_changes ≡ ok fee
      → InRange ((policy_asset, fee) ∷ outs)
      → (r : List (ℕ × ℕ)) × (liquidex_needs env maker_input maker_output tx unblinded iteration
            fee_rate policy_asset
          ≡ ok r)
        × IsMissing policy_asset fee outs ins r
  unfolding liquidex_needs outputs inputs
  liquidex_needs-IsMissing iteration fee_rate more_changes fee changes_known fee_known outs_fit =
      let (o, run_o, ho) =
        accumulate_lem env.build (taken_output maker_output) (enumerate 0 tx.output) outs outs_known
          (InRange-tail (policy_asset, fee) outs outs_fit) in
      let (i, run_i, hi) =
        accumulate_lem env.build (taken_input maker_input unblinded) (enumerate 0 tx.input) ins
          ins_known ins_fit in
      let (r, run, m) =
        missing_amounts-IsMissing env.build iteration policy_asset fee outs ins o i ho hi
          outs_fit in
      let counted : length i % 256 ≡ more_changes =
        counts env maker_input maker_output tx unblinded i run_i changes_known in
      (r, rw (run_o, run_i, counted, fee_known) run, m)

  -- Where what goes in covers what goes out and the fee, `liquidex_changes` ends without a panic in
  -- both builds and gives back of each asset exactly what is left of it, but no dust of the policy
  -- asset.
  pub liquidex_changes-exact :
      (iteration : Iteration) (fee : ℕ)
      → InRange outs
      → ((a : ℕ) → has a ins ≡ true → total a outs + due policy_asset fee a ≤ total a ins)
      → ((a : ℕ) → has a outs ≡ true → has a ins ≡ true)
      → (result : Amounts) × (liquidex_changes env maker_input maker_output tx unblinded iteration
            fee policy_asset
          ≡ ok result)
        × Distinct result
        × ((a : ℕ) → amount a result ≡ change policy_asset fee a (total a ins - total a outs))
  unfolding liquidex_changes outputs inputs
  liquidex_changes-exact iteration fee outs_fit covered spent =
      let (o, run_o, ho) =
        accumulate_lem env.build (taken_output maker_output) (enumerate 0 tx.output) outs outs_known
          outs_fit in
      let (i, run_i, hi) =
        accumulate_lem env.build (taken_input maker_input unblinded) (enumerate 0 tx.input) ins
          ins_known ins_fit in
      let (result, run, c) =
        change_amounts-IsChange policy_asset fee env.build iteration i o hi.distinct
          (λ a h. (
            ground (arith, covered a, Holds-total a ho, Holds-total a hi, Holds-has a hi),
            omega (arith, Holds-total a hi, ins_fit a),
          ))
          (λ a h. ground (arith, spent a, Holds-has a ho, Holds-has a hi)) in
      (
        result,
        rw (run_o, run_i) run,
        c.distinct,
        λ a. rw (← Holds-total a hi, ← Holds-total a ho) (c.exact a),
      )

  -- Without a fee output, and where the inputs cover the outputs of the policy asset, `liquidex_fee`
  -- returns what is left of that asset if it is both among the inputs and among the outputs, and
  -- panics otherwise, in both builds.
  pub liquidex_fee-left :
      any env.is_fee tx.output ≡ false
      → InRange outs
      → total policy_asset outs ≤ total policy_asset ins
      → liquidex_fee env maker_input maker_output tx unblinded policy_asset ≡ (
          if has policy_asset ins && has policy_asset outs
          then ok (total policy_asset ins - total policy_asset outs)
          else panic)
  unfolding liquidex_fee outputs inputs
  liquidex_fee-left no_fee outs_fit covers =
      let (o, run_o, ho) =
        accumulate_lem env.build (taken_output maker_output) (enumerate 0 tx.output) outs outs_known
          outs_fit in
      let (i, run_i, hi) =
        accumulate_lem env.build (taken_input maker_input unblinded) (enumerate 0 tx.input) ins
          ins_known ins_fit in
      rw (no_fee, run_o, run_i)
        (left (get policy_asset i) (get policy_asset o) (Holds-total policy_asset hi)
          (Holds-total policy_asset ho) (Holds-has policy_asset hi) (Holds-has policy_asset ho))
    where
      left :
          (x y : Option ℕ)
          → or_zero x ≡ total policy_asset ins
          → or_zero y ≡ total policy_asset outs
          → is_some x ≡ has policy_asset ins
          → is_some y ≡ has policy_asset outs
          → (unwrap x >>= λ in_policy.
              unwrap y >>= λ out_policy. sub_u64 env.build in_policy out_policy)
            ≡ (if has policy_asset ins && has policy_asset outs
                then ok (total policy_asset ins - total policy_asset outs)
                else panic)
      left none y e f g h = rw (← g) refl
      left (some u) none e f g h = rw (← g, ← h) refl
      left (some u) (some v) e f g h =
          rw (← g, ← h, ← e, ← f)
            (sub_u64_fits env.build u v (omega (arith, e, f, covers))
              (omega (arith, e, ins_fit policy_asset)))
