-- ===== src/Transaction/Changes.antt =====
-- src/transaction.rs: `changes`, the amounts that go back to the wallet.
pub mod Loop
pub mod Exact
use bewallet.Common.{ℕ, ◌≡◌, List, [], ◌∷◌, if◌then◌else◌, ltb, nat_eq, ◌==◌, is_empty}
use bewallet.Outcome.{Outcome, ok, ◌>>=◌, ◌>>◌, assert}
use bewallet.Word.{Build, sub_u64}
use bewallet.Map.{Amounts, Iteration, remove, insert, amount}
use bewallet.Amounts.{accumulate}
use bewallet.Elements.{Env, AssetId, Transaction}
use bewallet.Transaction.{Txs, Unblinded, dust_value, input_amount, output_amount}

-- The body of the loop from `if *asset == policy_asset` on.
unfoldable pub add_change : Build → AssetId → ℕ → AssetId → ℕ → Amounts → Outcome Amounts
add_change b policy_asset estimated_fee asset sum result =
    if asset == policy_asset
    then (do
      sum' ← sub_u64 b sum estimated_fee
      ok (if ltb dust_value sum' then insert asset sum' result else result))
    else ok (if ltb 0 sum then insert asset sum result else result)

-- The loop over the inputs' amounts, with the outputs not met yet and the result so far.
unfoldable pub change_loop :
    Build → AssetId → ℕ → List (ℕ × ℕ) → Amounts → Amounts → Outcome (Amounts × Amounts)
change_loop b policy_asset estimated_fee [] outputs result = ok (outputs, result)
change_loop b policy_asset estimated_fee ((asset, value) ∷ inputs) outputs result = do
  sum ← sub_u64 b value (amount asset outputs)
  result' ← add_change b policy_asset estimated_fee asset sum result
  change_loop b policy_asset estimated_fee inputs (remove asset outputs) result'

-- The loop and the final `assert!`, which `liquidex_changes` repeats.
unfoldable pub change_amounts :
    Build → Iteration → AssetId → ℕ → Amounts → Amounts → Outcome Amounts
unfolding change_loop
change_amounts b iteration policy_asset estimated_fee inputs outputs = do
  (outputs', result) ← change_loop b policy_asset estimated_fee (iteration.order inputs) outputs []
  assert (is_empty outputs')
  ok result

module _ (env : Env) (iteration : Iteration) where
  unfoldable pub changes : Transaction → ℕ → AssetId → Txs → Unblinded → Outcome Amounts
  unfolding change_amounts
  changes tx estimated_fee policy_asset all_txs unblinded = do
    outputs ← accumulate env.build output_amount tx.output []
    inputs ← accumulate env.build (input_amount env all_txs unblinded) tx.input []
    change_amounts env.build iteration policy_asset estimated_fee inputs outputs
