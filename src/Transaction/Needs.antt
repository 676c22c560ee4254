-- ===== src/Transaction/Needs.antt =====
-- src/transaction.rs: `needs`, the amounts that the inputs do not cover yet.
pub mod Exact
use bewallet.Common.{ℕ, ◌≡◌, Option, none, some, List, [], ◌∷◌, if◌then◌else◌, ltb, nat_eq}
use bewallet.Outcome.{Outcome, ok, ◌>>=◌}
use bewallet.Word.{Build, checked_sub}
use bewallet.Map.{Amounts, Iteration, remove, amount, entry_add}
use bewallet.Amounts.{accumulate}
use bewallet.Elements.{Env, F64, AssetId, Transaction}
use bewallet.Transaction.{Txs, Unblinded, input_amount, output_amount}
use bewallet.Transaction.Fee.{estimated_fee, estimated_changes}

-- The loop over `outputs.iter()`; each asset is taken out of `inputs` as it is met.
unfoldable pub missing : List (ℕ × ℕ) → Amounts → List (ℕ × ℕ)
missing [] inputs = []
missing ((asset, value) ∷ outputs) inputs =
    let rest = missing outputs (remove asset inputs) in
    elim (checked_sub value (amount asset inputs)) [
      | none ↦ rest
      | some s ↦ if ltb 0 s then (asset, s) ∷ rest else rest
    ]

-- The fee joins the outputs of the policy asset before the loop; `liquidex_needs` repeats this.
unfoldable pub missing_amounts :
    Build → Iteration → AssetId → ℕ → Amounts → Amounts → Outcome (List (AssetId × ℕ))
unfolding missing
missing_amounts b iteration policy_asset fee outputs inputs = do
  outputs' ← entry_add b outputs policy_asset fee
  ok (missing (iteration.order outputs') inputs)

module _ (env : Env) (iteration : Iteration) where
  unfoldable pub needs :
      Transaction → F64 → AssetId → Txs → Unblinded → Outcome (List (AssetId × ℕ))
  unfolding missing_amounts
  needs tx fee_rate policy_asset all_txs unblinded = do
    outputs ← accumulate env.build output_amount tx.output []
    inputs ← accumulate env.build (input_amount env all_txs unblinded) tx.input []
    more_changes ← estimated_changes env tx all_txs unblinded
    fee ← estimated_fee env tx fee_rate more_changes
    missing_amounts env.build iteration policy_asset fee outputs inputs
