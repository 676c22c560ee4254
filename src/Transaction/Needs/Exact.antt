-- ===== src/Transaction/Needs/Exact.antt =====
-- src/transaction.rs: what `needs` computes.
use bewallet.Common.{
  ℕ, ◌+◌, ◌-◌, ◌<◌, ◌≡◌, ◌∙◌, ap, refl, none, List, [], ◌∷◌, arith, nat_eq, nat_beq, if◌then◌else◌,
  All,
}
use bewallet.Outcome.{ok, traverse}
use bewallet.Map.{Amounts, Iteration, Distinct, get, insert, remove, amount, or_zero, entry_add}
use bewallet.Map.Laws.{get-remove}
use bewallet.Amounts.{total, Holds, InRange}
use bewallet.Amounts.Laws.{
  accumulate_lem, entry_add-Holds, entry_add-insert, Holds-total, InRange-head, InRange-tail,
}
use bewallet.Elements.{Env, F64, AssetId, Transaction}
use bewallet.Transaction.{Txs, Unblinded, input_amount, output_amount}
use bewallet.Transaction.Fee.{estimated_fee, estimated_changes}
use bewallet.Word.{Build}
use bewallet.Transaction.Needs.{missing, missing_amounts, needs}

missing-amount :
    (outputs : List (ℕ × ℕ)) (inputs : Amounts) (a : ℕ)
    → Distinct outputs
    → amount a (missing outputs inputs) ≡ amount a outputs - amount a inputs
unfolding missing get
missing-amount [] inputs a d = omega arith
missing-amount ((asset, value) ∷ outputs) inputs a d =
    ground (arith, missing-amount outputs (remove asset inputs) a d.1, get-remove asset a inputs)

missing-positive :
    (outputs : List (ℕ × ℕ)) (inputs : Amounts)
    → All (λ (e : ℕ × ℕ). 0 < e.1) (missing outputs inputs)
unfolding missing
missing-positive [] inputs = tt
missing-positive ((asset, value) ∷ outputs) inputs =
    ground (arith, missing-positive outputs (remove asset inputs))

missing-absent :
    (outputs : List (ℕ × ℕ)) (inputs : Amounts) (a : ℕ)
    → get a outputs ≡ none
    → get a (missing outputs inputs) ≡ none
unfolding missing get
missing-absent [] inputs a h = refl
missing-absent ((asset, value) ∷ outputs) inputs a h =
    ground (arith, missing-absent outputs (remove asset inputs) a)

missing-Distinct :
    (outputs : List (ℕ × ℕ)) (inputs : Amounts)
    → Distinct outputs
    → Distinct (missing outputs inputs)
unfolding missing
missing-Distinct [] inputs d = tt
missing-Distinct ((asset, value) ∷ outputs) inputs d = ground (
  arith,
  missing-Distinct outputs (remove asset inputs) d.1,
  missing-absent outputs (remove asset inputs) asset d.0,
)

abbrev pub fee_of : AssetId → ℕ → ℕ → ℕ
fee_of policy_asset fee a = if nat_beq policy_asset a then fee else 0

-- `r` lists, once each, the assets of which the inputs do not cover the outputs and the fee, each
-- with what is missing of it.
pub record IsMissing (policy_asset fee : ℕ) (outs ins r : List (ℕ × ℕ)) : Type 0 where
  pub distinct : Distinct r
  pub positive : All (λ (e : ℕ × ℕ). 0 < e.1) r
  pub exact : (a : ℕ) → amount a r ≡ (total a outs + fee_of policy_asset fee a) - total a ins

-- The fee joins the outputs of the policy asset.
fee-added :
    {policy_asset fee : ℕ} {outs ins : List (ℕ × ℕ)} (o o' i : Amounts) {s : ℕ}
    → Holds o ((policy_asset, fee) ∷ []) o'
    → Holds [] outs o
    → Holds [] ins i
    → (a : ℕ) → s ≡ amount a o' - amount a i
    → s ≡ (total a outs + fee_of policy_asset fee a) - total a ins
unfolding total
fee-added o o' i one ho hi a e = ground (arith, one.amounts a, Holds-total a ho, Holds-total a hi)

-- From the sums of both sides.
pub missing_amounts-IsMissing :
    (b : Build) (iteration : Iteration) (policy_asset fee : ℕ) (outs ins : List (ℕ × ℕ))
    (o i : Amounts)
    → Holds [] outs o
    → Holds [] ins i
    → InRange ((policy_asset, fee) ∷ outs)
    → (r : List (ℕ × ℕ)) × (missing_amounts b iteration policy_asset fee o i ≡ ok r)
      × IsMissing policy_asset fee outs ins r
unfolding missing_amounts
missing_amounts-IsMissing b iteration policy_asset fee outs ins o i ho hi outs_fit =
    let o' = insert policy_asset (amount policy_asset o + fee) o in
    let one : Holds o ((policy_asset, fee) ∷ []) o' =
      entry_add-Holds o policy_asset fee ho.distinct in
    let add : entry_add b o policy_asset fee ≡ ok o' =
      entry_add-insert b o policy_asset fee
        (omega (arith, Holds-total policy_asset ho, InRange-head policy_asset fee outs outs_fit)) in
    let d = iteration.order_distinct o' one.distinct in
    (
      missing (iteration.order o') i,
      rw add,
      record {
        distinct = missing-Distinct _ i d;
        positive = missing-positive _ i;
        exact = λ a. fee-added o o' i one ho hi a (
            missing-amount (iteration.order o') i a d
            ∙ ap (λ g. or_zero g - amount a i) (iteration.order_get o' a one.distinct));
      },
    )

module _ (env : Env) (iteration : Iteration) (tx : Transaction) (fee_rate : F64)
    (policy_asset : AssetId) (all_txs : Txs) (unblinded : Unblinded) (outs ins : List (ℕ × ℕ))
    (more_changes fee : ℕ) (outs_known : traverse output_amount tx.output ≡ ok outs)
    (ins_known : traverse (input_amount env all_txs unblinded) tx.input ≡ ok ins)
    (changes_known : estimated_changes env tx all_txs unblinded ≡ ok more_changes)
    (fee_known : estimated_fee env tx fee_rate more_changes ≡ ok fee)
    (outs_fit : InRange ((policy_asset, fee) ∷ outs)) (ins_fit : InRange ins) where
  -- Where every output is explicit and every spent output known, and no sum of an asset overflows
  -- a `u64`, `needs` lists exactly what is missing, whatever the order of iteration.
  pub needs-IsMissing :
      (r : List (ℕ × ℕ)) × (needs env iteration tx fee_rate policy_asset all_txs unblinded ≡ ok r)
      × IsMissing policy_asset fee outs ins r
  unfolding needs
  needs-IsMissing =
      let (o, run_o, ho) =
        accumulate_lem env.build output_amount tx.output outs outs_known
          (InRange-tail (policy_asset, fee) outs outs_fit) in
      let (i, run_i, hi) =
        accumulate_lem env.build (input_amount env all_txs unblinded) tx.input ins ins_known
          ins_fit in
      let (r, run, m) =
        missing_amounts-IsMissing env.build iteration policy_asset fee outs ins o i ho hi
          outs_fit in
      (r, rw (run_o, run_i, changes_known, fee_known) run, m)
