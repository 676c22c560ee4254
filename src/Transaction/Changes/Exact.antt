-- ===== src/Transaction/Changes/Exact.antt =====
-- src/transaction.rs: what `changes` computes.
use bewallet.Common.{
  is_some, ℕ, ◌+◌, ◌-◌, ◌≤◌, ◌≡◌, refl, true, none, Option, List, [], ◌∷◌, arith, nat_eq,
  if◌then◌else◌, is_empty,
}
use bewallet.Outcome.{ok, traverse}
use bewallet.Word.{Build}
use bewallet.Map.{Amounts, Iteration, Distinct, get, amount, or_zero}
use bewallet.Amounts.{total, has, InRange}
use bewallet.Amounts.Laws.{accumulate_lem, Holds-total, Holds-has}
use bewallet.Elements.{Env, Transaction}
use bewallet.Transaction.{Txs, Unblinded, input_amount, output_amount}
use bewallet.Transaction.Changes.{change_amounts, changes}
use bewallet.Transaction.Changes.Loop.{change, due, Covered, change_loop-Loops}

get-nil : (a : ℕ) → get {V = ℕ} a [] ≡ none
unfolding get
get-nil a = refl

no_entry_is_empty : (m : Amounts) → ((a : ℕ) → get a m ≡ none) → is_empty m ≡ true
unfolding get
no_entry_is_empty [] h = refl
no_entry_is_empty ((a, v) ∷ m) h = ground (arith, h a)

module _ (policy_asset fee : ℕ) where
  -- What the result holds: of each asset what is left of it, but no dust of the policy asset.
  pub record IsChange (inputs outputs result : Amounts) : Type 0 where
    pub distinct : Distinct result
    pub exact :
        (a : ℕ) → amount a result ≡ change policy_asset fee a (amount a inputs - amount a outputs)

  -- An asset that no input holds has no change.
  no_input :
      (a : ℕ) (o : Option ℕ) (out : ℕ) {s : ℕ}
      → s ≡ (if is_some o then change policy_asset fee a (or_zero o - out) else amount a [])
      → s ≡ change policy_asset fee a (or_zero o - out)
  unfolding change get
  no_input a o out h = ground arith

  pub change_amounts-IsChange :
      (b : Build) (iteration : Iteration) (inputs outputs : Amounts)
      → Distinct inputs
      → Covered policy_asset fee inputs outputs
      → ((a : ℕ) → is_some (get a outputs) ≡ true → is_some (get a inputs) ≡ true)
      → (result : Amounts) × (change_amounts b iteration policy_asset fee inputs outputs
          ≡ ok result)
        × IsChange inputs outputs result
  unfolding change_amounts
  change_amounts-IsChange b iteration inputs outputs d c known =
      let same = λ (a : ℕ). iteration.order_get inputs a d in
      let (outputs', result, run, l) =
        change_loop-Loops b policy_asset fee (iteration.order inputs) outputs []
          (iteration.order_distinct inputs d) tt (λ a. rw (same a) (c a)) (λ a _. get-nil a) in
      let left : (a : ℕ) → get a outputs' ≡ none = λ a. ground (arith, l.rest a, same a, known a) in
      (
        result,
        rw (run, no_entry_is_empty outputs' left),
        record {
          distinct = l.distinct;
          exact = λ a. no_input a (get a inputs) (amount a outputs) (rw same at (l.amounts a));
        },
      )

module _ (env : Env) (iteration : Iteration) (tx : Transaction) (policy_asset fee : ℕ)
    (all_txs : Txs) (unblinded : Unblinded) (outs ins : List (ℕ × ℕ))
    (outs_known : traverse output_amount tx.output ≡ ok outs)
    (ins_known : traverse (input_amount env all_txs unblinded) tx.input ≡ ok ins)
    (outs_fit : InRange outs) (ins_fit : InRange ins)
    (covered : (a : ℕ) → has a ins ≡ true → total a outs + due policy_asset fee a ≤ total a ins)
    (spent : (a : ℕ) → has a outs ≡ true → has a ins ≡ true) where
  -- Where every output is explicit and every spent output known, no sum of an asset overflows a
  -- `u64`, and the inputs cover the outputs and the fee, `changes` ends without a panic in both
  -- builds, and gives back of each asset exactly what is left of it: of the policy asset what is
  -- above the fee, unless that is dust, and of any other asset all.
  pub changes-exact :
      (result : Amounts) × (changes env iteration tx fee policy_asset all_txs unblinded ≡ ok result)
      × Distinct result
      × ((a : ℕ) → amount a result ≡ change policy_asset fee a (total a ins - total a outs))
  unfolding changes
  changes-exact =
      let (o, run_o, ho) =
        accumulate_lem env.build output_amount tx.output outs outs_known outs_fit in
      let (i, run_i, hi) =
        accumulate_lem env.build (input_amount env all_txs unblinded) tx.input ins ins_known
          ins_fit in
      let (result, run, c) =
        change_amounts-IsChange policy_asset fee env.build iteration i o hi.distinct
          (λ a h. (
            ground (arith, covered a, Holds-total a ho, Holds-total a hi, Holds-has a hi),
            omega (arith, Holds-total a hi, ins_fit a),
          ))
          (λ a h. ground (arith, spent a, Holds-has a ho, Holds-has a hi)) in
      (
        result,
        rw (run_o, run_i) run,
        c.distinct,
        λ a. rw (← Holds-total a hi, ← Holds-total a ho) (c.exact a),
      )
