-- ===== src/Tests/Transactions.antt =====
-- src/transaction.rs, at a payment that spends two coins.
use bewallet.Common.{
  ℕ, ◌+◌, ◌<◌, ◌≤◌, ◌≡◌, refl, true, some, List, [], ◌∷◌, arith, nat_eq, none, nat_beq,
  if◌then◌else◌, ◌-◌, ◌^◌,
}
use bewallet.Outcome.{ok, ◌>>=◌, traverse}
use bewallet.Map.{get, Distinct, amount, set_insert, Amounts}
use bewallet.Amounts.{total, has, InRange}
use bewallet.Elements.{Asset}
use bewallet.Transaction.{
  input_amount, output_amount, add_fee_output, get_previous_output_asset_hex,
}
use bewallet.Transaction.Fee.{estimated_fee, estimated_changes, fee}
use bewallet.Transaction.Fee.Exact.{fee-implicit, fee-add_fee_output}
use bewallet.Transaction.Needs.{needs}
use bewallet.Transaction.Needs.Exact.{needs-IsMissing, IsMissing}
use bewallet.Transaction.Changes.{changes}
use bewallet.Transaction.Changes.Loop.{change, due}
use bewallet.Transaction.Changes.Exact.{changes-exact}
use bewallet.Transaction.Balances.{Balances, my_balance_changes}
use bewallet.Transaction.Balances.Exact.{
  spent_total, received_total, secrets, spent_secrets, received_secrets, my_balance_changes-exact,
}
use bewallet.Int.{sub_ℕ}
use bewallet.Word.{u64_mod}
use bewallet.Amounts.{sum}
use bewallet.Tests.World.{env, env_laws, in_order, all_txs, unblinded, payment}

outs_known : traverse output_amount payment.output ≡ ok ((2, 20) ∷ [])
unfolding output_amount
outs_known = refl

ins_known :
    traverse (input_amount env all_txs unblinded) payment.input ≡ ok ((1, 1000) ∷ (2, 50) ∷ [])
unfolding input_amount get
ins_known = refl

changes_known : estimated_changes env payment all_txs unblinded ≡ ok 2
unfolding estimated_changes get_previous_output_asset_hex get set_insert
changes_known = refl

fee_known : estimated_fee env payment 1 2 ≡ ok 13
unfolding estimated_fee
fee_known = refl

outs_fit : InRange ((1, 13) ∷ (2, 20) ∷ [])
unfolding total
outs_fit a = ground arith

ins_fit : InRange ((1, 1000) ∷ (2, 50) ∷ [])
unfolding total
ins_fit a = ground arith

needs-IsMissing_example :
    (r : List (ℕ × ℕ)) × (needs env in_order payment 1 1 all_txs unblinded ≡ ok r)
    × IsMissing 1 13 ((2, 20) ∷ []) ((1, 1000) ∷ (2, 50) ∷ []) r
needs-IsMissing_example =
    needs-IsMissing env in_order payment 1 1 all_txs unblinded ((2, 20) ∷ [])
      ((1, 1000) ∷ (2, 50) ∷ []) 2 13 outs_known ins_known changes_known fee_known outs_fit ins_fit

requested_fit : InRange ((2, 20) ∷ [])
unfolding total
requested_fit a = ground arith

covered :
    (a : ℕ)
    → has a ((1, 1000) ∷ (2, 50) ∷ []) ≡ true
    → total a ((2, 20) ∷ []) + due 1 13 a ≤ total a ((1, 1000) ∷ (2, 50) ∷ [])
unfolding total has
covered a h = ground arith

spent : (a : ℕ) → has a ((2, 20) ∷ []) ≡ true → has a ((1, 1000) ∷ (2, 50) ∷ []) ≡ true
unfolding has
spent a h = ground arith

changes-exact_example :
    (result : Amounts) × (changes env in_order payment 13 1 all_txs unblinded ≡ ok result)
    × Distinct result
    × ((a : ℕ)
        → amount a result
          ≡ change 1 13 a (total a ((1, 1000) ∷ (2, 50) ∷ []) - total a ((2, 20) ∷ [])))
changes-exact_example =
    changes-exact env in_order payment 1 13 all_txs unblinded ((2, 20) ∷ [])
      ((1, 1000) ∷ (2, 50) ∷ []) outs_known ins_known requested_fit ins_fit covered spent

spent_fits : (a : ℕ) → spent_total unblinded payment a < 2 ^ 63
unfolding total secrets spent_secrets get
spent_fits a = ground arith

received_fits : (a : ℕ) → received_total env unblinded payment a < 2 ^ 63
unfolding total secrets received_secrets get
received_fits a = ground arith

my_balance_changes-exact_example :
    (r : Balances) × (my_balance_changes env payment unblinded ≡ ok r)
    × ((a : ℕ)
        → get a r ≡ (
            if nat_beq (received_total env unblinded payment a) (spent_total unblinded payment a)
            then none
            else some
                (sub_ℕ (received_total env unblinded payment a) (spent_total unblinded payment a))))
my_balance_changes-exact_example =
    my_balance_changes-exact env payment unblinded spent_fits received_fits

-- Without change outputs everything that is not paid would be the fee.
fee-implicit_example :
    fee env payment all_txs unblinded (some (Asset.explicit 1))
    ≡ ok (sum (1000 ∷ 50 ∷ []) - sum (20 ∷ []))
unfolding sum
fee-implicit_example =
    fee-implicit env env_laws payment all_txs unblinded (some (Asset.explicit 1)) ((2, 20) ∷ [])
      ((1, 1000) ∷ (2, 50) ∷ []) refl outs_known ins_known sum_fits sum_covers
  where
    sum_fits : sum (1000 ∷ 50 ∷ []) < u64_mod
    sum_fits = ground arith

    sum_covers : sum (20 ∷ []) ≤ sum (1000 ∷ 50 ∷ [])
    sum_covers = ground arith

fee-add_fee_output_example :
    (add_fee_output payment 13 (some (Asset.explicit 1)) >>= λ tx'.
    fee env tx' all_txs unblinded (some (Asset.explicit 1)))
    ≡ ok 13
fee-add_fee_output_example =
    fee-add_fee_output env env_laws payment all_txs unblinded 1 13 refl (omega arith)
