-- ===== src/Tests/Swaps.antt =====
-- src/liquidex.rs, at a swap of 50 of asset 2 for 300 of asset 1.
use bewallet.Common.{
  ◌↔◌, ℕ, ◌+◌, ◌-◌, ◌≤◌, ◌≡◌, refl, true, ◌&&◌, List, [], ◌∷◌, arith, nat_eq, if◌then◌else◌,
}
use bewallet.Outcome.{ok, panic, traverse}
use bewallet.Map.{get, Distinct, amount, Amounts}
use bewallet.Amounts.{total, has, InRange}
use bewallet.Elements.{Asset, Value, Transaction, TxOut, default_out}
use bewallet.Transaction.Fee.{estimated_fee}
use bewallet.Transaction.Needs.Exact.{IsMissing}
use bewallet.Transaction.Changes.Loop.{change, due}
use bewallet.Liquidex.{
  LiquidexProposal, Zkp, proposal_new, verify_output_commitment, enumerate, taken_output,
  taken_input, liquidex_estimated_changes, liquidex_needs, liquidex_changes, liquidex_fee,
}
use bewallet.Liquidex.Exact.{liquidex_needs-IsMissing, liquidex_changes-exact, liquidex_fee-left}
use bewallet.Liquidex.Committed.{Accepted, verify_output_commitment-Accepted}
use bewallet.Error.{generic}
use bewallet.Outcome.{err}
use bewallet.Tests.World.{env, in_order, unblinded, secrets, spend, pay, received_out}

-- The maker's input and output come first.
abbrev swap : Transaction
swap = record {
  version = 2;
  lock_time = 0;
  input = spend 5 ∷ spend 0 ∷ [];
  output = received_out ∷ pay 2 50 ∷ [];
}

outs_stated :
    traverse (taken_output (secrets 1 300)) (enumerate 0 swap.output) ≡ ok ((1, 300) ∷ (2, 50) ∷ [])
unfolding taken_output bewallet.Transaction.output_amount
outs_stated = refl

ins_stated :
    traverse (taken_input (secrets 2 50) unblinded) (enumerate 0 swap.input)
    ≡ ok ((2, 50) ∷ (1, 1000) ∷ [])
unfolding taken_input get
ins_stated = refl

swap_outs : InRange ((1, 300) ∷ (2, 50) ∷ [])
unfolding total
swap_outs a = ground arith

swap_outs_and_fee : InRange ((1, 17) ∷ (1, 300) ∷ (2, 50) ∷ [])
unfolding total
swap_outs_and_fee a = ground arith

swap_ins : InRange ((2, 50) ∷ (1, 1000) ∷ [])
unfolding total
swap_ins a = ground arith

swap_changes : liquidex_estimated_changes env (secrets 2 50) (secrets 1 300) swap unblinded ≡ ok 2
unfolding liquidex_estimated_changes bewallet.Amounts.accumulate bewallet.Map.entry_add
    bewallet.Word.add_u64 get bewallet.Map.insert
swap_changes = refl

swap_fee : estimated_fee env swap 1 2 ≡ ok 17
unfolding estimated_fee
swap_fee = refl

liquidex_needs-IsMissing_example :
    (r : List (ℕ × ℕ)) × (liquidex_needs env
        (secrets 2 50)
        (secrets 1 300)
        swap
        unblinded
        in_order
        1
        1
      ≡ ok r)
    × IsMissing 1 17 ((1, 300) ∷ (2, 50) ∷ []) ((2, 50) ∷ (1, 1000) ∷ []) r
liquidex_needs-IsMissing_example =
    liquidex_needs-IsMissing env (secrets 2 50) (secrets 1 300) swap unblinded 1
      ((1, 300) ∷ (2, 50) ∷ []) ((2, 50) ∷ (1, 1000) ∷ []) outs_stated ins_stated swap_ins in_order
      1 2 17 swap_changes swap_fee swap_outs_and_fee

swap_covered :
    (a : ℕ)
    → has a ((2, 50) ∷ (1, 1000) ∷ []) ≡ true
    → total a ((1, 300) ∷ (2, 50) ∷ []) + due 1 17 a ≤ total a ((2, 50) ∷ (1, 1000) ∷ [])
unfolding total has
swap_covered a h = ground arith

swap_spent :
    (a : ℕ) → has a ((1, 300) ∷ (2, 50) ∷ []) ≡ true → has a ((2, 50) ∷ (1, 1000) ∷ []) ≡ true
unfolding has
swap_spent a h = ground arith

liquidex_changes-exact_example :
    (result : Amounts) × (liquidex_changes env
        (secrets 2 50)
        (secrets 1 300)
        swap
        unblinded
        in_order
        17
        1
      ≡ ok result)
    × Distinct result
    × ((a : ℕ)
        → amount a result
          ≡ change 1 17 a (total a ((2, 50) ∷ (1, 1000) ∷ []) - total a ((1, 300) ∷ (2, 50) ∷ [])))
liquidex_changes-exact_example =
    liquidex_changes-exact env (secrets 2 50) (secrets 1 300) swap unblinded 1
      ((1, 300) ∷ (2, 50) ∷ []) ((2, 50) ∷ (1, 1000) ∷ []) outs_stated ins_stated swap_ins in_order
      17 swap_outs swap_covered swap_spent

swap_covers : total 1 ((1, 300) ∷ (2, 50) ∷ []) ≤ total 1 ((2, 50) ∷ (1, 1000) ∷ [])
unfolding total
swap_covers = omega arith

liquidex_fee-left_example : liquidex_fee env (secrets 2 50) (secrets 1 300) swap unblinded 1 ≡ (
    if has 1 ((2, 50) ∷ (1, 1000) ∷ []) && has 1 ((1, 300) ∷ (2, 50) ∷ [])
    then ok (total 1 ((2, 50) ∷ (1, 1000) ∷ []) - total 1 ((1, 300) ∷ (2, 50) ∷ []))
    else panic)
liquidex_fee-left_example =
    liquidex_fee-left env (secrets 2 50) (secrets 1 300) swap unblinded 1 ((1, 300) ∷ (2, 50) ∷ [])
      ((2, 50) ∷ (1, 1000) ∷ []) outs_stated ins_stated swap_ins refl swap_outs swap_covers

-- The generator of an asset is its number, and the commitment of a value is the value.
abbrev maker_output : TxOut
maker_output = record default_out { asset = Asset.confidential 1; value = Value.confidential 300 }

abbrev made : Transaction
made = record { version = 2; lock_time = 0; input = spend 5 ∷ []; output = maker_output ∷ [] }

abbrev zkp : Zkp
zkp = record {
  tx_to_hex = λ tx. "00";
  tx_from_hex = λ s. ok made;
  new_blinded = λ a bf. a + bf;
  commitment = λ v bf g. v + bf;
}

abbrev proposed : LiquidexProposal
proposed = proposal_new zkp made (secrets 2 50) (secrets 1 300)

verify_output_commitment-Accepted_example :
    (verify_output_commitment zkp proposed ≡ ok (secrets 1 300))
    ↔ Accepted zkp proposed (secrets 1 300)
verify_output_commitment-Accepted_example =
    verify_output_commitment-Accepted zkp proposed (secrets 1 300)

proposed-accepted : verify_output_commitment zkp proposed ≡ ok (secrets 1 300)
unfolding verify_output_commitment proposal_new
proposed-accepted = refl

-- The proposal states one more than its output commits to.
proposed-refused :
    verify_output_commitment zkp (proposal_new zkp made (secrets 2 50) (secrets 1 301))
    ≡ err (generic "LiquiDEX error unexpected commitments")
unfolding verify_output_commitment proposal_new
proposed-refused = refl
