-- ===== src/Transaction/Balances.antt =====
-- src/transaction.rs: `my_balance_changes`, what a transaction changes in the wallet's balances.
pub mod Exact
use bewallet.Common.{
  ℕ, zero, suc, ◌+◌, Bool, true, false, not, Option, none, some, List, [], ◌∷◌, filter, length,
  nat_eq, ◌&&◌, nat_beq,
}
use bewallet.Outcome.{Outcome, ok, ◌>>=◌}
use bewallet.Word.{Build}
use bewallet.Int.{ℤ, pos, negsuc, as_i64, add_i64, sub_i64}
use bewallet.Map.{Map, get, insert}
use bewallet.Elements.{Env, TxIn, Transaction, TxOutSecrets, Txid, AssetId, OutPoint, outpoint_eq}
use bewallet.Transaction.{Unblinded}

abbrev pub Balances : Type 0
Balances = Map AssetId ℤ

-- `or_default` of an `i64`
unfoldable pub balance_of : AssetId → Balances → ℤ
balance_of a m = elim (get a m) [ none ↦ pos 0 | some z ↦ z ]

-- Both loops' body, with the operation of the assignment.
unfoldable pub change_balance :
    (ℤ → ℤ → Outcome ℤ) → Option TxOutSecrets → Balances → Outcome Balances
unfolding balance_of
change_balance op none m = ok m
change_balance op (some unblinded) m = do
  z ← op (balance_of unblinded.asset m) (as_i64 unblinded.value)
  ok (insert unblinded.asset z m)

unfoldable pub spend_loop : Build → Unblinded → List TxIn → Balances → Outcome Balances
unfolding change_balance
spend_loop b all_unblinded [] result = ok result
spend_loop b all_unblinded (input ∷ inputs) result = do
  result' ← change_balance (sub_i64 b) (get input.previous_output all_unblinded) result
  spend_loop b all_unblinded inputs result'

-- `for i in 0..tx.output.len()`, with the rounds that are left.
unfoldable pub receive_loop : Build → Unblinded → Txid → ℕ → ℕ → Balances → Outcome Balances
unfolding change_balance
receive_loop b all_unblinded id zero i result = ok result
receive_loop b all_unblinded id (suc n) i result = do
  result' ← change_balance (add_i64 b) (get (record { txid = id; vout = i }) all_unblinded) result
  receive_loop b all_unblinded id n (i + 1) result'

unfoldable pub is_zero : ℤ → Bool
is_zero (pos zero) = true
is_zero (pos (suc n)) = false
is_zero (negsuc n) = false

unfoldable pub my_balance_changes : Env → Transaction → Unblinded → Outcome Balances
unfolding spend_loop receive_loop is_zero
my_balance_changes env tx all_unblinded = do
  spent ← spend_loop env.build all_unblinded tx.input []
  result ← receive_loop env.build all_unblinded (env.txid tx) (length tx.output) 0 spent
  ok (filter (λ (e : AssetId × ℤ). not (is_zero e.1)) result)
