-- ===== src/Store/Sets.antt =====
-- src/store.rs: the set of the spent outpoints.
use bewallet.Common.{◌≡◌, Bool, ◌||◌, List, [], ◌∷◌, any, arith, ◌==◌, nat_eq}
use bewallet.Map.{contains, set_insert}
use bewallet.Map.Laws.{contains-set_insert}
use bewallet.Elements.{OutPoint, TxIn, Transaction, Txid, outpoint_eq}
use bewallet.Store.{StoreMeta, spend_inputs, spent_loop, spent}

-- Does some input spend the outpoint?
spends : OutPoint → List TxIn → Bool
spends p = any (λ (i : TxIn). i.previous_output == p)

spend_inputs-spends :
    (p : OutPoint) (inputs : List TxIn) (result : List OutPoint)
    → contains p (spend_inputs inputs result) ≡ (spends p inputs || contains p result)
unfolding spend_inputs spends
spend_inputs-spends p [] result = ground arith
spend_inputs-spends p (i ∷ inputs) result = ground (
  arith,
  spend_inputs-spends p inputs (set_insert i.previous_output result),
  contains-set_insert i.previous_output p result,
)

pub spent_by : OutPoint → List (Txid × Transaction) → Bool
spent_by p = any (λ (t : Txid × Transaction). spends p t.1.input)

spent_loop-spent_by :
    (p : OutPoint) (txs : List (Txid × Transaction)) (result : List OutPoint)
    → contains p (spent_loop txs result) ≡ (spent_by p txs || contains p result)
unfolding spent_loop spent_by
spent_loop-spent_by p [] result = ground arith
spent_loop-spent_by p ((id, tx) ∷ txs) result = ground (
  arith,
  spent_loop-spent_by p txs (spend_inputs tx.input result),
  spend_inputs-spends p tx.input result,
)

-- An outpoint is in `spent` exactly if an input of a transaction of the cache spends it.
pub contains-spent :
    (s : StoreMeta) (p : OutPoint) → contains p (spent s) ≡ spent_by p s.cache.all_txs
unfolding spent contains
contains-spent s p = ground (arith, spent_loop-spent_by p s.cache.all_txs [])
