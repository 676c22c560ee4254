-- ===== src/Sync/Scan.antt =====
-- src/lib.rs: the loop of `sync` over the batches of the two chains.
use bewallet.Common.{
  ℕ, zero, suc, ◌+◌, Bool, true, false, Option, none, some, List, [], ◌∷◌, ◌++◌, map, is_empty,
  if◌then◌else◌, nat_beq, nat_eq, bytes_eq,
}
use bewallet.Outcome.{Outcome, ok, hang, ◌>>=◌}
use bewallet.Word.{add_u32, mul_u32}
use bewallet.Int.{pos_part}
use bewallet.Map.{Map, insert, extend, set_insert}
use bewallet.Elements.{Env, Script, Txid}
use bewallet.Store.{
  StoreMeta, Derivation, DerivationPath, Indexes, indexes_default, get_script_batch, batch_size,
  ScriptBatch,
}
use bewallet.Sync.Client.{Client, GetHistoryRes}

pub record Scanned : Type 0 where
  pub history_txs_id : List Txid
  pub heights_set : List ℕ
  pub txid_height : Map Txid (Option ℕ)
  pub scripts : Map Script DerivationPath
  pub last_used : Indexes

abbrev pub scanned_default : Scanned
scanned_default = record {
  history_txs_id = [];
  heights_set = [];
  txid_height = [];
  scripts = [];
  last_used = indexes_default;
}

-- The greatest index, from `i` on, of a script with a history.
unfoldable pub last_nonempty : ℕ → List (List GetHistoryRes) → Option ℕ
last_nonempty i [] = none
last_nonempty i (v ∷ vs) =
    let rest = last_nonempty (i + 1) vs in
    elim rest [ some m ↦ some m | none ↦ if is_empty v then none else some i ]

unfoldable pub flatten : List (List GetHistoryRes) → List GetHistoryRes
flatten [] = []
flatten (v ∷ vs) = v ++ flatten vs

-- `el.height.max(0)`: -1 and 0 both say that the transaction is not confirmed.
unfoldable pub add_history : List GetHistoryRes → Scanned → Scanned
add_history [] st = st
add_history (el ∷ els) st =
    let height = pos_part el.height in
    add_history els (record st {
      heights_set = set_insert height st.heights_set;
      txid_height =
          insert el.tx_hash (if nat_beq height 0 then none else some height) st.txid_height;
      history_txs_id = set_insert el.tx_hash st.history_txs_id;
    })

unfoldable pub set_last_used : Env → ℕ → ℕ → Option ℕ → Indexes → Outcome Indexes
set_last_used env i batch_count none last_used = ok last_used
set_last_used env i batch_count (some m) last_used = do
  start ← mul_u32 env.build batch_count batch_size
  last ← add_u32 env.build m start
  ok (
      if nat_beq i 0
      then record last_used { external = last }
      else record last_used { internal = last })

-- `if !batch.cached { scripts.extend(batch.value) }`
unfoldable pub add_scripts : ScriptBatch → Scanned → Scanned
add_scripts batch st =
    if batch.cached then st else record st { scripts = extend st.scripts batch.value }

module _ (env : Env) (d : Derivation) (client : Client) (s : StoreMeta) where
  -- A round of the loop, with whether it goes on: `false` is the `break`.
  unfoldable pub scan_batch : ℕ → ℕ → Scanned → Outcome (Bool × Scanned)
  unfolding last_nonempty flatten add_history set_last_used add_scripts
  scan_batch i batch_count st = do
    batch ← get_script_batch env d s i batch_count
    result ←
        client.batch_script_get_history (map (λ (e : Script × DerivationPath). e.0) batch.value)
    let st₁ = add_scripts batch st
    last_used ← set_last_used env i batch_count (last_nonempty 0 result) st₁.last_used
    let st₂ = record st₁ { last_used = last_used }
    let flattened = flatten result
    ok (if is_empty flattened then (false, st₂) else (true, add_history flattened st₂))

  -- The `loop`, with the rounds that it may take.
  unfoldable pub scan_chain : ℕ → ℕ → ℕ → Scanned → Outcome Scanned
  unfolding scan_batch
  scan_chain zero i batch_count st = hang
  scan_chain (suc n) i batch_count st = do
    (more, st') ← scan_batch i batch_count st
    let next = (do batch_count' ← add_u32 env.build batch_count 1; scan_chain n i batch_count' st')
    if more then next else ok st'

  unfoldable pub scan_chains : ℕ → List ℕ → Scanned → Outcome Scanned
  unfolding scan_chain
  scan_chains rounds [] st = ok st
  scan_chains rounds (i ∷ chains) st = do
    st' ← scan_chain rounds i 0 st
    scan_chains rounds chains st'
