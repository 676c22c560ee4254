-- ===== src/Sync/Download.antt =====
-- src/lib.rs: `download_txs`, `download_headers` and `try_unblind`.
use bewallet.Common.{
  ℕ, ◌+◌, ◌%◌, Bool, true, false, not, ◌||◌, Option, none, some, List, [], ◌∷◌, ◌++◌, map, filter,
  is_empty, is_some, if◌then◌else◌, nat_eq, bytes_eq,
}
use bewallet.Error.{generic}
use bewallet.Outcome.{Outcome, ok, err, panic, hang, ◌>>=◌, traverse, map_err}
use bewallet.Word.{u32_mod}
use bewallet.Map.{Map, get, contains, set_insert}
use bewallet.Elements.{
  Env, Script, Txid, OutPoint, TxOut, TxOutSecrets, Transaction, Asset, Value, Nonce,
}
use bewallet.Transaction.{strip_witness}
use bewallet.Store.{StoreMeta, DerivationPath, BlockHeader}
use bewallet.Sync.Client.{Client}

pub record DownloadTxResult : Type 0 where
  pub txs : List (Txid × Transaction)
  pub unblinds : List (OutPoint × TxOutSecrets)

-- `a.difference(&b)` of two sets
unfoldable pub difference : List ℕ → List ℕ → List ℕ
difference a b = filter (λ x. not (contains x b)) a

unfoldable pub is_confidential : TxOut → Bool
is_confidential output = confidential output.asset output.value output.nonce
  where
    confidential : Asset → Value → Nonce → Bool
    confidential (Asset.confidential _) (Value.confidential _) (Nonce.confidential _) = true
    confidential _ _ _ = false

unfoldable pub try_unblind : Client → TxOut → Outcome TxOutSecrets
unfolding is_confidential
try_unblind client output =
    if is_confidential output
    then map_err (client.unblind output) (generic "UnblindError")
    else err (generic "received unconfidential or null asset/value/nonce")

-- `Ok(unblinded) => unblinds.push(…), Err(_) => info!(…)`
unfoldable pub push_ok : OutPoint → Outcome TxOutSecrets → Outcome (List (OutPoint × TxOutSecrets))
push_ok outpoint (ok unblinded) = ok ((outpoint, unblinded) ∷ [])
push_ok outpoint (err e) = ok []
push_ok outpoint panic = panic
push_ok outpoint hang = hang

module _ (env : Env) (client : Client) (s : StoreMeta) (scripts : Map Script DerivationPath) where
  unfoldable pub is_mine : TxOut → Bool
  is_mine output =
      is_some (get output.script_pubkey s.cache.paths) || is_some (get output.script_pubkey scripts)

  unfoldable pub unblind_outputs :
      Transaction → ℕ → List TxOut → Outcome (List (OutPoint × TxOutSecrets))
  unfolding is_mine try_unblind push_ok
  unblind_outputs tx i [] = ok []
  unblind_outputs tx i (output ∷ outputs) =
      let outpoint : OutPoint = record { txid = env.txid tx; vout = i % u32_mod } in
      let rest = unblind_outputs tx (i + 1) outputs in
      if is_mine output
      then (do
        plain ← push_ok outpoint (try_unblind client output)
        swap ← push_ok outpoint (client.liquidex_unblind tx (i % u32_mod) s.store.liquidex_assets)
        more ← rest
        ok (plain ++ swap ++ more))
      else rest

  -- The loop over `txs_downloaded`.
  unfoldable pub unblind_txs : List Transaction → Outcome DownloadTxResult
  unfolding unblind_outputs
  unblind_txs [] = ok (record { txs = []; unblinds = [] })
  unblind_txs (tx ∷ txs) = do
    unblinds ← unblind_outputs tx 0 tx.output
    rest ← unblind_txs txs
    ok (record {
      txs = (env.txid tx, strip_witness tx) ∷ rest.txs;
      unblinds = unblinds ++ rest.unblinds;
    })

-- `previous_txs_to_download` is never filled, so the second download of the source never happens.
unfoldable pub download_txs :
    Env → Client → StoreMeta → List Txid → Map Script DerivationPath → Outcome DownloadTxResult
unfolding difference unblind_txs
download_txs env client s history_txs_id scripts =
    let txs_in_db = map (λ (e : Txid × Transaction). e.0) s.cache.all_txs in
    let txs_to_download = client.set_order (difference history_txs_id txs_in_db) in
    if is_empty txs_to_download then ok (record { txs = []; unblinds = [] }) else (do
      raw ← client.batch_transaction_get_raw txs_to_download
      txs_downloaded ← traverse client.deserialize_tx raw
      unblind_txs env client s scripts txs_downloaded)

-- `heights.iter().filter_map(|(_, h)| *h)`, collected into a set.
unfoldable pub known_heights : List (Txid × Option ℕ) → List ℕ
known_heights [] = []
known_heights ((id, none) ∷ hs) = known_heights hs
known_heights ((id, some h) ∷ hs) = set_insert h (known_heights hs)

unfoldable pub zip : List ℕ → List BlockHeader → List (ℕ × BlockHeader)
zip [] hs = []
zip (n ∷ ns) [] = []
zip (n ∷ ns) (h ∷ hs) = (n, h) ∷ zip ns hs

unfoldable pub download_headers : Client → StoreMeta → List ℕ → Outcome (List (ℕ × BlockHeader))
unfolding difference known_heights zip
download_headers client s heights_set =
    let heights_in_db = set_insert 0 (known_heights s.cache.heights) in
    let heights_to_download = client.set_order (difference heights_set heights_in_db) in
    if is_empty heights_to_download then ok [] else (do
      raw ← client.batch_block_header_raw heights_to_download
      headers ← traverse client.deserialize_header raw
      ok (zip heights_to_download headers))
