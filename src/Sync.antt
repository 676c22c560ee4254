-- ===== src/Sync.antt =====
-- src/lib.rs: the syncer. The Electrum server, the encodings and the opening of confidential
-- outputs are arguments, and so are the orders in which the sets are iterated.
pub mod Client
pub mod Scan
pub mod Download
pub mod Tracked
pub mod Stored
pub mod Stops
use bewallet.Common.{
  ℕ, Bool, true, false, ◌||◌, ◌&&◌, not, List, [], ◌∷◌, map, is_empty, nat_beq, nat_eq, bytes_eq,
  if◌then◌else◌,
}
use bewallet.Outcome.{Outcome, ok, err, panic, hang, ◌>>=◌, ◌>>◌}
use bewallet.Map.{Map, extend}
use bewallet.Elements.{Env, Script, Txid, Transaction, outpoint_eq}
use bewallet.Store.{StoreMeta, RawCache, Derivation, DerivationPath, Indexes, path_eq, BlockHeader}
use bewallet.Sync.Client.{Client as ElectrumClient}
use bewallet.Sync.Scan.{Scanned, scan_chains, scanned_default}
use bewallet.Sync.Download.{DownloadTxResult, download_txs, download_headers}

abbrev pub indexes_beq : Indexes → Indexes → Bool
indexes_beq i j = nat_beq i.external j.external && nat_beq i.internal j.internal

-- What the condition of `changed` tests.
unfoldable pub has_changes : StoreMeta → Scanned → DownloadTxResult → List (ℕ × BlockHeader) → Bool
has_changes s found new_txs headers =
    not (is_empty new_txs.txs)
    || not (is_empty headers)
    || not (indexes_beq s.cache.indexes found.last_used)
    || not (is_empty found.scripts)

-- The writes to the cache.
unfoldable pub commit : StoreMeta → Scanned → DownloadTxResult → List (ℕ × BlockHeader) → StoreMeta
commit s found new_txs headers = record s {
  cache = record s.cache {
    indexes = found.last_used;
    all_txs = extend s.cache.all_txs new_txs.txs;
    unblinded = extend s.cache.unblinded new_txs.unblinds;
    headers = extend s.cache.headers headers;
    heights = extend [] found.txid_height;
    scripts =
        extend s.cache.scripts (map (λ (e : Script × DerivationPath). (e.1, e.0)) found.scripts);
    paths = extend s.cache.paths found.scripts;
  };
}

unfoldable pub after_collect :
    Outcome (Unit {0})
    → StoreMeta
    → Outcome (Scanned × DownloadTxResult × List (ℕ × BlockHeader))
    → StoreMeta × Outcome Bool
unfolding has_changes commit
after_collect flush s (ok (found, new_txs, headers)) =
    if has_changes s found new_txs headers
    then (commit s found new_txs headers, flush >> ok true)
    else (s, ok false)
after_collect flush s (err e) = (s, err e)
after_collect flush s panic = (s, panic)
after_collect flush s hang = (s, hang)

module _ (env : Env) (d : Derivation) (client : ElectrumClient) where
  -- All that is read before the first write.
  unfoldable pub collect :
      ℕ → List ℕ → StoreMeta → Outcome (Scanned × DownloadTxResult × List (ℕ × BlockHeader))
  unfolding scan_chains download_txs download_headers
  collect rounds wallet_chains s = do
    found ← scan_chains env d client s rounds wallet_chains scanned_default
    new_txs ← download_txs env client s found.history_txs_id found.scripts
    headers ← download_headers client s found.heights_set
    ok (found, new_txs, headers)

  -- `wallet_chains` is a shuffle of 0 and 1; `flush` is what the write of the files returns.
  unfoldable pub sync : ℕ → List ℕ → Outcome (Unit {0}) → StoreMeta → StoreMeta × Outcome Bool
  unfolding collect after_collect
  sync rounds wallet_chains flush s = after_collect flush s (collect rounds wallet_chains s)
