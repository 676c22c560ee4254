-- ===== src/Sync/Stored.antt =====
-- src/lib.rs: the invariant of the cache, and a sync.
use bewallet.Common.{
  ℕ, ◌≡◌, refl, sym, ap, subst, ◌∙◌, Bool, true, false, not, ◌||◌, ◌&&◌, List, [], ◌∷◌, map, filter,
  is_empty, is_some, if◌then◌else◌, arith, nat_eq, nat_beq_iff, bytes_eq, Bool-cases, inl, inr,
}
use bewallet.Outcome.{Outcome, ok, err, panic, hang, ◌>>◌, >>=-eq-ok, traverse}
use bewallet.Map.{Map, get, contains, Distinct}
use bewallet.Map.Laws.{contains-keys, get-extend-some, extend-Distinct}
use bewallet.Elements.{Env, Script, Txid, Transaction}
use bewallet.Store.{StoreMeta, Derivation, DerivationPath, BlockHeader}
use bewallet.Sync.Client.{Client}
use bewallet.Sync.Scan.{Scanned, scanned_default, scan_chains}
use bewallet.Sync.Download.{
  DownloadTxResult, difference, unblind_txs, unblind_outputs, download_txs, download_headers,
}
use bewallet.Sync.Tracked.{Tracked, ok_inj, scan_chains-Tracked}
use bewallet.Sync.{collect, after_collect, commit, has_changes, sync}

-- Each live transaction is stored, once in the list of heights.
pub record IsWellFormed (s : StoreMeta) : Type 0 where
  pub distinct : Distinct s.cache.heights
  pub stored :
      (id : Txid)
      → is_some (get id s.cache.heights) ≡ true
      → is_some (get id s.cache.all_txs) ≡ true

-- The server answers with the transactions that it was asked for, in that order, and a set is
-- iterated over its elements.
pub record IsHonest (env : Env) (client : Client) : Type 0 where
  pub answers :
      (ids : List Txid) (raw : List (List ℕ)) (txs : List Transaction)
      → client.batch_transaction_get_raw ids ≡ ok raw
      → traverse client.deserialize_tx raw ≡ ok txs
      → map env.txid txs ≡ ids
  pub iterates : (x : ℕ) (xs : List ℕ) → contains x (client.set_order xs) ≡ contains x xs

contains-filter :
    (x : ℕ) (p : ℕ → Bool) (xs : List ℕ) → contains x (filter p xs) ≡ (contains x xs && p x)
unfolding contains
contains-filter x p [] = refl
contains-filter x p (y ∷ xs) = ground (arith, contains-filter x p xs, nat_beq_iff y x)

difference-contains :
    (x : ℕ) (a b : List ℕ) → contains x (difference a b) ≡ (contains x a && not (contains x b))
unfolding difference
difference-contains x a b = contains-filter x (λ y. not (contains y b)) a

keys : {V : Type 0} → List (ℕ × V) → List ℕ
keys = map (λ e. e.0)

unblind_txs-keys :
    (env : Env) (client : Client) (s : StoreMeta) (scripts : Map Script DerivationPath)
    (txs : List Transaction) {r : DownloadTxResult}
    → unblind_txs env client s scripts txs ≡ ok r
    → keys r.txs ≡ map env.txid txs
unfolding unblind_txs keys
unblind_txs-keys env client s scripts [] {r} h =
    ap (λ (d : DownloadTxResult). map (λ (e : Txid × Transaction). e.0) d.txs) (sym (ok_inj h))
unblind_txs-keys env client s scripts (tx ∷ txs) {r} h =
    let (unblinds, _, h₁) = >>=-eq-ok (unblind_outputs env client s scripts tx 0 tx.output) _ h in
    let (rest, run, h₂) = >>=-eq-ok (unblind_txs env client s scripts txs) _ h₁ in
    ap (λ (d : DownloadTxResult). map (λ (e : Txid × Transaction). e.0) d.txs) (sym (ok_inj h₂))
    ∙ ap (λ l. env.txid tx ∷ l) (unblind_txs-keys env client s scripts txs run)

nothing_contained : (x : ℕ) (xs : List ℕ) → is_empty xs ≡ true → contains x xs ≡ false
unfolding contains
nothing_contained x [] h = refl
nothing_contained x (y ∷ xs) h = absurd cc

module _ (env : Env) (client : Client) (honest : IsHonest env client) (s : StoreMeta) where
  -- A transaction of the history is stored already or downloaded.
  download_txs-covers :
      (ids : List Txid) (scripts : Map Script DerivationPath) {r : DownloadTxResult}
      → download_txs env client s ids scripts ≡ ok r
      → (x : Txid) → contains x ids ≡ true
      → (is_some (get x s.cache.all_txs) || is_some (get x r.txs)) ≡ true
  unfolding download_txs keys
  download_txs-covers ids scripts {r} h x here = elim (Bool-cases (is_empty wanted)) [
    | inl e ↦ known (nothing_contained x wanted e)
    | inr e ↦
        let h' = rw e at h in
        let (raw, run, h₁) = >>=-eq-ok (client.batch_transaction_get_raw wanted) _ h' in
        let (txs, parsed, h₂) = >>=-eq-ok (traverse client.deserialize_tx raw) _ h₁ in
        let same : keys r.txs ≡ wanted =
          unblind_txs-keys env client s scripts txs h₂ ∙ honest.answers wanted raw txs run parsed in
        downloaded same
  ]
    where
      db : List Txid
      db = map (λ (e : Txid × Transaction). e.0) s.cache.all_txs

      wanted : List Txid
      wanted = client.set_order (difference ids db)

      is_wanted : contains x wanted ≡ (contains x ids && not (is_some (get x s.cache.all_txs)))
      is_wanted =
          honest.iterates x (difference ids db)
          ∙ difference-contains x ids db
          ∙ ap (λ q. contains x ids && not q) (contains-keys x s.cache.all_txs)

      known :
          contains x wanted ≡ false
          → (is_some (get x s.cache.all_txs) || is_some (get x r.txs)) ≡ true
      known e = ground (arith, e, is_wanted, here)

      downloaded :
          keys r.txs ≡ wanted → (is_some (get x s.cache.all_txs) || is_some (get x r.txs)) ≡ true
      downloaded e =
          let found : is_some (get x r.txs) ≡ contains x wanted =
            sym (contains-keys x r.txs) ∙ ap (contains x) e in
          ground (arith, found, is_wanted, here)

  -- Whatever a sync ends with, an error or a panic included, it leaves the cache well formed, if
  -- the server answers with the transactions that it is asked for: each transaction of the list of
  -- heights is stored.
  pub sync-IsWellFormed :
      (d : Derivation) (rounds : ℕ) (chains : List ℕ) (flush : Outcome (Unit {0}))
      → IsWellFormed s
      → IsWellFormed (sync env d client rounds chains flush s).0
  unfolding sync after_collect collect commit get
  sync-IsWellFormed d rounds chains flush well = go (collect env d client rounds chains s) refl
    where
      nowhere : false ≡ true → ⊥
      nowhere e = cc

      covered :
          (found' found : Scanned) (new_txs' new_txs : DownloadTxResult)
          → found' ≡ found
          → new_txs' ≡ new_txs
          → download_txs env client s found'.history_txs_id found'.scripts ≡ ok new_txs'
          → (id : Txid) → contains id found.history_txs_id ≡ true
          → (is_some (get id s.cache.all_txs) || is_some (get id new_txs.txs)) ≡ true
      covered found' found new_txs' new_txs e f run id here =
          download_txs-covers found.history_txs_id found.scripts (rw (e, f) at run) id here

      committed :
          (found : Scanned) (new_txs : DownloadTxResult) (headers : List (ℕ × BlockHeader))
          → collect env d client rounds chains s ≡ ok (found, new_txs, headers)
          → IsWellFormed (commit s found new_txs headers)
      committed found new_txs headers run =
          let (found', scanned, h₁) =
            >>=-eq-ok (scan_chains env d client s rounds chains scanned_default) _ run in
          let (new_txs', downloaded, h₂) =
            >>=-eq-ok (download_txs env client s found'.history_txs_id found'.scripts) _ h₁ in
          let (headers', _, h₃) = >>=-eq-ok (download_headers client s found'.heights_set) _ h₂ in
          let same : found' ≡ found =
            ap (λ (e : Scanned × DownloadTxResult × List (ℕ × BlockHeader)). e.0) (ok_inj h₃) in
          let same_txs : new_txs' ≡ new_txs =
            ap (λ (e : Scanned × DownloadTxResult × List (ℕ × BlockHeader)). e.1) (ok_inj h₃) in
          let tracked : Tracked found = subst Tracked same (
            scan_chains-Tracked env d client s rounds chains scanned_default
              (λ id e. absurd (nowhere e)) scanned) in
          record {
            distinct = extend-Distinct [] found.txid_height tt;
            stored = λ id live.
                get-extend-some id s.cache.all_txs new_txs.txs
                ∙ covered found' found new_txs' new_txs same same_txs downloaded id
                    (tracked id (sym (get-extend-some id [] found.txid_height) ∙ live));
          }

      go :
          (m : Outcome (Scanned × DownloadTxResult × List (ℕ × BlockHeader)))
          → collect env d client rounds chains s ≡ m
          → IsWellFormed (after_collect flush s m).0
      go (ok (found, new_txs, headers)) run = by_change (has_changes s found new_txs headers)
        where
          by_change :
              (q : Bool)
              → let r : StoreMeta × Outcome Bool =
                  if q then (commit s found new_txs headers, flush >> ok true) else (s, ok false) in
                IsWellFormed r.0
          by_change true = committed found new_txs headers run
          by_change false = well
      go (err e) run = well
      go panic run = well
      go hang run = well
