-- ===== src/Sync/Tracked.antt =====
-- src/lib.rs: the transactions that a scan finds, and the history.
use bewallet.Common.{
  ℕ, zero, suc, ◌≡◌, subst, ◌∙◌, Bool, true, false, Option, none, some, List, [], ◌∷◌, map,
  is_empty, is_some, if◌then◌else◌, nat_eq, nat_beq, bytes_eq, ◌==◌,
}
use bewallet.Outcome.{ok, ◌>>=◌, >>=-eq-ok}
use bewallet.Map.{get, insert, extend, contains, set_insert}
use bewallet.Map.Laws.{get-insert, contains-set_insert}
use bewallet.Elements.{Env, Script, Txid}
use bewallet.Store.{StoreMeta, Derivation, DerivationPath, ScriptBatch, Indexes, get_script_batch}
use bewallet.Int.{pos_part}
use bewallet.Word.{add_u32}
use bewallet.Sync.Client.{Client, GetHistoryRes}
use bewallet.Sync.Scan.{
  Scanned, add_history, add_scripts, set_last_used, last_nonempty, flatten, scan_batch, scan_chain,
  scan_chains,
}

-- The transactions with a height are those of the history.
abbrev pub Tracked : Scanned → Type 0
Tracked st =
    (id : Txid) → is_some (get id st.txid_height) ≡ true → contains id st.history_txs_id ≡ true

add_history-Tracked :
    (els : List GetHistoryRes) (st : Scanned) → Tracked st → Tracked (add_history els st)
unfolding add_history
add_history-Tracked [] st t = t
add_history-Tracked (el ∷ els) st t = add_history-Tracked els _ (λ id h. step id (t id) h)
  where
    height : Option ℕ
    height = if nat_beq (pos_part el.height) 0 then none else some (pos_part el.height)

    step :
        (id : Txid)
        → (is_some (get id st.txid_height) ≡ true → contains id st.history_txs_id ≡ true)
        → is_some (get id (insert el.tx_hash height st.txid_height)) ≡ true
        → contains id (set_insert el.tx_hash st.history_txs_id) ≡ true
    step id before h =
        by_id (el.tx_hash == id) (get-insert el.tx_hash id height st.txid_height)
          (contains-set_insert el.tx_hash id st.history_txs_id)
      where
        by_id :
            (q : Bool)
            → get id (insert el.tx_hash height st.txid_height)
              ≡ (if q then some height else get id st.txid_height)
            → contains id (set_insert el.tx_hash st.history_txs_id)
              ≡ (if q then true else contains id st.history_txs_id)
            → contains id (set_insert el.tx_hash st.history_txs_id) ≡ true
        by_id true e f = f
        by_id false e f = f ∙ before (rw e at h)

pub ok_inj : {A : Type 0} {a b : A} → ok a ≡ ok b → a ≡ b
ok_inj e = cc

module _ (env : Env) (d : Derivation) (client : Client) (s : StoreMeta) where
  scan_batch-Tracked :
      (i batch_count : ℕ) (st : Scanned) {r : Bool × Scanned}
      → Tracked st
      → scan_batch env d client s i batch_count st ≡ ok r
      → Tracked r.1
  unfolding scan_batch add_scripts
  scan_batch-Tracked i batch_count st t h =
      let (batch, _, h₁) = >>=-eq-ok (get_script_batch env d s i batch_count) _ h in
      let (result, _, h₂) =
        >>=-eq-ok
          (client.batch_script_get_history (map (λ (e : Script × DerivationPath). e.0) batch.value))
          _ h₁ in
      let (last_used, _, h₃) =
        >>=-eq-ok
          (set_last_used env i batch_count (last_nonempty 0 result)
            (add_scripts batch st).last_used)
          _ h₂ in
      let st₂ = record (add_scripts batch st) { last_used = last_used } in
      let t₂ : Tracked st₂ = with_scripts batch last_used in
      subst (λ (r : Bool × Scanned). Tracked r.1) (ok_inj h₃)
        (ends (flatten result) (is_empty (flatten result)) st₂ t₂)
    where
      with_scripts :
          (batch : ScriptBatch) (last_used : Indexes)
          → Tracked (record (add_scripts batch st) { last_used = last_used })
      with_scripts batch last_used = by_cached batch.cached
        where
          by_cached :
              (q : Bool)
              → Tracked
                  (record (if q
                    then st
                    else record st { scripts = extend st.scripts batch.value }) {
                      last_used = last_used;
                    })
          by_cached true = t
          by_cached false = t

      ends :
          (els : List GetHistoryRes) (q : Bool) (st' : Scanned)
          → Tracked st'
          → let r : Bool × Scanned = if q then (false, st') else (true, add_history els st') in
            Tracked r.1
      ends els true st' t' = t'
      ends els false st' t' = add_history-Tracked els st' t'

  scan_chain-Tracked :
      (n i batch_count : ℕ) (st : Scanned) {st' : Scanned}
      → Tracked st
      → scan_chain env d client s n i batch_count st ≡ ok st'
      → Tracked st'
  unfolding scan_chain
  scan_chain-Tracked zero i batch_count st t h = absurd cc
  scan_chain-Tracked (suc n) i batch_count st {st'} t h =
      let ((more, st₁), run, rest) = >>=-eq-ok (scan_batch env d client s i batch_count st) _ h in
      ends more st₁ (scan_batch-Tracked i batch_count st t run) (λ b. scan_chain-Tracked n i b st₁)
        rest
    where
      ends :
          (more : Bool) (st₁ : Scanned)
          → Tracked st₁
          → ((b : ℕ) → Tracked st₁ → scan_chain env d client s n i b st₁ ≡ ok st' → Tracked st')
          → (if more
              then (add_u32 env.build batch_count 1 >>= λ b. scan_chain env d client s n i b st₁)
              else ok st₁)
            ≡ ok st'
          → Tracked st'
      ends false st₁ t₁ ih e = subst Tracked (ok_inj e) t₁
      ends true st₁ t₁ ih e =
          let (b, _, e') = >>=-eq-ok (add_u32 env.build batch_count 1) _ e in ih b t₁ e'

  pub scan_chains-Tracked :
      (rounds : ℕ) (chains : List ℕ) (st : Scanned) {st' : Scanned}
      → Tracked st
      → scan_chains env d client s rounds chains st ≡ ok st'
      → Tracked st'
  unfolding scan_chains
  scan_chains-Tracked rounds [] st t h = let same : st ≡ _ = ok_inj h in subst Tracked same t
  scan_chains-Tracked rounds (i ∷ chains) st t h =
      let (st₁, run, rest) = >>=-eq-ok (scan_chain env d client s rounds i 0 st) _ h in
      scan_chains-Tracked rounds chains st₁ (scan_chain-Tracked rounds i 0 st t run) rest
