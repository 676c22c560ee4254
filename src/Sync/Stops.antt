-- ===== src/Sync/Stops.antt =====
-- src/lib.rs: when the loop over the batches of a chain ends.
use bewallet.Common.{
  ℕ, zero, suc, ◌+◌, ◌<◌, ◌≤◌, ◌≡◌, ◌≢◌, refl, sym, ap, Bool, true, false, Option, none, some, List,
  [], map, if◌then◌else◌, arith, Bool-cases, inl, inr, nat_beq, nat_beq_iff,
}
use bewallet.Outcome.{Outcome, ok, err, panic, hang, ◌>>=◌, >>=-eq-ok, >>=-ne-hang}
use bewallet.Word.{u32_mod, add_u32, add_u32_fits, mul_u32, add_u32-ne-hang, mul_u32-ne-hang}
use bewallet.Elements.{Env, Script}
use bewallet.Store.{StoreMeta, Derivation, DerivationPath, ScriptBatch, get_script_batch, Indexes}
use bewallet.Store.Ends.{DerivationEnds, get_script_batch-ne-hang}
use bewallet.Sync.Client.{Client, GetHistoryRes}
use bewallet.Sync.Scan.{
  Scanned, scan_batch, scan_chain, add_scripts, set_last_used, last_nonempty, flatten,
}

set_last_used-ne-hang :
    (env : Env) (i batch_count : ℕ) (m : Option ℕ) (l : Indexes)
    → set_last_used env i batch_count m l ≢ hang
unfolding set_last_used
set_last_used-ne-hang env i batch_count none l = λ q. cc
set_last_used-ne-hang env i batch_count (some m) l =
    >>=-ne-hang (mul_u32 env.build batch_count 20) _ (mul_u32-ne-hang env.build batch_count 20)
      (λ start.
        >>=-ne-hang (add_u32 env.build m start) _ (add_u32-ne-hang env.build m start) (λ l q. cc))

-- The server and the derivation answer, and no script of the batch `last` of the chain has a
-- history.
pub record IsQuiet (env : Env) (d : Derivation) (client : Client) (s : StoreMeta) (chain last : ℕ)
    : Type 0 where
  pub derivation_ends : DerivationEnds d
  pub histories_end : (scripts : List Script) → client.batch_script_get_history scripts ≢ hang
  pub no_history :
      (batch : ScriptBatch) (result : List (List GetHistoryRes))
      → get_script_batch env d s chain last ≡ ok batch
      → client.batch_script_get_history (map (λ (e : Script × DerivationPath). e.0) batch.value)
        ≡ ok result
      → flatten result ≡ []

module _ (env : Env) (d : Derivation) (client : Client) (s : StoreMeta) (chain last : ℕ)
    (quiet : IsQuiet env d client s chain last) where
  scan_batch-ne-hang : (b : ℕ) (st : Scanned) → scan_batch env d client s chain b st ≢ hang
  unfolding scan_batch
  scan_batch-ne-hang b st =
      >>=-ne-hang (get_script_batch env d s chain b) _
        (get_script_batch-ne-hang d quiet.derivation_ends env s chain b)
        (λ batch.
          >>=-ne-hang
            (client.batch_script_get_history
              (map (λ (e : Script × DerivationPath). e.0) batch.value))
            _ (quiet.histories_end _)
            (λ result.
              >>=-ne-hang
                (set_last_used env chain b (last_nonempty 0 result)
                  (add_scripts batch st).last_used)
                _ (set_last_used-ne-hang env chain b _ _) (λ l q. cc)))

  scan_batch-stops :
      (st : Scanned) {r : Bool × Scanned}
      → scan_batch env d client s chain last st ≡ ok r
      → r.0 ≡ false
  unfolding scan_batch
  scan_batch-stops st {r} h =
      let (batch, got, h₁) = >>=-eq-ok (get_script_batch env d s chain last) _ h in
      let (result, history, h₂) =
        >>=-eq-ok
          (client.batch_script_get_history (map (λ (e : Script × DerivationPath). e.0) batch.value))
          _ h₁ in
      let (l, _, h₃) =
        >>=-eq-ok
          (set_last_used env chain last (last_nonempty 0 result) (add_scripts batch st).last_used) _
          h₂ in
      let none_found = quiet.no_history batch result got history in
      ap (λ (r : Bool × Scanned). r.0) (sym (ok_inj (rw none_found at h₃)))
    where
      ok_inj : {a b : Bool × Scanned} → ok a ≡ ok b → a ≡ b
      ok_inj e = cc

  -- The loop over the batches of a chain ends within the rounds up to a batch whose scripts have no
  -- history, from any batch before it, if the server and the derivation answer.
  pub scan_chain-ne-hang :
      (n b : ℕ) (st : Scanned)
      → b ≤ last
      → last < b + n
      → last < u32_mod
      → scan_chain env d client s n chain b st ≢ hang
  unfolding scan_chain
  scan_chain-ne-hang zero b st h k l = absurd (omega (arith, h, k))
  scan_chain-ne-hang (suc n) b st h k l =
      go (scan_batch env d client s chain b st) refl (λ st'. scan_chain-ne-hang n (b + 1) st')
    where
      go :
          (m : Outcome (Bool × Scanned))
          → scan_batch env d client s chain b st ≡ m
          → ((st' : Scanned)
              → b + 1 ≤ last
              → last < b + 1 + n
              → last < u32_mod
              → scan_chain env d client s n chain (b + 1) st' ≢ hang)
          → (m >>= λ (r : Bool × Scanned).
              if r.0
              then (add_u32 env.build b 1 >>= λ b'. scan_chain env d client s n chain b' r.1)
              else ok r.1)
            ≢ hang
      go (ok (false, st')) e ih = λ q. cc
      go (ok (true, st')) e ih =
          let more : b + 1 ≤ last = before st' e in
          rw (add_u32_fits env.build b 1 (omega (arith, more, l)))
            (ih st' more (omega (arith, k)) l)
        where
          before :
              (st' : Scanned) → scan_batch env d client s chain b st ≡ ok (true, st') → b + 1 ≤ last
          before st' e = elim (Bool-cases (nat_beq b last)) [
            | inl same ↦
                let here : b ≡ last = (nat_beq_iff b last).0 same in
                let stopped : true ≡ false = scan_batch-stops st (rw here at e) in absurd cc
            | inr differ ↦ ground (arith, h, differ)
          ]
      go (err c) e ih = λ q. cc
      go panic e ih = λ q. cc
      go hang e ih = absurd (scan_batch-ne-hang b st e)
