-- ===== src/Store/Ends.antt =====
-- src/store.rs: how the loop of a batch of scripts ends.
use bewallet.Common.{ℕ, zero, suc, ◌+◌, ◌≢◌, Bool, true, false, ◌&&◌, Option, none, some, ltb}
use bewallet.Outcome.{Outcome, ok, hang, ◌>>=◌, >>=-ne-hang, assert}
use bewallet.Word.{add_u32, mul_u32, add_u32-ne-hang, mul_u32-ne-hang}
use bewallet.Map.{get}
use bewallet.Elements.{Env, Script}
use bewallet.Store.{
  Derivation, DerivationPath, RawCache, StoreMeta, script_at, batch_loop, get_script_batch, path_eq,
}

-- The derivation of keys and the parse of paths come back.
pub record DerivationEnds (d : Derivation) : Type 0 where
  pub paths : (chain j : ℕ) → d.path_from_str chain j ≢ hang
  pub scripts : (chain j : ℕ) → d.derive_script chain j ≢ hang

assert-ne-hang : (b : Bool) → assert b ≢ hang
assert-ne-hang true = λ q. cc
assert-ne-hang false = λ q. cc

module _ (d : Derivation) (ends : DerivationEnds d) where
  script_at-ne-hang : (cache : RawCache) (chain j : ℕ) → script_at d cache chain j ≢ hang
  unfolding script_at
  script_at-ne-hang cache chain j =
      >>=-ne-hang (d.path_from_str chain j) _ (ends.paths chain j)
        (λ path. found path (get path cache.scripts))
    where
      found :
          (path : DerivationPath) (o : Option Script)
          → let m : Outcome (Bool × Script × DerivationPath) = elim o [
            | some script ↦ ok (true, script, path)
            | none ↦ d.derive_script chain j >>= λ script. ok (false, script, path)
          ] in
            m ≢ hang
      found path (some script) = λ q. cc
      found path none =
          >>=-ne-hang (d.derive_script chain j) _ (ends.scripts chain j) (λ script q. cc)

  batch_loop-ne-hang :
      (cache : RawCache) (n chain j : ℕ) (cached : Bool)
      → batch_loop d cache n chain j cached ≢ hang
  unfolding batch_loop
  batch_loop-ne-hang cache zero chain j cached = λ q. cc
  batch_loop-ne-hang cache (suc n) chain j cached =
      let ih = λ (c : Bool). batch_loop-ne-hang cache n chain (j + 1) c in
      >>=-ne-hang (script_at d cache chain j) _ (script_at-ne-hang cache chain j) (λ e.
        >>=-ne-hang (batch_loop d cache n chain (j + 1) (cached && e.0)) _ (ih (cached && e.0))
          (λ r q. cc))

  pub get_script_batch-ne-hang :
      (env : Env) (s : StoreMeta) (chain batch : ℕ) → get_script_batch env d s chain batch ≢ hang
  unfolding get_script_batch
  get_script_batch-ne-hang env s chain batch =
      >>=-ne-hang (assert (ltb chain 2)) _ (assert-ne-hang (ltb chain 2)) (λ _.
        >>=-ne-hang (mul_u32 env.build batch 20) _ (mul_u32-ne-hang env.build batch 20) (λ start.
          >>=-ne-hang (add_u32 env.build start 20) _ (add_u32-ne-hang env.build start 20)
            (λ _. batch_loop-ne-hang s.cache 20 chain start true)))
