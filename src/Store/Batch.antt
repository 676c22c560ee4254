-- ===== src/Store/Batch.antt =====
-- A batch of scripts: twenty consecutive indexes of a chain, cached or not.
use bewallet.Common.{
  is_some, ℕ, zero, suc, ◌+◌, ◌*◌, ◌<◌, ◌≡◌, Bool, true, ◌&&◌, some, List, [], ◌∷◌, arith,
  Option-cases, inl, inr, lt→ltb,
}
use bewallet.Outcome.{ok}
use bewallet.Word.{u32_mod, add_u32_fits, mul_u32_fits}
use bewallet.Map.{get}
use bewallet.Elements.{Env, Script}
use bewallet.Store.{
  Derivation, DerivationPath, RawCache, StoreMeta, script_at, batch_loop, get_script_batch, path_eq,
}

-- The scripts of the keys at `n` indexes of a chain from `j` on, each with its path.
pub indexed : (ℕ → ℕ → Script) → ℕ → ℕ → ℕ → List (Script × DerivationPath)
indexed script_of zero chain j = []
indexed script_of (suc n) chain j =
    (script_of chain j, record { chain = chain; index = j }) ∷ indexed script_of n chain (j + 1)

pub all_cached : RawCache → ℕ → ℕ → ℕ → Bool
all_cached cache zero chain j = true
all_cached cache (suc n) chain j =
    is_some (get (record { chain = chain; index = j }) cache.scripts)
    && all_cached cache n chain (j + 1)

module _ (d : Derivation) (script_of : ℕ → ℕ → Script) (cache : RawCache) (chain bound : ℕ)
    (paths : (j : ℕ)
      → j < bound
      → d.path_from_str chain j ≡ ok (record { chain = chain; index = j }))
    (derives : (j : ℕ) → j < bound → d.derive_script chain j ≡ ok (script_of chain j))
    (coherent : (j : ℕ) (script : Script)
      → get (record { chain = chain; index = j }) cache.scripts ≡ some script
      → script ≡ script_of chain j) where
  script_at_lem :
      (j : ℕ)
      → j < bound
      → script_at d cache chain j
        ≡ ok (
          is_some (get (record { chain = chain; index = j }) cache.scripts),
          script_of chain j,
          record { chain = chain; index = j },
        )
  unfolding script_at
  script_at_lem j h =
      elim (Option-cases (get (record { chain = chain; index = j }) cache.scripts)) [
        | inl miss ↦ ground (arith, paths j h, derives j h)
        | inr (script, hit) ↦ ground (arith, paths j h, coherent j script hit)
      ]

  batch_loop-indexed :
      (n j : ℕ) (cached : Bool)
      → j + n < suc bound
      → batch_loop d cache n chain j cached
        ≡ ok (record {
          cached = cached && all_cached cache n chain j;
          value = indexed script_of n chain j;
        })
  unfolding batch_loop indexed all_cached
  batch_loop-indexed zero j cached h = ground arith
  batch_loop-indexed (suc n) j cached h =
      rw
        (
          script_at_lem j (omega arith),
          batch_loop-indexed n (j + 1)
              (cached && is_some (get (record { chain = chain; index = j }) cache.scripts))
              (omega arith),
        )
        (ground arith)

  -- For a chain of the wallet whose keys can be derived at the indexes of the batch, a cache that
  -- holds nothing but derived scripts, and indexes that fit a `u32`, a batch lists the scripts of
  -- its twenty indexes in order, cached or not, and is `cached` exactly if all are.
  pub get_script_batch-indexed :
      (env : Env) (s : StoreMeta) (batch : ℕ)
      → s.cache ≡ cache
      → chain < 2
      → batch * 20 + 20 < suc bound
      → batch * 20 + 20 < u32_mod
      → get_script_batch env d s chain batch
        ≡ ok (record {
          cached = all_cached cache 20 chain (batch * 20);
          value = indexed script_of 20 chain (batch * 20);
        })
  unfolding get_script_batch
  get_script_batch-indexed env s batch e c h k =
      rw
        (
          lt→ltb chain 2 c,
          mul_u32_fits env.build batch 20 (omega arith),
          add_u32_fits env.build (batch * 20) 20 k,
          e,
        )
        (batch_loop-indexed 20 (batch * 20) true (omega arith))
