-- ===== src/Store.antt =====
-- src/store.rs: the cache of the wallet and its store. Reading and writing the encrypted files,
-- and the derivation of keys, are arguments.
pub mod Batch
pub mod Ends
pub mod Sets
pub mod Files
use bewallet.Common.{
  ℕ, ltb, suc, zero, ◌+◌, Bool, true, false, Option, none, some, List, [], ◌∷◌, ◌++◌, map, is_empty,
  replicate, if◌then◌else◌, nat_eq, bytes_eq, PartialEq, nat_beq, ◌&&◌, ◌↔◌, ◌≡◌, arith,
}
use bewallet.Outcome.{Outcome, ok, err, panic, hang, ◌>>=◌, ◌>>◌, assert}
use bewallet.Word.{add_u32, mul_u32}
use bewallet.Map.{Map, get, contains, set_insert, set_remove}
use bewallet.Elements.{Env, Script, Txid, AssetId, OutPoint, TxIn, Transaction, outpoint_eq}
use bewallet.Transaction.{Txs, Unblinded}
use bewallet.Model.{SpvVerifyResult}

abbrev pub batch_size : ℕ
batch_size = 20

-- m / chain / index, the only paths that the wallet derives addresses at.
pub record DerivationPath : Type 0 where
  pub chain : ℕ
  pub index : ℕ

abbrev pub path_beq : DerivationPath → DerivationPath → Bool
path_beq p q = nat_beq p.chain q.chain && nat_beq p.index q.index

pub path_beq_iff : (p q : DerivationPath) → (path_beq p q ≡ true) ↔ (p ≡ q)
path_beq_iff p q = ground arith

instance abbrev pub path_eq : PartialEq DerivationPath
path_eq = record { eq = path_beq; eq_law = path_beq_iff }

pub data BlockExtData : Type 0 where
  proof : Script → Script → BlockExtData
  dynafed : BlockExtData

pub record BlockHeader : Type 0 where
  pub height : ℕ
  pub merkle_root : List ℕ
  pub ext : BlockExtData

pub record Indexes : Type 0 where
  pub external : ℕ
  pub internal : ℕ

abbrev pub indexes_default : Indexes
indexes_default = record { external = 0; internal = 0 }

pub record RawCache : Type 0 where
  pub all_txs : Txs
  pub paths : Map Script DerivationPath
  pub scripts : Map DerivationPath Script
  pub heights : Map Txid (Option ℕ)
  pub headers : Map ℕ BlockHeader
  pub unblinded : Unblinded
  pub txs_verif : Map Txid SpvVerifyResult
  pub fee_estimates : List ℕ
  pub tip : ℕ × ℕ
  pub indexes : Indexes

pub record RawStore : Type 0 where
  pub liquidex_assets : List AssetId

-- The default block hash is all zeros.
abbrev pub cache_default : RawCache
cache_default = record {
  all_txs = [];
  paths = [];
  scripts = [];
  heights = [];
  headers = [];
  unblinded = [];
  txs_verif = [];
  fee_estimates = [];
  tip = (0, 0);
  indexes = indexes_default;
}

abbrev pub store_default : RawStore
store_default = record { liquidex_assets = [] }

pub record StoreMeta : Type 0 where
  pub cache : RawCache
  pub store : RawStore

-- `RawCache::new` and `RawStore::new`: what cannot be read starts as the default.
unfoldable pub or_default : {A : Type 0} → Outcome A → A → Outcome A
or_default (ok a) d = ok a
or_default (err e) d = ok d
or_default panic d = panic
or_default hang d = hang

-- `StoreMeta::new`, given what `try_new` of the two files returns.
unfoldable pub store_new : Outcome RawCache → Outcome RawStore → Outcome StoreMeta
unfolding or_default
store_new try_cache try_store = do
  cache ← or_default try_cache cache_default
  store ← or_default try_store store_default
  ok (record { cache = cache; store = store })

pub record ScriptBatch : Type 0 where
  pub cached : Bool
  pub value : List (Script × DerivationPath)

-- What the batch needs of other crates: the parse of the path's text, and the script of the key
-- derived at an index of a chain.
pub record Derivation : Type 0 where
  pub path_from_str : ℕ → ℕ → Outcome DerivationPath
  pub derive_script : ℕ → ℕ → Outcome Script

module _ (d : Derivation) (cache : RawCache) where
  script_at : ℕ → ℕ → Outcome (Bool × Script × DerivationPath)
  script_at int_or_ext j = do
    path ← d.path_from_str int_or_ext j
    elim (get path cache.scripts) [
      | some script ↦ ok (true, script, path)
      | none ↦ d.derive_script int_or_ext j >>= λ script. ok (false, script, path)
    ]

  -- `for j in start..end`, with the rounds left, and whether all scripts so far were cached.
  batch_loop : ℕ → ℕ → ℕ → Bool → Outcome ScriptBatch
  unfolding script_at
  batch_loop zero int_or_ext j cached = ok (record { cached = cached; value = [] })
  batch_loop (suc n) int_or_ext j cached = do
    (hit, script, path) ← script_at int_or_ext j
    rest ← batch_loop n int_or_ext (j + 1) (cached && hit)
    ok (record rest { value = (script, path) ∷ rest.value })

-- `first_deriv[int_or_ext]` panics beyond the two chains. The end of the range is computed too.
unfoldable pub get_script_batch : Env → Derivation → StoreMeta → ℕ → ℕ → Outcome ScriptBatch
unfolding batch_loop
get_script_batch env d s int_or_ext batch = do
  assert (ltb int_or_ext 2)
  start ← mul_u32 env.build batch batch_size
  _ ← add_u32 env.build start batch_size
  batch_loop d s.cache batch_size int_or_ext start true

spend_inputs : List TxIn → List OutPoint → List OutPoint
spend_inputs [] result = result
spend_inputs (i ∷ inputs) result = spend_inputs inputs (set_insert i.previous_output result)

spent_loop : List (Txid × Transaction) → List OutPoint → List OutPoint
unfolding spend_inputs
spent_loop [] result = result
spent_loop ((id, tx) ∷ txs) result = spent_loop txs (spend_inputs tx.input result)

-- The outpoints that some transaction of the cache spends.
unfoldable pub spent : StoreMeta → List OutPoint
unfolding spent_loop
spent s = spent_loop s.cache.all_txs []

unfoldable pub fee_estimates : StoreMeta → List ℕ
fee_estimates s = if is_empty s.cache.fee_estimates then replicate 25 100 else s.cache.fee_estimates

-- The writes to the file follow the change of the set; where they fail the error is returned and
-- the set stays changed.
unfoldable pub liquidex_assets_insert :
    Outcome (Unit {0}) → StoreMeta → AssetId → StoreMeta × Outcome Bool
liquidex_assets_insert flush s asset = (
  record s { store = record { liquidex_assets = set_insert asset s.store.liquidex_assets } },
  flush >> ok (if contains asset s.store.liquidex_assets then false else true),
)

unfoldable pub liquidex_assets_remove :
    Outcome (Unit {0}) → StoreMeta → AssetId → StoreMeta × Outcome Bool
liquidex_assets_remove flush s asset = (
  record s { store = record { liquidex_assets = set_remove asset s.store.liquidex_assets } },
  flush >> ok (contains asset s.store.liquidex_assets),
)
