-- ===== src/Store/Files.antt =====
-- src/store.rs: the two encrypted files of the store. The encodings, the cipher and the file system
-- are arguments; what they hold is a map from names to bytes.
pub mod Reopened
pub mod Opens
pub mod Assets
use Prim.Native.String.{◌++◌ as str_append}
use bewallet.Common.{
  ℕ, Bool, true, false, none, some, List, [], ◌∷◌, ◌++◌, String, string_eq, take, drop, length, leb,
  not, nat_eq,
}
use bewallet.Error.{Error, generic, std_io_error}
use bewallet.Outcome.{Outcome, ok, err, panic, hang, ◌>>=◌, ◌>>◌, fail_if, ok_or}
use bewallet.Word.Bytes.{Bytes}
use bewallet.Map.{Map, get, insert}
use bewallet.Elements.{AssetId}
use bewallet.Store.{
  RawCache, RawStore, StoreMeta, store_new, liquidex_assets_insert, liquidex_assets_remove,
}

abbrev pub Files : Type 0
Files = Map String Bytes

pub record Disk : Type 0 where
  -- the text of a path, and what opening, reading to the end and creating a file return
  pub path_text : String → String
  pub opens : String → Outcome (Unit {0})
  pub reads : String → Outcome (Unit {0})
  pub creates : String → Outcome (Unit {0})
  -- `File::write` of some bytes behind those that the file holds: how many of them it has written
  pub writes : String → Bytes → Bytes → Outcome ℕ
  pub create_dir_all : Outcome (Unit {0})
  -- CBOR
  pub cache_to_vec : RawCache → Outcome Bytes
  pub cache_from_slice : Bytes → Outcome RawCache
  pub store_to_vec : RawStore → Outcome Bytes
  pub store_from_slice : Bytes → Outcome RawStore
  -- AES-GCM-SIV under the key of the store: of a nonce and a text
  pub encrypt : Bytes → Bytes → Outcome Bytes
  pub decrypt : Bytes → Bytes → Outcome Bytes
  -- `derive_pub` of the two chains
  pub first_deriv : Outcome (Unit {0})

module _ (d : Disk) where
  unfoldable pub load_decrypt : String → Files → Outcome Bytes
  load_decrypt name files = do
    content ← ok_or (get name files) (generic (str_append (d.path_text name) " do not exist"))
    d.opens name
    fail_if (not (leb 12 (length content))) (std_io_error "failed to fill whole buffer")
    d.reads name
    d.decrypt (take 12 content) (drop 12 content)

  unfoldable pub try_new_cache : Files → Outcome RawCache
  unfolding load_decrypt
  try_new_cache files = load_decrypt "cache" files >>= d.cache_from_slice

  unfoldable pub try_new_store : Files → Outcome RawStore
  unfolding load_decrypt
  try_new_store files = load_decrypt "store" files >>= d.store_from_slice

  -- `StoreMeta::new`
  unfoldable pub store_open : Files → Outcome StoreMeta
  unfolding try_new_cache try_new_store store_new
  store_open files = do
    s ← store_new (try_new_cache files) (try_new_store files)
    d.create_dir_all
    d.first_deriv
    ok s

  -- The text that is to be written, once the file is created.
  unfoldable pub encrypted : String → Bytes → Outcome Bytes → Outcome Bytes
  encrypted name nonce value = do
    plaintext ← value
    ciphertext ← d.encrypt nonce plaintext
    d.creates name
    ok ciphertext

  -- The file after a `write`, of which only the error is looked at.
  unfoldable pub written : Bytes → Bytes → Outcome ℕ → Bytes × Outcome (Unit {0})
  written content bytes (ok n) = (content ++ take n bytes, ok tt)
  written content bytes (err e) = (content, err e)
  written content bytes panic = (content, panic)
  written content bytes hang = (content, hang)

  -- `?` and a second `write`.
  unfoldable pub write_next :
      String → Bytes → Bytes × Outcome (Unit {0}) → Bytes × Outcome (Unit {0})
  unfolding written
  write_next name bytes (content, ok _) = written content bytes (d.writes name content bytes)
  write_next name bytes (content, err e) = (content, err e)
  write_next name bytes (content, panic) = (content, panic)
  write_next name bytes (content, hang) = (content, hang)

  -- The nonce and the text, in the file that was cut to nothing when it was created.
  unfoldable pub write_file : String → Bytes → Bytes → Bytes × Outcome (Unit {0})
  unfolding write_next written
  write_file name nonce ciphertext =
      write_next name ciphertext (written [] nonce (d.writes name [] nonce))

  unfoldable pub flush_serializable :
      String → Bytes → Outcome Bytes → Files → Files × Outcome (Unit {0})
  unfolding encrypted write_file
  flush_serializable name nonce value files = elim (encrypted name nonce value) [
    | ok ciphertext ↦
        let file = write_file name nonce ciphertext in (insert name file.0 files, file.1)
    | err e ↦ (files, err e)
    | panic ↦ (files, panic)
    | hang ↦ (files, hang)
  ]

  unfoldable pub flush_cache : Bytes → StoreMeta → Files → Files × Outcome (Unit {0})
  unfolding flush_serializable
  flush_cache nonce s files = flush_serializable "cache" nonce (d.cache_to_vec s.cache) files

  unfoldable pub flush_store : Bytes → StoreMeta → Files → Files × Outcome (Unit {0})
  unfolding flush_serializable
  flush_store nonce s files = flush_serializable "store" nonce (d.store_to_vec s.store) files

  -- The nonces are drawn one after the other.
  unfoldable pub flush : Bytes → Bytes → StoreMeta → Files → Files × Outcome (Unit {0})
  unfolding flush_cache flush_store
  flush nonce nonce' s files =
      let stored = flush_store nonce s files in
      let cached = flush_cache nonce' s stored.0 in
      elim stored.1 [
        | ok _ ↦ cached
        | err e ↦ (stored.0, err e)
        | panic ↦ (stored.0, panic)
        | hang ↦ (stored.0, hang)
      ]

  -- `Drop::drop`
  unfoldable pub drop_store : Bytes → Bytes → StoreMeta → Files → Files × Outcome (Unit {0})
  unfolding flush
  drop_store nonce nonce' s files =
      let flushed = flush nonce nonce' s files in
      elim flushed.1 [ err e ↦ (flushed.0, panic) | _ ↦ flushed ]

  unfoldable pub export_cache : Bytes → StoreMeta → Files → Files × Outcome RawCache
  unfolding flush_cache try_new_cache
  export_cache nonce s files =
      let flushed = flush_cache nonce s files in (flushed.0, flushed.1 >> try_new_cache flushed.0)

  -- `liquidex_assets_insert` and `liquidex_assets_remove` with their file: the set is changed, then
  -- written.
  unfoldable pub insert_asset :
      Bytes → StoreMeta → AssetId → Files → Files × StoreMeta × Outcome Bool
  unfolding flush_store liquidex_assets_insert
  insert_asset nonce s asset files =
      let changed = (liquidex_assets_insert (ok tt) s asset).0 in
      let flushed = flush_store nonce changed files in
      let result = liquidex_assets_insert flushed.1 s asset in (flushed.0, result.0, result.1)

  unfoldable pub remove_asset :
      Bytes → StoreMeta → AssetId → Files → Files × StoreMeta × Outcome Bool
  unfolding flush_store liquidex_assets_remove
  remove_asset nonce s asset files =
      let changed = (liquidex_assets_remove (ok tt) s asset).0 in
      let flushed = flush_store nonce changed files in
      let result = liquidex_assets_remove flushed.1 s asset in (flushed.0, result.0, result.1)
