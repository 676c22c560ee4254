-- ===== src/Store/Files/Assets.antt =====
-- src/store.rs: the LiquiDEX assets after a restart.
use bewallet.Common.{
  refl, not, ◌≡◌, sym, ap, ◌∙◌, Bool, true, false, ◌==◌, nat_eq, some, ◌++◌, length, String,
  string_eq, if◌then◌else◌,
}
use bewallet.Outcome.{ok, >>=-eq-ok, ok_inj}
use bewallet.Word.Bytes.{Bytes}
use bewallet.Map.{get, contains}
use bewallet.Map.Laws.{get-insert, contains-set_insert, contains-set_remove}
use bewallet.Elements.{AssetId}
use bewallet.Store.{
  RawStore, StoreMeta, cache_default, store_default, or_default, store_new, liquidex_assets_insert,
  liquidex_assets_remove,
}
use bewallet.Store.Files.{
  Files, Disk, try_new_cache, try_new_store, store_open, flush_store, insert_asset, remove_asset,
}
use bewallet.Store.Files.Reopened.{DiskLaws, flush_serializable-Written, load_decrypt-written}

module _ (d : Disk) (opens : (name : String) → d.opens name ≡ ok tt) (nonce : Bytes)
    (size : length nonce ≡ 12) where
  try_new_store-flush_store :
      (s : StoreMeta) (files : Files)
      → DiskLaws d s
      → (flush_store d nonce s files).1 ≡ ok tt
      → try_new_store d (flush_store d nonce s files).0 ≡ ok s.store
  unfolding try_new_store flush_store
  try_new_store-flush_store s files laws run =
      let files' = (flush_store d nonce s files).0 in
      let w =
        flush_serializable-Written d "store" nonce (d.store_to_vec s.store) files laws.whole run in
      let found : get "store" files' ≡ some (nonce ++ w.ciphertext) =
        ap (get "store") w.written ∙ get-insert "store" "store" _ files in
      let read =
        load_decrypt-written d s "store" nonce w.plaintext w.ciphertext files' laws size
          (opens "store") w.encrypts found in
      rw read (laws.store_parses w.plaintext w.encoded)

  -- A store that opens has the assets that its file holds.
  store_open-store :
      (files : Files) (r : RawStore) {t : StoreMeta}
      → try_new_store d files ≡ ok r
      → store_open d files ≡ ok t
      → t.store ≡ r
  unfolding store_open store_new or_default
  store_open-store files r reads run =
      let (s, made, h₁) =
        >>=-eq-ok (store_new (try_new_cache d files) (try_new_store d files)) _ run in
      let (_, _, h₂) = >>=-eq-ok d.create_dir_all _ h₁ in
      let (_, _, done) = >>=-eq-ok d.first_deriv _ h₂ in
      let (cache, _, h₃) = >>=-eq-ok (or_default (try_new_cache d files) cache_default) _ made in
      let (store, kept, built) =
        >>=-eq-ok (or_default (try_new_store d files) store_default) _ h₃ in
      let same : r ≡ store = ok_inj (ap (λ o. or_default o store_default) (sym reads) ∙ kept) in
      ap (λ (x : StoreMeta). x.store) (sym (ok_inj done) ∙ sym (ok_inj built)) ∙ sym same

  -- An asset whose insertion returned is among the assets of the store that the next start opens,
  -- and one whose removal returned is not, whatever the other file holds and though nothing else
  -- was written; every other asset is as before, and the results say whether the set has changed.
  -- No write is assumed to be short, files that are there to be opened and read, and the encodings
  -- and the cipher to give back what they were given; the nonce has 12 bytes.
  pub store_open-insert_asset :
      (s t u : StoreMeta) (asset : AssetId) (files : Files) (inserted removed : Bool)
      → DiskLaws d (insert_asset d nonce s asset files).1
      → DiskLaws d (remove_asset d nonce s asset files).1
      → (insert_asset d nonce s asset files).2 ≡ ok inserted
      → (remove_asset d nonce s asset files).2 ≡ ok removed
      → store_open d (insert_asset d nonce s asset files).0 ≡ ok t
      → store_open d (remove_asset d nonce s asset files).0 ≡ ok u
      → (inserted ≡ not (contains asset s.store.liquidex_assets))
        × (removed ≡ contains asset s.store.liquidex_assets)
        × ((other : AssetId)
            → (contains other t.store.liquidex_assets
                ≡ (if asset == other then true else contains other s.store.liquidex_assets))
              × (contains other u.store.liquidex_assets
                  ≡ (if asset == other then false else contains other s.store.liquidex_assets)))
  unfolding insert_asset remove_asset liquidex_assets_insert liquidex_assets_remove
  store_open-insert_asset s t u asset files inserted removed laws laws' run run' opened opened' =
      let assets = s.store.liquidex_assets in
      let with_asset = (liquidex_assets_insert (ok tt) s asset).0 in
      let without = (liquidex_assets_remove (ok tt) s asset).0 in
      let (_, flushed, result) = >>=-eq-ok (flush_store d nonce with_asset files).1 _ run in
      let (_, flushed', result') = >>=-eq-ok (flush_store d nonce without files).1 _ run' in
      (
        sym (ok_inj result) ∙ not-if (contains asset assets),
        sym (ok_inj result'),
        λ other. (
          ap (λ (r : RawStore). contains other r.liquidex_assets)
                (store_open-store (flush_store d nonce with_asset files).0 with_asset.store
                  (try_new_store-flush_store with_asset files laws flushed) opened)
              ∙ contains-set_insert asset other assets,
          ap (λ (r : RawStore). contains other r.liquidex_assets)
                (store_open-store (flush_store d nonce without files).0 without.store
                  (try_new_store-flush_store without files laws' flushed') opened')
              ∙ contains-set_remove asset other assets,
        ),
      )
    where
      not-if : (b : Bool) → (if b then false else true) ≡ not b
      not-if true = refl
      not-if false = refl
