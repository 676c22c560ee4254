-- ===== src/Wallet/Open/Reopened.antt =====
-- src/interface.rs: a wallet that is opened again from the same words.
use bewallet.Common.{ℕ, ◌≡◌, refl, ap, subst, ◌∙◌, String, string_eq, beq_refl, length}
use bewallet.Outcome.{Outcome, ok, >>=-eq-ok, ok_inj}
use bewallet.Word.Bytes.{Bytes}
use bewallet.Network.{Config}
use bewallet.Store.{StoreMeta, store_new}
use bewallet.Store.Files.{Files, Disk, store_open, flush, try_new_cache, try_new_store}
use bewallet.Store.Files.Reopened.{DiskLaws, store_open-flush}
use bewallet.Wallet.Mnemonic.{mnemonic2seed, mnemonic2xprv}
use bewallet.Wallet.Open.{Opener, Opened, Folders, set_folder, from_mnemonic}

-- What opening needs of the folder.
store_open-ready :
    (d : Disk) (files : Files) {s : StoreMeta}
    → store_open d files ≡ ok s
    → (d.create_dir_all ≡ ok tt) × (d.first_deriv ≡ ok tt)
unfolding store_open
store_open-ready d files run =
    let (_, _, h₁) = >>=-eq-ok (store_new (try_new_cache d files) (try_new_store d files)) _ run in
    let (_, dir, h₂) = >>=-eq-ok d.create_dir_all _ h₁ in
    let (_, derives, _) = >>=-eq-ok d.first_deriv _ h₂ in (dir, derives)

module _ (o : Opener) (mnemonic data_root : String) (config : Config) where
  abbrev path_of : ℕ → String
  path_of xprv = o.push data_root (o.sha256_hex (o.wallet_desc (o.from_private xprv) config))

  -- The wallet of an extended key, a seed and a store.
  abbrev opened_of : ℕ → Bytes → StoreMeta → Opened
  opened_of xprv seed store = record {
    store = store;
    config = config;
    xpub = o.from_private xprv;
    master_blinding = o.master_blinding_key seed;
    change_max_deriv = 0;
    path = path_of xprv;
  }

  record Opens (folders : Folders) (a : Opened) : Type 0 where
    xprv : ℕ
    seed : Bytes
    store : StoreMeta
    keys : mnemonic2xprv o.bip39 mnemonic config ≡ ok xprv
    seeded : mnemonic2seed o.bip39 mnemonic ≡ ok seed
    root : o.create_dir_all data_root ≡ ok tt
    reads :
        store_open (o.disk (path_of xprv) (o.from_private xprv)) (folders (path_of xprv)) ≡ ok store
    is : opened_of xprv seed store ≡ a

  from_mnemonic-Opens :
      (folders : Folders) (a : Opened)
      → from_mnemonic o folders mnemonic data_root config ≡ ok a
      → Opens folders a
  unfolding from_mnemonic
  from_mnemonic-Opens folders a run =
      let (xprv, keys, h₁) = >>=-eq-ok (mnemonic2xprv o.bip39 mnemonic config) _ run in
      let (seed, seeded, h₂) = >>=-eq-ok (mnemonic2seed o.bip39 mnemonic) _ h₁ in
      let (_, root, h₃) = >>=-eq-ok (o.create_dir_all data_root) _ h₂ in
      let (store, reads, done) =
        >>=-eq-ok
          (store_open (o.disk (path_of xprv) (o.from_private xprv)) (folders (path_of xprv))) _
          h₃ in
      record {
        xprv = xprv;
        seed = seed;
        store = store;
        keys = keys;
        seeded = seeded;
        root = root;
        reads = reads;
        is = ok_inj done;
      }

  Opens-from_mnemonic :
      (folders folders' : Folders) (a : Opened) (q : Opens folders a) (s : StoreMeta)
      → store_open (o.disk (path_of q.xprv) (o.from_private q.xprv)) (folders' (path_of q.xprv))
        ≡ ok s
      → from_mnemonic o folders' mnemonic data_root config ≡ ok (opened_of q.xprv q.seed s)
  unfolding from_mnemonic
  Opens-from_mnemonic folders folders' a q s reads = rw (q.keys, q.seeded, q.root, reads) refl

set_folder-same :
    (folders : Folders) (path : String) (files : Files) → set_folder folders path files path ≡ files
set_folder-same folders path files = rw (beq_refl path) refl

module _ (o : Opener) (folders : Folders) (mnemonic data_root : String) (config : Config)
    (s : StoreMeta) (nonce nonce' : Bytes) where
  -- The folders once the store of an opened wallet is written.
  abbrev pub flushed : Opened → Files × Outcome (Unit {0})
  flushed a = flush (o.disk a.path a.xpub) nonce nonce' s (folders a.path)

  -- What writing relies on.
  pub record Writes (a : Opened) : Type 0 where
    pub laws : DiskLaws (o.disk a.path a.xpub) s
    pub opens : (name : String) → (o.disk a.path a.xpub).opens name ≡ ok tt
    pub succeeds : (flushed a).1 ≡ ok tt

  -- A wallet that was opened from its words, whose store has changed to `s` and was flushed without
  -- an error, opens from the same words with the same keys and the store `s`, if the nonces have 12
  -- bytes, no write is short, the files can be opened and read, and the encodings and the cipher give
  -- back what they were given.
  pub from_mnemonic-flush :
      (a : Opened)
      → from_mnemonic o folders mnemonic data_root config ≡ ok a
      → length nonce ≡ 12
      → length nonce' ≡ 12
      → Writes a
      → from_mnemonic o (set_folder folders a.path (flushed a).0) mnemonic data_root config
        ≡ ok (record a { store = s })
  from_mnemonic-flush a run size size' writes =
      let q = from_mnemonic-Opens o mnemonic data_root config folders a run in
      subst Goal q.is (reopens q) writes
    where
      Goal : Opened → Type 0
      Goal a =
          Writes a
          → from_mnemonic o (set_folder folders a.path (flushed a).0) mnemonic data_root config
            ≡ ok (record a { store = s })

      reopens :
          (q : Opens o mnemonic data_root config folders a)
          → Goal (opened_of o mnemonic data_root config q.xprv q.seed q.store)
      reopens q writes =
          let b = opened_of o mnemonic data_root config q.xprv q.seed q.store in
          let d : Disk = o.disk b.path b.xpub in
          let (dir, derives) = store_open-ready d (folders b.path) q.reads in
          let again =
            store_open-flush d nonce nonce' s (folders b.path) writes.laws size size' writes.opens
              dir derives writes.succeeds in
          Opens-from_mnemonic o mnemonic data_root config folders
            (set_folder folders b.path (flushed b).0) a q s
            (ap (store_open d) (set_folder-same folders b.path (flushed b).0) ∙ again)
