-- ===== src/Store/Files/Opens.antt =====
-- src/store.rs: what a store opens with, for what its files hold.
use bewallet.Common.{
  ap, sym, ◌∙◌, ◌≤◌, arith, ◌≡◌, ◌≢◌, refl, Bool, true, false, Option, none, some, String,
  string_eq, take, drop, length, leb, not,
}
use bewallet.Error.{Error}
use bewallet.Outcome.{Outcome, ok, err, panic, hang, ◌>>=◌, >>=-eq-ok, fail_if, ok_or}
use bewallet.Word.Bytes.{Bytes}
use bewallet.Map.{get}
use bewallet.Store.{StoreMeta, RawCache, RawStore, cache_default, store_default, or_default}
use bewallet.Store.Files.{Files, Disk, load_decrypt, try_new_cache, try_new_store, store_open}

-- A call that returns, with a value or an error.
abbrev pub Returns : {A : Type 0} → Outcome A → Type 0
Returns o = (o ≢ panic) × (o ≢ hang)

>>=-Returns :
    {A B : Type 0} (m : Outcome A) (f : A → Outcome B)
    → Returns m
    → ((a : A) → Returns (f a))
    → Returns (m >>= f)
>>=-Returns (ok a) f h k = k a
>>=-Returns (err e) f h k = (λ q. cc, λ q. cc)
>>=-Returns panic f h k = absurd (h.0 refl)
>>=-Returns hang f h k = absurd (h.1 refl)

ok_or-Returns : {A : Type 0} (o : Option A) (e : Error) → Returns (ok_or o e)
ok_or-Returns none e = (λ q. cc, λ q. cc)
ok_or-Returns (some a) e = (λ q. cc, λ q. cc)

fail_if-Returns : (b : Bool) (e : Error) → Returns (fail_if b e)
fail_if-Returns true e = (λ q. cc, λ q. cc)
fail_if-Returns false e = (λ q. cc, λ q. cc)

-- The crates report what they cannot open, decrypt or parse as an error.
pub record Reports (d : Disk) : Type 0 where
  pub opens : (name : String) → Returns (d.opens name)
  pub reads : (name : String) → Returns (d.reads name)
  pub decrypts : (nonce ciphertext : Bytes) → Returns (d.decrypt nonce ciphertext)
  pub cache_parses : (bytes : Bytes) → Returns (d.cache_from_slice bytes)
  pub store_parses : (bytes : Bytes) → Returns (d.store_from_slice bytes)

-- The file is there, can be opened and read, has a nonce of 12 bytes in front, and what is behind
-- it decrypts to a text.
pub record Holds (d : Disk) (name : String) (files : Files) (text : Bytes) : Type 0 where
  pub content : Bytes
  pub stored : get name files ≡ some content
  pub opens : d.opens name ≡ ok tt
  pub has_nonce : 12 ≤ length content
  pub reads : d.reads name ≡ ok tt
  pub decrypts : d.decrypt (take 12 content) (drop 12 content) ≡ ok text

-- `a` is what the text of the file parses to; or there is no such text, and it is the default.
pub data ReadOr {A : Type 0} (d : Disk) (name : String) (files : Files) (parse : Bytes → Outcome A)
    (default : A) : A → Type 0 where
  read :
      (a : A) (text : Bytes)
      → Holds d name files text
      → parse text ≡ ok a
      → ReadOr d name files parse default a
  reset :
      ((text : Bytes) (a : A) → Holds d name files text → parse text ≢ ok a)
      → ReadOr d name files parse default default

err-ne-ok : {A : Type 0} (c : Error) (a : A) → err c ≢ ok a
err-ne-ok c a q = cc

module _ (d : Disk) (name : String) (files : Files) where
  load_decrypt-Holds :
      {text : Bytes} → load_decrypt d name files ≡ ok text → Holds d name files text
  unfolding load_decrypt
  load_decrypt-Holds {text} run =
      let (content, stored, h₁) = >>=-eq-ok (ok_or (get name files) _) _ run in
      let (_, opens, h₂) = >>=-eq-ok (d.opens name) _ h₁ in
      let (_, long, h₃) = >>=-eq-ok (fail_if (not (leb 12 (length content))) _) _ h₂ in
      let (_, reads, decrypts) = >>=-eq-ok (d.reads name) _ h₃ in
      record {
        content = content;
        stored = ok_or-some (get name files) _ stored;
        opens = opens;
        has_nonce = long_enough content _ long;
        reads = reads;
        decrypts = decrypts;
      }
    where
      ok_or-some : (o : Option Bytes) (e : Error) {a : Bytes} → ok_or o e ≡ ok a → o ≡ some a
      ok_or-some none e h = absurd cc
      ok_or-some (some b) e h = cc

      long_enough :
          (content : Bytes) (e : Error) {u : Unit {0}}
          → fail_if (not (leb 12 (length content))) e ≡ ok u
          → 12 ≤ length content
      long_enough content e h = ground arith

  Holds-load_decrypt :
      {text : Bytes} → Holds d name files text → load_decrypt d name files ≡ ok text
  unfolding load_decrypt
  Holds-load_decrypt q =
      let long : leb 12 (length q.content) ≡ true = ground (arith, q.has_nonce) in
      rw (q.stored, q.opens, long, q.reads, q.decrypts) refl

  -- The file's text parsed, or the default.
  or_default-ReadOr :
      {A : Type 0} (parse : Bytes → Outcome A) (default : A)
      → Returns (load_decrypt d name files >>= parse)
      → (a : A) × (or_default (load_decrypt d name files >>= parse) default ≡ ok a)
        × ReadOr d name files parse default a
  unfolding or_default
  or_default-ReadOr {A} parse default h = cases (load_decrypt d name files >>= parse) refl h
    where
      cases :
          (o : Outcome A)
          → (load_decrypt d name files >>= parse) ≡ o
          → Returns o
          → (a : A) × (or_default o default ≡ ok a) × ReadOr d name files parse default a
      cases (ok a) e h =
          let (text, loaded, parsed) = >>=-eq-ok (load_decrypt d name files) parse e in
          (a, refl, read a text (load_decrypt-Holds loaded) parsed)
      cases (err c) e h = (
        default,
        refl,
        reset (λ text a q parsed.
            let whole : (load_decrypt d name files >>= parse) ≡ ok a =
              ap (λ o. o >>= parse) (Holds-load_decrypt q) ∙ parsed in
            err-ne-ok c a (sym e ∙ whole)),
      )
      cases panic e h = absurd (h.0 refl)
      cases hang e h = absurd (h.1 refl)

module _ (d : Disk) (reports : Reports d) where
  load_decrypt-Returns : (name : String) (files : Files) → Returns (load_decrypt d name files)
  unfolding load_decrypt
  load_decrypt-Returns name files = >>=-Returns _ _ (ok_or-Returns (get name files) _) (λ content.
      >>=-Returns _ _ (reports.opens name) (λ _.
        >>=-Returns _ _ (fail_if-Returns (not (leb 12 (length content))) _) (λ _.
          >>=-Returns _ _ (reports.reads name)
            (λ _. reports.decrypts (take 12 content) (drop 12 content)))))

  try_new_cache-Returns : (files : Files) → Returns (try_new_cache d files)
  unfolding try_new_cache
  try_new_cache-Returns files =
      >>=-Returns (load_decrypt d "cache" files) _ (load_decrypt-Returns "cache" files)
        reports.cache_parses

  try_new_store-Returns : (files : Files) → Returns (try_new_store d files)
  unfolding try_new_store
  try_new_store-Returns files =
      >>=-Returns (load_decrypt d "store" files) _ (load_decrypt-Returns "store" files)
        reports.store_parses

  -- Opening a store never fails for what its files hold. The cache is what the file `cache` holds,
  -- and the assets what the file `store` holds, if the file is there, has 12 bytes for the nonce,
  -- and decrypts and parses; where it is missing, short or corrupted they start empty, each for
  -- itself. It is assumed that the folder can be made and the keys of the chains derived, and that
  -- the crates report errors and do not panic.
  pub store_open-ReadOr :
      (files : Files)
      → d.create_dir_all ≡ ok tt
      → d.first_deriv ≡ ok tt
      → (s : StoreMeta) × (store_open d files ≡ ok s)
        × ReadOr d "cache" files d.cache_from_slice cache_default s.cache
        × ReadOr d "store" files d.store_from_slice store_default s.store
  unfolding store_open bewallet.Store.store_new try_new_cache try_new_store
  store_open-ReadOr files dir derives =
      let (cache, cache_run, from_cache) =
        or_default-ReadOr d "cache" files d.cache_from_slice cache_default
          (try_new_cache-Returns files) in
      let (store, store_run, from_store) =
        or_default-ReadOr d "store" files d.store_from_slice store_default
          (try_new_store-Returns files) in
      (
        record { cache = cache; store = store },
        rw (cache_run, store_run, dir, derives) refl,
        from_cache,
        from_store,
      )
