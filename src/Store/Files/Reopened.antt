-- ===== src/Store/Files/Reopened.antt =====
-- src/store.rs: a store that is written and opened again.
use bewallet.Common.{
  ℕ, ◌≡◌, refl, sym, ap, subst, ◌∙◌, true, some, [], ◌∷◌, ◌++◌, String, string_eq, take, drop,
  length, length-append, leb, arith,
}
use bewallet.Outcome.{Outcome, ok, err, panic, hang, >>=-eq-ok, ok_inj}
use bewallet.Word.Bytes.{Bytes}
use bewallet.Map.{get, insert}
use bewallet.Map.Laws.{get-insert}
use bewallet.Store.{RawCache, RawStore, StoreMeta, cache_default, store_default, or_default}
use bewallet.Store.Files.{
  Files, Disk, load_decrypt, try_new_cache, try_new_store, store_open, encrypted, written,
  write_next, write_file, flush_serializable, flush_cache, flush_store, flush,
}

-- No `write` is short.
abbrev pub WritesWhole : Disk → Type 0
WritesWhole d =
    (name : String) (content bytes : Bytes) (n : ℕ)
    → d.writes name content bytes ≡ ok n
    → n ≡ length bytes

-- The encodings of a store parse to it, what is encrypted decrypts, a file that is open is read to
-- its end, and no `write` is short.
pub record DiskLaws (d : Disk) (s : StoreMeta) : Type 0 where
  pub cache_parses :
      (bytes : Bytes) → d.cache_to_vec s.cache ≡ ok bytes → d.cache_from_slice bytes ≡ ok s.cache
  pub store_parses :
      (bytes : Bytes) → d.store_to_vec s.store ≡ ok bytes → d.store_from_slice bytes ≡ ok s.store
  pub decrypts :
      (nonce text ciphertext : Bytes)
      → d.encrypt nonce text ≡ ok ciphertext
      → d.decrypt nonce ciphertext ≡ ok text
  pub reads : (name : String) → d.reads name ≡ ok tt
  pub whole : WritesWhole d

take-append : (xs ys : Bytes) → take (length xs) (xs ++ ys) ≡ xs
take-append [] [] = refl
take-append [] (y ∷ ys) = refl
take-append (x ∷ xs) ys = ap (λ l. x ∷ l) (take-append xs ys)

drop-append : (xs ys : Bytes) → drop (length xs) (xs ++ ys) ≡ ys
drop-append [] [] = refl
drop-append [] (y ∷ ys) = refl
drop-append (x ∷ xs) ys = drop-append xs ys

take-length : (xs : Bytes) → take (length xs) xs ≡ xs
take-length [] = refl
take-length (x ∷ xs) = ap (λ l. x ∷ l) (take-length xs)

module _ (d : Disk) (whole : WritesWhole d) (name : String) where
  written-whole :
      (content bytes : Bytes) (o : Outcome ℕ)
      → ((n : ℕ) → o ≡ ok n → n ≡ length bytes)
      → (written d content bytes o).1 ≡ ok tt
      → written d content bytes o ≡ (content ++ bytes, ok tt)
  unfolding written
  written-whole content bytes (ok n) all h =
      ap (λ l. (content ++ l, ok tt)) (ap (λ k. take k bytes) (all n refl) ∙ take-length bytes)
  written-whole content bytes (err e) all h = absurd cc
  written-whole content bytes panic all h = absurd cc
  written-whole content bytes hang all h = absurd cc

  write_next-first :
      (bytes : Bytes) (file : Bytes × Outcome (Unit {0}))
      → (write_next d name bytes file).1 ≡ ok tt
      → file.1 ≡ ok tt
  unfolding write_next
  write_next-first bytes (content, ok tt) h = refl
  write_next-first bytes (content, err e) h = absurd cc
  write_next-first bytes (content, panic) h = absurd cc
  write_next-first bytes (content, hang) h = absurd cc

  -- A file whose two writes returned holds the nonce and the text.
  write_file-whole :
      (nonce ciphertext : Bytes)
      → (write_file d name nonce ciphertext).1 ≡ ok tt
      → (write_file d name nonce ciphertext).0 ≡ nonce ++ ciphertext
  unfolding write_file write_next
  write_file-whole nonce ciphertext run =
      let first = written d [] nonce (d.writes name [] nonce) in
      let front : first ≡ (nonce, ok tt) =
        written-whole [] nonce (d.writes name [] nonce) (whole name [] nonce)
          (write_next-first ciphertext first run) in
      let both : write_next d name ciphertext first
          ≡ written d nonce ciphertext (d.writes name nonce ciphertext) =
        ap (write_next d name ciphertext) front in
      let second =
        written-whole nonce ciphertext (d.writes name nonce ciphertext)
          (whole name nonce ciphertext) (ap (λ f. f.1) (sym both) ∙ run) in
      ap (λ (f : Bytes × Outcome (Unit {0})). f.0) (both ∙ second)

module _ (d : Disk) where
  -- What a flush that succeeds leaves, where no write is short.
  pub record Written (name : String) (nonce : Bytes) (value : Outcome Bytes) (files files' : Files)
      : Type 0 where
    pub plaintext : Bytes
    pub ciphertext : Bytes
    pub encoded : value ≡ ok plaintext
    pub encrypts : d.encrypt nonce plaintext ≡ ok ciphertext
    pub written : files' ≡ insert name (nonce ++ ciphertext) files

  pub flush_serializable-Written :
      (name : String) (nonce : Bytes) (value : Outcome Bytes) (files : Files)
      → WritesWhole d
      → (flush_serializable d name nonce value files).1 ≡ ok tt
      → Written name nonce value files (flush_serializable d name nonce value files).0
  unfolding flush_serializable encrypted
  flush_serializable-Written name nonce value files whole run =
      cases (encrypted d name nonce value) refl run
    where
      after : Outcome Bytes → Files × Outcome (Unit {0})
      after e = elim e [
        | ok ciphertext ↦
            let file = write_file d name nonce ciphertext in (insert name file.0 files, file.1)
        | err c ↦ (files, err c)
        | panic ↦ (files, panic)
        | hang ↦ (files, hang)
      ]

      cases :
          (e : Outcome Bytes)
          → encrypted d name nonce value ≡ e
          → (after e).1 ≡ ok tt
          → Written name nonce value files (after e).0
      cases (ok text) e h =
          let (plaintext, encoded, h₁) = >>=-eq-ok value _ e in
          let (ciphertext, encrypts, h₂) = >>=-eq-ok (d.encrypt nonce plaintext) _ h₁ in
          let (_, _, done) = >>=-eq-ok (d.creates name) _ h₂ in
          let same : text ≡ ciphertext = sym (ok_inj done) in
          record {
            plaintext = plaintext;
            ciphertext = ciphertext;
            encoded = encoded;
            encrypts = encrypts;
            written =
                ap (λ c. insert name c files)
                  (write_file-whole d whole name nonce text h ∙ ap (λ c. nonce ++ c) same);
          }
      cases (err c) e h = absurd cc
      cases panic e h = absurd cc
      cases hang e h = absurd cc

  pub load_decrypt-written :
      (s : StoreMeta) (name : String) (nonce text ciphertext : Bytes) (files : Files)
      → DiskLaws d s
      → length nonce ≡ 12
      → d.opens name ≡ ok tt
      → d.encrypt nonce text ≡ ok ciphertext
      → get name files ≡ some (nonce ++ ciphertext)
      → load_decrypt d name files ≡ ok text
  unfolding load_decrypt
  load_decrypt-written s name nonce text ciphertext files laws size opens encrypts found =
      let long : leb 12 (length (nonce ++ ciphertext)) ≡ true =
        ground (arith, length-append nonce ciphertext, size) in
      let head : take 12 (nonce ++ ciphertext) ≡ nonce =
        subst (λ n. take n (nonce ++ ciphertext) ≡ nonce) size (take-append nonce ciphertext) in
      let tail : drop 12 (nonce ++ ciphertext) ≡ ciphertext =
        subst (λ n. drop n (nonce ++ ciphertext) ≡ ciphertext) size
          (drop-append nonce ciphertext) in
      rw
        (
          found,
          opens,
          long,
          laws.reads name,
          head,
          tail,
          laws.decrypts nonce text ciphertext encrypts,
        )
        refl

  flush-Written :
      (nonce nonce' : Bytes) (s : StoreMeta) (files : Files)
      → WritesWhole d
      → (flush d nonce nonce' s files).1 ≡ ok tt
      → Written "store" nonce (d.store_to_vec s.store) files (flush_store d nonce s files).0
        × Written "cache" nonce'
            (d.cache_to_vec s.cache)
            (flush_store d nonce s files).0
            (flush d nonce nonce' s files).0
  unfolding flush flush_store flush_cache
  flush-Written nonce nonce' s files whole run = cases stored.1 refl run
    where
      stored : Files × Outcome (Unit {0})
      stored = flush_store d nonce s files

      cached : Files × Outcome (Unit {0})
      cached = flush_cache d nonce' s stored.0

      after : Outcome (Unit {0}) → Files × Outcome (Unit {0})
      after r = elim r [
        | ok _ ↦ cached
        | err e ↦ (stored.0, err e)
        | panic ↦ (stored.0, panic)
        | hang ↦ (stored.0, hang)
      ]

      cases :
          (r : Outcome (Unit {0}))
          → stored.1 ≡ r
          → (after r).1 ≡ ok tt
          → Written "store" nonce (d.store_to_vec s.store) files stored.0
            × Written "cache" nonce' (d.cache_to_vec s.cache) stored.0 (after r).0
      cases (ok tt) e h = (
        flush_serializable-Written "store" nonce (d.store_to_vec s.store) files whole e,
        flush_serializable-Written "cache" nonce' (d.cache_to_vec s.cache) stored.0 whole h,
      )
      cases (err c) e h = absurd cc
      cases panic e h = absurd cc
      cases hang e h = absurd cc

  -- A store that was flushed without an error is what the next start reads, if both nonces have 12
  -- bytes, no write is short, the files can be opened and read, the folder is there, the keys of the
  -- chains can be derived, and the encodings and the cipher give back what they were given.
  pub store_open-flush :
      (nonce nonce' : Bytes) (s : StoreMeta) (files : Files)
      → DiskLaws d s
      → length nonce ≡ 12
      → length nonce' ≡ 12
      → ((name : String) → d.opens name ≡ ok tt)
      → d.create_dir_all ≡ ok tt
      → d.first_deriv ≡ ok tt
      → (flush d nonce nonce' s files).1 ≡ ok tt
      → store_open d (flush d nonce nonce' s files).0 ≡ ok s
  unfolding store_open try_new_cache try_new_store bewallet.Store.store_new or_default
  store_open-flush nonce nonce' s files laws size size' opens dir derives run =
      let (w, w') = flush-Written nonce nonce' s files laws.whole run in
      let files' = (flush d nonce nonce' s files).0 in
      let at_cache : get "cache" files' ≡ some (nonce' ++ w'.ciphertext) =
        ap (get "cache") w'.written ∙ get-insert "cache" "cache" _ _ in
      let at_store : get "store" files' ≡ some (nonce ++ w.ciphertext) =
        ap (get "store") w'.written
        ∙ get-insert "cache" "store" _ _
        ∙ ap (get "store") w.written
        ∙ get-insert "store" "store" _ files in
      let cache =
        load_decrypt-written s "cache" nonce' w'.plaintext w'.ciphertext files' laws size'
          (opens "cache") w'.encrypts at_cache in
      let store =
        load_decrypt-written s "store" nonce w.plaintext w.ciphertext files' laws size
          (opens "store") w.encrypts at_store in
      rw
        (
          cache,
          store,
          laws.cache_parses w'.plaintext w'.encoded,
          laws.store_parses w.plaintext w.encoded,
          dir,
          derives,
        )
        refl
