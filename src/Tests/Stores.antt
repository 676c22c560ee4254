-- ===== src/Tests/Stores.antt =====
-- src/store.rs, src/lib.rs and src/interface.rs: files, the history, and the wallet without a server.
use bewallet.Common.{
  arith, ◌≢◌, In, inl, inr, subst, not, ◌==◌, if◌then◌else◌, ℕ, zero, suc, ◌+◌, ◌≤◌, ◌≡◌, refl, ap,
  sym, Bool, true, false, Option, none, some, List, [], ◌∷◌, ◌++◌, String, string_eq, drop, take,
  length, All, nat_eq, bytes_eq,
}
use bewallet.Error.{client_error, empty_addressees}
use bewallet.Outcome.{Outcome, ok, ok_inj, err, traverse}
use bewallet.Word.Bytes.{Bytes}
use bewallet.Map.{Map, Amounts, Distinct, get}
use bewallet.Elements.{Transaction}
use bewallet.Int.{ℤ, pos}
use bewallet.Sync.Client.{Client}
use bewallet.Wallet.Create.{check_addressees}
use bewallet.Model.{in_progress, TransactionDetails, GetTransactionsOpt}
use bewallet.Store.{StoreMeta, cache_default, store_default, fee_estimates}
use bewallet.Store.Files.{Disk, Files, store_open, flush}
use bewallet.Store.Files.Reopened.{DiskLaws, store_open-flush}
use bewallet.Store.Files.{insert_asset, remove_asset}
use bewallet.Store.Files.Assets.{store_open-insert_asset}
use bewallet.Map.{contains}
use bewallet.Store.{liquidex_assets_insert, liquidex_assets_remove}
use bewallet.Store.Files.Opens.{Reports, ReadOr, store_open-ReadOr}
use bewallet.Wallet.Context.{Orders}
use bewallet.Wallet.History.{list_tx, tx_details}
use bewallet.Wallet.History.Newest.{Height, Newest, Entry, list_tx-Newest}
use bewallet.Electrum.{
  update_tip, update_spv, sync_store, ElectrumWallet, Chances, synced, update_fee_estimates,
}
use bewallet.Electrum.Offline.{synced-error}
use bewallet.Electrum.Fees.{update_fee_estimates-bounds}
use bewallet.Wallet.Open.{Opener, Opened, Folders, set_folder, from_mnemonic}
use bewallet.Wallet.Open.Reopened.{Writes, from_mnemonic-flush}
use bewallet.Tests.Crates.{bip39}
use bewallet.Tests.World.{heights_in_order, received_tx}
use bewallet.Tests.Wallets.{config, wallet, orders, store}
use bewallet.Tests.Servers.{derivation, client, crypto}
use bewallet.Tests.Exchange.{swapper, fee_out}

abbrev head : Bytes → ℕ
head [] = 0
head (b ∷ bytes) = b

-- Of a cache the height of the tip is encoded; the cipher puts a 0 in front.
abbrev disk : Disk
disk = record {
  path_text = λ name. name;
  opens = λ name. ok tt;
  reads = λ name. ok tt;
  creates = λ name. ok tt;
  writes = λ name content bytes. ok (length bytes);
  create_dir_all = ok tt;
  cache_to_vec = λ c. ok (c.tip.0 ∷ []);
  cache_from_slice = λ bytes. ok (record cache_default { tip = (head bytes, 0) });
  store_to_vec = λ s. ok s.liquidex_assets;
  store_from_slice = λ bytes. ok (record { liquidex_assets = bytes });
  encrypt = λ nonce text. ok (0 ∷ text);
  decrypt = λ nonce text. ok (drop 1 text);
  first_deriv = ok tt;
}

abbrev kept : StoreMeta
kept = record {
  cache = record cache_default { tip = (100, 0) };
  store = record { liquidex_assets = 2 ∷ 3 ∷ [] };
}

kept-DiskLaws : DiskLaws disk kept
kept-DiskLaws = record {
  cache_parses =
      λ bytes e. ap (λ b. ok (record cache_default { tip = (head b, 0) })) (sym (ok_inj e));
  store_parses = λ bytes e. ap (λ b. ok (record { liquidex_assets = b })) (sym (ok_inj e));
  decrypts = λ nonce text c e. ap (λ b. ok (drop 1 b)) (sym (ok_inj e));
  reads = λ name. refl;
  whole = λ name content bytes n e. sym (ok_inj e);
}

abbrev twelve : Bytes
twelve = 1 ∷ 2 ∷ 3 ∷ 4 ∷ 5 ∷ 6 ∷ 7 ∷ 8 ∷ 9 ∷ 10 ∷ 11 ∷ 12 ∷ []

kept-flushed : (flush disk twelve twelve kept []).1 ≡ ok tt
unfolding flush
kept-flushed = refl

store_open-flush_example : store_open disk (flush disk twelve twelve kept []).0 ≡ ok kept
store_open-flush_example =
    store_open-flush disk twelve twelve kept [] kept-DiskLaws refl refl (λ name. refl) refl refl
      kept-flushed

-- Asset 4 is inserted, and asset 4 is removed; the file of the cache is never written.
abbrev with_assets : Bytes → StoreMeta
with_assets assets = record { cache = cache_default; store = record { liquidex_assets = assets } }

assets-DiskLaws : (assets : Bytes) → DiskLaws disk (with_assets assets)
assets-DiskLaws assets = record {
  cache_parses =
      λ bytes e. ap (λ b. ok (record cache_default { tip = (head b, 0) })) (sym (ok_inj e));
  store_parses = λ bytes e. ap (λ b. ok (record { liquidex_assets = b })) (sym (ok_inj e));
  decrypts = λ nonce text c e. ap (λ b. ok (drop 1 b)) (sym (ok_inj e));
  reads = λ name. refl;
  whole = λ name content bytes n e. sym (ok_inj e);
}

abbrev swapped : ℕ
swapped = 4

abbrev start : StoreMeta
start = with_assets (2 ∷ 4 ∷ [])

inserted : (insert_asset disk twelve start 4 []).2 ≡ ok false
unfolding insert_asset contains
inserted = refl

removed : (remove_asset disk twelve start 4 []).2 ≡ ok true
unfolding remove_asset contains
removed = refl

open_inserted : store_open disk (insert_asset disk twelve start 4 []).0 ≡ ok start
unfolding insert_asset store_open get bewallet.Map.insert bewallet.Map.set_insert
open_inserted = refl

open_removed : store_open disk (remove_asset disk twelve start 4 []).0 ≡ ok (with_assets (2 ∷ []))
unfolding remove_asset store_open get bewallet.Map.insert bewallet.Map.set_remove
open_removed = refl

store_open-insert_asset_example :
    (false ≡ not (contains swapped start.store.liquidex_assets))
    × (true ≡ contains swapped start.store.liquidex_assets)
    × ((other : ℕ)
        → (contains other start.store.liquidex_assets
            ≡ (if swapped == other then true else contains other start.store.liquidex_assets))
          × (contains other (with_assets (2 ∷ [])).store.liquidex_assets
              ≡ (if swapped == other then false else contains other start.store.liquidex_assets)))
unfolding insert_asset remove_asset liquidex_assets_insert liquidex_assets_remove
    bewallet.Map.set_insert bewallet.Map.set_remove
store_open-insert_asset_example =
    store_open-insert_asset disk (λ name. refl) twelve refl start start (with_assets (2 ∷ [])) 4 []
      false true (assets-DiskLaws (2 ∷ 4 ∷ [])) (assets-DiskLaws (2 ∷ [])) inserted removed
      open_inserted open_removed

-- The wallet of the words, opened the first time: its folder is empty.
abbrev opener : Opener
opener = record {
  bip39 = bip39;
  from_private = λ xprv. xprv + 1;
  master_blinding_key = λ seed. 9 ∷ seed;
  wallet_desc = λ xpub c. "1";
  sha256_hex = λ text. "a";
  push = λ root name. name;
  create_dir_all = λ path. ok tt;
  disk = λ path xpub. disk;
}

abbrev opened : StoreMeta → Opened
opened s = record {
  store = s;
  config = config;
  xpub = 1777;
  master_blinding = 9 ∷ [];
  change_max_deriv = 0;
  path = "a";
}

abbrev no_files : Folders
no_files path = []

abbrev empty_store : StoreMeta
empty_store = record { cache = cache_default; store = store_default }

first_opened : from_mnemonic opener no_files "words" "root" config ≡ ok (opened empty_store)
unfolding from_mnemonic get
first_opened = refl

kept-Writes : Writes opener no_files "words" "root" config kept twelve twelve (opened empty_store)
unfolding flush
kept-Writes = record { laws = kept-DiskLaws; opens = λ name. refl; succeeds = refl }

from_mnemonic-flush_example :
    from_mnemonic opener
      (set_folder no_files "a" (flush disk twelve twelve kept []).0)
      "words"
      "root"
      config
    ≡ ok (opened kept)
from_mnemonic-flush_example =
    from_mnemonic-flush opener no_files "words" "root" config kept twelve twelve
      (opened empty_store) first_opened refl refl kept-Writes

-- A disk that writes one byte at each call: the flush returns without an error, and what it wrote is
-- not read back.
abbrev slow : Disk
slow = record disk { writes = λ name content bytes. ok 1 }

short-flushed : (flush slow twelve twelve kept []).1 ≡ ok tt
unfolding flush
short-flushed = refl

short-lost : store_open slow (flush slow twelve twelve kept []).0 ≡ ok empty_store
unfolding flush store_open get bewallet.Map.insert
short-lost = refl

disk-Reports : Reports disk
disk-Reports = record {
  opens = λ name. (λ q. cc, λ q. cc);
  reads = λ name. (λ q. cc, λ q. cc);
  decrypts = λ nonce text. (λ q. cc, λ q. cc);
  cache_parses = λ bytes. (λ q. cc, λ q. cc);
  store_parses = λ bytes. (λ q. cc, λ q. cc);
}

-- The file of the assets is cut short, and there is no cache.
abbrev short : Files
short = ("store", 1 ∷ 2 ∷ []) ∷ []

store_open-ReadOr_example :
    (s : StoreMeta) × (store_open disk short ≡ ok s)
    × ReadOr disk "cache" short disk.cache_from_slice cache_default s.cache
    × ReadOr disk "store" short disk.store_from_slice store_default s.store
store_open-ReadOr_example = store_open-ReadOr disk disk-Reports short refl refl

-- A confirmed and an unconfirmed transaction, each with a fee of 17.
abbrev listed_tx : ℕ → Transaction
listed_tx id = record received_tx { lock_time = id; output = fee_out ∷ [] }

abbrev history : StoreMeta
history = record store {
  cache = record store.cache {
    all_txs = (7, listed_tx 7) ∷ (8, listed_tx 8) ∷ [];
    heights = (7, some 100) ∷ (8, none) ∷ [];
  };
}

history-Distinct : Distinct history.cache.heights
unfolding get
history-Distinct = (refl, (refl, tt))

history-Height : (e : Entry) → In e history.cache.heights → Height e.1
history-Height e (inl same) = subst (λ (x : Entry). Height x.1) same (omega arith)
history-Height e (inr (inl same)) = subst (λ (x : Entry). Height x.1) same tt
history-Height e (inr (inr none_left)) = elim none_left [ ]

list_tx-Newest_example :
    (es : List Entry) × Newest history.cache.heights es
    × ((orders : Orders) (opt : GetTransactionsOpt)
        → list_tx wallet history orders opt
          ≡ traverse (tx_details wallet history) (take opt.count (drop opt.first es)))
list_tx-Newest_example = list_tx-Newest wallet history history-Distinct history-Height

abbrev page : ℕ → ℕ → GetTransactionsOpt
page first count = record { first = first; count = count; subaccount = 0; num_confs = none }

abbrev listed : ℕ → Option ℕ → Map ℕ ℤ → TransactionDetails
listed id height balances = record {
  transaction = listed_tx id;
  txid = id;
  balances = balances;
  fee = 17;
  height = height;
  spv_verified = in_progress;
}

first_page : list_tx wallet history orders (page 0 1) ≡ ok (listed 8 none [] ∷ [])
unfolding list_tx bewallet.Common.Sort.sort_by get bewallet.Transaction.Fee.fee
    bewallet.Amounts.sum_u64 bewallet.Word.add_u64 bewallet.Transaction.Balances.my_balance_changes
    bewallet.Model.details_new
first_page = refl

second_page :
    list_tx wallet history orders (page 1 1) ≡ ok (listed 7 (some 100) ((1, pos 1000) ∷ []) ∷ [])
unfolding list_tx bewallet.Common.Sort.sort_by get bewallet.Transaction.Fee.fee
    bewallet.Amounts.sum_u64 bewallet.Word.add_u64 bewallet.Transaction.Balances.my_balance_changes
    bewallet.Int.add_i64 bewallet.Int.as_i64 bewallet.Model.details_new bewallet.Map.insert
second_page = refl

-- A wallet without a server, and one whose server knows one estimate.
abbrev node : Outcome Client → ElectrumWallet
node built = record {
  swapper = swapper;
  derivation = derivation;
  crypto = crypto;
  txid_bytes = λ id. id ∷ [];
  block_hash = λ h. 0;
  build_client = λ url. built;
  serialize = λ tx. [];
  transaction_broadcast_raw = λ url bytes. ok tt;
  hash = λ texts. length texts;
}

abbrev offline : ElectrumWallet
offline = node (err (client_error "unreachable"))

abbrev chances : Chances
chances = record {
  rounds = 1;
  wallet_chains = 0 ∷ 1 ∷ [];
  flush = ok tt;
  heights = heights_in_order;
}

no_addressee :
    (synced offline chances (λ s. check_addressees wallet []) store).1 ≡ err empty_addressees
unfolding synced bewallet.Electrum.with_client check_addressees
no_addressee = refl

synced-error_example :
    ((update_fee_estimates offline store).1 ≢ err empty_addressees)
    × ((update_tip offline store).1 ≢ err empty_addressees)
    × ((update_spv offline chances store).1 ≢ err empty_addressees)
    × ((sync_store offline chances store).1 ≢ err empty_addressees)
    × ((synced offline chances (λ s. check_addressees wallet []) store).1 ≡ err empty_addressees
        → check_addressees wallet [] ≡ err empty_addressees)
synced-error_example =
    synced-error offline chances store (λ s. check_addressees wallet []) empty_addressees

abbrev answering : Client
answering = record client { relay_fee = ok 100000; batch_estimate_fee = λ blocks. ok (50000 ∷ []) }

update_fee_estimates-bounds_example :
    (s' : StoreMeta) × (update_fee_estimates (node (ok answering)) store ≡ (s', ok tt))
    × (length (fee_estimates s') ≡ 1 + 1)
    × All (λ e. 100 ≤ e) (fee_estimates s')
update_fee_estimates-bounds_example =
    update_fee_estimates-bounds (node (ok answering)) store answering 100000 (50000 ∷ []) refl refl
      refl
