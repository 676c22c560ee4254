-- ===== src/Wallet/Open.antt =====
-- src/interface.rs, src/lib.rs: a wallet is opened from its words. The keys and the hash of the
-- wallet's id are arguments; so are the files of each folder.
pub mod Reopened
use bewallet.Common.{ℕ, Bool, true, String, string_eq, ◌==◌, if◌then◌else◌}
use bewallet.Outcome.{Outcome, ok, ◌>>=◌, ◌>>◌}
use bewallet.Word.Bytes.{Bytes}
use bewallet.Elements.{Env}
use bewallet.Network.{Config, new_regtest, new_mainnet}
use bewallet.Store.{StoreMeta}
use bewallet.Store.Files.{Files, Disk, store_open}
use bewallet.Wallet.Mnemonic.{Bip39, mnemonic2seed, mnemonic2xprv}

pub record Opener : Type 0 where
  pub bip39 : Bip39
  -- `ExtendedPubKey::from_private` and `MasterBlindingKey::new`
  pub from_private : ℕ → ℕ
  pub master_blinding_key : Bytes → Bytes
  -- the text of a public key and a configuration, and the SHA-256 of a text in hex
  pub wallet_desc : ℕ → Config → String
  pub sha256_hex : String → String
  -- `PathBuf::push`, and the folder made where it does not exist
  pub push : String → String → String
  pub create_dir_all : String → Outcome (Unit {0})
  -- the folder at a path, under the key of the store that a public key gives
  pub disk : String → ℕ → Disk

-- `WalletCtx`, with the path of its store.
pub record Opened : Type 0 where
  pub store : StoreMeta
  pub config : Config
  pub xpub : ℕ
  pub master_blinding : Bytes
  pub change_max_deriv : ℕ
  pub path : String

abbrev pub Folders : Type 0
Folders = String → Files

-- The files of one folder change.
abbrev pub set_folder : Folders → String → Files → Folders
set_folder folders path files p = if p == path then files else folders p

module _ (o : Opener) (folders : Folders) where
  unfoldable pub from_mnemonic : String → String → Config → Outcome Opened
  unfolding mnemonic2xprv mnemonic2seed store_open
  from_mnemonic mnemonic data_root config = do
    xprv ← mnemonic2xprv o.bip39 mnemonic config
    let xpub = o.from_private xprv
    let wallet_id = o.sha256_hex (o.wallet_desc xpub config)
    seed ← mnemonic2seed o.bip39 mnemonic
    o.create_dir_all data_root
    let path = o.push data_root wallet_id
    store ← store_open (o.disk path xpub) (folders path)
    ok (record {
      store = store;
      config = config;
      xpub = xpub;
      master_blinding = o.master_blinding_key seed;
      change_max_deriv = 0;
      path = path;
    })

  unfoldable pub wallet_new_regtest :
      Env
      → (policy_asset url : String) (is_tls validate_domain spv_enabled : Bool)
      → (data_root mnemonic : String) → Outcome Opened
  unfolding from_mnemonic
  wallet_new_regtest env policy_asset url is_tls validate_domain spv_enabled data_root mnemonic = do
    config ← new_regtest env is_tls validate_domain spv_enabled url policy_asset
    from_mnemonic mnemonic data_root config

  unfoldable pub wallet_new_mainnet :
      Env
      → (url : String) (is_tls validate_domain spv_enabled : Bool) → (data_root mnemonic : String)
      → Outcome Opened
  unfolding from_mnemonic
  wallet_new_mainnet env url is_tls validate_domain spv_enabled data_root mnemonic = do
    config ← new_mainnet env is_tls validate_domain spv_enabled url
    from_mnemonic mnemonic data_root config
