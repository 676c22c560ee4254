-- ===== src/Wallet/Mnemonic.antt =====
-- src/interface.rs: from the words to the key that signs. The wordlist and the derivation of keys
-- are arguments.
use bewallet.Common.{ℕ, String}
use bewallet.Outcome.{Outcome, ok, ◌>>=◌}
use bewallet.Word.Bytes.{Bytes}
use bewallet.Network.{Network, liquid, elements_regtest, Config}
use bewallet.Elements.{Transaction}
use bewallet.Store.{StoreMeta}
use bewallet.Wallet.Sign.{Signer, sign_with_xprv}

pub record Bip39 : Type 0 where
  -- `Mnemonic::parse_in` English, and `to_seed` with a passphrase
  pub parse_in : String → Outcome ℕ
  pub to_seed : ℕ → String → Bytes
  -- `ExtendedPrivKey::new_master` for the test network
  pub new_master : Bytes → Outcome ℕ
  -- `DerivationPath::from_str` of the text "m/49'/{}'/0'" with a coin type, and `derive_priv`
  pub account_path : ℕ → Outcome ℕ
  pub derive_priv : ℕ → ℕ → Outcome ℕ
  -- what signing does with an extended key
  pub signer : ℕ → Signer

unfoldable pub mnemonic2seed : Bip39 → String → Outcome Bytes
mnemonic2seed b mnemonic = do words ← b.parse_in mnemonic; ok (b.to_seed words "")

abbrev pub coin_type : Network → ℕ
coin_type liquid = 1776
coin_type elements_regtest = 1

unfoldable pub mnemonic2xprv : Bip39 → String → Config → Outcome ℕ
unfolding mnemonic2seed
mnemonic2xprv b mnemonic config = do
  seed ← mnemonic2seed b mnemonic
  xprv ← b.new_master seed
  path ← b.account_path (coin_type config.network)
  b.derive_priv xprv path

unfoldable pub sign_with_mnemonic :
    Bip39 → Config → StoreMeta → Transaction → String → Outcome Transaction
unfolding mnemonic2xprv sign_with_xprv
sign_with_mnemonic b config s tx mnemonic = do
  xprv ← mnemonic2xprv b mnemonic config
  sign_with_xprv (b.signer xprv) s tx
