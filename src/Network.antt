-- ===== src/Network.antt =====
-- src/network.rs: the configuration of the wallet.
use Prim.Native.String.{◌++◌}
use bewallet.Common.{String, Bool, true, false, Option, none, some}
use bewallet.Outcome.{Outcome, ok, ◌>>=◌}
use bewallet.Elements.{Env, AssetId}

pub data Network : Type 0 where
  liquid elements_regtest : Network

-- `Tls` says whether the name of the domain is checked.
pub data ElectrumUrl : Type 0 where
  tls : String → Bool → ElectrumUrl
  plaintext : String → ElectrumUrl

pub record Config : Type 0 where
  pub network : Network
  pub policy_asset : AssetId
  pub electrum_url : ElectrumUrl
  pub spv_enabled : Bool

abbrev pub liquid_policy_asset_str : String
liquid_policy_asset_str = "6f0279e9ed041c3d710a9f57d0c02928416460c4b722ae3457a11eec381c526d"

pub electrum_url : Bool → Bool → String → ElectrumUrl
electrum_url true validate_domain url = tls url validate_domain
electrum_url false validate_domain url = plaintext url

pub new_regtest : Env → Bool → Bool → Bool → String → String → Outcome Config
unfolding electrum_url
new_regtest env is_tls validate_domain spv_enabled url policy_asset = do
  policy ← env.from_hex policy_asset
  ok (record {
    network = elements_regtest;
    policy_asset = policy;
    electrum_url = electrum_url is_tls validate_domain url;
    spv_enabled = spv_enabled;
  })

pub new_mainnet : Env → Bool → Bool → Bool → String → Outcome Config
unfolding electrum_url
new_mainnet env is_tls validate_domain spv_enabled url = do
  policy ← env.from_hex liquid_policy_asset_str
  ok (record {
    network = liquid;
    policy_asset = policy;
    electrum_url = electrum_url is_tls validate_domain url;
    spv_enabled = spv_enabled;
  })

-- The address of the server, and whether the name of its domain is checked, where that is set.
abbrev pub client_config : ElectrumUrl → String × Option Bool
client_config (tls url validate) = ("ssl://" ++ url, some validate)
client_config (plaintext url) = ("tcp://" ++ url, none)

-- `Client::from_config` is an argument.
abbrev pub build_client {ℓ} :
    {Client : Type ℓ} → (String → Option Bool → Outcome Client) → ElectrumUrl → Outcome Client
build_client from_config url =
    let (address, validate) = client_config url in from_config address validate
