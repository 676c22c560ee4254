-- ===== src/Wallet/Context.antt =====
-- src/interface.rs: what the operations of the wallet share, and its addresses. The derivation of
-- keys and the crate's addresses are arguments.
use bewallet.Common.{ℕ, Option, some, List, String, nat_eq}
use bewallet.Outcome.{Outcome, ok, ◌>>=◌}
use bewallet.Word.{add_u32}
use bewallet.Map.{Iteration, IterationOf}
use bewallet.Elements.{Env, Script, Txid, Address, TxIn, TxOut}
use bewallet.Network.{Network, liquid, elements_regtest, Config}
use bewallet.Store.{StoreMeta}

pub record Keys : Type 0 where
  -- `derive_pub` at m / chain / index, a public key
  pub derive_pub : ℕ → ℕ → Outcome ℕ
  pub p2shwpkh_script : ℕ → Script
  pub derive_blinding_key : Script → ℕ
  pub from_secret_key : ℕ → ℕ
  pub p2shwpkh : ℕ → Option ℕ → ℕ → Address
  pub params_liquid : ℕ
  pub params_elements : ℕ

-- The orders in which the maps of a call are iterated, and the results of the shuffles. Each round
-- of the loop that adds inputs has its own order.
pub record Orders : Type 0 where
  pub rounds : ℕ → Iteration
  pub inputs : Iteration
  pub changes : Iteration
  pub heights : IterationOf Txid (Option ℕ)
  pub shuffle_in : List TxIn → List TxIn
  pub shuffle_out : List TxOut → List TxOut

pub record WalletCtx : Type 0 where
  pub env : Env
  pub config : Config
  pub keys : Keys
  -- the text of a transaction id
  pub txid_text : Txid → String

unfoldable pub address_params : WalletCtx → ℕ
address_params w = params w.config.network
  where
    params : Network → ℕ
    params liquid = w.keys.params_liquid
    params elements_regtest = w.keys.params_elements

unfoldable pub derive_address : WalletCtx → ℕ → ℕ → Outcome Address
unfolding address_params
derive_address w chain index = do
  derived ← w.keys.derive_pub chain index
  let script = w.keys.p2shwpkh_script derived
  let blinding_key = w.keys.derive_blinding_key script
  let public_key = w.keys.from_secret_key blinding_key
  ok (w.keys.p2shwpkh derived (some public_key) (address_params w))

-- The index is stored before the address is derived.
unfoldable pub get_address : WalletCtx → StoreMeta → Outcome (StoreMeta × Outcome Address)
unfolding derive_address
get_address w s = do
  pointer ← add_u32 w.env.build s.cache.indexes.external 1
  let indexes = record s.cache.indexes { external = pointer }
  ok (record s { cache = record s.cache { indexes = indexes } }, derive_address w 0 pointer)
