-- ===== src/Wallet.antt =====
-- src/interface.rs: the wallet: its coins, its history, and the transactions that it makes.
pub mod Funding
pub mod Coins
pub mod Context
pub mod History
pub mod Create
pub mod Sign
pub mod Mnemonic
pub mod Open
pub mod Swap
