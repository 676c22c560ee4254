-- ===== src/Tests.antt =====
-- The theorems at concrete inputs.
mod World
mod Transactions
mod Wallets
mod Servers
mod Swaps
mod Crates
mod Exchange
mod Blinding
mod Stores
