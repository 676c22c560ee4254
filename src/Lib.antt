-- ===== src/Lib.antt =====
-- BEWallet is a Liquid wallet: it derives its scripts from a mnemonic, asks an Electrum server for their
-- history, keeps transactions and their unblinded outputs in a store, makes, signs and broadcasts
-- transactions, and swaps assets with other wallets (LiquiDEX).
--
-- The parts, and the files that model them:
--
-- Transaction (src/transaction.rs): what a transaction lacks (`needs`), what goes back (`changes`), its
-- fee (`fee`, `estimated_fee`) and what it changes in the balances. The loops that add up by asset are
-- in Amounts, the hash maps in Map.
-- Wallet (src/interface.rs): Wallet/Context has the wallet's keys and addresses, Wallet/Coins `utxos` and
-- `balance`, Wallet/History `list_tx`, Wallet/Create `create_tx`, Wallet/Funding the loop of it that adds
-- inputs, Wallet/Open `from_mnemonic`, Wallet/Mnemonic `mnemonic2xprv` and `sign_with_mnemonic`,
-- Wallet/Sign `sign_with_xprv` and `blind_tx`. Wallet/Swap has `liquidex_make` and `liquidex_take`, its
-- children `liquidex_take_blind` (TakeBlind) and the range and surjection proofs of it (Proofs).
-- Store (src/store.rs): the cache, the batches of scripts, the spent outpoints, the LiquiDEX assets.
-- Store/Files has the two encrypted files: opening, flushing, the export of the cache. Creating a file
-- cuts it to nothing; each of the two writes that follow may fail, or write less than it was given.
-- Headers (src/headers.rs): the verifier of block headers and merkle proofs.
-- Sync (src/lib.rs): `Syncer::sync`; Sync/Scan has its loop over the batches of scripts, Sync/Download
-- the downloads. Spv has the tip, the fee estimates and `Headers::get_proofs`.
-- Electrum (src/lib.rs): `ElectrumWallet`, which runs these on the store before it asks the wallet.
-- Liquidex (src/liquidex.rs): swap proposals, and the taker's `liquidex_needs`, `liquidex_changes` and
-- `liquidex_fee`. Liquidex/Blind has `liquidex_blind` and `liquidex_unblind`, Blinders the derivation of
-- blinders (src/utils.rs).
-- Model, Error, Network (src/model.rs, src/error.rs, src/network.rs): the values of the interface.
-- Common, Outcome, Word, Int: shared names, the ways in which a call ends, machine integers and bytes.
-- Tests: the theorems at concrete inputs.
--
-- State: the locks around the store are left out, and an operation takes the store and returns the new
-- one, also where its result is an error. A call ends in a value, an `Err` or a panic (Outcome). The
-- arithmetic of `u64`, `u32` and `i64` depends on the build: an overflow panics in a debug build and
-- wraps round in a release build, and the build is a field of Env. A `HashMap` is an association list,
-- and code that iterates one takes an order of iteration of which nothing is known but that each entry
-- is visited once. What other crates compute (hashes, keys, signatures, commitments, proofs, ciphers,
-- weights, `f64`, the encodings, the wordlist, the Electrum client, the file system) is a field of Env,
-- Crypto, Keys, Signer, Derivation, Client, Zkp, Mac, Cipher, Prover, Bip39, Disk, Opener, Swapper
-- or ElectrumWallet. Random bytes and nonces are arguments.
--
-- Bounds: the loop that adds inputs takes one round more than there are coins, as each round uses a coin
-- that was not used. The loop over the batches of a chain takes the rounds that it is given, and ends
-- once a batch has no history. The loop of `liquidex_blind`, which draws random bytes until it meets a
-- public key, takes the rounds that it is given, and ends at the first round that draws one.
--
-- Not modelled: logging; the locks; the scripts of src/scripts.rs, which are calls of the builders of
-- the crates; the mathematics of curves, ciphers and proofs.
pub mod Common
pub mod Error
pub mod Outcome
pub mod Word
pub mod Map
pub mod Electrum
pub mod Elements
pub mod Amounts
pub mod Blinders
pub mod Transaction
pub mod Int
pub mod Model
pub mod Wallet
pub mod Store
pub mod Network
pub mod Headers
pub mod Sync
pub mod Spv
pub mod Liquidex
pub mod Tests
