-- ===== src/Spv.antt =====
-- src/lib.rs: the tip, the fee estimates, and the proofs of the transactions.
pub mod Verified
use bewallet.Common.{
  ℕ, zero, suc, ◌+◌, ◌%◌, Bool, true, false, Option, none, some, List, [], ◌∷◌, map, length, max,
  if◌then◌else◌, nat_eq, nat_beq,
}
use bewallet.Outcome.{Outcome, ok, err, panic, hang, ◌>>=◌, traverse}
use bewallet.Word.{u32_mod}
use bewallet.Map.{Map, get, insert, extend, IterationOf}
use bewallet.Elements.{Env, Txid, F64}
use bewallet.Model.{SpvVerifyResult, verified, not_verified}
use bewallet.Store.{StoreMeta, BlockHeader}
use bewallet.Headers.{Crypto, Verifier, verify_tx_proof}
use bewallet.Sync.Client.{Client, GetMerkleRes}

-- The estimates for 1 to 24 blocks, none below the relay fee, and the relay fee before them.
unfoldable pub try_get_fee_estimates : Env → Client → Outcome (List ℕ)
try_get_fee_estimates env client = do
  relay ← client.relay_fee
  let relay_fee = env.f64_to_u64 (env.f64_mul relay (env.f64 "100_000_000.0"))
  estimates ← client.batch_estimate_fee (
      1 ∷ 2 ∷ 3 ∷ 4 ∷ 5 ∷ 6 ∷ 7 ∷ 8 ∷ 9 ∷ 10 ∷ 11 ∷ 12 ∷ 13 ∷ 14 ∷ 15 ∷ 16 ∷ 17 ∷ 18 ∷ 19 ∷ 20 ∷ 21
      ∷ 22 ∷ 23 ∷ 24 ∷ [])
  ok (
      relay_fee
      ∷ map (λ e. max relay_fee (env.f64_to_u64 (env.f64_mul e (env.f64 "100_000_000.0"))))
          estimates)

-- The hash of the header is read as a number.
unfoldable pub tip : (BlockHeader → ℕ) → Client → StoreMeta → Outcome (StoreMeta × ℕ)
tip block_hash client s = do
  (raw_height, raw) ← client.block_headers_subscribe_raw
  let height = raw_height % u32_mod
  let update = (do
    header ← client.deserialize_header raw
    ok (record s { cache = record s.cache { tip = (height, block_hash header) } }, height))
  if nat_beq height s.cache.tip.0 then ok (s, height) else update

-- `Result::is_ok`
unfoldable pub is_ok : {A : Type 0} → Outcome A → Outcome Bool
is_ok (ok a) = ok true
is_ok (err e) = ok false
is_ok panic = panic
is_ok hang = hang

-- The confirmed transactions without a result.
unfoldable pub needs_proof : Map Txid SpvVerifyResult → List (Txid × Option ℕ) → List (Txid × ℕ)
needs_proof verif [] = []
needs_proof verif ((id, none) ∷ hs) = needs_proof verif hs
needs_proof verif ((id, some h) ∷ hs) =
    let rest = needs_proof verif hs in elim (get id verif) [ none ↦ (id, h) ∷ rest | some _ ↦ rest ]

module _ (c : Crypto) (v : Verifier) (txid_bytes : Txid → List ℕ) (client : Client)
    (s : StoreMeta) where
  unfoldable pub is_verified : Txid → ℕ → GetMerkleRes → Outcome Bool
  unfolding is_ok
  is_verified txid height proof = elim (get height s.cache.headers) [
    | none ↦ ok false
    | some header ↦ is_ok (verify_tx_proof c v (txid_bytes txid) proof.merkle proof.pos header)
  ]

  unfoldable pub prove_loop :
      List (Txid × ℕ) → Map Txid SpvVerifyResult → Outcome (Map Txid SpvVerifyResult)
  unfolding is_verified
  prove_loop [] txs_verified = ok txs_verified
  prove_loop ((txid, height) ∷ rest) txs_verified = do
    proof ← client.transaction_get_merkle txid height
    is ← is_verified txid height proof
    prove_loop rest (insert txid (if is then verified else not_verified) txs_verified)

  unfoldable pub get_proofs : IterationOf Txid (Option ℕ) → Outcome (StoreMeta × ℕ)
  unfolding needs_proof prove_loop
  get_proofs heights = do
    txs_verified ← prove_loop (needs_proof s.cache.txs_verif (heights.order s.cache.heights)) []
    ok (
      record s { cache = record s.cache { txs_verif = extend s.cache.txs_verif txs_verified } },
      length txs_verified,
    )
