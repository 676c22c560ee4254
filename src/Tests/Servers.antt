-- ===== src/Tests/Servers.antt =====
-- src/lib.rs, src/headers.rs and src/store.rs, at a server that knows one transaction.
use bewallet.Common.{
  ℕ, ◌+◌, ◌-◌, ◌*◌, ◌≡◌, ◌≢◌, ◌↔◌, ◌⊎◌, ◌∙◌, refl, sym, ap, Bool, true, Option, none, some, List,
  [], ◌∷◌, length, arith, nat_eq, nat_beq, if◌then◌else◌, map,
}
use bewallet.Outcome.{Outcome, ok, hang, traverse}
use bewallet.Map.{get, Distinct, contains, set_insert, extend}
use bewallet.Elements.{Transaction, Script, outpoint_eq}
use bewallet.Model.{SpvVerifyResult, verified}
use bewallet.Store.{StoreMeta, BlockHeader, proof, dynafed, Derivation, spent, get_script_batch}
use bewallet.Store.Sets.{spent_by, contains-spent}
use bewallet.Store.Batch.{indexed, all_cached, get_script_batch-indexed}
use bewallet.Headers.{
  Crypto, Verifier, Instruction, push_bytes, op, OpClass, push_num, other, verify_tx_proof,
  count_verified,
}
use bewallet.Headers.Multisig.{Matched, count_verified-Matched}
use bewallet.Headers.Merkle.{Collision, verify_tx_proof_unique}
use bewallet.Sync.{sync}
use bewallet.Sync.Client.{Client, GetHistoryRes}
use bewallet.Sync.Scan.{scan_chain, scanned_default}
use bewallet.Sync.Stored.{IsWellFormed, IsHonest, sync-IsWellFormed}
use bewallet.Sync.Stops.{IsQuiet, scan_chain-ne-hang}
use bewallet.Spv.{get_proofs}
use bewallet.Spv.Verified.{Checked, get_proofs-Checked}
use bewallet.Tests.World.{env, received_tx, heights_in_order, point}
use bewallet.Tests.Wallets.{store}

-- A script of one byte: its index for the chain 0, and 100 more for the chain 1.
abbrev pub script_of : ℕ → ℕ → Script
script_of chain j = (j + 100 * chain) ∷ []

abbrev pub derivation : Derivation
derivation = record {
  path_from_str = λ chain j. ok (record { chain = chain; index = j });
  derive_script = λ chain j. ok (script_of chain j);
}

-- Raw transactions are their ids.
abbrev pub raw_of : List ℕ → List (List ℕ)
raw_of [] = []
raw_of (id ∷ ids) = (id ∷ []) ∷ raw_of ids

abbrev pub first : List ℕ → ℕ
first [] = 0
first (x ∷ xs) = x

abbrev pub client : Client
client = record {
  batch_script_get_history = λ scripts. ok [];
  batch_transaction_get_raw = λ ids. ok (raw_of ids);
  batch_block_header_raw = λ heights. ok [];
  block_headers_subscribe_raw = ok (100, []);
  transaction_get_merkle = λ id height. ok (record { merkle = []; pos = 0 });
  relay_fee = ok 1;
  batch_estimate_fee = λ blocks. ok [];
  deserialize_tx = λ raw. ok (record received_tx { lock_time = first raw });
  deserialize_header = λ raw. ok (record { height = 0; merkle_root = []; ext = dynafed });
  set_order = λ l. l;
  unblind = λ o. Outcome.panic;
  liquidex_unblind = λ tx vout assets. Outcome.panic;
}

honest : IsHonest env client
honest = record {
  answers = λ ids raw txs asked parsed. same ids raw txs asked parsed;
  iterates = λ x xs. refl;
}
  where
    parsed_of : List ℕ → List Transaction
    parsed_of [] = []
    parsed_of (id ∷ ids) = record received_tx { lock_time = id } ∷ parsed_of ids

    parses : (ids : List ℕ) → traverse client.deserialize_tx (raw_of ids) ≡ ok (parsed_of ids)
    parses [] = refl
    parses (id ∷ ids) = rw (parses ids) refl

    ids_of : (ids : List ℕ) → map env.txid (parsed_of ids) ≡ ids
    ids_of [] = refl
    ids_of (id ∷ ids) = ap (λ l. id ∷ l) (ids_of ids)

    ok_inj : {A : Type 0} {a b : A} → ok a ≡ ok b → a ≡ b
    ok_inj e = cc

    same :
        (ids : List ℕ) (raw : List (List ℕ)) (txs : List Transaction)
        → ok (raw_of ids) ≡ ok raw
        → traverse client.deserialize_tx raw ≡ ok txs
        → map env.txid txs ≡ ids
    same ids raw txs asked parsed =
        let is : raw_of ids ≡ raw = ok_inj asked in
        let p : traverse client.deserialize_tx (raw_of ids) ≡ ok txs = rw (← is) at parsed in
        ap (map env.txid) (sym (ok_inj (sym (parses ids) ∙ p))) ∙ ids_of ids

well_formed : IsWellFormed store
unfolding get
well_formed = record { distinct = (refl, tt); stored = λ id h. ground arith }

sync-IsWellFormed_example : IsWellFormed (sync env derivation client 5 (0 ∷ 1 ∷ []) (ok tt) store).0
sync-IsWellFormed_example =
    sync-IsWellFormed env client honest store derivation 5 (0 ∷ 1 ∷ []) (ok tt) well_formed

quiet : IsQuiet env derivation client store 0 0
unfolding bewallet.Sync.Scan.flatten
quiet = record {
  derivation_ends = record { paths = λ chain j q. cc; scripts = λ chain j q. cc };
  histories_end = λ scripts q. cc;
  no_history = λ batch result got history. nothing result history;
}
  where
    nothing :
        (result : List (List GetHistoryRes))
        → ok [] ≡ ok result
        → bewallet.Sync.Scan.flatten result ≡ []
    nothing [] h = refl
    nothing (r ∷ rs) h = absurd cc

scan_chain-ne-hang_example : scan_chain env derivation client store 1 0 0 scanned_default ≢ hang
scan_chain-ne-hang_example =
    scan_chain-ne-hang env derivation client store 0 0 quiet 1 0 scanned_default (omega arith)
      (omega arith) (omega arith)

get_script_batch-indexed_example :
    get_script_batch env derivation store 1 2
    ≡ ok (record {
      cached = all_cached store.cache 20 1 (2 * 20);
      value = indexed script_of 20 1 (2 * 20);
    })
unfolding get
get_script_batch-indexed_example =
    get_script_batch-indexed derivation script_of store.cache 1 100 (λ j h. refl) (λ j h. refl)
      (λ j script h. none_cached h) env store 2 refl (omega arith) (omega arith) (omega arith)
  where
    none_cached : {p q : Script} → none ≡ some p → p ≡ q
    none_cached h = absurd cc

contains-spent_example : contains (point 0) (spent store) ≡ spent_by (point 0) store.cache.all_txs
contains-spent_example = contains-spent store (point 0)

abbrev pub class : ℕ → OpClass
class o = if nat_beq o 81 then push_num 1 else other

abbrev pub instructions : Script → List (Option Instruction)
instructions [] = none ∷ []
instructions (x ∷ _) =
    if nat_beq x 2
    then some (op 81) ∷ some (push_bytes (8 ∷ [])) ∷ some (op 81) ∷ some (op 174) ∷ []
    else some (push_bytes []) ∷ some (push_bytes (6 ∷ [])) ∷ []

-- A challenge of one key and one signature. The opcode 81 pushes 1; 174 is OP_CHECKMULTISIG.
abbrev pub crypto : Crypto
crypto = record {
  block_hash = λ h. 1 ∷ [];
  instructions_minimal = instructions;
  classify = class;
  op_checkmultisig = 174;
  public_key = λ bytes. some 5;
  signature = λ bytes. some 6;
  verify = λ hash signature key. nat_beq (signature - key) 1;
  sha256d = λ bytes. 7 ∷ [];
  liquid_challenge = 2 ∷ [];
  liquid_genesis = 0 ∷ [];
  elements_regtest_genesis = 3 ∷ [];
}

abbrev verifier : Bool → Verifier
verifier regtest = record { challenge = 2 ∷ []; genesis = 0 ∷ []; is_regtest = regtest }

abbrev signed_header : BlockHeader
signed_header = record { height = 100; merkle_root = 7 ∷ []; ext = proof (2 ∷ []) (4 ∷ []) }

count_verified-Matched_example :
    (count_verified (λ s k. nat_beq s k) (2 ∷ 4 ∷ []) (1 ∷ 2 ∷ 3 ∷ 4 ∷ [])
      ≡ length {A = ℕ} (2 ∷ 4 ∷ []))
    ↔ Matched (λ s k. nat_beq s k) (2 ∷ 4 ∷ []) (1 ∷ 2 ∷ 3 ∷ 4 ∷ [])
count_verified-Matched_example =
    count_verified-Matched (λ s k. nat_beq s k) (2 ∷ 4 ∷ []) (1 ∷ 2 ∷ 3 ∷ 4 ∷ [])

-- The same leaf next to two siblings: the hash of this world makes them collide or be the same.
proved :
    (sibling : List ℕ)
    → verify_tx_proof crypto (verifier true) (9 ∷ []) (sibling ∷ []) 0 signed_header ≡ ok tt
unfolding verify_tx_proof
proved sibling = refl

verify_tx_proof_unique_example : ◌≡◌ {A = List ℕ} (9 ∷ []) (9 ∷ []) ⊎ Collision crypto.sha256d
verify_tx_proof_unique_example =
    verify_tx_proof_unique crypto 1 (λ x. refl) (verifier true) signed_header 0 ((4 ∷ []) ∷ [])
      ((5 ∷ []) ∷ []) (9 ∷ []) (9 ∷ []) refl (refl, tt) (refl, tt) refl refl (proved (4 ∷ []))
      (proved (5 ∷ []))

-- The transaction 7 is confirmed at 100, and its proof has no siblings.
abbrev synced : StoreMeta
synced = record store { cache = record store.cache { headers = (100, signed_header) ∷ [] } }

abbrev proved_store : StoreMeta
proved_store = record synced { cache = record synced.cache { txs_verif = (7, verified) ∷ [] } }

synced_heights : Distinct synced.cache.heights
unfolding get
synced_heights = (refl, tt)

proofs_got :
    get_proofs crypto (verifier true) (λ id. id ∷ []) client synced heights_in_order
    ≡ ok (proved_store, 1)
unfolding get_proofs get verify_tx_proof extend bewallet.Map.insert
proofs_got = refl

get_proofs-Checked_example :
    ((r : SpvVerifyResult)
      → get 7 synced.cache.txs_verif ≡ some r
      → get 7 proved_store.cache.txs_verif ≡ some r)
    × (get 7 proved_store.cache.txs_verif ≡ some verified
        → (get 7 synced.cache.txs_verif ≡ some verified)
          ⊎ ((h : ℕ) × (get 7 synced.cache.heights ≡ some (some h))
              × Checked crypto (verifier true) (λ id. id ∷ []) client synced 7 h))
get_proofs-Checked_example =
    get_proofs-Checked crypto (verifier true) (λ id. id ∷ []) client synced heights_in_order
      synced_heights proofs_got 7
