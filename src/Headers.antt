-- ===== src/Headers.antt =====
-- src/headers.rs: the verifier of Liquid block headers and of transaction proofs. Hashes, keys,
-- signatures, the parser of scripts and the classes of opcodes are arguments.
pub mod Multisig
pub mod Challenge
pub mod Merkle
use bewallet.Common.{
  ℕ, ◌+◌, ◌-◌, ◌/◌, ◌%◌, ◌≤◌, zero, suc, Bool, true, false, ◌||◌, Option, none, some, List, [], ◌∷◌,
  ◌++◌, length, take, drop, is_empty, leb, if◌then◌else◌, nat_beq, bytes_beq, reverse, get_elem?,
}
use bewallet.Error.{invalid_headers}
use bewallet.Outcome.{Outcome, ok, err, ◌>>=◌, ◌>>◌, ok_or, unwrap, traverse}
use bewallet.Elements.{Script, Txid}
use bewallet.Store.{BlockHeader, BlockExtData, proof, dynafed}
use bewallet.Network.{Network, liquid, elements_regtest}

pub data Instruction : Type 0 where
  push_bytes : List ℕ → Instruction
  op : ℕ → Instruction

-- `Class` as far as the code asks for it.
pub data OpClass : Type 0 where
  push_num : ℕ → OpClass
  other : OpClass

pub record Crypto : Type 0 where
  pub block_hash : BlockHeader → List ℕ
  -- the instructions of a script, `none` for each that is not minimal or does not parse
  pub instructions_minimal : Script → List (Option Instruction)
  -- `classify`, with the number of `PushNum` cast to `u8`
  pub classify : ℕ → OpClass
  pub op_checkmultisig : ℕ
  pub public_key : List ℕ → Option ℕ
  pub signature : List ℕ → Option ℕ
  -- `secp.verify` on the message that is the hash
  pub verify : List ℕ → ℕ → ℕ → Bool
  pub sha256d : List ℕ → List ℕ
  pub liquid_challenge : Script
  pub liquid_genesis : List ℕ
  pub elements_regtest_genesis : List ℕ

pub record Verifier : Type 0 where
  pub challenge : Script
  pub genesis : List ℕ
  pub is_regtest : Bool

abbrev pub Stack : Type 0
Stack = List (List ℕ)

-- The top of the stack is the head of the list. `stack.pop()?[0]`: the index panics on an empty
-- element.
unfoldable pub pop_number : Stack → Outcome (ℕ × Stack)
pop_number [] = err invalid_headers
pop_number (x ∷ stack) = do n ← unwrap (get_elem? x 0); ok (n, stack)

-- `stack.drain(len - n..)`: the `n` elements on top, the lowest first.
unfoldable pub drain : ℕ → Stack → Outcome (List (List ℕ) × Stack)
drain n stack =
    if leb n (length stack) then ok (reverse (take n stack), drop n stack) else err invalid_headers

-- The two nested loops over the signatures and `pubkeys[pubkey_index..]`: how many signatures are
-- verified. The inner loop goes on from the key after the last one that it has tried.
module _ (verifies : ℕ → ℕ → Bool) where
  -- The keys that are left after the first that verifies the signature, or none.
  unfoldable pub inner_loop : ℕ → List ℕ → Bool × List ℕ
  inner_loop signature [] = (false, [])
  inner_loop signature (pubkey ∷ pubkeys) =
      let rest = inner_loop signature pubkeys in
      if verifies signature pubkey then (true, pubkeys) else rest

  unfoldable pub count_verified : List ℕ → List ℕ → ℕ
  unfolding inner_loop
  count_verified [] pubkeys = 0
  count_verified (signature ∷ signatures) pubkeys =
      let (found, rest) = inner_loop signature pubkeys in
      (if found then 1 else 0) + count_verified signatures rest

-- `if verified == required_sig { stack.pop()…; return Ok(()) }`, and the error at the end.
unfoldable pub enough_verified : ℕ → ℕ → Stack → Outcome Stack
enough_verified verified required_sig stack =
    if nat_beq verified required_sig
    then (elim stack [ [] ↦ err invalid_headers | x ∷ rest ↦ ok rest ])
    else err invalid_headers

module _ (c : Crypto) where
  unfoldable pub check_multisig : List ℕ → Stack → Outcome Stack
  unfolding pop_number drain count_verified enough_verified
  check_multisig hash stack = do
    (total_pubkeys, stack₁) ← pop_number stack
    (key_bytes, stack₂) ← drain total_pubkeys stack₁
    pubkeys ← traverse (λ el. ok_or (c.public_key el) invalid_headers) key_bytes
    (required_sig, stack₃) ← pop_number stack₂
    (sig_bytes, stack₄) ← drain required_sig stack₃
    signatures ← traverse (λ el. ok_or (c.signature el) invalid_headers) sig_bytes
    enough_verified (count_verified (c.verify hash) signatures pubkeys) required_sig stack₄

  unfoldable pub process_op : ℕ → List ℕ → Stack → Outcome Stack
  unfolding check_multisig
  process_op opcode hash stack = elim (c.classify opcode) [
    | push_num val ↦ ok ((val ∷ []) ∷ stack)
    | other ↦
        if nat_beq opcode c.op_checkmultisig then check_multisig hash stack else err invalid_headers
  ]

  unfoldable pub process_instr : Option Instruction → List ℕ → Stack → Outcome Stack
  unfolding process_op
  process_instr none hash stack = err invalid_headers
  process_instr (some (push_bytes bytes)) hash stack = ok (bytes ∷ stack)
  process_instr (some (op o)) hash stack = process_op o hash stack

  unfoldable pub process_all : List (Option Instruction) → List ℕ → Stack → Outcome Stack
  process_all [] hash stack = ok stack
  process_all (i ∷ instrs) hash stack = do
    stack' ← process_instr i hash stack
    process_all instrs hash stack'

  unfoldable pub verify_proof : Script → List ℕ → BlockExtData → Outcome (Unit {0})
  unfolding process_all
  verify_proof expected hash (proof challenge solution) =
      if bytes_beq challenge expected
      then (do
        stack ←
            process_all (c.instructions_minimal solution ++ c.instructions_minimal challenge) hash
              []
        if is_empty stack then ok tt else err invalid_headers)
      else err invalid_headers
  verify_proof expected hash dynafed = err invalid_headers

  unfoldable pub verify_header : Verifier → BlockHeader → Outcome (Unit {0})
  unfolding verify_proof
  verify_header v header =
      let hash = c.block_hash header in
      if bytes_beq hash v.genesis || v.is_regtest
      then ok tt
      else verify_proof v.challenge hash header.ext

  -- The hashes of the path come in the byte order of electrum, and are reversed.
  unfoldable pub merkle_loop : List (List ℕ) → ℕ → List ℕ → List ℕ
  merkle_loop [] pos current = current
  merkle_loop (hash ∷ merkle) pos current =
      let h = reverse hash in
      merkle_loop merkle (pos / 2)
        (c.sha256d (if nat_beq (pos % 2) 0 then current ++ h else h ++ current))

  unfoldable pub compute_merkle_root : List ℕ → List (List ℕ) → ℕ → List ℕ
  unfolding merkle_loop
  compute_merkle_root txid merkle pos = merkle_loop merkle pos txid

  unfoldable pub verify_tx_proof :
      Verifier → List ℕ → List (List ℕ) → ℕ → BlockHeader → Outcome (Unit {0})
  unfolding verify_header compute_merkle_root
  verify_tx_proof v txid merkle pos header = do
    verify_header v header
    if bytes_beq header.merkle_root (compute_merkle_root txid merkle pos)
        then ok tt
        else err invalid_headers

  unfoldable pub verifier_new : Network → Verifier
  verifier_new liquid = record {
    challenge = c.liquid_challenge;
    genesis = c.liquid_genesis;
    is_regtest = false;
  }
  verifier_new elements_regtest = record {
    challenge = c.liquid_challenge;
    genesis = c.elements_regtest_genesis;
    is_regtest = true;
  }
