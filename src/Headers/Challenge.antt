-- ===== src/Headers/Challenge.antt =====
-- src/headers.rs: what an accepted header carries.
use bewallet.Common.{ℕ, ◌≡◌, Option, some, List, [], ◌∷◌, ◌++◌, map, length}
use bewallet.Error.{Error, invalid_headers}
use bewallet.Outcome.{Outcome, ok, traverse, ok_or}
use bewallet.Headers.{Crypto, Instruction, push_bytes, op, push_num, other}
use bewallet.Headers.Multisig.{Matched}

abbrev pub pushes : List (List ℕ) → List (Option Instruction)
pushes = map (λ k. some (push_bytes k))

module _ (c : Crypto) (hash : List ℕ) (keys : List (List ℕ)) where
  -- `m` signatures, each verified by a key of its own, in the order of the keys.
  pub record Signed (m : ℕ) : Type 0 where
    pub pubkeys : List ℕ
    pub parsed : traverse (λ el. ok_or (c.public_key el) invalid_headers) keys ≡ ok pubkeys
    pub signatures : List ℕ
    pub enough : length signatures ≡ m
    pub matched : Matched (c.verify hash) signatures pubkeys

  -- A script of the form that the challenge has: `m`, the keys, their number, OP_CHECKMULTISIG.
  pub record IsMultisig (m : ℕ) (instrs : List (Option Instruction)) : Type 0 where
    pub first : ℕ
    pub second : ℕ
    pub third : ℕ
    pub form : instrs ≡ some (op first) ∷ (pushes keys ++ some (op second) ∷ some (op third) ∷ [])
    pub pushes_required : c.classify first ≡ push_num m
    pub pushes_total : c.classify second ≡ push_num (length keys)
    pub checks : (c.classify third ≡ other) × (third ≡ c.op_checkmultisig)
