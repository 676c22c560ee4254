-- ===== src/Word/Bytes.antt =====
-- The bytes of machine integers, and slices of byte arrays of a fixed length.
use bewallet.Common.{
  ℕ, zero, suc, ◌+◌, ◌*◌, ◌/◌, ◌%◌, ◌^◌, ◌<◌, ◌≡◌, refl, List, [], ◌∷◌, ◌++◌, arith, take, length,
  nat_beq, leb, if◌then◌else◌,
}
use bewallet.Outcome.{Outcome, ok, panic}

abbrev pub Bytes : Type 0
Bytes = List ℕ

-- `to_le_bytes` of an integer of `n` bytes.
unfoldable pub to_le_bytes : ℕ → ℕ → Bytes
to_le_bytes zero v = []
to_le_bytes (suc n) v = v % 256 ∷ to_le_bytes n (v / 256)

unfoldable pub from_le_bytes : Bytes → ℕ
from_le_bytes [] = 0
from_le_bytes (b ∷ bytes) = b + 256 * from_le_bytes bytes

-- `copy_from_slice` into an array of `n` bytes.
abbrev pub copy_from_slice : ℕ → Bytes → Outcome Bytes
copy_from_slice n bytes = if nat_beq (length bytes) n then ok bytes else panic

-- `bytes[..n]`
abbrev pub slice_to : ℕ → Bytes → Outcome Bytes
slice_to n bytes = if leb n (length bytes) then ok (take n bytes) else panic

pub from_le_bytes-to_le_bytes : (n v : ℕ) → v < 256 ^ n → from_le_bytes (to_le_bytes n v) ≡ v
unfolding from_le_bytes to_le_bytes
from_le_bytes-to_le_bytes zero v h = omega arith
from_le_bytes-to_le_bytes (suc n) v h =
    let ih = from_le_bytes-to_le_bytes n (v / 256) (omega arith) in rw ih (omega arith)

pub take-to_le_bytes : (n v : ℕ) (rest : Bytes) → take n (to_le_bytes n v ++ rest) ≡ to_le_bytes n v
unfolding to_le_bytes
take-to_le_bytes zero v [] = refl
take-to_le_bytes zero v (b ∷ rest) = refl
take-to_le_bytes (suc n) v rest = rw (take-to_le_bytes n (v / 256) rest) refl

pub length-to_le_bytes : (n v : ℕ) → length (to_le_bytes n v) ≡ n
unfolding to_le_bytes
length-to_le_bytes zero v = refl
length-to_le_bytes (suc n) v = rw (length-to_le_bytes n (v / 256)) refl
