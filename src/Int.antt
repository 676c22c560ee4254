-- ===== src/Int.antt =====
-- `i64`: the integers over the native numbers, and the arithmetic of both builds.
use bewallet.Common.{
  ℕ, suc, ◌+◌, ◌-◌, ◌^◌, ◌%◌, ◌≤◌, ◌<◌, ◌≡◌, arith, ltb, leb, if◌then◌else◌, ◌&&◌,
}
use bewallet.Outcome.{Outcome, ok, panic}
use bewallet.Word.{Build, debug, release}

-- `negsuc n` is -(n + 1).
pub data ℤ : Type 0 where
  pos : ℕ → ℤ
  negsuc : ℕ → ℤ

abbrev pub pos_part : ℤ → ℕ
pos_part (pos n) = n
pos_part (negsuc n) = 0

abbrev pub neg_part : ℤ → ℕ
neg_part (pos n) = 0
neg_part (negsuc n) = suc n

-- a - b, as an integer.
abbrev pub sub_ℕ : ℕ → ℕ → ℤ
sub_ℕ a b = if leb b a then pos (a - b) else negsuc (b - a - 1)

-- The integer whose low 64 bits are those of `a - b`, for `b` below 2 ^ 65.
wrap_i64 : ℕ → ℕ → ℤ
wrap_i64 a b =
    let w = (a + 2 ^ 65 - b) % 2 ^ 64 in if ltb w (2 ^ 63) then pos w else negsuc (2 ^ 64 - w - 1)

-- An operation whose true value is `a - b`.
pub in_i64 : Build → ℕ → ℕ → Outcome ℤ
unfolding wrap_i64
in_i64 debug a b = if ltb a (b + 2 ^ 63) && leb b (a + 2 ^ 63) then ok (sub_ℕ a b) else panic
in_i64 release a b = ok (wrap_i64 a b)

-- `u64 as i64`
unfoldable pub as_i64 : ℕ → ℤ
unfolding wrap_i64
as_i64 v = wrap_i64 v 0

unfoldable pub add_i64 : Build → ℤ → ℤ → Outcome ℤ
unfolding in_i64
add_i64 b x y = in_i64 b (pos_part x + pos_part y) (neg_part x + neg_part y)

unfoldable pub sub_i64 : Build → ℤ → ℤ → Outcome ℤ
unfolding in_i64
sub_i64 b x y = in_i64 b (pos_part x + neg_part y) (neg_part x + pos_part y)

-- `i64::abs`, which overflows at the least `i64` only.
unfoldable pub abs_i64 : Build → ℤ → Outcome ℤ
unfolding in_i64
abs_i64 b (pos n) = ok (pos n)
abs_i64 b (negsuc n) = in_i64 b (suc n) 0

pub as_i64_fits : (v : ℕ) → v < 2 ^ 63 → as_i64 v ≡ pos v
unfolding as_i64
as_i64_fits v h = ground arith

-- In range, both builds compute the true value.
pub in_i64_fits :
    (b : Build) (x y : ℕ)
    → x < y + 2 ^ 63
    → y ≤ x + 2 ^ 63
    → y < 2 ^ 65
    → in_i64 b x y ≡ ok (sub_ℕ x y)
unfolding in_i64
in_i64_fits debug x y h k l = ground arith
in_i64_fits release x y h k l = ground arith
