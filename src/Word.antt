-- ===== src/Word.antt =====
-- Unsigned machine arithmetic. Cargo.toml leaves `overflow-checks` at its default, so an overflow
-- panics in a debug build and wraps round in a release build: the build is an argument.
pub mod Bytes
use bewallet.Common.{
  ℕ, ◌+◌, ◌-◌, ◌*◌, ◌%◌, ◌^◌, ◌≤◌, ◌<◌, ◌≡◌, ◌≢◌, Option, none, some, arith, ltb, leb,
  if◌then◌else◌,
}
use bewallet.Outcome.{Outcome, ok, panic, hang}

pub data Build : Type 0 where
  debug release : Build

abbrev pub u64_mod : ℕ
u64_mod = 2 ^ 64

abbrev pub u32_mod : ℕ
u32_mod = 2 ^ 32

-- The result of an operation whose true value is `n`, on a type of `w` values.
wrap : Build → ℕ → ℕ → Outcome ℕ
wrap debug w n = if ltb n w then ok n else panic
wrap release w n = ok (n % w)

unfoldable pub add_u64 : Build → ℕ → ℕ → Outcome ℕ
unfolding wrap
add_u64 b x y = wrap b u64_mod (x + y)

unfoldable pub sub_u64 : Build → ℕ → ℕ → Outcome ℕ
sub_u64 debug x y = if leb y x then ok (x - y) else panic
sub_u64 release x y = ok ((x + u64_mod - y) % u64_mod)

unfoldable pub add_u32 : Build → ℕ → ℕ → Outcome ℕ
unfolding wrap
add_u32 b x y = wrap b u32_mod (x + y)

unfoldable pub mul_u32 : Build → ℕ → ℕ → Outcome ℕ
unfolding wrap
mul_u32 b x y = wrap b u32_mod (x * y)

-- `u64::checked_sub`
abbrev pub checked_sub : ℕ → ℕ → Option ℕ
checked_sub x y = if leb y x then some (x - y) else none

-- In range, both builds compute the true value.
pub add_u64_fits : (b : Build) (x y : ℕ) → x + y < u64_mod → add_u64 b x y ≡ ok (x + y)
unfolding add_u64
add_u64_fits debug x y h = ground arith
add_u64_fits release x y h = ground arith

pub sub_u64_fits : (b : Build) (x y : ℕ) → y ≤ x → x < u64_mod → sub_u64 b x y ≡ ok (x - y)
unfolding sub_u64
sub_u64_fits debug x y h k = ground arith
sub_u64_fits release x y h k = ground arith

pub add_u32_fits : (b : Build) (x y : ℕ) → x + y < u32_mod → add_u32 b x y ≡ ok (x + y)
unfolding add_u32
add_u32_fits debug x y h = ground arith
add_u32_fits release x y h = ground arith

pub mul_u32_fits : (b : Build) (x y : ℕ) → x * y < u32_mod → mul_u32 b x y ≡ ok (x * y)
unfolding mul_u32
mul_u32_fits debug x y h = ground arith
mul_u32_fits release x y h = ground arith

pub add_u32-ne-hang : (b : Build) (x y : ℕ) → add_u32 b x y ≢ hang
unfolding add_u32
add_u32-ne-hang debug x y = ground arith
add_u32-ne-hang release x y = λ q. cc

pub mul_u32-ne-hang : (b : Build) (x y : ℕ) → mul_u32 b x y ≢ hang
unfolding mul_u32
mul_u32-ne-hang debug x y = ground arith
mul_u32-ne-hang release x y = λ q. cc
