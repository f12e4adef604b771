-- ===== src/Prelude/Words.antt =====
-- Machine integers as native numbers, with the wrap-around of a release build written out.
use Prim.Native.Nat.{ℕ, ◌+◌, ◌-◌, ◌*◌, ◌%◌, ◌^◌, ◌<◌}
use mathlib.Core.Path.{◌≡◌}
use native.Mathlib.Omega.{arith}
use ergo_rust_node.Prelude.Tests.{ltb, if◌then◌else◌}

abbrev pub u32_mod : ℕ
u32_mod = 2 ^ 32

abbrev pub u64_mod : ℕ
u64_mod = 2 ^ 64

-- `a + b`, `a * b` and `a - b` at `u64`
unfoldable pub add_u64 : ℕ → ℕ → ℕ
add_u64 a b = (a + b) % u64_mod

unfoldable pub mul_u64 : ℕ → ℕ → ℕ
mul_u64 a b = (a * b) % u64_mod

unfoldable pub sub_u64 : ℕ → ℕ → ℕ
sub_u64 a b = (a + u64_mod - b) % u64_mod

-- `saturating_add` and `saturating_mul` at `u32`
unfoldable pub saturating_add_u32 : ℕ → ℕ → ℕ
saturating_add_u32 a b = if ltb (a + b) u32_mod then a + b else u32_mod - 1

unfoldable pub saturating_mul_u32 : ℕ → ℕ → ℕ
saturating_mul_u32 a b = if ltb (a * b) u32_mod then a * b else u32_mod - 1

-- Without overflow the wrapping operations are the plain ones.
pub add_u64_lem : (a b : ℕ) → a + b < u64_mod → add_u64 a b ≡ a + b
unfolding add_u64
add_u64_lem a b h = omega arith

pub mul_u64_lem : (a b : ℕ) → a * b < u64_mod → mul_u64 a b ≡ a * b
unfolding mul_u64
mul_u64_lem a b h = omega arith
