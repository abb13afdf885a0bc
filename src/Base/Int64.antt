-- ===== src/Base/Int64.antt =====
-- Go's int64: the integer that stands for a number modulo 2^64.
use eudi_api_management.Base.Tests.{ltb, if◌then◌else◌}
use Prim.Native.Nat.{ℕ, ◌-◌, ◌%◌, ◌^◌, ◌<◌}
use mathlib.Core.Path.{◌≡◌}
use native.Mathlib.Omega.{arith}

-- `negsuc n` is -(n + 1).
pub data ℤ : Type 0 where
  pos : ℕ → ℤ
  negsuc : ℕ → ℤ

unfoldable pub to_int64 : ℕ → ℤ
to_int64 n = let r = n % 2 ^ 64 in if ltb r (2 ^ 63) then pos r else negsuc (2 ^ 64 - 1 - r)

-- int64(1) << uint(n), as the number modulo 2^64
unfoldable pub shift_one : ℕ → ℕ
shift_one n = if ltb n 64 then 2 ^ n else 0

pub to_int64-small : (n : ℕ) → n < 2 ^ 63 → to_int64 n ≡ pos n
unfolding to_int64
to_int64-small n h = ground arith

pub shift_one-small : (n : ℕ) → n < 64 → shift_one n ≡ 2 ^ n
unfolding shift_one
shift_one-small n h = ground arith
