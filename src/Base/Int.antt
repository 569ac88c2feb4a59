-- ===== src/Base/Int.antt =====
-- Signed integers over the native numbers, and the 64-bit wrap-around of Go's int64.
use Prim.Native.Nat.{ℕ, suc, ◌-◌, ◌*◌, ◌%◌, ◌^◌, ◌<◌}
use mathlib.Core.Path.{◌≡◌}
use native.Mathlib.Omega.{arith}
use cloudflare_tunnel_operat.Base.Tests.{if◌then◌else◌, ltb}

-- `negsuc n` is -(n + 1).
pub data ℤ : Type 0 where
  pos : ℕ → ℤ
  negsuc : ℕ → ℤ

-- A product with a positive constant, without a bound.
unfoldable pub scale : ℕ → ℤ → ℤ
scale k (pos n) = pos (n * k)
scale k (negsuc n) = negsuc (suc n * k - 1)

abbrev pub two64 : ℕ
two64 = 2 ^ 64

-- The two's complement bits of an integer, and the integer of 64 bits.
abbrev to_bits : ℤ → ℕ
to_bits (pos n) = n % two64
to_bits (negsuc n) = two64 - 1 - n % two64

abbrev of_bits : ℕ → ℤ
of_bits b = if ltb b (2 ^ 63) then pos b else negsuc (two64 - 1 - b)

unfoldable pub wrap64 : ℤ → ℤ
wrap64 a = of_bits (to_bits a)

-- The range of int32.
abbrev pub IsInt32 : ℤ → Type 0
IsInt32 (pos n) = n < 2 ^ 31
IsInt32 (negsuc n) = n < 2 ^ 31

pub wrap64-scale : (a : ℤ) → IsInt32 a → wrap64 (scale 1_000_000_000 a) ≡ scale 1_000_000_000 a
unfolding wrap64 scale
wrap64-scale (pos n) h = ground arith
wrap64-scale (negsuc n) h = ground arith
