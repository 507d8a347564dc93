-- ===== src/Base/Words.antt =====
-- Go's int32 and int64 as the words of two's complement, below 2 ^ 32 and 2 ^ 64.
use nightowl.Base.Tests.{ltb}
use Prim.Native.Nat.{ℕ, ◌+◌, ◌%◌, ◌<◌}
use mathlib.Core.Bool.{Bool}
use mathlib.Core.Path.{◌≡◌}
use native.Mathlib.Omega.{arith}

-- int32(n) of an int.
abbrev pub to_int32 : ℕ → ℕ
to_int32 n = n % 4294967296

-- The word of a sum or a product of ints.
abbrev pub to_int64 : ℕ → ℕ
to_int64 n = n % 18446744073709551616

-- The signed order.
unfoldable pub less32 : ℕ → ℕ → Bool
less32 a b = ltb ((a + 2147483648) % 4294967296) ((b + 2147483648) % 4294967296)

unfoldable pub less64 : ℕ → ℕ → Bool
less64 a b =
    ltb ((a + 9223372036854775808) % 18446744073709551616)
      ((b + 9223372036854775808) % 18446744073709551616)

pub less32_of_small : (a b : ℕ) → a < 2147483648 → b < 2147483648 → less32 a (to_int32 b) ≡ ltb a b
unfolding less32
less32_of_small a b h k = ground arith
