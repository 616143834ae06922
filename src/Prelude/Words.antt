-- ===== src/Prelude/Words.antt =====
-- Machine words: wrap-around, and bit masks of one bit (`w & (1 << k)`, `w |= 1 << k`,
-- `w &= ~(1 << k)`).
use Prim.Native.Nat.{ℕ, ◌+◌, ◌-◌, ◌/◌, ◌%◌, ◌^◌}
use mathlib.Core.Bool.{Bool}
use aaaos_renovation_agent_o.Prelude.Tests.{◌==◌, if◌then◌else◌}
use aaaos_renovation_agent_o.Prelude.Int.{ℤ, pos, negsuc}

abbrev pub u64 : ℕ → ℕ
u64 n = n % 2 ^ 64

abbrev pub u32 : ℕ → ℕ
u32 n = n % 2 ^ 32

-- The conversion of an `int` to `uint64`.
unfoldable pub u64_of_int : ℤ → ℕ
u64_of_int (pos n) = u64 n
u64_of_int (negsuc n) = 2 ^ 64 - 1 - u64 n

-- `w & m` is not 0, for a mask `m` of one bit.
unfoldable pub has_bit : ℕ → ℕ → Bool
has_bit m w = w / m % 2 == 1

-- `w | m`, for a mask of one bit
unfoldable pub set_bit : ℕ → ℕ → ℕ
unfolding has_bit
set_bit m w = if has_bit m w then w else w + m

-- `w & ~m`, for a mask of one bit
unfoldable pub clear_bit : ℕ → ℕ → ℕ
unfolding has_bit
clear_bit m w = if has_bit m w then w - m else w
