-- ===== src/Flags.antt =====
-- eestv/flags/flags.hpp: a set of flags in the bits of a `uint32_t`. A flag is its enumerator's
-- number; the enumerations of the library have at most seven.
mod Bits
pub mod Laws
pub mod Refine
mod Examples
use Prim.Native.Nat.{bit_and, bit_or}
use eestv_lib.Common.{ℕ, ◌*◌, ◌-◌, ◌^◌, Bool, not, ◌==◌, u32}

-- `1U << static_cast<uint32_t>(flag)`.
abbrev pub flag_bit : ℕ → ℕ
flag_bit flag = u32 (2 ^ flag)

-- `~x` on a `uint32_t`.
abbrev pub complement : ℕ → ℕ
complement x = 2 ^ 32 - 1 - x

unfoldable pub set_flag : ℕ → ℕ → ℕ
set_flag flags flag = bit_or flags (flag_bit flag)

unfoldable pub clear_flag : ℕ → ℕ → ℕ
clear_flag flags flag = bit_and flags (complement (flag_bit flag))

unfoldable pub get_flag : ℕ → ℕ → Bool
get_flag flags flag = not (bit_and flags (flag_bit flag) == 0)

-- `Flags() = default` and `clear_all`; `get_raw` is the number itself.
unfoldable pub clear_all : ℕ
clear_all = 0
