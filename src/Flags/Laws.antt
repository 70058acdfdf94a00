-- ===== src/Flags/Laws.antt =====
-- The flags of a word are independent of one another.
use Prim.Native.Nat.{bit_and}
use native.Mathlib.Nat.{mod-eq_of_lt}
use eestv_lib.Common.{ℕ, ◌^◌, ◌<◌, ◌≡◌, ap, false, ◌&&◌, ◌||◌, not, arith, ◌==◌}
use eestv_lib.Flags.{flag_bit, complement, set_flag, clear_flag, get_flag, clear_all}
use eestv_lib.Flags.Bits.{
  digit, digit-zero, digit-bit_or, digit-bit_and, digit_le_one, bit_and-pow, digit-pow,
  digit-complement,
}
use native.Mathlib.Nat.{one-le-pow, pow-le-pow_right}

pow-lt : (i : ℕ) → i < 32 → 2 ^ i < 2 ^ 32
pow-lt i h = omega (arith, pow-le-pow_right {n = 2} (omega arith) {i = i} {j = 31} (omega arith))

-- A flag reads as its digit.
pub get_flag-digit : (w i : ℕ) → i < 32 → get_flag w i ≡ (digit w i == 1)
unfolding get_flag
get_flag-digit w i h = ground (
  arith,
  ap (bit_and w) (mod-eq_of_lt (pow-lt i h)),
  bit_and-pow w i,
  digit_le_one w i,
  one-le-pow i 2,
)

-- Setting a flag, of a number below 32, sets that flag and leaves every other below 32 as it was.
pub get_flag-set_flag :
    (w i j : ℕ) → i < 32 → j < 32 → get_flag (set_flag w i) j ≡ (i == j || get_flag w j)
unfolding set_flag
get_flag-set_flag w i j hi hj = ground (
  arith,
  get_flag-digit (set_flag w i) j hj,
  get_flag-digit w j hj,
  digit-bit_or w (flag_bit i) j,
  digit-pow i j hi hj,
  digit_le_one w j,
)

-- Clearing a flag, of a number below 32, clears that flag and leaves every other below 32 as it was.
pub get_flag-clear_flag :
    (w i j : ℕ) → i < 32 → j < 32 → get_flag (clear_flag w i) j ≡ (not (i == j) && get_flag w j)
unfolding clear_flag
get_flag-clear_flag w i j hi hj = ground (
  arith,
  get_flag-digit (clear_flag w i) j hj,
  get_flag-digit w j hj,
  digit-bit_and w (complement (flag_bit i)) j,
  digit-complement i j hi hj,
  digit_le_one w j,
)

-- After `clear_all` no flag is set.
pub get_flag-clear_all : (j : ℕ) → j < 32 → get_flag clear_all j ≡ false
unfolding clear_all
get_flag-clear_all j h = ground (arith, get_flag-digit 0 j h, digit-zero j)

-- A statement for the numbers of the seven enumerators that an enumeration of the library has at most.
abbrev pub AllFlags : (ℕ → Type 0) → Type 0
AllFlags P = P 0 × P 1 × P 2 × P 3 × P 4 × P 5 × P 6

pub set_flag_laws :
    (w i : ℕ) → i < 32 → AllFlags (λ j. get_flag (set_flag w i) j ≡ (i == j || get_flag w j))
set_flag_laws w i h = (
  at 0 (omega arith),
  at 1 (omega arith),
  at 2 (omega arith),
  at 3 (omega arith),
  at 4 (omega arith),
  at 5 (omega arith),
  at 6 (omega arith),
)
  where
    at : (j : ℕ) → j < 32 → get_flag (set_flag w i) j ≡ (i == j || get_flag w j)
    at j k = get_flag-set_flag w i j h k

pub clear_flag_laws :
    (w i : ℕ)
    → i < 32
    → AllFlags (λ j. get_flag (clear_flag w i) j ≡ (not (i == j) && get_flag w j))
clear_flag_laws w i h = (
  at 0 (omega arith),
  at 1 (omega arith),
  at 2 (omega arith),
  at 3 (omega arith),
  at 4 (omega arith),
  at 5 (omega arith),
  at 6 (omega arith),
)
  where
    at : (j : ℕ) → j < 32 → get_flag (clear_flag w i) j ≡ (not (i == j) && get_flag w j)
    at j k = get_flag-clear_flag w i j h k

pub clear_all_laws : AllFlags (λ j. get_flag clear_all j ≡ false)
clear_all_laws = (
  at 0 (omega arith),
  at 1 (omega arith),
  at 2 (omega arith),
  at 3 (omega arith),
  at 4 (omega arith),
  at 5 (omega arith),
  at 6 (omega arith),
)
  where
    at : (j : ℕ) → j < 32 → get_flag clear_all j ≡ false
    at j k = get_flag-clear_all j k
