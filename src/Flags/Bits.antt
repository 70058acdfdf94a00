-- ===== src/Flags/Bits.antt =====
-- The binary digits of `&` and `|`, and of the words with one digit set or cleared.
use Prim.Native.Nat.{min, max, digits, bit_and, bit_or, bit_and-bitwise, bit_or-bitwise}
use native.Mathlib.Nat.{pow-suc, pow-le-pow_right, mod-eq_of_lt}
use eestv_lib.Common.{
  ℕ, zero, suc, ◌+◌, ◌-◌, ◌*◌, ◌/◌, ◌%◌, ◌^◌, ◌≤◌, ◌<◌, ◌≡◌, refl, ap, ◌∙◌, arith, ◌==◌,
  if◌then◌else◌,
}

-- The recursion behind the bitwise operations needs no more rounds than the number it runs on.
digits_rounds :
    (z : ℕ → ℕ) (f : ℕ → ℕ → ℕ) (a r r' b : ℕ)
    → a ≤ r
    → a ≤ r'
    → digits z f r a b ≡ digits z f r' a b
digits_rounds z f zero zero zero b h h' = refl
digits_rounds z f zero zero (suc r') b h h' = refl
digits_rounds z f zero (suc r) zero b h h' = refl
digits_rounds z f zero (suc r) (suc r') b h h' = refl
digits_rounds z f (suc a) zero r' b h h' = absurd (omega arith)
digits_rounds z f (suc a) (suc r) zero b h h' = absurd (omega arith)
digits_rounds z f (suc a) (suc r) (suc r') b h h' =
    ap (λ q. q * 2 + f (suc a % 2) (b % 2))
      (digits_rounds z f (suc a / 2) r r' (b / 2) (omega arith) (omega arith))

-- Halving takes off the last digit.
halves :
    (z : ℕ → ℕ) (f : ℕ → ℕ → ℕ) (a y : ℕ)
    → digits z f a (suc a / 2) y ≡ digits z f (suc a / 2) (suc a / 2) y
halves z f a y = digits_rounds z f (suc a / 2) a (suc a / 2) y (omega arith) (omega arith)

pub bit_or_digit : (x y : ℕ) → bit_or x y ≡ max (x % 2) (y % 2) + 2 * bit_or (x / 2) (y / 2)
bit_or_digit zero y = omega (arith, bit_or-bitwise 0 y, bit_or-bitwise 0 (y / 2))
bit_or_digit (suc x) y = omega (
  arith,
  halves (λ n. n) max x (y / 2),
  bit_or-bitwise (suc x / 2) (y / 2),
  bit_or-bitwise (suc x) y,
)

pub bit_and_digit : (x y : ℕ) → bit_and x y ≡ min (x % 2) (y % 2) + 2 * bit_and (x / 2) (y / 2)
bit_and_digit zero y = omega (arith, bit_and-bitwise 0 y, bit_and-bitwise 0 (y / 2))
bit_and_digit (suc x) y = omega (
  arith,
  halves (λ n. 0) min x (y / 2),
  bit_and-bitwise (suc x / 2) (y / 2),
  bit_and-bitwise (suc x) y,
)

-- Digit `i` of a number.
pub digit : ℕ → ℕ → ℕ
digit a zero = a % 2
digit a (suc i) = digit (a / 2) i

pub digit-bit_or : (a b i : ℕ) → digit (bit_or a b) i ≡ max (digit a i) (digit b i)
unfolding digit
digit-bit_or a b zero = omega (arith, bit_or_digit a b)
digit-bit_or a b (suc i) = ap (λ q. digit q i) half ∙ digit-bit_or (a / 2) (b / 2) i
  where
    half : bit_or a b / 2 ≡ bit_or (a / 2) (b / 2)
    half = omega (arith, bit_or_digit a b)

pub digit-bit_and : (a b i : ℕ) → digit (bit_and a b) i ≡ min (digit a i) (digit b i)
unfolding digit
digit-bit_and a b zero = omega (arith, bit_and_digit a b)
digit-bit_and a b (suc i) = ap (λ q. digit q i) half ∙ digit-bit_and (a / 2) (b / 2) i
  where
    half : bit_and a b / 2 ≡ bit_and (a / 2) (b / 2)
    half = omega (arith, bit_and_digit a b)

pub digit-zero : (j : ℕ) → digit 0 j ≡ 0
unfolding digit
digit-zero zero = refl
digit-zero (suc j) = digit-zero j

pub digit_le_one : (a i : ℕ) → digit a i ≤ 1
unfolding digit
digit_le_one a zero = omega arith
digit_le_one a (suc i) = digit_le_one (a / 2) i

-- By rounds, of which the first number bounds how many.
nothing-bit_and : (rounds x : ℕ) → x ≤ rounds → bit_and x 0 ≡ 0
nothing-bit_and rounds zero h = bit_and-bitwise 0 0
nothing-bit_and zero (suc x) h = absurd (omega arith)
nothing-bit_and (suc rounds) (suc x) h =
    omega (arith, nothing-bit_and rounds (suc x / 2) (omega arith), bit_and_digit (suc x) 0)

-- Masking by a power of two leaves that digit.
pub bit_and-pow : (a i : ℕ) → bit_and a (2 ^ i) ≡ digit a i * 2 ^ i
unfolding digit
bit_and-pow a zero = omega (arith, bit_and_digit a 1, nothing-bit_and (a / 2) (a / 2) (omega arith))
bit_and-pow a (suc i) = omega (
  arith,
  pow-suc 2 i,
  bit_and_digit a (2 ^ suc i),
  ap (λ t. bit_and (a / 2) t) half,
  bit_and-pow (a / 2) i,
  ap (λ t. digit (a / 2) i * t) (pow-suc 2 i),
)
  where
    half : 2 ^ suc i / 2 ≡ 2 ^ i
    half = omega (arith, pow-suc 2 i)

-- A power of two has one digit.
digit-power : (i j : ℕ) → digit (2 ^ i) j ≡ (if i == j then 1 else 0)
unfolding digit
digit-power zero zero = refl
digit-power zero (suc j) = ground (arith, digit-zero j)
digit-power (suc i) zero = ground (arith, pow-suc 2 i)
digit-power (suc i) (suc j) = ground (arith, ap (λ q. digit q j) half, digit-power i j)
  where
    half : 2 ^ suc i / 2 ≡ 2 ^ i
    half = omega (arith, pow-suc 2 i)

-- Below its width, the complement of a word has the other digit everywhere.
digit-complemented : (w x j : ℕ) → x < 2 ^ w → j < w → digit (2 ^ w - 1 - x) j ≡ 1 - digit x j
unfolding digit
digit-complemented zero x j h k = absurd (omega arith)
digit-complemented (suc w) x zero h k = omega (arith, pow-suc 2 w)
digit-complemented (suc w) x (suc j) h k =
    ap (λ q. digit q j) half
    ∙ digit-complemented w (x / 2) j (omega (arith, pow-suc 2 w)) (omega arith)
  where
    half : (2 ^ suc w - 1 - x) / 2 ≡ 2 ^ w - 1 - x / 2
    half = omega (arith, pow-suc 2 w)

in_word : (i : ℕ) → i < 32 → 2 ^ i < 2 ^ 32
in_word i h = omega (arith, pow-le-pow_right {n = 2} (omega arith) {i = i} {j = 31} (omega arith))

pub digit-pow : (i j : ℕ) → i < 32 → j < 32 → digit (2 ^ i % 2 ^ 32) j ≡ (if i == j then 1 else 0)
digit-pow i j hi hj = ap (λ q. digit q j) (mod-eq_of_lt (in_word i hi)) ∙ digit-power i j

pub digit-complement :
    (i j : ℕ) → i < 32 → j < 32 → digit (2 ^ 32 - 1 - 2 ^ i % 2 ^ 32) j ≡ (if i == j then 0 else 1)
digit-complement i j hi hj = ground (
  arith,
  ap (λ q. digit (2 ^ 32 - 1 - q) j) (mod-eq_of_lt (in_word i hi)),
  digit-complemented 32 (2 ^ i) j (in_word i hi) hj,
  digit-power i j,
)
