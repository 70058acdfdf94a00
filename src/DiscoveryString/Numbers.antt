-- ===== src/DiscoveryString/Numbers.antt =====
-- `std::stoi` and `std::stoull`, in base 10, and the numbers that `std::to_string` writes.
use eestv_lib.Common.{
  ℕ, zero, suc, ◌+◌, ◌-◌, ◌*◌, ◌/◌, ◌%◌, ◌^◌, ◌<◌, ◌≡◌, refl, Bool, true, false, ◌&&◌, ◌||◌, Option,
  none, some, [], ◌∷◌, arith, leb, ltb, ◌==◌, if◌then◌else◌,
}
use eestv_lib.Common.Int.{ℤ, pos, negsuc, sub_ℕ}
use eestv_lib.Common.Text.{Text, to_string, digits_onto, is_empty}

-- `isspace` in the C locale.
abbrev pub is_space : ℕ → Bool
is_space c = c == 32 || (leb 9 c && leb c 13)

abbrev pub is_decimal : ℕ → Bool
is_decimal c = leb b'0' c && leb c b'9'

abbrev pub skip_spaces : Text → Text
skip_spaces [] = []
skip_spaces (c ∷ cs) = let rest = skip_spaces cs in if is_space c then rest else c ∷ cs

-- Whether a minus sign stands in front, and what is behind the sign.
abbrev pub read_sign : Text → Bool × Text
read_sign [] = (false, [])
read_sign (c ∷ cs) =
    if c == b'-' then (true, cs) else if c == b'+' then (false, cs) else (false, c ∷ cs)

abbrev pub leading_digits : Text → Text
leading_digits [] = []
leading_digits (c ∷ cs) = let rest = leading_digits cs in if is_decimal c then c ∷ rest else []

abbrev pub number_onto : ℕ → Text → ℕ
number_onto acc [] = acc
number_onto acc (c ∷ cs) = number_onto (acc * 10 + (c - b'0')) cs

-- The sign and the value of a number in front of a text; what follows it is ignored. Nothing stands for
-- `std::invalid_argument`.
unfoldable pub read_number : Text → Option (Bool × ℕ)
read_number text =
    let (negative, rest) = read_sign (skip_spaces text) in
    let run = leading_digits rest in
    if is_empty run then none else some (negative, number_onto 0 run)

-- Nothing stands for either exception.
unfoldable pub stoi : Text → Option ℤ
stoi text = elim (read_number text) [
  | none ↦ none
  | some (negative, n) ↦
      if negative
      then (if leb n (2 ^ 31) then some (sub_ℕ 0 n) else none)
      else (if ltb n (2 ^ 31) then some (pos n) else none)
]

unfoldable pub stoull : Text → Option ℕ
stoull text = elim (read_number text) [
  | none ↦ none
  | some (negative, n) ↦
      if ltb n (2 ^ 64) then some (if negative then (2 ^ 64 - n) % 2 ^ 64 else n) else none
]

-- `static_cast<unsigned short>`.
abbrev pub to_unsigned_short : ℤ → ℕ
to_unsigned_short (pos n) = n % 2 ^ 16
to_unsigned_short (negsuc n) = 2 ^ 16 - 1 - n % 2 ^ 16

abbrev pub all_decimal : Text → Bool
all_decimal [] = true
all_decimal (c ∷ cs) = is_decimal c && all_decimal cs

digits_onto_lem :
    (rounds n : ℕ) (acc : Text)
    → n < rounds
    → all_decimal acc ≡ true
    → (all_decimal (digits_onto rounds n acc) ≡ true)
      × (number_onto 0 (digits_onto rounds n acc) ≡ number_onto n acc)
      × (is_empty (digits_onto rounds n acc) ≡ false)
digits_onto_lem zero n acc h a = absurd (omega arith)
digits_onto_lem (suc rounds) n acc h a =
    ground (arith, digits_onto_lem rounds (n / 10) ((b'0' + n % 10) ∷ acc))

-- What `to_string` writes is digits, at least one, of this value.
pub to_string-digits :
    (n : ℕ)
    → (all_decimal (to_string n) ≡ true)
      × (number_onto 0 (to_string n) ≡ n)
      × (is_empty (to_string n) ≡ false)
unfolding to_string
to_string-digits n = digits_onto_lem (suc n) n [] (omega arith) refl

leading_digits-all : (t : Text) → all_decimal t ≡ true → leading_digits t ≡ t
leading_digits-all [] a = refl
leading_digits-all (c ∷ cs) a = ground (arith, leading_digits-all cs)

read_number-all :
    (t : Text)
    → all_decimal t ≡ true
    → is_empty t ≡ false
    → read_number t ≡ some (false, number_onto 0 t)
unfolding read_number
read_number-all [] a e = absurd (ground arith)
read_number-all (c ∷ cs) a e = ground (arith, leading_digits-all (c ∷ cs) a)

pub read_number-to_string : (n : ℕ) → read_number (to_string n) ≡ some (false, n)
read_number-to_string n =
    let (a, v, e) = to_string-digits n in ground (arith, read_number-all (to_string n) a e)

-- The value of a written number is read back as far as the type holds it.
pub stoi-to_string : (n : ℕ) → stoi (to_string n) ≡ (if ltb n (2 ^ 31) then some (pos n) else none)
unfolding stoi
stoi-to_string n = ground (arith, read_number-to_string n)

pub stoull-to_string : (n : ℕ) → stoull (to_string n) ≡ (if ltb n (2 ^ 64) then some n else none)
unfolding stoull
stoull-to_string n = ground (arith, read_number-to_string n)
