-- ===== src/Timestamp/Print/Fields.antt =====
-- The step of each token reads what is printed for it.
use eestv_lib.Common.{
  ℕ, zero, suc, ◌+◌, ◌-◌, ◌/◌, ◌≤◌, ◌<◌, ◌≡◌, refl, sym, ap, ◌∙◌, true, false, some, [], ◌∷◌, ◌++◌,
  ltb, if◌then◌else◌, arith, length, drop, get_elem?, get_elem?-drop, length-drop,
}
use eestv_lib.Common.Int.{pos, pos_part}
use eestv_lib.Common.Text.{Text}
use eestv_lib.Timestamp.{
  DateAndTime, out_of_range, char_at, is_digit, to_lower_ascii, try_parse_two_digits,
  try_parse_four_digits,
}
use eestv_lib.Timestamp.Steps.{
  run_step, four_digit_year_parser, two_digit_year_parser, two_digit_field_parser, second_parser,
  separator_parser, utc_designator_parser, padded_day_parser, month_name_parser, month_number,
}
use eestv_lib.Timestamp.Format.Spelling.{Token}
use eestv_lib.Timestamp.Format.Spelling.Tokens.{
  step_of, yyyy, yy, mm, mmm, dd, d_any, hh, hh_upper, minutes, ss, z, literal,
}
use eestv_lib.Timestamp.Print.{digit, two, month_names, print, take_over, Expresses}

get_elem?-length : (r : Text) (o c : ℕ) → get_elem? r o ≡ some c → o < length r
get_elem?-length [] o c h = ground (arith, h)
get_elem?-length (x ∷ r) zero c h = omega arith
get_elem?-length (x ∷ r) (suc o) c h = omega (arith, get_elem?-length r o c h)

-- A text that has `c` behind `o` characters from position `i` on.
pub char_at-drop :
    (t r : Text) (i o c : ℕ)
    → drop i t ≡ r
    → get_elem? r o ≡ some c
    → (char_at t (pos i) o ≡ c) × (out_of_range t (pos i) o ≡ false)
char_at-drop t r i o c e h = ground (
  arith,
  get_elem?-drop i o t,
  ap (λ s. get_elem? s o) e,
  h,
  length-drop i t,
  ap length e,
  get_elem?-length r o c h,
)

pub is_digit-digit : (n : ℕ) → is_digit (digit n) ≡ true
unfolding is_digit
is_digit-digit n = ground arith

pub try_parse_two_digits-two :
    (t r : Text) (i o n : ℕ)
    → drop i t ≡ r
    → get_elem? r o ≡ some (digit (n / 10))
    → get_elem? r (o + 1) ≡ some (digit n)
    → n < 100
    → try_parse_two_digits t (pos i) o ≡ some n
unfolding try_parse_two_digits
try_parse_two_digits-two t r i o n e a b h = ground (
  arith,
  char_at-drop t r i o (digit (n / 10)) e a,
  char_at-drop t r i (o + 1) (digit n) e b,
  is_digit-digit n,
  is_digit-digit (n / 10),
)

try_parse_four_digits-digits :
    (t r : Text) (i n : ℕ)
    → drop i t ≡ digit (n / 1000) ∷ digit (n / 100) ∷ digit (n / 10) ∷ digit n ∷ r
    → n < 10000
    → try_parse_four_digits t (pos i) ≡ some n
unfolding try_parse_four_digits
try_parse_four_digits-digits t r i n e h =
    let s : Text = digit (n / 1000) ∷ digit (n / 100) ∷ digit (n / 10) ∷ digit n ∷ r in
    ground (
      arith,
      char_at-drop t s i 0 (digit (n / 1000)) e refl,
      char_at-drop t s i 1 (digit (n / 100)) e refl,
      char_at-drop t s i 2 (digit (n / 10)) e refl,
      char_at-drop t s i 3 (digit n) e refl,
      is_digit-digit n,
      is_digit-digit (n / 10),
      is_digit-digit (n / 100),
      is_digit-digit (n / 1000),
    )

-- A token is read back: its step takes exactly what was printed, and takes its part over.
abbrev pub ReadsBack : Token → DateAndTime → Type 0
ReadsBack tok d =
    (t r : Text) (i : ℕ) (output : DateAndTime)
    → drop i t ≡ print tok d ++ r
    → run_step (step_of tok) t (pos i) output ≡ some (length (print tok d), take_over tok d output)

pub year-ReadsBack : (d : DateAndTime) → Expresses yyyy d → ReadsBack yyyy d
unfolding run_step four_digit_year_parser
year-ReadsBack d x t r i output e =
    ground (arith, x, try_parse_four_digits-digits t r i (pos_part d.year) e)

pub short_year-ReadsBack : (d : DateAndTime) → Expresses yy d → ReadsBack yy d
unfolding run_step two_digit_year_parser
short_year-ReadsBack d x t r i output e = ground (
  arith,
  x,
  try_parse_two_digits-two t (two (pos_part d.year) ++ r) i 0 (pos_part d.year - 2000) e
      (ap some (omega (arith, x))) (ap some (omega (arith, x))) (omega (arith, x)),
)

pub month-ReadsBack : (d : DateAndTime) → Expresses mm d → ReadsBack mm d
unfolding run_step two_digit_field_parser
month-ReadsBack d x t r i output e =
    ground (arith, x, try_parse_two_digits-two t (two d.month ++ r) i 0 d.month e refl refl)

pub day-ReadsBack : (d : DateAndTime) → Expresses dd d → ReadsBack dd d
unfolding run_step two_digit_field_parser
day-ReadsBack d x t r i output e =
    ground (arith, x, try_parse_two_digits-two t (two d.day ++ r) i 0 d.day e refl refl)

pub hour-ReadsBack : (d : DateAndTime) → Expresses hh d → ReadsBack hh d × ReadsBack hh_upper d
unfolding run_step two_digit_field_parser
hour-ReadsBack d x = (read, read)
  where
    read : ReadsBack hh d
    read t r i output e =
        ground (arith, x, try_parse_two_digits-two t (two d.hour ++ r) i 0 d.hour e refl refl)

pub minute-ReadsBack : (d : DateAndTime) → Expresses minutes d → ReadsBack minutes d
unfolding run_step two_digit_field_parser
minute-ReadsBack d x t r i output e =
    ground (arith, x, try_parse_two_digits-two t (two d.minute ++ r) i 0 d.minute e refl refl)

pub second-ReadsBack : (d : DateAndTime) → Expresses ss d → ReadsBack ss d
unfolding run_step second_parser
second-ReadsBack d x t r i output e =
    ground (arith, x, try_parse_two_digits-two t (two d.second ++ r) i 0 d.second e refl refl)

pub literal-ReadsBack : (c : ℕ) (d : DateAndTime) → ReadsBack (literal c) d
unfolding run_step separator_parser
literal-ReadsBack c d t r i output e = ground (arith, char_at-drop t (c ∷ r) i 0 c e refl)

pub utc-ReadsBack : (d : DateAndTime) → Expresses z d → ReadsBack z d
unfolding run_step utc_designator_parser
utc-ReadsBack d x t r i output e = ground (arith, x, char_at-drop t (b'Z' ∷ r) i 0 b'Z' e refl)

pub padded_day-ReadsBack : (d : DateAndTime) → Expresses d_any d → ReadsBack d_any d
unfolding run_step padded_day_parser is_digit
padded_day-ReadsBack d x t r i output e = ground (
  arith,
  x,
  char_at-drop t (print d_any d ++ r) i 0 (if ltb d.day 10 then b' ' else digit (d.day / 10)) e
      refl,
  char_at-drop t (print d_any d ++ r) i 1 (digit d.day) e refl,
)

month_name_parser-letters :
    (t r : Text) (i m a b c : ℕ) (output : DateAndTime)
    → drop i t ≡ a ∷ b ∷ c ∷ r
    → month_number (to_lower_ascii a) (to_lower_ascii b) (to_lower_ascii c) ≡ some m
    → month_name_parser t (pos i) output ≡ some (3, record output { month = m })
unfolding month_name_parser
month_name_parser-letters t r i m a b c output e h = ground (
  arith,
  h,
  char_at-drop t (a ∷ b ∷ c ∷ r) i 0 a e refl,
  char_at-drop t (a ∷ b ∷ c ∷ r) i 1 b e refl,
  char_at-drop t (a ∷ b ∷ c ∷ r) i 2 c e refl,
)

-- The three letters of a month, which the ladder knows.
abbrev Letters : ℕ → Type 0
Letters m =
    (a : ℕ) × (b : ℕ) × (c : ℕ) × (month_names m ≡ a ∷ b ∷ c ∷ [])
    × (month_number (to_lower_ascii a) (to_lower_ascii b) (to_lower_ascii c) ≡ some m)

letters : (m : ℕ) → 1 ≤ m → m ≤ 12 → Letters m
unfolding month_number to_lower_ascii
letters zero h k = absurd (omega arith)
letters (suc zero) h k = (b'J', b'a', b'n', refl, refl)
letters (suc (suc zero)) h k = (b'F', b'e', b'b', refl, refl)
letters (suc (suc (suc zero))) h k = (b'M', b'a', b'r', refl, refl)
letters (suc (suc (suc (suc zero)))) h k = (b'A', b'p', b'r', refl, refl)
letters (suc (suc (suc (suc (suc zero))))) h k = (b'M', b'a', b'y', refl, refl)
letters (suc (suc (suc (suc (suc (suc zero)))))) h k = (b'J', b'u', b'n', refl, refl)
letters (suc (suc (suc (suc (suc (suc (suc zero))))))) h k = (b'J', b'u', b'l', refl, refl)
letters (suc (suc (suc (suc (suc (suc (suc (suc zero)))))))) h k = (b'A', b'u', b'g', refl, refl)
letters (suc (suc (suc (suc (suc (suc (suc (suc (suc zero))))))))) h k =
    (b'S', b'e', b'p', refl, refl)
letters (suc (suc (suc (suc (suc (suc (suc (suc (suc (suc zero)))))))))) h k =
    (b'O', b'c', b't', refl, refl)
letters (suc (suc (suc (suc (suc (suc (suc (suc (suc (suc (suc zero))))))))))) h k =
    (b'N', b'o', b'v', refl, refl)
letters (suc (suc (suc (suc (suc (suc (suc (suc (suc (suc (suc (suc zero)))))))))))) h k =
    (b'D', b'e', b'c', refl, refl)
letters (suc (suc (suc (suc (suc (suc (suc (suc (suc (suc (suc (suc (suc m))))))))))))) h k =
    absurd (omega arith)

pub month_name-ReadsBack : (d : DateAndTime) → Expresses mmm d → ReadsBack mmm d
unfolding run_step
month_name-ReadsBack d x t r i output e =
    let (a, b, c, name, number) = letters d.month x.0 x.1 in
    month_name_parser-letters t r i d.month a b c output (e ∙ ap (λ n. n ++ r) name) number
    ∙ ap (λ (n : Text). some (length n, record output { month = d.month })) (sym name)
