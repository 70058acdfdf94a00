-- ===== src/Timestamp.antt =====
-- eestv/timestamp/timestamp_parser.hpp and eestv/timestamp/timestamp_parser.cpp: timestamp formats
-- compiled to parser steps. A text is the list of its bytes (`char` values as 0 to 255); texts are
-- shorter than 2 ^ 31, so that the `int` positions of the source do not overflow.
pub mod Steps
pub mod Format
pub mod Start
pub mod TimePoint
pub mod Print
mod Examples
use eestv_lib.Common.{
  ℕ, ◌+◌, ◌-◌, ◌*◌, Bool, true, false, not, ◌&&◌, ◌||◌, Option, none, some, List, [], ◌∷◌, leb, ltb,
  ◌==◌, if◌then◌else◌, length, get_elem?, drop,
}
use eestv_lib.Common.Int.{ℤ, pos, negsuc, divisible}
use eestv_lib.Common.Text.{Text}

pub record DateAndTime : Type 0 where
  pub year : ℤ
  pub month : ℕ
  pub day : ℕ
  pub hour : ℕ
  pub minute : ℕ
  pub second : ℕ
  pub nanosecond : ℕ
  pub utc_offset_minutes : Option ℤ
  pub leap_second : Bool

abbrev pub default_date_and_time : DateAndTime
default_date_and_time = record {
  year = pos 0;
  month = 0;
  day = 0;
  hour = 0;
  minute = 0;
  second = 0;
  nanosecond = 0;
  utc_offset_minutes = none;
  leap_second = false;
}

-- The guard `index < 0 || index + offset >= static_cast<int>(to_parse.size())`.
abbrev pub out_of_range : Text → ℤ → ℕ → Bool
out_of_range to_parse (pos index) offset = leb (length to_parse) (index + offset)
out_of_range to_parse (negsuc index) offset = true

-- `to_parse[index + offset]`. It is read only where `out_of_range` is false.
abbrev pub char_at : Text → ℤ → ℕ → ℕ
char_at to_parse (pos index) offset = elim (get_elem? to_parse (index + offset)) [
  | none ↦ 0
  | some c ↦ c
]
char_at to_parse (negsuc index) offset = 0

-- The characters from `index` on, which the scanning loops go through.
abbrev pub rest_from : Text → ℤ → Text
rest_from to_parse (pos index) = drop index to_parse
rest_from to_parse (negsuc index) = []

unfoldable pub to_lower_ascii : ℕ → ℕ
to_lower_ascii character =
    if leb b'A' character && leb character b'Z' then character - b'A' + b'a' else character

unfoldable pub is_digit : ℕ → Bool
is_digit tested = leb b'0' tested && leb tested b'9'

unfoldable pub try_parse_two_digits : Text → ℤ → ℕ → Option ℕ
unfolding is_digit
try_parse_two_digits to_parse index offset =
    if out_of_range to_parse index (offset + 1)
    then none
    else (let first = char_at to_parse index offset in
        let second = char_at to_parse index (offset + 1) in
        if not (is_digit first) || not (is_digit second)
        then none
        else some ((first - b'0') * 10 + (second - b'0')))

unfoldable pub try_parse_four_digits : Text → ℤ → Option ℕ
unfolding is_digit
try_parse_four_digits to_parse index =
    if out_of_range to_parse index 3
    then none
    else (let first = char_at to_parse index 0 in
        let second = char_at to_parse index 1 in
        let third = char_at to_parse index 2 in
        let fourth = char_at to_parse index 3 in
        if not (is_digit first)
          || not (is_digit second)
          || not (is_digit third)
          || not (is_digit fourth)
        then none
        else some
            ((first - b'0') * 1000 + (second - b'0') * 100 + (third - b'0') * 10 + (fourth - b'0')))

unfoldable pub is_leap_year : ℤ → Bool
is_leap_year year =
    if divisible year 400 then true else if divisible year 100 then false else divisible year 4

unfoldable pub max_day_in_month : ℕ → Bool → ℕ
max_day_in_month month leap_year =
    if month == 1
      || month == 3
      || month == 5
      || month == 7
      || month == 8
      || month == 10
      || month == 12
    then 31
    else if month == 4 || month == 6 || month == 9 || month == 11
    then 30
    else if month == 2
    then (if leap_year then 29 else 28)
    else 0
