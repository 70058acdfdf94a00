-- ===== src/Timestamp/Steps.antt =====
-- The parser steps, `TimestampParser::make_..._parser`. The source's step is a closure that returns
-- whether it matched, with the consumed length and the changed output through references; here it
-- returns `some (index_jump, output)` or `none`. No step of the source writes to `output` before it
-- returns false.
pub mod Bounds
pub mod Ranges
pub mod Scan
pub mod Dates
use eestv_lib.Common.{
  ℕ, zero, suc, ◌+◌, ◌-◌, ◌*◌, ◌/◌, ◌^◌, Bool, true, false, not, ◌&&◌, ◌||◌, Option, none, some,
  List, [], ◌∷◌, leb, ltb, ◌==◌, if◌then◌else◌, u32,
}
use eestv_lib.Common.Int.{ℤ, pos, negsuc, sub_ℕ}
use eestv_lib.Common.Text.{Text}
use eestv_lib.Timestamp.{
  DateAndTime, out_of_range, char_at, rest_from, to_lower_ascii, is_digit, try_parse_two_digits,
  try_parse_four_digits, is_leap_year, max_day_in_month,
}

abbrev pub StepResult : Type 0
StepResult = Option (ℕ × DateAndTime)

-- What follows a step that matched.
abbrev pub and_then : StepResult → (ℕ → DateAndTime → StepResult) → StepResult
and_then none next = none
and_then (some (index_jump, output)) next = next index_jump output

unfoldable pub separator_parser : ℕ → Text → ℤ → DateAndTime → StepResult
separator_parser separator to_parse index output =
    if out_of_range to_parse index 0
    then none
    else if not (char_at to_parse index 0 == separator)
    then none
    else some (1, output)

unfoldable pub two_digit_year_parser : Text → ℤ → DateAndTime → StepResult
two_digit_year_parser to_parse index output = elim (try_parse_two_digits to_parse index 0) [
  | none ↦ none
  | some year ↦ some (2, record output { year = pos (2000 + year) })
]

unfoldable pub four_digit_year_parser : Text → ℤ → DateAndTime → StepResult
four_digit_year_parser to_parse index output = elim (try_parse_four_digits to_parse index) [
  | none ↦ none
  | some year ↦ some (4, record output { year = pos year })
]

-- The members that `make_two_digit_field_parser` is given a pointer to.
pub data Field : Type 0 where
  month day hour minute : Field

abbrev pub set_field : Field → ℕ → DateAndTime → DateAndTime
set_field month value output = record output { month = value }
set_field day value output = record output { day = value }
set_field hour value output = record output { hour = value }
set_field minute value output = record output { minute = value }

unfoldable pub two_digit_field_parser : Field → ℕ → ℕ → Text → ℤ → DateAndTime → StepResult
two_digit_field_parser field min_value max_value to_parse index output =
    elim (try_parse_two_digits to_parse index 0) [
      | none ↦ none
      | some value ↦
          if ltb value min_value || ltb max_value value
          then none
          else some (2, set_field field value output)
    ]

-- The cursor is kept relative to `index`.
unfoldable pub padded_day_parser : Text → ℤ → DateAndTime → StepResult
unfolding is_digit
padded_day_parser to_parse index output =
    if out_of_range to_parse index 0
    then none
    else (let start : ℕ = if char_at to_parse index 0 == b' ' then 1 else 0 in
        if out_of_range to_parse index start || not (is_digit (char_at to_parse index start))
        then none
        else (let first = char_at to_parse index start - b'0' in
            let cursor = start + 1 in
            let longer =
              not (cursor == 2)
              && not (out_of_range to_parse index cursor)
              && is_digit (char_at to_parse index cursor) in
            let day =
              if longer then first * 10 + (char_at to_parse index cursor - b'0') else first in
            let end = if longer then cursor + 1 else cursor in
            if ltb day 1 || ltb 31 day then none else some (end, record output { day = day })))

abbrev pub spells : ℕ → ℕ → ℕ → ℕ → ℕ → ℕ → Bool
spells first second third a b c = first == a && second == b && third == c

-- The ladder over the lower-case letters; `none` is its last `else`.
unfoldable pub month_number : ℕ → ℕ → ℕ → Option ℕ
month_number first second third =
    if spells first second third b'j' b'a' b'n'
    then some 1
    else if spells first second third b'f' b'e' b'b'
    then some 2
    else if spells first second third b'm' b'a' b'r'
    then some 3
    else if spells first second third b'a' b'p' b'r'
    then some 4
    else if spells first second third b'm' b'a' b'y'
    then some 5
    else if spells first second third b'j' b'u' b'n'
    then some 6
    else if spells first second third b'j' b'u' b'l'
    then some 7
    else if spells first second third b'a' b'u' b'g'
    then some 8
    else if spells first second third b's' b'e' b'p'
    then some 9
    else if spells first second third b'o' b'c' b't'
    then some 10
    else if spells first second third b'n' b'o' b'v'
    then some 11
    else if spells first second third b'd' b'e' b'c'
    then some 12
    else none

unfoldable pub month_name_parser : Text → ℤ → DateAndTime → StepResult
month_name_parser to_parse index output =
    if out_of_range to_parse index 2
    then none
    else elim (month_number (to_lower_ascii (char_at to_parse index 0))
        (to_lower_ascii (char_at to_parse index 1)) (to_lower_ascii (char_at to_parse index 2))) [
          | none ↦ none
          | some value ↦ some (3, record output { month = value })
        ]

unfoldable pub second_parser : Text → ℤ → DateAndTime → StepResult
second_parser to_parse index output = elim (try_parse_two_digits to_parse index 0) [
  | none ↦ none
  | some value ↦
      if ltb 60 value
      then none
      else some (2, record output { second = value; leap_second = value == 60 })
]

-- The loop of `make_variable_second_parser` over the characters from `index + consumed` on: the value
-- and the number of digits, or `none` if the next digit would not fit in an `unsigned`.
unfoldable pub second_loop : Text → ℕ → ℕ → Option (ℕ × ℕ)
unfolding is_digit
second_loop [] second consumed = some (second, consumed)
second_loop (c ∷ cs) second consumed =
    let digit = c - b'0' in
    let rest = second_loop cs (u32 (second * 10 + digit)) (consumed + 1) in
    if is_digit c
    then (if ltb ((2 ^ 32 - 1 - digit) / 10) second then none else rest)
    else some (second, consumed)

unfoldable pub variable_second_parser : Text → ℤ → DateAndTime → StepResult
variable_second_parser to_parse index output =
    if out_of_range to_parse index 0 || not (is_digit (char_at to_parse index 0))
    then none
    else elim (second_loop (rest_from to_parse index) 0 0) [
      | none ↦ none
      | some (value, consumed) ↦
          some (consumed, record output { second = value; leap_second = value == 60 })
    ]

-- `for (scale_digits = used; scale_digits < 9; ++scale_digits) value *= 10`, with the rounds left.
unfoldable pub scale_loop : ℕ → ℕ → ℕ
scale_loop zero value = value
scale_loop (suc rounds) value = scale_loop rounds (u32 (value * 10))

-- The digits of `make_fraction_parser`, with the rounds left, over the characters from there on. The
-- text does not end before the digits do: the caller has tested its length.
unfoldable pub fraction_loop : ℕ → Text → ℕ → Option ℕ
unfolding is_digit
fraction_loop zero cs value = some value
fraction_loop (suc rounds) [] value = none
fraction_loop (suc rounds) (c ∷ cs) value =
    let rest = fraction_loop rounds cs (u32 (value * 10 + (c - b'0'))) in
    if not (is_digit c) then none else rest

-- `index + digits > size` is `index + digits - 1 >= size`: `digits` is at least 1.
unfoldable pub fraction_parser : ℕ → Text → ℤ → DateAndTime → StepResult
fraction_parser digits to_parse index output =
    if out_of_range to_parse index (digits - 1)
    then none
    else elim (fraction_loop digits (rest_from to_parse index) 0) [
      | none ↦ none
      | some value ↦ some (digits, record output { nanosecond = scale_loop (9 - digits) value })
    ]

-- The loop of `make_variable_fraction_parser`: value, used digits and consumed characters.
unfoldable pub variable_fraction_loop : Text → ℕ → ℕ → ℕ → ℕ × ℕ × ℕ
unfolding is_digit
variable_fraction_loop [] value used consumed = (value, used, consumed)
variable_fraction_loop (c ∷ cs) value used consumed =
    let more = ltb used 9 in
    let rest =
      variable_fraction_loop cs (if more then u32 (value * 10 + (c - b'0')) else value)
        (if more then used + 1 else used) (consumed + 1) in
    if is_digit c then rest else (value, used, consumed)

unfoldable pub variable_fraction_parser : Text → ℤ → DateAndTime → StepResult
variable_fraction_parser to_parse index output =
    if out_of_range to_parse index 0 || not (is_digit (char_at to_parse index 0))
    then none
    else (let (value, used, consumed) = variable_fraction_loop (rest_from to_parse index) 0 0 0 in
        some (consumed, record output { nanosecond = scale_loop (9 - used) value }))

unfoldable pub utc_designator_parser : Text → ℤ → DateAndTime → StepResult
utc_designator_parser to_parse index output =
    if out_of_range to_parse index 0
    then none
    else if not (char_at to_parse index 0 == b'Z') && not (char_at to_parse index 0 == b'z')
    then none
    else some (1, record output { utc_offset_minutes = some (pos 0) })

-- The minutes, with the colon in front where the format has one, and the consumed length.
offset_minutes : Bool → Text → ℤ → Option (ℕ × ℕ)
offset_minutes true to_parse index =
    if out_of_range to_parse index 3 || not (char_at to_parse index 3 == b':')
    then none
    else elim (try_parse_two_digits to_parse index 4) [ none ↦ none | some m ↦ some (m, 6) ]
offset_minutes false to_parse index = elim (try_parse_two_digits to_parse index 3) [
  | none ↦ none
  | some m ↦ some (m, 5)
]

unfoldable pub utc_offset_parser : Bool → Text → ℤ → DateAndTime → StepResult
unfolding offset_minutes
utc_offset_parser with_colon to_parse index output =
    if out_of_range to_parse index 0
    then none
    else (let sign = char_at to_parse index 0 in
        if not (sign == b'+') && not (sign == b'-')
        then none
        else elim (try_parse_two_digits to_parse index 1) [
          | none ↦ none
          | some hours ↦ elim (offset_minutes with_colon to_parse index) [
            | none ↦ none
            | some (minutes, consumed) ↦
                if ltb 23 hours || ltb 59 minutes
                then none
                else (let total = hours * 60 + minutes in
                    some (
                      consumed,
                      record output {
                        utc_offset_minutes =
                            some (if sign == b'-' then sub_ℕ 0 total else pos total);
                      },
                    ))
          ]
        ])

unfoldable pub date_validator : Bool → Text → ℤ → DateAndTime → StepResult
date_validator has_year to_parse index output =
    if output.month == 0 || output.day == 0
    then some (0, output)
    else (let leap_year = not has_year || is_leap_year output.year in
        let max_day = max_day_in_month output.month leap_year in
        if max_day == 0 || ltb max_day output.day then none else some (0, output))

-- `DateAndTimeParserStep`: the closure that each factory returns, by its factory and captures.
pub data Step : Type 0 where
  separator : ℕ → Step
  two_digit_year four_digit_year : Step
  two_digit_field : Field → ℕ → ℕ → Step
  padded_day month_name second variable_second : Step
  fraction : ℕ → Step
  variable_fraction utc_designator : Step
  utc_offset : Bool → Step
  date : Bool → Step

unfoldable pub run_step : Step → Text → ℤ → DateAndTime → StepResult
run_step (separator c) = separator_parser c
run_step two_digit_year = two_digit_year_parser
run_step four_digit_year = four_digit_year_parser
run_step (two_digit_field field min_value max_value) =
    two_digit_field_parser field min_value max_value
run_step padded_day = padded_day_parser
run_step month_name = month_name_parser
run_step second = second_parser
run_step variable_second = variable_second_parser
run_step (fraction digits) = fraction_parser digits
run_step variable_fraction = variable_fraction_parser
run_step utc_designator = utc_designator_parser
run_step (utc_offset with_colon) = utc_offset_parser with_colon
run_step (date has_year) = date_validator has_year

-- A client's run of compiled steps: each starts where the one before it stopped.
unfoldable pub run_steps : List Step → Text → ℕ → DateAndTime → StepResult
run_steps [] to_parse index output = some (index, output)
run_steps (step ∷ steps) to_parse index output =
    and_then (run_step step to_parse (pos index) output)
      (λ index_jump. run_steps steps to_parse (index + index_jump))
