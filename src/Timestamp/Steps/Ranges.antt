-- ===== src/Timestamp/Steps/Ranges.antt =====
-- The ranges of the parsed fields, for the steps that `CompileFormat` creates.
use eestv_lib.Common.{
  ℕ, ◌+◌, ◌*◌, ◌^◌, ◌≤◌, ◌<◌, ◌≡◌, Bool, true, false, Option, none, some, List, [], ◌∷◌, arith,
  drop, ◌==◌, if◌then◌else◌,
}
use eestv_lib.Common.Int.{ℤ, pos, pos_part, neg_part}
use eestv_lib.Common.Text.{Text}
use eestv_lib.Timestamp.{
  DateAndTime, char_at, to_lower_ascii, is_digit, try_parse_two_digits, try_parse_four_digits,
}
use eestv_lib.Timestamp.Steps.{
  Step, StepResult, and_then, Field, month, day, hour, minute, separator, two_digit_year,
  four_digit_year, two_digit_field, padded_day, month_name, second, variable_second, fraction,
  variable_fraction, utc_designator, utc_offset, date, run_step, run_steps, separator_parser,
  two_digit_year_parser, four_digit_year_parser, two_digit_field_parser, padded_day_parser, spells,
  month_number, month_name_parser, second_parser, utc_designator_parser, utc_offset_parser,
  date_validator,
}
use eestv_lib.Timestamp.Steps.Scan.Seconds.{variable_second_parser-decimal}
use eestv_lib.Timestamp.Steps.Scan.Fractions.{
  fraction_parser-decimal, variable_fraction_parser-decimal, fraction_bound,
  variable_fraction_bound,
}

-- The magnitude of an optional number.
abbrev magnitude : Option ℤ → ℕ
magnitude none = 0
magnitude (some a) = pos_part a + neg_part a

-- Every field lies in the range that its type and its tokens promise.
pub record IsInRange (d : DateAndTime) : Type 0 where
  pub year_range : pos_part d.year + neg_part d.year ≤ 9999
  pub month_range : d.month ≤ 12
  pub day_range : d.day ≤ 31
  pub hour_range : d.hour ≤ 23
  pub minute_range : d.minute ≤ 59
  pub second_range : d.second < 2 ^ 32
  pub leap_second_at_60 : d.leap_second ≡ (d.second == 60)
  pub nanosecond_range : d.nanosecond < 10 ^ 9
  pub offset_range : magnitude d.utc_offset_minutes < 24 * 60

-- The largest value that a two-digit field takes.
abbrev largest : Field → ℕ
largest month = 12
largest day = 31
largest hour = 23
largest minute = 59

-- The steps that `CompileFormat` creates.
abbrev pub IsCreated : Step → Type 0
IsCreated (two_digit_field f lo hi) = hi ≡ largest f
IsCreated (fraction n) = (1 ≤ n) × (n ≤ 9)
IsCreated s = Unit {0}

abbrev pub AllCreated : List Step → Type 0
AllCreated [] = Unit {0}
AllCreated (s ∷ ss) = IsCreated s × AllCreated ss

-- A result that, if there is one, is in range.
abbrev pub ResultInRange : StepResult → Type 0
ResultInRange none = Unit {0}
ResultInRange (some (j, d)) = IsInRange d

abbrev Below : Option ℕ → ℕ → Type 0
Below none n = Unit {0}
Below (some v) n = v < n

two_digits-Below : (t : Text) (i : ℤ) (o : ℕ) → Below (try_parse_two_digits t i o) 100
unfolding try_parse_two_digits is_digit
two_digits-Below t i o = ground arith

four_digits-Below : (t : Text) (i : ℤ) → Below (try_parse_four_digits t i) 10000
unfolding try_parse_four_digits is_digit
four_digits-Below t i = ground arith

record IsMonth (o : Option ℕ) : Type 0 where
  fits : Below o 13

-- One rung of the ladder.
rung : (b : Bool) (v : ℕ) (r : Option ℕ) → v < 13 → IsMonth r → IsMonth (if b then some v else r)
rung true v r p q = record { fits = p }
rung false v r p q = q

month_number-IsMonth : (a b c : ℕ) → IsMonth (month_number a b c)
unfolding month_number
month_number-IsMonth a b c = rung (spells a b c b'j' b'a' b'n') 1 _ (omega arith) (
    rung (spells a b c b'f' b'e' b'b') 2 _ (omega arith) (
      rung (spells a b c b'm' b'a' b'r') 3 _ (omega arith) (
        rung (spells a b c b'a' b'p' b'r') 4 _ (omega arith) (
          rung (spells a b c b'm' b'a' b'y') 5 _ (omega arith) (
            rung (spells a b c b'j' b'u' b'n') 6 _ (omega arith) (
              rung (spells a b c b'j' b'u' b'l') 7 _ (omega arith) (
                rung (spells a b c b'a' b'u' b'g') 8 _ (omega arith) (
                  rung (spells a b c b's' b'e' b'p') 9 _ (omega arith) (
                    rung (spells a b c b'o' b'c' b't') 10 _ (omega arith) (
                      rung (spells a b c b'n' b'o' b'v') 11 _ (omega arith) (
                        rung (spells a b c b'd' b'e' b'c') 12 _ (omega arith)
                          (record { fits = tt }))))))))))))

month-Below : (a b c : ℕ) → Below (month_number a b c) 13
month-Below a b c = (month_number-IsMonth a b c).fits

run_field_range :
    (f : Field) (lo : ℕ) (t : Text) (i : ℕ) (d : DateAndTime)
    → IsInRange d
    → ResultInRange (two_digit_field_parser f lo (largest f) t (pos i) d)
unfolding two_digit_field_parser
run_field_range month lo t i d v = ground arith
run_field_range day lo t i d v = ground arith
run_field_range hour lo t i d v = ground arith
run_field_range minute lo t i d v = ground arith

-- A step that `CompileFormat` creates keeps every field in its range.
pub run_step-IsInRange :
    (s : Step) (t : Text) (i : ℕ) (d : DateAndTime)
    → IsCreated s
    → IsInRange d
    → ResultInRange (run_step s t (pos i) d)
unfolding run_step
run_step-IsInRange (separator c) t i d h v = unfold separator_parser in ground arith
run_step-IsInRange two_digit_year t i d h v =
    unfold two_digit_year_parser in ground (arith, two_digits-Below t (pos i) 0)
run_step-IsInRange four_digit_year t i d h v =
    unfold four_digit_year_parser in ground (arith, four_digits-Below t (pos i))
run_step-IsInRange (two_digit_field f lo hi) t i d h v = rw h (run_field_range f lo t i d v)
run_step-IsInRange padded_day t i d h v = unfold padded_day_parser in ground arith
run_step-IsInRange month_name t i d h v =
    unfold month_name_parser in
    ground (
      arith,
      month-Below (to_lower_ascii (char_at t (pos i) 0)) (to_lower_ascii (char_at t (pos i) 1))
          (to_lower_ascii (char_at t (pos i) 2)),
    )
run_step-IsInRange second t i d h v =
    unfold second_parser in ground (arith, two_digits-Below t (pos i) 0)
run_step-IsInRange variable_second t i d h v =
    rw (variable_second_parser-decimal t i d) (ground arith)
run_step-IsInRange (fraction n) t i d h v =
    rw (fraction_parser-decimal n t i d h.0 h.1) (ground (arith, fraction_bound n (drop i t) h.1))
run_step-IsInRange variable_fraction t i d h v =
    rw (variable_fraction_parser-decimal t i d) (ground (arith, variable_fraction_bound (drop i t)))
run_step-IsInRange utc_designator t i d h v = unfold utc_designator_parser in ground arith
run_step-IsInRange (utc_offset colon) t i d h v = unfold utc_offset_parser in ground arith
run_step-IsInRange (date y) t i d h v = unfold date_validator in ground arith

-- A run of steps keeps every field in its range.
pub run_steps-IsInRange :
    (ss : List Step) (t : Text) (i : ℕ) (d : DateAndTime)
    → AllCreated ss
    → IsInRange d
    → ResultInRange (run_steps ss t i d)
unfolding run_steps
run_steps-IsInRange [] t i d h v = v
run_steps-IsInRange (s ∷ ss) t i d h v =
    after (run_step s t (pos i) d) (run_step-IsInRange s t i d h.0 v)
      (λ j c. run_steps-IsInRange ss t (i + j) c h.1)
  where
    after :
        (m : StepResult)
        → ResultInRange m
        → ((j : ℕ) (c : DateAndTime) → IsInRange c → ResultInRange (run_steps ss t (i + j) c))
        → ResultInRange (and_then m (λ j. run_steps ss t (i + j)))
    after none v k = tt
    after (some (j, c)) v k = k j c v
