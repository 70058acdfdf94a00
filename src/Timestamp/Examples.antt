-- ===== src/Timestamp/Examples.antt =====
-- Formats and texts compiled and parsed, and the theorems at concrete inputs.
use eestv_lib.Common.{◌≡◌, refl, true, none, some, List, [], ◌∷◌, arith, get_elem?}
use eestv_lib.Common.Int.{pos, negsuc}
use eestv_lib.Common.Text.{Text, codes, to_string}
use eestv_lib.Timestamp.{
  DateAndTime, default_date_and_time, try_parse_two_digits, try_parse_four_digits, is_leap_year,
  max_day_in_month, is_digit,
}
use eestv_lib.Timestamp.Steps.{
  run_step, run_steps, separator_parser, four_digit_year_parser, two_digit_field_parser,
  second_parser, fraction_loop, scale_loop, fraction_parser, utc_offset_parser, date_validator,
}
use eestv_lib.Timestamp.Steps.Dates.{date_validator-calendar}
use eestv_lib.Timestamp.Steps.Ranges.{ResultInRange}
use eestv_lib.Timestamp.Format.{
  is_separator, compile_format, compile_loop, round, make_invalid_parser,
}
use eestv_lib.Timestamp.Format.Created.{compile_format-IsInRange}
use eestv_lib.Timestamp.Format.Spelling.{compile_format-spell_all, steps_of, spell_all, Token}
use eestv_lib.Timestamp.Format.Spelling.Tokens.{yyyy, mm, dd, literal, hh, minutes, ss, f, zzz}
use eestv_lib.Timestamp.Print.{ExpressAll}
use eestv_lib.Timestamp.Print.RoundTrip.{run_steps-print_all}
use eestv_lib.Timestamp.Start.{
  possible_parse_start_indices, indices_loop, all_parse_start_indices, nth_parse_start_index,
}
use eestv_lib.Timestamp.Start.Agree.{nth_parse_start_index-get_elem?, or_minus_one}

abbrev iso_tokens : List Token
iso_tokens =
    literal b'-'
    ∷ mm
    ∷ literal b'-'
    ∷ dd
    ∷ literal b'T'
    ∷ hh
    ∷ literal b':'
    ∷ minutes
    ∷ literal b':'
    ∷ ss
    ∷ literal b'.'
    ∷ f 3
    ∷ zzz
    ∷ []

iso_spelling : spell_all (yyyy ∷ iso_tokens) ≡ codes "YYYY-MM-DDThh:mm:ss.fffZZZ"
iso_spelling = refl

compile_format-spell_all_example :
    compile_format (codes "YYYY-MM-DDThh:mm:ss.fffZZZ")
    ≡ record { steps = steps_of (yyyy ∷ iso_tokens); error = [] }
unfolding is_separator
compile_format-spell_all_example = compile_format-spell_all yyyy iso_tokens (ground arith)

lone_y_error :
    (compile_format (codes "MM Y")).error
    ≡ codes "Invalid timestamp format \"MM Y\": 'Y' must appear as YY or YYYY (position 3)"
unfolding compile_format compile_loop round make_invalid_parser to_string
lone_y_error = refl

abbrev leap_day : DateAndTime
leap_day = record default_date_and_time {
  year = pos 2024;
  month = 2;
  day = 29;
  hour = 23;
  minute = 59;
  second = 60;
  leap_second = true;
  nanosecond = 250000000;
  utc_offset_minutes = some (negsuc 89);
}

abbrev leap_day_text : Text
leap_day_text = codes "2024-02-29T23:59:60.250-01:30"

leap_day_parsed :
    run_steps (steps_of (yyyy ∷ iso_tokens)) leap_day_text 0 default_date_and_time
    ≡ some (29, leap_day)
unfolding run_steps run_step four_digit_year_parser two_digit_field_parser separator_parser
    second_parser fraction_parser fraction_loop scale_loop utc_offset_parser date_validator
    try_parse_two_digits try_parse_four_digits is_leap_year max_day_in_month is_digit
leap_day_parsed = refl

compile_format-IsInRange_example : ResultInRange (
    run_steps
      (compile_format (codes "hh:mm s*")).steps
      (codes "x 23:59 60")
      2
      default_date_and_time)
compile_format-IsInRange_example =
    compile_format-IsInRange (codes "hh:mm s*") (codes "x 23:59 60") 2

date_validator-calendar_example :
    date_validator true [] (pos 0) (record leap_day { year = pos 1900 }) ≡ none
date_validator-calendar_example =
    date_validator-calendar true [] (pos 0) (record leap_day { year = pos 1900 }) (omega arith)
      (omega arith)

abbrev log_line : Text
log_line = codes "a  bc d"

all_starts : all_parse_start_indices log_line ≡ 0 ∷ 3 ∷ 6 ∷ []
unfolding all_parse_start_indices possible_parse_start_indices indices_loop
all_starts = refl

nth_parse_start_index-get_elem?_example :
    nth_parse_start_index log_line (pos 2)
    ≡ or_minus_one (get_elem? (all_parse_start_indices log_line) 2)
nth_parse_start_index-get_elem?_example = nth_parse_start_index-get_elem? log_line 2 (omega arith)

expressed : ExpressAll (yyyy ∷ iso_tokens) leap_day
expressed = ground arith

run_steps-print_all_example :
    run_steps
      (compile_format (codes "YYYY-MM-DDThh:mm:ss.fffZZZ")).steps
      (codes "2024-02-29T23:59:60.250-01:30 started")
      0
      default_date_and_time
    ≡ some (29, leap_day)
unfolding is_separator is_leap_year max_day_in_month
run_steps-print_all_example =
    run_steps-print_all yyyy iso_tokens leap_day (codes " started") (ground arith) expressed
      (omega arith)
