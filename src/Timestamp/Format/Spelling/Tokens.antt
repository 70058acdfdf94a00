-- ===== src/Timestamp/Format/Spelling/Tokens.antt =====
-- The tokens of the table in timestamp_parser.hpp, how each is spelled, and the step it stands for.
use eestv_lib.Common.{
  ℕ, ◌-◌, ◌≡◌, Bool, true, false, not, ◌&&◌, ◌||◌, List, [], ◌∷◌, ◌++◌, ltb, leb, ◌==◌,
  if◌then◌else◌, map, replicate,
}
use eestv_lib.Common.Text.{Text}
use eestv_lib.Timestamp.Steps.{
  Step, month, day, hour, minute, separator, two_digit_year, four_digit_year, two_digit_field,
  padded_day, month_name, second, variable_second, fraction, variable_fraction, utc_designator,
  utc_offset, date,
}
use eestv_lib.Timestamp.Format.{
  Part, year_part, month_part, day_part, other_part, next_is, is_separator,
}

pub data Token : Type 0 where
  yyyy yy mm mmm dd d_any hh hh_upper minutes ss s_any f_any z zz zzz : Token
  f : ℕ → Token
  literal : ℕ → Token

-- The first character and the others.
abbrev pub spell_first : Token → ℕ
spell_first yyyy = b'Y'
spell_first yy = b'Y'
spell_first mm = b'M'
spell_first mmm = b'M'
spell_first dd = b'D'
spell_first d_any = b'D'
spell_first hh = b'h'
spell_first hh_upper = b'H'
spell_first minutes = b'm'
spell_first ss = b's'
spell_first s_any = b's'
spell_first f_any = b'f'
spell_first z = b'Z'
spell_first zz = b'Z'
spell_first zzz = b'Z'
spell_first (f n) = b'f'
spell_first (literal c) = c

abbrev pub spell_more : Token → Text
spell_more yyyy = b'Y' ∷ b'Y' ∷ b'Y' ∷ []
spell_more yy = b'Y' ∷ []
spell_more mm = b'M' ∷ []
spell_more mmm = b'M' ∷ b'M' ∷ []
spell_more dd = b'D' ∷ []
spell_more d_any = b'*' ∷ []
spell_more hh = b'h' ∷ []
spell_more hh_upper = b'H' ∷ []
spell_more minutes = b'm' ∷ []
spell_more ss = b's' ∷ []
spell_more s_any = b'*' ∷ []
spell_more f_any = b'*' ∷ []
spell_more z = []
spell_more zz = b'Z' ∷ []
spell_more zzz = b'Z' ∷ b'Z' ∷ []
spell_more (f n) = replicate (n - 1) b'f'
spell_more (literal c) = []

abbrev pub spell : Token → Text
spell t = spell_first t ∷ spell_more t

abbrev pub spell_all : List Token → Text
spell_all [] = []
spell_all (t ∷ ts) = spell_first t ∷ (spell_more t ++ spell_all ts)

abbrev pub step_of : Token → Step
step_of yyyy = four_digit_year
step_of yy = two_digit_year
step_of mm = two_digit_field month 1 12
step_of mmm = month_name
step_of dd = two_digit_field day 1 31
step_of d_any = padded_day
step_of hh = two_digit_field hour 0 23
step_of hh_upper = two_digit_field hour 0 23
step_of minutes = two_digit_field minute 0 59
step_of ss = second
step_of s_any = variable_second
step_of f_any = variable_fraction
step_of z = utc_designator
step_of zz = utc_offset false
step_of zzz = utc_offset true
step_of (f n) = fraction n
step_of (literal c) = separator c

abbrev pub part_of : Token → Part
part_of yyyy = year_part
part_of yy = year_part
part_of mm = month_part
part_of mmm = month_part
part_of dd = day_part
part_of d_any = day_part
part_of t = other_part

-- What may follow a token: a shorter token must not run into a longer one, a fraction has 1 to 9
-- digits, and a literal is no reserved character.
abbrev pub clear_before : Token → Text → Bool
clear_before yy rest = not (next_is rest b'Y')
clear_before mm rest = not (next_is rest b'M')
clear_before z rest = not (next_is rest b'Z')
clear_before zz rest = not (next_is rest b'Z')
clear_before (f n) rest =
    (ltb 0 n && leb n 9) && (not (next_is rest b'f') && not (n == 1 && next_is rest b'*'))
clear_before (literal c) rest = is_separator c
clear_before t rest = true

abbrev pub IsClear : List Token → Type 0
IsClear [] = Unit {0}
IsClear (t ∷ ts) = (clear_before t (spell_all ts) ≡ true) × IsClear ts

abbrev pub is_year : Part → Bool
is_year year_part = true
is_year p = false

abbrev pub is_date : Part → Bool
is_date month_part = true
is_date day_part = true
is_date p = false

abbrev pub any_part : (Part → Bool) → List Token → Bool
any_part test [] = false
any_part test (t ∷ ts) = test (part_of t) || any_part test ts

-- The steps of the tokens in order, and the date check behind them if there is a month or a day; it
-- knows whether there is a year.
abbrev pub steps_of : List Token → List Step
steps_of ts =
    map step_of ts ++ (if any_part is_date ts then date (any_part is_year ts) ∷ [] else [])
