-- ===== src/Timestamp/Format.antt =====
-- `TimestampParser::CompileFormat`: a format string compiled to steps in one pass.
pub mod Spelling
pub mod Errors
pub mod Created
use eestv_lib.Common.{
  ℕ, zero, suc, ◌+◌, ◌-◌, Bool, true, false, not, ◌&&◌, ◌||◌, List, [], ◌∷◌, ◌++◌, ltb, ◌==◌,
  if◌then◌else◌,
}
use eestv_lib.Common.Text.{Text, codes, to_string, is_empty}
use eestv_lib.Timestamp.Steps.{
  Step, month, day, hour, minute, separator, two_digit_year, four_digit_year, two_digit_field,
  padded_day, month_name, second, variable_second, fraction, variable_fraction, utc_designator,
  utc_offset, date,
}

-- `CompiledDateAndTimeParser`.
pub record Compiled : Type 0 where
  pub steps : List Step
  pub error : Text

-- `valid()`.
abbrev pub is_valid : Compiled → Bool
is_valid compiled = is_empty compiled.error

unfoldable pub make_invalid_parser : Text → ℕ → Text → Compiled
make_invalid_parser format index message = record {
  steps = [];
  error =
      codes "Invalid timestamp format \""
      ++ (format
          ++ (codes "\": "
              ++ (message ++ (codes " (position " ++ (to_string index ++ codes ")")))));
}

-- The local variables of the loop.
pub record Progress : Type 0 where
  pub steps : List Step
  pub has_year : Bool
  pub has_month : Bool
  pub has_day : Bool

abbrev pub start : Progress
start = record { steps = []; has_year = false; has_month = false; has_day = false }

-- Which of the three variables a branch sets.
pub data Part : Type 0 where
  year_part month_part day_part other_part : Part

abbrev pub mark : Part → Progress → Progress
mark year_part p = record p { has_year = true }
mark month_part p = record p { has_month = true }
mark day_part p = record p { has_day = true }
mark other_part p = p

-- What one round of the loop does: push a step and advance `index` by some more characters than the
-- loop header does, or return an invalid parser with a message.
pub data Round : Type 0 where
  push : Step → Part → ℕ → Round
  invalid : Text → Round

-- `index + 1 < size && format[index + 1] == c`, over the characters behind `index`; with another
-- offset, the list is dropped by the caller.
abbrev pub next_is : Text → ℕ → Bool
next_is [] c = false
next_is (x ∷ xs) c = x == c

abbrev pub behind : Text → Text
behind [] = []
behind (x ∷ xs) = xs

year_round : Text → Round
year_round after =
    let has_double_year = next_is after b'Y' in
    let has_quad_year =
      has_double_year && next_is (behind after) b'Y' && next_is (behind (behind after)) b'Y' in
    if has_quad_year
    then push four_digit_year year_part 3
    else if has_double_year
    then push two_digit_year year_part 1
    else invalid (codes "'Y' must appear as YY or YYYY")

month_round : Text → Round
month_round after =
    let has_double_month = next_is after b'M' in
    let has_triple_month = has_double_month && next_is (behind after) b'M' in
    if has_triple_month
    then push month_name month_part 2
    else if has_double_month
    then push (two_digit_field month 1 12) month_part 1
    else invalid (codes "'M' must appear as MM or MMM")

day_round : Text → Round
day_round after =
    if next_is after b'*'
    then push padded_day day_part 1
    else if next_is after b'D'
    then push (two_digit_field day 1 31) day_part 1
    else invalid (codes "'D' must appear as DD or D*")

hour_round : ℕ → Text → Round
hour_round token after =
    if next_is after token
    then push (two_digit_field hour 0 23) other_part 1
    else invalid (codes "'" ++ (token ∷ (codes "' must appear as " ++ (token ∷ token ∷ []))))

minute_round : Text → Round
minute_round after =
    if next_is after b'm'
    then push (two_digit_field minute 0 59) other_part 1
    else invalid (codes "'m' must appear as mm")

second_round : Text → Round
second_round after =
    if next_is after b'*'
    then push variable_second other_part 1
    else if next_is after b's'
    then push second other_part 1
    else invalid (codes "'s' must appear as ss or s*")

-- The loop that counts a run of 'f', from `digits` on.
pub count_f : Text → ℕ → ℕ
count_f [] digits = digits
count_f (c ∷ cs) digits = let rest = count_f cs (digits + 1) in if c == b'f' then rest else digits

fraction_round : Text → Round
unfolding count_f
fraction_round after =
    if next_is after b'*'
    then push variable_fraction other_part 1
    else (let digits = count_f after 1 in
        if ltb 9 digits
        then invalid (codes "a fraction supports at most 9 'f' digits")
        else push (fraction digits) other_part (digits - 1))

utc_round : Text → Round
utc_round after =
    let has_double_z = next_is after b'Z' in
    let has_triple_z = has_double_z && next_is (behind after) b'Z' in
    if has_triple_z
    then push (utc_offset true) other_part 2
    else if has_double_z
    then push (utc_offset false) other_part 1
    else push utc_designator other_part 0

-- The body of the loop at a character, given the characters behind it.
unfoldable pub round : ℕ → Text → Round
unfolding year_round month_round day_round hour_round minute_round second_round fraction_round
    utc_round
round token after =
    if token == b'Y'
    then year_round after
    else if token == b'M'
    then month_round after
    else if token == b'D'
    then day_round after
    else if token == b'h' || token == b'H'
    then hour_round token after
    else if token == b'm'
    then minute_round after
    else if token == b's'
    then second_round after
    else if token == b'f'
    then fraction_round after
    else if token == b'Z'
    then utc_round after
    else push (separator token) other_part 0

-- The code behind the loop.
unfoldable pub finish : Progress → Compiled
finish p = record {
  steps = if p.has_month || p.has_day then p.steps ++ (date p.has_year ∷ []) else p.steps;
  error = [];
}

-- One round: the step is pushed and the loop goes on, or the invalid parser is returned.
abbrev pub apply_round : (ℕ → Progress → Compiled) → (Text → Compiled) → Progress → Round → Compiled
apply_round next fail p (push step part advance) =
    next advance (mark part (record p { steps = p.steps ++ (step ∷ []) }))
apply_round next fail p (invalid message) = fail message

-- The loop over `format[index..]`; `skip` characters of it belong to the token before.
unfoldable pub compile_loop : Text → Text → ℕ → ℕ → Progress → Compiled
unfolding finish
compile_loop format [] skip index p = finish p
compile_loop format (c ∷ cs) (suc skip) index p = compile_loop format cs skip (index + 1) p
compile_loop format (c ∷ cs) zero index p =
    apply_round (λ advance. compile_loop format cs advance (index + 1))
      (make_invalid_parser format index) p (round c cs)

unfoldable pub compile_format : Text → Compiled
compile_format format =
    if is_empty format
    then make_invalid_parser format 0 (codes "format is empty")
    else compile_loop format format 0 0 start

unfoldable pub is_separator : ℕ → Bool
is_separator tested = not (
    tested == b'Y'
    || tested == b'M'
    || tested == b'D'
    || tested == b'h'
    || tested == b'H'
    || tested == b'm'
    || tested == b's'
    || tested == b'f'
    || tested == b'Z')
