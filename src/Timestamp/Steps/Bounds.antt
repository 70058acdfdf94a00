-- ===== src/Timestamp/Steps/Bounds.antt =====
-- A step that matches consumes characters of the text only.
use eestv_lib.Common.{
  ℕ, ◌+◌, ◌-◌, ◌*◌, ◌≤◌, ◌⊎◌, u32, ◌<◌, ◌≡◌, refl, Option, none, some, List, [], ◌∷◌, arith, length,
  drop, length-drop,
}
use eestv_lib.Common.Int.{pos}
use eestv_lib.Common.Text.{Text}
use eestv_lib.Timestamp.{DateAndTime, try_parse_two_digits, try_parse_four_digits}
use eestv_lib.Timestamp.Steps.{
  Step, StepResult, and_then, separator, two_digit_year, four_digit_year, two_digit_field,
  padded_day, month_name, second, variable_second, fraction, variable_fraction, utc_designator,
  utc_offset, date, run_step, separator_parser, two_digit_year_parser, four_digit_year_parser,
  two_digit_field_parser, padded_day_parser, month_name_parser, second_parser, second_loop,
  variable_second_parser, fraction_parser, variable_fraction_loop, variable_fraction_parser,
  utc_designator_parser, utc_offset_parser, date_validator, run_steps,
}

pub two_digits_fit :
    (t : Text) (i o : ℕ) → (try_parse_two_digits t (pos i) o ≡ none) ⊎ (i + o + 1 < length t)
unfolding try_parse_two_digits
two_digits_fit t i o = ground arith

four_digits_fit : (t : Text) (i : ℕ) → (try_parse_four_digits t (pos i) ≡ none) ⊎ (i + 3 < length t)
unfolding try_parse_four_digits
four_digits_fit t i = ground arith

-- The second component of a loop's result, if there is one.
abbrev consumed_of : Option (ℕ × ℕ) → ℕ
consumed_of none = 0
consumed_of (some (v, n)) = n

second_loop_fits : (cs : Text) (s k : ℕ) → consumed_of (second_loop cs s k) ≤ k + length cs
unfolding second_loop
second_loop_fits [] s k = omega arith
second_loop_fits (c ∷ cs) s k =
    ground (arith, second_loop_fits cs (u32 (s * 10 + (c - b'0'))) (k + 1))

variable_fraction_loop_fits :
    (cs : Text) (v u k : ℕ) → (variable_fraction_loop cs v u k).2 ≤ k + length cs
unfolding variable_fraction_loop
variable_fraction_loop_fits [] v u k = omega arith
variable_fraction_loop_fits (c ∷ cs) v u k = ground (
  arith,
  variable_fraction_loop_fits cs (u32 (v * 10 + (c - b'0'))) (u + 1) (k + 1),
  variable_fraction_loop_fits cs v u (k + 1),
)

-- A step that matches inside the text does not run over its end.
pub run_step_fits :
    (s : Step) (t : Text) (i : ℕ) (d : DateAndTime) {j : ℕ} {d' : DateAndTime}
    → i ≤ length t
    → run_step s t (pos i) d ≡ some (j, d')
    → i + j ≤ length t
unfolding run_step
run_step_fits (separator c) t i d h e = unfold separator_parser in ground arith
run_step_fits two_digit_year t i d h e =
    unfold two_digit_year_parser in ground (arith, two_digits_fit t i 0)
run_step_fits four_digit_year t i d h e =
    unfold four_digit_year_parser in ground (arith, four_digits_fit t i)
run_step_fits (two_digit_field f lo hi) t i d h e =
    unfold two_digit_field_parser in ground (arith, two_digits_fit t i 0)
run_step_fits padded_day t i d h e = unfold padded_day_parser in ground arith
run_step_fits month_name t i d h e = unfold month_name_parser in ground arith
run_step_fits second t i d h e = unfold second_parser in ground (arith, two_digits_fit t i 0)
run_step_fits variable_second t i d h e =
    unfold variable_second_parser in
    ground (arith, second_loop_fits (drop i t) 0 0, length-drop i t)
run_step_fits (fraction n) t i d h e = unfold fraction_parser in ground arith
run_step_fits variable_fraction t i d h e =
    unfold variable_fraction_parser in
    ground (arith, variable_fraction_loop_fits (drop i t) 0 0 0, length-drop i t)
run_step_fits utc_designator t i d h e = unfold utc_designator_parser in ground arith
run_step_fits (utc_offset colon) t i d h e =
    unfold utc_offset_parser in ground (arith, two_digits_fit t i 3, two_digits_fit t i 4)
run_step_fits (date y) t i d h e = unfold date_validator in ground arith

-- A run of steps that starts inside the text and matches ends between its start and the end of the
-- text.
pub run_steps_fits :
    (ss : List Step) (t : Text) (i : ℕ) (d : DateAndTime) {e : ℕ} {d' : DateAndTime}
    → i ≤ length t
    → run_steps ss t i d ≡ some (e, d')
    → (i ≤ e) × (e ≤ length t)
unfolding run_steps
run_steps_fits [] t i d h r = ground arith
run_steps_fits (s ∷ ss) t i d {e} {d'} h r =
    go (run_step s t (pos i) d) refl r (λ k c p q. run_steps_fits ss t k c p q)
  where
    go :
        (m : StepResult)
        → run_step s t (pos i) d ≡ m
        → and_then m (λ j. run_steps ss t (i + j)) ≡ some (e, d')
        → ((k : ℕ) (c : DateAndTime)
            → k ≤ length t
            → run_steps ss t k c ≡ some (e, d')
            → (k ≤ e) × (e ≤ length t))
        → (i ≤ e) × (e ≤ length t)
    go none q w later = ground arith
    go (some (j, changed)) q w later =
        let (low, high) = later (i + j) changed (run_step_fits s t i d h q) w in (omega arith, high)
