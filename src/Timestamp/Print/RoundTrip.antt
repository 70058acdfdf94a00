-- ===== src/Timestamp/Print/RoundTrip.antt =====
-- Whole formats: what is printed in a format is parsed back by the steps that the format compiles to.
use eestv_lib.Common.{
  ℕ, ◌+◌, ◌≤◌, ◌≡◌, refl, sym, ap, ◌∙◌, Bool, true, false, ◌||◌, some, List, [], ◌∷◌, ◌++◌, arith,
  length, drop, map, ◌⊎◌, inl, inr, Bool-cases, drop-append, drop-drop, length-append, append_assoc,
  if◌then◌else◌,
}
use eestv_lib.Common.Int.{pos}
use eestv_lib.Common.Text.{Text}
use eestv_lib.Timestamp.{DateAndTime, default_date_and_time, is_leap_year, max_day_in_month}
use eestv_lib.Timestamp.Steps.{Step, run_step, run_steps, date_validator, date}
use eestv_lib.Timestamp.Format.{Compiled, compile_format}
use eestv_lib.Timestamp.Format.Spelling.{
  Token, spell_all, step_of, IsClear, compile_format-spell_all,
}
use eestv_lib.Timestamp.Format.Spelling.Tokens.{
  yyyy, yy, mm, mmm, dd, d_any, hh, hh_upper, minutes, ss, s_any, f_any, z, zz, zzz, f, literal,
  part_of, is_year, is_date, any_part,
}
use eestv_lib.Timestamp.Print.{print, print_all, take_over, take_over_all, Expresses, ExpressAll}
use eestv_lib.Timestamp.Print.Fields.{
  ReadsBack, year-ReadsBack, short_year-ReadsBack, month-ReadsBack, month_name-ReadsBack,
  day-ReadsBack, padded_day-ReadsBack, hour-ReadsBack, minute-ReadsBack, second-ReadsBack,
  literal-ReadsBack, utc-ReadsBack,
}
use eestv_lib.Timestamp.Print.Offsets.{offset-ReadsBack}
use eestv_lib.Timestamp.Print.Fractions.{fraction-ReadsBack}

token-ReadsBack : (tok : Token) (d : DateAndTime) → Expresses tok d → ReadsBack tok d
token-ReadsBack yyyy d x = year-ReadsBack d x
token-ReadsBack yy d x = short_year-ReadsBack d x
token-ReadsBack mm d x = month-ReadsBack d x
token-ReadsBack mmm d x = month_name-ReadsBack d x
token-ReadsBack dd d x = day-ReadsBack d x
token-ReadsBack d_any d x = padded_day-ReadsBack d x
token-ReadsBack hh d x = (hour-ReadsBack d x).0
token-ReadsBack hh_upper d x = (hour-ReadsBack d x).1
token-ReadsBack minutes d x = minute-ReadsBack d x
token-ReadsBack ss d x = second-ReadsBack d x
token-ReadsBack s_any d x = absurd x
token-ReadsBack f_any d x = absurd x
token-ReadsBack z d x = utc-ReadsBack d x
token-ReadsBack zz d x = (offset-ReadsBack d x).0
token-ReadsBack zzz d x = (offset-ReadsBack d x).1
token-ReadsBack (f n) d x = fraction-ReadsBack n d x
token-ReadsBack (literal c) d x = literal-ReadsBack c d

-- The steps of the tokens take what is printed for these, whatever steps follow.
run_steps-tokens :
    (ts : List Token) (more : List Step) (t r : Text) (i : ℕ) (d output : DateAndTime)
    → ExpressAll ts d
    → drop i t ≡ print_all ts d ++ r
    → run_steps (map step_of ts ++ more) t i output
      ≡ run_steps more t (i + length (print_all ts d)) (take_over_all ts d output)
unfolding run_steps
run_steps-tokens [] more t r i d output x e = ap (λ j. run_steps more t j output) (omega arith)
run_steps-tokens (tok ∷ ts) more t r i d output x e =
    rw (token-ReadsBack tok d x.0 t (print_all ts d ++ r) i output whole) (
      run_steps-tokens ts more t r (i + length (print tok d)) d (take_over tok d output) x.1 rest
      ∙ ap (λ j. run_steps more t j (take_over_all ts d (take_over tok d output)))
          (omega (arith, length-append (print tok d) (print_all ts d))))
  where
    whole : drop i t ≡ print tok d ++ (print_all ts d ++ r)
    whole = e ∙ append_assoc (print tok d) (print_all ts d) r

    rest : drop (i + length (print tok d)) t ≡ print_all ts d ++ r
    rest =
        sym (drop-drop i (length (print tok d)) t)
        ∙ ap (drop (length (print tok d))) whole
        ∙ drop-append (length (print tok d)) (print tok d) (print_all ts d ++ r) refl

-- The date of a reading: nothing, or the date that was printed.
abbrev DateOf : DateAndTime → Bool → DateAndTime → Type 0
DateOf d seen output =
    (seen ≡ true → output.year ≡ d.year)
    × ((output.month ≡ 0) ⊎ (output.month ≡ d.month))
    × ((output.day ≡ 0) ⊎ (output.day ≡ d.day))

take_over-DateOf :
    (tok : Token) (d output : DateAndTime) (seen : Bool)
    → DateOf d seen output
    → DateOf d (is_year (part_of tok) || seen) (take_over tok d output)
take_over-DateOf yyyy d output seen h = (λ e. refl, h.1, h.2)
take_over-DateOf yy d output seen h = (λ e. refl, h.1, h.2)
take_over-DateOf mm d output seen h = (h.0, inr refl, h.2)
take_over-DateOf mmm d output seen h = (h.0, inr refl, h.2)
take_over-DateOf dd d output seen h = (h.0, h.1, inr refl)
take_over-DateOf d_any d output seen h = (h.0, h.1, inr refl)
take_over-DateOf hh d output seen h = h
take_over-DateOf hh_upper d output seen h = h
take_over-DateOf minutes d output seen h = h
take_over-DateOf ss d output seen h = h
take_over-DateOf s_any d output seen h = h
take_over-DateOf f_any d output seen h = h
take_over-DateOf z d output seen h = h
take_over-DateOf zz d output seen h = h
take_over-DateOf zzz d output seen h = h
take_over-DateOf (f n) d output seen h = h
take_over-DateOf (literal c) d output seen h = h

take_over_all-DateOf :
    (ts : List Token) (d output : DateAndTime) (seen : Bool)
    → DateOf d seen output
    → DateOf d (any_part is_year ts || seen) (take_over_all ts d output)
take_over_all-DateOf [] d output seen h = h
take_over_all-DateOf (tok ∷ ts) d output seen h =
    let (year, month, day) =
      take_over_all-DateOf ts d (take_over tok d output) (is_year (part_of tok) || seen)
        (take_over-DateOf tok d output seen h) in
    (λ e. year (ground (arith, e)), month, day)

leap_longest :
    (month : ℕ) (leap_year : Bool) → max_day_in_month month leap_year ≤ max_day_in_month month true
unfolding max_day_in_month
leap_longest month true = omega arith
leap_longest month false = ground arith

date_validator-DateOf :
    (has_year : Bool) (t : Text) (i : ℕ) (d output : DateAndTime)
    → DateOf d has_year output
    → d.day ≤ max_day_in_month d.month (is_leap_year d.year)
    → date_validator has_year t (pos i) output ≡ some (0, output)
unfolding date_validator
date_validator-DateOf has_year t i d output (year, inl month, day) k = ground (arith, month)
date_validator-DateOf has_year t i d output (year, inr month, inl day) k = ground (arith, day)
date_validator-DateOf true t i d output (year, inr month, inr day) k =
    ground (arith, ap is_leap_year (year refl), month, day, k)
date_validator-DateOf false t i d output (year, inr month, inr day) k =
    ground (arith, month, day, k, leap_longest d.month (is_leap_year d.year))

-- The date check behind the tokens passes.
run_steps-date :
    (ts : List Token) (t : Text) (i : ℕ) (d : DateAndTime)
    → d.day ≤ max_day_in_month d.month (is_leap_year d.year)
    → let output = take_over_all ts d default_date_and_time in
      run_steps (if any_part is_date ts then date (any_part is_year ts) ∷ [] else []) t i output
      ≡ some (i, output)
unfolding run_steps run_step
run_steps-date ts t i d k = elim (Bool-cases (any_part is_date ts)) [
  | inl e ↦ rw e (
      rw (date_validator-DateOf (any_part is_year ts) t i d output dates k)
        (ap (λ j. some (j, output)) (omega arith)))
  | inr e ↦ rw e refl
]
  where
    output : DateAndTime
    output = take_over_all ts d default_date_and_time

    dates : DateOf d (any_part is_year ts) output
    dates =
        let (year, month, day) =
          take_over_all-DateOf ts d default_date_and_time false
            (λ e. absurd (ground (arith, e)), inl refl, inl refl) in
        (λ e. year (ground (arith, e)), month, day)

-- What is printed for a date in a format of clear tokens, whatever text follows it, is parsed by the
-- steps that the spelled-out format compiles to, if every token can express the date and its day is a
-- day of its month: from a default date on they take exactly the printed text, and take over each part
-- of the date that a token expresses.
pub run_steps-print_all :
    (tok : Token) (ts : List Token) (d : DateAndTime) (rest : Text)
    → IsClear (tok ∷ ts)
    → ExpressAll (tok ∷ ts) d
    → d.day ≤ max_day_in_month d.month (is_leap_year d.year)
    → run_steps
        (compile_format (spell_all (tok ∷ ts))).steps
        (print_all (tok ∷ ts) d ++ rest)
        0
        default_date_and_time
      ≡ some (length (print_all (tok ∷ ts) d), take_over_all (tok ∷ ts) d default_date_and_time)
run_steps-print_all tok ts d rest c x k =
    ap (λ (compiled : Compiled). run_steps compiled.steps text 0 default_date_and_time)
      (compile_format-spell_all tok ts c)
    ∙ run_steps-tokens (tok ∷ ts) _ text rest 0 d default_date_and_time x refl
    ∙ run_steps-date (tok ∷ ts) text (0 + length (print_all (tok ∷ ts) d)) d k
    ∙ ap (λ j. some (j, take_over_all (tok ∷ ts) d default_date_and_time)) (omega arith)
  where
    text : Text
    text = print_all (tok ∷ ts) d ++ rest
