-- ===== src/Timestamp/Format/Created.antt =====
-- What a compiled format can produce, whatever the format string.
use eestv_lib.Common.{
  ℕ, zero, suc, ◌+◌, ◌≤◌, Bool, true, false, ◌||◌, List, [], ◌∷◌, ◌++◌, arith, if◌then◌else◌,
}
use eestv_lib.Common.Text.{Text}
use eestv_lib.Timestamp.{default_date_and_time}
use eestv_lib.Timestamp.Steps.{Step, date, run_steps}
use eestv_lib.Timestamp.Steps.Ranges.{
  IsInRange, IsCreated, AllCreated, ResultInRange, run_steps-IsInRange,
}
use eestv_lib.Timestamp.Format.{
  Compiled, make_invalid_parser, Progress, start, Part, year_part, month_part, day_part, other_part,
  mark, Round, push, invalid, round, count_f, apply_round, finish, compile_loop, compile_format,
}

abbrev RoundCreated : Round → Type 0
RoundCreated (push s part n) = IsCreated s
RoundCreated (invalid message) = Unit {0}

count_f-ge : (cs : Text) (n : ℕ) → n ≤ count_f cs n
unfolding count_f
count_f-ge [] n = omega arith
count_f-ge (c ∷ cs) n = ground (arith, count_f-ge cs (n + 1))

round-created : (c : ℕ) (cs : Text) → RoundCreated (round c cs)
unfolding round
round-created c cs = ground (arith, count_f-ge cs 1)

AllCreated-append : (xs ys : List Step) → AllCreated xs → AllCreated ys → AllCreated (xs ++ ys)
AllCreated-append [] ys h k = k
AllCreated-append (x ∷ xs) ys h k = (h.0, AllCreated-append xs ys h.1 k)

mark-created : (part : Part) (p : Progress) → AllCreated p.steps → AllCreated (mark part p).steps
mark-created year_part p h = h
mark-created month_part p h = h
mark-created day_part p h = h
mark-created other_part p h = h

finish-created : (p : Progress) → AllCreated p.steps → AllCreated (finish p).steps
unfolding finish
finish-created p h = go (p.has_month || p.has_day)
  where
    go : (b : Bool) → AllCreated (if b then p.steps ++ (date p.has_year ∷ []) else p.steps)
    go true = AllCreated-append p.steps (date p.has_year ∷ []) h (tt, tt)
    go false = h

apply_round-created :
    (next : ℕ → Progress → Compiled) (format : Text) (index : ℕ) (p : Progress)
    → ((advance : ℕ) (q : Progress) → AllCreated q.steps → AllCreated (next advance q).steps)
    → AllCreated p.steps
    → (r : Round) → RoundCreated r
    → AllCreated (apply_round next (make_invalid_parser format index) p r).steps
unfolding make_invalid_parser
apply_round-created next format index p keep h (push s part n) c = keep n _ (
    mark-created part (record p { steps = p.steps ++ (s ∷ []) })
      (AllCreated-append p.steps (s ∷ []) h (c, tt)))
apply_round-created next format index p keep h (invalid message) c = tt

compile_loop-created :
    (format cs : Text) (skip index : ℕ) (p : Progress)
    → AllCreated p.steps
    → AllCreated (compile_loop format cs skip index p).steps
unfolding compile_loop
compile_loop-created format [] skip index p h = finish-created p h
compile_loop-created format (c ∷ cs) (suc skip) index p h =
    compile_loop-created format cs skip (index + 1) p h
compile_loop-created format (c ∷ cs) zero index p h =
    apply_round-created (λ advance. compile_loop format cs advance (index + 1)) format index p
      (λ advance q. compile_loop-created format cs advance (index + 1) q) h (round c cs)
      (round-created c cs)

compile_format-created : (format : Text) → AllCreated (compile_format format).steps
unfolding compile_format make_invalid_parser
compile_format-created [] = tt
compile_format-created (c ∷ cs) = compile_loop-created (c ∷ cs) (c ∷ cs) 0 0 start tt

default-IsInRange : IsInRange default_date_and_time
default-IsInRange = ground arith

-- Whatever the format string and the text, a match of the compiled steps from a fresh `DateAndTime`
-- leaves every field in its range: year at most 9999, month at most 12, day at most 31, hour at most
-- 23, minute at most 59, second below 2 ^ 32, nanosecond below 10 ^ 9, the offset less than a day, and
-- the leap-second flag set exactly for second 60.
pub compile_format-IsInRange :
    (format t : Text) (i : ℕ)
    → ResultInRange (run_steps (compile_format format).steps t i default_date_and_time)
compile_format-IsInRange format t i =
    run_steps-IsInRange (compile_format format).steps t i default_date_and_time
      (compile_format-created format) default-IsInRange
