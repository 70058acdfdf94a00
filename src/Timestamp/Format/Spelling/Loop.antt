-- ===== src/Timestamp/Format/Spelling/Loop.antt =====
-- The compiler's loop over the spelling of a list of tokens.
use eestv_lib.Common.{
  ℕ, suc, ◌+◌, ◌≡◌, refl, ap, sym, ◌∙◌, ◌||◌, List, [], ◌∷◌, ◌++◌, arith, length, map, append_assoc,
  append-nil,
}
use eestv_lib.Common.Text.{Text}
use eestv_lib.Timestamp.Format.{
  Progress, Part, year_part, month_part, day_part, other_part, start, mark, finish, compile_loop,
  compile_format,
}
use eestv_lib.Timestamp.Format.Spelling.Tokens.{
  Token, spell_all, spell_more, step_of, part_of, IsClear, is_year, is_date, any_part, steps_of,
}
use eestv_lib.Timestamp.Format.Spelling.Rounds.{round-spell}

-- The characters of a token behind its first are skipped.
compile_loop-skip :
    (format xs rest : Text) (index : ℕ) (p : Progress)
    → compile_loop format (xs ++ rest) (length xs) index p
      ≡ compile_loop format rest 0 (length xs + index) p
unfolding compile_loop
compile_loop-skip format [] rest index p = ap (λ i. compile_loop format rest 0 i p) zero_add
  where
    zero_add : index ≡ 0 + index
    zero_add = omega arith
compile_loop-skip format (x ∷ xs) rest index p =
    compile_loop-skip format xs rest (index + 1) p ∙ ap (λ i. compile_loop format rest 0 i p) move
  where
    move : length xs + (index + 1) ≡ suc (length xs) + index
    move = omega arith

abbrev pushed : Token → Progress → Progress
pushed t p = mark (part_of t) (record p { steps = p.steps ++ (step_of t ∷ []) })

abbrev pushed_all : List Token → Progress → Progress
pushed_all [] p = p
pushed_all (t ∷ ts) p = pushed_all ts (pushed t p)

compile_loop-spell_all :
    (format : Text) (ts : List Token) (index : ℕ) (p : Progress)
    → IsClear ts
    → compile_loop format (spell_all ts) 0 index p ≡ finish (pushed_all ts p)
unfolding compile_loop
compile_loop-spell_all format [] index p h = refl
compile_loop-spell_all format (t ∷ ts) index p h = rw (round-spell t (spell_all ts) h.0) (
    compile_loop-skip format (spell_more t) (spell_all ts) (index + 1) (pushed t p)
    ∙ compile_loop-spell_all format ts (length (spell_more t) + (index + 1)) (pushed t p) h.1)

-- What the loop's variables hold after the tokens.
steps-mark : (part : Part) (p : Progress) → (mark part p).steps ≡ p.steps
steps-mark year_part p = refl
steps-mark month_part p = refl
steps-mark day_part p = refl
steps-mark other_part p = refl

steps-pushed_all :
    (ts : List Token) (p : Progress) → (pushed_all ts p).steps ≡ p.steps ++ map step_of ts
steps-pushed_all [] p = sym (append-nil p.steps)
steps-pushed_all (t ∷ ts) p =
    steps-pushed_all ts (pushed t p)
    ∙ ap (λ s. s ++ map step_of ts)
        (steps-mark (part_of t) (record p { steps = p.steps ++ (step_of t ∷ []) }))
    ∙ append_assoc p.steps (step_of t ∷ []) (map step_of ts)

year-mark : (part : Part) (p : Progress) → (mark part p).has_year ≡ (p.has_year || is_year part)
year-mark year_part p = ground arith
year-mark month_part p = ground arith
year-mark day_part p = ground arith
year-mark other_part p = ground arith

date-mark :
    (part : Part) (p : Progress)
    → ((mark part p).has_month || (mark part p).has_day)
      ≡ ((p.has_month || p.has_day) || is_date part)
date-mark year_part p = ground arith
date-mark month_part p = ground arith
date-mark day_part p = ground arith
date-mark other_part p = ground arith

year-pushed_all :
    (ts : List Token) (p : Progress)
    → (pushed_all ts p).has_year ≡ (p.has_year || any_part is_year ts)
year-pushed_all [] p = ground arith
year-pushed_all (t ∷ ts) p = ground (
  arith,
  year-pushed_all ts (pushed t p),
  year-mark (part_of t) (record p { steps = p.steps ++ (step_of t ∷ []) }),
)

date-pushed_all :
    (ts : List Token) (p : Progress)
    → ((pushed_all ts p).has_month || (pushed_all ts p).has_day)
      ≡ ((p.has_month || p.has_day) || any_part is_date ts)
date-pushed_all [] p = ground arith
date-pushed_all (t ∷ ts) p = ground (
  arith,
  date-pushed_all ts (pushed t p),
  date-mark (part_of t) (record p { steps = p.steps ++ (step_of t ∷ []) }),
)

finish-pushed_all :
    (ts : List Token) → finish (pushed_all ts start) ≡ record { steps = steps_of ts; error = [] }
unfolding finish
finish-pushed_all ts = ground (
  arith,
  steps-pushed_all ts start,
  year-pushed_all ts start,
  date-pushed_all ts start,
  append-nil (map step_of ts),
)

-- A format spelled out of at least one token, each clear of what follows it, compiles without an error
-- to the steps of these tokens.
pub compile_format-spell_all :
    (t : Token) (ts : List Token)
    → IsClear (t ∷ ts)
    → compile_format (spell_all (t ∷ ts)) ≡ record { steps = steps_of (t ∷ ts); error = [] }
unfolding compile_format
compile_format-spell_all t ts h =
    compile_loop-spell_all (spell_all (t ∷ ts)) (t ∷ ts) 0 start h ∙ finish-pushed_all (t ∷ ts)
