-- ===== src/Timestamp/Format/Errors.antt =====
-- The contract of `CompiledDateAndTimeParser`: an invalid format has no steps.
use eestv_lib.Common.{
  ℕ, zero, suc, ◌+◌, ◌≡◌, refl, sym, Bool, true, false, List, [], ◌∷◌, ◌++◌, arith,
}
use eestv_lib.Common.Text.{Text, codes}
use eestv_lib.Timestamp.Steps.{Step, date}
use eestv_lib.Timestamp.Format.{
  Compiled, is_valid, make_invalid_parser, Progress, start, Part, mark, Round, apply_round, push,
  invalid, round, finish, year_part, month_part, day_part, other_part, compile_loop, compile_format,
}

abbrev pub has_steps : List Step → Bool
has_steps [] = false
has_steps (s ∷ ss) = true

has_steps-append : (xs ys : List Step) (s : Step) → has_steps (xs ++ (s ∷ ys)) ≡ true
has_steps-append [] ys s = refl
has_steps-append (x ∷ xs) ys s = refl

steps-mark : (part : Part) (p : Progress) → (mark part p).steps ≡ p.steps
steps-mark year_part p = refl
steps-mark month_part p = refl
steps-mark day_part p = refl
steps-mark other_part p = refl

has_steps-finish : (p : Progress) → has_steps p.steps ≡ true → has_steps (finish p).steps ≡ true
unfolding finish
has_steps-finish p h = ground (arith, has_steps-append p.steps [] (date p.has_year))

invalid_without_steps :
    (format : Text) (index : ℕ) (message : Text)
    → is_valid (make_invalid_parser format index message)
      ≡ has_steps (make_invalid_parser format index message).steps
unfolding make_invalid_parser
invalid_without_steps format index message = refl

abbrev Contract : Compiled → Type 0
Contract compiled = is_valid compiled ≡ has_steps compiled.steps

apply_round-valid :
    (next : ℕ → Progress → Compiled) (format : Text) (index : ℕ) (p : Progress)
    → ((advance : ℕ) (q : Progress) → has_steps q.steps ≡ true → Contract (next advance q))
    → (r : Round) → Contract (apply_round next (make_invalid_parser format index) p r)
apply_round-valid next format index p keep (push step part advance) = keep advance _ (
    rw (steps-mark part (record p { steps = p.steps ++ (step ∷ []) }))
      (has_steps-append p.steps [] step))
apply_round-valid next format index p keep (invalid message) =
    invalid_without_steps format index message

valid-iff-steps_from :
    (format cs : Text) (skip index : ℕ) (p : Progress)
    → has_steps p.steps ≡ true
    → is_valid (compile_loop format cs skip index p)
      ≡ has_steps (compile_loop format cs skip index p).steps
unfolding compile_loop
valid-iff-steps_from format [] skip index p h = sym (has_steps-finish p h)
valid-iff-steps_from format (c ∷ cs) (suc skip) index p h =
    valid-iff-steps_from format cs skip (index + 1) p h
valid-iff-steps_from format (c ∷ cs) zero index p h =
    apply_round-valid (λ advance. compile_loop format cs advance (index + 1)) format index p
      (λ advance q. valid-iff-steps_from format cs advance (index + 1) q) (round c cs)

-- For every format, the compiled parser is valid, its error being empty, exactly if it has steps.
pub is_valid-eq-has_steps :
    (format : Text) → is_valid (compile_format format) ≡ has_steps (compile_format format).steps
unfolding compile_format compile_loop
is_valid-eq-has_steps [] = invalid_without_steps [] 0 (codes "format is empty")
is_valid-eq-has_steps (c ∷ cs) =
    apply_round-valid (λ advance. compile_loop (c ∷ cs) cs advance (0 + 1)) (c ∷ cs) 0 start
      (λ advance q. valid-iff-steps_from (c ∷ cs) cs advance (0 + 1) q) (round c cs)
