-- ===== src/Timestamp/Steps/Scan/Seconds.antt =====
-- `s*` reads the whole run of digits, and refuses exactly the numbers that an `unsigned` cannot hold.
use eestv_lib.Common.{
  ℕ, ◌+◌, ◌-◌, ◌*◌, ◌^◌, ◌<◌, ◌≡◌, none, some, [], ◌∷◌, arith, ltb, ◌==◌, if◌then◌else◌, length,
  drop, u32, ◌&&◌, drop-cases, inl, inr,
}
use eestv_lib.Common.Int.{pos}
use eestv_lib.Common.Text.{Text}
use eestv_lib.Timestamp.{DateAndTime, is_digit}
use eestv_lib.Timestamp.Steps.{second_loop, variable_second_parser}
use eestv_lib.Timestamp.Steps.Scan.{digit_run, decimal_onto, decimal, decimal_onto-ge}

second_loop-decimal :
    (cs : Text) (s k : ℕ)
    → s < 2 ^ 32
    → second_loop cs s k ≡ (
        if ltb (decimal_onto s (digit_run cs)) (2 ^ 32)
        then some (decimal_onto s (digit_run cs), k + length (digit_run cs))
        else none)
unfolding second_loop is_digit
second_loop-decimal [] s k h = ground arith
second_loop-decimal (c ∷ cs) s k h = ground (
  arith,
  decimal_onto-ge (s * 10 + (c - b'0')) (digit_run cs),
  fits,
  second_loop-decimal cs (s * 10 + (c - b'0')) (k + 1),
)
  where
    fits : s * 10 + (c - b'0') < 2 ^ 32 → u32 (s * 10 + (c - b'0')) ≡ s * 10 + (c - b'0')
    fits p = omega arith

-- On a text whose rest begins with a digit, the step takes the whole run of digits: it stores their
-- value if that is below 2 ^ 32 and fails if not; a rest that begins with no digit does not match.
pub variable_second_parser-decimal :
    (t : Text) (i : ℕ) (d : DateAndTime)
    → variable_second_parser t (pos i) d ≡ (
        let run = digit_run (drop i t) in
        if ltb 0 (length run) && ltb (decimal run) (2 ^ 32)
        then some (length run, record d { second = decimal run; leap_second = decimal run == 60 })
        else none)
unfolding variable_second_parser
variable_second_parser-decimal t i d = elim (drop-cases i t) [
  | inl (e, out) ↦ rw e (ground arith)
  | inr (c, cs, e, at, inside) ↦
      rw e (ground (arith, at, second_loop-decimal (c ∷ cs) 0 0 (omega arith)))
]
