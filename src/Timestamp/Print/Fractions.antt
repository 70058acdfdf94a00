-- ===== src/Timestamp/Print/Fractions.antt =====
-- A fraction of `n` printed digits is read back by the step of `n` times `f`.
use native.Mathlib.Nat.{pow-suc, div-lt_iff_lt-mul, one-le-pow}
use eestv_lib.Common.{
  ℕ, zero, suc, ◌+◌, ◌-◌, ◌*◌, ◌/◌, ◌^◌, ◌≤◌, ◌<◌, ◌≡◌, refl, ap, ◌∙◌, [], ◌∷◌, ◌++◌, if◌then◌else◌,
  arith, length, drop, take,
}
use eestv_lib.Common.Text.{Text}
use eestv_lib.Timestamp.{DateAndTime}
use eestv_lib.Timestamp.Steps.{run_step}
use eestv_lib.Timestamp.Steps.Scan.{digit_run, decimal_onto, decimal}
use eestv_lib.Timestamp.Steps.Scan.Fractions.{pow_split, fraction_parser-decimal}
use eestv_lib.Timestamp.Format.Spelling.Tokens.{f}
use eestv_lib.Timestamp.Print.{digit, fixed_onto, Expresses}
use eestv_lib.Timestamp.Print.Fields.{ReadsBack, is_digit-digit}

fixed_onto-append : (n v : ℕ) (acc r : Text) → fixed_onto n v acc ++ r ≡ fixed_onto n v (acc ++ r)
fixed_onto-append zero v acc r = refl
fixed_onto-append (suc n) v acc r = fixed_onto-append n (v / 10) (digit v ∷ acc) r

length-fixed_onto : (n v : ℕ) (acc : Text) → length (fixed_onto n v acc) ≡ n + length acc
length-fixed_onto zero v acc = omega arith
length-fixed_onto (suc n) v acc = omega (arith, length-fixed_onto n (v / 10) (digit v ∷ acc))

digit_run-fixed_onto :
    (n v : ℕ) (cs : Text) → digit_run (fixed_onto n v cs) ≡ fixed_onto n v (digit_run cs)
digit_run-fixed_onto zero v cs = refl
digit_run-fixed_onto (suc n) v cs =
    digit_run-fixed_onto n (v / 10) (digit v ∷ cs)
    ∙ ap (λ b. fixed_onto n (v / 10) (if b then digit v ∷ digit_run cs else [])) (is_digit-digit v)

take-fixed_onto :
    (n v m k : ℕ) (cs : Text) → k ≡ n + m → take k (fixed_onto n v cs) ≡ fixed_onto n v (take m cs)
take-fixed_onto zero v m k cs h = ap (λ j. take j cs) (omega arith)
take-fixed_onto (suc n) v m k cs h =
    take-fixed_onto n (v / 10) (suc m) k (digit v ∷ cs) (omega arith)

decimal_onto-fixed_onto :
    (n v : ℕ) (acc : Text) → v < 10 ^ n → decimal_onto 0 (fixed_onto n v acc) ≡ decimal_onto v acc
decimal_onto-fixed_onto zero v acc h = ap (λ a. decimal_onto a acc) (omega arith)
decimal_onto-fixed_onto (suc n) v acc h =
    decimal_onto-fixed_onto n (v / 10) (digit v ∷ acc) (omega (arith, pow-suc 10 n))
    ∙ ap (λ a. decimal_onto a acc) last
  where
    last : v / 10 * 10 + (digit v - b'0') ≡ v
    last = omega arith

-- The digits that a fraction keeps are a number of `n` digits.
kept_digits : (ns n : ℕ) → n ≤ 9 → ns < 10 ^ 9 → ns / 10 ^ (9 - n) < 10 ^ n
kept_digits ns n h k =
    (div-lt_iff_lt-mul (one-le-pow (9 - n) 10 (omega arith))).1 (omega (arith, whole))
  where
    whole : 10 ^ n * 10 ^ (9 - n) ≡ 10 ^ 9
    whole = pow_split n (9 - n) ∙ ap (λ k. 10 ^ k) {y = 9} (omega arith)

pub fraction-ReadsBack : (n : ℕ) (d : DateAndTime) → Expresses (f n) d → ReadsBack (f n) d
unfolding run_step
fraction-ReadsBack n d x t r i output e =
    ground (arith, fraction_parser-decimal n t i output x.0 x.1, long, value, size)
  where
    v : ℕ
    v = d.nanosecond / 10 ^ (9 - n)

    run : digit_run (drop i t) ≡ fixed_onto n v (digit_run r)
    run = ap digit_run (e ∙ fixed_onto-append n v [] r) ∙ digit_run-fixed_onto n v r

    size : length (fixed_onto n v []) ≡ n
    size = omega (arith, length-fixed_onto n v [])

    long : n ≤ length (digit_run (drop i t))
    long = omega (arith, ap length run, length-fixed_onto n v (digit_run r))

    value : decimal (take n (digit_run (drop i t))) ≡ v
    value =
        ap (λ ds. decimal (take n ds)) run
        ∙ ap decimal (take-fixed_onto n v 0 n (digit_run r) (omega arith))
        ∙ decimal_onto-fixed_onto n v [] (kept_digits d.nanosecond n x.1 x.2)
