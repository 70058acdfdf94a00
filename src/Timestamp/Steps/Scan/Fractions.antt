-- ===== src/Timestamp/Steps/Scan/Fractions.antt =====
-- `f`, `ff`, ... and `f*`: the digits as nanoseconds, with no wrap of an `unsigned`.
use native.Mathlib.Nat.{pow-suc, one-le-pow, pow-le-pow_right, mul-le-mul_right, mul-le-mul_left}
use eestv_lib.Common.{
  ℕ, zero, suc, ◌+◌, ◌-◌, ◌*◌, ◌^◌, ◌≤◌, ◌<◌, ◌≡◌, refl, none, some, [], ◌∷◌, arith, ltb, leb,
  if◌then◌else◌, length, drop, take, subst, length-take, length-drop, length-take_le, u32,
  drop-cases, inl, inr, ap, ◌∙◌, true, Bool-cases,
}
use eestv_lib.Common.Int.{pos}
use eestv_lib.Common.Text.{Text}
use eestv_lib.Timestamp.{DateAndTime, is_digit}
use eestv_lib.Timestamp.Steps.{
  scale_loop, fraction_loop, fraction_parser, variable_fraction_loop, variable_fraction_parser,
}
use eestv_lib.Timestamp.Steps.Scan.{digit_run, decimal_onto, decimal}

-- One more digit uses up one of the powers of ten that are still to come.
digit_room : (v d n m : ℕ) → d ≤ 9 → (v + 1) * 10 ^ suc n ≤ m → (v * 10 + d + 1) * 10 ^ n ≤ m
digit_room v d n m h p =
    let q : (v * 10 + d + 1) * 10 ^ n ≤ (v + 1) * 10 * 10 ^ n =
      mul-le-mul_right (10 ^ n) (omega arith) in
    omega (arith, q, ap (λ (t : ℕ). (v + 1) * t) (pow-suc 10 n))

fits_now : (v n m : ℕ) → (v + 1) * 10 ^ n ≤ m → v < m
fits_now v n m p =
    let q : (v + 1) * 1 ≤ (v + 1) * 10 ^ n =
      mul-le-mul_left (v + 1) (one-le-pow n 10 (omega arith)) in
    omega (arith, q)

scale_loop-pow : (r v m : ℕ) → m < 2 ^ 32 → v * 10 ^ r ≤ m → scale_loop r v ≡ v * 10 ^ r
unfolding scale_loop
scale_loop-pow zero v m h p = omega arith
scale_loop-pow (suc r) v m h p =
    ap (scale_loop r) exact ∙ scale_loop-pow r (v * 10) m h (omega (arith, again)) ∙ again
  where
    again : v * 10 * 10 ^ r ≡ v * 10 ^ suc r
    again = omega (arith, ap (λ (t : ℕ). v * t) (pow-suc 10 r))

    low : v * 10 * 1 ≤ v * 10 * 10 ^ r
    low = mul-le-mul_left (v * 10) (one-le-pow r 10 (omega arith))

    exact : u32 (v * 10) ≡ v * 10
    exact = omega (arith, low, again)

fraction_loop-decimal :
    (n : ℕ) (cs : Text) (v : ℕ)
    → (v + 1) * 10 ^ n ≤ 10 ^ 9
    → fraction_loop n cs v ≡ (
        if leb n (length (digit_run cs))
        then some (decimal_onto v (take n (digit_run cs)))
        else none)
unfolding fraction_loop is_digit
fraction_loop-decimal zero cs v p = ground arith
fraction_loop-decimal (suc n) [] v p = ground arith
fraction_loop-decimal (suc n) (c ∷ cs) v p =
    ground (arith, room, exact, fraction_loop-decimal n cs (v * 10 + (c - b'0')))
  where
    room : c - b'0' ≤ 9 → (v * 10 + (c - b'0') + 1) * 10 ^ n ≤ 10 ^ 9
    room h = digit_room v (c - b'0') n (10 ^ 9) h p

    exact : c - b'0' ≤ 9 → u32 (v * 10 + (c - b'0')) ≡ v * 10 + (c - b'0')
    exact h = omega (arith, fits_now (v * 10 + (c - b'0')) n (10 ^ 9) (room h))

variable_fraction_loop-decimal :
    (cs : Text) (v r u k : ℕ)
    → u + r ≡ 9
    → (v + 1) * 10 ^ r ≤ 10 ^ 9
    → variable_fraction_loop cs v u k ≡ (
      decimal_onto v (take r (digit_run cs)),
      u + length (take r (digit_run cs)),
      k + length (digit_run cs),
    )
unfolding variable_fraction_loop is_digit
variable_fraction_loop-decimal [] v zero u k e p = ground arith
variable_fraction_loop-decimal [] v (suc r) u k e p = ground arith
variable_fraction_loop-decimal (c ∷ cs) v zero u k e p =
    ground (arith, variable_fraction_loop-decimal cs v zero u (k + 1) e p)
variable_fraction_loop-decimal (c ∷ cs) v (suc r) u k e p =
    ground (
      arith,
      room,
      exact,
      variable_fraction_loop-decimal cs (v * 10 + (c - b'0')) r (u + 1) (k + 1),
    )
  where
    room : c - b'0' ≤ 9 → (v * 10 + (c - b'0') + 1) * 10 ^ r ≤ 10 ^ 9
    room h = digit_room v (c - b'0') r (10 ^ 9) h p

    exact : c - b'0' ≤ 9 → u32 (v * 10 + (c - b'0')) ≡ v * 10 + (c - b'0')
    exact h = omega (arith, fits_now (v * 10 + (c - b'0')) r (10 ^ 9) (room h))

decimal_bound :
    (n : ℕ) (cs : Text) (v : ℕ)
    → suc (decimal_onto v (take n (digit_run cs))) ≤ (v + 1) * 10 ^ length (take n (digit_run cs))
decimal_bound zero cs v = omega arith
decimal_bound (suc n) [] v = omega arith
decimal_bound (suc n) (c ∷ cs) v = elim (Bool-cases (is_digit c)) [
  | inl e ↦
      rw e
        (grown (length (take n (digit_run cs))) (nine e) (decimal_bound n cs (v * 10 + (c - b'0'))))
  | inr e ↦ rw e (omega arith)
]
  where
    nine : is_digit c ≡ true → c - b'0' ≤ 9
    nine e = unfold is_digit in ground arith

    grown :
        {x : ℕ} (l : ℕ)
        → c - b'0' ≤ 9
        → suc x ≤ (v * 10 + (c - b'0') + 1) * 10 ^ l
        → suc x ≤ (v + 1) * 10 ^ suc l
    grown l h q = omega (arith, q, digit_room v (c - b'0') l ((v + 1) * 10 ^ suc l) h (omega arith))

length-digit_run : (cs : Text) → length (digit_run cs) ≤ length cs
length-digit_run [] = omega arith
length-digit_run (c ∷ cs) = ground (arith, length-digit_run cs)

pub pow_split : (l r : ℕ) → 10 ^ l * 10 ^ r ≡ 10 ^ (l + r)
pow_split l zero = omega (arith, ap (λ k. 10 ^ k) zero_add)
  where
    zero_add : l ≡ l + zero
    zero_add = omega arith
pow_split l (suc r) =
    let next : 10 ^ suc (l + r) ≡ 10 ^ (l + suc r) = ap (λ k. 10 ^ k) (shift) in
    omega
      (arith, pow_split l r, pow-suc 10 (l + r), next, ap (λ (t : ℕ). 10 ^ l * t) (pow-suc 10 r))
  where
    shift : suc (l + r) ≡ l + suc r
    shift = omega arith

-- Digits that are scaled up to nine places stay below a second.
scaled_bound :
    (n : ℕ) (cs : Text) (l r : ℕ)
    → length (take n (digit_run cs)) ≡ l
    → l + r ≡ 9
    → decimal (take n (digit_run cs)) * 10 ^ r < 10 ^ 9
scaled_bound n cs l r e h =
    let x = decimal (take n (digit_run cs)) in
    let low : suc x ≤ (0 + 1) * 10 ^ l =
      subst (λ k. suc x ≤ (0 + 1) * 10 ^ k) e (decimal_bound n cs 0) in
    let wide : suc x * 10 ^ r ≤ 10 ^ l * 10 ^ r = mul-le-mul_right (10 ^ r) (omega (arith, low)) in
    let whole : 10 ^ l * 10 ^ r ≡ 10 ^ 9 = pow_split l r ∙ ap (λ k. 10 ^ k) h in
    omega (arith, wide, whole, one-le-pow r 10 (omega arith))

pub fraction_bound :
    (n : ℕ) (cs : Text)
    → n ≤ 9
    → n ≤ length (digit_run cs)
    → decimal (take n (digit_run cs)) * 10 ^ (9 - n) < 10 ^ 9
fraction_bound n cs h p =
    scaled_bound n cs n (9 - n) (length-take_le n (digit_run cs) p) (omega arith)

pub variable_fraction_bound :
    (cs : Text)
    → decimal (take 9 (digit_run cs)) * 10 ^ (9 - length (take 9 (digit_run cs))) < 10 ^ 9
variable_fraction_bound cs =
    scaled_bound 9 cs (length (take 9 (digit_run cs))) (9 - length (take 9 (digit_run cs))) refl
      (omega (arith, length-take 9 (digit_run cs)))

-- The step of `fff` and the like, for `n` digits with `n` from 1 to 9, matches exactly where `n` digits
-- stand, takes these, and stores their value in nanoseconds, unwrapped.
pub fraction_parser-decimal :
    (n : ℕ) (t : Text) (i : ℕ) (d : DateAndTime)
    → 1 ≤ n
    → n ≤ 9
    → fraction_parser n t (pos i) d ≡ (
        let run = digit_run (drop i t) in
        if leb n (length run)
        then some (n, record d { nanosecond = decimal (take n run) * 10 ^ (9 - n) })
        else none)
unfolding fraction_parser
fraction_parser-decimal n t i d low high = ground (
  arith,
  fraction_loop-decimal n (drop i t) 0 room,
  length-digit_run (drop i t),
  length-drop i t,
  taken,
)
  where
    run : Text
    run = digit_run (drop i t)

    room : (0 + 1) * 10 ^ n ≤ 10 ^ 9
    room = omega (arith, pow-le-pow_right {n = 10} (omega arith) {i = n} {j = 9} high)

    taken :
        n ≤ length run
        → scale_loop (9 - n) (decimal (take n run)) ≡ decimal (take n run) * 10 ^ (9 - n)
    taken h =
        scale_loop-pow (9 - n) (decimal (take n run)) (10 ^ 9) (omega arith) (
          omega (arith, scaled_bound n (drop i t) n (9 - n) (length-take_le n run h) (omega arith)))

-- `f*` matches wherever a digit stands, takes the whole run of digits, and stores the value of at most
-- nine of them in nanoseconds, unwrapped.
pub variable_fraction_parser-decimal :
    (t : Text) (i : ℕ) (d : DateAndTime)
    → variable_fraction_parser t (pos i) d ≡ (
        let run = digit_run (drop i t) in
        if ltb 0 (length run)
        then some (
          length run,
          record d { nanosecond = decimal (take 9 run) * 10 ^ (9 - length (take 9 run)) },
        )
        else none)
unfolding variable_fraction_parser
variable_fraction_parser-decimal t i d = elim (drop-cases i t) [
  | inl (e, out) ↦ rw e (ground arith)
  | inr (c, cs, e, at, inside) ↦ rw e (
      ground (
        arith,
        at,
        variable_fraction_loop-decimal (c ∷ cs) 0 9 0 0 (omega arith) (omega arith),
        scaled (c ∷ cs),
      ))
]
  where
    same : (l : ℕ) → 9 - (0 + l) ≡ 9 - l
    same l = omega arith

    below : {x : ℕ} → x < 10 ^ 9 → x ≤ 10 ^ 9
    below h = omega arith

    nine : (cs : Text) → length (take 9 (digit_run cs)) + (9 - length (take 9 (digit_run cs))) ≡ 9
    nine cs = omega (arith, length-take 9 (digit_run cs))

    scaled :
        (cs : Text)
        → let used = take 9 (digit_run cs) in
          scale_loop (9 - (0 + length used)) (decimal used) ≡ decimal used * 10 ^ (9 - length used)
    scaled cs =
        let used = take 9 (digit_run cs) in
        ap (λ k. scale_loop k (decimal used)) (same (length used))
        ∙ scale_loop-pow (9 - length used) (decimal used) (10 ^ 9) (omega arith)
            (below (scaled_bound 9 cs (length used) (9 - length used) refl (nine cs)))
