-- ===== src/Timestamp/Format/Spelling/Rounds.antt =====
-- One round of the compiler's loop at the spelling of a token.
use eestv_lib.Common.{
  ℕ, zero, suc, ◌+◌, ◌-◌, ◌≤◌, ◌≡◌, refl, ap, sym, subst, ◌∙◌, true, false, ◌&&◌, [], ◌∷◌, ◌++◌,
  arith, ◌==◌, replicate, length, length-replicate,
}
use eestv_lib.Common.Text.{Text}
use eestv_lib.Timestamp.Steps.{separator, fraction}
use eestv_lib.Timestamp.Format.{
  push, other_part, fraction_round, round, count_f, next_is, is_separator,
}
use eestv_lib.Timestamp.Format.Spelling.Tokens.{
  Token, yyyy, yy, mm, mmm, dd, d_any, hh, hh_upper, minutes, ss, s_any, f_any, z, zz, zzz, f,
  literal, spell_first, spell_more, step_of, part_of, clear_before,
}

count_f-replicate :
    (n digits : ℕ) (rest : Text)
    → next_is rest b'f' ≡ false
    → count_f (replicate n b'f' ++ rest) digits ≡ n + digits
unfolding count_f
count_f-replicate zero digits [] h = omega arith
count_f-replicate zero digits (c ∷ cs) h = ground arith
count_f-replicate (suc n) digits rest h = ground (arith, count_f-replicate n (digits + 1) rest h)

fraction_round-replicate :
    (n : ℕ) (rest : Text)
    → n ≤ 8
    → next_is rest b'f' ≡ false
    → (n == 0 && next_is rest b'*') ≡ false
    → fraction_round (replicate n b'f' ++ rest) ≡ push (fraction (suc n)) other_part n
unfolding fraction_round
fraction_round-replicate zero rest le run star = ground (arith, count_f-replicate 0 1 rest run, one)
  where
    one : 0 + 1 ≡ suc 0
    one = omega arith
fraction_round-replicate (suc n) rest le run star =
    ground (arith, count_f-replicate n 2 rest run, two)
  where
    two : n + 2 ≡ suc (suc n)
    two = omega arith

round-literal :
    (c : ℕ) (rest : Text) → is_separator c ≡ true → round c rest ≡ push (separator c) other_part 0
unfolding is_separator round
round-literal c rest h = ground arith

-- At a token that is clear of what follows, the loop pushes the token's step and skips its spelling.
pub round-spell :
    (t : Token) (rest : Text)
    → clear_before t rest ≡ true
    → round (spell_first t) (spell_more t ++ rest)
      ≡ push (step_of t) (part_of t) (length (spell_more t))
unfolding round
round-spell yyyy rest h = refl
round-spell yy [] h = refl
round-spell yy (c ∷ cs) h = ground arith
round-spell mm [] h = refl
round-spell mm (c ∷ cs) h = ground arith
round-spell mmm rest h = refl
round-spell dd rest h = refl
round-spell d_any rest h = refl
round-spell hh rest h = refl
round-spell hh_upper rest h = refl
round-spell minutes rest h = refl
round-spell ss rest h = refl
round-spell s_any rest h = refl
round-spell f_any rest h = refl
round-spell z [] h = refl
round-spell z (c ∷ cs) h = ground arith
round-spell zz [] h = refl
round-spell zz (c ∷ cs) h = ground arith
round-spell zzz rest h = refl
round-spell (f zero) rest h = ground arith
round-spell (f (suc n)) rest h =
    subst
      (λ k.
        fraction_round (replicate k b'f' ++ rest)
        ≡ push (fraction (suc n)) other_part (length {A = ℕ} (replicate k b'f')))
      exact
      (fraction_round-replicate n rest (ground arith) (ground arith) (ground arith)
        ∙ ap (push (fraction (suc n)) other_part) (sym (length-replicate n b'f')))
  where
    exact : n ≡ suc n - 1
    exact = omega arith
round-spell (literal c) rest h = round-literal c rest h
