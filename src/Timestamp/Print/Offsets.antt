-- ===== src/Timestamp/Print/Offsets.antt =====
-- The steps of `ZZ` and `ZZZ` read the offset that is printed for them.
use eestv_lib.Common.{
  ℕ, suc, ◌+◌, ◌*◌, ◌/◌, ◌%◌, ◌<◌, ◌≡◌, refl, ap, ◌∙◌, Bool, true, false, ◌||◌, Option, none, some,
  ◌∷◌, ◌++◌, ◌==◌, if◌then◌else◌, arith, drop,
}
use eestv_lib.Common.Int.{ℤ, pos, negsuc, sub_ℕ}
use eestv_lib.Common.Text.{Text}
use eestv_lib.Timestamp.{DateAndTime}
use eestv_lib.Timestamp.Steps.{run_step, utc_offset_parser}
use eestv_lib.Timestamp.Format.Spelling.Tokens.{zz, zzz}
use eestv_lib.Timestamp.Print.{two, offset_size, offset_sign, Expresses, IsOffset}
use eestv_lib.Timestamp.Print.Fields.{ReadsBack, char_at-drop, try_parse_two_digits-two}

-- The sign, hours and minutes of an offset, as the step finds them.
offset_of : ℕ → ℕ → ℤ
offset_of sign size = if sign == b'-' then sub_ℕ 0 size else pos size

offset_of-sign :
    (x : Option ℤ)
    → IsOffset x
    → some (offset_of (offset_sign x) (offset_size x / 60 * 60 + offset_size x % 60)) ≡ x
unfolding offset_of
offset_of-sign none h = absurd h
offset_of-sign (some (pos n)) h = ground arith
offset_of-sign (some (negsuc n)) h = ap (λ s. some (sub_ℕ 0 s)) back ∙ ground arith
  where
    back : (0 + suc n) / 60 * 60 + (0 + suc n) % 60 ≡ suc n
    back = omega arith

-- The characters of an offset, for a format without and with a colon.
offset_text : Bool → ℕ → ℕ → Text
offset_text with_colon sign size =
    if with_colon
    then sign ∷ (two (size / 60) ++ (b':' ∷ two (size % 60)))
    else sign ∷ (two (size / 60) ++ two (size % 60))

utc_offset_parser-text :
    (colon : Bool) (t r : Text) (i sign size : ℕ) (output : DateAndTime)
    → drop i t ≡ offset_text colon sign size ++ r
    → (sign == b'+') || (sign == b'-') ≡ true
    → size < 1440
    → utc_offset_parser colon t (pos i) output
      ≡ some (
        if colon then 6 else 5,
        record output { utc_offset_minutes = some (offset_of sign (size / 60 * 60 + size % 60)) },
      )
unfolding utc_offset_parser offset_of offset_text
utc_offset_parser-text true t r i sign size output e s h =
    let text : Text = sign ∷ (two (size / 60) ++ (b':' ∷ two (size % 60))) ++ r in
    ground (
      arith,
      s,
      char_at-drop t text i 0 sign e refl,
      char_at-drop t text i 3 b':' e refl,
      try_parse_two_digits-two t text i 1 (size / 60) e refl refl (omega arith),
      try_parse_two_digits-two t text i 4 (size % 60) e refl refl (omega arith),
    )
utc_offset_parser-text false t r i sign size output e s h =
    let text : Text = sign ∷ (two (size / 60) ++ two (size % 60)) ++ r in
    ground (
      arith,
      s,
      char_at-drop t text i 0 sign e refl,
      try_parse_two_digits-two t text i 1 (size / 60) e refl refl (omega arith),
      try_parse_two_digits-two t text i 3 (size % 60) e refl refl (omega arith),
    )

offset_sign-IsSign : (x : Option ℤ) → (offset_sign x == b'+') || (offset_sign x == b'-') ≡ true
offset_sign-IsSign none = refl
offset_sign-IsSign (some (pos n)) = refl
offset_sign-IsSign (some (negsuc n)) = refl

offset_size-IsOffset : (x : Option ℤ) → IsOffset x → offset_size x < 1440
offset_size-IsOffset none h = absurd h
offset_size-IsOffset (some o) h = h

pub offset-ReadsBack : (d : DateAndTime) → Expresses zz d → ReadsBack zz d × ReadsBack zzz d
unfolding run_step offset_text
offset-ReadsBack d x = (short, long)
  where
    offset : Option ℤ
    offset = d.utc_offset_minutes

    short : ReadsBack zz d
    short t r i output e =
        utc_offset_parser-text false t r i (offset_sign offset) (offset_size offset) output e
          (offset_sign-IsSign offset) (offset_size-IsOffset offset x)
        ∙ ap (λ (v : Option ℤ). some (5, record output { utc_offset_minutes = v }))
            (offset_of-sign offset x)

    long : ReadsBack zzz d
    long t r i output e =
        utc_offset_parser-text true t r i (offset_sign offset) (offset_size offset) output e
          (offset_sign-IsSign offset) (offset_size-IsOffset offset x)
        ∙ ap (λ (v : Option ℤ). some (6, record output { utc_offset_minutes = v }))
            (offset_of-sign offset x)
