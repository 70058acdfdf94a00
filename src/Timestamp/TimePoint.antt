-- ===== src/Timestamp/TimePoint.antt =====
-- `DateAndTime::to_time_point`. `timegm` (`_mkgmtime` on Windows) and `std::mktime` are the platform's:
-- they are the parameters `make_utc_time` and `mktime`, from the broken-down time to the seconds since
-- the epoch. A time point is its number of nanoseconds since the epoch, which a clock with a nanosecond
-- tick holds; `std::time_t` and the tick count are taken wide enough for it.
use Prim.Native.Nat.{min}
use eestv_lib.Common.{ℕ, ◌*◌, ◌^◌, ◌≡◌, Bool, false, Option, none, some, arith, ◌==◌, if◌then◌else◌}
use eestv_lib.Common.Int.{
  ℤ, pos, negsuc, ◌+ℤ◌, ◌-ℤ◌, scale, sub_ℕ, +ℤ_parts, -ℤ_parts, scale_parts, eq_of_parts,
}
use eestv_lib.Timestamp.{DateAndTime}

-- The members of `std::tm` that are set; `tm_isdst` is -1 throughout.
pub record BrokenDownTime : Type 0 where
  pub tm_year : ℤ
  pub tm_mon : ℤ
  pub tm_mday : ℕ
  pub tm_hour : ℕ
  pub tm_min : ℕ
  pub tm_sec : ℕ

unfoldable pub broken_down : DateAndTime → BrokenDownTime
broken_down d = record {
  tm_year = d.year -ℤ pos 1900;
  tm_mon = sub_ℕ d.month 1;
  tm_mday = d.day;
  tm_hour = d.hour;
  tm_min = d.minute;
  tm_sec = min d.second 59;
}

abbrev pub is_minus_one : ℤ → Bool
is_minus_one (pos n) = false
is_minus_one (negsuc n) = n == 0

shift_seconds :
    (e o : ℤ) (n : ℕ)
    → scale (10 ^ 9) (e -ℤ scale 60 o) +ℤ pos n
      ≡ (scale (10 ^ 9) (e -ℤ scale 60 (pos 0)) +ℤ pos n) -ℤ scale (60 * 10 ^ 9) o
shift_seconds e o n = eq_of_parts _ _ (
    omega (
      arith,
      +ℤ_parts (scale (10 ^ 9) (e -ℤ scale 60 o)) (pos n),
      scale_parts (10 ^ 9) (e -ℤ scale 60 o),
      -ℤ_parts e (scale 60 o),
      scale_parts 60 o,
      -ℤ_parts (scale (10 ^ 9) (e -ℤ scale 60 (pos 0)) +ℤ pos n) (scale (60 * 10 ^ 9) o),
      scale_parts (60 * 10 ^ 9) o,
      +ℤ_parts (scale (10 ^ 9) (e -ℤ scale 60 (pos 0))) (pos n),
      scale_parts (10 ^ 9) (e -ℤ scale 60 (pos 0)),
      -ℤ_parts e (scale 60 (pos 0)),
      scale_parts 60 (pos 0),
    ))

module _ (make_utc_time mktime : BrokenDownTime → ℤ) where
  unfoldable pub to_time_point : DateAndTime → Option ℤ
  to_time_point d =
      let epoch_seconds : ℤ = elim d.utc_offset_minutes [
        | none ↦ mktime (broken_down d)
        | some offset ↦ make_utc_time (broken_down d)
      ] in
      if is_minus_one epoch_seconds
      then none
      else (let adjusted : ℤ = elim d.utc_offset_minutes [
        | none ↦ epoch_seconds
        | some offset ↦ epoch_seconds -ℤ scale 60 offset
      ] in
          some (scale (10 ^ 9) adjusted +ℤ pos d.nanosecond))

  -- With an offset of `o` minutes, the result lies 60 o seconds before what the offset 0 gives, and is
  -- missing exactly when that is, whatever the two library functions answer.
  pub to_time_point-offset :
      (d : DateAndTime) (o : ℤ)
      → (to_time_point (record d { utc_offset_minutes = some o }))
        ≡ (elim (to_time_point (record d { utc_offset_minutes = some (pos 0) })) [
          | none ↦ none
          | some p ↦ some (p -ℤ scale (60 * 10 ^ 9) o)
        ])
  unfolding to_time_point broken_down
  to_time_point-offset d o =
      ground (arith, shift_seconds (make_utc_time (broken_down d)) o d.nanosecond)
