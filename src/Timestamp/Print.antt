-- ===== src/Timestamp/Print.antt =====
-- How a `DateAndTime` is written in a format of tokens, as the table in timestamp_parser.hpp has it: the
-- texts that the steps are meant to read. `s*` and `f*`, which take any number of digits, are left out.
pub mod Fields
pub mod Offsets
pub mod Fractions
pub mod RoundTrip
use eestv_lib.Common.{
  ℕ, zero, suc, ◌+◌, ◌-◌, ◌*◌, ◌/◌, ◌%◌, ◌^◌, ◌≤◌, ◌<◌, ◌≡◌, Bool, true, false, Option, none, some,
  List, [], ◌∷◌, ◌++◌, leb, ltb, ◌==◌, if◌then◌else◌,
}
use eestv_lib.Common.Int.{ℤ, pos, negsuc, pos_part, neg_part}
use eestv_lib.Common.Text.{Text, codes}
use eestv_lib.Timestamp.{DateAndTime}
use eestv_lib.Timestamp.Format.Spelling.{Token}
use eestv_lib.Timestamp.Format.Spelling.Tokens.{
  yyyy, yy, mm, mmm, dd, d_any, hh, hh_upper, minutes, ss, s_any, f_any, z, zz, zzz, f, literal,
}

abbrev pub digit : ℕ → ℕ
digit n = b'0' + n % 10

abbrev pub two : ℕ → Text
two n = digit (n / 10) ∷ digit n ∷ []

-- The last `n` digits of `v`, in front of a text.
abbrev pub fixed_onto : ℕ → ℕ → Text → Text
fixed_onto zero v acc = acc
fixed_onto (suc n) v acc = fixed_onto n (v / 10) (digit v ∷ acc)

abbrev pub month_names : ℕ → Text
month_names n =
    if n == 1
    then codes "Jan"
    else if n == 2
    then codes "Feb"
    else if n == 3
    then codes "Mar"
    else if n == 4
    then codes "Apr"
    else if n == 5
    then codes "May"
    else if n == 6
    then codes "Jun"
    else if n == 7
    then codes "Jul"
    else if n == 8
    then codes "Aug"
    else if n == 9
    then codes "Sep"
    else if n == 10
    then codes "Oct"
    else if n == 11
    then codes "Nov"
    else codes "Dec"

-- The minutes of an offset, without its sign, and the sign.
abbrev pub offset_size : Option ℤ → ℕ
offset_size none = 0
offset_size (some o) = pos_part o + neg_part o

abbrev pub offset_sign : Option ℤ → ℕ
offset_sign none = b'+'
offset_sign (some (pos n)) = b'+'
offset_sign (some (negsuc n)) = b'-'

abbrev pub print : Token → DateAndTime → Text
print yyyy d =
    digit (pos_part d.year / 1000) ∷ digit (pos_part d.year / 100) ∷ two (pos_part d.year)
print yy d = two (pos_part d.year)
print mm d = two d.month
print mmm d = month_names d.month
print dd d = two d.day
print d_any d = (if ltb d.day 10 then b' ' else digit (d.day / 10)) ∷ digit d.day ∷ []
print hh d = two d.hour
print hh_upper d = two d.hour
print minutes d = two d.minute
print ss d = two d.second
print s_any d = []
print f_any d = []
print z d = b'Z' ∷ []
print zz d =
    offset_sign d.utc_offset_minutes
    ∷ (two (offset_size d.utc_offset_minutes / 60) ++ two (offset_size d.utc_offset_minutes % 60))
print zzz d =
    offset_sign d.utc_offset_minutes
    ∷ (two (offset_size d.utc_offset_minutes / 60)
        ++ (b':' ∷ two (offset_size d.utc_offset_minutes % 60)))
print (f n) d = fixed_onto n (d.nanosecond / 10 ^ (9 - n)) []
print (literal c) d = c ∷ []

abbrev pub print_all : List Token → DateAndTime → Text
print_all [] d = []
print_all (t ∷ ts) d = print t d ++ print_all ts d

-- What a reader takes over from `d` for a token: a fraction of `n` digits cuts off the others.
abbrev pub take_over : Token → DateAndTime → DateAndTime → DateAndTime
take_over yyyy d output = record output { year = d.year }
take_over yy d output = record output { year = d.year }
take_over mm d output = record output { month = d.month }
take_over mmm d output = record output { month = d.month }
take_over dd d output = record output { day = d.day }
take_over d_any d output = record output { day = d.day }
take_over hh d output = record output { hour = d.hour }
take_over hh_upper d output = record output { hour = d.hour }
take_over minutes d output = record output { minute = d.minute }
take_over ss d output = record output { second = d.second; leap_second = d.leap_second }
take_over s_any d output = output
take_over f_any d output = output
take_over z d output = record output { utc_offset_minutes = d.utc_offset_minutes }
take_over zz d output = record output { utc_offset_minutes = d.utc_offset_minutes }
take_over zzz d output = record output { utc_offset_minutes = d.utc_offset_minutes }
take_over (f n) d output = record output { nanosecond = d.nanosecond / 10 ^ (9 - n) * 10 ^ (9 - n) }
take_over (literal c) d output = output

abbrev pub take_over_all : List Token → DateAndTime → DateAndTime → DateAndTime
take_over_all [] d output = output
take_over_all (t ∷ ts) d output = take_over_all ts d (take_over t d output)

-- What a `DateAndTime` must be for a token to express it.
abbrev pub IsOffset : Option ℤ → Type 0
IsOffset none = ⊥
IsOffset (some o) = pos_part o + neg_part o < 1440

abbrev pub Expresses : Token → DateAndTime → Type 0
Expresses yyyy d = (d.year ≡ pos (pos_part d.year)) × (pos_part d.year < 10000)
Expresses yy d =
    (d.year ≡ pos (pos_part d.year)) × (2000 ≤ pos_part d.year) × (pos_part d.year < 2100)
Expresses mm d = (1 ≤ d.month) × (d.month ≤ 12)
Expresses mmm d = (1 ≤ d.month) × (d.month ≤ 12)
Expresses dd d = (1 ≤ d.day) × (d.day ≤ 31)
Expresses d_any d = (1 ≤ d.day) × (d.day ≤ 31)
Expresses hh d = d.hour ≤ 23
Expresses hh_upper d = d.hour ≤ 23
Expresses minutes d = d.minute ≤ 59
Expresses ss d = (d.second ≤ 60) × (d.leap_second ≡ (d.second == 60))
Expresses s_any d = ⊥
Expresses f_any d = ⊥
Expresses z d = d.utc_offset_minutes ≡ some (pos 0)
Expresses zz d = IsOffset d.utc_offset_minutes
Expresses zzz d = IsOffset d.utc_offset_minutes
Expresses (f n) d = (1 ≤ n) × (n ≤ 9) × (d.nanosecond < 10 ^ 9)
Expresses (literal c) d = Unit {0}

abbrev pub ExpressAll : List Token → DateAndTime → Type 0
ExpressAll [] d = Unit {0}
ExpressAll (t ∷ ts) d = Expresses t d × ExpressAll ts d
