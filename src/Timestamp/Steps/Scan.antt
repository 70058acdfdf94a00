-- ===== src/Timestamp/Steps/Scan.antt =====
-- The scanning loops against the decimal value of the digits that they pass over.
pub mod Seconds
pub mod Fractions
use eestv_lib.Common.{
  ℕ, zero, suc, ◌+◌, ◌-◌, ◌*◌, ◌^◌, ◌≤◌, ◌<◌, ◌≡◌, refl, List, [], ◌∷◌, ◌++◌, arith, if◌then◌else◌,
  length, take,
}
use eestv_lib.Common.Text.{Text}
use eestv_lib.Timestamp.{is_digit}

-- The digits that a text begins with.
abbrev pub digit_run : Text → Text
digit_run [] = []
digit_run (c ∷ cs) = let rest = digit_run cs in if is_digit c then c ∷ rest else []

-- The number that a list of digits denotes, read behind the digits of `acc`; it does not wrap.
abbrev pub decimal_onto : ℕ → Text → ℕ
decimal_onto acc [] = acc
decimal_onto acc (c ∷ cs) = decimal_onto (acc * 10 + (c - b'0')) cs

abbrev pub decimal : Text → ℕ
decimal cs = decimal_onto 0 cs

pub decimal_onto-ge : (acc : ℕ) (cs : Text) → acc ≤ decimal_onto acc cs
decimal_onto-ge acc [] = omega arith
decimal_onto-ge acc (c ∷ cs) = omega (arith, decimal_onto-ge (acc * 10 + (c - b'0')) cs)
