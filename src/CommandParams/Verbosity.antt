-- ===== src/CommandParams/Verbosity.antt =====
-- Which argument sets the verbosity.
use eestv_lib.Common.{
  ℕ, ◌-◌, ◌≡◌, refl, Bool, true, false, not, ◌&&◌, Option, none, some, List, [], ◌∷◌, arith, ◌==◌,
  if◌then◌else◌, length, Option-cases, inl, inr,
}
use eestv_lib.Common.Text.{Text}
use eestv_lib.CommandParams.{
  endpoint, bridge, Config, Variables, returns, level_of, count_v, argument_verbosity,
  verbosity_loop, verbosity, parse_command_line,
}

-- Whether an argument is `-` with one or more `v` behind it.
abbrev pub all_v : Text → Bool
all_v [] = true
all_v (c ∷ cs) = (c == b'v') && all_v cs

abbrev pub is_verbosity : Text → Bool
is_verbosity [] = false
is_verbosity (c ∷ []) = false
is_verbosity (c ∷ d ∷ cs) = (c == b'-') && all_v (d ∷ cs)

count_v-all_v : (cs : Text) → (count_v cs == length cs) ≡ all_v cs
unfolding count_v
count_v-all_v [] = refl
count_v-all_v (c ∷ cs) = ground (arith, count_v-all_v cs)

argument_verbosity-length :
    (argument : Text)
    → argument_verbosity argument
      ≡ (if is_verbosity argument then some (length argument - 1) else none)
unfolding argument_verbosity
argument_verbosity-length [] = refl
argument_verbosity-length (c ∷ []) = refl
argument_verbosity-length (c ∷ d ∷ cs) = ground (arith, count_v-all_v (d ∷ cs))

-- The first argument of the form `-v…v`.
abbrev pub first_verbosity : List Text → ℕ
first_verbosity [] = 0
first_verbosity (a ∷ rest) =
    let later = first_verbosity rest in if is_verbosity a then length a - 1 else later

-- The verbosity is the number of `v` in the first argument, behind the program's name, that is `-` with
-- one or more `v` behind it and nothing else, and 0 where there is none.
pub verbosity-first :
    (program : Text) (arguments : List Text)
    → verbosity (program ∷ arguments) ≡ first_verbosity arguments
unfolding verbosity verbosity_loop
verbosity-first program [] = refl
verbosity-first program (a ∷ rest) =
    ground (arith, argument_verbosity-length a, verbosity-first program rest)

module _ (store : List Text → Option Variables) where
  -- A configuration is returned only if a target was stored, help was not asked for, and exactly one of
  -- the roles was given. It has that target and that role, and its level comes from the number of `v`
  -- in the first argument, behind the program's name, that is `-` with only `v` behind it.
  pub parse_command_line-returns :
      (program : Text) (arguments : List Text) (variables : Variables) (config : Config)
      → store (program ∷ arguments) ≡ some variables
      → parse_command_line store (program ∷ arguments) ≡ returns config
      → (variables.discovery ≡ some config.discovery_target)
        × (variables.help ≡ false)
        × (variables.endpoint_given ≡ not variables.bridge_given)
        × (config.endpoint_mode ≡ (if variables.endpoint_given then endpoint else bridge))
        × (config.log_level ≡ level_of (first_verbosity arguments))
  unfolding parse_command_line
  parse_command_line-returns program arguments variables config hs h =
      elim (Option-cases variables.discovery) [
        | inl e ↦ ground (arith, hs, e, h)
        | inr (target, e) ↦ ground (arith, hs, e, h, verbosity-first program arguments)
      ]
