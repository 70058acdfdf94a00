-- ===== src/CommandParams.antt =====
-- eestv/data_bridge/command_param_parser.cpp and config.hpp: the command line of the bridge.
--
-- `boost::program_options` is a parameter: `store` gives what `command_line_parser` stores of the
-- arguments, or nothing where it throws. Its documented `notify` throws where a required option was
-- not stored. The texts that are written to the terminal are left out.
pub mod Verbosity
mod Examples
use eestv_lib.Common.{
  ℕ, zero, suc, ◌+◌, ◌-◌, Bool, true, false, not, ◌&&◌, Option, none, some, List, [], ◌∷◌, leb,
  ◌==◌, if◌then◌else◌, length,
}
use eestv_lib.Common.Text.{Text}
use eestv_lib.Logging.{LogLevel, info, debug, trace}

pub data EndpointMode : Type 0 where
  endpoint bridge : EndpointMode

pub record Config : Type 0 where
  pub endpoint_mode : EndpointMode
  pub discovery_target : Text
  pub log_level : LogLevel

-- The loop over `j`, for the characters from `argument[1]` on.
pub count_v : Text → ℕ
count_v [] = 0
count_v (c ∷ cs) = let rest = count_v cs in if c == b'v' then suc rest else 0

-- The verbosity that an argument sets, if it sets one.
unfoldable pub argument_verbosity : Text → Option ℕ
unfolding count_v
argument_verbosity [] = none
argument_verbosity (c ∷ []) = none
argument_verbosity (c ∷ d ∷ cs) =
    if c == b'-' && d == b'v'
    then (if count_v (d ∷ cs) == length (d ∷ cs) then some (count_v (d ∷ cs)) else none)
    else none

-- The loop over the arguments behind the program's name.
pub verbosity_loop : List Text → ℕ
verbosity_loop [] = 0
verbosity_loop (argument ∷ rest) =
    let later = verbosity_loop rest in
    elim (argument_verbosity argument) [ none ↦ later | some v_count ↦ v_count ]

unfoldable pub verbosity : List Text → ℕ
unfolding verbosity_loop
verbosity [] = 0
verbosity (program ∷ arguments) = verbosity_loop arguments

-- The options that were stored.
pub record Variables : Type 0 where
  pub help : Bool
  pub endpoint_given : Bool
  pub bridge_given : Bool
  pub discovery : Option Text

-- The function leaves the program, throws, or returns.
pub data Outcome : Type 0 where
  exits throws : Outcome
  returns : Config → Outcome

abbrev pub level_of : ℕ → LogLevel
level_of v = if v == 0 then info else if v == 1 then debug else trace

abbrev pub same : Bool → Bool → Bool
same true b = b
same false b = not b

module _ (store : List Text → Option Variables) where
  unfoldable pub parse_command_line : List Text → Outcome
  parse_command_line arguments = elim (store arguments) [
    | none ↦ throws
    | some variables ↦ elim variables.discovery [
      | none ↦ throws
      | some discovery_target ↦
          if variables.help
          then exits
          else if same variables.endpoint_given variables.bridge_given
          then throws
          else returns (record {
            endpoint_mode = if variables.endpoint_given then endpoint else bridge;
            discovery_target = discovery_target;
            log_level = level_of (verbosity arguments);
          })
    ]
  ]
