-- ===== src/CommandParams/Examples.antt =====
-- Command lines, and the theorem at one.
use eestv_lib.Common.{◌≡◌, refl, true, false, not, none, some, [], ◌∷◌, if◌then◌else◌}
use eestv_lib.Common.Text.{codes}
use eestv_lib.Logging.{trace}
use eestv_lib.CommandParams.{
  endpoint, bridge, Config, Variables, throws, returns, argument_verbosity, verbosity,
  verbosity_loop, count_v, parse_command_line, level_of,
}
use eestv_lib.CommandParams.Verbosity.{parse_command_line-returns, first_verbosity}

abbrev as_bridge : Variables
as_bridge = record {
  help = false;
  endpoint_given = false;
  bridge_given = true;
  discovery = some (codes "lab");
}

abbrev help_alone : Variables
help_alone = record { help = true; endpoint_given = false; bridge_given = false; discovery = none }

-- A `v` with anything else behind it does not count, and the first of two does.
some_verbosity : verbosity (codes "-v" ∷ codes "-vx" ∷ codes "-vvv" ∷ codes "-v" ∷ []) ≡ 3
unfolding verbosity verbosity_loop argument_verbosity count_v
some_verbosity = refl

-- Help alone is an error, since the target is missing.
help_throws : parse_command_line (λ arguments. some help_alone) (codes "x" ∷ []) ≡ throws
unfolding parse_command_line
help_throws = refl

abbrev bridge_config : Config
bridge_config = record { endpoint_mode = bridge; discovery_target = codes "lab"; log_level = trace }

bridge_run :
    parse_command_line (λ arguments. some as_bridge) (codes "x" ∷ codes "-vv" ∷ [])
    ≡ returns bridge_config
unfolding parse_command_line verbosity verbosity_loop argument_verbosity count_v
bridge_run = refl

parse_command_line-returns_example :
    (as_bridge.discovery ≡ some (codes "lab"))
    × (false ≡ false)
    × (as_bridge.endpoint_given ≡ not as_bridge.bridge_given)
    × (bridge ≡ (if as_bridge.endpoint_given then endpoint else bridge))
    × (trace ≡ level_of (first_verbosity (codes "-vv" ∷ [])))
parse_command_line-returns_example =
    parse_command_line-returns (λ arguments. some as_bridge) (codes "x") (codes "-vv" ∷ [])
      as_bridge bridge_config refl bridge_run
