-- ===== src/Logging/Examples.antt =====
-- Lines that are written, and the theorems at paths.
use eestv_lib.Common.{◌≡◌, refl, none, some, [], ◌∷◌, ◌++◌}
use eestv_lib.Common.Text.{codes, to_string}
use eestv_lib.Logging.{
  info, debug, should_log, get_log_level_name, get_relative_path, log, skip_directory,
}

info_line :
    log info info (codes "/s/") (codes "/s/a/b.cpp") 12 (codes "f") (codes "up")
    ≡ some (
        codes "INFO    a/b.cpp:12                                              "
        ++ (codes "f                                        up" ++ (10 ∷ [])))
unfolding log should_log get_log_level_name get_relative_path skip_directory to_string
info_line = refl

debug_line : log info debug [] (codes "b.cpp") 12 (codes "f") (codes "up") ≡ none
unfolding log should_log
debug_line = refl
