-- ===== src/Logging.antt =====
-- eestv/logging/eestv_logging.hpp and eestv_logging.cpp: which messages are written, and the line that
-- is. A `const char*` is the text from there to its terminating zero; the terminal is left out.
pub mod Paths
mod Examples
use eestv_lib.Common.{
  ℕ, zero, suc, ◌+◌, ◌-◌, Bool, true, false, ◌||◌, Option, none, some, List, [], ◌∷◌, ◌++◌, leb,
  ◌==◌, if◌then◌else◌, length, replicate,
}
use eestv_lib.Common.Text.{Text, codes, to_string}

pub data LogLevel : Type 0 where
  error warning info debug trace : LogLevel

-- `static_cast<int>`.
abbrev pub level_number : LogLevel → ℕ
level_number error = 0
level_number warning = 1
level_number info = 2
level_number debug = 3
level_number trace = 4

-- The initial value of `current_log_level`.
abbrev pub default_log_level : LogLevel
default_log_level = info

unfoldable pub should_log : LogLevel → LogLevel → Bool
should_log current_log_level level = leb (level_number level) (level_number current_log_level)

abbrev pub is_separator : ℕ → Bool
is_separator c = c == b'/' || c == b'\\'

pub find_last_separator : Text → Option Text → Text
find_last_separator [] (some last_found) = last_found
find_last_separator [] none = []
find_last_separator (c ∷ cs) last_found =
    find_last_separator cs (if is_separator c then some (c ∷ cs) else last_found)

unfoldable pub get_filename : Text → Text
unfolding find_last_separator
get_filename path = elim (find_last_separator path none) [
  | [] ↦ path
  | c ∷ cs ↦ if is_separator c then cs else path
]

-- The loop, for what is left of the two paths.
pub skip_directory : Text → Text → Text → Text
skip_directory file_path file [] = file
skip_directory file_path [] (s ∷ src) = file_path
skip_directory file_path (f ∷ file) (s ∷ src) =
    let rest = skip_directory file_path file src in if s == f then rest else file_path

unfoldable pub get_relative_path : Text → Text → Text
unfolding skip_directory
get_relative_path file_path source_dir = skip_directory file_path file_path source_dir

unfoldable pub get_log_level_name : LogLevel → Text
get_log_level_name error = codes "ERROR"
get_log_level_name warning = codes "WARNING"
get_log_level_name info = codes "INFO"
get_log_level_name debug = codes "DEBUG"
get_log_level_name trace = codes "TRACE"

-- `std::left << std::setw(width)`.
abbrev pub padded : ℕ → Text → Text
padded width text = text ++ replicate (width - length text) 32

-- What the macro of a level writes: nothing, or a line.
unfoldable pub log : LogLevel → LogLevel → Text → Text → ℕ → Text → Text → Option Text
log current_log_level level source_dir file line function message =
    if should_log current_log_level level
    then some (
        padded 7 (get_log_level_name level)
        ++ (32
            ∷ (padded 55 (get_relative_path file source_dir ++ (b':' ∷ to_string line))
                ++ (32 ∷ (padded 40 function ++ (32 ∷ (message ++ (10 ∷ []))))))))
    else none
