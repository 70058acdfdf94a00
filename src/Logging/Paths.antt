-- ===== src/Logging/Paths.antt =====
-- The parts of a path that `get_filename` and `get_relative_path` give.
use eestv_lib.Common.{
  ℕ, ◌≡◌, refl, Bool, true, false, not, ◌&&◌, Option, none, some, [], ◌∷◌, ◌++◌, arith, ◌==◌,
  if◌then◌else◌, drop, length,
}
use eestv_lib.Common.Text.{Text}
use eestv_lib.Logging.{
  is_separator, find_last_separator, get_filename, skip_directory, get_relative_path,
}

abbrev pub no_separator : Text → Bool
no_separator [] = true
no_separator (c ∷ cs) = not (is_separator c) && no_separator cs

find_last_separator-no_separator :
    (name : Text) (last_found : Option Text)
    → no_separator name ≡ true
    → find_last_separator name last_found ≡ find_last_separator [] last_found
unfolding find_last_separator
find_last_separator-no_separator [] last h = refl
find_last_separator-no_separator (c ∷ cs) last h =
    ground (arith, find_last_separator-no_separator cs last)

find_last_separator-++ :
    (directory : Text) (s : ℕ) (name : Text) (last_found : Option Text)
    → is_separator s ≡ true
    → no_separator name ≡ true
    → find_last_separator (directory ++ (s ∷ name)) last_found ≡ s ∷ name
unfolding find_last_separator
find_last_separator-++ [] s name last hs hn =
    ground (arith, find_last_separator-no_separator name (some (s ∷ name)))
find_last_separator-++ (c ∷ cs) s name last hs hn =
    find_last_separator-++ cs s name (if is_separator c then some (c ∷ cs ++ (s ∷ name)) else last)
      hs hn

-- The file name of a path is what stands behind its last separator, whatever stands before it, and all
-- of a path that has no separator.
pub get_filename-++ :
    (directory : Text) (s : ℕ) (name : Text)
    → is_separator s ≡ true
    → no_separator name ≡ true
    → (get_filename (directory ++ (s ∷ name)) ≡ name) × (get_filename name ≡ name)
unfolding get_filename find_last_separator
get_filename-++ directory s name hs hn = ground (
  arith,
  find_last_separator-++ directory s name none,
  find_last_separator-no_separator name none,
)

-- Whether a text starts with another.
abbrev pub starts_with : Text → Text → Bool
starts_with text [] = true
starts_with [] (c ∷ cs) = false
starts_with (d ∷ ds) (c ∷ cs) = (c == d) && starts_with ds cs

skip_directory-starts_with :
    (file_path file src : Text)
    → skip_directory file_path file src
      ≡ (if starts_with file src then drop (length src) file else file_path)
unfolding skip_directory
skip_directory-starts_with path file [] = refl
skip_directory-starts_with path [] (s ∷ src) = refl
skip_directory-starts_with path (f ∷ file) (s ∷ src) =
    ground (arith, skip_directory-starts_with path file src)

-- The relative path is what follows the source directory in a path that starts with it, byte for byte
-- and not only up to a separator, and else the whole path.
pub get_relative_path-starts_with :
    (file_path source_dir : Text)
    → get_relative_path file_path source_dir
      ≡ (if starts_with file_path source_dir then drop (length source_dir) file_path else file_path)
unfolding get_relative_path
get_relative_path-starts_with file_path source_dir =
    skip_directory-starts_with file_path file_path source_dir
