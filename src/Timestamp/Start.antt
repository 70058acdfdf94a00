-- ===== src/Timestamp/Start.antt =====
-- `possible_parse_start_indices` and `nth_parse_start_index`: where a timestamp may start in a line.
pub mod Agree
use eestv_lib.Common.{
  ℕ, zero, suc, ◌+◌, ◌-◌, ◌^◌, Bool, true, false, not, ◌&&◌, ◌||◌, List, [], ◌∷◌, ◌++◌, ltb, leb,
  ◌==◌, if◌then◌else◌,
}
use eestv_lib.Common.Int.{ℤ, pos, negsuc}
use eestv_lib.Common.Text.{Text}

abbrev pub is_whitespace : ℕ → Bool
is_whitespace c = c == b' ' || c == b'\t'

-- `a == b` and `a <= 1` on `int`, for a number `a` that counts up from 1.
abbrev pub equals : ℕ → ℤ → Bool
equals a (pos b) = a == b
equals a (negsuc b) = false

abbrev pub at_most_one : ℤ → Bool
at_most_one (pos a) = leb a 1
at_most_one (negsuc a) = true

-- The loop of `possible_parse_start_indices` over `to_parse[index..]`.
unfoldable pub indices_loop : Text → ℕ → Bool → List ℕ → ℕ → ℤ → List ℕ
indices_loop [] index in_whitespace indices nr_of_indices max_indices = indices
indices_loop (c ∷ cs) index in_whitespace indices nr_of_indices max_indices =
    let white = is_whitespace c in
    let pushed = indices ++ (index ∷ []) in
    let entered = indices_loop cs (index + 1) true indices nr_of_indices max_indices in
    let left = indices_loop cs (index + 1) false pushed (nr_of_indices + 1) max_indices in
    let stayed = indices_loop cs (index + 1) in_whitespace indices nr_of_indices max_indices in
    if not in_whitespace && white
    then entered
    else if in_whitespace && not white
    then (if equals (nr_of_indices + 1) max_indices then pushed else left)
    else stayed

unfoldable pub possible_parse_start_indices : Text → ℤ → List ℕ
possible_parse_start_indices to_parse max_indices =
    if at_most_one max_indices then 0 ∷ [] else indices_loop to_parse 0 false (0 ∷ []) 1 max_indices

-- `std::numeric_limits<int>::max()`.
abbrev pub int_max : ℕ
int_max = 2 ^ 31 - 1

-- The overload with no limit.
unfoldable pub all_parse_start_indices : Text → List ℕ
all_parse_start_indices to_parse = possible_parse_start_indices to_parse (pos int_max)

-- The loop of `nth_parse_start_index` over `to_parse[index..]`.
unfoldable pub nth_loop : Text → ℕ → Bool → ℕ → ℕ → ℤ
nth_loop [] index in_whitespace found_indices n = negsuc 0
nth_loop (c ∷ cs) index in_whitespace found_indices n =
    let white = is_whitespace c in
    let entered = nth_loop cs (index + 1) true found_indices n in
    let left = nth_loop cs (index + 1) false (found_indices + 1) n in
    let stayed = nth_loop cs (index + 1) in_whitespace found_indices n in
    if not in_whitespace && white
    then entered
    else if in_whitespace && not white
    then (if found_indices + 1 == n then pos index else left)
    else stayed

unfoldable pub nth_parse_start_index : Text → ℤ → ℤ
nth_parse_start_index to_parse (negsuc n) = negsuc 0
nth_parse_start_index to_parse (pos n) = if n == 0 then pos 0 else nth_loop to_parse 0 false 0 n
