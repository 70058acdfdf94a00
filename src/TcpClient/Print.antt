-- ===== src/TcpClient/Print.antt =====
-- `to_string` of a client's flags.
use eestv_lib.Common.{
  ℕ, ◌≡◌, sym, ap, ◌∙◌, Bool, true, false, List, [], ◌∷◌, ◌++◌, if◌then◌else◌, ◌==◌, append_assoc,
  append-nil,
}
use eestv_lib.Common.Text.{Text, codes}
use eestv_lib.TcpClient.{
  Client, has_flag, schedule_resolving, resolving, connecting, stopping, stop_signaled,
}

-- `to_string(TcpClientState)`.
abbrev pub state_name : ℕ → Text
state_name state =
    if state == schedule_resolving
    then codes "schedule_resolving"
    else if state == resolving
    then codes "resolving"
    else if state == connecting
    then codes "connecting"
    else if state == stopping
    then codes "stopping"
    else if state == stop_signaled
    then codes "stop_singaled"
    else codes "unknown"

-- One `if` of `to_string`, by whether its flag is set; the result so far comes with `first`.
abbrev pub add_flag : Bool → Text → Text × Bool → Text × Bool
add_flag false name (result, first) = (result, first)
add_flag true name (result, first) =
    ((if first then result else result ++ codes ", ") ++ name, false)

abbrev pub add_flags : List (Bool × Text) → Text × Bool → Text × Bool
add_flags [] so_far = so_far
add_flags ((set, name) ∷ rest) so_far = add_flags rest (add_flag set name so_far)

abbrev pub flags_in_order : Client → List (Bool × Text)
flags_in_order c =
    (has_flag c schedule_resolving, state_name schedule_resolving)
    ∷ (has_flag c resolving, state_name resolving)
    ∷ (has_flag c connecting, state_name connecting)
    ∷ (has_flag c stopping, state_name stopping)
    ∷ (has_flag c stop_signaled, state_name stop_signaled)
    ∷ []

unfoldable pub client_to_string : Client → Text
client_to_string c =
    (add_flags (flags_in_order c) (codes "TcpClient flags: [", true)).0 ++ codes "]"

-- The names of the flags that are set.
abbrev pub set_names : List (Bool × Text) → List Text
set_names [] = []
set_names ((true, name) ∷ rest) = name ∷ set_names rest
set_names ((false, name) ∷ rest) = set_names rest

abbrev pub join_after : List Text → Text
join_after [] = []
join_after (t ∷ ts) = codes ", " ++ (t ++ join_after ts)

-- The names with a comma and a space between them.
abbrev pub join : List Text → Text
join [] = []
join (t ∷ ts) = t ++ join_after ts

add_flags-later :
    (fs : List (Bool × Text)) (result : Text)
    → (add_flags fs (result, false)).0 ≡ result ++ join_after (set_names fs)
add_flags-later [] result = sym (append-nil result)
add_flags-later ((false, name) ∷ rest) result = add_flags-later rest result
add_flags-later ((true, name) ∷ rest) result =
    add_flags-later rest ((result ++ codes ", ") ++ name)
    ∙ append_assoc (result ++ codes ", ") name (join_after (set_names rest))
    ∙ append_assoc result (codes ", ") (name ++ join_after (set_names rest))

add_flags-first :
    (fs : List (Bool × Text)) (result : Text)
    → (add_flags fs (result, true)).0 ≡ result ++ join (set_names fs)
add_flags-first [] result = sym (append-nil result)
add_flags-first ((false, name) ∷ rest) result = add_flags-first rest result
add_flags-first ((true, name) ∷ rest) result =
    add_flags-later rest (result ++ name) ∙ append_assoc result name (join_after (set_names rest))

-- The text is, in brackets, the names of the flags that are set, in the order of the enumeration and
-- with a comma and a space between them.
pub client_to_string-join :
    (c : Client)
    → client_to_string c
      ≡ (codes "TcpClient flags: [" ++ join (set_names (flags_in_order c))) ++ codes "]"
unfolding client_to_string
client_to_string-join c =
    ap (λ r. r ++ codes "]") (add_flags-first (flags_in_order c) (codes "TcpClient flags: ["))
