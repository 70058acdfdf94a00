-- ===== src/TcpServer/Print.antt =====
-- `to_string` of a server's states.
use eestv_lib.Common.{ℕ, ◌≡◌, ◌<◌, if◌then◌else◌, ◌==◌, arith}
use eestv_lib.Common.Text.{Text, codes}
use eestv_lib.TcpServer.{start_signaled, stop_signaled, start_accepting, accepting, stopping}

-- `to_string(TcpServerState)`.
abbrev pub state_name : ℕ → Text
state_name state =
    if state == start_signaled
    then codes "start_signaled"
    else if state == stop_signaled
    then codes "stop_signaled"
    else if state == start_accepting
    then codes "start_accepting"
    else if state == accepting
    then codes "accepting"
    else if state == stopping
    then codes "stopping"
    else codes "unknown"

-- The states have different names.
state_name_injective : (i j : ℕ) → i < 5 → j < 5 → state_name i ≡ state_name j → i ≡ j
state_name_injective i j h k e = ground (arith, e)
