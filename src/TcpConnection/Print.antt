-- ===== src/TcpConnection/Print.antt =====
-- `to_string` of a connection's states.
use eestv_lib.Common.{ℕ, ◌≡◌, ◌<◌, if◌then◌else◌, ◌==◌, arith}
use eestv_lib.Common.Text.{Text, codes}
use eestv_lib.TcpConnection.{
  start_sending, sending, start_receiving, receiving, closing, stop_signaled, lost,
}

-- `to_string(TcpConnectionState)`.
abbrev pub state_name : ℕ → Text
state_name state =
    if state == start_sending
    then codes "start_sending"
    else if state == sending
    then codes "sending"
    else if state == start_receiving
    then codes "start_receiving"
    else if state == receiving
    then codes "receiving"
    else if state == closing
    then codes "closing"
    else if state == stop_signaled
    then codes "stop_signaled"
    else if state == lost
    then codes "lost"
    else codes "unknown"

-- The states have different names.
state_name_injective : (i j : ℕ) → i < 7 → j < 7 → state_name i ≡ state_name j → i ≡ j
state_name_injective i j h k e = ground (arith, e)
