-- ===== src/Discovery/Print.antt =====
-- `to_string` of the states of the discovery classes.
use eestv_lib.Common.{ℕ, ◌≡◌, ◌<◌, if◌then◌else◌, ◌==◌, arith}
use eestv_lib.Common.Text.{Text, codes}
use eestv_lib.Discovery.{running, stopping, timer_running, sending_async, receiving_async}

-- `to_string(UdpDiscoveryState)`.
abbrev pub state_name : ℕ → Text
state_name state =
    if state == running
    then codes "running"
    else if state == stopping
    then codes "stopping"
    else if state == timer_running
    then codes "timer_running"
    else if state == sending_async
    then codes "sending_async"
    else if state == receiving_async
    then codes "receiving_async"
    else codes "unknown"

-- The states have different names.
state_name_injective : (i j : ℕ) → i < 5 → j < 5 → state_name i ≡ state_name j → i ≡ j
state_name_injective i j h k e = ground (arith, e)
