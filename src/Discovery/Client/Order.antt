-- ===== src/Discovery/Client/Order.antt =====
-- A discovery client's flags against what is posted or outstanding.
use eestv_lib.Common.{◌+◌, ◌≤◌, ◌<◌, ◌≡◌, true, false, [], ◌∷◌, arith, count}
use eestv_lib.Flags.{set_flag}
use eestv_lib.Flags.Laws.{set_flag_laws, clear_flag_laws, clear_all_laws}
use eestv_lib.Discovery.{running, stopping, timer_running, sending_async, receiving_async}
use eestv_lib.Discovery.Client.{
  UdpDiscoveryClient, has_flag, resolve_on_stopped, async_start, send_discovery_request, start,
  async_stop, cancel_operations, handle_send_complete, failed, bytes, handle_response,
  handle_timeout, reset, Event, call_start, call_stop, call_reset, run_start, run_cancel,
  run_stopped, send_done, wait_done, receive_done, step,
}

pub record RequestInv (c : UdpDiscoveryClient) : Type 0 where
  -- The flags of the requesting side say what is outstanding, of which there is one thing at most.
  pub one_send : c.sends ≡ count (has_flag c sending_async)
  pub one_wait : c.waits ≡ count (has_flag c timer_running)
  pub one_phase : c.posted_start + c.sends + c.waits ≤ 1
  -- The flag of the receiving side may be clear while a receive is outstanding.
  pub one_receive : c.posted_start + c.receives ≤ 1
  pub receiving : count (has_flag c receiving_async) ≤ c.receives
  -- What is outstanding belongs to a client that was started.
  pub started : 0 < c.posted_start + c.sends + c.waits + c.receives → has_flag c running ≡ true
  pub stop_stored : c.on_stopped ≡ true → has_flag c stopping ≡ true
  pub one_cancel : c.posted_cancel ≤ count (has_flag c stopping)
  pub stops_counted : count c.on_stopped + c.posted_stopped + c.stopped_calls ≡ c.stops

-- `reset` is to be called after a successful stop: with the callback called and nothing left.
abbrev pub Allowed : Event → UdpDiscoveryClient → Type 0
Allowed call_reset c =
    (c.on_stopped ≡ false) × (c.posted_start + c.posted_cancel + c.sends + c.waits + c.receives ≡ 0)
Allowed e c = Unit {0}

pub step-RequestInv :
    (e : Event) (c : UdpDiscoveryClient) → Allowed e c → RequestInv c → RequestInv (step e c)
unfolding step async_start start send_discovery_request async_stop cancel_operations
    handle_send_complete handle_response handle_timeout resolve_on_stopped reset
step-RequestInv call_start c a v = ground (arith, set_flag_laws c.flags running (omega arith))
step-RequestInv call_stop c a v = ground (arith, set_flag_laws c.flags stopping (omega arith))
step-RequestInv call_reset c a v = ground (arith, clear_all_laws)
step-RequestInv run_start c a v = ground (
  arith,
  set_flag_laws c.flags receiving_async (omega arith),
  set_flag_laws (set_flag c.flags receiving_async) sending_async (omega arith),
)
step-RequestInv run_cancel c a v = ground arith
step-RequestInv run_stopped c a v = ground arith
step-RequestInv (send_done true) c a v =
    ground (arith, clear_flag_laws c.flags sending_async (omega arith))
step-RequestInv (send_done false) c a v = ground (
  arith,
  clear_flag_laws c.flags sending_async (omega arith),
  set_flag_laws c.flags timer_running (omega arith),
  clear_flag_laws (set_flag c.flags timer_running) sending_async (omega arith),
)
step-RequestInv (wait_done true) c a v =
    ground (arith, clear_flag_laws c.flags timer_running (omega arith))
step-RequestInv (wait_done false) c a v = ground (
  arith,
  set_flag_laws c.flags sending_async (omega arith),
  clear_flag_laws (set_flag c.flags sending_async) timer_running (omega arith),
)
step-RequestInv (receive_done failed) c a v =
    ground (arith, clear_flag_laws c.flags receiving_async (omega arith))
step-RequestInv (receive_done (bytes [])) c a v =
    ground (arith, clear_flag_laws c.flags receiving_async (omega arith))
step-RequestInv (receive_done (bytes (x ∷ xs))) c a v =
    ground (arith, clear_flag_laws c.flags receiving_async (omega arith))
