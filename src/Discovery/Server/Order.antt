-- ===== src/Discovery/Server/Order.antt =====
-- A discovery server's flags against what is posted or outstanding, and the accounts of its stops.
use eestv_lib.Common.{◌+◌, ◌-◌, ◌≤◌, ◌<◌, ◌≡◌, true, false, ◌⊎◌, arith, count}
use eestv_lib.Flags.{set_flag}
use eestv_lib.Flags.Laws.{set_flag_laws, clear_flag_laws, clear_all_laws}
use eestv_lib.Discovery.{running, stopping, sending_async, receiving_async}
use eestv_lib.Discovery.Server.{
  UdpDiscoveryServer, has_flag, resolve_on_stopped, async_start, start_receive, start, async_stop,
  cancel_operations, add_discoverable, answer, Received, failed, request, handle_receive,
  handle_send, reset, Event, call_start, call_stop, call_reset, call_add, run_start, run_cancel,
  run_stopped, send_done, receive_done, step,
}

pub record ServeInv (s : UdpDiscoveryServer) : Type 0 where
  pub one_receive : s.receives ≡ count (has_flag s receiving_async)
  pub one_phase : s.posted_start + s.receives ≤ 1
  -- The flag may be clear while a send is outstanding.
  pub sending : count (has_flag s sending_async) ≤ s.sends
  -- A server that runs and was not told to stop receives, or is about to.
  pub serving :
      has_flag s running ≡ true → has_flag s stopping ≡ false → s.posted_start + s.receives ≡ 1
  pub started : 0 < s.posted_start + s.receives + s.sends → has_flag s running ≡ true
  pub stop_stored : s.on_stopped ≡ true → has_flag s stopping ≡ true
  pub one_cancel : s.posted_cancel ≤ count (has_flag s stopping)
  -- A callback that is stored waits for something.
  pub waits_for :
      s.on_stopped ≡ true
      → has_flag s running ≡ true
      → 0 < s.posted_start + s.receives + count (has_flag s sending_async)
  pub unstarted : s.on_stopped ≡ true → has_flag s running ≡ false → 0 < s.posted_cancel
  pub stops_counted : count s.on_stopped + s.posted_stopped + s.stopped_calls ≡ s.stops

-- `reset` is to be called after a successful stop: with the callback called and nothing left.
abbrev pub Allowed : Event → UdpDiscoveryServer → Type 0
Allowed call_reset s =
    (s.on_stopped ≡ false) × (s.posted_start + s.posted_cancel + s.sends + s.receives ≡ 0)
Allowed e s = Unit {0}

answer-sets :
    (r : Received) (s : UdpDiscoveryServer)
    → let t = answer r s in
      ((t ≡ s) ⊎ ((t.flags ≡ set_flag s.flags sending_async) × (t.sends ≡ s.sends + 1)))
      × (t.receives ≡ s.receives)
      × (t.posted_start ≡ s.posted_start)
      × (t.posted_cancel ≡ s.posted_cancel)
      × (t.posted_stopped ≡ s.posted_stopped)
      × (t.on_stopped ≡ s.on_stopped)
      × (t.stops ≡ s.stops)
      × (t.stopped_calls ≡ s.stopped_calls)
unfolding answer
answer-sets failed s = ground arith
answer-sets (request bytes remote_endpoint) s = ground arith

pub step-ServeInv :
    (e : Event) (s : UdpDiscoveryServer) → Allowed e s → ServeInv s → ServeInv (step e s)
unfolding step async_start start start_receive async_stop cancel_operations add_discoverable
    handle_receive handle_send resolve_on_stopped reset
step-ServeInv call_start s a v = ground (arith, set_flag_laws s.flags running (omega arith))
step-ServeInv call_stop s a v = ground (arith, set_flag_laws s.flags stopping (omega arith))
step-ServeInv call_reset s a v = ground (arith, clear_all_laws)
step-ServeInv (call_add d) s a v = ground arith
step-ServeInv run_start s a v = ground (arith, set_flag_laws s.flags receiving_async (omega arith))
step-ServeInv run_cancel s a v = ground arith
step-ServeInv run_stopped s a v = ground arith
step-ServeInv (send_done error) s a v =
    ground (arith, clear_flag_laws s.flags sending_async (omega arith))
step-ServeInv (receive_done received) s a v = ground (
  arith,
  answer-sets received (record s { receives = s.receives - 1 }),
  set_flag_laws s.flags sending_async (omega arith),
  clear_flag_laws s.flags receiving_async (omega arith),
  clear_flag_laws (set_flag s.flags sending_async) receiving_async (omega arith),
)
