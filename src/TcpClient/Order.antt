-- ===== src/TcpClient/Order.antt =====
-- The phases of a connection attempt: its flags against what is posted or in flight.
use eestv_lib.Common.{count, ℕ, ◌+◌, ◌≤◌, ◌<◌, ◌≡◌, true, false, arith}
use eestv_lib.Flags.{set_flag, clear_flag}
use eestv_lib.Flags.Laws.{set_flag_laws, clear_flag_laws, clear_all_laws}
use eestv_lib.TcpClient.{
  Client, has_flag, schedule_resolving, resolving, connecting, stopping, stop_signaled,
  resolve_on_stopped, async_connect, async_resolve, handle_resolve, handle_connect, async_stop,
  cancel_operations, reset, Event, call_connect, call_stop, call_reset, run_resolve, run_cancel,
  run_failed, run_stopped, lookup_done, attempt_done, step,
}

abbrev pub busy : Client → ℕ
busy c =
    count (has_flag c schedule_resolving)
    + count (has_flag c resolving)
    + count (has_flag c connecting)

pub record PhaseInv (c : Client) : Type 0 where
  pub resolve_posted : c.posted_resolve ≡ count (has_flag c schedule_resolving)
  pub one_lookup : c.lookups ≡ count (has_flag c resolving)
  pub one_attempt : c.attempts ≡ count (has_flag c connecting)
  pub cancel_posted : c.posted_cancel ≡ count (has_flag c stopping)
  -- At most one phase at a time.
  pub one_phase : busy c ≤ 1
  pub stopping_signaled : has_flag c stopping ≡ true → has_flag c stop_signaled ≡ true
  -- The stop callback is stored only while there is something to wait for.
  pub settled :
      c.on_stopped ≡ true
      → (has_flag c stop_signaled ≡ true) × (0 < busy c + count (has_flag c stopping))
  -- Each stop that was accepted has its callback stored, posted or called.
  pub stops_counted : count c.on_stopped + c.posted_stopped + c.stopped_calls ≡ c.stops
  -- No connection callback is called twice.
  pub connects_counted :
      count c.on_connection_complete + c.posted_failed + c.failures + c.successes ≤ c.connects

-- `reset` is to be called "after a successful stop": with nothing but `stop_singaled` set.
abbrev pub Allowed : Event → Client → Type 0
Allowed call_reset c = busy c + count (has_flag c stopping) ≡ 0
Allowed e c = Unit {0}

pub step-PhaseInv : (e : Event) (c : Client) → Allowed e c → PhaseInv c → PhaseInv (step e c)
unfolding step async_connect async_resolve handle_resolve handle_connect async_stop
    cancel_operations resolve_on_stopped reset
step-PhaseInv call_connect c a v =
    ground (arith, set_flag_laws c.flags schedule_resolving (omega arith))
step-PhaseInv call_stop c a v = ground (
  arith,
  set_flag_laws c.flags stop_signaled (omega arith),
  set_flag_laws (set_flag c.flags stop_signaled) stopping (omega arith),
)
step-PhaseInv call_reset c a v = ground (arith, clear_all_laws)
step-PhaseInv run_resolve c a v = ground (
  arith,
  clear_flag_laws c.flags schedule_resolving (omega arith),
  set_flag_laws (clear_flag c.flags schedule_resolving) resolving (omega arith),
)
step-PhaseInv run_cancel c a v = ground (arith, clear_flag_laws c.flags stopping (omega arith))
step-PhaseInv run_failed c a v = ground arith
step-PhaseInv run_stopped c a v = ground arith
step-PhaseInv (lookup_done true) c a v =
    ground (arith, clear_flag_laws c.flags resolving (omega arith))
step-PhaseInv (lookup_done false) c a v = ground (
  arith,
  set_flag_laws c.flags connecting (omega arith),
  clear_flag_laws (set_flag c.flags connecting) resolving (omega arith),
)
step-PhaseInv (attempt_done true) c a v =
    ground (arith, clear_flag_laws c.flags connecting (omega arith))
step-PhaseInv (attempt_done false) c a v =
    ground (arith, clear_flag_laws c.flags connecting (omega arith))
