-- ===== src/TcpServer/Order.antt =====
-- The server's flags against what is posted or outstanding.
use eestv_lib.Common.{count, ◌+◌, ◌≤◌, ◌<◌, ◌≡◌, true, false, ◌||◌, List, [], ◌∷◌, arith}
use eestv_lib.Flags.{set_flag, clear_flag}
use eestv_lib.Flags.Laws.{set_flag_laws, clear_flag_laws, clear_all_laws}
use eestv_lib.TcpServer.{
  Server, has_flag, is_running, start_signaled, stop_signaled, start_accepting, accepting, stopping,
  make_server, set_connection_callback, resolve_on_stopped, async_start, async_stop, cancel_accept,
  async_accept, handle_accept, Event, call_start, call_stop, call_set_callback, run_accept,
  run_cancel, run_stopped, accept_done, step, run,
}

pub record AcceptInv (s : Server) : Type 0 where
  pub accept_posted : s.posted_accept ≡ count (has_flag s start_accepting)
  pub one_accept : s.accepts ≡ count (has_flag s accepting)
  pub one_phase : count (has_flag s start_accepting) + count (has_flag s accepting) ≤ 1
  pub started :
      (has_flag s start_accepting || has_flag s accepting) ≡ true → has_flag s start_signaled ≡ true
  pub stop_started : has_flag s stop_signaled ≡ true → has_flag s start_signaled ≡ true
  pub same_signal : has_flag s stopping ≡ has_flag s stop_signaled
  pub cancel_signaled : s.posted_cancel ≤ count (has_flag s stop_signaled)
  -- The callback of a stop is stored, posted or called, once in all.
  pub once :
      count s.stopped_callback + s.posted_stopped + s.stopped_calls
      ≡ count (has_flag s stop_signaled)
  -- Once it is posted, the server does not accept.
  pub quiet :
      0 < s.posted_stopped + s.stopped_calls
      → (has_flag s start_accepting || has_flag s accepting) ≡ false
  -- Each connection went to the callback, or there was none.
  pub delivery : s.delivered ≤ s.accepted

pub step-AcceptInv : (e : Event) (s : Server) → AcceptInv s → AcceptInv (step e s)
unfolding step async_start async_stop set_connection_callback cancel_accept async_accept
    handle_accept resolve_on_stopped
step-AcceptInv call_start s v = ground (
  arith,
  set_flag_laws s.flags start_signaled (omega arith),
  set_flag_laws (set_flag s.flags start_signaled) start_accepting (omega arith),
)
step-AcceptInv call_stop s v = ground (
  arith,
  set_flag_laws s.flags stop_signaled (omega arith),
  set_flag_laws (set_flag s.flags stop_signaled) stopping (omega arith),
)
step-AcceptInv (call_set_callback callback) s v = ground arith
step-AcceptInv run_accept s v = ground (
  arith,
  clear_flag_laws s.flags start_accepting (omega arith),
  set_flag_laws (clear_flag s.flags start_accepting) accepting (omega arith),
)
step-AcceptInv run_cancel s v = ground (arith, set_flag_laws s.flags stopping (omega arith))
step-AcceptInv run_stopped s v = ground arith
step-AcceptInv (accept_done true) s v =
    ground (arith, clear_flag_laws s.flags accepting (omega arith))
step-AcceptInv (accept_done false) s v = ground (
  arith,
  clear_flag_laws s.flags accepting (omega arith),
  clear_flag_laws s.flags start_accepting (omega arith),
  set_flag_laws (clear_flag s.flags start_accepting) accepting (omega arith),
)

pub make_server-AcceptInv : AcceptInv make_server
unfolding make_server
make_server-AcceptInv = ground (arith, clear_all_laws)

-- After any events a server that kept its flags in order keeps them: `start_accepting` and `accepting`
-- are never both set, and each is set exactly while the posted handler or the one accept is
-- outstanding; the stop callback is stored, posted or called once for a stop that was signaled, and
-- when it is posted or called then the server does not accept.
pub run-AcceptInv : (es : List Event) (s : Server) → AcceptInv s → AcceptInv (run es s)
unfolding run
run-AcceptInv [] s v = v
run-AcceptInv (e ∷ es) s v = run-AcceptInv es (step e s) (step-AcceptInv e s v)

-- `is_running` says whether an accept is outstanding; while it does, no stop has completed.
is_running-accepts :
    (es : List Event)
    → let s = run es make_server in
      (s.accepts ≡ count (is_running s))
      × (is_running s ≡ true → s.posted_stopped + s.stopped_calls ≡ 0)
is_running-accepts es = ground (arith, run-AcceptInv es make_server make_server-AcceptInv)
