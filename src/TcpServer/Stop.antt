-- ===== src/TcpServer/Stop.antt =====
-- When a server's stop completes, and when it does not.
use eestv_lib.Common.{◌+◌, ◌≡◌, true, false, ◌||◌, List, [], ◌∷◌, arith}
use eestv_lib.Flags.{set_flag, clear_flag}
use eestv_lib.Flags.Laws.{set_flag_laws, clear_flag_laws, clear_all_laws}
use eestv_lib.TcpServer.{
  Server, has_flag, start_signaled, stop_signaled, start_accepting, accepting, stopping,
  make_server, set_connection_callback, resolve_on_stopped, async_start, async_stop, cancel_accept,
  async_accept, handle_accept, Event, call_start, call_stop, call_set_callback, run_accept,
  run_cancel, run_stopped, accept_done, step, run,
}
use eestv_lib.TcpServer.Order.{AcceptInv, step-AcceptInv, make_server-AcceptInv}

-- No accept fails but after a stop was signaled.
abbrev pub NoAcceptError : Event → Server → Type 0
NoAcceptError (accept_done true) s = has_flag s stop_signaled ≡ true
NoAcceptError e s = Unit {0}

abbrev pub NoAcceptErrors : List Event → Server → Type 0
NoAcceptErrors [] s = Unit {0}
NoAcceptErrors (e ∷ es) s = NoAcceptError e s × NoAcceptErrors es (step e s)

-- A server that was started accepts until its stop callback is posted.
record LiveInv (s : Server) : Type 0 where
  order : AcceptInv s
  alive :
      has_flag s start_signaled ≡ true
      → s.posted_stopped + s.stopped_calls ≡ 0
      → (has_flag s start_accepting || has_flag s accepting) ≡ true

step-LiveInv : (e : Event) (s : Server) → NoAcceptError e s → LiveInv s → LiveInv (step e s)
unfolding step async_start async_stop set_connection_callback cancel_accept async_accept
    handle_accept resolve_on_stopped
step-LiveInv call_start s n v = ground (
  arith,
  step-AcceptInv call_start s v.order,
  set_flag_laws s.flags start_signaled (omega arith),
  set_flag_laws (set_flag s.flags start_signaled) start_accepting (omega arith),
)
step-LiveInv call_stop s n v = ground (
  arith,
  step-AcceptInv call_stop s v.order,
  set_flag_laws s.flags stop_signaled (omega arith),
  set_flag_laws (set_flag s.flags stop_signaled) stopping (omega arith),
)
step-LiveInv (call_set_callback callback) s n v =
    ground (arith, step-AcceptInv (call_set_callback callback) s v.order)
step-LiveInv run_accept s n v = ground (
  arith,
  v.order,
  step-AcceptInv run_accept s v.order,
  clear_flag_laws s.flags start_accepting (omega arith),
  set_flag_laws (clear_flag s.flags start_accepting) accepting (omega arith),
)
step-LiveInv run_cancel s n v = ground (
  arith,
  v.order,
  step-AcceptInv run_cancel s v.order,
  set_flag_laws s.flags stopping (omega arith),
)
step-LiveInv run_stopped s n v = ground (arith, step-AcceptInv run_stopped s v.order)
step-LiveInv (accept_done true) s n v = ground (
  arith,
  v.order,
  step-AcceptInv (accept_done true) s v.order,
  clear_flag_laws s.flags accepting (omega arith),
)
step-LiveInv (accept_done false) s n v = ground (
  arith,
  v.order,
  step-AcceptInv (accept_done false) s v.order,
  clear_flag_laws s.flags accepting (omega arith),
  clear_flag_laws s.flags start_accepting (omega arith),
  set_flag_laws (clear_flag s.flags start_accepting) accepting (omega arith),
)

run-LiveInv : (es : List Event) (s : Server) → NoAcceptErrors es s → LiveInv s → LiveInv (run es s)
unfolding run
run-LiveInv [] s n v = v
run-LiveInv (e ∷ es) s n v = run-LiveInv es (step e s) n.1 (step-LiveInv e s n.0 v)

make_server-LiveInv : LiveInv make_server
unfolding make_server
make_server-LiveInv = ground (arith, clear_all_laws, make_server-AcceptInv)

-- A stop completes unless accepting had failed: after any events on a new server in which no accept
-- fails before a stop was signaled, with a stop signaled, no accept outstanding and no handler posted
-- that accepts, the stop callback is posted or was called, once.
pub stop_completes_unless_failed :
    (es : List Event)
    → NoAcceptErrors es make_server
    → has_flag (run es make_server) stop_signaled ≡ true
    → (run es make_server).posted_accept ≡ 0
    → (run es make_server).accepts ≡ 0
    → (run es make_server).posted_stopped + (run es make_server).stopped_calls ≡ 1
stop_completes_unless_failed es n s p a =
    let v : LiveInv (run es make_server) = run-LiveInv es make_server n make_server-LiveInv in
    ground (arith, v, v.order)

-- The state of a server that stops while its open acceptor has nothing to cancel.
pub record Hung (s : Server) : Type 0 where
  order : AcceptInv s
  open_acceptor : s.is_open ≡ true
  signaled : has_flag s stop_signaled ≡ true
  not_accepting : (has_flag s start_accepting || has_flag s accepting) ≡ false
  pub not_posted : s.posted_stopped + s.stopped_calls ≡ 0

pub step-Hung : (e : Event) (s : Server) → Hung s → Hung (step e s)
unfolding step async_start async_stop set_connection_callback cancel_accept async_accept
    handle_accept resolve_on_stopped
step-Hung call_start s v = ground (arith, v.order)
step-Hung call_stop s v = ground (arith, v.order)
step-Hung (call_set_callback callback) s v =
    ground (arith, step-AcceptInv (call_set_callback callback) s v.order)
step-Hung run_accept s v = ground (arith, v.order)
step-Hung run_cancel s v =
    ground
      (arith, step-AcceptInv run_cancel s v.order, set_flag_laws s.flags stopping (omega arith))
step-Hung run_stopped s v = ground (arith, v.order)
step-Hung (accept_done error_code) s v = ground (arith, v.order)

run-Hung : (es : List Event) (s : Server) → Hung s → Hung (run es s)
unfolding run
run-Hung [] s v = v
run-Hung (e ∷ es) s v = run-Hung es (step e s) (step-Hung e s v)

pub failed_stop-Hung :
    (s : Server)
    → AcceptInv s
    → s.is_open ≡ true
    → has_flag s start_signaled ≡ true
    → has_flag s stop_signaled ≡ false
    → s.posted_accept ≡ 0
    → s.accepts ≡ 0
    → ((async_stop s).1 ≡ true) × Hung (async_stop s).0
unfolding async_stop step
failed_stop-Hung s v o a b p r = ground (
  arith,
  step-AcceptInv call_stop s v,
  set_flag_laws s.flags stop_signaled (omega arith),
  set_flag_laws (set_flag s.flags stop_signaled) stopping (omega arith),
)

-- After a failed accept a stop never completes: in a server whose flags are in order, that was started
-- and not stopped, with its acceptor open, no accept outstanding and no handler posted that accepts, a
-- stop is accepted, and whatever events follow its callback is neither posted nor called.
pub failed_stop-hangs :
    (es : List Event) (s : Server)
    → AcceptInv s
    → s.is_open ≡ true
    → has_flag s start_signaled ≡ true
    → has_flag s stop_signaled ≡ false
    → s.posted_accept ≡ 0
    → s.accepts ≡ 0
    → ((async_stop s).1 ≡ true)
      × ((run es (async_stop s).0).posted_stopped + (run es (async_stop s).0).stopped_calls ≡ 0)
failed_stop-hangs es s v o a b p r =
    let (accepted, hung) = failed_stop-Hung s v o a b p r in
    ground (arith, accepted, run-Hung es (async_stop s).0 hung)
