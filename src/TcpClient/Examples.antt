-- ===== src/TcpClient/Examples.antt =====
-- A client that connects, stops, and connects again after a reset, and the theorems at it.
use eestv_lib.Common.{◌<◌, ◌≡◌, refl, true, false, some, List, [], ◌∷◌, ◌++◌, arith}
use eestv_lib.Flags.{set_flag, clear_flag, get_flag, clear_all}
use eestv_lib.TcpClient.{
  Client, make_client, Event, call_connect, call_stop, call_reset, run_resolve, run_cancel,
  run_failed, run_stopped, lookup_done, attempt_done, step, run, resolve_on_stopped, async_connect,
  async_resolve, handle_resolve, handle_connect, async_stop, cancel_operations, reset,
}
use eestv_lib.TcpClient.Blocking.{blocking_stop, blocking_stop-returns_when_idle}
use eestv_lib.TcpClient.Stop.{AllAllowed}

-- A stop while the lookup is under way, its cancelled lookup, a reset and a second attempt.
abbrev events : List Event
events =
    call_connect
    ∷ run_resolve
    ∷ call_stop
    ∷ run_cancel
    ∷ lookup_done true
    ∷ run_stopped
    ∷ run_failed
    ∷ call_reset
    ∷ call_connect
    ∷ run_resolve
    ∷ lookup_done false
    ∷ attempt_done false
    ∷ []

ends : run events make_client ≡ record {
  flags = 0;
  on_connection_complete = false;
  on_stopped = false;
  posted_resolve = 0;
  posted_cancel = 0;
  posted_failed = 0;
  posted_stopped = 0;
  lookups = 0;
  attempts = 0;
  connects = 2;
  stops = 1;
  failures = 1;
  successes = 1;
  stopped_calls = 1;
}
unfolding run step make_client async_connect async_resolve handle_resolve handle_connect async_stop
    cancel_operations resolve_on_stopped reset set_flag clear_flag get_flag clear_all
ends = refl

allowed : AllAllowed events make_client
unfolding run step make_client async_connect async_resolve handle_resolve handle_connect async_stop
    cancel_operations resolve_on_stopped reset set_flag clear_flag get_flag clear_all
allowed = (tt, (tt, (tt, (tt, (tt, (tt, (tt, (refl, (tt, (tt, (tt, (tt, tt))))))))))))

-- The lookup was cancelled and has not completed.
abbrev before : List Event
before = call_connect ∷ run_resolve ∷ call_stop ∷ run_cancel ∷ []

before_allowed : AllAllowed before make_client
before_allowed = (tt, (tt, (tt, (tt, tt))))

posting :
    (run before make_client).posted_stopped
    < (step (lookup_done true) (run before make_client)).posted_stopped
unfolding run step make_client async_connect async_resolve handle_resolve handle_connect async_stop
    cancel_operations resolve_on_stopped reset set_flag clear_flag get_flag clear_all
posting = omega arith

-- The lookup fails, then a second attempt succeeds.
abbrev retry : List Event
retry =
    call_connect
    ∷ run_resolve
    ∷ lookup_done true
    ∷ call_connect
    ∷ run_resolve
    ∷ lookup_done false
    ∷ attempt_done false
    ∷ []

retry_ends :
    let c = run retry make_client in
    (c.posted_resolve ≡ 0)
    × (c.lookups ≡ 0)
    × (c.attempts ≡ 0)
    × (c.connects ≡ 2)
    × (c.posted_failed ≡ 1)
    × (c.successes ≡ 1)
unfolding run step make_client async_connect async_resolve handle_resolve handle_connect async_stop
    cancel_operations resolve_on_stopped reset set_flag clear_flag get_flag clear_all
retry_ends = (refl, refl, refl, refl, refl, refl)

abbrev asked : List Event
asked = call_connect ∷ run_resolve ∷ []

abbrev meanwhile : List Event
meanwhile = run_cancel ∷ lookup_done true ∷ run_stopped ∷ []

stopped_at_last :
    let c = run (asked ++ (call_stop ∷ meanwhile)) make_client in
    (c.posted_resolve ≡ 0)
    × (c.posted_cancel ≡ 0)
    × (c.posted_stopped ≡ 0)
    × (c.lookups ≡ 0)
    × (c.attempts ≡ 0)
unfolding run step make_client async_connect async_resolve handle_resolve handle_connect async_stop
    cancel_operations resolve_on_stopped reset set_flag clear_flag get_flag clear_all
stopped_at_last = (refl, refl, refl, refl, refl)

blocking_stop-returns_when_idle_example :
    (c : Client) × (blocking_stop false meanwhile (run asked make_client) ≡ some c)
blocking_stop-returns_when_idle_example =
    blocking_stop-returns_when_idle false asked meanwhile (tt, (tt, (tt, (tt, (tt, (tt, tt))))))
      stopped_at_last.0 stopped_at_last.1 stopped_at_last.2 stopped_at_last.3 stopped_at_last.4
