-- ===== src/TcpServer/Examples.antt =====
-- A server that accepts and stops, one whose accept fails, and the theorems at them.
use eestv_lib.Common.{◌≡◌, refl, true, false, none, some, List, [], ◌∷◌, ◌++◌}
use eestv_lib.Flags.{set_flag, clear_flag, get_flag, clear_all}
use eestv_lib.TcpServer.{
  Server, has_flag, start_signaled, stop_signaled, make_server, set_connection_callback,
  resolve_on_stopped, async_start, async_stop, cancel_accept, async_accept, handle_accept, Event,
  call_start, call_stop, call_set_callback, run_accept, run_cancel, run_stopped, accept_done, step,
  run,
}
use eestv_lib.TcpServer.Order.{make_server-AcceptInv, run-AcceptInv}
use eestv_lib.TcpServer.Blocking.{
  blocking_stop, blocking_stop-returns_unless_failed, blocking_stop-hangs,
}
use eestv_lib.TcpServer.Stop.{NoAcceptErrors}

abbrev events : List Event
events =
    call_start
    ∷ run_accept
    ∷ accept_done false
    ∷ call_set_callback true
    ∷ accept_done false
    ∷ call_stop
    ∷ run_cancel
    ∷ accept_done true
    ∷ run_stopped
    ∷ []

ends :
    let s = run events make_server in
    (has_flag s stop_signaled ≡ true)
    × (s.posted_accept ≡ 0)
    × (s.accepts ≡ 0)
    × (s.accepted ≡ 2)
    × (s.delivered ≡ 1)
    × (s.stopped_calls ≡ 1)
unfolding run step make_server async_start async_stop set_connection_callback cancel_accept
    async_accept handle_accept resolve_on_stopped set_flag clear_flag get_flag clear_all
ends = (refl, refl, refl, refl, refl, refl)

no_errors : NoAcceptErrors events make_server
unfolding run step make_server async_start async_stop set_connection_callback cancel_accept
    async_accept handle_accept resolve_on_stopped set_flag clear_flag get_flag clear_all
no_errors = (tt, (tt, (tt, (tt, (tt, (tt, (tt, (refl, (tt, tt)))))))))

-- The one accept failed, and the server was not stopped.
abbrev failed : Server
failed = run (call_start ∷ run_accept ∷ accept_done true ∷ []) make_server

failed_state :
    (failed.is_open ≡ true)
    × (has_flag failed start_signaled ≡ true)
    × (has_flag failed stop_signaled ≡ false)
    × (failed.posted_accept ≡ 0)
    × (failed.accepts ≡ 0)
unfolding run step make_server async_start async_stop set_connection_callback cancel_accept
    async_accept handle_accept resolve_on_stopped set_flag clear_flag get_flag clear_all
failed_state = (refl, refl, refl, refl, refl)

abbrev started : List Event
started = call_start ∷ run_accept ∷ accept_done false ∷ []

abbrev meanwhile : List Event
meanwhile = run_cancel ∷ accept_done true ∷ run_stopped ∷ []

stopped_at_last :
    let s = run (started ++ (call_stop ∷ meanwhile)) make_server in
    (s.posted_accept ≡ 0)
    × (s.posted_stopped ≡ 0)
    × (s.accepts ≡ 0)
    × NoAcceptErrors (started ++ (call_stop ∷ meanwhile)) make_server
unfolding run step make_server async_start async_stop set_connection_callback cancel_accept
    async_accept handle_accept resolve_on_stopped set_flag clear_flag get_flag clear_all
stopped_at_last = (refl, refl, refl, (tt, (tt, (tt, (tt, (tt, (refl, (tt, tt))))))))

blocking_stop-returns_unless_failed_example :
    (s : Server) × (blocking_stop false meanwhile (run started make_server) ≡ some s)
blocking_stop-returns_unless_failed_example =
    blocking_stop-returns_unless_failed false started meanwhile stopped_at_last.3 stopped_at_last.0
      stopped_at_last.1 stopped_at_last.2

blocking_stop-hangs_example : blocking_stop false (run_cancel ∷ run_stopped ∷ []) failed ≡ none
blocking_stop-hangs_example =
    blocking_stop-hangs (run_cancel ∷ run_stopped ∷ []) failed
      (run-AcceptInv (call_start ∷ run_accept ∷ accept_done true ∷ []) make_server
        make_server-AcceptInv)
      failed_state.0 failed_state.1 failed_state.2 failed_state.3 failed_state.4
