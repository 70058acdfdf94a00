-- ===== src/TcpServer/Blocking.antt =====
-- The blocking `stop` of a server, which its destructor calls.
use eestv_lib.Common.{
  ◌≡◌, refl, Bool, true, false, Option, some, none, List, [], ◌∷◌, ◌++◌, arith, leb, subst, sym,
}
use eestv_lib.BlockingStop.{
  Stoppable, stop, stop-returns, stop-none, any_events, run-append, run-keeps,
}
use eestv_lib.Flags.{set_flag, clear_flag}
use eestv_lib.Flags.Laws.{set_flag_laws, clear_flag_laws}
use eestv_lib.TcpServer.{
  Server, has_flag, start_signaled, stop_signaled, start_accepting, accepting, stopping,
  make_server, set_connection_callback, resolve_on_stopped, async_start, async_stop, cancel_accept,
  async_accept, handle_accept, Event, call_start, call_stop, call_set_callback, run_accept,
  run_cancel, run_stopped, accept_done, step, run,
}
use eestv_lib.TcpServer.Order.{AcceptInv}
use eestv_lib.TcpServer.Stop.{
  NoAcceptErrors, stop_completes_unless_failed, Hung, step-Hung, failed_stop-Hung,
}

pub run_nothing : (s : Server) → run [] s ≡ s
unfolding run
run_nothing s = refl

pub run_more : (e : Event) (es : List Event) (s : Server) → run (e ∷ es) s ≡ run es (step e s)
unfolding run
run_more e es s = refl

-- A server accepts one stop in its life.
abbrev pub stoppable : Stoppable Server Event
stoppable = record {
  async_stop = async_stop;
  step = step;
  run = run;
  stops = λ s. 1;
  stopped_calls = λ s. s.stopped_calls;
  run-nil = run_nothing;
  run-cons = run_more;
}

-- `TcpServer::stop`, and what happens while it waits.
abbrev pub blocking_stop : Bool → List Event → Server → Option Server
blocking_stop = stop stoppable

-- A stop stays signaled: no code clears `stop_signaled`.
abbrev IsSignaled : Server → Type 0
IsSignaled s = has_flag s stop_signaled ≡ true

step-IsSignaled : (e : Event) (s : Server) → IsSignaled s → IsSignaled (step e s)
unfolding step async_start async_stop set_connection_callback cancel_accept async_accept
    handle_accept resolve_on_stopped
step-IsSignaled call_start s h = ground (
  arith,
  set_flag_laws s.flags start_signaled (omega arith),
  set_flag_laws (set_flag s.flags start_signaled) start_accepting (omega arith),
)
step-IsSignaled call_stop s h = ground arith
step-IsSignaled (call_set_callback callback) s h = ground arith
step-IsSignaled run_accept s h = ground (
  arith,
  clear_flag_laws s.flags start_accepting (omega arith),
  set_flag_laws (clear_flag s.flags start_accepting) accepting (omega arith),
)
step-IsSignaled run_cancel s h = ground (arith, set_flag_laws s.flags stopping (omega arith))
step-IsSignaled run_stopped s h = ground arith
step-IsSignaled (accept_done error_code) s h = ground (
  arith,
  clear_flag_laws s.flags accepting (omega arith),
  clear_flag_laws s.flags start_accepting (omega arith),
  set_flag_laws (clear_flag s.flags start_accepting) accepting (omega arith),
)

accepted_stop-IsSignaled : (s : Server) → (async_stop s).1 ≡ true → IsSignaled (async_stop s).0
unfolding async_stop
accepted_stop-IsSignaled s h = ground (
  arith,
  set_flag_laws s.flags stop_signaled (omega arith),
  set_flag_laws (set_flag s.flags stop_signaled) stopping (omega arith),
)

-- The blocking `stop` of a server returns unless accepting had failed: after any events on a new
-- server and with any while it waits, in which no accept fails before a stop was signaled, if in the
-- end no accept is outstanding and neither a handler that accepts nor the stop callback is posted.
pub blocking_stop-returns_unless_failed :
    (is_on_io_thread : Bool) (before after : List Event)
    → NoAcceptErrors (before ++ (call_stop ∷ after)) make_server
    → (run (before ++ (call_stop ∷ after)) make_server).posted_accept ≡ 0
    → (run (before ++ (call_stop ∷ after)) make_server).posted_stopped ≡ 0
    → (run (before ++ (call_stop ∷ after)) make_server).accepts ≡ 0
    → (s : Server) × (blocking_stop is_on_io_thread after (run before make_server) ≡ some s)
unfolding step run
blocking_stop-returns_unless_failed thread before after n pa po a =
    stop-returns stoppable thread after s called
  where
    es : List Event
    es = before ++ (call_stop ∷ after)

    s : Server
    s = run before make_server

    same : run es make_server ≡ run after (async_stop s).0
    same = run-append stoppable before (call_stop ∷ after) make_server

    called : (async_stop s).1 ≡ true → leb 1 (run after (async_stop s).0).stopped_calls ≡ true
    called accepted =
        let signaled : IsSignaled (run es make_server) = subst IsSignaled (sym same) (
          run-keeps stoppable IsSignaled step-IsSignaled after (async_stop s).0
            (accepted_stop-IsSignaled s accepted)) in
        let once = stop_completes_unless_failed es n signaled pa a in ground (arith, same, once, po)

-- After a failed accept the blocking `stop` of a server never returns, and with it the destructor: in
-- a server whose flags are in order, that was started and not stopped, with its acceptor open, no
-- accept outstanding and no handler posted that accepts, it still spins after whatever events.
pub blocking_stop-hangs :
    (es : List Event) (s : Server)
    → AcceptInv s
    → s.is_open ≡ true
    → has_flag s start_signaled ≡ true
    → has_flag s stop_signaled ≡ false
    → s.posted_accept ≡ 0
    → s.accepts ≡ 0
    → blocking_stop false es s ≡ none
blocking_stop-hangs es s v o a b p r =
    let (accepted, hung) = failed_stop-Hung s v o a b p r in
    stop-none stoppable Hung (λ e. Unit {0}) es s (λ e t q. step-Hung e t) accepted
      (λ t w. ground (arith, w)) (any_events es) hung
