-- ===== src/TcpClient/Blocking.antt =====
-- The blocking `stop` of a client, which its destructor calls.
use eestv_lib.Common.{◌≤◌, ◌≡◌, refl, Bool, Option, some, List, [], ◌∷◌, ◌++◌, arith}
use eestv_lib.BlockingStop.{Stoppable, stop, stop-returns, run-append}
use eestv_lib.TcpClient.{
  Client, make_client, resolve_on_stopped, async_connect, async_resolve, handle_resolve,
  handle_connect, async_stop, cancel_operations, reset, Event, call_connect, call_stop, call_reset,
  run_resolve, run_cancel, run_failed, run_stopped, lookup_done, attempt_done, step, run,
}
use eestv_lib.TcpClient.Stop.{AllAllowed, stops_complete}

pub run_nothing : (c : Client) → run [] c ≡ c
unfolding run
run_nothing c = refl

pub run_more : (e : Event) (es : List Event) (c : Client) → run (e ∷ es) c ≡ run es (step e c)
unfolding run
run_more e es c = refl

abbrev pub stoppable : Stoppable Client Event
stoppable = record {
  async_stop = async_stop;
  step = step;
  run = run;
  stops = λ c. c.stops;
  stopped_calls = λ c. c.stopped_calls;
  run-nil = run_nothing;
  run-cons = run_more;
}

-- `TcpClient::stop`, and what happens while it waits.
abbrev pub blocking_stop : Bool → List Event → Client → Option Client
blocking_stop = stop stoppable

stops-step : (e : Event) (c : Client) → c.stops ≤ (step e c).stops
unfolding step async_connect async_resolve handle_resolve handle_connect async_stop
    cancel_operations resolve_on_stopped reset
stops-step call_connect c = ground arith
stops-step call_stop c = ground arith
stops-step call_reset c = ground arith
stops-step run_resolve c = ground arith
stops-step run_cancel c = ground arith
stops-step run_failed c = ground arith
stops-step run_stopped c = ground arith
stops-step (lookup_done error_code) c = ground arith
stops-step (attempt_done error_code) c = ground arith

stops-run : (es : List Event) (c : Client) → c.stops ≤ (run es c).stops
unfolding run
stops-run [] c = omega arith
stops-run (e ∷ es) c = omega (arith, stops-step e c, stops-run es (step e c))

-- The blocking `stop` of a client, and with it the destructor, returns: after any events on a new
-- client and with any while it waits, in which `reset` comes only when nothing is under way, if in the
-- end no handler that resolves, cancels or calls the stop callback is posted, and no lookup and no
-- attempt is outstanding.
pub blocking_stop-returns_when_idle :
    (is_on_io_thread : Bool) (before after : List Event)
    → AllAllowed (before ++ (call_stop ∷ after)) make_client
    → (run (before ++ (call_stop ∷ after)) make_client).posted_resolve ≡ 0
    → (run (before ++ (call_stop ∷ after)) make_client).posted_cancel ≡ 0
    → (run (before ++ (call_stop ∷ after)) make_client).posted_stopped ≡ 0
    → (run (before ++ (call_stop ∷ after)) make_client).lookups ≡ 0
    → (run (before ++ (call_stop ∷ after)) make_client).attempts ≡ 0
    → (c : Client) × (blocking_stop is_on_io_thread after (run before make_client) ≡ some c)
unfolding step run
blocking_stop-returns_when_idle thread before after a pr pc po l t =
    let es = before ++ (call_stop ∷ after) in
    let c = (async_stop (run before make_client)).0 in
    let same : run es make_client ≡ run after c =
      run-append stoppable before (call_stop ∷ after) make_client in
    let called = stops_complete es a pr pc l t in
    let bound : c.stops ≤ (run after c).stops = stops-run after c in
    stop-returns stoppable thread after (run before make_client)
      (λ accepted. ground (arith, same, called, bound, po))
