-- ===== src/Discovery/Server/Blocking.antt =====
-- The blocking `stop` of the discovery server.
use eestv_lib.Common.{◌≤◌, ◌≡◌, refl, Bool, Option, some, List, [], ◌∷◌, ◌++◌, arith}
use eestv_lib.BlockingStop.{Stoppable, stop, stop-returns, run-append}
use eestv_lib.Discovery.Server.{
  UdpDiscoveryServer, make_server, resolve_on_stopped, async_start, start, start_receive,
  async_stop, cancel_operations, add_discoverable, failed, request, answer, handle_receive,
  handle_send, reset, Event, call_start, call_stop, call_reset, call_add, run_start, run_cancel,
  run_stopped, send_done, receive_done, step, run,
}
use eestv_lib.Discovery.Server.Stop.{AllAllowed, all_stops_complete}

pub run_nothing : (s : UdpDiscoveryServer) → run [] s ≡ s
unfolding run
run_nothing s = refl

pub run_more :
    (e : Event) (es : List Event) (s : UdpDiscoveryServer) → run (e ∷ es) s ≡ run es (step e s)
unfolding run
run_more e es s = refl

abbrev pub stoppable : Stoppable UdpDiscoveryServer Event
stoppable = record {
  async_stop = async_stop;
  step = step;
  run = run;
  stops = λ s. s.stops;
  stopped_calls = λ s. s.stopped_calls;
  run-nil = run_nothing;
  run-cons = run_more;
}

-- `UdpDiscoveryServer::stop`, and what happens while it waits.
abbrev pub blocking_stop : Bool → List Event → UdpDiscoveryServer → Option UdpDiscoveryServer
blocking_stop = stop stoppable

stops-step : (e : Event) (s : UdpDiscoveryServer) → s.stops ≤ (step e s).stops
unfolding step async_start start start_receive async_stop cancel_operations add_discoverable answer
    handle_receive handle_send resolve_on_stopped reset
stops-step call_start s = ground arith
stops-step call_stop s = ground arith
stops-step call_reset s = ground arith
stops-step (call_add d) s = ground arith
stops-step run_start s = ground arith
stops-step run_cancel s = ground arith
stops-step run_stopped s = ground arith
stops-step (send_done error) s = ground arith
stops-step (receive_done failed) s = ground arith
stops-step (receive_done (request bytes remote)) s = ground arith

stops-run : (es : List Event) (s : UdpDiscoveryServer) → s.stops ≤ (run es s).stops
unfolding run
stops-run [] s = omega arith
stops-run (e ∷ es) s = omega (arith, stops-step e s, stops-run es (step e s))

-- The blocking `stop` of a discovery server returns: after any events on a new server and with any
-- while it waits, in which `reset` comes only after a completed stop, if in the end no handler is
-- posted and no send or receive is outstanding.
pub blocking_stop-returns :
    (is_on_io_thread : Bool) (before after : List Event)
    → AllAllowed (before ++ (call_stop ∷ after)) make_server
    → (run (before ++ (call_stop ∷ after)) make_server).posted_start ≡ 0
    → (run (before ++ (call_stop ∷ after)) make_server).posted_cancel ≡ 0
    → (run (before ++ (call_stop ∷ after)) make_server).posted_stopped ≡ 0
    → (run (before ++ (call_stop ∷ after)) make_server).sends ≡ 0
    → (run (before ++ (call_stop ∷ after)) make_server).receives ≡ 0
    → (s : UdpDiscoveryServer) × (blocking_stop is_on_io_thread after (run before make_server)
        ≡ some s)
unfolding run step
blocking_stop-returns thread before after a ps pc po se re =
    let es = before ++ (call_stop ∷ after) in
    let t = (async_stop (run before make_server)).0 in
    let same : run es make_server ≡ run after t =
      run-append stoppable before (call_stop ∷ after) make_server in
    let called = all_stops_complete es a ps pc se re in
    let bound : t.stops ≤ (run after t).stops = stops-run after t in
    stop-returns stoppable thread after (run before make_server)
      (λ accepted. ground (arith, same, called, bound, po))
