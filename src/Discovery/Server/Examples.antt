-- ===== src/Discovery/Server/Examples.antt =====
-- A discovery server that answers and stops, and the theorems at it.
use eestv_lib.Common.{◌+◌, ◌≤◌, ◌≡◌, refl, true, false, List, [], ◌∷◌, arith}
use eestv_lib.Common.Text.{codes}
use eestv_lib.Flags.{set_flag, clear_flag, get_flag, clear_all}
use eestv_lib.Discovery.{Endpoint}
use eestv_lib.Discovery.Server.{
  UdpDiscoveryServer, Discoverable, get_reply, find, emplace, make_server, resolve_on_stopped,
  async_start, start_receive, start, async_stop, cancel_operations, add_discoverable, reply_to,
  answer, failed, request, handle_receive, handle_send, reset, Event, call_start, call_stop,
  call_add, run_start, run_cancel, send_done, receive_done, step, run,
}
use eestv_lib.Discovery.Server.Stop.{
  make_server-ServeInv, run-ServeInv, all_stops_complete, send_done-sends,
}
use eestv_lib.Common.{some, ◌++◌}
use eestv_lib.Discovery.Server.{run_stopped, UdpDiscoveryServer}
use eestv_lib.Discovery.Server.Blocking.{blocking_stop, blocking_stop-returns}
use eestv_lib.Discovery.Server.Replies.{Serving, run-replies}

abbrev peer : Endpoint
peer = record { address = codes "10.0.0.2"; port = 700 }

-- Two services under one name; the second is never asked.
abbrev echo : Discoverable
echo = record { identifier = codes "svc"; callback = λ e. e.address }

abbrev other : Discoverable
other = record { identifier = codes "svc"; callback = λ e. codes "no" }

abbrev serving : UdpDiscoveryServer
serving = run (call_add echo ∷ call_add other ∷ call_start ∷ run_start ∷ []) make_server

serving-Serving : Serving serving
unfolding run step make_server async_start start start_receive async_stop cancel_operations
    add_discoverable handle_receive answer reply_to get_reply find emplace handle_send
    resolve_on_stopped reset set_flag clear_flag get_flag clear_all
serving-Serving = record { started = refl; goes_on = refl; no_start = refl; one_receive = refl }

-- Another service is added while the server serves, and another of its name after it.
abbrev late : Discoverable
late = record { identifier = codes "late"; callback = λ e. codes "yes" }

abbrev later : Discoverable
later = record { identifier = codes "late"; callback = λ e. codes "no" }

abbrev requests : List Event
requests =
    receive_done (request (codes "svc") peer)
    ∷ receive_done (request (codes "late") peer)
    ∷ call_add late
    ∷ call_add later
    ∷ receive_done failed
    ∷ send_done true
    ∷ receive_done (request [] peer)
    ∷ receive_done (request (codes "late") peer)
    ∷ []

run-replies_example :
    let t = run requests serving in
    (t.replies ≡ (codes "10.0.0.2", peer) ∷ (codes "yes", peer) ∷ []) × (t.receives ≡ 1)
unfolding run step make_server async_start start start_receive async_stop cancel_operations
    add_discoverable handle_receive answer reply_to get_reply find emplace handle_send
    resolve_on_stopped reset set_flag clear_flag get_flag clear_all
run-replies_example = run-replies requests serving refl serving-Serving

abbrev events : List Event
events =
    call_add echo
    ∷ call_start
    ∷ run_start
    ∷ receive_done (request (codes "svc") peer)
    ∷ call_stop
    ∷ run_cancel
    ∷ receive_done failed
    ∷ send_done false
    ∷ []

events_end :
    let s = run events make_server in
    (s.posted_start ≡ 0)
    × (s.posted_cancel ≡ 0)
    × (s.sends ≡ 0)
    × (s.receives ≡ 0)
    × (s.posted_stopped ≡ 1)
unfolding run step make_server async_start start start_receive async_stop cancel_operations
    add_discoverable handle_receive answer reply_to get_reply find emplace handle_send
    resolve_on_stopped reset set_flag clear_flag get_flag clear_all
events_end = (refl, refl, refl, refl, refl)

all_stops_complete_example :
    let s = run events make_server in s.posted_stopped + s.stopped_calls ≡ s.stops
all_stops_complete_example =
    all_stops_complete events (tt, (tt, (tt, (tt, (tt, (tt, (tt, (tt, tt)))))))) events_end.0
      events_end.1 events_end.2 events_end.3

-- Two replies are on their way when the server is stopped.
abbrev hurried_events : List Event
hurried_events =
    call_add echo
    ∷ call_start
    ∷ run_start
    ∷ receive_done (request (codes "svc") peer)
    ∷ receive_done (request (codes "svc") peer)
    ∷ call_stop
    ∷ run_cancel
    ∷ receive_done failed
    ∷ []

abbrev hurried : UdpDiscoveryServer
hurried = run hurried_events make_server

hurried_state : (hurried.on_stopped ≡ true) × (hurried.receives ≡ 0) × (hurried.sends ≡ 2)
unfolding run step make_server async_start start start_receive async_stop cancel_operations
    add_discoverable handle_receive answer reply_to get_reply find emplace handle_send
    resolve_on_stopped reset set_flag clear_flag get_flag clear_all
hurried_state = (refl, refl, refl)

two_sends : 2 ≤ hurried.sends
two_sends = omega (arith, hurried_state.2)

send_done-sends_example :
    let t = step (send_done false) hurried in
    (t.posted_stopped ≡ hurried.posted_stopped + 1) × (1 ≤ t.sends)
send_done-sends_example =
    send_done-sends false hurried
      (run-ServeInv hurried_events make_server (tt, (tt, (tt, (tt, (tt, (tt, (tt, (tt, tt))))))))
        make_server-ServeInv)
      hurried_state.0 hurried_state.1 two_sends

abbrev before_stop : List Event
before_stop =
    call_add echo ∷ call_start ∷ run_start ∷ receive_done (request (codes "svc") peer) ∷ []

abbrev after_stop : List Event
after_stop = run_cancel ∷ receive_done failed ∷ send_done false ∷ run_stopped ∷ []

stopped_end :
    let s = run (before_stop ++ (call_stop ∷ after_stop)) make_server in
    (s.posted_start ≡ 0)
    × (s.posted_cancel ≡ 0)
    × (s.posted_stopped ≡ 0)
    × (s.sends ≡ 0)
    × (s.receives ≡ 0)
unfolding run step make_server async_start start start_receive async_stop cancel_operations
    add_discoverable handle_receive answer reply_to get_reply find emplace handle_send
    resolve_on_stopped reset set_flag clear_flag get_flag clear_all
stopped_end = (refl, refl, refl, refl, refl)

blocking_stop-returns_example :
    (s : UdpDiscoveryServer) × (blocking_stop false after_stop (run before_stop make_server)
      ≡ some s)
blocking_stop-returns_example =
    blocking_stop-returns false before_stop after_stop
      (tt, (tt, (tt, (tt, (tt, (tt, (tt, (tt, (tt, tt))))))))) stopped_end.0 stopped_end.1
      stopped_end.2 stopped_end.3 stopped_end.4
