-- ===== src/Discovery/Client/Examples.antt =====
-- A discovery client that asks, is answered and stops, and the theorems at it.
use eestv_lib.Common.{◌+◌, ◌≡◌, refl, true, false, List, [], ◌∷◌, arith}
use eestv_lib.Common.Text.{codes}
use eestv_lib.Flags.{set_flag, clear_flag, get_flag, clear_all}
use eestv_lib.Discovery.{running, stopping}
use eestv_lib.Discovery.Client.{
  UdpDiscoveryClient, has_flag, make_client, resolve_on_stopped, async_start,
  send_discovery_request, start, async_stop, cancel_operations, handle_send_complete, failed, bytes,
  handle_response, handle_timeout, reset, Event, call_start, call_stop, call_reset, run_start,
  run_cancel, run_stopped, send_done, wait_done, receive_done, step, run,
}
use eestv_lib.Discovery.Client.Order.{RequestInv}
use eestv_lib.Discovery.Client.Stop.{
  AllAllowed, outstanding, StopsAreBusy, busy_stops_complete, run-RequestInv,
  make_client-RequestInv,
}
use eestv_lib.Discovery.Client.Responses.{response-receives, empty_response-responses}

-- A stop before any response: the cancelled wait and receive complete, then the client starts again.
abbrev events : List Event
events =
    call_start
    ∷ run_start
    ∷ send_done false
    ∷ call_stop
    ∷ run_cancel
    ∷ wait_done true
    ∷ receive_done failed
    ∷ run_stopped
    ∷ call_reset
    ∷ call_start
    ∷ []

allowed : AllAllowed events (make_client true)
unfolding run step make_client async_start start send_discovery_request async_stop cancel_operations
    handle_send_complete handle_response handle_timeout resolve_on_stopped reset set_flag clear_flag
    get_flag clear_all
allowed = (tt, (tt, (tt, (tt, (tt, (tt, (tt, (tt, ((refl, refl), (tt, tt))))))))))

abbrev one_stop : List Event
one_stop =
    call_start
    ∷ run_start
    ∷ send_done false
    ∷ call_stop
    ∷ run_cancel
    ∷ wait_done true
    ∷ receive_done failed
    ∷ []

one_stop_ends :
    (outstanding (run one_stop (make_client true)) ≡ 0)
    × ((run one_stop (make_client true)).posted_cancel ≡ 0)
    × ((run one_stop (make_client true)).posted_stopped ≡ 1)
unfolding run step make_client async_start start send_discovery_request async_stop cancel_operations
    handle_send_complete handle_response handle_timeout resolve_on_stopped reset set_flag clear_flag
    get_flag clear_all
one_stop_ends = (refl, refl, refl)

one_stop_busy : StopsAreBusy one_stop (make_client true)
unfolding run step make_client async_start start send_discovery_request async_stop cancel_operations
    handle_send_complete handle_response handle_timeout resolve_on_stopped reset set_flag clear_flag
    get_flag clear_all
one_stop_busy = (tt, (tt, (tt, (omega arith, (tt, (tt, (tt, tt)))))))

busy_stops_complete_example :
    let c = run one_stop (make_client true) in c.posted_stopped + c.stopped_calls ≡ c.stops
busy_stops_complete_example =
    busy_stops_complete one_stop true (tt, (tt, (tt, (tt, (tt, (tt, (tt, tt))))))) one_stop_busy
      one_stop_ends.0 one_stop_ends.1

-- A send and then the receive failed.
abbrev idle : UdpDiscoveryClient
idle = run (call_start ∷ run_start ∷ send_done true ∷ receive_done failed ∷ []) (make_client true)

idle_state :
    (has_flag idle running ≡ true)
    × (has_flag idle stopping ≡ false)
    × (outstanding idle ≡ 0)
    × (idle.posted_stopped ≡ 0)
unfolding run step make_client async_start start send_discovery_request async_stop cancel_operations
    handle_send_complete handle_response handle_timeout resolve_on_stopped reset set_flag clear_flag
    get_flag clear_all
idle_state = (refl, refl, refl, refl)

-- A response comes while the cancelled wait has completed and the receive has not.
abbrev awaiting : UdpDiscoveryClient
awaiting =
    run (call_start ∷ run_start ∷ send_done false ∷ call_stop ∷ run_cancel ∷ wait_done true ∷ [])
      (make_client true)

awaiting_state :
    (awaiting.on_stopped ≡ true)
    × (awaiting.on_response ≡ true)
    × (awaiting.receives ≡ 1)
    × (awaiting.sends ≡ 0)
    × (awaiting.waits ≡ 0)
    × (awaiting.posted_stopped ≡ 0)
unfolding run step make_client async_start start send_discovery_request async_stop cancel_operations
    handle_send_complete handle_response handle_timeout resolve_on_stopped reset set_flag clear_flag
    get_flag clear_all
awaiting_state = (refl, refl, refl, refl, refl, refl)

awaiting-RequestInv : RequestInv awaiting
awaiting-RequestInv =
    run-RequestInv
      (call_start ∷ run_start ∷ send_done false ∷ call_stop ∷ run_cancel ∷ wait_done true ∷ [])
      (make_client true) (tt, (tt, (tt, (tt, (tt, (tt, tt)))))) (make_client-RequestInv true)

response-receives_example :
    let d = step (receive_done (bytes (codes "svc"))) awaiting in
    (d.posted_stopped ≡ awaiting.posted_stopped + 1) × (d.receives ≡ 1)
response-receives_example =
    response-receives b's' (codes "vc") awaiting awaiting-RequestInv awaiting_state.0
      awaiting_state.1 awaiting_state.2 awaiting_state.3 awaiting_state.4

empty_response-responses_example :
    (run
      (send_done false ∷ receive_done (bytes (codes "svc")) ∷ [])
      (step (receive_done (bytes [])) awaiting)).responses
    ≡ awaiting.responses
empty_response-responses_example =
    empty_response-responses (send_done false ∷ receive_done (bytes (codes "svc")) ∷ []) awaiting
      awaiting-RequestInv awaiting_state.2 (tt, (tt, tt))
