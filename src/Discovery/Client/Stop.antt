-- ===== src/Discovery/Client/Stop.antt =====
-- When the stop of a discovery client completes.
use eestv_lib.Common.{
  ℕ, ◌+◌, ◌≤◌, ◌<◌, ◌≡◌, refl, ◌∙◌, Bool, true, false, List, [], ◌∷◌, arith, count,
}
use eestv_lib.BlockingStop.{AllEvents}
use eestv_lib.Flags.{set_flag}
use eestv_lib.Flags.Laws.{set_flag_laws, clear_flag_laws, clear_all_laws}
use eestv_lib.Discovery.{running, stopping, timer_running, sending_async, receiving_async}
use eestv_lib.Discovery.Client.{
  UdpDiscoveryClient, has_flag, make_client, resolve_on_stopped, async_start,
  send_discovery_request, start, async_stop, cancel_operations, handle_send_complete, failed, bytes,
  handle_response, handle_timeout, reset, Event, call_start, call_stop, call_reset, run_start,
  run_cancel, run_stopped, send_done, wait_done, receive_done, step, run,
}
use eestv_lib.Discovery.Client.Order.{RequestInv, Allowed, step-RequestInv}

-- Every `reset` among the events comes after a stop that has completed.
abbrev pub AllAllowed : List Event → UdpDiscoveryClient → Type 0
AllAllowed [] c = Unit {0}
AllAllowed (e ∷ es) c = Allowed e c × AllAllowed es (step e c)

pub make_client-RequestInv : (on_response : Bool) → RequestInv (make_client on_response)
unfolding make_client
make_client-RequestInv on_response = ground (arith, clear_all_laws)

-- After any events in which `reset` comes only after a completed stop, a discovery client whose
-- requests were in order keeps them so: `sending_async` and `timer_running` are set exactly while a
-- send or a wait is outstanding, at most one of these and the posted handler that starts is, at most
-- one receive is, and each accepted stop has its callback stored, posted or called.
pub run-RequestInv :
    (es : List Event) (c : UdpDiscoveryClient)
    → AllAllowed es c
    → RequestInv c
    → RequestInv (run es c)
unfolding run
run-RequestInv [] c a v = v
run-RequestInv (e ∷ es) c a v = run-RequestInv es (step e c) a.1 (step-RequestInv e c a.0 v)

abbrev pub outstanding : UdpDiscoveryClient → ℕ
outstanding c = c.posted_start + c.sends + c.waits + c.receives

-- A stop that comes while the client runs finds something outstanding.
abbrev pub StopIsBusy : Event → UdpDiscoveryClient → Type 0
StopIsBusy call_stop c = count (has_flag c running) ≤ outstanding c
StopIsBusy e c = Unit {0}

abbrev pub StopsAreBusy : List Event → UdpDiscoveryClient → Type 0
StopsAreBusy [] c = Unit {0}
StopsAreBusy (e ∷ es) c = StopIsBusy e c × StopsAreBusy es (step e c)

-- A callback that is stored waits for something.
record WaitInv (c : UdpDiscoveryClient) : Type 0 where
  requests : RequestInv c
  waits_for : c.on_stopped ≡ true → count (has_flag c running) ≤ outstanding c
  unstarted : c.on_stopped ≡ true → has_flag c running ≡ false → 0 < c.posted_cancel

step-WaitInv :
    (e : Event) (c : UdpDiscoveryClient)
    → Allowed e c
    → StopIsBusy e c
    → WaitInv c
    → WaitInv (step e c)
unfolding step async_start start send_discovery_request async_stop cancel_operations
    handle_send_complete handle_response handle_timeout resolve_on_stopped reset
step-WaitInv call_start c a b v = ground (
  arith,
  v.requests,
  step-RequestInv call_start c a v.requests,
  set_flag_laws c.flags running (omega arith),
)
step-WaitInv call_stop c a b v = ground (
  arith,
  v.requests,
  step-RequestInv call_stop c a v.requests,
  set_flag_laws c.flags stopping (omega arith),
)
step-WaitInv call_reset c a b v =
    ground (arith, step-RequestInv call_reset c a v.requests, clear_all_laws)
step-WaitInv run_start c a b v = ground (
  arith,
  v.requests,
  step-RequestInv run_start c a v.requests,
  set_flag_laws c.flags receiving_async (omega arith),
  set_flag_laws (set_flag c.flags receiving_async) sending_async (omega arith),
)
step-WaitInv run_cancel c a b v =
    ground (arith, v.requests, step-RequestInv run_cancel c a v.requests)
step-WaitInv run_stopped c a b v =
    ground (arith, v.requests, step-RequestInv run_stopped c a v.requests)
step-WaitInv (send_done true) c a b v = ground (
  arith,
  v.requests,
  step-RequestInv (send_done true) c a v.requests,
  clear_flag_laws c.flags sending_async (omega arith),
)
step-WaitInv (send_done false) c a b v = ground (
  arith,
  v.requests,
  step-RequestInv (send_done false) c a v.requests,
  clear_flag_laws c.flags sending_async (omega arith),
  set_flag_laws c.flags timer_running (omega arith),
  clear_flag_laws (set_flag c.flags timer_running) sending_async (omega arith),
)
step-WaitInv (wait_done true) c a b v = ground (
  arith,
  v.requests,
  step-RequestInv (wait_done true) c a v.requests,
  clear_flag_laws c.flags timer_running (omega arith),
)
step-WaitInv (wait_done false) c a b v = ground (
  arith,
  v.requests,
  step-RequestInv (wait_done false) c a v.requests,
  set_flag_laws c.flags sending_async (omega arith),
  clear_flag_laws (set_flag c.flags sending_async) timer_running (omega arith),
)
step-WaitInv (receive_done failed) c a b v = ground (
  arith,
  v.requests,
  step-RequestInv (receive_done failed) c a v.requests,
  clear_flag_laws c.flags receiving_async (omega arith),
)
step-WaitInv (receive_done (bytes [])) c a b v = ground (
  arith,
  v.requests,
  step-RequestInv (receive_done (bytes [])) c a v.requests,
  clear_flag_laws c.flags receiving_async (omega arith),
)
step-WaitInv (receive_done (bytes (x ∷ xs))) c a b v = ground (
  arith,
  v.requests,
  step-RequestInv (receive_done (bytes (x ∷ xs))) c a v.requests,
  clear_flag_laws c.flags receiving_async (omega arith),
)

run-WaitInv :
    (es : List Event) (c : UdpDiscoveryClient)
    → AllAllowed es c
    → StopsAreBusy es c
    → WaitInv c
    → WaitInv (run es c)
unfolding run
run-WaitInv [] c a b v = v
run-WaitInv (e ∷ es) c a b v = run-WaitInv es (step e c) a.1 b.1 (step-WaitInv e c a.0 b.0 v)

make_client-WaitInv : (on_response : Bool) → WaitInv (make_client on_response)
unfolding make_client
make_client-WaitInv on_response = ground (arith, clear_all_laws, make_client-RequestInv on_response)

-- A stop of a client that is still at work completes: after any events on a new discovery client in
-- which `reset` comes only after a completed stop, and a stop that comes while the client runs finds a
-- posted start, a send, a wait or a receive outstanding, if now none of these is and no handler that
-- cancels is posted, then the callback of every accepted stop was posted or called.
pub busy_stops_complete :
    (es : List Event) (on_response : Bool)
    → AllAllowed es (make_client on_response)
    → StopsAreBusy es (make_client on_response)
    → outstanding (run es (make_client on_response)) ≡ 0
    → (run es (make_client on_response)).posted_cancel ≡ 0
    → let c = run es (make_client on_response) in c.posted_stopped + c.stopped_calls ≡ c.stops
busy_stops_complete es on_response a b o p =
    let v : WaitInv (run es (make_client on_response)) =
      run-WaitInv es (make_client on_response) a b (make_client-WaitInv on_response) in
    ground (arith, v, v.requests)

-- A client that stops with nothing left that could complete.
pub record Hung (c : UdpDiscoveryClient) : Type 0 where
  pub is_running : has_flag c running ≡ true
  pub is_stopping : has_flag c stopping ≡ true
  pub stored : c.on_stopped ≡ true
  pub idle : outstanding c ≡ 0
  pub not_posted : c.posted_stopped ≡ 0

abbrev pub IsNoReset : Event → Type 0
IsNoReset call_reset = ⊥
IsNoReset e = Unit {0}

abbrev pub NoReset : List Event → Type 0
NoReset = AllEvents IsNoReset

pub step-Hung :
    (e : Event) (c : UdpDiscoveryClient)
    → IsNoReset e
    → Hung c
    → Hung (step e c) × ((step e c).stopped_calls ≡ c.stopped_calls)
unfolding step async_start async_stop cancel_operations
step-Hung call_start c r v = ground arith
step-Hung call_stop c r v = ground arith
step-Hung call_reset c r v = absurd r
step-Hung run_start c r v = ground arith
step-Hung run_cancel c r v = ground arith
step-Hung run_stopped c r v = ground arith
step-Hung (send_done b) c r v = ground arith
step-Hung (wait_done b) c r v = ground arith
step-Hung (receive_done b) c r v = ground arith

run-Hung :
    (es : List Event) (c : UdpDiscoveryClient)
    → NoReset es
    → Hung c
    → Hung (run es c) × ((run es c).stopped_calls ≡ c.stopped_calls)
unfolding run
run-Hung [] c r v = (v, refl)
run-Hung (e ∷ es) c r v =
    let (kept, same) = step-Hung e c r.0 v in
    let (left, calls) = run-Hung es (step e c) r.1 kept in (left, calls ∙ same)

pub idle_stop-Hung :
    (c : UdpDiscoveryClient)
    → has_flag c running ≡ true
    → has_flag c stopping ≡ false
    → outstanding c ≡ 0
    → c.posted_stopped ≡ 0
    → ((async_stop c).1 ≡ true)
      × Hung (async_stop c).0
      × ((async_stop c).0.stopped_calls ≡ c.stopped_calls)
      × ((async_stop c).0.stops ≡ c.stops + 1)
unfolding async_stop
idle_stop-Hung c a b o p = ground (arith, set_flag_laws c.flags stopping (omega arith))

-- A stop of a client whose work has come to an end never completes: where a client runs, is not
-- stopping, and has no posted start, send, wait or receive outstanding and no stop callback posted, a
-- stop is accepted, and whatever events but `reset` follow its callback is neither posted nor called.
pub idle_stop-hangs :
    (es : List Event) (c : UdpDiscoveryClient)
    → has_flag c running ≡ true
    → has_flag c stopping ≡ false
    → outstanding c ≡ 0
    → c.posted_stopped ≡ 0
    → NoReset es
    → let d = run es (async_stop c).0 in
      ((async_stop c).1 ≡ true) × (d.posted_stopped ≡ 0) × (d.stopped_calls ≡ c.stopped_calls)
unfolding async_stop
idle_stop-hangs es c a b o p r =
    ground (arith, set_flag_laws c.flags stopping (omega arith), run-Hung es (async_stop c).0 r)
