-- ===== src/Discovery/Client.antt =====
-- eestv/net/discovery/udp_discovery_client.cpp: requests that are sent until the client is stopped, and
-- the responses to them.
--
-- The mutex makes each function and each handler one step. What `io_context`, the socket and the timer
-- hold for the client is part of the state: posted handlers that have not run, and the sends, receives
-- and waits that have not completed. A `std::function` that was moved from holds no function, as in the
-- common libraries. The texts and endpoints of requests, the result of the response handler, which is
-- only logged, and logging are left out; Blocking has the blocking `stop`.
pub mod Order
pub mod Stop
pub mod Responses
pub mod Blocking
mod Examples
use eestv_lib.Common.{
  ℕ, ◌+◌, ◌-◌, Bool, true, false, not, ◌&&◌, ◌||◌, List, [], ◌∷◌, ◌++◌, ◌==◌, if◌then◌else◌,
}
use eestv_lib.Common.Text.{Text}
use eestv_lib.Flags.{set_flag, clear_flag, get_flag, clear_all}
use eestv_lib.Discovery.{running, stopping, timer_running, sending_async, receiving_async}

pub record UdpDiscoveryClient : Type 0 where
  pub flags : ℕ
  -- Whether `_on_response` and `_on_stopped` hold a function.
  pub on_response : Bool
  pub on_stopped : Bool
  -- Posted handlers that have not run.
  pub posted_start : ℕ
  pub posted_cancel : ℕ
  pub posted_stopped : ℕ
  -- Operations that have not completed.
  pub sends : ℕ
  pub receives : ℕ
  pub waits : ℕ
  -- The responses that the handler was called with, the calls of `async_stop` that returned true, and
  -- the calls of its callback.
  pub responses : List Text
  pub stops : ℕ
  pub stopped_calls : ℕ

abbrev pub has_flag : UdpDiscoveryClient → ℕ → Bool
has_flag c flag = get_flag c.flags flag

unfoldable pub make_client : Bool → UdpDiscoveryClient
make_client on_response = record {
  flags = clear_all;
  on_response = on_response;
  on_stopped = false;
  posted_start = 0;
  posted_cancel = 0;
  posted_stopped = 0;
  sends = 0;
  receives = 0;
  waits = 0;
  responses = [];
  stops = 0;
  stopped_calls = 0;
}

-- `post(_io_context, std::move(_on_stopped))` if it holds a function.
abbrev pub post_on_stopped : UdpDiscoveryClient → UdpDiscoveryClient
post_on_stopped c =
    if c.on_stopped
    then record c { on_stopped = false; posted_stopped = c.posted_stopped + 1 }
    else c

unfoldable pub resolve_on_stopped : UdpDiscoveryClient → UdpDiscoveryClient
resolve_on_stopped c =
    if has_flag c stopping
    then (if not (has_flag c receiving_async)
          && not (has_flag c sending_async)
          && not (has_flag c timer_running)
        then post_on_stopped c
        else c)
    else c

unfoldable pub async_start : UdpDiscoveryClient → UdpDiscoveryClient × Bool
async_start c =
    if has_flag c running || has_flag c stopping
    then (c, false)
    else (record c { flags = set_flag c.flags running; posted_start = c.posted_start + 1 }, true)

unfoldable pub send_discovery_request : UdpDiscoveryClient → UdpDiscoveryClient
send_discovery_request c = record c { flags = set_flag c.flags sending_async; sends = c.sends + 1 }

-- The posted handler of `async_start`.
unfoldable pub start : UdpDiscoveryClient → UdpDiscoveryClient
start c =
    if not (has_flag c stopping)
    then send_discovery_request
        (record c { flags = set_flag c.flags receiving_async; receives = c.receives + 1 })
    else resolve_on_stopped c

unfoldable pub async_stop : UdpDiscoveryClient → UdpDiscoveryClient × Bool
async_stop c = if has_flag c stopping then (c, false) else (
  record c {
    flags = set_flag c.flags stopping;
    on_stopped = true;
    posted_cancel = c.posted_cancel + 1;
    stops = c.stops + 1;
  },
  true,
)

-- The posted handler of `async_stop`. The operations that it cancels complete with an error, which is
-- an event.
unfoldable pub cancel_operations : UdpDiscoveryClient → UdpDiscoveryClient
cancel_operations c = if has_flag c running then c else post_on_stopped c

unfoldable pub handle_send_complete : Bool → UdpDiscoveryClient → UdpDiscoveryClient
handle_send_complete error_code c =
    let next =
      if error_code
      then c
      else if not (has_flag c stopping)
      then record c { flags = set_flag c.flags timer_running; waits = c.waits + 1 }
      else c in
    resolve_on_stopped (record next { flags = clear_flag next.flags sending_async })

-- The bytes of the response, if there was no error.
pub data Received : Type 0 where
  failed : Received
  bytes : Text → Received

-- The branches before the flag is cleared.
abbrev pub take_response : Received → UdpDiscoveryClient → UdpDiscoveryClient
take_response failed c = c
take_response (bytes []) c = c
take_response (bytes (x ∷ xs)) c =
    if c.on_response
    then record c { responses = c.responses ++ ((x ∷ xs) ∷ []); receives = c.receives + 1 }
    else c

unfoldable pub handle_response : Received → UdpDiscoveryClient → UdpDiscoveryClient
handle_response received c =
    let next = take_response received c in
    resolve_on_stopped (record next { flags = clear_flag next.flags receiving_async })

unfoldable pub handle_timeout : Bool → UdpDiscoveryClient → UdpDiscoveryClient
handle_timeout error_code c =
    let next = if error_code then c else send_discovery_request c in
    resolve_on_stopped (record next { flags = clear_flag next.flags timer_running })

unfoldable pub reset : UdpDiscoveryClient → UdpDiscoveryClient
reset c = record c { flags = clear_all }

-- What can happen next: a call, a posted handler that runs, or an operation that completes.
pub data Event : Type 0 where
  call_start call_stop call_reset run_start run_cancel run_stopped : Event
  send_done wait_done : Bool → Event
  receive_done : Received → Event

-- An event that is not possible in a state leaves it as it is.
unfoldable pub step : Event → UdpDiscoveryClient → UdpDiscoveryClient
step call_start c = (async_start c).0
step call_stop c = (async_stop c).0
step call_reset c = reset c
step run_start c =
    if c.posted_start == 0 then c else start (record c { posted_start = c.posted_start - 1 })
step run_cancel c =
    if c.posted_cancel == 0
    then c
    else cancel_operations (record c { posted_cancel = c.posted_cancel - 1 })
step run_stopped c =
    if c.posted_stopped == 0
    then c
    else record c { posted_stopped = c.posted_stopped - 1; stopped_calls = c.stopped_calls + 1 }
step (send_done error_code) c =
    if c.sends == 0 then c else handle_send_complete error_code (record c { sends = c.sends - 1 })
step (wait_done error_code) c =
    if c.waits == 0 then c else handle_timeout error_code (record c { waits = c.waits - 1 })
step (receive_done received) c =
    if c.receives == 0 then c else handle_response received (record c { receives = c.receives - 1 })

unfoldable pub run : List Event → UdpDiscoveryClient → UdpDiscoveryClient
run [] c = c
run (e ∷ es) c = run es (step e c)
