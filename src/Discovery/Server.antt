-- ===== src/Discovery/Server.antt =====
-- eestv/net/discovery/udp_discovery_server.cpp and discoverable.cpp: requests for a service that are
-- answered until the server is stopped.
--
-- As for the client: each function and each handler is one step, and posted handlers, sends and receives
-- that are outstanding are part of the state. A discoverable is its identifier and its callback, which
-- is a function of the endpoint that asks. The table of discoverables has a mutex of its own; a call
-- that adds to it is an event. Logging is left out; Blocking has the blocking `stop`.
pub mod Order
pub mod Stop
pub mod Replies
pub mod Blocking
mod Examples
use eestv_lib.Common.{
  ℕ, ◌+◌, ◌-◌, Bool, true, false, not, ◌&&◌, ◌||◌, Option, none, some, List, [], ◌∷◌, ◌++◌, ◌==◌,
  if◌then◌else◌,
}
use eestv_lib.Common.Text.{Text, text_eq, is_empty}
use eestv_lib.Flags.{set_flag, clear_flag, get_flag, clear_all}
use eestv_lib.Discovery.{running, stopping, sending_async, receiving_async, Endpoint}

pub record Discoverable : Type 0 where
  pub identifier : Text
  pub callback : Endpoint → Text

unfoldable pub get_reply : Discoverable → Endpoint → Text
get_reply d remote_endpoint = d.callback remote_endpoint

-- `find` in the map from identifiers to discoverables.
unfoldable pub find : Text → List Discoverable → Option Discoverable
find identifier [] = none
find identifier (d ∷ ds) = if text_eq identifier d.identifier then some d else find identifier ds

-- `emplace`, which leaves an entry of the same identifier as it is.
unfoldable pub emplace : Discoverable → List Discoverable → List Discoverable
emplace d [] = d ∷ []
emplace d (e ∷ es) = if text_eq d.identifier e.identifier then e ∷ es else e ∷ emplace d es

pub record UdpDiscoveryServer : Type 0 where
  pub flags : ℕ
  pub discoverables : List Discoverable
  -- Whether `_on_stopped` holds a function.
  pub on_stopped : Bool
  -- Posted handlers that have not run.
  pub posted_start : ℕ
  pub posted_cancel : ℕ
  pub posted_stopped : ℕ
  -- Operations that have not completed.
  pub sends : ℕ
  pub receives : ℕ
  -- The replies that were sent, the calls of `async_stop` that returned true, and the calls of its
  -- callback.
  pub replies : List (Text × Endpoint)
  pub stops : ℕ
  pub stopped_calls : ℕ

abbrev pub has_flag : UdpDiscoveryServer → ℕ → Bool
has_flag s flag = get_flag s.flags flag

unfoldable pub make_server : UdpDiscoveryServer
make_server = record {
  flags = clear_all;
  discoverables = [];
  on_stopped = false;
  posted_start = 0;
  posted_cancel = 0;
  posted_stopped = 0;
  sends = 0;
  receives = 0;
  replies = [];
  stops = 0;
  stopped_calls = 0;
}

-- `post(_io_context, std::move(_on_stopped))` if it holds a function.
abbrev pub post_on_stopped : UdpDiscoveryServer → UdpDiscoveryServer
post_on_stopped s =
    if s.on_stopped
    then record s { on_stopped = false; posted_stopped = s.posted_stopped + 1 }
    else s

unfoldable pub resolve_on_stopped : UdpDiscoveryServer → UdpDiscoveryServer
resolve_on_stopped s =
    if has_flag s stopping
    then (if not (has_flag s receiving_async) && not (has_flag s sending_async)
        then post_on_stopped s
        else s)
    else s

unfoldable pub async_start : UdpDiscoveryServer → UdpDiscoveryServer × Bool
async_start s =
    if has_flag s running || has_flag s stopping
    then (s, false)
    else (record s { flags = set_flag s.flags running; posted_start = s.posted_start + 1 }, true)

unfoldable pub start_receive : UdpDiscoveryServer → UdpDiscoveryServer
start_receive s = record s { flags = set_flag s.flags receiving_async; receives = s.receives + 1 }

-- The posted handler of `async_start`.
unfoldable pub start : UdpDiscoveryServer → UdpDiscoveryServer
start s = if not (has_flag s stopping) then start_receive s else resolve_on_stopped s

unfoldable pub async_stop : UdpDiscoveryServer → UdpDiscoveryServer × Bool
async_stop s = if has_flag s stopping then (s, false) else (
  record s {
    flags = set_flag s.flags stopping;
    on_stopped = true;
    posted_cancel = s.posted_cancel + 1;
    stops = s.stops + 1;
  },
  true,
)

-- The posted handler of `async_stop`. The operations that it cancels complete with an error, which is
-- an event.
unfoldable pub cancel_operations : UdpDiscoveryServer → UdpDiscoveryServer
cancel_operations s = if has_flag s running then s else post_on_stopped s

unfoldable pub add_discoverable : Discoverable → UdpDiscoveryServer → UdpDiscoveryServer
add_discoverable d s = record s { discoverables = emplace d s.discoverables }

-- The bytes of a request and who sent it, if there was no error.
pub data Received : Type 0 where
  failed : Received
  request : Text → Endpoint → Received

unfoldable pub reply_to : Text → Endpoint → List Discoverable → Text
reply_to identifier remote_endpoint ds = elim (find identifier ds) [
  | none ↦ []
  | some d ↦ get_reply d remote_endpoint
]

-- The branches before the next receive.
unfoldable pub answer : Received → UdpDiscoveryServer → UdpDiscoveryServer
answer failed s = s
answer (request bytes remote_endpoint) s =
    let reply = reply_to bytes remote_endpoint s.discoverables in
    if is_empty bytes || is_empty reply then s else record s {
      flags = set_flag s.flags sending_async;
      sends = s.sends + 1;
      replies = s.replies ++ ((reply, remote_endpoint) ∷ []);
    }

unfoldable pub handle_receive : Received → UdpDiscoveryServer → UdpDiscoveryServer
handle_receive received s =
    let next = answer received s in
    if not (has_flag next stopping)
    then record next { receives = next.receives + 1 }
    else resolve_on_stopped (record next { flags = clear_flag next.flags receiving_async })

unfoldable pub handle_send : Bool → UdpDiscoveryServer → UdpDiscoveryServer
handle_send error s = resolve_on_stopped (record s { flags = clear_flag s.flags sending_async })

unfoldable pub reset : UdpDiscoveryServer → UdpDiscoveryServer
reset s = record s { flags = clear_all }

-- What can happen next: a call, a posted handler that runs, or an operation that completes.
pub data Event : Type 0 where
  call_start call_stop call_reset run_start run_cancel run_stopped : Event
  call_add : Discoverable → Event
  send_done : Bool → Event
  receive_done : Received → Event

-- An event that is not possible in a state leaves it as it is.
unfoldable pub step : Event → UdpDiscoveryServer → UdpDiscoveryServer
step call_start s = (async_start s).0
step call_stop s = (async_stop s).0
step call_reset s = reset s
step (call_add d) s = add_discoverable d s
step run_start s =
    if s.posted_start == 0 then s else start (record s { posted_start = s.posted_start - 1 })
step run_cancel s =
    if s.posted_cancel == 0
    then s
    else cancel_operations (record s { posted_cancel = s.posted_cancel - 1 })
step run_stopped s =
    if s.posted_stopped == 0
    then s
    else record s { posted_stopped = s.posted_stopped - 1; stopped_calls = s.stopped_calls + 1 }
step (send_done error) s =
    if s.sends == 0 then s else handle_send error (record s { sends = s.sends - 1 })
step (receive_done received) s =
    if s.receives == 0 then s else handle_receive received (record s { receives = s.receives - 1 })

unfoldable pub run : List Event → UdpDiscoveryServer → UdpDiscoveryServer
run [] s = s
run (e ∷ es) s = run es (step e s)
