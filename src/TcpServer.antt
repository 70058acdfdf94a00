-- ===== src/TcpServer.antt =====
-- eestv/net/connection/tcp_server.hpp and tcp_server_states.hpp: accepting connections and stopping.
--
-- The mutex makes each function and each handler one step. What `io_context` and the acceptor hold for
-- the server is part of the state: posted handlers that have not run, and the accepts that have not
-- completed. Whether the acceptor is open is part of the state too; the server never closes it. The
-- connection callback does not call the server, whose mutex is held. The blocking `stop` is in Blocking.
-- Endpoints, buffer sizes and logging are left out.
pub mod Order
pub mod Stop
pub mod Blocking
mod Print
mod Examples
use eestv_lib.Common.{
  ℕ, ◌+◌, ◌-◌, Bool, true, false, not, ◌&&◌, ◌||◌, List, [], ◌∷◌, ◌==◌, if◌then◌else◌,
}
use eestv_lib.Flags.{set_flag, clear_flag, get_flag, clear_all}

-- `TcpServerState`.
abbrev pub start_signaled : ℕ
start_signaled = 0

abbrev pub stop_signaled : ℕ
stop_signaled = 1

abbrev pub start_accepting : ℕ
start_accepting = 2

abbrev pub accepting : ℕ
accepting = 3

abbrev pub stopping : ℕ
stopping = 4

pub record Server : Type 0 where
  pub flags : ℕ
  pub is_open : Bool
  -- Whether `_connection_callback` and `_stopped_callback` hold a function.
  pub connection_callback : Bool
  pub stopped_callback : Bool
  -- Posted handlers that have not run.
  pub posted_accept : ℕ
  pub posted_cancel : ℕ
  pub posted_stopped : ℕ
  -- Accepts that have not completed.
  pub accepts : ℕ
  -- Connections that were accepted, those of them that the callback took, and its calls on stopping.
  pub accepted : ℕ
  pub delivered : ℕ
  pub stopped_calls : ℕ

abbrev pub has_flag : Server → ℕ → Bool
has_flag s flag = get_flag s.flags flag

abbrev pub is_running : Server → Bool
is_running s = has_flag s accepting

unfoldable pub make_server : Server
make_server = record {
  flags = clear_all;
  is_open = true;
  connection_callback = false;
  stopped_callback = false;
  posted_accept = 0;
  posted_cancel = 0;
  posted_stopped = 0;
  accepts = 0;
  accepted = 0;
  delivered = 0;
  stopped_calls = 0;
}

unfoldable pub set_connection_callback : Bool → Server → Server
set_connection_callback callback s = record s { connection_callback = callback }

unfoldable pub resolve_on_stopped : Server → Server
resolve_on_stopped s =
    if not (has_flag s start_accepting) && not (has_flag s accepting)
    then (if s.stopped_callback
        then record s { stopped_callback = false; posted_stopped = s.posted_stopped + 1 }
        else s)
    else s

unfoldable pub async_start : Server → Server × Bool
async_start s = if has_flag s start_signaled || has_flag s stopping then (s, false) else (
  record s {
    flags = set_flag (set_flag s.flags start_signaled) start_accepting;
    posted_accept = s.posted_accept + 1;
  },
  true,
)

unfoldable pub async_stop : Server → Server × Bool
async_stop s = if has_flag s stop_signaled || not (has_flag s start_signaled) then (s, false) else (
  record s {
    flags = set_flag (set_flag s.flags stop_signaled) stopping;
    stopped_callback = true;
    posted_cancel = s.posted_cancel + 1;
  },
  true,
)

-- The posted handler of `async_stop`. An accept that `_acceptor.cancel` cancels completes with an
-- error, which is an event.
unfoldable pub cancel_accept : Server → Server
cancel_accept s =
    let marked = record s { flags = set_flag s.flags stopping } in
    if s.is_open then marked else resolve_on_stopped marked

unfoldable pub async_accept : Server → Server
async_accept s =
    let cleared = record s { flags = clear_flag s.flags start_accepting } in
    if not (has_flag cleared stopping)
    then record cleared { flags = set_flag cleared.flags accepting; accepts = s.accepts + 1 }
    else resolve_on_stopped cleared

unfoldable pub handle_accept : Bool → Server → Server
handle_accept error_code s =
    if error_code
    then resolve_on_stopped (record s { flags = clear_flag s.flags accepting })
    else (let next = record s {
      accepted = s.accepted + 1;
      delivered = if s.connection_callback then s.delivered + 1 else s.delivered;
    } in
        if not (has_flag next stopping)
        then async_accept next
        else resolve_on_stopped (record next { flags = clear_flag next.flags accepting }))

-- What can happen next: a call, a posted handler that runs, or an accept that completes, with an error
-- or without.
pub data Event : Type 0 where
  call_start call_stop run_accept run_cancel run_stopped : Event
  call_set_callback accept_done : Bool → Event

-- An event that is not possible in a state leaves it as it is.
unfoldable pub step : Event → Server → Server
step call_start s = (async_start s).0
step call_stop s = (async_stop s).0
step (call_set_callback callback) s = set_connection_callback callback s
step run_accept s =
    if s.posted_accept == 0
    then s
    else async_accept (record s { posted_accept = s.posted_accept - 1 })
step run_cancel s =
    if s.posted_cancel == 0
    then s
    else cancel_accept (record s { posted_cancel = s.posted_cancel - 1 })
step run_stopped s =
    if s.posted_stopped == 0
    then s
    else record s { posted_stopped = s.posted_stopped - 1; stopped_calls = s.stopped_calls + 1 }
step (accept_done error_code) s =
    if s.accepts == 0 then s else handle_accept error_code (record s { accepts = s.accepts - 1 })

unfoldable pub run : List Event → Server → Server
run [] s = s
run (e ∷ es) s = run es (step e s)
