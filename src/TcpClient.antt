-- ===== src/TcpClient.antt =====
-- eestv/net/connection/tcp_client.cpp and tcp_client_states.hpp: resolving a host, connecting to it and
-- stopping.
--
-- The mutex makes each function and each handler one step. What `io_context`, the resolver and the
-- socket hold for the client is part of the state: posted handlers that have not run, and the lookups
-- and connection attempts that have not completed. Host and port are only handed on to the resolver,
-- and left out, as is logging. The blocking `stop` is in Blocking.
pub mod Order
pub mod Stop
pub mod Print
pub mod Blocking
mod Examples
use eestv_lib.Common.{
  ℕ, ◌+◌, ◌-◌, Bool, true, false, not, ◌&&◌, ◌||◌, List, [], ◌∷◌, ◌==◌, if◌then◌else◌,
}
use eestv_lib.Flags.{set_flag, clear_flag, get_flag, clear_all}

-- `TcpClientState`.
abbrev pub schedule_resolving : ℕ
schedule_resolving = 0

abbrev pub resolving : ℕ
resolving = 1

abbrev pub connecting : ℕ
connecting = 2

abbrev pub stopping : ℕ
stopping = 3

-- `stop_singaled`.
abbrev pub stop_signaled : ℕ
stop_signaled = 4

pub record Client : Type 0 where
  pub flags : ℕ
  -- Whether `_on_connection_complete` and `_on_stopped` hold a function.
  pub on_connection_complete : Bool
  pub on_stopped : Bool
  -- Posted handlers that have not run.
  pub posted_resolve : ℕ
  pub posted_cancel : ℕ
  pub posted_failed : ℕ
  pub posted_stopped : ℕ
  -- Lookups and connection attempts that have not completed.
  pub lookups : ℕ
  pub attempts : ℕ
  -- Calls of `async_connect` and `async_stop` that returned true, and calls of their callbacks.
  pub connects : ℕ
  pub stops : ℕ
  pub failures : ℕ
  pub successes : ℕ
  pub stopped_calls : ℕ

abbrev pub has_flag : Client → ℕ → Bool
has_flag c flag = get_flag c.flags flag

unfoldable pub make_client : Client
make_client = record {
  flags = clear_all;
  on_connection_complete = false;
  on_stopped = false;
  posted_resolve = 0;
  posted_cancel = 0;
  posted_failed = 0;
  posted_stopped = 0;
  lookups = 0;
  attempts = 0;
  connects = 0;
  stops = 0;
  failures = 0;
  successes = 0;
  stopped_calls = 0;
}

unfoldable pub resolve_on_stopped : Client → Client
resolve_on_stopped c =
    if not (has_flag c stopping)
      && not (has_flag c schedule_resolving)
      && not (has_flag c resolving)
      && not (has_flag c connecting)
    then record c {
      on_stopped = false;
      posted_stopped = if c.on_stopped then c.posted_stopped + 1 else c.posted_stopped;
    }
    else c

abbrev pub if_stop_signaled : Client → Client
if_stop_signaled c = if has_flag c stop_signaled then resolve_on_stopped c else c

unfoldable pub async_connect : Client → Client × Bool
async_connect c =
    if has_flag c resolving
      || has_flag c schedule_resolving
      || has_flag c connecting
      || has_flag c stopping
    then (c, false)
    else (
      record c {
        flags = set_flag c.flags schedule_resolving;
        on_connection_complete = true;
        posted_resolve = c.posted_resolve + 1;
        connects = c.connects + 1;
      },
      true,
    )

-- The posted handler of `async_connect`.
unfoldable pub async_resolve : Client → Client
async_resolve c =
    let cleared = record c { flags = clear_flag c.flags schedule_resolving } in
    if has_flag cleared stop_signaled
    then resolve_on_stopped cleared
    else record cleared { flags = set_flag cleared.flags resolving; lookups = c.lookups + 1 }

-- `_on_connection_complete` moved into a posted handler that calls it with the error.
abbrev pub post_failure : Client → Client
post_failure c =
    if c.on_connection_complete
    then record c { on_connection_complete = false; posted_failed = c.posted_failed + 1 }
    else c

unfoldable pub handle_resolve : Bool → Client → Client
handle_resolve error_code c =
    let next =
      if error_code
      then post_failure c
      else record c { flags = set_flag c.flags connecting; attempts = c.attempts + 1 } in
    if_stop_signaled (record next { flags = clear_flag next.flags resolving })

unfoldable pub handle_connect : Bool → Client → Client
handle_connect error_code c =
    let cleared = record c { flags = clear_flag c.flags connecting } in
    if error_code
    then post_failure (if_stop_signaled cleared)
    else if has_flag cleared stop_signaled
    then resolve_on_stopped cleared
    else if c.on_connection_complete
    then record cleared { on_connection_complete = false; successes = c.successes + 1 }
    else cleared

unfoldable pub async_stop : Client → Client × Bool
async_stop c = if has_flag c stop_signaled then (c, false) else (
  record c {
    flags = set_flag (set_flag c.flags stop_signaled) stopping;
    on_stopped = true;
    posted_cancel = c.posted_cancel + 1;
    stops = c.stops + 1;
  },
  true,
)

-- The posted handler of `async_stop`. The lookups and attempts that it cancels complete with an error,
-- which is an event.
unfoldable pub cancel_operations : Client → Client
cancel_operations c = resolve_on_stopped (record c { flags = clear_flag c.flags stopping })

unfoldable pub reset : Client → Client
reset c = record c { flags = clear_all }

-- What can happen next: a call, a posted handler that runs, or a lookup or an attempt that completes,
-- with an error or without.
pub data Event : Type 0 where
  call_connect call_stop call_reset run_resolve run_cancel run_failed run_stopped : Event
  lookup_done attempt_done : Bool → Event

-- An event that is not possible in a state leaves it as it is.
unfoldable pub step : Event → Client → Client
step call_connect c = (async_connect c).0
step call_stop c = (async_stop c).0
step call_reset c = reset c
step run_resolve c =
    if c.posted_resolve == 0
    then c
    else async_resolve (record c { posted_resolve = c.posted_resolve - 1 })
step run_cancel c =
    if c.posted_cancel == 0
    then c
    else cancel_operations (record c { posted_cancel = c.posted_cancel - 1 })
step run_failed c =
    if c.posted_failed == 0
    then c
    else record c { posted_failed = c.posted_failed - 1; failures = c.failures + 1 }
step run_stopped c =
    if c.posted_stopped == 0
    then c
    else record c { posted_stopped = c.posted_stopped - 1; stopped_calls = c.stopped_calls + 1 }
step (lookup_done error_code) c =
    if c.lookups == 0 then c else handle_resolve error_code (record c { lookups = c.lookups - 1 })
step (attempt_done error_code) c =
    if c.attempts == 0
    then c
    else handle_connect error_code (record c { attempts = c.attempts - 1 })

unfoldable pub run : List Event → Client → Client
run [] c = c
run (e ∷ es) c = run es (step e c)
