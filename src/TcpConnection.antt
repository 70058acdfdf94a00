-- ===== src/TcpConnection.antt =====
-- eestv/net/connection/tcp_connection.hpp and tcp_connection_states.hpp: a connection's asynchronous
-- reads, writes and shutdown.
--
-- The mutex makes each function and each handler one step. What `io_context` and the socket hold for
-- the connection is part of the state: the handlers that were posted and have not run, counted by
-- kind, and the reads and writes that were started and have not completed, with their regions.
-- The environment chooses which of these runs next (`Event`). Callbacks do not call the connection, as
-- the header demands. The blocking `stop` is in Blocking. Logging and the remote endpoint are left out.
pub mod Send
pub mod Stream
pub mod Shutdown
pub mod Receive
pub mod Reads
pub mod Delivery
pub mod Blocking
pub mod Link
mod Print
mod Examples
use eestv_lib.Common.{
  ℕ, zero, suc, ◌+◌, ◌-◌, Bool, true, false, not, ◌&&◌, ◌||◌, Option, none, some, List, [], ◌∷◌,
  ◌++◌, ltb, leb, ◌==◌, if◌then◌else◌, length, take, drop,
}
use eestv_lib.Flags.{set_flag, clear_flag, get_flag, clear_all}
use eestv_lib.LinearBuffer.{
  LinearBuffer, make, get_read_head, consume, get_write_head, commit, write_at,
}

-- `TcpConnectionState`, by `static_cast<uint32_t>`.
abbrev pub start_sending : ℕ
start_sending = 0

abbrev pub sending : ℕ
sending = 1

abbrev pub start_receiving : ℕ
start_receiving = 2

abbrev pub receiving : ℕ
receiving = 3

abbrev pub closing : ℕ
closing = 4

abbrev pub stop_signaled : ℕ
stop_signaled = 5

abbrev pub lost : ℕ
lost = 6

-- A region of a buffer that was handed to the socket: its pointer and size.
abbrev pub Region : Type 0
Region = ℕ × ℕ

pub record Connection : Type 0 where
  pub flags : ℕ
  pub receive_buffer : LinearBuffer
  pub send_buffer : LinearBuffer
  -- Whether `_connection_lost_callback` and `_disconnected_callback` hold a function.
  pub connection_lost_callback : Bool
  pub disconnected_callback : Bool
  -- Posted handlers that have not run.
  pub posted_cancel : ℕ
  pub posted_receive : ℕ
  pub posted_send : ℕ
  pub posted_stopped : ℕ
  pub posted_lost : ℕ
  -- Started operations that have not completed.
  pub reads : List Region
  pub writes : List Region
  -- The bytes that the socket has accepted, and the calls of the stop callback.
  pub sent : List ℕ
  pub stopped_calls : ℕ

abbrev pub has_flag : Connection → ℕ → Bool
has_flag c flag = get_flag c.flags flag

unfoldable pub connect : ℕ → ℕ → Bool → Connection
connect receive_buffer_size send_buffer_size lost = record {
  flags = clear_all;
  receive_buffer = make receive_buffer_size;
  send_buffer = make send_buffer_size;
  connection_lost_callback = lost;
  disconnected_callback = false;
  posted_cancel = 0;
  posted_receive = 0;
  posted_send = 0;
  posted_stopped = 0;
  posted_lost = 0;
  reads = [];
  writes = [];
  sent = [];
  stopped_calls = 0;
}

-- `set_data_received_callback` chooses the `on_data` of the steps that follow.
unfoldable pub set_connection_lost_callback : Bool → Connection → Connection
set_connection_lost_callback callback c = record c { connection_lost_callback = callback }

unfoldable pub resolve_on_stopped : Connection → Connection
resolve_on_stopped c =
    if not (
      has_flag c closing
      || has_flag c start_sending
      || has_flag c sending
      || has_flag c start_receiving
      || has_flag c receiving)
    then record c {
      disconnected_callback = false;
      posted_stopped = if c.disconnected_callback then c.posted_stopped + 1 else c.posted_stopped;
    }
    else c

-- `_socket.cancel` makes the started operations complete with an error, which is an event.
unfoldable pub cancel_async_operations : Connection → Connection
cancel_async_operations c = resolve_on_stopped (record c { flags = clear_flag c.flags closing })

unfoldable pub async_stop : Connection → Connection × Bool
async_stop c =
    if not (has_flag c stop_signaled)
    then (
      record c {
        flags = set_flag (set_flag c.flags stop_signaled) closing;
        disconnected_callback = true;
        posted_cancel = c.posted_cancel + 1;
      },
      true,
    )
    else (c, false)

unfoldable pub request_receiving : Connection → Connection
request_receiving c =
    if not (has_flag c start_receiving || has_flag c receiving || has_flag c stop_signaled)
    then record c {
      flags = set_flag c.flags start_receiving;
      posted_receive = c.posted_receive + 1;
    }
    else c

-- `async_receive`; with the buffer full it returns without reading.
unfoldable pub async_receive : Connection → Connection
async_receive c =
    let cleared = record c { flags = clear_flag c.flags start_receiving } in
    if not (has_flag cleared stop_signaled)
    then (let (writable_size, write_head) = get_write_head c.receive_buffer in
        elim write_head [
          | none ↦ cleared
          | some p ↦
              if writable_size == 0
              then cleared
              else record cleared { reads = c.reads ++ ((p, writable_size) ∷ []) }
        ])
    else resolve_on_stopped cleared

abbrev pub report_lost : Connection → Connection
report_lost c =
    if c.connection_lost_callback then record c { posted_lost = c.posted_lost + 1 } else c

-- `on_receive` with an error.
unfoldable pub on_receive_error : Connection → Connection
on_receive_error c =
    let cleared = record c { flags = clear_flag c.flags receiving } in
    report_lost (if has_flag cleared stop_signaled then resolve_on_stopped cleared else cleared)

-- `on_receive` without one; `on_data` is what `_data_received_callback` does to the buffer, or
-- nothing if it is not set.
unfoldable pub on_receive : (LinearBuffer → LinearBuffer) → ℕ → Connection → Connection
on_receive on_data bytes_transferred c =
    async_receive
      (record c { receive_buffer = on_data (commit bytes_transferred c.receive_buffer).0 })

unfoldable pub request_sending : Connection → Connection
request_sending c =
    if not (has_flag c start_sending || has_flag c sending || has_flag c stop_signaled)
    then record c { flags = set_flag c.flags start_sending; posted_send = c.posted_send + 1 }
    else c

unfoldable pub async_send : Connection → Connection
async_send c =
    let (bytes_to_send, send_ptr) = get_read_head c.send_buffer in
    elim send_ptr [
      | none ↦ record c { flags = clear_flag c.flags sending }
      | some p ↦
          if bytes_to_send == 0
          then record c { flags = clear_flag c.flags sending }
          else record c { writes = c.writes ++ ((p, bytes_to_send) ∷ []) }
    ]

-- The handler that `start_sending` posts.
unfoldable pub begin_sending : Connection → Connection
begin_sending c =
    let cleared = record c { flags = clear_flag c.flags start_sending } in
    if not (has_flag cleared stop_signaled)
    then async_send (record cleared { flags = set_flag cleared.flags sending })
    else resolve_on_stopped cleared

unfoldable pub on_send_error : Connection → Connection
on_send_error c =
    let cleared = record c { flags = clear_flag c.flags sending } in
    report_lost (if has_flag cleared stop_signaled then resolve_on_stopped cleared else cleared)

unfoldable pub on_send : ℕ → Connection → Connection
on_send bytes_transferred c =
    let next =
      async_send (record c { send_buffer = (consume bytes_transferred c.send_buffer).0 }) in
    if not (has_flag next sending)
    then (if has_flag next stop_signaled then resolve_on_stopped next else next)
    else next

-- `call_queue_send_function` with a callback that appends bytes if they fit.
unfoldable pub queue_send : List ℕ → Connection → Connection
queue_send bytes c =
    if leb (length bytes) (get_write_head c.send_buffer).0
    then record c {
      send_buffer = (commit (length bytes) (write_at c.send_buffer.head bytes c.send_buffer)).0;
    }
    else c

-- What can happen next: a call of the client, a posted handler that runs, or an operation of the
-- socket that completes. A read completes with bytes for the front of the oldest region, a write with
-- all bytes of its region; either may fail, a write after some of its bytes went out.
pub data Event : Type 0 where
  call_receive call_send call_stop run_cancel run_receive run_send run_stopped run_lost : Event
  read_failed write_done : Event
  call_queue read_done : List ℕ → Event
  write_failed : ℕ → Event

read_completes : (LinearBuffer → LinearBuffer) → List ℕ → List Region → Connection → Connection
read_completes on_data bytes [] c = c
read_completes on_data bytes ((p, n) ∷ rest) c =
    if leb (length bytes) n
    then on_receive on_data (length bytes)
        (record c { reads = rest; receive_buffer = write_at p bytes c.receive_buffer })
    else c

read_fails : List Region → Connection → Connection
read_fails [] c = c
read_fails (r ∷ rest) c = on_receive_error (record c { reads = rest })

write_completes : List Region → Connection → Connection
write_completes [] c = c
write_completes ((p, n) ∷ rest) c =
    on_send n (record c { writes = rest; sent = c.sent ++ take n (drop p c.send_buffer.buffer) })

write_fails : ℕ → List Region → Connection → Connection
write_fails k [] c = c
write_fails k ((p, n) ∷ rest) c =
    if leb k n
    then on_send_error
        (record c { writes = rest; sent = c.sent ++ take k (drop p c.send_buffer.buffer) })
    else c

-- An event that is not possible in a state leaves it as it is.
unfoldable pub step : (LinearBuffer → LinearBuffer) → Event → Connection → Connection
unfolding read_completes read_fails write_completes write_fails
step on_data call_receive c = request_receiving c
step on_data call_send c = request_sending c
step on_data call_stop c = (async_stop c).0
step on_data (call_queue bytes) c = queue_send bytes c
step on_data run_cancel c =
    if c.posted_cancel == 0
    then c
    else cancel_async_operations (record c { posted_cancel = c.posted_cancel - 1 })
step on_data run_receive c =
    if c.posted_receive == 0
    then c
    else async_receive (record c { posted_receive = c.posted_receive - 1 })
step on_data run_send c =
    if c.posted_send == 0 then c else begin_sending (record c { posted_send = c.posted_send - 1 })
step on_data run_stopped c =
    if c.posted_stopped == 0
    then c
    else record c { posted_stopped = c.posted_stopped - 1; stopped_calls = c.stopped_calls + 1 }
step on_data run_lost c =
    if c.posted_lost == 0 then c else record c { posted_lost = c.posted_lost - 1 }
step on_data (read_done bytes) c = read_completes on_data bytes c.reads c
step on_data read_failed c = read_fails c.reads c
step on_data write_done c = write_completes c.writes c
step on_data (write_failed k) c = write_fails k c.writes c

unfoldable pub run : (LinearBuffer → LinearBuffer) → List Event → Connection → Connection
run on_data [] c = c
run on_data (e ∷ es) c = run on_data es (step on_data e c)
