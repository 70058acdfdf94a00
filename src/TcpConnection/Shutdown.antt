-- ===== src/TcpConnection/Shutdown.antt =====
-- Stopping a connection: the stop callback against what is still pending.
use eestv_lib.Common.{
  count, ℕ, ◌+◌, ◌-◌, ◌≤◌, ◌<◌, ◌≡◌, refl, Bool, true, false, ◌||◌, List, [], ◌∷◌, ◌++◌, arith, ◌^◌,
  length, take, drop,
}
use eestv_lib.Flags.{set_flag, clear_flag}
use eestv_lib.Flags.Laws.{set_flag_laws, clear_flag_laws, clear_all_laws}
use eestv_lib.LinearBuffer.{LinearBuffer, consume, commit, write_at}
use eestv_lib.TcpConnection.{
  Connection, Region, has_flag, start_sending, sending, start_receiving, receiving, closing,
  stop_signaled, connect, set_connection_lost_callback, resolve_on_stopped, cancel_async_operations,
  async_stop, request_receiving, async_receive, on_receive_error, on_receive, request_sending,
  async_send, begin_sending, on_send_error, on_send, queue_send, Event, call_receive, call_send,
  call_stop, call_queue, run_cancel, run_receive, run_send, run_stopped, run_lost, read_done,
  read_failed, write_done, write_failed, step, run, read_completes, read_fails, write_completes,
  write_fails,
}
use eestv_lib.TcpConnection.Send.{SendInv, idle, step-SendInv, run-SendInv, connect-SendInv}

pub record StopInv (c : Connection) : Type 0 where
  -- A stop that was signaled has its callback stored, posted or called, once in all.
  pub once :
      count c.disconnected_callback + c.posted_stopped + c.stopped_calls
      ≡ count (has_flag c stop_signaled)
  pub cancel_posted : c.posted_cancel ≡ count (has_flag c closing)
  pub closing_signaled : has_flag c closing ≡ true → has_flag c stop_signaled ≡ true
  pub receive_posted : count (has_flag c start_receiving) ≤ c.posted_receive
  pub never_receiving : has_flag c receiving ≡ false
  -- With nothing left to wait for, the callback is no longer stored.
  pub settled :
      (has_flag c closing
          || has_flag c start_sending
          || has_flag c sending
          || has_flag c start_receiving)
        ≡ false
      → c.disconnected_callback ≡ false
  -- Once it is posted, the flags that it waits for are clear.
  pub quiet :
      0 < c.posted_stopped + c.stopped_calls
      → (has_flag c closing || has_flag c start_sending || has_flag c sending) ≡ false

-- All of it but `settled`: what holds before `resolve_on_stopped`.
record Unsettled (c : Connection) : Type 0 where
  once :
      count c.disconnected_callback + c.posted_stopped + c.stopped_calls
      ≡ count (has_flag c stop_signaled)
  cancel_posted : c.posted_cancel ≡ count (has_flag c closing)
  closing_signaled : has_flag c closing ≡ true → has_flag c stop_signaled ≡ true
  receive_posted : count (has_flag c start_receiving) ≤ c.posted_receive
  never_receiving : has_flag c receiving ≡ false
  quiet :
      0 < c.posted_stopped + c.stopped_calls
      → (has_flag c closing || has_flag c start_sending || has_flag c sending) ≡ false

resolve-StopInv : (c : Connection) → Unsettled c → StopInv (resolve_on_stopped c)
unfolding resolve_on_stopped
resolve-StopInv c v = ground arith

async_stop-StopInv : (c : Connection) → StopInv c → StopInv (async_stop c).0
unfolding async_stop
async_stop-StopInv c v = ground (
  arith,
  set_flag_laws c.flags stop_signaled (omega arith),
  set_flag_laws (set_flag c.flags stop_signaled) closing (omega arith),
)

cancel-StopInv :
    (c : Connection)
    → StopInv c
    → c.posted_cancel ≡ 1
    → StopInv (cancel_async_operations (record c { posted_cancel = c.posted_cancel - 1 }))
unfolding cancel_async_operations
cancel-StopInv c v h =
    resolve-StopInv
      (record c { posted_cancel = c.posted_cancel - 1; flags = clear_flag c.flags closing })
      (ground (arith, clear_flag_laws c.flags closing (omega arith)))

request_receiving-StopInv : (c : Connection) → StopInv c → StopInv (request_receiving c)
unfolding request_receiving
request_receiving-StopInv c v = ground (arith, set_flag_laws c.flags start_receiving (omega arith))

-- `async_receive` clears `start_receiving` whatever was posted.
async_receive-StopInv :
    (c : Connection) (posted : ℕ)
    → StopInv c
    → StopInv (async_receive (record c { posted_receive = posted }))
unfolding async_receive
async_receive-StopInv c posted v = ground (
  arith,
  clear_flag_laws c.flags start_receiving (omega arith),
  resolve-StopInv
      (record c { posted_receive = posted; flags = clear_flag c.flags start_receiving }),
)

read_completes-StopInv :
    (f : LinearBuffer → LinearBuffer) (bytes : List ℕ) (rs : List Region) (c : Connection)
    → StopInv c
    → StopInv (read_completes f bytes rs c)
unfolding read_completes on_receive
read_completes-StopInv f bytes [] c v = v
read_completes-StopInv f bytes ((p, n) ∷ rest) c v = ground (
  arith,
  async_receive-StopInv
      (record c {
        reads = rest;
        receive_buffer = f (commit (length bytes) (write_at p bytes c.receive_buffer)).0;
      })
      c.posted_receive,
)

read_fails-StopInv : (rs : List Region) (c : Connection) → StopInv c → StopInv (read_fails rs c)
unfolding read_fails on_receive_error
read_fails-StopInv [] c v = v
read_fails-StopInv (r ∷ rest) c v = ground (
  arith,
  clear_flag_laws c.flags receiving (omega arith),
  resolve-StopInv (record c { reads = rest; flags = clear_flag c.flags receiving }),
)

request_sending-StopInv : (c : Connection) → StopInv c → StopInv (request_sending c)
unfolding request_sending
request_sending-StopInv c v = ground (arith, set_flag_laws c.flags start_sending (omega arith))

begin_sending-StopInv :
    (c : Connection)
    → StopInv c
    → StopInv (begin_sending (record c { posted_send = c.posted_send - 1 }))
unfolding begin_sending async_send
begin_sending-StopInv c v = ground (
  arith,
  clear_flag_laws c.flags start_sending (omega arith),
  set_flag_laws (clear_flag c.flags start_sending) sending (omega arith),
  clear_flag_laws (set_flag (clear_flag c.flags start_sending) sending) sending (omega arith),
  resolve-StopInv
      (record c { posted_send = c.posted_send - 1; flags = clear_flag c.flags start_sending }),
)

on_send-StopInv :
    (n : ℕ) (c : Connection) → StopInv c → has_flag c sending ≡ true → StopInv (on_send n c)
unfolding on_send async_send
on_send-StopInv n c v h = ground (
  arith,
  clear_flag_laws c.flags sending (omega arith),
  resolve-StopInv
      (record c { send_buffer = (consume n c.send_buffer).0; flags = clear_flag c.flags sending }),
)

on_send_error-StopInv : (c : Connection) → StopInv c → StopInv (on_send_error c)
unfolding on_send_error
on_send_error-StopInv c v = ground (
  arith,
  clear_flag_laws c.flags sending (omega arith),
  resolve-StopInv (record c { flags = clear_flag c.flags sending }),
)

write_completes-StopInv :
    (ws : List Region) (c : Connection)
    → SendInv c
    → StopInv c
    → c.writes ≡ ws
    → StopInv (write_completes ws c)
unfolding write_completes
write_completes-StopInv [] c u v e = v
write_completes-StopInv ((p, n) ∷ []) c u v e =
    on_send-StopInv n _ (ground (arith, v)) (ground (arith, u))
write_completes-StopInv (r ∷ q ∷ rest) c u v e = absurd (ground (arith, u))

write_fails-StopInv :
    (k : ℕ) (ws : List Region) (c : Connection) → StopInv c → StopInv (write_fails k ws c)
unfolding write_fails
write_fails-StopInv k [] c v = v
write_fails-StopInv k ((p, n) ∷ rest) c v = ground (
  arith,
  on_send_error-StopInv
      (record c { writes = rest; sent = c.sent ++ take k (drop p c.send_buffer.buffer) }),
)

-- In a state whose sending side is in order, every event keeps the accounts of a stop: its callback is
-- stored, posted or called, once in all; it is stored no longer when no flag but `stop_signaled` is
-- set; and once it was posted `closing`, `start_sending` and `sending` are clear.
pub step-StopInv :
    (f : LinearBuffer → LinearBuffer) (e : Event) (c : Connection)
    → SendInv c
    → StopInv c
    → StopInv (step f e c)
unfolding step
step-StopInv f call_receive c u v = request_receiving-StopInv c v
step-StopInv f call_send c u v = request_sending-StopInv c v
step-StopInv f call_stop c u v = async_stop-StopInv c v
step-StopInv f (call_queue bytes) c u v = unfold queue_send in ground arith
step-StopInv f run_cancel c u v = ground (arith, cancel-StopInv c v)
step-StopInv f run_receive c u v = ground (arith, async_receive-StopInv c (c.posted_receive - 1) v)
step-StopInv f run_send c u v = ground (arith, begin_sending-StopInv c v)
step-StopInv f run_stopped c u v = ground arith
step-StopInv f run_lost c u v = ground arith
step-StopInv f (read_done bytes) c u v = read_completes-StopInv f bytes c.reads c v
step-StopInv f read_failed c u v = read_fails-StopInv c.reads c v
step-StopInv f write_done c u v = write_completes-StopInv c.writes c u v refl
step-StopInv f (write_failed k) c u v = write_fails-StopInv k c.writes c v

pub connect-StopInv :
    (receive_size send_size : ℕ) (lost : Bool) → StopInv (connect receive_size send_size lost)
unfolding connect
connect-StopInv receive_size send_size lost = ground (arith, clear_all_laws)

pub run-StopInv :
    (f : LinearBuffer → LinearBuffer) (es : List Event) (c : Connection)
    → SendInv c
    → StopInv c
    → StopInv (run f es c)
unfolding run
run-StopInv f [] c u v = v
run-StopInv f (e ∷ es) c u v =
    run-StopInv f es (step f e c) (step-SendInv f e c u) (step-StopInv f e c u v)

-- Whether a lost connection is reported is of no account to sending and to stopping.
set_connection_lost_callback-StopInv :
    (callback : Bool) (c : Connection)
    → SendInv c
    → StopInv c
    → let d = set_connection_lost_callback callback c in SendInv d × StopInv d
unfolding set_connection_lost_callback
set_connection_lost_callback-StopInv callback c u v = (ground (arith, u), ground (arith, v))

-- A new connection after some events.
abbrev pub after : (LinearBuffer → LinearBuffer) → List Event → ℕ → ℕ → Bool → Connection
after f es receive_size send_size lost = run f es (connect receive_size send_size lost)

pub after-SendInv :
    (f : LinearBuffer → LinearBuffer) (es : List Event) (receive_size send_size : ℕ) (lost : Bool)
    → send_size < 2 ^ 64
    → SendInv (after f es receive_size send_size lost)
after-SendInv f es receive_size send_size lost h =
    run-SendInv f es (connect receive_size send_size lost)
      (connect-SendInv receive_size send_size lost h)

pub after-StopInv :
    (f : LinearBuffer → LinearBuffer) (es : List Event) (receive_size send_size : ℕ) (lost : Bool)
    → send_size < 2 ^ 64
    → StopInv (after f es receive_size send_size lost)
after-StopInv f es receive_size send_size lost h =
    run-StopInv f es (connect receive_size send_size lost)
      (connect-SendInv receive_size send_size lost h) (connect-StopInv receive_size send_size lost)

-- After any events on a new connection, with a send buffer of fewer than 2 ^ 64 bytes, the stop
-- callback was posted or called at most once, and never without a stop that was signaled; and the
-- handler that cancels is posted exactly while `closing` is set.
pub stop_once :
    (f : LinearBuffer → LinearBuffer) (es : List Event) (receive_size send_size : ℕ) (lost : Bool)
    → send_size < 2 ^ 64
    → let c = after f es receive_size send_size lost in
      (c.posted_stopped + c.stopped_calls ≤ count (has_flag c stop_signaled))
      × (c.posted_cancel ≡ count (has_flag c closing))
stop_once f es receive_size send_size lost h =
    let c : Connection = after f es receive_size send_size lost in
    ground (arith, after-StopInv f es receive_size send_size lost h)

-- After any events on a new connection, with a send buffer of fewer than 2 ^ 64 bytes: if the stop
-- callback was posted or called, then no write is in flight and neither the handler that begins to
-- send nor the one that cancels is still to run.
pub stopped-quiet :
    (f : LinearBuffer → LinearBuffer) (es : List Event) (receive_size send_size : ℕ) (lost : Bool)
    → send_size < 2 ^ 64
    → 0
      < (after f es receive_size send_size lost).posted_stopped
        + (after f es receive_size send_size lost).stopped_calls
    → let c = after f es receive_size send_size lost in
      (c.writes ≡ []) × (c.posted_send ≡ 0) × (c.posted_cancel ≡ 0)
stopped-quiet f es receive_size send_size lost h p =
    let c : Connection = after f es receive_size send_size lost in
    let u : SendInv c = after-SendInv f es receive_size send_size lost h in
    ground (
      arith,
      u,
      after-StopInv f es receive_size send_size lost h,
      idle c.writes (has_flag c sending) c.send_buffer u.in_flight,
    )

-- A stop completes: after any events on a new connection, with a send buffer of fewer than 2 ^ 64
-- bytes, in which a stop was signaled and no posted handler but callbacks and no write is left, the
-- stop callback is posted or was called, once.
pub stop_completes :
    (f : LinearBuffer → LinearBuffer) (es : List Event) (receive_size send_size : ℕ) (lost : Bool)
    → send_size < 2 ^ 64
    → has_flag (after f es receive_size send_size lost) stop_signaled ≡ true
    → (after f es receive_size send_size lost).posted_cancel ≡ 0
    → (after f es receive_size send_size lost).posted_receive ≡ 0
    → (after f es receive_size send_size lost).posted_send ≡ 0
    → (after f es receive_size send_size lost).writes ≡ []
    → let c = after f es receive_size send_size lost in c.posted_stopped + c.stopped_calls ≡ 1
stop_completes f es receive_size send_size lost h s p q r w =
    let c : Connection = after f es receive_size send_size lost in
    let u : SendInv c = after-SendInv f es receive_size send_size lost h in
    ground (arith, u, after-StopInv f es receive_size send_size lost h)
