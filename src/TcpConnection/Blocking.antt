-- ===== src/TcpConnection/Blocking.antt =====
-- The blocking `stop` of a connection, which its destructor calls.
use eestv_lib.Common.{
  ℕ, ◌-◌, ◌<◌, ◌≡◌, ◌^◌, refl, Bool, true, Option, some, List, [], ◌∷◌, ◌++◌, arith, length, subst,
  sym,
}
use eestv_lib.BlockingStop.{Stoppable, stop, stop-returns, run-append, run-keeps}
use eestv_lib.Flags.{set_flag}
use eestv_lib.Flags.Laws.{set_flag_laws, clear_flag_laws}
use eestv_lib.LinearBuffer.{LinearBuffer, commit, write_at}
use eestv_lib.TcpConnection.{
  Connection, Region, has_flag, start_sending, sending, start_receiving, receiving, closing,
  stop_signaled, connect, resolve_on_stopped, cancel_async_operations, async_stop,
  request_receiving, async_receive, on_receive_error, on_receive, request_sending, async_send,
  begin_sending, on_send_error, on_send, queue_send, Event, call_receive, call_send, call_stop,
  call_queue, run_cancel, run_receive, run_send, run_stopped, run_lost, read_done, read_failed,
  write_done, write_failed, step, run, read_completes, read_fails, write_completes, write_fails,
}
use eestv_lib.TcpConnection.Shutdown.{after, stop_completes}

pub run_nothing : (f : LinearBuffer → LinearBuffer) (c : Connection) → run f [] c ≡ c
unfolding run
run_nothing f c = refl

pub run_more :
    (f : LinearBuffer → LinearBuffer) (e : Event) (es : List Event) (c : Connection)
    → run f (e ∷ es) c ≡ run f es (step f e c)
unfolding run
run_more f e es c = refl

-- A connection accepts one stop in its life.
abbrev pub stoppable : (LinearBuffer → LinearBuffer) → Stoppable Connection Event
stoppable f = record {
  async_stop = async_stop;
  step = step f;
  run = run f;
  stops = λ c. 1;
  stopped_calls = λ c. c.stopped_calls;
  run-nil = run_nothing f;
  run-cons = run_more f;
}

-- `TcpConnection::stop`, and what happens while it waits.
abbrev pub blocking_stop :
    (LinearBuffer → LinearBuffer) → Bool → List Event → Connection → Option Connection
blocking_stop f = stop (stoppable f)

-- A stop stays signaled: no code clears `stop_signaled`.
abbrev IsSignaled : Connection → Type 0
IsSignaled c = has_flag c stop_signaled ≡ true

async_receive-IsSignaled : (c : Connection) → IsSignaled c → IsSignaled (async_receive c)
unfolding async_receive resolve_on_stopped
async_receive-IsSignaled c h = ground (arith, clear_flag_laws c.flags start_receiving (omega arith))

read_completes-IsSignaled :
    (f : LinearBuffer → LinearBuffer) (bytes : List ℕ) (rs : List Region) (c : Connection)
    → IsSignaled c
    → IsSignaled (read_completes f bytes rs c)
unfolding read_completes on_receive
read_completes-IsSignaled f bytes [] c h = h
read_completes-IsSignaled f bytes ((p, n) ∷ rest) c h = ground (
  arith,
  async_receive-IsSignaled (record c {
    reads = rest;
    receive_buffer = f (commit (length bytes) (write_at p bytes c.receive_buffer)).0;
  }),
)

read_fails-IsSignaled :
    (rs : List Region) (c : Connection) → IsSignaled c → IsSignaled (read_fails rs c)
unfolding read_fails on_receive_error resolve_on_stopped
read_fails-IsSignaled [] c h = h
read_fails-IsSignaled (r ∷ rest) c h =
    ground (arith, clear_flag_laws c.flags receiving (omega arith))

write_completes-IsSignaled :
    (ws : List Region) (c : Connection) → IsSignaled c → IsSignaled (write_completes ws c)
unfolding write_completes on_send async_send resolve_on_stopped
write_completes-IsSignaled [] c h = h
write_completes-IsSignaled ((p, n) ∷ rest) c h =
    ground (arith, clear_flag_laws c.flags sending (omega arith))

write_fails-IsSignaled :
    (k : ℕ) (ws : List Region) (c : Connection) → IsSignaled c → IsSignaled (write_fails k ws c)
unfolding write_fails on_send_error resolve_on_stopped
write_fails-IsSignaled k [] c h = h
write_fails-IsSignaled k ((p, n) ∷ rest) c h =
    ground (arith, clear_flag_laws c.flags sending (omega arith))

step-IsSignaled :
    (f : LinearBuffer → LinearBuffer) (e : Event) (c : Connection)
    → IsSignaled c
    → IsSignaled (step f e c)
unfolding step request_receiving request_sending async_stop queue_send cancel_async_operations
    begin_sending resolve_on_stopped
step-IsSignaled f call_receive c h = ground arith
step-IsSignaled f call_send c h = ground arith
step-IsSignaled f call_stop c h = ground arith
step-IsSignaled f (call_queue bytes) c h = ground arith
step-IsSignaled f run_cancel c h = ground (arith, clear_flag_laws c.flags closing (omega arith))
step-IsSignaled f run_receive c h =
    ground (arith, async_receive-IsSignaled (record c { posted_receive = c.posted_receive - 1 }))
step-IsSignaled f run_send c h = ground (arith, clear_flag_laws c.flags start_sending (omega arith))
step-IsSignaled f run_stopped c h = ground arith
step-IsSignaled f run_lost c h = ground arith
step-IsSignaled f (read_done bytes) c h = read_completes-IsSignaled f bytes c.reads c h
step-IsSignaled f read_failed c h = read_fails-IsSignaled c.reads c h
step-IsSignaled f write_done c h = write_completes-IsSignaled c.writes c h
step-IsSignaled f (write_failed k) c h = write_fails-IsSignaled k c.writes c h

call_stop-IsSignaled : (c : Connection) → IsSignaled (async_stop c).0
unfolding async_stop
call_stop-IsSignaled c = ground (
  arith,
  set_flag_laws c.flags stop_signaled (omega arith),
  set_flag_laws (set_flag c.flags stop_signaled) closing (omega arith),
)

-- The blocking `stop` of a connection, and with it the destructor, returns: after any events on a new
-- connection with a send buffer of fewer than 2 ^ 64 bytes and with any while it waits, if in the end
-- no handler is posted, the stop callback among them, and no write is in flight. A read that is left
-- does not keep it.
pub blocking_stop-returns_despite_reads :
    (f : LinearBuffer → LinearBuffer) (is_on_io_thread : Bool) (before events : List Event)
    (receive_size send_size : ℕ) (lost : Bool)
    → send_size < 2 ^ 64
    → (after f (before ++ (call_stop ∷ events)) receive_size send_size lost).posted_cancel ≡ 0
    → (after f (before ++ (call_stop ∷ events)) receive_size send_size lost).posted_receive ≡ 0
    → (after f (before ++ (call_stop ∷ events)) receive_size send_size lost).posted_send ≡ 0
    → (after f (before ++ (call_stop ∷ events)) receive_size send_size lost).posted_stopped ≡ 0
    → (after f (before ++ (call_stop ∷ events)) receive_size send_size lost).writes ≡ []
    → (c : Connection) × (blocking_stop f is_on_io_thread events
          (after f before receive_size send_size lost)
        ≡ some c)
unfolding step run
blocking_stop-returns_despite_reads f thread before events rs ss lost h pc pr ps po w =
    let es = before ++ (call_stop ∷ events) in
    let c : Connection = after f before rs ss lost in
    let same : after f es rs ss lost ≡ run f events (async_stop c).0 =
      run-append (stoppable f) before (call_stop ∷ events) (connect rs ss lost) in
    let signaled : IsSignaled (after f es rs ss lost) = subst IsSignaled (sym same) (
      run-keeps (stoppable f) IsSignaled (step-IsSignaled f) events (async_stop c).0
        (call_stop-IsSignaled c)) in
    let called = stop_completes f es rs ss lost h signaled pc pr ps w in
    stop-returns (stoppable f) thread events c (λ accepted. ground (arith, same, called, po))
