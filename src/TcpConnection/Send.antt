-- ===== src/TcpConnection/Send.antt =====
-- The sending side: one write at a time, over the front of the send buffer.
use eestv_lib.Common.{
  count, ℕ, ◌-◌, ◌^◌, ◌≤◌, ◌<◌, ◌≡◌, refl, Bool, true, false, ◌&&◌, List, [], ◌∷◌, ◌++◌, arith,
  length, take, drop,
}
use eestv_lib.Flags.{set_flag, clear_flag}
use eestv_lib.Flags.Laws.{set_flag_laws, clear_flag_laws, clear_all_laws}
use eestv_lib.LinearBuffer.{LinearBuffer, get_read_head, consume, commit, write_at}
use eestv_lib.LinearBuffer.Invariant.{
  IsValid, make-IsValid, consume-IsValid, commit-IsValid, write_at-IsValid,
}
use eestv_lib.LinearBuffer.Contents.{commit_grows}
use eestv_lib.TcpConnection.{
  Connection, Region, has_flag, start_sending, sending, start_receiving, receiving, closing,
  stop_signaled, connect, resolve_on_stopped, cancel_async_operations, async_stop,
  request_receiving, async_receive, on_receive_error, on_receive, request_sending, async_send,
  begin_sending, on_send_error, on_send, queue_send, Event, call_receive, call_send, call_stop,
  call_queue, run_cancel, run_receive, run_send, run_stopped, run_lost, read_done, read_failed,
  write_done, write_failed, step, run, read_completes, read_fails, write_completes, write_fails,
}

-- The writes in flight: none while `sending` is clear, one over the front of the buffer while it is
-- set.
abbrev pub InFlight : List Region → Bool → LinearBuffer → Type 0
InFlight [] active b = active ≡ false
InFlight ((p, n) ∷ []) active b = (active ≡ true) × (p ≡ b.tail) × (n ≤ b.size) × (0 < n)
InFlight (r ∷ s ∷ rest) active b = ⊥

pub record SendInv (c : Connection) : Type 0 where
  pub valid : IsValid c.send_buffer
  pub in_flight : InFlight c.writes (has_flag c sending) c.send_buffer
  pub posted : c.posted_send ≡ count (has_flag c start_sending)
  pub exclusive : (has_flag c start_sending && has_flag c sending) ≡ false

resolve-SendInv : (c : Connection) → SendInv c → SendInv (resolve_on_stopped c)
unfolding resolve_on_stopped
resolve-SendInv c v = ground arith

async_stop-SendInv : (c : Connection) → SendInv c → SendInv (async_stop c).0
unfolding async_stop
async_stop-SendInv c v = ground (
  arith,
  set_flag_laws c.flags stop_signaled (omega arith),
  set_flag_laws (set_flag c.flags stop_signaled) closing (omega arith),
)

cancel-SendInv : (c : Connection) → SendInv c → SendInv (cancel_async_operations c)
unfolding cancel_async_operations
cancel-SendInv c v =
    resolve-SendInv (record c { flags = clear_flag c.flags closing })
      (ground (arith, clear_flag_laws c.flags closing (omega arith)))

request_receiving-SendInv : (c : Connection) → SendInv c → SendInv (request_receiving c)
unfolding request_receiving
request_receiving-SendInv c v = ground (arith, set_flag_laws c.flags start_receiving (omega arith))

async_receive-SendInv : (c : Connection) → SendInv c → SendInv (async_receive c)
unfolding async_receive
async_receive-SendInv c v = ground (
  arith,
  clear_flag_laws c.flags start_receiving (omega arith),
  resolve-SendInv (record c { flags = clear_flag c.flags start_receiving }),
)

on_receive-SendInv :
    (f : LinearBuffer → LinearBuffer) (n : ℕ) (c : Connection)
    → SendInv c
    → SendInv (on_receive f n c)
unfolding on_receive
on_receive-SendInv f n c v =
    async_receive-SendInv (record c { receive_buffer = f (commit n c.receive_buffer).0 })
      (ground arith)

on_receive_error-SendInv : (c : Connection) → SendInv c → SendInv (on_receive_error c)
unfolding on_receive_error
on_receive_error-SendInv c v = ground (
  arith,
  clear_flag_laws c.flags receiving (omega arith),
  resolve-SendInv (record c { flags = clear_flag c.flags receiving }),
)

request_sending-SendInv : (c : Connection) → SendInv c → SendInv (request_sending c)
unfolding request_sending
request_sending-SendInv c v = ground (arith, set_flag_laws c.flags start_sending (omega arith))

-- What `async_send` needs: the flag is set and nothing is in flight.
async_send-SendInv :
    (c : Connection)
    → IsValid c.send_buffer
    → c.writes ≡ []
    → has_flag c sending ≡ true
    → c.posted_send ≡ count (has_flag c start_sending)
    → has_flag c start_sending ≡ false
    → SendInv (async_send c)
unfolding async_send get_read_head
async_send-SendInv c v e s p q = ground (arith, clear_flag_laws c.flags sending (omega arith))

pub idle :
    (ws : List Region) (active : Bool) (b : LinearBuffer)
    → InFlight ws active b
    → active ≡ false
    → ws ≡ []
idle [] active b f e = refl
idle ((p, n) ∷ []) active b f e = ground arith
idle (r ∷ q ∷ rest) active b f e = absurd f

begin_sending-SendInv :
    (c : Connection)
    → SendInv c
    → has_flag c start_sending ≡ true
    → SendInv (begin_sending (record c { posted_send = c.posted_send - 1 }))
unfolding begin_sending
begin_sending-SendInv c v h = ground (
  arith,
  idle c.writes (has_flag c sending) c.send_buffer v.in_flight,
  clear_flag_laws c.flags start_sending (omega arith),
  set_flag_laws (clear_flag c.flags start_sending) sending (omega arith),
  async_send-SendInv
      (record c {
        posted_send = c.posted_send - 1;
        flags = set_flag (clear_flag c.flags start_sending) sending;
      })
      v.valid,
  resolve-SendInv
      (record c { posted_send = c.posted_send - 1; flags = clear_flag c.flags start_sending }),
)

-- A completed write leaves nothing in flight, with `sending` still set.
record Drained (c : Connection) : Type 0 where
  valid : IsValid c.send_buffer
  none_left : c.writes ≡ []
  active : has_flag c sending ≡ true
  posted : c.posted_send ≡ 0
  not_started : has_flag c start_sending ≡ false

on_send_error-SendInv : (c : Connection) → Drained c → SendInv (on_send_error c)
unfolding on_send_error
on_send_error-SendInv c v = ground (
  arith,
  clear_flag_laws c.flags sending (omega arith),
  resolve-SendInv (record c { flags = clear_flag c.flags sending }),
)

on_send-SendInv : (n : ℕ) (c : Connection) → Drained c → SendInv (on_send n c)
unfolding on_send
on_send-SendInv n c v = ground (
  arith,
  next,
  resolve-SendInv (async_send (record c { send_buffer = (consume n c.send_buffer).0 })),
)
  where
    next : SendInv (async_send (record c { send_buffer = (consume n c.send_buffer).0 }))
    next =
        async_send-SendInv (record c { send_buffer = (consume n c.send_buffer).0 })
          (consume-IsValid n v.valid) v.none_left v.active (ground (arith, v)) v.not_started

InFlight-grow :
    (ws : List Region) (active : Bool) (b b' : LinearBuffer)
    → b'.tail ≡ b.tail
    → b.size ≤ b'.size
    → InFlight ws active b
    → InFlight ws active b'
InFlight-grow [] active b b' t s f = f
InFlight-grow ((p, n) ∷ []) active b b' t s f = ground arith
InFlight-grow (r ∷ q ∷ rest) active b b' t s f = f

queue_send-SendInv : (bytes : List ℕ) (c : Connection) → SendInv c → SendInv (queue_send bytes c)
unfolding queue_send
queue_send-SendInv bytes c v = ground (
  arith,
  commit-IsValid (length bytes) (write_at-IsValid c.send_buffer.head bytes v.valid),
  commit_grows bytes c.send_buffer v.valid,
  InFlight-grow c.writes (has_flag c sending) c.send_buffer
      (commit (length bytes) (write_at c.send_buffer.head bytes c.send_buffer)).0,
)

write_completes-SendInv :
    (ws : List Region) (c : Connection) → SendInv c → c.writes ≡ ws → SendInv (write_completes ws c)
unfolding write_completes
write_completes-SendInv [] c v e = v
write_completes-SendInv ((p, n) ∷ []) c v e = on_send-SendInv n _ (ground (arith, v))
write_completes-SendInv (r ∷ q ∷ rest) c v e = absurd (ground (arith, v))

write_fails-SendInv :
    (k : ℕ) (ws : List Region) (c : Connection)
    → SendInv c
    → c.writes ≡ ws
    → SendInv (write_fails k ws c)
unfolding write_fails
write_fails-SendInv k [] c v e = v
write_fails-SendInv k ((p, n) ∷ []) c v e = ground (
  arith,
  on_send_error-SendInv
      (record c { writes = []; sent = c.sent ++ take k (drop p c.send_buffer.buffer) }),
)
write_fails-SendInv k (r ∷ q ∷ rest) c v e = absurd (ground (arith, v))

read_completes-SendInv :
    (f : LinearBuffer → LinearBuffer) (bytes : List ℕ) (rs : List Region) (c : Connection)
    → SendInv c
    → SendInv (read_completes f bytes rs c)
unfolding read_completes
read_completes-SendInv f bytes [] c v = v
read_completes-SendInv f bytes ((p, n) ∷ rest) c v = ground (
  arith,
  on_receive-SendInv f (length bytes)
      (record c { reads = rest; receive_buffer = write_at p bytes c.receive_buffer }),
)

read_fails-SendInv : (rs : List Region) (c : Connection) → SendInv c → SendInv (read_fails rs c)
unfolding read_fails
read_fails-SendInv [] c v = v
read_fails-SendInv (r ∷ rest) c v =
    on_receive_error-SendInv (record c { reads = rest }) (ground arith)

-- Every event keeps the sending side in order: the flag `sending` is set exactly while one write is in
-- flight, never more than one is, it covers bytes at the front of the buffer, and `start_sending` is
-- set exactly while the handler that begins to send is posted.
pub step-SendInv :
    (f : LinearBuffer → LinearBuffer) (e : Event) (c : Connection)
    → SendInv c
    → SendInv (step f e c)
unfolding step
step-SendInv f call_receive c v = request_receiving-SendInv c v
step-SendInv f call_send c v = request_sending-SendInv c v
step-SendInv f call_stop c v = async_stop-SendInv c v
step-SendInv f (call_queue bytes) c v = queue_send-SendInv bytes c v
step-SendInv f run_cancel c v =
    ground (arith, cancel-SendInv (record c { posted_cancel = c.posted_cancel - 1 }))
step-SendInv f run_receive c v =
    ground (arith, async_receive-SendInv (record c { posted_receive = c.posted_receive - 1 }))
step-SendInv f run_send c v = ground (arith, begin_sending-SendInv c v)
step-SendInv f run_stopped c v = ground arith
step-SendInv f run_lost c v = ground arith
step-SendInv f (read_done bytes) c v = read_completes-SendInv f bytes c.reads c v
step-SendInv f read_failed c v = read_fails-SendInv c.reads c v
step-SendInv f write_done c v = write_completes-SendInv c.writes c v refl
step-SendInv f (write_failed k) c v = write_fails-SendInv k c.writes c v refl

-- A new connection's sending side is in order.
pub connect-SendInv :
    (receive_size send_size : ℕ) (lost : Bool)
    → send_size < 2 ^ 64
    → SendInv (connect receive_size send_size lost)
unfolding connect
connect-SendInv receive_size send_size lost h =
    ground (arith, clear_all_laws, make-IsValid send_size h)

-- After any sequence of events a connection whose sending side is in order keeps it so: `sending` is
-- set exactly while one write is in flight, never more than one is, it covers bytes at the front of
-- the buffer, and `start_sending` is set exactly while the handler that begins to send is posted.
pub run-SendInv :
    (f : LinearBuffer → LinearBuffer) (es : List Event) (c : Connection)
    → SendInv c
    → SendInv (run f es c)
unfolding run
run-SendInv f [] c v = v
run-SendInv f (e ∷ es) c v = run-SendInv f es (step f e c) (step-SendInv f e c v)
