-- ===== src/TcpConnection/Stream.antt =====
-- The bytes that go out are the bytes that were queued, in order and once.
pub mod Grows
use eestv_lib.Common.{
  ℕ, zero, suc, ◌-◌, ◌≤◌, ◌≡◌, refl, sym, ap, ◌∙◌, List, [], ◌∷◌, ◌++◌, arith, leb, if◌then◌else◌,
  length, take, drop, take-append-drop, append_assoc, append-nil,
}
use eestv_lib.LinearBuffer.{LinearBuffer, get_write_head, consume, commit, write_at}
use eestv_lib.LinearBuffer.Contents.{contents, contents-consume, contents-commit}
use eestv_lib.LinearBuffer.Refine.{take-take-drop}
use eestv_lib.TcpConnection.{
  Connection, Region, resolve_on_stopped, cancel_async_operations, async_stop, request_receiving,
  async_receive, on_receive_error, on_receive, request_sending, async_send, begin_sending,
  on_send_error, on_send, queue_send, Event, call_receive, call_send, call_stop, call_queue,
  run_cancel, run_receive, run_send, run_stopped, run_lost, read_done, read_failed, write_done,
  write_failed, step, run, read_completes, read_fails, write_completes, write_fails,
}
use eestv_lib.TcpConnection.Send.{SendInv, step-SendInv}

-- What went out, and behind it what is still to go.
abbrev pub stream : Connection → List ℕ
stream c = c.sent ++ contents c.send_buffer

-- The bytes that an event adds: those of a queueing call that found room.
abbrev pub added : Event → Connection → List ℕ
added (call_queue bytes) c =
    if leb (length bytes) (get_write_head c.send_buffer).0 then bytes else []
added e c = []

-- The bytes that a failed write sent all the same.
abbrev pub lost_bytes : Event → ℕ
lost_bytes (write_failed k) = k
lost_bytes e = 0

abbrev Same : Connection → Connection → Type 0
Same c d = (d.sent ≡ c.sent) × (d.send_buffer ≡ c.send_buffer)

resolve-Same : (c : Connection) → Same c (resolve_on_stopped c)
unfolding resolve_on_stopped
resolve-Same c = ground arith

async_receive-Same : (c : Connection) → Same c (async_receive c)
unfolding async_receive resolve_on_stopped
async_receive-Same c = ground arith

async_send-Same : (c : Connection) → Same c (async_send c)
unfolding async_send
async_send-Same c = ground arith

begin_sending-Same : (c : Connection) → Same c (begin_sending c)
unfolding begin_sending async_send resolve_on_stopped
begin_sending-Same c = ground arith

on_send_error-Same : (c : Connection) → Same c (on_send_error c)
unfolding on_send_error resolve_on_stopped
on_send_error-Same c = ground arith

on_receive_error-Same : (c : Connection) → Same c (on_receive_error c)
unfolding on_receive_error resolve_on_stopped
on_receive_error-Same c = ground arith

on_send-sent :
    (n : ℕ) (c : Connection)
    → ((on_send n c).sent ≡ c.sent) × ((on_send n c).send_buffer ≡ (consume n c.send_buffer).0)
unfolding on_send async_send resolve_on_stopped
on_send-sent n c = ground arith

-- A completed write moves its bytes from the front of the buffer to the end of what went out.
moved :
    (n : ℕ) (b : LinearBuffer) (sent : List ℕ)
    → n ≤ b.size
    → (sent ++ take n (drop b.tail b.buffer)) ++ drop n (contents b) ≡ sent ++ contents b
moved n b sent h =
    append_assoc sent (take n (drop b.tail b.buffer)) (drop n (contents b))
    ∙ ap (λ r. sent ++ (r ++ drop n (contents b)))
        (sym (take-take-drop n b.size (drop b.tail b.buffer) h))
    ∙ ap (λ r. sent ++ r) (take-append-drop n (contents b))

unchanged : (c d : Connection) → Same c d → stream d ≡ stream c ++ []
unchanged c d (s, b) = ground (arith, append-nil (stream c))

write_completes-stream :
    (ws : List Region) (c : Connection)
    → SendInv c
    → c.writes ≡ ws
    → stream (write_completes ws c) ≡ stream c ++ []
unfolding write_completes
write_completes-stream [] c v e = sym (append-nil (stream c))
write_completes-stream ((p, n) ∷ []) c v e = ground (
  arith,
  v,
  on_send-sent n (record c { writes = []; sent = c.sent ++ take n (drop p c.send_buffer.buffer) }),
  contents-consume n c.send_buffer v.valid,
  moved n c.send_buffer c.sent,
  append-nil (stream c),
)
write_completes-stream (r ∷ q ∷ rest) c v e = absurd (ground (arith, v))

write_fails-stream :
    (k : ℕ) (ws : List Region) (c : Connection)
    → k ≡ 0
    → stream (write_fails k ws c) ≡ stream c ++ []
unfolding write_fails
write_fails-stream k [] c z = sym (append-nil (stream c))
write_fails-stream zero ((p, n) ∷ rest) c z = ground (
  arith,
  on_send_error-Same (record c { writes = rest; sent = c.sent ++ [] }),
  append-nil c.sent,
  append-nil (stream c),
)
write_fails-stream (suc k) ((p, n) ∷ rest) c z = absurd (omega arith)

queue_send-stream :
    (bytes : List ℕ) (c : Connection)
    → SendInv c
    → stream (queue_send bytes c) ≡ stream c ++ added (call_queue bytes) c
unfolding queue_send
queue_send-stream bytes c v = ground (
  arith,
  contents-commit bytes c.send_buffer v.valid,
  append_assoc c.sent (contents c.send_buffer) bytes,
  append-nil (stream c),
)

read_completes-Same :
    (f : LinearBuffer → LinearBuffer) (bytes : List ℕ) (rs : List Region) (c : Connection)
    → Same c (read_completes f bytes rs c)
unfolding read_completes on_receive
read_completes-Same f bytes [] c = (refl, refl)
read_completes-Same f bytes ((p, n) ∷ rest) c = ground (
  arith,
  async_receive-Same (record c {
    reads = rest;
    receive_buffer = f (commit (length bytes) (write_at p bytes c.receive_buffer)).0;
  }),
)

read_fails-Same : (rs : List Region) (c : Connection) → Same c (read_fails rs c)
unfolding read_fails
read_fails-Same [] c = (refl, refl)
read_fails-Same (r ∷ rest) c = on_receive_error-Same (record c { reads = rest })

-- In a state whose sending side is in order, no event but a write that fails half-way loses, repeats
-- or reorders a byte: what went out followed by what is buffered stays the same, but for the bytes
-- that a queueing call adds at its end.
pub step-stream :
    (f : LinearBuffer → LinearBuffer) (e : Event) (c : Connection)
    → SendInv c
    → lost_bytes e ≡ 0
    → stream (step f e c) ≡ stream c ++ added e c
unfolding step
step-stream f call_receive c v z =
    unchanged c (request_receiving c) (unfold request_receiving in ground arith)
step-stream f call_send c v z =
    unchanged c (request_sending c) (unfold request_sending in ground arith)
step-stream f call_stop c v z = unchanged c (async_stop c).0 (unfold async_stop in ground arith)
step-stream f (call_queue bytes) c v z = queue_send-stream bytes c v
step-stream f run_cancel c v z =
    unchanged c (step f run_cancel c)
      (unfold cancel_async_operations resolve_on_stopped in ground arith)
step-stream f run_receive c v z = ground (
  arith,
  async_receive-Same (record c { posted_receive = c.posted_receive - 1 }),
  append-nil (stream c),
)
step-stream f run_send c v z = ground (
  arith,
  begin_sending-Same (record c { posted_send = c.posted_send - 1 }),
  append-nil (stream c),
)
step-stream f run_stopped c v z = ground (arith, append-nil (stream c))
step-stream f run_lost c v z = ground (arith, append-nil (stream c))
step-stream f (read_done bytes) c v z =
    unchanged c (read_completes f bytes c.reads c) (read_completes-Same f bytes c.reads c)
step-stream f read_failed c v z = unchanged c (read_fails c.reads c) (read_fails-Same c.reads c)
step-stream f write_done c v z = write_completes-stream c.writes c v refl
step-stream f (write_failed k) c v z = write_fails-stream k c.writes c z

-- Over a sequence of events.
abbrev pub NoLoss : List Event → Type 0
NoLoss [] = Unit {0}
NoLoss (e ∷ es) = (lost_bytes e ≡ 0) × NoLoss es

abbrev pub all_added : (LinearBuffer → LinearBuffer) → List Event → Connection → List ℕ
all_added f [] c = []
all_added f (e ∷ es) c = added e c ++ all_added f es (step f e c)

-- Over any sequence of events in which no write fails half-way, from a state whose sending side is in
-- order, the bytes that went out followed by
-- those still buffered are those at the start followed by all that were queued since, in their order.
pub run-stream :
    (f : LinearBuffer → LinearBuffer) (es : List Event) (c : Connection)
    → SendInv c
    → NoLoss es
    → stream (run f es c) ≡ stream c ++ all_added f es c
unfolding run
run-stream f [] c v z = sym (append-nil (stream c))
run-stream f (e ∷ es) c v z =
    run-stream f es (step f e c) (step-SendInv f e c v) z.1
    ∙ ap (λ r. r ++ all_added f es (step f e c)) (step-stream f e c v z.0)
    ∙ append_assoc (stream c) (added e c) (all_added f es (step f e c))
