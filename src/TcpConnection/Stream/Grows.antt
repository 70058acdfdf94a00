-- ===== src/TcpConnection/Stream/Grows.antt =====
-- What went out of a connection is never taken back.
use eestv_lib.Common.{
  ℕ, ◌-◌, ◌≡◌, refl, sym, ◌∙◌, List, [], ◌∷◌, ◌++◌, arith, leb, if◌then◌else◌, take, drop,
  append-nil,
}
use eestv_lib.LinearBuffer.{LinearBuffer}
use eestv_lib.TcpConnection.{
  Connection, Region, resolve_on_stopped, cancel_async_operations, async_stop, request_receiving,
  request_sending, queue_send, Event, call_receive, call_send, call_stop, call_queue, run_cancel,
  run_receive, run_send, run_stopped, run_lost, read_done, read_failed, write_done, write_failed,
  step, read_completes, read_fails, write_completes, write_fails,
}
use eestv_lib.TcpConnection.Stream.{
  async_receive-Same, begin_sending-Same, on_send_error-Same, on_send-sent, read_completes-Same,
  read_fails-Same,
}

abbrev pub Grows : Connection → Connection → Type 0
Grows c d = (more : List ℕ) × (d.sent ≡ c.sent ++ more)

still : (c d : Connection) → d.sent ≡ c.sent → Grows c d
still c d e = ([], e ∙ sym (append-nil c.sent))

write_completes-Grows : (ws : List Region) (c : Connection) → Grows c (write_completes ws c)
unfolding write_completes
write_completes-Grows [] c = still c c refl
write_completes-Grows ((p, n) ∷ rest) c = (
  take n (drop p c.send_buffer.buffer),
  (on_send-sent n
      (record c { writes = rest; sent = c.sent ++ take n (drop p c.send_buffer.buffer) })).0,
)

write_fails-Grows : (k : ℕ) (ws : List Region) (c : Connection) → Grows c (write_fails k ws c)
unfolding write_fails
write_fails-Grows k [] c = still c c refl
write_fails-Grows k ((p, n) ∷ rest) c = (
  if leb k n then take k (drop p c.send_buffer.buffer) else [],
  ground (
    arith,
    append-nil c.sent,
    on_send_error-Same
        (record c { writes = rest; sent = c.sent ++ take k (drop p c.send_buffer.buffer) }),
  ),
)

pub step-Grows :
    (f : LinearBuffer → LinearBuffer) (e : Event) (c : Connection) → Grows c (step f e c)
unfolding step
step-Grows f call_receive c =
    still c (request_receiving c) (unfold request_receiving in ground arith)
step-Grows f call_send c = still c (request_sending c) (unfold request_sending in ground arith)
step-Grows f call_stop c = still c (async_stop c).0 (unfold async_stop in ground arith)
step-Grows f (call_queue bytes) c = still c (queue_send bytes c) (unfold queue_send in ground arith)
step-Grows f run_cancel c =
    still c (step f run_cancel c)
      (unfold cancel_async_operations resolve_on_stopped in ground arith)
step-Grows f run_receive c =
    still c (step f run_receive c)
      (ground (arith, async_receive-Same (record c { posted_receive = c.posted_receive - 1 })))
step-Grows f run_send c =
    still c (step f run_send c)
      (ground (arith, begin_sending-Same (record c { posted_send = c.posted_send - 1 })))
step-Grows f run_stopped c = still c (step f run_stopped c) (ground arith)
step-Grows f run_lost c = still c (step f run_lost c) (ground arith)
step-Grows f (read_done bytes) c =
    still c (read_completes f bytes c.reads c) (read_completes-Same f bytes c.reads c).0
step-Grows f read_failed c = still c (read_fails c.reads c) (read_fails-Same c.reads c).0
step-Grows f write_done c = write_completes-Grows c.writes c
step-Grows f (write_failed k) c = write_fails-Grows k c.writes c
