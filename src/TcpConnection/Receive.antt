-- ===== src/TcpConnection/Receive.antt =====
-- Reads in flight: what the code does not wait for, since it never sets `receiving`.
use eestv_lib.Common.{
  ℕ, ◌<◌, ◌^◌, ◌≡◌, Bool, false, some, List, [], ◌∷◌, ◌++◌, arith, append_assoc, ◌∙◌,
}
use eestv_lib.Flags.{set_flag}
use eestv_lib.Flags.Laws.{set_flag_laws, clear_flag_laws}
use eestv_lib.LinearBuffer.{LinearBuffer, get_write_head}
use eestv_lib.TcpConnection.{
  Connection, Region, Event, has_flag, start_sending, sending, start_receiving, closing,
  stop_signaled, resolve_on_stopped, cancel_async_operations, async_stop, request_receiving,
  async_receive, call_receive, call_stop, run_cancel, run_receive, run_stopped, step, run,
}
use eestv_lib.TcpConnection.Send.{SendInv}
use eestv_lib.TcpConnection.Shutdown.{StopInv, after, after-SendInv, after-StopInv, run-StopInv}

write_head-some : (b : LinearBuffer) → 0 < (get_write_head b).0 → (get_write_head b).1 ≡ some b.head
unfolding get_write_head
write_head-some b h = ground arith

-- A stop and its cancelling handler, and the callback that they post.
stop_posts :
    (f : LinearBuffer → LinearBuffer) (c : Connection)
    → StopInv c
    → has_flag c stop_signaled ≡ false
    → has_flag c start_sending ≡ false
    → has_flag c sending ≡ false
    → has_flag c start_receiving ≡ false
    → let d = run f (call_stop ∷ run_cancel ∷ []) c in
      (d.posted_stopped ≡ 1) × (d.stopped_calls ≡ 0) × (d.reads ≡ c.reads)
unfolding run step async_stop cancel_async_operations resolve_on_stopped
stop_posts f c v a b s r = ground (
  arith,
  v,
  set_flag_laws c.flags stop_signaled (omega arith),
  set_flag_laws (set_flag c.flags stop_signaled) closing (omega arith),
  clear_flag_laws (set_flag (set_flag c.flags stop_signaled) closing) closing (omega arith),
)

-- A call of `start_receiving` and its posted handler.
abbrev receive_once : List Event
receive_once = call_receive ∷ run_receive ∷ []

-- They add a read over the free region of the receive buffer, and change nothing else that matters.
receive_reads :
    (f : LinearBuffer → LinearBuffer) (c : Connection)
    → StopInv c
    → has_flag c stop_signaled ≡ false
    → c.posted_receive ≡ 0
    → 0 < (get_write_head c.receive_buffer).0
    → let d = run f receive_once c in
      (d.reads ≡ c.reads ++ ((c.receive_buffer.head, (get_write_head c.receive_buffer).0) ∷ []))
      × (d.receive_buffer ≡ c.receive_buffer)
      × (d.posted_receive ≡ 0)
      × (has_flag d stop_signaled ≡ false)
      × (has_flag d start_receiving ≡ false)
      × (has_flag d start_sending ≡ has_flag c start_sending)
      × (has_flag d sending ≡ has_flag c sending)
unfolding run step request_receiving async_receive
receive_reads f c v a r h = ground (
  arith,
  v,
  write_head-some c.receive_buffer h,
  set_flag_laws c.flags start_receiving (omega arith),
  clear_flag_laws (set_flag c.flags start_receiving) start_receiving (omega arith),
)

-- A stop does not wait for reads: after any events on a new connection, with a send buffer of fewer
-- than 2 ^ 64 bytes, nothing signaled, no handler that receives or sends posted, no write in flight and
-- room in the receive buffer, a call of `start_receiving` starts a read, and a stop after it has its
-- callback called with that read, and all that were in flight before, still in flight.
pub stop-reads :
    (f : LinearBuffer → LinearBuffer) (es : List Event) (receive_size send_size : ℕ) (lost : Bool)
    → send_size < 2 ^ 64
    → has_flag (after f es receive_size send_size lost) stop_signaled ≡ false
    → (after f es receive_size send_size lost).posted_receive ≡ 0
    → (after f es receive_size send_size lost).posted_send ≡ 0
    → (after f es receive_size send_size lost).writes ≡ []
    → 0 < (get_write_head (after f es receive_size send_size lost).receive_buffer).0
    → let c = after f es receive_size send_size lost in
      let d = run f (call_receive ∷ run_receive ∷ call_stop ∷ run_cancel ∷ run_stopped ∷ []) c in
      (d.stopped_calls ≡ 1)
      × (d.reads ≡ c.reads ++ ((c.receive_buffer.head, (get_write_head c.receive_buffer).0) ∷ []))
unfolding run step
stop-reads f es receive_size send_size lost h a r s w room =
    let c : Connection = after f es receive_size send_size lost in
    let d : Connection = run f receive_once c in
    let u : SendInv c = after-SendInv f es receive_size send_size lost h in
    let v : StopInv c = after-StopInv f es receive_size send_size lost h in
    let received = receive_reads f c v a r room in
    let stopped =
      stop_posts f d (run-StopInv f receive_once c u v) received.3 (ground (arith, received, u))
        (ground (arith, received, no_write c w u)) received.4 in
    ground (arith, stopped, received.0)
  where
    no_write : (c : Connection) → c.writes ≡ [] → SendInv c → has_flag c sending ≡ false
    no_write c w u = ground (arith, u.in_flight)

-- A second call of `start_receiving` starts a second read: after any events on a new connection, with a
-- send buffer of fewer than 2 ^ 64 bytes, nothing signaled, no handler that receives posted and room in
-- the receive buffer, two calls, each with its posted handler, start two reads over the same region.
pub receive-reads :
    (f : LinearBuffer → LinearBuffer) (es : List Event) (receive_size send_size : ℕ) (lost : Bool)
    → send_size < 2 ^ 64
    → has_flag (after f es receive_size send_size lost) stop_signaled ≡ false
    → (after f es receive_size send_size lost).posted_receive ≡ 0
    → 0 < (get_write_head (after f es receive_size send_size lost).receive_buffer).0
    → let c = after f es receive_size send_size lost in
      let region : Region = (c.receive_buffer.head, (get_write_head c.receive_buffer).0) in
      (run f (call_receive ∷ run_receive ∷ call_receive ∷ run_receive ∷ []) c).reads
      ≡ c.reads ++ (region ∷ region ∷ [])
unfolding run
receive-reads f es receive_size send_size lost h a r room =
    let c : Connection = after f es receive_size send_size lost in
    let d : Connection = run f receive_once c in
    let u : SendInv c = after-SendInv f es receive_size send_size lost h in
    let v : StopInv c = after-StopInv f es receive_size send_size lost h in
    let region : Region = (c.receive_buffer.head, (get_write_head c.receive_buffer).0) in
    let first = receive_reads f c v a r room in
    let second =
      receive_reads f d (run-StopInv f receive_once c u v) first.3 first.2
        (ground (arith, first.1, room)) in
    second.0 ∙ ground (arith, first.0, first.1, append_assoc c.reads (region ∷ []) (region ∷ []))
