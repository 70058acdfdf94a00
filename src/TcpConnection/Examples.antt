-- ===== src/TcpConnection/Examples.antt =====
-- A connection that sends, receives and stops, and the theorems at it.
use eestv_lib.Common.{◌+◌, ◌^◌, ◌<◌, ◌≡◌, refl, true, false, some, List, [], ◌∷◌, ◌++◌, arith}
use eestv_lib.Flags.{set_flag, clear_flag, get_flag, clear_all}
use eestv_lib.LinearBuffer.{
  LinearBuffer, make, consume, commit, get_read_head, get_write_head, write_at,
}
use eestv_lib.TcpConnection.{
  Connection, Region, connect, has_flag, stop_signaled, Event, call_receive, call_send, call_stop,
  call_queue, run_cancel, run_receive, run_send, run_stopped, write_done, read_done, read_failed,
  on_receive_error, read_fails, step, run, resolve_on_stopped, cancel_async_operations, async_stop,
  request_receiving, async_receive, request_sending, async_send, begin_sending, on_send, queue_send,
  write_completes,
}
use eestv_lib.Common.{ℕ, leb, if◌then◌else◌, take, take-append-drop}
use eestv_lib.LinearBuffer.Invariant.{IsValid, consume-IsValid}
use eestv_lib.LinearBuffer.Contents.{contents, consume-contents}
use eestv_lib.TcpConnection.Blocking.{blocking_stop, blocking_stop-returns_despite_reads}
use eestv_lib.TcpConnection.Delivery.{all_taken, all_received, run-delivery}
use eestv_lib.TcpConnection.Reads.{connect-ReadInv}
use eestv_lib.TcpConnection.Send.{SendInv, run-SendInv, connect-SendInv}
use eestv_lib.TcpConnection.Shutdown.{after, stopped-quiet}
use eestv_lib.TcpConnection.Receive.{stop-reads, receive-reads}

-- A callback that takes all that was received.
abbrev drain : LinearBuffer → LinearBuffer
drain b = (consume b.size b).0

abbrev events : List Event
events =
    call_queue (7 ∷ 8 ∷ [])
    ∷ call_send
    ∷ run_send
    ∷ call_queue (9 ∷ [])
    ∷ call_queue (5 ∷ [])
    ∷ write_done
    ∷ call_stop
    ∷ run_cancel
    ∷ write_done
    ∷ []

-- The fourth byte found no room; the stop waits for the second write and then posts its callback.
ends :
    let c = after drain events 4 3 true in
    (c.sent ≡ 7 ∷ 8 ∷ 9 ∷ []) × (c.writes ≡ []) × (c.posted_stopped ≡ 1) × (c.posted_cancel ≡ 0)
unfolding run step connect async_stop cancel_async_operations resolve_on_stopped request_sending
    async_send begin_sending on_send queue_send write_completes set_flag clear_flag get_flag make
    consume commit get_read_head get_write_head write_at clear_all
ends = (refl, refl, refl, refl)

small : 3 < 2 ^ 64
small = omega arith

fresh : SendInv (connect 4 3 true)
fresh = connect-SendInv 4 3 true small

run-SendInv_example : SendInv (run drain events (connect 4 3 true))
run-SendInv_example = run-SendInv drain events (connect 4 3 true) fresh

was_posted :
    0 < (after drain events 4 3 true).posted_stopped + (after drain events 4 3 true).stopped_calls
was_posted = ground (arith, ends)

stopped-quiet_example :
    let c = after drain events 4 3 true in
    (c.writes ≡ []) × (c.posted_send ≡ 0) × (c.posted_cancel ≡ 0)
stopped-quiet_example = stopped-quiet drain events 4 3 true small was_posted

was_signaled :
    let c = after drain events 4 3 true in
    (has_flag c stop_signaled ≡ true) × (c.posted_receive ≡ 0) × (c.posted_send ≡ 0)
unfolding run step connect async_stop cancel_async_operations resolve_on_stopped request_sending
    async_send begin_sending on_send queue_send write_completes set_flag clear_flag get_flag make
    consume commit get_read_head get_write_head write_at clear_all
was_signaled = (refl, refl, refl)

-- A connection whose reads and writes have all completed.
abbrev settled_events : List Event
settled_events =
    call_queue (7 ∷ [])
    ∷ call_send
    ∷ run_send
    ∷ write_done
    ∷ call_receive
    ∷ run_receive
    ∷ read_failed
    ∷ []

settled_state :
    let c = after drain settled_events 4 3 true in
    (has_flag c stop_signaled ≡ false)
    × (c.posted_receive ≡ 0)
    × (c.posted_send ≡ 0)
    × (c.writes ≡ [])
    × ((get_write_head c.receive_buffer).0 ≡ 4)
    × (c.reads ≡ [])
    × (c.receive_buffer.head ≡ 0)
unfolding run step connect resolve_on_stopped request_receiving async_receive request_sending
    async_send begin_sending on_send on_receive_error queue_send read_fails write_completes set_flag
    clear_flag get_flag make consume commit get_read_head get_write_head write_at clear_all
settled_state = (refl, refl, refl, refl, refl, refl, refl)

room : 0 < (get_write_head (after drain settled_events 4 3 true).receive_buffer).0
room = ground (arith, settled_state)

stop-reads_example :
    let c = after drain settled_events 4 3 true in
    let d = run drain (call_receive ∷ run_receive ∷ call_stop ∷ run_cancel ∷ run_stopped ∷ []) c in
    (d.stopped_calls ≡ 1)
    × (d.reads ≡ c.reads ++ ((c.receive_buffer.head, (get_write_head c.receive_buffer).0) ∷ []))
stop-reads_example =
    stop-reads drain settled_events 4 3 true small settled_state.0 settled_state.1 settled_state.2
      settled_state.3 room

receive-reads_example :
    let c = after drain settled_events 4 3 true in
    let region : Region = (c.receive_buffer.head, (get_write_head c.receive_buffer).0) in
    (run drain (call_receive ∷ run_receive ∷ call_receive ∷ run_receive ∷ []) c).reads
    ≡ c.reads ++ (region ∷ region ∷ [])
receive-reads_example =
    receive-reads drain settled_events 4 3 true small settled_state.0 settled_state.1 room

-- A callback that takes one byte.
abbrev sip : LinearBuffer → LinearBuffer
sip b = (consume 1 b).0

abbrev sipped : LinearBuffer → List ℕ
sipped b = if leb 1 b.size then take 1 (contents b) else []

sipped-sip : (b : LinearBuffer) → IsValid b → sipped b ++ contents (sip b) ≡ contents b
sipped-sip b v = ground (arith, consume-contents 1 b v, take-append-drop 1 (contents b))

abbrev incoming : List Event
incoming =
    call_receive ∷ run_receive ∷ read_done (1 ∷ 2 ∷ 3 ∷ []) ∷ call_send ∷ read_done (4 ∷ []) ∷ []

run-delivery_example :
    all_taken sip sipped (λ b v. consume-IsValid 1 v) sipped-sip incoming (connect 8 3 true)
      ++ contents (run sip incoming (connect 8 3 true)).receive_buffer
    ≡ contents (connect 8 3 true).receive_buffer
      ++ all_received sip sipped (λ b v. consume-IsValid 1 v) sipped-sip incoming (connect 8 3 true)
unfolding connect
run-delivery_example =
    run-delivery sip sipped (λ b v. consume-IsValid 1 v) sipped-sip incoming (connect 8 3 true)
      (refl, (tt, (tt, (tt, (tt, tt))))) (connect-ReadInv 8 3 true (omega arith))

-- A stop that waits for the second write while a read goes on.
abbrev busy : List Event
busy = call_receive ∷ run_receive ∷ call_queue (7 ∷ 8 ∷ []) ∷ call_send ∷ run_send ∷ []

abbrev meanwhile : List Event
meanwhile = run_cancel ∷ write_done ∷ run_stopped ∷ []

stopped_at_last :
    let c = after drain (busy ++ (call_stop ∷ meanwhile)) 4 3 true in
    (c.posted_cancel ≡ 0)
    × (c.posted_receive ≡ 0)
    × (c.posted_send ≡ 0)
    × (c.posted_stopped ≡ 0)
    × (c.writes ≡ [])
    × (c.reads ≡ (0, 4) ∷ [])
unfolding run step connect async_stop cancel_async_operations resolve_on_stopped request_sending
    async_send begin_sending on_send queue_send write_completes set_flag clear_flag get_flag make
    consume commit get_read_head get_write_head write_at clear_all request_receiving async_receive
stopped_at_last = (refl, refl, refl, refl, refl, refl)

blocking_stop-returns_despite_reads_example :
    (c : Connection) × (blocking_stop drain false meanwhile (after drain busy 4 3 true) ≡ some c)
blocking_stop-returns_despite_reads_example =
    blocking_stop-returns_despite_reads drain false busy meanwhile 4 3 true small stopped_at_last.0
      stopped_at_last.1 stopped_at_last.2 stopped_at_last.3 stopped_at_last.4
