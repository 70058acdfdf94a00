-- ===== src/TcpConnection/Link/Examples.antt =====
-- Three bytes on their way from one connection to the callback of another.
use eestv_lib.Common.{
  ℕ, true, ◌≡◌, refl, List, [], ◌∷◌, ◌++◌, arith, leb, if◌then◌else◌, take, take-append-drop,
}
use eestv_lib.Flags.{set_flag, clear_flag, get_flag, clear_all}
use eestv_lib.LinearBuffer.{
  LinearBuffer, make, consume, commit, get_read_head, get_write_head, write_at, reset_if_empty,
}
use eestv_lib.LinearBuffer.Invariant.{IsValid, consume-IsValid}
use eestv_lib.LinearBuffer.Contents.{contents, consume-contents}
use eestv_lib.TcpConnection.{
  call_receive, call_send, call_queue, run_receive, run_send, write_done, step, connect,
  request_sending, begin_sending, async_send, on_send, queue_send, request_receiving, async_receive,
  on_receive, resolve_on_stopped,
}
use eestv_lib.TcpConnection.Send.{connect-SendInv}
use eestv_lib.TcpConnection.Reads.{connect-ReadInv}
use eestv_lib.TcpConnection.Link.Delivery.{link_run-all_queued}
use eestv_lib.TcpConnection.Link.{
  Link, LinkEvent, sends, receives, arrives, link_step, link_run, under_way, AllOrderly, all_queued,
  all_handled,
}

-- A callback that takes one byte.
abbrev sip : LinearBuffer → LinearBuffer
sip b = (consume 1 b).0

abbrev sipped : LinearBuffer → List ℕ
sipped b = if leb 1 b.size then take 1 (contents b) else []

sips_valid : (b : LinearBuffer) → IsValid b → IsValid (sip b)
sips_valid b v = consume-IsValid 1 v

sips_front : (b : LinearBuffer) → IsValid b → sipped b ++ contents (sip b) ≡ contents b
sips_front b v = ground (arith, consume-contents 1 b v, take-append-drop 1 (contents b))

abbrev link : Link
link = record { sender = connect 4 3 true; wire = []; receiver = connect 8 3 true }

-- The wire carries two bytes; one arrives, then the other with a third one that was queued since.
abbrev events : List LinkEvent
events =
    receives call_receive
    ∷ receives run_receive
    ∷ sends (call_queue (7 ∷ 8 ∷ []))
    ∷ sends call_send
    ∷ sends run_send
    ∷ sends write_done
    ∷ arrives 1
    ∷ sends (call_queue (9 ∷ []))
    ∷ sends call_send
    ∷ sends run_send
    ∷ sends write_done
    ∷ arrives 2
    ∷ []

orderly : AllOrderly sip sip sipped sips_valid sips_front events link
unfolding link_step step connect request_receiving
orderly = (
  (tt, refl),
  ((tt, tt), (refl, (refl, (refl, (refl, (tt, (refl, (refl, (refl, (refl, (tt, tt))))))))))),
)

two_handled :
    (all_handled sip sip sipped sips_valid sips_front events link ≡ 7 ∷ 8 ∷ [])
    × (under_way (link_run sip sip sipped sips_valid sips_front events link) ≡ 9 ∷ [])
unfolding link_run link_step step connect request_receiving async_receive on_receive request_sending
    begin_sending async_send on_send queue_send resolve_on_stopped make consume commit get_read_head
    get_write_head write_at set_flag clear_flag get_flag clear_all reset_if_empty
two_handled = (refl, refl)

link_run-all_queued_example :
    all_handled sip sip sipped sips_valid sips_front events link
      ++ under_way (link_run sip sip sipped sips_valid sips_front events link)
    ≡ under_way link ++ all_queued sip sip sipped sips_valid sips_front events link
link_run-all_queued_example =
    link_run-all_queued sip sip sipped sips_valid sips_front events link
      (connect-SendInv 4 3 true (omega arith)) (connect-ReadInv 8 3 true (omega arith)) orderly
