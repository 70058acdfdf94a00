-- ===== src/TcpConnection/Link.antt =====
-- Two connections with a wire between them: what one queues reaches the callback of the other.
pub mod Delivery
mod Examples
use eestv_lib.Common.{
  ℕ, zero, suc, Bool-cases, inl, inr, ◌+◌, ◌≡◌, refl, sym, ap, ◌∙◌, Bool, List, [], ◌∷◌, ◌++◌,
  arith, leb, if◌then◌else◌, length, take, drop, append_assoc, append-nil, drop-append,
  take-append-drop,
}
use eestv_lib.LinearBuffer.{LinearBuffer}
use eestv_lib.LinearBuffer.Invariant.{IsValid}
use eestv_lib.LinearBuffer.Contents.{contents}
use eestv_lib.TcpConnection.{
  Connection, Region, Event, call_receive, call_send, call_stop, call_queue, run_cancel,
  run_receive, run_send, run_stopped, run_lost, read_done, read_failed, write_done, write_failed,
  step, connect,
}
use eestv_lib.TcpConnection.Send.{SendInv, step-SendInv}
use eestv_lib.TcpConnection.Reads.{ReadInv}
use eestv_lib.TcpConnection.Stream.{stream, added, lost_bytes, step-stream}
use eestv_lib.TcpConnection.Stream.Grows.{step-Grows}
use eestv_lib.TcpConnection.Delivery.{
  AsksOnce, Delivers, received, received_now, taken_by, step-delivery,
}

-- The network keeps the bytes that the sender's socket has accepted in order until the receiver's
-- socket has read them.
pub record Link : Type 0 where
  pub sender : Connection
  pub wire : List ℕ
  pub receiver : Connection

-- What can happen next: an event of either connection, where the receiver reads nothing but what
-- arrives, which are the first bytes of the wire.
pub data LinkEvent : Type 0 where
  sends receives : Event → LinkEvent
  arrives : ℕ → LinkEvent

-- An event that does not read.
abbrev pub IsNoRead : Event → Type 0
IsNoRead (read_done bytes) = ⊥
IsNoRead e = Unit {0}

-- The bytes that are under way, the oldest first.
abbrev pub under_way : Link → List ℕ
under_way l = contents l.receiver.receive_buffer ++ (l.wire ++ contents l.sender.send_buffer)

-- What the sender's queueing call adds.
abbrev pub queued : LinkEvent → Link → List ℕ
queued (sends e) l = added e l.sender
queued e l = []

-- No write of the sender fails half-way, and the receiver asks for one read at a time.
abbrev pub IsOrderly : LinkEvent → Link → Type 0
IsOrderly (sends e) l = lost_bytes e ≡ 0
IsOrderly (receives e) l = IsNoRead e × AsksOnce e l.receiver
IsOrderly (arrives k) l = Unit {0}

abbrev pub LinkInv : Link → Type 0
LinkInv l = SendInv l.sender × ReadInv l.receiver

module _ (sender_data on_data : LinearBuffer → LinearBuffer) (taken : LinearBuffer → List ℕ)
    (keeps : (b : LinearBuffer) → IsValid b → IsValid (on_data b))
    (takes : (b : LinearBuffer) → IsValid b → taken b ++ contents (on_data b) ≡ contents b) where
  abbrev pub read_bytes : Event → Connection → List ℕ
  read_bytes = received on_data taken keeps takes

  unfoldable pub link_step : LinkEvent → Link → Link
  link_step (sends e) l =
      let next = step sender_data e l.sender in
      record l { sender = next; wire = l.wire ++ drop (length l.sender.sent) next.sent }
  link_step (receives e) l = record l { receiver = step on_data e l.receiver }
  link_step (arrives k) l =
      let e = read_done (take k l.wire) in
      record l {
        receiver = step on_data e l.receiver;
        wire = drop (length (read_bytes e l.receiver)) l.wire;
      }

  -- What the receiver's callback takes.
  abbrev pub handled : LinkEvent → Link → List ℕ
  handled (arrives k) l = taken_by on_data taken keeps takes (read_done (take k l.wire)) l.receiver
  handled e l = []

  unfoldable pub link_run : List LinkEvent → Link → Link
  link_run [] l = l
  link_run (e ∷ es) l = link_run es (link_step e l)

  abbrev pub AllOrderly : List LinkEvent → Link → Type 0
  AllOrderly [] l = Unit {0}
  AllOrderly (e ∷ es) l = IsOrderly e l × AllOrderly es (link_step e l)

  abbrev pub all_queued : List LinkEvent → Link → List ℕ
  all_queued [] l = []
  all_queued (e ∷ es) l = queued e l ++ all_queued es (link_step e l)

  abbrev pub all_handled : List LinkEvent → Link → List ℕ
  all_handled [] l = []
  all_handled (e ∷ es) l = handled e l ++ all_handled es (link_step e l)
