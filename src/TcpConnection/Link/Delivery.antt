-- ===== src/TcpConnection/Link/Delivery.antt =====
-- What one connection queues reaches the callback of the other, in order and once.
use eestv_lib.Common.{
  ℕ, zero, suc, Bool-cases, inl, inr, ◌≡◌, refl, sym, ap, ◌∙◌, List, [], ◌∷◌, ◌++◌, arith, leb,
  length, take, drop, append_assoc, append-nil, drop-append,
}
use eestv_lib.LinearBuffer.{LinearBuffer}
use eestv_lib.LinearBuffer.Invariant.{IsValid}
use eestv_lib.LinearBuffer.Contents.{contents}
use eestv_lib.TcpConnection.{
  Connection, Region, Event, call_receive, call_send, call_stop, call_queue, run_cancel,
  run_receive, run_send, run_stopped, run_lost, read_done, read_failed, write_done, write_failed,
  step,
}
use eestv_lib.TcpConnection.Send.{SendInv, step-SendInv}
use eestv_lib.TcpConnection.Reads.{ReadInv}
use eestv_lib.TcpConnection.Stream.{added, lost_bytes, step-stream}
use eestv_lib.TcpConnection.Stream.Grows.{step-Grows}
use eestv_lib.TcpConnection.Delivery.{AsksOnce, Delivers, received_now, taken_by, step-delivery}
use eestv_lib.TcpConnection.Link.{
  Link, LinkEvent, sends, receives, arrives, IsNoRead, under_way, queued, IsOrderly, LinkInv,
  read_bytes, link_step, handled, link_run, AllOrderly, all_queued, all_handled,
}

append_cancel : (xs ys zs : List ℕ) → xs ++ ys ≡ xs ++ zs → ys ≡ zs
append_cancel xs ys zs h =
    sym (drop-append (length xs) xs ys refl)
    ∙ ap (drop (length xs)) h
    ∙ drop-append (length xs) xs zs refl

take-drop-length : (k : ℕ) (xs : List ℕ) → take k xs ++ drop (length (take k xs)) xs ≡ xs
take-drop-length zero xs = refl
take-drop-length (suc k) [] = refl
take-drop-length (suc k) (x ∷ xs) = ap (λ r. x ∷ r) (take-drop-length k xs)

module _ (sender_data on_data : LinearBuffer → LinearBuffer) (taken : LinearBuffer → List ℕ)
    (keeps : (b : LinearBuffer) → IsValid b → IsValid (on_data b))
    (takes : (b : LinearBuffer) → IsValid b → taken b ++ contents (on_data b) ≡ contents b) where
  -- What a step owes: its accounts in order, and every byte accounted for.
  abbrev Carries : LinkEvent → Link → Type 0
  Carries e l =
      LinkInv (link_step sender_data on_data taken keeps takes e l)
      × (handled sender_data on_data taken keeps takes e l
            ++ under_way (link_step sender_data on_data taken keeps takes e l)
          ≡ under_way l ++ queued e l)

  sends-Carries : (e : Event) (l : Link) → lost_bytes e ≡ 0 → LinkInv l → Carries (sends e) l
  unfolding link_step
  sends-Carries e l z (v, w) = ((step-SendInv sender_data e c v, w), accounts)
    where
      c : Connection
      c = l.sender

      next : Connection
      next = step sender_data e c

      more : List ℕ
      more = (step-Grows sender_data e c).0

      wired : drop (length c.sent) next.sent ≡ more
      wired =
          ap (drop (length c.sent)) (step-Grows sender_data e c).1
          ∙ drop-append (length c.sent) c.sent more refl

      moved : more ++ contents next.send_buffer ≡ contents c.send_buffer ++ added e c
      moved =
          append_cancel c.sent (more ++ contents next.send_buffer)
            (contents c.send_buffer ++ added e c)
            (sym (append_assoc c.sent more (contents next.send_buffer))
              ∙ ap (λ r. r ++ contents next.send_buffer) (sym (step-Grows sender_data e c).1)
              ∙ step-stream sender_data e c v z
              ∙ append_assoc c.sent (contents c.send_buffer) (added e c))

      r : List ℕ
      r = contents l.receiver.receive_buffer

      accounts :
          r ++ ((l.wire ++ drop (length c.sent) next.sent) ++ contents next.send_buffer)
          ≡ (r ++ (l.wire ++ contents c.send_buffer)) ++ added e c
      accounts =
          ap (λ m. r ++ ((l.wire ++ m) ++ contents next.send_buffer)) wired
          ∙ ap (λ t. r ++ t) (append_assoc l.wire more (contents next.send_buffer))
          ∙ ap (λ t. r ++ (l.wire ++ t)) moved
          ∙ ap (λ t. r ++ t) (sym (append_assoc l.wire (contents c.send_buffer) (added e c)))
          ∙ sym (append_assoc r (l.wire ++ contents c.send_buffer) (added e c))

  no_read :
      (e : Event) (c : Connection)
      → IsNoRead e
      → (read_bytes sender_data on_data taken keeps takes e c ≡ [])
        × (taken_by on_data taken keeps takes e c ≡ [])
  no_read call_receive c n = (refl, refl)
  no_read call_send c n = (refl, refl)
  no_read call_stop c n = (refl, refl)
  no_read run_cancel c n = (refl, refl)
  no_read run_receive c n = (refl, refl)
  no_read run_send c n = (refl, refl)
  no_read run_stopped c n = (refl, refl)
  no_read run_lost c n = (refl, refl)
  no_read read_failed c n = (refl, refl)
  no_read write_done c n = (refl, refl)
  no_read (call_queue bytes) c n = (refl, refl)
  no_read (write_failed k) c n = (refl, refl)
  no_read (read_done bytes) c n = absurd n

  receives-Carries :
      (e : Event) (l : Link)
      → IsNoRead e
      → AsksOnce e l.receiver
      → LinkInv l
      → Carries (receives e) l
  unfolding link_step
  receives-Carries e l n a (v, w) = ((v, kept), ground (arith, accounts, append-nil (under_way l)))
    where
      delivered : Delivers on_data taken keeps takes e l.receiver
      delivered = step-delivery on_data taken keeps takes e l.receiver a w

      kept : ReadInv (step on_data e l.receiver)
      kept = delivered.0

      accounts :
          contents (step on_data e l.receiver).receive_buffer ≡ contents l.receiver.receive_buffer
      accounts = ground (
        arith,
        delivered.1,
        no_read e l.receiver n,
        append-nil (contents l.receiver.receive_buffer),
      )

  -- What is read is the front of the wire, or nothing.
  read-wire :
      (k : ℕ) (wire : List ℕ) (c : Connection)
      → let bytes = read_bytes sender_data on_data taken keeps takes (read_done (take k wire)) c in
        bytes ++ drop (length bytes) wire ≡ wire
  read-wire k wire c = front c.reads
    where
      front :
          (rs : List Region)
          → let bytes = received_now on_data taken keeps takes (take k wire) rs in
            bytes ++ drop (length bytes) wire ≡ wire
      front [] = refl
      front ((p, n) ∷ rest) = elim (Bool-cases (leb (length (take k wire)) n)) [
        | inl fits ↦ rw fits (take-drop-length k wire)
        | inr refused ↦ rw refused refl
      ]

  arrives-Carries : (k : ℕ) (l : Link) → LinkInv l → Carries (arrives k) l
  unfolding link_step
  arrives-Carries k l (v, w) = ((v, delivered.0), accounts)
    where
      e : Event
      e = read_done (take k l.wire)

      delivered : Delivers on_data taken keeps takes e l.receiver
      delivered = step-delivery on_data taken keeps takes e l.receiver tt w

      t : List ℕ
      t = taken_by on_data taken keeps takes e l.receiver

      b : List ℕ
      b = read_bytes sender_data on_data taken keeps takes e l.receiver

      r : List ℕ
      r = contents l.receiver.receive_buffer

      s : List ℕ
      s = contents l.sender.send_buffer

      left : List ℕ
      left = contents (step on_data e l.receiver).receive_buffer

      accounts : t ++ (left ++ (drop (length b) l.wire ++ s)) ≡ (r ++ (l.wire ++ s)) ++ []
      accounts =
          sym (append_assoc t left (drop (length b) l.wire ++ s))
          ∙ ap (λ x. x ++ (drop (length b) l.wire ++ s)) delivered.1
          ∙ append_assoc r b (drop (length b) l.wire ++ s)
          ∙ ap (λ x. r ++ x) (sym (append_assoc b (drop (length b) l.wire) s))
          ∙ ap (λ x. r ++ (x ++ s)) (read-wire k l.wire l.receiver)
          ∙ sym (append-nil (r ++ (l.wire ++ s)))

  step-Carries : (e : LinkEvent) (l : Link) → IsOrderly e l → LinkInv l → Carries e l
  step-Carries (sends e) l o v = sends-Carries e l o v
  step-Carries (receives e) l o v = receives-Carries e l o.0 o.1 v
  step-Carries (arrives k) l o v = arrives-Carries k l v

  -- Over any events of two connections and the wire between them, in which no write of the sender fails
  -- half-way and the receiver asks for one read at a time, from a state in which the sending side of
  -- the one and the receiving side of the other are in order, with a data callback that keeps the
  -- buffer valid and takes bytes from its front: what that callback took, followed by what the receiver
  -- has buffered, what the wire carries and what the sender has buffered, is what was under way at the
  -- start followed by all that was queued since. No byte is lost, repeated or reordered on the way.
  pub link_run-all_queued :
      (es : List LinkEvent) (l : Link)
      → SendInv l.sender
      → ReadInv l.receiver
      → AllOrderly sender_data on_data taken keeps takes es l
      → all_handled sender_data on_data taken keeps takes es l
          ++ under_way (link_run sender_data on_data taken keeps takes es l)
        ≡ under_way l ++ all_queued sender_data on_data taken keeps takes es l
  unfolding link_run
  link_run-all_queued [] l v w o = sym (append-nil (under_way l))
  link_run-all_queued (e ∷ es) l v w o =
      let d = link_step sender_data on_data taken keeps takes e l in
      let (kept, accounts) = step-Carries e l o.0 (v, w) in
      append_assoc (handled sender_data on_data taken keeps takes e l)
        (all_handled sender_data on_data taken keeps takes es d)
        (under_way (link_run sender_data on_data taken keeps takes es d))
      ∙ ap (λ r. handled sender_data on_data taken keeps takes e l ++ r)
          (link_run-all_queued es d kept.0 kept.1 o.1)
      ∙ sym (
          append_assoc (handled sender_data on_data taken keeps takes e l) (under_way d)
            (all_queued sender_data on_data taken keeps takes es d))
      ∙ ap (λ r. r ++ all_queued sender_data on_data taken keeps takes es d) accounts
      ∙ append_assoc (under_way l) (queued e l)
          (all_queued sender_data on_data taken keeps takes es d)
