-- ===== src/TcpConnection/Delivery.antt =====
-- The bytes that come in are handed on in order and once, if one read is outstanding at a time.
use eestv_lib.Common.{
  ℕ, ◌+◌, ◌-◌, ◌≡◌, refl, sym, ap, ◌∙◌, List, [], ◌∷◌, ◌++◌, arith, leb, if◌then◌else◌, length,
  append_assoc, append-nil, Bool-cases, inl, inr, take, drop,
}
use eestv_lib.LinearBuffer.{LinearBuffer, commit, write_at}
use eestv_lib.LinearBuffer.Invariant.{IsValid, commit-IsValid, write_at-IsValid}
use eestv_lib.LinearBuffer.Contents.{contents, contents-commit}
use eestv_lib.TcpConnection.{
  Connection, Region, async_stop, request_receiving, on_receive, request_sending, queue_send, Event,
  call_receive, call_send, call_stop, call_queue, run_cancel, run_receive, run_send, run_stopped,
  run_lost, read_done, read_failed, write_done, write_failed, step, run, read_completes, read_fails,
  write_completes, write_fails,
}
use eestv_lib.TcpConnection.Reads.{
  ReadInv, SameIn, cancel-SameIn, begin_sending-SameIn, on_receive_error-SameIn, on_send-SameIn,
  on_send_error-SameIn, async_receive-ReadInv, idle_reads,
}

write_completes-SameIn : (ws : List Region) (c : Connection) → SameIn c (write_completes ws c)
unfolding write_completes
write_completes-SameIn [] c = (refl, refl, refl)
write_completes-SameIn ((p, n) ∷ rest) c =
    on_send-SameIn n
      (record c { writes = rest; sent = c.sent ++ take n (drop p c.send_buffer.buffer) })

write_fails-SameIn : (k : ℕ) (ws : List Region) (c : Connection) → SameIn c (write_fails k ws c)
unfolding write_fails
write_fails-SameIn k [] c = (refl, refl, refl)
write_fails-SameIn k ((p, n) ∷ rest) c = ground (
  arith,
  on_send_error-SameIn
      (record c { writes = rest; sent = c.sent ++ take k (drop p c.send_buffer.buffer) }),
)

-- Receiving is asked for only while nothing is outstanding.
abbrev pub AsksOnce : Event → Connection → Type 0
AsksOnce call_receive c = c.posted_receive + length c.reads ≡ 0
AsksOnce e c = Unit {0}

abbrev pub AllAskOnce : (LinearBuffer → LinearBuffer) → List Event → Connection → Type 0
AllAskOnce on_data [] c = Unit {0}
AllAskOnce on_data (e ∷ es) c = AsksOnce e c × AllAskOnce on_data es (step on_data e c)

-- A data callback that keeps the buffer valid and takes bytes from its front.
module _ (on_data : LinearBuffer → LinearBuffer) (taken : LinearBuffer → List ℕ)
    (keeps : (b : LinearBuffer) → IsValid b → IsValid (on_data b))
    (takes : (b : LinearBuffer) → IsValid b → taken b ++ contents (on_data b) ≡ contents b) where
  -- The buffer that the callback is called with, if the oldest read completes with some bytes.
  abbrev pub filled_buffer : List ℕ → Connection → LinearBuffer
  filled_buffer bytes c =
      (commit (length bytes) (write_at c.receive_buffer.head bytes c.receive_buffer)).0

  -- What a read brings in, and what the callback then takes.
  abbrev pub received_now : List ℕ → List Region → List ℕ
  received_now bytes [] = []
  received_now bytes ((p, n) ∷ rest) = if leb (length bytes) n then bytes else []

  abbrev pub taken_now : List ℕ → List Region → Connection → List ℕ
  taken_now bytes [] c = []
  taken_now bytes ((p, n) ∷ rest) c =
      if leb (length bytes) n then taken (filled_buffer bytes c) else []

  read_completes-delivery :
      (bytes : List ℕ) (rs : List Region) (c : Connection)
      → ReadInv c
      → c.reads ≡ rs
      → ReadInv (read_completes on_data bytes rs c)
        × (taken_now bytes rs c ++ contents (read_completes on_data bytes rs c).receive_buffer
            ≡ contents c.receive_buffer ++ received_now bytes rs)
  unfolding read_completes on_receive
  read_completes-delivery bytes [] c v e = ground (arith, v, append-nil (contents c.receive_buffer))
  read_completes-delivery bytes ((p, n) ∷ []) c v e = elim (Bool-cases (leb (length bytes) n)) [
    | inr refused ↦ ground (arith, v, refused, e, append-nil (contents c.receive_buffer))
    | inl fits ↦
        let b1 = filled_buffer bytes c in
        let ok =
          commit-IsValid (length bytes) (write_at-IsValid c.receive_buffer.head bytes v.valid) in
        ground (
          arith,
          fits,
          v,
          keeps b1 ok,
          takes b1 ok,
          contents-commit bytes c.receive_buffer v.valid,
          async_receive-ReadInv (record c { reads = []; receive_buffer = on_data b1 }),
        )
  ]
  read_completes-delivery bytes (r ∷ q ∷ rest) c v e = absurd (ground (arith, v))

  abbrev pub received : Event → Connection → List ℕ
  received (read_done bytes) c = received_now bytes c.reads
  received e c = []

  abbrev pub taken_by : Event → Connection → List ℕ
  taken_by (read_done bytes) c = taken_now bytes c.reads c
  taken_by e c = []

  -- What a step owes: its accounts in order, and every byte accounted for.
  abbrev pub Delivers : Event → Connection → Type 0
  Delivers e c =
      ReadInv (step on_data e c)
      × (taken_by e c ++ contents (step on_data e c).receive_buffer
          ≡ contents c.receive_buffer ++ received e c)

  unchanged :
      (c d : Connection)
      → ReadInv c
      → SameIn c d
      → ReadInv d × ([] ++ contents d.receive_buffer ≡ contents c.receive_buffer ++ [])
  unchanged c d v s = ground (arith, v, s, append-nil (contents c.receive_buffer))

  request_receiving-delivery :
      (c : Connection) → ReadInv c → c.posted_receive + length c.reads ≡ 0 → Delivers call_receive c
  unfolding step request_receiving
  request_receiving-delivery c v h = ground (arith, v, append-nil (contents c.receive_buffer))

  run_receive-delivery : (c : Connection) → ReadInv c → Delivers run_receive c
  unfolding step
  run_receive-delivery c v = ground (
    arith,
    v,
    idle_reads c,
    async_receive-ReadInv (record c { posted_receive = c.posted_receive - 1 }),
    append-nil (contents c.receive_buffer),
  )

  read_fails-delivery :
      (rs : List Region) (c : Connection)
      → ReadInv c
      → c.reads ≡ rs
      → ReadInv (read_fails rs c)
        × ([] ++ contents (read_fails rs c).receive_buffer ≡ contents c.receive_buffer ++ [])
  unfolding read_fails
  read_fails-delivery [] c v e = unchanged c c v (refl, refl, refl)
  read_fails-delivery (r ∷ rest) c v e = ground (
    arith,
    v,
    e,
    on_receive_error-SameIn (record c { reads = rest }),
    idle_reads (record c { reads = rest }),
    append-nil (contents c.receive_buffer),
  )

  pub step-delivery : (e : Event) (c : Connection) → AsksOnce e c → ReadInv c → Delivers e c
  unfolding step
  step-delivery call_receive c a v = request_receiving-delivery c v a
  step-delivery call_send c a v =
      unchanged c (request_sending c) v (unfold request_sending in ground arith)
  step-delivery call_stop c a v = unchanged c (async_stop c).0 v (unfold async_stop in ground arith)
  step-delivery (call_queue bytes) c a v =
      unchanged c (queue_send bytes c) v (unfold queue_send in ground arith)
  step-delivery run_cancel c a v =
      unchanged c (step on_data run_cancel c) v
        (ground (arith, cancel-SameIn (record c { posted_cancel = c.posted_cancel - 1 })))
  step-delivery run_receive c a v = run_receive-delivery c v
  step-delivery run_send c a v =
      unchanged c (step on_data run_send c) v
        (ground (arith, begin_sending-SameIn (record c { posted_send = c.posted_send - 1 })))
  step-delivery run_stopped c a v = unchanged c (step on_data run_stopped c) v (ground arith)
  step-delivery run_lost c a v = unchanged c (step on_data run_lost c) v (ground arith)
  step-delivery (read_done bytes) c a v = read_completes-delivery bytes c.reads c v refl
  step-delivery read_failed c a v = read_fails-delivery c.reads c v refl
  step-delivery write_done c a v =
      unchanged c (write_completes c.writes c) v (write_completes-SameIn c.writes c)
  step-delivery (write_failed k) c a v =
      unchanged c (write_fails k c.writes c) v (write_fails-SameIn k c.writes c)

  abbrev pub all_received : List Event → Connection → List ℕ
  all_received [] c = []
  all_received (e ∷ es) c = received e c ++ all_received es (step on_data e c)

  abbrev pub all_taken : List Event → Connection → List ℕ
  all_taken [] c = []
  all_taken (e ∷ es) c = taken_by e c ++ all_taken es (step on_data e c)

  -- Over any sequence of events in which receiving is asked for only while no read is outstanding or
  -- posted, from a state whose receiving side is in order, with a data callback that keeps the buffer
  -- valid and takes bytes from its front: what the callback took, followed by what is still buffered,
  -- is what was buffered at the start followed by all that was received since, in its order.
  pub run-delivery :
      (es : List Event) (c : Connection)
      → AllAskOnce on_data es c
      → ReadInv c
      → all_taken es c ++ contents (run on_data es c).receive_buffer
        ≡ contents c.receive_buffer ++ all_received es c
  unfolding run
  run-delivery [] c a v = sym (append-nil (contents c.receive_buffer))
  run-delivery (e ∷ es) c a v =
      let d = step on_data e c in
      let (kept, same) = step-delivery e c a.0 v in
      append_assoc (taken_by e c) (all_taken es d) (contents (run on_data es d).receive_buffer)
      ∙ ap (λ r. taken_by e c ++ r) (run-delivery es d a.1 kept)
      ∙ sym (append_assoc (taken_by e c) (contents d.receive_buffer) (all_received es d))
      ∙ ap (λ r. r ++ all_received es d) same
      ∙ append_assoc (contents c.receive_buffer) (received e c) (all_received es d)
