-- ===== src/LinearBuffer/Refine.antt =====
-- A valid `LinearBuffer` behaves as a byte queue whose room runs down as bytes are written and is
-- given back whole when the last byte is read.
use eestv_lib.Common.{
  ℕ, zero, suc, ◌-◌, ◌^◌, ◌≤◌, ◌<◌, ◌≡◌, refl, ap, ◌∙◌, Bool, true, false, List, [], ◌∷◌, ◌++◌,
  arith, length, leb, ◌==◌, take, drop, if◌then◌else◌, length-store, length-replicate, ap₂,
}
use eestv_lib.LinearBuffer.{
  LinearBuffer, make, get_read_head, consume, get_write_head, commit, write_at,
}
use eestv_lib.LinearBuffer.Invariant.{
  IsValid, get_write_head_size, consume-IsValid, make-IsValid, commit-IsValid, write_at-IsValid,
}
use eestv_lib.LinearBuffer.Contents.{contents, length-contents, contents-consume, contents-commit}

pub record Queue : Type 0 where
  pub bytes : List ℕ
  pub room : ℕ
  pub capacity : ℕ

-- `put` queues bytes, `get` takes `n` of them.
pub data Op : Type 0 where
  put : List ℕ → Op
  get : ℕ → Op

-- What a client sees of an operation: the bytes read, and whether it succeeded.
abbrev pub Reply : Type 0
Reply = List ℕ × Bool

unfoldable pub queue_step : Queue → Op → Queue × Reply
queue_step q (put bytes) =
    if leb (length bytes) q.room
    then (record q { bytes = q.bytes ++ bytes; room = q.room - length bytes }, ([], true))
    else (q, ([], false))
queue_step q (get n) =
    if leb n (length q.bytes)
    then (
      record q {
        bytes = drop n q.bytes;
        room = if n == length q.bytes then q.capacity else q.room;
      },
      (take n q.bytes, true),
    )
    else (q, ([], false))

-- The client's side, as the serialisers and the connection call a buffer: ask for the region, copy,
-- and report the size.
unfoldable pub buffer_step : LinearBuffer → Op → LinearBuffer × Reply
buffer_step b (put bytes) =
    if leb (length bytes) (get_write_head b).0
    then (let (b', done) = commit (length bytes) (write_at b.head bytes b) in (b', ([], done)))
    else (b, ([], false))
buffer_step b (get n) =
    if leb n (get_read_head b).0
    then (let (b', done) = consume n b in (b', (take n (drop b.tail b.buffer), done)))
    else (b, ([], false))

unfoldable pub queue_run : Queue → List Op → List Reply
queue_run q [] = []
queue_run q (op ∷ ops) = let (q', r) = queue_step q op in r ∷ queue_run q' ops

unfoldable pub buffer_run : LinearBuffer → List Op → List Reply
buffer_run b [] = []
buffer_run b (op ∷ ops) = let (b', r) = buffer_step b op in r ∷ buffer_run b' ops

abbrev pub view : LinearBuffer → Queue
view b = record { bytes = contents b; room = length b.buffer - b.head; capacity = length b.buffer }

-- Every operation of a client keeps a valid buffer valid: writing and committing bytes that fit, or
-- consuming, and what is refused.
pub step-IsValid : (op : Op) {b : LinearBuffer} → IsValid b → IsValid (buffer_step b op).0
unfolding buffer_step
step-IsValid (put bytes) {b} v =
    ground (arith, commit-IsValid (length bytes) (write_at-IsValid b.head bytes v))
step-IsValid (get n) {b} v = ground (arith, consume-IsValid n v)

-- The room and the capacity after each operation.
pub room-commit :
    (bytes : List ℕ) (b : LinearBuffer)
    → IsValid b
    → length bytes ≤ (get_write_head b).0
    → let b' = (commit (length bytes) (write_at b.head bytes b)).0 in
      (length b'.buffer - b'.head ≡ length b.buffer - b.head - length bytes)
      × (length b'.buffer ≡ length b.buffer)
unfolding commit write_at get_write_head
room-commit bytes b v h = ground (arith, length-store b.buffer b.head bytes)

room-consume :
    (n : ℕ) (b : LinearBuffer)
    → IsValid b
    → n ≤ b.size
    → let b' = (consume n b).0 in
      (length b'.buffer - b'.head
        ≡ (if n == b.size then length b.buffer else length b.buffer - b.head))
      × (length b'.buffer ≡ length b.buffer)
unfolding consume
room-consume n b v h = ground arith

-- The bytes at the read pointer are the front of the contents.
pub take-take-drop : {A : Type 0} (n s : ℕ) (xs : List A) → n ≤ s → take n (take s xs) ≡ take n xs
take-take-drop zero s xs h = refl
take-take-drop (suc n) zero xs h = absurd (omega arith)
take-take-drop (suc n) (suc s) [] h = refl
take-take-drop (suc n) (suc s) (x ∷ xs) h = ap (λ r. x ∷ r) (take-take-drop n s xs (omega arith))

-- One operation on a valid buffer does what it does to the queue of its contents, reply included.
pub step_refines :
    (op : Op) (b : LinearBuffer)
    → IsValid b
    → (view (buffer_step b op).0 ≡ (queue_step (view b) op).0)
      × ((buffer_step b op).1 ≡ (queue_step (view b) op).1)
unfolding buffer_step queue_step get_read_head
step_refines (put bytes) b v =
    ground (arith, get_write_head_size v, room-commit bytes b v, contents-commit bytes b v)
step_refines (get n) b v = ground (
  arith,
  length-contents v,
  room-consume n b v,
  contents-consume n b v,
  take-take-drop n b.size (drop b.tail b.buffer),
)

run_refines_from :
    (ops : List Op) (b : LinearBuffer) (q : Queue)
    → IsValid b
    → view b ≡ q
    → buffer_run b ops ≡ queue_run q ops
unfolding buffer_run queue_run
run_refines_from [] b q v e = refl
run_refines_from (op ∷ ops) b q v e =
    ap₂ ◌∷◌ ((step_refines op b v).1 ∙ ap (λ t. (queue_step t op).1) e) (
      run_refines_from ops (buffer_step b op).0 (queue_step q op).0 (step-IsValid op v)
        ((step_refines op b v).0 ∙ ap (λ t. (queue_step t op).0) e))

-- No sequence of operations tells a new buffer of `n` bytes, for `n` below 2 ^ 64, from an empty queue
-- with room for `n`.
pub run_refines :
    (n : ℕ) (ops : List Op)
    → n < 2 ^ 64
    → buffer_run (make n) ops ≡ queue_run (record { bytes = []; room = n; capacity = n }) ops
run_refines n ops h = run_refines_from ops (make n) _ (make-IsValid n h) (make_view n)
  where
    make_view : (n : ℕ) → view (make n) ≡ record { bytes = []; room = n; capacity = n }
    make_view n = unfold make in ground (arith, length-replicate {A = ℕ} n 0)
