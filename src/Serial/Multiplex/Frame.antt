-- ===== src/Serial/Multiplex/Frame.antt =====
-- What a multiplexed value leaves in the buffer.
use eestv_lib.Common.{
  ℕ, zero, ◌+◌, ◌-◌, ◌/◌, ◌%◌, ◌≤◌, ◌<◌, ◌≡◌, refl, sym, ap, ◌∙◌, true, some, List, [], ◌∷◌, ◌++◌,
  arith, length, take, drop, store, store-nil, drop-store, take-stored, store-append, false,
  append_assoc, append-nil, length-append,
}
use eestv_lib.LinearBuffer.{LinearBuffer, get_write_head, commit, write_at}
use eestv_lib.LinearBuffer.Invariant.{
  IsValid, get_write_head_size, commit-IsValid, write_at-IsValid,
}
use eestv_lib.LinearBuffer.Contents.{contents, contents-commit, commit_grows, length-contents}
use eestv_lib.LinearBuffer.Refine.{room-commit}
use eestv_lib.Serial.{Value, Serializer, serialize_value, serialize_values}
use eestv_lib.Serial.RoundTrip.{joined, AllNonempty, serialize_values-contents}
use eestv_lib.Serial.Multiplex.{max_payload_size, mux_serialize}

-- A write inside the readable region, `k` bytes behind its start.
contents-write_at :
    (k : ℕ) (ys : List ℕ) (b : LinearBuffer)
    → k + length ys ≤ b.size
    → contents (write_at (b.tail + k) ys b) ≡ store (contents b) k ys
unfolding write_at
contents-write_at k ys b h =
    ap (take b.size) (drop-store b.tail k b.buffer ys)
    ∙ take-stored b.size k (drop b.tail b.buffer) ys h

-- Two bytes stored behind the first of three.
patched :
    (c j : List ℕ) (i x y : ℕ)
    → store ((c ++ (i ∷ 0 ∷ 0 ∷ [])) ++ j) (length c + 1) (x ∷ y ∷ []) ≡ c ++ (i ∷ x ∷ y ∷ j)
patched c j i x y =
    ap (λ r. store r (length c + 1) (x ∷ y ∷ [])) (append_assoc c (i ∷ 0 ∷ 0 ∷ []) j)
    ∙ store-append c (i ∷ 0 ∷ 0 ∷ j) (x ∷ y ∷ []) 1
    ∙ ap (λ r. c ++ (i ∷ x ∷ y ∷ r)) (store-nil j zero)

serialize_value-tail :
    (v : Value) (s : Serializer) → (serialize_value v s).buffer.tail ≡ s.buffer.tail
unfolding serialize_value commit write_at
serialize_value-tail v s = ground arith

serialize_values-tail :
    (vs : List Value) (s : Serializer) → (serialize_values vs s).buffer.tail ≡ s.buffer.tail
unfolding serialize_values
serialize_values-tail [] s = refl
serialize_values-tail (v ∷ vs) s =
    serialize_values-tail vs (serialize_value v s) ∙ serialize_value-tail v s

-- The buffer behind the header, and what the serializer then leaves.
abbrev pub headed : ℕ → LinearBuffer → LinearBuffer
headed i b = (commit 3 (write_at b.head (i ∷ 0 ∷ 0 ∷ []) b)).0

abbrev pub payload : ℕ → List Value → LinearBuffer → Serializer
payload i vs b = serialize_values vs (record { buffer = headed i b; bytes_written = 0 })

pub headed_fields :
    (i : ℕ) (b : LinearBuffer)
    → IsValid b
    → 3 ≤ length b.buffer - b.head
    → IsValid (headed i b)
      × (contents (headed i b) ≡ contents b ++ (i ∷ 0 ∷ 0 ∷ []))
      × (length (headed i b).buffer - (headed i b).head ≡ length b.buffer - b.head - 3)
      × ((headed i b).tail ≡ b.tail)
      × ((commit 3 (write_at b.head (i ∷ 0 ∷ 0 ∷ []) b)).1 ≡ true)
headed_fields i b h p = ground (
  arith,
  get_write_head_size h,
  contents-commit (i ∷ 0 ∷ 0 ∷ []) b h,
  commit_grows (i ∷ 0 ∷ 0 ∷ []) b h,
  room-commit (i ∷ 0 ∷ 0 ∷ []) b h,
  commit-IsValid 3 (write_at-IsValid b.head (i ∷ 0 ∷ 0 ∷ []) h),
)

get_write_head_pointer :
    (b : LinearBuffer)
    → IsValid b
    → 3 ≤ length b.buffer - b.head
    → get_write_head b ≡ (length b.buffer - b.head, some b.head)
unfolding get_write_head
get_write_head_pointer b h p = ground arith

-- The function as one equation, where there is room for the header.
mux_serialize_lem :
    (i : ℕ) (vs : List Value) (b : LinearBuffer)
    → IsValid b
    → 3 ≤ length b.buffer - b.head
    → (payload i vs b).bytes_written ≤ max_payload_size
    → mux_serialize i vs b ≡ (
      write_at
          (b.head + 1)
          ((payload i vs b).bytes_written % 256 ∷ (payload i vs b).bytes_written / 256 % 256 ∷ [])
          (payload i vs b).buffer,
      true,
    )
unfolding mux_serialize
mux_serialize_lem i vs b h p q = ground (arith, get_write_head_pointer b h p, headed_fields i b h p)

-- The function as one equation, where the payload turns out too large for the size field.
mux_serialize-oversized_lem :
    (i : ℕ) (vs : List Value) (b : LinearBuffer)
    → IsValid b
    → 3 ≤ length b.buffer - b.head
    → max_payload_size < (payload i vs b).bytes_written
    → mux_serialize i vs b ≡ ((payload i vs b).buffer, false)
unfolding mux_serialize
mux_serialize-oversized_lem i vs b h p q =
    ground (arith, get_write_head_pointer b h p, headed_fields i b h p)

-- The size bytes, stored over the payload's buffer.
patch_size :
    (i x y : ℕ) (b : LinearBuffer) (s : LinearBuffer) (j : List ℕ)
    → IsValid b
    → IsValid s
    → s.tail ≡ b.tail
    → contents s ≡ (contents b ++ (i ∷ 0 ∷ 0 ∷ [])) ++ j
    → contents (write_at (b.head + 1) (x ∷ y ∷ []) s) ≡ contents b ++ (i ∷ x ∷ y ∷ j)
patch_size i x y b s j h g t c =
    let e : b.head + 1 ≡ s.tail + (length (contents b) + 1) =
      omega (arith, h.filled, length-contents h) in
    let inside : length (contents b) + 1 + 2 ≤ s.size = omega (
      arith,
      length-contents g,
      ap length c,
      length-append (contents b ++ (i ∷ 0 ∷ 0 ∷ [])) j,
      length-append (contents b) (i ∷ 0 ∷ 0 ∷ []),
    ) in
    ap (λ k. contents (write_at k (x ∷ y ∷ []) s)) e
    ∙ contents-write_at (length (contents b) + 1) (x ∷ y ∷ []) s inside
    ∙ ap (λ r. store r (length (contents b) + 1) (x ∷ y ∷ [])) c
    ∙ patched (contents b) j i x y

-- A value, of members of at least one byte each and of fewer than 2 ^ 16 in all, that fits into a valid
-- buffer together with its header is written behind the contents: the index of its type, its size in
-- two bytes, the lower one first, and its bytes; success is reported and the buffer stays valid.
pub mux_serialize-contents :
    (i : ℕ) (vs : List Value) (b : LinearBuffer)
    → IsValid b
    → AllNonempty vs
    → 3 + length (joined vs) ≤ length b.buffer - b.head
    → length (joined vs) ≤ max_payload_size
    → let (t, done) = mux_serialize i vs b in
      let n = length (joined vs) in
      (done ≡ true)
      × (contents t ≡ contents b ++ (i ∷ n % 256 ∷ n / 256 % 256 ∷ joined vs))
      × IsValid t
mux_serialize-contents i vs b h n p q =
    let (hv, hc, hr, ht, hd) = headed_fields i b h (omega arith) in
    let (v, c, k) =
      serialize_values-contents vs (record { buffer = headed i b; bytes_written = 0 }) hv n
        (omega arith) (omega arith) in
    let e = mux_serialize_lem i vs b h (omega arith) (omega arith) in
    let z : (payload i vs b).bytes_written ≡ length (joined vs) = omega (arith, k) in
    let x = length (joined vs) % 256 in
    let y = length (joined vs) / 256 % 256 in
    rw (e, z)
      (
        refl,
        patch_size i x y b (payload i vs b).buffer (joined vs) h v
            (serialize_values-tail vs (record { buffer = headed i b; bytes_written = 0 }) ∙ ht)
            (c ∙ ap (λ r. r ++ joined vs) hc),
        write_at-IsValid (b.head + 1) (x ∷ y ∷ []) v,
      )

-- A value of one member that does not fit behind its header leaves the header alone, with the size 0,
-- and success is reported all the same.
pub mux_serialize-truncated :
    (i : ℕ) (v : Value) (b : LinearBuffer)
    → IsValid b
    → 3 ≤ length b.buffer - b.head
    → length b.buffer - b.head < 3 + length v
    → let (t, done) = mux_serialize i (v ∷ []) b in
      (done ≡ true) × (contents t ≡ contents b ++ (i ∷ 0 ∷ 0 ∷ [])) × IsValid t
unfolding serialize_values
mux_serialize-truncated i v b h p q =
    let (hv, hc, hr, ht, hd) = headed_fields i b h p in
    let e : payload i (v ∷ []) b ≡ record { buffer = headed i b; bytes_written = 0 } =
      skipped (record { buffer = headed i b; bytes_written = 0 }) hv (omega arith) in
    let z : (payload i (v ∷ []) b).bytes_written ≡ 0 = ap (λ s. s.bytes_written) e in
    let same : (payload i (v ∷ []) b).buffer ≡ headed i b = ap (λ s. s.buffer) e in
    rw (mux_serialize_lem i (v ∷ []) b h p (omega (arith, z)), z, same)
      (
        refl,
        patch_size i 0 0 b (headed i b) [] h hv ht
            (hc ∙ sym (append-nil (contents b ++ (i ∷ 0 ∷ 0 ∷ [])))),
        write_at-IsValid (b.head + 1) (0 ∷ 0 ∷ []) hv,
      )
  where
    skipped :
        (s : Serializer)
        → IsValid s.buffer
        → length s.buffer.buffer - s.buffer.head < length v
        → serialize_value v s ≡ s
    skipped s h p = unfold serialize_value get_write_head in ground (arith, get_write_head_size h)

-- A value of 2 ^ 16 bytes or more that fits is refused when it has been written: it stays in the buffer
-- behind a header with the size 0.
pub mux_serialize-oversized :
    (i : ℕ) (vs : List Value) (b : LinearBuffer)
    → IsValid b
    → AllNonempty vs
    → 3 + length (joined vs) ≤ length b.buffer - b.head
    → max_payload_size < length (joined vs)
    → let (t, done) = mux_serialize i vs b in
      (done ≡ false) × (contents t ≡ contents b ++ (i ∷ 0 ∷ 0 ∷ joined vs)) × IsValid t
mux_serialize-oversized i vs b h n p q =
    let (hv, hc, hr, ht, hd) = headed_fields i b h (omega arith) in
    let (v, c, k) =
      serialize_values-contents vs (record { buffer = headed i b; bytes_written = 0 }) hv n
        (omega arith) (omega (arith, hv.small, h.small)) in
    rw (mux_serialize-oversized_lem i vs b h (omega arith) (omega (arith, k))) (
      refl,
      c ∙ ap (λ r. r ++ joined vs) hc ∙ append_assoc (contents b) (i ∷ 0 ∷ 0 ∷ []) (joined vs),
      v,
    )
