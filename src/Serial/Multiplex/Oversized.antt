-- ===== src/Serial/Multiplex/Oversized.antt =====
-- What becomes of a value that is too large for the size field of its header.
use eestv_lib.Common.{
  ℕ, ◌+◌, ◌-◌, ◌≤◌, ◌<◌, ◌≡◌, sym, ap, ◌∙◌, false, some, List, [], ◌∷◌, ◌++◌, arith, length,
  get_elem?, append-nil, length-append,
}
use eestv_lib.LinearBuffer.{LinearBuffer, consume, get_read_head}
use eestv_lib.LinearBuffer.Invariant.{IsValid}
use eestv_lib.LinearBuffer.Contents.{contents, length-contents}
use eestv_lib.Serial.{Value}
use eestv_lib.Serial.RoundTrip.{joined, AllNonempty, SameSizes, deserialize_values-contents}
use eestv_lib.Serial.Multiplex.{
  max_payload_size, mux_serialize, deserialize_type, demux_deserialize,
}
use eestv_lib.Serial.Multiplex.Frame.{mux_serialize-oversized}
use eestv_lib.Serial.Multiplex.Delivery.{read_header-contents, deserialize_by_index-get_elem?}

-- With the size 0 in the header, whatever the type's members take is taken.
deserialize_type-unsized :
    (members vs : List Value) (rest : List ℕ) (b : LinearBuffer)
    → IsValid b
    → AllNonempty vs
    → SameSizes members vs
    → contents b ≡ joined vs ++ rest
    → ((deserialize_type members 0 b).1 ≡ some vs)
      × (contents (deserialize_type members 0 b).0 ≡ rest)
unfolding deserialize_type
deserialize_type-unsized members vs rest b h a e c =
    let sizes : b.size ≡ length (joined vs) + length rest =
      omega (arith, length-contents h, ap length c, length-append (joined vs) rest) in
    ground (
      arith,
      deserialize_values-contents members vs rest (record { buffer = b; bytes_read = 0 }) h a e c
          (omega (arith, h.small, sizes, h.filled, h.inside)),
    )

-- A value that the multiplexer refuses for its size arrives all the same: where a valid empty buffer
-- has room for a value, of members of at least one byte each and of 2 ^ 16 bytes or more in all,
-- behind its header, serialising it reports failure, but a demultiplexer to which the index stands for
-- a type with members of these sizes then yields the index and the value.
pub demux_deserialize-oversized :
    (types : List (List Value)) (i : ℕ) (members vs : List Value) (b : LinearBuffer)
    → IsValid b
    → contents b ≡ []
    → get_elem? types i ≡ some members
    → AllNonempty vs
    → SameSizes members vs
    → 3 + length (joined vs) ≤ length b.buffer - b.head
    → max_payload_size < length (joined vs)
    → let (t, done) = mux_serialize i vs b in
      let (last, received) = demux_deserialize types t in
      (done ≡ false) × (received ≡ some (i, vs)) × (contents last ≡ [])
unfolding demux_deserialize get_read_head
demux_deserialize-oversized types i members vs b h c g a e p q =
    let (refused, there, valid) = mux_serialize-oversized i vs b h a p q in
    let t : LinearBuffer = (mux_serialize i vs b).0 in
    let (header, left, behind) =
      read_header-contents i 0 0 (joined vs) t valid
        (there ∙ ap (λ r. r ++ (i ∷ 0 ∷ 0 ∷ joined vs)) c) in
    let read =
      deserialize_type-unsized members vs [] (consume 3 t).0 behind a e
        (left ∙ sym (append-nil (joined vs))) in
    ground (
      arith,
      refused,
      header,
      read,
      deserialize_by_index-get_elem? types i 0 members (consume 3 t).0 g,
    )
