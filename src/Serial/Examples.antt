-- ===== src/Serial/Examples.antt =====
-- Values written and read, and the theorems at them.
use eestv_lib.Common.{
  replicate, ◌-◌, length, ap, sym, ◌∙◌, append-nil, length-replicate, ℕ, none, some, true, false,
  ◌≡◌, refl, List, [], ◌∷◌, arith, inl, inr,
}
use eestv_lib.LinearBuffer.{
  make, LinearBuffer, get_read_head, get_write_head, commit, consume, write_at, reset_if_empty,
}
use eestv_lib.LinearBuffer.Invariant.{IsValid, make-IsValid}
use eestv_lib.LinearBuffer.Contents.{contents}
use eestv_lib.Serial.{
  Value, serialize_values, deserialize_values, serialize_value, deserialize_value,
}
use eestv_lib.Serial.Multiplex.{
  mux_serialize, demux_deserialize, read_header, deserialize_type, deserialize_by_index,
}
use eestv_lib.Serial.Multiplex.Channel.{
  Message, Call, serialize, deserialize, serialized, deserialized, channel_run, Serves, IsMessage,
  AllWhole, channel_run-Serves,
}
use eestv_lib.Serial.Multiplex.Oversized.{demux_deserialize-oversized}
use eestv_lib.Serial.Multiplex.Delivery.{demux_deserialize-truncated, demux_deserialize-early}
use eestv_lib.Serial.RoundTrip.{joined, deserialize_values-serialize_values}

-- A byte, a number of two bytes and one of four.
abbrev sample : List Value
sample = (7 ∷ []) ∷ (1 ∷ 2 ∷ []) ∷ (9 ∷ 0 ∷ 0 ∷ 1 ∷ []) ∷ []

abbrev zeros : List Value
zeros = (0 ∷ []) ∷ (0 ∷ 0 ∷ []) ∷ (0 ∷ 0 ∷ 0 ∷ 0 ∷ []) ∷ []

abbrev eight : LinearBuffer
eight = record { buffer = 0 ∷ 0 ∷ 0 ∷ 0 ∷ 0 ∷ 0 ∷ 0 ∷ 0 ∷ []; head = 0; tail = 0; size = 0 }

eight-IsValid : IsValid eight
eight-IsValid = omega arith

deserialize_values-serialize_values_example :
    let s = serialize_values sample (record { buffer = eight; bytes_written = 0 }) in
    let (ws, t) = deserialize_values zeros (record { buffer = s.buffer; bytes_read = 0 }) in
    (ws ≡ sample) × (contents t.buffer ≡ []) × (s.bytes_written ≡ 7) × (t.bytes_read ≡ 7)
deserialize_values-serialize_values_example =
    deserialize_values-serialize_values sample zeros eight eight-IsValid refl
      (omega arith, (omega arith, (omega arith, tt))) (refl, (refl, (refl, tt))) (omega arith)

-- Two types: one byte, and three members of one, two and four bytes.
abbrev types : List (List Value)
types = ((0 ∷ []) ∷ []) ∷ zeros ∷ []

abbrev twelve : LinearBuffer
twelve = record {
  buffer = 0 ∷ 0 ∷ 0 ∷ 0 ∷ 0 ∷ 0 ∷ 0 ∷ 0 ∷ 0 ∷ 0 ∷ 0 ∷ 0 ∷ [];
  head = 0;
  tail = 0;
  size = 0;
}

twelve-IsValid : IsValid twelve
twelve-IsValid = omega arith

-- Room for the header and one byte.
abbrev four : LinearBuffer
four = record { buffer = 0 ∷ 0 ∷ 0 ∷ 0 ∷ []; head = 0; tail = 0; size = 0 }

four-IsValid : IsValid four
four-IsValid = omega arith

-- The two bytes 1 and 2 are sent; the zeros of `T {}` arrive.
demux_deserialize-truncated_example :
    let (t, done) = mux_serialize 0 ((1 ∷ 2 ∷ []) ∷ []) four in
    let (last, received) = demux_deserialize (((0 ∷ 0 ∷ []) ∷ []) ∷ []) t in
    (done ≡ true) × (received ≡ some (0, (0 ∷ 0 ∷ []) ∷ [])) × (contents last ≡ [])
demux_deserialize-truncated_example =
    demux_deserialize-truncated (((0 ∷ 0 ∷ []) ∷ []) ∷ []) 0 (0 ∷ 0 ∷ []) (1 ∷ 2 ∷ []) four
      four-IsValid refl refl (omega arith) (omega arith)

-- A header for seven bytes, and two of them.
abbrev early : LinearBuffer
early = record { buffer = 1 ∷ 7 ∷ 0 ∷ 7 ∷ 1 ∷ 0 ∷ 0 ∷ 0 ∷ []; head = 5; tail = 0; size = 5 }

demux_deserialize-early_example :
    ((demux_deserialize types early).1 ≡ none)
    × (contents (demux_deserialize types early).0 ≡ 7 ∷ 1 ∷ [])
demux_deserialize-early_example =
    demux_deserialize-early types 1 7 0 zeros (7 ∷ 1 ∷ []) early (omega arith) refl refl
      (omega arith)

abbrev byte : ℕ → Message
byte x = (0, (x ∷ []) ∷ [])

-- Three messages that fill the buffer, one of them once the first is out, and one that is refused.
abbrev calls : List Call
calls =
    serialize (byte 5)
    ∷ serialize (byte 7)
    ∷ deserialize
    ∷ serialize (byte 6)
    ∷ serialize (byte 9)
    ∷ deserialize
    ∷ deserialize
    ∷ deserialize
    ∷ []

calls_answered :
    channel_run types twelve calls
    ≡ serialized true
      ∷ serialized true
      ∷ deserialized (some (byte 5))
      ∷ serialized true
      ∷ serialized false
      ∷ deserialized (some (byte 7))
      ∷ deserialized (some (byte 6))
      ∷ deserialized none
      ∷ []
unfolding channel_run mux_serialize demux_deserialize read_header deserialize_type
    deserialize_by_index serialize_values deserialize_values serialize_value deserialize_value
    get_read_head get_write_head commit consume write_at reset_if_empty
calls_answered = refl

byte-IsMessage : (x : ℕ) → IsMessage types (byte x)
byte-IsMessage x = ((0 ∷ []) ∷ [], refl, (omega arith, tt), (refl, tt), omega arith)

calls-AllWhole : AllWhole types twelve calls
unfolding mux_serialize demux_deserialize read_header deserialize_type deserialize_by_index
    serialize_values deserialize_values serialize_value deserialize_value get_read_head
    get_write_head commit consume write_at reset_if_empty
calls-AllWhole = (
  byte-IsMessage 5,
  inl (omega arith),
  (
    byte-IsMessage 7,
    inl (omega arith),
    (byte-IsMessage 6, inl (omega arith), (byte-IsMessage 9, inr (omega arith), tt)),
  ),
)

channel_run-Serves_example : Serves [] calls (channel_run types twelve calls)
channel_run-Serves_example =
    channel_run-Serves types twelve calls twelve-IsValid refl calls-AllWhole

-- A value of one member of 2 ^ 16 bytes.
abbrev large : ℕ → List Value
large x = replicate 65536 x ∷ []

bytes_of_large : (x : ℕ) → length (replicate 65536 x) ≡ 65536
bytes_of_large x = length-replicate 65536 x

large_size : (x : ℕ) → length (joined (large x)) ≡ 65536
large_size x = ap length (append-nil (replicate 65536 x)) ∙ bytes_of_large x

large_buffer :
    IsValid (make 65600)
    × (contents (make 65600) ≡ [])
    × (length (make 65600).buffer - (make 65600).head ≡ 65600)
unfolding make
large_buffer =
    (make-IsValid 65600 (omega arith), refl, omega (arith, length-replicate {A = ℕ} 65600 0))

demux_deserialize-oversized_example :
    let (t, done) = mux_serialize 0 (large 7) (make 65600) in
    let (last, received) = demux_deserialize (large 0 ∷ []) t in
    (done ≡ false) × (received ≡ some (0, large 7)) × (contents last ≡ [])
demux_deserialize-oversized_example =
    demux_deserialize-oversized (large 0 ∷ []) 0 (large 0) (large 7) (make 65600) large_buffer.0
      large_buffer.1 refl (omega (arith, bytes_of_large 7), tt)
      (bytes_of_large 0 ∙ sym (bytes_of_large 7), tt) (omega (arith, large_size 7, large_buffer.2))
      (omega (arith, large_size 7))
