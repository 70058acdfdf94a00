-- ===== src/Serial/Multiplex.antt =====
-- eestv/serial/multiplexing_serializer.hpp and demultiplexing_deserializer.hpp: values of several types
-- in one `LinearBuffer`, each behind a header of its type's index and its size.
--
-- A type is given by the members of its value-initialised object, the `T {}` of the source. The bytes
-- of the header are below 256, so that `lo | (hi << 8)` is `lo + hi * 256`.
pub mod Frame
pub mod Delivery
pub mod Channel
pub mod Oversized
use eestv_lib.Common.{
  ℕ, zero, suc, ◌+◌, ◌-◌, ◌*◌, ◌/◌, ◌%◌, Bool, true, false, not, ◌&&◌, Option, none, some, List, [],
  ◌∷◌, leb, ltb, ◌==◌, if◌then◌else◌, length, take, drop,
}
use eestv_lib.LinearBuffer.{LinearBuffer, get_read_head, consume, get_write_head, commit, write_at}
use eestv_lib.Serial.{Value, Serializer, Deserializer, serialize_values, deserialize_values}

abbrev pub header_size : ℕ
header_size = 3

abbrev pub max_payload_size : ℕ
max_payload_size = 0xFFFF

-- `MultiplexingSerializer::serialize` of a value of the type with this index.
unfoldable pub mux_serialize : ℕ → List Value → LinearBuffer → LinearBuffer × Bool
mux_serialize type_index value b =
    let (available, write_head) = get_write_head b in
    elim write_head [
      | none ↦ (b, false)
      | some p ↦
          if ltb available header_size
          then (b, false)
          else (let (with_header, committed) =
                commit header_size (write_at p (type_index ∷ 0 ∷ 0 ∷ []) b) in
              let ser =
                serialize_values value (record { buffer = with_header; bytes_written = 0 }) in
              if not committed
              then (with_header, false)
              else if ltb max_payload_size ser.bytes_written
              then (ser.buffer, false)
              else (
                write_at (p + 1) (ser.bytes_written % 256 ∷ ser.bytes_written / 256 % 256 ∷ [])
                    ser.buffer,
                true,
              ))
    ]

abbrev pub header_fields : List ℕ → ℕ × ℕ
header_fields (index ∷ low ∷ high ∷ rest) = (index, low + high * 256)
header_fields bytes = (0, 0)

-- The type index and the payload size, if a header stands in the buffer.
unfoldable pub read_header : LinearBuffer → LinearBuffer × Option (ℕ × ℕ)
read_header b =
    let (available, read_head) = get_read_head b in
    elim read_head [
      | none ↦ (b, none)
      | some p ↦ if ltb available header_size then (b, none) else (
        (consume header_size b).0,
        some (header_fields (take header_size (drop p b.buffer))),
      )
    ]

unfoldable pub deserialize_type : List Value → ℕ → LinearBuffer → LinearBuffer × Option (List Value)
deserialize_type members payload_size b =
    let (value, deser) = deserialize_values members (record { buffer = b; bytes_read = 0 }) in
    let available_before = (get_read_head b).0 in
    let available_after = (get_read_head deser.buffer).0 in
    let bytes_consumed =
      if leb available_after available_before then available_before - available_after else 0 in
    if payload_size == 0
    then (deser.buffer, some value)
    else if bytes_consumed == payload_size
    then (deser.buffer, some value)
    else (deser.buffer, none)

-- The fold that tries each index; an index stands for the first type of those that are left when it
-- has run down to 0.
unfoldable pub deserialize_by_index :
    List (List Value) → ℕ → ℕ → LinearBuffer → LinearBuffer × Option (List Value)
deserialize_by_index [] type_index payload_size b = (b, none)
deserialize_by_index (members ∷ types) zero payload_size b = deserialize_type members payload_size b
deserialize_by_index (members ∷ types) (suc type_index) payload_size b =
    deserialize_by_index types type_index payload_size b

-- `DemultiplexingDeserializer::deserialize`: the index of the type and the value, or nothing where
-- `success_out` is false.
unfoldable pub demux_deserialize :
    List (List Value) → LinearBuffer → LinearBuffer × Option (ℕ × List Value)
demux_deserialize types b =
    let (behind, header) = read_header b in
    elim header [
      | none ↦ (behind, none)
      | some (type_index, payload_size) ↦
          if leb (length types) type_index
          then (behind, none)
          else if ltb 0 payload_size && ltb (get_read_head behind).0 payload_size
          then (behind, none)
          else (let (last, value) = deserialize_by_index types type_index payload_size behind in
              (last, elim value [ none ↦ none | some v ↦ some (type_index, v) ]))
    ]
