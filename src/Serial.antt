-- ===== src/Serial.antt =====
-- eestv/serial/serializer.hpp and deserializer.hpp: values written to and read from a `LinearBuffer`.
--
-- A value of an arithmetic type `T` is the list of the `sizeof(T)` bytes that `memcpy` copies, in the
-- machine's order. A user-defined type archives its members in order, so it is a list of such values.
pub mod RoundTrip
pub mod Multiplex
mod Examples
use eestv_lib.Common.{
  ℕ, Bool, true, false, Option, none, some, List, [], ◌∷◌, leb, if◌then◌else◌, length, take, drop,
}
use eestv_lib.LinearBuffer.{
  LinearBuffer, add_size, get_read_head, consume, get_write_head, commit, write_at,
}

abbrev pub Value : Type 0
Value = List ℕ

pub record Serializer : Type 0 where
  pub buffer : LinearBuffer
  pub bytes_written : ℕ

pub record Deserializer : Type 0 where
  pub buffer : LinearBuffer
  pub bytes_read : ℕ

abbrev pub reset_serializer : Serializer → Serializer
reset_serializer s = record s { bytes_written = 0 }

abbrev pub reset_deserializer : Deserializer → Deserializer
reset_deserializer s = record s { bytes_read = 0 }

-- A value that finds no room is skipped.
unfoldable pub serialize_value : Value → Serializer → Serializer
serialize_value value s =
    let (available, write_head) = get_write_head s.buffer in
    elim write_head [
      | none ↦ s
      | some p ↦
          if leb (length value) available
          then (let (b, committed) = commit (length value) (write_at p value s.buffer) in
              record s {
                buffer = b;
                bytes_written =
                    if committed then add_size s.bytes_written (length value) else s.bytes_written;
              })
          else s
    ]

-- The members of a user-defined type, by its `serialize`.
unfoldable pub serialize_values : List Value → Serializer → Serializer
serialize_values [] s = s
serialize_values (v ∷ vs) s = serialize_values vs (serialize_value v s)

-- The new value for one that was `value`, which gives its size.
unfoldable pub deserialize_value : Value → Deserializer → Value × Deserializer
deserialize_value value s =
    let (available, read_head) = get_read_head s.buffer in
    elim read_head [
      | none ↦ (value, s)
      | some p ↦
          if leb (length value) available
          then (let (b, consumed) = consume (length value) s.buffer in
              (
                take (length value) (drop p s.buffer.buffer),
                record s {
                  buffer = b;
                  bytes_read =
                      if consumed then add_size s.bytes_read (length value) else s.bytes_read;
                },
              ))
          else (value, s)
    ]

unfoldable pub deserialize_values : List Value → Deserializer → List Value × Deserializer
deserialize_values [] s = ([], s)
deserialize_values (v ∷ vs) s =
    let (value, next) = deserialize_value v s in
    let (values, last) = deserialize_values vs next in (value ∷ values, last)
