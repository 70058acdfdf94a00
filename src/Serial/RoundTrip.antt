-- ===== src/Serial/RoundTrip.antt =====
-- What was serialised is read back.
use eestv_lib.Common.{
  ℕ, ◌+◌, ◌-◌, ◌%◌, ◌^◌, ◌≤◌, ◌<◌, ◌≡◌, refl, sym, ap, ◌∙◌, List, [], ◌∷◌, ◌++◌, arith, leb,
  if◌then◌else◌, length, take, drop, append_assoc, append-nil, length-append, take-append,
  drop-append,
}
use eestv_lib.LinearBuffer.{LinearBuffer, get_read_head, get_write_head}
use eestv_lib.LinearBuffer.Invariant.{
  IsValid, get_write_head_size, consume-IsValid, commit-IsValid, write_at-IsValid,
}
use eestv_lib.LinearBuffer.Contents.{contents, contents-commit, contents-consume, length-contents}
use eestv_lib.LinearBuffer.Refine.{take-take-drop, room-commit}
use eestv_lib.Serial.{
  Value, Serializer, Deserializer, serialize_value, serialize_values, deserialize_value,
  deserialize_values, reset_serializer, reset_deserializer,
}

-- The bytes of the values, one after the other.
abbrev pub joined : List Value → List ℕ
joined [] = []
joined (v ∷ vs) = v ++ joined vs

abbrev room : LinearBuffer → ℕ
room b = length b.buffer - b.head

-- In a valid buffer a value, of at least one byte, is appended and counted if it fits into the room
-- behind the head; it is skipped, with no trace, if it does not.
pub serialize_value-contents :
    (v : Value) (s : Serializer)
    → IsValid s.buffer
    → 0 < length v
    → let fits = leb (length v) (length s.buffer.buffer - s.buffer.head) in
      let t = serialize_value v s in
      (contents t.buffer ≡ (if fits then contents s.buffer ++ v else contents s.buffer))
      × (t.bytes_written
          ≡ (if fits then (s.bytes_written + length v) % 2 ^ 64 else s.bytes_written))
unfolding serialize_value get_write_head
serialize_value-contents v s h p =
    ground (arith, get_write_head_size h, contents-commit v s.buffer h)

-- What is needed to go on after a value that fits.
serialize_value-room :
    (v : Value) (s : Serializer)
    → IsValid s.buffer
    → length v ≤ room s.buffer
    → let t = serialize_value v s in IsValid t.buffer × (room t.buffer ≡ room s.buffer - length v)
unfolding serialize_value get_write_head
serialize_value-room v s h p = ground (
  arith,
  get_write_head_size h,
  room-commit v s.buffer h,
  commit-IsValid (length v) (write_at-IsValid s.buffer.head v h),
)

abbrev pub AllNonempty : List Value → Type 0
AllNonempty [] = Unit {0}
AllNonempty (v ∷ vs) = (0 < length v) × AllNonempty vs

pub serialize_values-contents :
    (vs : List Value) (s : Serializer)
    → IsValid s.buffer
    → AllNonempty vs
    → length (joined vs) ≤ room s.buffer
    → s.bytes_written + length (joined vs) < 2 ^ 64
    → let t = serialize_values vs s in
      IsValid t.buffer
      × (contents t.buffer ≡ contents s.buffer ++ joined vs)
      × (t.bytes_written ≡ s.bytes_written + length (joined vs))
unfolding serialize_values
serialize_values-contents [] s h n p q = ground (arith, append-nil (contents s.buffer))
serialize_values-contents (v ∷ vs) s h n p q = ground (
  arith,
  n,
  length-append v (joined vs),
  serialize_value-contents v s h,
  serialize_value-room v s h,
  serialize_values-contents vs (serialize_value v s),
  append_assoc (contents s.buffer) v (joined vs),
)

-- After a `reset` the counter is that of the values written since.
serialize_values-reset_serializer :
    (vs : List Value) (s : Serializer)
    → IsValid s.buffer
    → AllNonempty vs
    → length (joined vs) ≤ room s.buffer
    → let t = serialize_values vs (reset_serializer s) in
      (t.bytes_written ≡ length (joined vs)) × (contents t.buffer ≡ contents s.buffer ++ joined vs)
serialize_values-reset_serializer vs s h n p =
    let (valid, written, counted) =
      serialize_values-contents vs (reset_serializer s) h n p (omega (arith, h.small)) in
    (omega (arith, counted), written)

-- The values that are read into have the sizes of those that were written.
abbrev pub SameSizes : List Value → List Value → Type 0
SameSizes [] [] = Unit {0}
SameSizes [] (v ∷ vs) = ⊥
SameSizes (o ∷ os) [] = ⊥
SameSizes (o ∷ os) (v ∷ vs) = (length o ≡ length v) × SameSizes os vs

deserialize_value-contents :
    (o v : Value) (rest : List ℕ) (s : Deserializer)
    → IsValid s.buffer
    → 0 < length v
    → length o ≡ length v
    → contents s.buffer ≡ v ++ rest
    → let (w, t) = deserialize_value o s in
      (w ≡ v)
      × (contents t.buffer ≡ rest)
      × IsValid t.buffer
      × (t.bytes_read ≡ (s.bytes_read + length v) % 2 ^ 64)
unfolding deserialize_value get_read_head
deserialize_value-contents o v rest s h p e c = ground (
  arith,
  length-contents h,
  length-append v rest,
  ap length c,
  ap (take (length v)) c,
  ap (drop (length v)) c,
  take-append (length v) v rest refl,
  drop-append (length v) v rest refl,
  contents-consume (length v) s.buffer h,
  consume-IsValid (length v) h,
  take-take-drop (length v) s.buffer.size (drop s.buffer.tail s.buffer.buffer),
)

pub deserialize_values-contents :
    (os vs : List Value) (rest : List ℕ) (s : Deserializer)
    → IsValid s.buffer
    → AllNonempty vs
    → SameSizes os vs
    → contents s.buffer ≡ joined vs ++ rest
    → s.bytes_read + length (joined vs) < 2 ^ 64
    → let (ws, t) = deserialize_values os s in
      (ws ≡ vs)
      × (contents t.buffer ≡ rest)
      × (t.bytes_read ≡ s.bytes_read + length (joined vs))
      × IsValid t.buffer
unfolding deserialize_values
deserialize_values-contents [] [] rest s h n e c q = ground arith
deserialize_values-contents [] (v ∷ vs) rest s h n e c q = absurd e
deserialize_values-contents (o ∷ os) [] rest s h n e c q = absurd e
deserialize_values-contents (o ∷ os) (v ∷ vs) rest s h n e c q = ground (
  arith,
  n,
  e,
  length-append v (joined vs),
  append_assoc v (joined vs) rest,
  deserialize_value-contents o v (joined vs ++ rest) s h,
  deserialize_values-contents os vs rest (deserialize_value o s).1,
)

-- After a `reset` the counter is that of the values read since.
deserialize_values-reset_deserializer :
    (os vs : List Value) (rest : List ℕ) (s : Deserializer)
    → IsValid s.buffer
    → AllNonempty vs
    → SameSizes os vs
    → contents s.buffer ≡ joined vs ++ rest
    → let (ws, t) = deserialize_values os (reset_deserializer s) in
      (ws ≡ vs) × (contents t.buffer ≡ rest) × (t.bytes_read ≡ length (joined vs))
deserialize_values-reset_deserializer os vs rest s h n e c =
    let (same, left, counted, valid) =
      deserialize_values-contents os vs rest (reset_deserializer s) h n e c (
        omega (
          arith,
          h.small,
          h.filled,
          h.inside,
          length-contents h,
          ap length c,
          length-append (joined vs) rest,
        )) in
    (same, left, omega (arith, counted))

-- Values, each of at least one byte, that all fit into an empty valid buffer and are written to it are
-- read back as they were, into values of the same sizes, and the buffer is empty again; both sides
-- count the bytes of all of them.
pub deserialize_values-serialize_values :
    (vs os : List Value) (b : LinearBuffer)
    → IsValid b
    → contents b ≡ []
    → AllNonempty vs
    → SameSizes os vs
    → length (joined vs) ≤ length b.buffer - b.head
    → let s = serialize_values vs (record { buffer = b; bytes_written = 0 }) in
      let (ws, t) = deserialize_values os (record { buffer = s.buffer; bytes_read = 0 }) in
      (ws ≡ vs)
      × (contents t.buffer ≡ [])
      × (s.bytes_written ≡ length (joined vs))
      × (t.bytes_read ≡ length (joined vs))
deserialize_values-serialize_values vs os b h c n e p = ground (arith, h, written, read)
  where
    s : Serializer
    s = serialize_values vs (record { buffer = b; bytes_written = 0 })

    written :
        IsValid s.buffer
        × (contents s.buffer ≡ contents b ++ joined vs)
        × (s.bytes_written ≡ 0 + length (joined vs))
    written =
        serialize_values-contents vs (record { buffer = b; bytes_written = 0 }) h n p
          (omega (arith, h.small))

    there : contents s.buffer ≡ joined vs ++ []
    there = written.1 ∙ ap (λ r. r ++ joined vs) c ∙ sym (append-nil (joined vs))

    read :
        let (ws, t) = deserialize_values os (record { buffer = s.buffer; bytes_read = 0 }) in
        (ws ≡ vs)
        × (contents t.buffer ≡ [])
        × (t.bytes_read ≡ 0 + length (joined vs))
        × IsValid t.buffer
    read =
        deserialize_values-contents os vs [] (record { buffer = s.buffer; bytes_read = 0 })
          written.0 n e there (omega (arith, h.small))
