-- ===== src/Serial/Multiplex/Delivery.antt =====
-- What arrives of a multiplexed value.
use eestv_lib.Common.{
  ℕ, zero, suc, ◌+◌, ◌-◌, ◌*◌, ◌/◌, ◌%◌, ◌≤◌, ◌<◌, ◌≡◌, refl, sym, ap, ◌∙◌, true, none, some, List,
  [], ◌∷◌, ◌++◌, arith, length, take, drop, get_elem?, append-nil, length-append,
}
use eestv_lib.LinearBuffer.{LinearBuffer, get_read_head, consume}
use eestv_lib.LinearBuffer.Invariant.{IsValid, consume-IsValid}
use eestv_lib.LinearBuffer.Contents.{contents, contents-consume, length-contents}
use eestv_lib.LinearBuffer.Refine.{take-take-drop}
use eestv_lib.Serial.{Value, Deserializer, deserialize_value, deserialize_values}
use eestv_lib.Serial.RoundTrip.{joined, AllNonempty, SameSizes, deserialize_values-contents}
use eestv_lib.Serial.Multiplex.{
  max_payload_size, mux_serialize, read_header, deserialize_type, deserialize_by_index,
  demux_deserialize,
}
use eestv_lib.Serial.Multiplex.Frame.{mux_serialize-contents, mux_serialize-truncated}

-- The type that an index stands for is the one that the fold finds.
pub deserialize_by_index-get_elem? :
    (types : List (List Value)) (i n : ℕ) (members : List Value) (b : LinearBuffer)
    → get_elem? types i ≡ some members
    → (deserialize_by_index types i n b ≡ deserialize_type members n b) × (i < length types)
unfolding deserialize_by_index
deserialize_by_index-get_elem? [] i n members b h = ground (arith, h)
deserialize_by_index-get_elem? (m ∷ types) zero n members b h = ground (arith, h)
deserialize_by_index-get_elem? (m ∷ types) (suc i) n members b h =
    let (same, known) = deserialize_by_index-get_elem? types i n members b h in
    (same, omega (arith, known))

-- A header at the front is read and taken off.
pub read_header-contents :
    (i x y : ℕ) (rest : List ℕ) (b : LinearBuffer)
    → IsValid b
    → contents b ≡ i ∷ x ∷ y ∷ rest
    → (read_header b ≡ ((consume 3 b).0, some (i, x + y * 256)))
      × (contents (consume 3 b).0 ≡ rest)
      × IsValid (consume 3 b).0
unfolding read_header get_read_head
read_header-contents i x y rest b h c =
    let size : 3 ≤ b.size = omega (arith, length-contents h, ap length c) in
    let front : take 3 (drop b.tail b.buffer) ≡ i ∷ x ∷ y ∷ [] =
      sym (take-take-drop 3 b.size (drop b.tail b.buffer) size) ∙ ap (take 3) c in
    let behind : drop 3 (contents b) ≡ rest = ap (drop 3) c in
    ground (arith, front, behind, contents-consume 3 b h, consume-IsValid 3 h)

-- A payload of the announced size is read as the value that it was; what follows it is left.
deserialize_type-contents :
    (members vs : List Value) (rest : List ℕ) (n : ℕ) (b : LinearBuffer)
    → IsValid b
    → AllNonempty vs
    → SameSizes members vs
    → contents b ≡ joined vs ++ rest
    → n ≡ length (joined vs)
    → ((deserialize_type members n b).1 ≡ some vs)
      × (contents (deserialize_type members n b).0 ≡ rest)
      × IsValid (deserialize_type members n b).0
unfolding deserialize_type get_read_head
deserialize_type-contents members vs rest n b h a e c k =
    let last : Deserializer =
      (deserialize_values members (record { buffer = b; bytes_read = 0 })).1 in
    let sizes : b.size ≡ length (joined vs) + length rest =
      omega (arith, length-contents h, ap length c, length-append (joined vs) rest) in
    let done =
      deserialize_values-contents members vs rest (record { buffer = b; bytes_read = 0 }) h a e c
        (omega (arith, h.small, sizes, h.filled, h.inside)) in
    let left : last.buffer.size ≡ length rest =
      omega (arith, length-contents {b = last.buffer} done.3, ap length done.1) in
    ground (arith, done, left, sizes)

-- A value as it stands in the buffer: the index of its type, its size, the lower byte first, and the
-- bytes of its members.
abbrev pub frame : ℕ → List Value → List ℕ
frame i vs = i ∷ length (joined vs) % 256 ∷ length (joined vs) / 256 % 256 ∷ joined vs

-- The frame in front is taken off, and its value is what it was.
pub demux_deserialize-frame :
    (types : List (List Value)) (i : ℕ) (members vs : List Value) (rest : List ℕ) (b : LinearBuffer)
    → IsValid b
    → contents b ≡ frame i vs ++ rest
    → get_elem? types i ≡ some members
    → AllNonempty vs
    → SameSizes members vs
    → length (joined vs) ≤ max_payload_size
    → let (last, received) = demux_deserialize types b in
      (received ≡ some (i, vs)) × (contents last ≡ rest) × IsValid last
unfolding demux_deserialize get_read_head
demux_deserialize-frame types i members vs rest b h c g a e q =
    let n = length (joined vs) in
    let (header, left, behind) =
      read_header-contents i (n % 256) (n / 256 % 256) (joined vs ++ rest) b h c in
    let size : n % 256 + n / 256 % 256 * 256 ≡ n = omega arith in
    let held : (consume 3 b).0.size ≡ n + length rest =
      omega (arith, length-contents behind, ap length left, length-append (joined vs) rest) in
    let read = deserialize_type-contents members vs rest n (consume 3 b).0 behind a e left refl in
    ground (
      arith,
      header,
      size,
      held,
      read,
      deserialize_by_index-get_elem? types i n members (consume 3 b).0 g,
    )

-- A value, of members of at least one byte each and of fewer than 2 ^ 16 in all, that is multiplexed
-- into an empty valid buffer with room for it and its header, arrives: a demultiplexer to which the
-- index stands for a type with members of these sizes yields the index and the value, and leaves the
-- buffer empty; both sides report success.
pub demux_deserialize-mux_serialize :
    (types : List (List Value)) (i : ℕ) (members vs : List Value) (b : LinearBuffer)
    → IsValid b
    → contents b ≡ []
    → get_elem? types i ≡ some members
    → AllNonempty vs
    → SameSizes members vs
    → 3 + length (joined vs) ≤ length b.buffer - b.head
    → length (joined vs) ≤ max_payload_size
    → let (t, done) = mux_serialize i vs b in
      let (last, received) = demux_deserialize types t in
      (done ≡ true) × (received ≡ some (i, vs)) × (contents last ≡ [])
demux_deserialize-mux_serialize types i members vs b h c g a e p q =
    let (sent, there, valid) = mux_serialize-contents i vs b h a p q in
    let (received, left, last) =
      demux_deserialize-frame types i members vs [] (mux_serialize i vs b).0 valid
        (there ∙ ap (λ r. r ++ frame i vs) c ∙ sym (append-nil (frame i vs))) g a e q in
    (sent, received, left)

-- A value that is cut off arrives as a default: where a valid empty buffer has room for the header but
-- not for the one member behind it, both sides report success all the same, and a demultiplexer to
-- which the index stands for a type of one member yields the value-initialised object of that type.
pub demux_deserialize-truncated :
    (types : List (List Value)) (i : ℕ) (member v : Value) (b : LinearBuffer)
    → IsValid b
    → contents b ≡ []
    → get_elem? types i ≡ some (member ∷ [])
    → 3 ≤ length b.buffer - b.head
    → length b.buffer - b.head < 3 + length v
    → let (t, done) = mux_serialize i (v ∷ []) b in
      let (last, received) = demux_deserialize types t in
      (done ≡ true) × (received ≡ some (i, member ∷ [])) × (contents last ≡ [])
unfolding demux_deserialize get_read_head deserialize_type deserialize_values deserialize_value
demux_deserialize-truncated types i member v b h c g p q =
    let (sent, frame, valid) = mux_serialize-truncated i v b h p q in
    let t : LinearBuffer = (mux_serialize i (v ∷ []) b).0 in
    let (header, rest, behind) =
      read_header-contents i 0 0 [] t valid (frame ∙ ap (λ r. r ++ (i ∷ 0 ∷ 0 ∷ [])) c) in
    let held : (consume 3 t).0.size ≡ 0 = omega (arith, length-contents behind, ap length rest) in
    ground (
      arith,
      sent,
      header,
      held,
      rest,
      deserialize_by_index-get_elem? types i 0 (member ∷ []) (consume 3 t).0 g,
    )

-- A frame that has not arrived whole is lost: where a valid buffer holds a header for a type that the
-- demultiplexer knows and less behind it than the header announces, it reports failure but takes the
-- header off, so that the next call reads its header from what has arrived of the payload.
pub demux_deserialize-early :
    (types : List (List Value)) (i x y : ℕ) (members : List Value) (rest : List ℕ)
    (b : LinearBuffer)
    → IsValid b
    → contents b ≡ i ∷ x ∷ y ∷ rest
    → get_elem? types i ≡ some members
    → length rest < x + y * 256
    → ((demux_deserialize types b).1 ≡ none) × (contents (demux_deserialize types b).0 ≡ rest)
unfolding demux_deserialize get_read_head
demux_deserialize-early types i x y members rest b h c g p =
    let (header, left, behind) = read_header-contents i x y rest b h c in
    let held : (consume 3 b).0.size ≡ length rest =
      omega (arith, length-contents behind, ap length left) in
    ground (
      arith,
      header,
      held,
      left,
      deserialize_by_index-get_elem? types i (x + y * 256) members (consume 3 b).0 g,
    )
