-- ===== src/Serial/Multiplex/Channel.antt =====
-- A multiplexer and a demultiplexer on one buffer are a queue of values.
use eestv_lib.Common.{
  ℕ, ◌+◌, ◌-◌, ◌≤◌, ◌<◌, ◌≡◌, sym, ap, ◌∙◌, Bool, true, false, Option, none, some, List, [], ◌∷◌,
  ◌++◌, arith, length, get_elem?, append_assoc, append-nil, ◌⊎◌, inl, inr, subst,
}
use eestv_lib.LinearBuffer.{LinearBuffer, get_write_head, get_read_head}
use eestv_lib.LinearBuffer.Invariant.{IsValid, get_write_head_size}
use eestv_lib.LinearBuffer.Contents.{contents, length-contents}
use eestv_lib.Serial.{Value}
use eestv_lib.Serial.RoundTrip.{joined, AllNonempty, SameSizes}
use eestv_lib.Serial.Multiplex.{max_payload_size, mux_serialize, read_header, demux_deserialize}
use eestv_lib.Serial.Multiplex.Frame.{mux_serialize-contents}
use eestv_lib.Serial.Multiplex.Delivery.{frame, demux_deserialize-frame}

-- The index of a type and a value of it.
abbrev pub Message : Type 0
Message = ℕ × List Value

pub data Call : Type 0 where
  serialize : Message → Call
  deserialize : Call

pub data Reply : Type 0 where
  serialized : Bool → Reply
  deserialized : Option Message → Reply

-- The calls of a client, in any order, and what each returns.
unfoldable pub channel_run : List (List Value) → LinearBuffer → List Call → List Reply
channel_run types b [] = []
channel_run types b (serialize (i, vs) ∷ calls) =
    let (next, done) = mux_serialize i vs b in serialized done ∷ channel_run types next calls
channel_run types b (deserialize ∷ calls) =
    let (next, received) = demux_deserialize types b in
    deserialized received ∷ channel_run types next calls

-- What a queue of messages may answer: a message is accepted and queued or refused and forgotten; the
-- oldest is taken, and nothing if there is none.
pub data Serves : List Message → List Call → List Reply → Type 0 where
  finished : {queue : List Message} → Serves queue [] []
  accepted :
      {queue : List Message} {m : Message} {calls : List Call} {replies : List Reply}
      → Serves (queue ++ (m ∷ [])) calls replies
      → Serves queue (serialize m ∷ calls) (serialized true ∷ replies)
  refused :
      {queue : List Message} {m : Message} {calls : List Call} {replies : List Reply}
      → Serves queue calls replies
      → Serves queue (serialize m ∷ calls) (serialized false ∷ replies)
  taken :
      {queue : List Message} {m : Message} {calls : List Call} {replies : List Reply}
      → Serves queue calls replies
      → Serves (m ∷ queue) (deserialize ∷ calls) (deserialized (some m) ∷ replies)
  idle :
      {calls : List Call} {replies : List Reply}
      → Serves [] calls replies
      → Serves [] (deserialize ∷ calls) (deserialized none ∷ replies)

-- A message of one of the types: its members have the sizes that the type's have, each at least one
-- byte, and its size can be written in two bytes.
abbrev pub IsMessage : List (List Value) → Message → Type 0
IsMessage types (i, vs) =
    (members : List Value) × (get_elem? types i ≡ some members)
    × AllNonempty vs
    × SameSizes members vs
    × (length (joined vs) ≤ max_payload_size)

-- A message finds room for all of it, or not even for its header.
abbrev pub IsWhole : Message → LinearBuffer → Type 0
IsWhole (i, vs) b =
    (3 + length (joined vs) ≤ length b.buffer - b.head) ⊎ (length b.buffer - b.head < 3)

-- The messages of a run are of its types, and none is cut off.
abbrev pub AllWhole : List (List Value) → LinearBuffer → List Call → Type 0
AllWhole types b [] = Unit {0}
AllWhole types b (serialize (i, vs) ∷ calls) =
    IsMessage types (i, vs) × IsWhole (i, vs) b × AllWhole types (mux_serialize i vs b).0 calls
AllWhole types b (deserialize ∷ calls) = AllWhole types (demux_deserialize types b).0 calls

abbrev AllMessages : List (List Value) → List Message → Type 0
AllMessages types [] = Unit {0}
AllMessages types (m ∷ queue) = IsMessage types m × AllMessages types queue

-- The bytes of the queued messages.
abbrev frames : List Message → List ℕ
frames [] = []
frames ((i, vs) ∷ queue) = frame i vs ++ frames queue

frames-append :
    (queue : List Message) (i : ℕ) (vs : List Value)
    → frames (queue ++ ((i, vs) ∷ [])) ≡ frames queue ++ frame i vs
frames-append [] i vs = append-nil (frame i vs)
frames-append ((j, ws) ∷ queue) i vs =
    ap (λ r. frame j ws ++ r) (frames-append queue i vs)
    ∙ sym (append_assoc (frame j ws) (frames queue) (frame i vs))

AllMessages-append :
    (types : List (List Value)) (queue : List Message) (m : Message)
    → AllMessages types queue
    → IsMessage types m
    → AllMessages types (queue ++ (m ∷ []))
AllMessages-append types [] m all h = (h, tt)
AllMessages-append types (x ∷ queue) m all h = (all.0, AllMessages-append types queue m all.1 h)

mux_serialize-refused :
    (i : ℕ) (vs : List Value) (b : LinearBuffer)
    → IsValid b
    → length b.buffer - b.head < 3
    → mux_serialize i vs b ≡ (b, false)
unfolding mux_serialize get_write_head
mux_serialize-refused i vs b h p = ground (arith, get_write_head_size h)

demux_deserialize-empty :
    (types : List (List Value)) (b : LinearBuffer)
    → IsValid b
    → contents b ≡ []
    → demux_deserialize types b ≡ (b, none)
unfolding demux_deserialize read_header get_read_head
demux_deserialize-empty types b h c = ground (arith, length-contents h, ap length c)

serves :
    (types : List (List Value)) (queue : List Message) (b : LinearBuffer) (calls : List Call)
    → IsValid b
    → contents b ≡ frames queue
    → AllMessages types queue
    → AllWhole types b calls
    → Serves queue calls (channel_run types b calls)
unfolding channel_run
serves types queue b [] h c all w = finished
serves types queue b (serialize (i, vs) ∷ calls) h c all (m, inl fits, w) =
    let (members, known, nonempty, same, small) = m in
    let (done, there, valid) = mux_serialize-contents i vs b h nonempty fits small in
    rw done (
      accepted (
        serves types (queue ++ ((i, vs) ∷ [])) (mux_serialize i vs b).0 calls valid
          (there ∙ ap (λ r. r ++ frame i vs) c ∙ sym (frames-append queue i vs))
          (AllMessages-append types queue (i, vs) all m) w))
serves types queue b (serialize (i, vs) ∷ calls) h c all (m, inr full, w) =
    let e = mux_serialize-refused i vs b h full in
    rw e (refused (serves types queue b calls h c all (subst (λ r. AllWhole types r.0 calls) e w)))
serves types [] b (deserialize ∷ calls) h c all w =
    let e = demux_deserialize-empty types b h c in
    rw e (idle (serves types [] b calls h c all (subst (λ r. AllWhole types r.0 calls) e w)))
serves types ((i, vs) ∷ queue) b (deserialize ∷ calls) h c all w =
    let (members, known, nonempty, same, small) = all.0 in
    let (received, left, valid) =
      demux_deserialize-frame types i members vs (frames queue) b h c known nonempty same small in
    rw received (taken (serves types queue (demux_deserialize types b).0 calls valid left all.1 w))

-- Calls on an empty valid buffer, in any order, answer as a queue of messages, if each message is of one
-- of the types, with members of the type's sizes, of at least one byte each and of fewer than 2 ^ 16
-- in all, and finds room for all of it or not even for its header: what is accepted is received in that
-- order, once, with its type and as it was; what is refused is never received.
pub channel_run-Serves :
    (types : List (List Value)) (b : LinearBuffer) (calls : List Call)
    → IsValid b
    → contents b ≡ []
    → AllWhole types b calls
    → Serves [] calls (channel_run types b calls)
channel_run-Serves types b calls h c w = serves types [] b calls h c tt w
