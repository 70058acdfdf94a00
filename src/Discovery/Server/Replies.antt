-- ===== src/Discovery/Server/Replies.antt =====
-- The table of discoverables and the replies that it gives.
use eestv_lib.Common.{
  ◌≡◌, refl, ◌∙◌, sym, ap, Bool, true, false, Option, none, some, List, [], ◌∷◌, ◌++◌, arith,
  if◌then◌else◌, append_assoc, append-nil, Option-cases, inl, inr,
}
use eestv_lib.Common.Text.{Text, text_eq, text_eq_iff, is_empty}
use eestv_lib.Flags.Laws.{set_flag_laws, clear_flag_laws}
use eestv_lib.Discovery.{running, stopping, sending_async, Endpoint}
use eestv_lib.Discovery.Server.{
  UdpDiscoveryServer, Discoverable, get_reply, find, emplace, has_flag, resolve_on_stopped,
  async_start, cancel_operations, add_discoverable, reply_to, answer, failed, request,
  handle_receive, handle_send, Event, call_start, call_stop, call_reset, call_add, run_start,
  run_cancel, run_stopped, send_done, receive_done, step, run,
}

-- The first discoverable of an identifier stays: an added one is found under its identifier exactly if
-- none was found there before, and nothing changes for any other identifier.
pub find-emplace :
    (identifier : Text) (d : Discoverable) (ds : List Discoverable)
    → find identifier (emplace d ds) ≡ (elim (find identifier ds) [
      | some e ↦ some e
      | none ↦ if text_eq identifier d.identifier then some d else none
    ])
unfolding find emplace
find-emplace identifier d [] = refl
find-emplace identifier d (e ∷ es) = ground (
  arith,
  find-emplace identifier d es,
  text_eq_iff identifier e.identifier,
  text_eq_iff identifier d.identifier,
  text_eq_iff d.identifier e.identifier,
)

-- What the first discoverable of an identifier answers to an endpoint, among all that were ever added.
abbrev pub first_reply : Text → Endpoint → List Discoverable → Option Text
first_reply identifier remote_endpoint [] = none
first_reply identifier remote_endpoint (d ∷ ds) =
    let later = first_reply identifier remote_endpoint ds in
    if text_eq identifier d.identifier then some (d.callback remote_endpoint) else later

-- A reply is sent unless it is empty.
abbrev pub sent_to : Endpoint → Option Text → List (Text × Endpoint)
sent_to remote_endpoint none = []
sent_to remote_endpoint (some []) = []
sent_to remote_endpoint (some (b ∷ bs)) = (b ∷ bs, remote_endpoint) ∷ []

-- What an event is answered with, where some discoverables were added before: only a request is, and
-- an empty one is not.
abbrev pub expected_of : Event → List Discoverable → List (Text × Endpoint)
expected_of (receive_done (request [] remote_endpoint)) added = []
expected_of (receive_done (request (b ∷ bs) remote_endpoint)) added =
    sent_to remote_endpoint (first_reply (b ∷ bs) remote_endpoint added)
expected_of e added = []

-- The discoverables that were added, those of an identifier that was there before included.
abbrev pub added_by : Event → List Discoverable → List Discoverable
added_by (call_add d) added = added ++ (d ∷ [])
added_by e added = added

abbrev pub expected : List Event → List Discoverable → List (Text × Endpoint)
expected [] added = []
expected (e ∷ es) added = expected_of e added ++ expected es (added_by e added)

-- No stop and no reset among the events.
abbrev pub keeps_serving : List Event → Bool
keeps_serving [] = true
keeps_serving (call_stop ∷ es) = false
keeps_serving (call_reset ∷ es) = false
keeps_serving (e ∷ es) = keeps_serving es

-- A server that was started and was not told to stop.
pub record Serving (s : UdpDiscoveryServer) : Type 0 where
  pub started : has_flag s running ≡ true
  pub goes_on : has_flag s stopping ≡ false
  pub no_start : s.posted_start ≡ 0
  pub one_receive : s.receives ≡ 1

-- What a discoverable that is found answers.
abbrev answer_of : Endpoint → Option Discoverable → Option Text
answer_of remote_endpoint none = none
answer_of remote_endpoint (some d) = some (d.callback remote_endpoint)

-- A table answers as the first of all that were added.
abbrev Agrees : List Discoverable → List Discoverable → Type 0
Agrees ds added =
    (identifier : Text) (remote_endpoint : Endpoint)
    → answer_of remote_endpoint (find identifier ds) ≡ first_reply identifier remote_endpoint added

find-Agrees : (ds : List Discoverable) → Agrees ds ds
unfolding find
find-Agrees [] identifier remote_endpoint = refl
find-Agrees (d ∷ ds) identifier remote_endpoint =
    ground (arith, find-Agrees ds identifier remote_endpoint)

first_reply-append :
    (identifier : Text) (remote_endpoint : Endpoint) (d : Discoverable) (ds : List Discoverable)
    → first_reply identifier remote_endpoint (ds ++ (d ∷ []))
      ≡ (elim (first_reply identifier remote_endpoint ds) [
        | some r ↦ some r
        | none ↦ if text_eq identifier d.identifier then some (d.callback remote_endpoint) else none
      ])
first_reply-append identifier remote_endpoint d [] = refl
first_reply-append identifier remote_endpoint d (e ∷ es) =
    ground (arith, first_reply-append identifier remote_endpoint d es)

emplace-Agrees :
    (d : Discoverable) (ds added : List Discoverable)
    → Agrees ds added
    → Agrees (emplace d ds) (added ++ (d ∷ []))
emplace-Agrees d ds added h identifier remote_endpoint = elim (Option-cases (find identifier ds)) [
  | inl e ↦ ground (
    arith,
    e,
    h identifier remote_endpoint,
    find-emplace identifier d ds,
    first_reply-append identifier remote_endpoint d added,
  )
  | inr (found, e) ↦ ground (
    arith,
    e,
    h identifier remote_endpoint,
    find-emplace identifier d ds,
    first_reply-append identifier remote_endpoint d added,
  )
]

sent_to-some :
    (remote_endpoint : Endpoint) (reply : Text)
    → sent_to remote_endpoint (some reply)
      ≡ (if is_empty reply then [] else (reply, remote_endpoint) ∷ [])
sent_to-some remote_endpoint [] = refl
sent_to-some remote_endpoint (b ∷ bs) = refl

-- One event, in a server that serves.
abbrev Answers : Event → List Discoverable → UdpDiscoveryServer → Type 0
Answers e added s =
    let t = step e s in
    Serving t
    × (t.replies ≡ s.replies ++ expected_of e added)
    × Agrees t.discoverables (added_by e added)

request-Answers :
    (bytes : Text) (remote_endpoint : Endpoint) (added : List Discoverable) (s : UdpDiscoveryServer)
    → Serving s
    → Agrees s.discoverables added
    → Answers (receive_done (request bytes remote_endpoint)) added s
unfolding step handle_receive answer reply_to get_reply
request-Answers [] remote_endpoint added s v h =
    (ground (arith, v), ground (arith, v, append-nil s.replies), ground (arith, v, h))
request-Answers (b ∷ bs) remote_endpoint added s v h =
    let flags = set_flag_laws s.flags sending_async (omega arith) in
    elim (Option-cases (find (b ∷ bs) s.discoverables)) [
      | inl e ↦ (
        ground (arith, v, e),
        ground (arith, v, e, h (b ∷ bs) remote_endpoint, append-nil s.replies),
        ground (arith, v, e, h),
      )
      | inr (d, e) ↦ (
        ground (arith, v, e, flags),
        ground (
          arith,
          v,
          e,
          flags,
          h (b ∷ bs) remote_endpoint,
          sent_to-some remote_endpoint (d.callback remote_endpoint),
          append-nil s.replies,
        ),
        ground (arith, v, e, flags, h),
      )
    ]

step-Answers :
    (e : Event) (added : List Discoverable) (s : UdpDiscoveryServer)
    → keeps_serving (e ∷ []) ≡ true
    → Serving s
    → Agrees s.discoverables added
    → Answers e added s
unfolding step async_start cancel_operations add_discoverable handle_receive answer handle_send
    resolve_on_stopped
step-Answers call_stop added s k v h = absurd (ground arith)
step-Answers call_reset added s k v h = absurd (ground arith)
step-Answers call_start added s k v h = ground (arith, v, h, append-nil s.replies)
step-Answers run_start added s k v h = ground (arith, v, h, append-nil s.replies)
step-Answers run_cancel added s k v h = ground (arith, v, h, append-nil s.replies)
step-Answers run_stopped added s k v h = ground (arith, v, h, append-nil s.replies)
step-Answers (call_add d) added s k v h =
    (ground (arith, v), sym (append-nil s.replies), emplace-Agrees d s.discoverables added h)
step-Answers (send_done error) added s k v h =
    ground (arith, v, h, append-nil s.replies, clear_flag_laws s.flags sending_async (omega arith))
step-Answers (receive_done failed) added s k v h = ground (arith, v, h, append-nil s.replies)
step-Answers (receive_done (request bytes remote_endpoint)) added s k v h =
    request-Answers bytes remote_endpoint added s v h

run-Answers :
    (es : List Event) (added : List Discoverable) (s : UdpDiscoveryServer)
    → keeps_serving es ≡ true
    → Serving s
    → Agrees s.discoverables added
    → Serving (run es s) × ((run es s).replies ≡ s.replies ++ expected es added)
unfolding run
run-Answers [] added s k v h = (v, sym (append-nil s.replies))
run-Answers (e ∷ es) added s k v h =
    let (kept, sent, table) = step-Answers e added s (first e k) v h in
    let (still, later) = run-Answers es (added_by e added) (step e s) (rest e k) kept table in
    (
      still,
      later
          ∙ ap (λ r. r ++ expected es (added_by e added)) sent
          ∙ append_assoc s.replies (expected_of e added) (expected es (added_by e added)),
    )
  where
    first : (e : Event) → keeps_serving (e ∷ es) ≡ true → keeps_serving (e ∷ []) ≡ true
    first call_stop k = k
    first call_reset k = k
    first call_start k = refl
    first run_start k = refl
    first run_cancel k = refl
    first run_stopped k = refl
    first (call_add d) k = refl
    first (send_done error) k = refl
    first (receive_done received) k = refl

    rest : (e : Event) → keeps_serving (e ∷ es) ≡ true → keeps_serving es ≡ true
    rest call_stop k = absurd (ground arith)
    rest call_reset k = absurd (ground arith)
    rest call_start k = k
    rest run_start k = k
    rest run_cancel k = k
    rest run_stopped k = k
    rest (call_add d) k = k
    rest (send_done error) k = k
    rest (receive_done received) k = k

-- Every request is answered: over any events without a stop and a reset, on a server that was started,
-- was not told to stop, and has no start posted and one receive outstanding, each request that is not
-- empty is answered, in order and to whom it came from, with what the first discoverable of its
-- identifier says, of those the server had and all that were added before the request, if there is one
-- and it says something; nothing else is sent, whatever receives and sends fail; and the server
-- receives on.
pub run-replies :
    (es : List Event) (s : UdpDiscoveryServer)
    → keeps_serving es ≡ true
    → Serving s
    → ((run es s).replies ≡ s.replies ++ expected es s.discoverables) × ((run es s).receives ≡ 1)
run-replies es s k v =
    let (still, sent) = run-Answers es s.discoverables s k v (find-Agrees s.discoverables) in
    (sent, still.one_receive)
