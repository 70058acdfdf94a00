-- ===== src/Bridge/Destroy.antt =====
-- The destructor of the bridge: it stops its members, one after the other, and waits for each.
use eestv_lib.Common.{
  ℕ, ◌≡◌, refl, sym, ◌∙◌, Bool, true, false, Option, none, some, List, [], ◌∷◌, arith, Option-cases,
  inl, inr, drop, length, ◌>>=◌, subst,
}
use eestv_lib.Common.Text.{Text}
use eestv_lib.Common.Dict.{Dict, lookup, insert}
use eestv_lib.BlockingStop.{Stoppable, stop, stop-none, AllEvents}
use eestv_lib.Discovery.{running, stopping}
use eestv_lib.Discovery.Client as Asking
use eestv_lib.Discovery.Client.Stop.{Hung, IsNoReset, outstanding, step-Hung, idle_stop-Hung}
use eestv_lib.Discovery.Client.Order.{RequestInv}
use eestv_lib.Discovery.Server as Answering
use eestv_lib.TcpServer as Accepting
use eestv_lib.TcpClient as Connecting
use eestv_lib.DiscoveryString.{parse}
use eestv_lib.Bridge.{
  Bridge, Attempt, on_peer_discovered, on_discovery_response, on_responses, connecting_step, Event,
  step, run, asking, answering, accepting, connecting, asker, at_moment, asking_step,
  answering_step, accepting_step, on_disvovered, on_accept,
}

-- `async_stop` of each member.
abbrev pub stop_discovery_client : Bridge → Bridge × Bool
stop_discovery_client b =
    let (c, accepted) = Asking.async_stop b.discovery_client in
    (record b { discovery_client = c }, accepted)

abbrev pub stop_discovery_server : Bridge → Bridge × Bool
stop_discovery_server b =
    let (s, accepted) = Answering.async_stop b.discovery_server in
    (record b { discovery_server = s }, accepted)

abbrev pub stop_tcp_server : Bridge → Bridge × Bool
stop_tcp_server b =
    let (s, accepted) = Accepting.async_stop b.tcp_server in (record b { tcp_server = s }, accepted)

abbrev pub stop_connecting_client : Text → Bridge → Bridge × Bool
stop_connecting_client key b = elim (lookup key b.connecting_clients) [
  | none ↦ (b, false)
  | some attempt ↦
      let (c, accepted) = Connecting.async_stop attempt.client in
      (
        record b {
          connecting_clients = insert key (record attempt { client = c }) b.connecting_clients;
        },
        accepted,
      )
]

-- The stops of a client, as far as it is there.
abbrev pub count_of : (Connecting.Client → ℕ) → Option Attempt → ℕ
count_of f none = 0
count_of f (some attempt) = f attempt.client

module _ {Address : Type 0} (make_address : Text → Option Address) where
  abbrev pub run_nothing : (b : Bridge) → run make_address [] b ≡ b
  unfolding run
  run_nothing b = refl

  abbrev pub run_more :
      (e : Event) (es : List Event) (b : Bridge)
      → run make_address (e ∷ es) b ≡ run make_address es (step make_address e b)
  unfolding run
  run_more e es b = refl

  -- A member that stops while the bridge's events go on, with its stops and their callbacks.
  abbrev pub member :
      (Bridge → Bridge × Bool) → (Bridge → ℕ) → (Bridge → ℕ) → Stoppable Bridge Event
  member async_stop stops stopped_calls = record {
    async_stop = async_stop;
    step = step make_address;
    run = run make_address;
    stops = stops;
    stopped_calls = stopped_calls;
    run-nil = run_nothing;
    run-cons = run_more;
  }

  abbrev pub discovery_client_member : Stoppable Bridge Event
  discovery_client_member =
      member stop_discovery_client (λ b. b.discovery_client.stops)
        (λ b. b.discovery_client.stopped_calls)

  abbrev pub discovery_server_member : Stoppable Bridge Event
  discovery_server_member =
      member stop_discovery_server (λ b. b.discovery_server.stops)
        (λ b. b.discovery_server.stopped_calls)

  abbrev pub tcp_server_member : Stoppable Bridge Event
  tcp_server_member = member stop_tcp_server (λ b. 1) (λ b. b.tcp_server.stopped_calls)

  abbrev pub connecting_client_member : Text → Stoppable Bridge Event
  connecting_client_member key =
      member (stop_connecting_client key)
        (λ b. count_of (λ c. c.stops) (lookup key b.connecting_clients))
        (λ b. count_of (λ c. c.stopped_calls) (lookup key b.connecting_clients))

  -- The loop over `_connecting_clients`, with what happens during the stop of each.
  unfoldable pub stop_clients : Bool → (Text → List Event) → Dict Attempt → Bridge → Option Bridge
  stop_clients is_on_io_thread events [] b = some b
  stop_clients is_on_io_thread events ((key, attempt) ∷ rest) b = do
    b ← stop (connecting_client_member key) is_on_io_thread (events key) b
    stop_clients is_on_io_thread events rest b

  -- `Bridge::~Bridge`, with the events during each stop; nothing where it does not return.
  unfoldable pub destroy :
      Bool → List Event → List Event → List Event → (Text → List Event) → Bridge → Option Bridge
  destroy is_on_io_thread while_client while_server while_tcp while_connecting b = do
    b ← stop discovery_client_member is_on_io_thread while_client b
    b ← stop discovery_server_member is_on_io_thread while_server b
    b ← stop tcp_server_member is_on_io_thread while_tcp b
    stop_clients is_on_io_thread while_connecting b.connecting_clients b

  -- The destructor on the thread of the handlers stops nothing: no member is stopped and none is waited
  -- for before they are destroyed.
  stop_clients-io :
      (events : Text → List Event) (clients : Dict Attempt) (b : Bridge)
      → stop_clients true events clients b ≡ some b
  unfolding stop_clients stop
  stop_clients-io events [] b = refl
  stop_clients-io events ((key, attempt) ∷ rest) b = stop_clients-io events rest b

  pub destroy-io :
      (while_client while_server while_tcp : List Event) (while_connecting : Text → List Event)
      (b : Bridge)
      → destroy true while_client while_server while_tcp while_connecting b ≡ some b
  unfolding destroy stop
  destroy-io while_client while_server while_tcp while_connecting b =
      stop_clients-io while_connecting b.connecting_clients b

  -- The discovery client is only moved on by its own events.
  on_responses-client :
      (responses : List Text) (b : Bridge)
      → (on_responses make_address responses b).discovery_client ≡ b.discovery_client
  unfolding on_discovery_response on_peer_discovered
  on_responses-client [] b = refl
  on_responses-client (response ∷ rest) b =
      on_responses-client rest (on_discovery_response make_address response b).0
      ∙ elim (Option-cases (parse make_address response)) [
        | inl e ↦ ground (arith, e)
        | inr (info, e) ↦ ground (arith, e)
      ]

  -- What the bridge never does: it does not reset its discovery client.
  abbrev pub LeavesClient : Event → Type 0
  LeavesClient (asking e) = IsNoReset e
  LeavesClient e = Unit {0}

  -- The discovery client hangs, with its callbacks as they were.
  abbrev HangsAt : ℕ → Bridge → Type 0
  HangsAt calls b = Hung b.discovery_client × (b.discovery_client.stopped_calls ≡ calls)

  step-HangsAt :
      (calls : ℕ) (e : Event) (b : Bridge)
      → LeavesClient e
      → HangsAt calls b
      → HangsAt calls (step make_address e b)
  unfolding step asking_step answering_step accepting_step connecting_step on_accept on_disvovered
  step-HangsAt calls (asking e) b q (v, same) =
      let next = Asking.step e b.discovery_client in
      let (kept, calls_kept) = step-Hung e b.discovery_client q v in
      subst (λ c. Hung c × (c.stopped_calls ≡ calls))
        (sym (
          on_responses-client (drop (length b.discovery_client.responses) next.responses)
            (record b { discovery_client = next })))
        (kept, calls_kept ∙ same)
  step-HangsAt calls (answering m e) b q v =
      elim (Option-cases (
        asker e (record b.discovery_server {
          discoverables = at_moment m b b.discovery_server.discoverables;
        }))) [
          | inl nobody ↦ ground (arith, nobody, v)
          | inr (remote, found) ↦ ground (arith, found, v)
        ]
  step-HangsAt calls (accepting remote e) b q v = ground (arith, v)
  step-HangsAt calls (connecting key e) b q v =
      elim (Option-cases (lookup key b.connecting_clients)) [
        | inl none_there ↦ ground (arith, none_there, v)
        | inr (attempt, found) ↦ ground (arith, found, v)
      ]

  -- The destructor of a bridge whose discovery client has come to an end never returns: where the
  -- requests of that client are in order, it runs, is not stopping, and has no posted start, send, wait
  -- or receive outstanding and no stop callback posted, the destructor, called from another thread than
  -- the handlers', still spins in its first stop after whatever events but a `reset` of that client.
  pub destroy-hangs :
      (while_client while_server while_tcp : List Event) (while_connecting : Text → List Event)
      (b : Bridge)
      → RequestInv b.discovery_client
      → Asking.has_flag b.discovery_client running ≡ true
      → Asking.has_flag b.discovery_client stopping ≡ false
      → outstanding b.discovery_client ≡ 0
      → b.discovery_client.posted_stopped ≡ 0
      → AllEvents LeavesClient while_client
      → destroy false while_client while_server while_tcp while_connecting b ≡ none
  unfolding destroy
  destroy-hangs while_client while_server while_tcp while_connecting b v r s o p q =
      let (accepted, hung, calls, stops) = idle_stop-Hung b.discovery_client r s o p in
      rw
        (stop-none discovery_client_member (HangsAt b.discovery_client.stopped_calls) LeavesClient
          while_client b (step-HangsAt b.discovery_client.stopped_calls) accepted
          (λ t w. ground (arith, v, stops, w)) q (hung, calls))
        refl
