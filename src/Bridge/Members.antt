-- ===== src/Bridge/Members.antt =====
-- The members of a bridge run as they do by themselves.
use eestv_lib.Common.{
  ℕ, ◌+◌, ◌≡◌, refl, ap, ◌∙◌, Option, some, List, [], ◌∷◌, arith, Option-cases, inl, inr, drop,
  length, if◌then◌else◌, Bool-cases,
}
use eestv_lib.Common.Text.{Text, text_eq, text_eq_iff}
use eestv_lib.Common.Dict.{lookup, lookup-insert}
use eestv_lib.TcpClient as Connecting
use eestv_lib.TcpClient.Stop.{stops_called, AllAllowed, connects_accounted}
use eestv_lib.TcpServer as Accepting
use eestv_lib.Discovery.Client as Asking
use eestv_lib.DiscoveryString.{DiscoveryInfo, parse}
use eestv_lib.Bridge.{
  Bridge, Attempt, on_peer_discovered, on_discovery_response, on_responses, connecting_step, Event,
  step, run, asking, answering, accepting, connecting, asker, at_moment, asking_step,
  answering_step, accepting_step, on_disvovered, on_accept,
}
use eestv_lib.Bridge.Discovered.{attempt_at, on_peer_discovered_lem, on_peer_discovered-lookup}

-- The events of the server, of the discovery client and of the client with a key.
abbrev pub accepting_events : List Event → List Accepting.Event
accepting_events [] = []
accepting_events (accepting remote e ∷ es) = e ∷ accepting_events es
accepting_events (e ∷ es) = accepting_events es

abbrev pub asking_events : List Event → List Asking.Event
asking_events [] = []
asking_events (asking e ∷ es) = e ∷ asking_events es
asking_events (e ∷ es) = asking_events es

abbrev pub connecting_events : Text → List Event → List Connecting.Event
connecting_events k [] = []
connecting_events k (connecting key e ∷ es) =
    let rest = connecting_events k es in if text_eq k key then e ∷ rest else rest
connecting_events k (e ∷ es) = connecting_events k es

abbrev moved : List Connecting.Event → Attempt → Attempt
moved es a = record a { client = Connecting.run es a.client }

on_peer_discovered-members :
    {A : Type 0} (info : DiscoveryInfo A) (b : Bridge)
    → ((on_peer_discovered info b).tcp_server ≡ b.tcp_server)
      × ((on_peer_discovered info b).discovery_client ≡ b.discovery_client)
on_peer_discovered-members info b = ground (arith, on_peer_discovered_lem info b)

module _ {Address : Type 0} (make_address : Text → Option Address) where
  abbrev Keeps : Text → Attempt → Bridge → Bridge → Type 0
  Keeps k a b c =
      (c.tcp_server ≡ b.tcp_server)
      × (c.discovery_client ≡ b.discovery_client)
      × (lookup k b.connecting_clients ≡ some a → lookup k c.connecting_clients ≡ some a)

  on_discovery_response-Keeps :
      (k : Text) (a : Attempt) (response : Text) (b : Bridge)
      → Keeps k a b (on_discovery_response make_address response b).0
  unfolding on_discovery_response
  on_discovery_response-Keeps k a response b = elim (Option-cases (parse make_address response)) [
    | inl e ↦ ground (arith, e)
    | inr (info, e) ↦
        ground (arith, e, on_peer_discovered-members info b, on_peer_discovered-lookup k a info b)
  ]

  on_responses-Keeps :
      (k : Text) (a : Attempt) (responses : List Text) (b : Bridge)
      → Keeps k a b (on_responses make_address responses b)
  on_responses-Keeps k a [] b = (refl, refl, λ h. h)
  on_responses-Keeps k a (r ∷ rest) b =
      let (server, client, attempt) = on_discovery_response-Keeps k a r b in
      let (server', client', attempt') =
        on_responses-Keeps k a rest (on_discovery_response make_address r b).0 in
      (server' ∙ server, client' ∙ client, λ h. attempt' (attempt h))

  -- One event moves each member by its own events.
  abbrev Moves : Text → Attempt → Event → Bridge → Type 0
  Moves k a e b =
      let c = step make_address e b in
      (c.tcp_server ≡ Accepting.run (accepting_events (e ∷ [])) b.tcp_server)
      × (c.discovery_client ≡ Asking.run (asking_events (e ∷ [])) b.discovery_client)
      × (lookup k b.connecting_clients ≡ some a
          → lookup k c.connecting_clients ≡ some (moved (connecting_events k (e ∷ [])) a))

  step-Moves : (k : Text) (a : Attempt) (e : Event) (b : Bridge) → Moves k a e b
  unfolding step asking_step answering_step accepting_step connecting_step on_accept on_disvovered
      Accepting.run Asking.run Connecting.run
  step-Moves k a (asking e) b =
      let next = Asking.step e b.discovery_client in
      on_responses-Keeps k a (drop (length b.discovery_client.responses) next.responses)
        (record b { discovery_client = next })
  step-Moves k a (answering m e) b =
      elim (Option-cases (
        asker e (record b.discovery_server {
          discoverables = at_moment m b b.discovery_server.discoverables;
        }))) [ inl nobody ↦ ground (arith, nobody) | inr (remote, found) ↦ ground (arith, found) ]
  step-Moves k a (accepting remote e) b = ground arith
  step-Moves k a (connecting key e) b = elim (Option-cases (lookup key b.connecting_clients)) [
    | inl none_there ↦ ground (arith, none_there, text_eq_iff k key)
    | inr (attempt, found) ↦ ground (
      arith,
      found,
      text_eq_iff k key,
      lookup-insert k key (record attempt { client = Connecting.step e attempt.client })
          b.connecting_clients,
    )
  ]

  -- Over any events of a bridge, its server and its discovery client are where their own events take
  -- them by themselves.
  pub run-members :
      (es : List Event) (b : Bridge)
      → ((run make_address es b).tcp_server ≡ Accepting.run (accepting_events es) b.tcp_server)
        × ((run make_address es b).discovery_client
            ≡ Asking.run (asking_events es) b.discovery_client)
  unfolding run Accepting.run Asking.run
  run-members [] b = (refl, refl)
  run-members (e ∷ es) b =
      let (server, client, attempt) = step-Moves [] (attempt_at [] 0) e b in
      let (servers, clients) = run-members es (step make_address e b) in
      (
        servers ∙ ap (Accepting.run (accepting_events es)) server ∙ served e,
        clients ∙ ap (Asking.run (asking_events es)) client ∙ asked e,
      )
    where
      served :
          (e : Event)
          → Accepting.run
              (accepting_events es)
              (Accepting.run (accepting_events (e ∷ [])) b.tcp_server)
            ≡ Accepting.run (accepting_events (e ∷ es)) b.tcp_server
      served (asking e) = refl
      served (answering m e) = refl
      served (accepting remote e) = refl
      served (connecting key e) = refl

      asked :
          (e : Event)
          → Asking.run (asking_events es) (Asking.run (asking_events (e ∷ [])) b.discovery_client)
            ≡ Asking.run (asking_events (e ∷ es)) b.discovery_client
      asked (asking e) = refl
      asked (answering m e) = refl
      asked (accepting remote e) = refl
      asked (connecting key e) = refl

  -- So is each client that was told to connect: it is never replaced.
  pub run-attempt :
      (es : List Event) (b : Bridge) (k : Text) (a : Attempt)
      → lookup k b.connecting_clients ≡ some a
      → lookup k (run make_address es b).connecting_clients
        ≡ some (moved (connecting_events k es) a)
  unfolding run Connecting.run
  run-attempt [] b k a h = h
  run-attempt (e ∷ es) b k a h =
      let (server, client, attempt) = step-Moves k a e b in
      run-attempt es (step make_address e b) k (moved (connecting_events k (e ∷ [])) a) (attempt h)
      ∙ ap some (joined e)
    where
      joined :
          (e : Event)
          → moved (connecting_events k es) (moved (connecting_events k (e ∷ [])) a)
            ≡ moved (connecting_events k (e ∷ es)) a
      joined (asking e) = refl
      joined (answering m e) = refl
      joined (accepting remote e) = refl
      joined (connecting key e) = elim (Bool-cases (text_eq k key)) [
        | inl same ↦ rw same refl
        | inr other ↦ rw other refl
      ]

  -- Every peer that the bridge starts to connect to is answered for: after any events on a bridge that
  -- has just started an attempt for a key, among them no stop of that client and a `reset` of it only
  -- when nothing is under way, the key still stands for a client of that host and port; and each
  -- accepted call of that client's `async_connect` has a handler that resolves posted, a lookup or an
  -- attempt under way, or has had its callback called, with the socket or with an error, or posted with
  -- an error.
  pub attempts_answered :
      (es : List Event) (b : Bridge) (k host : Text) (port : ℕ)
      → lookup k b.connecting_clients ≡ some (attempt_at host port)
      → stops_called (connecting_events k es) ≡ 0
      → AllAllowed (connecting_events k es) (attempt_at host port).client
      → (last : Attempt) × (lookup k (run make_address es b).connecting_clients ≡ some last)
        × (last.host ≡ host)
        × (last.port ≡ port)
        × (last.client.posted_failed
              + last.client.failures
              + last.client.successes
              + (last.client.posted_resolve + last.client.lookups + last.client.attempts)
            ≡ last.client.connects)
  unfolding Connecting.run Connecting.step
  attempts_answered es b k host port h n a = (
    moved (connecting_events k es) (attempt_at host port),
    run-attempt es b k (attempt_at host port) h,
    refl,
    refl,
    connects_accounted (Connecting.call_connect ∷ connecting_events k es) n (tt, a),
  )
