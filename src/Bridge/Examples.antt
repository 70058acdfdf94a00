-- ===== src/Bridge/Examples.antt =====
-- Two bridges that meet, and the theorems at them.
use eestv_lib.Common.{
  ℕ, ◌+◌, ◌≡◌, refl, true, false, Option, none, some, List, [], ◌∷◌, arith, if◌then◌else◌, length,
  u64,
}
use eestv_lib.Common.Text.{Text, codes, to_string, text_eq}
use eestv_lib.Common.Dict.{insert, contains, lookup}
use eestv_lib.Logging.{info}
use eestv_lib.CommandParams.{Config, bridge}
use eestv_lib.Discovery.{Endpoint}
use eestv_lib.Discovery.Server as Answering
use eestv_lib.Discovery.Server.{Discoverable, emplace, find}
use eestv_lib.Discovery.Client as Asking
use eestv_lib.DiscoveryString.{DiscoveryInfo}
use eestv_lib.Flags.{set_flag, clear_flag, get_flag, clear_all}
use eestv_lib.Bridge.{
  Bridge, Attempt, Moment, Event, asking, answering, connecting, on_peer_discovered, make_bridge,
  step, run, on_disvovered, on_discovery_response,
}
use eestv_lib.Discovery.{running, stopping}
use eestv_lib.Discovery.Client.Stop.{outstanding, run-RequestInv, make_client-RequestInv}
use eestv_lib.Bridge.Destroy.{destroy, destroy-hangs}
use eestv_lib.Bridge.Connects.{success, answer-connects}
use eestv_lib.Bridge.Discovered.{
  attempt_at, on_discovery_response-on_disvovered, on_peers, AllConnecting, length-on_peers,
}
use eestv_lib.TcpClient as Connecting
use eestv_lib.Bridge.Members.{connecting_events, attempts_answered}
use eestv_lib.Bridge.Peers.{has_connected, outgoing-connected}

-- A parser of addresses that knows one.
abbrev one_address : Text → Option Text
one_address text = if text_eq text (codes "10.0.0.1") then some (codes "ten") else none

abbrev lab : Config
lab = record { endpoint_mode = bridge; discovery_target = codes "lab"; log_level = info }

abbrev here : Moment
here = record { local_address = λ e. some (codes "10.0.0.1"); now = 1700 }

abbrev somebody : Endpoint
somebody = record { address = codes "10.0.0.7"; port = 999 }

-- A bridge that waits for requests.
abbrev waiting : Bridge
waiting = step one_address (answering here Answering.run_start) (make_bridge lab 4000)

abbrev peer : ℕ → DiscoveryInfo Text
peer t = record {
  service_name = codes "lab";
  ip_address = codes "10.0.0.1";
  port = 4000;
  address = codes "ten";
  timestamp_ms = t;
}

-- A bridge accepts the answer that it gave itself.
on_discovery_response-on_disvovered_example :
    on_discovery_response one_address
      (on_disvovered here somebody (make_bridge lab 4000)).1
      (make_bridge lab 4000)
    ≡ (
      record (make_bridge lab 4000) {
        discovery_count = u64 (0 + 1);
        connecting_clients = insert (to_string 1700) (attempt_at (codes "10.0.0.1") 4000) [];
      },
      true,
    )
unfolding make_bridge contains
on_discovery_response-on_disvovered_example =
    on_discovery_response-on_disvovered one_address (make_bridge lab 4000) (make_bridge lab 4000)
      here somebody (codes "10.0.0.1") (codes "ten") refl refl refl refl refl refl refl
      (omega arith) (omega arith)

answer-connects_example :
    (let found =
        (on_discovery_response one_address
          (on_disvovered here somebody (make_bridge lab 4000)).1
          (make_bridge lab 4000)).0 in
      let next = run one_address (success (to_string 1700)) found in
      contains (to_string 1700) next.pending_outgoing_connections ≡ true)
unfolding make_bridge contains
answer-connects_example =
    answer-connects one_address (make_bridge lab 4000) (make_bridge lab 4000) here somebody
      (codes "10.0.0.1") (codes "ten") refl refl refl refl refl refl refl (omega arith)
      (omega arith) refl refl

-- Two answers of the same peer give two clients.
length-on_peers_example :
    AllConnecting
      (peer 1700 ∷ peer 1701 ∷ [])
      (on_peers (peer 1700 ∷ peer 1701 ∷ []) (make_bridge lab 4000))
    × (length (on_peers (peer 1700 ∷ peer 1701 ∷ []) (make_bridge lab 4000)).connecting_clients ≡ 2)
unfolding make_bridge contains
length-on_peers_example =
    length-on_peers (peer 1700 ∷ peer 1701 ∷ []) (make_bridge lab 4000) refl refl

-- A peer that is found by its answer and connected to.
abbrev meeting : List Event
meeting =
    asking Asking.run_start
    ∷ asking (Asking.receive_done (Asking.bytes (codes "lab:10.0.0.1:4000:1700")))
    ∷ success (codes "1700")

abbrev met : Bridge
met = run one_address meeting (make_bridge lab 4000)

outgoing-connected_example :
    contains (codes "1700") met.pending_outgoing_connections
    ≡ has_connected (lookup (codes "1700") met.connecting_clients)
outgoing-connected_example = outgoing-connected one_address lab 4000 meeting (codes "1700")

-- A bridge whose discovery client has come to an end: a send and then the receive failed.
abbrev quiet_events : List Asking.Event
quiet_events = Asking.run_start ∷ Asking.send_done true ∷ Asking.receive_done Asking.failed ∷ []

abbrev quiet : Bridge
quiet = record (make_bridge lab 4000) {
  discovery_client = Asking.run (Asking.call_start ∷ quiet_events) (Asking.make_client true);
}

quiet_state :
    (Asking.has_flag quiet.discovery_client running ≡ true)
    × (Asking.has_flag quiet.discovery_client stopping ≡ false)
    × (outstanding quiet.discovery_client ≡ 0)
    × (quiet.discovery_client.posted_stopped ≡ 0)
unfolding Asking.run Asking.step Asking.make_client Asking.async_start Asking.start
    Asking.send_discovery_request Asking.handle_send_complete Asking.handle_response
    Asking.resolve_on_stopped set_flag clear_flag get_flag clear_all
quiet_state = (refl, refl, refl, refl)

abbrev while_client : List Event
while_client = asking Asking.run_cancel ∷ asking Asking.run_stopped ∷ []

destroy-hangs_example : destroy one_address false while_client [] [] (λ key. []) quiet ≡ none
destroy-hangs_example =
    destroy-hangs one_address while_client [] [] (λ key. []) quiet
      (run-RequestInv (Asking.call_start ∷ quiet_events) (Asking.make_client true)
        (tt, (tt, (tt, (tt, tt)))) (make_client-RequestInv true))
      quiet_state.0 quiet_state.1 quiet_state.2 quiet_state.3 (tt, (tt, tt))

-- A bridge that was told of a peer, whose client looks its host up and connects.
abbrev told : Bridge
told = on_peer_discovered (peer 1700) (make_bridge lab 4000)

abbrev peer_key : Text
peer_key = codes "1700"

abbrev peer_events : List Event
peer_events =
    connecting peer_key Connecting.run_resolve
    ∷ asking Asking.run_start
    ∷ connecting peer_key (Connecting.lookup_done false)
    ∷ connecting peer_key (Connecting.attempt_done false)
    ∷ []

abbrev connected_peer : Attempt
connected_peer = record {
  client =
      Connecting.run (connecting_events peer_key peer_events)
        (attempt_at (codes "10.0.0.1") 4000).client;
  host = codes "10.0.0.1";
  port = 4000;
}

told_of : lookup peer_key told.connecting_clients ≡ some (attempt_at (codes "10.0.0.1") 4000)
unfolding on_peer_discovered make_bridge lookup insert contains to_string Connecting.async_connect
    Connecting.make_client set_flag get_flag clear_all
told_of = refl

-- The client has connected, and no call of it is under way.
connected_state :
    (connected_peer.client.posted_resolve ≡ 0)
    × (connected_peer.client.lookups ≡ 0)
    × (connected_peer.client.attempts ≡ 0)
    × (connected_peer.client.successes ≡ 1)
unfolding Connecting.run Connecting.step Connecting.async_connect Connecting.make_client
    Connecting.async_resolve Connecting.handle_resolve Connecting.handle_connect
    Connecting.resolve_on_stopped set_flag clear_flag get_flag clear_all
connected_state = (refl, refl, refl, refl)

attempts_answered_example :
    (last : Attempt) × (lookup peer_key (run one_address peer_events told).connecting_clients
      ≡ some last)
    × (last.host ≡ codes "10.0.0.1")
    × (last.port ≡ 4000)
    × (last.client.posted_failed
          + last.client.failures
          + last.client.successes
          + (last.client.posted_resolve + last.client.lookups + last.client.attempts)
        ≡ last.client.connects)
attempts_answered_example =
    attempts_answered one_address peer_events told peer_key (codes "10.0.0.1") 4000 told_of refl
      (tt, (tt, (tt, tt)))
