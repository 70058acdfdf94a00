-- ===== src/Bridge.antt =====
-- eestv/data_bridge/bridge.cpp: a bridge finds its peers by discovery and connects to them.
--
-- The bridge's parts are the models of its members. The operating system's choices are arguments: the
-- address by which a remote endpoint is reached, the port of the server, and the clock; Boost's
-- `make_address` is a parameter. A handler of the bridge is called by its members, so an event of a
-- member is followed by what its callback does. The destructor is in Destroy. Logging is left out.
pub mod Answers
pub mod Connects
pub mod Peers
pub mod Discovered
pub mod Destroy
pub mod Members
mod Examples
use eestv_lib.Common.{
  ℕ, zero, suc, ◌+◌, Bool, true, false, ◌||◌, Option, none, some, List, [], ◌∷◌, ◌++◌, ltb, ◌==◌,
  if◌then◌else◌, length, drop, u64,
}
use eestv_lib.Common.Text.{Text, to_string, text_eq, is_empty}
use eestv_lib.Common.Dict.{Dict, lookup, insert, contains}
use eestv_lib.TcpClient as Connecting
use eestv_lib.TcpClient.{Client}
use eestv_lib.TcpConnection.{Connection, connect}
use eestv_lib.TcpServer as Accepting
use eestv_lib.TcpServer.{Server}
use eestv_lib.Discovery.{Endpoint}
use eestv_lib.Discovery.Client as Asking
use eestv_lib.Discovery.Client.{UdpDiscoveryClient}
use eestv_lib.Discovery.Server as Answering
use eestv_lib.Discovery.Server.{UdpDiscoveryServer, Discoverable}
use eestv_lib.DiscoveryString.{DiscoveryInfo, construct, parse}
use eestv_lib.CommandParams.{Config}

-- A client that was told to connect, and where to.
pub record Attempt : Type 0 where
  pub client : Client
  pub host : Text
  pub port : ℕ

pub record Bridge : Type 0 where
  pub config : Config
  pub discovery_server : UdpDiscoveryServer
  pub discovery_client : UdpDiscoveryClient
  -- The server, and the port that it listens on.
  pub tcp_server : Server
  pub tcp_port : ℕ
  pub connecting_clients : Dict Attempt
  pub pending_outgoing_connections : Dict Connection
  pub pending_incoming_connections : Dict Connection
  pub discovery_count : ℕ
  pub discovered_count : ℕ

-- What the operating system says when a request is answered: the local address that reaches a remote
-- endpoint, if there is one, and the time in milliseconds.
pub record Moment : Type 0 where
  pub local_address : Endpoint → Option Text
  pub now : ℕ

-- The server is set up before anything can be discovered, so its pointer is never null.
unfoldable pub on_disvovered : Moment → Endpoint → Bridge → Bridge × Text
on_disvovered m remote_endpoint b = (
  record b { discovered_count = u64 (b.discovered_count + 1) },
  elim (m.local_address remote_endpoint) [
    | none ↦ []
    | some local_address ↦ construct b.config.discovery_target local_address b.tcp_port m.now
  ],
)

-- `_discoverable`, whose callback reads the bridge and the clock when it is called.
unfoldable pub discoverable : Moment → Bridge → Discoverable
discoverable m b = record {
  identifier = b.config.discovery_target;
  callback = λ remote_endpoint. (on_disvovered m remote_endpoint b).1;
}

-- `to_string(address) + ":" + to_string(port)`.
abbrev pub endpoint_key : Endpoint → Text
endpoint_key e = e.address ++ (b':' ∷ to_string e.port)

unfoldable pub on_accept : Endpoint → Connection → Bridge → Bridge
on_accept remote_endpoint connection b = record b {
  pending_incoming_connections =
      insert (endpoint_key remote_endpoint) connection b.pending_incoming_connections;
}

unfoldable pub set_up_tcp_server : Server
set_up_tcp_server =
    (Accepting.async_start (Accepting.set_connection_callback true Accepting.make_server)).0

-- The discovery client and the discovery server, for the discoverable of the bridge.
unfoldable pub set_up_discovery : Discoverable → UdpDiscoveryClient × UdpDiscoveryServer
set_up_discovery d = (
  (Asking.async_start (Asking.make_client true)).0,
  (Answering.async_start (Answering.add_discoverable d Answering.make_server)).0,
)

-- The constructor; the operating system chooses the port of the server. The callback that is registered
-- reads the bridge and the clock when it is called, so each event of the server puts in the one of its
-- moment (`at_moment`).
unfoldable pub make_bridge : Config → ℕ → Bridge
make_bridge config tcp_port =
    let b : Bridge = record {
      config = config;
      discovery_server = Answering.make_server;
      discovery_client = Asking.make_client true;
      tcp_server = set_up_tcp_server;
      tcp_port = tcp_port;
      connecting_clients = [];
      pending_outgoing_connections = [];
      pending_incoming_connections = [];
      discovery_count = 0;
      discovered_count = 0;
    } in
    let parts = set_up_discovery (discoverable (record { local_address = λ e. none; now = 0 }) b) in
    record b { discovery_client = parts.0; discovery_server = parts.1 }

unfoldable pub on_peer_discovered : {A : Type 0} → DiscoveryInfo A → Bridge → Bridge
on_peer_discovered info b =
    let counted = record b { discovery_count = u64 (b.discovery_count + 1) } in
    let key = to_string info.timestamp_ms in
    let started = Connecting.async_connect Connecting.make_client in
    if contains key b.pending_outgoing_connections || contains key b.connecting_clients
    then counted
    else if started.1
    then record counted {
      connecting_clients =
          insert key (record { client = started.0; host = info.ip_address; port = info.port })
            b.connecting_clients;
    }
    else counted

-- A step of a client that was told to connect, with its callback where it connects.
unfoldable pub connecting_step : Text → Connecting.Event → Attempt → Bridge → Bridge
connecting_step key e attempt b =
    let next = Connecting.step e attempt.client in
    let stepped = record b {
      connecting_clients = insert key (record attempt { client = next }) b.connecting_clients;
    } in
    if ltb attempt.client.successes next.successes
    then record stepped {
      pending_outgoing_connections =
          insert key (connect 4096 4096 false) b.pending_outgoing_connections;
    }
    else stepped

-- The callbacks of the discoverables, as they are at a moment.
abbrev pub at_moment : Moment → Bridge → List Discoverable → List Discoverable
at_moment m b [] = []
at_moment m b (d ∷ ds) = record d { callback = (discoverable m b).callback } ∷ at_moment m b ds

-- Whose request calls a callback.
abbrev pub asker : Answering.Event → UdpDiscoveryServer → Option Endpoint
asker (Answering.receive_done (Answering.request bytes remote_endpoint)) s =
    if s.receives == 0 || is_empty bytes
    then none
    else elim (Answering.find bytes s.discoverables) [ none ↦ none | some d ↦ some remote_endpoint ]
asker e s = none

unfoldable pub answering_step : Moment → Answering.Event → Bridge → Bridge
answering_step m e b =
    let s = record b.discovery_server {
      discoverables = at_moment m b b.discovery_server.discoverables;
    } in
    let called : Bridge = elim (asker e s) [
      | none ↦ b
      | some remote ↦ (on_disvovered m remote b).0
    ] in
    record called { discovery_server = Answering.step e s }

-- A step of the server, with its callback where it hands on a connection.
unfoldable pub accepting_step : Endpoint → Accepting.Event → Bridge → Bridge
accepting_step remote_endpoint e b =
    let next = Accepting.step e b.tcp_server in
    let stepped = record b { tcp_server = next } in
    if ltb b.tcp_server.delivered next.delivered
    then on_accept remote_endpoint (connect 4096 4096 false) stepped
    else stepped

-- What can happen next: an event of a member, for a client that connects with its key.
pub data Event : Type 0 where
  asking : Asking.Event → Event
  answering : Moment → Answering.Event → Event
  accepting : Endpoint → Accepting.Event → Event
  connecting : Text → Connecting.Event → Event

module _ {Address : Type 0} (make_address : Text → Option Address) where
  unfoldable pub on_discovery_response : Text → Bridge → Bridge × Bool
  on_discovery_response response b = elim (parse make_address response) [
    | none ↦ (b, false)
    | some info ↦
        if text_eq info.service_name b.config.discovery_target
        then (on_peer_discovered info b, true)
        else (b, false)
  ]

  -- The calls of the response handler.
  abbrev pub on_responses : List Text → Bridge → Bridge
  on_responses [] b = b
  on_responses (response ∷ rest) b = on_responses rest (on_discovery_response response b).0

  unfoldable pub asking_step : Asking.Event → Bridge → Bridge
  asking_step e b =
      let next = Asking.step e b.discovery_client in
      on_responses (drop (length b.discovery_client.responses) next.responses)
        (record b { discovery_client = next })

  unfoldable pub step : Event → Bridge → Bridge
  step (asking e) b = asking_step e b
  step (answering m e) b = answering_step m e b
  step (accepting remote e) b = accepting_step remote e b
  step (connecting key e) b = elim (lookup key b.connecting_clients) [
    | none ↦ b
    | some attempt ↦ connecting_step key e attempt b
  ]

  unfoldable pub run : List Event → Bridge → Bridge
  run [] b = b
  run (e ∷ es) b = run es (step e b)
