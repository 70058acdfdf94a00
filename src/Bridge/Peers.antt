-- ===== src/Bridge/Peers.antt =====
-- The outgoing connections of a bridge against its clients.
use eestv_lib.Common.{
  ℕ, ◌≤◌, ◌≡◌, refl, Bool, false, Option, none, some, List, [], ◌∷◌, arith, ltb, Option-cases, inl,
  inr, drop, length,
}
use eestv_lib.Common.Text.{Text, to_string, text_eq_iff}
use eestv_lib.Common.Dict.{lookup, contains, lookup-insert, contains-insert}
use eestv_lib.Flags.{get_flag, clear_all}
use eestv_lib.TcpClient as Connecting
use eestv_lib.TcpClient.{Client, async_connect, make_client}
use eestv_lib.TcpConnection.{connect}
use eestv_lib.Discovery.Client as Asking
use eestv_lib.DiscoveryString.{DiscoveryInfo, parse}
use eestv_lib.CommandParams.{Config}
use eestv_lib.Bridge.{
  Bridge, Attempt, on_peer_discovered, on_discovery_response, on_responses, connecting_step, Event,
  step, run, asking, answering, accepting, connecting, make_bridge, asker, at_moment, asking_step,
  answering_step, accepting_step, on_disvovered, on_accept,
}
use eestv_lib.Bridge.Discovered.{attempt_at, on_peer_discovered_lem}

-- A client never takes back that it connected.
successes-step : (e : Connecting.Event) (c : Client) → c.successes ≤ (Connecting.step e c).successes
unfolding Connecting.step Connecting.async_connect Connecting.async_resolve
    Connecting.handle_resolve Connecting.handle_connect Connecting.async_stop
    Connecting.cancel_operations Connecting.reset Connecting.resolve_on_stopped
successes-step Connecting.call_connect c = ground arith
successes-step Connecting.call_stop c = ground arith
successes-step Connecting.call_reset c = ground arith
successes-step Connecting.run_resolve c = ground arith
successes-step Connecting.run_cancel c = ground arith
successes-step Connecting.run_failed c = ground arith
successes-step Connecting.run_stopped c = ground arith
successes-step (Connecting.lookup_done error_code) c = ground arith
successes-step (Connecting.attempt_done error_code) c = ground arith

new_client-successes : (async_connect make_client).0.successes ≡ 0
unfolding async_connect make_client get_flag clear_all
new_client-successes = refl

-- Whether a client has connected.
abbrev pub has_connected : Option Attempt → Bool
has_connected none = false
has_connected (some attempt) = ltb 0 attempt.client.successes

-- A key has an outgoing connection just if it has a client that connected.
abbrev pub AgreesAt : Text → Bridge → Type 0
AgreesAt k b =
    contains k b.pending_outgoing_connections ≡ has_connected (lookup k b.connecting_clients)

on_peer_discovered-AgreesAt :
    {A : Type 0} (k : Text) (info : DiscoveryInfo A) (b : Bridge)
    → AgreesAt k b
    → AgreesAt k (on_peer_discovered info b)
on_peer_discovered-AgreesAt k info b h = ground (
  arith,
  h,
  on_peer_discovered_lem info b,
  text_eq_iff k (to_string info.timestamp_ms),
  new_client-successes,
  lookup-insert k (to_string info.timestamp_ms) (attempt_at info.ip_address info.port)
      b.connecting_clients,
)

connecting_step-AgreesAt :
    (k key : Text) (e : Connecting.Event) (attempt : Attempt) (b : Bridge)
    → lookup key b.connecting_clients ≡ some attempt
    → AgreesAt key b
    → AgreesAt k b
    → AgreesAt k (connecting_step key e attempt b)
unfolding connecting_step
connecting_step-AgreesAt k key e attempt b found hk h = ground (
  arith,
  h,
  hk,
  found,
  text_eq_iff k key,
  successes-step e attempt.client,
  lookup-insert k key (record attempt { client = Connecting.step e attempt.client })
      b.connecting_clients,
  contains-insert k key (connect 4096 4096 false) b.pending_outgoing_connections,
)

make_bridge-AgreesAt :
    (k : Text) (config : Config) (tcp_port : ℕ) → AgreesAt k (make_bridge config tcp_port)
unfolding make_bridge contains lookup
make_bridge-AgreesAt k config tcp_port = refl

module _ {Address : Type 0} (make_address : Text → Option Address) where
  on_discovery_response-AgreesAt :
      (k response : Text) (b : Bridge)
      → AgreesAt k b
      → AgreesAt k (on_discovery_response make_address response b).0
  unfolding on_discovery_response
  on_discovery_response-AgreesAt k response b h =
      elim (Option-cases (parse make_address response)) [
        | inl e ↦ ground (arith, e, h)
        | inr (info, e) ↦ ground (arith, e, h, on_peer_discovered-AgreesAt k info b)
      ]

  on_responses-AgreesAt :
      (k : Text) (responses : List Text) (b : Bridge)
      → AgreesAt k b
      → AgreesAt k (on_responses make_address responses b)
  on_responses-AgreesAt k [] b h = h
  on_responses-AgreesAt k (r ∷ rest) b h =
      on_responses-AgreesAt k rest (on_discovery_response make_address r b).0
        (on_discovery_response-AgreesAt k r b h)

  step-AgreesAt :
      (e : Event) (b : Bridge)
      → ((k : Text) → AgreesAt k b)
      → (k : Text) → AgreesAt k (step make_address e b)
  unfolding step asking_step answering_step accepting_step on_accept on_disvovered
  step-AgreesAt (asking e) b h k =
      let next = Asking.step e b.discovery_client in
      on_responses-AgreesAt k (drop (length b.discovery_client.responses) next.responses)
        (record b { discovery_client = next }) (h k)
  step-AgreesAt (answering m e) b h k =
      elim (Option-cases (
        asker e (record b.discovery_server {
          discoverables = at_moment m b b.discovery_server.discoverables;
        }))) [
          | inl nobody ↦ ground (arith, nobody, h k)
          | inr (remote, found) ↦ ground (arith, found, h k)
        ]
  step-AgreesAt (accepting remote e) b h k = ground (arith, h k)
  step-AgreesAt (connecting key e) b h k = elim (Option-cases (lookup key b.connecting_clients)) [
    | inl none_there ↦ ground (arith, none_there, h k)
    | inr (attempt, found) ↦
        ground (arith, found, connecting_step-AgreesAt k key e attempt b found (h key) (h k))
  ]

  run-AgreesAt :
      (es : List Event) (b : Bridge)
      → ((k : Text) → AgreesAt k b)
      → (k : Text) → AgreesAt k (run make_address es b)
  unfolding run
  run-AgreesAt [] b h k = h k
  run-AgreesAt (e ∷ es) b h k = run-AgreesAt es (step make_address e b) (step-AgreesAt e b h) k

  -- After any events, a bridge has an outgoing connection for a key just if it has a client for that key
  -- that connected.
  pub outgoing-connected :
      (config : Config) (tcp_port : ℕ) (es : List Event) (k : Text)
      → contains k (run make_address es (make_bridge config tcp_port)).pending_outgoing_connections
        ≡ has_connected
            (lookup k (run make_address es (make_bridge config tcp_port)).connecting_clients)
  outgoing-connected config tcp_port es k = run-AgreesAt es (make_bridge config tcp_port) start k
    where
      start : (j : Text) → AgreesAt j (make_bridge config tcp_port)
      start j = make_bridge-AgreesAt j config tcp_port
