-- ===== src/Bridge/Discovered.antt =====
-- From the answer of one bridge to the connection of another.
use eestv_lib.Common.{
  ℕ, ◌+◌, ◌^◌, ◌<◌, ◌≡◌, refl, ap, ◌∙◌, Bool, true, false, not, ◌&&◌, ◌||◌, Option, some, List, [],
  ◌∷◌, arith, ltb, ◌==◌, if◌then◌else◌, length, Bool-cases, Option-cases, inl, inr, u64,
}
use eestv_lib.Common.Text.{Text, to_string, text_eq, text_eq_iff, is_empty}
use eestv_lib.Common.Dict.{
  insert, lookup, contains, contains-insert, length-insert, lookup-insert, lookup-contains,
}
use eestv_lib.Flags.{get_flag, clear_all}
use eestv_lib.TcpClient.{async_connect, make_client}
use eestv_lib.Discovery.{Endpoint}
use eestv_lib.DiscoveryString.{DiscoveryInfo, construct, parse}
use eestv_lib.DiscoveryString.Numbers.{stoull, stoull-to_string}
use eestv_lib.DiscoveryString.RoundTrip.{has_no_colon, parse-construct, parse-parts}
use eestv_lib.Bridge.{
  Bridge, Attempt, Moment, on_disvovered, on_peer_discovered, on_discovery_response,
}

-- An attempt that was just started.
abbrev pub attempt_at : Text → ℕ → Attempt
attempt_at host port = record { client = (async_connect make_client).0; host = host; port = port }

make_client-starts : (async_connect make_client).1 ≡ true
unfolding async_connect make_client get_flag clear_all
make_client-starts = refl

-- A peer with a new timestamp is connected to.
pub on_peer_discovered_lem :
    {A : Type 0} (info : DiscoveryInfo A) (b : Bridge)
    → on_peer_discovered info b ≡ (
        if contains (to_string info.timestamp_ms) b.pending_outgoing_connections
          || contains (to_string info.timestamp_ms) b.connecting_clients
        then record b { discovery_count = u64 (b.discovery_count + 1) }
        else record b {
          discovery_count = u64 (b.discovery_count + 1);
          connecting_clients =
              insert
                (to_string info.timestamp_ms)
                (attempt_at info.ip_address info.port)
                b.connecting_clients;
        })
unfolding on_peer_discovered
on_peer_discovered_lem info b = ground (arith, make_client-starts)

module _ {Address : Type 0} (make_address : Text → Option Address) where
  -- The answer of a bridge to a request, with a target and a local address that are not empty and have
  -- no colon, a valid address, a port below 2 ^ 16 and a time in 64 bits, is accepted by every bridge
  -- of the same target, itself included. One that has no entry for that time starts to connect to the
  -- address and the port of the server that answered; any other only counts the discovery.
  pub on_discovery_response-on_disvovered :
      (a b : Bridge) (m : Moment) (remote : Endpoint) (local : Text) (address : Address)
      → a.config.discovery_target ≡ b.config.discovery_target
      → is_empty a.config.discovery_target ≡ false
      → has_no_colon a.config.discovery_target ≡ true
      → m.local_address remote ≡ some local
      → is_empty local ≡ false
      → has_no_colon local ≡ true
      → make_address local ≡ some address
      → a.tcp_port < 2 ^ 16
      → m.now < 2 ^ 64
      → let key = to_string m.now in
        on_discovery_response make_address (on_disvovered m remote a).1 b ≡ (
          record b {
            discovery_count = u64 (b.discovery_count + 1);
            connecting_clients =
                if contains key b.pending_outgoing_connections || contains key b.connecting_clients
                then b.connecting_clients
                else insert key (attempt_at local a.tcp_port) b.connecting_clients;
          },
          true,
        )
  unfolding on_discovery_response on_disvovered
  on_discovery_response-on_disvovered a b m remote local address same et ct hm el cl ha hp hn =
      let info : DiscoveryInfo Address = record {
        service_name = a.config.discovery_target;
        ip_address = local;
        port = a.tcp_port;
        address = address;
        timestamp_ms = m.now;
      } in
      let found : parse make_address (construct a.config.discovery_target local a.tcp_port m.now)
          ≡ some info =
        (parse-construct make_address a.config.discovery_target local a.tcp_port m.now address et ct
          el cl ha hn).0
        ∙ ground (arith, hp) in
      ground (
        arith,
        hm,
        found,
        text_eq_iff a.config.discovery_target b.config.discovery_target,
        on_peer_discovered_lem info b,
      )

  -- A bridge whose target has a colon accepts no response.
  pub colon_target-refused :
      (response : Text) (b : Bridge)
      → has_no_colon b.config.discovery_target ≡ false
      → on_discovery_response make_address response b ≡ (b, false)
  unfolding on_discovery_response
  colon_target-refused response b h = elim (Option-cases (parse make_address response)) [
    | inl e ↦ ground (arith, e)
    | inr (info, e) ↦ elim (Bool-cases (text_eq info.service_name b.config.discovery_target)) [
      | inl eq ↦ ground (
        arith,
        parse-parts make_address response info e,
        ap has_no_colon ((text_eq_iff info.service_name b.config.discovery_target).0 eq),
      )
      | inr eq ↦ ground (arith, e, eq)
    ]
  ]

to_string-injective : (m n : ℕ) → m < 2 ^ 64 → n < 2 ^ 64 → to_string m ≡ to_string n → m ≡ n
to_string-injective m n hm hn e =
    ground (arith, stoull-to_string m, stoull-to_string n, ap stoull e)

-- The peers of a list, one after the other.
abbrev pub on_peers : {A : Type 0} → List (DiscoveryInfo A) → Bridge → Bridge
on_peers [] b = b
on_peers (info ∷ rest) b = on_peers rest (on_peer_discovered info b)

abbrev pub differs : {A : Type 0} → ℕ → List (DiscoveryInfo A) → Bool
differs t [] = true
differs t (info ∷ rest) = not (t == info.timestamp_ms) && differs t rest

abbrev pub all_differ : {A : Type 0} → List (DiscoveryInfo A) → Bool
all_differ [] = true
all_differ (info ∷ rest) = differs info.timestamp_ms rest && all_differ rest

-- The timestamps are in 64 bits, and a bridge has no entry for them.
abbrev pub all_new : {A : Type 0} → List (DiscoveryInfo A) → Bridge → Bool
all_new [] b = true
all_new (info ∷ rest) b =
    ltb info.timestamp_ms (2 ^ 64)
    && not (contains (to_string info.timestamp_ms) b.pending_outgoing_connections)
    && not (contains (to_string info.timestamp_ms) b.connecting_clients)
    && all_new rest b

all_new-on_peer_discovered :
    {A : Type 0} (info : DiscoveryInfo A) (rest : List (DiscoveryInfo A)) (b : Bridge)
    → info.timestamp_ms < 2 ^ 64
    → differs info.timestamp_ms rest ≡ true
    → all_new rest b ≡ true
    → all_new rest (on_peer_discovered info b) ≡ true
all_new-on_peer_discovered info [] b hi hd hn = refl
all_new-on_peer_discovered info (next ∷ rest) b hi hd hn = ground (
  arith,
  all_new-on_peer_discovered info rest b,
  on_peer_discovered_lem info b,
  contains-insert (to_string next.timestamp_ms) (to_string info.timestamp_ms)
      (attempt_at info.ip_address info.port) b.connecting_clients,
  text_eq_iff (to_string next.timestamp_ms) (to_string info.timestamp_ms),
  to_string-injective next.timestamp_ms info.timestamp_ms,
)

-- An attempt that is there is not started anew.
pub on_peer_discovered-lookup :
    {A : Type 0} (k : Text) (a : Attempt) (info : DiscoveryInfo A) (b : Bridge)
    → lookup k b.connecting_clients ≡ some a
    → lookup k (on_peer_discovered info b).connecting_clients ≡ some a
on_peer_discovered-lookup k a info b h = ground (
  arith,
  h,
  on_peer_discovered_lem info b,
  text_eq_iff k (to_string info.timestamp_ms),
  lookup-contains k b.connecting_clients,
  lookup-insert k (to_string info.timestamp_ms) (attempt_at info.ip_address info.port)
      b.connecting_clients,
)

on_peers-lookup :
    {A : Type 0} (k : Text) (a : Attempt) (infos : List (DiscoveryInfo A)) (b : Bridge)
    → lookup k b.connecting_clients ≡ some a
    → lookup k (on_peers infos b).connecting_clients ≡ some a
on_peers-lookup k a [] b h = h
on_peers-lookup k a (info ∷ rest) b h =
    on_peers-lookup k a rest (on_peer_discovered info b) (on_peer_discovered-lookup k a info b h)

-- A bridge connects to the address and the port of each peer, under its timestamp.
abbrev pub AllConnecting : {A : Type 0} → List (DiscoveryInfo A) → Bridge → Type 0
AllConnecting [] b = Unit {0}
AllConnecting (info ∷ rest) b =
    (lookup (to_string info.timestamp_ms) b.connecting_clients
      ≡ some (attempt_at info.ip_address info.port))
    × AllConnecting rest b

-- Peers with timestamps that all differ, are in 64 bits, and for which the bridge has no entry are each
-- connected to, at its address and port and under its timestamp, whatever their names and addresses
-- are; and the bridge has as many more clients as there are peers.
pub length-on_peers :
    {A : Type 0} (infos : List (DiscoveryInfo A)) (b : Bridge)
    → all_differ infos ≡ true
    → all_new infos b ≡ true
    → AllConnecting infos (on_peers infos b)
      × (length (on_peers infos b).connecting_clients ≡ length infos + length b.connecting_clients)
length-on_peers [] b hd hn = (tt, omega arith)
length-on_peers (info ∷ rest) b hd hn =
    let attempt = attempt_at info.ip_address info.port in
    let key = to_string info.timestamp_ms in
    let next = on_peer_discovered info b in
    let (each, counted) =
      length-on_peers rest next (ground arith)
        (all_new-on_peer_discovered info rest b (ground arith) (ground arith) (ground arith)) in
    let started : lookup key next.connecting_clients ≡ some attempt = ground (
      arith,
      on_peer_discovered_lem info b,
      text_eq_iff key key,
      lookup-insert key key attempt b.connecting_clients,
    ) in
    (
      (on_peers-lookup key attempt rest next started, each),
      ground (
        arith,
        counted,
        on_peer_discovered_lem info b,
        length-insert key attempt b.connecting_clients,
      ),
    )
