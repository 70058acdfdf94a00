-- ===== src/Bridge/Connects.antt =====
-- A client of a bridge, from its start to the connection.
use eestv_lib.Common.{
  ℕ, ◌<◌, ◌^◌, ◌≡◌, refl, ap, ◌∙◌, true, false, ◌||◌, Option, some, List, [], ◌∷◌, arith, ltb,
}
use eestv_lib.Common.Text.{Text, to_string, text_eq_refl, is_empty}
use eestv_lib.Common.Dict.{lookup, contains, lookup-insert, contains-insert}
use eestv_lib.Flags.{get_flag, clear_all, set_flag, clear_flag}
use eestv_lib.TcpClient as Connecting
use eestv_lib.TcpClient.{Client, async_connect, make_client, run_resolve, lookup_done, attempt_done}
use eestv_lib.TcpConnection.{connect}
use eestv_lib.Discovery.{Endpoint}
use eestv_lib.DiscoveryString.RoundTrip.{has_no_colon}
use eestv_lib.Bridge.{
  Bridge, Attempt, Moment, Event, connecting, step, run, connecting_step, on_disvovered,
  on_discovery_response,
}
use eestv_lib.Bridge.Discovered.{attempt_at, on_discovery_response-on_disvovered}

-- The events of a client whose host is found and whose attempt succeeds.
abbrev pub success : Text → List Event
success key =
    connecting key run_resolve
    ∷ connecting key (lookup_done false)
    ∷ connecting key (attempt_done false)
    ∷ []

three_steps : Client → Client
three_steps c =
    Connecting.step (attempt_done false)
      (Connecting.step (lookup_done false) (Connecting.step run_resolve c))

new_client-connects :
    ltb
      (Connecting.step
        (lookup_done false)
        (Connecting.step run_resolve (async_connect make_client).0)).successes
      (three_steps (async_connect make_client).0).successes
    ≡ true
unfolding three_steps Connecting.step async_connect make_client Connecting.async_resolve
    Connecting.handle_resolve Connecting.handle_connect Connecting.resolve_on_stopped get_flag
    clear_all set_flag clear_flag
new_client-connects = refl

module _ {Address : Type 0} (make_address : Text → Option Address) where
  step-connecting :
      (key : Text) (e : Connecting.Event) (attempt : Attempt) (b : Bridge)
      → lookup key b.connecting_clients ≡ some attempt
      → (lookup key (step make_address (connecting key e) b).connecting_clients
          ≡ some (record attempt { client = Connecting.step e attempt.client }))
        × (contains key (step make_address (connecting key e) b).pending_outgoing_connections ≡ (
            ltb attempt.client.successes (Connecting.step e attempt.client).successes
            || contains key b.pending_outgoing_connections))
  unfolding step connecting_step
  step-connecting key e attempt b found = ground (
    arith,
    found,
    text_eq_refl key,
    lookup-insert key key (record attempt { client = Connecting.step e attempt.client })
        b.connecting_clients,
    contains-insert key key (connect 4096 4096 false) b.pending_outgoing_connections,
  )

  attempt-connects :
      (key host : Text) (port : ℕ) (b : Bridge)
      → lookup key b.connecting_clients ≡ some (attempt_at host port)
      → contains key (run make_address (success key) b).pending_outgoing_connections ≡ true
  unfolding run three_steps
  attempt-connects key host port b found =
      let a0 = attempt_at host port in
      let a1 : Attempt = record a0 { client = Connecting.step run_resolve a0.client } in
      let a2 : Attempt = record a0 { client = Connecting.step (lookup_done false) a1.client } in
      let b1 = step make_address (connecting key run_resolve) b in
      let b2 = step make_address (connecting key (lookup_done false)) b1 in
      let at1 = step-connecting key run_resolve a0 b found in
      let at2 = step-connecting key (lookup_done false) a1 b1 at1.0 in
      let at3 = step-connecting key (attempt_done false) a2 b2 at2.0 in
      ground (arith, at3, new_client-connects)

  -- The answer of a bridge leads to a connection. The answering bridge's target and local address are
  -- not empty and have no colon, the address is valid, the port is below 2 ^ 16 and the time is in 64
  -- bits; the other bridge has the same target and no entry for the time. When the client that the
  -- answer starts there finds the host and its attempt succeeds, that bridge has an outgoing connection
  -- under the time of the answer.
  pub answer-connects :
      (a b : Bridge) (m : Moment) (remote : Endpoint) (local : Text) (address : Address)
      → a.config.discovery_target ≡ b.config.discovery_target
      → is_empty a.config.discovery_target ≡ false
      → has_no_colon a.config.discovery_target ≡ true
      → m.local_address remote ≡ some local
      → is_empty local ≡ false
      → has_no_colon local ≡ true
      → make_address local ≡ some address
      → a.tcp_port < 2 ^ 16
      → m.now < 2 ^ 64
      → contains (to_string m.now) b.pending_outgoing_connections ≡ false
      → contains (to_string m.now) b.connecting_clients ≡ false
      → (let found = (on_discovery_response make_address (on_disvovered m remote a).1 b).0 in
          let next = run make_address (success (to_string m.now)) found in
          contains (to_string m.now) next.pending_outgoing_connections ≡ true)
  answer-connects a b m remote local address same et ct hm el cl ha hp hn fp fc =
      attempt-connects (to_string m.now) local a.tcp_port
        (on_discovery_response make_address (on_disvovered m remote a).1 b).0
        (ap (λ r. lookup (to_string m.now) r.0.connecting_clients)
            (on_discovery_response-on_disvovered make_address a b m remote local address same et ct
              hm el cl ha hp hn)
          ∙ ground (
            arith,
            fp,
            fc,
            text_eq_refl (to_string m.now),
            lookup-insert (to_string m.now) (to_string m.now) (attempt_at local a.tcp_port)
                b.connecting_clients,
          ))
