-- ===== src/Bridge/Answers.antt =====
-- A bridge that is asked: what its discovery server sends.
use eestv_lib.Common.{
  ◌+◌, ◌<◌, ◌≡◌, false, Option, some, List, [], ◌∷◌, ◌++◌, arith, if◌then◌else◌, u64,
}
use eestv_lib.Common.Text.{Text, is_empty}
use eestv_lib.Discovery.{Endpoint}
use eestv_lib.Discovery.Server as Answering
use eestv_lib.Discovery.Server.{Discoverable, find, get_reply, reply_to}
use eestv_lib.Bridge.{
  Bridge, Moment, step, answering, answering_step, at_moment, discoverable, on_disvovered,
}

find-at_moment :
    (t : Text) (m : Moment) (b : Bridge) (ds : List Discoverable) (d : Discoverable)
    → find t ds ≡ some d
    → find t (at_moment m b ds) ≡ some (record d { callback = (discoverable m b).callback })
unfolding find
find-at_moment t m b [] d h = ground (arith, h)
find-at_moment t m b (e ∷ es) d h = ground (arith, h, find-at_moment t m b es d)

module _ {Address : Type 0} (make_address : Text → Option Address) where
  -- A request for the target of a bridge arrives.
  unfoldable pub asked : Moment → Endpoint → Bridge → Bridge
  asked m remote b =
      step make_address
        (answering m (Answering.receive_done (Answering.request b.config.discovery_target remote)))
        b

  -- A bridge that waits for requests and has registered its target, which is not empty, counts a request
  -- for the target. It sends the answer of that moment to the endpoint that asked, behind what it has
  -- sent, unless the answer is empty.
  pub request-replies :
      (b : Bridge) (m : Moment) (remote : Endpoint) (d : Discoverable)
      → 0 < b.discovery_server.receives
      → is_empty b.config.discovery_target ≡ false
      → find b.config.discovery_target b.discovery_server.discoverables ≡ some d
      → ((asked m remote b).discovery_server.replies ≡ (
          if is_empty (on_disvovered m remote b).1
          then b.discovery_server.replies
          else b.discovery_server.replies ++ (((on_disvovered m remote b).1, remote) ∷ [])))
        × ((asked m remote b).discovered_count ≡ u64 (b.discovered_count + 1))
  unfolding asked step answering_step Answering.step Answering.handle_receive Answering.answer
      Answering.resolve_on_stopped reply_to get_reply discoverable on_disvovered
  request-replies b m remote d waits named found = ground (
    arith,
    waits,
    named,
    find-at_moment b.config.discovery_target m b b.discovery_server.discoverables d found,
  )
