-- ===== src/Discovery/Client/Responses.antt =====
-- The receiving side: a receive that a stop does not wait for, and one that is not started again.
use eestv_lib.Common.{ℕ, ◌+◌, ◌≡◌, refl, ◌∙◌, true, List, [], ◌∷◌, arith}
use eestv_lib.Common.Text.{Text}
use eestv_lib.Flags.{set_flag}
use eestv_lib.Flags.Laws.{set_flag_laws, clear_flag_laws}
use eestv_lib.Discovery.{running, stopping, timer_running, sending_async, receiving_async}
use eestv_lib.Discovery.Client.{
  UdpDiscoveryClient, has_flag, resolve_on_stopped, async_start, send_discovery_request, async_stop,
  cancel_operations, handle_send_complete, bytes, handle_response, handle_timeout, Event,
  call_start, call_stop, call_reset, run_start, run_cancel, run_stopped, send_done, wait_done,
  receive_done, step, run,
}
use eestv_lib.Discovery.Client.Order.{RequestInv}
use eestv_lib.Discovery.Client.Stop.{IsNoReset, NoReset}

-- A stop does not wait for the receive that a response starts: in a client whose requests are in
-- order, that was told to stop and still stores the callback, with a response handler and no send or
-- wait outstanding, a response of at least one byte posts the callback while a receive is outstanding.
pub response-receives :
    (x : ℕ) (xs : Text) (c : UdpDiscoveryClient)
    → RequestInv c
    → c.on_stopped ≡ true
    → c.on_response ≡ true
    → c.receives ≡ 1
    → c.sends ≡ 0
    → c.waits ≡ 0
    → let d = step (receive_done (bytes (x ∷ xs))) c in
      (d.posted_stopped ≡ c.posted_stopped + 1) × (d.receives ≡ 1)
unfolding step handle_response resolve_on_stopped
response-receives x xs c v a b r s w =
    ground (arith, v, clear_flag_laws c.flags receiving_async (omega arith))

-- A client that runs and has nothing that receives or will.
record Deaf (c : UdpDiscoveryClient) : Type 0 where
  is_running : has_flag c running ≡ true
  no_receive : c.posted_start + c.receives ≡ 0

step-Deaf :
    (e : Event) (c : UdpDiscoveryClient)
    → IsNoReset e
    → Deaf c
    → Deaf (step e c) × ((step e c).responses ≡ c.responses)
unfolding step async_start async_stop cancel_operations send_discovery_request handle_send_complete
    handle_timeout resolve_on_stopped
step-Deaf call_start c r v = ground arith
step-Deaf call_stop c r v = ground (arith, set_flag_laws c.flags stopping (omega arith))
step-Deaf call_reset c r v = absurd r
step-Deaf run_start c r v = ground arith
step-Deaf run_cancel c r v = ground arith
step-Deaf run_stopped c r v = ground arith
step-Deaf (send_done b) c r v = ground (
  arith,
  clear_flag_laws c.flags sending_async (omega arith),
  set_flag_laws c.flags timer_running (omega arith),
  clear_flag_laws (set_flag c.flags timer_running) sending_async (omega arith),
)
step-Deaf (wait_done b) c r v = ground (
  arith,
  clear_flag_laws c.flags timer_running (omega arith),
  set_flag_laws c.flags sending_async (omega arith),
  clear_flag_laws (set_flag c.flags sending_async) timer_running (omega arith),
)
step-Deaf (receive_done b) c r v = ground arith

run-Deaf :
    (es : List Event) (c : UdpDiscoveryClient)
    → NoReset es
    → Deaf c
    → (run es c).responses ≡ c.responses
unfolding run
run-Deaf [] c r v = refl
run-Deaf (e ∷ es) c r v =
    let (kept, same) = step-Deaf e c r.0 v in run-Deaf es (step e c) r.1 kept ∙ same

-- An empty response ends the receiving: in a client whose requests are in order, once the outstanding
-- receive has completed with no bytes, whatever events but `reset` follow, no response comes to the
-- handler.
pub empty_response-responses :
    (es : List Event) (c : UdpDiscoveryClient)
    → RequestInv c
    → c.receives ≡ 1
    → NoReset es
    → (run es (step (receive_done (bytes [])) c)).responses ≡ c.responses
unfolding step handle_response resolve_on_stopped
empty_response-responses es c v r n =
    ground (arith, run-Deaf es (step (receive_done (bytes [])) c) n deaf)
  where
    deaf : Deaf (step (receive_done (bytes [])) c)
    deaf = ground (arith, v, clear_flag_laws c.flags receiving_async (omega arith))
