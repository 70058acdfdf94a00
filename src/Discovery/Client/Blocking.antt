-- ===== src/Discovery/Client/Blocking.antt =====
-- The blocking `stop` of the discovery client.
use eestv_lib.Common.{◌≡◌, refl, ◌∙◌, Bool, true, false, Option, none, List, [], ◌∷◌, arith}
use eestv_lib.BlockingStop.{Stoppable, stop, stop-none}
use eestv_lib.Discovery.{running, stopping}
use eestv_lib.Discovery.Client.{UdpDiscoveryClient, has_flag, async_stop, Event, step, run}
use eestv_lib.Discovery.Client.Order.{RequestInv}
use eestv_lib.Discovery.Client.Stop.{
  outstanding, Hung, IsNoReset, NoReset, step-Hung, idle_stop-Hung,
}

pub run_nothing : (c : UdpDiscoveryClient) → run [] c ≡ c
unfolding run
run_nothing c = refl

pub run_more :
    (e : Event) (es : List Event) (c : UdpDiscoveryClient) → run (e ∷ es) c ≡ run es (step e c)
unfolding run
run_more e es c = refl

abbrev pub stoppable : Stoppable UdpDiscoveryClient Event
stoppable = record {
  async_stop = async_stop;
  step = step;
  run = run;
  stops = λ c. c.stops;
  stopped_calls = λ c. c.stopped_calls;
  run-nil = run_nothing;
  run-cons = run_more;
}

-- `UdpDiscoveryClient::stop`, and what happens while it waits.
abbrev pub blocking_stop : Bool → List Event → UdpDiscoveryClient → Option UdpDiscoveryClient
blocking_stop = stop stoppable

-- The blocking `stop` of a client whose work has come to an end never returns: where a client whose
-- requests are in order runs, is not stopping, and has no posted start, send, wait or receive
-- outstanding and no stop callback posted, it still spins after whatever events but `reset`.
pub blocking_stop-spins :
    (es : List Event) (c : UdpDiscoveryClient)
    → RequestInv c
    → has_flag c running ≡ true
    → has_flag c stopping ≡ false
    → outstanding c ≡ 0
    → c.posted_stopped ≡ 0
    → NoReset es
    → blocking_stop false es c ≡ none
blocking_stop-spins es c v a b o p r =
    let (accepted, hung, calls, stops) = idle_stop-Hung c a b o p in
    stop-none stoppable (λ d. Hung d × (d.stopped_calls ≡ c.stopped_calls)) IsNoReset es c kept
      accepted (λ d w. ground (arith, v, stops, w)) r (hung, calls)
  where
    kept :
        (e : Event) (d : UdpDiscoveryClient)
        → IsNoReset e
        → Hung d × (d.stopped_calls ≡ c.stopped_calls)
        → Hung (step e d) × ((step e d).stopped_calls ≡ c.stopped_calls)
    kept e d q (w, same) = let (kept, calls) = step-Hung e d q w in (kept, calls ∙ same)
