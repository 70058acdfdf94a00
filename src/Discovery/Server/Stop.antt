-- ===== src/Discovery/Server/Stop.antt =====
-- When the stop of a discovery server completes.
use eestv_lib.Common.{◌+◌, ◌≤◌, ◌≡◌, Bool, true, List, [], ◌∷◌, arith}
use eestv_lib.Flags.Laws.{clear_flag_laws, clear_all_laws}
use eestv_lib.Discovery.{sending_async}
use eestv_lib.Discovery.Server.{
  UdpDiscoveryServer, make_server, resolve_on_stopped, handle_send, Event, send_done, step, run,
}
use eestv_lib.Discovery.Server.Order.{ServeInv, Allowed, step-ServeInv}

-- Every `reset` among the events comes after a stop that has completed.
abbrev pub AllAllowed : List Event → UdpDiscoveryServer → Type 0
AllAllowed [] s = Unit {0}
AllAllowed (e ∷ es) s = Allowed e s × AllAllowed es (step e s)

pub make_server-ServeInv : ServeInv make_server
unfolding make_server
make_server-ServeInv = ground (arith, clear_all_laws)

pub run-ServeInv :
    (es : List Event) (s : UdpDiscoveryServer) → AllAllowed es s → ServeInv s → ServeInv (run es s)
unfolding run
run-ServeInv [] s a v = v
run-ServeInv (e ∷ es) s a v = run-ServeInv es (step e s) a.1 (step-ServeInv e s a.0 v)

-- Every stop completes: after any events on a new discovery server in which `reset` comes only after a
-- completed stop, with no handler posted that starts or cancels and no send or receive outstanding,
-- the callback of every accepted stop was posted or called.
pub all_stops_complete :
    (es : List Event)
    → AllAllowed es make_server
    → (run es make_server).posted_start ≡ 0
    → (run es make_server).posted_cancel ≡ 0
    → (run es make_server).sends ≡ 0
    → (run es make_server).receives ≡ 0
    → let s = run es make_server in s.posted_stopped + s.stopped_calls ≡ s.stops
all_stops_complete es a p q r t =
    let s : UdpDiscoveryServer = run es make_server in
    ground (arith, run-ServeInv es make_server a make_server-ServeInv)

-- One flag stands for several sends: in a server whose flags are in order, that was told to stop and
-- still stores the callback, with no receive outstanding but at least two sends, the first send that
-- completes posts the callback while another is outstanding.
pub send_done-sends :
    (error : Bool) (s : UdpDiscoveryServer)
    → ServeInv s
    → s.on_stopped ≡ true
    → s.receives ≡ 0
    → 2 ≤ s.sends
    → let t = step (send_done error) s in (t.posted_stopped ≡ s.posted_stopped + 1) × (1 ≤ t.sends)
unfolding step handle_send resolve_on_stopped
send_done-sends error s v o r t =
    ground (arith, v, clear_flag_laws s.flags sending_async (omega arith))
