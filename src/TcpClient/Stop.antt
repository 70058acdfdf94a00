-- ===== src/TcpClient/Stop.antt =====
-- What a client's callbacks can rely on.
use eestv_lib.Common.{count, ℕ, ◌+◌, ◌<◌, ◌≡◌, refl, true, false, List, [], ◌∷◌, arith}
use eestv_lib.Flags.{set_flag, clear_flag}
use eestv_lib.Flags.Laws.{set_flag_laws, clear_flag_laws, clear_all_laws}
use eestv_lib.TcpClient.{
  Client, has_flag, schedule_resolving, resolving, connecting, stopping, stop_signaled, make_client,
  resolve_on_stopped, async_connect, async_resolve, handle_resolve, handle_connect, async_stop,
  cancel_operations, reset, Event, call_connect, call_stop, call_reset, run_resolve, run_cancel,
  run_failed, run_stopped, lookup_done, attempt_done, step, run,
}
use eestv_lib.TcpClient.Order.{busy, PhaseInv, Allowed, step-PhaseInv}

-- Every `reset` among the events comes when nothing is under way.
abbrev pub AllAllowed : List Event → Client → Type 0
AllAllowed [] c = Unit {0}
AllAllowed (e ∷ es) c = Allowed e c × AllAllowed es (step e c)

pub make_client-PhaseInv : PhaseInv make_client
unfolding make_client
make_client-PhaseInv = ground (arith, clear_all_laws)

-- After any events in which `reset` comes only when nothing is under way, a client that kept its
-- phases in order keeps them: at most one of `schedule_resolving`, `resolving` and `connecting` is set,
-- each exactly while its handler, lookup or attempt is outstanding; every accepted stop has its
-- callback stored, posted or called; and no connection callback is called twice.
pub run-PhaseInv :
    (es : List Event) (c : Client) → AllAllowed es c → PhaseInv c → PhaseInv (run es c)
unfolding run
run-PhaseInv [] c a v = v
run-PhaseInv (e ∷ es) c a v = run-PhaseInv es (step e c) a.1 (step-PhaseInv e c a.0 v)

-- A stop completes: after any events on a new client in which `reset` comes only when nothing is under
-- way, with no handler but callbacks posted, no lookup and no attempt, the stop callback of every
-- accepted stop is posted or was called.
pub stops_complete :
    (es : List Event)
    → AllAllowed es make_client
    → (run es make_client).posted_resolve ≡ 0
    → (run es make_client).posted_cancel ≡ 0
    → (run es make_client).lookups ≡ 0
    → (run es make_client).attempts ≡ 0
    → (run es make_client).posted_stopped + (run es make_client).stopped_calls
      ≡ (run es make_client).stops
stops_complete es a p q l t =
    let c : Client = run es make_client in
    ground (arith, run-PhaseInv es make_client a make_client-PhaseInv)

posting :
    (e : Event) (c : Client)
    → c.posted_stopped < (step e c).posted_stopped
    → busy (step e c) + count (has_flag (step e c) stopping) ≡ 0
unfolding step async_connect async_resolve handle_resolve handle_connect async_stop
    cancel_operations resolve_on_stopped reset
posting call_connect c h = ground arith
posting call_stop c h = ground arith
posting call_reset c h = ground arith
posting run_resolve c h = ground arith
posting run_cancel c h = ground arith
posting run_failed c h = ground arith
posting run_stopped c h = ground arith
posting (lookup_done true) c h = ground arith
posting (lookup_done false) c h = ground arith
posting (attempt_done true) c h = ground arith
posting (attempt_done false) c h = ground arith

-- The stop callback comes last: in a client whose phases are in order, an event (a `reset` only when
-- nothing is under way) that posts it leaves no handler that resolves or cancels posted, no lookup
-- and no attempt.
pub posts_stopped-quiet :
    (e : Event) (c : Client)
    → Allowed e c
    → PhaseInv c
    → c.posted_stopped < (step e c).posted_stopped
    → let d = step e c in
      (d.posted_resolve ≡ 0) × (d.posted_cancel ≡ 0) × (d.lookups ≡ 0) × (d.attempts ≡ 0)
posts_stopped-quiet e c a v h = ground (arith, step-PhaseInv e c a v, posting e c h)

-- Without a stop: each accepted connection attempt has its callback stored, posted or called, and it
-- is stored exactly while the attempt is under way.
record AnswerInv (c : Client) : Type 0 where
  phases : PhaseInv c
  not_signaled : has_flag c stop_signaled ≡ false
  stored : count c.on_connection_complete ≡ busy c
  counted : count c.on_connection_complete + c.posted_failed + c.failures + c.successes ≡ c.connects

abbrev pub stops_called : List Event → ℕ
stops_called [] = 0
stops_called (call_stop ∷ es) = 1 + stops_called es
stops_called (e ∷ es) = stops_called es

step-AnswerInv :
    (e : Event) (c : Client)
    → stops_called (e ∷ []) ≡ 0
    → Allowed e c
    → AnswerInv c
    → AnswerInv (step e c)
unfolding step async_connect async_resolve handle_resolve handle_connect cancel_operations
    resolve_on_stopped reset
step-AnswerInv call_connect c s a v = ground (
  arith,
  step-PhaseInv call_connect c a v.phases,
  set_flag_laws c.flags schedule_resolving (omega arith),
)
step-AnswerInv call_stop c s a v = absurd (omega arith)
step-AnswerInv call_reset c s a v =
    ground (arith, step-PhaseInv call_reset c a v.phases, clear_all_laws)
step-AnswerInv run_resolve c s a v = ground (
  arith,
  step-PhaseInv run_resolve c a v.phases,
  clear_flag_laws c.flags schedule_resolving (omega arith),
  set_flag_laws (clear_flag c.flags schedule_resolving) resolving (omega arith),
)
step-AnswerInv run_cancel c s a v =
    ground
      (arith, step-PhaseInv run_cancel c a v.phases, clear_flag_laws c.flags stopping (omega arith))
step-AnswerInv run_failed c s a v = ground (arith, step-PhaseInv run_failed c a v.phases)
step-AnswerInv run_stopped c s a v = ground (arith, step-PhaseInv run_stopped c a v.phases)
step-AnswerInv (lookup_done true) c s a v = ground (
  arith,
  step-PhaseInv (lookup_done true) c a v.phases,
  clear_flag_laws c.flags resolving (omega arith),
)
step-AnswerInv (lookup_done false) c s a v = ground (
  arith,
  step-PhaseInv (lookup_done false) c a v.phases,
  set_flag_laws c.flags connecting (omega arith),
  clear_flag_laws (set_flag c.flags connecting) resolving (omega arith),
)
step-AnswerInv (attempt_done error_code) c s a v = ground (
  arith,
  step-PhaseInv (attempt_done error_code) c a v.phases,
  clear_flag_laws c.flags connecting (omega arith),
)

run-AnswerInv :
    (es : List Event) (c : Client)
    → stops_called es ≡ 0
    → AllAllowed es c
    → AnswerInv c
    → AnswerInv (run es c)
unfolding run
run-AnswerInv [] c s a v = v
run-AnswerInv (e ∷ es) c s a v =
    run-AnswerInv es (step e c) (later e s) a.1 (step-AnswerInv e c (first e s) a.0 v)
  where
    first : (e : Event) → stops_called (e ∷ es) ≡ 0 → stops_called (e ∷ []) ≡ 0
    first call_connect s = refl
    first call_stop s = absurd (omega arith)
    first call_reset s = refl
    first run_resolve s = refl
    first run_cancel s = refl
    first run_failed s = refl
    first run_stopped s = refl
    first (lookup_done b) s = refl
    first (attempt_done b) s = refl

    later : (e : Event) → stops_called (e ∷ es) ≡ 0 → stops_called es ≡ 0
    later call_connect s = s
    later call_stop s = absurd (omega arith)
    later call_reset s = s
    later run_resolve s = s
    later run_cancel s = s
    later run_failed s = s
    later run_stopped s = s
    later (lookup_done b) s = s
    later (attempt_done b) s = s

make_client-AnswerInv : AnswerInv make_client
unfolding make_client
make_client-AnswerInv = ground (arith, clear_all_laws, make_client-PhaseInv)

-- Every connection attempt is answered: after any events on a new client without a stop, in which
-- `reset` comes only when nothing is under way, with no handler that resolves posted, no lookup and no
-- attempt, each call of `async_connect` that returned true has had its callback called, with the
-- socket or with an error, or posted with an error.
pub connects_answered :
    (es : List Event)
    → stops_called es ≡ 0
    → AllAllowed es make_client
    → (run es make_client).posted_resolve ≡ 0
    → (run es make_client).lookups ≡ 0
    → (run es make_client).attempts ≡ 0
    → let c = run es make_client in c.posted_failed + c.failures + c.successes ≡ c.connects
connects_answered es s a p l t =
    let c : Client = run es make_client in
    let v : AnswerInv c = run-AnswerInv es make_client s a make_client-AnswerInv in
    ground (arith, v, v.phases)

-- After any events on a new client without a stop, in which `reset` comes only when nothing is under
-- way, each call of `async_connect` that returned true has its handler, its lookup or its attempt under
-- way, or has had its callback called, or posted with an error.
pub connects_accounted :
    (es : List Event)
    → stops_called es ≡ 0
    → AllAllowed es make_client
    → let c = run es make_client in
      c.posted_failed + c.failures + c.successes + (c.posted_resolve + c.lookups + c.attempts)
      ≡ c.connects
connects_accounted es s a =
    let c : Client = run es make_client in
    let v : AnswerInv c = run-AnswerInv es make_client s a make_client-AnswerInv in
    ground (arith, v, v.phases)
