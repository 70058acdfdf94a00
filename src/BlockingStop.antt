-- ===== src/BlockingStop.antt =====
-- The blocking `stop` of the classes of eestv/net, which is the same code in each: tcp_connection.hpp,
-- tcp_client.cpp, tcp_server.hpp, udp_discovery_client.cpp and udp_discovery_server.cpp.
--
-- A class comes as an interface of its operations with the laws of `run`. While `stop` spins, the other
-- threads go on: `wait` takes the events that happen meanwhile, and looks for the callback before each
-- and behind the last. It gives nothing where it still spins then. Stop callbacks run in the order of
-- their stops, so that the one of this stop has run when as many have run as stops were accepted.
use eestv_lib.Common.{
  ℕ, ◌≡◌, refl, ◌∙◌, ap, sym, Bool, true, false, Option, none, some, List, [], ◌∷◌, ◌++◌, arith,
  leb, subst, if◌then◌else◌, Bool-cases, inl, inr,
}

pub record Stoppable (S E : Type 0) : Type 0 where
  pub async_stop : S → S × Bool
  pub step : E → S → S
  pub run : List E → S → S
  pub stops : S → ℕ
  pub stopped_calls : S → ℕ
  pub run-nil : (s : S) → run [] s ≡ s
  pub run-cons : (e : E) (es : List E) (s : S) → run (e ∷ es) s ≡ run es (step e s)

abbrev pub AllEvents : {E : Type 0} → (E → Type 0) → List E → Type 0
AllEvents Q [] = Unit {0}
AllEvents Q (e ∷ es) = Q e × AllEvents Q es

-- Any events.
pub any_events : {E : Type 0} (es : List E) → AllEvents (λ e. Unit {0}) es
any_events [] = tt
any_events (e ∷ es) = (tt, any_events es)

module _ {S E : Type 0} (class : Stoppable S E) where
  -- `while (!stopped)`
  unfoldable pub wait : ℕ → List E → S → Option S
  wait accepted [] s = if leb accepted (class.stopped_calls s) then some s else none
  wait accepted (e ∷ es) s =
      let rest = wait accepted es (class.step e s) in
      if leb accepted (class.stopped_calls s) then some s else rest

  unfoldable pub stop : Bool → List E → S → Option S
  unfolding wait
  stop is_on_io_thread es s =
      if is_on_io_thread
      then some s
      else (let (t, accepted) = class.async_stop s in
          if accepted then wait (class.stops t) es t else some t)

  wait-returns :
      (n : ℕ) (es : List E) (s : S)
      → leb n (class.stopped_calls (class.run es s)) ≡ true
      → (t : S) × (wait n es s ≡ some t)
  unfolding wait
  wait-returns n [] s h = (s, ground (arith, h, ap class.stopped_calls (class.run-nil s)))
  wait-returns n (e ∷ es) s h = elim (Bool-cases (leb n (class.stopped_calls s))) [
    | inl done ↦ (s, ground (arith, done))
    | inr spinning ↦
        let (t, found) =
          wait-returns n es (class.step e s)
            (ap (λ r. leb n (class.stopped_calls r)) (sym (class.run-cons e es s)) ∙ h) in
        (t, ground (arith, spinning, found))
  ]

  -- A stop returns if it comes from the thread of the handlers, if it is not accepted, or if as many
  -- callbacks as stops were accepted have run when the events are over.
  pub stop-returns :
      (is_on_io_thread : Bool) (es : List E) (s : S)
      → let (t, accepted) = class.async_stop s in
        (accepted ≡ true → leb (class.stops t) (class.stopped_calls (class.run es t)) ≡ true)
        → (u : S) × (stop is_on_io_thread es s ≡ some u)
  unfolding stop
  stop-returns true es s h = (s, refl)
  stop-returns false es s h = elim (Bool-cases (class.async_stop s).1) [
    | inr refused ↦ ((class.async_stop s).0, ground (arith, refused))
    | inl accepted ↦
        let (u, found) =
          wait-returns (class.stops (class.async_stop s).0) es (class.async_stop s).0
            (h accepted) in
        (u, ground (arith, accepted, found))
  ]

  wait-none :
      (P : S → Type 0) (Q : E → Type 0) (n : ℕ) (es : List E) (s : S)
      → ((e : E) (r : S) → Q e → P r → P (class.step e r))
      → ((r : S) → P r → leb n (class.stopped_calls r) ≡ false)
      → AllEvents Q es
      → P s
      → wait n es s ≡ none
  unfolding wait
  wait-none P Q n [] s keeps spins q v = rw (spins s v) refl
  wait-none P Q n (e ∷ es) s keeps spins q v =
      rw (spins s v) (wait-none P Q n es (class.step e s) keeps spins q.1 (keeps e s q.0 v))

  -- A stop that is accepted never returns where what the events keep rules out its callback.
  pub stop-none :
      (P : S → Type 0) (Q : E → Type 0) (es : List E) (s : S)
      → ((e : E) (r : S) → Q e → P r → P (class.step e r))
      → (class.async_stop s).1 ≡ true
      → ((r : S) → P r → leb (class.stops (class.async_stop s).0) (class.stopped_calls r) ≡ false)
      → AllEvents Q es
      → P (class.async_stop s).0
      → stop false es s ≡ none
  unfolding stop
  stop-none P Q es s keeps accepted spins q v =
      rw accepted (
        wait-none P Q (class.stops (class.async_stop s).0) es (class.async_stop s).0 keeps spins q
          v)

  pub run-append :
      (before after : List E) (s : S)
      → class.run (before ++ after) s ≡ class.run after (class.run before s)
  run-append [] after s = ap (class.run after) (sym (class.run-nil s))
  run-append (e ∷ es) after s =
      class.run-cons e (es ++ after) s
      ∙ run-append es after (class.step e s)
      ∙ ap (class.run after) (sym (class.run-cons e es s))

  -- What every event keeps holds after all of them.
  pub run-keeps :
      (P : S → Type 0)
      → ((e : E) (r : S) → P r → P (class.step e r))
      → (es : List E) (s : S) → P s
      → P (class.run es s)
  run-keeps P keeps [] s v = subst P (sym (class.run-nil s)) v
  run-keeps P keeps (e ∷ es) s v =
      subst P (sym (class.run-cons e es s)) (run-keeps P keeps es (class.step e s) (keeps e s v))
