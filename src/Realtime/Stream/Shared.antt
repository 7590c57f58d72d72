-- ===== src/Realtime/Stream/Shared.antt =====
-- The handler on a hub that it shares: between its turns others publish, subscribe, give up their
-- subscriptions, receive from their channels and close the hub.
pub mod Serving
use compose_monitor.Base.{
  ℕ, ◌<◌, ◌≤◌, ◌≡◌, refl, ◌∙◌, ap, sym, subst, Bool, true, false, List, [], ◌∷◌, Option, none, some,
  All, map, arith, nat_eq, Bool-cases, Option-cases, inl, inr, if◌then◌else◌, bytes,
}
use compose_monitor.Base.Failure.{Result, ok, err}
use compose_monitor.Base.Dict.{lookup}
use compose_monitor.Domain.{Service}
use compose_monitor.App.Monitor.{MonitorService, MonitorState, list_services}
use compose_monitor.Realtime.Hub.{
  Hub, Received, event, ended, waits, unsubscribe, receive, is_released, close_channel, subscribe,
  ◌>>=◌,
}
use compose_monitor.Realtime.Hub.Invariant.{IsSound}
use compose_monitor.Realtime.Hub.Runs.{Operation, operate, operate-IsSound}
use compose_monitor.Realtime.Hub.Changes.{gives_up, operate-IsLater}
use compose_monitor.Realtime.Stream.{
  Connection, Draw, View, Session, Turn, context_done, received, ticked, finish, go_on,
  take_received, turn, connect, greet, write_comment, write_change, write_sync, take_turn,
  take_services, with_world,
}
use compose_monitor.Realtime.Stream.Releases.{
  IsServing, is_given_up, is_registered, connect-IsServing, turn-IsServing, greet-IsServing,
}

-- A subscription has a number that was handed out.
abbrev pub IsIssued : Option ℕ → Hub → Type 0
IsIssued none h = Unit
IsIssued (some id) h = id < h.next_id

-- An operation of others: only the handler gives its subscription up.
abbrev pub spares : Option ℕ → Operation → Bool
spares none o = false
spares (some id) o = gives_up id o

abbrev Spared : Option ℕ → Operation → Hub → Type 0
Spared own o h =
    (h' : Hub) × (operate o h ≡ some h')
    × IsSound h'
    × (is_given_up own h' ≡ is_given_up own h)
    × (is_registered own h ≡ false → is_registered own h' ≡ false)
    × IsIssued own h'

operate-spares :
    (own : Option ℕ) (o : Operation) (h : Hub)
    → IsSound h
    → IsIssued own h
    → spares own o ≡ false
    → Spared own o h
operate-spares none o h v issued other =
    let (h', e, v') = operate-IsSound o h v in (h', e, v', refl, λ _. refl, tt)
operate-spares (some id) o h v issued other =
    let (h', e, v') = operate-IsSound o h v in
    let (h'', e', later) = operate-IsLater id o h v other in
    let same : h'' ≡ h' = ground (arith, e, e') in
    subst
      (λ k.
        (h' : Hub) × (operate o h ≡ some h')
        × IsSound h'
        × (is_given_up (some id) h' ≡ is_given_up (some id) h)
        × (is_registered (some id) h ≡ false → is_registered (some id) h' ≡ false)
        × IsIssued (some id) h')
      same
      (
        h'',
        e',
        subst IsSound (sym same) v',
        later.same,
        unregistered h'' later.gone,
        omega (arith, later.numbers),
      )
  where
    unregistered :
        (h'' : Hub)
        → (id < h.next_id → lookup id h.subs ≡ none → lookup id h''.subs ≡ none)
        → is_registered (some id) h ≡ false
        → is_registered (some id) h'' ≡ false
    unregistered h'' gone absent = elim (Option-cases (lookup id h.subs)) [
      | inl missing ↦ ground (arith, gone issued missing)
      | inr (a, own) ↦ absurd (ground arith)
    ]

-- What a step of the handler leaves of its subscription and of the hub's numbers.
abbrev Keeps : {W : Type 0} → Session W → Session W → Type 0
Keeps s s' = (s'.subscription ≡ s.subscription) × (s.hub.next_id ≤ s'.hub.next_id)

unsubscribe-numbers :
    (own : Option ℕ) (h h' : Hub) → unsubscribe own h ≡ some h' → h.next_id ≤ h'.next_id
unfolding unsubscribe
unsubscribe-numbers none h h' e = ground arith
unsubscribe-numbers (some id) h h' e = elim (Bool-cases (is_released id h.released)) [
  | inl done ↦ ground arith
  | inr first ↦ elim (Option-cases (lookup id h.subs)) [
    | inl gone ↦ ground arith
    | inr (a, own) ↦ elim (Option-cases (close_channel a h.store)) [
      | inl broken ↦ absurd (ground arith)
      | inr (store, shut) ↦ ground arith
    ]
  ]
]

finish-Keeps : {W : Type 0} (s s' : Session W) → finish s ≡ some s' → Keeps s s'
unfolding finish
finish-Keeps s s' e = elim (Option-cases (unsubscribe s.subscription s.hub)) [
  | inl broken ↦ absurd (ground arith)
  | inr (h, done) ↦
      let same : record s { hub = h; over = true } ≡ s' = ground arith in
      subst (Keeps s) same (refl, unsubscribe-numbers s.subscription s.hub h done)
]

go_on-Keeps :
    {W : Type 0} (s s' : Session W) (r : Result (Unit {0}) × W) → go_on s r ≡ some s' → Keeps s s'
unfolding go_on
go_on-Keeps s s' (ok _, w) e =
    let same : with_world s w ≡ s' = ground arith in subst (Keeps s) same (refl, omega arith)
go_on-Keeps s s' (err f, w) e = finish-Keeps (with_world s w) s' e

module _ {W : Type 0} (c : Connection W) (draw : Draw W) (controllable : Bool) (view : View) where
  take_received-Keeps :
      (s s' : Session W) (r : Received)
      → take_received c draw controllable view s r ≡ some s'
      → Keeps s s'
  unfolding take_received
  take_received-Keeps s s' (event f) e = go_on-Keeps s s' _ e
  take_received-Keeps s s' ended e = finish-Keeps s s' e
  take_received-Keeps s s' waits e =
      let same : s ≡ s' = ground arith in subst (Keeps s) same (refl, omega arith)

  take_turn-Keeps :
      (t : Turn) (s s' : Session W) → take_turn c draw controllable view t s ≡ some s' → Keeps s s'
  unfolding take_turn receive
  take_turn-Keeps context_done s s' e = finish-Keeps s s' e
  take_turn-Keeps received s s' e =
      take_received-Keeps (record s { hub = (receive s.address s.hub).0 }) s'
        (receive s.address s.hub).1 e
  take_turn-Keeps ticked s s' e = go_on-Keeps s s' _ e

  turn-Keeps :
      (t : Turn) (s s' : Session W) → turn c draw controllable view t s ≡ some s' → Keeps s s'
  unfolding turn
  turn-Keeps t s s' e = elim (Bool-cases s.over) [
    | inl over ↦ let same : s ≡ s' = ground arith in subst (Keeps s) same (refl, omega arith)
    | inr on ↦ take_turn-Keeps t s s' (ground arith)
  ]

  take_services-Keeps :
      (r : Result (List Service)) (s s' : Session W)
      → take_services c draw controllable view r s ≡ some s'
      → Keeps s s'
  unfolding take_services
  take_services-Keeps (ok found) s s' e = go_on-Keeps s s' _ e
  take_services-Keeps (err f) s s' e =
      finish-Keeps
        (with_world s (c.refuse 503 (bytes "container runtime unavailable") s.monitor.world)) s' e
