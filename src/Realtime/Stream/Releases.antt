-- ===== src/Realtime/Stream/Releases.antt =====
-- The handler's subscription, when the handler returns.
use compose_monitor.Base.{
  ℕ, ◌≡◌, refl, Bool, true, false, Option, none, some, List, [], ◌∷◌, arith, bytes, Bool-cases,
  Option-cases, inl, inr, nat_eq, nat_beq_iff, if◌then◌else◌, ap, ◌∙◌,
}
use compose_monitor.Base.Failure.{Result, ok, err}
use compose_monitor.Base.Dict.{lookup, lookup-erase}
use compose_monitor.App.Monitor.{MonitorService, MonitorState, list_services}
use compose_monitor.Domain.{Service}
use compose_monitor.Realtime.Hub.{
  Hub, Received, event, ended, waits, unsubscribe, receive, is_released, close_channel, ◌>>=◌,
  subscribe,
}
use compose_monitor.Realtime.Hub.Invariant.{IsSound}
use compose_monitor.Realtime.Hub.Release.{unsubscribe_once}
use compose_monitor.Realtime.Hub.Runs.{receive-IsSound}
use compose_monitor.Realtime.Hub.Subscriptions.{subscribe-IsSound}
use compose_monitor.Realtime.Stream.{
  Connection, Draw, View, Session, Turn, context_done, received, ticked, finish, go_on,
  take_received, turn, connect, greet, write_comment, take_turn, take_services, write_sync,
  with_world, turns, stream,
}

-- A subscription that was never given up is registered until it is.
abbrev pub is_registered : Option ℕ → Hub → Bool
is_registered none h = false
is_registered (some id) h = elim (lookup id h.subs) [ none ↦ false | some a ↦ true ]

abbrev pub is_given_up : Option ℕ → Hub → Bool
is_given_up none h = false
is_given_up (some id) h = is_released id h.released

-- The handler serves with a subscription that it has not given up, or has returned and has none
-- registered.
pub record IsServing {W : Type 0} (s : Session W) : Type 0 where
  pub sound : IsSound s.hub
  pub held : s.over ≡ false → is_given_up s.subscription s.hub ≡ false
  pub released : s.over ≡ true → is_registered s.subscription s.hub ≡ false

unsubscribe-registered :
    (id : Option ℕ) (h h' : Hub)
    → IsSound h
    → is_given_up id h ≡ false
    → unsubscribe id h ≡ some h'
    → is_registered id h' ≡ false
unfolding unsubscribe
unsubscribe-registered none h h' v held e = refl
unsubscribe-registered (some id) h h' v held e = elim (Option-cases (lookup id h.subs)) [
  | inl gone ↦ ground arith
  | inr (a, own) ↦ elim (Option-cases (close_channel a h.store)) [
    | inl broken ↦ absurd (ground arith)
    | inr (store, shut) ↦ ground (arith, lookup-erase id id h.subs v.keyed, nat_beq_iff id id)
  ]
]

finish-IsServing :
    {W : Type 0} (s : Session W)
    → IsSound s.hub
    → is_given_up s.subscription s.hub ≡ false
    → (s' : Session W) × (finish s ≡ some s') × IsServing s'
unfolding finish
finish-IsServing s v held =
    let (h, e, v', _) = unsubscribe_once s.subscription s.hub v in
    (
      record s { hub = h; over = true },
      rw (e, finish) refl,
      record {
        sound = v';
        held = λ e. cc;
        released = λ _. unsubscribe-registered s.subscription s.hub h v held e;
      },
    )

go_on-IsServing :
    {W : Type 0} (s : Session W) (r : Result (Unit {0}) × W)
    → IsServing s
    → s.over ≡ false
    → (s' : Session W) × (go_on s r ≡ some s') × IsServing s'
unfolding go_on
go_on-IsServing s (ok _, w) v on =
    (_, refl, record { sound = v.sound; held = v.held; released = v.released })
go_on-IsServing s (err e, w) v on =
    finish-IsServing (record s { monitor = record (s.monitor) { world = w } }) v.sound (v.held on)

pub connect-IsServing :
    {W : Type 0} (h : Hub) (s : MonitorState W)
    → IsSound h
    → is_released h.next_id h.released ≡ false
    → IsServing (connect h s)
unfolding connect subscribe
connect-IsServing h s v free = record {
  sound = subscribe-IsSound h v;
  held = λ _. ground arith;
  released = λ e. cc;
}

module _ {W : Type 0} (c : Connection W) (draw : Draw W) (controllable : Bool) (view : View) where
  take_received-IsServing :
      (s : Session W) (r : Received)
      → IsServing s
      → s.over ≡ false
      → (s' : Session W) × (take_received c draw controllable view s r ≡ some s') × IsServing s'
  unfolding take_received
  take_received-IsServing s (event e) v on = go_on-IsServing s _ v on
  take_received-IsServing s ended v on = finish-IsServing s v.sound (v.held on)
  take_received-IsServing s waits v on = (s, refl, v)

  given_up-receive :
      (id : Option ℕ) (a : ℕ) (h : Hub) → is_given_up id (receive a h).0 ≡ is_given_up id h
  unfolding receive
  given_up-receive none a h = refl
  given_up-receive (some id) a h = refl

  after_receive :
      (s : Session W)
      → IsServing s
      → s.over ≡ false
      → IsServing (record s { hub = (receive s.address s.hub).0 })
  after_receive s v on = record {
    sound = receive-IsSound s.address s.hub v.sound;
    held = λ e. given_up-receive s.subscription s.address s.hub ∙ v.held e;
    released = λ e. cc;
  }

  take_turn-IsServing :
      (t : Turn) (s : Session W)
      → IsServing s
      → s.over ≡ false
      → (s' : Session W) × (take_turn c draw controllable view t s ≡ some s') × IsServing s'
  unfolding take_turn
  take_turn-IsServing context_done s v on = finish-IsServing s v.sound (v.held on)
  take_turn-IsServing received s v on =
      take_received-IsServing (record s { hub = (receive s.address s.hub).0 })
        (receive s.address s.hub).1 (after_receive s v on) on
  take_turn-IsServing ticked s v on = go_on-IsServing s (write_comment c s.monitor.world) v on

  pub turn-IsServing :
      (t : Turn) (s : Session W)
      → IsServing s
      → (s' : Session W) × (turn c draw controllable view t s ≡ some s') × IsServing s'
  unfolding turn
  turn-IsServing t s v =
      let choose = λ (b : Bool). if b then some s else take_turn c draw controllable view t s in
      elim (Bool-cases s.over) [
        | inl over ↦ (s, ap choose over, v)
        | inr on ↦ let (s', e, v') = take_turn-IsServing t s v on in (s', ap choose on ∙ e, v')
      ]

  take_services-IsServing :
      (r : Result (List Service)) (s : Session W)
      → IsServing s
      → s.over ≡ false
      → (s' : Session W) × (take_services c draw controllable view r s ≡ some s') × IsServing s'
  unfolding take_services
  take_services-IsServing (ok found) s v on =
      go_on-IsServing s (write_sync c draw controllable view found s.monitor.world) v on
  take_services-IsServing (err e) s v on =
      finish-IsServing
        (with_world s (c.refuse 503 (bytes "container runtime unavailable") s.monitor.world))
        v.sound (v.held on)

  module _ (m : MonitorService W) where
    turns-IsServing :
        (ts : List Turn) (s : Session W)
        → IsServing s
        → (s' : Session W) × (turns c draw controllable view m ts s ≡ some s') × IsServing s'
    unfolding turns
    turns-IsServing [] s v = (s, refl, v)
    turns-IsServing (t ∷ ts) s v =
        let (s', e, v') = turn-IsServing t s v in
        let (s'', e', v'') = turns-IsServing ts s' v' in
        (s'', ap (λ o. o >>= turns c draw controllable view m ts) e ∙ e', v'')

    pub greet-IsServing :
        (s : Session W)
        → IsServing s
        → s.over ≡ false
        → (s' : Session W) × (greet c draw controllable view m s ≡ some s') × IsServing s'
    unfolding greet
    greet-IsServing s v on =
        take_services-IsServing (list_services m s.monitor).0
          (record s { monitor = (list_services m s.monitor).1 })
          (record { sound = v.sound; held = v.held; released = v.released }) on

    -- From a hub in order, whose next number was not given up, and whatever turns the handler
    -- takes: it never sends on or closes a closed channel, the hub stays in order, and once the
    -- handler has returned, be it that the services could not be read, a write failed, the hub was
    -- closed or the client went away, its subscription is not registered any more.
    pub stream-IsServing :
        (h : Hub) (s : MonitorState W) (ts : List Turn)
        → IsSound h
        → is_released h.next_id h.released ≡ false
        → (s' : Session W) × (stream c draw controllable view m h s ts ≡ some s') × IsServing s'
    unfolding stream
    stream-IsServing h s ts v free =
        let (s', e, v') =
          greet-IsServing (connect h s) (connect-IsServing h s v free) (unfold connect in refl) in
        let (s'', e', v'') = turns-IsServing ts s' v' in
        (s'', ap (λ o. o >>= turns c draw controllable view m ts) e ∙ e', v'')
