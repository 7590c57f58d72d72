-- ===== src/Realtime/Stream/Shared/Serving.antt =====
-- Every interleaving of the handler's turns with what others do to the hub.
use compose_monitor.Base.{
  ℕ, ◌≤◌, ◌≡◌, refl, ◌∙◌, ap, sym, subst, Bool, false, List, [], ◌∷◌, Option, none, some, All,
  arith, nat_eq, Bool-cases, inl, inr,
}
use compose_monitor.App.Monitor.{MonitorService, MonitorState, list_services}
use compose_monitor.Realtime.Hub.{Hub, is_released, subscribe, ◌>>=◌}
use compose_monitor.Realtime.Hub.Invariant.{IsSound}
use compose_monitor.Realtime.Hub.Runs.{Operation, operate}
use compose_monitor.Realtime.Stream.{Connection, Draw, View, Session, Turn, turn, connect, greet}
use compose_monitor.Realtime.Stream.Releases.{
  IsServing, connect-IsServing, turn-IsServing, greet-IsServing,
}
use compose_monitor.Realtime.Stream.Shared.{
  IsIssued, spares, Keeps, operate-spares, turn-Keeps, take_services-Keeps,
}

-- A turn of the handler, or an operation of others on the hub.
pub data Step : Type 0 where
  mine : Turn → Step
  theirs : Operation → Step

abbrev pub IsOther : Option ℕ → Step → Type 0
IsOther own (mine t) = Unit
IsOther own (theirs o) = spares own o ≡ false

-- What is kept: the handler serves the subscription that it was given, whose number was handed out.
record Holds {W : Type 0} (own : Option ℕ) (s : Session W) : Type 0 where
  serving : IsServing s
  owner : s.subscription ≡ own
  issued : IsIssued s.subscription s.hub

IsIssued-later :
    (own : Option ℕ) (h h' : Hub) → h.next_id ≤ h'.next_id → IsIssued own h → IsIssued own h'
IsIssued-later none h h' more issued = tt
IsIssued-later (some id) h h' more issued = omega arith

kept-Holds :
    {W : Type 0} (own : Option ℕ) (s s' : Session W)
    → Holds own s
    → IsServing s'
    → Keeps s s'
    → Holds own s'
kept-Holds own s s' v serving (same, more) = record {
  serving = serving;
  owner = same ∙ v.owner;
  issued =
      subst (λ o. IsIssued o s'.hub) (sym same)
        (IsIssued-later s.subscription s.hub s'.hub more v.issued);
}

connect-IsIssued :
    {W : Type 0} (h : Hub) (s : MonitorState W)
    → IsIssued (connect h s).subscription (connect h s).hub
unfolding connect subscribe
connect-IsIssued h s = elim (Bool-cases h.closed) [
  | inl over ↦ rw (over, connect, subscribe) tt
  | inr running ↦ rw (running, connect, subscribe) (omega arith)
]

module _ {W : Type 0} (c : Connection W) (draw : Draw W) (controllable : Bool) (view : View) where
  unfoldable pub step : Step → Session W → Option (Session W)
  unfolding operate turn
  step (mine t) s = turn c draw controllable view t s
  step (theirs o) s = elim (operate o s.hub) [
    | none ↦ none
    | some hub ↦ some (record s { hub = hub })
  ]

  unfoldable pub steps : List Step → Session W → Option (Session W)
  unfolding step
  steps [] s = some s
  steps (t ∷ ts) s = step t s >>= steps ts

  abbrev Held : Option ℕ → Option (Session W) → Type 0
  Held own r = (s' : Session W) × (r ≡ some s') × Holds own s'

  theirs-Holds :
      (own : Option ℕ) (o : Operation) (s : Session W)
      → Holds own s
      → spares own o ≡ false
      → (h : Hub) × (step (theirs o) s ≡ some (record s { hub = h }))
        × Holds own (record s { hub = h })
  unfolding step
  theirs-Holds own o s v other =
      let spared = subst (λ id. spares id o ≡ false) (sym v.owner) other in
      let (h, e, sound, same, gone, issued) =
        operate-spares s.subscription o s.hub v.serving.sound v.issued spared in
      (
        h,
        rw (e, step) refl,
        record {
          serving = record {
            sound = sound;
            held = λ on. same ∙ v.serving.held on;
            released = λ over. gone (v.serving.released over);
          };
          owner = v.owner;
          issued = issued;
        },
      )

  step-Holds :
      (own : Option ℕ) (t : Step) (s : Session W)
      → Holds own s
      → IsOther own t
      → Held own (step t s)
  unfolding step
  step-Holds own (mine t) s v other =
      let (s', e, serving) = turn-IsServing c draw controllable view t s v.serving in
      (s', e, kept-Holds own s s' v serving (turn-Keeps c draw controllable view t s s' e))
  step-Holds own (theirs o) s v other =
      let (h, e, v') = theirs-Holds own o s v other in (record s { hub = h }, e, v')

  steps-Holds :
      (own : Option ℕ) (ts : List Step) (s : Session W)
      → Holds own s
      → All (IsOther own) ts
      → Held own (steps ts s)
  unfolding steps
  steps-Holds own [] s v others = (s, refl, v)
  steps-Holds own (t ∷ ts) s v (other, others) =
      let (s', e, v') = step-Holds own t s v other in
      let (s'', e', v'') = steps-Holds own ts s' v' others in
      (s'', ap (λ o. o >>= steps ts) e ∙ e', v'')

  -- Others act while the services are read.
  unfoldable pub meanwhile : List Operation → Session W → Option (Session W)
  unfolding step
  meanwhile [] s = some s
  meanwhile (o ∷ os) s = step (theirs o) s >>= meanwhile os

  meanwhile-Holds :
      (own : Option ℕ) (os : List Operation) (s : Session W)
      → Holds own s
      → s.over ≡ false
      → All (λ o. spares own o ≡ false) os
      → (s' : Session W) × (meanwhile os s ≡ some s') × Holds own s' × (s'.over ≡ false)
  unfolding meanwhile
  meanwhile-Holds own [] s v on others = (s, refl, v, on)
  meanwhile-Holds own (o ∷ os) s v on (other, others) =
      let (h, e, v') = theirs-Holds own o s v other in
      let (s'', e', v'', on') = meanwhile-Holds own os (record s { hub = h }) v' on others in
      (s'', ap (λ r. r >>= meanwhile os) e ∙ e', v'', on')

  module _ (m : MonitorService W) where
    -- `stream`: it subscribes, reads the services and greets, and takes its turns.
    unfoldable pub serve : Hub → MonitorState W → List Operation → List Step → Option (Session W)
    unfolding connect meanwhile greet steps
    serve h s os ts = meanwhile os (connect h s) >>= greet c draw controllable view m >>= steps ts

    greet-Holds :
        (own : Option ℕ) (s : Session W)
        → Holds own s
        → s.over ≡ false
        → Held own (greet c draw controllable view m s)
    unfolding greet
    greet-Holds own s v on =
        let (s', e, serving) = greet-IsServing c draw controllable view m s v.serving on in
        (
          s',
          e,
          kept-Holds own s s' v serving (
              take_services-Keeps c draw controllable view (list_services m s.monitor).0
                (record s { monitor = (list_services m s.monitor).1 }) s' e),
        )

    -- From a hub in order, whose next number was not given up: whatever others do to the hub while
    -- the handler reads the services and between its turns, but for giving its subscription up,
    -- nobody sends on or closes a closed channel, the hub stays in order, and once the handler has
    -- returned its subscription is not registered any more, whatever steps follow.
    pub serve-IsServing :
        (h : Hub) (s : MonitorState W) (os : List Operation) (ts : List Step)
        → IsSound h
        → is_released h.next_id h.released ≡ false
        → All (λ o. spares (connect h s).subscription o ≡ false) os
        → All (IsOther (connect h s).subscription) ts
        → (s' : Session W) × (serve h s os ts ≡ some s') × IsServing s'
    unfolding serve
    serve-IsServing h s os ts v free others_before others_after =
        let own = (connect h s).subscription in
        let start : Holds own (connect h s) = record {
          serving = connect-IsServing h s v free;
          owner = refl;
          issued = connect-IsIssued h s;
        } in
        let (s1, e1, v1, on) =
          meanwhile-Holds own os (connect h s) start (unfold connect in refl) others_before in
        let (s2, e2, v2) = greet-Holds own s1 v1 on in
        let (s3, e3, v3) = steps-Holds own ts s2 v2 others_after in
        (
          s3,
          ap (λ r. r >>= greet c draw controllable view m >>= steps ts) e1
              ∙ ap (λ r. r >>= steps ts) e2
              ∙ e3,
          v3.serving,
        )
