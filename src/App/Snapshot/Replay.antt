-- ===== src/App/Snapshot/Replay.antt =====
-- The events between two snapshots, replayed by a page that shows the first one.
use compose_monitor.Base.{
  ◌≡◌, refl, ◌∙◌, ap, inl, inr, List, [], ◌∷◌, ◌++◌, Option, none, some, arith, Text, ◌==◌, list_eq,
  nat_eq, Bool-cases, if◌then◌else◌,
}
use mathlib.Core.Option
use compose_monitor.Base.Dict.{
  lookup, insert, erase, IsMap, lookup-insert, lookup-erase, insert-IsMap, erase-IsMap,
}
use compose_monitor.Domain.{Service, Event, Action}
use compose_monitor.App.Snapshot.{Snapshot, diff_snapshots, is_changed}
use compose_monitor.App.Snapshot.Shown.{Row, row, is_changed-eq-false_iff}
use compose_monitor.App.Snapshot.Index.{IsSnapshot}
use compose_monitor.App.Snapshot.Events.{events_of, expected, events_of-diff_snapshots}

-- A table of services kept by events: what is added or updated is put in, what is removed is
-- taken out.
unfoldable pub apply_action : Action → Service → Snapshot → Snapshot
apply_action Action.added s m = insert s.container_id s m
apply_action Action.updated s m = insert s.container_id s m
apply_action Action.removed s m = erase s.container_id m

unfoldable pub replay : List Event → Snapshot → Snapshot
unfolding apply_action
replay [] m = m
replay (e ∷ es) m = replay es (apply_action e.action e.service m)

-- The same for the entry of one container.
abbrev effect : Action → Service → Option Service
effect Action.added s = some s
effect Action.updated s = some s
effect Action.removed s = none

abbrev pub effects : List Event → Option Service → Option Service
effects [] o = o
effects (e ∷ es) o = effects es (effect e.action e.service)

pub apply_action-IsMap :
    (a : Action) (s : Service) (m : Snapshot) → IsMap m → IsMap (apply_action a s m)
unfolding apply_action
apply_action-IsMap Action.added s m h = insert-IsMap s.container_id s m h
apply_action-IsMap Action.updated s m h = insert-IsMap s.container_id s m h
apply_action-IsMap Action.removed s m h = erase-IsMap s.container_id m h

pub replay-append :
    (es fs : List Event) (m : Snapshot) → replay (es ++ fs) m ≡ replay fs (replay es m)
unfolding replay
replay-append [] fs m = refl
replay-append (e ∷ es) fs m = replay-append es fs (apply_action e.action e.service m)

pub replay-IsMap : (es : List Event) (m : Snapshot) → IsMap m → IsMap (replay es m)
unfolding replay
replay-IsMap [] m h = h
replay-IsMap (e ∷ es) m h = replay-IsMap es _ (apply_action-IsMap e.action e.service m h)

lookup-apply_action :
    (id : Text) (a : Action) (s : Service) (m : Snapshot)
    → IsMap m
    → lookup id (apply_action a s m) ≡ (if s.container_id == id then effect a s else lookup id m)
unfolding apply_action
lookup-apply_action id Action.added s m h = lookup-insert s.container_id id s m
lookup-apply_action id Action.updated s m h = lookup-insert s.container_id id s m
lookup-apply_action id Action.removed s m h = lookup-erase s.container_id id m h

pub lookup-replay :
    (id : Text) (es : List Event) (m : Snapshot)
    → IsMap m
    → lookup id (replay es m) ≡ effects (events_of id es) (lookup id m)
unfolding replay events_of
lookup-replay id [] m h = refl
lookup-replay id (e ∷ es) m h = elim (Bool-cases (e.service.container_id == id)) [
  | inl hit ↦
      lookup-replay id es _ kept ∙ ground (arith, lookup-apply_action id e.action e.service m h)
  | inr miss ↦
      lookup-replay id es _ kept ∙ ground (arith, lookup-apply_action id e.action e.service m h)
]
  where
    kept : IsMap (apply_action e.action e.service m)
    kept = apply_action-IsMap e.action e.service m h

abbrev pub row_of : Text → Snapshot → Option Row
row_of id m = Option.map row (lookup id m)

effects-expected :
    (view o n : Option Service)
    → Option.map row view ≡ Option.map row o
    → Option.map row (effects (expected o n) view) ≡ Option.map row n
effects-expected view none none h = h
effects-expected view none (some s) h = refl
effects-expected view (some b) none h = refl
effects-expected view (some b) (some s) h = elim (Bool-cases (is_changed b s)) [
  | inl moved ↦ rw moved refl
  | inr same ↦ rw same (h ∙ ap some ((is_changed-eq-false_iff b s).0 same))
]

-- A page that agrees with the first snapshot, and applies the events between the two, agrees with
-- the second: for every container in name, number, container name, image, state, status, health
-- and ports, and it has no entry for a container that is gone.
pub replay-diff_snapshots :
    (view previous next : Snapshot)
    → IsMap view
    → IsSnapshot previous
    → IsSnapshot next
    → ((id : Text) → row_of id view ≡ row_of id previous)
    → (id : Text) → row_of id (replay (diff_snapshots previous next) view) ≡ row_of id next
replay-diff_snapshots view previous next h v w agree id =
    ap (Option.map row) (
      lookup-replay id (diff_snapshots previous next) view h
      ∙ ap (λ es. effects es (lookup id view)) (events_of-diff_snapshots id previous next v w))
    ∙ effects-expected (lookup id view) (lookup id previous) (lookup id next) (agree id)
