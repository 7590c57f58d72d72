-- ===== src/Tests/Hub.antt =====
-- The theorems on the hub, at a hub with one subscription.
use compose_monitor.Base.{ℕ, ◌≡◌, true, List, [], ◌∷◌, some}
use compose_monitor.Domain.{Event, Action}
use compose_monitor.Realtime.Hub.{Hub, new_hub, publish, subscribe, close}
use compose_monitor.Realtime.Hub.Delivery.{delivered}
use compose_monitor.Realtime.Hub.Closing.{closed_down}
use compose_monitor.Realtime.Hub.Invariant.{IsSound, new_hub-IsSound, publish_delivers}
use compose_monitor.Realtime.Hub.Subscriptions.{subscribe-IsSound}
use compose_monitor.Realtime.Hub.Runs.{
  Operation, publishes, subscribes, closes, unsubscribes, receives, history, close_ends_all,
  history_never_panics,
}
use compose_monitor.Tests.{web}

abbrev arrival : Event
arrival = record { action = Action.added; service = web; notable = true }

abbrev one_open : Hub
one_open = (subscribe new_hub).0

one_open-IsSound : IsSound one_open
one_open-IsSound = subscribe-IsSound new_hub new_hub-IsSound

publish_delivers_example :
    (h : Hub) × (publish arrival one_open ≡ some h)
    × IsSound h
    × (h ≡ record one_open { store = h.store })
    × ((a : ℕ) → h.store a ≡ delivered arrival one_open.subs one_open.store a)
publish_delivers_example = publish_delivers arrival one_open one_open-IsSound

close_ends_all_example :
    (h : Hub) × (close one_open ≡ some h)
    × IsSound h
    × (h.closed ≡ true)
    × (h.subs ≡ [])
    × ((a : ℕ) → h.store a ≡ closed_down one_open.subs one_open.store a)
close_ends_all_example = close_ends_all one_open one_open-IsSound

abbrev day : List Operation
day =
    subscribes
    ∷ publishes arrival
    ∷ receives 0
    ∷ closes
    ∷ unsubscribes (some 0)
    ∷ publishes arrival
    ∷ closes
    ∷ []

history_never_panics_example : (h : Hub) × (history day new_hub ≡ some h) × IsSound h
history_never_panics_example = history_never_panics day
