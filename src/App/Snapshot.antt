-- ===== src/App/Snapshot.antt =====
-- What internal/app/monitor_service.go computes from one or two observations of the project:
-- the summary, the index, the display order and the events between two snapshots.
pub mod Order
pub mod Shown
pub mod Index
pub mod Events
pub mod Determined
pub mod Replay
pub mod Overlap
pub mod Totals
use compose_monitor.Base.{
  ℕ, suc, ◌+◌, ◌≡◌, Bool, true, false, not, ◌||◌, List, [], ◌∷◌, ◌++◌, Option, none, some, Ordering,
  compare, Text, ◌==◌, list_eq, nat_eq, length, if◌then◌else◌,
}
use compose_monitor.Base.Order.{or_else, compare_text}
use compose_monitor.Base.Sort.{sort}
use compose_monitor.Base.Dict.{lookup, insert}
use compose_monitor.Domain.{
  Service, Summary, Event, Action, State, Health, Port, is_online, state_eq, health_eq, port_eq,
}

-- `Summarize`, its loop first.
unfoldable pub count_service : Service → Summary → Summary
unfolding is_online
count_service s sum =
    if is_online s
    then record sum { online = suc sum.online }
    else record sum { offline = suc sum.offline }

unfoldable pub count_services : List Service → Summary → Summary
count_services [] sum = sum
count_services (s ∷ services) sum = count_services services (count_service s sum)

unfoldable pub summarize : List Service → Summary
unfolding count_services count_service
summarize services =
    count_services services (record { total = length services; online = 0; offline = 0 })

abbrev pub Snapshot : Type 0
Snapshot = List (Text × Service)

-- `IndexServices`, its loop first.
unfoldable pub index_from : Snapshot → List Service → Snapshot
index_from indexed [] = indexed
index_from indexed (s ∷ services) = index_from (insert s.container_id s indexed) services

unfoldable pub index_services : List Service → Snapshot
unfolding index_from insert
index_services services = index_from [] services

-- The order of `SortServices`.
unfoldable pub compare_services : Service → Service → Ordering
compare_services a b =
    or_else (compare_text a.name b.name)
      (or_else (compare a.number b.number) (compare_text a.container_id b.container_id))

-- `SortServices`
unfoldable pub sort_services : List Service → List Service
unfolding sort compare_services
sort_services services = sort compare_services services

-- `Notable`
unfoldable pub is_notable : Service → Service → Bool
is_notable before after =
    not (before.name == after.name)
    || (not (before.number == after.number)
        || (not (before.container_name == after.container_name)
            || (not (before.image == after.image)
                || (not (before.state == after.state)
                    || (not (before.status_kind == after.status_kind)
                        || (not (before.health == after.health)
                            || not (before.ports == after.ports)))))))

-- `Changed`
unfoldable pub is_changed : Service → Service → Bool
is_changed before after = is_notable before after || not (before.status == after.status)

-- One round of the first loop of `DiffSnapshots`: what a service that is there now gives.
unfoldable pub arrival : Option Service → Service → List Event
arrival none s = record { action = Action.added; service = s; notable = true } ∷ []
arrival (some before) s =
    if is_changed before s
    then record { action = Action.updated; service = s; notable = is_notable before s } ∷ []
    else []

unfoldable pub arrivals : Snapshot → Snapshot → List Event
unfolding lookup arrival
arrivals previous [] = []
arrivals previous ((id, s) ∷ next) = arrival (lookup id previous) s ++ arrivals previous next

-- One round of the second loop: what a service that was there gives.
unfoldable pub departure : Option Service → Service → List Event
departure (some still) s = []
departure none s = record { action = Action.removed; service = s; notable = true } ∷ []

unfoldable pub departures : Snapshot → Snapshot → List Event
unfolding lookup departure
departures [] next = []
departures ((id, s) ∷ previous) next = departure (lookup id next) s ++ departures previous next

unfoldable pub compare_events : Event → Event → Ordering
unfolding compare_services
compare_events a b = compare_services a.service b.service

-- `DiffSnapshots`
unfoldable pub diff_snapshots : Snapshot → Snapshot → List Event
unfolding sort compare_events arrivals departures
diff_snapshots previous next =
    sort compare_events (arrivals previous next ++ departures previous next)
