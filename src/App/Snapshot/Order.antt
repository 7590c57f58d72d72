-- ===== src/App/Snapshot/Order.antt =====
-- The display order of `SortServices` and of the events of `DiffSnapshots`.
use compose_monitor.Base.{◌≡◌, List, Ordering, Perm, Mem, arith}
use mathlib.Core.List.Perm
use compose_monitor.Base.Order.{
  IsOrder, ℕ-IsOrder, Text-IsOrder, by-IsOrder, or_else-IsOrder, compare_text-eq,
}
use compose_monitor.Base.Sort.{IsSorted, sort-IsSorted, sort-perm, IsSorted-eq_of_perm}
use compose_monitor.Domain.{Service, Event}
use compose_monitor.App.Snapshot.{compare_services, compare_events, sort_services}

pub compare_services-IsOrder : IsOrder Service compare_services
unfolding compare_services
compare_services-IsOrder = or_else-IsOrder (by-IsOrder (λ s. s.name) Text-IsOrder) (
    or_else-IsOrder (by-IsOrder (λ s. s.number) ℕ-IsOrder)
      (by-IsOrder (λ s. s.container_id) Text-IsOrder))

pub compare_events-IsOrder : IsOrder Event compare_events
unfolding compare_events
compare_events-IsOrder = by-IsOrder (λ e. e.service) compare_services-IsOrder

-- Services that the order does not tell apart have one container.
pub compare_services-eq :
    (a b : Service) → compare_services a b ≡ Ordering.eq → a.container_id ≡ b.container_id
unfolding compare_services
compare_services-eq a b h = ground (arith, compare_text-eq a.container_id b.container_id)

pub compare_events-eq :
    (a b : Event)
    → compare_events a b ≡ Ordering.eq
    → a.service.container_id ≡ b.service.container_id
unfolding compare_events
compare_events-eq a b h = compare_services-eq a.service b.service h

-- Where no two of the services have one container ID, `SortServices` returns the only ordered
-- rearrangement of its argument: every list that holds the same services and is in display order
-- is its result.
pub sort_services_unique :
    (services sorted : List Service)
    → ((a b : Service) → Mem a sorted → Mem b sorted → a.container_id ≡ b.container_id → a ≡ b)
    → IsSorted compare_services sorted
    → Perm sorted services
    → sorted ≡ sort_services services
unfolding sort_services
sort_services_unique services sorted distinct in_order same =
    IsSorted-eq_of_perm compare_services compare_services-IsOrder sorted _
      (λ a b m n e. distinct a b m n (compare_services-eq a b e)) in_order
      (sort-IsSorted compare_services compare_services-IsOrder services)
      (Perm.trans same (Perm.symm (sort-perm compare_services services)))
