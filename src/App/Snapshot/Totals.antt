-- ===== src/App/Snapshot/Totals.antt =====
-- `Summarize`: the numbers of the page's header.
use compose_monitor.Base.{
  suc, ◌+◌, ◌≡◌, refl, Bool, not, List, [], ◌∷◌, arith, length, keep, Bool-cases, inl, inr,
}
use compose_monitor.Domain.{Service, Summary, is_online}
use compose_monitor.App.Snapshot.{count_service, count_services, summarize}

-- The loop adds to its totals what it counts.
count_services-counts :
    (services : List Service) (sum : Summary)
    → let after = count_services services sum in
      (after.total ≡ sum.total)
      × (after.online ≡ sum.online + length (keep is_online services))
      × (after.offline ≡ sum.offline + length (keep (λ s. not (is_online s)) services))
unfolding count_services count_service keep
count_services-counts [] sum = (refl, omega arith, omega arith)
count_services-counts (s ∷ services) sum = elim (Bool-cases (is_online s)) [
  | inl up ↦
      rw up (
        ground (arith, up, count_services-counts services (record sum { online = suc sum.online })))
  | inr down ↦ rw down (
      ground
        (arith, down, count_services-counts services (record sum { offline = suc sum.offline })))
]

length-keep :
    (p : Service → Bool) (services : List Service)
    → length (keep p services) + length (keep (λ s. not (p s)) services) ≡ length services
unfolding keep
length-keep p [] = omega arith
length-keep p (s ∷ services) = ground (arith, length-keep p services)

-- The summary counts the services that are online, and every other one as offline: the two
-- numbers add up to the total, which is the number of services.
pub summarize_counts :
    (services : List Service)
    → ((summarize services).online ≡ length (keep is_online services))
      × ((summarize services).total ≡ length services)
      × ((summarize services).online + (summarize services).offline ≡ length services)
unfolding summarize
summarize_counts services =
    let start : Summary = record { total = length services; online = 0; offline = 0 } in
    let counts = count_services-counts services start in
    let parts = length-keep is_online services in
    (omega (arith, counts.1), counts.0, omega (arith, counts.1, counts.2, parts))
