-- ===== src/App/Snapshot/Index.antt =====
-- `IndexServices`: what the snapshot of a listing holds.
use compose_monitor.Base.{
  ◌≡◌, refl, ◌∙◌, List, [], ◌∷◌, Option, none, some, arith, Text, All, ◌==◌, list_eq, nat_eq,
  if◌then◌else◌, ap,
}
use compose_monitor.Base.Dict.{lookup, insert, IsMap, lookup-insert, insert-IsMap}
use compose_monitor.Domain.{Service}
use compose_monitor.App.Snapshot.{Snapshot, index_from, index_services}

-- A snapshot holds each container once, under its own ID.
pub record IsSnapshot (m : Snapshot) : Type 0 where
  pub distinct : IsMap m
  pub keyed : All (λ entry. entry.1.container_id ≡ entry.0) m

insert-keyed :
    (s : Service) (m : Snapshot)
    → All (λ entry. entry.1.container_id ≡ entry.0) m
    → All (λ entry. entry.1.container_id ≡ entry.0) (insert s.container_id s m)
unfolding insert
insert-keyed s [] h = (refl, tt)
insert-keyed s ((id, t) ∷ m) (k, h) = ground (arith, insert-keyed s m h)

insert-IsSnapshot :
    (s : Service) (m : Snapshot) → IsSnapshot m → IsSnapshot (insert s.container_id s m)
insert-IsSnapshot s m v = record {
  distinct = insert-IsMap s.container_id s m v.distinct;
  keyed = insert-keyed s m v.keyed;
}

index_from-IsSnapshot :
    (m : Snapshot) (services : List Service) → IsSnapshot m → IsSnapshot (index_from m services)
unfolding index_from
index_from-IsSnapshot m [] v = v
index_from-IsSnapshot m (s ∷ services) v =
    index_from-IsSnapshot (insert s.container_id s m) services (insert-IsSnapshot s m v)

pub index_services-IsSnapshot : (services : List Service) → IsSnapshot (index_services services)
unfolding index_services
index_services-IsSnapshot services =
    index_from-IsSnapshot [] services (record { distinct = tt; keyed = tt })

-- The last service of a listing with a container ID, or what was known before.
abbrev pub last_with : Text → Option Service → List Service → Option Service
last_with id known [] = known
last_with id known (s ∷ services) =
    last_with id (if s.container_id == id then some s else known) services

lookup-index_from :
    (id : Text) (m : Snapshot) (services : List Service)
    → lookup id (index_from m services) ≡ last_with id (lookup id m) services
unfolding index_from
lookup-index_from id m [] = refl
lookup-index_from id m (s ∷ services) =
    lookup-index_from id (insert s.container_id s m) services
    ∙ ap (λ o. last_with id o services) (lookup-insert s.container_id id s m)

-- The snapshot of a listing answers each container ID with the last service listed under it, and
-- with nothing for an ID that was not listed.
pub lookup-index_services :
    (id : Text) (services : List Service)
    → lookup id (index_services services) ≡ last_with id none services
unfolding index_services lookup
lookup-index_services id services = lookup-index_from id [] services
