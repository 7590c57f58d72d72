-- ===== src/Docker/Client/Usage.antt =====
-- `Usage`: what the counts of the project's networks and volumes count.
use compose_monitor.Base.{
  ℕ, suc, ◌+◌, ◌≡◌, refl, ap, Bool, true, false, not, ◌&&◌, List, [], ◌∷◌, ◌++◌, All, Option, none,
  some, Text, bytes, arith, ◌==◌, nat_eq, list_eq, list_beq_iff, if◌then◌else◌,
}
use compose_monitor.Base.Dict.{lookup, lookup-insert, IsMap}
use compose_monitor.Domain.{ResourceUsage}
use compose_monitor.App.Networks.{count_of}
use compose_monitor.Docker.Types.{Parsed, ContainerSummary, MountPoint, EndpointSettings}
use compose_monitor.Base.Failure.{Result, ok, err, or_wrap, ◌>>=◌}
use compose_monitor.Docker.Client.{
  Api, container_usage, count_up, count_all, keys, count_usage, network_names, volume_names,
}

-- How often a name stands in a list.
abbrev pub occurrences : Text → List Text → ℕ
occurrences name [] = 0
occurrences name (n ∷ names) = (if n == name then 1 else 0) + occurrences name names

-- How often the containers refer to a name.
abbrev pub references : (ContainerSummary → List Text) → Text → List ContainerSummary → ℕ
references names name [] = 0
references names name (c ∷ cs) = occurrences name (names c) + references names name cs

count_of-count_up :
    (name n : Text) (counts : List (Text × ℕ))
    → count_of name (count_up n counts) ≡ (if n == name then 1 else 0) + count_of name counts
unfolding count_of count_up
count_of-count_up name n counts = ground (
  arith,
  lookup-insert n name (suc (count_of n counts)) counts,
  list_beq_iff n name,
  ap (λ k. lookup k counts) {x = n} {y = name},
)

count_of-count_all :
    (name : Text) (names : List Text) (counts : List (Text × ℕ))
    → count_of name (count_all names counts) ≡ occurrences name names + count_of name counts
unfolding count_all
count_of-count_all name [] counts = omega arith
count_of-count_all name (n ∷ names) counts =
    omega
      (arith, count_of-count_all name names (count_up n counts), count_of-count_up name n counts)

count_of-count_usage :
    (name : Text) (cs : List ContainerSummary) (usage : ResourceUsage)
    → (count_of name (count_usage cs usage).networks
        ≡ references network_names name cs + count_of name usage.networks)
      × (count_of name (count_usage cs usage).volumes
          ≡ references (λ c. volume_names c.mounts) name cs + count_of name usage.volumes)
unfolding count_usage
count_of-count_usage name [] usage = (omega arith, omega arith)
count_of-count_usage name (c ∷ cs) usage =
    let next : ResourceUsage = record usage {
      networks = count_all (network_names c) usage.networks;
      volumes = count_all (volume_names c.mounts) usage.volumes;
    } in
    let (networks, volumes) = count_of-count_usage name cs next in
    (
      omega (arith, networks, count_of-count_all name (network_names c) usage.networks),
      omega (arith, volumes, count_of-count_all name (volume_names c.mounts) usage.volumes),
    )

-- How many elements pass a test.
abbrev pub count : {A : Type 0} → (A → Bool) → List A → ℕ
count p [] = 0
count p (x ∷ xs) = (if p x then 1 else 0) + count p xs

-- The networks of a container hold one of this name.
abbrev pub has_network : Text → Option (List (Text × Option EndpointSettings)) → Bool
has_network name none = false
has_network name (some networks) = elim (lookup name networks) [
  | none ↦ false
  | some endpoint ↦ true
]

-- The runtime lists a container as attached to a network of this name.
abbrev pub is_attached : Text → ContainerSummary → Bool
is_attached name c = has_network name c.networks

-- The mount is of the volume of this name; a bind mount is of no volume, and neither is a mount
-- that names none.
abbrev pub is_mount_of : Text → MountPoint → Bool
is_mount_of name mounted =
    (mounted.kind == bytes "volume" && mounted.name == name) && not (name == [])

-- The mounts of a volume over all containers.
abbrev pub mounts_of : Text → List ContainerSummary → ℕ
mounts_of name [] = 0
mounts_of name (c ∷ cs) = count (is_mount_of name) c.mounts + mounts_of name cs

abbrev pub IsNetworkMap : Option (List (Text × Option EndpointSettings)) → Type 0
IsNetworkMap none = Unit
IsNetworkMap (some networks) = IsMap networks

-- The networks of a container are a map: no name stands twice.
abbrev pub HasNetworkMap : ContainerSummary → Type 0
HasNetworkMap c = IsNetworkMap c.networks

occurrences-keys :
    (name : Text) (networks : List (Text × Option EndpointSettings))
    → IsMap networks
    → occurrences name (keys networks)
      ≡ (elim (lookup name networks) [ none ↦ 0 | some endpoint ↦ 1 ])
unfolding lookup
occurrences-keys name [] distinct = refl
occurrences-keys name ((n, endpoint) ∷ networks) (fresh, distinct) = ground (
  arith,
  occurrences-keys name networks distinct,
  fresh,
  list_beq_iff n name,
  ap (λ k. lookup k networks) {x = n} {y = name},
)

occurrences-network_names :
    (name : Text) (networks : Option (List (Text × Option EndpointSettings)))
    → IsNetworkMap networks
    → occurrences name (elim networks [ none ↦ [] | some networks ↦ keys networks ])
      ≡ (if has_network name networks then 1 else 0)
occurrences-network_names name none distinct = refl
occurrences-network_names name (some networks) distinct =
    ground (arith, occurrences-keys name networks distinct)

occurrences-volume_names :
    (name : Text) (mounts : List MountPoint)
    → occurrences name (volume_names mounts) ≡ count (is_mount_of name) mounts
unfolding volume_names
occurrences-volume_names name [] = refl
occurrences-volume_names name (mounted ∷ mounts) = ground (
  arith,
  occurrences-volume_names name mounts,
  list_beq_iff mounted.name name,
  list_beq_iff mounted.name [],
  list_beq_iff name [],
)

references-networks :
    (name : Text) (cs : List ContainerSummary)
    → All HasNetworkMap cs
    → references network_names name cs ≡ count (is_attached name) cs
references-networks name [] maps = refl
references-networks name (c ∷ cs) (distinct, maps) =
    omega
      (arith, references-networks name cs maps, occurrences-network_names name c.networks distinct)

references-volumes :
    (name : Text) (cs : List ContainerSummary)
    → references (λ c. volume_names c.mounts) name cs ≡ mounts_of name cs
references-volumes name [] = refl
references-volumes name (c ∷ cs) =
    omega (arith, references-volumes name cs, occurrences-volume_names name c.mounts)

usage-counts :
    (name : Text) (cs : List ContainerSummary)
    → All HasNetworkMap cs
    → (count_of name (count_usage cs (record { networks = []; volumes = [] })).networks
        ≡ count (is_attached name) cs)
      × (count_of name (count_usage cs (record { networks = []; volumes = [] })).volumes
          ≡ mounts_of name cs)
unfolding count_of lookup
usage-counts name cs maps =
    let (networks, volumes) =
      count_of-count_usage name cs (record { networks = []; volumes = [] }) in
    (
      omega (arith, networks, references-networks name cs maps),
      omega (arith, volumes, references-volumes name cs),
    )

-- The answer is a usage with, for a name, the counts of these containers.
abbrev pub IsCountOf : Text → List ContainerSummary → Result ResourceUsage → Type 0
IsCountOf name cs (err e) = ⊥
IsCountOf name cs (ok usage) =
    (count_of name usage.networks ≡ count (is_attached name) cs)
    × (count_of name usage.volumes ≡ mounts_of name cs)

module _ {W : Type 0} (api : Api W) (project : Text) (parse : Text → Option Parsed)
    (unicode_upper : Text → Text) where
  -- What the runtime lists with all containers of the project, those that do not run too.
  abbrev pub listing : W → Result (List ContainerSummary)
  listing w = (api.container_list true (bytes "com.docker.compose.project=" ++ project) w).0

  -- Where the runtime lists the containers of the project, with those that do not run, and the
  -- networks of each are a map, `Usage` succeeds. For every name it counts how many of the containers
  -- are attached to the network of that name, and how many mounts they have of the volume of that
  -- name.
  pub count_usage_counts :
      (name : Text) (w : W) (cs : List ContainerSummary)
      → listing w ≡ ok cs
      → All HasNetworkMap cs
      → IsCountOf name cs (container_usage api project parse unicode_upper w).0
  unfolding container_usage
  count_usage_counts name w cs listed maps =
      rw (listed, IsCountOf, container_usage, ◌>>=◌, or_wrap) (usage-counts name cs maps)
