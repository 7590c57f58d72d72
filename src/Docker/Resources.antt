-- ===== src/Docker/Resources.antt =====
-- `Networks` and `Volumes` of internal/adapters/docker/networks.go and volumes.go, on the container
-- runtime's API, which is a parameter with `time.Parse` and the table of `strconv.IsPrint`. They are the sources and the controls that
-- the services of networks and volumes work with.
pub mod Scope
use compose_monitor.Base.{
  ℕ, ◌≡◌, Bool, true, false, List, [], ◌∷◌, ◌++◌, map, Option, none, some, Ordering, Text, bytes,
  ◌==◌, nat_eq, list_eq, if◌then◌else◌,
}
use compose_monitor.Base.Int.{ℤ, negsuc}
use compose_monitor.Base.Instant.{Time, zero_time}
use compose_monitor.Base.Order.{compare_text, or_else}
use compose_monitor.Base.Sort.{sort}
use compose_monitor.Base.Quote.{quote}
use compose_monitor.Base.Failure.{
  Failure, sentinel, prefixed, suffixed, not_found, Act, Result, ok, err, ◌>>=◌, ◌>>◌, return,
  or_wrap,
}
use compose_monitor.Domain.{Network, Subnet, NetworkMember, Volume}
use compose_monitor.App.Ports.{NetworkSource, VolumeSource, ResourceControl}
use compose_monitor.Docker.Types.{Parsed}
use compose_monitor.Docker.Mapping.{label_project}
use compose_monitor.Docker.Routing.{label}
use compose_monitor.Docker.Inspect.{to_labels}

-- `network.EndpointResource`
pub record Endpoint : Type 0 where
  pub name : Text
  pub ipv4_address : Text
  pub ipv6_address : Text
  pub mac_address : Text

-- `network.Inspect`; `subnets` is `IPAM.Config`.
pub record NetworkInspect : Type 0 where
  pub id : Text
  pub name : Text
  pub driver : Text
  pub scope : Text
  pub created : Time
  pub internal : Bool
  pub attachable : Bool
  pub enable_ipv6 : Bool
  pub labels : List (Text × Text)
  pub options : List (Text × Text)
  pub subnets : List Subnet
  pub containers : List (Text × Endpoint)

-- `volume.Volume`; `size` is `UsageData.Size`.
pub record VolumeInspect : Type 0 where
  pub name : Text
  pub driver : Text
  pub mountpoint : Text
  pub scope : Text
  pub created_at : Text
  pub labels : List (Text × Text)
  pub options : List (Text × Text)
  pub size : Option ℤ

-- The calls of the runtime's API on networks and volumes; `is_print` is the table of
-- `strconv.IsPrint` beyond ASCII.
pub record ResourceApi (W : Type 0) : Type 0 where
  pub network_list : Text → Act W (List NetworkInspect)
  pub network_inspect : Text → Act W NetworkInspect
  pub network_remove : Text → Act W (Unit {0})
  pub volume_list : Text → Act W (List (Option VolumeInspect))
  pub volume_inspect : Text → Act W VolumeInspect
  pub volume_remove : Text → Act W (Unit {0})
  pub is_not_found : Failure → Bool
  pub is_print : ℕ → Bool

abbrev pub compare_subnets : Subnet → Subnet → Ordering
compare_subnets a b = compare_text a.range b.range

abbrev pub compare_members : NetworkMember → NetworkMember → Ordering
compare_members a b =
    or_else (compare_text a.name b.name) (compare_text a.container_id b.container_id)

abbrev pub to_member : Text × Endpoint → NetworkMember
to_member (id, endpoint) = record {
  container_id = id;
  name = endpoint.name;
  ipv4_address = endpoint.ipv4_address;
  ipv6_address = endpoint.ipv6_address;
  mac_address = endpoint.mac_address;
}

-- `toNetwork`
unfoldable pub to_network : NetworkInspect → Network
unfolding to_labels sort compare_text
to_network inspected = record {
  id = inspected.id;
  name = inspected.name;
  driver = inspected.driver;
  scope = inspected.scope;
  created = inspected.created;
  internal = inspected.internal;
  attachable = inspected.attachable;
  ipv6 = inspected.enable_ipv6;
  subnets = sort compare_subnets inspected.subnets;
  labels = to_labels inspected.labels;
  options = to_labels inspected.options;
  members = sort compare_members (map to_member inspected.containers);
  used_by = 0;
}

abbrev pub compare_networks : Network → Network → Ordering
compare_networks a b = compare_text a.name b.name

abbrev pub compare_volumes : Volume → Volume → Ordering
compare_volumes a b = compare_text a.name b.name

-- The volumes of a listing that are not nil.
abbrev pub listed : List (Option VolumeInspect) → List VolumeInspect
listed [] = []
listed (none ∷ volumes) = listed volumes
listed (some v ∷ volumes) = v ∷ listed volumes

-- What is returned for an inspected resource: itself where its label is the project's.
unfoldable pub only_member :
    {A : Type 0}
    → (Failure → Bool)
    → Text
    → (A → List (Text × Text))
    → Text
    → Text
    → Result A
    → Result A
unfolding label
only_member is_not_found project labels kind id (err e) = err (
    if is_not_found e
    then suffixed (sentinel not_found) (kind ++ bytes " " ++ id)
    else prefixed (bytes "inspecting " ++ kind ++ bytes " " ++ id) e)
only_member is_not_found project labels kind id (ok inspected) =
    if label label_project (labels inspected) == project
    then ok inspected
    else err (suffixed (sentinel not_found) (kind ++ bytes " " ++ id))

module _ {W : Type 0} (api : ResourceApi W) (project : Text) (parse : Text → Option Parsed) where
  -- `toVolume`
  unfoldable pub to_volume : VolumeInspect → Volume
  unfolding to_labels
  to_volume inspected = record {
    name = inspected.name;
    driver = inspected.driver;
    mountpoint = inspected.mountpoint;
    scope = inspected.scope;
    created = elim (parse inspected.created_at) [ none ↦ zero_time | some parsed ↦ parsed.at ];
    labels = to_labels inspected.labels;
    options = to_labels inspected.options;
    size = elim inspected.size [ none ↦ negsuc 0 | some size ↦ size ];
    used_by = 0;
  }

  abbrev project_filter : Text
  project_filter = label_project ++ bytes "=" ++ project

  -- `Networks.List`, `Networks.Inspect` and `Networks.Remove`
  unfoldable pub list_networks : Act W (List Network)
  unfolding to_network sort compare_text quote
  list_networks = do
    summaries ←
        or_wrap (bytes "listing networks of project " ++ quote api.is_print project)
          (api.network_list project_filter)
    return (sort compare_networks (map to_network summaries))

  unfoldable pub inspect_network : Text → Act W Network
  unfolding only_member to_network
  inspect_network id w =
      let (r, w') = api.network_inspect id w in
      elim (only_member api.is_not_found project (λ n. n.labels) (bytes "network") id r) [
        | ok inspected ↦ (ok (to_network inspected), w')
        | err e ↦ (err e, w')
      ]

  unfoldable pub remove_network : Text → Act W (Unit {0})
  remove_network id = or_wrap (bytes "removing network " ++ id) (api.network_remove id)

  -- `Volumes.List`, `Volumes.Inspect` and `Volumes.Remove`
  unfoldable pub list_volumes : Act W (List Volume)
  unfolding to_volume sort compare_text quote
  list_volumes = do
    response ←
        or_wrap (bytes "listing volumes of project " ++ quote api.is_print project)
          (api.volume_list project_filter)
    return (sort compare_volumes (map to_volume (listed response)))

  unfoldable pub inspect_volume : Text → Act W Volume
  unfolding only_member to_volume
  inspect_volume name w =
      let (r, w') = api.volume_inspect name w in
      elim (only_member api.is_not_found project (λ v. v.labels) (bytes "volume") name r) [
        | ok inspected ↦ (ok (to_volume inspected), w')
        | err e ↦ (err e, w')
      ]

  unfoldable pub remove_volume : Text → Act W (Unit {0})
  remove_volume name = or_wrap (bytes "removing volume " ++ name) (api.volume_remove name)

  abbrev pub network_source : NetworkSource W
  network_source = record { list = list_networks; inspect = inspect_network }

  abbrev pub network_control : ResourceControl W
  network_control = record { remove = remove_network }

  abbrev pub volume_source : VolumeSource W
  volume_source = record { list = list_volumes; inspect = inspect_volume }

  abbrev pub volume_control : ResourceControl W
  volume_control = record { remove = remove_volume }
