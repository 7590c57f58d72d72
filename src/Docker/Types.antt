-- ===== src/Docker/Types.antt =====
-- The records of the container runtime's API, with the fields that the adapter reads. A Go map is
-- an association list, a pointer an option, and a `time.Time` or a string what the program reads.
use compose_monitor.Base.{ℕ, Bool, List, Option, Text}
use compose_monitor.Base.Int.{ℤ}
use compose_monitor.Base.Instant.{Time}
use compose_monitor.Docker.Ports.{ContainerPort}

-- What `time.Parse` returns: the instant, and its year in the zone that the text names.
pub record Parsed : Type 0 where
  pub at : Time
  pub year : ℤ

-- `nat.Port`: the string, which is what map keys compare, with what its methods `Int` and `Proto`
-- read from it.
pub record NatPort : Type 0 where
  pub raw : Text
  pub number : ℕ
  pub proto : Text

-- `nat.PortMap`, with the `HostPort` of each binding.
abbrev pub PortMap : Type 0
PortMap = List (NatPort × List Text)

-- `container.MountPoint`
pub record MountPoint : Type 0 where
  pub kind : Text
  pub name : Text
  pub source : Text
  pub destination : Text
  pub read_write : Bool

-- `network.EndpointSettings`
pub record EndpointSettings : Type 0 where
  pub network_id : Text
  pub ip_address : Text
  pub gateway : Text
  pub mac_address : Text
  pub aliases : List Text

-- `container.Summary`; `networks` is `NetworkSettings.Networks`.
pub record ContainerSummary : Type 0 where
  pub id : Text
  pub names : List Text
  pub image : Text
  pub labels : List (Text × Text)
  pub state : Text
  pub status : Text
  pub ports : List ContainerPort
  pub created : ℤ
  pub networks : Option (List (Text × Option EndpointSettings))
  pub mounts : List MountPoint

-- `container.Config`
pub record Config : Type 0 where
  pub labels : List (Text × Text)
  pub image : Text
  pub working_dir : Text
  pub user : Text
  pub entrypoint : List Text
  pub cmd : List Text
  pub env : List Text
  pub tty : Bool
  pub exposed : List NatPort

-- `container.State`; `health` is `Health.Status`.
pub record RunState : Type 0 where
  pub status : Text
  pub exit_code : ℤ
  pub error : Text
  pub started_at : Text
  pub finished_at : Text
  pub health : Option Text

-- `container.HostConfig`
pub record HostConfig : Type 0 where
  pub restart_policy : Text
  pub bindings : PortMap

-- `container.NetworkSettings`
pub record NetworkSettings : Type 0 where
  pub networks : List (Text × Option EndpointSettings)
  pub ports : PortMap

-- `container.InspectResponse`
pub record InspectResponse : Type 0 where
  pub id : Text
  pub name : Text
  pub config : Option Config
  pub state : Option RunState
  pub created : Text
  pub restart_count : ℕ
  pub platform : Text
  pub host : Option HostConfig
  pub mounts : List MountPoint
  pub settings : Option NetworkSettings
