-- ===== src/Docker/Client.antt =====
-- `Client` of internal/adapters/docker: the methods of client.go, inspect.go, logs.go and usage.go on
-- the container runtime's API, which is a parameter. The client is a `ports.ContainerSource` and a
-- `ports.ContainerControl`.
pub mod Scope
pub mod Usage
use compose_monitor.Base.{
  ℕ, suc, ◌≡◌, Bool, true, false, not, ◌&&◌, List, [], ◌∷◌, ◌++◌, map, Option, none, some, Text,
  bytes, ◌==◌, nat_eq, list_eq, if◌then◌else◌, length, ltb,
}
use compose_monitor.Base.Int.{ℤ, pos, ltb_ℤ}
use compose_monitor.Base.Instant.{Time}
use compose_monitor.Base.Dict.{lookup, insert}
use compose_monitor.Base.Quote.{quote}
use compose_monitor.Base.Failure.{
  Failure, sentinel, foreign, prefixed, suffixed, not_found, Act, Result, ok, err, ◌>>=◌, ◌>>◌,
  return, fail, guard, or_wrap,
}
use compose_monitor.Domain.{Service, ResourceUsage}
use compose_monitor.Domain.Detail.{ServiceDetail, Logs, LogLine}
use compose_monitor.App.Ports.{ContainerSource, ContainerControl}
use compose_monitor.App.Networks.{count_of}
use compose_monitor.Docker.Types.{
  ContainerSummary, MountPoint, Config, InspectResponse, Parsed, EndpointSettings,
}
use compose_monitor.Docker.Mapping.{to_service, label_project}
use compose_monitor.Docker.Routing.{label}
use compose_monitor.Docker.Inspect.{to_detail}
use compose_monitor.Docker.Logs.{Stream, read_multiplexed_log, read_tty_log}

-- The calls of the runtime's API that the client makes. A listing takes whether it shows all
-- containers, those that do not run too, and the label to filter by; a stop takes its time limit in
-- seconds, and the logs the number of lines. `is_print` is the table of `strconv.IsPrint` beyond
-- ASCII.
pub record Api (W : Type 0) : Type 0 where
  pub container_list : Bool → Text → Act W (List ContainerSummary)
  pub container_inspect : Text → Act W InspectResponse
  pub container_start : Text → Act W (Unit {0})
  pub container_stop : ℕ → Text → Act W (Unit {0})
  pub container_remove : Text → Act W (Unit {0})
  pub container_logs : Text → ℤ → Act W Stream
  pub is_not_found : Failure → Bool
  pub is_print : ℕ → Bool

abbrev pub stop_timeout : ℕ
stop_timeout = 10

-- `inspected.Config != nil && inspected.Config.Labels[labelProject] == c.project`
unfoldable pub is_member : Text → InspectResponse → Bool
unfolding label
is_member project inspected = elim inspected.config [
  | none ↦ false
  | some config ↦ label label_project config.labels == project
]

-- `counts[name]++`
unfoldable pub count_up : Text → List (Text × ℕ) → List (Text × ℕ)
unfolding count_of insert
count_up name counts = insert name (suc (count_of name counts)) counts

unfoldable pub count_all : List Text → List (Text × ℕ) → List (Text × ℕ)
unfolding count_up
count_all [] counts = counts
count_all (name ∷ names) counts = count_all names (count_up name counts)

abbrev pub keys : List (Text × Option EndpointSettings) → List Text
keys [] = []
keys ((name, endpoint) ∷ networks) = name ∷ keys networks

abbrev pub network_names : ContainerSummary → List Text
network_names summary = elim summary.networks [ none ↦ [] | some networks ↦ keys networks ]

-- The named volumes among the mounts.
unfoldable pub volume_names : List MountPoint → List Text
volume_names [] = []
volume_names (mounted ∷ mounts) =
    let rest = volume_names mounts in
    if mounted.kind == bytes "volume" && not (mounted.name == []) then mounted.name ∷ rest else rest

-- The loop of `Usage`.
unfoldable pub count_usage : List ContainerSummary → ResourceUsage → ResourceUsage
unfolding count_all volume_names
count_usage [] usage = usage
count_usage (summary ∷ summaries) usage = count_usage summaries (record usage {
  networks = count_all (network_names summary) usage.networks;
  volumes = count_all (volume_names summary.mounts) usage.volumes;
})

abbrev pub no_container : Text → Failure
no_container id = suffixed (sentinel not_found) (bytes "container " ++ id)

module _ {W : Type 0} (api : Api W) (project : Text) (parse : Text → Option Parsed)
    (unicode_upper : Text → Text) where
  abbrev project_filter : Text
  project_filter = label_project ++ bytes "=" ++ project

  abbrev parse_instant : Text → Option Time
  parse_instant stamp = elim (parse stamp) [ none ↦ none | some parsed ↦ some parsed.at ]

  -- `List`
  unfoldable pub list_containers : Act W (List Service)
  unfolding to_service quote
  list_containers = do
    summaries ←
        or_wrap (bytes "listing containers of project " ++ quote api.is_print project)
          (api.container_list true project_filter)
    return (map to_service summaries)

  -- `Start`, `Stop` and `Remove`
  unfoldable pub start_container : Text → Act W (Unit {0})
  start_container id = or_wrap (bytes "starting container " ++ id) (api.container_start id)

  unfoldable pub stop_container : Text → Act W (Unit {0})
  stop_container id =
      or_wrap (bytes "stopping container " ++ id) (api.container_stop stop_timeout id)

  unfoldable pub remove_container : Text → Act W (Unit {0})
  remove_container id = or_wrap (bytes "removing container " ++ id) (api.container_remove id)

  -- What `Inspect` and `Logs` begin with: the response for a container of the project.
  unfoldable pub inspect_member : Text → Act W InspectResponse
  unfolding is_member
  inspect_member id w =
      let (r, w') = api.container_inspect id w in
      elim r [
        | err e ↦ (
          err (
              if api.is_not_found e
              then no_container id
              else prefixed (bytes "inspecting container " ++ id) e),
          w',
        )
        | ok inspected ↦
            if is_member project inspected then (ok inspected, w') else (err (no_container id), w')
      ]

  -- `Inspect`
  unfoldable pub inspect_container : Text → Act W ServiceDetail
  unfolding inspect_member to_detail
  inspect_container id = do
    inspected ← inspect_member id
    return (to_detail parse unicode_upper inspected)

  abbrev tty_of : InspectResponse → Bool
  tty_of inspected = elim inspected.config [ none ↦ false | some config ↦ config.tty ]

  -- The lines with the error of reading them, as `Logs` returns them.
  abbrev finish_logs : Text → ℤ → Option (List LogLine × Option Failure) → Result Logs
  finish_logs id tail none = err (foreign (bytes "out of fuel"))
  finish_logs id tail (some (lines, some e)) =
      err (prefixed (bytes "decoding logs of container " ++ id) e)
  finish_logs id tail (some (lines, none)) =
      ok (record { lines = lines; tail = tail; truncated = not (ltb_ℤ (pos (length lines)) tail) })

  unfoldable pub decode_logs : Text → ℤ → Bool → Stream → Act W Logs
  unfolding read_tty_log read_multiplexed_log
  decode_logs id tail tty stream w = (
    finish_logs id tail (
        if tty
        then some (read_tty_log parse_instant stream)
        else read_multiplexed_log parse_instant stream),
    w,
  )

  unfoldable pub open_logs : Text → ℤ → InspectResponse → Act W Logs
  unfolding decode_logs
  open_logs id tail inspected = do
    stream ← or_wrap (bytes "reading logs of container " ++ id) (api.container_logs id tail)
    decode_logs id tail (tty_of inspected) stream

  -- `Logs`
  unfoldable pub container_logs : Text → ℤ → Act W Logs
  unfolding inspect_member open_logs
  container_logs id tail = do inspected ← inspect_member id; open_logs id tail inspected

  -- `Usage`
  unfoldable pub container_usage : Act W ResourceUsage
  unfolding count_usage quote
  container_usage = do
    summaries ←
        or_wrap (bytes "listing containers of project " ++ quote api.is_print project)
          (api.container_list true project_filter)
    return (count_usage summaries (record { networks = []; volumes = [] }))

  abbrev pub client_source : ContainerSource W
  client_source = record {
    list = list_containers;
    inspect = inspect_container;
    logs = container_logs;
    usage = container_usage;
  }

  abbrev pub client_control : ContainerControl W
  client_control = record {
    start = start_container;
    stop = stop_container;
    remove = remove_container;
  }
