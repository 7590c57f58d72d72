-- ===== src/Docker/Mapping.antt =====
-- `toService` and what it calls, of internal/adapters/docker/mapping.go.
pub mod Numbers
pub mod States
use compose_monitor.Base.{
  ℕ, zero, suc, ◌+◌, ◌-◌, ◌*◌, ◌^◌, Bool, true, false, ◌&&◌, List, [], ◌∷◌, ◌++◌, Option, none,
  some, Text, bytes, ◌==◌, nat_eq, list_eq, leb, ltb, if◌then◌else◌, trim_prefix, contains,
}
use compose_monitor.Base.Int.{ℤ, pos, negsuc, ltb_ℤ, pos_part}
use compose_monitor.Base.Instant.{unix_time}
use compose_monitor.Domain.{
  Service, State, running, paused, restarting, removing, exited, dead, unknown, Health, no_health,
  starting, healthy, unhealthy,
}
use compose_monitor.Docker.Types.{ContainerSummary}
use compose_monitor.Docker.Ports.{to_ports}
use compose_monitor.Docker.Routing.{label, service_url}
use compose_monitor.Docker.Status.{status_elapsed, status_kind}

-- The labels of internal/adapters/docker/client.go and of `domain`.
abbrev pub label_project : Text
label_project = bytes "com.docker.compose.project"

abbrev pub label_service : Text
label_service = bytes "com.docker.compose.service"

abbrev pub label_number : Text
label_number = bytes "com.docker.compose.container-number"

abbrev pub label_image_title : Text
label_image_title = bytes "org.opencontainers.image.title"

abbrev pub label_image_description : Text
label_image_description = bytes "org.opencontainers.image.description"

-- `containerName`
unfoldable pub container_name : List Text → Text
unfolding trim_prefix
container_name [] = []
container_name (name ∷ names) = trim_prefix name (bytes "/")

abbrev is_digit : ℕ → Bool
is_digit c = leb 0x30 c && leb c 0x39

unfoldable pub read_digits : ℕ → Text → Option ℕ
read_digits v [] = some v
read_digits v (c ∷ s) =
    let rest = read_digits (v * 10 + (c - 0x30)) s in if is_digit c then rest else none

abbrev pub unsigned : Text → Option ℕ
unsigned [] = none
unsigned (c ∷ s) = read_digits 0 (c ∷ s)

-- A number of 64 bits and a sign, where there is one.
abbrev pub to_int : Bool → Option ℕ → Option ℤ
to_int negative none = none
to_int false (some n) = if ltb n (2 ^ 63) then some (pos n) else none
to_int true (some zero) = some (pos 0)
to_int true (some (suc n)) = if ltb n (2 ^ 63) then some (negsuc n) else none

-- `strconv.Atoi`, whose error is none.
unfoldable pub atoi : Text → Option ℤ
unfolding read_digits
atoi [] = none
atoi (c ∷ s) =
    if c == 0x2d
    then to_int true (unsigned s)
    else if c == 0x2b
    then to_int false (unsigned s)
    else to_int false (unsigned (c ∷ s))

-- `containerNumber`
unfoldable pub container_number : Text → ℕ
unfolding atoi
container_number value = elim (atoi value) [
  | none ↦ 1
  | some number ↦ if ltb_ℤ number (pos 1) then 1 else pos_part number
]

-- `toState`
unfoldable pub to_state : Text → State
to_state state =
    if state == bytes "created"
    then State.created
    else if state == bytes "running"
    then running
    else if state == bytes "paused"
    then paused
    else if state == bytes "restarting"
    then restarting
    else if state == bytes "removing"
    then removing
    else if state == bytes "exited"
    then exited
    else if state == bytes "dead"
    then dead
    else unknown

-- `healthFromStatus`
unfoldable pub health_from_status : Text → Health
unfolding contains
health_from_status status =
    if contains status (bytes "(healthy)")
    then healthy
    else if contains status (bytes "(unhealthy)")
    then unhealthy
    else if contains status (bytes "(health: starting)")
    then starting
    else no_health

-- The name of a service: that of the container, where no label gives one.
abbrev pub or_name : Text → Text → Text
or_name name other = if name == [] then other else name

-- `toService`
unfoldable pub to_service : ContainerSummary → Service
unfolding container_name container_number to_state health_from_status label service_url
    status_elapsed status_kind to_ports
to_service summary = record {
  container_id = summary.id;
  name = or_name (label label_service summary.labels) (container_name summary.names);
  number = container_number (label label_number summary.labels);
  container_name = container_name summary.names;
  image = summary.image;
  title = label label_image_title summary.labels;
  description = label label_image_description summary.labels;
  url = service_url summary.labels;
  state = to_state summary.state;
  status = summary.status;
  status_kind = status_kind summary.status;
  elapsed = status_elapsed summary.status;
  health = health_from_status summary.status;
  ports = to_ports summary.ports;
  created = unix_time summary.created;
}
