-- ===== src/Docker/Inspect.antt =====
-- `toDetail` of internal/adapters/docker/inspect.go, with `toHealth`, `toLabels` and `parseTime`.
-- `time.Parse` and the Unicode tables of `strings.ToUpper` are parameters.
use compose_monitor.Base.{
  Bool, true, false, not, List, [], ◌∷◌, ◌++◌, map, Option, none, some, Text, bytes, ◌==◌, nat_eq,
  list_eq, if◌then◌else◌, trim_prefix, Ordering,
}
use compose_monitor.Base.Int.{pos, ltb_ℤ}
use compose_monitor.Base.Instant.{Time, zero_time}
use compose_monitor.Base.Order.{compare_text}
use compose_monitor.Base.Sort.{sort}
use compose_monitor.Base.Spaces.{trim_space}
use compose_monitor.Domain.{no_state, Health, no_health, healthy, unhealthy, starting, Label, Port}
use compose_monitor.Domain.Detail.{Mount, NetworkAttachment, ServiceDetail}
use compose_monitor.Docker.Types.{
  MountPoint, EndpointSettings, Config, RunState, HostConfig, NetworkSettings, InspectResponse,
  Parsed,
}
use compose_monitor.Docker.Mapping.{
  label_service, label_number, label_image_title, label_image_description, container_number,
  to_state, or_name,
}
use compose_monitor.Docker.Routing.{label, service_url}
use compose_monitor.Docker.Redaction.{redact_environment, compare_labels}
use compose_monitor.Docker.Bindings.{to_ports_from_bindings, configured_ports}

-- `toHealth`
unfoldable pub to_health : Text → Health
to_health status =
    if status == bytes "healthy"
    then healthy
    else if status == bytes "unhealthy"
    then unhealthy
    else if status == bytes "starting"
    then starting
    else no_health

-- `toLabels`
unfoldable pub to_labels : List (Text × Text) → List Label
unfolding sort compare_labels
to_labels labels =
    sort compare_labels (map (λ (key, value). record { key = key; value = value }) labels)

-- A mount of the detail: a volume by its name.
unfoldable pub to_mount : MountPoint → Mount
to_mount mount = record {
  kind = mount.kind;
  source = if not (mount.name == []) then mount.name else mount.source;
  destination = mount.destination;
  read_write = mount.read_write;
}

-- The loop over the networks, which leaves out an endpoint that is nil.
unfoldable pub attachments : List (Text × Option EndpointSettings) → List NetworkAttachment
attachments [] = []
attachments ((name, none) ∷ networks) = attachments networks
attachments ((name, some endpoint) ∷ networks) =
    record {
      name = name;
      network_id = endpoint.network_id;
      ip_address = endpoint.ip_address;
      gateway = endpoint.gateway;
      mac_address = endpoint.mac_address;
      aliases = endpoint.aliases;
    }
    ∷ attachments networks

abbrev pub compare_mounts : Mount → Mount → Ordering
compare_mounts a b = compare_text a.destination b.destination

abbrev pub compare_attachments : NetworkAttachment → NetworkAttachment → Ordering
compare_attachments a b = compare_text a.name b.name

-- The ports: what the container listens on now, and where that is nothing what it is set up for,
-- with whether that was used.
unfoldable pub choose_ports : List Port → List Port → List Port × Bool
choose_ports [] configured = (configured, elim configured [ [] ↦ false | ◌∷◌ p ps ↦ true ])
choose_ports (p ∷ ps) configured = (p ∷ ps, false)

module _ (parse : Text → Option Parsed) (unicode_upper : Text → Text) where
  -- `parseTime`
  unfoldable pub parse_time : Text → Time
  parse_time value = if value == [] then zero_time else elim (parse value) [
    | none ↦ zero_time
    | some parsed ↦ if ltb_ℤ parsed.year (pos 2) then zero_time else parsed.at
  ]

  -- What is filled in from each part of the response, where it is there; all else is the zero
  -- value.
  abbrev blank : InspectResponse → ServiceDetail
  blank inspected = record {
    service = record {
      container_id = inspected.id;
      name = [];
      number = 0;
      container_name = trim_prefix inspected.name (bytes "/");
      image = [];
      title = [];
      description = [];
      url = [];
      state = no_state;
      status = [];
      status_kind = [];
      elapsed = [];
      health = no_health;
      ports = [];
      created = zero_time;
    };
    command = [];
    working_dir = [];
    user = [];
    restart_policy = [];
    platform = [];
    started_at = zero_time;
    finished_at = zero_time;
    exit_code = pos 0;
    error = [];
    restart_count = 0;
    environment = [];
    labels = [];
    mounts = [];
    networks = [];
    ports_configured = false;
  }

  unfoldable pub with_config : Option Config → ServiceDetail → ServiceDetail
  unfolding label container_number service_url redact_environment to_labels
  with_config none d = d
  with_config (some config) d = record d {
    service = record d.service {
      name = label label_service config.labels;
      number = container_number (label label_number config.labels);
      image = config.image;
      title = label label_image_title config.labels;
      description = label label_image_description config.labels;
      url = service_url config.labels;
    };
    working_dir = config.working_dir;
    user = config.user;
    command = config.entrypoint ++ config.cmd;
    environment = redact_environment unicode_upper config.env;
    labels = to_labels config.labels;
  }

  unfoldable pub with_state : Option RunState → ServiceDetail → ServiceDetail
  unfolding to_state to_health parse_time
  with_state none d = d
  with_state (some state) d = record d {
    service = record d.service {
      state = to_state state.status;
      status = state.status;
      health = elim state.health [ none ↦ d.service.health | some status ↦ to_health status ];
    };
    exit_code = state.exit_code;
    error = state.error;
    started_at = parse_time state.started_at;
    finished_at = parse_time state.finished_at;
  }

  unfoldable pub with_networks : Option NetworkSettings → ServiceDetail → ServiceDetail
  unfolding sort attachments to_ports_from_bindings
  with_networks none d = d
  with_networks (some settings) d = record d {
    networks = sort compare_attachments (attachments settings.networks);
    service = record d.service { ports = to_ports_from_bindings settings.ports };
  }

  abbrev named : ServiceDetail → ServiceDetail
  named d = record d {
    service = record d.service { name = or_name d.service.name d.service.container_name };
  }

  abbrev policy_of : Option HostConfig → Text
  policy_of none = []
  policy_of (some host) = host.restart_policy

  -- `toDetail`
  unfoldable pub to_detail : InspectResponse → ServiceDetail
  unfolding with_config with_state with_networks to_mount trim_space choose_ports configured_ports
      trim_prefix
  to_detail inspected =
      let d =
        with_networks inspected.settings
          (with_state inspected.state (named (with_config inspected.config (blank inspected)))) in
      let (ports, configured) = choose_ports d.service.ports (configured_ports inspected) in
      record d {
        service = record d.service { created = parse_time inspected.created; ports = ports };
        restart_count = inspected.restart_count;
        platform = trim_space inspected.platform;
        restart_policy = policy_of inspected.host;
        mounts = sort compare_mounts (map to_mount inspected.mounts);
        ports_configured = configured;
      }
