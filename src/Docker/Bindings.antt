-- ===== src/Docker/Bindings.antt =====
-- The port maps of an inspect response: `portsFromBinding`, `toPortsFromBindings` and
-- `configuredPorts` of internal/adapters/docker/inspect.go.
use compose_monitor.Base.{
  ℕ, ◌^◌, ◌%◌, List, [], ◌∷◌, ◌++◌, map, Option, none, some, Text, ◌==◌, nat_eq, list_eq, ltb,
  if◌then◌else◌, any,
}
use compose_monitor.Domain.{Port}
use compose_monitor.Docker.Types.{NatPort, PortMap, HostConfig, Config, InspectResponse}
use compose_monitor.Docker.Ports.{ContainerPort, to_ports}
use compose_monitor.Docker.Mapping.{unsigned}

-- `uint16(port.Int())`
abbrev pub uint16 : ℕ → ℕ
uint16 n = n % 2 ^ 16

-- `strconv.ParseUint(s, 10, 16)`, whose error is none.
abbrev pub parse_port : Text → Option ℕ
parse_port s = elim (unsigned s) [ none ↦ none | some n ↦ if ltb n (2 ^ 16) then some n else none ]

abbrev pub unpublished : NatPort → ContainerPort
unpublished port = record {
  ip = [];
  private_port = uint16 port.number;
  public_port = 0;
  kind = port.proto;
}

-- One round of the loop over the bindings.
unfoldable pub bind_port : NatPort → Text → ContainerPort
bind_port port host_port = elim (parse_port host_port) [
  | none ↦ unpublished port
  | some public ↦ record (unpublished port) { public_port = public }
]

-- `portsFromBinding`
unfoldable pub ports_from_binding : NatPort → List Text → List ContainerPort
unfolding bind_port
ports_from_binding port [] = unpublished port ∷ []
ports_from_binding port (binding ∷ bindings) = map (bind_port port) (binding ∷ bindings)

unfoldable pub ports_of_map : PortMap → List ContainerPort
unfolding ports_from_binding
ports_of_map [] = []
ports_of_map ((port, hosts) ∷ bindings) = ports_from_binding port hosts ++ ports_of_map bindings

-- `toPortsFromBindings`
unfoldable pub to_ports_from_bindings : PortMap → List Port
unfolding ports_of_map to_ports
to_ports_from_bindings bindings = to_ports (ports_of_map bindings)

-- The exposed ports that are not bound.
unfoldable pub exposed_only : PortMap → List NatPort → List ContainerPort
unfolding any
exposed_only bound [] = []
exposed_only bound (port ∷ exposed) =
    let rest = exposed_only bound exposed in
    if any (λ b. b.0.raw == port.raw) bound then rest else unpublished port ∷ rest

abbrev bindings_of : Option HostConfig → PortMap
bindings_of none = []
bindings_of (some host) = host.bindings

abbrev exposed_of : Option Config → List NatPort
exposed_of none = []
exposed_of (some config) = config.exposed

-- `configuredPorts`
unfoldable pub configured_ports : InspectResponse → List Port
unfolding ports_of_map exposed_only to_ports
configured_ports inspected = to_ports (
    ports_of_map (bindings_of inspected.host)
    ++ exposed_only (bindings_of inspected.host) (exposed_of inspected.config))
