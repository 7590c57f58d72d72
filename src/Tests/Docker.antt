-- ===== src/Tests/Docker.antt =====
-- The theorems on the runtime's adapter.
use mathlib.Core.List.Perm
use Prim.Native.Nat.{min}
use compose_monitor.Base.{
  ℕ, ◌+◌, ◌*◌, ◌^◌, ◌≡◌, ◌≢◌, refl, true, false, List, [], ◌∷◌, Option, none, some, Text, bytes,
  inl, inr, list_beq, has_prefix, list_eq, nat_eq, any, contains, cut, if◌then◌else◌, take, All,
}
use compose_monitor.Base.Int.{pos}
use compose_monitor.Base.Dict.{lookup, IsMap}
use compose_monitor.Base.Failure.{Failure, foreign, ok}
use compose_monitor.Docker.Reconnect.{
  message, messages_closed, errors, stream, delay_after, reconnect_min_delay, reconnect_max_delay,
  second, Runs, none_yet, one_more, delay_after-never_resets,
}
use compose_monitor.Docker.Redaction.{
  redact_environment, split_entry, is_secret, to_upper, redact_environment-hides,
}
use compose_monitor.Docker.Routing.{service_url}
use compose_monitor.Docker.Routing.Stable.{service_url-stable}
use compose_monitor.Docker.Routing.Links.{IsLink, service_url-IsLink}
use compose_monitor.Docker.Types.{ContainerSummary, MountPoint, InspectResponse, Parsed}
use compose_monitor.Docker.Client.{Api, inspect_container, container_logs, container_usage}
use compose_monitor.Docker.Client.Scope.{IsRefused, project_of, members_only}
use compose_monitor.Docker.Client.Usage.{HasNetworkMap, IsCountOf, count_usage_counts}

abbrev two_failures : List (Option Failure)
two_failures =
    some (foreign (bytes "event stream closed")) ∷ some (foreign (bytes "event stream closed")) ∷ []

two-Runs : Runs two_failures
unfolding stream
two-Runs =
    one_more (message ∷ messages_closed ∷ []) false true refl
      (one_more (errors none ∷ []) true true refl none_yet)

delay_after-never_resets_example :
    delay_after two_failures reconnect_min_delay ≡ min (2 ^ 2 * second) reconnect_max_delay
delay_after-never_resets_example = delay_after-never_resets two_failures two-Runs

abbrev keep_text : Text → Text
keep_text s = s

redact_environment-hides_example :
    redact_environment keep_text (bytes "DB_PASSWORD=x" ∷ bytes "A=b" ∷ [])
    ≡ redact_environment keep_text (bytes "DB_PASSWORD=y" ∷ bytes "A=b" ∷ [])
unfolding split_entry is_secret to_upper any contains has_prefix cut
redact_environment-hides_example =
    redact_environment-hides keep_text (bytes "DB_PASSWORD=x" ∷ bytes "A=b" ∷ [])
      (bytes "DB_PASSWORD=y" ∷ bytes "A=b" ∷ []) (inr (refl, refl), (inl refl, tt))

abbrev rule : Text × Text
rule = (bytes "traefik.http.routers.web.rule", bytes "Host(`a.example`)")

abbrev tls : Text × Text
tls = (bytes "traefik.http.routers.web.tls", bytes "true")

rule_tls-IsMap : IsMap (rule ∷ tls ∷ [])
unfolding lookup list_beq
rule_tls-IsMap = (refl, (refl, tt))

tls_rule-IsMap : IsMap (tls ∷ rule ∷ [])
unfolding lookup list_beq
tls_rule-IsMap = (refl, (refl, tt))

service_url-stable_example : service_url (rule ∷ tls ∷ []) ≡ service_url (tls ∷ rule ∷ [])
service_url-stable_example =
    service_url-stable (rule ∷ tls ∷ []) (tls ∷ rule ∷ []) rule_tls-IsMap tls_rule-IsMap
      (Perm.swap tls rule [])

service_url-IsLink_example : IsLink (service_url (rule ∷ tls ∷ []))
service_url-IsLink_example = service_url-IsLink (rule ∷ tls ∷ [])

abbrev no_time : Text → Option Parsed
no_time stamp = none

-- A runtime that knows one container, of another project.
abbrev stranger : InspectResponse
stranger = record {
  id = bytes "c9";
  name = bytes "/other";
  config = some (record {
    labels = (bytes "com.docker.compose.project", bytes "theirs") ∷ [];
    image = bytes "nginx";
    working_dir = [];
    user = [];
    entrypoint = [];
    cmd = [];
    env = bytes "TOKEN=1" ∷ [];
    tty = false;
    exposed = [];
  });
  state = none;
  created = [];
  restart_count = 0;
  platform = [];
  host = none;
  mounts = [];
  settings = none;
}

abbrev api : Api ℕ
api = record {
  container_list = λ all label w. (ok [], w);
  container_inspect = λ id w. (ok stranger, w + 1);
  container_start = λ id w. (ok tt, w);
  container_stop = λ limit id w. (ok tt, w);
  container_remove = λ id w. (ok tt, w);
  container_logs = λ id tail w. (ok (record { content = []; ending = none }), w + 100);
  is_not_found = λ e. false;
  is_print = λ r. false;
}

stranger-foreign : project_of stranger ≢ some (bytes "mine")
unfolding lookup list_beq
stranger-foreign e = cc

members_only_example :
    IsRefused 1 (inspect_container api (bytes "mine") no_time keep_text (bytes "c9") 0)
    × IsRefused 1 (container_logs api (bytes "mine") no_time keep_text (bytes "c9") (pos 10) 0)
members_only_example =
    members_only api (bytes "mine") no_time keep_text (bytes "c9") (pos 10) 0 stranger
      (no stranger-foreign) refl

-- A mount at one of two places, of a volume or of a directory.
abbrev mount : Text → Text → MountPoint
mount kind destination = record {
  kind = kind;
  name = bytes "data";
  source = [];
  destination = destination;
  read_write = true;
}

abbrev summary : Text → List MountPoint → ContainerSummary
summary state mounts = record {
  id = bytes "c2";
  names = bytes "/db" ∷ [];
  image = bytes "postgres";
  labels = [];
  state = state;
  status = bytes "Up 2 minutes";
  ports = [];
  created = pos 0;
  networks = some ((bytes "data", none) ∷ (bytes "front", none) ∷ []);
  mounts = mounts;
}

-- One container mounts the volume at two places and a directory besides; the other is stopped and
-- mounts nothing.
abbrev two_containers : List ContainerSummary
two_containers =
    summary (bytes "running") (
      mount (bytes "volume") (bytes "/a")
      ∷ mount (bytes "bind") (bytes "/b")
      ∷ mount (bytes "volume") (bytes "/c")
      ∷ [])
    ∷ summary (bytes "exited") []
    ∷ []

two_containers-HasNetworkMap : All HasNetworkMap two_containers
unfolding lookup list_beq
two_containers-HasNetworkMap = ((refl, (refl, tt)), ((refl, (refl, tt)), tt))

-- A runtime with these containers, which lists the second only where all are asked for.
abbrev two_api : Api ℕ
two_api = record api {
  container_list = λ all label w. (ok (if all then two_containers else take 1 two_containers), w);
}

-- Both containers are attached to the network, and one mounts the volume of the same name twice.
count_usage_counts_example :
    IsCountOf
      (bytes "data")
      two_containers
      (container_usage two_api (bytes "mine") no_time keep_text 0).0
count_usage_counts_example =
    count_usage_counts two_api (bytes "mine") no_time keep_text (bytes "data") 0 two_containers refl
      two_containers-HasNetworkMap
