-- ===== src/Tests/Pages.antt =====
-- The theorems on the pages and on the server's wiring, at runtimes that know one foreign container
-- and one volume.
use compose_monitor.Base.{
  ℕ, ◌+◌, ◌≡◌, ◌≤◌, ◌==◌, refl, Bool, true, false, List, [], ◌∷◌, Option, none, some, Text, bytes,
  list_eq, list_beq, nat_eq, has_prefix,
}
use compose_monitor.Base.Dict.{lookup}
use compose_monitor.Base.Int.{pos, negsuc}
use compose_monitor.Base.Failure.{ok, err, or_wrap}
use compose_monitor.Domain.{Service, Volume, volume_in_use}
use compose_monitor.Domain.Detail.{ServiceDetail}
use compose_monitor.App.Ports.{ContainerSource, EventBroadcaster, ResourceControl}
use compose_monitor.App.Monitor.{MonitorState, through}
use compose_monitor.App.Monitor.Calls.{Observed, observed}
use compose_monitor.App.Networks.{count_of}
use compose_monitor.App.Volumes.{VolumeService, inspect_volume, with_volume_usage}
use compose_monitor.Docker.Types.{InspectResponse, Parsed}
use compose_monitor.Docker.Client.{Api}
use compose_monitor.Docker.Client.Scope.{IsForeign}
use compose_monitor.Docker.Resources.{ResourceApi}
use compose_monitor.Config.{Config}
use compose_monitor.Web.Actions.{Request, same_origin}
use compose_monitor.Web.Pages.{PageRequest, Answer, missing}
use compose_monitor.Web.Services.{
  list_page, detail_page, read_log, show_log, log_answer, confirm_answer,
}
use compose_monitor.Web.Services.Reading.{IsRead, pages_act_on_nothing}
use compose_monitor.Web.Services.Tails.{read_log-bounds}
use compose_monitor.Web.Services.Foreign.{application, foreign_container_answers_404}
use compose_monitor.Web.Resources.{volume_confirm, volume_remove, volume_question, ask, in_use_text}
use compose_monitor.Web.Resources.Agreement.{volume_outcome, volume_confirm_agrees}
use compose_monitor.Web.Returning.{parse_url, back_where_it_was}
use compose_monitor.Web.Returning.Hosts.{names_host, referred_path, back_where_it_was-names_host}
use compose_monitor.Server.{Form, post}
use compose_monitor.Server.ReadOnly.{is_forbidden, disabled_acts_on_nothing}
use compose_monitor.Tests.{web, worker, monitor, refused}

abbrev asked : Text → PageRequest
asked id = record {
  id = id;
  path = bytes "/volumes/pgdata/remove";
  hx_request = [];
  tail = bytes "50";
}

abbrev posted : Text → Text → Request
posted referer id = record {
  fetch_site = bytes "same-origin";
  requested_with = [];
  referer = referer;
  id = id;
}

abbrev observed_state : MonitorState (Observed (List Service))
observed_state = record { snapshot = []; world = (web ∷ worker ∷ [], []) }

pages_act_on_nothing_example :
    let r = asked (bytes "c1") in
    IsRead
      (bytes "shop")
      monitor
      observed_state
      (list_page (bytes "shop") (observed monitor) observed_state).1
    × IsRead
        (bytes "shop")
        monitor
        observed_state
        (detail_page (bytes "shop") (observed monitor) r observed_state).1
    × IsRead
        (bytes "shop")
        monitor
        observed_state
        (log_answer (bytes "shop") (observed monitor) r observed_state).1
    × IsRead
        (bytes "shop")
        monitor
        observed_state
        (confirm_answer (bytes "shop") (observed monitor) r observed_state).1
pages_act_on_nothing_example =
    pages_act_on_nothing (bytes "shop") monitor (asked (bytes "c1")) observed_state

read_log-bounds_example :
    (n : ℕ) × (1 ≤ n)
    × (n ≤ 5000)
    × ((d : ServiceDetail) (s : MonitorState (List Service))
        → let answer =
            or_wrap
              (bytes "reading logs")
              (through monitor (monitor.source.logs d.service.container_id (pos n)))
              s in
          read_log (bytes "shop") monitor (asked (bytes "c1")) d s
          ≡ (show_log (bytes "shop") (asked (bytes "c1")) d (pos n) answer.0, answer.1))
read_log-bounds_example = read_log-bounds (bytes "shop") monitor (asked (bytes "c1"))

-- A runtime that knows one container, of another project, and counts its inspections.
abbrev stranger : InspectResponse
stranger = record {
  id = bytes "c9";
  name = bytes "/other";
  config = some (record {
    labels = (bytes "com.docker.compose.project", bytes "theirs") ∷ [];
    image = bytes "nginx";
    working_dir = [];
    user = [];
    entrypoint = [];
    cmd = [];
    env = [];
    tty = false;
    exposed = [];
  });
  state = none;
  created = [];
  restart_count = 0;
  platform = [];
  host = none;
  mounts = [];
  settings = none;
}

abbrev api : Api ℕ
api = record {
  container_list = λ all label w. (ok [], w);
  container_inspect = λ id w. (ok stranger, w + 1);
  container_start = λ id w. (ok tt, w + 10);
  container_stop = λ limit id w. (ok tt, w + 10);
  container_remove = λ id w. (ok tt, w + 10);
  container_logs = λ id tail w. (ok (record { content = []; ending = none }), w + 100);
  is_not_found = λ e. false;
  is_print = λ r. false;
}

abbrev no_time : Text → Option Parsed
no_time stamp = none

abbrev keep_text : Text → Text
keep_text s = s

abbrev silent : EventBroadcaster ℕ
silent = record { publish = λ e w. (ok tt, w) }

abbrev idle : MonitorState ℕ
idle = record { snapshot = []; world = 0 }

abbrev inspected : MonitorState ℕ
inspected = record { snapshot = []; world = 1 }

stranger-IsForeign : IsForeign api (bytes "mine") no_time keep_text (bytes "c9") 0
unfolding lookup list_beq
stranger-IsForeign = (stranger, refl, λ e. cc)

abbrev no_service : Answer
no_service = record {
  status = 404;
  page = missing (bytes "Mine") (bytes "services") (bytes "service");
}

foreign_container_answers_404_example :
    let m = application api (bytes "mine") no_time keep_text none silent in
    (detail_page (bytes "Mine") m (asked (bytes "c9")) idle ≡ (no_service, inspected))
    × (log_answer (bytes "Mine") m (asked (bytes "c9")) idle ≡ (no_service, inspected))
    × (confirm_answer (bytes "Mine") m (asked (bytes "c9")) idle ≡ (no_service, inspected))
foreign_container_answers_404_example =
    foreign_container_answers_404 api (bytes "mine") no_time keep_text none silent (bytes "Mine")
      (asked (bytes "c9")) idle stranger-IsForeign

-- A volume that one container mounts.
abbrev pgdata : Volume
pgdata = record {
  name = bytes "pgdata";
  driver = bytes "local";
  mountpoint = [];
  scope = bytes "local";
  created = pos 0;
  labels = [];
  options = [];
  size = negsuc 0;
  used_by = 0;
}

abbrev mounted : Volume
mounted = record pgdata { used_by = 1 }

abbrev counting : ContainerSource ℕ
counting = record {
  list = λ w. (err refused, w);
  inspect = λ id w. (err refused, w);
  logs = λ id tail w. (err refused, w);
  usage = λ w. (ok (record { networks = []; volumes = (bytes "pgdata", 1) ∷ [] }), w);
}

abbrev willing : ResourceControl ℕ
willing = record { remove = λ id w. (ok tt, w + 10) }

abbrev volume_service : VolumeService ℕ
volume_service = record {
  source = record { list = λ w. (ok (pgdata ∷ []), w); inspect = λ id w. (ok pgdata, w) };
  containers = counting;
  control = some willing;
}

pgdata-mounted : inspect_volume volume_service (bytes "pgdata") 0 ≡ (ok mounted, 0)
unfolding inspect_volume with_volume_usage count_of lookup list_beq
pgdata-mounted = refl

volume_confirm_agrees_example :
    (volume_confirm (bytes "Mine") volume_service (asked (bytes "pgdata")) 0 ≡ (
      ask
          (bytes "Mine")
          (bytes "volumes")
          (asked (bytes "pgdata"))
          (volume_question (asked (bytes "pgdata")) mounted),
      0,
    ))
    × (((volume_question (asked (bytes "pgdata")) mounted).consequence == in_use_text)
        ≡ volume_in_use mounted)
    × (volume_remove volume_service (posted [] (bytes "pgdata")) 0
        ≡ volume_outcome
            (bytes "Mine")
            volume_service
            willing
            (posted [] (bytes "pgdata"))
            0
            0
            mounted)
volume_confirm_agrees_example =
    volume_confirm_agrees (bytes "Mine") volume_service willing (posted [] (bytes "pgdata")) 0 0
      mounted (asked (bytes "pgdata")) refl (unfold same_origin list_beq in refl) refl
      pgdata-mounted

abbrev any_authority : Text → Bool
any_authority s = true

-- A referrer of this site whose path begins with two slashes.
abbrev two_slashes : Request
two_slashes = posted (bytes "https://here//evil.example/x") (bytes "c1")

back_where_it_was-names_host_example :
    (has_prefix (back_where_it_was any_authority two_slashes) (bytes "/") ≡ true)
    × (names_host (back_where_it_was any_authority two_slashes)
        ≡ names_host (referred_path (parse_url any_authority two_slashes.referer)))
back_where_it_was-names_host_example = back_where_it_was-names_host any_authority two_slashes

-- The same input, computed: the way back names another host.
two_slashes_leave : back_where_it_was any_authority two_slashes ≡ bytes "//evil.example/x"
unfolding back_where_it_was list_beq
two_slashes_leave = refl

abbrev resources : ResourceApi ℕ
resources = record {
  network_list = λ filter w. (ok [], w);
  network_inspect = λ id w. (err refused, w);
  network_remove = λ id w. (ok tt, w + 10);
  volume_list = λ filter w. (ok [], w);
  volume_inspect = λ name w. (err refused, w);
  volume_remove = λ name w. (ok tt, w + 10);
  is_not_found = λ e. false;
  is_print = λ r. false;
}

abbrev read_only : Config
read_only = record {
  application = record { mode = bytes "production" };
  project = record { name = bytes "mine"; title = []; interval = pos 1; debounce = pos 1 };
  docker = record { host = [] };
  control = record { enabled = false };
  http = record {
    host = [];
    port = pos 8080;
    read_header_timeout = pos 1;
    idle_timeout = pos 1;
    shutdown_timeout = pos 1;
    keep_alive = pos 1;
  };
  log = record { level = bytes "info"; format = bytes "text" };
}

disabled_acts_on_nothing_example :
    let out =
      post read_only api resources no_time keep_text any_authority silent Form.stop_service
        (posted [] (bytes "c1"))
        idle in
    (is_forbidden out.0 ≡ true) × (out.1 ≡ idle)
disabled_acts_on_nothing_example =
    disabled_acts_on_nothing read_only api resources no_time keep_text any_authority silent
      Form.stop_service (posted [] (bytes "c1")) idle refl
