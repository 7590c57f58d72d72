-- ===== src/Server.antt =====
-- The wiring of the program, and what it answers: `run` and `probe` of cmd/server/main.go, with the
-- routes that the handlers of internal/adapters/web mount.
pub mod ReadOnly
use compose_monitor.Base.{
  ◌≡◌, Bool, not, List, [], ◌++◌, Option, none, some, Text, bytes, ℕ, ◌==◌, nat_eq, if◌then◌else◌,
}
use compose_monitor.Base.Failure.{Result, Act, ok, err, foreign}
use compose_monitor.App.Ports.{EventBroadcaster}
use compose_monitor.App.Monitor.{MonitorService, MonitorState, start, stop, remove}
use compose_monitor.App.Networks.{NetworkService}
use compose_monitor.App.Volumes.{VolumeService}
use compose_monitor.Docker.Types.{Parsed}
use compose_monitor.Docker.Client.{Api, client_source, client_control}
use compose_monitor.Docker.Resources.{
  ResourceApi, network_source, network_control, volume_source, volume_control,
}
use compose_monitor.Config.{Config, display_title, load}
use compose_monitor.Web.Keys.{itoa_ℤ}
use compose_monitor.Web.Actions.{Request, Response, action, back_to_the_list}
use compose_monitor.Web.Returning.{back_where_it_was}
use compose_monitor.Web.Pages.{Answer, PageRequest}
use compose_monitor.Web.Services.{list_page, detail_page, log_answer, confirm_answer}
use compose_monitor.Web.Resources.{
  network_list_page, network_detail_page, network_confirm, network_remove, volume_list_page,
  volume_detail_page, volume_confirm, volume_remove,
}
use compose_monitor.Web.Front.{overview_page}

-- A control is held only where acting is allowed.
unfoldable pub held : {C : Type 0} → Config → C → Option C
held cfg control = if cfg.control.enabled then some control else none

-- The forms that are posted, and the pages that are asked for, each with a route of its own.
pub data Form : Type 0 where
  start_service stop_service remove_service delete_network delete_volume : Form

pub data Visit : Type 0 where
  overview services service service_log service_removal : Visit
  networks network network_removal volumes volume volume_removal : Visit

-- A handler that does not touch the monitor's observation.
unfoldable pub on_world : {W A : Type 0} → (W → A × W) → MonitorState W → A × MonitorState W
on_world f s = let (a, w) = f s.world in (a, record s { world = w })

module _ {W : Type 0} (cfg : Config) (api : Api W) (resources : ResourceApi W)
    (parse : Text → Option Parsed) (unicode_upper : Text → Text) (is_authority : Text → Bool)
    (hub : EventBroadcaster W) where
  unfoldable pub monitor : MonitorService W
  unfolding held
  monitor = record {
    source = client_source api cfg.project.name parse unicode_upper;
    control = held cfg (client_control api cfg.project.name parse unicode_upper);
    broadcaster = hub;
  }

  unfoldable pub network_service : NetworkService W
  unfolding held
  network_service = record {
    source = network_source resources cfg.project.name parse;
    containers = client_source api cfg.project.name parse unicode_upper;
    control = held cfg (network_control resources cfg.project.name parse);
  }

  unfoldable pub volume_service : VolumeService W
  unfolding held
  volume_service = record {
    source = volume_source resources cfg.project.name parse;
    containers = client_source api cfg.project.name parse unicode_upper;
    control = held cfg (volume_control resources cfg.project.name parse);
  }

  -- The routes of POST.
  unfoldable pub post : Form → Request → MonitorState W → Response × MonitorState W
  unfolding on_world monitor network_service volume_service
  post start_service = action (start monitor) (back_where_it_was is_authority)
  post stop_service = action (stop monitor) (back_where_it_was is_authority)
  post remove_service = action (remove monitor) back_to_the_list
  post delete_network = λ r. on_world (network_remove network_service r)
  post delete_volume = λ r. on_world (volume_remove volume_service r)

  -- The routes of GET that answer with a page.
  unfoldable pub visit : Visit → PageRequest → MonitorState W → Answer × MonitorState W
  unfolding on_world monitor network_service volume_service display_title
  visit overview r = overview_page monitor (display_title cfg.project)
  visit services r = list_page (display_title cfg.project) monitor
  visit service r = detail_page (display_title cfg.project) monitor r
  visit service_log r = log_answer (display_title cfg.project) monitor r
  visit service_removal r = confirm_answer (display_title cfg.project) monitor r
  visit networks r = on_world (network_list_page (display_title cfg.project) network_service)
  visit network r = on_world (network_detail_page (display_title cfg.project) network_service r)
  visit network_removal r = on_world (network_confirm (display_title cfg.project) network_service r)
  visit volumes r = on_world (volume_list_page (display_title cfg.project) volume_service)
  visit volume r = on_world (volume_detail_page (display_title cfg.project) volume_service r)
  visit volume_removal r = on_world (volume_confirm (display_title cfg.project) volume_service r)

-- `probe`, with what the HTTP client makes of a URL: a code with the status line, or an error.
unfoldable pub probe_url : Config → Text
unfolding itoa_ℤ
probe_url cfg = bytes "http://127.0.0.1:" ++ itoa_ℤ cfg.http.port ++ bytes "/healthz"

unfoldable pub probe : (Text → Result (ℕ × Text)) → Result Config → Result (Unit {0})
unfolding load probe_url
probe dial parsed = elim (load parsed) [
  | err e ↦ err e
  | ok cfg ↦ elim (dial (probe_url cfg)) [
    | err e ↦ err e
    | ok (code, status) ↦
        if not (code == 200) then err (foreign (bytes "/healthz returned " ++ status)) else ok tt
  ]
]
