-- ===== src/Web/Front.antt =====
-- The front page and the health probe: internal/adapters/web/overview/handlers/handler.go and
-- internal/adapters/web/health/handlers/handler.go.
use compose_monitor.Base.{[], ◌++◌, Text, bytes, ◌==◌, nat_eq, list_eq, if◌then◌else◌}
use compose_monitor.Base.Failure.{ok, err, error_text}
use compose_monitor.Base.Json.{json_string}
use compose_monitor.App.Snapshot.{summarize}
use compose_monitor.App.Monitor.{MonitorService, MonitorState, list_services, can_control}
use compose_monitor.Web.Pages.{Answer, shown, unavailable_answer, front}

-- What the probe says of the runtime.
pub record Health : Type 0 where
  pub status : Text
  pub runtime : Text
  pub detail : Text

-- `detail,omitempty`
unfoldable pub detail_json : Text → Text
unfolding json_string
detail_json detail = if detail == [] then [] else bytes ",\"detail\":" ++ json_string detail

-- `json.NewEncoder(w).Encode(status)`, which ends the line.
unfoldable pub health_json : Health → Text
unfolding json_string detail_json
health_json h =
    bytes "{\"status\":"
    ++ (json_string h.status
        ++ (bytes ",\"runtime\":"
            ++ (json_string h.runtime ++ (detail_json h.detail ++ bytes "}\n"))))

module _ {W : Type 0} (m : MonitorService W) where
  -- `overview`
  unfoldable pub overview_page : Text → MonitorState W → Answer × MonitorState W
  unfolding list_services summarize can_control unavailable_answer
  overview_page project s =
      let (r, s') = list_services m s in
      elim r [
        | ok services ↦ (shown (front project services (summarize services) (can_control m)), s')
        | err e ↦ (unavailable_answer project (bytes "overview") e, s')
      ]

  -- `health`; its status is 200 always.
  unfoldable pub health_of : MonitorState W → Health × MonitorState W
  unfolding list_services error_text
  health_of s =
      let (r, s') = list_services m s in
      elim r [
        | ok services ↦
            (record { status = bytes "ok"; runtime = bytes "reachable"; detail = [] }, s')
        | err e ↦ (
          record { status = bytes "ok"; runtime = bytes "unreachable"; detail = error_text e },
          s',
        )
      ]

  unfoldable pub health_answer : MonitorState W → Text × MonitorState W
  unfolding health_of health_json
  health_answer s = let (h, s') = health_of s in (health_json h, s')
