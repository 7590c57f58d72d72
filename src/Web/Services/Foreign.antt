-- ===== src/Web/Services/Foreign.antt =====
-- The pages on the runtime's adapter: a container of another project.
use compose_monitor.Base.{◌≡◌, refl, ap, Option, Text, bytes}
use compose_monitor.Base.Failure.{prefixed, err, error_is, same_sentinel}
use compose_monitor.Base.Failure.Rules.{or_wrap-err}
use compose_monitor.App.Ports.{ContainerControl, EventBroadcaster}
use compose_monitor.App.Monitor as Monitor
use compose_monitor.App.Monitor.{MonitorService, MonitorState, through}
use compose_monitor.Docker.Types.{Parsed}
use compose_monitor.Docker.Client.{Api, no_container, client_source}
use compose_monitor.Docker.Client.Scope.{IsForeign, inspect-refused}
use compose_monitor.Web.Pages.{PageRequest, Answer, missing, missing_answer}
use compose_monitor.Web.Services.{detail_page, log_answer, confirm_answer, refusal, section}

module _ {W : Type 0} (api : Api W) (project : Text) (parse : Text → Option Parsed)
    (unicode_upper : Text → Text) (control : Option (ContainerControl W))
    (broadcaster : EventBroadcaster W) where
  -- The application on the runtime's adapter.
  abbrev pub application : MonitorService W
  application = record {
    source = client_source api project parse unicode_upper;
    control = control;
    broadcaster = broadcaster;
  }

  abbrev inspected_world : Text → MonitorState W → MonitorState W
  inspected_world id s = record s { world = (api.container_inspect id s.world).1 }

  inspect-foreign :
      (id : Text) (s : MonitorState W)
      → IsForeign api project parse unicode_upper id s.world
      → Monitor.inspect application id s
        ≡ (err (prefixed (bytes "inspecting service") (no_container id)), inspected_world id s)
  unfolding Monitor.inspect
  inspect-foreign id s h =
      or_wrap-err (bytes "inspecting service") (through application (application.source.inspect id))
        s (inspected_world id s) (no_container id)
        (ap (λ q. (q.0, record s { world = q.1 }))
          (inspect-refused api project parse unicode_upper id s.world h))

  refusal-no_container :
      (title id : Text)
      → refusal title (prefixed (bytes "inspecting service") (no_container id))
        ≡ missing_answer title section (bytes "service")
  unfolding refusal error_is same_sentinel
  refusal-no_container title id = refl

  -- A container that the runtime knows and that is not the project's has no page: its details, its
  -- log and the confirmation of its removal are each answered with 404, as for one that does not
  -- exist, after the one inspection and no other call.
  pub foreign_container_answers_404 :
      (title : Text) (r : PageRequest) (s : MonitorState W)
      → IsForeign api project parse unicode_upper r.id s.world
      → let answer : Answer = record {
        status = 404;
        page = missing title (bytes "services") (bytes "service");
      } in
        (detail_page title application r s ≡ (answer, inspected_world r.id s))
        × (log_answer title application r s ≡ (answer, inspected_world r.id s))
        × (confirm_answer title application r s ≡ (answer, inspected_world r.id s))
  unfolding detail_page log_answer confirm_answer missing_answer
  foreign_container_answers_404 title r s h =
      let e = inspect-foreign r.id s h in
      let f = refusal-no_container title r.id in
      let after = ap (λ q. (missing_answer title section (bytes "service"), q.1)) e in
      (rw (e, detail_page, f) after, rw (e, log_answer, f) after, rw (e, confirm_answer, f) after)
