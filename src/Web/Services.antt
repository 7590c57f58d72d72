-- ===== src/Web/Services.antt =====
-- The pages of services: `list`, `detail`, `log` and `confirmRemove` of
-- internal/adapters/web/services/handlers/handler.go.
pub mod Reading
pub mod Tails
pub mod Foreign
use compose_monitor.Base.{
  ℕ, ◌≡◌, Bool, false, List, [], ◌++◌, Option, none, some, Text, bytes, if◌then◌else◌,
}
use compose_monitor.Base.Int.{ℤ, pos}
use compose_monitor.Base.Failure.{Failure, Result, ok, err, error_is, error_text, not_found}
use compose_monitor.Domain.{Service, is_online}
use compose_monitor.Domain.Detail.{ServiceDetail, Logs}
use compose_monitor.App.Snapshot.{summarize}
use compose_monitor.App.Monitor as Monitor
use compose_monitor.App.Monitor.{
  MonitorService, MonitorState, list_services, can_control, clamp_log_tail,
}
use compose_monitor.Docker.Mapping.{atoi}
use compose_monitor.Web.Pages.{
  Question, Page, Answer, PageRequest, shown, unavailable_answer, missing_answer, is_fragment,
  service_list, service_detail, log_body, log_page, confirm, confirm_page,
}

-- `intParam`
unfoldable pub int_param : Text → ℤ
unfolding atoi
int_param value = elim (atoi value) [ none ↦ pos 0 | some n ↦ n ]

abbrev pub section : Text
section = bytes "services"

module _ (project : Text) where
  -- The switch on the error of `Inspect`.
  unfoldable pub refusal : Failure → Answer
  unfolding error_is missing_answer unavailable_answer
  refusal e =
      if error_is e not_found
      then missing_answer project section (bytes "service")
      else unavailable_answer project section e

  -- `confirmRemove`, after the inspection
  unfoldable pub removal_question : ServiceDetail → Question
  unfolding is_online
  removal_question d = record {
    title = bytes "Remove container";
    name = d.service.container_name;
    consequence =
        if is_online d.service
        then bytes "This container is still running, so it cannot be removed. Stop it first."
        else bytes
            "The container is deleted. Its volumes are left alone, and Compose will create a new container the next time this service is brought up.";
    action = bytes "/services/" ++ d.service.container_id ++ bytes "/remove";
    back = bytes "/services/" ++ d.service.container_id;
  }

  unfoldable pub ask_removal : PageRequest → ServiceDetail → Answer
  unfolding is_fragment removal_question
  ask_removal r d = shown (
      if is_fragment r
      then confirm (removal_question d)
      else confirm_page project section (removal_question d))

  -- `log`, after the log was read
  abbrev pub logs_of : ℤ → Result Logs → Logs
  logs_of tail (ok logs) = logs
  logs_of tail (err e) = record { lines = []; tail = tail; truncated = false }

  abbrev pub failure_of : Result Logs → Text
  failure_of (ok logs) = []
  failure_of (err e) = error_text e

  unfoldable pub show_log : PageRequest → ServiceDetail → ℤ → Result Logs → Answer
  unfolding is_fragment error_text
  show_log r d tail result = shown (
      if is_fragment r
      then log_body d.service.container_id (logs_of tail result) (failure_of result)
      else log_page project d (logs_of tail result) (failure_of result))

  module _ {W : Type 0} (m : MonitorService W) where
    -- `list`
    unfoldable pub list_page : MonitorState W → Answer × MonitorState W
    unfolding list_services summarize can_control unavailable_answer
    list_page s =
        let (r, s') = list_services m s in
        elim r [
          | ok services ↦
              (shown (service_list project services (summarize services) (can_control m)), s')
          | err e ↦ (unavailable_answer project section e, s')
        ]

    -- `detail`
    unfoldable pub detail_page : PageRequest → MonitorState W → Answer × MonitorState W
    unfolding refusal can_control
    detail_page r s =
        let (result, s') = Monitor.inspect m r.id s in
        elim result [
          | ok d ↦ (shown (service_detail project d (can_control m)), s')
          | err e ↦ (refusal e, s')
        ]

    -- `log`, with what stands behind the inspection first
    unfoldable pub read_log : PageRequest → ServiceDetail → MonitorState W → Answer × MonitorState W
    unfolding clamp_log_tail int_param show_log
    read_log r d s =
        let tail = clamp_log_tail (int_param r.tail) in
        let (result, s') = Monitor.logs m d.service.container_id tail s in
        (show_log r d tail result, s')

    unfoldable pub log_answer : PageRequest → MonitorState W → Answer × MonitorState W
    unfolding refusal read_log
    log_answer r s =
        let (result, s') = Monitor.inspect m r.id s in
        elim result [ ok d ↦ read_log r d s' | err e ↦ (refusal e, s') ]

    -- `confirmRemove`
    unfoldable pub confirm_answer : PageRequest → MonitorState W → Answer × MonitorState W
    unfolding refusal ask_removal
    confirm_answer r s =
        let (result, s') = Monitor.inspect m r.id s in
        elim result [ ok d ↦ (ask_removal r d, s') | err e ↦ (refusal e, s') ]
