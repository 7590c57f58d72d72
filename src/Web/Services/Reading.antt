-- ===== src/Web/Services/Reading.antt =====
-- The pages of services act on nothing.
use compose_monitor.Base.{◌≡◌, refl, ◌∙◌, inl, inr, Text, bytes}
use compose_monitor.Base.Int.{ℤ}
use compose_monitor.Base.Failure.{Result-cases, return}
use compose_monitor.Base.Failure.Rules.{wrapped-rule, or_wrap-rule}
use compose_monitor.Domain.Detail.{ServiceDetail}
use compose_monitor.App.Snapshot.{sort_services}
use compose_monitor.App.Monitor as Monitor
use compose_monitor.App.Monitor.{
  MonitorService, MonitorState, list_services, through, clamp_log_tail,
}
use compose_monitor.App.Monitor.Calls.{Observed, observed}
use compose_monitor.Web.Pages.{PageRequest}
use compose_monitor.Web.Services.{
  list_page, detail_page, read_log, log_answer, confirm_answer, int_param,
}

module _ {W : Type 0} (project : Text) (m : MonitorService W) where
  -- A state after which no more has been asked of the runtime and the same was observed.
  abbrev pub IsRead : MonitorState (Observed W) → MonitorState (Observed W) → Type 0
  IsRead s s' = (s'.world.1 ≡ s.world.1) × (s'.snapshot ≡ s.snapshot)

  list_services-IsRead : (s : MonitorState (Observed W)) → IsRead s (list_services (observed m) s).1
  unfolding list_services
  list_services-IsRead s =
      wrapped-rule (λ out. IsRead s out.1) (bytes "listing services")
        (through (observed m) (observed m).source.list)
        (λ services. return (sort_services services)) s (λ services _. (refl, refl))
        (λ e _. (refl, refl))

  inspect-IsRead :
      (id : Text) (s : MonitorState (Observed W)) → IsRead s (Monitor.inspect (observed m) id s).1
  unfolding Monitor.inspect
  inspect-IsRead id s =
      or_wrap-rule (λ out. IsRead s out.1) (bytes "inspecting service")
        (through (observed m) ((observed m).source.inspect id)) s (λ d _. (refl, refl))
        (λ e _. (refl, refl))

  logs-IsRead :
      (id : Text) (tail : ℤ) (s : MonitorState (Observed W))
      → IsRead s (Monitor.logs (observed m) id tail s).1
  unfolding Monitor.logs
  logs-IsRead id tail s =
      or_wrap-rule (λ out. IsRead s out.1) (bytes "reading logs")
        (through (observed m) ((observed m).source.logs id (clamp_log_tail tail))) s
        (λ d _. (refl, refl)) (λ e _. (refl, refl))

  read_log-IsRead :
      (r : PageRequest) (d : ServiceDetail) (s : MonitorState (Observed W))
      → IsRead s (read_log project (observed m) r d s).1
  unfolding read_log
  read_log-IsRead r d s = logs-IsRead d.service.container_id (clamp_log_tail (int_param r.tail)) s

  -- The list, the details, the log and the confirmation of a removal make no call that acts on a
  -- container, and leave the last observation as it was, whatever the source answers.
  pub pages_act_on_nothing :
      (r : PageRequest) (s : MonitorState (Observed W))
      → IsRead s (list_page project (observed m) s).1
        × IsRead s (detail_page project (observed m) r s).1
        × IsRead s (log_answer project (observed m) r s).1
        × IsRead s (confirm_answer project (observed m) r s).1
  unfolding list_page detail_page log_answer confirm_answer
  pages_act_on_nothing r s = (listed, detailed, logged, confirmed)
    where
      listed : IsRead s (list_page project (observed m) s).1
      listed = elim (Result-cases (list_services (observed m) s).0) [
        | inl (services, e) ↦ rw (e, list_page) (list_services-IsRead s)
        | inr (f, e) ↦ rw (e, list_page) (list_services-IsRead s)
      ]

      detailed : IsRead s (detail_page project (observed m) r s).1
      detailed = elim (Result-cases (Monitor.inspect (observed m) r.id s).0) [
        | inl (d, e) ↦ rw (e, detail_page) (inspect-IsRead r.id s)
        | inr (f, e) ↦ rw (e, detail_page) (inspect-IsRead r.id s)
      ]

      logged : IsRead s (log_answer project (observed m) r s).1
      logged = elim (Result-cases (Monitor.inspect (observed m) r.id s).0) [
        | inl (d, e) ↦
            let before = inspect-IsRead r.id s in
            let after = read_log-IsRead r d (Monitor.inspect (observed m) r.id s).1 in
            rw (e, log_answer) (after.0 ∙ before.0, after.1 ∙ before.1)
        | inr (f, e) ↦ rw (e, log_answer) (inspect-IsRead r.id s)
      ]

      confirmed : IsRead s (confirm_answer project (observed m) r s).1
      confirmed = elim (Result-cases (Monitor.inspect (observed m) r.id s).0) [
        | inl (d, e) ↦ rw (e, confirm_answer) (inspect-IsRead r.id s)
        | inr (f, e) ↦ rw (e, confirm_answer) (inspect-IsRead r.id s)
      ]
