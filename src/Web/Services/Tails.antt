-- ===== src/Web/Services/Tails.antt =====
-- How much of a log is read.
use compose_monitor.Base.{ℕ, ◌≤◌, ◌≡◌, refl, Text, bytes, arith, ltb, Bool-cases, inl, inr}
use compose_monitor.Base.Int.{ℤ, pos, negsuc}
use compose_monitor.Base.Failure.{or_wrap}
use compose_monitor.Domain.Detail.{ServiceDetail}
use compose_monitor.App.Monitor as Monitor
use compose_monitor.App.Monitor.{MonitorService, MonitorState, through, clamp_log_tail}
use compose_monitor.Web.Pages.{PageRequest}
use compose_monitor.Web.Services.{read_log, show_log, int_param}

clamp_bounds :
    (tail : ℤ)
    → (n : ℕ) × (clamp_log_tail tail ≡ pos n)
      × (1 ≤ n)
      × (n ≤ 5000)
      × (clamp_log_tail (pos n) ≡ pos n)
unfolding clamp_log_tail
clamp_bounds (negsuc n) = (200, ground arith, omega arith, omega arith, refl)
clamp_bounds (pos n) = elim (Bool-cases (ltb 0 n)) [
  | inr none_asked ↦ (200, ground arith, omega arith, omega arith, refl)
  | inl some_asked ↦ elim (Bool-cases (ltb 5000 n)) [
    | inl many ↦ (5000, ground arith, omega arith, omega arith, refl)
    | inr few ↦ (n, ground arith, ground arith, ground arith, ground arith)
  ]
]

-- Whatever the query asks for, a log is read once, of the container that was inspected, with 1 to
-- 5000 lines, and it is shown as a log of that size.
pub read_log-bounds :
    {W : Type 0} (project : Text) (m : MonitorService W) (r : PageRequest)
    → (n : ℕ) × (1 ≤ n)
      × (n ≤ 5000)
      × ((d : ServiceDetail) (s : MonitorState W)
          → let answer =
              or_wrap
                (bytes "reading logs")
                (through m (m.source.logs d.service.container_id (pos n)))
                s in
            read_log project m r d s ≡ (show_log project r d (pos n) answer.0, answer.1))
unfolding read_log Monitor.logs
read_log-bounds project m r =
    let (n, e, low, high, again) = clamp_bounds (int_param r.tail) in
    (n, low, high, λ d s. rw (e, again) refl)
