-- ===== src/App/Monitor/Watch.antt =====
-- `Run` of internal/app/monitor_service.go: the loop that watches the project. Each turn of its
-- `select` is a step; which of the ready cases is taken is open. The loop ends with its context.
pub mod Debounce
pub mod Pages
use compose_monitor.Base.{
  ℕ, suc, ◌+◌, ◌≤◌, ◌≡◌, refl, Bool, true, false, List, [], ◌∷◌, arith, if◌then◌else◌, inl, inr,
  Bool-cases,
}
use compose_monitor.App.Monitor.{MonitorService, MonitorState, refresh}

-- The loop's variables. `timer` is whether the debounce timer runs, and `open` whether `changes` is
-- still a channel.
pub record WatchState (W : Type 0) : Type 0 where
  pub monitor : MonitorState W
  pub armed : Bool
  pub timer : Bool
  pub open_changes : Bool

-- The cases of the `select`.
pub data Turn : Type 0 where
  change closed fired ticked : Turn

module _ {W : Type 0} (m : MonitorService W) where
  -- A refresh whose error is logged.
  abbrev pub refreshed : WatchState W → WatchState W
  refreshed w = record w { monitor = (refresh m w.monitor).1 }

  -- What stands before the loop.
  unfoldable pub begin : MonitorState W → WatchState W
  begin s = record { monitor = (refresh m s).1; armed = false; timer = false; open_changes = true }

  -- The body of each case.
  unfoldable pub turn : Turn → WatchState W → WatchState W
  turn change w = if w.armed then w else record w { armed = true; timer = true }
  turn closed w = record w { open_changes = false }
  turn fired w = refreshed (record w { armed = false; timer = false })
  turn ticked w = refreshed w

  -- When a case can be taken.
  abbrev pub IsReady : Turn → WatchState W → Type 0
  IsReady change w = w.open_changes ≡ true
  IsReady closed w = w.open_changes ≡ true
  IsReady fired w = w.timer ≡ true
  IsReady ticked w = Unit

  -- The states of the loop, with the turns taken so far, newest first.
  pub data Watches (s : MonitorState W) : List Turn → WatchState W → Type 0 where
    begun : Watches s [] (begin s)
    turned :
        {ts : List Turn} {w : WatchState W} (t : Turn)
        → Watches s ts w
        → IsReady t w
        → Watches s (t ∷ ts) (turn t w)

  unfoldable pub turns : List Turn → WatchState W → WatchState W
  unfolding turn
  turns [] w = w
  turns (t ∷ ts) w = turns ts (turn t w)
