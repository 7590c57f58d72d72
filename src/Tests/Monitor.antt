-- ===== src/Tests/Monitor.antt =====
-- The theorems on `MonitorService`, at a runtime that lists two containers.
use compose_monitor.Base.{◌≡◌, refl, false, List, [], ◌∷◌, ◌++◌, bytes, list_beq}
use compose_monitor.Domain.{Service, is_online, is_online_state, state_eq}
use compose_monitor.App.Monitor.{MonitorState, find_service, stop, refresh}
use compose_monitor.App.Monitor.Calls.{stops, Observed, observed}
use compose_monitor.App.Monitor.Actions.{stop-calls}
use compose_monitor.App.Monitor.Published.{Recorded, recorded, IsCurrent}
use compose_monitor.App.Monitor.Watch.{
  WatchState, change, fired, ticked, begin, turn, turns, IsReady, Watches, begun, turned,
}
use compose_monitor.App.Monitor.Watch.Debounce.{changes, change-pending, burst_refreshes_once}
use compose_monitor.App.Monitor.Watch.Pages.{watch_keeps_pages}
use compose_monitor.Tests.{web, worker, monitor}

abbrev project : List Service
project = web ∷ worker ∷ []

abbrev start_state : MonitorState (Observed (List Service))
start_state = record { snapshot = []; world = (project, []) }

stop-calls_example :
    (stop (observed monitor) (bytes "c1") start_state).1.world.1 ≡ stops (bytes "c1") ∷ []
unfolding find_service is_online is_online_state list_beq
stop-calls_example = stop-calls monitor (bytes "c1") start_state

abbrev nothing_seen : MonitorState (Recorded (List Service))
nothing_seen = record { snapshot = []; world = (project, []) }

abbrev first_turns : WatchState (Recorded (List Service))
first_turns =
    turn (recorded monitor) fired
      (turn (recorded monitor) change (begin (recorded monitor) nothing_seen))

first_turns-Watches : Watches (recorded monitor) nothing_seen (fired ∷ change ∷ []) first_turns
unfolding begin turn
first_turns-Watches = turned fired (turned change begun refl) refl

watch_keeps_pages_example : IsCurrent first_turns.monitor
watch_keeps_pages_example =
    watch_keeps_pages monitor project (fired ∷ change ∷ []) first_turns first_turns-Watches

change-pending_example :
    IsReady
      (recorded monitor)
      fired
      (turns (recorded monitor) (ticked ∷ change ∷ []) (turn (recorded monitor) change first_turns))
change-pending_example =
    change-pending (recorded monitor) nothing_seen (fired ∷ change ∷ []) (ticked ∷ change ∷ [])
      first_turns first_turns-Watches tt

first_turns-idle : first_turns.armed ≡ false
unfolding begin turn
first_turns-idle = refl

burst_refreshes_once_example :
    turns (recorded monitor) (changes 3 ++ fired ∷ []) first_turns
    ≡ record first_turns { monitor = (refresh (recorded monitor) first_turns.monitor).1 }
burst_refreshes_once_example =
    burst_refreshes_once (recorded monitor) nothing_seen (fired ∷ change ∷ []) first_turns 2
      first_turns-Watches first_turns-idle
