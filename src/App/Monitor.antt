-- ===== src/App/Monitor.antt =====
-- `MonitorService` of internal/app/monitor_service.go: its state, its methods and the actions on
-- containers. The logger's calls are left out.
pub mod Calls
pub mod Actions
pub mod Published
pub mod Watch
use compose_monitor.Base.{
  ℕ, ◌≡◌, Bool, true, false, not, List, [], ◌∷◌, Option, none, some, Text, bytes, ◌==◌, list_eq,
  nat_eq, if◌then◌else◌, ◌++◌,
}
use compose_monitor.Base.Int.{ℤ, pos, negsuc, ltb_ℤ}
use compose_monitor.Base.Failure.{
  Failure, Sentinel, sentinel, foreign, suffixed, control_disabled, not_in_project, not_running,
  already_running, still_running, Act, ok, err, ◌>>=◌, ◌>>◌, return, fail, guard, or_wrap,
  ignore_error,
}
use compose_monitor.Domain.{Service, Event, is_online, state_text}
use compose_monitor.Domain.Detail.{ServiceDetail, Logs}
use compose_monitor.App.Ports.{ContainerSource, ContainerControl, EventBroadcaster}
use compose_monitor.App.Snapshot.{Snapshot, index_services, diff_snapshots, sort_services}

-- What the service is built from; `control` is nil where acting is not allowed.
pub record MonitorService (W : Type 0) : Type 0 where
  pub source : ContainerSource W
  pub control : Option (ContainerControl W)
  pub broadcaster : EventBroadcaster W

-- What it keeps, beside the world that its ports work on.
pub record MonitorState (W : Type 0) : Type 0 where
  pub snapshot : Snapshot
  pub world : W

-- The first service with a container ID: the loop of `controllable`.
unfoldable pub find_service : Text → List Service → Option Service
find_service id [] = none
find_service id (s ∷ services) = if s.container_id == id then some s else find_service id services

-- `ClampLogTail`, with `DefaultLogTail` and `MaxLogTail`.
abbrev pub default_log_tail : ℕ
default_log_tail = 200

abbrev pub max_log_tail : ℕ
max_log_tail = 5000

unfoldable pub clamp_log_tail : ℤ → ℤ
clamp_log_tail tail =
    if not (ltb_ℤ (pos 0) tail)
    then pos default_log_tail
    else if ltb_ℤ (pos max_log_tail) tail
    then pos max_log_tail
    else tail

module _ {W : Type 0} (m : MonitorService W) where
  -- A call of a port.
  abbrev pub through : {A : Type 0} → Act W A → Act (MonitorState W) A
  through call s = let (r, w) = call s.world in (r, record s { world = w })

  -- `List`
  unfoldable pub list_services : Act (MonitorState W) (List Service)
  unfolding sort_services
  list_services = do
    services ← or_wrap (bytes "listing services") (through m.source.list)
    return (sort_services services)

  -- `CanControl`
  unfoldable pub can_control : Bool
  can_control = elim m.control [ none ↦ false | some _ ↦ true ]

  -- The second half of `refresh`: every event is published, and an error is logged only.
  unfoldable pub publish_all : List Event → Act W (Unit {0})
  publish_all [] = return tt
  publish_all (e ∷ es) = do ignore_error (m.broadcaster.publish e); publish_all es

  -- The section under the lock: the new observation takes the place of the last.
  unfoldable pub exchange : Snapshot → Act (MonitorState W) (List Event)
  exchange next s = (ok (diff_snapshots s.snapshot next), record s { snapshot = next })

  -- `refresh`, its part after the listing first.
  unfoldable pub observe : List Service → Act (MonitorState W) (Unit {0})
  unfolding publish_all exchange
  observe services = do events ← exchange (index_services services); through (publish_all events)

  unfoldable pub refresh : Act (MonitorState W) (Unit {0})
  unfolding observe
  refresh = do
    services ← or_wrap (bytes "listing services") (through m.source.list)
    observe services

  -- `announce`
  unfoldable pub announce : Act (MonitorState W) (Unit {0})
  unfolding refresh
  announce = ignore_error refresh

  -- `controllable`, its part after the listing first.
  unfoldable pub pick_target : Text → List Service → Act (MonitorState W) Service
  unfolding find_service
  pick_target id services = elim (find_service id services) [
    | none ↦ fail (suffixed (sentinel not_in_project) id)
    | some target ↦ return target
  ]

  unfoldable pub controllable : Text → Act (MonitorState W) Service
  unfolding pick_target
  controllable id = elim m.control [
    | none ↦ fail (sentinel control_disabled)
    | some _ ↦ do
      services ← or_wrap (bytes "listing services before acting") (through m.source.list)
      pick_target id services
  ]

  -- A method of `control`. `controllable` has failed where it is nil, so the panic is not reached.
  abbrev pub with_control :
      (ContainerControl W → Act W (Unit {0})) → Act (MonitorState W) (Unit {0})
  with_control call = elim m.control [
    | none ↦ fail (foreign (bytes "nil pointer dereference"))
    | some control ↦ through (call control)
  ]

  -- `Stop`, its part after the lookup first.
  unfoldable pub stop_target : Text → Service → Act (MonitorState W) (Unit {0})
  unfolding is_online announce
  stop_target id target = do
    guard (is_online target)
        (suffixed (sentinel not_running) (target.name ++ bytes " is " ++ state_text target.state))
    or_wrap (bytes "stopping " ++ target.name) (with_control (λ c. c.stop id))
    announce

  unfoldable pub stop : Text → Act (MonitorState W) (Unit {0})
  unfolding controllable stop_target
  stop id = do target ← controllable id; stop_target id target

  -- `Start`, its part after the lookup first.
  unfoldable pub start_target : Text → Service → Act (MonitorState W) (Unit {0})
  unfolding is_online announce
  start_target id target = do
    guard (not (is_online target)) (suffixed (sentinel already_running) target.name)
    or_wrap (bytes "starting " ++ target.name) (with_control (λ c. c.start id))
    announce

  unfoldable pub start : Text → Act (MonitorState W) (Unit {0})
  unfolding controllable start_target
  start id = do target ← controllable id; start_target id target

  -- `Remove`, its part after the lookup first.
  unfoldable pub remove_target : Text → Service → Act (MonitorState W) (Unit {0})
  unfolding is_online announce
  remove_target id target = do
    guard (not (is_online target)) (suffixed (sentinel still_running) target.name)
    or_wrap (bytes "removing " ++ target.name) (with_control (λ c. c.remove id))
    announce

  unfoldable pub remove : Text → Act (MonitorState W) (Unit {0})
  unfolding controllable remove_target
  remove id = do target ← controllable id; remove_target id target

  -- `Inspect`
  unfoldable pub inspect : Text → Act (MonitorState W) ServiceDetail
  inspect id = or_wrap (bytes "inspecting service") (through (m.source.inspect id))

  -- `Logs`
  unfoldable pub logs : Text → ℤ → Act (MonitorState W) Logs
  unfolding clamp_log_tail
  logs id tail = or_wrap (bytes "reading logs") (through (m.source.logs id (clamp_log_tail tail)))
