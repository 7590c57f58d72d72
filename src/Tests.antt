-- ===== src/Tests.antt =====
-- Concrete inputs for the theorems, and the theorems at them.
pub mod Snapshot
pub mod Monitor
pub mod Resources
pub mod Hub
pub mod Docker
pub mod Logs
pub mod Web
pub mod Stream
pub mod Keys
pub mod Pages
pub mod Row
use compose_monitor.Base.{ℕ, List, [], ◌∷◌, Option, none, some, Text, bytes}
use compose_monitor.Base.Int.{ℤ, pos}
use compose_monitor.Base.Failure.{Failure, foreign, ok, err}
use compose_monitor.Domain.{Service, State, running, exited, no_health}
use compose_monitor.App.Ports.{ContainerSource, ContainerControl, EventBroadcaster}
use compose_monitor.App.Monitor.{MonitorService}

abbrev pub make_service : Text → Text → ℕ → State → Text → Service
make_service id name number state status = record {
  container_id = id;
  name = name;
  number = number;
  container_name = name;
  image = bytes "nginx:1";
  title = [];
  description = [];
  url = [];
  state = state;
  status = status;
  status_kind = status;
  elapsed = [];
  health = no_health;
  ports = [];
  created = pos 0;
}

abbrev pub web : Service
web = make_service (bytes "c1") (bytes "web") 1 running (bytes "Up")

abbrev pub stopped_web : Service
stopped_web = make_service (bytes "c1") (bytes "web") 1 exited (bytes "Exited (0)")

abbrev pub database : Service
database = make_service (bytes "c2") (bytes "db") 1 running (bytes "Up")

abbrev pub worker : Service
worker = make_service (bytes "c3") (bytes "job") 2 exited (bytes "Exited (1)")

abbrev pub refused : Failure
refused = foreign (bytes "connection refused")

-- A runtime whose world is the list of its containers, of which only the listing answers.
abbrev pub listing : ContainerSource (List Service)
listing = record {
  list = λ w. (ok w, w);
  inspect = λ id w. (err refused, w);
  logs = λ id tail w. (err refused, w);
  usage = λ w. (err refused, w);
}

abbrev pub obedient : ContainerControl (List Service)
obedient = record {
  start = λ id w. (ok tt, w);
  stop = λ id w. (ok tt, w);
  remove = λ id w. (ok tt, []);
}

abbrev pub monitor : MonitorService (List Service)
monitor = record {
  source = listing;
  control = some obedient;
  broadcaster = record { publish = λ e w. (ok tt, w) };
}
