-- ===== src/Tests/Resources.antt =====
-- The theorems on networks and volumes, at a runtime that has one of each.
use compose_monitor.Base.{
  Option, Text, none, ◌==◌, nat_eq, list_eq, ℕ, ◌≡◌, refl, false, [], ◌∷◌, some, bytes, arith, inr,
  list_beq,
}
use compose_monitor.Base.Int.{pos, negsuc}
use compose_monitor.Base.Dict.{lookup}
use compose_monitor.Base.Failure.{ok, err, Result}
use compose_monitor.Domain.{Network, Volume, ResourceUsage, volume_in_use}
use compose_monitor.App.Ports.{ContainerSource, ResourceControl}
use compose_monitor.App.Networks.{NetworkService, count_of, remove_network}
use compose_monitor.App.Networks.Removal as NetworkRemoval
use compose_monitor.App.Networks.Removal.{remove_network-calls, attached_network_kept}
use compose_monitor.App.Volumes.{VolumeService, with_volume_usage, remove_volume}
use compose_monitor.App.Volumes.Removal as VolumeRemoval
use compose_monitor.App.Volumes.Removal.{
  remove_volume-calls, counted_volume_kept, uncounted_removal_asked,
}
use compose_monitor.Docker.Types.{Parsed}
use compose_monitor.Docker.Mapping.{label_project}
use compose_monitor.Docker.Routing.{label}
use compose_monitor.Docker.Resources.{ResourceApi, NetworkInspect, VolumeInspect}
use compose_monitor.Docker.Resources.Scope.{volumes, foreign_volume_kept}
use compose_monitor.Tests.{refused}

abbrev backend : Network
backend = record {
  id = bytes "n1";
  name = bytes "backend";
  driver = bytes "bridge";
  scope = bytes "local";
  created = pos 0;
  internal = false;
  attachable = false;
  ipv6 = false;
  subnets = [];
  labels = [];
  options = [];
  members = [];
  used_by = 0;
}

abbrev pgdata : Volume
pgdata = record {
  name = bytes "pgdata";
  driver = bytes "local";
  mountpoint = [];
  scope = bytes "local";
  created = pos 0;
  labels = [];
  options = [];
  size = negsuc 0;
  used_by = 0;
}

abbrev usage : ResourceUsage
usage = record { networks = (bytes "backend", 1) ∷ []; volumes = (bytes "pgdata", 2) ∷ [] }

-- The world counts the removals that were made.
abbrev counting : Result ResourceUsage → ContainerSource ℕ
counting answer = record {
  list = λ w. (err refused, w);
  inspect = λ id w. (err refused, w);
  logs = λ id tail w. (err refused, w);
  usage = λ w. (answer, w);
}

abbrev willing : ResourceControl ℕ
willing = record { remove = λ id w. (ok tt, 1) }

abbrev network_service : NetworkService ℕ
network_service = record {
  source = record { list = λ w. (ok (backend ∷ []), w); inspect = λ id w. (ok backend, w) };
  containers = counting (ok usage);
  control = some willing;
}

abbrev volume_service : Result ResourceUsage → VolumeService ℕ
volume_service answer = record {
  source = record { list = λ w. (ok (pgdata ∷ []), w); inspect = λ id w. (ok pgdata, w) };
  containers = counting answer;
  control = some willing;
}

attached_network_kept_example :
    (remove_network (NetworkRemoval.observed network_service) (bytes "n1") (0, [])).1.1 ≡ []
unfolding count_of lookup list_beq
attached_network_kept_example =
    attached_network_kept network_service (bytes "n1") (0, []) backend refl (inr (omega arith))

remove_volume-calls_example :
    (remove_volume
      (VolumeRemoval.observed (volume_service (ok usage)))
      (bytes "pgdata")
      (0, [])).1.1
    ≡ []
unfolding with_volume_usage count_of lookup list_beq volume_in_use
remove_volume-calls_example =
    remove_volume-calls (volume_service (ok usage)) (bytes "pgdata") (0, [])

uncounted_removal_asked_example :
    (remove_volume
      (VolumeRemoval.observed (volume_service (err refused)))
      (bytes "pgdata")
      (0, [])).1.1
    ≡ bytes "pgdata" ∷ []
uncounted_removal_asked_example =
    uncounted_removal_asked (volume_service (err refused)) (bytes "pgdata") (0, []) pgdata willing
      refused refl refl refl refl

abbrev no_time : Text → Option Parsed
no_time stamp = none

abbrev other_network : NetworkInspect
other_network = record {
  id = bytes "n9";
  name = bytes "other";
  driver = bytes "bridge";
  scope = bytes "local";
  created = pos 0;
  internal = false;
  attachable = false;
  enable_ipv6 = false;
  labels = [];
  options = [];
  subnets = [];
  containers = [];
}

abbrev other_volume : VolumeInspect
other_volume = record {
  name = bytes "pgdata";
  driver = bytes "local";
  mountpoint = [];
  scope = bytes "local";
  created_at = [];
  labels = [];
  options = [];
  size = none;
}

-- A runtime that knows a network and a volume without the label of a project.
abbrev other_api : ResourceApi ℕ
other_api = record {
  network_list = λ filter w. (ok [], w);
  network_inspect = λ id w. (ok other_network, w);
  network_remove = λ id w. (ok tt, w);
  volume_list = λ filter w. (ok [], w);
  volume_inspect = λ name w. (ok other_volume, w);
  volume_remove = λ name w. (ok tt, w);
  is_not_found = λ e. false;
  is_print = λ r. false;
}

no_label : (label label_project [] == bytes "mine") ≡ false
unfolding label lookup list_beq
no_label = refl

foreign_volume_kept_example :
    (remove_volume
      (VolumeRemoval.observed
        (volumes other_api (bytes "mine") no_time (counting (ok usage)) (some willing)))
      (bytes "pgdata")
      (0, [])).1.1
    ≡ []
foreign_volume_kept_example =
    foreign_volume_kept other_api (bytes "mine") no_time (counting (ok usage)) (some willing)
      (bytes "pgdata") (0, []) other_volume refl no_label
