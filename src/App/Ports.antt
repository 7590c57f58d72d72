-- ===== src/App/Ports.antt =====
-- The interfaces of internal/ports. An implementation works on a world of its own, which each call
-- may change and which stands for the container runtime and whatever else acts on it.
use compose_monitor.Base.{List, Text}
use compose_monitor.Base.Int.{ℤ}
use compose_monitor.Base.Failure.{Act}
use compose_monitor.Domain.{Service, Event, Network, Volume, ResourceUsage}
use compose_monitor.Domain.Detail.{ServiceDetail, Logs}

-- `ports.ContainerSource`; the signals of `Watch` are the turns of the watch loop.
pub record ContainerSource (W : Type 0) : Type 0 where
  pub list : Act W (List Service)
  pub inspect : Text → Act W ServiceDetail
  pub logs : Text → ℤ → Act W Logs
  pub usage : Act W ResourceUsage

-- `ports.ContainerControl`
pub record ContainerControl (W : Type 0) : Type 0 where
  pub start : Text → Act W (Unit {0})
  pub stop : Text → Act W (Unit {0})
  pub remove : Text → Act W (Unit {0})

-- `ports.EventBroadcaster`, as the publisher uses it.
pub record EventBroadcaster (W : Type 0) : Type 0 where
  pub publish : Event → Act W (Unit {0})

-- `ports.NetworkSource`
pub record NetworkSource (W : Type 0) : Type 0 where
  pub list : Act W (List Network)
  pub inspect : Text → Act W Network

-- `ports.NetworkControl` and `ports.VolumeControl`
pub record ResourceControl (W : Type 0) : Type 0 where
  pub remove : Text → Act W (Unit {0})

-- `ports.VolumeSource`
pub record VolumeSource (W : Type 0) : Type 0 where
  pub list : Act W (List Volume)
  pub inspect : Text → Act W Volume
