-- ===== src/App/Networks.antt =====
-- `NetworkService` of internal/app/network_service.go. The logger's calls are left out.
pub mod Removal
use compose_monitor.Base.{
  ℕ, ◌≡◌, Bool, true, false, not, List, [], ◌∷◌, ◌++◌, map, Option, none, some, Text, bytes,
  list_eq, nat_eq, length, ltb, if◌then◌else◌,
}
use compose_monitor.Base.Dict.{lookup}
use compose_monitor.Base.Decimal.{itoa}
use compose_monitor.Base.Failure.{
  Failure, sentinel, suffixed, control_disabled, in_use, Act, Result, ok, err, ◌>>=◌, ◌>>◌, return,
  fail, guard, or_wrap,
}
use compose_monitor.Domain.{Network, ResourceUsage, network_in_use}
use compose_monitor.App.Ports.{ContainerSource, NetworkSource, ResourceControl}

pub record NetworkService (W : Type 0) : Type 0 where
  pub source : NetworkSource W
  pub containers : ContainerSource W
  pub control : Option (ResourceControl W)

-- `counts[name]`, which is 0 for a name that is not counted.
unfoldable pub count_of : Text → List (Text × ℕ) → ℕ
unfolding lookup
count_of name counts = elim (lookup name counts) [ none ↦ 0 | some n ↦ n ]

-- The usage is filled in where it could be counted, and left as it was otherwise.
unfoldable pub with_network_usage : Result ResourceUsage → Network → Network
unfolding count_of
with_network_usage (ok usage) n = record n { used_by = count_of n.name usage.networks }
with_network_usage (err e) n = n

-- A network's own members are the better number where there are more of them.
unfoldable pub with_members : Network → Network
with_members n =
    if ltb n.used_by (length n.members) then record n { used_by = length n.members } else n

module _ {W : Type 0} (s : NetworkService W) where
  -- `CanControl`
  unfoldable pub can_control : Bool
  can_control = elim s.control [ none ↦ false | some _ ↦ true ]

  -- A call of `Usage`, whose error is handed on as a value.
  abbrev pub count_usage : Act W (Result ResourceUsage)
  count_usage w = let (r, w') = s.containers.usage w in (ok r, w')

  -- `List`
  unfoldable pub list_networks : Act W (List Network)
  unfolding with_network_usage
  list_networks = do
    networks ← or_wrap (bytes "listing networks") s.source.list
    usage ← count_usage
    return (map (with_network_usage usage) networks)

  -- `Inspect`, its part after the source's answer first.
  unfoldable pub complete : Network → Act W Network
  unfolding with_network_usage with_members
  complete found = do usage ← count_usage; return (with_members (with_network_usage usage found))

  unfoldable pub inspect_network : Text → Act W Network
  unfolding complete
  inspect_network id = do
    found ← or_wrap (bytes "inspecting network") (s.source.inspect id)
    complete found

  -- `Remove`, its part after the control's check first.
  unfoldable pub remove_unused : ResourceControl W → Text → Network → Act W (Unit {0})
  unfolding network_in_use
  remove_unused control id found = do
    guard (not (network_in_use found)) (
        suffixed (sentinel in_use)
          (found.name ++ bytes " has " ++ itoa found.used_by ++ bytes " container(s) on it"))
    or_wrap (bytes "removing network " ++ found.name) (control.remove id)

  unfoldable pub remove_network : Text → Act W (Unit {0})
  unfolding inspect_network remove_unused
  remove_network id = elim s.control [
    | none ↦ fail (sentinel control_disabled)
    | some control ↦ do found ← inspect_network id; remove_unused control id found
  ]
