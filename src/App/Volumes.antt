-- ===== src/App/Volumes.antt =====
-- `VolumeService` of internal/app/volume_service.go. The logger's calls are left out.
pub mod Removal
use compose_monitor.Base.{
  ℕ, ◌≡◌, Bool, true, false, not, List, [], ◌∷◌, ◌++◌, map, Option, none, some, Text, bytes,
  list_eq, nat_eq, if◌then◌else◌,
}
use compose_monitor.Base.Decimal.{itoa}
use compose_monitor.Base.Failure.{
  Failure, sentinel, foreign, suffixed, control_disabled, in_use, Act, Result, ok, err, ◌>>=◌, ◌>>◌,
  return, fail, guard, or_wrap,
}
use compose_monitor.Domain.{Volume, ResourceUsage, volume_in_use}
use compose_monitor.App.Ports.{ContainerSource, VolumeSource, ResourceControl}
use compose_monitor.App.Networks.{count_of}

pub record VolumeService (W : Type 0) : Type 0 where
  pub source : VolumeSource W
  pub containers : ContainerSource W
  pub control : Option (ResourceControl W)

-- One round of `withUsage`: the usage is filled in where it could be counted.
unfoldable pub with_volume_usage : Result ResourceUsage → Volume → Volume
unfolding count_of
with_volume_usage (ok usage) v = record v { used_by = count_of v.name usage.volumes }
with_volume_usage (err e) v = v

module _ {W : Type 0} (s : VolumeService W) where
  -- `CanControl`
  unfoldable pub can_control : Bool
  can_control = elim s.control [ none ↦ false | some _ ↦ true ]

  abbrev pub count_usage : Act W (Result ResourceUsage)
  count_usage w = let (r, w') = s.containers.usage w in (ok r, w')

  -- `withUsage`
  unfoldable pub with_usage : List Volume → Act W (List Volume)
  unfolding with_volume_usage
  with_usage volumes = do usage ← count_usage; return (map (with_volume_usage usage) volumes)

  -- `List`
  unfoldable pub list_volumes : Act W (List Volume)
  unfolding with_usage
  list_volumes = do volumes ← or_wrap (bytes "listing volumes") s.source.list; with_usage volumes

  -- `Inspect`, its part after the source's answer first: the only volume of a list of one.
  unfoldable pub complete : Volume → Act W Volume
  unfolding with_usage
  complete found = do
    volumes ← with_usage (found ∷ [])
    elim volumes [ [] ↦ fail (foreign (bytes "index out of range")) | v ∷ _ ↦ return v ]

  unfoldable pub inspect_volume : Text → Act W Volume
  unfolding complete
  inspect_volume name = do
    found ← or_wrap (bytes "inspecting volume") (s.source.inspect name)
    complete found

  -- `Remove`, its part after the control's check first.
  unfoldable pub remove_unused : ResourceControl W → Text → Volume → Act W (Unit {0})
  unfolding volume_in_use
  remove_unused control name found = do
    guard (not (volume_in_use found)) (
        suffixed (sentinel in_use)
          (found.name ++ bytes " is mounted by " ++ itoa found.used_by ++ bytes " container(s)"))
    or_wrap (bytes "removing volume " ++ found.name) (control.remove name)

  unfoldable pub remove_volume : Text → Act W (Unit {0})
  unfolding inspect_volume remove_unused
  remove_volume name = elim s.control [
    | none ↦ fail (sentinel control_disabled)
    | some control ↦ do found ← inspect_volume name; remove_unused control name found
  ]
