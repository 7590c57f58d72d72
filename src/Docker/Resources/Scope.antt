-- ===== src/Docker/Resources/Scope.antt =====
-- The project's label once more: the services of networks and volumes on the adapters of the runtime.
use compose_monitor.Base.{
  ◌≡◌, refl, ◌∙◌, ap, Bool, false, List, Option, none, Text, ◌==◌, nat_eq, list_eq, Option-cases,
  inl, inr, bytes, ◌++◌,
}
use compose_monitor.Base.Failure.{Failure, ok, err, suffixed, sentinel, not_found}
use compose_monitor.App.Ports.{ContainerSource, ResourceControl}
use compose_monitor.App.Networks as NetworkApp
use compose_monitor.App.Volumes as VolumeApp
use compose_monitor.App.Networks.Removal as NetworkRemoval
use compose_monitor.App.Volumes.Removal as VolumeRemoval
use compose_monitor.Docker.Types.{Parsed}
use compose_monitor.Docker.Mapping.{label_project}
use compose_monitor.Docker.Routing.{label}
use compose_monitor.Docker.Resources.{
  ResourceApi, NetworkInspect, VolumeInspect, only_member, inspect_network, inspect_volume,
  network_source, volume_source,
}

only_member-foreign :
    {A : Type 0} (is_not_found : Failure → Bool) (project : Text) (labels : A → List (Text × Text))
    (kind id : Text) (inspected : A)
    → (label label_project (labels inspected) == project) ≡ false
    → only_member is_not_found project labels kind id (ok inspected)
      ≡ err (suffixed (sentinel not_found) (kind ++ bytes " " ++ id))
unfolding only_member
only_member-foreign is_not_found project labels kind id inspected other = rw other refl

module _ {W : Type 0} (api : ResourceApi W) (project : Text) (parse : Text → Option Parsed)
    (containers : ContainerSource W) (control : Option (ResourceControl W)) where
  -- The service of networks on the adapter.
  abbrev pub networks : NetworkApp.NetworkService W
  networks = record {
    source = network_source api project parse;
    containers = containers;
    control = control;
  }

  abbrev pub volumes : VolumeApp.VolumeService W
  volumes = record {
    source = volume_source api project parse;
    containers = containers;
    control = control;
  }

  pub inspect_network-foreign :
      (id : Text) (w : W) (n : NetworkInspect)
      → (api.network_inspect id w).0 ≡ ok n
      → (label label_project n.labels == project) ≡ false
      → (inspect_network api project parse id w).0
        ≡ err (suffixed (sentinel not_found) (bytes "network" ++ bytes " " ++ id))
  unfolding inspect_network
  inspect_network-foreign id w n known other =
      rw
        (
          known,
          inspect_network,
          only_member-foreign api.is_not_found project (λ n. n.labels) (bytes "network") id n other,
        )
        refl

  -- A network whose project label is not that of the watched project is not removed, though the
  -- runtime knows its ID, whatever the containers and the control are.
  pub foreign_network_kept :
      (id : Text) (w : NetworkRemoval.Observed W) (n : NetworkInspect)
      → (api.network_inspect id w.0).0 ≡ ok n
      → (label label_project n.labels == project) ≡ false
      → (NetworkApp.remove_network (NetworkRemoval.observed networks) id w).1.1 ≡ w.1
  foreign_network_kept id w n known other =
      NetworkRemoval.remove_network-calls networks id w
      ∙ ap (λ found. NetworkRemoval.asked id found w.1) nothing_judged
    where
      nothing_judged : NetworkRemoval.judged networks id w.0 ≡ none
      nothing_judged = elim (Option-cases control) [
        | inl off ↦ rw off refl
        | inr (c, on) ↦ rw (on, inspect_network-foreign id w.0 n known other) refl
      ]

  pub inspect_volume-foreign :
      (name : Text) (w : W) (v : VolumeInspect)
      → (api.volume_inspect name w).0 ≡ ok v
      → (label label_project v.labels == project) ≡ false
      → (inspect_volume api project parse name w).0
        ≡ err (suffixed (sentinel not_found) (bytes "volume" ++ bytes " " ++ name))
  unfolding inspect_volume
  inspect_volume-foreign name w v known other =
      rw
        (
          known,
          inspect_volume,
          only_member-foreign api.is_not_found project (λ v. v.labels) (bytes "volume") name v
              other,
        )
        refl

  -- A volume whose project label is not that of the watched project is not removed, though the
  -- runtime knows its name, whatever the containers and the control are.
  pub foreign_volume_kept :
      (name : Text) (w : VolumeRemoval.Observed W) (v : VolumeInspect)
      → (api.volume_inspect name w.0).0 ≡ ok v
      → (label label_project v.labels == project) ≡ false
      → (VolumeApp.remove_volume (VolumeRemoval.observed volumes) name w).1.1 ≡ w.1
  foreign_volume_kept name w v known other =
      VolumeRemoval.remove_volume-calls volumes name w
      ∙ ap (λ found. VolumeRemoval.asked name found w.1) nothing_judged
    where
      nothing_judged : VolumeRemoval.judged volumes name w.0 ≡ none
      nothing_judged = elim (Option-cases control) [
        | inl off ↦ rw off refl
        | inr (c, on) ↦ rw (on, inspect_volume-foreign name w.0 v known other) refl
      ]
