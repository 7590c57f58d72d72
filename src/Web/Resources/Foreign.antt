-- ===== src/Web/Resources/Foreign.antt =====
-- The handlers of networks and of volumes on the runtime's adapter.
use compose_monitor.Base.{
  ◌≡◌, refl, ◌∙◌, ap, true, false, Option, some, Text, bytes, ◌++◌, ◌==◌, nat_eq, list_eq,
}
use compose_monitor.Base.Failure.{
  Failure, prefixed, suffixed, sentinel, not_found, ok, err, error_is, same_sentinel, or_wrap,
}
use compose_monitor.Base.Failure.Rules.{or_wrap-err, >>=-err}
use compose_monitor.App.Ports.{ContainerSource, ResourceControl}
use compose_monitor.App.Networks as Networks
use compose_monitor.App.Networks.{inspect_network, remove_network}
use compose_monitor.App.Volumes as Volumes
use compose_monitor.App.Volumes.{inspect_volume, remove_volume}
use compose_monitor.Docker.Types.{Parsed}
use compose_monitor.Docker.Mapping.{label_project}
use compose_monitor.Docker.Routing.{label}
use compose_monitor.Docker.Resources.{ResourceApi, NetworkInspect, VolumeInspect}
use compose_monitor.Docker.Resources.Scope.{
  networks, volumes, inspect_network-foreign, inspect_volume-foreign,
}
use compose_monitor.Web.Actions.{Request, failed, same_origin}
use compose_monitor.Web.Pages.{Answer, PageRequest, missing, missing_answer}
use compose_monitor.Web.Resources.{
  refusal, removal_answer, removal_failure, network_detail_page, network_confirm, network_remove,
  volume_detail_page, volume_confirm, volume_remove,
}

module _ {W : Type 0} (api : ResourceApi W) (project : Text) (parse : Text → Option Parsed)
    (containers : ContainerSource W) (c : ResourceControl W) where
  abbrev network_missing : Text → Failure
  network_missing id =
      prefixed (bytes "inspecting network")
        (suffixed (sentinel not_found) (bytes "network" ++ bytes " " ++ id))

  module _ (title : Text) (w : W) (id : Text) (n : NetworkInspect)
      (known : (api.network_inspect id w).0 ≡ ok n)
      (other : (label label_project n.labels == project) ≡ false) where
    abbrev network_app : Networks.NetworkService W
    network_app = networks api project parse containers (some c)

    inspect_network-missing :
        inspect_network network_app id w
        ≡ (err (network_missing id), (network_app.source.inspect id w).1)
    unfolding inspect_network
    inspect_network-missing =
        >>=-err (or_wrap (bytes "inspecting network") (network_app.source.inspect id))
          (Networks.complete network_app) w (network_app.source.inspect id w).1 (network_missing id)
          (or_wrap-err (bytes "inspecting network") (network_app.source.inspect id) w
            (network_app.source.inspect id w).1 _
            (ap (λ r. (r, (network_app.source.inspect id w).1))
              (inspect_network-foreign api project parse containers (some c) id w n known other)))

    remove_network-missing : (remove_network network_app id w).0 ≡ err (network_missing id)
    unfolding remove_network
    remove_network-missing =
        ap (λ o. o.0)
          (>>=-err (inspect_network network_app id) (Networks.remove_unused network_app c id) w
            (network_app.source.inspect id w).1 (network_missing id) inspect_network-missing)

    -- A network that the runtime has for another project is answered with 404, as one that does not
    -- exist: its details, the confirmation of its removal, and a removal by a request of this site.
    pub foreign_network_answers_404 :
        (r : PageRequest) (q : Request)
        → same_origin q ≡ true
        → r.id ≡ id
        → q.id ≡ id
        → let answer : Answer = record {
          status = 404;
          page = missing title (bytes "networks") (bytes "network");
        } in
          ((network_detail_page title network_app r w).0 ≡ answer)
          × ((network_confirm title network_app r w).0 ≡ answer)
          × ((network_remove network_app q w).0
              ≡ failed 404 (bytes "no such network in this project"))
    unfolding network_detail_page network_confirm network_remove refusal removal_answer
        removal_failure error_is same_sentinel missing_answer
    foreign_network_answers_404 r q same read asked =
        let seen = ap (λ k. inspect_network network_app k w) read ∙ inspect_network-missing in
        (
          rw (seen, network_detail_page) refl,
          rw (seen, network_confirm) refl,
          rw (same, network_remove)
              (ap (removal_answer (bytes "/networks") (bytes "network"))
                (ap (λ k. (remove_network network_app k w).0) asked ∙ remove_network-missing)),
        )

  abbrev volume_missing : Text → Failure
  volume_missing id =
      prefixed (bytes "inspecting volume")
        (suffixed (sentinel not_found) (bytes "volume" ++ bytes " " ++ id))

  module _ (title : Text) (w : W) (id : Text) (v : VolumeInspect)
      (known : (api.volume_inspect id w).0 ≡ ok v)
      (other : (label label_project v.labels == project) ≡ false) where
    abbrev volume_app : Volumes.VolumeService W
    volume_app = volumes api project parse containers (some c)

    inspect_volume-missing :
        inspect_volume volume_app id w
        ≡ (err (volume_missing id), (volume_app.source.inspect id w).1)
    unfolding inspect_volume
    inspect_volume-missing =
        >>=-err (or_wrap (bytes "inspecting volume") (volume_app.source.inspect id))
          (Volumes.complete volume_app) w (volume_app.source.inspect id w).1 (volume_missing id)
          (or_wrap-err (bytes "inspecting volume") (volume_app.source.inspect id) w
            (volume_app.source.inspect id w).1 _
            (ap (λ r. (r, (volume_app.source.inspect id w).1))
              (inspect_volume-foreign api project parse containers (some c) id w v known other)))

    remove_volume-missing : (remove_volume volume_app id w).0 ≡ err (volume_missing id)
    unfolding remove_volume
    remove_volume-missing =
        ap (λ o. o.0)
          (>>=-err (inspect_volume volume_app id) (Volumes.remove_unused volume_app c id) w
            (volume_app.source.inspect id w).1 (volume_missing id) inspect_volume-missing)

    -- A volume that the runtime has for another project is answered with 404, as one that does not
    -- exist: its details, the confirmation of its removal, and a removal by a request of this site.
    pub foreign_volume_answers_404 :
        (r : PageRequest) (q : Request)
        → same_origin q ≡ true
        → r.id ≡ id
        → q.id ≡ id
        → let answer : Answer = record {
          status = 404;
          page = missing title (bytes "volumes") (bytes "volume");
        } in
          ((volume_detail_page title volume_app r w).0 ≡ answer)
          × ((volume_confirm title volume_app r w).0 ≡ answer)
          × ((volume_remove volume_app q w).0 ≡ failed 404 (bytes "no such volume in this project"))
    unfolding volume_detail_page volume_confirm volume_remove refusal removal_answer removal_failure
        error_is same_sentinel missing_answer
    foreign_volume_answers_404 r q same read asked =
        let seen = ap (λ k. inspect_volume volume_app k w) read ∙ inspect_volume-missing in
        (
          rw (seen, volume_detail_page) refl,
          rw (seen, volume_confirm) refl,
          rw (same, volume_remove)
              (ap (removal_answer (bytes "/volumes") (bytes "volume"))
                (ap (λ k. (remove_volume volume_app k w).0) asked ∙ remove_volume-missing)),
        )
