-- ===== src/Web/Resources.antt =====
-- The handlers of networks and of volumes: internal/adapters/web/networks/handlers/handler.go and
-- internal/adapters/web/volumes/handlers/handler.go, which are alike.
pub mod Agreement
pub mod Foreign
use compose_monitor.Base.{
  ℕ, ◌≡◌, Bool, true, false, not, List, [], ◌++◌, Option, none, some, Text, bytes, if◌then◌else◌,
}
use compose_monitor.Base.Failure.{
  Failure, Result, Act, ok, err, error_is, error_text, control_disabled, not_found, in_use,
}
use compose_monitor.Domain.{Network, Volume, network_in_use, volume_in_use}
use compose_monitor.App.Networks as Networks
use compose_monitor.App.Networks.{NetworkService, list_networks, inspect_network, remove_network}
use compose_monitor.App.Volumes as Volumes
use compose_monitor.App.Volumes.{VolumeService, list_volumes, inspect_volume, remove_volume}
use compose_monitor.Web.Actions.{Request, Response, redirect, failed, same_origin, cross_origin}
use compose_monitor.Web.Pages.{
  Question, Page, Answer, PageRequest, shown, unavailable_answer, missing_answer, is_fragment,
  confirm, confirm_page, network_list, network_detail, volume_list, volume_detail,
}

-- The switch on the error of `Inspect`.
unfoldable pub refusal : Text → Text → Text → Failure → Answer
unfolding error_is missing_answer unavailable_answer
refusal project section what e =
    if error_is e not_found
    then missing_answer project section what
    else unavailable_answer project section e

-- The switch on the error of `Remove`.
unfoldable pub removal_failure : Text → Failure → Response
unfolding error_is error_text
removal_failure what e =
    if error_is e control_disabled
    then failed 403 (bytes "removal is disabled")
    else if error_is e not_found
    then failed 404 (bytes "no such " ++ what ++ bytes " in this project")
    else if error_is e in_use
    then failed 409 (error_text e)
    else failed 502 (bytes "the removal failed")

unfoldable pub removal_answer : Text → Text → Result (Unit {0}) → Response
unfolding removal_failure
removal_answer list what (ok _) = redirect list
removal_answer list what (err e) = removal_failure what e

abbrev pub in_use_text : Text
in_use_text = bytes "This is still in use by a container, so it cannot be removed."

unfoldable pub ask : Text → Text → PageRequest → Question → Answer
unfolding is_fragment
ask project section r q =
    shown (if is_fragment r then confirm q else confirm_page project section q)

-- `confirmRemove`, after the inspection
unfoldable pub network_question : PageRequest → Network → Question
unfolding network_in_use
network_question r n = record {
  title = bytes "Remove network";
  name = n.name;
  consequence =
      if network_in_use n
      then in_use_text
      else bytes
          "The network is deleted. Compose will create it again the next time this project is brought up.";
  action = r.path;
  back = bytes "/networks";
}

unfoldable pub volume_question : PageRequest → Volume → Question
unfolding volume_in_use
volume_question r v = record {
  title = bytes "Remove volume";
  name = v.name;
  consequence =
      if volume_in_use v
      then in_use_text
      else bytes
          "The volume and everything stored in it are deleted. This is the only action here that destroys data, and it cannot be undone.";
  action = r.path;
  back = bytes "/volumes";
}

module _ {W : Type 0} (project : Text) (s : NetworkService W) where
  abbrev network_refusal : Failure → Answer
  network_refusal = refusal project (bytes "networks") (bytes "network")

  -- `list`
  unfoldable pub network_list_page : W → Answer × W
  unfolding list_networks unavailable_answer
  network_list_page w =
      let (r, w') = list_networks s w in
      elim r [
        | ok found ↦ (shown (network_list project found (Networks.can_control s)), w')
        | err e ↦ (unavailable_answer project (bytes "networks") e, w')
      ]

  -- `detail`
  unfoldable pub network_detail_page : PageRequest → W → Answer × W
  unfolding inspect_network refusal
  network_detail_page r w =
      let (result, w') = inspect_network s r.id w in
      elim result [
        | ok found ↦ (shown (network_detail project found (Networks.can_control s)), w')
        | err e ↦ (network_refusal e, w')
      ]

  -- `confirmRemove`
  unfoldable pub network_confirm : PageRequest → W → Answer × W
  unfolding inspect_network refusal ask network_question
  network_confirm r w =
      let (result, w') = inspect_network s r.id w in
      elim result [
        | ok found ↦ (ask project (bytes "networks") r (network_question r found), w')
        | err e ↦ (network_refusal e, w')
      ]

-- `remove`
unfoldable pub network_remove : {W : Type 0} → NetworkService W → Request → W → Response × W
unfolding same_origin remove_network removal_answer
network_remove s q w =
    if not (same_origin q)
    then (cross_origin, w)
    else let (r, w') = remove_network s q.id w in
      (removal_answer (bytes "/networks") (bytes "network") r, w')

module _ {W : Type 0} (project : Text) (s : VolumeService W) where
  abbrev volume_refusal : Failure → Answer
  volume_refusal = refusal project (bytes "volumes") (bytes "volume")

  -- `list`
  unfoldable pub volume_list_page : W → Answer × W
  unfolding list_volumes unavailable_answer
  volume_list_page w =
      let (r, w') = list_volumes s w in
      elim r [
        | ok found ↦ (shown (volume_list project found (Volumes.can_control s)), w')
        | err e ↦ (unavailable_answer project (bytes "volumes") e, w')
      ]

  -- `detail`
  unfoldable pub volume_detail_page : PageRequest → W → Answer × W
  unfolding inspect_volume refusal
  volume_detail_page r w =
      let (result, w') = inspect_volume s r.id w in
      elim result [
        | ok found ↦ (shown (volume_detail project found (Volumes.can_control s)), w')
        | err e ↦ (volume_refusal e, w')
      ]

  -- `confirmRemove`
  unfoldable pub volume_confirm : PageRequest → W → Answer × W
  unfolding inspect_volume refusal ask volume_question
  volume_confirm r w =
      let (result, w') = inspect_volume s r.id w in
      elim result [
        | ok found ↦ (ask project (bytes "volumes") r (volume_question r found), w')
        | err e ↦ (volume_refusal e, w')
      ]

-- `remove`
unfoldable pub volume_remove : {W : Type 0} → VolumeService W → Request → W → Response × W
unfolding same_origin remove_volume removal_answer
volume_remove s q w =
    if not (same_origin q)
    then (cross_origin, w)
    else let (r, w') = remove_volume s q.id w in
      (removal_answer (bytes "/volumes") (bytes "volume") r, w')
