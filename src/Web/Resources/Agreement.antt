-- ===== src/Web/Resources/Agreement.antt =====
-- The confirmation of a removal against the removal.
use compose_monitor.Base.{
  ◌≡◌, refl, ◌∙◌, ap, true, some, Text, bytes, ◌++◌, ◌==◌, nat_eq, list_eq, list_beq, if◌then◌else◌,
  Bool-cases, inl, inr,
}
use compose_monitor.Base.Decimal.{itoa}
use compose_monitor.Base.Failure.{
  ok, sentinel, suffixed, in_use, error_text, error_is, same_sentinel, or_wrap,
}
use compose_monitor.Base.Failure.Rules.{>>=-ok}
use compose_monitor.Domain.{Network, Volume, network_in_use, volume_in_use}
use compose_monitor.App.Ports.{ResourceControl}
use compose_monitor.App.Networks as Networks
use compose_monitor.App.Networks.{NetworkService, inspect_network, remove_network}
use compose_monitor.App.Volumes as Volumes
use compose_monitor.App.Volumes.{VolumeService, inspect_volume, remove_volume}
use compose_monitor.Web.Actions.{Request, Response, failed, same_origin}
use compose_monitor.Web.Pages.{PageRequest}
use compose_monitor.Web.Resources.{
  in_use_text, ask, network_question, volume_question, network_confirm, network_remove,
  volume_confirm, volume_remove, removal_answer, removal_failure,
}

abbrev network_users : Network → Text
network_users n = n.name ++ bytes " has " ++ itoa n.used_by ++ bytes " container(s) on it"

abbrev volume_users : Volume → Text
volume_users v = v.name ++ bytes " is mounted by " ++ itoa v.used_by ++ bytes " container(s)"

network_question_says :
    (r : PageRequest) (n : Network)
    → ((network_question r n).consequence == in_use_text) ≡ network_in_use n
unfolding network_question list_beq
network_question_says r n = elim (Bool-cases (network_in_use n)) [
  | inl used ↦ rw used refl
  | inr free ↦ rw free refl
]

volume_question_says :
    (r : PageRequest) (v : Volume)
    → ((volume_question r v).consequence == in_use_text) ≡ volume_in_use v
unfolding volume_question list_beq
volume_question_says r v = elim (Bool-cases (volume_in_use v)) [
  | inl used ↦ rw used refl
  | inr free ↦ rw free refl
]

module _ {W : Type 0} (project : Text) (s : NetworkService W) (c : ResourceControl W) (q : Request)
    (w w' : W) (found : Network) where
  -- What a removal of a network that was found is answered with, and what it leaves.
  abbrev pub network_outcome : Response × W
  network_outcome =
      if network_in_use found
      then (failed 409 (error_text (suffixed (sentinel in_use) (network_users found))), w')
      else let (r, after) = or_wrap (bytes "removing network " ++ found.name) (c.remove q.id) w' in
        (removal_answer (bytes "/networks") (bytes "network") r, after)

  network_confirm-found :
      (r : PageRequest)
      → inspect_network s r.id w ≡ (ok found, w')
      → network_confirm project s r w
        ≡ (ask project (bytes "networks") r (network_question r found), w')
  unfolding network_confirm
  network_confirm-found r inspected =
      rw (inspected, network_confirm)
        (ap (λ o. (ask project (bytes "networks") r (network_question r found), o.1)) inspected)

  network_unused-outcome :
      (let (r, after) = Networks.remove_unused s c q.id found w' in
        (removal_answer (bytes "/networks") (bytes "network") r, after))
      ≡ network_outcome
  unfolding Networks.remove_unused removal_answer removal_failure error_is same_sentinel
  network_unused-outcome = elim (Bool-cases (network_in_use found)) [
    | inl used ↦ rw used refl
    | inr free ↦ rw free refl
  ]

  remove_network-found :
      s.control ≡ some c
      → inspect_network s q.id w ≡ (ok found, w')
      → remove_network s q.id w ≡ Networks.remove_unused s c q.id found w'
  unfolding remove_network
  remove_network-found on inspected =
      rw (on, remove_network)
        (>>=-ok (inspect_network s q.id) (Networks.remove_unused s c q.id) w w' found inspected)

  -- Where removal is allowed and a network is found: the page that asks before its removal says that
  -- it cannot be removed exactly where it is in use; and a removal by a request of this site, from
  -- the same state, is answered with 409 and asks the runtime for nothing where it is in use, and
  -- asks the runtime for it otherwise.
  pub network_confirm_agrees :
      (r : PageRequest)
      → s.control ≡ some c
      → same_origin q ≡ true
      → r.id ≡ q.id
      → inspect_network s q.id w ≡ (ok found, w')
      → (network_confirm project s r w
          ≡ (ask project (bytes "networks") r (network_question r found), w'))
        × (((network_question r found).consequence == in_use_text) ≡ network_in_use found)
        × (network_remove s q w ≡ network_outcome)
  unfolding network_confirm network_remove
  network_confirm_agrees r on same id inspected =
      let found_by = ap (λ k. inspect_network s k w) id ∙ inspected in
      (
        network_confirm-found r found_by,
        network_question_says r found,
        rw (same, network_remove)
            (ap (λ o. (removal_answer (bytes "/networks") (bytes "network") o.0, o.1))
                (remove_network-found on inspected)
              ∙ network_unused-outcome),
      )

module _ {W : Type 0} (project : Text) (s : VolumeService W) (c : ResourceControl W) (q : Request)
    (w w' : W) (found : Volume) where
  -- What a removal of a volume that was found is answered with, and what it leaves.
  abbrev pub volume_outcome : Response × W
  volume_outcome =
      if volume_in_use found
      then (failed 409 (error_text (suffixed (sentinel in_use) (volume_users found))), w')
      else let (r, after) = or_wrap (bytes "removing volume " ++ found.name) (c.remove q.id) w' in
        (removal_answer (bytes "/volumes") (bytes "volume") r, after)

  volume_confirm-found :
      (r : PageRequest)
      → inspect_volume s r.id w ≡ (ok found, w')
      → volume_confirm project s r w
        ≡ (ask project (bytes "volumes") r (volume_question r found), w')
  unfolding volume_confirm
  volume_confirm-found r inspected =
      rw (inspected, volume_confirm)
        (ap (λ o. (ask project (bytes "volumes") r (volume_question r found), o.1)) inspected)

  volume_unused-outcome :
      (let (r, after) = Volumes.remove_unused s c q.id found w' in
        (removal_answer (bytes "/volumes") (bytes "volume") r, after))
      ≡ volume_outcome
  unfolding Volumes.remove_unused removal_answer removal_failure error_is same_sentinel
  volume_unused-outcome = elim (Bool-cases (volume_in_use found)) [
    | inl used ↦ rw used refl
    | inr free ↦ rw free refl
  ]

  remove_volume-found :
      s.control ≡ some c
      → inspect_volume s q.id w ≡ (ok found, w')
      → remove_volume s q.id w ≡ Volumes.remove_unused s c q.id found w'
  unfolding remove_volume
  remove_volume-found on inspected =
      rw (on, remove_volume)
        (>>=-ok (inspect_volume s q.id) (Volumes.remove_unused s c q.id) w w' found inspected)

  -- Where removal is allowed and a volume is found: the page that asks before its removal says that
  -- it cannot be removed exactly where it is in use; and a removal by a request of this site, from
  -- the same state, is answered with 409 and asks the runtime for nothing where it is in use, and
  -- asks the runtime for it otherwise.
  pub volume_confirm_agrees :
      (r : PageRequest)
      → s.control ≡ some c
      → same_origin q ≡ true
      → r.id ≡ q.id
      → inspect_volume s q.id w ≡ (ok found, w')
      → (volume_confirm project s r w
          ≡ (ask project (bytes "volumes") r (volume_question r found), w'))
        × (((volume_question r found).consequence == in_use_text) ≡ volume_in_use found)
        × (volume_remove s q w ≡ volume_outcome)
  unfolding volume_confirm volume_remove
  volume_confirm_agrees r on same id inspected =
      let found_by = ap (λ k. inspect_volume s k w) id ∙ inspected in
      (
        volume_confirm-found r found_by,
        volume_question_says r found,
        rw (same, volume_remove)
            (ap (λ o. (removal_answer (bytes "/volumes") (bytes "volume") o.0, o.1))
                (remove_volume-found on inspected)
              ∙ volume_unused-outcome),
      )
