-- ===== src/Server/ReadOnly.antt =====
-- The server with acting switched off.
use compose_monitor.Base.{
  ◌≡◌, refl, ap, Bool, true, false, Bool-cases, inl, inr, Option, none, Text, ◌==◌, nat_eq,
}
use compose_monitor.Base.Failure.{control_disabled, error_is, err, sentinel, Act, Failure}
use compose_monitor.Base.Failure.Rules.{>>=-err}
use compose_monitor.App.Ports.{EventBroadcaster}
use compose_monitor.App.Monitor.{
  MonitorService, MonitorState, controllable, start, stop, remove, start_target, stop_target,
  remove_target,
}
use compose_monitor.App.Networks.{NetworkService, remove_network}
use compose_monitor.App.Volumes.{VolumeService, remove_volume}
use compose_monitor.Docker.Types.{Parsed}
use compose_monitor.Docker.Client.{Api}
use compose_monitor.Docker.Resources.{ResourceApi}
use compose_monitor.Config.{Config}
use compose_monitor.Web.Actions.{Request, Response, failed, action, answer_failure, same_origin}
use compose_monitor.Web.Resources.{network_remove, volume_remove, removal_answer, removal_failure}
use compose_monitor.Server.{
  Form, start_service, stop_service, remove_service, delete_network, delete_volume, held, on_world,
  monitor, network_service, volume_service, post,
}

-- An answer that is 403.
abbrev pub is_forbidden : Response → Bool
is_forbidden (failed code why) = code == 403
is_forbidden _ = false

abbrev disabled : Failure
disabled = sentinel control_disabled

module _ {W : Type 0} (m : MonitorService W) (none_held : m.control ≡ none) (id : Text)
    (s : MonitorState W) where
  controllable-disabled : controllable m id s ≡ (err disabled, s)
  unfolding controllable
  controllable-disabled = rw (none_held, controllable) refl

  start-disabled : start m id s ≡ (err disabled, s)
  unfolding start
  start-disabled =
      >>=-err (controllable m id) (start_target m id) s s disabled controllable-disabled

  stop-disabled : stop m id s ≡ (err disabled, s)
  unfolding stop
  stop-disabled = >>=-err (controllable m id) (stop_target m id) s s disabled controllable-disabled

  remove-disabled : remove m id s ≡ (err disabled, s)
  unfolding remove
  remove-disabled =
      >>=-err (controllable m id) (remove_target m id) s s disabled controllable-disabled

action-disabled :
    {S : Type 0} (act : Text → Act S (Unit {0})) (back : Request → Text) (r : Request) (s : S)
    → act r.id s ≡ (err disabled, s)
    → (is_forbidden (action act back r s).0 ≡ true) × ((action act back r s).1 ≡ s)
unfolding action answer_failure error_is
action-disabled act back r s e = elim (Bool-cases (same_origin r)) [
  | inl same ↦ rw (same, action, e) (refl, ap (λ q. q.1) e)
  | inr other ↦ rw (other, action) (refl, refl)
]

module _ {W : Type 0} (r : Request) (w : W) where
  network_remove-disabled :
      (n : NetworkService W)
      → n.control ≡ none
      → (is_forbidden (network_remove n r w).0 ≡ true) × ((network_remove n r w).1 ≡ w)
  unfolding network_remove remove_network removal_answer removal_failure error_is
  network_remove-disabled n none_held = elim (Bool-cases (same_origin r)) [
    | inl same ↦ rw (same, network_remove, none_held, remove_network) (refl, refl)
    | inr other ↦ rw (other, network_remove) (refl, refl)
  ]

  volume_remove-disabled :
      (v : VolumeService W)
      → v.control ≡ none
      → (is_forbidden (volume_remove v r w).0 ≡ true) × ((volume_remove v r w).1 ≡ w)
  unfolding volume_remove remove_volume removal_answer removal_failure error_is
  volume_remove-disabled v none_held = elim (Bool-cases (same_origin r)) [
    | inl same ↦ rw (same, volume_remove, none_held, remove_volume) (refl, refl)
    | inr other ↦ rw (other, volume_remove) (refl, refl)
  ]

module _ {W : Type 0} (cfg : Config) (api : Api W) (resources : ResourceApi W)
    (parse : Text → Option Parsed) (unicode_upper : Text → Text) (is_authority : Text → Bool)
    (hub : EventBroadcaster W) where
  held-disabled : {C : Type 0} (c : C) → cfg.control.enabled ≡ false → held cfg c ≡ none
  unfolding held
  held-disabled c off = rw (off, held) refl

  -- Where the configuration switches acting off, every form that is posted is answered with 403 and
  -- no call at all is made, of the runtime or of the hub: the state is what it was.
  pub disabled_acts_on_nothing :
      (f : Form) (r : Request) (s : MonitorState W)
      → cfg.control.enabled ≡ false
      → let out = post cfg api resources parse unicode_upper is_authority hub f r s in
        (is_forbidden out.0 ≡ true) × (out.1 ≡ s)
  unfolding post on_world monitor network_service volume_service
  disabled_acts_on_nothing start_service r s off =
      action-disabled _ _ r s (start-disabled _ (held-disabled _ off) r.id s)
  disabled_acts_on_nothing stop_service r s off =
      action-disabled _ _ r s (stop-disabled _ (held-disabled _ off) r.id s)
  disabled_acts_on_nothing remove_service r s off =
      action-disabled _ _ r s (remove-disabled _ (held-disabled _ off) r.id s)
  disabled_acts_on_nothing delete_network r s off =
      let (answered, same) = network_remove-disabled r s.world _ (held-disabled _ off) in
      (answered, ap (λ w. record s { world = w }) same)
  disabled_acts_on_nothing delete_volume r s off =
      let (answered, same) = volume_remove-disabled r s.world _ (held-disabled _ off) in
      (answered, ap (λ w. record s { world = w }) same)
