-- ===== src/App/Monitor/Actions.antt =====
-- The actions of `MonitorService`: when each of them reaches the container runtime.
use compose_monitor.Base.{
  ◌≡◌, refl, ◌∙◌, inl, inr, Bool, not, ◌∷◌, some, Text, if◌then◌else◌, Bool-cases,
}
use compose_monitor.Base.Failure.{Act, ◌>>=◌, ◌>>◌, or_wrap}
use compose_monitor.Base.Failure.Rules.{wrapped-rule, >>=-rule, Answers-ok, Answers-err}
use compose_monitor.Domain.{Service, is_online}
use compose_monitor.App.Ports.{ContainerControl}
use compose_monitor.App.Monitor.{
  MonitorService, MonitorState, announce, controllable, with_control, stop_target, start_target,
  remove_target, start, stop, remove,
}
use compose_monitor.App.Monitor.Calls.{
  Call, starts, stops, removes, Observed, observed, observe_control, target, called, refresh-calls,
  Resolves, controllable-Resolves, target-control,
}

module _ {W : Type 0} (m : MonitorService W) where
  -- An action is a call of `control` and an announcement: one call is made, whatever comes of it.
  with_control-calls :
      (act : ContainerControl (Observed W) → Act (Observed W) (Unit {0})) (k : Call) (p : Text)
      (c : ContainerControl W) (s : MonitorState (Observed W))
      → m.control ≡ some c
      → ((w : Observed W) → (act (observe_control c) w).1.1 ≡ k ∷ w.1)
      → ((or_wrap p (with_control (observed m) act) >> announce (observed m)) s).1.world.1
        ≡ k ∷ s.world.1
  unfolding announce
  with_control-calls act k p c s on one =
      wrapped-rule (λ out. out.1.world.1 ≡ k ∷ s.world.1) p (with_control (observed m) act)
        (λ _. announce (observed m)) s (λ _ _. refresh-calls m _ ∙ called_once) (λ _ _. called_once)
    where
      called_once : (with_control (observed m) act s).1.world.1 ≡ k ∷ s.world.1
      called_once = rw (on, with_control) (one s.world)

  -- What the three actions share: the test of the target, and the call where it is passed.
  action-calls :
      (test : Service → Bool) (k : Call) (id : Text) (s : MonitorState (Observed W))
      (act : Service → Act (MonitorState (Observed W)) (Unit {0}))
      → ((t : Service) (c : ContainerControl W) (u : MonitorState (Observed W))
          → m.control ≡ some c
          → (act t u).1.world.1 ≡ (if test t then k ∷ u.world.1 else u.world.1))
      → ((controllable (observed m) id >>= act) s).1.world.1
        ≡ called test k (target m id s.world.0) s.world.1
  action-calls test k id s act each =
      >>=-rule (λ out. out.1.world.1 ≡ called test k (target m id s.world.0) s.world.1)
        (controllable (observed m) id) act s
        (λ t e.
          let found = Answers-ok (target m id s.world.0) _ t e resolved.1 in
          let (c, on) = target-control m id s.world.0 t found in
          each t c _ on ∙ rw (found, resolved.0) refl)
        (λ f e. rw (Answers-err (target m id s.world.0) _ f e resolved.1) resolved.0)
    where
      resolved : Resolves m (target m id s.world.0) s.world.1 (controllable (observed m) id s)
      resolved = controllable-Resolves m id s

  -- `Stop` makes one call of the runtime's stop, with the ID it was given, where acting is allowed
  -- and a fresh listing of the project holds an online service under that ID, and it makes no call
  -- of the runtime otherwise.
  pub stop-calls :
      (id : Text) (s : MonitorState (Observed W))
      → (stop (observed m) id s).1.world.1
        ≡ called is_online (stops id) (target m id s.world.0) s.world.1
  unfolding stop stop_target
  stop-calls id s = action-calls is_online (stops id) id s (stop_target (observed m) id) λ t c u on.
      elim (Bool-cases (is_online t)) [
        | inl up ↦
            rw (up, stop_target)
              (with_control-calls (λ d. d.stop id) (stops id) _ c u on (λ w. refl))
        | inr down ↦ rw (down, stop_target) refl
      ]

  -- `Start` makes one call of the runtime's start, with the ID it was given, where acting is allowed
  -- and a fresh listing of the project holds a service that is not online under that ID, and it makes no call
  -- of the runtime otherwise.
  pub start-calls :
      (id : Text) (s : MonitorState (Observed W))
      → (start (observed m) id s).1.world.1
        ≡ called (λ t. not (is_online t)) (starts id) (target m id s.world.0) s.world.1
  unfolding start start_target
  start-calls id s =
      action-calls (λ t. not (is_online t)) (starts id) id s (start_target (observed m) id)
        λ t c u on. elim (Bool-cases (is_online t)) [
          | inl up ↦ rw (up, start_target) refl
          | inr down ↦
              rw (down, start_target)
                (with_control-calls (λ d. d.start id) (starts id) _ c u on (λ w. refl))
        ]

  -- `Remove` makes one call of the runtime's remove, with the ID it was given, where acting is allowed
  -- and a fresh listing of the project holds a service that is not online under that ID, and it makes no call
  -- of the runtime otherwise.
  pub remove-calls :
      (id : Text) (s : MonitorState (Observed W))
      → (remove (observed m) id s).1.world.1
        ≡ called (λ t. not (is_online t)) (removes id) (target m id s.world.0) s.world.1
  unfolding remove remove_target
  remove-calls id s =
      action-calls (λ t. not (is_online t)) (removes id) id s (remove_target (observed m) id)
        λ t c u on. elim (Bool-cases (is_online t)) [
          | inl up ↦ rw (up, remove_target) refl
          | inr down ↦
              rw (down, remove_target)
                (with_control-calls (λ d. d.remove id) (removes id) _ c u on (λ w. refl))
        ]
