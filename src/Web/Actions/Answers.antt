-- ===== src/Web/Actions/Answers.antt =====
-- What the handlers of actions answer, and what they do.
use compose_monitor.Base.{
  ◌≡◌, refl, ◌∙◌, ap, Bool, true, false, not, List, none, some, Text, bytes, nat_eq, list_eq,
  if◌then◌else◌, Bool-cases, inl, inr, arith,
}
use compose_monitor.Base.Failure.{
  Failure, Result, Result-cases, Act, ok, err, suffixed, sentinel, not_in_project, error_is,
  same_sentinel, ◌>>=◌, or_wrap,
}
use compose_monitor.Base.Failure.Rules.{>>=-err}
use compose_monitor.Domain.{Service, is_online}
use compose_monitor.App.Ports.{ContainerControl}
use compose_monitor.App.Monitor.{
  MonitorService, MonitorState, find_service, pick_target, controllable, stop, stop_target, start,
  start_target, remove, remove_target,
}
use compose_monitor.App.Monitor.Calls.{starts, stops, removes, Observed, observed, target, called}
use compose_monitor.App.Monitor.Actions.{stop-calls, start-calls, remove-calls}
use compose_monitor.Web.Actions.{
  Request, Response, redirect, no_content, failed, same_origin, acted, answer_failure, action,
}

abbrev pub is_success : Response → Bool
is_success (redirect to) = true
is_success no_content = true
is_success (failed status message) = false

abbrev pub is_ok : {A : Type 0} → Result A → Bool
is_ok (ok a) = true
is_ok (err e) = false

acted-is_success : (back : Request → Text) (r : Request) → is_success (acted back r) ≡ true
unfolding acted
acted-is_success back r = ground arith

answer_failure-is_success : (e : Failure) → is_success (answer_failure e) ≡ false
unfolding answer_failure
answer_failure-is_success e = ground arith

module _ {S : Type 0} (act : Text → Act S (Unit {0})) (back : Request → Text) where
  -- Success is answered exactly where the request is of this site and the action succeeded, and a
  -- request of another site changes nothing.
  pub action-is_success :
      (r : Request) (s : S)
      → (is_success (action act back r s).0
          ≡ (if same_origin r then is_ok (act r.id s).0 else false))
        × ((action act back r s).1 ≡ (if same_origin r then (act r.id s).1 else s))
  unfolding action
  action-is_success r s = elim (Bool-cases (same_origin r)) [
    | inr other ↦ rw (other, action) (refl, refl)
    | inl same ↦ elim (Result-cases (act r.id s).0) [
      | inl (a, done) ↦ rw (same, action, done) (acted-is_success back r, refl)
      | inr (e, failure) ↦ rw (same, action, failure) (answer_failure-is_success e, refl)
    ]
  ]

module _ {W : Type 0} (m : MonitorService W) (back : Request → Text) where
  -- Through a request of this site, the handlers of stop, start and remove make exactly the call
  -- of the runtime that the target in a fresh listing calls for, and none where it calls for none;
  -- a request of another site makes no call.
  pub action-calls :
      (r : Request) (s : MonitorState (Observed W))
      → ((action (stop (observed m)) back r s).1.world.1 ≡ (
          if same_origin r
          then called is_online (stops r.id) (target m r.id s.world.0) s.world.1
          else s.world.1))
        × ((action (start (observed m)) back r s).1.world.1 ≡ (
            if same_origin r
            then called (λ t. not (is_online t)) (starts r.id) (target m r.id s.world.0) s.world.1
            else s.world.1))
        × ((action (remove (observed m)) back r s).1.world.1 ≡ (
            if same_origin r
            then called (λ t. not (is_online t)) (removes r.id) (target m r.id s.world.0) s.world.1
            else s.world.1))
  action-calls r s = (
    after (stop (observed m)) _ (stop-calls m r.id s),
    after (start (observed m)) _ (start-calls m r.id s),
    after (remove (observed m)) _ (remove-calls m r.id s),
  )
    where
      after :
          (act : Text → Act (MonitorState (Observed W)) (Unit {0})) (calls : _)
          → (act r.id s).1.world.1 ≡ calls
          → (action act back r s).1.world.1 ≡ (if same_origin r then calls else s.world.1)
      after act calls e =
          ap (λ t. t.world.1) (action-is_success act back r s).1
          ∙ elim (Bool-cases (same_origin r)) [ inl same ↦ rw same e | inr other ↦ rw other refl ]

  abbrev no_such : Text → Failure
  no_such id = suffixed (sentinel not_in_project) id

  pick_target-missing :
      (id : Text) (services : List Service) (s : MonitorState W)
      → find_service id services ≡ none
      → pick_target m id services s ≡ (err (no_such id), s)
  unfolding pick_target
  pick_target-missing id services s missing = rw (missing, pick_target) refl

  controllable-missing :
      (id : Text) (services : List Service) (c : ContainerControl W) (s : MonitorState W)
      → m.control ≡ some c
      → (m.source.list s.world).0 ≡ ok services
      → find_service id services ≡ none
      → controllable m id s ≡ (err (no_such id), record s { world = (m.source.list s.world).1 })
  unfolding controllable
  controllable-missing id services c s on listed missing =
      rw (on, controllable, ◌>>=◌, or_wrap, listed, or_wrap, listed)
        (pick_target-missing id services (record s { world = (m.source.list s.world).1 }) missing)

  action-failed :
      (act : Text → Act (MonitorState W) (Unit {0})) (r : Request) (s s' : MonitorState W)
      → same_origin r ≡ true
      → act r.id s ≡ (err (no_such r.id), s')
      → (action act back r s).0 ≡ failed 404 (bytes "no such service in this project")
  unfolding action answer_failure error_is same_sentinel
  action-failed act r s s' same e = rw (same, action, e) refl

  -- Where acting is allowed and the project can be listed, but the listing does not hold the
  -- container, a request of this site to stop, to start or to remove it is answered with 404.
  pub missing_answers_404 :
      (r : Request) (services : List Service) (c : ContainerControl W) (s : MonitorState W)
      → same_origin r ≡ true
      → m.control ≡ some c
      → (m.source.list s.world).0 ≡ ok services
      → find_service r.id services ≡ none
      → ((action (stop m) back r s).0 ≡ failed 404 (bytes "no such service in this project"))
        × ((action (start m) back r s).0 ≡ failed 404 (bytes "no such service in this project"))
        × ((action (remove m) back r s).0 ≡ failed 404 (bytes "no such service in this project"))
  unfolding stop start remove
  missing_answers_404 r services c s same on listed missing =
      let resolved = controllable-missing r.id services c s on listed missing in
      (
        action-failed (stop m) r s _ same
            (>>=-err (controllable m r.id) (stop_target m r.id) s _ _ resolved),
        action-failed (start m) r s _ same
            (>>=-err (controllable m r.id) (start_target m r.id) s _ _ resolved),
        action-failed (remove m) r s _ same
            (>>=-err (controllable m r.id) (remove_target m r.id) s _ _ resolved),
      )
