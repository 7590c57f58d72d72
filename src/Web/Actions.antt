-- ===== src/Web/Actions.antt =====
-- The actions on services over HTTP: `action`, `acted`, `sameOrigin` and `backToTheList` of
-- internal/adapters/web/services/handlers/handler.go. A handler answers a request, and changes the
-- state that the application's method changes.
pub mod Answers
use compose_monitor.Base.{
  ℕ, Bool, true, false, not, ◌||◌, List, [], Option, none, some, Text, bytes, ◌==◌, nat_eq, list_eq,
  if◌then◌else◌,
}
use compose_monitor.Base.Failure.{
  Failure, control_disabled, not_in_project, not_running, already_running, still_running, error_is,
  Act, ok, err,
}

-- What a handler reads of a request: the headers Sec-Fetch-Site, X-Requested-With and Referer, each
-- empty where it is missing, and the ID in the path.
pub record Request : Type 0 where
  pub fetch_site : Text
  pub requested_with : Text
  pub referer : Text
  pub id : Text

-- A redirect with 303, an answer of 204, or `http.Error`.
pub data Response : Type 0 where
  redirect : Text → Response
  no_content : Response
  failed : ℕ → Text → Response

-- `sameOrigin`
unfoldable pub same_origin : Request → Bool
same_origin r =
    r.fetch_site == [] || (r.fetch_site == bytes "same-origin" || r.fetch_site == bytes "none")

-- `backToTheList`
unfoldable pub back_to_the_list : Request → Text
back_to_the_list r = bytes "/"

-- `acted`
unfoldable pub acted : (Request → Text) → Request → Response
acted back r = if r.requested_with == bytes "fetch" then no_content else redirect (back r)

-- The cases of `action` for an error.
unfoldable pub answer_failure : Failure → Response
unfolding error_is
answer_failure e =
    if error_is e control_disabled
    then failed 403 (bytes "container control is disabled")
    else if error_is e not_in_project
    then failed 404 (bytes "no such service in this project")
    else if error_is e not_running
    then failed 409 (bytes "service is not running")
    else if error_is e already_running
    then failed 409 (bytes "service is already running")
    else if error_is e still_running
    then failed 409 (bytes "stop the service before removing it")
    else failed 502 (bytes "the action failed")

abbrev pub cross_origin : Response
cross_origin = failed 403 (bytes "cross-origin request refused")

module _ {S : Type 0} (act : Text → Act S (Unit {0})) (back : Request → Text) where
  -- `action`
  unfoldable pub action : Request → S → Response × S
  unfolding same_origin acted answer_failure
  action r s =
      if not (same_origin r)
      then (cross_origin, s)
      else let (result, s') = act r.id s in
        elim result [ ok _ ↦ (acted back r, s') | err e ↦ (answer_failure e, s') ]
