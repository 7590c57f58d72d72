-- ===== src/Tests/Web.antt =====
-- The theorems on the handlers of actions, and on the labels that the pages group.
use compose_monitor.Base.{◌≡◌, refl, List, [], ◌∷◌, Text, bytes, list_beq, keep, list_eq, nat_eq}
use compose_monitor.Domain.{Service, Label, is_online, is_online_state}
use compose_monitor.Domain.Labels.{
  group_labels, families, partition, is_populated, group_labels-partition,
}
use compose_monitor.App.Monitor.{MonitorState, find_service, stop, start, remove}
use compose_monitor.App.Monitor.Calls.{stops, Observed, observed}
use compose_monitor.Web.Actions.{Request, failed, same_origin, back_to_the_list, action}
use compose_monitor.Web.Actions.Answers.{action-calls, missing_answers_404}
use compose_monitor.Tests.{web, worker, monitor, obedient}

abbrev request : Text → Text → Request
request site id = record { fetch_site = site; requested_with = []; referer = []; id = id }

abbrev state : MonitorState (Observed (List Service))
state = record { snapshot = []; world = (web ∷ worker ∷ [], []) }

action-calls_example :
    ((action
        (stop (observed monitor))
        back_to_the_list
        (request (bytes "same-origin") (bytes "c1"))
        state).1.world.1
      ≡ stops (bytes "c1") ∷ [])
    × ((action
          (start (observed monitor))
          back_to_the_list
          (request (bytes "same-origin") (bytes "c1"))
          state).1.world.1
        ≡ [])
    × ((action
          (remove (observed monitor))
          back_to_the_list
          (request (bytes "same-origin") (bytes "c1"))
          state).1.world.1
        ≡ [])
unfolding same_origin find_service is_online is_online_state list_beq
action-calls_example =
    action-calls monitor back_to_the_list (request (bytes "same-origin") (bytes "c1")) state

abbrev plain_state : MonitorState (List Service)
plain_state = record { snapshot = []; world = web ∷ worker ∷ [] }

missing_answers_404_example :
    ((action (stop monitor) back_to_the_list (request [] (bytes "c7")) plain_state).0
      ≡ failed 404 (bytes "no such service in this project"))
    × ((action (start monitor) back_to_the_list (request [] (bytes "c7")) plain_state).0
        ≡ failed 404 (bytes "no such service in this project"))
    × ((action (remove monitor) back_to_the_list (request [] (bytes "c7")) plain_state).0
        ≡ failed 404 (bytes "no such service in this project"))
unfolding same_origin find_service list_beq
missing_answers_404_example =
    missing_answers_404 monitor back_to_the_list (request [] (bytes "c7")) (web ∷ worker ∷ [])
      obedient plain_state refl refl refl refl

abbrev labels : List Label
labels =
    record { key = bytes "traefik.enable"; value = bytes "true" }
    ∷ record { key = bytes "com.docker.compose.project"; value = bytes "p" }
    ∷ record { key = bytes "maintainer"; value = bytes "me" }
    ∷ []

group_labels-partition_example : group_labels labels ≡ keep is_populated (partition families labels)
group_labels-partition_example = group_labels-partition labels
