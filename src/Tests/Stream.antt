-- ===== src/Tests/Stream.antt =====
-- The theorems on the event stream, at a page that shows two containers.
use compose_monitor.Base.{
  ◌≡◌, refl, arith, Bool, true, false, List, [], ◌∷◌, ◌++◌, some, Text, bytes,
}
use compose_monitor.Base.Failure.{ok}
use compose_monitor.Base.Json.RoundTrip.{is_utf8}
use compose_monitor.Domain.{Service, Event, Action}
use compose_monitor.App.Snapshot.{index_services}
use compose_monitor.App.Snapshot.Replay.{replay}
use compose_monitor.App.Monitor.{MonitorState}
use compose_monitor.Realtime.Hub.{Hub, new_hub, is_released, subscribe}
use compose_monitor.Realtime.Hub.Invariant.{new_hub-IsSound}
use compose_monitor.Realtime.Stream.{Connection, Draw, View, Session, Turn, ChangePayload, connect}
use compose_monitor.Realtime.Stream.Frames.{
  Frame, named, comment, written, read_stream, read_stream-written,
}
use compose_monitor.Realtime.Stream.Page.{show_all, transcript}
use compose_monitor.Realtime.Stream.Page.Shown.{IsText, Shows, transcript-shown}
use compose_monitor.Realtime.Stream.Releases.{IsServing}
use compose_monitor.Realtime.Stream.Shared.Serving.{Step, serve, serve-IsServing}
use compose_monitor.Realtime.Hub.Runs.{Operation}
use compose_monitor.Realtime.Stream.Waiting.{publish_each, connect_misses_nothing}
use compose_monitor.Tests.{web, database, monitor}

abbrev paint : Service → Bool → Bool → Text
paint s controls state = bytes "<li>" ++ s.name ++ bytes "</li>"

abbrev gone : Event
gone = record { action = Action.removed; service = web; notable = true }

abbrev found : List Service
found = web ∷ database ∷ []

web-IsText : IsText paint true View.services web
unfolding is_utf8
web-IsText = record { id_text = refl; name_text = refl; row_text = refl }

database-IsText : IsText paint true View.services database
unfolding is_utf8
database-IsText = record { id_text = refl; name_text = refl; row_text = refl }

transcript-shown_example :
    Shows paint true View.services
      (show_all (read_stream (transcript paint true View.services found (gone ∷ []))) [])
      (replay (gone ∷ []) (index_services found))
transcript-shown_example =
    transcript-shown paint true View.services found (gone ∷ []) []
      (web-IsText, (database-IsText, tt)) (web-IsText, tt)

abbrev frames : List Frame
frames = named (bytes "sync") (bytes "{}") ∷ comment ∷ named (bytes "change") (bytes "[]") ∷ []

read_stream-written_example :
    read_stream (written frames) ≡ (bytes "sync", bytes "{}") ∷ (bytes "change", bytes "[]") ∷ []
read_stream-written_example =
    read_stream-written frames
      ((ground arith, ground arith), (tt, ((ground arith, ground arith), tt)))

-- A payload whose markup has a quotation mark.
abbrev change : ChangePayload
change = record {
  action = Action.updated;
  id = bytes "c1";
  name = bytes "web";
  html = bytes "<li class=\"on\">";
  notable = false;
}

-- A connection on which nothing fails.
abbrev connection : Connection (List Service)
connection = record {
  refuse = λ status message w. w;
  begin = λ w. w;
  write = λ t w. (ok tt, w);
  flush = λ w. (ok tt, w);
}

abbrev draw : Draw (List Service)
draw s controls state w = (ok (paint s controls state), w)

abbrev state : MonitorState (List Service)
state = record { snapshot = []; world = found }

-- Others publish while the services are read, and subscribe and close the hub between the turns.
abbrev others : List Operation
others = Operation.publishes gone ∷ []

abbrev steps : List Step
steps =
    Step.mine Turn.received
    ∷ Step.theirs Operation.subscribes
    ∷ Step.theirs Operation.closes
    ∷ Step.mine Turn.received
    ∷ []

serve-IsServing_example :
    (s : Session (List Service)) × (serve connection draw true View.services monitor new_hub state
        others steps
      ≡ some s)
    × IsServing s
unfolding connect subscribe new_hub
serve-IsServing_example =
    serve-IsServing connection draw true View.services monitor new_hub state others steps
      new_hub-IsSound (unfold new_hub is_released in refl) (refl, tt) (tt, (refl, (refl, (tt, tt))))

connect_misses_nothing_example :
    (h : Hub) × (publish_each (gone ∷ gone ∷ []) (connect new_hub state).hub ≡ some h)
    × ((h.store (connect new_hub state).address).buffer ≡ gone ∷ gone ∷ [])
connect_misses_nothing_example =
    connect_misses_nothing new_hub state (gone ∷ gone ∷ []) new_hub-IsSound (unfold new_hub in refl)
      (omega arith)
