-- ===== src/Realtime/Stream.antt =====
-- The handler of the event stream and its renderer: internal/adapters/realtime/handler.go and
-- renderer.go. A component's rendering and the connection work on the world of the ports. `none` is
-- a panic of the hub. Headers and log calls are left out.
pub mod Frames
pub mod Payloads
pub mod Releases
pub mod Shared
pub mod Page
pub mod Waiting
pub mod Lines
pub mod Rows
use compose_monitor.Base.{
  ℕ, ◌≡◌, Bool, true, false, List, [], ◌∷◌, ◌++◌, Option, none, some, Text, bytes, ◌==◌, nat_eq,
  list_eq, if◌then◌else◌, newline,
}
use compose_monitor.Base.Failure.{Failure, Result, Act, ok, err, ◌>>=◌, ◌>>◌, return, or_wrap}
use compose_monitor.Base.Json.{json_string}
use compose_monitor.Domain.{Service, Event, Action, added, updated, removed}
use compose_monitor.App.Monitor.{MonitorService, MonitorState, list_services}
use compose_monitor.Realtime.Hub
use compose_monitor.Realtime.Hub.{
  Hub, Received, event, ended, waits, subscribe, unsubscribe, receive,
}

-- `View`
pub data View : Type 0 where
  services overview : View

-- `ParseView`
unfoldable pub parse_view : Text → View
parse_view value = if value == bytes "overview" then overview else services

abbrev pub view_text : View → Text
view_text services = bytes "services"
view_text overview = bytes "overview"

abbrev pub shows_state : View → Bool
shows_state services = true
shows_state overview = false

-- `rowPayload`
pub record RowPayload : Type 0 where
  pub id : Text
  pub html : Text

-- `changePayload`; `html` is empty for a removal.
pub record ChangePayload : Type 0 where
  pub action : Action
  pub id : Text
  pub name : Text
  pub html : Text
  pub notable : Bool

-- `domain.Action` is a string.
abbrev pub action_text : Action → Text
action_text added = bytes "added"
action_text updated = bytes "updated"
action_text removed = bytes "removed"

-- `json.Marshal` of the payloads
unfoldable pub row_json : RowPayload → Text
unfolding json_string
row_json p =
    bytes "{\"id\":"
    ++ (json_string p.id ++ (bytes ",\"html\":" ++ (json_string p.html ++ bytes "}")))

unfoldable pub rows_json : List RowPayload → Text
unfolding row_json
rows_json [] = []
rows_json (p ∷ []) = row_json p
rows_json (p ∷ q ∷ ps) = row_json p ++ (bytes "," ++ rows_json (q ∷ ps))

-- `syncPayload`
unfoldable pub sync_json : List RowPayload → Text
unfolding rows_json
sync_json ps = bytes "{\"services\":[" ++ (rows_json ps ++ bytes "]}")

abbrev pub notable_json : Bool → Text
notable_json true = bytes ",\"notable\":true}"
notable_json false = bytes ",\"notable\":false}"

-- `html,omitempty`
unfoldable pub html_json : Text → Text
unfolding json_string
html_json html = if html == [] then [] else bytes ",\"html\":" ++ json_string html

unfoldable pub change_json : ChangePayload → Text
unfolding json_string html_json
change_json p =
    bytes "{\"action\":"
    ++ (json_string (action_text p.action)
        ++ (bytes ",\"id\":"
            ++ (json_string p.id
                ++ (bytes ",\"name\":"
                    ++ (json_string p.name ++ (html_json p.html ++ notable_json p.notable))))))

-- What is written for one event.
unfoldable pub frame : Text → Text → Text
frame name encoded =
    bytes "event: "
    ++ (name ++ (newline ∷ (bytes "data: " ++ (encoded ++ (newline ∷ newline ∷ [])))))

abbrev pub keep_alive : Text
keep_alive = bytes ": keep-alive" ++ (newline ∷ newline ∷ [])

-- The connection: `http.Error`, the status line of a stream, a write and a flush.
pub record Connection (W : Type 0) : Type 0 where
  pub refuse : ℕ → Text → W → W
  pub begin : W → W
  pub write : Text → Act W (Unit {0})
  pub flush : Act W (Unit {0})

-- `ServiceItem` rendered into a buffer, with whether it has controls and whether it shows the state.
abbrev pub Draw : Type 0 → Type 0
Draw W = Service → Bool → Bool → Act W Text

-- The handler between two turns of its loop: the hub that it shares, its channel and subscription,
-- the world, and whether it has returned.
pub record Session (W : Type 0) : Type 0 where
  pub hub : Hub
  pub address : ℕ
  pub subscription : Option ℕ
  pub monitor : MonitorState W
  pub over : Bool

-- The cases of the `select`.
pub data Turn : Type 0 where
  context_done received ticked : Turn

-- The payload of an event from the channel
abbrev pub payload_of : Event → Text → ChangePayload
payload_of e html = record {
  action = e.action;
  id = e.service.container_id;
  name = e.service.name;
  html = html;
  notable = e.notable;
}

module _ {W : Type 0} where
  -- The deferred call of the function that `Subscribe` returned.
  unfoldable pub finish : Session W → Option (Session W)
  unfolding unsubscribe
  finish s = elim (unsubscribe s.subscription s.hub) [
    | none ↦ none
    | some hub ↦ some (record s { hub = hub; over = true })
  ]

  abbrev pub with_world : Session W → W → Session W
  with_world s w = record s { monitor = record (s.monitor) { world = w } }

  -- The handler goes on after a write that succeeded and returns after one that failed.
  unfoldable pub go_on : Session W → Result (Unit {0}) × W → Option (Session W)
  unfolding finish
  go_on s (ok _, w) = some (with_world s w)
  go_on s (err e, w) = finish (with_world s w)

  -- `stream`, up to the read of the services: it subscribes first.
  unfoldable pub connect : Hub → MonitorState W → Session W
  unfolding subscribe
  connect h s =
      let (hub, address, subscription) = subscribe h in
      record {
        hub = hub;
        address = address;
        subscription = subscription;
        monitor = s;
        over = false;
      }

module _ {W : Type 0} (c : Connection W) where
  -- `writeEvent`, after the encoding, which does not fail for these payloads.
  unfoldable pub write_event : Text → Text → Act W (Unit {0})
  unfolding frame
  write_event name encoded = do
    or_wrap (bytes "writing " ++ name ++ bytes " event") (c.write (frame name encoded))
    or_wrap (bytes "flushing " ++ name ++ bytes " event") c.flush

  -- One event from the channel: the frame is left out where the row cannot be rendered.
  unfoldable pub write_drawn : Event → Result Text → Act W (Unit {0})
  unfolding write_event change_json
  write_drawn e (ok html) = write_event (bytes "change") (change_json (payload_of e html))
  write_drawn e (err f) = return tt

  -- A comment frame
  unfoldable pub write_comment : Act W (Unit {0})
  write_comment = do c.write keep_alive; c.flush

module _ {W : Type 0} (draw : Draw W) (controllable : Bool) (view : View) where
  -- `Render`; the message of its error is only logged.
  unfoldable pub render : Service → Act W Text
  render s =
      or_wrap
        (bytes "rendering " ++ view_text view ++ bytes " for service \"" ++ s.name ++ bytes "\"")
        (draw s controllable (shows_state view))

  -- The loop over the services, which leaves out a row that cannot be rendered.
  unfoldable pub rows_of : List Service → W → List RowPayload × W
  unfolding render
  rows_of [] w = ([], w)
  rows_of (s ∷ ss) w =
      let (r, w') = render s w in
      let (rest, w'') = rows_of ss w' in
      elim r [
        | ok html ↦ (record { id = s.container_id; html = html } ∷ rest, w'')
        | err e ↦ (rest, w'')
      ]

module _ {W : Type 0} (c : Connection W) (draw : Draw W) (controllable : Bool) (view : View) where
  -- One change: there is nothing to draw for a removal.
  unfoldable pub write_change : Event → Act W (Unit {0})
  unfolding write_event change_json render write_drawn
  write_change e w = elim e.action [
    | removed ↦ write_event c (bytes "change") (change_json (payload_of e [])) w
    | _ ↦ let (r, w') = render draw controllable view e.service w in write_drawn c e r w'
  ]

  -- The first frame: the status line is sent, and every row.
  unfoldable pub write_sync : List Service → Act W (Unit {0})
  unfolding rows_of write_event sync_json
  write_sync found w =
      let (rows, w') = rows_of draw controllable view found (c.begin w) in
      write_event c (bytes "sync") (sync_json rows) w'

  -- What a receive from the channel leads to; one that would wait is not taken.
  unfoldable pub take_received : Session W → Received → Option (Session W)
  unfolding finish go_on write_change
  take_received s (event e) = go_on s (write_change e s.monitor.world)
  take_received s ended = finish s
  take_received s waits = some s

  -- The cases of the `select`.
  unfoldable pub take_turn : Turn → Session W → Option (Session W)
  unfolding finish receive take_received go_on write_comment
  take_turn context_done s = finish s
  take_turn received s =
      let (hub, got) = receive s.address s.hub in take_received (record s { hub = hub }) got
  take_turn ticked s = go_on s (write_comment c s.monitor.world)

  -- A turn of the loop; there is none after the handler has returned.
  unfoldable pub turn : Turn → Session W → Option (Session W)
  unfolding take_turn
  turn t s = if s.over then some s else take_turn t s

  -- What the read of the services leads to.
  unfoldable pub take_services : Result (List Service) → Session W → Option (Session W)
  unfolding finish go_on write_sync
  take_services (ok found) s = go_on s (write_sync found s.monitor.world)
  take_services (err e) s =
      finish (with_world s (c.refuse 503 (bytes "container runtime unavailable") s.monitor.world))

  module _ (m : MonitorService W) where
    -- `stream`, from the read of the services to its loop.
    unfoldable pub greet : Session W → Option (Session W)
    unfolding list_services take_services
    greet s =
        let (r, monitor) = list_services m s.monitor in
        take_services r (record s { monitor = monitor })

    unfoldable pub turns : List Turn → Session W → Option (Session W)
    unfolding turn
    turns [] s = some s
    turns (t ∷ ts) s = Hub.◌>>=◌ (turn t s) (turns ts)

    -- `stream`, with the turns that its loop takes.
    unfoldable pub stream : Hub → MonitorState W → List Turn → Option (Session W)
    unfolding connect greet turns
    stream h s ts = Hub.◌>>=◌ (greet (connect h s)) (turns ts)
