-- ===== src/Realtime/Stream/Page.antt =====
-- What a page shows that reads the stream: the table of its rows, by container. The connection
-- keeps all that is written, and a row is drawn as the same markup each time.
pub mod Shown
use mathlib.Core.Option
use mathlib.Core.List.{append-nil, append_assoc}
use compose_monitor.Base.{
  ℕ, ◌≡◌, ◌≢◌, refl, ◌∙◌, ap, sym, subst, Bool, true, false, List, [], ◌∷◌, ◌++◌, Option, none,
  some, Text, bytes, map, arith, All, ◌==◌, nat_eq, list_eq, list_beq, list_beq_iff, if◌then◌else◌,
  Bool-cases, inl, inr,
}
use compose_monitor.Base.Dict.{
  lookup, insert, erase, IsMap, lookup-insert, lookup-erase, insert-IsMap, erase-IsMap,
}
use compose_monitor.Base.Failure.{Act, Result, ok, err}
use compose_monitor.Base.Json.RoundTrip.{is_utf8}
use compose_monitor.Domain.{Service, Event, Action, added, updated, removed}
use compose_monitor.App.Snapshot.{Snapshot, index_from, index_services}
use compose_monitor.App.Snapshot.Replay.{replay, apply_action, apply_action-IsMap}
use compose_monitor.Realtime.Stream.{
  RowPayload, ChangePayload, Connection, Draw, View, shows_state, sync_json, change_json,
  payload_of, write_event, write_change, write_sync, write_drawn, render, rows_of, frame,
}
use compose_monitor.Realtime.Stream.Frames.{
  Frame, named, comment, frame_text, written, events, read_stream, read_stream-written, IsFrame,
}
use compose_monitor.Realtime.Stream.Payloads.{read_change, read_change-change_json}
use compose_monitor.Realtime.Stream.Rows.{read_sync, read_sync-sync_json, IsTextRow}
use compose_monitor.Realtime.Stream.Lines.{sync_json-IsLine, change_json-IsLine}

abbrev pub Table : Type 0
Table = List (Text × Text)

-- The first frame replaces the table; a row takes the place of an earlier one of its container.
unfoldable pub fill : Table → List RowPayload → Table
fill t [] = t
fill t (p ∷ ps) = fill (insert p.id p.html t) ps

-- A change takes the row away, or puts the new one in.
abbrev pub patch : Action → Text → Text → Table → Table
patch added id html t = insert id html t
patch updated id html t = insert id html t
patch removed id html t = erase id t

abbrev pub patched : Option ChangePayload → Table → Table
patched none t = t
patched (some p) t = patch p.action p.id p.html t

abbrev pub filled : Option (List RowPayload) → Table → Table
filled none t = t
filled (some ps) t = fill [] ps

unfoldable pub show : Text × Text → Table → Table
unfolding read_sync read_change
show (name, payload) t =
    if name == bytes "sync"
    then filled (read_sync payload) t
    else if name == bytes "change"
    then patched (read_change payload) t
    else t

unfoldable pub show_all : List (Text × Text) → Table → Table
unfolding show
show_all [] t = t
show_all (e ∷ es) t = show_all es (show e t)

abbrev pub log : Connection Text
log = record {
  refuse = λ status message w. w;
  begin = λ w. w;
  write = λ t w. (ok tt, w ++ t);
  flush = λ w. (ok tt, w);
}

module _ (paint : Service → Bool → Bool → Text) (controllable : Bool) (view : View) where
  abbrev pub painting : Draw Text
  painting s controls state w = (ok (paint s controls state), w)

  abbrev pub painted : Service → Text
  painted s = paint s controllable (shows_state view)

  abbrev pub row_payload : Service → RowPayload
  row_payload s = record { id = s.container_id; html = painted s }

  rows_of-painting :
      (ss : List Service) (w : Text)
      → rows_of painting controllable view ss w ≡ (map row_payload ss, w)
  unfolding rows_of render
  rows_of-painting [] w = refl
  rows_of-painting (s ∷ ss) w = rw (rows_of-painting ss w) refl

  abbrev pub markup : Action → Service → Text
  markup added s = painted s
  markup updated s = painted s
  markup removed s = []

  abbrev pub change_frame : Event → Frame
  change_frame e = named (bytes "change") (change_json (payload_of e (markup e.action e.service)))

  write_change-log :
      (action : Action) (s : Service) (notable : Bool) (w : Text)
      → let e : Event = record { action = action; service = s; notable = notable } in
        (write_change log painting controllable view e w).1 ≡ w ++ frame_text (change_frame e)
  unfolding write_change render write_drawn write_event frame_text
  write_change-log added s notable w = refl
  write_change-log updated s notable w = refl
  write_change-log removed s notable w = refl

  -- The loop over the events, with no turn in between that ends it.
  unfoldable pub write_changes : List Event → Text → Text
  unfolding write_change
  write_changes [] w = w
  write_changes (e ∷ es) w = write_changes es (write_change log painting controllable view e w).1

  write_changes-log :
      (es : List Event) (w : Text) → write_changes es w ≡ w ++ written (map change_frame es)
  unfolding write_changes written
  write_changes-log [] w = sym (append-nil w)
  write_changes-log (e ∷ es) w =
      ap (write_changes es) (write_change-log e.action e.service e.notable w)
      ∙ write_changes-log es (w ++ frame_text (change_frame e))
      ∙ append_assoc w (frame_text (change_frame e)) (written (map change_frame es))

  -- All that the handler writes for a page: the first frame, and the changes.
  unfoldable pub transcript : List Service → List Event → Text
  unfolding write_sync write_changes
  transcript found es = write_changes es (write_sync log painting controllable view found []).1

  abbrev pub frames : List Service → List Event → List Frame
  frames found es = named (bytes "sync") (sync_json (map row_payload found)) ∷ map change_frame es

  write_sync-log :
      (found : List Service) (w : Text)
      → (write_sync log painting controllable view found w).1
        ≡ w ++ frame_text (named (bytes "sync") (sync_json (map row_payload found)))
  unfolding write_sync write_event frame_text
  write_sync-log found w = rw (rows_of-painting found w) refl

  transcript-written :
      (found : List Service) (es : List Event) → transcript found es ≡ written (frames found es)
  unfolding transcript written
  transcript-written found es =
      ap (write_changes es) (write_sync-log found [])
      ∙ write_changes-log es (frame_text (named (bytes "sync") (sync_json (map row_payload found))))

  changes-IsFrame : (es : List Event) → All IsFrame (map change_frame es)
  changes-IsFrame [] = tt
  changes-IsFrame (e ∷ es) = (
    (ground arith, change_json-IsLine (payload_of e (markup e.action e.service))),
    changes-IsFrame es,
  )

  pub read_transcript :
      (found : List Service) (es : List Event)
      → read_stream (transcript found es) ≡ events (frames found es)
  read_transcript found es =
      ap read_stream (transcript-written found es)
      ∙ read_stream-written (frames found es)
          ((ground arith, sync_json-IsLine (map row_payload found)), changes-IsFrame es)
