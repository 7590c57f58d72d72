-- ===== src/Realtime/Stream/Page/Shown.antt =====
-- The table of a page against the events that the handler received.
use mathlib.Core.Option
use compose_monitor.Base.{
  ◌≡◌, refl, ◌∙◌, ap, sym, subst, Bool, true, List, [], ◌∷◌, Text, bytes, map, All, ◌==◌, nat_eq,
  list_eq, list_beq, Bool-cases, inl, inr,
}
use compose_monitor.Base.Dict.{
  lookup, insert, erase, IsMap, lookup-insert, lookup-erase, insert-IsMap, erase-IsMap,
}
use compose_monitor.Base.Json.RoundTrip.{is_utf8}
use compose_monitor.Domain.{Service, Event, Action, added, updated, removed}
use compose_monitor.App.Snapshot.{Snapshot, index_from, index_services}
use compose_monitor.App.Snapshot.Replay.{replay, apply_action}
use compose_monitor.Realtime.Stream.{RowPayload, View, sync_json, change_json, payload_of}
use compose_monitor.Realtime.Stream.Frames.{Frame, events, read_stream}
use compose_monitor.Realtime.Stream.Payloads.{read_change-change_json}
use compose_monitor.Realtime.Stream.Rows.{read_sync-sync_json, IsTextRow}
use compose_monitor.Realtime.Stream.Page.{
  Table, fill, patch, patched, filled, show, show_all, painted, row_payload, markup, change_frame,
  transcript, read_transcript,
}

module _ (paint : Service → Bool → Bool → Text) (controllable : Bool) (view : View) where
  abbrev drawn : Service → Text
  drawn = painted paint controllable view

  abbrev row_of : Service → RowPayload
  row_of = row_payload paint controllable view

  abbrev drawn_markup : Action → Service → Text
  drawn_markup = markup paint controllable view

  abbrev change_of : Event → Frame
  change_of = change_frame paint controllable view

  -- The texts of a service, as it is drawn, are UTF-8.
  pub record IsText (s : Service) : Type 0 where
    pub id_text : is_utf8 0 s.container_id ≡ true
    pub name_text : is_utf8 0 s.name ≡ true
    pub row_text : is_utf8 0 (drawn s) ≡ true

  markup-is_utf8 : (a : Action) (s : Service) → IsText s → is_utf8 0 (drawn_markup a s) ≡ true
  unfolding is_utf8
  markup-is_utf8 added s v = v.row_text
  markup-is_utf8 updated s v = v.row_text
  markup-is_utf8 removed s v = refl

  rows-IsTextRow : (ss : List Service) → All IsText ss → All IsTextRow (map row_of ss)
  rows-IsTextRow [] v = tt
  rows-IsTextRow (s ∷ ss) (v, vs) = ((v.id_text, v.row_text), rows-IsTextRow ss vs)

  -- The table holds the rows of the services of a snapshot, and no other.
  pub record Shows (t : Table) (m : Snapshot) : Type 0 where
    pub table : IsMap t
    pub snapshot : IsMap m
    pub rows : (id : Text) → lookup id t ≡ Option.map drawn (lookup id m)

  Shows-insert :
      (s : Service) (t : Table) (m : Snapshot)
      → Shows t m
      → Shows (insert s.container_id (drawn s) t) (insert s.container_id s m)
  Shows-insert s t m v = record {
    table = insert-IsMap s.container_id (drawn s) t v.table;
    snapshot = insert-IsMap s.container_id s m v.snapshot;
    rows = λ id.
        lookup-insert s.container_id id (drawn s) t ∙ elim (Bool-cases (s.container_id == id)) [
          | inl hit ↦ rw (lookup-insert s.container_id id s m, hit) refl
          | inr miss ↦ rw (lookup-insert s.container_id id s m, miss) (v.rows id)
        ];
  }

  Shows-erase : (k : Text) (t : Table) (m : Snapshot) → Shows t m → Shows (erase k t) (erase k m)
  Shows-erase k t m v = record {
    table = erase-IsMap k t v.table;
    snapshot = erase-IsMap k m v.snapshot;
    rows = λ id. lookup-erase k id t v.table ∙ elim (Bool-cases (k == id)) [
      | inl hit ↦ rw (lookup-erase k id m v.snapshot, hit) refl
      | inr miss ↦ rw (lookup-erase k id m v.snapshot, miss) (v.rows id)
    ];
  }

  fill-Shows :
      (ss : List Service) (t : Table) (m : Snapshot)
      → Shows t m
      → Shows (fill t (map row_of ss)) (index_from m ss)
  unfolding fill index_from
  fill-Shows [] t m v = v
  fill-Shows (s ∷ ss) t m v = fill-Shows ss _ _ (Shows-insert s t m v)

  patch-Shows :
      (a : Action) (s : Service) (t : Table) (m : Snapshot)
      → Shows t m
      → Shows (patch a s.container_id (drawn_markup a s) t) (apply_action a s m)
  unfolding apply_action
  patch-Shows added s t m v = Shows-insert s t m v
  patch-Shows updated s t m v = Shows-insert s t m v
  patch-Shows removed s t m v = Shows-erase s.container_id t m v

  show-change :
      (e : Event) (t : Table)
      → IsText e.service
      → show (bytes "change", change_json (payload_of e (drawn_markup e.action e.service))) t
        ≡ patch e.action e.service.container_id (drawn_markup e.action e.service) t
  unfolding show list_beq
  show-change e t v =
      ap (λ o. patched o t)
        (read_change-change_json (payload_of e (drawn_markup e.action e.service)) v.id_text
          v.name_text (markup-is_utf8 e.action e.service v))

  show_all-Shows :
      (es : List Event) (t : Table) (m : Snapshot)
      → All (λ e. IsText e.service) es
      → Shows t m
      → Shows (show_all (events (map change_of es)) t) (replay es m)
  unfolding show_all replay
  show_all-Shows [] t m v h = h
  show_all-Shows (e ∷ es) t m (v, vs) h = show_all-Shows es _ _ vs (
      subst (λ t'. Shows t' (apply_action e.action e.service m)) (sym (show-change e t v))
        (patch-Shows e.action e.service t m h))

  show-sync :
      (found : List Service) (t : Table)
      → All IsText found
      → show (bytes "sync", sync_json (map row_of found)) t ≡ fill [] (map row_of found)
  unfolding show list_beq
  show-sync found t v =
      ap (λ o. filled o t) (read_sync-sync_json (map row_of found) (rows-IsTextRow found v))

  -- On a connection that keeps what is written, for services whose IDs, names and markup are UTF-8:
  -- a page that reads, as an event stream and as JSON, what the handler wrote for the services that
  -- it listed and the events that it received, shows what the events make of that listing: for
  -- every container the markup of its service, and no row for another; whatever it showed before.
  pub transcript-shown :
      (found : List Service) (es : List Event) (t : Table)
      → All IsText found
      → All (λ e. IsText e.service) es
      → Shows
          (show_all (read_stream (transcript paint controllable view found es)) t)
          (replay es (index_services found))
  unfolding show_all index_services
  transcript-shown found es t v vs =
      let start =
        fill-Shows found [] []
          (record { table = tt; snapshot = tt; rows = λ id. unfold lookup in refl }) in
      subst (λ t'. Shows t' (replay es (index_from [] found)))
        (sym (
          ap (λ l. show_all l t) (read_transcript paint controllable view found es)
          ∙ ap (show_all (events (map change_of es))) (show-sync found t v)))
        (show_all-Shows es _ _ vs start)
