-- ===== src/App/Monitor/Published.antt =====
-- `refresh` and what it publishes. The broadcaster is observed: a world carries the list of the
-- events published so far, in order.
use mathlib.Core.List.{append-nil, append_assoc}
use mathlib.Core.Option
use compose_monitor.Base.{◌≡◌, sym, ◌∙◌, ap, List, [], ◌∷◌, ◌++◌, Text, bytes, list_eq, nat_eq}
use compose_monitor.Base.Failure.{Act}
use compose_monitor.Base.Failure.Rules.{wrapped-rule}
use compose_monitor.Domain.{Service, Event}
use compose_monitor.App.Snapshot.{Snapshot, diff_snapshots, index_services}
use compose_monitor.App.Snapshot.Index.{IsSnapshot, index_services-IsSnapshot}
use compose_monitor.App.Snapshot.Replay.{
  replay, replay-append, replay-IsMap, row_of, replay-diff_snapshots,
}
use compose_monitor.App.Monitor.{
  MonitorService, MonitorState, through, observe, publish_all, exchange, refresh,
}

abbrev pub Recorded : Type 0 → Type 0
Recorded W = W × List Event

abbrev pub unrecorded : {W A : Type 0} → Act W A → Act (Recorded W) A
unrecorded call (w, events) = let (r, w') = call w in (r, (w', events))

abbrev pub recorded : {W : Type 0} → MonitorService W → MonitorService (Recorded W)
recorded m = record {
  source = record {
    list = unrecorded m.source.list;
    inspect = λ id. unrecorded (m.source.inspect id);
    logs = λ id tail. unrecorded (m.source.logs id tail);
    usage = unrecorded m.source.usage;
  };
  control =
      Option.map
        (λ c. record {
          start = λ id. unrecorded (c.start id);
          stop = λ id. unrecorded (c.stop id);
          remove = λ id. unrecorded (c.remove id);
        })
        m.control;
  broadcaster = record {
    publish =
        λ e (w, events). let (r, w') = m.broadcaster.publish e w in (r, (w', events ++ e ∷ []));
  };
}

-- What a page has that began with an empty table and received every event so far.
abbrev pub page : {W : Type 0} → MonitorState (Recorded W) → Snapshot
page s = replay s.world.1 []

-- The page agrees with the last observation, which holds each container once.
pub record IsCurrent {W : Type 0} (s : MonitorState (Recorded W)) : Type 0 where
  pub whole : IsSnapshot s.snapshot
  pub shown : (id : Text) → row_of id (page s) ≡ row_of id s.snapshot

module _ {W : Type 0} (m : MonitorService W) where
  publish_all-events :
      (es : List Event) (w : Recorded W) → (publish_all (recorded m) es w).1.1 ≡ w.1 ++ es
  unfolding publish_all
  publish_all-events [] w = sym (append-nil w.1)
  publish_all-events (e ∷ es) w =
      publish_all-events es ((m.broadcaster.publish e w.0).1, w.1 ++ e ∷ [])
      ∙ append_assoc w.1 (e ∷ []) es

  observe-IsCurrent :
      (services : List Service) (s : MonitorState (Recorded W))
      → IsCurrent s
      → IsCurrent (observe (recorded m) services s).1
  unfolding observe exchange
  observe-IsCurrent services s v = record {
    whole = index_services-IsSnapshot services;
    shown = λ id.
        ap (λ es. row_of id (replay es []))
          (publish_all-events (diff_snapshots s.snapshot (index_services services)) s.world)
        ∙ ap (row_of id) (replay-append s.world.1 _ [])
        ∙ replay-diff_snapshots (page s) s.snapshot (index_services services)
            (replay-IsMap s.world.1 [] tt) v.whole (index_services-IsSnapshot services) v.shown id;
  }

  -- Whatever the source answers and the broadcaster does, a refresh leaves a page that received
  -- every event in agreement with the last observation.
  pub refresh-IsCurrent :
      (s : MonitorState (Recorded W)) → IsCurrent s → IsCurrent (refresh (recorded m) s).1
  unfolding refresh
  refresh-IsCurrent s v =
      wrapped-rule (λ out. IsCurrent out.1) (bytes "listing services")
        (through (recorded m) (recorded m).source.list) (observe (recorded m)) s
        (λ services _. observe-IsCurrent services _ (record { whole = v.whole; shown = v.shown }))
        (λ e _. record { whole = v.whole; shown = v.shown })
