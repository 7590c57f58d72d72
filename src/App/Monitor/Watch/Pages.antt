-- ===== src/App/Monitor/Watch/Pages.antt =====
-- The pages that follow the events of the watch loop.
use compose_monitor.Base.{◌≡◌, refl, sym, subst, arith, List, []}
use compose_monitor.App.Monitor.{MonitorService, MonitorState}
use compose_monitor.App.Monitor.Published.{Recorded, recorded, IsCurrent, refresh-IsCurrent}
use compose_monitor.App.Snapshot.Replay.{replay}
use compose_monitor.App.Monitor.Watch.{
  WatchState, Turn, change, closed, fired, ticked, begin, turn, Watches, begun, turned,
}

turn-change-monitor :
    {W : Type 0} (m : MonitorService W) (w : WatchState W) → (turn m change w).monitor ≡ w.monitor
unfolding turn
turn-change-monitor m w = ground arith

module _ {W : Type 0} (m : MonitorService W) where
  Watches-IsCurrent :
      {s : MonitorState (Recorded W)} {ts : List Turn} {w : WatchState (Recorded W)}
      → IsCurrent s
      → Watches (recorded m) s ts w
      → IsCurrent w.monitor
  unfolding begin turn
  Watches-IsCurrent v begun = refresh-IsCurrent m _ v
  Watches-IsCurrent v (turned {w} change r h) =
      subst IsCurrent (sym (turn-change-monitor (recorded m) w)) (Watches-IsCurrent v r)
  Watches-IsCurrent v (turned closed r h) = Watches-IsCurrent v r
  Watches-IsCurrent v (turned fired r h) = refresh-IsCurrent m _ (Watches-IsCurrent v r)
  Watches-IsCurrent v (turned ticked r h) = refresh-IsCurrent m _ (Watches-IsCurrent v r)

  -- From a start with nothing seen and nothing published, whatever the source answers and in
  -- whatever order the turns come: the last observation holds each container once, and a page that
  -- applied every event published so far has exactly its containers, each with its present name,
  -- number, container name, image, state, status, health and ports.
  pub watch_keeps_pages :
      (world : W) (ts : List Turn) (w : WatchState (Recorded W))
      → Watches (recorded m) (record { snapshot = []; world = (world, []) }) ts w
      → IsCurrent w.monitor
  unfolding replay
  watch_keeps_pages world ts w r =
      Watches-IsCurrent
        (record { whole = record { distinct = tt; keyed = tt }; shown = λ id. refl }) r
