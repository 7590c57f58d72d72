-- ===== src/App/Snapshot/Overlap.antt =====
-- A page that lists the services after it subscribed: it receives events of changes that its listing
-- may already show. `stream` of internal/adapters/realtime/handler.go calls that harmless.
use mathlib.Core.Option
use compose_monitor.Base.{
  ◌≡◌, refl, ◌∙◌, ap, sym, List, [], ◌∷◌, ◌++◌, Option, All, Text, list_eq, nat_eq,
}
use compose_monitor.Base.Dict.{lookup, IsMap}
use compose_monitor.Domain.{Service, Event}
use compose_monitor.App.Snapshot.{Snapshot, diff_snapshots}
use compose_monitor.App.Snapshot.Shown.{row}
use compose_monitor.App.Snapshot.Index.{IsSnapshot}
use compose_monitor.App.Snapshot.Events.{events_of}
use compose_monitor.App.Snapshot.Replay.{
  replay, effects, lookup-replay, replay-append, replay-IsMap, row_of, replay-diff_snapshots,
}

-- The observations that follow one another: the last of them, and all events that are published.
abbrev pub latest : Snapshot → List Snapshot → Snapshot
latest m [] = m
latest m (n ∷ ns) = latest n ns

abbrev pub history : Snapshot → List Snapshot → List Event
history m [] = []
history m (n ∷ ns) = diff_snapshots m n ++ history n ns

-- Events lead every entry to the same row, once they have led one there.
effects_again :
    (es : List Event) (before after : Option Service)
    → Option.map row (effects es before) ≡ Option.map row after
    → Option.map row (effects es after) ≡ Option.map row after
effects_again [] before after h = refl
effects_again (e ∷ es) before after h = h

replay_again :
    (es : List Event) (before after : Snapshot)
    → IsMap before
    → IsMap after
    → ((id : Text) → row_of id (replay es before) ≡ row_of id after)
    → (id : Text) → row_of id (replay es after) ≡ row_of id after
replay_again es before after v w reached id =
    ap (Option.map row) (lookup-replay id es after w)
    ∙ effects_again (events_of id es) (lookup id before) (lookup id after)
        (ap (Option.map row) (sym (lookup-replay id es before v)) ∙ reached id)

latest-IsSnapshot :
    (m : Snapshot) (ns : List Snapshot)
    → IsSnapshot m
    → All IsSnapshot ns
    → IsSnapshot (latest m ns)
latest-IsSnapshot m [] v vs = v
latest-IsSnapshot m (n ∷ ns) v (w, ws) = latest-IsSnapshot n ns w ws

replay-history :
    (view m : Snapshot) (ns : List Snapshot)
    → IsMap view
    → IsSnapshot m
    → All IsSnapshot ns
    → ((id : Text) → row_of id view ≡ row_of id m)
    → (id : Text) → row_of id (replay (history m ns) view) ≡ row_of id (latest m ns)
unfolding replay
replay-history view m [] h v vs agree id = agree id
replay-history view m (n ∷ ns) h v (w, ws) agree id =
    ap (row_of id) (replay-append (diff_snapshots m n) (history n ns) view)
    ∙ replay-history (replay (diff_snapshots m n) view) n ns
        (replay-IsMap (diff_snapshots m n) view h) w ws (replay-diff_snapshots view m n h v w agree)
        id

-- Every observation holds each container once, under its ID. A page subscribes, and reads a listing
-- that agrees with an observation made since. It then receives the events of the changes up to that
-- observation, which its listing shows already, and those that follow. It ends with the rows of the
-- last observation: no row is lost, none is left over, and none is stale, however many changes were
-- observed before the listing and after it.
pub overlap_is_harmless :
    (first listed : Snapshot) (before after : List Snapshot)
    → IsSnapshot first
    → IsMap listed
    → All IsSnapshot before
    → All IsSnapshot after
    → ((id : Text) → row_of id listed ≡ row_of id (latest first before))
    → (id : Text)
    → row_of id (replay (history first before ++ history (latest first before) after) listed)
      ≡ row_of id (latest (latest first before) after)
overlap_is_harmless first listed before after v h vs ws agree id =
    let seen = history first before in
    ap (row_of id) (replay-append seen (history (latest first before) after) listed)
    ∙ replay-history (replay seen listed) (latest first before) after (replay-IsMap seen listed h)
        (latest-IsSnapshot first before v vs) ws
        (λ k.
          replay_again seen first listed v.distinct h
            (λ j. replay-history first first before v.distinct v vs (λ i. refl) j ∙ sym (agree j)) k
          ∙ agree k)
        id
