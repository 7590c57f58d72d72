-- ===== src/Tests/Snapshot.antt =====
-- The theorems on snapshots, at two observations of one project.
use compose_monitor.Base.{
  ◌≡◌, refl, [], ◌∷◌, ◌++◌, Text, bytes, list_eq, nat_eq, arith, list_beq, list_beq_iff,
}
use compose_monitor.Base.Dict.{lookup}
use compose_monitor.App.Snapshot.{Snapshot, diff_snapshots, index_services}
use compose_monitor.App.Snapshot.Index.{IsSnapshot, index_services-IsSnapshot}
use compose_monitor.App.Snapshot.Determined.{diff_snapshots_determined}
use compose_monitor.App.Snapshot.Overlap.{history, overlap_is_harmless}
use compose_monitor.App.Snapshot.Replay.{replay, row_of, replay-diff_snapshots}
use compose_monitor.Tests.{web, stopped_web, database, worker}

abbrev before : Snapshot
before = (bytes "c1", web) ∷ (bytes "c2", database) ∷ []

abbrev after : Snapshot
after = (bytes "c3", worker) ∷ (bytes "c1", stopped_web) ∷ []

abbrev after' : Snapshot
after' = (bytes "c1", stopped_web) ∷ (bytes "c3", worker) ∷ []

before-IsSnapshot : IsSnapshot before
unfolding lookup list_beq
before-IsSnapshot = record { distinct = (refl, (refl, tt)); keyed = (refl, (refl, tt)) }

after-IsSnapshot : IsSnapshot after
unfolding lookup list_beq
after-IsSnapshot = record { distinct = (refl, (refl, tt)); keyed = (refl, (refl, tt)) }

after'-IsSnapshot : IsSnapshot after'
unfolding lookup list_beq
after'-IsSnapshot = record { distinct = (refl, (refl, tt)); keyed = (refl, (refl, tt)) }

replay-diff_snapshots_example :
    row_of (bytes "c2") (replay (diff_snapshots before after) before) ≡ row_of (bytes "c2") after
replay-diff_snapshots_example =
    replay-diff_snapshots before before after before-IsSnapshot.distinct before-IsSnapshot
      after-IsSnapshot (λ id. refl) (bytes "c2")

orders_agree : (id : Text) → lookup id after ≡ lookup id after'
unfolding lookup
orders_agree id = ground (arith, list_beq_iff (bytes "c1") id, list_beq_iff (bytes "c3") id)

diff_snapshots_determined_example : diff_snapshots before after ≡ diff_snapshots before after'
diff_snapshots_determined_example =
    diff_snapshots_determined before before after after' before-IsSnapshot before-IsSnapshot
      after-IsSnapshot after'-IsSnapshot (λ id. refl) orders_agree

abbrev begun_with : Snapshot
begun_with = index_services (web ∷ [])

abbrev seen_next : Snapshot
seen_next = index_services (stopped_web ∷ database ∷ [])

abbrev seen_last : Snapshot
seen_last = index_services (database ∷ [])

overlap_is_harmless_example :
    row_of
      (bytes "c1")
      (replay (history begun_with (seen_next ∷ []) ++ history seen_next (seen_last ∷ [])) seen_next)
    ≡ row_of (bytes "c1") seen_last
overlap_is_harmless_example =
    overlap_is_harmless begun_with seen_next (seen_next ∷ []) (seen_last ∷ [])
      (index_services-IsSnapshot (web ∷ []))
      (index_services-IsSnapshot (stopped_web ∷ database ∷ [])).distinct
      (index_services-IsSnapshot (stopped_web ∷ database ∷ []), tt)
      (index_services-IsSnapshot (database ∷ []), tt) (λ id. refl) (bytes "c1")
