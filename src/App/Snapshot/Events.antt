-- ===== src/App/Snapshot/Events.antt =====
-- `DiffSnapshots`: which events there are for each container.
use mathlib.Core.List.{append-nil}
use compose_monitor.Base.{
  ◌≡◌, refl, sym, ◌∙◌, subst, ap₂, ◌⊎◌, inl, inr, ◌≢◌, Bool, true, List, [], ◌∷◌, ◌++◌, Option,
  none, some, arith, Text, All, ◌==◌, list_eq, nat_eq, list_beq_iff, keep, if◌then◌else◌,
  Bool-cases,
}
use compose_monitor.Base.Dict.{lookup}
use compose_monitor.Base.Sort.Keep.{keep-append, keep-sort_none, keep-sort_alone}
use compose_monitor.Domain.{Service, Event, Action}
use compose_monitor.App.Snapshot.{
  Snapshot, arrival, arrivals, departure, departures, diff_snapshots, compare_events, is_changed,
  is_notable,
}
use compose_monitor.App.Snapshot.Index.{IsSnapshot}

-- The events of a list that name a container.
unfoldable pub events_of : Text → List Event → List Event
unfolding keep
events_of id = keep (λ e. e.service.container_id == id)

-- What there is to say of a container, by what was known of it and what is known now.
abbrev pub expected : Option Service → Option Service → List Event
expected none none = []
expected none (some s) = record { action = Action.added; service = s; notable = true } ∷ []
expected (some b) none = record { action = Action.removed; service = b; notable = true } ∷ []
expected (some b) (some s) =
    if is_changed b s
    then record { action = Action.updated; service = s; notable = is_notable b s } ∷ []
    else []

-- At most one event is expected for a container.
expected-cases :
    (o n : Option Service) → (expected o n ≡ []) ⊎ ((e : Event) × (expected o n ≡ e ∷ []))
expected-cases none none = inl refl
expected-cases none (some s) = inr (_, refl)
expected-cases (some b) none = inr (_, refl)
expected-cases (some b) (some s) = elim (Bool-cases (is_changed b s)) [
  | inl yes_changed ↦
      inr
        (record { action = Action.updated; service = s; notable = is_notable b s }, rw yes_changed)
  | inr same ↦ inl (rw same)
]

abbrev arriving : Option Service → Option Service → List Event
arriving o none = []
arriving o (some s) = arrival o s

abbrev departing : Option Service → Option Service → List Event
departing none n = []
departing (some b) n = departure n b

module _ (id : Text) where
  arrival-here :
      (o : Option Service) (s : Service)
      → s.container_id ≡ id
      → events_of id (arrival o s) ≡ arrival o s
  unfolding events_of arrival
  arrival-here none s h = rw ((list_beq_iff s.container_id id).1 h)
  arrival-here (some b) s h = ground (arith, list_beq_iff s.container_id id)

  arrival-elsewhere :
      (o : Option Service) (s : Service) → s.container_id ≢ id → events_of id (arrival o s) ≡ []
  unfolding events_of arrival
  arrival-elsewhere none s h = ground (arith, list_beq_iff s.container_id id)
  arrival-elsewhere (some b) s h = ground (arith, list_beq_iff s.container_id id)

  events_of-append :
      (xs ys : List Event) → events_of id (xs ++ ys) ≡ events_of id xs ++ events_of id ys
  unfolding events_of
  events_of-append xs ys = keep-append (λ e. e.service.container_id == id) xs ys

  events_of-arrivals_absent :
      (previous next : Snapshot)
      → All (λ entry. entry.1.container_id ≡ entry.0) next
      → lookup id next ≡ none
      → events_of id (arrivals previous next) ≡ []
  unfolding arrivals lookup
  events_of-arrivals_absent previous [] k h = unfold events_of in refl
  events_of-arrivals_absent previous ((j, s) ∷ next) (k, ks) h = ground (
    arith,
    list_beq_iff j id,
    events_of-append (arrival (lookup j previous) s) (arrivals previous next),
    arrival-elsewhere (lookup j previous) s,
    events_of-arrivals_absent previous next ks,
  )

  events_of-arrivals :
      (previous next : Snapshot)
      → IsSnapshot next
      → events_of id (arrivals previous next) ≡ arriving (lookup id previous) (lookup id next)
  unfolding arrivals lookup
  events_of-arrivals previous [] v = unfold events_of in refl
  events_of-arrivals previous ((j, s) ∷ next) v = elim (Bool-cases (j == id)) [
    | inl here ↦
        let same : j ≡ id = (list_beq_iff j id).0 here in
        events_of-append (arrival (lookup j previous) s) (arrivals previous next)
        ∙ ap₂ ◌++◌ (arrival-here (lookup j previous) s (v.keyed.0 ∙ same)) (
            events_of-arrivals_absent previous next v.keyed.1
              (subst (λ i. lookup i next ≡ none) same v.distinct.0))
        ∙ append-nil _
        ∙ rw (here, same) refl
    | inr there ↦ rw there (
        events_of-append (arrival (lookup j previous) s) (arrivals previous next)
        ∙ ap₂ ◌++◌
            (arrival-elsewhere (lookup j previous) s (ground (arith, list_beq_iff j id, v.keyed.0)))
            (events_of-arrivals previous next
              (record { distinct = v.distinct.1; keyed = v.keyed.1 })))
  ]

  departure-here :
      (n : Option Service) (b : Service)
      → b.container_id ≡ id
      → events_of id (departure n b) ≡ departure n b
  unfolding events_of departure
  departure-here none b h = rw ((list_beq_iff b.container_id id).1 h)
  departure-here (some s) b h = refl

  departure-elsewhere :
      (n : Option Service) (b : Service) → b.container_id ≢ id → events_of id (departure n b) ≡ []
  unfolding events_of departure
  departure-elsewhere none b h = ground (arith, list_beq_iff b.container_id id)
  departure-elsewhere (some s) b h = refl

  events_of-departures_absent :
      (previous next : Snapshot)
      → All (λ entry. entry.1.container_id ≡ entry.0) previous
      → lookup id previous ≡ none
      → events_of id (departures previous next) ≡ []
  unfolding departures lookup
  events_of-departures_absent [] next k h = unfold events_of in refl
  events_of-departures_absent ((j, b) ∷ previous) next (k, ks) h = ground (
    arith,
    list_beq_iff j id,
    events_of-append (departure (lookup j next) b) (departures previous next),
    departure-elsewhere (lookup j next) b,
    events_of-departures_absent previous next ks,
  )

  events_of-departures :
      (previous next : Snapshot)
      → IsSnapshot previous
      → events_of id (departures previous next) ≡ departing (lookup id previous) (lookup id next)
  unfolding departures lookup
  events_of-departures [] next v = unfold events_of in refl
  events_of-departures ((j, b) ∷ previous) next v = elim (Bool-cases (j == id)) [
    | inl here ↦
        let same : j ≡ id = (list_beq_iff j id).0 here in
        events_of-append (departure (lookup j next) b) (departures previous next)
        ∙ ap₂ ◌++◌ (departure-here (lookup j next) b (v.keyed.0 ∙ same)) (
            events_of-departures_absent previous next v.keyed.1
              (subst (λ i. lookup i previous ≡ none) same v.distinct.0))
        ∙ append-nil _
        ∙ rw (here, same) refl
    | inr there ↦ rw there (
        events_of-append (departure (lookup j next) b) (departures previous next)
        ∙ ap₂ ◌++◌
            (departure-elsewhere (lookup j next) b (ground (arith, list_beq_iff j id, v.keyed.0)))
            (events_of-departures previous next
              (record { distinct = v.distinct.1; keyed = v.keyed.1 })))
  ]

joined-eq-expected : (o n : Option Service) → arriving o n ++ departing o n ≡ expected o n
unfolding arrival departure
joined-eq-expected none none = refl
joined-eq-expected none (some s) = refl
joined-eq-expected (some b) none = refl
joined-eq-expected (some b) (some s) = append-nil _

-- Between snapshots that hold each container once, `DiffSnapshots` gives each container exactly
-- the events that its last and its present state call for: one when it is new, gone or changed,
-- and none otherwise.
pub events_of-diff_snapshots :
    (id : Text) (previous next : Snapshot)
    → IsSnapshot previous
    → IsSnapshot next
    → events_of id (diff_snapshots previous next) ≡ expected (lookup id previous) (lookup id next)
unfolding diff_snapshots
events_of-diff_snapshots id previous next v w = elim (expected-cases o n) [
  | inl quiet ↦
      unfold events_of in keep-sort_none compare_events names _ (unsorted ∙ quiet) ∙ sym quiet
  | inr (e, one) ↦
      unfold events_of in keep-sort_alone compare_events names _ e (unsorted ∙ one) ∙ sym one
]
  where
    o : Option Service
    o = lookup id previous

    n : Option Service
    n = lookup id next

    names : Event → Bool
    names e = e.service.container_id == id

    unsorted : events_of id (arrivals previous next ++ departures previous next) ≡ expected o n
    unsorted =
        events_of-append id (arrivals previous next) (departures previous next)
        ∙ ap₂ ◌++◌ (events_of-arrivals id previous next w) (events_of-departures id previous next v)
        ∙ joined-eq-expected o n
