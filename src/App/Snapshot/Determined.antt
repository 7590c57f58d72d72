-- ===== src/App/Snapshot/Determined.antt =====
-- `DiffSnapshots` ranges over Go maps, whose order of iteration is open.
use compose_monitor.Base.{
  ◌≡◌, refl, sym, ◌∙◌, subst, ap, ap₂, ◌≢◌, inl, inr, Bool, List, [], ◌∷◌, ◌++◌, arith, Text, All,
  ◌==◌, list_eq, nat_eq, keep, Bool-cases, beq_refl, Ordering,
}
use compose_monitor.Base.Dict.{lookup}
use compose_monitor.Base.Sort.{IsSorted, sort-IsSorted}
use compose_monitor.Domain.{Event}
use compose_monitor.App.Snapshot.{Snapshot, arrivals, departures, diff_snapshots, compare_events}
use compose_monitor.App.Snapshot.Order.{compare_events-IsOrder, compare_events-eq}
use compose_monitor.App.Snapshot.Index.{IsSnapshot}
use compose_monitor.App.Snapshot.Events.{events_of, expected, events_of-diff_snapshots}

keep-head {ℓ κ} :
    {A : Type ℓ} (P : A → Type κ) (p : A → Bool) (xs : List A) (a : A) (rest : List A)
    → keep p xs ≡ a ∷ rest
    → All P xs
    → P a
unfolding keep
keep-head P p [] a rest e _ = cc
keep-head P p (x ∷ xs) a rest e (h, hs) = elim (Bool-cases (p x)) [
  | inl hit ↦ let same : x ≡ a = ground arith in subst P same h
  | inr miss ↦ keep-head P p xs a rest (ground arith) hs
]

abbrev id_of : Event → Text
id_of e = e.service.container_id

module _ (x : Event) (xs : List Event) where
  events_of_self : events_of (id_of x) (x ∷ xs) ≡ x ∷ events_of (id_of x) xs
  unfolding events_of
  events_of_self = rw (beq_refl (id_of x))

  compare_events-head :
      (y : Event) (ys : List Event)
      → IsSorted compare_events (y ∷ ys)
      → events_of (id_of x) (y ∷ ys) ≡ x ∷ events_of (id_of x) xs
      → compare_events y x ≢ Ordering.gt
  unfolding events_of
  compare_events-head y ys (h, hs) e =
      keep-head (λ z. compare_events y z ≢ Ordering.gt) (λ z. id_of z == id_of x) (y ∷ ys) x _ e
        (ground (arith, compare_events-IsOrder.flip y y), h)

  events_of-tail :
      (ys : List Event) (id : Text)
      → events_of id (x ∷ xs) ≡ events_of id (x ∷ ys)
      → events_of id xs ≡ events_of id ys
  unfolding events_of
  events_of-tail ys id e = ground arith

-- Two ordered lists with the same events for each container are one list.
sorted-eq_of_events_of :
    (es fs : List Event)
    → IsSorted compare_events es
    → IsSorted compare_events fs
    → ((id : Text) → events_of id es ≡ events_of id fs)
    → es ≡ fs
sorted-eq_of_events_of [] [] h k same = refl
sorted-eq_of_events_of [] (y ∷ ys) h k same =
    let e = same (id_of y) ∙ events_of_self y ys in unfold events_of in cc
sorted-eq_of_events_of (x ∷ xs) [] h k same =
    let e = sym (same (id_of x)) ∙ events_of_self x xs in unfold events_of in cc
sorted-eq_of_events_of (x ∷ xs) (y ∷ ys) h k same =
    let y_le = compare_events-head x xs y ys k (sym (same (id_of x)) ∙ events_of_self x xs) in
    let x_le = compare_events-head y ys x xs h (same (id_of y) ∙ events_of_self y ys) in
    let tie : compare_events x y ≡ Ordering.eq =
      ground (arith, compare_events-IsOrder.flip x y, x_le, y_le) in
    let one_id : id_of x ≡ id_of y = compare_events-eq x y tie in
    let one : x ≡ y = cc (same (id_of x), events_of_self x xs, events_of_self y ys, one_id) in
    let rest = λ (id : Text).
      events_of-tail x xs ys id (same id ∙ ap (λ z. events_of id (z ∷ ys)) (sym one)) in
    cc (one, sorted-eq_of_events_of xs ys h.1 k.1 rest)

diff_snapshots-IsSorted :
    (previous next : Snapshot) → IsSorted compare_events (diff_snapshots previous next)
unfolding diff_snapshots
diff_snapshots-IsSorted previous next =
    sort-IsSorted compare_events compare_events-IsOrder
      (arrivals previous next ++ departures previous next)

-- Snapshots that hold the same services, in whatever order they are gone through, give the same
-- events in the same order.
pub diff_snapshots_determined :
    (previous previous' next next' : Snapshot)
    → IsSnapshot previous
    → IsSnapshot previous'
    → IsSnapshot next
    → IsSnapshot next'
    → ((id : Text) → lookup id previous ≡ lookup id previous')
    → ((id : Text) → lookup id next ≡ lookup id next')
    → diff_snapshots previous next ≡ diff_snapshots previous' next'
diff_snapshots_determined previous previous' next next' v v' w w' p n =
    sorted-eq_of_events_of _ _ (diff_snapshots-IsSorted previous next)
      (diff_snapshots-IsSorted previous' next')
      λ id.
        events_of-diff_snapshots id previous next v w
        ∙ ap₂ expected (p id) (n id)
        ∙ sym (events_of-diff_snapshots id previous' next' v' w')
