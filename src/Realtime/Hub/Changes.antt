-- ===== src/Realtime/Hub/Changes.antt =====
-- What an operation leaves of a subscription that it does not give up.
use compose_monitor.Base.{
  ℕ, ◌<◌, ◌≤◌, ◌≡◌, refl, ◌∙◌, Bool, true, false, [], ◌∷◌, none, some, arith, nat_eq, ◌==◌,
  nat_beq_iff, Bool-cases, Option-cases, inl, inr,
}
use compose_monitor.Base.Dict.{lookup, erase, lookup-insert, lookup-erase}
use compose_monitor.Domain.{Event}
use compose_monitor.Realtime.Hub.{
  Hub, publish, subscribe, unsubscribe, close, receive, is_released, update, ◌>>=◌,
}
use compose_monitor.Realtime.Hub.Delivery.{offer_all-delivered}
use compose_monitor.Realtime.Hub.Closing.{close_all-closed_down, close_channel-shut, shut}
use compose_monitor.Realtime.Hub.Release.{live-lookup}
use compose_monitor.Realtime.Hub.Invariant.{IsSound}
use compose_monitor.Realtime.Hub.Runs.{
  Operation, publishes, subscribes, closes, unsubscribes, receives, operate,
}

abbrev pub gives_up : ℕ → Operation → Bool
gives_up id (unsubscribes (some j)) = j == id
gives_up id _ = false

-- The hub after an operation, as far as one subscription is concerned: it is given up where it was,
-- and a number that was handed out is not registered again.
pub record IsLater (id : ℕ) (h h' : Hub) : Type 0 where
  pub numbers : h.next_id ≤ h'.next_id
  pub same : is_released id h'.released ≡ is_released id h.released
  pub gone : id < h.next_id → lookup id h.subs ≡ none → lookup id h'.subs ≡ none

abbrev Later : ℕ → Operation → Hub → Type 0
Later id o h = (h' : Hub) × (operate o h ≡ some h') × IsLater id h h'

unchanged : (id : ℕ) (h : Hub) → IsLater id h h
unchanged id h = record { numbers = omega arith; same = refl; gone = λ i e. e }

publish-IsLater : (id : ℕ) (e : Event) (h : Hub) → IsSound h → Later id (publishes e) h
unfolding operate publish
publish-IsLater id e h v = elim (Bool-cases h.closed) [
  | inl over ↦ (h, rw (over, publish) refl, unchanged id h)
  | inr running ↦
      let (store, sent, each) = offer_all-delivered e h.subs h.store v.live v.apart in
      (
        record h { store = store },
        rw (running, publish, sent, ◌>>=◌) refl,
        record { numbers = omega arith; same = refl; gone = λ i e. e },
      )
]

subscribe-IsLater : (id : ℕ) (h : Hub) → Later id subscribes h
unfolding operate subscribe
subscribe-IsLater id h = (
  (subscribe h).0,
  refl,
  elim (Bool-cases h.closed) [
    | inl over ↦
        rw (over, subscribe) (record { numbers = omega arith; same = refl; gone = λ i e. e })
    | inr running ↦
        rw (running, subscribe)
          (record {
            numbers = omega arith;
            same = refl;
            gone = λ i e.
                ground (arith, lookup-insert h.next_id id h.fresh h.subs, nat_beq_iff h.next_id id);
          })
  ],
)

close-IsLater : (id : ℕ) (h : Hub) → IsSound h → Later id closes h
unfolding operate close
close-IsLater id h v = elim (Bool-cases h.closed) [
  | inl over ↦ (h, rw (over, close) refl, unchanged id h)
  | inr running ↦
      let (store, done, each) = close_all-closed_down h.subs h.store v.live v.apart in
      (
        record h { closed = true; subs = []; store = store },
        rw (running, done, close, ◌>>=◌) refl,
        record { numbers = omega arith; same = refl; gone = λ i e. unfold lookup in refl },
      )
]

unsubscribe-IsLater :
    (id j : ℕ) (h : Hub) → IsSound h → (j == id) ≡ false → Later id (unsubscribes (some j)) h
unfolding operate unsubscribe is_released
unsubscribe-IsLater id j h v other = elim (Bool-cases (is_released j h.released)) [
  | inl done ↦ (h, rw (done, unsubscribe) refl, unchanged id h)
  | inr first ↦ elim (Option-cases (lookup j h.subs)) [
    | inl unknown ↦ (
      record h { released = j ∷ h.released },
      rw (first, unknown, unsubscribe) refl,
      record { numbers = omega arith; same = ground arith; gone = λ i e. e },
    )
    | inr (a, own) ↦ (
      record h {
        subs = erase j h.subs;
        released = j ∷ h.released;
        store = update h.store a (shut (h.store a));
      },
      rw
          (
            first,
            own,
            close_channel-shut a h.store (live-lookup j a h.subs h.store own v.live),
            unsubscribe,
            ◌>>=◌,
          )
          refl,
      record {
        numbers = omega arith;
        same = ground arith;
        gone = λ i e. lookup-erase j id h.subs v.keyed ∙ rw other e;
      },
    )
  ]
]

-- Whatever happens to a hub that is in order, but for the call of the function that gives the
-- subscription up.
pub operate-IsLater :
    (id : ℕ) (o : Operation) (h : Hub) → IsSound h → gives_up id o ≡ false → Later id o h
unfolding operate receive unsubscribe
operate-IsLater id (publishes e) h v other = publish-IsLater id e h v
operate-IsLater id subscribes h v other = subscribe-IsLater id h
operate-IsLater id closes h v other = close-IsLater id h v
operate-IsLater id (unsubscribes none) h v other = (h, refl, unchanged id h)
operate-IsLater id (unsubscribes (some j)) h v other = unsubscribe-IsLater id j h v other
operate-IsLater id (receives a) h v other =
    ((receive a h).0, refl, record { numbers = omega arith; same = refl; gone = λ i e. e })
