-- ===== src/Realtime/Hub/Runs.antt =====
-- `Close`, and every history of the hub.
use compose_monitor.Base.{
  ℕ, ◌≤◌, ◌≡◌, refl, ap, true, List, [], ◌∷◌, Option, some, arith, nat_eq, nat_beq_iff, length,
  Bool-cases, inl, inr,
}
use compose_monitor.Domain.{Event}
use compose_monitor.Realtime.Hub.{
  Hub, publish, subscribe, unsubscribe, close, receive, rest, ◌>>=◌, new_hub,
}
use compose_monitor.Realtime.Hub.Delivery.{has_address}
use compose_monitor.Realtime.Hub.Closing.{closed_down, close_all-closed_down}
use compose_monitor.Realtime.Hub.Invariant.{IsSound}
use compose_monitor.Realtime.Hub.Invariant.{new_hub-IsSound, publish_delivers, IsLive-pointwise}
use compose_monitor.Realtime.Hub.Subscriptions.{subscribe-IsSound}
use compose_monitor.Realtime.Hub.Release.{unsubscribe_once}

-- `Close` ends every subscription: its channel is closed with what it still holds, and no other
-- channel changes.
pub close_ends_all :
    (h : Hub)
    → IsSound h
    → (h' : Hub) × (close h ≡ some h')
      × IsSound h'
      × (h'.closed ≡ true)
      × (h'.subs ≡ [])
      × ((a : ℕ) → h'.store a ≡ closed_down h.subs h.store a)
unfolding close
close_ends_all h v = elim (Bool-cases h.closed) [
  | inl over ↦ (
    h,
    rw (over, close) refl,
    v,
    over,
    v.ended over,
    λ a. rw (v.ended over) (unfold has_address in refl),
  )
  | inr running ↦
      let (store, done, each) = close_all-closed_down h.subs h.store v.live v.apart in
      (
        record h { closed = true; subs = []; store = store },
        rw (running, done, close, ◌>>=◌) refl,
        record {
          live = tt;
          apart = tt;
          below = tt;
          keyed = tt;
          bounded = λ b. ground (arith, each b, v.bounded b);
          ended = λ e. refl;
        },
        refl,
        refl,
        each,
      )
]

pub receive-IsSound : (a : ℕ) (h : Hub) → IsSound h → IsSound (receive a h).0
unfolding receive
receive-IsSound a h v = record {
  live =
      IsLive-pointwise h.subs h.store (receive a h).0.store
        (λ b. ground (arith, ap (λ c. (h.store c).is_closed) {x = a} {y = b}, nat_beq_iff a b))
        v.live;
  apart = v.apart;
  below = v.below;
  keyed = v.keyed;
  bounded = λ b. ground (arith, v.bounded b, v.bounded a, length-rest (h.store a).buffer);
  ended = v.ended;
}
  where
    length-rest : (es : List Event) → length (rest es) ≤ length es
    length-rest [] = omega arith
    length-rest (e ∷ es) = omega arith

-- What can happen to a hub, in any order: its own methods, the functions that `Subscribe`
-- returned, and receives from the channels.
pub data Operation : Type 0 where
  publishes : Event → Operation
  subscribes closes : Operation
  unsubscribes : Option ℕ → Operation
  receives : ℕ → Operation

unfoldable pub operate : Operation → Hub → Option Hub
operate (publishes e) h = publish e h
operate subscribes h = some (subscribe h).0
operate closes h = close h
operate (unsubscribes id) h = unsubscribe id h
operate (receives a) h = some (receive a h).0

unfoldable pub history : List Operation → Hub → Option Hub
unfolding operate
history [] h = some h
history (o ∷ os) h = operate o h >>= history os

pub operate-IsSound :
    (o : Operation) (h : Hub) → IsSound h → (h' : Hub) × (operate o h ≡ some h') × IsSound h'
unfolding operate
operate-IsSound (publishes e) h v = let (h', e', v', _, _) = publish_delivers e h v in (h', e', v')
operate-IsSound subscribes h v = ((subscribe h).0, refl, subscribe-IsSound h v)
operate-IsSound closes h v = let (h', e, v', _, _, _) = close_ends_all h v in (h', e, v')
operate-IsSound (unsubscribes id) h v = let (h', e, v', _) = unsubscribe_once id h v in (h', e, v')
operate-IsSound (receives a) h v = ((receive a h).0, refl, receive-IsSound a h v)

history-IsSound :
    (os : List Operation) (h : Hub) → IsSound h → (h' : Hub) × (history os h ≡ some h') × IsSound h'
unfolding history
history-IsSound [] h v = (h, refl, v)
history-IsSound (o ∷ os) h v =
    let (h', e, v') = operate-IsSound o h v in
    let (h'', e', v'') = history-IsSound os h' v' in (h'', rw (e, ◌>>=◌) e', v'')

-- No history of a new hub panics: nothing is sent on a closed channel and no channel is closed
-- twice; and the invariant holds after it.
pub history_never_panics :
    (os : List Operation) → (h : Hub) × (history os new_hub ≡ some h) × IsSound h
history_never_panics os = history-IsSound os new_hub new_hub-IsSound
