-- ===== src/Realtime/Hub/Invariant.antt =====
-- The invariant of the hub, and `Publish`.
use compose_monitor.Base.{
  ℕ, ◌≤◌, ◌<◌, ◌≡◌, refl, ◌∙◌, true, List, [], ◌∷◌, some, arith, nat_eq, length, length-append, All,
  Bool-cases, inl, inr,
}
use compose_monitor.Base.Dict.{IsMap}
use compose_monitor.Domain.{Event}
use compose_monitor.Realtime.Hub.{Channel, Store, Hub, subscriber_buffer, publish, ◌>>=◌, new_hub}
use compose_monitor.Realtime.Hub.Delivery.{
  has_address, accept, IsLive, IsApart, delivered, offer_all-delivered,
}

-- The channels of subscriptions are open and distinct, no buffer holds more than its capacity, and
-- a closed hub has no subscription.
pub record IsSound (h : Hub) : Type 0 where
  pub live : IsLive h.store h.subs
  pub apart : IsApart h.subs
  pub below : All (λ s. (s.0 < h.next_id) × (s.1 < h.fresh)) h.subs
  pub keyed : IsMap h.subs
  pub bounded : (a : ℕ) → length (h.store a).buffer ≤ subscriber_buffer
  pub ended : h.closed ≡ true → h.subs ≡ []

pub new_hub-IsSound : IsSound new_hub
unfolding new_hub
new_hub-IsSound = record {
  live = tt;
  apart = tt;
  below = tt;
  keyed = tt;
  bounded = λ a. omega arith;
  ended = λ e. refl;
}

pub IsLive-pointwise :
    (subs : List (ℕ × ℕ)) (store store' : Store)
    → ((b : ℕ) → (store' b).is_closed ≡ (store b).is_closed)
    → IsLive store subs
    → IsLive store' subs
IsLive-pointwise [] store store' same live = tt
IsLive-pointwise ((id, a) ∷ subs) store store' same (open_a, live) =
    (same a ∙ open_a, IsLive-pointwise subs store store' same live)

length-accept :
    (e : Event) (c : Channel)
    → length c.buffer ≤ subscriber_buffer
    → length (accept e c).buffer ≤ subscriber_buffer
length-accept e c h = ground (arith, length-append c.buffer (e ∷ []))

-- `Publish` gives the event to every subscription that has room for it, and changes nothing else:
-- neither a channel that is full, nor one that no subscription has, nor any other field of the hub.
pub publish_delivers :
    (e : Event) (h : Hub)
    → IsSound h
    → (h' : Hub) × (publish e h ≡ some h')
      × IsSound h'
      × (h' ≡ record h { store = h'.store })
      × ((a : ℕ) → h'.store a ≡ delivered e h.subs h.store a)
unfolding publish
publish_delivers e h v = elim (Bool-cases h.closed) [
  | inl over ↦
      (h, rw (over, publish) refl, v, refl, λ a. rw (v.ended over) (unfold has_address in refl))
  | inr running ↦
      let (store, sent, each) = offer_all-delivered e h.subs h.store v.live v.apart in
      (
        record h { store = store },
        rw (running, sent, publish, ◌>>=◌) refl,
        record {
          live = IsLive-pointwise h.subs h.store store (λ b. ground (arith, each b)) v.live;
          apart = v.apart;
          below = v.below;
          keyed = v.keyed;
          bounded = λ b. ground (arith, each b, v.bounded b, length-accept e (h.store b));
          ended = v.ended;
        },
        refl,
        each,
      )
]
