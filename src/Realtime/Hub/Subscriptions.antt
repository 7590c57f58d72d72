-- ===== src/Realtime/Hub/Subscriptions.antt =====
-- `Subscribe` and the hub's invariant.
use compose_monitor.Base.{
  ℕ, suc, ◌<◌, ◌≡◌, refl, false, List, [], ◌∷◌, ◌++◌, none, arith, ◌==◌, nat_eq, All, All-append,
  Bool-cases, inl, inr,
}
use compose_monitor.Base.Dict.{lookup, insert, insert-IsMap}
use compose_monitor.Realtime.Hub.{Store, Hub, update, open_channel, subscribe}
use compose_monitor.Realtime.Hub.Delivery.{has_address, IsLive, IsApart}
use compose_monitor.Realtime.Hub.Closing.{IsLive-update}
use compose_monitor.Realtime.Hub.Invariant.{IsSound}

lookup-below :
    (n m : ℕ) (subs : List (ℕ × ℕ)) → All (λ s. (s.0 < n) × (s.1 < m)) subs → lookup n subs ≡ none
unfolding lookup
lookup-below n m [] h = refl
lookup-below n m ((id, a) ∷ subs) (h, hs) = ground (arith, lookup-below n m subs hs)

has_address-below :
    (n a : ℕ) (subs : List (ℕ × ℕ))
    → All (λ s. (s.0 < n) × (s.1 < a)) subs
    → has_address a subs ≡ false
unfolding has_address
has_address-below n a [] h = refl
has_address-below n a ((id, b) ∷ subs) (h, hs) = ground (arith, has_address-below n a subs hs)

insert-new :
    (id a : ℕ) (subs : List (ℕ × ℕ))
    → lookup id subs ≡ none
    → insert id a subs ≡ subs ++ (id, a) ∷ []
unfolding lookup insert
insert-new id a [] h = refl
insert-new id a ((j, b) ∷ subs) h = ground (arith, insert-new id a subs)

IsApart-append :
    (id a : ℕ) (subs : List (ℕ × ℕ))
    → has_address a subs ≡ false
    → IsApart subs
    → IsApart (subs ++ (id, a) ∷ [])
unfolding has_address
IsApart-append id a [] h k = (refl, tt)
IsApart-append id a ((j, b) ∷ subs) h (k, ks) =
    (has_address-append b subs k (ground arith), IsApart-append id a subs (ground arith) ks)
  where
    has_address-append :
        (c : ℕ) (xs : List (ℕ × ℕ))
        → has_address c xs ≡ false
        → (a == c) ≡ false
        → has_address c (xs ++ (id, a) ∷ []) ≡ false
    has_address-append c [] h k = ground arith
    has_address-append c ((i, d) ∷ xs) h k = ground (arith, has_address-append c xs)

IsLive-insert :
    (id a : ℕ) (subs : List (ℕ × ℕ)) (store : Store)
    → has_address a subs ≡ false
    → lookup id subs ≡ none
    → IsLive store subs
    → IsLive (update store a open_channel) (insert id a subs)
IsLive-insert id a subs store alone new live = rw (insert-new id a subs new) (
    All-append (λ s. (update store a open_channel s.1).is_closed ≡ false) subs _
      (IsLive-update a subs store open_channel alone live) (ground arith, tt))

below_mono :
    (subs : List (ℕ × ℕ)) (n a : ℕ)
    → All (λ s. (s.0 < n) × (s.1 < a)) subs
    → All (λ s. (s.0 < suc n) × (s.1 < suc a)) subs
below_mono [] n a h = tt
below_mono (s ∷ subs) n a (h, hs) = (omega arith, below_mono subs n a hs)

-- `Subscribe` keeps the invariant: the new channel is open and no other subscription has it.
pub subscribe-IsSound : (h : Hub) → IsSound h → IsSound (subscribe h).0
unfolding subscribe
subscribe-IsSound h v = elim (Bool-cases h.closed) [
  | inl over ↦
      rw (over, subscribe)
        (record {
          live = rw (v.ended over) tt;
          apart = v.apart;
          below = rw (v.ended over) tt;
          keyed = v.keyed;
          bounded = λ a. ground (arith, v.bounded a);
          ended = λ e. v.ended over;
        })
  | inr running ↦
      rw (running, subscribe)
        (record {
          live = IsLive-insert h.next_id h.fresh h.subs h.store alone new v.live;
          apart =
              rw (insert-new h.next_id h.fresh h.subs new)
                (IsApart-append h.next_id h.fresh h.subs alone v.apart);
          below =
              rw (insert-new h.next_id h.fresh h.subs new)
                (All-append _ h.subs _ (below_mono h.subs h.next_id h.fresh v.below) (omega arith));
          keyed = insert-IsMap h.next_id h.fresh h.subs v.keyed;
          bounded = λ a. ground (arith, v.bounded a);
          ended = λ e. cc;
        })
]
  where
    new : lookup h.next_id h.subs ≡ none
    new = lookup-below h.next_id h.fresh h.subs v.below

    alone : has_address h.fresh h.subs ≡ false
    alone = has_address-below h.next_id h.fresh h.subs v.below
