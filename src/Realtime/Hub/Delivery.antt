-- ===== src/Realtime/Hub/Delivery.antt =====
-- What `Publish` does to each channel.
use compose_monitor.Base.{
  ℕ, ◌≡◌, refl, ◌∙◌, ap, Bool, false, List, [], ◌∷◌, ◌++◌, some, arith, ltb, ◌==◌, nat_eq,
  nat_beq_iff, length, All, if◌then◌else◌, ◌||◌, Bool-cases, inl, inr,
}
use compose_monitor.Domain.{Event}
use compose_monitor.Realtime.Hub.{
  Channel, Store, update, offer, offer_all, subscriber_buffer, ◌>>=◌,
}

-- A channel is the channel of a subscription.
unfoldable pub has_address : ℕ → List (ℕ × ℕ) → Bool
has_address a [] = false
has_address a ((id, b) ∷ subs) = b == a || has_address a subs

-- A subscriber that has room takes the event; one that is full misses it.
abbrev pub accept : Event → Channel → Channel
accept e c =
    if ltb (length c.buffer) subscriber_buffer then record c { buffer = c.buffer ++ e ∷ [] } else c

abbrev pub IsLive : Store → List (ℕ × ℕ) → Type 0
IsLive store subs = All (λ s. (store s.1).is_closed ≡ false) subs

-- No two subscriptions share a channel.
abbrev pub IsApart : List (ℕ × ℕ) → Type 0
IsApart [] = Unit
IsApart ((id, a) ∷ subs) = (has_address a subs ≡ false) × IsApart subs

abbrev pub delivered : Event → List (ℕ × ℕ) → Store → Store
delivered e subs store a = if has_address a subs then accept e (store a) else store a

accept-is_closed : (e : Event) (c : Channel) → (accept e c).is_closed ≡ c.is_closed
accept-is_closed e c = ground arith

offer-accept :
    (e : Event) (a : ℕ) (store : Store)
    → (store a).is_closed ≡ false
    → (store' : Store) × (offer e a store ≡ some store')
      × ((b : ℕ) → store' b ≡ (if a == b then accept e (store b) else store b))
unfolding offer
offer-accept e a store live = elim (Bool-cases (ltb (length (store a).buffer) subscriber_buffer)) [
  | inl room ↦ (
    update store a (record (store a) { buffer = (store a).buffer ++ e ∷ [] }),
    rw (live, offer, room) refl,
    λ b. ground arith,
  )
  | inr full ↦ (store, rw (live, offer, full) refl, λ b. ground arith)
]

IsLive-accept :
    (e : Event) (a : ℕ) (subs : List (ℕ × ℕ)) (store store' : Store)
    → ((b : ℕ) → store' b ≡ (if a == b then accept e (store b) else store b))
    → IsLive store subs
    → IsLive store' subs
IsLive-accept e a [] store store' same live = tt
IsLive-accept e a ((id, b) ∷ subs) store store' same (open_b, live) = (
  ground (arith, same b, accept-is_closed e (store b)),
  IsLive-accept e a subs store store' same live,
)

pub offer_all-delivered :
    (e : Event) (subs : List (ℕ × ℕ)) (store : Store)
    → IsLive store subs
    → IsApart subs
    → (store' : Store) × (offer_all e subs store ≡ some store')
      × ((b : ℕ) → store' b ≡ delivered e subs store b)
unfolding offer_all has_address
offer_all-delivered e [] store live apart = (store, refl, λ b. refl)
offer_all-delivered e ((id, a) ∷ subs) store (open_a, live) (alone, apart) =
    let (one, sent, first) = offer-accept e a store open_a in
    let (last, all_sent, rest) =
      offer_all-delivered e subs one (IsLive-accept e a subs store one first live) apart in
    (last, rw (sent, offer_all, ◌>>=◌) all_sent, λ b. rest b ∙ joined one first b)
  where
    joined :
        (one : Store)
        → ((b : ℕ) → one b ≡ (if a == b then accept e (store b) else store b))
        → (b : ℕ) → delivered e subs one b ≡ delivered e ((id, a) ∷ subs) store b
    joined one first b = elim (Bool-cases (a == b)) [
      | inl here ↦
          let same : a ≡ b = (nat_beq_iff a b).0 here in
          ground (arith, first b, alone, ap (λ c. has_address c subs) same)
      | inr there ↦ ground (arith, first b)
    ]
