-- ===== src/Realtime/Hub/Closing.antt =====
-- What closing does to each channel: `Close`, and the function that `Subscribe` returns.
use compose_monitor.Base.{
  ℕ, ◌≡◌, refl, ◌∙◌, ap, true, false, List, [], ◌∷◌, some, arith, nat_eq, nat_beq_iff,
  if◌then◌else◌,
}
use compose_monitor.Realtime.Hub.{Channel, Store, update, close_channel, close_all, ◌>>=◌}
use compose_monitor.Realtime.Hub.Delivery.{has_address, IsLive, IsApart}

abbrev pub shut : Channel → Channel
shut c = record c { is_closed = true }

abbrev pub closed_down : List (ℕ × ℕ) → Store → Store
closed_down subs store a = if has_address a subs then shut (store a) else store a

pub close_channel-shut :
    (a : ℕ) (store : Store)
    → (store a).is_closed ≡ false
    → close_channel a store ≡ some (update store a (shut (store a)))
unfolding close_channel
close_channel-shut a store live = rw (live, close_channel) refl

-- Closing one channel leaves the others open.
pub IsLive-update :
    (a : ℕ) (subs : List (ℕ × ℕ)) (store : Store) (c : Channel)
    → has_address a subs ≡ false
    → IsLive store subs
    → IsLive (update store a c) subs
unfolding has_address
IsLive-update a [] store c alone live = tt
IsLive-update a ((id, b) ∷ subs) store c alone (open_b, live) =
    (ground arith, IsLive-update a subs store c (ground arith) live)

pub close_all-closed_down :
    (subs : List (ℕ × ℕ)) (store : Store)
    → IsLive store subs
    → IsApart subs
    → (store' : Store) × (close_all subs store ≡ some store')
      × ((b : ℕ) → store' b ≡ closed_down subs store b)
unfolding close_all has_address
close_all-closed_down [] store live apart = (store, refl, λ b. refl)
close_all-closed_down ((id, a) ∷ subs) store (open_a, live) (alone, apart) =
    let one = update store a (shut (store a)) in
    let (last, all_shut, rest) =
      close_all-closed_down subs one (IsLive-update a subs store (shut (store a)) alone live)
        apart in
    (
      last,
      rw (close_channel-shut a store open_a, close_all, ◌>>=◌) all_shut,
      λ b.
          rest b
          ∙ ground (arith, ap (λ c. has_address c subs) {x = a} {y = b}, nat_beq_iff a b, alone),
    )
