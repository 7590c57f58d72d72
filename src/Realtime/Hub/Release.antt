-- ===== src/Realtime/Hub/Release.antt =====
-- The function that `Subscribe` returns.
use compose_monitor.Base.{
  ℕ, ◌<◌, ◌≡◌, refl, subst, true, false, List, [], ◌∷◌, Option, none, some, arith, ◌==◌, nat_eq,
  nat_beq_iff, All, Bool-cases, Option-cases, inl, inr,
}
use compose_monitor.Base.Dict.{lookup, erase, erase-IsMap}
use compose_monitor.Realtime.Hub.{Store, Hub, update, unsubscribe, ◌>>=◌, is_released}
use compose_monitor.Realtime.Hub.Delivery.{has_address, IsLive, IsApart}
use compose_monitor.Realtime.Hub.Closing.{shut, close_channel-shut, IsLive-update}
use compose_monitor.Realtime.Hub.Invariant.{IsSound}

All-erase {κ} :
    (P : ℕ × ℕ → Type κ) (id : ℕ) (subs : List (ℕ × ℕ)) → All P subs → All P (erase id subs)
unfolding erase
All-erase P id [] h = tt
All-erase P id ((j, b) ∷ subs) (h, hs) = ground (arith, All-erase P id subs hs)

has_address-erase :
    (id a : ℕ) (subs : List (ℕ × ℕ))
    → has_address a subs ≡ false
    → has_address a (erase id subs) ≡ false
unfolding has_address erase
has_address-erase id a [] h = refl
has_address-erase id a ((j, b) ∷ subs) h = ground (arith, has_address-erase id a subs)

IsApart-erase : (id : ℕ) (subs : List (ℕ × ℕ)) → IsApart subs → IsApart (erase id subs)
unfolding erase
IsApart-erase id [] h = tt
IsApart-erase id ((j, b) ∷ subs) (h, hs) =
    ground (arith, has_address-erase id b subs h, IsApart-erase id subs hs)

has_address-lookup :
    (id a : ℕ) (subs : List (ℕ × ℕ)) → lookup id subs ≡ some a → has_address a subs ≡ true
unfolding lookup has_address
has_address-lookup id a [] h = cc
has_address-lookup id a ((j, b) ∷ subs) h =
    ground (arith, nat_beq_iff b a, has_address-lookup id a subs)

pub live-lookup :
    (id a : ℕ) (subs : List (ℕ × ℕ)) (store : Store)
    → lookup id subs ≡ some a
    → IsLive store subs
    → (store a).is_closed ≡ false
unfolding lookup
live-lookup id a [] store h live = cc
live-lookup id a ((j, b) ∷ subs) store h (open_b, live) = elim (Bool-cases (j == id)) [
  | inl own ↦ subst (λ c. (store c).is_closed ≡ false) (ground arith) open_b
  | inr other ↦ live-lookup id a subs store (ground arith) live
]

-- The channel of the subscription that is taken out is no other's.
has_address-erase_own :
    (id a : ℕ) (subs : List (ℕ × ℕ))
    → lookup id subs ≡ some a
    → IsApart subs
    → has_address a (erase id subs) ≡ false
unfolding lookup erase has_address
has_address-erase_own id a [] h k = cc
has_address-erase_own id a ((j, b) ∷ subs) h (k, ks) = elim (Bool-cases (j == id)) [
  | inl own ↦ rw own (subst (λ c. has_address c subs ≡ false) (ground arith) k)
  | inr other ↦ rw other (
      ground (
        arith,
        has_address-erase_own id a subs (ground arith) ks,
        has_address-lookup id a subs (ground arith),
        nat_beq_iff b a,
      ))
]

-- The function that `Subscribe` returns never closes a channel twice, however often and with
-- whatever else in between it is called: it keeps the invariant, and it has no effect once it has
-- run.
pub unsubscribe_once :
    (id : Option ℕ) (h : Hub)
    → IsSound h
    → (h' : Hub) × (unsubscribe id h ≡ some h') × IsSound h' × (unsubscribe id h' ≡ some h')
unfolding unsubscribe is_released
unsubscribe_once none h v = (h, refl, v, refl)
unsubscribe_once (some id) h v = elim (Bool-cases (is_released id h.released)) [
  | inl done ↦ (h, rw (done, unsubscribe) refl, v, rw (done, unsubscribe) refl)
  | inr first ↦ elim (Option-cases (lookup id h.subs)) [
    | inl gone ↦ (
      record h { released = id ∷ h.released },
      rw (first, gone, unsubscribe) refl,
      record {
        live = v.live;
        apart = v.apart;
        below = v.below;
        keyed = v.keyed;
        bounded = v.bounded;
        ended = v.ended;
      },
      ground (arith, nat_beq_iff id id),
    )
    | inr (a, own) ↦
        let open_a = live-lookup id a h.subs h.store own v.live in
        (
          record h {
            subs = erase id h.subs;
            released = id ∷ h.released;
            store = update h.store a (shut (h.store a));
          },
          rw (first, own, close_channel-shut a h.store open_a, unsubscribe, ◌>>=◌) refl,
          record {
            live =
                IsLive-update a (erase id h.subs) h.store (shut (h.store a))
                  (has_address-erase_own id a h.subs own v.apart)
                  (All-erase (λ s. (h.store s.1).is_closed ≡ false) id h.subs v.live);
            apart = IsApart-erase id h.subs v.apart;
            below = All-erase (λ s. (s.0 < h.next_id) × (s.1 < h.fresh)) id h.subs v.below;
            keyed = erase-IsMap id h.subs v.keyed;
            bounded = λ b. ground (arith, v.bounded b, v.bounded a);
            ended = λ e. erase-none (v.ended e);
          },
          ground (arith, nat_beq_iff id id),
        )
  ]
]
  where
    erase-none : h.subs ≡ [] → erase id h.subs ≡ []
    erase-none e = rw e (unfold erase in refl)
