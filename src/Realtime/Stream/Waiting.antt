-- ===== src/Realtime/Stream/Waiting.antt =====
-- The changes between the handler's subscription and its loop.
use mathlib.Core.List.{append-nil, append_assoc}
use compose_monitor.Base.{
  ℕ, suc, ◌+◌, ◌≤◌, ◌≡◌, refl, ◌∙◌, ap, sym, true, false, List, [], ◌∷◌, ◌++◌, Option, some, arith,
  nat_eq, nat_beq_iff, length, length-append,
}
use compose_monitor.Base.Dict.{insert}
use compose_monitor.Domain.{Event}
use compose_monitor.App.Monitor.{MonitorState}
use compose_monitor.Realtime.Hub.{Hub, publish, subscribe, subscriber_buffer, ◌>>=◌}
use compose_monitor.Realtime.Hub.Delivery.{has_address, delivered}
use compose_monitor.Realtime.Hub.Invariant.{IsSound, publish_delivers}
use compose_monitor.Realtime.Hub.Subscriptions.{subscribe-IsSound}
use compose_monitor.Realtime.Stream.{connect}

-- One publication after the other.
unfoldable pub publish_each : List Event → Hub → Option Hub
unfolding publish
publish_each [] h = some h
publish_each (e ∷ es) h = publish e h >>= publish_each es

has_address-insert : (k a : ℕ) (subs : List (ℕ × ℕ)) → has_address a (insert k a subs) ≡ true
unfolding has_address insert
has_address-insert k a [] = ground (arith, nat_beq_iff a a)
has_address-insert k a ((j, b) ∷ subs) =
    ground (arith, nat_beq_iff a a, has_address-insert k a subs)

delivered-buffer :
    (e : Event) (h : Hub) (a : ℕ)
    → has_address a h.subs ≡ true
    → suc (length (h.store a).buffer) ≤ subscriber_buffer
    → (delivered e h.subs h.store a).buffer ≡ (h.store a).buffer ++ e ∷ []
delivered-buffer e h a own room = ground arith

publish_each-buffer :
    (es : List Event) (h : Hub) (a : ℕ)
    → IsSound h
    → has_address a h.subs ≡ true
    → length (h.store a).buffer + length es ≤ subscriber_buffer
    → (h' : Hub) × (publish_each es h ≡ some h') × ((h'.store a).buffer ≡ (h.store a).buffer ++ es)
unfolding publish_each
publish_each-buffer [] h a v own room = (h, refl, sym (append-nil _))
publish_each-buffer (e ∷ es) h a v own room =
    let (h₁, sent, v₁, same, each) = publish_delivers e h v in
    let grown : (h₁.store a).buffer ≡ (h.store a).buffer ++ e ∷ [] =
      ap (λ c. c.buffer) (each a) ∙ delivered-buffer e h a own (omega arith) in
    let (h₂, all, rest) =
      publish_each-buffer es h₁ a v₁ (ap (λ k. has_address a k.subs) same ∙ own)
        (omega (arith, ap length grown, length-append (h.store a).buffer (e ∷ []))) in
    (
      h₂,
      ap (λ o. o >>= publish_each es) sent ∙ all,
      rest ∙ ap (λ b. b ++ es) grown ∙ append_assoc (h.store a).buffer (e ∷ []) es,
    )

connect-address :
    {W : Type 0} (h : Hub) (s : MonitorState W)
    → h.closed ≡ false
    → (has_address (connect h s).address (connect h s).hub.subs ≡ true)
      × (((connect h s).hub.store (connect h s).address).buffer ≡ [])
unfolding connect subscribe
connect-address h s on = (
  ground (arith, has_address-insert h.next_id h.fresh h.subs),
  ground (arith, nat_beq_iff h.fresh h.fresh),
)

connect-IsSound :
    {W : Type 0} (h : Hub) (s : MonitorState W) → IsSound h → IsSound (connect h s).hub
unfolding connect
connect-IsSound h s v = subscribe-IsSound h v

-- From the handler's subscription on no change is missed: as many changes as its channel holds,
-- published one after the other to a hub that was in order and open, wait in the channel in their
-- order, whether the handler has read the services by then or not.
pub connect_misses_nothing :
    {W : Type 0} (h : Hub) (s : MonitorState W) (es : List Event)
    → IsSound h
    → h.closed ≡ false
    → length es ≤ subscriber_buffer
    → (h' : Hub) × (publish_each es (connect h s).hub ≡ some h')
      × ((h'.store (connect h s).address).buffer ≡ es)
connect_misses_nothing h s es v on room =
    let (own, empty) = connect-address h s on in
    let (h', sent, held) =
      publish_each-buffer es (connect h s).hub (connect h s).address (connect-IsSound h s v) own
        (omega (arith, ap length empty)) in
    (h', sent, held ∙ ap (λ b. b ++ es) empty)
