-- ===== src/Realtime/Hub.antt =====
-- `Hub` of internal/adapters/realtime/hub.go. A channel is shared between the hub and its
-- subscriber, so channels stand in a store and the hub holds their addresses. `none` is a panic: a
-- send on a closed channel, or its second close.
pub mod Delivery
pub mod Invariant
pub mod Subscriptions
pub mod Release
pub mod Runs
pub mod Closing
pub mod Changes
use compose_monitor.Base.{
  ℕ, suc, ◌+◌, ◌≡◌, Bool, true, false, List, [], ◌∷◌, ◌++◌, Option, none, some, ltb, ◌==◌, nat_eq,
  length, if◌then◌else◌, ◌||◌,
}
use compose_monitor.Base.Dict.{lookup, insert, erase}
use compose_monitor.Domain.{Event}

-- `subscriberBuffer`
abbrev pub subscriber_buffer : ℕ
subscriber_buffer = 16

-- What was sent and not yet received, oldest first.
pub record Channel : Type 0 where
  pub buffer : List Event
  pub is_closed : Bool

abbrev pub Store : Type 0
Store = ℕ → Channel

abbrev pub update : Store → ℕ → Channel → Store
update store a c b = if a == b then c else store b

-- `subs` maps the ID of a subscription to its channel; `released` holds the IDs whose `sync.Once`
-- has run; `fresh` is the next free address.
pub record Hub : Type 0 where
  pub subs : List (ℕ × ℕ)
  pub next_id : ℕ
  pub closed : Bool
  pub released : List ℕ
  pub store : Store
  pub fresh : ℕ

infixl 5 ◌>>=◌
abbrev pub ◌>>=◌ : {A B : Type 0} → Option A → (A → Option B) → Option B
none >>= f = none
some a >>= f = f a

-- `make(chan domain.Event, n)`; the hub never sends on a channel that it made closed.
abbrev pub open_channel : Channel
open_channel = record { buffer = []; is_closed = false }

abbrev pub closed_channel : Channel
closed_channel = record { buffer = []; is_closed = true }

-- `NewHub`
unfoldable pub new_hub : Hub
new_hub = record {
  subs = [];
  next_id = 0;
  closed = false;
  released = [];
  store = λ a. closed_channel;
  fresh = 0;
}

-- `select { case sub <- event: default: }`
unfoldable pub offer : Event → ℕ → Store → Option Store
offer e a store =
    if (store a).is_closed
    then none
    else if ltb (length (store a).buffer) subscriber_buffer
    then some (update store a (record (store a) { buffer = (store a).buffer ++ e ∷ [] }))
    else some store

-- The loop of `Publish`.
unfoldable pub offer_all : Event → List (ℕ × ℕ) → Store → Option Store
unfolding offer
offer_all e [] store = some store
offer_all e ((id, a) ∷ subs) store = do store' ← offer e a store; offer_all e subs store'

-- `Publish`
unfoldable pub publish : Event → Hub → Option Hub
unfolding offer_all
publish e h =
    if h.closed
    then some h
    else do store ← offer_all e h.subs h.store; some (record h { store = store })

-- `Subscribe`: the hub, the channel, and the ID with which the returned function unregisters it,
-- which is none for the function that does nothing.
unfoldable pub subscribe : Hub → Hub × ℕ × Option ℕ
unfolding insert
subscribe h =
    if h.closed
    then (
      record h { store = update h.store h.fresh closed_channel; fresh = suc h.fresh },
      h.fresh,
      none,
    )
    else (
      record h {
        subs = insert h.next_id h.fresh h.subs;
        next_id = suc h.next_id;
        store = update h.store h.fresh open_channel;
        fresh = suc h.fresh;
      },
      h.fresh,
      some h.next_id,
    )

-- `close`
unfoldable pub close_channel : ℕ → Store → Option Store
close_channel a store =
    if (store a).is_closed
    then none
    else some (update store a (record (store a) { is_closed = true }))

unfoldable pub is_released : ℕ → List ℕ → Bool
is_released id [] = false
is_released id (j ∷ ids) = j == id || is_released id ids

-- The function that `Subscribe` returns.
unfoldable pub unsubscribe : Option ℕ → Hub → Option Hub
unfolding close_channel is_released lookup erase
unsubscribe none h = some h
unsubscribe (some id) h = if is_released id h.released then some h else elim (lookup id h.subs) [
  | none ↦ some (record h { released = id ∷ h.released })
  | some a ↦ do
    store ← close_channel a h.store
    some (record h { subs = erase id h.subs; released = id ∷ h.released; store = store })
]

-- The loop of `Close`.
unfoldable pub close_all : List (ℕ × ℕ) → Store → Option Store
unfolding close_channel
close_all [] store = some store
close_all ((id, a) ∷ subs) store = do store' ← close_channel a store; close_all subs store'

-- `Close`
unfoldable pub close : Hub → Option Hub
unfolding close_all
close h = if h.closed then some h else do
  store ← close_all h.subs h.store
  some (record h { closed = true; subs = []; store = store })

-- `Subscribers`
unfoldable pub subscribers : Hub → ℕ
subscribers h = length h.subs

-- What a receive from a channel finds.
pub data Received : Type 0 where
  event : Event → Received
  ended waits : Received

abbrev taken : List Event → Bool → Received
taken (e ∷ es) c = event e
taken [] true = ended
taken [] false = waits

abbrev rest : List Event → List Event
rest [] = []
rest (e ∷ es) = es

-- `event, open := <-events`
unfoldable pub receive : ℕ → Hub → Hub × Received
receive a h =
    let c = h.store a in
    (
      record h { store = update h.store a (record c { buffer = rest c.buffer }) },
      taken c.buffer c.is_closed,
    )
