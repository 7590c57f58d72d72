-- ===== src/Docker/Reconnect.antt =====
-- `Client.Watch` and `Client.stream` of internal/adapters/docker/client.go: the signal, and the
-- delays between the connections to the runtime's event stream. Times are in nanoseconds.
use Prim.Native.Nat.{min}
use native.Mathlib.Nat.{pow-suc}
use compose_monitor.Base.{
  ℕ, suc, ◌+◌, ◌*◌, ◌^◌, ◌≤◌, ◌≡◌, ◌≢◌, refl, sym, ◌∙◌, ap, Bool, true, List, [], ◌∷◌, Option, none,
  some, arith, bytes, length,
}
use compose_monitor.Base.Failure.{Failure, foreign, prefixed}

-- `reconnectMinDelay` and `reconnectMaxDelay`
abbrev pub second : ℕ
second = 1_000_000_000

abbrev pub reconnect_min_delay : ℕ
reconnect_min_delay = 1 * second

abbrev pub reconnect_max_delay : ℕ
reconnect_max_delay = 30 * second

-- What the `select` of `stream` can receive: the end of the context with its error, a value of
-- `errs`, which is nil when the channel is closed, a message, or the end of `messages`.
pub data Input : Type 0 where
  cancelled : Failure → Input
  errors : Option Failure → Input
  message : Input
  messages_closed : Input

-- The signal channel, of capacity one: whether a signal waits in it.
abbrev pub Signal : Type 0
Signal = Bool

-- `stream`: the error it returns, which is nil for `none`, and the signal. It has not returned
-- where its inputs so far are messages only.
pub data Outcome : Type 0 where
  running : Signal → Outcome
  returned : Option Failure → Signal → Outcome

unfoldable pub stream : List Input → Signal → Outcome
stream [] out = running out
stream (cancelled cause ∷ inputs) out = returned (some cause) out
stream (errors none ∷ inputs) out = returned (some (foreign (bytes "event stream closed"))) out
stream (errors (some e) ∷ inputs) out =
    returned (some (prefixed (bytes "reading event stream") e)) out
stream (messages_closed ∷ inputs) out = returned (some (foreign (bytes "event stream closed"))) out
stream (message ∷ inputs) out = stream inputs true

-- The delay after one more interruption: the end of a round of the loop of `Watch`.
unfoldable pub next_delay : Option Failure → ℕ → ℕ
next_delay err delay =
    let doubled = min (delay * 2) reconnect_max_delay in
    elim err [ none ↦ reconnect_min_delay | some e ↦ doubled ]

-- The delay before each reconnection, given how `stream` returned every time so far, oldest first.
unfoldable pub delay_after : List (Option Failure) → ℕ → ℕ
unfolding next_delay
delay_after [] delay = delay
delay_after (err ∷ errs) delay = delay_after errs (next_delay err delay)

-- A message leaves a signal, and further ones leave it as it is.
pub stream-signal :
    (inputs : List Input) (out out' : Signal) (err : Option Failure)
    → stream (message ∷ inputs) out ≡ returned err out'
    → out' ≡ true
unfolding stream
stream-signal [] out out' err e = cc
stream-signal (cancelled cause ∷ inputs) out out' err e = cc
stream-signal (errors none ∷ inputs) out out' err e = cc
stream-signal (errors (some f) ∷ inputs) out out' err e = cc
stream-signal (messages_closed ∷ inputs) out out' err e = cc
stream-signal (message ∷ inputs) out out' err e = stream-signal inputs out out' err e

-- `stream` never returns nil.
pub stream-returns_error :
    (inputs : List Input) (out out' : Signal) (err : Option Failure)
    → stream inputs out ≡ returned err out'
    → err ≢ none
unfolding stream
stream-returns_error [] out out' err e = λ n. cc
stream-returns_error (cancelled cause ∷ inputs) out out' err e = λ n. cc
stream-returns_error (errors none ∷ inputs) out out' err e = λ n. cc
stream-returns_error (errors (some f) ∷ inputs) out out' err e = λ n. cc
stream-returns_error (messages_closed ∷ inputs) out out' err e = λ n. cc
stream-returns_error (message ∷ inputs) out out' err e = stream-returns_error inputs true out' err e

-- Every delay is from one second to thirty.
pub delay_after_bounds :
    (errs : List (Option Failure)) (delay : ℕ)
    → (reconnect_min_delay ≤ delay) × (delay ≤ reconnect_max_delay)
    → (reconnect_min_delay ≤ delay_after errs delay)
      × (delay_after errs delay ≤ reconnect_max_delay)
unfolding delay_after
delay_after_bounds [] delay h = h
delay_after_bounds (none ∷ errs) delay h = delay_after_bounds errs reconnect_min_delay (omega arith)
delay_after_bounds (some e ∷ errs) delay h =
    delay_after_bounds errs (min (delay * 2) reconnect_max_delay) (omega arith)

-- The runs of `stream`, one for each error.
pub data Runs : List (Option Failure) → Type 0 where
  none_yet : Runs []
  one_more :
      {err : Option Failure} {errs : List (Option Failure)} (inputs : List Input)
      (out out' : Signal)
      → stream inputs out ≡ returned err out'
      → Runs errs
      → Runs (err ∷ errs)

doubled :
    (p : ℕ)
    → min (min (p * second) reconnect_max_delay * 2) reconnect_max_delay
      ≡ min (p * 2 * second) reconnect_max_delay
doubled p = omega arith

-- One more doubling below the cap.
min-doubling :
    (k : ℕ)
    → min (min (2 ^ k * second) reconnect_max_delay * 2) reconnect_max_delay
      ≡ min (2 ^ suc k * second) reconnect_max_delay
min-doubling k =
    doubled (2 ^ k) ∙ ap (λ q. min (q * second) reconnect_max_delay) (sym (pow-suc 2 k))

-- Doubling goes on from wherever it stands.
delay_after-doubles :
    (errs : List (Option Failure)) (k : ℕ)
    → Runs errs
    → delay_after errs (min (2 ^ k * second) reconnect_max_delay)
      ≡ min (2 ^ (k + length errs) * second) reconnect_max_delay
unfolding delay_after
delay_after-doubles [] k none_yet = ap (λ j. min (2 ^ j * second) reconnect_max_delay) (omega arith)
delay_after-doubles (none ∷ errs) k (one_more inputs out out' e r) =
    absurd (stream-returns_error inputs out out' none e refl)
delay_after-doubles (some f ∷ errs) k (one_more inputs out out' e r) =
    ap (delay_after errs) (min-doubling k)
    ∙ delay_after-doubles errs (suc k) r
    ∙ ap (λ j. min (2 ^ j * second) reconnect_max_delay) (omega arith)

-- After any number of interrupted streams, whatever each of them received, the delay is the
-- shortest one doubled once for each, up to the longest: no stream gets the short delay back.
pub delay_after-never_resets :
    (errs : List (Option Failure))
    → Runs errs
    → delay_after errs reconnect_min_delay ≡ min (2 ^ length errs * second) reconnect_max_delay
delay_after-never_resets errs r =
    delay_after-doubles errs 0 r ∙ ap (λ j. min (2 ^ j * second) reconnect_max_delay) (omega arith)
