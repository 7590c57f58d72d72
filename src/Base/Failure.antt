-- ===== src/Base/Failure.antt =====
-- Go's `error` values as the program builds and inspects them, and the monad of its methods: a
-- state that the call may change, and a result or an error. An early `return err` is the failing
-- step of a `do` block, which keeps the state reached so far.
pub mod Rules
use compose_monitor.Base.{
  ◌≡◌, refl, Bool, true, false, Option, none, some, Text, bytes, ◌++◌, arith, ◌==◌, ◌⊎◌, inl, inr,
}

-- The error variables of internal/app and internal/ports that a caller compares with.
pub data Sentinel : Type 0 where
  control_disabled not_in_project not_running already_running still_running in_use : Sentinel
  not_found source_unavailable : Sentinel

-- `errors.New` of another package, `fmt.Errorf("p: %w", e)` and `fmt.Errorf("%w: p", e)`.
pub data Failure : Type 0 where
  sentinel : Sentinel → Failure
  foreign : Text → Failure
  prefixed : Text → Failure → Failure
  suffixed : Failure → Text → Failure

unfoldable pub same_sentinel : Sentinel → Sentinel → Bool
same_sentinel control_disabled control_disabled = true
same_sentinel not_in_project not_in_project = true
same_sentinel not_running not_running = true
same_sentinel already_running already_running = true
same_sentinel still_running still_running = true
same_sentinel in_use in_use = true
same_sentinel not_found not_found = true
same_sentinel source_unavailable source_unavailable = true
same_sentinel _ _ = false

-- `errors.Is(err, s)`: the chain of wrapped errors holds `s`.
unfoldable pub error_is : Failure → Sentinel → Bool
unfolding same_sentinel
error_is (sentinel s) t = same_sentinel s t
error_is (foreign message) t = false
error_is (prefixed p e) t = error_is e t
error_is (suffixed e p) t = error_is e t

unfoldable pub sentinel_text : Sentinel → Text
sentinel_text control_disabled = bytes "container control is disabled"
sentinel_text not_in_project = bytes "container does not belong to this project"
sentinel_text not_running = bytes "container is not running"
sentinel_text already_running = bytes "container is already running"
sentinel_text still_running = bytes "container is still running"
sentinel_text in_use = bytes "still in use by a container"
sentinel_text not_found = bytes "not found in this project"
sentinel_text source_unavailable = bytes "container source unavailable"

-- `err.Error()`
unfoldable pub error_text : Failure → Text
unfolding sentinel_text
error_text (sentinel s) = sentinel_text s
error_text (foreign message) = message
error_text (prefixed p e) = p ++ bytes ": " ++ error_text e
error_text (suffixed e p) = error_text e ++ bytes ": " ++ p

pub data Result {ℓ} (A : Type ℓ) : Type ℓ where
  ok : A → Result A
  err : Failure → Result A

pub Result-cases {ℓ} :
    {A : Type ℓ} (r : Result A) → ((a : A) × (r ≡ ok a)) ⊎ ((e : Failure) × (r ≡ err e))
Result-cases (ok a) = inl (a, refl)
Result-cases (err e) = inr (e, refl)

abbrev pub Act : Type 0 → Type 0 → Type 0
Act W A = W → Result A × W

infixl 5 ◌>>=◌ ◌>>◌
abbrev pub ◌>>=◌ : {W A B : Type 0} → Act W A → (A → Act W B) → Act W B
◌>>=◌ m f w = let (r, w') = m w in elim r [ ok a ↦ f a w' | err e ↦ (err e, w') ]

abbrev pub ◌>>◌ : {W B : Type 0} → Act W (Unit {0}) → Act W B → Act W B
m >> k = m >>= λ _. k

abbrev pub return : {W A : Type 0} → A → Act W A
return a w = (ok a, w)

abbrev pub fail : {W A : Type 0} → Failure → Act W A
fail e w = (err e, w)

-- `if !test { return err }`
abbrev pub guard : {W : Type 0} → Bool → Failure → Act W (Unit {0})
guard true e w = (ok tt, w)
guard false e w = (err e, w)

-- `if err != nil { return fmt.Errorf("p: %w", err) }`
abbrev pub or_wrap : {W A : Type 0} → Text → Act W A → Act W A
or_wrap p m w = let (r, w') = m w in elim r [ ok a ↦ (ok a, w') | err e ↦ (err (prefixed p e), w') ]

-- A call whose error is logged and otherwise ignored.
abbrev pub ignore_error : {W : Type 0} → Act W (Unit {0}) → Act W (Unit {0})
ignore_error m w = (ok tt, (m w).1)
