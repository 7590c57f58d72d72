-- ===== src/Base/Failure/Rules.antt =====
-- Rules for a property of what a chain of calls returns: one case for each way that it can go.
use compose_monitor.Base.{◌≡◌, refl, ap, Text, Option, none, some}
use compose_monitor.Base.Failure.{Failure, prefixed, Result, ok, err, Act, ◌>>=◌, or_wrap}

module _ {ℓ} {W A B : Type 0} (P : Result B × W → Type ℓ) where
  pub >>=-rule :
      (m : Act W A) (f : A → Act W B) (w : W)
      → ((a : A) → (m w).0 ≡ ok a → P (f a (m w).1))
      → ((e : Failure) → (m w).0 ≡ err e → P (err e, (m w).1))
      → P ((m >>= f) w)
  >>=-rule m f w good bad = go (m w).0 refl
    where
      go :
          (r : Result A)
          → (m w).0 ≡ r
          → P (elim r [ ok a ↦ f a (m w).1 | err e ↦ (err e, (m w).1) ])
      go (ok a) e = good a e
      go (err f) e = bad f e

module _ {ℓ} {W A : Type 0} (P : Result A × W → Type ℓ) where
  pub or_wrap-rule :
      (p : Text) (m : Act W A) (w : W)
      → ((a : A) → (m w).0 ≡ ok a → P (ok a, (m w).1))
      → ((e : Failure) → (m w).0 ≡ err e → P (err (prefixed p e), (m w).1))
      → P (or_wrap p m w)
  or_wrap-rule p m w good bad = go (m w).0 refl
    where
      go :
          (r : Result A)
          → (m w).0 ≡ r
          → P (elim r [ ok a ↦ (ok a, (m w).1) | err e ↦ (err (prefixed p e), (m w).1) ])
      go (ok a) e = good a e
      go (err f) e = bad f e

-- The two together.
module _ {ℓ} {W A B : Type 0} (P : Result B × W → Type ℓ) where
  pub wrapped-rule :
      (p : Text) (m : Act W A) (f : A → Act W B) (w : W)
      → ((a : A) → (m w).0 ≡ ok a → P (f a (m w).1))
      → ((e : Failure) → (m w).0 ≡ err e → P (err (prefixed p e), (m w).1))
      → P ((or_wrap p m >>= f) w)
  wrapped-rule p m f w good bad = go (m w).0 refl
    where
      go :
          (r : Result A)
          → (m w).0 ≡ r
          → P (
              let q : Result A × W = elim r [
                | ok a ↦ (ok a, (m w).1)
                | err e ↦ (err (prefixed p e), (m w).1)
              ] in
              elim q.0 [ ok a ↦ f a q.1 | err e ↦ (err e, q.1) ])
      go (ok a) e = good a e
      go (err f) e = bad f e

-- A result succeeds with what was to be found, and fails where there is nothing.
module _ {A : Type 0} where
  abbrev pub Answers : Option A → Result A → Type 0
  Answers none (ok a) = ⊥
  Answers none (err e) = Unit
  Answers (some b) (ok a) = b ≡ a
  Answers (some b) (err e) = ⊥

  pub Answers-ok : (o : Option A) (r : Result A) (a : A) → r ≡ ok a → Answers o r → o ≡ some a
  Answers-ok none (ok b) a e h = absurd h
  Answers-ok (some c) (ok b) a e h = cc
  Answers-ok _ (err f) a e h = cc

  pub Answers-err : (o : Option A) (r : Result A) (f : Failure) → r ≡ err f → Answers o r → o ≡ none
  Answers-err none r f e h = refl
  Answers-err (some c) (ok b) f e h = cc
  Answers-err (some c) (err g) f e h = absurd h

-- A chain whose first part fails is that failure.
pub >>=-err :
    {W A B : Type 0} (m : Act W A) (f : A → Act W B) (w w' : W) (e : Failure)
    → m w ≡ (err e, w')
    → (m >>= f) w ≡ (err e, w')
>>=-err {W} {A} {B} m f w w' e h =
    ap (λ out. elim out.0 as (λ _. Result B × W) [ ok a ↦ f a out.1 | err e' ↦ (err e', out.1) ]) h

-- A wrapped call that fails.
pub or_wrap-err :
    {W A : Type 0} (p : Text) (m : Act W A) (w w' : W) (e : Failure)
    → m w ≡ (err e, w')
    → or_wrap p m w ≡ (err (prefixed p e), w')
or_wrap-err {W} {A} p m w w' e h =
    let wrap : Result A × W → Result A × W =
      λ q. elim q.0 [ ok a ↦ (ok a, q.1) | err f ↦ (err (prefixed p f), q.1) ] in
    ap wrap h

-- A chain whose first call succeeds.
pub >>=-ok :
    {W A B : Type 0} (m : Act W A) (f : A → Act W B) (w w' : W) (a : A)
    → m w ≡ (ok a, w')
    → (m >>= f) w ≡ f a w'
>>=-ok {W} {A} {B} m f w w' a h =
    ap (λ out. elim out.0 as (λ _. Result B × W) [ ok b ↦ f b out.1 | err e ↦ (err e, out.1) ]) h
