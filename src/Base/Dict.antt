-- ===== src/Base/Dict.antt =====
-- Go maps as association lists. The order of a list stands for one order of iteration, which Go
-- leaves open: a theorem holds for every list, and so for every order.
pub mod Order
use compose_monitor.Base.{
  ◌≡◌, refl, Bool, true, false, List, [], ◌∷◌, Option, none, some, arith, Eq, ◌==◌, if◌then◌else◌,
  beq_refl, Bool-cases, inl, inr,
}

module _ {ℓ κ} {K : Type ℓ} {V : Type κ} ⦃e : Eq K⦄ where
  -- `m[k]`, with the second value of the comma-ok form.
  unfoldable pub lookup : K → List (K × V) → Option V
  lookup key [] = none
  lookup key ((k, v) ∷ m) = if k == key then some v else lookup key m

  -- `m[k] = v`
  unfoldable pub insert : K → V → List (K × V) → List (K × V)
  insert key new [] = (key, new) ∷ []
  insert key new ((k, v) ∷ m) = if k == key then (key, new) ∷ m else (k, v) ∷ insert key new m

  -- `delete(m, k)`
  unfoldable pub erase : K → List (K × V) → List (K × V)
  erase k [] = []
  erase k ((j, w) ∷ m) = if j == k then m else (j, w) ∷ erase k m

  -- No key stands twice.
  abbrev pub IsMap : List (K × V) → Type κ
  IsMap [] = Unit
  IsMap ((k, v) ∷ m) = (lookup k m ≡ none) × IsMap m

  pub lookup-insert :
      (key other : K) (new : V) (m : List (K × V))
      → lookup other (insert key new m) ≡ (if key == other then some new else lookup other m)
  unfolding lookup insert
  lookup-insert key other new [] = refl
  lookup-insert key other new ((k, v) ∷ m) =
      let rest = lookup-insert key other new m in
      ground (arith, rest, e.beq_iff key other, e.beq_iff k key, e.beq_iff k other)

  pub insert-IsMap : (k : K) (v : V) (m : List (K × V)) → IsMap m → IsMap (insert k v m)
  unfolding lookup insert
  insert-IsMap k v [] h = (refl, tt)
  insert-IsMap k v ((i, w) ∷ m) (h, hs) =
      ground (arith, e.beq_iff i k, e.beq_iff k i, lookup-insert k i v m, insert-IsMap k v m hs)

  pub lookup-erase :
      (k j : K) (m : List (K × V))
      → IsMap m
      → lookup j (erase k m) ≡ (if k == j then none else lookup j m)
  unfolding lookup erase
  lookup-erase k j [] h = ground arith
  lookup-erase k j ((i, w) ∷ m) (h, hs) =
      ground
        (arith, e.beq_iff k j, e.beq_iff i k, e.beq_iff i j, e.beq_iff k i, lookup-erase k j m hs)

  pub erase-IsMap : (k : K) (m : List (K × V)) → IsMap m → IsMap (erase k m)
  unfolding lookup erase
  erase-IsMap k [] h = tt
  erase-IsMap k ((i, w) ∷ m) (h, hs) =
      ground (arith, e.beq_iff k i, lookup-erase k i m hs, erase-IsMap k m hs)
