-- ===== src/Base/Dict/Order.antt =====
-- What does not depend on the order in which a map is gone through.
use mathlib.Core.Bool.{Bool-set}
use mathlib.Core.Logic.Or
use mathlib.Core.List.{not-mem-nil, mem-cons_self, mem-cons_of_mem, eq-or-mem_of_mem-cons}
use mathlib.Core.List.Perm
use compose_monitor.Base.{
  ◌≡◌, sym, ◌∙◌, subst, ap, Bool, true, false, List, [], ◌∷◌, Option, none, some, Mem, Perm, arith,
  Eq, ◌==◌, inl, inr, Bool-cases, Option-cases, any,
}
use compose_monitor.Base.Dict.{lookup, IsMap}

module _ {ℓ} {A : Type ℓ} (p : A → Bool) where
  mem-any : (x : A) (xs : List A) → Mem x xs → p x ≡ true → any p xs ≡ true
  unfolding any
  mem-any x [] m h = absurd (not-mem-nil m)
  mem-any x (y ∷ xs) m h =
      Or.elim (Bool-set _ _) (eq-or-mem_of_mem-cons m) (λ e. ground (arith, ap p e, h))
        (λ n. ground (arith, mem-any x xs n h))

  any-mem : (xs : List A) → any p xs ≡ true → (x : A) × Mem x xs × (p x ≡ true)
  unfolding any
  any-mem [] h = absurd (ground arith)
  any-mem (x ∷ xs) h = elim (Bool-cases (p x)) [
    | inl hit ↦ (x, mem-cons_self, hit)
    | inr miss ↦ let (y, m, e) = any-mem xs (ground arith) in (y, mem-cons_of_mem x m, e)
  ]

  pub any-perm : (xs ys : List A) → Perm xs ys → any p xs ≡ any p ys
  any-perm xs ys same = elim (Bool-cases (any p xs)) [
    | inl hit ↦ hit ∙ sym (there xs ys same hit)
    | inr miss ↦ elim (Bool-cases (any p ys)) [
      | inl hit ↦ there ys xs (Perm.symm same) hit ∙ sym hit
      | inr none_too ↦ miss ∙ sym none_too
    ]
  ]
    where
      there : (xs ys : List A) → Perm xs ys → any p xs ≡ true → any p ys ≡ true
      there xs ys same h = let (x, m, e) = any-mem xs h in mem-any x ys (Perm.subset same x m) e

module _ {κ} {V : Type κ} ⦃f : Eq V⦄ where
  abbrev has_value : V → Option V → Bool
  has_value v none = false
  has_value v (some w) = w == v

  has_value-eq : (v : V) (o : Option V) → has_value v o ≡ true → o ≡ some v
  has_value-eq v none h = absurd (ground arith)
  has_value-eq v (some w) h = ap some ((f.beq_iff w v).0 h)

module _ {ℓ κ} {K : Type ℓ} {V : Type κ} ⦃e : Eq K⦄ ⦃f : Eq V⦄ where
  lookup-mem : (k : K) (v : V) (m : List (K × V)) → lookup k m ≡ some v → Mem (k, v) m
  unfolding lookup
  lookup-mem k v [] h = absurd (ground arith)
  lookup-mem k v ((j, w) ∷ m) h = elim (Bool-cases (j == k)) [
    | inl hit ↦ subst (λ x. Mem x ((j, w) ∷ m)) (ground (arith, e.beq_iff j k)) mem-cons_self
    | inr miss ↦ mem-cons_of_mem (j, w) (lookup-mem k v m (ground arith))
  ]

  has_value-lookup :
      (k : K) (v : V) (m : List (K × V)) → IsMap m → Mem (k, v) m → has_value v (lookup k m) ≡ true
  unfolding lookup
  has_value-lookup k v [] h n = absurd (not-mem-nil n)
  has_value-lookup k v ((j, w) ∷ m) (h, hs) n =
      Or.elim (Bool-set _ _) (eq-or-mem_of_mem-cons n)
        (λ q. ground (arith, e.beq_iff j k, f.beq_iff w v, ap (λ x. x.0) q, ap (λ x. x.1) q))
        (λ n'. ground (
          arith,
          e.beq_iff j k,
          ap (λ x. lookup x m) {x = j} {y = k},
          has_value-lookup k v m hs n',
        ))

  pub mem-lookup : (k : K) (v : V) (m : List (K × V)) → IsMap m → Mem (k, v) m → lookup k m ≡ some v
  mem-lookup k v m h n = has_value-eq v (lookup k m) (has_value-lookup k v m h n)

  -- A key has the same value in whatever order the entries stand.
  pub lookup-perm :
      (k : K) (m n : List (K × V)) → IsMap m → IsMap n → Perm m n → lookup k m ≡ lookup k n
  lookup-perm k m n h h' same = elim (Option-cases (lookup k m)) [
    | inr (v, e) ↦ e ∙ sym (mem-lookup k v n h' (Perm.subset same (k, v) (lookup-mem k v m e)))
    | inl missing ↦ elim (Option-cases (lookup k n)) [
      | inr (v, e) ↦
          mem-lookup k v m h (Perm.subset (Perm.symm same) (k, v) (lookup-mem k v n e)) ∙ sym e
      | inl too ↦ missing ∙ sym too
    ]
  ]
