-- ===== src/Base/Sort.antt =====
-- `slices.SortFunc`. The library's algorithm is unstable, so nothing is stated of the result but
-- that it is an ordered rearrangement; with no two members equal in the order there is only one.
pub mod Keep
use mathlib.Core.Logic.Or
use mathlib.Core.List.{mem-cons, not-mem-nil, mem-cons_self, mem-cons_of_mem}
use mathlib.Core.HLevel.{¬_prop}
use mathlib.Core.List.Perm
use compose_monitor.Base.{
  ◌≡◌, refl, sym, subst, ◌≢◌, Ordering, List, [], ◌∷◌, Mem, Perm, All, All-mem, arith, ap, inl, inr,
  ◌⊎◌,
}
use compose_monitor.Base.Order.{IsOrder, trans_le}

module _ {ℓ} {A : Type ℓ} (cmp : A → A → Ordering) where
  unfoldable pub insert_sorted : A → List A → List A
  insert_sorted x [] = x ∷ []
  insert_sorted x (y ∷ ys) = elim (cmp x y) [
    | Ordering.gt ↦ y ∷ insert_sorted x ys
    | _ ↦ x ∷ y ∷ ys
  ]

  unfoldable pub sort : List A → List A
  unfolding insert_sorted
  sort [] = []
  sort (x ∷ xs) = insert_sorted x (sort xs)

  abbrev pub IsSorted : List A → Type ℓ
  IsSorted [] = Unit
  IsSorted (x ∷ xs) = All (λ y. cmp x y ≢ Ordering.gt) xs × IsSorted xs

Ordering-cases : (o : Ordering) → (o ≡ Ordering.gt) ⊎ (o ≢ Ordering.gt)
Ordering-cases Ordering.gt = inl refl
Ordering-cases Ordering.lt = inr (λ e. cc)
Ordering-cases Ordering.eq = inr (λ e. cc)

module _ {ℓ} {A : Type ℓ} (cmp : A → A → Ordering) where
  insert_sorted-perm : (x : A) (ys : List A) → Perm (insert_sorted cmp x ys) (x ∷ ys)
  unfolding insert_sorted
  insert_sorted-perm x [] = Perm.refl _
  insert_sorted-perm x (y ∷ ys) =
      let deeper = Perm.trans (Perm.cons y (insert_sorted-perm x ys)) (Perm.swap x y ys) in
      let here = Perm.refl (x ∷ y ∷ ys) in ground (arith, deeper, here)

  -- The result is a rearrangement of the argument.
  pub sort-perm : (xs : List A) → Perm (sort cmp xs) xs
  unfolding sort
  sort-perm [] = Perm.refl []
  sort-perm (x ∷ xs) = Perm.trans (insert_sorted-perm x (sort cmp xs)) (Perm.cons x (sort-perm xs))

  pub mem-sort : (a : A) (xs : List A) → Mem a (sort cmp xs) → Mem a xs
  mem-sort a xs m = Perm.subset (sort-perm xs) a m

  module _ (o : IsOrder A cmp) where
    All-le :
        (x y : A) (zs : List A)
        → cmp x y ≢ Ordering.gt
        → All (λ z. cmp y z ≢ Ordering.gt) zs
        → All (λ z. cmp x z ≢ Ordering.gt) zs
    All-le x y [] h _ = tt
    All-le x y (z ∷ zs) h (k, ks) = (trans_le o x y z h k, All-le x y zs h ks)

    insert_sorted-All :
        (w x : A) (ys : List A)
        → cmp w x ≢ Ordering.gt
        → All (λ y. cmp w y ≢ Ordering.gt) ys
        → All (λ y. cmp w y ≢ Ordering.gt) (insert_sorted cmp x ys)
    unfolding insert_sorted
    insert_sorted-All w x [] h _ = (h, tt)
    insert_sorted-All w x (y ∷ ys) h (k, ks) = ground (arith, insert_sorted-All w x ys h ks)

    insert_sorted-IsSorted :
        (x : A) (ys : List A) → IsSorted cmp ys → IsSorted cmp (insert_sorted cmp x ys)
    unfolding insert_sorted
    insert_sorted-IsSorted x [] _ = (tt, tt)
    insert_sorted-IsSorted x (y ∷ ys) (h, hs) = elim (Ordering-cases (cmp x y)) [
      | inl gt ↦
          rw (gt, insert_sorted)
            (
              insert_sorted-All y x ys (ground (arith, o.flip x y)) h,
              insert_sorted-IsSorted x ys hs,
            )
      | inr le ↦ let all = All-le x y ys le h in ground (arith, all)
    ]

    -- The result is in order.
    pub sort-IsSorted : (xs : List A) → IsSorted cmp (sort cmp xs)
    unfolding sort
    sort-IsSorted [] = tt
    sort-IsSorted (x ∷ xs) = insert_sorted-IsSorted x (sort cmp xs) (sort-IsSorted xs)

    le_head :
        (x y : A) (ys : List A)
        → All (λ z. cmp x z ≢ Ordering.gt) ys
        → Mem y (x ∷ ys)
        → cmp x y ≢ Ordering.gt
    le_head x y ys h m =
        Or.elim ¬_prop (mem-cons.0 m) (λ e. rw e (ground (arith, o.flip x x)))
          (All-mem (λ z. cmp x z ≢ Ordering.gt) (λ z. ¬_prop) ys h y)

    -- Where members that are equal in the order are one, an ordered rearrangement is unique: it
    -- does not matter how a list is sorted.
    pub IsSorted-eq_of_perm :
        (xs ys : List A)
        → ((a b : A) → Mem a xs → Mem b xs → cmp a b ≡ Ordering.eq → a ≡ b)
        → IsSorted cmp xs
        → IsSorted cmp ys
        → Perm xs ys
        → xs ≡ ys
    IsSorted-eq_of_perm [] [] anti h k p = refl
    IsSorted-eq_of_perm [] (y ∷ ys) anti h k p =
        absurd (not-mem-nil (Perm.subset (Perm.symm p) y mem-cons_self))
    IsSorted-eq_of_perm (x ∷ xs) [] anti h k p =
        absurd (not-mem-nil (Perm.subset p x mem-cons_self))
    IsSorted-eq_of_perm (x ∷ xs) (y ∷ ys) anti (h, hs) (k, ks) p =
        let y_in : Mem y (x ∷ xs) = Perm.subset (Perm.symm p) y mem-cons_self in
        let x_le = le_head x y xs h y_in in
        let y_le = le_head y x ys k (Perm.subset p x mem-cons_self) in
        let same : x ≡ y = anti x y mem-cons_self y_in (ground (arith, o.flip x y, x_le, y_le)) in
        let rest = Perm.cons_inv (subst (λ z. Perm (x ∷ xs) (z ∷ ys)) (sym same) p) in
        cc (
          same,
          IsSorted-eq_of_perm xs ys
              (λ a b m n. anti a b (mem-cons_of_mem x m) (mem-cons_of_mem x n)) hs ks rest,
        )
