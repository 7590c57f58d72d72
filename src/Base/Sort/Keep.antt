-- ===== src/Base/Sort/Keep.antt =====
-- Sorting and a test that at most one member passes.
use compose_monitor.Base.{
  ◌≡◌, refl, ◌∙◌, inl, inr, Bool, true, false, List, [], ◌∷◌, ◌++◌, arith, keep, Bool-cases,
  Ordering,
}
use compose_monitor.Base.Sort.{sort, insert_sorted}

pub keep-append {ℓ} :
    {A : Type ℓ} (p : A → Bool) (xs ys : List A) → keep p (xs ++ ys) ≡ keep p xs ++ keep p ys
unfolding keep
keep-append p [] ys = refl
keep-append p (x ∷ xs) ys = ground (arith, keep-append p xs ys)

module _ {ℓ} {A : Type ℓ} (cmp : A → A → Ordering) (p : A → Bool) where
  keep-insert_sorted_drop :
      (x : A) (ys : List A) → p x ≡ false → keep p (insert_sorted cmp x ys) ≡ keep p ys
  unfolding keep insert_sorted
  keep-insert_sorted_drop x [] h = ground arith
  keep-insert_sorted_drop x (y ∷ ys) h = ground (arith, keep-insert_sorted_drop x ys h)

  keep-insert_sorted_alone :
      (x : A) (ys : List A) → p x ≡ true → keep p ys ≡ [] → keep p (insert_sorted cmp x ys) ≡ x ∷ []
  unfolding keep insert_sorted
  keep-insert_sorted_alone x [] h e = ground arith
  keep-insert_sorted_alone x (y ∷ ys) h e = ground (arith, keep-insert_sorted_alone x ys h)

  pub keep-sort_none : (xs : List A) → keep p xs ≡ [] → keep p (sort cmp xs) ≡ []
  unfolding keep sort
  keep-sort_none [] e = refl
  keep-sort_none (x ∷ xs) e = elim (Bool-cases (p x)) [
    | inl hit ↦ ground arith
    | inr miss ↦ keep-insert_sorted_drop x (sort cmp xs) miss ∙ keep-sort_none xs (ground arith)
  ]

  -- Sorting does not disturb the only member that passes a test.
  pub keep-sort_alone : (xs : List A) (a : A) → keep p xs ≡ a ∷ [] → keep p (sort cmp xs) ≡ a ∷ []
  unfolding keep sort
  keep-sort_alone [] a e = e
  keep-sort_alone (x ∷ xs) a e = elim (Bool-cases (p x)) [
    | inl hit ↦
        keep-insert_sorted_alone x (sort cmp xs) hit (keep-sort_none xs (ground arith))
        ∙ ground arith
    | inr miss ↦ keep-insert_sorted_drop x (sort cmp xs) miss ∙ keep-sort_alone xs a (ground arith)
  ]
