-- ===== src/Base/Order.antt =====
-- Three-way comparison, as `cmp.Compare`, `cmp.Or` and the functions handed to `slices.SortFunc`.
use compose_monitor.Base.{ℕ, ◌≡◌, refl, ◌≢◌, compare, Ordering, [], ◌∷◌, arith, Text}

-- `cmp.Or` of two comparisons: the first that is not equality.
abbrev pub or_else : Ordering → Ordering → Ordering
or_else Ordering.lt o = Ordering.lt
or_else Ordering.eq o = o
or_else Ordering.gt o = Ordering.gt

abbrev pub swap : Ordering → Ordering
swap Ordering.lt = Ordering.gt
swap Ordering.eq = Ordering.eq
swap Ordering.gt = Ordering.lt

-- What `slices.SortFunc` asks of a comparison: a total preorder.
pub record IsOrder {ℓ} (A : Type ℓ) (cmp : A → A → Ordering) : Type ℓ where
  pub flip : (a b : A) → cmp b a ≡ swap (cmp a b)
  pub congr : (a b c : A) → cmp a b ≡ Ordering.eq → cmp a c ≡ cmp b c
  pub trans : (a b c : A) → cmp a b ≡ Ordering.lt → cmp b c ≡ Ordering.lt → cmp a c ≡ Ordering.lt

pub ℕ-IsOrder : IsOrder ℕ compare
ℕ-IsOrder = record {
  flip = λ a b. ground arith;
  congr = λ a b c h. ground arith;
  trans = λ a b c h k. ground arith;
}

-- `cmp.Compare` on strings: byte by byte.
unfoldable pub compare_text : Text → Text → Ordering
compare_text [] [] = Ordering.eq
compare_text [] (y ∷ ys) = Ordering.lt
compare_text (x ∷ xs) [] = Ordering.gt
compare_text (x ∷ xs) (y ∷ ys) = or_else (compare x y) (compare_text xs ys)

compare_text_flip : (a b : Text) → compare_text b a ≡ swap (compare_text a b)
unfolding compare_text
compare_text_flip [] [] = refl
compare_text_flip [] (y ∷ ys) = refl
compare_text_flip (x ∷ xs) [] = refl
compare_text_flip (x ∷ xs) (y ∷ ys) = ground (arith, compare_text_flip xs ys)

pub compare_text-eq : (a b : Text) → compare_text a b ≡ Ordering.eq → a ≡ b
unfolding compare_text
compare_text-eq [] [] h = refl
compare_text-eq [] (y ∷ ys) h = ground arith
compare_text-eq (x ∷ xs) [] h = ground arith
compare_text-eq (x ∷ xs) (y ∷ ys) h = ground (arith, compare_text-eq xs ys)

pub compare_text_refl : (a : Text) → compare_text a a ≡ Ordering.eq
unfolding compare_text
compare_text_refl [] = refl
compare_text_refl (x ∷ xs) = ground (arith, compare_text_refl xs)

compare_text_trans :
    (a b c : Text)
    → compare_text a b ≡ Ordering.lt
    → compare_text b c ≡ Ordering.lt
    → compare_text a c ≡ Ordering.lt
unfolding compare_text
compare_text_trans [] [] c h k = ground arith
compare_text_trans [] (y ∷ ys) [] h k = ground arith
compare_text_trans [] (y ∷ ys) (z ∷ zs) h k = refl
compare_text_trans (x ∷ xs) [] c h k = ground arith
compare_text_trans (x ∷ xs) (y ∷ ys) [] h k = ground arith
compare_text_trans (x ∷ xs) (y ∷ ys) (z ∷ zs) h k =
    ground (arith, compare_text_trans xs ys zs, compare_text-eq xs ys, compare_text-eq ys zs)

pub Text-IsOrder : IsOrder Text compare_text
Text-IsOrder = record {
  flip = compare_text_flip;
  congr = λ a b c h. ground (arith, compare_text-eq a b h);
  trans = compare_text_trans;
}

-- Comparison by a key.
pub by-IsOrder {ℓ κ} :
    {A : Type ℓ} {K : Type κ} (key : A → K) {cmp : K → K → Ordering}
    → IsOrder K cmp
    → IsOrder A (λ a b. cmp (key a) (key b))
by-IsOrder key o = record {
  flip = λ a b. o.flip (key a) (key b);
  congr = λ a b c. o.congr (key a) (key b) (key c);
  trans = λ a b c. o.trans (key a) (key b) (key c);
}

module _ {ℓ} {A : Type ℓ} {cmp : A → A → Ordering} (o : IsOrder A cmp) where
  pub congr_right : (a b c : A) → cmp b c ≡ Ordering.eq → cmp a b ≡ cmp a c
  congr_right a b c h = ground (arith, o.flip b a, o.flip c a, o.congr b c a)

  pub trans_le : (a b c : A) → cmp a b ≢ Ordering.gt → cmp b c ≢ Ordering.gt → cmp a c ≢ Ordering.gt
  trans_le a b c h k = ground (arith, o.congr a b c, congr_right a b c, o.trans a b c)

-- First by one comparison, then by another.
pub or_else-IsOrder {ℓ} :
    {A : Type ℓ} {f g : A → A → Ordering}
    → IsOrder A f
    → IsOrder A g
    → IsOrder A (λ a b. or_else (f a b) (g a b))
or_else-IsOrder p q = record {
  flip = λ a b. ground (arith, p.flip a b, q.flip a b);
  congr = λ a b c h. ground (arith, p.congr a b c, q.congr a b c);
  trans =
      λ a b c h k. ground (arith, p.congr a b c, q.trans a b c, p.trans a b c, congr_right p a b c);
}
