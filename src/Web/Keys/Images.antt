-- ===== src/Web/Keys/Images.antt =====
-- How an image reference is shortened.
use compose_monitor.Base.{
  ℕ, zero, suc, ◌≡◌, ◌≢◌, refl, ◌∙◌, sym, ap, subst, none, some, List, [], ◌∷◌, ◌++◌, Text, All,
  cut, take, length, leb, nat_eq, Bool-cases, Option-cases, true, false, inl, inr, length-take,
  arith,
}
use compose_monitor.Web.Keys.{short_image, short_digest}

cut-append : (sep : ℕ) (a b : Text) → All (λ c. c ≢ sep) a → cut sep (a ++ (sep ∷ b)) ≡ some (a, b)
unfolding cut
cut-append sep [] b h = ground arith
cut-append sep (c ∷ a) b (h, hs) = ground (arith, cut-append sep a b hs)

take_short {ℓ} : {A : Type ℓ} (n : ℕ) (xs : List A) → leb (length xs) n ≡ true → take n xs ≡ xs
take_short zero [] h = refl
take_short zero (x ∷ xs) h = absurd (ground arith)
take_short (suc n) [] h = refl
take_short (suc n) (x ∷ xs) h = ap (λ t. x ∷ t) (take_short n xs (ground arith))

cut-some :
    (sep : ℕ) (s a b : Text) → cut sep s ≡ some (a, b) → (s ≡ a ++ (sep ∷ b)) × All (λ c. c ≢ sep) a
unfolding cut
cut-some sep [] a b h = absurd (ground arith)
cut-some sep (c ∷ s) [] b h = elim (Option-cases (cut sep s)) [
  | inl missing ↦ ground arith
  | inr ((before, after), found) ↦ ground arith
]
cut-some sep (c ∷ s) (d ∷ a) b h = elim (Option-cases (cut sep s)) [
  | inl missing ↦ ground arith
  | inr ((before, after), found) ↦ ground (arith, cut-some sep s a b)
]

-- Of an image that is pinned by a digest the name and the algorithm are kept whole, and of the
-- digest the first twelve characters, or as many as it has.
pub short_image-reference :
    (name algorithm hex : Text)
    → All (λ c. c ≢ b'@') name
    → All (λ c. c ≢ b':') algorithm
    → short_image (name ++ (b'@' ∷ (algorithm ++ (b':' ∷ hex))))
      ≡ name ++ (b'@' ∷ (algorithm ++ (b':' ∷ take 12 hex)))
unfolding short_image
short_image-reference name algorithm hex p q = elim (Bool-cases (leb (length hex) 12)) [
  | inl short ↦
      rw
        (
          cut-append b'@' name (algorithm ++ (b':' ∷ hex)) p,
          short_image,
          short_digest,
          cut-append b':' algorithm hex q,
          short_digest,
          short,
          take_short 12 hex short,
        )
        refl
  | inr long ↦
      rw
        (
          cut-append b'@' name (algorithm ++ (b':' ∷ hex)) p,
          short_image,
          short_digest,
          cut-append b':' algorithm hex q,
          short_digest,
          long,
        )
        refl
]

short_image-kept :
    (name digest : Text)
    → All (λ c. c ≢ b'@') name
    → short_digest (name ++ (b'@' ∷ digest)) name digest ≡ name ++ (b'@' ∷ digest)
    → short_image (name ++ (b'@' ∷ digest)) ≡ name ++ (b'@' ∷ digest)
unfolding short_image
short_image-kept name digest p e = rw (cut-append b'@' name digest p, short_image) e

take_twice : (hex : Text) → take 12 (take 12 hex) ≡ take 12 hex
take_twice hex = take_short 12 (take 12 hex) (ground (arith, length-take 12 hex))

module _ (image name digest : Text) where
  short_digest-none : cut b':' digest ≡ none → short_digest image name digest ≡ image
  unfolding short_digest
  short_digest-none missing = rw (missing, short_digest) refl

  module _ (algorithm hex : Text) (found : cut b':' digest ≡ some (algorithm, hex)) where
    short_digest-short : leb (length hex) 12 ≡ true → short_digest image name digest ≡ image
    unfolding short_digest
    short_digest-short short = rw (found, short_digest, short) refl

    short_digest-long :
        leb (length hex) 12 ≡ false
        → short_digest image name digest ≡ name ++ (b'@' ∷ (algorithm ++ (b':' ∷ take 12 hex)))
    unfolding short_digest
    short_digest-long long = rw (found, short_digest, long) refl

short_digest_twice :
    (name digest : Text)
    → All (λ c. c ≢ b'@') name
    → let image = name ++ (b'@' ∷ digest) in
      short_image (short_digest image name digest) ≡ short_digest image name digest
short_digest_twice name digest p =
    let image : Text = name ++ (b'@' ∷ digest) in
    let kept = λ (e : short_digest image name digest ≡ image).
      ap short_image e ∙ short_image-kept name digest p e ∙ sym e in
    elim (Option-cases (cut b':' digest)) [
      | inl missing ↦ kept (short_digest-none image name digest missing)
      | inr ((algorithm, hex), found) ↦ elim (Bool-cases (leb (length hex) 12)) [
        | inl short ↦ kept (short_digest-short image name digest algorithm hex found short)
        | inr long ↦
            let e = short_digest-long image name digest algorithm hex found long in
            ap short_image e
            ∙ short_image-reference name algorithm (take 12 hex) p
                (cut-some b':' digest algorithm hex found).1
            ∙ ap (λ t. name ++ (b'@' ∷ (algorithm ++ (b':' ∷ t)))) (take_twice hex)
            ∙ sym e
      ]
    ]

-- Shortening twice is shortening once, for every reference.
pub short_image_twice : (image : Text) → short_image (short_image image) ≡ short_image image
unfolding short_image
short_image_twice image = elim (Option-cases (cut b'@' image)) [
  | inl missing ↦
      let e : short_image image ≡ image = rw (missing, short_image) refl in ap short_image e
  | inr ((name, digest), found) ↦
      let (whole, free) = cut-some b'@' image name digest found in
      let e : short_image image ≡ short_digest image name digest = rw (found, short_image) refl in
      ap short_image e
      ∙ subst (λ t. short_image (short_digest t name digest) ≡ short_digest t name digest)
          (sym whole) (short_digest_twice name digest free)
      ∙ sym e
]
