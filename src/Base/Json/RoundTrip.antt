-- ===== src/Base/Json/RoundTrip.antt =====
-- An encoded string is read back as the string.
use mathlib.Core.List.{append_assoc}
use compose_monitor.Base.{
  ℕ, zero, suc, ◌-◌, ◌≡◌, refl, ◌∙◌, sym, ap, subst, Bool, true, ◌&&◌, ◌||◌, not, some, [], ◌∷◌,
  ◌++◌, Text, ltb, ◌==◌, nat_eq, if◌then◌else◌, arith, drop, Bool-cases, inl, inr, ◌⊎◌,
}
use compose_monitor.Base.Json.{
  Pending, copies, skips, escape, escape_byte, escape_char, rune_width, is_separator, json_string,
  third,
}
use compose_monitor.Base.Json.Branches.{escape_char-ascii, escape_char-separator, escape_char-whole}
use compose_monitor.Base.Json.Escapes.{Fits, Fits-rune_width}
use compose_monitor.Base.Json.Reading.{
  plain, read_string, in_front, read_string-escape_byte, read_string-high, read_string-separator,
}

-- A text is UTF-8, after some bytes of its first character.
unfoldable pub is_utf8 : ℕ → Text → Bool
unfolding rune_width
is_utf8 n [] = true
is_utf8 (suc n) (c ∷ s) = is_utf8 n s
is_utf8 zero (c ∷ s) =
    (ltb c 0x80 || not (rune_width (c ∷ s) == 0))
    && is_utf8 (if ltb c 0x80 then 0 else rune_width (c ∷ s) - 1) s

abbrev surviving : Pending → Text → Text
surviving (copies n) s = s
surviving (skips n) s = drop n s

abbrev pending : Pending → ℕ
pending (copies n) = n
pending (skips n) = n

separator_bytes :
    (c d e : ℕ)
    → ((c == 0xe2 && d == 0x80) && (e == 0xa8 || e == 0xa9)) ≡ true
    → (c ≡ 0xe2) × (d ≡ 0x80) × ((e ≡ 0xa8) ⊎ (e ≡ 0xa9))
separator_bytes c d e h = elim (Bool-cases (e == 0xa8)) [
  | inl first ↦ (ground arith, ground arith, inl (ground arith))
  | inr other ↦ (ground arith, ground arith, inr (ground arith))
]

separator_width :
    (c d e : ℕ) (s : Text)
    → c ≡ 0xe2
    → d ≡ 0x80
    → (e ≡ 0xa8) ⊎ (e ≡ 0xa9)
    → rune_width (c ∷ d ∷ e ∷ s) ≡ 3
unfolding rune_width
separator_width c d e [] lead second (inl first) = rw (lead, second, first) refl
separator_width c d e [] lead second (inr first) = rw (lead, second, first) refl
separator_width c d e (f ∷ s) lead second (inl first) = rw (lead, second, first) (ground arith)
separator_width c d e (f ∷ s) lead second (inr first) = rw (lead, second, first) (ground arith)

separator_parts :
    (c : ℕ) (s : Text)
    → is_separator (c ∷ s) ≡ true
    → (c ≡ 0xe2)
      × (s ≡ 0x80 ∷ third s ∷ drop 2 s)
      × ((third s ≡ 0xa8) ⊎ (third s ≡ 0xa9))
      × (rune_width (c ∷ s) ≡ 3)
unfolding is_separator
separator_parts c [] h = absurd (ground arith)
separator_parts c (d ∷ []) h = absurd (ground arith)
separator_parts c (d ∷ e ∷ []) h =
    let (lead, second, which) = separator_bytes c d e h in
    (lead, cc second, which, separator_width c d e [] lead second which)
separator_parts c (d ∷ e ∷ f ∷ s) h =
    let (lead, second, which) = separator_bytes c d e h in
    (lead, cc second, which, separator_width c d e (f ∷ s) lead second which)

module _ (q r : Text) where
  read_string-escape_char :
      (c : ℕ) (s : Text) (go : Pending → Text)
      → is_utf8 0 (c ∷ s) ≡ true
      → ((p : Pending)
          → Fits p s
          → is_utf8 (pending p) s ≡ true
          → read_string plain (go p ++ q) ≡ some (surviving p s, r))
      → read_string plain (escape_char c s go ++ q) ≡ some (c ∷ s, r)
  unfolding is_utf8
  read_string-escape_char c s go valid h = elim (Bool-cases (ltb c 0x80)) [
    | inl ascii ↦ rw (escape_char-ascii c s go ascii) (
        rw (append_assoc (escape_byte c) (go (copies 0)) q) (
          read_string-escape_byte c (go (copies 0) ++ q) (ground arith)
          ∙ ap (in_front (c ∷ [])) (h (copies 0) tt (ground arith))))
    | inr high ↦ elim (Bool-cases (rune_width (c ∷ s) == 0)) [
      | inl broken ↦ absurd (ground arith)
      | inr whole ↦
          let rest_valid : is_utf8 (rune_width (c ∷ s) - 1) s ≡ true = ground arith in
          elim (Bool-cases (is_separator (c ∷ s))) [
            | inl separator ↦
                let (lead, parts, which, width) = separator_parts c s separator in
                let same : c ∷ s ≡ 0xe2 ∷ 0x80 ∷ third s ∷ drop 2 s = cc in
                rw (escape_char-separator c s go high whole separator) (
                  read_string-separator (third s) (go (skips 2) ++ q) which
                  ∙ ap (in_front (0xe2 ∷ 0x80 ∷ third s ∷ []))
                      (h (skips 2) tt (subst (λ w. is_utf8 (w - 1) s ≡ true) width rest_valid))
                  ∙ ap (λ t. some (t, r)) (sym same))
            | inr other ↦ rw (escape_char-whole c s go high whole other) (
                read_string-high c (go (copies (rune_width (c ∷ s) - 1)) ++ q) (ground arith)
                ∙ ap (in_front (c ∷ []))
                    (h (copies (rune_width (c ∷ s) - 1)) (Fits-rune_width c s) rest_valid))
          ]
    ]
  ]

  module _ (quoted : read_string plain q ≡ some ([], r)) where
    read_string-escape :
        (p : Pending) (s : Text)
        → Fits p s
        → is_utf8 (pending p) s ≡ true
        → read_string plain (escape p s ++ q) ≡ some (surviving p s, r)
    unfolding escape is_utf8
    read_string-escape (copies n) [] h valid = quoted
    read_string-escape (skips zero) [] h valid = quoted
    read_string-escape (skips (suc n)) [] h valid = quoted
    read_string-escape (copies (suc n)) (c ∷ s) (h, hs) valid =
        read_string-high c (escape (copies n) s ++ q) h
        ∙ ap (in_front (c ∷ [])) (read_string-escape (copies n) s hs valid)
    read_string-escape (skips (suc n)) (c ∷ s) h valid = read_string-escape (skips n) s tt valid
    read_string-escape (copies zero) (c ∷ s) h valid =
        read_string-escape_char c s _ valid (λ p. read_string-escape p s)
    read_string-escape (skips zero) (c ∷ s) h valid =
        read_string-escape_char c s _ valid (λ p. read_string-escape p s)

-- A text that is UTF-8, encoded and read back from after its opening quote, is the text, and the
-- reader ends right behind the closing quote, whatever follows.
pub read_string-json_string :
    (s rest : Text)
    → is_utf8 0 s ≡ true
    → (body : Text) × (json_string s ++ rest ≡ b'"' ∷ body)
      × (read_string plain body ≡ some (s, rest))
unfolding json_string read_string
read_string-json_string s rest valid = (
  escape (copies 0) s ++ (b'"' ∷ rest),
  ap (λ t. b'"' ∷ t) (append_assoc (escape (copies 0) s) (b'"' ∷ []) rest),
  read_string-escape (b'"' ∷ rest) rest refl (copies 0) s tt valid,
)
