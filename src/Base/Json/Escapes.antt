-- ===== src/Base/Json/Escapes.antt =====
-- No byte of an encoded string is a control character.
use compose_monitor.Base.{
  ℕ, zero, suc, ◌-◌, ◌≤◌, ◌≡◌, true, [], ◌∷◌, Text, bytes, ◌%◌, All, All-append, ltb, arith,
  Bool-cases, inl, inr, ◌==◌, nat_eq,
}
use compose_monitor.Base.Json.{
  Pending, copies, skips, escape, escape_byte, escape_char, rune_width, is_separator, json_string,
  hex_digit, third, width_two, width_three, width_four, leads_four,
}
use compose_monitor.Base.Json.Branches.{
  escape_char-ascii, escape_char-broken, escape_char-separator, escape_char-whole,
}

abbrev pub IsPrintable : Text → Type 0
IsPrintable = All (λ c. 0x20 ≤ c)

-- The bytes that are still to be copied are none of ASCII.
abbrev pub Fits : Pending → Text → Type 0
Fits (copies zero) s = Unit
Fits (copies (suc n)) [] = Unit
Fits (copies (suc n)) (c ∷ s) = (0x80 ≤ c) × Fits (copies n) s
Fits (skips n) s = Unit

Fits-width_two : (c d : ℕ) (s : Text) → Fits (copies (width_two c d - 1)) (d ∷ s)
Fits-width_two c d s = ground arith

Fits-width_three : (c d e : ℕ) (s : Text) → Fits (copies (width_three c d e - 1)) (d ∷ e ∷ s)
Fits-width_three c d e s = ground (arith, Fits-width_two c d (e ∷ s))

high_four : (c d e f : ℕ) → leads_four c d e f ≡ true → (0x80 ≤ d) × (0x80 ≤ e) × (0x80 ≤ f)
high_four c d e f h = ground arith

Fits-width_four : (c d e f : ℕ) (s : Text) → Fits (copies (width_four c d e f - 1)) (d ∷ e ∷ f ∷ s)
Fits-width_four c d e f s = elim (Bool-cases (leads_four c d e f)) [
  | inl four ↦ let (h, i, j) = high_four c d e f four in rw four (h, (i, (j, tt)))
  | inr less ↦ rw less (Fits-width_three c d e (f ∷ s))
]

pub Fits-rune_width : (c : ℕ) (s : Text) → Fits (copies (rune_width (c ∷ s) - 1)) s
unfolding rune_width
Fits-rune_width c [] = tt
Fits-rune_width c (d ∷ []) = Fits-width_two c d []
Fits-rune_width c (d ∷ e ∷ []) = Fits-width_three c d e []
Fits-rune_width c (d ∷ e ∷ f ∷ s) = Fits-width_four c d e f s

hex_digit_printable : (n : ℕ) → 0x20 ≤ hex_digit n
hex_digit_printable n = ground arith

escape_byte-IsPrintable : (c : ℕ) → IsPrintable (escape_byte c)
unfolding escape_byte
escape_byte-IsPrintable c = ground arith

escape_char-IsPrintable :
    (c : ℕ) (s : Text) (rest : Pending → Text)
    → ((p : Pending) → Fits p s → IsPrintable (rest p))
    → IsPrintable (escape_char c s rest)
escape_char-IsPrintable c s rest h = elim (Bool-cases (ltb c 0x80)) [
  | inl ascii ↦ rw (escape_char-ascii c s rest ascii) (
      All-append (λ c. 0x20 ≤ c) (escape_byte c) (rest (copies 0)) (escape_byte-IsPrintable c)
        (h (copies 0) tt))
  | inr high ↦ elim (Bool-cases (rune_width (c ∷ s) == 0)) [
    | inl broken ↦ rw (escape_char-broken c s rest high broken) (
        All-append (λ c. 0x20 ≤ c) (bytes "\\ufffd") (rest (copies 0)) (omega arith)
          (h (copies 0) tt))
    | inr whole ↦ elim (Bool-cases (is_separator (c ∷ s))) [
      | inl separator ↦ rw (escape_char-separator c s rest high whole separator) (
          All-append (λ c. 0x20 ≤ c) (bytes "\\u202") (hex_digit (third s % 16) ∷ rest (skips 2))
            (omega arith) (hex_digit_printable (third s % 16), h (skips 2) tt))
      | inr other ↦
          rw (escape_char-whole c s rest high whole other)
            (ground arith, h (copies (rune_width (c ∷ s) - 1)) (Fits-rune_width c s))
    ]
  ]
]

pub escape-IsPrintable : (p : Pending) (s : Text) → Fits p s → IsPrintable (escape p s)
unfolding escape
escape-IsPrintable p [] h = tt
escape-IsPrintable (copies (suc n)) (c ∷ s) (h, hs) =
    (omega arith, escape-IsPrintable (copies n) s hs)
escape-IsPrintable (skips (suc n)) (c ∷ s) h = escape-IsPrintable (skips n) s tt
escape-IsPrintable (copies zero) (c ∷ s) h =
    escape_char-IsPrintable c s _ (λ p. escape-IsPrintable p s)
escape-IsPrintable (skips zero) (c ∷ s) h =
    escape_char-IsPrintable c s _ (λ p. escape-IsPrintable p s)

-- An encoded string has no control character in it, so none that ends a line.
pub json_string-IsPrintable : (s : Text) → IsPrintable (json_string s)
unfolding json_string
json_string-IsPrintable s = (
  omega arith,
  All-append (λ c. 0x20 ≤ c) (escape (copies 0) s) (b'"' ∷ []) (escape-IsPrintable (copies 0) s tt)
      (omega arith, tt),
)
