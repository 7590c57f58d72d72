-- ===== src/Base/Quote.antt =====
-- The verb `%q` of fmt for a string: `strconv.Quote`, over UTF-8. Which characters beyond ASCII are
-- printable is a parameter, the table of `strconv.IsPrint`.
use compose_monitor.Base.{
  ℕ, zero, suc, ◌+◌, ◌-◌, ◌*◌, ◌/◌, ◌%◌, Bool, ◌||◌, [], ◌∷◌, ◌++◌, Text, bytes, ltb, ◌==◌, nat_eq,
  if◌then◌else◌,
}
use compose_monitor.Base.Json.{Pending, copies, skips, between, hex_digit, rune_width}

-- The last digits of a number in base 16.
abbrev hex_digits : ℕ → ℕ → Text
hex_digits zero n = []
hex_digits (suc count) n = hex_digits count (n / 16) ++ hex_digit (n % 16) ∷ []

-- `appendEscapedRune` for a byte below 0x80.
unfoldable pub quote_byte : ℕ → Text
quote_byte c =
    if c == b'"' || c == 0x5c
    then 0x5c ∷ c ∷ []
    else if between 0x20 c 0x7e
    then c ∷ []
    else if c == 0x07
    then bytes "\\a"
    else if c == 0x08
    then bytes "\\b"
    else if c == 0x0c
    then bytes "\\f"
    else if c == 0x0a
    then bytes "\\n"
    else if c == 0x0d
    then bytes "\\r"
    else if c == 0x09
    then bytes "\\t"
    else if c == 0x0b
    then bytes "\\v"
    else bytes "\\x" ++ hex_digits 2 c

-- The character that a text begins with, by the number of its bytes.
unfoldable pub rune_of : ℕ → Text → ℕ
rune_of width (c ∷ d ∷ []) = c % 32 * 64 + d % 64
rune_of width (c ∷ d ∷ e ∷ []) =
    if width == 2 then c % 32 * 64 + d % 64 else (c % 16 * 64 + d % 64) * 64 + e % 64
rune_of width (c ∷ d ∷ e ∷ f ∷ s) =
    if width == 2
    then c % 32 * 64 + d % 64
    else if width == 3
    then (c % 16 * 64 + d % 64) * 64 + e % 64
    else ((c % 8 * 64 + d % 64) * 64 + e % 64) * 64 + f % 64
rune_of _ _ = 0

-- `appendEscapedRune` for a character that is not printable.
abbrev escaped_rune : ℕ → Text
escaped_rune r =
    if ltb r 0x10000 then bytes "\\u" ++ hex_digits 4 r else bytes "\\U" ++ hex_digits 8 r

-- The bytes for the character that begins with a byte, in front of those for the rest.
unfoldable pub quote_char : (ℕ → Bool) → ℕ → Text → (Pending → Text) → Text
unfolding quote_byte rune_of rune_width
quote_char is_print c s rest =
    let width = rune_width (c ∷ s) in
    if ltb c 0x80
    then quote_byte c ++ rest (copies 0)
    else if width == 0
    then (bytes "\\x" ++ hex_digits 2 c) ++ rest (copies 0)
    else if is_print (rune_of width (c ∷ s))
    then c ∷ rest (copies (width - 1))
    else escaped_rune (rune_of width (c ∷ s)) ++ rest (skips (width - 1))

unfoldable pub quote_rest : (ℕ → Bool) → Pending → Text → Text
unfolding quote_char
quote_rest is_print p [] = []
quote_rest is_print (copies (suc n)) (c ∷ s) = c ∷ quote_rest is_print (copies n) s
quote_rest is_print (skips (suc n)) (c ∷ s) = quote_rest is_print (skips n) s
quote_rest is_print (copies zero) (c ∷ s) = quote_char is_print c s (λ p. quote_rest is_print p s)
quote_rest is_print (skips zero) (c ∷ s) = quote_char is_print c s (λ p. quote_rest is_print p s)

-- `strconv.Quote`
unfoldable pub quote : (ℕ → Bool) → Text → Text
unfolding quote_rest
quote is_print s = b'"' ∷ (quote_rest is_print (copies 0) s ++ b'"' ∷ [])
