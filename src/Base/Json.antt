-- ===== src/Base/Json.antt =====
-- Strings as `json.Marshal` of encoding/json writes them, over UTF-8.
pub mod Reading
pub mod Branches
pub mod RoundTrip
pub mod Escapes
use compose_monitor.Base.{
  ℕ, zero, suc, ◌+◌, ◌-◌, ◌/◌, ◌%◌, Bool, true, false, ◌&&◌, ◌||◌, List, [], ◌∷◌, ◌++◌, Text, bytes,
  ltb, leb, ◌==◌, nat_eq, list_eq, if◌then◌else◌,
}

abbrev pub between : ℕ → ℕ → ℕ → Bool
between low c high = leb low c && leb c high

abbrev pub is_continuation : ℕ → Bool
is_continuation c = between 0x80 c 0xbf

-- `utf8.DecodeRuneInString`: the length of the character that a text begins with, whose first byte
-- is not ASCII, and 0 where it begins with none.
abbrev pub width_two : ℕ → ℕ → ℕ
width_two c d = if between 0xc2 c 0xdf && is_continuation d then 2 else 0

abbrev pub leads_three : ℕ → ℕ → ℕ → Bool
leads_three c d e =
    is_continuation e
    && ((c == 0xe0 && between 0xa0 d 0xbf)
        || ((c == 0xed && between 0x80 d 0x9f)
            || ((between 0xe1 c 0xec || between 0xee c 0xef) && is_continuation d)))

abbrev pub width_three : ℕ → ℕ → ℕ → ℕ
width_three c d e = if leads_three c d e then 3 else width_two c d

abbrev pub leads_four : ℕ → ℕ → ℕ → ℕ → Bool
leads_four c d e f =
    (is_continuation e && is_continuation f)
    && ((c == 0xf0 && between 0x90 d 0xbf)
        || ((c == 0xf4 && between 0x80 d 0x8f) || (between 0xf1 c 0xf3 && is_continuation d)))

abbrev pub width_four : ℕ → ℕ → ℕ → ℕ → ℕ
width_four c d e f = if leads_four c d e f then 4 else width_three c d e

unfoldable pub rune_width : Text → ℕ
rune_width [] = 0
rune_width (c ∷ []) = 0
rune_width (c ∷ d ∷ []) = width_two c d
rune_width (c ∷ d ∷ e ∷ []) = width_three c d e
rune_width (c ∷ d ∷ e ∷ f ∷ s) = width_four c d e f

-- The line separators U+2028 and U+2029
unfoldable pub is_separator : Text → Bool
is_separator (c ∷ d ∷ e ∷ s) = (c == 0xe2 && d == 0x80) && (e == 0xa8 || e == 0xa9)
is_separator _ = false

abbrev pub hex_digit : ℕ → ℕ
hex_digit n = if ltb n 10 then b'0' + n else b'a' + (n - 10)

-- `htmlSafeSet`
abbrev pub is_html_safe : ℕ → Bool
is_html_safe c =
    leb 0x20 c
    && (if c == b'"' || (c == 0x5c || (c == b'&' || (c == b'<' || c == b'>')))
        then false
        else ltb c 0x80)

-- The bytes for one byte below 0x80.
unfoldable pub escape_byte : ℕ → Text
escape_byte c =
    if is_html_safe c
    then c ∷ []
    else if c == 0x5c || c == b'"'
    then 0x5c ∷ c ∷ []
    else if c == 0x08
    then bytes "\\b"
    else if c == 0x0c
    then bytes "\\f"
    else if c == 0x0a
    then bytes "\\n"
    else if c == 0x0d
    then bytes "\\r"
    else if c == 0x09
    then bytes "\\t"
    else bytes "\\u00" ++ hex_digit (c / 16) ∷ hex_digit (c % 16) ∷ []

abbrev pub third : Text → ℕ
third (d ∷ e ∷ s) = e
third _ = 0

-- What is left of a character whose first byte has been seen: bytes to copy, or to leave out.
pub data Pending : Type 0 where
  copies skips : ℕ → Pending

-- The bytes for the character that begins with a byte, in front of those for the rest.
unfoldable pub escape_char : ℕ → Text → (Pending → Text) → Text
unfolding escape_byte rune_width is_separator
escape_char c s rest =
    if ltb c 0x80
    then escape_byte c ++ rest (copies 0)
    else if rune_width (c ∷ s) == 0
    then bytes "\\ufffd" ++ rest (copies 0)
    else if is_separator (c ∷ s)
    then bytes "\\u202" ++ hex_digit (third s % 16) ∷ rest (skips 2)
    else c ∷ rest (copies (rune_width (c ∷ s) - 1))

unfoldable pub escape : Pending → Text → Text
unfolding escape_char
escape p [] = []
escape (copies (suc n)) (c ∷ s) = c ∷ escape (copies n) s
escape (skips (suc n)) (c ∷ s) = escape (skips n) s
escape (copies zero) (c ∷ s) = escape_char c s (λ p. escape p s)
escape (skips zero) (c ∷ s) = escape_char c s (λ p. escape p s)

-- A string literal.
unfoldable pub json_string : Text → Text
unfolding escape
json_string s = b'"' ∷ (escape (copies 0) s ++ b'"' ∷ [])
