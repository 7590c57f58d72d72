-- ===== src/Base/Json/Branches.antt =====
-- The four ways in which a character is written.
use compose_monitor.Base.{
  ℕ, ◌-◌, ◌%◌, ◌≡◌, refl, true, false, ◌∷◌, ◌++◌, Text, bytes, ltb, ◌==◌, nat_eq,
}
use compose_monitor.Base.Json.{
  Pending, copies, skips, escape_char, escape_byte, rune_width, is_separator, hex_digit, third,
}

module _ (c : ℕ) (s : Text) (rest : Pending → Text) where
  pub escape_char-ascii :
      ltb c 0x80 ≡ true → escape_char c s rest ≡ escape_byte c ++ rest (copies 0)
  unfolding escape_char
  escape_char-ascii ascii = rw ascii refl

  module _ (high : ltb c 0x80 ≡ false) where
    pub escape_char-broken :
        (rune_width (c ∷ s) == 0) ≡ true → escape_char c s rest ≡ bytes "\\ufffd" ++ rest (copies 0)
    unfolding escape_char
    escape_char-broken broken = rw (high, broken) refl

    module _ (whole : (rune_width (c ∷ s) == 0) ≡ false) where
      pub escape_char-separator :
          is_separator (c ∷ s) ≡ true
          → escape_char c s rest ≡ bytes "\\u202" ++ hex_digit (third s % 16) ∷ rest (skips 2)
      unfolding escape_char
      escape_char-separator separator = rw (high, whole, separator) refl

      pub escape_char-whole :
          is_separator (c ∷ s) ≡ false
          → escape_char c s rest ≡ c ∷ rest (copies (rune_width (c ∷ s) - 1))
      unfolding escape_char
      escape_char-whole other = rw (high, whole, other) refl
