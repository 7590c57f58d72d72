-- ===== src/Base/Spaces.antt =====
-- `strings.TrimSpace` and `strings.Fields` on UTF-8. Every space that `unicode.IsSpace` knows has a
-- first byte that no other byte of a character can be, so a text is scanned byte by byte.
use compose_monitor.Base.{
  ℕ, zero, suc, Bool, true, false, ◌&&◌, ◌||◌, List, [], ◌∷◌, ◌++◌, Text, ◌==◌, nat_eq, list_eq,
  leb, if◌then◌else◌,
}

-- `\t`, `\n`, `\v`, `\f`, `\r` and the blank
abbrev pub is_space_byte : ℕ → Bool
is_space_byte c = (leb 0x09 c && leb c 0x0d) || c == 0x20

-- The text after a leading space, and nothing for a text that does not begin with one: the spaces
-- of one byte, U+0085 and U+00A0, U+1680, U+2000 to U+200A, U+2028, U+2029, U+202F, U+205F and
-- U+3000.
abbrev pub is_space_two : ℕ → ℕ → Bool
is_space_two c d = c == 0xc2 && (d == 0x85 || d == 0xa0)

abbrev pub is_space_three : ℕ → ℕ → ℕ → Bool
is_space_three c d e =
    (c == 0xe1 && (d == 0x9a && e == 0x80))
    || ((c == 0xe2
          && (d == 0x80 && ((leb 0x80 e && leb e 0x8a) || (e == 0xa8 || (e == 0xa9 || e == 0xaf)))))
        || ((c == 0xe2 && (d == 0x81 && e == 0x9f)) || (c == 0xe3 && (d == 0x80 && e == 0x80))))

-- The length in bytes of the space that a text begins with, or 0.
unfoldable pub space_width : Text → ℕ
space_width [] = 0
space_width (c ∷ []) = if is_space_byte c then 1 else 0
space_width (c ∷ d ∷ []) = if is_space_byte c then 1 else if is_space_two c d then 2 else 0
space_width (c ∷ d ∷ e ∷ s) =
    if is_space_byte c
    then 1
    else if is_space_two c d
    then 2
    else if is_space_three c d e
    then 3
    else 0

-- The spaces that a text begins with are left out; `skip` bytes belong to the space just seen.
unfoldable pub drop_spaces : ℕ → Text → Text
unfolding space_width
drop_spaces skip [] = []
drop_spaces (suc skip) (c ∷ s) = drop_spaces skip s
drop_spaces zero (c ∷ s) = elim (space_width (c ∷ s)) [
  | zero ↦ c ∷ s
  | suc more ↦ drop_spaces more s
]

unfoldable pub drop_last_spaces : Text → Text
unfolding drop_spaces
drop_last_spaces [] = []
drop_last_spaces (c ∷ s) =
    let rest = c ∷ drop_last_spaces s in if drop_spaces 0 (c ∷ s) == [] then [] else rest

-- `strings.TrimSpace`
unfoldable pub trim_space : Text → Text
unfolding drop_spaces drop_last_spaces
trim_space s = drop_last_spaces (drop_spaces 0 s)

-- One more byte in front of the fields: of the first one where no space stood between.
abbrev pub join_field : ℕ → Bool → List Text → List Text
join_field c true (f ∷ fs) = (c ∷ f) ∷ fs
join_field c _ fs = (c ∷ []) ∷ fs

-- A text goes on with its next byte in the same field.
abbrev pub in_field : Text → Bool
in_field [] = false
in_field (c ∷ s) = space_width (c ∷ s) == 0

-- `strings.Fields`
unfoldable pub fields : ℕ → Text → List Text
unfolding space_width
fields skip [] = []
fields (suc skip) (c ∷ s) = fields skip s
fields zero (c ∷ s) = elim (space_width (c ∷ s)) [
  | zero ↦ join_field c (in_field s) (fields 0 s)
  | suc more ↦ fields more s
]

-- `strings.Join` with a blank
unfoldable pub join_blank : List Text → Text
join_blank [] = []
join_blank (f ∷ []) = f
join_blank (f ∷ g ∷ fs) = f ++ 0x20 ∷ join_blank (g ∷ fs)
