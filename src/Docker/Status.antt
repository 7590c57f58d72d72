-- ===== src/Docker/Status.antt =====
-- `statusElapsed` and `statusKind` of internal/adapters/docker/status.go. The regular expression
-- `elapsed` is written out as the function that it computes: its alternatives are tried in order at
-- each position, and the first match counts.
use compose_monitor.Base.{
  ℕ, zero, suc, ◌-◌, Bool, ◌&&◌, [], ◌∷◌, Option, none, some, Text, bytes, nat_eq, leb, length,
  take, if◌then◌else◌, strip_prefix,
}
use compose_monitor.Base.Spaces.{fields, join_blank}

abbrev pub is_digit : ℕ → Bool
is_digit c = leb 0x30 c && leb c 0x39

-- The text after all leading digits.
unfoldable pub skip_digits : Text → Text
skip_digits [] = []
skip_digits (c ∷ s) = let rest = skip_digits s in if is_digit c then rest else c ∷ s

-- The text after `p`, or what comes next where it does not begin with `p`.
abbrev pub after_or : Text → Text → Option Text → Option Text
after_or s p next = elim (strip_prefix s p) [ none ↦ next | some rest ↦ some rest ]

-- The text after an optional piece.
abbrev pub optional : Text → Text → Text
optional p s = elim (strip_prefix s p) [ none ↦ s | some rest ↦ rest ]

-- `(?:seconds?|minutes?|hours?|days?|weeks?|months?|years?)`
unfoldable pub unit_after : Text → Option Text
unfolding strip_prefix
unit_after s =
    elim (after_or s (bytes "second") (
      after_or s (bytes "minute") (
        after_or s (bytes "hour") (
          after_or s (bytes "day") (
            after_or s (bytes "week")
              (after_or s (bytes "month") (after_or s (bytes "year") none))))))) [
                | none ↦ none
                | some rest ↦ some (optional (bytes "s") rest)
              ]

-- `\d+ ` and a unit. No other number of digits can match, since a blank must follow them.
unfoldable pub count_after : Text → Option Text
unfolding skip_digits unit_after
count_after [] = none
count_after (c ∷ s) =
    if is_digit c
    then elim (strip_prefix (skip_digits s) (bytes " ")) [
      | none ↦ none
      | some rest ↦ unit_after rest
    ]
    else none

-- `elapsed` at one position: the text after the match.
unfoldable pub elapsed_after : Text → Option Text
unfolding strip_prefix count_after
elapsed_after s =
    elim (after_or s (bytes "Less than a second")
      (after_or s (bytes "About an hour") (after_or s (bytes "About a minute") (count_after s)))) [
        | none ↦ none
        | some rest ↦ some (optional (bytes " ago") rest)
      ]

-- The bytes of the first text up to where the second, which it ends with, begins.
abbrev pub matched : Text → Text → Text
matched s rest = take (length s - length rest) s

-- `statusElapsed`
unfoldable pub status_elapsed : Text → Text
unfolding elapsed_after
status_elapsed [] = []
status_elapsed (c ∷ s) =
    let later = status_elapsed s in
    elim (elapsed_after (c ∷ s)) [ none ↦ later | some rest ↦ matched (c ∷ s) rest ]

-- `elapsed.ReplaceAllString(status, "")`: `skip` bytes belong to the match just found.
unfoldable pub without_elapsed : ℕ → Text → Text
unfolding elapsed_after
without_elapsed skip [] = []
without_elapsed (suc skip) (c ∷ s) = without_elapsed skip s
without_elapsed zero (c ∷ s) = elim (elapsed_after (c ∷ s)) [
  | none ↦ c ∷ without_elapsed 0 s
  | some rest ↦ without_elapsed (length s - length rest) s
]

-- `statusKind`
unfoldable pub status_kind : Text → Text
unfolding without_elapsed fields join_blank
status_kind status = join_blank (fields 0 (without_elapsed 0 status))
