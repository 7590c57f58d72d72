-- ===== src/Tests/Row.antt =====
-- The theorem on rows, with the escaping that templ documents and one of the embedded icons.
use compose_monitor.Base.{
  ℕ, refl, true, List, [], ◌∷◌, ◌++◌, Text, bytes, All-append, ◌==◌, nat_eq, if◌then◌else◌, arith,
  Bool-cases, inl, inr, list_beq,
}
use compose_monitor.Domain.{Service}
use compose_monitor.Web.Row.{service_item}
use compose_monitor.Web.Row.Markup.{IsWhole, IsPlain, read}
use compose_monitor.Web.Row.Nesting.{service_item-IsWhole}
use compose_monitor.Tests.{web}

abbrev entity : ℕ → Text
entity c =
    if c == b'<'
    then bytes "&lt;"
    else if c == b'"'
    then bytes "&#34;"
    else if c == b'&'
    then bytes "&amp;"
    else if c == b'>'
    then bytes "&gt;"
    else if c == b'\''
    then bytes "&#39;"
    else c ∷ []

abbrev escape : Text → Text
escape [] = []
escape (c ∷ s) = entity c ++ escape s

entity-IsPlain : (c : ℕ) → IsPlain (entity c)
entity-IsPlain c = elim (Bool-cases (c == b'<')) [
  | inl e ↦ rw e (ground arith)
  | inr e1 ↦ elim (Bool-cases (c == b'"')) [
    | inl e ↦ rw (e1, e) (ground arith)
    | inr e2 ↦ elim (Bool-cases (c == b'&')) [
      | inl e ↦ rw (e1, e2, e) (ground arith)
      | inr e3 ↦ elim (Bool-cases (c == b'>')) [
        | inl e ↦ rw (e1, e2, e3, e) (ground arith)
        | inr e4 ↦ elim (Bool-cases (c == b'\'')) [
          | inl e ↦ rw (e1, e2, e3, e4, e) (ground arith)
          | inr e5 ↦ rw (e1, e2, e3, e4, e5) ((ground arith, ground arith), tt)
        ]
      ]
    ]
  ]
]

escape-IsPlain : (s : Text) → IsPlain (escape s)
escape-IsPlain [] = tt
escape-IsPlain (c ∷ s) = All-append _ (entity c) (escape s) (entity-IsPlain c) (escape-IsPlain s)

abbrev join_words : List Text → Text
join_words [] = []
join_words (w ∷ ws) = w ++ (b' ' ∷ join_words ws)

-- internal/adapters/web/shared/icons/files/stop.svg
abbrev square : Text
square =
    bytes
      "<svg viewBox=\"0 0 16 16\" fill=\"none\" stroke=\"currentColor\" stroke-width=\"1.4\" stroke-linecap=\"round\" stroke-linejoin=\"round\" aria-hidden=\"true\" focusable=\"false\"><rect x=\"3.4\" y=\"3.4\" width=\"9.2\" height=\"9.2\" rx=\"1.6\"/></svg>\n"

square-IsWhole : IsWhole square
unfolding read list_beq
square-IsWhole = record { reads = λ open_ones. refl }

-- A service whose name is markup.
abbrev hostile : Service
hostile = record web { name = bytes "</li><script>" }

service_item-IsWhole_example :
    IsWhole (service_item escape join_words (λ icon. square) hostile true true)
service_item-IsWhole_example =
    service_item-IsWhole escape join_words (λ icon. square) escape-IsPlain (λ icon. square-IsWhole)
      hostile true true
