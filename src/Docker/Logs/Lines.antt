-- ===== src/Docker/Logs/Lines.antt =====
-- `splitLines` and `splitTimestamp` on what the runtime writes: lines with a timestamp before each.
use mathlib.Core.List.{append_assoc}
use compose_monitor.Base.{
  ℕ, ◌≡◌, ◌≢◌, refl, sym, ◌∙◌, ap, ap₂, false, List, [], ◌∷◌, ◌++◌, map, Option, some, arith, Text,
  ◌==◌, nat_eq, list_eq, All, list_beq, cut, trim_newline, newline, split, split-append,
  nat_beq_iff,
}
use compose_monitor.Base.Instant.{Time}
use compose_monitor.Domain.Detail.{LogStream, LogLine}
use compose_monitor.Docker.Logs.{split_timestamp, to_line, split_lines, space}

-- A line as the runtime writes it.
pub record Entry : Type 0 where
  pub stamp : Text
  pub text : Text
  pub at : Time

abbrev pub written : Entry → Text
written e = e.stamp ++ space ∷ e.text

-- The payload of a frame.
abbrev pub payload_of : List Entry → Text
payload_of [] = []
payload_of (e ∷ es) = written e ++ newline ∷ payload_of es

abbrev Avoids : ℕ → Text → Type 0
Avoids c = All (λ d. d ≢ c)

-- The timestamp is one, and neither it nor the line has a byte that would end it.
pub record IsEntry (parse : Text → Option Time) (e : Entry) : Type 0 where
  pub stamped : parse e.stamp ≡ some e.at
  pub stamp_word : All (λ d. (d ≢ space) × (d ≢ newline)) e.stamp
  pub text_line : All (λ d. d ≢ newline) e.text

abbrev pub line_of : LogStream → Entry → LogLine
line_of stream e = record { at = e.at; stream = stream; text = e.text }

cut-append :
    (s t : Text)
    → All (λ d. (d ≢ space) × (d ≢ newline)) s
    → cut space (s ++ space ∷ t) ≡ some (s, t)
unfolding cut
cut-append [] t h = refl
cut-append (c ∷ s) t (h, hs) = ground (arith, cut-append s t hs, nat_beq_iff c space)

split-one : (s : Text) → All (λ d. d ≢ newline) s → split newline s ≡ s ∷ []
unfolding split
split-one [] h = refl
split-one (c ∷ s) (h, hs) = ground (arith, split-one s hs, nat_beq_iff c newline)

trim_newline-append : (s : Text) → trim_newline (s ++ newline ∷ []) ≡ s
unfolding trim_newline
trim_newline-append [] = refl
trim_newline-append (c ∷ []) = refl
trim_newline-append (c ∷ d ∷ s) = ap (λ r. c ∷ r) (trim_newline-append (d ∷ s))

written-line :
    (s t : Text)
    → All (λ d. (d ≢ space) × (d ≢ newline)) s
    → All (λ d. d ≢ newline) t
    → All (λ d. d ≢ newline) (s ++ space ∷ t)
written-line [] t h k = (omega arith, k)
written-line (c ∷ s) t ((h, h'), hs) k = (h', written-line s t hs k)

-- The payload without its last newline.
abbrev joined : Entry → List Entry → Text
joined e [] = written e
joined e (f ∷ es) = written e ++ newline ∷ joined f es

payload_of-joined :
    (e : Entry) (es : List Entry) → payload_of (e ∷ es) ≡ joined e es ++ newline ∷ []
payload_of-joined e [] = refl
payload_of-joined e (f ∷ es) =
    ap (λ r. written e ++ newline ∷ r) (payload_of-joined f es)
    ∙ sym (append_assoc (written e) (newline ∷ joined f es) (newline ∷ []))

append-nonempty : (s t : Text) (c : ℕ) → ((s ++ c ∷ t) == []) ≡ false
unfolding list_beq
append-nonempty [] t c = refl
append-nonempty (d ∷ s) t c = refl

module _ (parse : Text → Option Time) where
  to_line-written :
      (stream : LogStream) (e : Entry)
      → IsEntry parse e
      → to_line parse stream (written e) ≡ line_of stream e
  unfolding split_timestamp
  to_line-written stream e v =
      rw (cut-append e.stamp e.text v.stamp_word, split_timestamp, v.stamped) refl

  split-joined :
      (stream : LogStream) (e : Entry) (es : List Entry)
      → All (IsEntry parse) (e ∷ es)
      → map (to_line parse stream) (split newline (joined e es)) ≡ map (line_of stream) (e ∷ es)
  split-joined stream e [] (v, vs) =
      ap (map (to_line parse stream))
        (split-one (written e) (written-line e.stamp e.text v.stamp_word v.text_line))
      ∙ ap (λ l. l ∷ []) (to_line-written stream e v)
  split-joined stream e (f ∷ es) (v, vs) =
      ap (map (to_line parse stream)) (
        split-append newline (written e) (joined f es)
          (written-line e.stamp e.text v.stamp_word v.text_line))
      ∙ ap₂ (λ l ls. l ∷ ls) (to_line-written stream e v) (split-joined stream f es vs)

  joined-nonempty : (e : Entry) (es : List Entry) → (joined e es == []) ≡ false
  joined-nonempty e [] = append-nonempty e.stamp e.text space
  joined-nonempty e (f ∷ es) = append-nonempty (written e) (joined f es) newline

  -- A payload of whole lines, each with its timestamp, gives exactly those lines.
  pub split_lines-payload_of :
      (stream : LogStream) (es : List Entry)
      → All (IsEntry parse) es
      → split_lines parse (payload_of es) stream ≡ map (line_of stream) es
  unfolding split_lines list_beq
  split_lines-payload_of stream [] h = unfold trim_newline in refl
  split_lines-payload_of stream (e ∷ es) h =
      rw
        (
          payload_of-joined e es,
          trim_newline-append (joined e es),
          split_lines,
          joined-nonempty e es,
        )
        (split-joined stream e es h)
