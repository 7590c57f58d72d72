-- ===== src/Realtime/Stream/Frames.antt =====
-- A reader of an event stream, as the standard of server-sent events describes it for lines that
-- end with a newline, and what it reads from the frames of the handler.
use compose_monitor.Base.{
  ◌≡◌, ◌≢◌, refl, ◌∙◌, sym, ap, List, [], ◌∷◌, ◌++◌, Option, none, some, Text, bytes, ◌==◌, nat_eq,
  list_eq, if◌then◌else◌, newline, All-append, split, split-append, split-head, list_beq, cut, All,
  arith,
}
use mathlib.Core.List.{append_assoc}
use compose_monitor.Realtime.Stream.{frame, keep_alive}

-- The event being read: its name and its data so far.
pub record Buffer : Type 0 where
  pub name : Text
  pub data_lines : Option Text

abbrev pub blank_buffer : Buffer
blank_buffer = record { name = []; data_lines = none }

-- A blank after the colon is left out.
abbrev pub trim_blank : Text → Text
trim_blank [] = []
trim_blank (c ∷ s) = if c == b' ' then s else c ∷ s

abbrev pub add_line : Option Text → Text → Text
add_line none v = v
add_line (some d) v = d ++ (newline ∷ v)

abbrev pub with_field : Text → Text → Buffer → Buffer
with_field field value b =
    if field == bytes "event"
    then record b { name = value }
    else if field == bytes "data"
    then record b { data_lines = some (add_line b.data_lines value) }
    else b

unfoldable pub take_line : Text → Buffer → Buffer
unfolding cut
take_line line b = elim (cut b':' line) [
  | none ↦ with_field line [] b
  | some (field, value) ↦ with_field field (trim_blank value) b
]

-- An event is handed on at a blank line, with its name and its data, if it has any.
abbrev pub hand_on : Buffer → List (Text × Text) → List (Text × Text)
hand_on b rest = elim b.data_lines [ none ↦ rest | some d ↦ (b.name, d) ∷ rest ]

-- The last piece is no line: nothing ended it.
unfoldable pub read_lines : Buffer → List Text → List (Text × Text)
unfolding take_line
read_lines b [] = []
read_lines b (line ∷ []) = []
read_lines b (line ∷ next ∷ lines) = elim line [
  | [] ↦ hand_on b (read_lines blank_buffer (next ∷ lines))
  | c ∷ s ↦ read_lines (take_line (c ∷ s) b) (next ∷ lines)
]

unfoldable pub read_stream : Text → List (Text × Text)
unfolding read_lines split
read_stream s = read_lines blank_buffer (split newline s)

-- What the handler writes: an event, or the comment that keeps the connection open.
pub data Frame : Type 0 where
  named : Text → Text → Frame
  comment : Frame

unfoldable pub frame_text : Frame → Text
unfolding frame
frame_text (named name encoded) = frame name encoded
frame_text comment = keep_alive

unfoldable pub written : List Frame → Text
unfolding frame_text
written [] = []
written (f ∷ fs) = frame_text f ++ written fs

abbrev pub events : List Frame → List (Text × Text)
events [] = []
events (named name encoded ∷ fs) = (name, encoded) ∷ events fs
events (comment ∷ fs) = events fs

abbrev pub IsLine : Text → Type 0
IsLine = All (λ c. c ≢ newline)

abbrev pub IsFrame : Frame → Type 0
IsFrame (named name encoded) = IsLine name × IsLine encoded
IsFrame comment = Unit

read_lines-frame :
    (name encoded : Text) (next : Text) (lines : List Text)
    → read_lines blank_buffer
        ((bytes "event: " ++ name) ∷ (bytes "data: " ++ encoded) ∷ [] ∷ next ∷ lines)
      ≡ (name, encoded) ∷ read_lines blank_buffer (next ∷ lines)
unfolding read_lines list_beq
read_lines-frame name encoded next lines = refl

frame-append :
    (name encoded t : Text)
    → frame name encoded ++ t
      ≡ (bytes "event: " ++ name)
        ++ (newline ∷ ((bytes "data: " ++ encoded) ++ (newline ∷ newline ∷ t)))
unfolding frame
frame-append name encoded t = simp append_assoc

read_stream-frame :
    (name encoded t : Text)
    → IsFrame (named name encoded)
    → read_stream (frame name encoded ++ t) ≡ (name, encoded) ∷ read_stream t
unfolding read_stream
read_stream-frame name encoded t (h, i) =
    let (x, xs, e) = split-head newline t in
    let first =
      split-append newline (bytes "event: " ++ name)
        ((bytes "data: " ++ encoded) ++ (newline ∷ newline ∷ t))
        (All-append _ (bytes "event: ") name (omega arith) h) in
    let second =
      split-append newline (bytes "data: " ++ encoded) (newline ∷ t)
        (All-append _ (bytes "data: ") encoded (omega arith) i) in
    let third = split-append newline [] t tt in
    ap (read_lines blank_buffer) (
      ap (split newline) (frame-append name encoded t)
      ∙ first
      ∙ ap (λ l. (bytes "event: " ++ name) ∷ l)
          (second ∙ ap (λ l. (bytes "data: " ++ encoded) ∷ l) (third ∙ ap (λ l. [] ∷ l) e)))
    ∙ read_lines-frame name encoded x xs
    ∙ ap (λ l. (name, encoded) ∷ read_lines blank_buffer l) (sym e)

read_stream-comment : (t : Text) → read_stream (keep_alive ++ t) ≡ read_stream t
unfolding read_stream read_lines list_beq
read_stream-comment t =
    let (x, xs, e) = split-head newline t in
    ap (λ l. read_lines blank_buffer ([] ∷ l)) e ∙ ap (read_lines blank_buffer) (sym e)

-- Whatever the handler writes of events and comments is read as exactly those events, in order,
-- each with its name and its data, where neither holds a newline.
pub read_stream-written : (fs : List Frame) → All IsFrame fs → read_stream (written fs) ≡ events fs
unfolding written read_stream read_lines
read_stream-written [] h = refl
read_stream-written (named name encoded ∷ fs) (h, hs) =
    read_stream-frame name encoded (written fs) h
    ∙ ap (λ l. (name, encoded) ∷ l) (read_stream-written fs hs)
read_stream-written (comment ∷ fs) (h, hs) =
    read_stream-comment (written fs) ∙ read_stream-written fs hs
