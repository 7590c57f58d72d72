-- ===== src/Docker/Logs/Frames.antt =====
-- `readMultiplexedLog` on what the runtime writes: frames of lines.
use mathlib.Core.List.{append_assoc, append-nil}
use compose_monitor.Base.{
  ℕ, suc, ◌+◌, ◌-◌, ◌/◌, ◌%◌, ◌^◌, ◌<◌, ◌≤◌, ◌≡◌, refl, sym, ◌∙◌, ap, ap₂, false, List, [], ◌∷◌,
  ◌++◌, map, Option, none, some, arith, Text, ◌==◌, nat_eq, nat_beq_iff, length, length-append,
  take, drop, All, Bool-cases, inl, inr,
}
use compose_monitor.Base.Failure.{Failure}
use compose_monitor.Base.Instant.{Time}
use compose_monitor.Domain.Detail.{LogLine}
use compose_monitor.Docker.Logs.{
  Stream, whole, short, read_full, big_endian, stream_of, read_frames, read_multiplexed_log,
}
use compose_monitor.Docker.Logs.Lines.{Entry, IsEntry, payload_of, line_of, split_lines-payload_of}

-- A frame of the runtime: its stream byte, its padding, and the lines it carries.
pub record Frame : Type 0 where
  pub kind : ℕ
  pub padding : ℕ × ℕ × ℕ
  pub entries : List Entry

-- Four bytes, most significant first.
abbrev pub four_bytes : ℕ → Text
four_bytes n = n / 2 ^ 24 % 256 ∷ n / 2 ^ 16 % 256 ∷ n / 2 ^ 8 % 256 ∷ n % 256 ∷ []

abbrev pub header_of : Frame → ℕ → Text
header_of f size = f.kind ∷ f.padding.0 ∷ f.padding.1 ∷ f.padding.2 ∷ four_bytes size

abbrev pub encode : List Frame → Text
encode [] = []
encode (f ∷ fs) = header_of f (length (payload_of f.entries)) ++ payload_of f.entries ++ encode fs

-- The lines of the frames, in order.
abbrev pub lines_of : List Frame → List LogLine
lines_of [] = []
lines_of (f ∷ fs) = map (line_of (stream_of f.kind)) f.entries ++ lines_of fs

pub record IsFrame (parse : Text → Option Time) (f : Frame) : Type 0 where
  pub fits : length (payload_of f.entries) < 2 ^ 32
  pub entered : All (IsEntry parse) f.entries

big_endian-four_bytes : (n : ℕ) → n < 2 ^ 32 → big_endian 0 (four_bytes n) ≡ n
unfolding big_endian
big_endian-four_bytes n h = omega arith

take-append : (s t : Text) → take (length s) (s ++ t) ≡ s
take-append [] t = refl
take-append (c ∷ s) t = ap (λ r. c ∷ r) (take-append s t)

drop-append : (s t : Text) → drop (length s) (s ++ t) ≡ t
drop-append [] t = refl
drop-append (c ∷ s) t = drop-append s t

-- The bytes that stand first are read whole.
read_full-append :
    (s t : Text) (ending : Option Failure)
    → read_full (length s) (record { content = s ++ t; ending = ending })
      ≡ whole s (record { content = t; ending = ending })
unfolding read_full
read_full-append s t ending = ground (arith, length-append s t, take-append s t, drop-append s t)

abbrev stream_at : Text → Option Failure → Stream
stream_at content ending = record { content = content; ending = ending }

payload_of-empty : (es : List Entry) → length (payload_of es) ≡ 0 → es ≡ []
payload_of-empty [] h = refl
payload_of-empty (e ∷ es) h =
    absurd (omega (arith, h, length-append (e.stamp ++ 0x20 ∷ e.text) (0x0a ∷ payload_of es)))

module _ (parse : Text → Option Time) where
  -- One round of the loop, on a frame that arrived whole.
  read_frames-frame :
      (fuel : ℕ) (f : Frame) (rest : Text) (ending : Option Failure) (lines : List LogLine)
      → IsFrame parse f
      → read_frames parse
          (suc fuel)
          (stream_at
            (header_of f (length (payload_of f.entries)) ++ payload_of f.entries ++ rest)
            ending)
          lines
        ≡ read_frames parse fuel
            (stream_at rest ending)
            (lines ++ map (line_of (stream_of f.kind)) f.entries)
  unfolding read_frames
  read_frames-frame fuel f rest ending lines v =
      let n = length (payload_of f.entries) in
      let header = read_full-append (header_of f n) (payload_of f.entries ++ rest) ending in
      let size = big_endian-four_bytes n v.fits in
      let payload = read_full-append (payload_of f.entries) rest ending in
      let split = split_lines-payload_of parse (stream_of f.kind) f.entries v.entered in
      elim (Bool-cases (n == 0)) [
        | inl nothing ↦
            let empty = payload_of-empty f.entries ((nat_beq_iff n 0).0 nothing) in
            rw (header, read_frames, size, nothing, empty, append-nil lines) refl
        | inr something ↦ rw (header, read_frames, size, something, size, payload, split) refl
      ]

  -- Frames that arrived whole are read one by one, and the fuel of the rest is left.
  read_frames-encode :
      (fs : List Frame) (fuel : ℕ) (rest : Text) (ending : Option Failure) (lines : List LogLine)
      → All (IsFrame parse) fs
      → read_frames parse (length fs + fuel) (stream_at (encode fs ++ rest) ending) lines
        ≡ read_frames parse fuel (stream_at rest ending) (lines ++ lines_of fs)
  read_frames-encode [] fuel rest ending lines h =
      ap₂ (λ k ls. read_frames parse k (stream_at rest ending) ls) (omega arith)
        (sym (append-nil lines))
  read_frames-encode (f ∷ fs) fuel rest ending lines (v, vs) =
      ap₂ (λ k content. read_frames parse k (stream_at content ending) lines) (omega arith)
        (ap (λ r. header_of f (length (payload_of f.entries)) ++ r)
          (append_assoc (payload_of f.entries) (encode fs) rest))
      ∙ read_frames-frame (length fs + fuel) f (encode fs ++ rest) ending lines v
      ∙ read_frames-encode fs fuel rest ending (lines ++ map (line_of (stream_of f.kind)) f.entries)
          vs
      ∙ ap (λ ls. read_frames parse fuel (stream_at rest ending) ls)
          (append_assoc lines (map (line_of (stream_of f.kind)) f.entries) (lines_of fs))

read_full-short :
    (s : Text) (n : ℕ)
    → length s < n
    → read_full n (record { content = s; ending = none }) ≡ short s
unfolding read_full
read_full-short s n h = ground arith

lines_of-last :
    (fs : List Frame) (f : Frame)
    → lines_of (fs ++ f ∷ []) ≡ lines_of fs ++ map (line_of (stream_of f.kind)) f.entries
lines_of-last [] f = append-nil _
lines_of-last (g ∷ fs) f =
    ap (λ ls. map (line_of (stream_of g.kind)) g.entries ++ ls) (lines_of-last fs f)
    ∙ sym (append_assoc (map (line_of (stream_of g.kind)) g.entries) (lines_of fs) _)

module _ (parse : Text → Option Time) where
  frames-le : (fs : List Frame) → length fs ≤ length (encode fs)
  frames-le [] = omega arith
  frames-le (f ∷ fs) = omega (arith, frames-le fs, length-append (payload_of f.entries) (encode fs))

  -- The frames that arrived whole leave fuel for at least one round more.
  log-encode :
      (fs : List Frame) (rest : Text) (ending : Option Failure)
      → All (IsFrame parse) fs
      → (j : ℕ) × (read_multiplexed_log parse (stream_at (encode fs ++ rest) ending)
          ≡ read_frames parse (suc j) (stream_at rest ending) (lines_of fs))
  unfolding read_multiplexed_log
  log-encode fs rest ending h =
      let size = length (encode fs ++ rest) in
      (
        size - length fs,
        ap (λ k. read_frames parse k (stream_at (encode fs ++ rest) ending) []) {x = suc size}
              (omega (arith, frames-le fs, length-append (encode fs) rest))
            ∙ read_frames-encode parse fs (suc (size - length fs)) rest ending [] h,
      )

  -- Where the stream ends inside a frame, after some of its lines and before the size that its
  -- header states, these lines are read too, and nothing is added for what did not arrive.
  pub read_multiplexed_log-cut :
      (fs : List Frame) (f : Frame) (size : ℕ)
      → All (IsFrame parse) fs
      → IsFrame parse f
      → length (payload_of f.entries) < size
      → size < 2 ^ 32
      → read_multiplexed_log parse (record {
        content = encode fs ++ (header_of f size ++ payload_of f.entries);
        ending = none;
      })
        ≡ some (lines_of (fs ++ f ∷ []), none)
  unfolding read_frames
  read_multiplexed_log-cut fs f size h v part fits =
      let (j, e) = log-encode fs (header_of f size ++ payload_of f.entries) none h in
      let header = read_full-append (header_of f size) (payload_of f.entries) none in
      let whole_size = big_endian-four_bytes size fits in
      let something : (size == 0) ≡ false = ground arith in
      e
      ∙ rw
          (
            header,
            read_frames,
            whole_size,
            something,
            whole_size,
            read_full-short (payload_of f.entries) size part,
            split_lines-payload_of parse (stream_of f.kind) f.entries v.entered,
          )
          (ap (λ ls. some (ls, none)) (sym (lines_of-last fs f)))
