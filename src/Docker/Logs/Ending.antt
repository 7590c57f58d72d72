-- ===== src/Docker/Logs/Ending.antt =====
-- `readMultiplexedLog`: the fuel of its loop.
use compose_monitor.Base.{
  ℕ, zero, suc, ◌+◌, ◌<◌, ◌≤◌, ◌≡◌, ◌≢◌, refl, Option-cases, List, [], ◌∷◌, ◌++◌, Option, none,
  some, arith, Text, ◌==◌, nat_eq, length, drop, leb, Bool-cases, inl, inr,
}
use compose_monitor.Base.Failure.{Failure}
use compose_monitor.Base.Instant.{Time}
use compose_monitor.Domain.Detail.{LogLine}
use compose_monitor.Docker.Logs.{
  Stream, Read, whole, short, broken, read_full, big_endian, stream_of, split_lines, read_frames,
  read_multiplexed_log, header_size, first_byte,
}

length-drop : (n : ℕ) (s : Text) → n ≤ length s → n + length (drop n s) ≡ length s
length-drop zero s h = omega arith
length-drop (suc n) [] h = absurd (omega (arith, h))
length-drop (suc n) (c ∷ s) h = omega (arith, length-drop n s (omega arith))

-- What is read whole is taken from the stream.
read_full-whole :
    (n : ℕ) (s rest : Stream) (got : Text)
    → read_full n s ≡ whole got rest
    → n + length rest.content ≡ length s.content
unfolding read_full
read_full-whole n s rest got e = elim (Bool-cases (leb n (length s.content))) [
  | inl enough ↦ ground (arith, length-drop n s.content)
  | inr few ↦ elim (Option-cases s.ending) [
    | inl eof ↦ ground (arith, eof)
    | inr (f, failed) ↦ ground (arith, failed)
  ]
]

module _ (parse : Text → Option Time) where
  -- One round ends where the round after it does.
  round_ends :
      (fuel : ℕ) (s : Stream) (lines : List LogLine)
      → ((rest : Stream) (ls : List LogLine)
          → header_size + length rest.content ≤ length s.content
          → read_frames parse fuel rest ls ≢ none)
      → read_frames parse (suc fuel) s lines ≢ none
  unfolding read_frames
  round_ends fuel s lines next = after (read_full header_size s) refl
    where
      payload_after :
          (header : Text) (rest : Stream) (r : Read)
          → header_size + length rest.content ≡ length s.content
          → read_full (big_endian 0 (drop 4 header)) rest ≡ r
          → (elim r as (λ _. Option (List LogLine × Option Failure)) [
            | short payload ↦
                some (lines ++ split_lines parse payload (stream_of (first_byte header)), none)
            | broken e ↦ some (lines, some e)
            | whole payload rest' ↦
                read_frames parse fuel rest'
                  (lines ++ split_lines parse payload (stream_of (first_byte header)))
          ])
            ≢ none
      payload_after header rest (short payload) e k = λ n. cc
      payload_after header rest (broken f) e k = λ n. cc
      payload_after header rest (whole payload rest') e k =
          next rest' _
            (omega (arith, read_full-whole (big_endian 0 (drop 4 header)) rest rest' payload k))

      after : (r : Read) → read_full header_size s ≡ r → read_frames parse (suc fuel) s lines ≢ none
      after (short got) e = rw (e, read_frames) (λ n. cc)
      after (broken f) e = rw (e, read_frames) (λ n. cc)
      after (whole header rest) e = elim (Bool-cases (big_endian 0 (drop 4 header) == 0)) [
        | inl nothing ↦
            rw (e, read_frames, nothing)
              (next rest lines (omega (arith, read_full-whole header_size s rest header e)))
        | inr something ↦
            rw (e, read_frames, something)
              (payload_after header rest (read_full (big_endian 0 (drop 4 header)) rest)
                (read_full-whole header_size s rest header e) refl)
      ]

  -- More fuel than bytes is enough: the loop ends.
  pub read_frames-ends :
      (fuel : ℕ) (s : Stream) (lines : List LogLine)
      → length s.content < fuel
      → read_frames parse fuel s lines ≢ none
  read_frames-ends zero s lines h = absurd (omega (arith, h))
  read_frames-ends (suc fuel) s lines h =
      round_ends fuel s lines (λ rest ls k. read_frames-ends fuel rest ls (omega arith))

  -- `readMultiplexedLog` returns on every stream: the fuel it is given is enough.
  pub read_multiplexed_log-ends : (s : Stream) → read_multiplexed_log parse s ≢ none
  unfolding read_multiplexed_log
  read_multiplexed_log-ends s = read_frames-ends (suc (length s.content)) s [] (omega arith)
