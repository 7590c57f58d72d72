-- ===== src/Docker/Logs.antt =====
-- Reading a container's output: internal/adapters/docker/logs.go. A stream is the bytes it still
-- gives and how it ends, with `io.EOF` or with another error; `time.Parse` is a parameter.
pub mod Lines
pub mod Frames
pub mod Ending
use compose_monitor.Base.{
  ℕ, zero, suc, ◌+◌, ◌*◌, Bool, true, false, List, [], ◌∷◌, ◌++◌, map, Option, none, some, Text,
  ◌==◌, nat_eq, list_eq, length, take, drop, leb, if◌then◌else◌, cut, trim_newline, newline, split,
}
use compose_monitor.Base.Failure.{Failure}
use compose_monitor.Base.Instant.{Time, zero_time}
use compose_monitor.Domain.Detail.{LogStream, LogLine, stdout, stderr}

pub record Stream : Type 0 where
  pub content : Text
  pub ending : Option Failure

-- What `io.ReadFull` returns: all the bytes asked for, with the stream after them; some of them or
-- none, with `io.ErrUnexpectedEOF` or `io.EOF`; or another error.
pub data Read : Type 0 where
  whole : Text → Stream → Read
  short : Text → Read
  broken : Failure → Read

unfoldable pub read_full : ℕ → Stream → Read
read_full n s =
    if leb n (length s.content)
    then whole (take n s.content) (record s { content = drop n s.content })
    else elim s.ending [ none ↦ short s.content | some e ↦ broken e ]

-- `binary.BigEndian.Uint32`, on four bytes.
unfoldable pub big_endian : ℕ → Text → ℕ
big_endian v [] = v
big_endian v (c ∷ cs) = big_endian (v * 256 + c) cs

-- `streamOf`
unfoldable pub stream_of : ℕ → LogStream
stream_of kind = if kind == 2 then stderr else stdout

-- `header[0]`
abbrev pub first_byte : Text → ℕ
first_byte [] = 0
first_byte (c ∷ cs) = c

abbrev pub header_size : ℕ
header_size = 8

abbrev pub space : ℕ
space = 0x20

module _ (parse : Text → Option Time) where
  -- `splitTimestamp`
  unfoldable pub split_timestamp : Text → Time × Text
  unfolding cut
  split_timestamp line = elim (cut space line) [
    | none ↦ (zero_time, line)
    | some (stamp, rest) ↦ elim (parse stamp) [ none ↦ (zero_time, line) | some at ↦ (at, rest) ]
  ]

  abbrev pub to_line : LogStream → Text → LogLine
  to_line stream part = record {
    at = (split_timestamp part).0;
    stream = stream;
    text = (split_timestamp part).1;
  }

  -- `splitLines`
  unfoldable pub split_lines : Text → LogStream → List LogLine
  unfolding trim_newline split split_timestamp
  split_lines payload stream =
      let rest = trim_newline payload in
      if rest == [] then [] else map (to_line stream) (split newline rest)

  -- The loop of `readMultiplexedLog`: the lines, and the error that is not nil for `some`. It is
  -- `none` where the fuel does not suffice.
  unfoldable pub read_frames : ℕ → Stream → List LogLine → Option (List LogLine × Option Failure)
  unfolding read_full big_endian stream_of split_lines
  read_frames zero s lines = none
  read_frames (suc fuel) s lines = elim (read_full header_size s) [
    | short _ ↦ some (lines, none)
    | broken e ↦ some (lines, some e)
    | whole header rest ↦ elim (big_endian 0 (drop 4 header) == 0) [
      | true ↦ read_frames fuel rest lines
      | false ↦ elim (read_full (big_endian 0 (drop 4 header)) rest) [
        | short payload ↦ some (lines ++ split_lines payload (stream_of (first_byte header)), none)
        | broken e ↦ some (lines, some e)
        | whole payload rest' ↦
            read_frames fuel rest' (lines ++ split_lines payload (stream_of (first_byte header)))
      ]
    ]
  ]

  -- `readMultiplexedLog`: every round but the last takes eight bytes at least.
  unfoldable pub read_multiplexed_log : Stream → Option (List LogLine × Option Failure)
  unfolding read_frames
  read_multiplexed_log s = read_frames (suc (length s.content)) s []

  -- `readTTYLog`
  unfoldable pub read_tty_log : Stream → List LogLine × Option Failure
  unfolding split_lines
  read_tty_log s = elim s.ending [
    | none ↦ (split_lines s.content stdout, none)
    | some e ↦ ([], some e)
  ]
