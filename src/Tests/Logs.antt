-- ===== src/Tests/Logs.antt =====
-- The theorems on logs, at streams of two frames.
use compose_monitor.Base.{
  ◌≡◌, ◌≢◌, refl, [], ◌∷◌, ◌++◌, Option, none, some, Text, bytes, arith, list_beq, ◌==◌, list_eq,
  nat_eq, if◌then◌else◌,
}
use compose_monitor.Base.Int.{pos}
use compose_monitor.Base.Instant.{Time}
use compose_monitor.Docker.Logs.{read_multiplexed_log}
use compose_monitor.Docker.Logs.Lines.{Entry, IsEntry, payload_of}
use compose_monitor.Docker.Logs.Ending.{read_multiplexed_log-ends}
use compose_monitor.Docker.Logs.Frames.{
  Frame, IsFrame, encode, header_of, lines_of, read_multiplexed_log-cut,
}
use compose_monitor.Tests.{refused}

-- A clock that reads one timestamp.
abbrev parse : Text → Option Time
parse stamp = if stamp == bytes "T0" then some (pos 5) else none

abbrev hello : Entry
hello = record { stamp = bytes "T0"; text = bytes "hi"; at = pos 5 }

hello-IsEntry : IsEntry parse hello
unfolding list_beq
hello-IsEntry = record {
  stamped = refl;
  stamp_word = ((omega arith, omega arith), ((omega arith, omega arith), tt));
  text_line = (omega arith, (omega arith, tt));
}

abbrev from_stdout : Frame
from_stdout = record { kind = 1; padding = (0, 0, 0); entries = hello ∷ hello ∷ [] }

abbrev from_stderr : Frame
from_stderr = record { kind = 2; padding = (0, 0, 0); entries = hello ∷ [] }

from_stdout-IsFrame : IsFrame parse from_stdout
from_stdout-IsFrame = record { fits = omega arith; entered = (hello-IsEntry, (hello-IsEntry, tt)) }

from_stderr-IsFrame : IsFrame parse from_stderr
from_stderr-IsFrame = record { fits = omega arith; entered = (hello-IsEntry, tt) }

read_multiplexed_log-cut_example :
    read_multiplexed_log parse (record {
      content = encode (from_stdout ∷ []) ++ (header_of from_stderr 100 ++ payload_of (hello ∷ []));
      ending = none;
    })
    ≡ some (lines_of (from_stdout ∷ from_stderr ∷ []), none)
read_multiplexed_log-cut_example =
    read_multiplexed_log-cut parse (from_stdout ∷ []) from_stderr 100 (from_stdout-IsFrame, tt)
      from_stderr-IsFrame (omega arith) (omega arith)

read_multiplexed_log-ends_example :
    read_multiplexed_log parse
      (record { content = 1 ∷ 0 ∷ 0 ∷ 0 ∷ 0 ∷ 0 ∷ 0 ∷ 9 ∷ 65 ∷ []; ending = some refused })
    ≢ none
read_multiplexed_log-ends_example =
    read_multiplexed_log-ends parse
      (record { content = 1 ∷ 0 ∷ 0 ∷ 0 ∷ 0 ∷ 0 ∷ 0 ∷ 9 ∷ 65 ∷ []; ending = some refused })
