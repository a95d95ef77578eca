-- ===== src/Output.antt =====
-- What a handler of the protocol does to the world: the lines that it sends through the connection,
-- as a command with its parameters, and the events that it emits, oldest first.
use ircparser.Base.{List, [], ◌∷◌, ◌++◌, Bytes, Option, none, some}
use ircparser.Event.{EventType, EventData}

-- A line that `send` took, a line that it returned an error for, an event.
pub data Output : Type 0 where
  sent : List Bytes → Output
  refused : List Bytes → Output
  emitted : EventType → EventData → Output

-- The error that the connection returns for a line, if it returns one; it may depend on what went
-- before.
abbrev pub Sender : Type 0
Sender = List Output → List Bytes → Option Bytes

abbrev pub outcome : List Output → List Bytes → Option Bytes → List Output × Option Bytes
outcome output line none = (output ++ sent line ∷ [], none)
outcome output line (some e) = (output ++ refused line ∷ [], some e)

unfoldable pub send_line : Sender → List Output → List Bytes → List Output × Option Bytes
send_line send_error output line = outcome output line (send_error output line)
