-- ===== src/Connection/Writes.antt =====
-- parser/connection.go: what SendRaw does to the connection.
use ircparser.Base.{◌≡◌, true, false, ◌∷◌, [], ◌++◌, Bytes, codes, Option, none, some, ◌⊎◌}
use ircparser.Errors.{connection_error}
use ircparser.Connection.{Connection, SendError, irc, io, is_down, is_disconnected}

-- The guards of SendRaw let the call through.
abbrev IsUp : Connection → Type 0
IsUp c = (is_disconnected c.state ≡ false) × (c.opened ≡ true)

-- What a call with this result has done. The events are not in it.
pub data Wrote (c c' : Connection) (line : Bytes) : Option SendError → Type 0 where
  whole :
      IsUp c
      → c'.written ≡ c.written ++ (line ++ codes "\r\n") ∷ []
      → c'.state ≡ c.state
      → Wrote c c' line none
  refused :
      (text : Bytes)
      → c' ≡ c
      → (is_disconnected c.state ≡ true ⊎ c.opened ≡ false)
      → Wrote c c' line (some (irc (connection_error (codes "SendRaw") text none)))
  failed :
      (text piece rest : Bytes)
      → IsUp c
      → piece ++ rest ≡ line ++ codes "\r\n"
      → c'.written ≡ c.written ++ piece ∷ []
      → is_down c'.state ≡ true
      → Wrote c c' line (some (io text))
