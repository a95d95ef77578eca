-- ===== src/Connection/Lifecycle.antt =====
-- parser/connection.go: the connection over its operations, in any order.
use ircparser.Base.{◌≡◌, Bool, true, Bytes, some, Result}
use ircparser.State.{connecting, disconnecting}
use ircparser.Connection.{
  write_round, Connection, Network, is_connected, connect, disconnect, read_round, send_raw,
  set_state,
}

-- A step. `dials` and `closes` are what others see while a Connect or a Disconnect runs. The read
-- loop runs on a connection that has been opened.
pub data Step (net : Network) : Connection → Connection → Type 0 where
  dials : (c : Connection) → Step net c (set_state c connecting)
  connects : (c : Connection) → Step net c (connect net c).0
  closes : (c : Connection) → Step net c (set_state c disconnecting)
  disconnects : (c : Connection) → Step net c (disconnect c)
  reads :
      (c c' : Connection) (input : Result Bytes Bytes) (goes_on : Bool)
      → c.opened ≡ true
      → read_round net c input ≡ some (c', goes_on)
      → Step net c c'
  flushes : (c : Connection) (tick : Bool) → Step net c (write_round net tick c).0
  sends : (c : Connection) (line : Bytes) → Step net c (send_raw net c line).0

pub data Steps (net : Network) : Connection → Connection → Type 0 where
  stays : (c : Connection) → Steps net c c
  goes : {c d e : Connection} → Step net c d → Steps net d e → Steps net c e

module _ (net : Network) where
  abbrev IsOpened : Connection → Type 0
  IsOpened c = is_connected c ≡ true → c.opened ≡ true
