-- ===== src/Connection/Reconnect.antt =====
-- parser/connection.go: Connect behind Disconnect.
use ircparser.Base.{arith, ◌≡◌, refl, ap, ◌∙◌, Bool, true, false, Bytes, none, some, Result}
use ircparser.Connection.{
  Connection, Network, is_connected, connect, disconnect, emit, read_round, write_round, flush,
  send_raw, end_reading,
}
use ircparser.Connection.Socket.{raw-Takes}

module _ (net : Network) where
  -- No round of the write loop passes anything on to a socket that is closed.
  closed-flushed :
      (c : Connection) (tick : Bool)
      → c.alive ≡ false
      → (write_round net tick c).0.flushed ≡ c.flushed
  unfolding write_round flush
  closed-flushed c tick h = ground (arith, h)

  -- After a Disconnect the context is cancelled for good. A Connect that succeeds reports a connection
  -- that is up; but its read loop ends in the first round, whatever the server sends, without reading
  -- it, and closes the new socket. The connection still says that it is up, and the next round of the
  -- write loop passes nothing on to the socket of what is then handed to SendRaw.
  pub connect-disconnect :
      (c : Connection) (input : Result Bytes Bytes) (line : Bytes) (tick : Bool)
      → net.dial c.config ≡ none
      → let up = (connect net (disconnect c)).0 in
        let closed = (end_reading net up).0 in
        ((connect net (disconnect c)).1 ≡ none)
        × (is_connected up ≡ true)
        × (read_round net up input ≡ some (closed, false))
        × (is_connected closed ≡ true)
        × ((write_round net tick (send_raw net closed line).0).0.flushed ≡ c.flushed)
  unfolding connect disconnect is_connected emit read_round
  connect-disconnect c input line tick h =
      let closed = (end_reading net (connect net (disconnect c)).0).0 in
      let kept = (raw-Takes net closed line).1 in
      (
        rw (connect, h) refl,
        rw (connect, h) refl,
        rw (connect, h) refl,
        rw (connect, h) refl,
        closed-flushed (send_raw net closed line).0 tick (ap (λ t. t.1) kept)
            ∙ ap (λ t. t.4) kept
            ∙ rw (connect, h) refl,
      )
