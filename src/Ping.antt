-- ===== src/Ping.antt =====
-- parser/ping.go: the handler that answers PING and sends its own when the server is silent. The
-- clock is an argument; `stamp` is time.Now().Format("060102150405").
use ircparser.Base.{List, [], ◌∷◌, ◌++◌, Bytes, codes, Option, none, some}
use ircparser.Channel.{Time}
use ircparser.Event.{EventType, EventData, error_data, ping_data}
use ircparser.Output.{Output, Sender, emitted, send_line}

-- `timer` is the time at which the timer was last set, and none when there is none; a timer that
-- fired can be set again.
pub record PingHandler : Type 0 where
  pub last_response : Time
  pub timer : Option Time
  pub output : List Output

unfoldable pub new_ping_handler : PingHandler
new_ping_handler = record { last_response = 0; timer = none; output = [] }

unfoldable pub handle_welcome : Time → PingHandler → PingHandler
handle_welcome now h = elim h.timer [ none ↦ record h { timer = some now } | some set ↦ h ]

unfoldable pub handle_raw : Time → PingHandler → PingHandler
handle_raw now h = elim h.timer [
  | none ↦ record h { last_response = now }
  | some set ↦ record h { last_response = now; timer = some now }
]

module _ (send_error : Sender) where
  abbrev pub check_sent : PingHandler → List Output × Option Bytes → PingHandler
  check_sent h (output, none) = record h { output = output }
  check_sent h (output, some e) = record h {
    output =
        output ++ emitted EventType.error (error_data (codes "Failed to send ping: " ++ e)) ∷ [];
  }

  unfoldable pub send_ping : Bytes → PingHandler → PingHandler
  send_ping stamp h =
      check_sent h (send_line send_error h.output (codes "PING" ∷ (codes "tithon-" ++ stamp) ∷ []))

  unfoldable pub handle_ping : PingHandler → EventData → PingHandler
  handle_ping h (ping_data server) =
      check_sent h (send_line send_error h.output (codes "PONG" ∷ server ∷ []))
  handle_ping h _ = h
