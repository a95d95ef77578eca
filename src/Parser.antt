-- ===== src/Parser.antt =====
-- parser/parser.go: the front end. Its commands go through the connection; `capabilities` is the
-- map that it shares with the capability handler.
pub mod Echo
mod Tests
use ircparser.Base.{
  ℕ, Bool, true, false, List, [], ◌∷◌, ◌++◌, Bytes, codes, Dict, bytes_eq, lookup, Option, none,
  some, if◌then◌else◌,
}
use ircparser.Message.{Message}
use ircparser.Event.{Event, EventType}
use ircparser.Event.Texts.{type_text}
use ircparser.EventBus
use ircparser.EventBus.{EventBus}
use ircparser.State.{ConnectionState}
use ircparser.Event.Create.{create_events}
use ircparser.Errors.{IrcError, error_text, connection_error, registration_error}
use ircparser.Config.{ConnectionConfig}
use ircparser.Connection
use ircparser.Connection.{Connection, Network, SendError, irc, io, new_connection}

pub record Parser : Type 0 where
  pub connection : Connection
  pub capabilities : Dict Bytes Bytes

unfoldable pub new_parser : ConnectionConfig → Parser
new_parser config = record { connection = new_connection config; capabilities = [] }

abbrev pub at_connection : Parser → Connection × Option SendError → Parser × Option SendError
at_connection p (c, result) = (record p { connection = c }, result)

-- A reason, topic or the like is left out when it is empty.
abbrev pub unless_empty : Bytes → List Bytes
unless_empty [] = []
unless_empty (b ∷ bs) = (b ∷ bs) ∷ []

-- The first of the optional arguments.
abbrev pub first_of : List Bytes → List Bytes
first_of [] = []
first_of (channel ∷ channels) = channel ∷ []

unfoldable pub lacks_echo : Parser → Bool
lacks_echo p = elim (lookup (codes "echo-message") p.capabilities) [
  | none ↦ true
  | some value ↦ false
]

abbrev pub text_of : SendError → Bytes
text_of (irc e) = error_text e
text_of (io text) = text

unfoldable pub is_connected : Parser → Bool
is_connected p = Connection.is_connected p.connection

unfoldable pub is_registered : Parser → Bool
is_registered p = Connection.is_registered p.connection

unfoldable pub get_connection : Parser → Connection
get_connection p = p.connection

unfoldable pub get_current_nick : Parser → Bytes
get_current_nick p = Connection.get_current_nick p.connection

unfoldable pub get_isupport : Parser → Dict Bytes Bytes
get_isupport p = Connection.get_isupport p.connection

unfoldable pub get_isupport_value : Parser → Bytes → Bytes
get_isupport_value p key = Connection.get_isupport_value p.connection key

unfoldable pub get_server_name : Parser → Bytes
get_server_name p = Connection.get_server_name p.connection

unfoldable pub get_state : Parser → ConnectionState
get_state p = Connection.get_state p.connection

unfoldable pub emit_event : Parser → Event → Parser
emit_event p e = record p { connection = Connection.emit p.connection e }

-- On the parser's event bus, for any type of handlers.
module _ {ℓ} {H : Type ℓ} where
  unfoldable pub subscribe : EventBus Bytes H → EventType → H → EventBus Bytes H × ℕ
  subscribe bus type handler = EventBus.subscribe bus (type_text type) handler

  unfoldable pub unsubscribe_by_id : EventBus Bytes H → EventType → ℕ → EventBus Bytes H
  unsubscribe_by_id bus type id = EventBus.unsubscribe_by_id bus (type_text type) id

unfoldable pub stop : Parser → Parser
stop p = record p { connection = Connection.disconnect p.connection }

-- The message that stands for the server's echo.
unfoldable pub echo_message : Parser → Bytes → Bytes → Bytes → Message
echo_message p command target text = record {
  tags = [];
  source = nick ++ codes "!" ++ nick ++ codes "@" ++ p.connection.config.host;
  command = command;
  params = target ∷ text ∷ [];
  raw = [];
}
  where
    nick : Bytes
    nick = p.connection.current_nick

module _ (net : Network) where
  abbrev pub started : Parser → Connection × Option IrcError → Parser × Option IrcError
  started p (c, none) = (record p { connection = c }, none)
  started p (c, some e) = (
    record p { connection = c },
    some (
        connection_error (codes "Start") (codes "failed to establish connection")
          (some (error_text e))),
  )

  unfoldable pub start : Parser → Parser × Option IrcError
  start p = started p (Connection.connect net p.connection)

  unfoldable pub send_raw : Parser → Bytes → Parser × Option SendError
  send_raw p line = at_connection p (Connection.send_raw net p.connection line)

  unfoldable pub send : Parser → Bytes → List Bytes → Parser × Option SendError
  send p command params = at_connection p (Connection.send net p.connection command params)

  -- The commands that need a registered connection.
  unfoldable pub send_registered : Bytes → Parser → Bytes → List Bytes → Parser × Option SendError
  send_registered operation p command params =
      if Connection.is_registered p.connection
      then at_connection p (Connection.send net p.connection command params)
      else (
        p,
        some (irc (registration_error operation (codes "client not registered with server"))),
      )

  unfoldable pub join : Parser → Bytes → Parser × Option SendError
  join p channel = send_registered (codes "Join") p (codes "JOIN") (channel ∷ [])

  unfoldable pub part : Parser → Bytes → Bytes → Parser × Option SendError
  part p channel reason =
      send_registered (codes "Part") p (codes "PART") (channel ∷ unless_empty reason)

  -- `none` is a panic in CreateEventFromMessage.
  unfoldable pub generate_fake_echo : Parser → Bytes → Bytes → Bytes → Option Parser
  generate_fake_echo p command target text =
      elim (create_events net.env (some (echo_message p command target text))) [
        | none ↦ none
        | some es ↦
            some
              (record p { connection = record p.connection { events = p.connection.events ++ es } })
      ]

  -- What follows the send of a text.
  unfoldable pub echo_unless_sent :
      Bytes → Bytes → Bytes → Parser × Option SendError → Option (Parser × Option SendError)
  echo_unless_sent command target text (p, some e) = some (p, some e)
  echo_unless_sent command target text (p, none) =
      if lacks_echo p
      then elim (generate_fake_echo p command target text) [
        | none ↦ none
        | some p' ↦ some (p', none)
      ]
      else some (p, none)

  unfoldable pub privmsg : Parser → Bytes → Bytes → Option (Parser × Option SendError)
  privmsg p target text =
      echo_unless_sent (codes "PRIVMSG") target text
        (send_registered (codes "Privmsg") p (codes "PRIVMSG") (target ∷ text ∷ []))

  unfoldable pub notice : Parser → Bytes → Bytes → Option (Parser × Option SendError)
  notice p target text =
      echo_unless_sent (codes "NOTICE") target text
        (send_registered (codes "Notice") p (codes "NOTICE") (target ∷ text ∷ []))

  unfoldable pub nick : Parser → Bytes → Parser × Option SendError
  nick p name = send p (codes "NICK") (name ∷ [])

  unfoldable pub quit : Parser → Bytes → Parser × Option SendError
  quit p reason = send p (codes "QUIT") (unless_empty reason)

  unfoldable pub mode : Parser → Bytes → Bytes → List Bytes → Parser × Option SendError
  mode p target modes args = send_registered (codes "Mode") p (codes "MODE") (target ∷ modes ∷ args)

  unfoldable pub topic : Parser → Bytes → Bytes → Parser × Option SendError
  topic p channel text =
      send_registered (codes "Topic") p (codes "TOPIC") (channel ∷ unless_empty text)

  unfoldable pub kick : Parser → Bytes → Bytes → Bytes → Parser × Option SendError
  kick p channel name reason =
      send_registered (codes "Kick") p (codes "KICK") (channel ∷ name ∷ unless_empty reason)

  unfoldable pub invite : Parser → Bytes → Bytes → Parser × Option SendError
  invite p name channel = send_registered (codes "Invite") p (codes "INVITE") (name ∷ channel ∷ [])

  unfoldable pub whois : Parser → Bytes → Parser × Option SendError
  whois p name = send_registered (codes "Whois") p (codes "WHOIS") (name ∷ [])

  unfoldable pub who : Parser → Bytes → Parser × Option SendError
  who p target = send_registered (codes "Who") p (codes "WHO") (target ∷ [])

  unfoldable pub list : Parser → List Bytes → Parser × Option SendError
  list p channels = send_registered (codes "List") p (codes "LIST") (first_of channels)

  unfoldable pub names : Parser → List Bytes → Parser × Option SendError
  names p channels = send_registered (codes "Names") p (codes "NAMES") (first_of channels)
