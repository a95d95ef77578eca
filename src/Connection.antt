-- ===== src/Connection.antt =====
-- parser/connection.go: the connection. The two goroutines are rounds on its state; the socket, its
-- errors and the clock are a Network. What it emits on the event bus and what it writes are lists,
-- oldest first.
pub mod Writes
pub mod Socket
pub mod Lost
pub mod Lifecycle
pub mod Reconnect
pub mod Support
pub mod Wire
mod Tests
use ircparser.Base.{
  ℕ, Bool, true, false, not, take, List, [], ◌∷◌, ◌++◌, Bytes, codes, equal, Dict, bytes_eq, lookup,
  insert, Option, none, some, Result, ok, err, if◌then◌else◌, pos, get_or,
}
use ircparser.Text.{contains, split_two}
use ircparser.Text.Trim.{trim_space}
use ircparser.Message.{Message, get_param}
use ircparser.Message.Parse.{ParseError, parse_message}
use ircparser.Message.Print.{to_string}
use ircparser.Event.{
  Event, EventType, EventData, connected_data, disconnected_data, error_data, raw_incoming_data,
  raw_outgoing_data,
}
use ircparser.Event.Classify.{extract_nick}
use ircparser.Event.Create.{Env, create_events}
use ircparser.State.{ConnectionState, disconnected, connected, registering, registered}
use ircparser.Errors.{IrcError, connection_error}
use ircparser.Config.{ConnectionConfig}
use ircparser.Client.Names.{inner_params}

-- `opened` says that `conn`, `reader` and `writer` are set; they are never unset. `alive` says that the
-- present `conn` is not closed. `cancelled` is the state of `ctx`. `written` are the lines that the
-- writers took, with the part of a line that one took before its error; `buffered` those of the
-- present writer that no Flush has passed on (it may pass on some when its buffer is full), `flushed`
-- those that a Flush has passed on to the socket.
pub record Connection : Type 0 where
  pub config : ConnectionConfig
  pub opened : Bool
  pub alive : Bool
  pub state : ConnectionState
  pub cancelled : Bool
  pub current_nick : Bytes
  pub isupport : Dict Bytes Bytes
  pub written : List Bytes
  pub buffered : List Bytes
  pub flushed : List Bytes
  pub events : List Event

-- What the connection has from outside: the clock and the tables of the events' Env; the address as
-- text; the error of dialling; the error of writing a line behind what was written, and how many of
-- its bytes the writer has taken up to the error; the text of a
-- message that does not parse; the error of a Flush of these lines.
pub record Network : Type 0 where
  pub env : Env
  pub address : ConnectionConfig → Bytes
  pub dial : ConnectionConfig → Option Bytes
  pub write_error : List Bytes → Bytes → Option Bytes
  pub taken : List Bytes → Bytes → ℕ
  pub describe : ParseError → Bytes
  pub flush_error : List Bytes → Option Bytes

-- The error of a call: one of the package, or the writer's.
pub data SendError : Type 0 where
  irc : IrcError → SendError
  io : Bytes → SendError

unfoldable pub new_connection : ConnectionConfig → Connection
new_connection config = record {
  config = config;
  opened = false;
  alive = false;
  state = disconnected;
  cancelled = false;
  current_nick = [];
  isupport = [];
  written = [];
  buffered = [];
  flushed = [];
  events = [];
}

abbrev pub event : EventType → EventData → Event
event t body = record { type = t; message = none; body = body; time = 0 }

unfoldable pub emit : Connection → Event → Connection
emit c e = record c { events = c.events ++ e ∷ [] }

abbrev pub set_state : Connection → ConnectionState → Connection
set_state c s = record c { state = s }

unfoldable pub is_down : ConnectionState → Bool
is_down ConnectionState.disconnected = true
is_down ConnectionState.disconnecting = true
is_down _ = false

unfoldable pub is_disconnected : ConnectionState → Bool
is_disconnected ConnectionState.disconnected = true
is_disconnected _ = false

abbrev pub is_connected_state : ConnectionState → Bool
is_connected_state connected = true
is_connected_state registering = true
is_connected_state registered = true
is_connected_state _ = false

unfoldable pub is_connected : Connection → Bool
is_connected c = is_connected_state c.state

abbrev pub is_registered_state : ConnectionState → Bool
is_registered_state registered = true
is_registered_state _ = false

unfoldable pub is_registered : Connection → Bool
is_registered c = is_registered_state c.state

unfoldable pub transition_to_disconnected : Connection → Bytes → Option Bytes → Connection × Bool
transition_to_disconnected c reason error = if is_down c.state then (c, false) else (
  emit (set_state c disconnected) (event EventType.disconnected (disconnected_data reason error)),
  true,
)

abbrev pub handle_critical_write_error : Connection → Bytes → Connection
handle_critical_write_error c text =
    (transition_to_disconnected c (codes "write error") (some text)).0

unfoldable pub disconnect : Connection → Connection
disconnect c =
    emit (record c { state = disconnected; cancelled = true; alive = false })
      (event EventType.disconnected (disconnected_data (codes "manual disconnect") none))

unfoldable pub get_state : Connection → ConnectionState
get_state c = c.state

abbrev pub set_current_nick : Connection → Bytes → Connection
set_current_nick c nick = record c { current_nick = nick }

unfoldable pub get_current_nick : Connection → Bytes
get_current_nick c = c.current_nick

-- A copy of the map.
unfoldable pub get_isupport : Connection → Dict Bytes Bytes
get_isupport c = c.isupport

unfoldable pub get_server_name : Connection → Bytes
get_server_name c = c.config.host

unfoldable pub get_config : Connection → ConnectionConfig
get_config c = c.config

-- The loop of parseISUPPORT over params[1] to params[len-2].
unfoldable pub set_token : Dict Bytes Bytes → Bytes → Dict Bytes Bytes
set_token m param =
    if contains b'=' param
    then (let parts = split_two b'=' param in insert (get_or parts 0 []) (get_or parts 1 []) m)
    else insert param [] m

unfoldable pub set_tokens : Dict Bytes Bytes → List Bytes → Dict Bytes Bytes
set_tokens m [] = m
set_tokens m (param ∷ params) = set_tokens (set_token m param) params

unfoldable pub parse_isupport : Connection → Message → Connection
parse_isupport c m = record c { isupport = set_tokens c.isupport (inner_params m.params) }

unfoldable pub get_isupport_value : Connection → Bytes → Bytes
get_isupport_value c key = elim (lookup key c.isupport) [ none ↦ [] | some value ↦ value ]

-- The switch of handleMessage.
unfoldable pub welcome : Connection → List Bytes → Connection
welcome c [] = set_state c registered
welcome c (nick ∷ params) = set_current_nick (set_state c registered) nick

unfoldable pub track_message : Connection → Message → Connection
track_message c m =
    if equal m.command (codes "001")
    then welcome c m.params
    else if equal m.command (codes "005")
    then parse_isupport c m
    else if equal m.command (codes "NICK")
    then (if equal (extract_nick m.source) c.current_nick
        then set_current_nick c (get_param m (pos 0))
        else c)
    else c

abbrev pub command_message : Bytes → List Bytes → Message
command_message command params = record {
  tags = [];
  source = [];
  command = command;
  params = params;
  raw = [];
}

module _ (net : Network) where
  -- The two loops are started, and the event is emitted behind that.
  unfoldable pub connect : Connection → Connection × Option IrcError
  connect c = elim (net.dial c.config) [
    | some text ↦ (
      set_state c disconnected,
      some (
          connection_error (codes "Connect")
            (codes "failed to establish network connection to " ++ net.address c.config)
            (some text)),
    )
    | none ↦ (
      emit (record c { state = connected; opened = true; alive = true; buffered = [] })
          (event EventType.connected (connected_data c.config.host)),
      none,
    )
  ]

  -- `none` is the panic of CreateEventFromMessage, which ends the program: the read loop does not
  -- recover.
  unfoldable pub handle_message : Connection → Message → Option Connection
  handle_message c m =
      let c' = track_message c m in
      elim (create_events net.env (some m)) [
        | none ↦ none
        | some es ↦ some (record c' { events = c'.events ++ es })
      ]

  -- A line that the reader returned, in the read loop.
  unfoldable pub handle_line : Connection → Bytes → Option Connection
  handle_line c [] = some c
  handle_line c (b ∷ bs) =
      let c' = emit c (event EventType.raw_incoming (raw_incoming_data (b ∷ bs) net.env.now)) in
      elim (parse_message net.env.unicode_upper (b ∷ bs)) [
        | err e ↦ some (
            emit c' (
              event EventType.error
                (error_data (codes "failed to parse message: " ++ net.describe e))))
        | ok m ↦ handle_message c' m
      ]

  -- The loop closes the socket when it ends.
  abbrev pub end_reading : Connection → Connection × Bool
  end_reading c = (record c { alive = false }, false)

  -- A round of the read loop on what ReadString returns, with whether the loop goes on.
  unfoldable pub read_round : Connection → Result Bytes Bytes → Option (Connection × Bool)
  read_round c input = if c.cancelled then some (end_reading c) else elim input [
    | err text ↦
        some (end_reading (transition_to_disconnected c (codes "read error") (some text)).0)
    | ok line ↦ elim (handle_line c (trim_space line)) [ none ↦ none | some c' ↦ some (c', true) ]
  ]

  -- Flush; an error is only logged, also that of a socket that is closed.
  unfoldable pub flush : Connection → Connection
  flush c =
      if c.alive
      then elim (net.flush_error c.buffered) [
        | none ↦ record c { buffered = []; flushed = c.flushed ++ c.buffered }
        | some text ↦ c
      ]
      else c

  -- A round of the write loop, with whether the loop goes on. `tick` says that select takes the case
  -- of the ticker, which it may do on a context that is done as well.
  unfoldable pub write_round : Bool → Connection → Connection × Bool
  write_round tick c =
      if tick then if c.opened then (flush c, true) else (c, true) else (c, not c.cancelled)

  -- What the writer has taken, a line or its beginning.
  abbrev pub take_in : Connection → Bytes → Connection
  take_in c piece = record c {
    written = c.written ++ piece ∷ [];
    buffered = c.buffered ++ piece ∷ [];
  }

  unfoldable pub write_line : Connection → Bytes → Connection × Option SendError
  write_line c line =
      let c' = emit c (event EventType.raw_outgoing (raw_outgoing_data line net.env.now)) in
      elim (net.write_error c.written (line ++ codes "\r\n")) [
        | none ↦ (take_in c' (line ++ codes "\r\n"), none)
        | some text ↦ (
          handle_critical_write_error
              (take_in c'
                (take (net.taken c.written (line ++ codes "\r\n")) (line ++ codes "\r\n")))
              text,
          some (io text),
        )
      ]

  unfoldable pub send_raw : Connection → Bytes → Connection × Option SendError
  send_raw c line =
      if is_disconnected c.state
      then (
        c,
        some (irc (connection_error (codes "SendRaw") (codes "connection not established") none)),
      )
      else if c.opened
      then write_line c line
      else (
        c,
        some (irc (connection_error (codes "SendRaw") (codes "network writer not available") none)),
      )

  unfoldable pub send : Connection → Bytes → List Bytes → Connection × Option SendError
  send c command params = send_raw c (to_string (command_message command params))
