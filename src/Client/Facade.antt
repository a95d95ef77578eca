-- ===== src/Client/Facade.antt =====
-- client/client.go: the client that a program holds, its accessors and its commands. The accessors
-- read the state that the handlers track, the commands go through the parser.
use ircparser.Base.{ℕ, Bool, false, true, List, Bytes, Dict, bytes_eq, Option, none, some}
use ircparser.Modes.{ModeEntry}
use ircparser.Channel.{Channel}
use ircparser.ServerInfo
use ircparser.ServerInfo.{ServerInfo}
use ircparser.State
use ircparser.State.{State, ConnectionState}
use ircparser.Event.{Event, EventType}
use ircparser.EventBus.{EventBus}
use ircparser.Errors.{IrcError}
use ircparser.Config.{ConnectionConfig}
use ircparser.Connection.{Network, SendError}
use ircparser.Parser
use ircparser.Parser.{Parser, new_parser}
use ircparser.Client.{new_client as new_state}

pub record Client : Type 0 where
  pub parser : Parser
  pub state : State
  pub cancelled : Bool

unfoldable pub new_client : ConnectionConfig → Client
new_client config = record {
  parser = new_parser config;
  state = new_state config.nick config.username config.realname;
  cancelled = false;
}

unfoldable pub stop : Client → Client
stop c = record c { parser = Parser.stop c.parser; cancelled = true }

unfoldable pub emit_event : Client → Event → Client
emit_event c e = record c { parser = Parser.emit_event c.parser e }

unfoldable pub is_connected : Client → Bool
is_connected c = State.is_connected c.state

unfoldable pub is_registered : Client → Bool
is_registered c = State.is_registered c.state

unfoldable pub get_connection_state : Client → ConnectionState
get_connection_state c = State.get_connection_state c.state

unfoldable pub get_current_nick : Client → Bytes
get_current_nick c = State.get_current_nick c.state

unfoldable pub get_preferred_nick : Client → Bytes
get_preferred_nick c = State.get_preferred_nick c.state

unfoldable pub get_user_info : Client → Bytes × Bytes
get_user_info c = State.get_user_info c.state

unfoldable pub get_user_modes : Client → List ModeEntry
get_user_modes c = State.get_user_modes c.state

unfoldable pub get_channels : Client → Dict Bytes Channel
get_channels c = State.get_channels c.state

unfoldable pub get_channel_names : Client → List Bytes
get_channel_names c = State.get_channel_names c.state

unfoldable pub has_user_mode : Client → ℕ → Bool
has_user_mode c mode = State.has_user_mode c.state mode

unfoldable pub get_channel : Client → Bytes → Option Channel
get_channel c name = State.get_channel c.state name

unfoldable pub is_in_channel : Client → Bytes → Bool
is_in_channel c name = State.is_in_channel c.state name

unfoldable pub get_server_info : Client → ServerInfo
get_server_info c = c.state.server_info

unfoldable pub get_max_line_length : Client → ℕ
get_max_line_length c = c.state.server_info.max_line_length

unfoldable pub get_max_topic_length : Client → ℕ
get_max_topic_length c = c.state.server_info.max_topic_length

unfoldable pub get_channel_modes : Client → Dict ℕ Bytes
get_channel_modes c = c.state.server_info.channel_modes

unfoldable pub get_user_mode_map : Client → Dict ℕ Bytes
get_user_mode_map c = c.state.server_info.user_modes

unfoldable pub get_channel_prefixes : Client → Dict ℕ ℕ
get_channel_prefixes c = c.state.server_info.channel_prefixes

unfoldable pub get_network_name : Client → Bytes
get_network_name c = c.state.server_info.network_name

unfoldable pub get_isupport : Client → Dict Bytes Bytes
get_isupport c = c.state.server_info.isupport

unfoldable pub get_isupport_value : Client → Bytes → Option Bytes
get_isupport_value c key = ServerInfo.get_isupport c.state.server_info key

unfoldable pub get_capabilities : Client → Dict Bytes Bytes
get_capabilities c = ServerInfo.get_capabilities c.state.server_info

unfoldable pub has_capability : Client → Bytes → Bool
has_capability c cap = ServerInfo.has_capability c.state.server_info cap

-- On the event bus of the parser, for any type of handlers.
module _ {ℓ} {H : Type ℓ} where
  unfoldable pub subscribe : EventBus Bytes H → EventType → H → EventBus Bytes H × ℕ
  subscribe bus type handler = Parser.subscribe bus type handler

  unfoldable pub unsubscribe_by_id : EventBus Bytes H → EventType → ℕ → EventBus Bytes H
  unsubscribe_by_id bus type id = Parser.unsubscribe_by_id bus type id

abbrev pub at_parser {ℓ} : {E : Type ℓ} → Client → Parser × E → Client × E
at_parser c (p, result) = (record c { parser = p }, result)

-- `none` is a panic in the echo.
abbrev pub at_echo :
    Client → Option (Parser × Option SendError) → Option (Client × Option SendError)
at_echo c none = none
at_echo c (some result) = some (at_parser c result)

module _ (net : Network) where
  unfoldable pub start : Client → Client × Option IrcError
  start c = at_parser c (Parser.start net c.parser)

  unfoldable pub join : Client → Bytes → Client × Option SendError
  join c channel = at_parser c (Parser.join net c.parser channel)

  unfoldable pub part : Client → Bytes → Bytes → Client × Option SendError
  part c channel reason = at_parser c (Parser.part net c.parser channel reason)

  unfoldable pub nick : Client → Bytes → Client × Option SendError
  nick c name = at_parser c (Parser.nick net c.parser name)

  unfoldable pub quit : Client → Bytes → Client × Option SendError
  quit c reason = at_parser c (Parser.quit net c.parser reason)

  unfoldable pub mode : Client → Bytes → Bytes → List Bytes → Client × Option SendError
  mode c target modes args = at_parser c (Parser.mode net c.parser target modes args)

  unfoldable pub topic : Client → Bytes → Bytes → Client × Option SendError
  topic c channel text = at_parser c (Parser.topic net c.parser channel text)

  unfoldable pub kick : Client → Bytes → Bytes → Bytes → Client × Option SendError
  kick c channel name reason = at_parser c (Parser.kick net c.parser channel name reason)

  unfoldable pub invite : Client → Bytes → Bytes → Client × Option SendError
  invite c name channel = at_parser c (Parser.invite net c.parser name channel)

  unfoldable pub whois : Client → Bytes → Client × Option SendError
  whois c name = at_parser c (Parser.whois net c.parser name)

  unfoldable pub who : Client → Bytes → Client × Option SendError
  who c target = at_parser c (Parser.who net c.parser target)

  unfoldable pub list : Client → List Bytes → Client × Option SendError
  list c channels = at_parser c (Parser.list net c.parser channels)

  unfoldable pub names : Client → List Bytes → Client × Option SendError
  names c channels = at_parser c (Parser.names net c.parser channels)

  unfoldable pub send_raw : Client → Bytes → Client × Option SendError
  send_raw c line = at_parser c (Parser.send_raw net c.parser line)

  unfoldable pub send : Client → Bytes → List Bytes → Client × Option SendError
  send c command params = at_parser c (Parser.send net c.parser command params)

  unfoldable pub privmsg : Client → Bytes → Bytes → Option (Client × Option SendError)
  privmsg c target text = at_echo c (Parser.privmsg net c.parser target text)

  unfoldable pub notice : Client → Bytes → Bytes → Option (Client × Option SendError)
  notice c target text = at_echo c (Parser.notice net c.parser target text)
