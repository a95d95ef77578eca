-- ===== src/State.antt =====
-- client/state.go: State, what the client knows of its connection. A *Channel stands in one map
-- only, so a change through the pointer is a change of the map's value.
use ircparser.Base.{
  ℕ, Bool, true, false, List, [], ◌∷◌, Bytes, codes, Dict, bytes_eq, lookup, insert, delete, Option,
  none, some,
}
use ircparser.Modes
use ircparser.Modes.{ModeEntry}
use ircparser.Channel.{Channel}
use ircparser.ServerInfo.{ServerInfo, new_server_info}

-- parser/connection_state.go
pub data ConnectionState : Type 0 where
  disconnected connecting connected registering registered disconnecting : ConnectionState

pub record State : Type 0 where
  pub connection_state : ConnectionState
  pub current_nick : Bytes
  pub preferred_nick : Bytes
  pub username : Bytes
  pub realname : Bytes
  pub user_modes : List ModeEntry
  pub server_info : ServerInfo
  pub channels : Dict Bytes Channel

unfoldable pub new_client_state : State
new_client_state = record {
  connection_state = disconnected;
  current_nick = [];
  preferred_nick = [];
  username = [];
  realname = [];
  user_modes = [];
  server_info = new_server_info;
  channels = [];
}

unfoldable pub set_connection_state : State → ConnectionState → State
set_connection_state cs state = record cs { connection_state = state }

-- ConnectionState.String
unfoldable pub state_text : ConnectionState → Bytes
state_text disconnected = codes "disconnected"
state_text connecting = codes "connecting"
state_text connected = codes "connected"
state_text registering = codes "registering"
state_text registered = codes "registered"
state_text disconnecting = codes "disconnecting"

unfoldable pub get_connection_state : State → ConnectionState
get_connection_state cs = cs.connection_state

abbrev pub is_connected_state : ConnectionState → Bool
is_connected_state connected = true
is_connected_state registered = true
is_connected_state _ = false

unfoldable pub is_connected : State → Bool
is_connected cs = is_connected_state cs.connection_state

abbrev pub is_registered_state : ConnectionState → Bool
is_registered_state registered = true
is_registered_state _ = false

unfoldable pub is_registered : State → Bool
is_registered cs = is_registered_state cs.connection_state

unfoldable pub set_current_nick : State → Bytes → State
set_current_nick cs nick = record cs { current_nick = nick }

unfoldable pub set_preferred_nick : State → Bytes → State
set_preferred_nick cs nick = record cs { preferred_nick = nick }

unfoldable pub get_current_nick : State → Bytes
get_current_nick cs = cs.current_nick

unfoldable pub get_preferred_nick : State → Bytes
get_preferred_nick cs = cs.preferred_nick

unfoldable pub set_user_info : State → Bytes → Bytes → State
set_user_info cs username realname = record cs { username = username; realname = realname }

unfoldable pub get_user_info : State → Bytes × Bytes
get_user_info cs = (cs.username, cs.realname)

unfoldable pub add_user_mode : State → ℕ → Bytes → State
add_user_mode cs mode parameter = record cs {
  user_modes = Modes.add_mode mode parameter cs.user_modes;
}

unfoldable pub remove_user_mode : State → ℕ → State
remove_user_mode cs mode = record cs { user_modes = Modes.remove_mode mode cs.user_modes }

unfoldable pub has_user_mode : State → ℕ → Bool
has_user_mode cs mode = Modes.has_mode mode cs.user_modes

unfoldable pub get_user_modes : State → List ModeEntry
get_user_modes cs = cs.user_modes

unfoldable pub add_channel : State → Channel → State
add_channel cs channel = record cs { channels = insert channel.name channel cs.channels }

unfoldable pub remove_channel : State → Bytes → State
remove_channel cs name = record cs { channels = delete name cs.channels }

unfoldable pub get_channel : State → Bytes → Option Channel
get_channel cs name = lookup name cs.channels

-- A copy of the map.
unfoldable pub get_channels : State → Dict Bytes Channel
get_channels cs = cs.channels

unfoldable pub keys : Dict Bytes Channel → List Bytes
keys [] = []
keys ((name, channel) ∷ rest) = name ∷ keys rest

unfoldable pub get_channel_names : State → List Bytes
get_channel_names cs = keys cs.channels

unfoldable pub is_in_channel : State → Bytes → Bool
is_in_channel cs name = elim (lookup name cs.channels) [ none ↦ false | some _ ↦ true ]

-- PreferredNick, Username and Realname are kept.
unfoldable pub reset : State → State
reset cs = record cs {
  connection_state = disconnected;
  current_nick = [];
  user_modes = [];
  channels = [];
  server_info = new_server_info;
}
