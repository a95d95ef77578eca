-- ===== src/Client.antt =====
-- client/client.go: the handlers that track the state. A handler gets `event.Data`; one that emits
-- events returns them with the new state. `now` is what time.Now returns.
pub mod Names
pub mod Tracking
pub mod Nicks
pub mod Limits
pub mod Members
pub mod Facade
mod Tests
use ircparser.Base.{
  ℕ, suc, ◌+◌, ◌-◌, Bool, true, false, ◌||◌, List, [], ◌∷◌, ◌++◌, Bytes, codes, equal, Dict,
  bytes_eq, nat_eq, lookup, insert, map, Option, none, some, ◌==◌, ltb, if◌then◌else◌, length, take,
  drop, get_or, get_elem?,
}
use ircparser.Text.{contains, split_two, has_prefix}
use ircparser.Text.Runes.{runes, fields}
use ircparser.Message.{Message}
use ircparser.Channel
use ircparser.Channel.{Time, User, Channel, new_user, new_channel, rename_user}
use ircparser.ServerInfo.{ServerInfo, set_isupport, set_capability, remove_capability}
use ircparser.Event.{
  Event, EventType, EventData, NickData, ModeData, NumericData, nick_data, mode_data, join_data,
  part_data, quit_data, kick_data, topic_data, numeric_data, cap_added_data, cap_removed_data,
  names_complete_data,
}
use ircparser.State
use ircparser.State.{
  new_client_state, set_preferred_nick, set_user_info, State, ConnectionState, set_connection_state,
  set_current_nick, add_user_mode, remove_user_mode, add_channel, remove_channel, get_channel,
}

-- The state that NewClient makes.
unfoldable pub new_client : Bytes → Bytes → Bytes → State
new_client nick username realname =
    set_user_info (set_current_nick (set_preferred_nick new_client_state nick) nick) username
      realname

-- A change through the pointer that GetChannel returns; nothing happens on nil.
unfoldable pub update_channel : State → Bytes → (Channel → Channel) → State
update_channel cs name f = elim (lookup name cs.channels) [
  | none ↦ cs
  | some c ↦ record cs { channels = insert name (f c) cs.channels }
]

-- `for _, channel := range c.state.GetChannels()`
unfoldable pub map_channels : (Channel → Channel) → Dict Bytes Channel → Dict Bytes Channel
map_channels f [] = []
map_channels f ((name, c) ∷ rest) = (name, f c) ∷ map_channels f rest

unfoldable pub handle_connected : State → State
handle_connected cs = set_connection_state cs ConnectionState.connected

unfoldable pub handle_disconnected : State → State
handle_disconnected cs = record cs {
  connection_state = ConnectionState.disconnected;
  channels = [];
}

unfoldable pub handle_registered : State → State
handle_registered cs = set_connection_state cs ConnectionState.registered

unfoldable pub handle_nick : State → EventData → State
handle_nick cs (nick_data d) =
    let cs' = if equal d.old_nick cs.current_nick then set_current_nick cs d.new_nick else cs in
    record cs' { channels = map_channels (λ c. rename_user c d.old_nick d.new_nick) cs'.channels }
handle_nick cs _ = cs

-- A change through the pointer that GetUser returns.
unfoldable pub update_user : Channel → Bytes → (User → User) → Channel
update_user c nick f = elim (lookup nick c.users) [
  | none ↦ c
  | some u ↦ record c { users = insert nick (f u) c.users }
]

-- One mode of a channel, and of the user that its parameter names.
unfoldable pub change_channel_mode : Bool → ℕ → Bytes → Channel → Channel
change_channel_mode true char [] c = Channel.add_mode c char []
change_channel_mode true char (p ∷ ps) c =
    update_user (Channel.add_mode c char (p ∷ ps)) (p ∷ ps) (λ u. Channel.user_add_mode u char [])
change_channel_mode false char [] c = Channel.remove_mode c char
change_channel_mode false char (p ∷ ps) c =
    update_user (Channel.remove_mode c char) (p ∷ ps) (λ u. Channel.user_remove_mode u char)

-- What a MODE line does at one mode character.
unfoldable pub apply_mode : State → Bytes → Bool → ℕ → Bytes → State
apply_mode cs target adding char parameter =
    if has_prefix target (codes "#") || has_prefix target (codes "&")
    then update_channel cs target (change_channel_mode adding char parameter)
    else if equal target cs.current_nick
    then (if adding then add_user_mode cs char parameter else remove_user_mode cs char)
    else cs

-- The loop over the mode characters. Each takes the next argument, if one is left, or else "".
unfoldable pub apply_modes : Bytes → Bool → List Bytes → List ℕ → State → State
apply_modes target adding args [] cs = cs
apply_modes target adding args (char ∷ chars) cs =
    let plus = apply_modes target true args chars cs in
    let minus = apply_modes target false args chars cs in
    let other =
      apply_modes target adding (drop 1 args) chars
        (apply_mode cs target adding char (get_or args 0 [])) in
    if char == b'+' then plus else if char == b'-' then minus else other

unfoldable pub handle_mode : State → EventData → State
handle_mode cs (mode_data d) = apply_modes d.target true d.args (runes d.modes) cs
handle_mode cs _ = cs

unfoldable pub handle_join : State → EventData → State
handle_join cs (join_data d) =
    if equal d.nick cs.current_nick
    then add_channel cs (Channel.add_user (new_channel d.channel) (new_user d.nick [] []))
    else update_channel cs d.channel (λ c. Channel.add_user c (new_user d.nick [] []))
handle_join cs _ = cs

unfoldable pub handle_part : State → EventData → State
handle_part cs (part_data d) =
    if equal d.nick cs.current_nick
    then remove_channel cs d.channel
    else update_channel cs d.channel (λ c. Channel.remove_user c d.nick)
handle_part cs _ = cs

unfoldable pub handle_quit : State → EventData → State
handle_quit cs (quit_data d) = record cs {
  channels = map_channels (λ c. Channel.remove_user c d.nick) cs.channels;
}
handle_quit cs _ = cs

unfoldable pub handle_kick : State → EventData → State
handle_kick cs (kick_data d) =
    if equal d.kicked cs.current_nick
    then remove_channel cs d.channel
    else update_channel cs d.channel (λ c. Channel.remove_user c d.kicked)
handle_kick cs _ = cs

unfoldable pub handle_topic : Time → State → EventData → State
handle_topic now cs (topic_data d) =
    update_channel cs d.channel (λ c. Channel.set_topic c d.topic d.nick now)
handle_topic now cs _ = cs

unfoldable pub handle_cap_added : State → EventData → State
handle_cap_added cs (cap_added_data capability) = record cs {
  server_info = set_capability cs.server_info capability [];
}
handle_cap_added cs _ = cs

unfoldable pub handle_cap_removed : State → EventData → State
handle_cap_removed cs (cap_removed_data capability) = record cs {
  server_info = remove_capability cs.server_info capability;
}
handle_cap_removed cs _ = cs
