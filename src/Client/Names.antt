-- ===== src/Client/Names.antt =====
-- client/client.go: handleNames, handleNamesEnd, handleNumeric, and the subscriptions.
use ircparser.Base.{
  ℕ, ◌-◌, List, [], ◌∷◌, ◌++◌, Bytes, codes, equal, Dict, bytes_eq, nat_eq, lookup, none, some, ltb,
  leb, if◌then◌else◌, length, take, drop, get_or,
}
use ircparser.Text.{contains, split_two}
use ircparser.Text.Runes.{fields}
use ircparser.Channel
use ircparser.Channel.{Time, User, Channel, new_user, new_channel}
use ircparser.ServerInfo.{ServerInfo, set_isupport}
use ircparser.Event.{Event, EventType, EventData, NumericData, numeric_data, names_complete_data}
use ircparser.State.{State, add_channel}
use ircparser.Client.{
  update_channel, handle_connected, handle_disconnected, handle_registered, handle_nick,
  handle_mode, handle_join, handle_part, handle_quit, handle_kick, handle_topic, handle_cap_added,
  handle_cap_removed,
}

-- The prefixes in front of a nick are taken off; each stands for a mode.
unfoldable pub strip_prefixes : Dict ℕ ℕ → List ℕ → Bytes → List ℕ × Bytes
strip_prefixes prefixes modes [] = (modes, [])
strip_prefixes prefixes modes (c ∷ nick) = elim (lookup c prefixes) [
  | none ↦ (modes, c ∷ nick)
  | some mode ↦ strip_prefixes prefixes (modes ++ mode ∷ []) nick
]

unfoldable pub give_modes : List ℕ → User → User
give_modes [] u = u
give_modes (mode ∷ modes) u = give_modes modes (Channel.user_add_mode u mode [])

-- One nick of the reply: an empty one is passed over.
unfoldable pub add_named : List ℕ × Bytes → Channel → Channel
add_named (modes, []) c = c
add_named (modes, n ∷ nick) c = Channel.add_user c (give_modes modes (new_user (n ∷ nick) [] []))

unfoldable pub add_names : Dict ℕ ℕ → List Bytes → Channel → Channel
add_names prefixes [] c = c
add_names prefixes (nick ∷ nicks) c =
    add_names prefixes nicks (add_named (strip_prefixes prefixes [] nick) c)

-- The channel is made if it is not there.
unfoldable pub with_channel : State → Bytes → State
with_channel cs name = elim (lookup name cs.channels) [
  | none ↦ add_channel cs (new_channel name)
  | some _ ↦ cs
]

unfoldable pub handle_names : State → NumericData → State
handle_names cs d =
    if ltb (length d.params) 4
    then cs
    else (let name = get_or d.params 2 [] in
        update_channel (with_channel cs name) name
          (add_names cs.server_info.channel_prefixes (fields (get_or d.params 3 []))))

unfoldable pub handle_names_end : State → Event → NumericData → List Event
handle_names_end cs e d =
    if ltb (length d.params) 2 then [] else elim (lookup (get_or d.params 1 []) cs.channels) [
      | none ↦ []
      | some c ↦ record e { type = EventType.names_complete; body = names_complete_data c } ∷ []
    ]

-- params[1], …, params[len-2]
abbrev pub inner_params : List Bytes → List Bytes
inner_params params = take (length params - 2) (drop 1 params)

unfoldable pub apply_token : ServerInfo → Bytes → ServerInfo
apply_token si param =
    if contains b'=' param
    then (let parts = split_two b'=' param in
        set_isupport si (get_or parts 0 []) (get_or parts 1 []))
    else set_isupport si param []

unfoldable pub apply_tokens : ServerInfo → List Bytes → ServerInfo
apply_tokens si [] = si
apply_tokens si (param ∷ params) = apply_tokens (apply_token si param) params

unfoldable pub handle_topic_reply : State → NumericData → State
handle_topic_reply cs d =
    if leb 3 (length d.params)
    then update_channel cs (get_or d.params 1 [])
        (λ c. Channel.set_topic c (get_or d.params 2 []) [] 0)
    else cs

unfoldable pub handle_topic_info : State → NumericData → State
handle_topic_info cs d =
    if leb 4 (length d.params)
    then update_channel cs (get_or d.params 1 [])
        (λ c. record c { topic_by = get_or d.params 2 [] })
    else cs

-- The switch of handleNumeric.
unfoldable pub numeric_switch : State → Event → NumericData → State × List Event
numeric_switch cs e d =
    if equal d.code (codes "005")
    then (record cs { server_info = apply_tokens cs.server_info (inner_params d.params) }, [])
    else if equal d.code (codes "332")
    then (handle_topic_reply cs d, [])
    else if equal d.code (codes "333")
    then (handle_topic_info cs d, [])
    else if equal d.code (codes "353")
    then (handle_names cs d, [])
    else if equal d.code (codes "366")
    then (cs, handle_names_end cs e d)
    else (cs, [])

unfoldable pub on_numeric : State → Event → EventData → State × List Event
on_numeric cs e (numeric_data d) = numeric_switch cs e d
on_numeric cs e _ = (cs, [])

unfoldable pub handle_numeric : State → Event → State × List Event
unfolding on_numeric
handle_numeric cs e = on_numeric cs e e.body

-- setupEventHandlers: the handler of each type of event, and what it emits.
unfoldable pub dispatch : Time → State → Event → EventType → State × List Event
dispatch now cs e EventType.connected = (handle_connected cs, [])
dispatch now cs e EventType.disconnected = (handle_disconnected cs, [])
dispatch now cs e EventType.registered = (handle_registered cs, [])
dispatch now cs e EventType.nick = (handle_nick cs e.body, [])
dispatch now cs e EventType.mode = (handle_mode cs e.body, [])
dispatch now cs e EventType.join = (handle_join cs e.body, [])
dispatch now cs e EventType.part = (handle_part cs e.body, [])
dispatch now cs e EventType.quit = (handle_quit cs e.body, [])
dispatch now cs e EventType.kick = (handle_kick cs e.body, [])
dispatch now cs e EventType.topic = (handle_topic now cs e.body, [])
dispatch now cs e EventType.numeric = handle_numeric cs e
dispatch now cs e EventType.cap_added = (handle_cap_added cs e.body, [])
dispatch now cs e EventType.cap_removed = (handle_cap_removed cs e.body, [])
dispatch now cs e _ = (cs, [])

unfoldable pub handle_event : Time → State → Event → State × List Event
handle_event now cs e = dispatch now cs e e.type
