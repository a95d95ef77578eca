-- ===== src/Client/Tracking.antt =====
-- An invariant of the state that the client tracks.
mod Parts
pub mod Moves
use mathlib.Core.Path.{subst}
use ircparser.Base.{
  ℕ, ◌≡◌, ◌≢◌, refl, sym, ap, ◌∙◌, Bool, true, false, List, [], ◌∷◌, ◌++◌, Bytes, codes, equal,
  Dict, bytes_eq, nat_eq, lookup, insert, delete, Option, none, some, ltb, if◌then◌else◌, All,
  All-insert, All-delete, All-lookup, Option-cases, Bool-cases, inl, inr, arith, length, get_or,
  drop, ◌==◌,
}
use ircparser.Text.Runes.{fields, runes}
use ircparser.Modes.{add_mode, remove_mode}
use ircparser.Modes.Map.{AreModes, add_mode-AreModes, remove_mode-AreModes}
use ircparser.Channel
use ircparser.Channel.{Time, User, Channel, new_user, new_channel, rename_user}
use ircparser.Event.{
  Event, EventType, EventData, NumericData, no_data, nick_data, mode_data, join_data, part_data,
  quit_data, kick_data, topic_data, numeric_data, cap_added_data, cap_removed_data,
}
use ircparser.State.{
  State, add_channel, set_current_nick, set_connection_state, new_client_state, remove_channel,
  add_user_mode, remove_user_mode,
}
use ircparser.State.{set_preferred_nick, set_user_info}
use ircparser.Client.{
  new_client, update_channel, map_channels, handle_nick, handle_join, handle_part, handle_quit,
  handle_kick, handle_topic, handle_mode, apply_modes, apply_mode, handle_connected,
  handle_registered, handle_disconnected, handle_cap_added, handle_cap_removed,
}
use ircparser.Client.Names.{
  handle_event, dispatch, handle_numeric, on_numeric, numeric_switch, handle_names, with_channel,
  add_names, handle_topic_reply, handle_topic_info,
}
use Parts.{
  IsChannel, Keeps, add_user-Keeps, remove_user-Keeps, rename_user-Keeps, set_topic-Keeps,
  change_channel_mode-Keeps, add_names-Keeps, new_channel-IsChannel, topic_by-Keeps,
}
use Moves.{
  IsTracked, update-IsTracked, map-AreChannels, add-IsTracked, remove-IsTracked, if-IsTracked,
  apply_modes-IsTracked,
}

handle_nick-IsTracked :
    (cs : State) (body : EventData) → IsTracked cs → IsTracked (handle_nick cs body)
unfolding handle_nick set_current_nick
handle_nick-IsTracked cs no_data h = h
handle_nick-IsTracked cs (nick_data d) h = record {
  channels =
      map-AreChannels _ _ (rename_user-Keeps d.old_nick d.new_nick)
        (if-IsTracked (equal d.old_nick cs.current_nick)
          {s = record cs { current_nick = d.new_nick }} {t = cs}
          (record { channels = h.channels; user_modes = h.user_modes }) h).channels;
  user_modes =
      (if-IsTracked (equal d.old_nick cs.current_nick) {s = record cs { current_nick = d.new_nick }}
        {t = cs} (record { channels = h.channels; user_modes = h.user_modes }) h).user_modes;
}
handle_nick-IsTracked cs _ h = h

handle_join-IsTracked :
    (cs : State) (body : EventData) → IsTracked cs → IsTracked (handle_join cs body)
unfolding handle_join new_user
handle_join-IsTracked cs no_data h = h
handle_join-IsTracked cs (join_data d) h =
    if-IsTracked (equal d.nick cs.current_nick)
      (add-IsTracked cs _
        (add_user-Keeps (new_user d.nick [] []) tt _ (new_channel-IsChannel d.channel)).1 h)
      (update-IsTracked cs d.channel _ (add_user-Keeps (new_user d.nick [] []) tt) h)
handle_join-IsTracked cs _ h = h

handle_part-IsTracked :
    (cs : State) (body : EventData) → IsTracked cs → IsTracked (handle_part cs body)
unfolding handle_part
handle_part-IsTracked cs no_data h = h
handle_part-IsTracked cs (part_data d) h =
    if-IsTracked (equal d.nick cs.current_nick) (remove-IsTracked cs d.channel h)
      (update-IsTracked cs d.channel _ (remove_user-Keeps d.nick) h)
handle_part-IsTracked cs _ h = h

handle_kick-IsTracked :
    (cs : State) (body : EventData) → IsTracked cs → IsTracked (handle_kick cs body)
unfolding handle_kick
handle_kick-IsTracked cs no_data h = h
handle_kick-IsTracked cs (kick_data d) h =
    if-IsTracked (equal d.kicked cs.current_nick) (remove-IsTracked cs d.channel h)
      (update-IsTracked cs d.channel _ (remove_user-Keeps d.kicked) h)
handle_kick-IsTracked cs _ h = h

if_first-IsTracked :
    (b : Bool) (p q : State × List Event)
    → IsTracked p.0
    → IsTracked q.0
    → IsTracked (if b then p else q).0
if_first-IsTracked true p q h k = h
if_first-IsTracked false p q h k = k

handle_names-IsTracked :
    (cs : State) (d : NumericData) → IsTracked cs → IsTracked (handle_names cs d)
unfolding handle_names
handle_names-IsTracked cs d h = if-IsTracked (ltb (length d.params) 4) h (
    update-IsTracked _ (get_or d.params 2 []) _ (add_names-Keeps _ _)
      (with_channel-IsTracked cs (get_or d.params 2 []) h))
  where
    with_channel-IsTracked :
        (cs : State) (name : Bytes) → IsTracked cs → IsTracked (with_channel cs name)
    with_channel-IsTracked cs name h = elim (Option-cases (lookup name cs.channels)) [
      | inl e ↦
          unfold with_channel in
          rw (e, with_channel) (add-IsTracked cs (new_channel name) (new_channel-IsChannel name) h)
      | inr (c, e) ↦ unfold with_channel in rw (e, with_channel) h
    ]

numeric_switch-IsTracked :
    (cs : State) (e : Event) (d : NumericData) → IsTracked cs → IsTracked (numeric_switch cs e d).0
unfolding numeric_switch handle_topic_reply handle_topic_info
numeric_switch-IsTracked cs e d h =
    if_first-IsTracked (equal d.code (codes "005")) _ _
      (record { channels = h.channels; user_modes = h.user_modes })
      (if_first-IsTracked (equal d.code (codes "332")) _ _
        (if-IsTracked _ (update-IsTracked cs _ _ (set_topic-Keeps (get_or d.params 2 []) [] 0) h) h)
        (if_first-IsTracked (equal d.code (codes "333")) _ _
          (if-IsTracked _ (update-IsTracked cs _ _ (topic_by-Keeps (get_or d.params 2 [])) h) h)
          (if_first-IsTracked (equal d.code (codes "353")) _ _ (handle_names-IsTracked cs d h)
            (if_first-IsTracked (equal d.code (codes "366")) _ _ h h))))

handle_numeric-IsTracked :
    (cs : State) (e : Event) (body : EventData) → IsTracked cs → IsTracked (on_numeric cs e body).0
unfolding on_numeric
handle_numeric-IsTracked cs e no_data h = h
handle_numeric-IsTracked cs e (numeric_data d) h = numeric_switch-IsTracked cs e d h
handle_numeric-IsTracked cs e _ h = h

body-IsTracked :
    (now : Time) (cs : State) (body : EventData)
    → IsTracked cs
    → IsTracked (handle_mode cs body)
      × IsTracked (handle_quit cs body)
      × IsTracked (handle_topic now cs body)
      × IsTracked (handle_cap_added cs body)
      × IsTracked (handle_cap_removed cs body)
unfolding handle_mode handle_quit handle_topic handle_cap_added handle_cap_removed
body-IsTracked now cs no_data h = (h, h, h, h, h)
body-IsTracked now cs (mode_data d) h =
    (apply_modes-IsTracked d.target true d.args (runes d.modes) cs h, h, h, h, h)
body-IsTracked now cs (quit_data d) h = (
  h,
  record {
    channels = map-AreChannels _ cs.channels (remove_user-Keeps d.nick) h.channels;
    user_modes = h.user_modes;
  },
  h,
  h,
  h,
)
body-IsTracked now cs (topic_data d) h =
    (h, h, update-IsTracked cs d.channel _ (set_topic-Keeps d.topic d.nick now) h, h, h)
body-IsTracked now cs (cap_added_data c) h =
    (h, h, h, record { channels = h.channels; user_modes = h.user_modes }, h)
body-IsTracked now cs (cap_removed_data c) h =
    (h, h, h, h, record { channels = h.channels; user_modes = h.user_modes })
body-IsTracked now cs _ h = (h, h, h, h, h)

dispatch-IsTracked :
    (now : Time) (cs : State) (e : Event) (t : EventType)
    → IsTracked cs
    → IsTracked (dispatch now cs e t).0
unfolding dispatch handle_connected handle_disconnected handle_registered handle_numeric
    set_connection_state
dispatch-IsTracked now cs e EventType.connected h = record {
  channels = h.channels;
  user_modes = h.user_modes;
}
dispatch-IsTracked now cs e EventType.disconnected h = record {
  channels = tt;
  user_modes = h.user_modes;
}
dispatch-IsTracked now cs e EventType.registered h = record {
  channels = h.channels;
  user_modes = h.user_modes;
}
dispatch-IsTracked now cs e EventType.nick h = handle_nick-IsTracked cs e.body h
dispatch-IsTracked now cs e EventType.mode h = (body-IsTracked now cs e.body h).0
dispatch-IsTracked now cs e EventType.join h = handle_join-IsTracked cs e.body h
dispatch-IsTracked now cs e EventType.part h = handle_part-IsTracked cs e.body h
dispatch-IsTracked now cs e EventType.quit h = (body-IsTracked now cs e.body h).1
dispatch-IsTracked now cs e EventType.kick h = handle_kick-IsTracked cs e.body h
dispatch-IsTracked now cs e EventType.topic h = (body-IsTracked now cs e.body h).2
dispatch-IsTracked now cs e EventType.numeric h = handle_numeric-IsTracked cs e e.body h
dispatch-IsTracked now cs e EventType.cap_added h = (body-IsTracked now cs e.body h).3
dispatch-IsTracked now cs e EventType.cap_removed h = (body-IsTracked now cs e.body h).4
dispatch-IsTracked now cs e _ h = h

-- The state after a list of events, each with the time at which it is handled, in their order.
unfoldable pub run_events : State → List (Time × Event) → State
run_events cs [] = cs
run_events cs ((now, e) ∷ es) = run_events (handle_event now cs e).0 es

run_from-IsTracked :
    (cs : State) (es : List (Time × Event)) → IsTracked cs → IsTracked (run_events cs es)
unfolding run_events handle_event
run_from-IsTracked cs [] h = h
run_from-IsTracked cs ((now, e) ∷ es) h =
    run_from-IsTracked (handle_event now cs e).0 es (dispatch-IsTracked now cs e e.type h)

-- In every state that a new client reaches, by any events at all, each channel is filed under its
-- name, each user under its nick, and no list of modes holds a mode twice.
pub run_events-IsTracked :
    (nick username realname : Bytes) (es : List (Time × Event))
    → IsTracked (run_events (new_client nick username realname) es)
unfolding new_client new_client_state set_preferred_nick set_current_nick set_user_info
run_events-IsTracked nick username realname es =
    run_from-IsTracked (new_client nick username realname) es
      (record { channels = tt; user_modes = tt })
