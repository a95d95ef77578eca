-- ===== src/Client/Nicks.antt =====
-- The client's own nick through the events.
use ircparser.Base.{
  ℕ, ◌≡◌, ◌≢◌, refl, ◌∙◌, Bool, true, false, List, [], ◌∷◌, Bytes, bytes_eq, arith, get_or, drop,
  if◌then◌else◌, ltb, leb, length, codes, equal,
}
use ircparser.Channel.{Channel, Time}
use ircparser.Event.{
  Event, EventType, EventData, NumericData, no_data, mode_data, join_data, part_data, kick_data,
  topic_data, numeric_data,
}
use ircparser.State.{
  State, set_connection_state, add_channel, remove_channel, add_user_mode, remove_user_mode,
}
use ircparser.Client.{
  update_channel, apply_mode, apply_modes, change_channel_mode, handle_mode, handle_join,
  handle_part, handle_kick, handle_topic, handle_quit, handle_cap_added, handle_cap_removed,
  handle_connected, handle_disconnected, handle_registered, map_channels,
}
use ircparser.Client.Names.{
  handle_event, dispatch, handle_numeric, on_numeric, numeric_switch, handle_names,
  handle_topic_reply, handle_topic_info, with_channel,
}

update-current_nick :
    (cs : State) (name : Bytes) (f : Channel → Channel)
    → (update_channel cs name f).current_nick ≡ cs.current_nick
unfolding update_channel
update-current_nick cs name f = ground arith

with_channel-current_nick :
    (cs : State) (name : Bytes) → (with_channel cs name).current_nick ≡ cs.current_nick
unfolding with_channel add_channel
with_channel-current_nick cs name = ground arith

apply_mode-current_nick :
    (cs : State) (target : Bytes) (adding : Bool) (char : ℕ) (parameter : Bytes)
    → (apply_mode cs target adding char parameter).current_nick ≡ cs.current_nick
unfolding apply_mode add_user_mode remove_user_mode
apply_mode-current_nick cs target adding char parameter =
    ground (arith, update-current_nick cs target (Channel_change adding char parameter))
  where
    Channel_change : Bool → ℕ → Bytes → Channel → Channel
    Channel_change = ircparser.Client.change_channel_mode

apply_modes-current_nick :
    (target : Bytes) (adding : Bool) (args : List Bytes) (chars : List ℕ) (cs : State)
    → (apply_modes target adding args chars cs).current_nick ≡ cs.current_nick
unfolding apply_modes
apply_modes-current_nick target adding args [] cs = refl
apply_modes-current_nick target adding args (char ∷ chars) cs = ground (
  arith,
  apply_modes-current_nick target true args chars cs,
  apply_modes-current_nick target false args chars cs,
  apply_modes-current_nick target adding (drop 1 args) chars
      (apply_mode cs target adding char (get_or args 0 [])),
  apply_mode-current_nick cs target adding char (get_or args 0 []),
)

if-nick :
    (b : Bool) {n : Bytes} (s t : State)
    → s.current_nick ≡ n
    → t.current_nick ≡ n
    → (if b then s else t).current_nick ≡ n
if-nick true s t h k = h
if-nick false s t h k = k

if_first-nick :
    (b : Bool) {n : Bytes} (p q : State × List Event)
    → p.0.current_nick ≡ n
    → q.0.current_nick ≡ n
    → (if b then p else q).0.current_nick ≡ n
if_first-nick true p q h k = h
if_first-nick false p q h k = k

numeric-current_nick :
    (cs : State) (e : Event) (d : NumericData)
    → (numeric_switch cs e d).0.current_nick ≡ cs.current_nick
unfolding numeric_switch handle_topic_reply handle_topic_info handle_names
numeric-current_nick cs e d = if_first-nick (equal d.code (codes "005")) _ _ refl (
    if_first-nick (equal d.code (codes "332")) _ _
      (if-nick (leb 3 (length d.params)) _ _ (update-current_nick cs _ _) refl)
      (if_first-nick (equal d.code (codes "333")) _ _
        (if-nick (leb 4 (length d.params)) _ _ (update-current_nick cs _ _) refl)
        (if_first-nick (equal d.code (codes "353")) _ _
          (if-nick (ltb (length d.params) 4) _ _ refl (
            update-current_nick (with_channel cs (get_or d.params 2 [])) _ _
            ∙ with_channel-current_nick cs (get_or d.params 2 [])))
          (if_first-nick (equal d.code (codes "366")) _ _ refl refl))))

body-current_nick :
    (now : Time) (cs : State) (e : Event) (body : EventData)
    → ((handle_mode cs body).current_nick ≡ cs.current_nick)
      × ((handle_join cs body).current_nick ≡ cs.current_nick)
      × ((handle_part cs body).current_nick ≡ cs.current_nick)
      × ((handle_kick cs body).current_nick ≡ cs.current_nick)
      × ((handle_topic now cs body).current_nick ≡ cs.current_nick)
      × ((on_numeric cs e body).0.current_nick ≡ cs.current_nick)
unfolding handle_mode handle_join handle_part handle_kick handle_topic on_numeric add_channel
    remove_channel
body-current_nick now cs e no_data = (refl, refl, refl, refl, refl, refl)
body-current_nick now cs e (mode_data d) =
    (apply_modes-current_nick d.target true d.args _ cs, refl, refl, refl, refl, refl)
body-current_nick now cs e (join_data d) = (
  refl,
  if-nick (equal d.nick cs.current_nick) _ _ refl (update-current_nick cs _ _),
  refl,
  refl,
  refl,
  refl,
)
body-current_nick now cs e (part_data d) = (
  refl,
  refl,
  if-nick (equal d.nick cs.current_nick) _ _ refl (update-current_nick cs _ _),
  refl,
  refl,
  refl,
)
body-current_nick now cs e (kick_data d) = (
  refl,
  refl,
  refl,
  if-nick (equal d.kicked cs.current_nick) _ _ refl (update-current_nick cs _ _),
  refl,
  refl,
)
body-current_nick now cs e (topic_data d) =
    (refl, refl, refl, refl, update-current_nick cs _ _, refl)
body-current_nick now cs e (numeric_data d) =
    (refl, refl, refl, refl, refl, numeric-current_nick cs e d)
body-current_nick now cs e _ = (refl, refl, refl, refl, refl, refl)

quit-current_nick :
    (cs : State) (body : EventData) → (handle_quit cs body).current_nick ≡ cs.current_nick
unfolding handle_quit
quit-current_nick cs no_data = refl
quit-current_nick cs _ = refl

caps-current_nick :
    (cs : State) (body : EventData)
    → ((handle_cap_added cs body).current_nick ≡ cs.current_nick)
      × ((handle_cap_removed cs body).current_nick ≡ cs.current_nick)
unfolding handle_cap_added handle_cap_removed
caps-current_nick cs no_data = (refl, refl)
caps-current_nick cs _ = (refl, refl)

-- Only an event of type NICK changes the nick that the client takes for its own; the welcome of
-- the server, which names the nick that was registered, does not.
pub handle_event-current_nick :
    (now : Time) (cs : State) (e : Event)
    → e.type ≢ EventType.nick
    → (handle_event now cs e).0.current_nick ≡ cs.current_nick
unfolding handle_event
handle_event-current_nick now cs e h = go e.type h
  where
    go :
        (t : EventType)
        → t ≢ EventType.nick
        → (dispatch now cs e t).0.current_nick ≡ cs.current_nick
    go EventType.connected h = unfold dispatch handle_connected set_connection_state in refl
    go EventType.disconnected h = unfold dispatch handle_disconnected in refl
    go EventType.registered h = unfold dispatch handle_registered set_connection_state in refl
    go EventType.nick h = absurd (h refl)
    go EventType.mode h = unfold dispatch in (body-current_nick now cs e e.body).0
    go EventType.join h = unfold dispatch in (body-current_nick now cs e e.body).1
    go EventType.part h = unfold dispatch in (body-current_nick now cs e e.body).2
    go EventType.quit h = unfold dispatch in quit-current_nick cs e.body
    go EventType.kick h = unfold dispatch in (body-current_nick now cs e e.body).3
    go EventType.topic h = unfold dispatch in (body-current_nick now cs e e.body).4
    go EventType.numeric h = unfold dispatch handle_numeric in (body-current_nick now cs e e.body).5
    go EventType.cap_added h = unfold dispatch in (caps-current_nick cs e.body).0
    go EventType.cap_removed h = unfold dispatch in (caps-current_nick cs e.body).1
    go _ h = unfold dispatch in refl
