-- ===== src/Event/Create.antt =====
-- parser/events.go: parseServerTime and CreateEventFromMessage.
use ircparser.Base.{
  ℕ, List, [], ◌∷◌, Bytes, codes, bytes_eq, lookup, ltb, if◌then◌else◌, length, drop, Option, none,
  some, pos,
}
use ircparser.Channel.{Time}
use ircparser.Message.{Message, get_param, get_trailing}
use ircparser.Event.{
  EventType, Event, EventData, no_data, ping_data, pong_data, error_data, nick_data, join_data,
  part_data, quit_data, kick_data, mode_data, topic_data, privmsg_data, notice_data, invite_data,
  action_data, numeric_data,
}
use ircparser.Event.Classify.{determine_event_type, extract_nick, is_valid_ctcp}

-- What the code takes from its surroundings: Go's table of upper case runes, the clock, and
-- time.Parse at the layout of the `time` tag.
pub record Env : Type 0 where
  pub unicode_upper : ℕ → ℕ
  pub now : Time
  pub parse_time : Bytes → Option Time

module _ (env : Env) where
  abbrev pub time_of_tag : Option Bytes → Time
  time_of_tag none = env.now
  time_of_tag (some []) = env.now
  time_of_tag (some (c ∷ tag)) = elim (env.parse_time (c ∷ tag)) [ none ↦ env.now | some t ↦ t ]

  unfoldable pub parse_server_time : Option Message → Time
  parse_server_time none = env.now
  parse_server_time (some m) = time_of_tag (lookup (codes "time") m.tags)

  -- The data of an event; `none` is the panic of `msg.Params[2:]` on fewer than two parameters.
  unfoldable pub event_data : EventType → Message → Option EventData
  event_data EventType.ping m = some (ping_data (get_trailing m))
  event_data EventType.pong m = some (pong_data (get_trailing m))
  event_data EventType.error m = some (error_data (get_trailing m))
  event_data EventType.nick m =
      some (nick_data (record { old_nick = extract_nick m.source; new_nick = get_param m (pos 0) }))
  event_data EventType.join m =
      some (join_data (record { channel = get_param m (pos 0); nick = extract_nick m.source }))
  event_data EventType.part m = some (
      part_data (record {
        channel = get_param m (pos 0);
        nick = extract_nick m.source;
        reason = get_trailing m;
      }))
  event_data EventType.quit m =
      some (quit_data (record { nick = extract_nick m.source; reason = get_trailing m }))
  event_data EventType.kick m = some (
      kick_data (record {
        channel = get_param m (pos 0);
        nick = extract_nick m.source;
        kicked = get_param m (pos 1);
        reason = get_trailing m;
      }))
  event_data EventType.mode m =
      if ltb (length m.params) 2
      then none
      else some (
          mode_data (record {
            target = get_param m (pos 0);
            modes = get_param m (pos 1);
            args = drop 2 m.params;
          }))
  event_data EventType.topic m = some (
      topic_data (record {
        channel = get_param m (pos 0);
        topic = get_trailing m;
        nick = extract_nick m.source;
      }))
  event_data EventType.privmsg m = some (
      privmsg_data (record {
        target = get_param m (pos 0);
        nick = extract_nick m.source;
        message = get_trailing m;
        is_ctcp = is_valid_ctcp env.unicode_upper (get_trailing m);
      }))
  event_data EventType.notice m = some (
      notice_data (record {
        target = get_param m (pos 0);
        nick = extract_nick m.source;
        message = get_trailing m;
        is_ctcp = is_valid_ctcp env.unicode_upper (get_trailing m);
      }))
  event_data EventType.invite m = some (
      invite_data (record {
        channel = get_trailing m;
        nick = extract_nick m.source;
        target = get_param m (pos 0);
      }))
  event_data EventType.action m = some (
      action_data (record {
        target = get_param m (pos 0);
        nick = extract_nick m.source;
        message = get_trailing m;
      }))
  event_data EventType.numeric m =
      some (numeric_data (record { code = m.command; params = m.params }))
  event_data _ m = some no_data

  -- For a nil message the only type is `unknown`, which has no data.
  data_of : EventType → Option Message → Option EventData
  unfolding event_data
  data_of t none = some no_data
  data_of t (some m) = event_data t m

  -- The loop over the types; a panic in one round is one of the whole call.
  unfoldable pub events_of : Option Message → List EventType → Option (List Event)
  unfolding data_of
  events_of m [] = some []
  events_of m (t ∷ ts) =
      let rest = events_of m ts in
      elim (data_of t m) [
        | none ↦ none
        | some body ↦ elim rest [
          | none ↦ none
          | some es ↦
              some (record { type = t; message = m; body = body; time = parse_server_time m } ∷ es)
        ]
      ]

  unfoldable pub create_events : Option Message → Option (List Event)
  unfolding events_of
  create_events m = events_of m (determine_event_type m)
