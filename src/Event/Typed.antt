-- ===== src/Event/Typed.antt =====
-- The data of the events that come from messages, which the handlers take by a type assertion.
use mathlib.Core.Path.{subst}
use ircparser.Base.{◌≡◌, refl, Bool, true, false, List, [], ◌∷◌, Option, none, some, All, arith}
use ircparser.Message.{Message}
use ircparser.Event.{
  Event, EventType, EventData, no_data, ping_data, pong_data, error_data, nick_data, join_data,
  part_data, quit_data, kick_data, mode_data, topic_data, privmsg_data, notice_data, invite_data,
  action_data, numeric_data,
}
use ircparser.Event.Classify.{
  event_types, determine_event_type, talk_types, numeric_types, cap_types,
}
use ircparser.Event.Create.{Env, event_data, events_of, create_events, parse_server_time}

-- The data that an event of the type has when it comes from a message; there are types that no
-- message has.
abbrev pub has_data : EventType → EventData → Bool
has_data EventType.ping (ping_data s) = true
has_data EventType.pong (pong_data s) = true
has_data EventType.error (error_data s) = true
has_data EventType.nick (nick_data d) = true
has_data EventType.join (join_data d) = true
has_data EventType.part (part_data d) = true
has_data EventType.quit (quit_data d) = true
has_data EventType.kick (kick_data d) = true
has_data EventType.mode (mode_data d) = true
has_data EventType.topic (topic_data d) = true
has_data EventType.privmsg (privmsg_data d) = true
has_data EventType.notice (notice_data d) = true
has_data EventType.invite (invite_data d) = true
has_data EventType.action (action_data d) = true
has_data EventType.numeric (numeric_data d) = true
has_data EventType.cap_ls no_data = true
has_data EventType.cap_ack no_data = true
has_data EventType.cap_nak no_data = true
has_data EventType.cap_del no_data = true
has_data EventType.cap_new no_data = true
has_data EventType.sasl_auth no_data = true
has_data EventType.sasl_success no_data = true
has_data EventType.sasl_fail no_data = true
has_data EventType.registered no_data = true
has_data EventType.whois no_data = true
has_data EventType.who no_data = true
has_data EventType.list no_data = true
has_data EventType.names no_data = true
has_data EventType.unknown no_data = true
has_data _ _ = false

-- The types that messages have.
abbrev from_message : EventType → Bool
from_message EventType.ping = true
from_message EventType.pong = true
from_message EventType.error = true
from_message EventType.nick = true
from_message EventType.join = true
from_message EventType.part = true
from_message EventType.quit = true
from_message EventType.kick = true
from_message EventType.mode = true
from_message EventType.topic = true
from_message EventType.privmsg = true
from_message EventType.notice = true
from_message EventType.invite = true
from_message EventType.action = true
from_message EventType.numeric = true
from_message EventType.cap_ls = true
from_message EventType.cap_ack = true
from_message EventType.cap_nak = true
from_message EventType.cap_del = true
from_message EventType.cap_new = true
from_message EventType.sasl_auth = true
from_message EventType.sasl_success = true
from_message EventType.sasl_fail = true
from_message EventType.registered = true
from_message EventType.whois = true
from_message EventType.who = true
from_message EventType.list = true
from_message EventType.names = true
from_message EventType.unknown = true
from_message _ = false

abbrev AreFromMessage : List EventType → Type 0
AreFromMessage = All (λ t. from_message t ≡ true)

cap_types-AreFromMessage : (m : Message) → AreFromMessage (cap_types m)
unfolding cap_types
cap_types-AreFromMessage m = ground arith

numeric_types-AreFromMessage : (m : Message) → AreFromMessage (numeric_types m)
unfolding numeric_types
numeric_types-AreFromMessage m = ground arith

talk_types-AreFromMessage : (m : Message) → AreFromMessage (talk_types m)
unfolding talk_types
talk_types-AreFromMessage m =
    ground (arith, cap_types-AreFromMessage m, numeric_types-AreFromMessage m)

event_types-AreFromMessage : (m : Message) → AreFromMessage (event_types m)
unfolding event_types
event_types-AreFromMessage m = ground (arith, talk_types-AreFromMessage m)

module _ (env : Env) where
  -- What the code makes of the message for the type, if it makes anything, is of its kind.
  abbrev IsTyped : Message → EventType → Type 0
  IsTyped m t = (body : EventData) → event_data env t m ≡ some body → has_data t body ≡ true

  event_data-IsTyped : (t : EventType) (m : Message) → from_message t ≡ true → IsTyped m t
  unfolding event_data
  event_data-IsTyped EventType.ping m f body h = ground arith
  event_data-IsTyped EventType.pong m f body h = ground arith
  event_data-IsTyped EventType.error m f body h = ground arith
  event_data-IsTyped EventType.nick m f body h = ground arith
  event_data-IsTyped EventType.join m f body h = ground arith
  event_data-IsTyped EventType.part m f body h = ground arith
  event_data-IsTyped EventType.quit m f body h = ground arith
  event_data-IsTyped EventType.kick m f body h = ground arith
  event_data-IsTyped EventType.mode m f body h = ground arith
  event_data-IsTyped EventType.topic m f body h = ground arith
  event_data-IsTyped EventType.privmsg m f body h = ground arith
  event_data-IsTyped EventType.notice m f body h = ground arith
  event_data-IsTyped EventType.invite m f body h = ground arith
  event_data-IsTyped EventType.action m f body h = ground arith
  event_data-IsTyped EventType.numeric m f body h = ground arith
  event_data-IsTyped EventType.cap_ls m f body h = ground arith
  event_data-IsTyped EventType.cap_ack m f body h = ground arith
  event_data-IsTyped EventType.cap_nak m f body h = ground arith
  event_data-IsTyped EventType.cap_del m f body h = ground arith
  event_data-IsTyped EventType.cap_new m f body h = ground arith
  event_data-IsTyped EventType.sasl_auth m f body h = ground arith
  event_data-IsTyped EventType.sasl_success m f body h = ground arith
  event_data-IsTyped EventType.sasl_fail m f body h = ground arith
  event_data-IsTyped EventType.registered m f body h = ground arith
  event_data-IsTyped EventType.whois m f body h = ground arith
  event_data-IsTyped EventType.who m f body h = ground arith
  event_data-IsTyped EventType.list m f body h = ground arith
  event_data-IsTyped EventType.names m f body h = ground arith
  event_data-IsTyped EventType.unknown m f body h = ground arith
  event_data-IsTyped _ m f body h = cc

  -- If there are events, they are typed.
  abbrev AreTyped : Option (List Event) → Type 0
  AreTyped none = Unit
  AreTyped (some es) = All (λ e. has_data e.type e.body ≡ true) es

  events_of-AreTyped :
      (m : Message) (ts : List EventType) → AreFromMessage ts → AreTyped (events_of env (some m) ts)
  unfolding events_of
  events_of-AreTyped m [] f = tt
  events_of-AreTyped m (t ∷ ts) (f, fs) =
      go (event_data env t m) (event_data-IsTyped t m f) (events_of env (some m) ts)
        (events_of-AreTyped m ts fs)
    where
      go :
          (o : Option EventData)
          → ((body : EventData) → o ≡ some body → has_data t body ≡ true)
          → (rest : Option (List Event)) → AreTyped rest
          → AreTyped (elim o as (λ _. Option (List Event)) [
            | none ↦ none
            | some body ↦ elim rest as (λ _. Option (List Event)) [
              | none ↦ none
              | some es ↦ some (
                  record {
                    type = t;
                    message = some m;
                    body = body;
                    time = parse_server_time env (some m);
                  }
                  ∷ es)
            ]
          ])
      go none h rest r = tt
      go (some body) h none r = tt
      go (some body) h (some es) r = (h body refl, r)

  -- Every event that is made of a message has data of the kind that belongs to its type, and no
  -- event has a type that only the program itself gives: the type assertions of the handlers hold.
  pub create_events-AreTyped :
      (m : Message) (es : List Event)
      → create_events env (some m) ≡ some es
      → All (λ e. has_data e.type e.body ≡ true) es
  unfolding create_events determine_event_type
  create_events-AreTyped m es h =
      subst AreTyped h (events_of-AreTyped m (event_types m) (event_types-AreFromMessage m))
