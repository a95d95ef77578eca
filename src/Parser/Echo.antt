-- ===== src/Parser/Echo.antt =====
-- parser/parser.go: the message that stands for the echo of a text.
use ircparser.Base.{
  ◌≡◌, refl, ap, ◌∙◌, Bool, true, false, List, [], ◌∷◌, ◌++◌, Bytes, codes, Lacks, none, some,
  if◌then◌else◌, append_assoc, equal, lookup,
}
use ircparser.State.{ConnectionState}
use ircparser.Connection.{
  is_registered_state, send, Connection, Network, is_disconnected, command_message, is_registered,
}
use ircparser.Event.Shape.{extract_nick-append}
use ircparser.Event.Create.{events_of, event_data, parse_server_time, Env, create_events}
use ircparser.Event.Classify.{
  determine_event_type, event_types, talk_types, is_action_message, is_valid_ctcp, extract_nick,
}
use ircparser.Message.{get_param, get_trailing}
use ircparser.Message.Print.{to_string}
use ircparser.Event.{Event, EventType, EventData, action_data, privmsg_data}
use ircparser.Connection.Wire.{after_line, send_raw-after_line}
use ircparser.Parser.{
  at_connection, Parser, lacks_echo, echo_message, privmsg, send_registered, echo_unless_sent,
  generate_fake_echo,
}

-- A text of this user to a target, as an event.
abbrev pub echoed : Env → Bool → Bytes → Bytes → Bytes → EventData
echoed env true target nick text =
    action_data (record { target = target; nick = nick; message = text })
echoed env false target nick text = privmsg_data (record {
  target = target;
  nick = nick;
  message = text;
  is_ctcp = is_valid_ctcp env.unicode_upper text;
})

abbrev pub echo_type : Bool → EventType
echo_type true = EventType.action
echo_type false = EventType.privmsg

abbrev pub with_events : Connection → List Event → Connection
with_events c es = record c { events = c.events ++ es }

create_events-echo :
    (env : Env) (p : Parser) (target text : Bytes)
    → create_events env (some (echo_message p (codes "PRIVMSG") target text))
      ≡ some (
          record {
            type = echo_type (is_action_message text);
            message = some (echo_message p (codes "PRIVMSG") target text);
            body =
                echoed env
                  (is_action_message text)
                  target
                  (extract_nick (echo_message p (codes "PRIVMSG") target text).source)
                  text;
            time = env.now;
          }
          ∷ [])
unfolding create_events events_of event_data determine_event_type event_types talk_types equal
    echo_message get_trailing get_param parse_server_time lookup
create_events-echo env p target text = go (is_action_message text)
  where
    go :
        (b : Bool)
        → events_of env
            (some (echo_message p (codes "PRIVMSG") target text))
            (if b then EventType.action ∷ [] else EventType.privmsg ∷ [])
          ≡ some (
              record {
                type = echo_type b;
                message = some (echo_message p (codes "PRIVMSG") target text);
                body =
                    echoed env b target
                      (extract_nick (echo_message p (codes "PRIVMSG") target text).source)
                      text;
                time = env.now;
              }
              ∷ [])
    go true = refl
    go false = refl

source_nick :
    (p : Parser) (command target text : Bytes)
    → Lacks b'!' p.connection.current_nick
    → extract_nick (echo_message p command target text).source ≡ p.connection.current_nick
unfolding echo_message
source_nick p command target text h =
    ap extract_nick (simp (append_assoc))
    ∙ (extract_nick-append p.connection.current_nick
        (p.connection.current_nick ++ (codes "@" ++ p.connection.config.host)) h).0

registered_is_up : (c : Connection) → is_registered c ≡ true → is_disconnected c.state ≡ false
unfolding is_registered is_disconnected
registered_is_up c h = go c.state h
  where
    go : (s : ConnectionState) → is_registered_state s ≡ true → is_disconnected s ≡ false
    go ConnectionState.disconnected h = cc
    go ConnectionState.connecting h = refl
    go ConnectionState.connected h = refl
    go ConnectionState.registering h = refl
    go ConnectionState.registered h = refl
    go ConnectionState.disconnecting h = refl

-- Without the capability echo-message, Privmsg on a registered connection whose writer takes the line
-- emits behind the line just one event, of the type and with the data that the server's echo would
-- have: from the nick of the connection, which has no '!', to the target, with the text.
pub privmsg-echo_message :
    (net : Network) (p : Parser) (target text : Bytes)
    → is_registered p.connection ≡ true
    → p.connection.opened ≡ true
    → net.write_error p.connection.written
        (to_string (command_message (codes "PRIVMSG") (target ∷ text ∷ [])) ++ codes "\r\n")
      ≡ none
    → lacks_echo p ≡ true
    → Lacks b'!' p.connection.current_nick
    → privmsg net p target text
      ≡ some (
        record p {
          connection =
              with_events
                (after_line net p.connection
                  (to_string (command_message (codes "PRIVMSG") (target ∷ text ∷ []))))
                (record {
                  type = echo_type (is_action_message text);
                  message = some (echo_message p (codes "PRIVMSG") target text);
                  body =
                      echoed net.env (is_action_message text) target p.connection.current_nick text;
                  time = net.env.now;
                }
                  ∷ []);
        },
        none,
      )
unfolding privmsg send_registered send echo_message lacks_echo echo_unless_sent generate_fake_echo
privmsg-echo_message net p target text r opened w lacks nick_ok =
    ap (echo_unless_sent net (codes "PRIVMSG") target text) sends ∙ echoes
  where
    line : Bytes
    line = to_string (command_message (codes "PRIVMSG") (target ∷ text ∷ []))

    p' : Parser
    p' = record p { connection = after_line net p.connection line }

    sends :
        send_registered net (codes "Privmsg") p (codes "PRIVMSG") (target ∷ text ∷ []) ≡ (p', none)
    sends = rw r (
        ap (at_connection p)
          (send_raw-after_line net p.connection line (registered_is_up p.connection r) opened w))

    event : Event
    event = record {
      type = echo_type (is_action_message text);
      message = some (echo_message p (codes "PRIVMSG") target text);
      body = echoed net.env (is_action_message text) target p.connection.current_nick text;
      time = net.env.now;
    }

    events :
        create_events net.env (some (echo_message p' (codes "PRIVMSG") target text))
        ≡ some (event ∷ [])
    events =
        create_events-echo net.env p' target text
        ∙ rw (source_nick p' (codes "PRIVMSG") target text nick_ok) refl

    lacks' : lacks_echo p' ≡ true
    lacks' = lacks

    echoes :
        echo_unless_sent net (codes "PRIVMSG") target text (p', none)
        ≡ some (
          record p { connection = with_events (after_line net p.connection line) (event ∷ []) },
          none,
        )
    echoes = rw (echo_unless_sent, lacks') (rw (generate_fake_echo, events) refl)
