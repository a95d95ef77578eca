-- ===== src/Parser/Tests.antt =====
-- The properties of the front end at a fixed connection.
use ircparser.Base.{
  ◌≡◌, refl, false, true, ◌∷◌, [], codes, none, some, arith, lookup, bytes_eq, equal,
}
use ircparser.Message.Print.{to_string}
use ircparser.Event.Classify.{is_action_message}
use ircparser.Config.{new_connection_config, with_nick}
use ircparser.State.{registered}
use ircparser.Connection.{Network, is_registered, command_message}
use ircparser.Connection.Wire.{after_line}
use ircparser.Parser.{Parser, lacks_echo, echo_message, privmsg}
use ircparser.Parser.Echo.{echoed, echo_type, with_events, privmsg-echo_message}

abbrev quiet : Network
quiet = record {
  env = record { unicode_upper = λ r. r; now = 7; parse_time = λ s. none };
  address = λ config. config.host;
  dial = λ config. none;
  write_error = λ lines line. none;
  describe = λ e. [];
  taken = λ lines line. 0;
  flush_error = λ lines. none;
}

abbrev amy : Parser
amy = record {
  connection = record {
    config = new_connection_config (codes "irc.example.org") (with_nick (codes "amy") ∷ []);
    opened = true;
    alive = true;
    state = registered;
    cancelled = false;
    current_nick = codes "amy";
    isupport = [];
    written = [];
    buffered = [];
    flushed = [];
    events = [];
  };
  capabilities = (codes "sasl", []) ∷ [];
}

privmsg-echo_message_example :
    privmsg quiet amy (codes "#a") (codes "hello")
    ≡ some (
      record amy {
        connection =
            with_events
              (after_line quiet amy.connection
                (to_string (command_message (codes "PRIVMSG") (codes "#a" ∷ codes "hello" ∷ []))))
              (record {
                type = echo_type (is_action_message (codes "hello"));
                message = some (echo_message amy (codes "PRIVMSG") (codes "#a") (codes "hello"));
                body =
                    echoed quiet.env
                      (is_action_message (codes "hello"))
                      (codes "#a")
                      (codes "amy")
                      (codes "hello");
                time = 7;
              }
                ∷ []);
      },
      none,
    )
unfolding is_registered lacks_echo lookup equal
privmsg-echo_message_example =
    privmsg-echo_message quiet amy (codes "#a") (codes "hello") refl refl refl refl (omega arith)
