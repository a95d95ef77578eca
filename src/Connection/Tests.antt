-- ===== src/Connection/Tests.antt =====
-- The properties of the connection at a fixed network.
use ircparser.Base.{
  List, Bytes, ◌≤◌, ◌+◌, ◌≡◌, refl, false, true, ◌∷◌, [], ◌++◌, codes, none, some, ok, arith,
  length,
}
use ircparser.Text.{join, contains}
use ircparser.Text.Runes.{valid_string, to_upper}
use ircparser.Message.{Message}
use ircparser.Message.Print.{to_string, print_params, needs_colon, tag_part, source_part}
use ircparser.Message.Parse.{parse_message}
use ircparser.Message.RoundTrip.{IsPrintable}
use ircparser.ServerInfo.{new_server_info}
use ircparser.Client.Names.{apply_tokens}
use ircparser.Config.{ConnectionConfig, new_connection_config, with_nick}
use ircparser.Connection.{
  end_reading, write_round, Connection, Network, new_connection, connect, disconnect, read_round,
  send_raw, send, is_connected, command_message, set_tokens, emit, is_disconnected,
}
use ircparser.Connection.Lifecycle.{flushes, connects, stays, goes}
use ircparser.Connection.Lost.{unflushed}
use ircparser.Connection.Lost.Part.{IsPart}
use ircparser.Connection.Reconnect.{connect-disconnect}
use ircparser.Connection.Support.{apply_tokens-isupport}
use ircparser.Connection.Wire.{stream, send-parse_message, send-send_raw}

-- A server that can be reached, and a writer that takes everything.
abbrev quiet : Network
quiet = record {
  env = record { unicode_upper = λ r. r; now = 7; parse_time = λ s. none };
  address = λ config. config.host;
  dial = λ config. none;
  write_error = λ lines line. none;
  describe = λ e. [];
  taken = λ lines line. 0;
  flush_error = λ lines. none;
}

abbrev config : ConnectionConfig
config = new_connection_config (codes "irc.example.org") (with_nick (codes "amy") ∷ [])

abbrev up : Connection
up = (connect quiet (new_connection config)).0

abbrev again : Connection
again = (connect quiet (disconnect up)).0

connect-disconnect_example :
    ((connect quiet (disconnect up)).1 ≡ none)
    × (is_connected again ≡ true)
    × (read_round quiet again (ok (codes "PING :a\r\n"))
        ≡ some ((end_reading quiet again).0, false))
    × (is_connected (end_reading quiet again).0 ≡ true)
    × ((write_round quiet true
          (send_raw quiet (end_reading quiet again).0 (codes "LIST")).0).0.flushed
        ≡ up.flushed)
connect-disconnect_example =
    connect-disconnect quiet up (ok (codes "PING :a\r\n")) (codes "LIST") true refl

apply_tokens-isupport_example :
    (apply_tokens new_server_info (codes "NICKLEN=30" ∷ codes "SAFELIST" ∷ [])).isupport
    ≡ set_tokens [] (codes "NICKLEN=30" ∷ codes "SAFELIST" ∷ [])
unfolding new_server_info
apply_tokens-isupport_example =
    apply_tokens-isupport new_server_info (codes "NICKLEN=30" ∷ codes "SAFELIST" ∷ [])

abbrev greeting : Message
greeting = command_message (codes "PRIVMSG") (codes "#a" ∷ codes "hello there" ∷ [])

greeting-IsPrintable : IsPrintable (λ r. r) greeting
unfolding to_string print_params needs_colon tag_part source_part join contains valid_string
    to_upper
greeting-IsPrintable = record {
  tags_are = tt;
  tags_distinct = tt;
  source_word = omega arith;
  command_ne_nil = cc;
  command_word = omega arith;
  command_no_tag = refl;
  command_no_source = refl;
  command_upper = refl;
  params_are = (refl, tt);
  line_valid = refl;
  line_short = omega arith;
  line_whole = omega arith;
}

greeting_short : length (to_string greeting) + 2 ≤ 8704
unfolding to_string print_params needs_colon tag_part source_part join contains
greeting_short = omega arith

send-parse_message_example :
    ((send quiet up (codes "PRIVMSG") greeting.params).0.written
      ≡ up.written ++ (to_string greeting ++ codes "\r\n") ∷ [])
    × (parse_message (λ r. r) (to_string greeting ++ codes "\r\n")
        ≡ ok (record greeting { raw = to_string greeting }))
unfolding connect new_connection emit is_disconnected
send-parse_message_example =
    send-parse_message quiet (λ r. r) up (codes "PRIVMSG") greeting.params greeting-IsPrintable
      greeting_short refl refl refl

send-send_raw_example :
    stream
      (send quiet up
        (codes "PRIVMSG")
        (codes "#a" ∷ (codes "hello there" ++ (codes "\r\n" ++ codes "QUIT")) ∷ [])).0.written
    ≡ stream
        (send_raw quiet
          (send quiet up (codes "PRIVMSG") greeting.params).0
          (codes "QUIT")).0.written
unfolding connect new_connection emit is_disconnected contains
send-send_raw_example =
    send-send_raw quiet up (codes "PRIVMSG") (codes "#a") (codes "hello there") (codes "QUIT") refl
      refl (λ lines line. refl) refl

-- The QUIT of a client that leaves at once, and a later Connect.
abbrev left : Connection
left = (send_raw quiet up (codes "QUIT")).0

abbrev much_later : Connection
much_later = (write_round quiet true (connect quiet (disconnect left)).0).0

unflushed_example :
    (new later : List Bytes) × (much_later.written ≡ left.written ++ new)
    × (much_later.flushed ≡ up.flushed ++ later)
    × IsPart later new
unflushed_example =
    unflushed quiet up much_later (codes "QUIT")
      (goes (connects _) (goes (flushes _ true) (stays _)))
