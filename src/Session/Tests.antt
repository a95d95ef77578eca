-- ===== src/Session/Tests.antt =====
-- Logins at fixed data.
use ircparser.Base.{
  equal, ℕ, zero, suc, refl, false, arith, ◌≡◌, ◌≢◌, ◌++◌, List, [], ◌∷◌, Bytes, codes, Option,
  none, some, true,
}
use ircparser.Config.{apply_options, ConnectionConfig, new_connection_config, with_nick, with_sasl}
use ircparser.Event.Create.{Env}
use ircparser.Sasl.{SaslError}
use ircparser.Sasl.Chunks.{closing, AreChunks}
use ircparser.Session.{World, Session, new_session, sent_lines, wait_round, loop_round}
use ircparser.Session.Turns.{wait_times_out_round, take_turns}
use ircparser.Session.Login.{login, login_lines, login_lem}
use ircparser.Session.Login.Begin.{taking, to_challenge, opening_lines}
use ircparser.Session.Login.Answer.{plain_text}
use ircparser.Session.Login.Finish.{IsLoggedIn}
use ircparser.Session.Flood.{ack_events, ack_events-IsStuck}
use ircparser.EventBus.Queue.{Loop, Run}
use ircparser.EventBus.Queue.Stuck.{IsStuck}
use ircparser.Event.{Event}
use ircparser.Message.{Message, get_trailing}
use ircparser.Text.Runes.{fields}
use ircparser.Capabilities.{CapabilitiesHandler, new_capabilities_handler}
use ircparser.Session.Split.{split_listing, unauthenticated_lines, split_listing_lem}
use ircparser.Session.Plain.{plain_login, plain_lines, plain_login_lem, IsRegistered}
use ircparser.Session.Split.Skipped.{IsSkipped}
use ircparser.Capabilities.{caps_to_request, is_among, name_of}
use ircparser.Text.{contains}
use ircparser.Factory.{has_sasl}
use ircparser.Session.GivenUp.{asks, aborted, given_up_waits}

abbrev no_text : SaslError → Bytes
no_text e = []

abbrev same_bytes : Bytes → Bytes
same_bytes s = s

abbrev some_bytes : Bytes → Option Bytes
some_bytes s = some s

abbrev env : Env
env = record { unicode_upper = λ r. r; now = 7; parse_time = λ s. none }

abbrev world : World
world = taking no_text same_bytes some_bytes env (codes "260101120000")

abbrev config : ConnectionConfig
config = new_connection_config (codes "irc.example.org") (with_nick (codes "amy") ∷ [])

abbrev amy : ConnectionConfig
amy = with_sasl (b'a' ∷ codes "my") (b's' ∷ codes "ecret") config

abbrev credentials : Bytes
credentials = plain_text (b'a' ∷ codes "my") (b's' ∷ codes "ecret")

login_lem_example :
    (s : Session) × (payloads : List Bytes) × (take_turns world
        (login (codes "irc.example.org") (codes ":x") true (codes "amy") (codes "Welcome"))
        (new_session amy)
      ≡ some s)
    × (sent_lines s.log ≡ login_lines amy (payloads ++ closing 400 credentials))
    × AreChunks 400 credentials payloads
    × IsLoggedIn true s
login_lem_example =
    login_lem no_text same_bytes some_bytes env (codes "260101120000") (codes "irc.example.org")
      (codes ":x") config b'a' b's' (codes "my") (codes "ecret") true (codes "amy")
      (codes "Welcome")

not_empty_challenge : codes "abcd" ≢ codes "+"
not_empty_challenge h = cc

given_up_waits_example :
    (s : Session) × (take_turns world
        (to_challenge (codes "irc") (codes ":x")
          ++ asks (codes "irc") (codes ":x") (codes "abcd")
          ++ aborted (codes "irc") (codes ":x") (codes "amy") (codes "Aborted"))
        (new_session amy)
      ≡ some s)
    × (sent_lines s.log ≡ opening_lines amy ++ (codes "AUTHENTICATE" ∷ codes "*" ∷ []) ∷ [])
    × (s.handlers.capabilities.negotiating ≡ true)
    × (wait_round world s ≡ s)
    × (loop_round world s ≡ s)
    × (sent_lines (wait_times_out_round world s).log
        ≡ sent_lines s.log ++ (codes "CAP" ∷ codes "END" ∷ []) ∷ [])
given_up_waits_example =
    given_up_waits no_text same_bytes some_bytes env (codes "260101120000") (codes "irc")
      (codes ":x") config b'a' b's' (codes "my") (codes "ecret") (codes "abcd") (codes "amy")
      (codes "Aborted") not_empty_challenge

abbrev words : ℕ → Bytes
words zero = []
words (suc n) = b'a' ∷ b' ' ∷ words n

abbrev many : Message
many = record {
  tags = [];
  source = [];
  command = codes "CAP";
  params = codes "*" ∷ codes "ACK" ∷ words 101 ∷ [];
  raw = [];
}

abbrev asking : CapabilitiesHandler
asking = record (new_capabilities_handler [] []) { negotiating = true }

abbrev in_handler : Loop Event
in_handler = record {
  queue = [];
  emitting = some (ack_events asking many);
  cancelled = false;
  running = true;
  closed = false;
}

ack_events-IsStuck_example :
    (n : Loop Event) × (a : List Event) × Run in_handler a [] n × IsStuck n × (n.cancelled ≡ false)
unfolding fields get_trailing
ack_events-IsStuck_example = ack_events-IsStuck asking many in_handler refl (omega arith) refl refl

split_listing_lem_example :
    (s : Session) × (take_turns world
        (split_listing true
          (codes "irc")
          (codes ":x")
          (codes "multi-prefix")
          (codes "amy")
          (codes "Welcome"))
        (new_session amy)
      ≡ some s)
    × (sent_lines s.log ≡ unauthenticated_lines true amy)
    × IsSkipped true s
unfolding caps_to_request is_among name_of contains fields equal
split_listing_lem_example =
    split_listing_lem no_text same_bytes some_bytes env (codes "260101120000") (codes "irc")
      (codes ":x") true config b'a' b's' (codes "my") (codes "ecret") (codes "multi-prefix")
      (codes "amy") (codes "Welcome") refl

plain_login_lem_example :
    (s : Session) × (take_turns world
        (plain_login 1 2 1
          (codes "irc")
          (codes ":x")
          (codes "multi-prefix")
          (codes "*" ∷ codes "amy" ∷ codes "In use" ∷ [])
          (codes "amy_")
          (codes "Welcome"))
        (new_session config)
      ≡ some s)
    × (sent_lines s.log ≡ plain_lines config 1 2 1)
    × IsRegistered s
unfolding has_sasl caps_to_request is_among name_of contains fields equal new_connection_config
    apply_options with_nick
plain_login_lem_example =
    plain_login_lem no_text same_bytes some_bytes env (codes "260101120000") (codes "irc")
      (codes ":x") config (codes "multi-prefix") (codes "*" ∷ codes "amy" ∷ codes "In use" ∷ []) 1 2
      1 (codes "amy_") (codes "Welcome") refl refl
