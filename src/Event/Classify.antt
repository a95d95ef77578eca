-- ===== src/Event/Classify.antt =====
-- parser/events.go: DetermineEventType, and the tests on CTCP messages.
use ircparser.Base.{
  ℕ, ◌-◌, Bool, false, not, ◌||◌, ◌&&◌, List, [], ◌∷◌, Bytes, codes, equal, ◌==◌, leb, ltb,
  if◌then◌else◌, length, get_or, take, Option, none, some,
}
use ircparser.Text.{has_prefix, slice, index}
use ircparser.Text.Runes.{fields, to_upper}
use ircparser.Message.{Message, get_trailing, is_numeric}
use ircparser.Event.{
  EventType, ping, pong, error, cap_ls, cap_ack, cap_nak, cap_del, cap_new, sasl_auth, sasl_success,
  sasl_fail, registered, nick, join, part, quit, kick, mode, topic, privmsg, notice, invite, whois,
  who, list, names, action, numeric, unknown,
}

abbrev pub ctcp_delimiter : ℕ
ctcp_delimiter = 1

-- message[0] and message[len(message)-1] are delimiters.
delimited : Bytes → Bool
delimited m = get_or m 0 0 == ctcp_delimiter && get_or m (length m - 1) 0 == ctcp_delimiter

unfoldable pub is_action_message : Bytes → Bool
unfolding delimited
is_action_message m =
    if ltb (length m) 9
    then false
    else if not (delimited m)
    then false
    else has_prefix (slice 1 (length m - 1) m) (codes "ACTION")

-- The command of a CTCP message, upper case.
ctcp_command : (ℕ → ℕ) → List Bytes → Bool
ctcp_command unicode_upper [] = false
ctcp_command unicode_upper (p ∷ ps) =
    let command = to_upper unicode_upper p in
    if equal command (codes "ACTION") then false else not (equal command [])

unfoldable pub is_valid_ctcp : (ℕ → ℕ) → Bytes → Bool
unfolding delimited ctcp_command
is_valid_ctcp unicode_upper m =
    if ltb (length m) 2
    then false
    else if not (delimited m)
    then false
    else if equal (slice 1 (length m - 1) m) []
    then false
    else ctcp_command unicode_upper (fields (slice 1 (length m - 1) m))

unfoldable pub one_of : Bytes → List Bytes → Bool
one_of command [] = false
one_of command (c ∷ cs) = equal command c || one_of command cs

-- The inner switch, on the subcommand of CAP.
unfoldable pub cap_types : Message → List EventType
cap_types m =
    let sub = get_or m.params 1 [] in
    if ltb (length m.params) 2
    then unknown ∷ []
    else if equal sub (codes "LS")
    then cap_ls ∷ []
    else if equal sub (codes "ACK")
    then cap_ack ∷ []
    else if equal sub (codes "NAK")
    then cap_nak ∷ []
    else if equal sub (codes "DEL")
    then cap_del ∷ []
    else if equal sub (codes "NEW")
    then cap_new ∷ []
    else unknown ∷ []

-- The cases of the switch behind AUTHENTICATE.
unfoldable pub numeric_types : Message → List EventType
unfolding one_of
numeric_types m =
    if one_of m.command (codes "900" ∷ codes "903" ∷ [])
    then sasl_success ∷ []
    else if one_of m.command (
        codes "901"
        ∷ codes "902"
        ∷ codes "904"
        ∷ codes "905"
        ∷ codes "906"
        ∷ codes "907"
        ∷ codes "908"
        ∷ [])
    then sasl_fail ∷ []
    else if equal m.command (codes "001")
    then registered ∷ numeric ∷ []
    else if one_of m.command
        (codes "311" ∷ codes "312" ∷ codes "313" ∷ codes "317" ∷ codes "318" ∷ codes "319" ∷ [])
    then whois ∷ []
    else if one_of m.command (codes "352" ∷ codes "315" ∷ [])
    then who ∷ []
    else if one_of m.command (codes "321" ∷ codes "322" ∷ codes "323" ∷ [])
    then list ∷ []
    else if one_of m.command (codes "353" ∷ codes "366" ∷ [])
    then names ∷ numeric ∷ []
    else if is_numeric m
    then numeric ∷ []
    else unknown ∷ []

-- The cases of the commands from PRIVMSG to AUTHENTICATE.
unfoldable pub talk_types : Message → List EventType
talk_types m =
    if equal m.command (codes "PRIVMSG")
    then (if leb 2 (length m.params) && is_action_message (get_trailing m)
        then action ∷ []
        else privmsg ∷ [])
    else if equal m.command (codes "NOTICE")
    then notice ∷ []
    else if equal m.command (codes "INVITE")
    then invite ∷ []
    else if equal m.command (codes "CAP")
    then cap_types m
    else if equal m.command (codes "AUTHENTICATE")
    then sasl_auth ∷ []
    else numeric_types m

unfoldable pub event_types : Message → List EventType
event_types m =
    if equal m.command (codes "PING")
    then ping ∷ []
    else if equal m.command (codes "PONG")
    then pong ∷ []
    else if equal m.command (codes "ERROR")
    then error ∷ []
    else if equal m.command (codes "NICK")
    then nick ∷ []
    else if equal m.command (codes "JOIN")
    then join ∷ []
    else if equal m.command (codes "PART")
    then part ∷ []
    else if equal m.command (codes "QUIT")
    then quit ∷ []
    else if equal m.command (codes "KICK")
    then kick ∷ []
    else if equal m.command (codes "MODE")
    then mode ∷ []
    else if equal m.command (codes "TOPIC")
    then topic ∷ []
    else talk_types m

unfoldable pub determine_event_type : Option Message → List EventType
determine_event_type none = unknown ∷ []
determine_event_type (some m) = event_types m

-- extractNick
unfoldable pub extract_nick : Bytes → Bytes
extract_nick source = elim (index b'!' source) [ none ↦ source | some bang ↦ take bang source ]
