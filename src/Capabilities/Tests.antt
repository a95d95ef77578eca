-- ===== src/Capabilities/Tests.antt =====
-- The properties of the capability handler at fixed data.
use ircparser.Text.{contains, join}
use ircparser.Base.{
  ◌≡◌, refl, false, true, ◌∷◌, [], List, All, Bytes, bytes_eq, codes, Option, none, some, arith,
  lookup, equal,
}
use ircparser.Text.Runes.{fields}
use ircparser.Message.{Message, get_trailing}
use ircparser.Output.{Output, sent}
use ircparser.Capabilities.{
  CapabilitiesHandler, caps_to_request, is_among, acknowledge, handle_cap_ack, name_of,
}
use ircparser.Capabilities.Negotiation.{handle_cap_new}
use ircparser.Capabilities.Answers.{lookup-acknowledge}
use ircparser.Capabilities.Progress.Endings.{Ends}
use ircparser.Capabilities.Progress.{Answer, acks, naks, answers, answered, answers-end}
use ircparser.Capabilities.Late.{handle_cap_ack-handle_cap_new}

abbrev never : List Output → List Bytes → Option Bytes
never o line = none

-- Two capabilities were advertised, and both requests are pending.
abbrev asking : CapabilitiesHandler
asking = record {
  requested = codes "sasl" ∷ codes "away-notify" ∷ [];
  pending = (codes "sasl", true) ∷ (codes "away-notify", true) ∷ [];
  available = (codes "sasl", codes "PLAIN") ∷ (codes "away-notify", []) ∷ [];
  acked = [];
  negotiating = true;
  ready = 3;
  waiters = [];
  output = [];
}

lookup-acknowledge_example :
    lookup (codes "sasl") (acknowledge asking (codes "sasl" ∷ [])).acked ≡ some (codes "PLAIN")
unfolding is_among lookup equal
lookup-acknowledge_example = lookup-acknowledge asking (codes "sasl" ∷ []) (codes "sasl")

abbrev reply : Bytes → Bytes → Message
reply sub caps = record {
  tags = [];
  source = codes "irc";
  command = codes "CAP";
  params = codes "*" ∷ sub ∷ caps ∷ [];
  raw = [];
}

abbrev replies : List Answer
replies = naks (reply (codes "NAK") (codes "away-notify")) ∷ []

all_answered :
    (name : Bytes)
    → answered name (acks (reply (codes "ACK") (codes "sasl")) ∷ replies) ≡ false
    → lookup name asking.pending ≡ none
unfolding is_among lookup fields get_trailing
all_answered name h = ground arith

answers-end_example :
    Ends asking (answers asking (acks (reply (codes "ACK") (codes "sasl")) ∷ replies))
answers-end_example =
    answers-end asking (acks (reply (codes "ACK") (codes "sasl"))) replies refl all_answered

-- The negotiation is over.
abbrev over : CapabilitiesHandler
over = record asking { negotiating = false; pending = [] }

abbrev behind : CapabilitiesHandler
behind =
    handle_cap_ack (handle_cap_new never over (some (reply (codes "NEW") (codes "away-notify"))))
      (some (reply (codes "ACK") (codes "away-notify")))

handle_cap_ack-handle_cap_new_example :
    (behind.output ≡ sent (codes "CAP" ∷ codes "REQ" ∷ codes "away-notify" ∷ []) ∷ [])
    × (behind.acked ≡ [])
    × All (λ cap. lookup cap behind.pending ≡ some true) (codes "away-notify" ∷ [])
unfolding caps_to_request is_among name_of contains fields equal get_trailing join
handle_cap_ack-handle_cap_new_example =
    handle_cap_ack-handle_cap_new never over (reply (codes "NEW") (codes "away-notify"))
      (reply (codes "ACK") (codes "away-notify")) (codes "away-notify") [] refl refl refl
