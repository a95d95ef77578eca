-- ===== src/Sasl.antt =====
-- parser/sasl.go: the handler that authenticates with SASL, and the mechanism PLAIN, the only one in
-- the code. What the handler sends and emits is its output, oldest first. The goroutines' locks are
-- left out: a handler runs as one step.
pub mod Handlers
pub mod Chunks
pub mod Final
pub mod Accessors
mod Tests
use ircparser.Base.{
  ℕ, zero, suc, Bool, true, false, ◌&&◌, ◌||◌, not, List, [], ◌∷◌, ◌++◌, Bytes, codes, equal, Dict,
  bytes_eq, lookup, Option, none, some, Result, ok, err, ltb, leb, if◌then◌else◌, length, take,
  drop, ℤ,
}
use ircparser.Text.{split}
use ircparser.Message.{Message, get_trailing}
use ircparser.Config.{seconds}
use ircparser.Output.{Output, sent, refused, emitted}
use ircparser.Event.{EventType, EventData, Event, sasl_data, error_data, no_data, cap_pre_end_data}

abbrev pub is_empty {ℓ} : {A : Type ℓ} → List A → Bool
is_empty [] = true
is_empty (x ∷ xs) = false

pub data SaslState : Type 0 where
  inactive requesting authenticating success failed : SaslState

pub data SaslError : Type 0 where
  already_active no_mechanism not_available mechanism_not_supported : SaslError
  send_failed not_active plain_not_supported no_credentials : SaslError
  no_challenges : SaslError

pub record PlainMechanism : Type 0 where
  pub username : Bytes
  pub password : Bytes
  pub complete : Bool

pub record SaslHandler : Type 0 where
  pub state : SaslState
  pub mechanism : Option PlainMechanism
  pub timeout : ℤ
  pub timer : Bool
  pub available_mechs : List Bytes
  pub max_chunk_size : ℕ
  pub username : Bytes
  pub password : Bytes
  pub output : List Output

unfoldable pub new_sasl_handler : Bytes → Bytes → SaslHandler
new_sasl_handler username password = record {
  state = SaslState.inactive;
  mechanism = none;
  timeout = seconds 30;
  timer = false;
  available_mechs = [];
  max_chunk_size = 400;
  username = username;
  password = password;
  output = [];
}

abbrev pub new_plain_mechanism : Bytes → Bytes → PlainMechanism
new_plain_mechanism username password = record {
  username = username;
  password = password;
  complete = false;
}

abbrev pub set_mechanism : SaslHandler → Option PlainMechanism → SaslHandler
set_mechanism sh mechanism = record sh { mechanism = mechanism }

abbrev pub set_available_mechanisms : SaslHandler → List Bytes → SaslHandler
set_available_mechanisms sh mechs = record sh { available_mechs = mechs }

unfoldable pub is_inactive : SaslState → Bool
is_inactive SaslState.inactive = true
is_inactive _ = false

unfoldable pub is_requesting : SaslState → Bool
is_requesting SaslState.requesting = true
is_requesting _ = false

unfoldable pub is_active : SaslState → Bool
is_active SaslState.requesting = true
is_active SaslState.authenticating = true
is_active _ = false

unfoldable pub is_complete : SaslState → Bool
is_complete SaslState.success = true
is_complete SaslState.failed = true
is_complete _ = false

unfoldable pub has_mechanism : Bytes → List Bytes → Bool
has_mechanism name [] = false
has_mechanism name (mech ∷ mechs) = equal mech name || has_mechanism name mechs

abbrev pub set_state : SaslHandler → SaslState → SaslHandler
set_state sh s = record sh { state = s }

unfoldable pub emit : SaslHandler → EventType → EventData → SaslHandler
emit sh t d = record sh { output = sh.output ++ emitted t d ∷ [] }

abbrev pub stop_timeout : SaslHandler → SaslHandler
stop_timeout sh = record sh { timer = false }

unfoldable pub cap_end_ready : SaslHandler → SaslHandler
cap_end_ready sh = emit sh EventType.cap_end_ready no_data

unfoldable pub mechanism_name : Option PlainMechanism → Bytes
mechanism_name none = codes "unknown"
mechanism_name (some m) = codes "PLAIN"

unfoldable pub set_max_chunk_size : SaslHandler → ℕ → SaslHandler
set_max_chunk_size sh size = if ltb 0 size then record sh { max_chunk_size = size } else sh

-- What follows the result of a send.
unfoldable pub check_sent : SaslHandler × Option Bytes → SaslHandler × Bool
check_sent (sh, none) = (sh, true)
check_sent (sh, some e) = (
  emit (set_state sh SaslState.failed) EventType.sasl_fail
      (sasl_data (mechanism_name sh.mechanism) (codes "send failed: " ++ e)),
  false,
)

-- `send_error` is the error that the connection's send returns for a line, if it returns one;
-- `describe` is the text of an error.
module _ (send_error : List Output → List Bytes → Option Bytes) (describe : SaslError → Bytes) where
  unfoldable pub send : SaslHandler → List Bytes → SaslHandler × Option Bytes
  send sh line = elim (send_error sh.output line) [
    | none ↦ (record sh { output = sh.output ++ sent line ∷ [] }, none)
    | some e ↦ (record sh { output = sh.output ++ refused line ∷ [] }, some e)
  ]

  -- One AUTHENTICATE line; the Boolean says that it was sent.
  unfoldable pub send_chunk : SaslHandler → Bytes → SaslHandler × Bool
  send_chunk sh chunk = check_sent (send sh (codes "AUTHENTICATE" ∷ chunk ∷ []))

  -- The loop over the chunks. The fuel is the length of the data: a round takes a byte at least, as
  -- `max_chunk_size` is positive.
  unfoldable pub send_chunks : ℕ → SaslHandler → Bytes → SaslHandler × Bool
  send_chunks zero sh bytes = (sh, true)
  send_chunks (suc n) sh [] = (sh, true)
  send_chunks (suc n) sh (b ∷ bs) =
      let size =
        if ltb (length (b ∷ bs)) sh.max_chunk_size then length (b ∷ bs) else sh.max_chunk_size in
      let one = send_chunk sh (take size (b ∷ bs)) in
      let rest = send_chunks n one.0 (drop size (b ∷ bs)) in if one.1 then rest else (one.0, false)

  unfoldable pub send_auth_data : SaslHandler → Bytes → SaslHandler
  send_auth_data sh bytes =
      let all = send_chunks (length bytes) sh bytes in
      if is_empty bytes
      then (send_chunk sh (codes "+")).0
      else if leb (length bytes) sh.max_chunk_size
      then (send_chunk sh bytes).0
      else if all.1
      then (send_chunk all.0 (codes "+")).0
      else all.0
