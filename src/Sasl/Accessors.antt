-- ===== src/Sasl/Accessors.antt =====
-- parser/sasl.go: the accessors, and the texts of the states.
use ircparser.Base.{Bool, not, List, Bytes, codes, Option, ℕ, ℤ}
use ircparser.Sasl.{is_empty, PlainMechanism, SaslHandler, SaslState}

unfoldable pub state_text : SaslState → Bytes
state_text SaslState.inactive = codes "inactive"
state_text SaslState.requesting = codes "requesting"
state_text SaslState.authenticating = codes "authenticating"
state_text SaslState.success = codes "success"
state_text SaslState.failed = codes "failed"

unfoldable pub is_mechanism_complete : PlainMechanism → Bool
is_mechanism_complete pm = pm.complete

unfoldable pub get_mechanism : SaslHandler → Option PlainMechanism
get_mechanism sh = sh.mechanism

unfoldable pub get_state : SaslHandler → SaslState
get_state sh = sh.state

unfoldable pub get_available_mechanisms : SaslHandler → List Bytes
get_available_mechanisms sh = sh.available_mechs

unfoldable pub is_available : SaslHandler → Bool
is_available sh = not (is_empty (get_available_mechanisms sh))

unfoldable pub get_timeout : SaslHandler → ℤ
get_timeout sh = sh.timeout

unfoldable pub set_timeout : SaslHandler → ℤ → SaslHandler
set_timeout sh timeout = record sh { timeout = timeout }

unfoldable pub get_max_chunk_size : SaslHandler → ℕ
get_max_chunk_size sh = sh.max_chunk_size
