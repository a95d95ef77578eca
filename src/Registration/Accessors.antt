-- ===== src/Registration/Accessors.antt =====
-- parser/registration.go: the accessors, and the texts of the states.
use ircparser.Base.{Bytes, codes, ℤ}
use ircparser.Registration.{RegistrationHandler, RegistrationState}

unfoldable pub state_text : RegistrationState → Bytes
state_text RegistrationState.inactive = codes "inactive"
state_text RegistrationState.started = codes "started"
state_text RegistrationState.complete = codes "complete"
state_text RegistrationState.failed = codes "failed"

unfoldable pub get_state : RegistrationHandler → RegistrationState
get_state rh = rh.state

unfoldable pub get_timeout : RegistrationHandler → ℤ
get_timeout rh = rh.timeout

unfoldable pub set_timeout : RegistrationHandler → ℤ → RegistrationHandler
set_timeout rh timeout = record rh { timeout = timeout }
