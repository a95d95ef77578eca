-- ===== src/Registration.antt =====
-- parser/registration.go: the handler that registers the client with the server. The timer is on or
-- off; its callback is an operation.
pub mod Start
pub mod Final
pub mod Collision
pub mod Accessors
mod Tests
use ircparser.Base.{
  ℕ, Bool, true, false, List, [], ◌∷◌, ◌++◌, Bytes, codes, equal, Option, none, some, if◌then◌else◌,
  ◌==◌, ℤ,
}
use ircparser.Message.{Message}
use ircparser.Event.{EventType, EventData, Event, numeric_data, error_data, connected_data}
use ircparser.Config.{ConnectionConfig, seconds}
use ircparser.Output.{Output, Sender, emitted, send_line}
use ircparser.EventBus.{Outcome, done, panicked}

pub data RegistrationState : Type 0 where
  inactive started complete failed : RegistrationState

-- `unsubscribed` says that the handler gave its subscription to numerics back.
pub record RegistrationHandler : Type 0 where
  pub config : ConnectionConfig
  pub state : RegistrationState
  pub timeout : ℤ
  pub timer : Bool
  pub nick_in_use_id : ℕ
  pub unsubscribed : Bool
  pub output : List Output

-- `id` is what subscribe returns for the numerics.
unfoldable pub new_registration_handler : ConnectionConfig → ℕ → RegistrationHandler
new_registration_handler config id = record {
  config = config;
  state = RegistrationState.inactive;
  timeout = seconds 60;
  timer = false;
  nick_in_use_id = id;
  unsubscribed = false;
  output = [];
}

unfoldable pub is_active : RegistrationState → Bool
is_active RegistrationState.started = true
is_active _ = false

unfoldable pub is_complete : RegistrationState → Bool
is_complete RegistrationState.complete = true
is_complete _ = false

unfoldable pub is_failed : RegistrationState → Bool
is_failed RegistrationState.failed = true
is_failed _ = false

unfoldable pub is_inactive : RegistrationState → Bool
is_inactive RegistrationState.inactive = true
is_inactive _ = false

unfoldable pub emit : RegistrationHandler → EventType → EventData → RegistrationHandler
emit rh t body = record rh { output = rh.output ++ emitted t body ∷ [] }

-- `start_timeout` sets the timer anew, whose callback is `time_out`.
abbrev pub start_timeout : RegistrationHandler → RegistrationHandler
start_timeout rh = record rh { timer = true }

abbrev pub stop_timeout : RegistrationHandler → RegistrationHandler
stop_timeout rh = record rh { timer = false }

abbrev pub set_state : RegistrationHandler → RegistrationState → RegistrationHandler
set_state rh s = record rh { state = s }

abbrev pub emit_error : RegistrationHandler → Bytes → RegistrationHandler
emit_error rh text = emit rh EventType.error (error_data text)

-- Failure, with the error event that tells of it.
unfoldable pub fail : RegistrationHandler → Bytes → RegistrationHandler
fail rh text = emit_error (set_state rh RegistrationState.failed) text

unfoldable pub time_out : RegistrationHandler → RegistrationHandler
time_out rh = fail (record rh { timer = false }) (codes "registration timeout")

-- `none`: there is no message, and reading its source panics.
abbrev pub announce : RegistrationHandler → Option Message → Outcome RegistrationHandler
announce rh none = panicked rh
announce rh (some m) = done (emit rh EventType.registered (connected_data m.source))

-- Id 0 is taken for no subscription.
unfoldable pub leave_numerics : RegistrationHandler → RegistrationHandler
leave_numerics rh = if rh.nick_in_use_id == 0 then rh else record rh { unsubscribed = true }

unfoldable pub handle_welcome : RegistrationHandler → Event → Outcome RegistrationHandler
handle_welcome rh e =
    if is_active rh.state
    then announce (leave_numerics (stop_timeout (set_state rh RegistrationState.complete)))
        e.message
    else done rh

module _ (send_error : Sender) where
  -- A line of the registration; a line that cannot be sent fails it. The Boolean says that the line
  -- was sent.
  abbrev pub check_sent :
      RegistrationHandler → Bytes → List Output × Option Bytes → RegistrationHandler × Bool
  check_sent rh what (output, none) = (record rh { output = output }, true)
  check_sent rh what (output, some e) = (
    fail (record rh { output = output }) (codes "failed to send " ++ what ++ codes ": " ++ e),
    false,
  )

  unfoldable pub send : RegistrationHandler → Bytes → List Bytes → RegistrationHandler × Bool
  send rh what line = check_sent rh what (send_line send_error rh.output line)

  abbrev pub send_next :
      RegistrationHandler × Bool → Bytes → List Bytes → RegistrationHandler × Bool
  send_next (rh, true) what line = send rh what line
  send_next (rh, false) what line = (rh, false)

  unfoldable pub send_pass : RegistrationHandler → Bytes → RegistrationHandler × Bool
  send_pass rh [] = (rh, true)
  send_pass rh (b ∷ bs) = send rh (codes "PASS command") (codes "PASS" ∷ (b ∷ bs) ∷ [])

  unfoldable pub send_registration_commands : RegistrationHandler → RegistrationHandler
  send_registration_commands rh =
      (send_next
        (send_next (send_pass rh rh.config.password) (codes "NICK command")
          (codes "NICK" ∷ rh.config.nick ∷ []))
        (codes "USER command")
        (codes "USER" ∷ rh.config.username ∷ codes "0" ∷ codes "*" ∷ rh.config.realname ∷ [])).0

  -- The error is `true`: the process is under way already.
  unfoldable pub start : RegistrationHandler → RegistrationHandler × Bool
  start rh = if is_active rh.state then (rh, true) else (
    send_registration_commands (start_timeout (set_state rh RegistrationState.started)),
    false,
  )

  -- Start returns no error here, as the state is inactive.
  unfoldable pub handle_connected : RegistrationHandler → RegistrationHandler
  handle_connected rh = if is_inactive rh.state then (start rh).0 else rh

  unfoldable pub handle_numeric : RegistrationHandler → EventData → RegistrationHandler
  handle_numeric rh (numeric_data d) =
      if is_active rh.state
      then if equal d.code (codes "433")
        then (send rh (codes "NICK command for collision")
            (codes "NICK" ∷ (rh.config.nick ++ codes "_") ∷ [])).0
        else rh
      else rh
  handle_numeric rh _ = rh
