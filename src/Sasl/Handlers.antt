-- ===== src/Sasl/Handlers.antt =====
-- parser/sasl.go: the mechanism PLAIN, the handlers of the events, and the timer.
use ircparser.Base.{
  true, false, ◌&&◌, ◌||◌, List, [], ◌∷◌, ◌++◌, Bytes, codes, equal, bytes_eq, lookup, Option, none,
  some, Result, ok, err, ltb, if◌then◌else◌, length,
}
use ircparser.Text.{split}
use ircparser.Message.{Message, get_trailing}
use ircparser.Event.{EventType, EventData, Event, sasl_data, error_data, cap_pre_end_data}
use ircparser.Output.{Output}
use ircparser.Sasl.{
  is_empty, new_plain_mechanism, set_mechanism, set_available_mechanisms, SaslState, SaslError,
  PlainMechanism, SaslHandler, is_inactive, is_requesting, is_active, has_mechanism, set_state,
  emit, stop_timeout, cap_end_ready, mechanism_name, send, send_chunk, send_auth_data,
}

-- Start of PLAIN: user, NUL, user, NUL, password. The credentials are wiped. `encode64` is
-- base64.StdEncoding.EncodeToString.
unfoldable pub start_plain :
    (Bytes → Bytes) → PlainMechanism → Result SaslError (Bytes × PlainMechanism)
start_plain encode64 pm =
    if is_empty pm.username || is_empty pm.password
    then err SaslError.no_credentials
    else ok (
      encode64 (pm.username ++ 0 ∷ pm.username ++ 0 ∷ pm.password),
      record { username = []; password = []; complete = true },
    )

-- Next: PLAIN knows no challenges.
unfoldable pub next_plain : Bytes → Result SaslError Bytes
next_plain challenge = err SaslError.no_challenges

unfoldable pub reset_mechanism : Option PlainMechanism → Option PlainMechanism
reset_mechanism none = none
reset_mechanism (some pm) = some (record pm { complete = false })

-- The callback that runs when the timer does.
unfoldable pub time_out : SaslHandler → SaslHandler
time_out sh =
    emit (record sh { state = SaslState.failed; timer = false }) EventType.sasl_fail
      (sasl_data (mechanism_name sh.mechanism) (codes "timeout"))

unfoldable pub announce_success : SaslHandler → Option PlainMechanism → SaslHandler
announce_success sh none = stop_timeout (set_state sh SaslState.success)
announce_success sh (some pm) =
    emit (stop_timeout (set_state sh SaslState.success)) EventType.sasl_success
      (sasl_data (codes "PLAIN") (codes "authentication successful"))

unfoldable pub handle_sasl_success : SaslHandler → SaslHandler
handle_sasl_success sh =
    if is_active sh.state then cap_end_ready (announce_success sh sh.mechanism) else sh

-- The reason of a failure.
unfoldable pub fail_reason : Option Message → Bytes
fail_reason none = codes "authentication failed"
fail_reason (some m) =
    if ltb 1 (length m.params) then get_trailing m else codes "authentication failed"

unfoldable pub handle_sasl_fail : SaslHandler → Event → SaslHandler
handle_sasl_fail sh e =
    if is_active sh.state
    then cap_end_ready (
        emit
          (record sh {
            state = SaslState.failed;
            timer = false;
            mechanism = reset_mechanism sh.mechanism;
          })
          EventType.sasl_fail (sasl_data (mechanism_name sh.mechanism) (fail_reason e.message)))
    else sh

unfoldable pub reset : SaslHandler → SaslHandler
reset sh = record sh {
  state = SaslState.inactive;
  timer = false;
  mechanism = reset_mechanism sh.mechanism;
}

-- strings.Split(value, ","), or PLAIN when the server names no mechanism
unfoldable pub offered : Option Bytes → List Bytes
offered none = codes "PLAIN" ∷ []
offered (some []) = codes "PLAIN" ∷ []
offered (some (b ∷ bs)) = split b',' (b ∷ bs)

-- The same parameters as for sending.
module _ (send_error : List Output → List Bytes → Option Bytes) (describe : SaslError → Bytes) where
  unfoldable pub abort : SaslHandler → SaslHandler × Result SaslError (List Bytes)
  abort sh =
      if is_active sh.state
      then after (send send_error describe (stop_timeout (set_state sh SaslState.failed)) line)
      else (sh, err SaslError.not_active)
    where
      line : List Bytes
      line = codes "AUTHENTICATE" ∷ codes "*" ∷ []

      after : SaslHandler × Option Bytes → SaslHandler × Result SaslError (List Bytes)
      after (sh', none) = (sh', ok line)
      after (sh', some e) = (sh', err SaslError.send_failed)

  unfoldable pub request : SaslHandler → SaslHandler × Result SaslError (List Bytes)
  request sh =
      let (sh', result) =
        send send_error describe (set_state sh SaslState.requesting)
          (codes "AUTHENTICATE" ∷ codes "PLAIN" ∷ []) in
      elim result [
        | none ↦ (record sh' { timer = true }, ok [])
        | some e ↦ (set_state sh' SaslState.failed, err SaslError.send_failed)
      ]

  unfoldable pub start_authentication : SaslHandler → SaslHandler × Result SaslError (List Bytes)
  start_authentication sh =
      if is_inactive sh.state
      then elim sh.mechanism [
        | none ↦ (sh, err SaslError.no_mechanism)
        | some pm ↦
            if is_empty sh.available_mechs
            then (sh, err SaslError.not_available)
            else if has_mechanism (codes "PLAIN") sh.available_mechs
            then request sh
            else (sh, err SaslError.mechanism_not_supported)
      ]
      else (sh, err SaslError.already_active)

  unfoldable pub start_plain_authentication :
      SaslHandler → SaslHandler × Result SaslError (List Bytes)
  start_plain_authentication sh =
      if has_mechanism (codes "PLAIN") sh.available_mechs
      then if is_empty sh.username || is_empty sh.password
        then (sh, err SaslError.no_credentials)
        else start_authentication
            (set_mechanism sh (some (new_plain_mechanism sh.username sh.password)))
      else (sh, err SaslError.plain_not_supported)

  -- Without success, the negotiation goes on.
  unfoldable pub check_begun : SaslHandler × Result SaslError (List Bytes) → SaslHandler
  check_begun (sh, ok line) = sh
  check_begun (sh, err e) = cap_end_ready (
      emit sh EventType.sasl_fail
        (sasl_data (codes "unknown") (codes "failed to start SASL: " ++ describe e)))

  unfoldable pub begin_plain : SaslHandler → SaslHandler
  begin_plain sh = check_begun (start_plain_authentication sh)

  unfoldable pub handle_sasl : SaslHandler → EventData → SaslHandler
  handle_sasl sh (cap_pre_end_data active_caps cap_values) =
      let sh' = set_available_mechanisms sh (offered (lookup (codes "sasl") cap_values)) in
      if has_mechanism (codes "sasl") active_caps
      then if is_empty sh.username && is_empty sh.password
        then cap_end_ready sh'
        else begin_plain sh'
      else cap_end_ready
          (emit sh EventType.error (error_data (codes "SASL required but not supported by server")))
  handle_sasl sh _ = cap_end_ready sh

  -- The response of the mechanism is sent; without one, the handler gives up.
  unfoldable pub reply : SaslHandler → Result SaslError Bytes → SaslHandler
  reply sh (err e) = (abort sh).0
  reply sh (ok []) = (send_chunk send_error describe sh (codes "+")).0
  reply sh (ok (b ∷ bs)) = send_auth_data send_error describe sh (b ∷ bs)

  -- The answer to a challenge. `decode64` is base64.StdEncoding.DecodeString.
  unfoldable pub respond :
      (Bytes → Bytes) → (Bytes → Option Bytes) → SaslHandler → PlainMechanism → Bytes → SaslHandler
  respond encode64 decode64 sh pm challenge =
      if equal challenge (codes "+")
      then elim (start_plain encode64 pm) [
        | err e ↦ reply sh (err e)
        | ok started ↦ reply (record sh { mechanism = some started.1 }) (ok started.0)
      ]
      else elim (decode64 challenge) [
        | none ↦ (abort sh).0
        | some decoded ↦ reply sh (next_plain decoded)
      ]

  unfoldable pub handle_authenticate :
      (Bytes → Bytes) → (Bytes → Option Bytes) → SaslHandler → Event → SaslHandler
  handle_authenticate encode64 decode64 sh e = elim e.message [
    | none ↦ sh
    | some m ↦
        if is_requesting sh.state
        then elim sh.mechanism [
          | none ↦ (abort sh).0
          | some pm ↦
              respond encode64 decode64 (set_state sh SaslState.authenticating) pm (get_trailing m)
        ]
        else sh
  ]
