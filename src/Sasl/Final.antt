-- ===== src/Sasl/Final.antt =====
-- parser/sasl.go: an authentication that succeeded is not taken back.
use mathlib.Core.Path.{subst}
use ircparser.Base.{
  some, none, ◌≢◌, sym, ◌∙◌, false, true, Result, ok, err, ◌≡◌, refl, Bytes, List, Option, Bool,
  if◌then◌else◌, ap, Option-cases, inl, inr,
}
use ircparser.Event.{Event, EventData, no_data, cap_pre_end_data}
use ircparser.Output.{Output}
use ircparser.Sasl.{
  PlainMechanism, SaslState, SaslError, SaslHandler, is_inactive, is_active, is_requesting, emit,
  cap_end_ready,
}
use ircparser.Sasl.Handlers.{
  announce_success, handle_sasl_success, handle_sasl_fail, time_out, abort, handle_sasl,
  handle_authenticate, begin_plain, check_begun, start_plain_authentication, start_authentication,
}

if-else : {A : Type 0} (b : Bool) (x y : A) → b ≡ false → (if b then x else y) ≡ y
if-else true x y h = cc
if-else false x y h = refl

success-inactive : (sh : SaslHandler) → sh.state ≡ SaslState.success → is_active sh.state ≡ false
unfolding is_active
success-inactive sh h = ap is_active h

success-stays : (sh : SaslHandler) → sh.state ≡ SaslState.success → handle_sasl_success sh ≡ sh
unfolding handle_sasl_success
success-stays sh h = if-else _ _ _ (success-inactive sh h)

fail-stays :
    (sh : SaslHandler) (e : Event) → sh.state ≡ SaslState.success → handle_sasl_fail sh e ≡ sh
unfolding handle_sasl_fail
fail-stays sh e h = if-else _ _ _ (success-inactive sh h)

-- Authentication succeeded, and its timer does not run.
pub record IsSettled (sh : SaslHandler) : Type 0 where
  pub state_is : sh.state ≡ SaslState.success
  pub timer_is : sh.timer ≡ false

module _ (send_error : List Output → List Bytes → Option Bytes) (describe : SaslError → Bytes) where
  abort-stays :
      (sh : SaslHandler) → sh.state ≡ SaslState.success → (abort send_error describe sh).0 ≡ sh
  unfolding abort
  abort-stays sh h =
      ap (λ (r : SaslHandler × Result SaslError (List Bytes)). r.0)
        (if-else _ _ _ (success-inactive sh h))

  authenticate-stays :
      (encode64 : Bytes → Bytes) (decode64 : Bytes → Option Bytes) (sh : SaslHandler) (e : Event)
      → sh.state ≡ SaslState.success
      → handle_authenticate send_error describe encode64 decode64 sh e ≡ sh
  unfolding handle_authenticate is_requesting
  authenticate-stays encode64 decode64 sh e h = elim (Option-cases e.message) [
    | inl no_message ↦ rw (no_message, handle_authenticate) refl
    | inr (m, found) ↦ rw (found, handle_authenticate) (if-else _ _ _ (ap is_requesting h))
  ]

  start-stays :
      (sh : SaslHandler)
      → sh.state ≡ SaslState.success
      → (start_authentication send_error describe sh).0 ≡ sh
  unfolding start_authentication is_inactive
  start-stays sh h =
      ap (λ (r : SaslHandler × Result SaslError (List Bytes)). r.0)
        (if-else _ _ _ (ap is_inactive h))

  check_begun-IsSettled :
      (p : SaslHandler × Result SaslError (List Bytes))
      → IsSettled p.0
      → IsSettled (check_begun send_error describe p)
  unfolding check_begun cap_end_ready emit
  check_begun-IsSettled (sh, ok line) h = h
  check_begun-IsSettled (sh, err e) h = record { state_is = h.state_is; timer_is = h.timer_is }

  if-IsSettled :
      (b : Bool) (p q : SaslHandler × Result SaslError (List Bytes))
      → IsSettled p.0
      → IsSettled q.0
      → IsSettled (if b then p else q).0
  if-IsSettled true p q h k = h
  if-IsSettled false p q h k = k

  begin-IsSettled :
      (sh : SaslHandler) → IsSettled sh → IsSettled (begin_plain send_error describe sh)
  unfolding begin_plain start_plain_authentication
  begin-IsSettled sh h = check_begun-IsSettled _ (
      if-IsSettled _ _ _
        (if-IsSettled _ _ _ h (
          subst IsSettled (sym (start-stays _ h.state_is))
            (record { state_is = h.state_is; timer_is = h.timer_is })))
        h)

  if_then-IsSettled :
      (b : Bool) (s t : SaslHandler) → IsSettled s → IsSettled t → IsSettled (if b then s else t)
  if_then-IsSettled true s t h k = h
  if_then-IsSettled false s t h k = k

  handle_sasl-IsSettled :
      (sh : SaslHandler) (body : EventData)
      → IsSettled sh
      → IsSettled (handle_sasl send_error describe sh body)
  unfolding handle_sasl cap_end_ready emit
  handle_sasl-IsSettled sh no_data h = record { state_is = h.state_is; timer_is = h.timer_is }
  handle_sasl-IsSettled sh (cap_pre_end_data caps values) h =
      if_then-IsSettled _ _ _
        (if_then-IsSettled _ _ _ (record { state_is = h.state_is; timer_is = h.timer_is })
          (begin-IsSettled _ (record { state_is = h.state_is; timer_is = h.timer_is })))
        (record { state_is = h.state_is; timer_is = h.timer_is })
  handle_sasl-IsSettled sh _ h = record { state_is = h.state_is; timer_is = h.timer_is }

  -- What may happen to the handler: the events that it is subscribed to, a call of Abort, and the
  -- timer, if it runs.
  pub data Step (encode64 : Bytes → Bytes) (decode64 : Bytes → Option Bytes)
      : SaslHandler → SaslHandler → Type 0 where
    authenticates :
        (sh : SaslHandler) (e : Event)
        → Step encode64 decode64 sh (handle_authenticate send_error describe encode64 decode64 sh e)
    succeeds : (sh : SaslHandler) → Step encode64 decode64 sh (handle_sasl_success sh)
    fails : (sh : SaslHandler) (e : Event) → Step encode64 decode64 sh (handle_sasl_fail sh e)
    begins :
        (sh : SaslHandler) (body : EventData)
        → Step encode64 decode64 sh (handle_sasl send_error describe sh body)
    aborts : (sh : SaslHandler) → Step encode64 decode64 sh (abort send_error describe sh).0
    times_out : (sh : SaslHandler) → sh.timer ≡ true → Step encode64 decode64 sh (time_out sh)

  pub data Steps (encode64 : Bytes → Bytes) (decode64 : Bytes → Option Bytes)
      : SaslHandler → SaslHandler → Type 0 where
    ends : (sh : SaslHandler) → Steps encode64 decode64 sh sh
    goes :
        {a b c : SaslHandler}
        → Step encode64 decode64 a b
        → Steps encode64 decode64 b c
        → Steps encode64 decode64 a c

  Step-IsSettled :
      (encode64 : Bytes → Bytes) (decode64 : Bytes → Option Bytes) {a b : SaslHandler}
      → Step encode64 decode64 a b
      → IsSettled a
      → IsSettled b
  Step-IsSettled encode64 decode64 (authenticates sh e) h =
      subst IsSettled (sym (authenticate-stays encode64 decode64 sh e h.state_is)) h
  Step-IsSettled encode64 decode64 (succeeds sh) h =
      subst IsSettled (sym (success-stays sh h.state_is)) h
  Step-IsSettled encode64 decode64 (fails sh e) h =
      subst IsSettled (sym (fail-stays sh e h.state_is)) h
  Step-IsSettled encode64 decode64 (begins sh body) h = handle_sasl-IsSettled sh body h
  Step-IsSettled encode64 decode64 (aborts sh) h =
      subst IsSettled (sym (abort-stays sh h.state_is)) h
  Step-IsSettled encode64 decode64 (times_out sh runs) h =
      absurd (false_is_not_true (sym h.timer_is ∙ runs))
    where
      false_is_not_true : false ≢ true
      false_is_not_true h = cc

  Steps-IsSettled :
      (encode64 : Bytes → Bytes) (decode64 : Bytes → Option Bytes) {a b : SaslHandler}
      → Steps encode64 decode64 a b
      → IsSettled a
      → IsSettled b
  Steps-IsSettled encode64 decode64 (ends sh) h = h
  Steps-IsSettled encode64 decode64 (goes s r) h =
      Steps-IsSettled encode64 decode64 r (Step-IsSettled encode64 decode64 s h)

  announce-IsSettled :
      (sh : SaslHandler) (o : Option PlainMechanism) → IsSettled (announce_success sh o)
  unfolding announce_success emit
  announce-IsSettled sh none = record { state_is = refl; timer_is = refl }
  announce-IsSettled sh (some pm) = record { state_is = refl; timer_is = refl }

  ready-IsSettled : (sh : SaslHandler) → IsSettled sh → IsSettled (cap_end_ready sh)
  unfolding cap_end_ready emit
  ready-IsSettled sh h = record { state_is = h.state_is; timer_is = h.timer_is }

  success-IsSettled :
      (sh : SaslHandler) → is_active sh.state ≡ true → IsSettled (handle_sasl_success sh)
  unfolding handle_sasl_success
  success-IsSettled sh h =
      rw (h, handle_sasl_success) (ready-IsSettled _ (announce-IsSettled sh sh.mechanism))

  -- When the server reports the success of an authentication that is under way, the handler is in the
  -- state of success, with its timer stopped, and stays so whatever happens to it until Reset:
  -- more lines of the server, a new negotiation, a call of Abort, the timer.
  pub success-is_final :
      (encode64 : Bytes → Bytes) (decode64 : Bytes → Option Bytes) (sh : SaslHandler)
      {sh' : SaslHandler}
      → is_active sh.state ≡ true
      → Steps encode64 decode64 (handle_sasl_success sh) sh'
      → (sh'.state ≡ SaslState.success) × (sh'.timer ≡ false)
  success-is_final encode64 decode64 sh active steps =
      let settled = Steps-IsSettled encode64 decode64 steps (success-IsSettled sh active) in
      (settled.state_is, settled.timer_is)
