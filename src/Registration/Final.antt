-- ===== src/Registration/Final.antt =====
-- parser/registration.go: a registration that completed stays so.
use mathlib.Core.Path.{subst}
use ircparser.Base.{
  arith, ◌≡◌, ◌≢◌, refl, sym, ap, ◌∙◌, Bool, true, false, Option, none, some, if◌then◌else◌,
}
use ircparser.Message.{Message}
use ircparser.Event.{Event, EventData, numeric_data, no_data}
use ircparser.EventBus.{done, after}
use ircparser.Output.{Sender}
use ircparser.Registration.{
  RegistrationHandler, RegistrationState, is_active, is_inactive, handle_connected, handle_numeric,
  handle_welcome, time_out, announce, leave_numerics, emit,
}

-- Registration is complete, and its timer does not run.
pub record IsComplete (rh : RegistrationHandler) : Type 0 where
  pub state_is : rh.state ≡ RegistrationState.complete
  pub timer_is : rh.timer ≡ false

if-else {ℓ} : {A : Type ℓ} (b : Bool) (x y : A) → b ≡ false → (if b then x else y) ≡ y
if-else true x y h = cc
if-else false x y h = refl

welcome-stays :
    (rh : RegistrationHandler) (e : Event) → IsComplete rh → handle_welcome rh e ≡ done rh
unfolding handle_welcome is_active
welcome-stays rh e h = if-else _ _ _ (ap is_active h.state_is)

leave-IsComplete : (rh : RegistrationHandler) → IsComplete rh → IsComplete (leave_numerics rh)
unfolding leave_numerics
leave-IsComplete rh h = ground arith

announce-IsComplete :
    (rh : RegistrationHandler) (m : Option Message)
    → IsComplete rh
    → IsComplete (after (announce rh m))
unfolding emit
announce-IsComplete rh none h = h
announce-IsComplete rh (some m) h = record { state_is = h.state_is; timer_is = h.timer_is }

-- The welcome completes a registration that is under way, also where its message is missing and the
-- handler panics.
welcome-IsComplete :
    (rh : RegistrationHandler) (e : Event)
    → is_active rh.state ≡ true
    → IsComplete (after (handle_welcome rh e))
unfolding handle_welcome
welcome-IsComplete rh e active =
    rw (active, handle_welcome)
      (announce-IsComplete _ e.message
        (leave-IsComplete _ (record { state_is = refl; timer_is = refl })))

module _ (send_error : Sender) where
  connected-stays : (rh : RegistrationHandler) → IsComplete rh → handle_connected send_error rh ≡ rh
  unfolding handle_connected is_inactive
  connected-stays rh h = if-else _ _ _ (ap is_inactive h.state_is)

  numeric-stays :
      (rh : RegistrationHandler) (body : EventData)
      → IsComplete rh
      → handle_numeric send_error rh body ≡ rh
  unfolding handle_numeric is_active
  numeric-stays rh no_data h = refl
  numeric-stays rh (numeric_data d) h = if-else _ _ _ (ap is_active h.state_is)
  numeric-stays rh _ h = refl

  -- What may happen to the handler: the events that it is subscribed to, and the timer, if it runs.
  pub data Step : RegistrationHandler → RegistrationHandler → Type 0 where
    connects : (rh : RegistrationHandler) → Step rh (handle_connected send_error rh)
    numbers :
        (rh : RegistrationHandler) (body : EventData) → Step rh (handle_numeric send_error rh body)
    welcomes : (rh : RegistrationHandler) (e : Event) → Step rh (after (handle_welcome rh e))
    times_out : (rh : RegistrationHandler) → rh.timer ≡ true → Step rh (time_out rh)

  pub data Steps : RegistrationHandler → RegistrationHandler → Type 0 where
    ends : (rh : RegistrationHandler) → Steps rh rh
    goes : {a b c : RegistrationHandler} → Step a b → Steps b c → Steps a c

  Step-stays : {a b : RegistrationHandler} → Step a b → IsComplete a → b ≡ a
  Step-stays (connects rh) h = connected-stays rh h
  Step-stays (numbers rh body) h = numeric-stays rh body h
  Step-stays (welcomes rh e) h = ap after (welcome-stays rh e h)
  Step-stays (times_out rh runs) h = absurd (false_is_not_true (sym h.timer_is ∙ runs))
    where
      false_is_not_true : false ≢ true
      false_is_not_true h = cc

  Steps-stays : {a b : RegistrationHandler} → Steps a b → IsComplete a → b ≡ a
  Steps-stays (ends rh) h = refl
  Steps-stays (goes s r) h =
      Steps-stays r (subst IsComplete (sym (Step-stays s h)) h) ∙ Step-stays s h

  -- The welcome of a registration that is under way completes it and stops its timer, and after that
  -- nothing changes the handler any more: no event, its own announcement of the welcome included, and
  -- no timer.
  pub welcome-is_final :
      (rh : RegistrationHandler) (e : Event) {rh' : RegistrationHandler}
      → is_active rh.state ≡ true
      → Steps (after (handle_welcome rh e)) rh'
      → (rh' ≡ after (handle_welcome rh e)) × (rh'.state ≡ RegistrationState.complete)
  welcome-is_final rh e active steps =
      let complete = welcome-IsComplete rh e active in
      let same = Steps-stays steps complete in
      (same, ap (λ (rh : RegistrationHandler). rh.state) same ∙ complete.state_is)
