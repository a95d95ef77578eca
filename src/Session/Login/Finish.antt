-- ===== src/Session/Login/Finish.antt =====
-- A login: the verdict on the authentication, the end of the negotiation and the welcome.
use ircparser.Base.{
  Bool, false, Bool, ℕ, ◌≡◌, refl, true, List, [], ◌∷◌, ◌++◌, Bytes, codes, bytes_eq, equal, Option,
  none, some, lookup, insert,
}
use ircparser.Message.{get_trailing}
use ircparser.Event.{sasl_data, no_data, connected_data, EventType}
use ircparser.Event.Texts.{type_text}
use ircparser.Event.Create.{Env, create_events, parse_server_time, event_data, events_of}
use ircparser.EventBus.{unsubscribe_by_id, remove_last, new_event_bus, subscribe, run_handlers}
use ircparser.Config.{ConnectionConfig, with_sasl}
use ircparser.Output.{Output, sent, emitted, send_line}
use ircparser.Sasl.{
  cap_end_ready, mechanism_name, SaslHandler, send_auth_data, SaslError, SaslState,
  new_plain_mechanism, new_sasl_handler, has_mechanism,
}
use ircparser.Sasl.Handlers.{
  announce_success, handle_sasl_success, handle_sasl_fail, reset_mechanism, fail_reason,
}
use ircparser.Capabilities.{
  counting, new_capabilities_handler, parse_available_capabilities, parse_capabilities, name_of,
  value_of, caps_to_request, is_among, advertised, mark_pending, has_pending_capabilities,
  end_capability_negotiation, check_end_negotiation, acknowledge, add_capability,
  remove_pending_capability, get_active_caps,
}
use ircparser.Capabilities.Negotiation.{
  take_signal, count_expected, process_new_capabilities, request_capabilities,
}
use ircparser.Registration.{leave_numerics, RegistrationState, new_registration_handler}
use ircparser.Ping.{new_ping_handler}
use ircparser.Event.Classify.{numeric_types, one_of, determine_event_type, event_types, talk_types}
use ircparser.Factory.{
  setup_default_handlers, setup_others, has_sasl, subscribe_all, subscribe_sasl,
  subscribe_capabilities, subscribe_registration, subscribe_ping,
}
use ircparser.Session.Log.{sent_lines-grown}
use ircparser.Session.{
  leave_bus, sent_lines, leave_bus, event_of, loop_round, dispatch_event, run, receive, wait_round,
  emissions, Session,
}
use ircparser.Session.Turns.{Turn, line_in, event_loop, goroutine, take_turns, take_turn}
use ircparser.Session.Login.Begin.{taking, reply, at_challenge}
use ircparser.Session.Login.Answer.{answered}
use ircparser.Sasl
use ircparser.Capabilities
use ircparser.Capabilities.Negotiation
use ircparser.Registration
use ircparser.Ping

-- 903 for a success, 904 for a failure.
abbrev pub verdict_code : Bool → Bytes
verdict_code true = codes "903"
verdict_code false = codes "904"

abbrev pub verdict_state : Bool → SaslState
verdict_state true = SaslState.success
verdict_state false = SaslState.failed

abbrev pub to_welcome : Bytes → Bytes → Bool → Bytes → Bytes → List Turn
to_welcome source line verdict nick text =
    line_in line (reply source (verdict_code verdict) (nick ∷ text ∷ []))
    ∷ event_loop
    ∷ event_loop
    ∷ event_loop
    ∷ event_loop
    ∷ goroutine
    ∷ line_in line (reply source (codes "001") (nick ∷ text ∷ []))
    ∷ event_loop
    ∷ event_loop
    ∷ event_loop
    ∷ event_loop
    ∷ []

-- What the SASL handler tells of the verdict.
abbrev verdict_event : Bool → Bytes → Output
verdict_event true text =
    emitted EventType.sasl_success (sasl_data (codes "PLAIN") (codes "authentication successful"))
verdict_event false text = emitted EventType.sasl_fail (sasl_data (codes "PLAIN") text)

-- What is put out in these turns, call by call.
abbrev outputs : Bytes → Bool → Bytes → List (List Output)
outputs source verdict text =
    []
    ∷ (verdict_event verdict text ∷ emitted EventType.cap_end_ready no_data ∷ [])
    ∷ []
    ∷ []
    ∷ (sent (codes "CAP" ∷ codes "END" ∷ []) ∷ [])
    ∷ []
    ∷ (emitted EventType.registered (connected_data source) ∷ [])
    ∷ []
    ∷ []
    ∷ []
    ∷ []

abbrev pub state_of : Option SaslHandler → Option SaslState
state_of none = none
state_of (some sh) = some sh.state

-- The handlers are through with the login.
pub record IsLoggedIn (verdict : Bool) (s : Session) : Type 0 where
  pub registration_is : s.handlers.registration.state ≡ RegistrationState.complete
  pub negotiating_is : s.handlers.capabilities.negotiating ≡ false
  pub active_is : s.handlers.capabilities.acked ≡ (codes "sasl", []) ∷ []
  pub waiters_are : s.handlers.capabilities.waiters ≡ []
  pub sasl_is : state_of s.handlers.sasl ≡ some (verdict_state verdict)
  pub queue_is : s.queue ≡ []

module _ (describe : SaslError → Bytes) (encode64 : Bytes → Bytes) (decode64 : Bytes → Option Bytes)
    (env : Env) (stamp source line : Bytes) where
  pub to_welcome_lem :
      (verdict : Bool) (nick text : Bytes) (config : ConnectionConfig) (u p : ℕ) (us ps : Bytes)
      (lines : List Bytes)
      → let c = with_sasl (u ∷ us) (p ∷ ps) config in
        let s = answered (at_challenge env.now c) (u ∷ us) (p ∷ ps) lines in
        (s' : Session) × (take_turns
            (taking describe encode64 decode64 env stamp)
            (to_welcome source line verdict nick text)
            s
          ≡ some s')
        × (sent_lines s'.log ≡ sent_lines s.log ++ (codes "CAP" ∷ codes "END" ∷ []) ∷ [])
        × IsLoggedIn verdict s'
  unfolding take_turns take_turn with_sasl loop_round dispatch_event run receive wait_round event_of
      sent_lines setup_default_handlers setup_others has_sasl subscribe_all subscribe_sasl
      subscribe_capabilities subscribe_registration subscribe_ping new_event_bus subscribe type_text
      lookup insert equal new_sasl_handler new_ping_handler new_capabilities_handler
      new_registration_handler run_handlers emissions create_events determine_event_type event_types
      talk_types parse_server_time event_data events_of numeric_types one_of get_trailing
      handle_sasl_success handle_sasl_fail announce_success cap_end_ready Sasl.emit Sasl.is_active
      mechanism_name reset_mechanism fail_reason Ping.handle_raw Ping.handle_welcome
      Capabilities.handle_cap_end_ready take_signal Negotiation.handle_cap_end Negotiation.send
      send_line Registration.handle_welcome Registration.is_active Registration.handle_numeric
      leave_numerics Registration.emit leave_bus unsubscribe_by_id remove_last
  to_welcome_lem true nick text config u p us ps lines =
      let c = with_sasl (u ∷ us) (p ∷ ps) config in
      let log = (answered (at_challenge env.now c) (u ∷ us) (p ∷ ps) lines).log in
      (
        _,
        refl,
        sent_lines-grown log (outputs source true text),
        record {
          registration_is = refl;
          negotiating_is = refl;
          active_is = refl;
          waiters_are = refl;
          sasl_is = refl;
          queue_is = refl;
        },
      )
  to_welcome_lem false nick text config u p us ps lines =
      let c = with_sasl (u ∷ us) (p ∷ ps) config in
      let log = (answered (at_challenge env.now c) (u ∷ us) (p ∷ ps) lines).log in
      (
        _,
        refl,
        sent_lines-grown log (outputs source false text),
        record {
          registration_is = refl;
          negotiating_is = refl;
          active_is = refl;
          waiters_are = refl;
          sasl_is = refl;
          queue_is = refl;
        },
      )
