-- ===== src/Session/Split/Skipped.antt =====
-- A list of capabilities in two lines: the end of the negotiation without SASL, and the welcome.
use ircparser.Base.{
  Bool, Dict, ℕ, ◌≡◌, refl, true, false, List, [], ◌∷◌, ◌++◌, Bytes, codes, bytes_eq, equal, Option,
  some, lookup, insert,
}
use ircparser.Message.{get_trailing}
use ircparser.Event.{EventType, no_data, connected_data, error_data}
use ircparser.Event.Texts.{type_text}
use ircparser.Event.Create.{Env, create_events, parse_server_time, event_data, events_of}
use ircparser.EventBus.{
  new_event_bus, subscribe, count_listeners, run_handlers, unsubscribe_by_id, remove_last,
}
use ircparser.Config.{ConnectionConfig, with_sasl}
use ircparser.Output.{Output, sent, emitted, send_line}
use ircparser.Sasl.{SaslError, SaslState, new_sasl_handler, cap_end_ready, has_mechanism}
use ircparser.Sasl.Handlers.{handle_sasl, offered}
use ircparser.Capabilities.{
  fresh, new_capabilities_handler, caps_to_request, parse_capabilities, is_among, name_of,
}
use ircparser.Capabilities.Negotiation.{take_signal, count_expected}
use ircparser.Registration.{RegistrationState, new_registration_handler, leave_numerics}
use ircparser.Ping.{new_ping_handler}
use ircparser.Event.Classify.{
  determine_event_type, event_types, talk_types, cap_types, numeric_types, one_of,
}
use ircparser.Factory.{
  setup_default_handlers, setup_others, has_sasl, subscribe_all, subscribe_sasl,
  subscribe_capabilities, subscribe_registration, subscribe_ping,
}
use ircparser.Session.Log.{sent_lines-grown}
use ircparser.Session.{
  sent_lines, event_of, loop_round, dispatch_event, run, receive, wait_round, emissions, Session,
  leave_bus,
}
use ircparser.Session.Turns.{Turn, line_in, event_loop, goroutine, take_turns, take_turn}
use ircparser.Session.Login.Begin.{taking, reply}
use ircparser.Session.Login.Finish.{state_of}
use ircparser.Sasl
use ircparser.Capabilities
use ircparser.Capabilities.Negotiation
use ircparser.Registration
use ircparser.Ping
use ircparser.Capabilities.Offers.{pre_end}
use ircparser.Session.Split.Listing.{at_first, at_request}

-- The SASL handler finds no capability active, the goroutine ends the negotiation, the server
-- acknowledges "sasl" and welcomes the client.
abbrev pub from_request : Bytes → Bytes → Bytes → Bytes → List Turn
from_request source line nick text =
    event_loop
    ∷ goroutine
    ∷ event_loop
    ∷ event_loop
    ∷ goroutine
    ∷ line_in line (reply source (codes "CAP") (codes "*" ∷ codes "ACK" ∷ codes "sasl" ∷ []))
    ∷ event_loop
    ∷ event_loop
    ∷ line_in line (reply source (codes "001") (nick ∷ text ∷ []))
    ∷ event_loop
    ∷ event_loop
    ∷ event_loop
    ∷ event_loop
    ∷ []

-- What is put out from the first of the two lines on, call by call.
abbrev outputs : Bytes → List (List Output)
outputs source =
    (pre_end ∷ [])
    ∷ []
    ∷ (sent (codes "CAP" ∷ codes "REQ" ∷ codes "sasl" ∷ []) ∷ [])
    ∷ (emitted EventType.error (error_data (codes "SASL required but not supported by server"))
        ∷ emitted EventType.cap_end_ready no_data
        ∷ [])
    ∷ []
    ∷ []
    ∷ (sent (codes "CAP" ∷ codes "END" ∷ []) ∷ [])
    ∷ []
    ∷ []
    ∷ []
    ∷ (emitted EventType.registered (connected_data source) ∷ [])
    ∷ []
    ∷ []
    ∷ []
    ∷ []

-- "sasl" is pending if it was asked for.
abbrev pub left_pending : Bool → Dict Bytes Bool
left_pending true = []
left_pending false = (codes "sasl", true) ∷ []

-- The client is registered, and nothing is left to do; "sasl" is not active, and the SASL handler has
-- not begun.
pub record IsSkipped (late : Bool) (s : Session) : Type 0 where
  pub registration_is : s.handlers.registration.state ≡ RegistrationState.complete
  pub negotiating_is : s.handlers.capabilities.negotiating ≡ false
  pub active_is : s.handlers.capabilities.acked ≡ []
  pub pending_is : s.handlers.capabilities.pending ≡ left_pending late
  pub waiters_are : s.handlers.capabilities.waiters ≡ []
  pub sasl_is : state_of s.handlers.sasl ≡ some SaslState.inactive
  pub queue_is : s.queue ≡ []

module _ (describe : SaslError → Bytes) (encode64 : Bytes → Bytes) (decode64 : Bytes → Option Bytes)
    (env : Env) (stamp source line : Bytes) where
  pub from_request_lem :
      (nick text : Bytes) (config : ConnectionConfig) (offer : Bytes) (u p : ℕ) (us ps : Bytes)
      → let c = with_sasl (u ∷ us) (p ∷ ps) config in
        (s : Session) × (take_turns
            (taking describe encode64 decode64 env stamp)
            (from_request source line nick text)
            (at_request env.now source line offer c)
          ≡ some s)
        × (sent_lines s.log
            ≡ sent_lines (at_first env.now source line offer c).log
              ++ (codes "CAP" ∷ codes "REQ" ∷ codes "sasl" ∷ [])
                ∷ (codes "CAP" ∷ codes "END" ∷ [])
                ∷ [])
        × IsSkipped false s
  unfolding take_turns take_turn with_sasl loop_round dispatch_event run receive wait_round event_of
      sent_lines setup_default_handlers setup_others has_sasl subscribe_all subscribe_sasl
      subscribe_capabilities subscribe_registration subscribe_ping new_event_bus subscribe type_text
      lookup insert equal new_sasl_handler new_ping_handler new_capabilities_handler
      new_registration_handler run_handlers emissions create_events determine_event_type event_types
      talk_types cap_types parse_server_time event_data events_of numeric_types one_of get_trailing
      handle_sasl offered has_mechanism cap_end_ready Sasl.emit count_listeners count_expected
      Ping.handle_raw Ping.handle_welcome Capabilities.handle_cap_ack
      Capabilities.handle_cap_end_ready take_signal Negotiation.handle_cap_end Negotiation.send
      send_line Registration.handle_welcome Registration.is_active Registration.handle_numeric
      leave_numerics Registration.emit leave_bus unsubscribe_by_id remove_last
  from_request_lem nick text config offer u p us ps =
      let c = with_sasl (u ∷ us) (p ∷ ps) config in
      (
        _,
        refl,
        sent_lines-grown (at_first env.now source line offer c).log (outputs source),
        record {
          registration_is = refl;
          negotiating_is = refl;
          active_is = refl;
          pending_is = refl;
          waiters_are = refl;
          sasl_is = refl;
          queue_is = refl;
        },
      )
