-- ===== src/Session/Split/Late.antt =====
-- A list of capabilities in two lines, of which the second comes behind the end of the negotiation.
use ircparser.Base.{
  ap, ℕ, ◌≡◌, refl, true, List, [], ◌∷◌, ◌++◌, Bytes, codes, bytes_eq, equal, Option, none, some,
  lookup, insert,
}
use ircparser.Channel.{Time}
use ircparser.Message.{get_trailing}
use ircparser.Event.{EventType, cap_pre_end_data, no_data, connected_data, error_data}
use ircparser.Event.Texts.{type_text}
use ircparser.Event.Create.{Env, create_events, parse_server_time, event_data, events_of}
use ircparser.EventBus.{
  new_event_bus, subscribe, run_handlers, count_listeners, unsubscribe_by_id, remove_last,
}
use ircparser.Config.{ConnectionConfig, with_sasl, with_password}
use ircparser.Output.{sent, send_line, Output, emitted}
use ircparser.Sasl.{SaslError, new_sasl_handler, SaslState, cap_end_ready, has_mechanism}
use ircparser.Capabilities.{
  fresh, new_capabilities_handler, caps_to_request, parse_capabilities, is_among, name_of,
}
use ircparser.Capabilities.Negotiation.{take_signal, count_expected}
use ircparser.Capabilities.Offers.{pre_end, wanted, negotiating, nothing_wanted}
use ircparser.Registration.{RegistrationState, new_registration_handler, leave_numerics}
use ircparser.Ping.{new_ping_handler}
use ircparser.Text.Runes.{fields}
use ircparser.Event.Classify.{
  determine_event_type, event_types, talk_types, cap_types, numeric_types, one_of,
}
use ircparser.Factory.{
  setup_default_handlers, setup_others, has_sasl, subscribe_all, subscribe_sasl,
  subscribe_capabilities, subscribe_registration, subscribe_ping,
}
use ircparser.Session.{
  with_capabilities, event_of, loop_round, dispatch_event, run, receive, wait_round, emissions,
  Session, new_session, sent_lines, leave_bus,
}
use ircparser.Session.Turns.{Turn, line_in, event_loop, take_turns, take_turn, goroutine}
use ircparser.Session.Login.Begin.{taking, reply}
use ircparser.Sasl.Handlers.{handle_sasl, offered}
use ircparser.Session.Log.{sent_lines-grown}
use ircparser.Session.Split.Listing.{first_line, second_line, listing, listed_first, at_first}
use ircparser.Session.Split.Skipped.{IsSkipped}
use ircparser.Capabilities.Negotiation
use ircparser.Registration
use ircparser.Ping
use ircparser.Sasl
use ircparser.Capabilities
use ircparser.Capabilities.Negotiation.{handle_cap_ls}

abbrev pub to_alone : Bytes → Bytes → Bytes → List Turn
to_alone source line offer = event_loop ∷ line_in line (first_line source offer) ∷ event_loop ∷ []

-- The first line alone is in the queue.
abbrev pub at_alone : Time → Bytes → Bytes → Bytes → ConnectionConfig → Session
at_alone now source line offer config = record (at_first now source line offer config) {
  queue = listing now (first_line source offer) ∷ [];
}

-- It is handled.
abbrev pub at_pre_end : Time → Bytes → Bytes → Bytes → ConnectionConfig → Session
at_pre_end now source line offer config =
    let s = at_first now source line offer config in
    record s {
      handlers = record s.handlers { capabilities = negotiating (listed_first offer) (fresh ∷ []) };
      log = s.log ++ pre_end ∷ [];
      queue = event_of EventType.cap_pre_end (cap_pre_end_data [] []) ∷ [];
    }

-- The negotiation ends, and only then the second line comes in, and the welcome.
abbrev pub from_pre_end : Bytes → Bytes → Bytes → Bytes → List Turn
from_pre_end source line nick text =
    event_loop
    ∷ goroutine
    ∷ event_loop
    ∷ event_loop
    ∷ goroutine
    ∷ line_in line (second_line source)
    ∷ event_loop
    ∷ event_loop
    ∷ line_in line (reply source (codes "001") (nick ∷ text ∷ []))
    ∷ event_loop
    ∷ event_loop
    ∷ event_loop
    ∷ event_loop
    ∷ []

-- What is put out from the first of the two lines on, call by call.
abbrev outputs : Bytes → List (List Output)
outputs source =
    (pre_end ∷ [])
    ∷ (emitted EventType.error (error_data (codes "SASL required but not supported by server"))
        ∷ emitted EventType.cap_end_ready no_data
        ∷ [])
    ∷ []
    ∷ []
    ∷ (sent (codes "CAP" ∷ codes "END" ∷ []) ∷ [])
    ∷ []
    ∷ []
    ∷ []
    ∷ (emitted EventType.registered (connected_data source) ∷ [])
    ∷ []
    ∷ []
    ∷ []
    ∷ []

module _ (describe : SaslError → Bytes) (encode64 : Bytes → Bytes) (decode64 : Bytes → Option Bytes)
    (env : Env) (stamp source line : Bytes) where
  pub to_alone_lem :
      (config : ConnectionConfig) (pass offer : Bytes) (u p : ℕ) (us ps : Bytes)
      → let c = with_sasl (u ∷ us) (p ∷ ps) (with_password pass config) in
        take_turns
          (taking describe encode64 decode64 env stamp)
          (to_alone source line offer)
          (new_session c)
        ≡ some (at_alone env.now source line offer c)
  unfolding take_turns take_turn new_session event_of with_sasl with_password loop_round
      dispatch_event run receive wait_round emissions setup_default_handlers setup_others has_sasl
      subscribe_all subscribe_sasl subscribe_capabilities subscribe_registration subscribe_ping
      new_event_bus subscribe type_text lookup insert equal new_registration_handler
      new_sasl_handler new_capabilities_handler new_ping_handler run_handlers create_events
      determine_event_type event_types talk_types cap_types parse_server_time event_data events_of
      Negotiation.handle_connected Negotiation.send send_line Registration.handle_connected
      Registration.start Registration.is_inactive Registration.is_active
      Registration.send_registration_commands Registration.send_pass Registration.send
      Ping.handle_raw
  to_alone_lem config [] offer u p us ps = refl
  to_alone_lem config (b ∷ bs) offer u p us ps = refl

  pub alone_round :
      (config : ConnectionConfig) (offer : Bytes) (u p : ℕ) (us ps : Bytes)
      → caps_to_request wanted (fields offer) ≡ []
      → let c = with_sasl (u ∷ us) (p ∷ ps) config in
        loop_round
          (taking describe encode64 decode64 env stamp)
          (at_alone env.now source line offer c)
        ≡ at_pre_end env.now source line offer c
  unfolding event_of with_sasl loop_round dispatch_event run emissions setup_default_handlers
      setup_others has_sasl subscribe_all subscribe_sasl subscribe_capabilities
      subscribe_registration subscribe_ping new_event_bus subscribe type_text lookup insert equal
      new_capabilities_handler run_handlers get_trailing
  alone_round config offer u p us ps nothing =
      let w = taking describe encode64 decode64 env stamp in
      let s = at_alone env.now source line offer (with_sasl (u ∷ us) (p ∷ ps) config) in
      ap (λ ch. with_capabilities w (λ _. ch) (record s { queue = [] }))
        (nothing_wanted (λ output line. none) (first_line source offer) nothing)

  pub from_pre_end_lem :
      (nick text : Bytes) (config : ConnectionConfig) (offer : Bytes) (u p : ℕ) (us ps : Bytes)
      → let c = with_sasl (u ∷ us) (p ∷ ps) config in
        (s : Session) × (take_turns
            (taking describe encode64 decode64 env stamp)
            (from_pre_end source line nick text)
            (at_pre_end env.now source line offer c)
          ≡ some s)
        × (sent_lines s.log
            ≡ sent_lines (at_first env.now source line offer c).log
              ++ (codes "CAP" ∷ codes "END" ∷ []) ∷ [])
        × IsSkipped true s
  unfolding take_turns take_turn with_sasl loop_round dispatch_event run receive wait_round event_of
      sent_lines setup_default_handlers setup_others has_sasl subscribe_all subscribe_sasl
      subscribe_capabilities subscribe_registration subscribe_ping new_event_bus subscribe type_text
      lookup insert equal new_sasl_handler new_ping_handler new_capabilities_handler
      new_registration_handler run_handlers emissions create_events determine_event_type event_types
      talk_types cap_types parse_server_time event_data events_of numeric_types one_of get_trailing
      handle_sasl offered has_mechanism cap_end_ready Sasl.emit count_listeners count_expected
      Ping.handle_raw Ping.handle_welcome Capabilities.handle_cap_ack
      Capabilities.handle_cap_end_ready take_signal Negotiation.handle_cap_end Negotiation.send
      send_line Registration.handle_welcome Registration.is_active Registration.handle_numeric
      leave_numerics Registration.emit leave_bus unsubscribe_by_id remove_last handle_cap_ls
  from_pre_end_lem nick text config offer u p us ps =
      let c = with_sasl (u ∷ us) (p ∷ ps) config in
      (
        _,
        refl,
        sent_lines-grown (at_first env.now source line offer c).log (outputs source),
        record {
          registration_is = refl;
          negotiating_is = refl;
          active_is = refl;
          pending_is = refl;
          waiters_are = refl;
          sasl_is = refl;
          queue_is = refl;
        },
      )
