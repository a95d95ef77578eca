-- ===== src/Session/Split/Listing.antt =====
-- A list of capabilities in two lines, up to the request for "sasl".
use ircparser.Base.{
  ap, ℕ, ◌≡◌, refl, true, List, [], ◌∷◌, ◌++◌, map, Bytes, codes, bytes_eq, equal, Dict, Option,
  none, some, lookup, insert,
}
use ircparser.Channel.{Time}
use ircparser.Message.{Message, get_trailing}
use ircparser.Event.{Event, EventType, cap_pre_end_data, raw_incoming_data, no_data}
use ircparser.Event.Texts.{type_text}
use ircparser.Event.Create.{Env, create_events, parse_server_time, event_data, events_of}
use ircparser.EventBus.{new_event_bus, subscribe, run_handlers}
use ircparser.Config.{ConnectionConfig, with_sasl, with_password}
use ircparser.Output.{sent, send_line}
use ircparser.Sasl.{SaslError, new_sasl_handler}
use ircparser.Capabilities.{
  fresh, new_capabilities_handler, caps_to_request, parse_capabilities, is_among, name_of,
}
use ircparser.Capabilities.Negotiation.{take_signal, count_expected}
use ircparser.Capabilities.Offers.{pre_end, wanted, negotiating, nothing_wanted, one_wanted}
use ircparser.Registration.{RegistrationState, new_registration_handler, leave_numerics}
use ircparser.Registration.Start.{registration_lines}
use ircparser.Ping.{new_ping_handler}
use ircparser.Text.{contains}
use ircparser.Text.Runes.{fields}
use ircparser.Event.Classify.{determine_event_type, event_types, talk_types, cap_types}
use ircparser.Factory.{
  setup_default_handlers, setup_others, has_sasl, subscribe_all, subscribe_sasl,
  subscribe_capabilities, subscribe_registration, subscribe_ping,
}
use ircparser.Session.{
  with_capabilities, event_of, loop_round, dispatch_event, run, receive, wait_round, emissions,
  Session, new_session,
}
use ircparser.Session.Turns.{Turn, line_in, event_loop, take_turns, take_turn}
use ircparser.Session.Login.Begin.{taking, reply}
use ircparser.Capabilities.Negotiation
use ircparser.Registration
use ircparser.Ping

-- The first line ends in an asterisk and a list, the second has the capability "sasl".
abbrev pub first_line : Bytes → Bytes → Message
first_line source offer =
    reply source (codes "CAP") (codes "*" ∷ codes "LS" ∷ codes "*" ∷ offer ∷ [])

abbrev pub second_line : Bytes → Message
second_line source = reply source (codes "CAP") (codes "*" ∷ codes "LS" ∷ codes "sasl" ∷ [])

abbrev pub to_first : Bytes → Bytes → Bytes → List Turn
to_first source line offer =
    event_loop
    ∷ line_in line (first_line source offer)
    ∷ line_in line (second_line source)
    ∷ event_loop
    ∷ []

abbrev pub listing : Time → Message → Event
listing now m = record { type = EventType.cap_ls; message = some m; body = no_data; time = now }

-- The two lines are in the queue.
abbrev pub at_first : Time → Bytes → Bytes → Bytes → ConnectionConfig → Session
at_first now source line offer config =
    let h = setup_default_handlers config [] new_event_bus in
    record {
      handlers = record h {
        capabilities = negotiating [] [];
        registration = record h.registration { state = RegistrationState.started; timer = true };
        ping = record h.ping { last_response = now };
      };
      log =
          sent (codes "CAP" ∷ codes "LS" ∷ codes "302" ∷ []) ∷ map sent (registration_lines config);
      queue =
          listing now (first_line source offer)
          ∷ event_of EventType.raw_incoming (raw_incoming_data line now)
          ∷ listing now (second_line source)
          ∷ [];
    }

module _ (describe : SaslError → Bytes) (encode64 : Bytes → Bytes) (decode64 : Bytes → Option Bytes)
    (env : Env) (stamp source line : Bytes) where
  pub to_first_lem :
      (config : ConnectionConfig) (pass offer : Bytes) (u p : ℕ) (us ps : Bytes)
      → let c = with_sasl (u ∷ us) (p ∷ ps) (with_password pass config) in
        take_turns
          (taking describe encode64 decode64 env stamp)
          (to_first source line offer)
          (new_session c)
        ≡ some (at_first env.now source line offer c)
  unfolding take_turns take_turn new_session event_of with_sasl with_password loop_round
      dispatch_event run receive wait_round emissions setup_default_handlers setup_others has_sasl
      subscribe_all subscribe_sasl subscribe_capabilities subscribe_registration subscribe_ping
      new_event_bus subscribe type_text lookup insert equal new_registration_handler
      new_sasl_handler new_capabilities_handler new_ping_handler run_handlers create_events
      determine_event_type event_types talk_types cap_types parse_server_time event_data events_of
      Negotiation.handle_connected Negotiation.send send_line Registration.handle_connected
      Registration.start Registration.is_inactive Registration.is_active
      Registration.send_registration_commands Registration.send_pass Registration.send
      Ping.handle_raw
  to_first_lem config [] offer u p us ps = refl
  to_first_lem config (b ∷ bs) offer u p us ps = refl

abbrev pub listed_first : Bytes → Dict Bytes Bytes
listed_first offer = parse_capabilities (fields offer) []

abbrev listed_both : Bytes → Bytes → Dict Bytes Bytes
listed_both source offer =
    parse_capabilities (fields (get_trailing (second_line source))) (listed_first offer)

-- The first line is handled: the negotiation comes to its end.
abbrev pub at_second : Time → Bytes → Bytes → Bytes → ConnectionConfig → Session
at_second now source line offer config =
    let s = at_first now source line offer config in
    record s {
      handlers = record s.handlers { capabilities = negotiating (listed_first offer) (fresh ∷ []) };
      log = s.log ++ pre_end ∷ [];
      queue =
          event_of EventType.raw_incoming (raw_incoming_data line now)
          ∷ listing now (second_line source)
          ∷ event_of EventType.cap_pre_end (cap_pre_end_data [] [])
          ∷ [];
    }

-- So is the second: "sasl" is requested.
abbrev pub at_request : Time → Bytes → Bytes → Bytes → ConnectionConfig → Session
at_request now source line offer config =
    let s = at_second now source line offer config in
    record s {
      handlers = record s.handlers {
        capabilities = record (negotiating (listed_both source offer) (fresh ∷ [])) {
          pending = (codes "sasl", true) ∷ [];
        };
      };
      log = (s.log ++ []) ++ sent (codes "CAP" ∷ codes "REQ" ∷ codes "sasl" ∷ []) ∷ [];
      queue = event_of EventType.cap_pre_end (cap_pre_end_data [] []) ∷ [];
    }

module _ (describe : SaslError → Bytes) (encode64 : Bytes → Bytes) (decode64 : Bytes → Option Bytes)
    (env : Env) (stamp source line : Bytes) where
  pub first_round :
      (config : ConnectionConfig) (offer : Bytes) (u p : ℕ) (us ps : Bytes)
      → caps_to_request wanted (fields offer) ≡ []
      → let c = with_sasl (u ∷ us) (p ∷ ps) config in
        loop_round
          (taking describe encode64 decode64 env stamp)
          (at_first env.now source line offer c)
        ≡ at_second env.now source line offer c
  unfolding event_of with_sasl loop_round dispatch_event run emissions setup_default_handlers
      setup_others has_sasl subscribe_all subscribe_sasl subscribe_capabilities
      subscribe_registration subscribe_ping new_event_bus subscribe type_text lookup insert equal
      new_capabilities_handler run_handlers get_trailing
  first_round config offer u p us ps nothing =
      let w = taking describe encode64 decode64 env stamp in
      let s = at_first env.now source line offer (with_sasl (u ∷ us) (p ∷ ps) config) in
      ap
        (λ ch.
          with_capabilities w (λ _. ch)
            (record s {
              queue =
                  event_of EventType.raw_incoming (raw_incoming_data line env.now)
                  ∷ listing env.now (second_line source)
                  ∷ [];
            }))
        (nothing_wanted (λ output line. none) (first_line source offer) nothing)

  pub second_round :
      (config : ConnectionConfig) (offer : Bytes) (u p : ℕ) (us ps : Bytes)
      → let c = with_sasl (u ∷ us) (p ∷ ps) config in
        let w = taking describe encode64 decode64 env stamp in
        loop_round w (loop_round w (at_second env.now source line offer c))
        ≡ at_request env.now source line offer c
  unfolding event_of with_sasl loop_round dispatch_event run emissions setup_default_handlers
      setup_others has_sasl subscribe_all subscribe_sasl subscribe_capabilities
      subscribe_registration subscribe_ping new_event_bus subscribe type_text lookup insert equal
      new_capabilities_handler run_handlers get_trailing caps_to_request is_among name_of contains
      fields Ping.handle_raw new_ping_handler
  second_round config offer u p us ps =
      let w = taking describe encode64 decode64 env stamp in
      let s = at_second env.now source line offer (with_sasl (u ∷ us) (p ∷ ps) config) in
      ap
        (λ ch.
          with_capabilities w (λ _. ch)
            (record s {
              log = s.log ++ [];
              queue = event_of EventType.cap_pre_end (cap_pre_end_data [] []) ∷ [];
            }))
        (one_wanted (λ output line. none) (second_line source) (codes "sasl") (listed_first offer)
          (fresh ∷ []) refl (λ output line. refl))
