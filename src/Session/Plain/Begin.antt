-- ===== src/Session/Plain/Begin.antt =====
-- A login without SASL, up to the end of the negotiation.
use ircparser.Base.{
  ap, ◌≡◌, refl, true, List, [], ◌∷◌, ◌++◌, map, Bytes, codes, bytes_eq, equal, Option, none, some,
  lookup, insert, false,
}
use ircparser.Channel.{Time}
use ircparser.Message.{Message, get_trailing}
use ircparser.Event.{EventType, connected_data}
use ircparser.Event.Texts.{type_text}
use ircparser.Event.Create.{Env, create_events, parse_server_time, event_data, events_of}
use ircparser.EventBus.{new_event_bus, subscribe, run_handlers, count_listeners}
use ircparser.Config.{ConnectionConfig, with_password}
use ircparser.Output.{Output, sent, send_line}
use ircparser.Sasl.{SaslError}
use ircparser.Capabilities.{
  CapabilitiesHandler, fresh, new_capabilities_handler, caps_to_request, parse_capabilities,
}
use ircparser.Capabilities.Negotiation.{take_signal, count_expected}
use ircparser.Capabilities.Offers.{pre_end, wanted, negotiating, nothing_wanted}
use ircparser.Registration.{RegistrationState, new_registration_handler, leave_numerics}
use ircparser.Registration.Start.{registration_lines}
use ircparser.Ping.{new_ping_handler}
use ircparser.Text.Runes.{fields}
use ircparser.Event.Classify.{determine_event_type, event_types, talk_types, cap_types}
use ircparser.Factory.{
  setup_default_handlers, setup_others, has_sasl, subscribe_all, subscribe_capabilities,
  subscribe_registration, subscribe_ping,
}
use ircparser.Session.{
  with_capabilities, event_of, loop_round, dispatch_event, run, receive, wait_round, emissions,
  Session, new_session,
}
use ircparser.Session.Turns.{Turn, line_in, event_loop, take_turns, take_turn, goroutine}
use ircparser.Session.Login.Begin.{taking, reply}
use ircparser.Capabilities.Negotiation
use ircparser.Registration
use ircparser.Ping

abbrev offer_line : Bytes → Bytes → Message
offer_line source offer = reply source (codes "CAP") (codes "*" ∷ codes "LS" ∷ offer ∷ [])

-- The session without a SASL handler.
abbrev pub plain_session : ConnectionConfig → Session
plain_session config = record {
  handlers = setup_others config [] new_event_bus none;
  log = [];
  queue = event_of EventType.connected (connected_data config.host) ∷ [];
}

-- The registration has begun, the server has not welcomed the client yet, and no event is left.
abbrev pub registering : Time → ConnectionConfig → CapabilitiesHandler → List Output → Session
registering heard config ch log =
    let h = setup_others config [] new_event_bus none in
    record {
      handlers = record h {
        capabilities = ch;
        registration = record h.registration { state = RegistrationState.started; timer = true };
        ping = record h.ping { last_response = heard };
      };
      log = log;
      queue = [];
    }

abbrev pub begun : ConnectionConfig → List Output
begun config =
    sent (codes "CAP" ∷ codes "LS" ∷ codes "302" ∷ []) ∷ map sent (registration_lines config)

-- The capabilities while the goroutine has not gone on, and behind that.
abbrev pub waits_on : Bytes → CapabilitiesHandler
waits_on offer = negotiating (parse_capabilities (fields offer) []) (fresh ∷ [])

abbrev pub over : Bytes → CapabilitiesHandler
over offer = record (negotiating (parse_capabilities (fields offer) []) []) { negotiating = false }

-- The offer, up to the end of the list of capabilities.
abbrev pub offers : Bytes → Bytes → Bytes → List Turn
offers source line offer =
    line_in line (offer_line source offer) ∷ event_loop ∷ event_loop ∷ event_loop ∷ []

module _ (describe : SaslError → Bytes) (encode64 : Bytes → Bytes) (decode64 : Bytes → Option Bytes)
    (env : Env) (stamp source line : Bytes) where
  pub plain_start :
      (config : ConnectionConfig)
      → has_sasl config ≡ false
      → new_session config ≡ plain_session config
  unfolding new_session setup_default_handlers
  plain_start config h = rw h refl

  pub start_lem :
      (config : ConnectionConfig) (pass : Bytes)
      → let c = with_password pass config in
        take_turns (taking describe encode64 decode64 env stamp) (event_loop ∷ []) (plain_session c)
        ≡ some (registering 0 c (negotiating [] []) (begun c))
  unfolding take_turns take_turn event_of with_password loop_round dispatch_event run wait_round
      emissions setup_others subscribe_all subscribe_capabilities subscribe_registration
      subscribe_ping new_event_bus subscribe type_text lookup insert equal new_registration_handler
      new_capabilities_handler new_ping_handler run_handlers Negotiation.handle_connected
      Negotiation.send send_line Registration.handle_connected Registration.start
      Registration.is_inactive Registration.is_active Registration.send_registration_commands
      Registration.send_pass Registration.send Ping.handle_raw
  start_lem config [] = refl
  start_lem config (b ∷ bs) = refl

  pub offers_lem :
      (heard : Time) (config : ConnectionConfig) (offer : Bytes) (log : List Output)
      → caps_to_request wanted (fields offer) ≡ []
      → take_turns
          (taking describe encode64 decode64 env stamp)
          (offers source line offer)
          (registering heard config (negotiating [] []) log)
        ≡ some (registering env.now config (waits_on offer) ((log ++ []) ++ pre_end ∷ []))
  unfolding take_turns take_turn event_of loop_round dispatch_event run emissions receive
      setup_others subscribe_all subscribe_capabilities subscribe_registration subscribe_ping
      new_event_bus subscribe type_text lookup insert equal new_capabilities_handler
      new_ping_handler run_handlers get_trailing create_events determine_event_type event_types
      talk_types cap_types parse_server_time event_data events_of Ping.handle_raw
  offers_lem heard config offer log nothing =
      let w = taking describe encode64 decode64 env stamp in
      let s = registering env.now config (negotiating [] []) (log ++ []) in
      ap (λ ch. take_turns w (event_loop ∷ []) (with_capabilities w (λ _. ch) s))
        (nothing_wanted (λ output line. none) (offer_line source offer) nothing)

  -- The goroutine finds no listener and ends the negotiation.
  pub ends_lem :
      (heard : Time) (config : ConnectionConfig) (offer : Bytes) (log : List Output)
      → take_turns
          (taking describe encode64 decode64 env stamp)
          (goroutine ∷ [])
          (registering heard config (waits_on offer) log)
        ≡ some (
            registering heard config
              (over offer)
              (log ++ sent (codes "CAP" ∷ codes "END" ∷ []) ∷ []))
  unfolding take_turns take_turn wait_round emissions setup_others subscribe_all
      subscribe_capabilities count_listeners count_expected subscribe_registration subscribe_ping
      new_event_bus subscribe type_text lookup insert equal new_capabilities_handler
      Negotiation.handle_cap_end Negotiation.send send_line
  ends_lem heard config offer log = refl
