-- ===== src/Session/Login/Begin.antt =====
-- A login up to the line that names the SASL mechanism.
use ircparser.Base.{
  ap, ◌∙◌, ℕ, ◌≡◌, refl, true, List, [], ◌∷◌, ◌++◌, map, Bytes, codes, bytes_eq, equal, Option,
  none, some, lookup, insert, delete,
}
use ircparser.Channel.{Time}
use ircparser.Message.{Message, get_trailing}
use ircparser.Event.{EventType, cap_added_data, cap_pre_end_data}
use ircparser.Event.Texts.{type_text}
use ircparser.Event.Create.{Env, create_events, parse_server_time, event_data, events_of}
use ircparser.EventBus.{new_event_bus, subscribe, count_listeners, run_handlers}
use ircparser.Config.{ConnectionConfig, with_sasl, with_password}
use ircparser.Output.{sent, emitted, send_line}
use ircparser.Sasl.{
  cap_end_ready, mechanism_name, SaslHandler, send_auth_data, SaslError, SaslState,
  new_plain_mechanism, new_sasl_handler, has_mechanism,
}
use ircparser.Sasl.Handlers.{
  handle_sasl, offered, begin_plain, start_plain_authentication, start_authentication, request,
  check_begun,
}
use ircparser.Capabilities.{
  counting, new_capabilities_handler, parse_available_capabilities, parse_capabilities, name_of,
  value_of, caps_to_request, is_among, advertised, mark_pending, has_pending_capabilities,
  end_capability_negotiation, check_end_negotiation, acknowledge, add_capability,
  remove_pending_capability, get_active_caps,
}
use ircparser.Capabilities.Negotiation.{
  take_signal, count_expected, process_new_capabilities, request_capabilities,
}
use ircparser.Registration.{leave_numerics, RegistrationState, new_registration_handler}
use ircparser.Ping.{new_ping_handler}
use ircparser.Text.{join, contains}
use ircparser.Text.Runes.{fields}
use ircparser.Event.Classify.{determine_event_type, event_types, talk_types, cap_types}
use ircparser.Factory.{
  setup_default_handlers, setup_others, has_sasl, subscribe_all, subscribe_sasl,
  subscribe_capabilities, subscribe_registration, subscribe_ping,
}
use ircparser.Registration.Start.{registration_lines}
use ircparser.Session.Log.{sent_lines-grown, sent_lines-map}
use ircparser.Session.{
  sent_lines, event_of, loop_round, dispatch_event, run, receive, wait_round, emissions, World,
  Session, new_session,
}
use ircparser.Session.Turns.{Turn, line_in, event_loop, goroutine, take_turns, take_turn}
use ircparser.Sasl
use ircparser.Capabilities
use ircparser.Capabilities.Negotiation
use ircparser.Registration
use ircparser.Ping

-- A line of the server without tags.
abbrev pub reply : Bytes → Bytes → List Bytes → Message
reply source command params = record {
  tags = [];
  source = source;
  command = command;
  params = params;
  raw = [];
}

-- A world in which the connection takes every line.
abbrev pub taking :
    (SaslError → Bytes) → (Bytes → Bytes) → (Bytes → Option Bytes) → Env → Bytes → World
taking describe encode64 decode64 env stamp = record {
  send_error = λ output line. none;
  describe = describe;
  encode64 = encode64;
  decode64 = decode64;
  env = env;
  stamp = stamp;
}

abbrev pub to_challenge : Bytes → Bytes → List Turn
to_challenge source line =
    event_loop
    ∷ line_in line (reply source (codes "CAP") (codes "*" ∷ codes "LS" ∷ codes "sasl" ∷ []))
    ∷ event_loop
    ∷ event_loop
    ∷ line_in line (reply source (codes "CAP") (codes "*" ∷ codes "ACK" ∷ codes "sasl" ∷ []))
    ∷ event_loop
    ∷ event_loop
    ∷ event_loop
    ∷ event_loop
    ∷ goroutine
    ∷ []

-- Its registration, its SASL handler and its capabilities behind the AUTHENTICATE PLAIN.
abbrev pub at_challenge : Time → ConnectionConfig → Session
at_challenge now config =
    let h = setup_default_handlers config [] new_event_bus in
    record {
      handlers = record h {
        sasl = some (record (new_sasl_handler config.sasl_user config.sasl_pass) {
          state = SaslState.requesting;
          mechanism = some (new_plain_mechanism config.sasl_user config.sasl_pass);
          timer = true;
          available_mechs = codes "PLAIN" ∷ [];
        });
        capabilities = record h.capabilities {
          available = (codes "sasl", []) ∷ [];
          acked = (codes "sasl", []) ∷ [];
          negotiating = true;
          waiters = counting 1 0 ∷ [];
        };
        registration = record h.registration { state = RegistrationState.started; timer = true };
        ping = record h.ping { last_response = now };
      };
      log =
          sent (codes "CAP" ∷ codes "LS" ∷ codes "302" ∷ []) ∷ map sent (registration_lines config)
          ++ sent (codes "CAP" ∷ codes "REQ" ∷ codes "sasl" ∷ [])
            ∷ emitted EventType.cap_added (cap_added_data (codes "sasl"))
            ∷ emitted EventType.cap_pre_end
                (cap_pre_end_data (codes "sasl" ∷ []) ((codes "sasl", []) ∷ []))
            ∷ sent (codes "AUTHENTICATE" ∷ codes "PLAIN" ∷ [])
            ∷ [];
      queue = [];
    }

-- What the client sends up to there.
abbrev pub opening_lines : ConnectionConfig → List (List Bytes)
opening_lines config =
    (codes "CAP" ∷ codes "LS" ∷ codes "302" ∷ [])
    ∷ (registration_lines config
        ++ (codes "CAP" ∷ codes "REQ" ∷ codes "sasl" ∷ [])
          ∷ (codes "AUTHENTICATE" ∷ codes "PLAIN" ∷ [])
          ∷ [])

pub begun_lines :
    (now : Time) (config : ConnectionConfig)
    → sent_lines (at_challenge now config).log ≡ opening_lines config
unfolding sent_lines
begun_lines now config =
    sent_lines-grown (sent (codes "CAP" ∷ codes "LS" ∷ codes "302" ∷ []) ∷ []) (
      map sent (registration_lines config)
      ∷ (sent (codes "CAP" ∷ codes "REQ" ∷ codes "sasl" ∷ [])
          ∷ emitted EventType.cap_added (cap_added_data (codes "sasl"))
          ∷ emitted EventType.cap_pre_end
              (cap_pre_end_data (codes "sasl" ∷ []) ((codes "sasl", []) ∷ []))
          ∷ sent (codes "AUTHENTICATE" ∷ codes "PLAIN" ∷ [])
          ∷ [])
      ∷ [])
    ∙ ap
        (λ r.
          (codes "CAP" ∷ codes "LS" ∷ codes "302" ∷ [])
          ∷ (r
              ++ (codes "CAP" ∷ codes "REQ" ∷ codes "sasl" ∷ [])
                ∷ (codes "AUTHENTICATE" ∷ codes "PLAIN" ∷ [])
                ∷ []))
        (sent_lines-map (registration_lines config))

module _ (describe : SaslError → Bytes) (encode64 : Bytes → Bytes) (decode64 : Bytes → Option Bytes)
    (env : Env) (stamp source line : Bytes) where
  pub to_challenge_lem :
      (config : ConnectionConfig) (pass : Bytes) (u p : ℕ) (us ps : Bytes)
      → take_turns
          (taking describe encode64 decode64 env stamp)
          (to_challenge source line)
          (new_session (with_sasl (u ∷ us) (p ∷ ps) (with_password pass config)))
        ≡ some (at_challenge env.now (with_sasl (u ∷ us) (p ∷ ps) (with_password pass config)))
  unfolding take_turns take_turn new_session event_of with_sasl with_password loop_round
      dispatch_event run receive wait_round emissions setup_default_handlers setup_others has_sasl
      subscribe_all subscribe_sasl subscribe_capabilities subscribe_registration subscribe_ping
      new_event_bus subscribe count_listeners type_text lookup insert delete equal count_expected
      new_registration_handler new_sasl_handler new_capabilities_handler new_ping_handler
      run_handlers create_events determine_event_type event_types talk_types cap_types
      parse_server_time event_data events_of Negotiation.handle_connected Negotiation.handle_cap_ls
      Negotiation.send Capabilities.handle_cap_ack process_new_capabilities request_capabilities
      parse_available_capabilities parse_capabilities name_of value_of caps_to_request is_among
      advertised mark_pending has_pending_capabilities end_capability_negotiation
      check_end_negotiation acknowledge add_capability remove_pending_capability Capabilities.emit
      get_active_caps send_line fields get_trailing join contains Registration.handle_connected
      Registration.start Registration.is_inactive Registration.is_active
      Registration.send_registration_commands Registration.send_pass Registration.send handle_sasl
      offered begin_plain start_plain_authentication start_authentication has_mechanism
      Sasl.is_inactive request Sasl.send check_begun Ping.handle_raw
  to_challenge_lem config [] u p us ps = refl
  to_challenge_lem config (b ∷ bs) u p us ps = refl
