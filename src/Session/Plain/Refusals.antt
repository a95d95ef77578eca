-- ===== src/Session/Plain/Refusals.antt =====
-- A login without SASL: the server refuses the nick again and again.
use ircparser.Message.{is_numeric}
use ircparser.Text.Runes.{runes}
use ircparser.Channel.{Time}
use ircparser.Capabilities.{CapabilitiesHandler}
use ircparser.Base.{
  ◌∙◌, ap, ℕ, ◌≡◌, refl, List, [], ◌∷◌, ◌++◌, Bytes, codes, bytes_eq, equal, Option, some, lookup,
  insert, zero, suc, append-nil, append_assoc, sym,
}
use ircparser.Event.Texts.{type_text}
use ircparser.Event.Create.{Env, create_events, parse_server_time, event_data, events_of}
use ircparser.EventBus.{new_event_bus, subscribe, run_handlers}
use ircparser.Config.{ConnectionConfig}
use ircparser.Output.{Output, sent, send_line}
use ircparser.Sasl.{SaslError}
use ircparser.Capabilities.{new_capabilities_handler}
use ircparser.Registration.{RegistrationState, new_registration_handler, leave_numerics}
use ircparser.Ping.{new_ping_handler}
use ircparser.Event.Classify.{determine_event_type, event_types, talk_types, numeric_types, one_of}
use ircparser.Factory.{
  setup_others, subscribe_all, subscribe_capabilities, subscribe_registration, subscribe_ping,
}
use ircparser.Session.{event_of, loop_round, dispatch_event, run, receive, emissions, sent_lines}
use ircparser.Session.Turns.{Turn, line_in, event_loop, take_turns, take_turn, take_turns-++}
use ircparser.Session.Login.Begin.{taking, reply}
use ircparser.Session.Log.{sent_lines-grown}
use ircparser.Registration
use ircparser.Ping
use ircparser.Session.Plain.Begin.{registering}

-- The server refuses a nick, `n` times; `params` is what stands behind 433.
abbrev pub refusals : ℕ → Bytes → Bytes → List Bytes → List Turn
refusals zero source line params = []
refusals (suc n) source line params =
    line_in line (reply source (codes "433") params)
    ∷ event_loop
    ∷ event_loop
    ∷ refusals n source line params

-- The answer to a refusal.
abbrev pub refused_nick : ConnectionConfig → List Bytes
refused_nick config = codes "NICK" ∷ (config.nick ++ codes "_") ∷ []

abbrev pub repeated : ℕ → List Bytes → List (List Bytes)
repeated zero line = []
repeated (suc n) line = line ∷ repeated n line

module _ (describe : SaslError → Bytes) (encode64 : Bytes → Bytes) (decode64 : Bytes → Option Bytes)
    (env : Env) (stamp source line : Bytes) where
  one_refusal :
      (config : ConnectionConfig) (ch : CapabilitiesHandler) (params : List Bytes) (heard : Time)
      (log : List Output)
      → take_turns
          (taking describe encode64 decode64 env stamp)
          (refusals 1 source line params)
          (registering heard config ch log)
        ≡ some (registering env.now config ch ((log ++ []) ++ sent (refused_nick config) ∷ []))
  unfolding take_turns take_turn event_of loop_round dispatch_event run receive emissions
      setup_others subscribe_all subscribe_capabilities subscribe_registration subscribe_ping
      new_event_bus subscribe type_text lookup insert equal new_registration_handler
      new_capabilities_handler new_ping_handler run_handlers create_events determine_event_type
      event_types talk_types numeric_types one_of parse_server_time event_data events_of send_line
      Registration.is_active Registration.handle_numeric Registration.send Ping.handle_raw
      is_numeric runes
  one_refusal config ch params heard log = refl

  pub refusals_lem :
      (config : ConnectionConfig) (ch : CapabilitiesHandler) (params : List Bytes) (n : ℕ)
      (heard : Time) (log : List Output)
      → (heard' : Time) × (log' : List Output) × (take_turns
            (taking describe encode64 decode64 env stamp)
            (refusals n source line params)
            (registering heard config ch log)
          ≡ some (registering heard' config ch log'))
        × (sent_lines log' ≡ sent_lines log ++ repeated n (refused_nick config))
  unfolding take_turns sent_lines
  refusals_lem config ch params zero heard log =
      (heard, log, refl, sym (append-nil (sent_lines log)))
  refusals_lem config ch params (suc n) heard log =
      let w = taking describe encode64 decode64 env stamp in
      let nick = refused_nick config in
      let log1 = (log ++ []) ++ sent nick ∷ [] in
      let (heard', log', turns, lines) = refusals_lem config ch params n env.now log1 in
      (
        heard',
        log',
        take_turns-++ w (refusals 1 source line params) (refusals n source line params)
              (registering heard config ch log) (registering env.now config ch log1)
              (one_refusal config ch params heard log)
            ∙ turns,
        lines
            ∙ ap (λ r. r ++ repeated n nick) (sent_lines-grown log ([] ∷ (sent nick ∷ []) ∷ []))
            ∙ append_assoc (sent_lines log) (nick ∷ []) (repeated n nick),
      )
