-- ===== src/Session/GivenUp.antt =====
-- parser/sasl.go and parser/capabilities.go: an authentication that the handler gives up by itself.
use ircparser.Base.{
  ℕ, ◌≢◌, Bool-cases, inl, inr, true, false, append-nil, ◌≡◌, refl, ap, ◌∙◌, List, [], ◌∷◌, ◌++◌,
  Bytes, codes, bytes_eq, equal, Option, none, some, lookup, insert,
}
use ircparser.Message.{get_trailing}
use ircparser.Event.Texts.{type_text}
use ircparser.Event.Create.{Env, create_events, parse_server_time, event_data, events_of}
use ircparser.EventBus.{new_event_bus, subscribe, run_handlers}
use ircparser.Config.{ConnectionConfig, with_sasl, with_password}
use ircparser.Output.{send_line, Sender, Output, sent}
use ircparser.Sasl.{
  PlainMechanism, cap_end_ready, mechanism_name, SaslHandler, send_auth_data, SaslError, SaslState,
  new_plain_mechanism, new_sasl_handler, has_mechanism,
}
use ircparser.Sasl.Handlers.{
  abort, next_plain, announce_success, handle_sasl_success, handle_sasl_fail, reset_mechanism,
  fail_reason, handle_authenticate, respond, start_plain, handle_sasl, offered, begin_plain,
  start_plain_authentication, start_authentication, request, check_begun,
}
use ircparser.Ping.{new_ping_handler}
use ircparser.Event.Classify.{numeric_types, one_of, determine_event_type, event_types, talk_types}
use ircparser.Factory.{
  setup_default_handlers, setup_others, has_sasl, subscribe_all, subscribe_sasl,
  subscribe_capabilities, subscribe_registration, subscribe_ping,
}
use ircparser.Session.{
  sent_lines, new_session, wait_round, with_sasl as with_sasl_handler, event_of, loop_round,
  dispatch_event, run, receive, emissions, Session,
}
use ircparser.Capabilities.Negotiation
use ircparser.Capabilities.Negotiation.{wait_times_out, handle_cap_end}
use ircparser.Session.Turns.{
  wait_times_out_round, goroutine, Turn, line_in, event_loop, take_turns, take_turn, take_turns-++,
}
use ircparser.Session.Login.Begin.{
  opening_lines, begun_lines, taking, reply, at_challenge, to_challenge, to_challenge_lem,
}
use ircparser.Session.Log.{grown, sent_lines-grown}
use ircparser.Capabilities.{new_capabilities_handler}
use ircparser.Sasl
use ircparser.Sasl.Handlers
use ircparser.Ping

-- The server asks for more than PLAIN has, and answers the abort.
abbrev pub asks : Bytes → Bytes → Bytes → List Turn
asks source line challenge =
    line_in line (reply source (codes "AUTHENTICATE") (challenge ∷ []))
    ∷ event_loop
    ∷ event_loop
    ∷ []

abbrev pub aborted : Bytes → Bytes → Bytes → Bytes → List Turn
aborted source line nick text =
    line_in line (reply source (codes "906") (nick ∷ text ∷ []))
    ∷ event_loop
    ∷ event_loop
    ∷ goroutine
    ∷ []

-- What the handler comes to.
abbrev given_up : Bytes → Bytes → SaslHandler
given_up user pass = record (new_sasl_handler user pass) {
  state = SaslState.failed;
  mechanism = some (new_plain_mechanism user pass);
  timer = false;
  available_mechs = codes "PLAIN" ∷ [];
}

abbrev with_given_up : Session → Bytes → Bytes → List Output → Session
with_given_up s user pass log = record s {
  handlers = record s.handlers { sasl = some (given_up user pass) };
  log = log;
}

module _ (describe : SaslError → Bytes) (encode64 : Bytes → Bytes) (decode64 : Bytes → Option Bytes)
    (env : Env) (stamp source line : Bytes) where
  respond-abort :
      (sender : Sender) (sh : SaslHandler) (pm : PlainMechanism) (challenge : Bytes)
      → challenge ≢ codes "+"
      → respond sender describe encode64 decode64 sh pm challenge ≡ (abort sender describe sh).0
  unfolding Handlers.reply next_plain
  respond-abort sender sh pm challenge h = elim (Bool-cases (equal challenge (codes "+"))) [
    | inl same ↦ absurd (h ((bytes_eq.beq_iff challenge (codes "+")).0 same))
    | inr other ↦ unfold respond in rw (other, respond) (go (decode64 challenge))
  ]
    where
      go :
          (o : Option Bytes)
          → elim o as (λ _. SaslHandler) [
            | none ↦ (abort sender describe sh).0
            | some decoded ↦ Handlers.reply sender describe sh (next_plain decoded)
          ]
            ≡ (abort sender describe sh).0
      go none = refl
      go (some d) = unfold Handlers.reply next_plain in refl

  asks_lem :
      (config : ConnectionConfig) (u p : ℕ) (us ps challenge : Bytes)
      → challenge ≢ codes "+"
      → let s = at_challenge env.now (with_sasl (u ∷ us) (p ∷ ps) config) in
        take_turns (taking describe encode64 decode64 env stamp) (asks source line challenge) s
        ≡ some (
            with_given_up s
              (u ∷ us)
              (p ∷ ps)
              ((s.log ++ []) ++ sent (codes "AUTHENTICATE" ∷ codes "*" ∷ []) ∷ []))
  unfolding take_turns take_turn with_sasl loop_round dispatch_event run receive event_of
      setup_default_handlers setup_others has_sasl subscribe_all subscribe_sasl
      subscribe_capabilities subscribe_registration subscribe_ping new_event_bus subscribe type_text
      lookup insert equal new_sasl_handler new_ping_handler run_handlers emissions create_events
      determine_event_type event_types talk_types parse_server_time event_data events_of
      get_trailing handle_authenticate Sasl.is_requesting Sasl.is_active Sasl.send abort
      Ping.handle_raw
  asks_lem config u p us ps challenge h =
      let s = at_challenge env.now (with_sasl (u ∷ us) (p ∷ ps) config) in
      ap
        (λ sh. some (
          with_sasl_handler (taking describe encode64 decode64 env stamp) (λ _. sh)
            (record s { log = s.log ++ [] })))
        (respond-abort (λ o l. none)
          (record (new_sasl_handler (u ∷ us) (p ∷ ps)) {
            state = SaslState.authenticating;
            mechanism = some (new_plain_mechanism (u ∷ us) (p ∷ ps));
            timer = true;
            available_mechs = codes "PLAIN" ∷ [];
          })
          (new_plain_mechanism (u ∷ us) (p ∷ ps)) challenge h)

  aborted_lem :
      (config : ConnectionConfig) (u p : ℕ) (us ps nick text : Bytes) (log : List Output)
      → let s = at_challenge env.now (with_sasl (u ∷ us) (p ∷ ps) config) in
        take_turns
          (taking describe encode64 decode64 env stamp)
          (aborted source line nick text)
          (with_given_up s (u ∷ us) (p ∷ ps) log)
        ≡ some (with_given_up s (u ∷ us) (p ∷ ps) (grown log ([] ∷ [] ∷ [] ∷ [])))
  unfolding take_turns take_turn with_sasl loop_round wait_round dispatch_event run receive event_of
      setup_default_handlers setup_others has_sasl subscribe_all subscribe_sasl
      subscribe_capabilities subscribe_registration subscribe_ping new_event_bus subscribe type_text
      lookup insert equal new_sasl_handler new_ping_handler new_capabilities_handler run_handlers
      emissions create_events determine_event_type event_types talk_types numeric_types one_of
      parse_server_time event_data events_of handle_sasl_fail Sasl.is_active Ping.handle_raw
  aborted_lem config u p us ps nick text log = refl

  -- On a connection that takes every line, when the server sends PLAIN a challenge that it has no
  -- answer to, the handler aborts with AUTHENTICATE *, and the server's answer to that is passed
  -- over: CAP END is not sent, the negotiation is still going on, and neither the event loop nor
  -- the goroutine that waits has anything to do. CAP END is sent when the timer of the goroutine
  -- runs out.
  pub given_up_waits :
      (config : ConnectionConfig) (u p : ℕ) (us ps challenge nick text : Bytes)
      → challenge ≢ codes "+"
      → (s : Session) × (take_turns
            (taking describe encode64 decode64 env stamp)
            (to_challenge source line
              ++ asks source line challenge
              ++ aborted source line nick text)
            (new_session (with_sasl (u ∷ us) (p ∷ ps) config))
          ≡ some s)
        × (sent_lines s.log
            ≡ opening_lines (with_sasl (u ∷ us) (p ∷ ps) config)
              ++ (codes "AUTHENTICATE" ∷ codes "*" ∷ []) ∷ [])
        × (s.handlers.capabilities.negotiating ≡ true)
        × (wait_round (taking describe encode64 decode64 env stamp) s ≡ s)
        × (loop_round (taking describe encode64 decode64 env stamp) s ≡ s)
        × (sent_lines (wait_times_out_round (taking describe encode64 decode64 env stamp) s).log
            ≡ sent_lines s.log ++ (codes "CAP" ∷ codes "END" ∷ []) ∷ [])
  unfolding wait_times_out_round wait_times_out handle_cap_end Negotiation.send send_line with_sasl
      with_password sent_lines wait_round loop_round setup_default_handlers setup_others has_sasl
      new_capabilities_handler equal emissions
  given_up_waits config u p us ps challenge nick text h =
      let c = with_sasl (u ∷ us) (p ∷ ps) config in
      let w = taking describe encode64 decode64 env stamp in
      let s1 = at_challenge env.now c in
      let line_out = sent (codes "AUTHENTICATE" ∷ codes "*" ∷ []) ∷ [] in
      let s2 = with_given_up s1 (u ∷ us) (p ∷ ps) ((s1.log ++ []) ++ line_out) in
      let s3 =
        with_given_up s1 (u ∷ us) (p ∷ ps) (grown s1.log ([] ∷ line_out ∷ [] ∷ [] ∷ [] ∷ [])) in
      (
        s3,
        take_turns-++ w (to_challenge source line ++ asks source line challenge)
              (aborted source line nick text) (new_session c) s2
              (take_turns-++ w (to_challenge source line) (asks source line challenge)
                  (new_session c) s1
                  (to_challenge_lem describe encode64 decode64 env stamp source line config
                    config.password u p us ps)
                ∙ asks_lem config u p us ps challenge h)
            ∙ aborted_lem config u p us ps nick text s2.log,
        sent_lines-grown s1.log ([] ∷ line_out ∷ [] ∷ [] ∷ [] ∷ [])
            ∙ ap (λ r. r ++ (codes "AUTHENTICATE" ∷ codes "*" ∷ []) ∷ []) (begun_lines env.now c),
        refl,
        ap (λ log. record s3 { log = log }) (append-nil s3.log),
        refl,
        sent_lines-grown s3.log ((sent (codes "CAP" ∷ codes "END" ∷ []) ∷ []) ∷ []),
      )
